-- ===== src/Compiler/Refinement/Words.antt =====
-- Arithmetic of fixed width on bit patterns, which Futhark and MLIR both define: a pattern of `w`
-- bits is a number below 2 ^ w, and its leading bit is the sign.
use mlir_backend.Prelude.{
  ℕ, ◌+◌, ◌-◌, ◌*◌, ◌/◌, ◌%◌, ◌^◌, Bool, true, false, not, Option, none, some, ltb, leb, ◌==◌,
  if◌then◌else◌,
}

-- a width and a pattern of so many bits
pub record Number : Type 0 where
  pub width : ℕ
  pub pattern : ℕ

-- the pattern of a truth value
abbrev pub bit : Bool → ℕ
bit b = if b then 1 else 0

abbrev pub sign_bit : ℕ → ℕ → Bool
sign_bit w a = leb (2 ^ w / 2) a

abbrev pub magnitude : ℕ → ℕ → ℕ
magnitude w a = if sign_bit w a then 2 ^ w - a else a

abbrev same : Bool → Bool → Bool
same true b = b
same false b = not b

-- The pattern of a number that is given by its sign and its magnitude, where `w` bits hold it.
abbrev with_sign : ℕ → Bool → ℕ → Option ℕ
with_sign w true q = if leb q (2 ^ w / 2) then some ((2 ^ w - q) % 2 ^ w) else none
with_sign w false q = if ltb q (2 ^ w / 2) then some q else none

abbrev pub add_words : ℕ → ℕ → ℕ → ℕ
add_words w a b = (a + b) % 2 ^ w

abbrev pub sub_words : ℕ → ℕ → ℕ → ℕ
sub_words w a b = (a + (2 ^ w - b)) % 2 ^ w

abbrev pub mul_words : ℕ → ℕ → ℕ → ℕ
mul_words w a b = a * b % 2 ^ w

-- Signed division that rounds towards zero. It is undefined by zero and where it overflows.
abbrev pub quot_words : ℕ → ℕ → ℕ → Option ℕ
quot_words w a b =
    if b == 0
    then none
    else with_sign w (not (same (sign_bit w a) (sign_bit w b))) (magnitude w a / magnitude w b)

-- Signed division that rounds up.
abbrev pub div_up_words : ℕ → ℕ → ℕ → Option ℕ
div_up_words w a b =
    if b == 0
    then none
    else if same (sign_bit w a) (sign_bit w b)
    then with_sign w false ((magnitude w a + (magnitude w b - 1)) / magnitude w b)
    else with_sign w true (magnitude w a / magnitude w b)

-- the pattern moved by half of the range, which orders signed numbers
abbrev biased : ℕ → ℕ → ℕ
biased w a = (a + 2 ^ w / 2) % 2 ^ w

abbrev pub signed_lt : ℕ → ℕ → ℕ → Bool
signed_lt w a b = ltb (biased w a) (biased w b)

abbrev pub signed_le : ℕ → ℕ → ℕ → Bool
signed_le w a b = leb (biased w a) (biased w b)

-- From one width to a wider one, with the sign repeated.
abbrev pub extend_sign : ℕ → ℕ → ℕ → ℕ
extend_sign w w' a = if sign_bit w a then a + (2 ^ w' - 2 ^ w) else a
