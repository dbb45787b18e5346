-- ===== src/Parser/Numbers.antt =====
-- `std::stoi`, `std::stoll` and `std::stoull` in base 10: leading space, an optional sign, and the
-- digits up to the first character that is none. Results are bit patterns of the result's width.
pub mod Roundtrip
use mlir_backend.Prelude.{
  ℕ, ◌+◌, ◌-◌, ◌*◌, ◌%◌, ◌^◌, Bool, true, false, ◌&&◌, ◌||◌, List, [], ◌∷◌, ltb, leb, ◌==◌,
  if◌then◌else◌, Text, Result, ok, err, Error,
}

-- `isdigit`
abbrev pub is_digit : ℕ → Bool
is_digit c = leb b'0' c && leb c b'9'

-- The longest prefix of digits.
unfoldable pub digit_prefix : Text → Text
digit_prefix [] = []
digit_prefix (c ∷ s) = if is_digit c then c ∷ digit_prefix s else []

-- The value of digits, after those that gave `acc`.
unfoldable pub decimal : ℕ → Text → ℕ
decimal acc [] = acc
decimal acc (c ∷ s) = decimal (acc * 10 + (c - b'0')) s

skip_space : Text → Text
skip_space [] = []
skip_space (c ∷ s) = if c == b' ' || (leb 9 c && leb c 13) then skip_space s else c ∷ s

-- `-`, and what follows the sign.
split_sign : Text → Bool × Text
split_sign [] = (false, [])
split_sign (c ∷ s) =
    if c == b'-' then (true, s) else if c == b'+' then (false, s) else (false, c ∷ s)

-- A signed type of `w` bits.
signed_pattern : ℕ → Bool → ℕ → Result ℕ
signed_pattern w true v =
    if leb v (2 ^ (w - 1)) then ok ((2 ^ w - v) % 2 ^ w) else err Error.out_of_range
signed_pattern w false v = if ltb v (2 ^ (w - 1)) then ok v else err Error.out_of_range

-- An unsigned type of `w` bits: a minus sign negates modulo 2 ^ w.
unsigned_pattern : ℕ → Bool → ℕ → Result ℕ
unsigned_pattern w neg v =
    if ltb v (2 ^ w) then ok (if neg then (2 ^ w - v) % 2 ^ w else v) else err Error.out_of_range

convert : (Bool → ℕ → Result ℕ) → Bool × Text → Result ℕ
unfolding digit_prefix decimal
convert pattern (neg, s) = no_digits (digit_prefix s)
  where
    no_digits : Text → Result ℕ
    no_digits [] = err Error.invalid_argument
    no_digits (c ∷ ds) = pattern neg (decimal 0 (c ∷ ds))

unfoldable pub stoi : Text → Result ℕ
unfolding skip_space split_sign signed_pattern convert
stoi s = convert (signed_pattern 32) (split_sign (skip_space s))

unfoldable pub stoll : Text → Result ℕ
unfolding skip_space split_sign signed_pattern convert
stoll s = convert (signed_pattern 64) (split_sign (skip_space s))

unfoldable pub stoull : Text → Result ℕ
unfolding skip_space split_sign unsigned_pattern convert
stoull s = convert (unsigned_pattern 64) (split_sign (skip_space s))
