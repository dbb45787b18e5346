-- ===== src/Word.antt =====
-- Fixed-width integers of C++ as bit patterns: an intN_t is the number below 2 ^ N whose bits it
-- has, and a conversion keeps the low bits or repeats the sign bit.
use mlir_backend.Prelude.{ℕ, ◌+◌, ◌-◌, ◌/◌, ◌%◌, ◌^◌, Bool, true, false, ◌||◌, ltb, if◌then◌else◌}

-- Conversion to a type of `w` bits.
abbrev pub truncate : ℕ → ℕ → ℕ
truncate w v = v % 2 ^ w

-- Conversion of a signed `w`-bit pattern to 64 bits.
abbrev pub sign_extend : ℕ → ℕ → ℕ
sign_extend w v = if ltb v (2 ^ w / 2) then v else v + (2 ^ 64 - 2 ^ w)

-- The sign of an int64_t.
abbrev pub is_negative : ℕ → Bool
is_negative v = if ltb v (2 ^ 63) then false else true

-- `v < k` on int64_t, for a constant k that is not negative.
abbrev pub signed_ltb : ℕ → ℕ → Bool
signed_ltb v k = is_negative v || ltb v k
