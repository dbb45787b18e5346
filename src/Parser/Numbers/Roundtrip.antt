-- ===== src/Parser/Numbers/Roundtrip.antt =====
-- `std::stoll` against the decimal notation of a number.
use mlir_backend.Prelude.{
  ℕ, zero, suc, ◌+◌, ◌-◌, ◌*◌, ◌/◌, ◌%◌, ◌^◌, ◌<◌, ◌≤◌, ◌≡◌, ◌≢◌, refl, true, false, [], ◌∷◌, ◌++◌,
  ltb, if◌then◌else◌, Text, ok, arith, All, All-append,
}
use native.Mathlib.Numerals.{unary_clauses}
use mlir_backend.Parser.Numbers.{is_digit, digit_prefix, decimal, stoll}

-- The digits of a number, the most significant first; `fuel` digits are enough below 10 ^ fuel.
unfoldable pub decimal_text : ℕ → ℕ → Text
decimal_text zero n = []
decimal_text (suc fuel) n =
    let front = decimal_text fuel (n / 10) in
    if ltb n 10 then (b'0' + n) ∷ [] else front ++ (b'0' + n % 10) ∷ []

decimal-append : (acc : ℕ) (s t : Text) → decimal acc (s ++ t) ≡ decimal (decimal acc s) t
unfolding decimal
decimal-append acc [] t = refl
decimal-append acc (c ∷ s) t = decimal-append (acc * 10 + (c - b'0')) s t

decimal-decimal_text : (fuel n : ℕ) → n < 10 ^ fuel → decimal 0 (decimal_text fuel n) ≡ n
unfolding decimal decimal_text
decimal-decimal_text zero n h = omega arith
decimal-decimal_text (suc fuel) n h =
    let ih = decimal-decimal_text fuel (n / 10) (tenth fuel n h) in
    let last = decimal-append 0 (decimal_text fuel (n / 10)) ((b'0' + n % 10) ∷ []) in ground arith
  where
    tenth : (fuel n : ℕ) → n < 10 ^ suc fuel → n / 10 < 10 ^ fuel
    tenth fuel n h = let h' = simp unary_clauses at h in omega arith

-- A notation starts with a digit and holds nothing else.
abbrev IsDigits : Text → Type 0
IsDigits s = All (λ c. is_digit c ≡ true) s

decimal_text-IsDigits : (fuel n : ℕ) → IsDigits (decimal_text fuel n)
unfolding decimal_text
decimal_text-IsDigits zero n = tt
decimal_text-IsDigits (suc fuel) n =
    elim (ltb n 10)
        as (λ b.
          ltb n 10 ≡ b
          → IsDigits
              (if b then (b'0' + n) ∷ [] else decimal_text fuel (n / 10) ++ (b'0' + n % 10) ∷ [])) [
                | true ↦ λ e. (ground arith, tt)
                | false ↦ λ e.
                    All-append _ (decimal_text fuel (n / 10)) _
                      (decimal_text-IsDigits fuel (n / 10)) (ground arith, tt)
              ]
      refl

digit_prefix-IsDigits : (s : Text) → IsDigits s → digit_prefix s ≡ s
unfolding digit_prefix
digit_prefix-IsDigits [] h = refl
digit_prefix-IsDigits (c ∷ s) (h, hs) = let ih = digit_prefix-IsDigits s hs in ground arith

-- What `stoll` does of digits alone.
stoll-IsDigits :
    (c : ℕ) (s : Text)
    → IsDigits (c ∷ s)
    → decimal 0 (c ∷ s) < 2 ^ 63
    → stoll (c ∷ s) ≡ ok (decimal 0 (c ∷ s))
unfolding stoll
stoll-IsDigits c s (h, hs) l = let p = digit_prefix-IsDigits (c ∷ s) (h, hs) in ground arith

-- The notation of an int64_t, given by its bits: 19 digits hold every magnitude.
abbrev pub signed_text : ℕ → Text
signed_text v = if ltb v (2 ^ 63) then decimal_text 19 v else b'-' ∷ decimal_text 19 (2 ^ 64 - v)

stoll-digits :
    (s : Text) (n : ℕ) → IsDigits s → decimal 0 s ≡ n → s ≢ [] → n < 2 ^ 63 → stoll s ≡ ok n
stoll-digits [] n h e ne l = elim (ne refl) [ ]
stoll-digits (c ∷ s) n h e ne l = let p = stoll-IsDigits c s h in ground arith

stoll-minus :
    (s : Text) (n : ℕ)
    → IsDigits s
    → decimal 0 s ≡ n
    → s ≢ []
    → n ≤ 2 ^ 63
    → stoll (b'-' ∷ s) ≡ ok ((2 ^ 64 - n) % 2 ^ 64)
unfolding stoll
stoll-minus [] n h e ne l = elim (ne refl) [ ]
stoll-minus (c ∷ s) n (h, hs) e ne l = let p = digit_prefix-IsDigits (c ∷ s) (h, hs) in ground arith

append-cons : (s : Text) (c : ℕ) → s ++ c ∷ [] ≢ []
append-cons [] c e = cc
append-cons (d ∷ s) c e = cc

decimal_text-cons : (fuel n : ℕ) → decimal_text (suc fuel) n ≢ []
unfolding decimal_text
decimal_text-cons fuel n e =
    let ne = append-cons (decimal_text fuel (n / 10)) (b'0' + n % 10) in ground arith

-- Reading the notation of an int64_t gives its bits back.
pub stoll-signed_text : (v : ℕ) → v < 2 ^ 64 → stoll (signed_text v) ≡ ok v
stoll-signed_text v h =
    let low = λ (p : v < 2 ^ 63).
      stoll-digits (decimal_text 19 v) v (decimal_text-IsDigits 19 v)
        (decimal-decimal_text 19 v (below p)) (decimal_text-cons 18 v) p in
    let high = λ (p : 2 ^ 64 - v ≤ 2 ^ 63).
      stoll-minus (decimal_text 19 (2 ^ 64 - v)) (2 ^ 64 - v) (decimal_text-IsDigits 19 _)
        (decimal-decimal_text 19 _ (below_eq p)) (decimal_text-cons 18 _) p in
    ground arith
  where
    below : {n : ℕ} → n < 2 ^ 63 → n < 10 ^ 19
    below p = omega arith

    below_eq : {n : ℕ} → n ≤ 2 ^ 63 → n < 10 ^ 19
    below_eq p = omega arith
