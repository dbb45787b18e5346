-- ===== src/Compiler/Scalars/Intrinsics.antt =====
-- compiler.hpp `IntrinsicBaseName`: the name of a primitive function and the width behind it.
use mlir_backend.Prelude.{
  ℕ, ◌≡◌, ◌≢◌, refl, sym, ap, ◌∙◌, [], ◌∷◌, ◌++◌, append_assoc, append-nil, All, All-append, Bool,
  true, false, ◌==◌, Option, none, some, Text, if◌then◌else◌, arith,
}
use mathlib.Core.Path.{subst}
use mathlib.Core.List.{reverse, reverse-append, reverse-reverse, reverse-cons}
use mlir_backend.Parser.Numbers.{is_digit}
use mlir_backend.Compiler.Scalars.{
  drop_digits, drop_underscore, some_text, ends_in_digit, intrinsic_base_name,
}

abbrev pub IsDigits : Text → Type 0
IsDigits = All (λ c. is_digit c ≡ true)

reverse-IsDigits : (ds : Text) → IsDigits ds → IsDigits (reverse ds)
reverse-IsDigits [] h = h
reverse-IsDigits (d ∷ ds) (h, hs) =
    subst IsDigits (sym (reverse-cons d ds))
      (All-append _ (reverse ds) (d ∷ []) (reverse-IsDigits ds hs) (h, tt))

drop_digits-append : (ds s : Text) → IsDigits ds → drop_digits (ds ++ s) ≡ drop_digits s
unfolding drop_digits
drop_digits-append [] s h = refl
drop_digits-append (d ∷ ds) s (h, hs) = ground (arith, drop_digits-append ds s hs)

ends_in_digit-append :
    (ds : Text) (d : ℕ) (s : Text)
    → IsDigits ds
    → is_digit d ≡ true
    → ends_in_digit (ds ++ d ∷ s) ≡ true
unfolding ends_in_digit
ends_in_digit-append [] d s h k = k
ends_in_digit-append (c ∷ ds) d s (h, hs) k = h

some_text-reverse : (base : Text) → base ≢ [] → some_text (reverse base) ≡ some base
unfolding some_text
some_text-reverse base h = read (reverse base) refl
  where
    read : (r : Text) → reverse base ≡ r → some_text r ≡ some base
    read [] e = elim (h (sym (reverse-reverse base) ∙ ap reverse e)) [ ]
    read (c ∷ s) e = ap some (ap reverse (sym e) ∙ reverse-reverse base)

-- The digits at the end of a text that is read from there.
skipped :
    (ds : Text) (d : ℕ) (s : Text)
    → IsDigits ds
    → is_digit d ≡ true
    → drop_digits (ds ++ d ∷ s) ≡ drop_digits s
unfolding drop_digits
skipped ds d s hs h = drop_digits-append ds (d ∷ s) hs ∙ ground (arith, h)

-- The name read from its end: the width, and what is before it.
intrinsic_base_name-digits :
    (rest : Text) (d : ℕ) (ds : Text)
    → IsDigits (d ∷ ds)
    → intrinsic_base_name (rest ++ d ∷ ds)
      ≡ some_text (drop_underscore (drop_digits (reverse rest)))
unfolding intrinsic_base_name
intrinsic_base_name-digits rest d ds (h, hs) =
    let digits = reverse-IsDigits ds hs in
    let from_end =
      reverse-append rest (d ∷ ds)
      ∙ ap (λ s. s ++ reverse rest) (reverse-cons d ds)
      ∙ append_assoc (reverse ds) (d ∷ []) (reverse rest) in
    subst
      (λ end.
        (if ends_in_digit end then some_text (drop_underscore (drop_digits end)) else none)
        ≡ some_text (drop_underscore (drop_digits (reverse rest))))
      (sym from_end)
      (taken (ends_in_digit-append (reverse ds) d (reverse rest) digits h)
        ∙ ap (λ s. some_text (drop_underscore s)) (skipped (reverse ds) d (reverse rest) digits h))
  where
    taken : {b : Bool} {x : Option Text} → b ≡ true → (if b then x else none) ≡ x
    taken e = ground arith

-- The base of a name ends in no digit and no underscore.
abbrev pub EndsInLetter : Text → Type 0
EndsInLetter base =
    (init : Text) × (c : ℕ) × (base ≡ init ++ c ∷ []) × (is_digit c ≡ false) × ((c == b'_') ≡ false)

-- What may stand between the base and the width: an underscore, or nothing if the base ends in a letter.
abbrev pub Separates : Text → Text → Type 0
Separates base (c ∷ []) = (c ≡ b'_') × (base ≢ [])
Separates base [] = EndsInLetter base
Separates base (_ ∷ _ ∷ _) = ⊥

none_dropped :
    (c : ℕ) (s : Text)
    → is_digit c ≡ false
    → (c == b'_') ≡ false
    → drop_underscore (drop_digits (c ∷ s)) ≡ c ∷ s
unfolding drop_digits drop_underscore
none_dropped c s h k = ground arith

-- The name of a primitive function is what is before its width, with an underscore between them, or
-- with nothing between them where the name ends in neither a digit nor an underscore.
pub intrinsic_base_name-Separates :
    (base sep : Text) (d : ℕ) (ds : Text)
    → Separates base sep
    → IsDigits (d ∷ ds)
    → intrinsic_base_name ((base ++ sep) ++ d ∷ ds) ≡ some base
unfolding drop_digits drop_underscore
intrinsic_base_name-Separates base (c ∷ []) d ds (e, filled) h =
    intrinsic_base_name-digits (base ++ c ∷ []) d ds h
    ∙ ap (λ s. some_text (drop_underscore (drop_digits s))) (reverse-append base (c ∷ []))
    ∙ ap some_text (one_dropped (reverse base))
    ∙ some_text-reverse base filled
  where
    one_dropped : (s : Text) → drop_underscore (drop_digits (c ∷ s)) ≡ s
    one_dropped s = ground arith
intrinsic_base_name-Separates base [] d ds (init, c, e, no_digit, no_underscore) h =
    let from_end = ap reverse e ∙ reverse-append init (c ∷ []) in
    ap (λ b. intrinsic_base_name (b ++ d ∷ ds)) (append-nil base)
    ∙ intrinsic_base_name-digits base d ds h
    ∙ ap some_text (
        ap (λ r. drop_underscore (drop_digits r)) from_end
        ∙ none_dropped c (reverse init) no_digit no_underscore
        ∙ sym from_end)
    ∙ some_text-reverse base (filled init e)
  where
    filled : (init : Text) → base ≡ init ++ c ∷ [] → base ≢ []
    filled [] e f = cc
    filled (x ∷ init) e f = cc
intrinsic_base_name-Separates base (_ ∷ _ ∷ _) d ds h hs = elim h [ ]
