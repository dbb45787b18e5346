-- ===== src/Parser/Values/Literals.antt =====
-- parser.hpp `VisitPrimValueInteger` against the literals that the Futhark compiler prints.
use mlir_backend.Prelude.{
  refl, ◌++◌, ℕ, ◌<◌, ◌^◌, ◌≡◌, ap, ◌∙◌, Text, codes, Result, ok, ◌>>=◌, arith,
}
use mlir_backend.Word.{truncate, sign_extend}
use mlir_backend.Ir.Primitive.{
  IntValue, int8_value, int16_value, int32_value, int64_value, FitsWidth, int_value_get,
}
use mlir_backend.Parser.Numbers.{stoll}
use mlir_backend.Parser.Numbers.Roundtrip.{signed_text, stoll-signed_text}
use mlir_backend.Parser.Values.{visit_prim_value_integer}

-- The suffix of a literal.
abbrev pub suffix : IntValue → Text
suffix (int8_value _) = codes "i8"
suffix (int16_value _) = codes "i16"
suffix (int32_value _) = codes "i32"
suffix (int64_value _) = codes "i64"

int_value_get-fits : (v : IntValue) → FitsWidth v → int_value_get v < 2 ^ 64
unfolding int_value_get
int_value_get-fits (int8_value v) h = ground arith
int_value_get-fits (int16_value v) h = ground arith
int_value_get-fits (int32_value v) h = ground arith
int_value_get-fits (int64_value v) h = h

>>=-ok : {A B : Type 0} (m : Result A) (f : A → Result B) {a : A} → m ≡ ok a → (m >>= f) ≡ f a
>>=-ok m f h = ap (λ m. m >>= f) h

-- The low bits of a sign extension are the pattern that was extended.
truncate-sign_extend8 : (v : ℕ) → v < 2 ^ 8 → truncate 8 (sign_extend 8 v) ≡ v
truncate-sign_extend8 v h = ground arith

truncate-sign_extend16 : (v : ℕ) → v < 2 ^ 16 → truncate 16 (sign_extend 16 v) ≡ v
truncate-sign_extend16 v h = ground arith

truncate-sign_extend32 : (v : ℕ) → v < 2 ^ 32 → truncate 32 (sign_extend 32 v) ≡ v
truncate-sign_extend32 v h = ground arith

-- Reading the printed form of an integer of any width, negative ones included, gives the integer.
pub visit_prim_value_integer-text :
    (v : IntValue)
    → FitsWidth v
    → visit_prim_value_integer (signed_text (int_value_get v)) (suffix v) ≡ ok v
unfolding visit_prim_value_integer int_value_get
visit_prim_value_integer-text (int8_value v) h =
    let narrow = truncate-sign_extend8 v h in
    >>=-ok _ _ (stoll-signed_text _ (int_value_get-fits (int8_value v) h))
    ∙ ap (λ n. ok (int8_value n)) narrow
visit_prim_value_integer-text (int16_value v) h =
    let narrow = truncate-sign_extend16 v h in
    >>=-ok _ _ (stoll-signed_text _ (int_value_get-fits (int16_value v) h))
    ∙ ap (λ n. ok (int16_value n)) narrow
visit_prim_value_integer-text (int32_value v) h =
    let narrow = truncate-sign_extend32 v h in
    >>=-ok _ _ (stoll-signed_text _ (int_value_get-fits (int32_value v) h))
    ∙ ap (λ n. ok (int32_value n)) narrow
visit_prim_value_integer-text (int64_value v) h = >>=-ok _ _ (stoll-signed_text _ h)

-- Zero at the width of a value.
abbrev pub zero_of : IntValue → IntValue
zero_of (int8_value _) = int8_value 0
zero_of (int16_value _) = int16_value 0
zero_of (int32_value _) = int32_value 0
zero_of (int64_value _) = int64_value 0

-- A hexadecimal literal, which the grammar admits, is read as zero, whatever its digits and its type.
pub visit_prim_value_integer-hex :
    (digits : Text) (v : IntValue)
    → visit_prim_value_integer (codes "0x" ++ digits) (suffix v) ≡ ok (zero_of v)
unfolding visit_prim_value_integer stoll
visit_prim_value_integer-hex digits (int8_value _) = refl
visit_prim_value_integer-hex digits (int16_value _) = refl
visit_prim_value_integer-hex digits (int32_value _) = refl
visit_prim_value_integer-hex digits (int64_value _) = refl
