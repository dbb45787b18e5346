-- ===== src/Ir/Primitive/Roundtrip.antt =====
-- primitive.hpp: `PrimValue::CreateInt` against `PrimValue::GetIntValue`.
use mlir_backend.Prelude.{ℕ, ◌<◌, ◌≤◌, ◌-◌, ◌^◌, ◌≡◌, ◌⊎◌, ok, arith}
use mlir_backend.Ir.Primitive.{
  IntType, int8, int16, int32, int64, int_type_width, create_int, prim_value_get_int_value,
}

-- The bits of an int64_t whose value a signed type of `w` bits can hold.
abbrev pub IsInRange : ℕ → ℕ → Type 0
IsInRange w v = v < 2 ^ (w - 1) ⊎ ((2 ^ 64 - 2 ^ (w - 1) ≤ v) × (v < 2 ^ 64))

pub get_create_int64 : (v : ℕ) → v < 2 ^ 64 → prim_value_get_int_value (create_int v 64) ≡ ok v
unfolding create_int prim_value_get_int_value
get_create_int64 v h = ground arith

-- A value that a type's width can hold, negative or not, is what is read from the constant that is
-- created from it at that width.
pub get-create_int :
    (t : IntType) (v : ℕ)
    → IsInRange (int_type_width t) v
    → prim_value_get_int_value (create_int v (int_type_width t)) ≡ ok v
unfolding create_int prim_value_get_int_value
get-create_int int8 v h = ground arith
get-create_int int16 v h = ground arith
get-create_int int32 v h = ground arith
get-create_int int64 v h = ground arith
