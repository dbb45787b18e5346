-- ===== src/Compiler/Types.antt =====
-- compiler.hpp: `toShapeType`, `LowerTy` and what stands below it.
use mlir_backend.Prelude.{
  ℕ, Bool, true, false, List, ◌==◌, if◌then◌else◌, Result, ok, err, Error, ◌>>=◌, map_result, not,
  exists,
}
use native.Mathlib.Decide.{ℕ_discrete}
use mlir_backend.Ir.Primitive.{FloatType, PrimType, int_type_width, float_type_width}
use mlir_backend.Ir.Core.{
  SubExp, constant, var, sub_exp_get_int_value, IrType, type_prim, type_array,
}
use mlir_backend.Compiler.Mlir.{Mlir, MlirType, integer, f16, f32, f64, index, ranked_tensor}

pub MlirType-discrete : Discrete MlirType
MlirType-discrete = hlevel ℕ_discrete

-- `==` of two types
abbrev pub type_eq : MlirType → MlirType → Bool
type_eq a b = elim (MlirType-discrete a b) [ yes _ ↦ true | no _ ↦ false ]

-- `LowerPrimTypeFloat`
abbrev pub lower_prim_type_float : FloatType → MlirType
lower_prim_type_float t =
    let w = float_type_width t in if w == 16 then f16 else if w == 32 then f32 else f64

-- `LowerPrimType`
unfoldable pub lower_prim_type : PrimType → Result MlirType
lower_prim_type (PrimType.int t) = ok (integer (int_type_width t))
lower_prim_type (PrimType.float t) = ok (lower_prim_type_float t)
lower_prim_type PrimType.bool = ok (integer 1)
lower_prim_type PrimType.unit = err Error.undefined

-- `GetFloatType`
abbrev pub get_float_type : ℕ → Result MlirType
get_float_type width =
    if width == 16
    then ok f16
    else if width == 32
    then ok f32
    else if width == 64
    then ok f64
    else err Error.undefined

-- The shape and the element type of a `RankedTensorType`: `getRankedType`.
abbrev pub get_ranked_type : MlirType → Result (List ℕ × MlirType)
get_ranked_type (ranked_tensor shape elem) = ok (shape, elem)
get_ranked_type _ = err Error.undefined

abbrev pub is_tensor : MlirType → Bool
is_tensor (ranked_tensor _ _) = true
is_tensor _ = false

-- `Type::isIntOrFloat`
abbrev pub is_int_or_float : MlirType → Bool
is_int_or_float (ranked_tensor _ _) = false
is_int_or_float index = false
is_int_or_float _ = true

-- `LowerSegOpBaseType`
unfoldable pub lower_seg_op_base_type : IrType → Result MlirType
unfolding lower_prim_type
lower_seg_op_base_type (type_prim t) = lower_prim_type t
lower_seg_op_base_type _ = err Error.undefined

module _ (mlir : Mlir) where
  -- `ShapedType::isDynamic`
  abbrev pub is_dynamic : ℕ → Bool
  is_dynamic d = d == mlir.k_dynamic

  -- `ShapedType::isStaticShape`
  abbrev pub static_shape : List ℕ → Bool
  static_shape shape = not (exists is_dynamic shape)

  -- `toShapeType`
  unfoldable pub to_shape_type : SubExp → Result ℕ
  to_shape_type (constant c) = sub_exp_get_int_value (constant c)
  to_shape_type (var _) = ok mlir.k_dynamic

  -- `toShapeType` of a range, which is also `LowerShape`
  abbrev pub to_shape_types : List SubExp → Result (List ℕ)
  to_shape_types = map_result to_shape_type

  -- `LowerTy`, with `LowerTypeArray`
  unfoldable pub lower_ty : IrType → Result MlirType
  lower_ty (type_prim t) = lower_prim_type t
  lower_ty (type_array elem shape _) = do
    dims ← to_shape_types shape.dims
    e ← lower_prim_type elem
    ok (ranked_tensor dims e)
  lower_ty _ = err Error.undefined
