-- ===== src/Compiler/Values.antt =====
-- compiler.hpp: constants, subexpressions, casts and values known to be constant.
use mlir_backend.Prelude.{
  ℕ, ◌*◌, Bool, true, false, List, [], ◌∷◌, ◌&&◌, ◌==◌, if◌then◌else◌, Result, ok, err, Error,
  or_err,
}
use mlir_backend.Ir.Primitive.{
  PrimValue, int_value, float_value, bool_value, unit_value, int_value_get, int_value_width,
  float_value_get, float_value_width, FloatOps,
}
use mlir_backend.Ir.Core.{SubExp, constant, var}
use mlir_backend.Compiler.Monad.{pure, throw, lift, ◌>>=◌, map_action}
use mlir_backend.Compiler.Mlir.{
  Mlir, MlirType, integer, index, ranked_tensor, Attribute, integer_attr, float_attr, bool_attr, Op,
  scalar, Cast,
}
use mlir_backend.Compiler.State.{Lower, Values, emit_one, lookup}
use mlir_backend.Compiler.Types.{
  static_shape, type_eq, get_float_type, get_ranked_type, is_int_or_float,
}

-- `getRankedType(ty).getRank() == 0` where `ty` is a tensor
abbrev pub is_scalar_tensor : MlirType → Bool
is_scalar_tensor (ranked_tensor [] _) = true
is_scalar_tensor _ = false

-- `RankedTensorType::hasStaticShape() && getNumElements() == 0`
abbrev pub product : List ℕ → ℕ
product [] = 1
product (d ∷ ds) = d * product ds

-- `getPrimValueAttr`
unfoldable pub get_prim_value_attr : FloatOps → PrimValue → Result Attribute
get_prim_value_attr floats (int_value v) =
    ok (integer_attr (integer (int_value_width v)) (int_value_get v))
get_prim_value_attr floats (float_value v) = elim (get_float_type (float_value_width v)) [
  | ok t ↦ ok (float_attr t (float_value_get floats v))
  | err e ↦ err e
]
get_prim_value_attr floats (bool_value b) = ok (bool_attr b)
get_prim_value_attr floats unit_value = err Error.undefined

module _ (mlir : Mlir) (floats : FloatOps) where
  open mlir use {Value, type_of}

  -- `LowerPrimValue`
  unfoldable pub lower_prim_value : PrimValue → Lower mlir Value
  lower_prim_value v = do
    a ← lift (get_prim_value_attr floats v)
    emit_one mlir (Op.constant (scalar a))

  -- `LowerSubExp`
  unfoldable pub lower_sub_exp : SubExp → Lower mlir Value
  lower_sub_exp (constant c) = lower_prim_value c
  lower_sub_exp (var v) = lookup mlir v.name

  abbrev pub lower_sub_exps : List SubExp → Lower mlir (Values mlir)
  lower_sub_exps = map_action lower_sub_exp

  -- `IndexCastOp` to `index`
  abbrev pub to_index : Value → Lower mlir Value
  to_index v = emit_one mlir (Op.cast Cast.index_cast index v)

  -- `castToType`
  unfoldable pub cast_to_type : Value → MlirType → Lower mlir Value
  cast_to_type value t =
      if type_eq (type_of value) t
      then pure value
      else if mlir.are_cast_compatible (type_of value) t
      then emit_one mlir (Op.cast Cast.tensor_cast t value)
      else if is_scalar_tensor (type_of value) && is_int_or_float t
      then emit_one mlir (Op.tensor_extract value [])
      else throw Error.undefined

  -- What a matcher finds in the module.
  unfoldable pub read_ir : {A : Type 0} → (mlir.Module → Result A) → Lower mlir A
  read_ir f s = lift (f s.ir) s

  -- `getConstantIntTensor`: an empty tensor needs no constant.
  unfoldable pub get_constant_int_tensor : Value → Lower mlir (List ℕ)
  get_constant_int_tensor x = do
    (shape, _) ← lift (get_ranked_type (type_of x))
    if static_shape mlir shape && product shape == 0
        then pure []
        else read_ir (λ m. or_err (mlir.constant_ints x m) Error.undefined)

  -- `getConstantInt`
  unfoldable pub get_constant_int : Value → Lower mlir ℕ
  get_constant_int x = read_ir λ m. or_err (mlir.constant_int x m) Error.undefined
