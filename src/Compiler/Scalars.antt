-- ===== src/Compiler/Scalars.antt =====
-- compiler.hpp: scalar operators, comparisons, conversions and Futhark's primitive functions.
pub mod Intrinsics
use mlir_backend.Prelude.{
  ℕ, Bool, false, List, [], ◌∷◌, Option, none, some, ◌==◌, ◌||◌, not, length, if◌then◌else◌, Text,
  codes, text_eq, Result, ok, err, Error,
}
use mathlib.Core.List.{reverse}
use mlir_backend.Ir.Primitive.{
  PrimType, prim_type_int, int_type_width, float_type_width, BinOp, CmpOp, ConvOp,
}
use mlir_backend.Parser.Numbers.{is_digit}
use mlir_backend.Parser.Values.{starts_with}
use mlir_backend.Compiler.Monad.{pure, throw, lift, ◌>>=◌, ◌>>◌}
use mlir_backend.Compiler.Mlir.{Mlir, Op, Arith, Cast, Comparison, CmpIPredicate, CmpFPredicate}
use mlir_backend.Compiler.State.{Lower, Values, emit_one, assert_that}
use mlir_backend.Compiler.Types.{is_tensor, lower_prim_type, get_float_type}

-- The name of a primitive function without its width: `IntrinsicBaseName` walks back over the
-- digits, then over one underscore. Both helpers read the name from its end.
drop_digits : Text → Text
drop_digits [] = []
drop_digits (c ∷ s) = if is_digit c then drop_digits s else c ∷ s

drop_underscore : Text → Text
drop_underscore [] = []
drop_underscore (c ∷ s) = if c == b'_' then s else c ∷ s

some_text : Text → Option Text
some_text [] = none
some_text (c ∷ s) = some (reverse (c ∷ s))

ends_in_digit : Text → Bool
ends_in_digit [] = false
ends_in_digit (c ∷ _) = is_digit c

-- `IntrinsicBaseName`
unfoldable pub intrinsic_base_name : Text → Option Text
unfolding drop_digits drop_underscore some_text ends_in_digit
intrinsic_base_name name =
    let end = reverse name in
    if ends_in_digit end then some_text (drop_underscore (drop_digits end)) else none

-- The table of `LowerIntrinsic`: the operation and how many arguments it takes.
unfoldable pub intrinsic_op : Text → Option (Arith × ℕ)
unfolding text_eq
intrinsic_op n =
    if text_eq n (codes "sqrt")
    then some (Arith.sqrt, 1)
    else if text_eq n (codes "rsqrt")
    then some (Arith.rsqrt, 1)
    else if text_eq n (codes "cbrt")
    then some (Arith.cbrt, 1)
    else if text_eq n (codes "exp")
    then some (Arith.exp, 1)
    else if text_eq n (codes "exp2")
    then some (Arith.exp2, 1)
    else if text_eq n (codes "expm1")
    then some (Arith.exp_m1, 1)
    else if text_eq n (codes "log")
    then some (Arith.log, 1)
    else if text_eq n (codes "log2")
    then some (Arith.log2, 1)
    else if text_eq n (codes "log10")
    then some (Arith.log10, 1)
    else if text_eq n (codes "log1p")
    then some (Arith.log1p, 1)
    else if text_eq n (codes "sin")
    then some (Arith.sin, 1)
    else if text_eq n (codes "cos")
    then some (Arith.cos, 1)
    else if text_eq n (codes "tan")
    then some (Arith.tan, 1)
    else if text_eq n (codes "asin")
    then some (Arith.asin, 1)
    else if text_eq n (codes "acos")
    then some (Arith.acos, 1)
    else if text_eq n (codes "atan")
    then some (Arith.atan, 1)
    else if text_eq n (codes "sinh")
    then some (Arith.sinh, 1)
    else if text_eq n (codes "cosh")
    then some (Arith.cosh, 1)
    else if text_eq n (codes "tanh")
    then some (Arith.tanh, 1)
    else if text_eq n (codes "asinh")
    then some (Arith.asinh, 1)
    else if text_eq n (codes "acosh")
    then some (Arith.acosh, 1)
    else if text_eq n (codes "atanh")
    then some (Arith.atanh, 1)
    else if text_eq n (codes "erf")
    then some (Arith.erf, 1)
    else if text_eq n (codes "erfc")
    then some (Arith.erfc, 1)
    else if text_eq n (codes "ceil")
    then some (Arith.ceil, 1)
    else if text_eq n (codes "floor")
    then some (Arith.floor, 1)
    else if text_eq n (codes "trunc")
    then some (Arith.trunc, 1)
    else if text_eq n (codes "round")
    then some (Arith.round_even, 1)
    else if text_eq n (codes "isnan")
    then some (Arith.is_nan, 1)
    else if text_eq n (codes "isinf")
    then some (Arith.is_inf, 1)
    else if text_eq n (codes "popc")
    then some (Arith.ct_pop, 1)
    else if text_eq n (codes "clz")
    then some (Arith.count_leading_zeros, 1)
    else if text_eq n (codes "ctz")
    then some (Arith.count_trailing_zeros, 1)
    else if text_eq n (codes "atan2")
    then some (Arith.atan2, 2)
    else if text_eq n (codes "copysign")
    then some (Arith.copy_sign, 2)
    else if text_eq n (codes "fma") || text_eq n (codes "mad")
    then some (Arith.fma, 3)
    else none

-- The `arith` or `math` operation of a scalar operator, where `LowerBinOp` has one.
unfoldable pub scalar_op : BinOp → Option Arith
scalar_op (BinOp.add _ _) = some Arith.add_i
scalar_op (BinOp.mul _ _) = some Arith.mul_i
scalar_op (BinOp.sub _ _) = some Arith.sub_i
scalar_op (BinOp.s_quot _ _) = some Arith.div_s_i
scalar_op (BinOp.s_div_up _ _) = some Arith.ceil_div_s_i
scalar_op (BinOp.f_add _) = some Arith.add_f
scalar_op (BinOp.f_mul _) = some Arith.mul_f
scalar_op (BinOp.f_sub _) = some Arith.sub_f
scalar_op (BinOp.f_div _) = some Arith.div_f
scalar_op (BinOp.f_max _) = some Arith.max_num_f
scalar_op (BinOp.f_pow _) = some Arith.pow_f
scalar_op _ = none

-- The comparison of `BasicOpCmpOp`.
unfoldable pub comparison : CmpOp → Result Comparison
comparison (CmpOp.eq (PrimType.int _)) = ok (Comparison.cmp_i CmpIPredicate.eq)
comparison (CmpOp.eq (PrimType.float _)) = ok (Comparison.cmp_f CmpFPredicate.oeq)
comparison (CmpOp.eq PrimType.bool) = err Error.undefined
comparison (CmpOp.eq PrimType.unit) = err Error.undefined
comparison (CmpOp.ult _) = ok (Comparison.cmp_i CmpIPredicate.ult)
comparison (CmpOp.ule _) = ok (Comparison.cmp_i CmpIPredicate.ule)
comparison (CmpOp.slt _) = ok (Comparison.cmp_i CmpIPredicate.slt)
comparison (CmpOp.sle _) = ok (Comparison.cmp_i CmpIPredicate.sle)
comparison (CmpOp.flt _) = ok (Comparison.cmp_f CmpFPredicate.olt)
comparison (CmpOp.fle _) = ok (Comparison.cmp_f CmpFPredicate.ole)
comparison CmpOp.l_lt = err Error.undefined
comparison CmpOp.l_le = err Error.undefined

module _ (mlir : Mlir) where
  open mlir use {Value, type_of}

  unfoldable pub scalar_only : Value → Value → Option Arith → Lower mlir Value
  scalar_only op0 op1 none = throw Error.undefined
  scalar_only op0 op1 (some a) = do
    assert_that mlir (not (is_tensor (type_of op0)))
    emit_one mlir (Op.arith a (op0 ∷ op1 ∷ []))

  -- `tensor.empty` of the operand's type with no sizes, then the elementwise operation
  abbrev elementwise : (List Value → Value → Op Value mlir.Func) → Value → Value → Lower mlir Value
  elementwise op op0 op1 = do
    e ← emit_one mlir (Op.tensor_empty (type_of op0) [])
    emit_one mlir (op (op0 ∷ op1 ∷ []) e)

  -- `LowerBinOp`
  unfoldable pub lower_bin_op : BinOp → Value → Value → Lower mlir Value
  unfolding scalar_only scalar_op
  lower_bin_op (BinOp.add t o) op0 op1 =
      if is_tensor (type_of op0)
      then elementwise Op.linalg_add op0 op1
      else emit_one mlir (Op.arith Arith.add_i (op0 ∷ op1 ∷ []))
  lower_bin_op (BinOp.mul t o) op0 op1 =
      if is_tensor (type_of op0)
      then elementwise Op.linalg_mul op0 op1
      else emit_one mlir (Op.arith Arith.mul_i (op0 ∷ op1 ∷ []))
  lower_bin_op op op0 op1 = scalar_only op0 op1 (scalar_op op)

  -- `BasicOpCmpOp` after its operands
  unfoldable pub lower_cmp_op : CmpOp → Value → Value → Lower mlir Value
  lower_cmp_op op lhs rhs = do c ← lift (comparison op); emit_one mlir (Op.compare_op c lhs rhs)

  -- `BasicOpConvOp` after its operand
  unfoldable pub lower_conv_op : ConvOp → Value → Lower mlir Value
  unfolding prim_type_int lower_prim_type
  lower_conv_op (ConvOp.z_ext from to) op0 = do
    p ← lift (prim_type_int (int_type_width to))
    t ← lift (lower_prim_type p)
    emit_one mlir (Op.cast Cast.ext_ui t op0)
  lower_conv_op (ConvOp.s_ext from to) op0 = do
    p ← lift (prim_type_int (int_type_width to))
    t ← lift (lower_prim_type p)
    emit_one mlir (Op.cast Cast.ext_si t op0)
  lower_conv_op (ConvOp.si_to_fp from to) op0 = do
    t ← lift (get_float_type (float_type_width to))
    emit_one mlir (Op.cast Cast.si_to_fp t op0)
  lower_conv_op _ op0 = throw Error.undefined

  unfoldable pub apply_intrinsic :
      Text → Values mlir → Option (Arith × ℕ) → Lower mlir (Values mlir)
  apply_intrinsic fname args none = throw (Error.not_primitive fname)
  apply_intrinsic fname args (some (op, arity)) =
      if length args == arity
      then (emit_one mlir (Op.arith op args) >>= λ v. pure (v ∷ []))
      else throw Error.undefined

  unfoldable pub based_intrinsic : Text → Values mlir → Option Text → Lower mlir (Values mlir)
  unfolding apply_intrinsic
  based_intrinsic fname args none = throw (Error.no_definition fname)
  based_intrinsic fname args (some base) = apply_intrinsic fname args (intrinsic_op base)

  -- `LowerIntrinsic`
  unfoldable pub lower_intrinsic : Text → Values mlir → Lower mlir (Values mlir)
  unfolding based_intrinsic
  lower_intrinsic fname args =
      if starts_with (codes "cond_") fname
      then apply_intrinsic fname args (some (Arith.select, 3))
      else based_intrinsic fname args (intrinsic_base_name fname)
