-- ===== src/Parser/BasicOps/ArrayLit.antt =====
-- parser.hpp `VisitBasicOpArrayLit` and compiler.hpp `LowerTypeArray`: the type of an array literal.
use mlir_backend.Prelude.{
  ℕ, ◌<◌, ◌^◌, ◌≡◌, ◌≢◌, List, ◌∷◌, length, map_result, length-map_result, ok, >>=-eq-ok, arith,
}
use mlir_backend.Ir.Primitive.{FloatOps, create_int, PrimType}
use mlir_backend.Ir.Primitive.Roundtrip.{get_create_int64}
use mlir_backend.Ir.Core.{
  SubExp, constant, sub_exp_get_int_value, IrType, type_prim, type_acc, type_array, type_mem,
}
use mlir_backend.Ir.Syntax.{BasicOp}
use mlir_backend.Parser.Tree.{SubExpContext, TypeContext}
use mlir_backend.Parser.Values.{visit_sub_exp, visit_type}
use mlir_backend.Parser.BasicOps.{visit_array_lit, add_outer_dim}
use mlir_backend.Compiler.Mlir.{Mlir, MlirType, ranked_tensor}
use mlir_backend.Compiler.Types.{lower_ty, lower_prim_type, to_shape_type}

no_tensor :
    (t : PrimType) (dims : List ℕ) (elem : MlirType)
    → lower_prim_type t ≢ ok (ranked_tensor dims elem)
unfolding lower_prim_type
no_tensor (PrimType.int t) dims elem h = cc
no_tensor (PrimType.float t) dims elem h = ground arith
no_tensor PrimType.bool dims elem h = cc
no_tensor PrimType.unit dims elem h = cc

lower_ty-add_outer_dim :
    (mlir : Mlir) (n : ℕ) (row : IrType) (dims : List ℕ) (elem : MlirType)
    → n < 2 ^ 64
    → lower_ty mlir row ≡ ok (ranked_tensor dims elem)
    → lower_ty mlir (add_outer_dim (constant (create_int n 64)) row)
      ≡ ok (ranked_tensor (n ∷ dims) elem)
unfolding lower_ty add_outer_dim sub_exp_get_int_value to_shape_type lower_prim_type
lower_ty-add_outer_dim mlir n (type_array e shape u) dims elem l h =
    let size = get_create_int64 n l in ground arith
lower_ty-add_outer_dim mlir n (type_prim t) dims elem l h = elim (no_tensor t dims elem h) [ ]
lower_ty-add_outer_dim mlir n (type_acc _ _ _ _) dims elem l h = cc
lower_ty-add_outer_dim mlir n type_mem dims elem l h = cc

-- Where an array literal of fewer than 2 ^ 64 elements is read, and the type of its rows is lowered to
-- a tensor type, the literal holds as many values as there are elements, and its type is lowered to
-- the tensor type whose first dimension is their number and whose others are those of the row type.
pub visit_array_lit-lower_ty :
    (mlir : Mlir) (floats : FloatOps) (elems : List SubExpContext) (t : TypeContext) (row : IrType)
    (dims : List ℕ) (elem : MlirType) {op : BasicOp}
    → length elems < 2 ^ 64
    → visit_type floats t ≡ ok row
    → lower_ty mlir row ≡ ok (ranked_tensor dims elem)
    → visit_array_lit floats elems t ≡ ok op
    → (vs : List SubExp) × (ty : IrType) × (op ≡ BasicOp.array_lit vs ty)
      × (length vs ≡ length elems)
      × (lower_ty mlir ty ≡ ok (ranked_tensor (length elems ∷ dims) elem))
unfolding visit_array_lit
visit_array_lit-lower_ty mlir floats elems t row dims elem l ht hl h =
    let (vs, e, h₁) = >>=-eq-ok (map_result (visit_sub_exp floats) elems) _ h in
    let (row', e', h₂) = >>=-eq-ok (visit_type floats t) _ h₁ in
    let n = length-map_result (visit_sub_exp floats) elems e in
    let lowered = lower_ty-add_outer_dim mlir (length elems) row dims elem l hl in
    (vs, add_outer_dim (constant (create_int (length vs) 64)) row, ground arith, n, ground arith)
