-- ===== src/Parser/BasicOps.antt =====
-- parser.hpp: the visitors of array and scalar operations.
pub mod ArrayLit
use mlir_backend.Prelude.{
  ℕ, ◌<◌, ◌==◌, Bool, List, [], ◌∷◌, Text, length, Result, ok, err, ◌>>=◌, Error, map_result,
  if◌then◌else◌,
}
use mlir_backend.Word.{truncate}
use mlir_backend.Ir.Primitive.{FloatOps, create_int}
use mlir_backend.Ir.Core.{
  SubExp, constant, IrType, type_prim, type_acc, type_array, type_mem, Shape,
}
use mlir_backend.Ir.Syntax.{BasicOp}
use mlir_backend.Parser.Numbers.{stoi, stoull}
use mlir_backend.Parser.Tree.{
  SubExpContext, TypeContext, DimIndexContext, ExtShapeContext, BasicOpContext,
}
use mlir_backend.Parser.Values.{
  visit_sub_exp, visit_sub_exps, visit_array, visit_var, visit_ext_shape, visit_type,
  visit_prim_type, visit_dim_index,
}
use mlir_backend.Parser.Operators.{visit_bin_op, visit_cmp_op, visit_conv_op, iota_type}

-- The vector of values grows the type by an outer dimension; a scalar type stays as it is.
unfoldable pub add_outer_dim : SubExp → IrType → IrType
add_outer_dim d (type_array elem shape u) = type_array elem (record { dims = d ∷ shape.dims }) u
add_outer_dim d (type_prim t) = type_prim t
add_outer_dim d (type_acc t s ts u) = type_acc t s ts u
add_outer_dim d type_mem = type_mem

-- `s.substr(s.find('@') + 1)`: without an `@` the position wraps to 0.
after_at_of : Text → Text → Text
after_at_of whole [] = whole
after_at_of whole (c ∷ s) = if c == b'@' then s else after_at_of whole s

unfoldable pub after_at : Text → Text
unfolding after_at_of
after_at s = after_at_of s s

module _ (floats : FloatOps) where
  -- `VisitBasicOpArrayLit`
  unfoldable pub visit_array_lit : List SubExpContext → TypeContext → Result BasicOp
  unfolding create_int add_outer_dim
  visit_array_lit elems t = do
    values ← visit_sub_exps floats elems
    row ← visit_type floats t
    ok (BasicOp.array_lit values (add_outer_dim (constant (create_int (length values) 64)) row))

  -- `VisitBasicOpConcat`
  pub visit_concat : Text → List SubExpContext → Result BasicOp
  visit_concat opcode (total ∷ arr ∷ arrs) = do
    dim ← stoi (after_at opcode)
    total' ← visit_sub_exp floats total
    arrs' ← map_result (visit_array floats) (arr ∷ arrs)
    ok (BasicOp.concat dim arrs' total')
  visit_concat opcode _ = err Error.concat_format

  -- `VisitBasicOpIota`
  visit_iota : Text → SubExpContext → SubExpContext → SubExpContext → Result BasicOp
  visit_iota text n x s = do
    n' ← visit_sub_exp floats n
    x' ← visit_sub_exp floats x
    s' ← visit_sub_exp floats s
    t ← iota_type text
    ok (BasicOp.iota n' x' s' t)

  -- `VisitBasicOpConvOp`
  visit_conv : Text → Text → SubExpContext → Text → Result BasicOp
  visit_conv opcode from x to = do
    from' ← visit_prim_type from
    to' ← visit_prim_type to
    op ← visit_conv_op opcode from' to'
    x' ← visit_sub_exp floats x
    ok (BasicOp.conv_op op x')

  -- `VisitBasicOpIndex`
  visit_index : SubExpContext → List DimIndexContext → Result BasicOp
  visit_index arr dims = do
    v ← visit_array floats arr
    ds ← map_result (visit_dim_index floats) dims
    ok (BasicOp.index v (record { dims = ds }))

  -- `VisitBasicOpManifest`
  visit_manifest : SubExpContext → List Text → Result BasicOp
  visit_manifest arr perm = do
    v ← visit_array floats arr
    p ← map_result stoi perm
    ok (BasicOp.manifest v p)

  -- `VisitBasicOpReshape`: the numbers are converted to int.
  visit_reshape : SubExpContext → Text → Text → ExtShapeContext → ExtShapeContext → Result BasicOp
  visit_reshape x dim_begin dim_end reshaped remainder = do
    op0 ← visit_sub_exp floats x
    b ← stoull dim_begin
    e ← stoull dim_end
    s ← visit_ext_shape floats reshaped
    r ← visit_ext_shape floats remainder
    ok (BasicOp.reshape op0 (truncate 32 b) (truncate 32 e) s r)

  -- `VisitBasicOpReplicate`
  visit_replicate : ExtShapeContext → SubExpContext → Result BasicOp
  visit_replicate shape x = do
    s ← visit_ext_shape floats shape
    val ← visit_sub_exp floats x
    ok (BasicOp.replicate s val)

  -- `VisitBasicOpCopy`
  visit_copy : SubExpContext → Result BasicOp
  visit_copy x = do val ← visit_sub_exp floats x; ok (BasicOp.replicate (record { dims = [] }) val)

  -- `VisitBasicOpRearrange`
  visit_rearrange : SubExpContext → List Text → Result BasicOp
  visit_rearrange arr perm = do
    v ← visit_var floats arr
    p ← map_result stoull perm
    ok (BasicOp.rearrange v p)

  -- `VisitBasicOpScratch`
  visit_scratch : Text → List SubExpContext → Result BasicOp
  visit_scratch t dims = do
    t' ← visit_prim_type t
    ds ← visit_sub_exps floats dims
    ok (BasicOp.scratch t' ds)

  -- `VisitBasicOp`
  unfoldable pub visit_basic_op : BasicOpContext → Result BasicOp
  unfolding visit_array_lit visit_concat visit_iota visit_conv visit_index visit_manifest
      visit_reshape visit_replicate visit_copy visit_rearrange visit_scratch
  visit_basic_op (BasicOpContext.array_lit elems t) = visit_array_lit elems t
  visit_basic_op (BasicOpContext.binary opcode x y) = do
    op0 ← visit_sub_exp floats x
    op1 ← visit_sub_exp floats y
    op ← visit_bin_op opcode
    ok (BasicOp.bin_op op op0 op1)
  visit_basic_op (BasicOpContext.iota text n x s) = visit_iota text n x s
  visit_basic_op (BasicOpContext.conv opcode from x to) = visit_conv opcode from x to
  visit_basic_op (BasicOpContext.concat opcode sub_exps) = visit_concat opcode sub_exps
  visit_basic_op (BasicOpContext.index arr dims) = visit_index arr dims
  visit_basic_op (BasicOpContext.manifest arr perm) = visit_manifest arr perm
  visit_basic_op (BasicOpContext.reshape x dim_begin dim_end reshaped remainder) =
      visit_reshape x dim_begin dim_end reshaped remainder
  visit_basic_op (BasicOpContext.replicate shape x) = visit_replicate shape x
  visit_basic_op (BasicOpContext.copy x) = visit_copy x
  visit_basic_op (BasicOpContext.rearrange arr perm) = visit_rearrange arr perm
  visit_basic_op (BasicOpContext.scratch t dims) = visit_scratch t dims
  visit_basic_op (BasicOpContext.cmp opcode x y) = do
    op0 ← visit_sub_exp floats x
    op1 ← visit_sub_exp floats y
    op ← visit_cmp_op opcode
    ok (BasicOp.cmp_op op op0 op1)
  visit_basic_op BasicOpContext.assert = ok BasicOp.assert
