-- ===== src/Tests/ParserRuns.antt =====
-- Literals, opcodes and types that the parser reads.
use mlir_backend.Prelude.{◌++◌, ◌≡◌, refl, List, [], ◌∷◌, codes, length, ok, inr, arith}
use mlir_backend.Ir.Primitive.{
  int8, int32, int64, PrimType, int8_value, int32_value, int_value_get, BinOp, CmpOp,
  overflow_undef, create_int, prim_value_get_int_value,
}
use mlir_backend.Ir.Primitive.Roundtrip.{get-create_int}
use mlir_backend.Ir.Core.{SubExp, IrType, type_array}
use mlir_backend.Ir.Syntax.{BasicOp, SegSpace}
use mlir_backend.Parser.Tree.{
  SegSpaceContext, SubExpContext, TypeContext, constant_sub_expression, prim_value_integer,
}
use mlir_backend.Parser.Numbers.{stoll}
use mlir_backend.Parser.Numbers.Roundtrip.{signed_text}
use mlir_backend.Parser.Values.{visit_prim_value_integer, visit_type, visit_sub_exp}
use mlir_backend.Parser.Values.Literals.{
  suffix, zero_of, visit_prim_value_integer-text, visit_prim_value_integer-hex,
}
use mlir_backend.Parser.Operators.{visit_bin_op, visit_cmp_op}
use mlir_backend.Parser.Operators.Roundtrip.{visit_bin_op-text, visit_cmp_op-text}
use mlir_backend.Parser.BasicOps.{visit_array_lit, add_outer_dim}
use mlir_backend.Parser.BasicOps.ArrayLit.{visit_array_lit-lower_ty}
use mlir_backend.Parser.Visit.{visit_seg_space}
use mlir_backend.Parser.Visit.Space.{IsSpaceOf, visit_seg_space-IsSpaceOf}
use mlir_backend.Compiler.Mlir.{ranked_tensor, integer}
use mlir_backend.Compiler.Types.{lower_ty, lower_prim_type}
use mlir_backend.Tests.Fixtures.{toy, toy_floats}

-- -1 as an i8
literal_example :
    visit_prim_value_integer
      (signed_text (int_value_get (int8_value 255)))
      (suffix (int8_value 255))
    ≡ ok (int8_value 255)
literal_example = visit_prim_value_integer-text (int8_value 255) (ground arith)

bin_op_example : visit_bin_op (codes "add_nw32") ≡ ok (BinOp.add int32 overflow_undef)
bin_op_example = visit_bin_op-text (BinOp.add int32 overflow_undef) (codes "add_nw32") refl

cmp_op_example : visit_cmp_op (codes "slt64") ≡ ok (CmpOp.slt int64)
cmp_op_example = visit_cmp_op-text (CmpOp.slt int64) (codes "slt64") refl

-- -2 at 8 bits
create_int_example :
    prim_value_get_int_value (create_int 18446744073709551614 8) ≡ ok 18446744073709551614
create_int_example = get-create_int int8 18446744073709551614 (inr (ground arith))

abbrev seven : SubExpContext
seven = constant_sub_expression (prim_value_integer (codes "7") (codes "i64"))

abbrev i64_rows : TypeContext
i64_rows = TypeContext.type_shape (codes "i64") []

abbrev row : IrType
row = type_array (PrimType.int int64) (record { dims = [] }) tt

abbrev sevens : List SubExp
sevens = SubExp.constant (create_int 7 64) ∷ SubExp.constant (create_int 7 64) ∷ []

abbrev two_sevens : BasicOp
two_sevens = BasicOp.array_lit sevens (add_outer_dim (SubExp.constant (create_int 2 64)) row)

-- [7i64, 7i64] : []i64 has the type tensor<2xi64>.
array_lit_example :
    (vs : List SubExp) × (ty : IrType) × (two_sevens ≡ BasicOp.array_lit vs ty)
    × (length vs ≡ 2)
    × (lower_ty toy ty ≡ ok (ranked_tensor (2 ∷ []) (integer 64)))
unfolding visit_array_lit visit_type visit_sub_exp stoll lower_ty visit_prim_value_integer
    lower_prim_type
array_lit_example =
    visit_array_lit-lower_ty toy toy_floats (seven ∷ seven ∷ []) i64_rows row [] (integer 64)
      (ground arith) refl refl refl

-- 0x10i32
hex_example :
    visit_prim_value_integer (codes "0x" ++ codes "10") (suffix (int32_value 0))
    ≡ ok (zero_of (int32_value 0))
hex_example = visit_prim_value_integer-hex (codes "10") (int32_value 0)

-- segmap(thread; i < 7; flat)
abbrev one_dim : SegSpaceContext
one_dim = record { ids = codes "i" ∷ codes "flat" ∷ []; sub_exps = seven ∷ [] }

abbrev one_seven : List SubExp
one_seven = SubExp.constant (create_int 7 64) ∷ []

space_example :
    (sp : SegSpace) × (visit_seg_space toy_floats one_dim ≡ ok sp)
    × IsSpaceOf (codes "i" ∷ codes "flat" ∷ []) 1 one_seven (sp.dims, sp.flat_id)
unfolding visit_sub_exp stoll visit_prim_value_integer create_int
space_example = visit_seg_space-IsSpaceOf toy_floats one_dim {ds = one_seven} (ground arith) refl
