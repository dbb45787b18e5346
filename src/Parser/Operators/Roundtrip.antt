-- ===== src/Parser/Operators/Roundtrip.antt =====
-- parser.hpp `VisitBinOp`, `VisitCmpOp` and `VisitBasicOpConvOp` against the opcodes of the grammar,
-- Futhark.g4.
use mlir_backend.Prelude.{◌≡◌, refl, ◌++◌, Option, none, some, Text, codes, Result, ok, err, Error}
use mlir_backend.Ir.Primitive.{PrimType, Safety, BinOp, CmpOp, ConvOp}
use mlir_backend.Parser.Operators.{visit_bin_op, visit_cmp_op, visit_conv_op}
use mlir_backend.Parser.Operators.Opcodes.{
  width_text, float_width_text, int_types, float_types, safety_of, bin_op_text, bin_opcode,
  read_opcode, visit_bin_op-unsafe,
}

-- Reading the grammar's opcode for a scalar operator, of whatever type, gives the operator back. The
-- grammar has no opcode for the safe operators.
pub visit_bin_op-text :
    (op : BinOp) (text : Text) → bin_opcode op ≡ some text → visit_bin_op text ≡ ok op
visit_bin_op-text op text h = from_safety (safety_of op) refl h
  where
    from_safety :
        (s : Safety)
        → safety_of op ≡ s
        → (elim s [ Safety.unsafe ↦ some (bin_op_text op) | Safety.safe ↦ none ]) ≡ some text
        → visit_bin_op text ≡ ok op
    from_safety Safety.unsafe e h' =
        read_opcode visit_bin_op (bin_op_text op) (visit_bin_op-unsafe op e) text h'
    from_safety Safety.safe e h' = cc

-- The grammar's opcode of a comparison, `CMPEQ` to `CMPFLE`: `eq_` and the name of a type, or an
-- order and a number. It has none for the orders on Booleans.
abbrev pub cmp_opcode : CmpOp → Option Text
cmp_opcode (CmpOp.eq (PrimType.int t)) = some (codes "eq_i" ++ width_text t)
cmp_opcode (CmpOp.eq (PrimType.float t)) = some (codes "eq_f" ++ float_width_text t)
cmp_opcode (CmpOp.eq PrimType.bool) = some (codes "eq_bool")
cmp_opcode (CmpOp.eq PrimType.unit) = some (codes "eq_unit")
cmp_opcode (CmpOp.ult t) = some (codes "ult" ++ width_text t)
cmp_opcode (CmpOp.ule t) = some (codes "ule" ++ width_text t)
cmp_opcode (CmpOp.slt t) = some (codes "slt" ++ width_text t)
cmp_opcode (CmpOp.sle t) = some (codes "sle" ++ width_text t)
cmp_opcode (CmpOp.flt t) = some (codes "lt" ++ float_width_text t)
cmp_opcode (CmpOp.fle t) = some (codes "le" ++ float_width_text t)
cmp_opcode CmpOp.l_lt = none
cmp_opcode CmpOp.l_le = none

-- What is read from it. From `eq_unit` the code makes an integer type of width 0, which it leaves
-- uninitialised and returns.
abbrev pub read_back : CmpOp → Result CmpOp
read_back (CmpOp.eq PrimType.unit) = err Error.undefined_behaviour
read_back op = ok op

-- Reading the grammar's opcode for a comparison, of whatever type, gives the comparison back, but for
-- the equality of units, where the behaviour is undefined. The grammar has no opcode for the orders
-- on Booleans.
pub visit_cmp_op-text :
    (op : CmpOp) (text : Text) → cmp_opcode op ≡ some text → visit_cmp_op text ≡ read_back op
unfolding visit_cmp_op
visit_cmp_op-text (CmpOp.eq (PrimType.int t)) text h =
    read_opcode visit_cmp_op (codes "eq_i" ++ width_text t)
      (int_types (λ t. visit_cmp_op (codes "eq_i" ++ width_text t) ≡ ok (CmpOp.eq (PrimType.int t)))
        refl refl refl refl t)
      text h
visit_cmp_op-text (CmpOp.eq (PrimType.float t)) text h =
    read_opcode visit_cmp_op (codes "eq_f" ++ float_width_text t)
      (float_types
        (λ t. visit_cmp_op (codes "eq_f" ++ float_width_text t) ≡ ok (CmpOp.eq (PrimType.float t)))
        refl refl refl t)
      text h
visit_cmp_op-text (CmpOp.eq PrimType.bool) text h =
    read_opcode visit_cmp_op (codes "eq_bool") refl text h
visit_cmp_op-text (CmpOp.eq PrimType.unit) text h =
    read_opcode visit_cmp_op (codes "eq_unit") refl text h
visit_cmp_op-text (CmpOp.ult t) text h =
    read_opcode visit_cmp_op (codes "ult" ++ width_text t)
      (int_types (λ t. visit_cmp_op (codes "ult" ++ width_text t) ≡ ok (CmpOp.ult t)) refl refl refl
        refl t)
      text h
visit_cmp_op-text (CmpOp.ule t) text h =
    read_opcode visit_cmp_op (codes "ule" ++ width_text t)
      (int_types (λ t. visit_cmp_op (codes "ule" ++ width_text t) ≡ ok (CmpOp.ule t)) refl refl refl
        refl t)
      text h
visit_cmp_op-text (CmpOp.slt t) text h =
    read_opcode visit_cmp_op (codes "slt" ++ width_text t)
      (int_types (λ t. visit_cmp_op (codes "slt" ++ width_text t) ≡ ok (CmpOp.slt t)) refl refl refl
        refl t)
      text h
visit_cmp_op-text (CmpOp.sle t) text h =
    read_opcode visit_cmp_op (codes "sle" ++ width_text t)
      (int_types (λ t. visit_cmp_op (codes "sle" ++ width_text t) ≡ ok (CmpOp.sle t)) refl refl refl
        refl t)
      text h
visit_cmp_op-text (CmpOp.flt t) text h =
    read_opcode visit_cmp_op (codes "lt" ++ float_width_text t)
      (float_types (λ t. visit_cmp_op (codes "lt" ++ float_width_text t) ≡ ok (CmpOp.flt t)) refl
        refl refl t)
      text h
visit_cmp_op-text (CmpOp.fle t) text h =
    read_opcode visit_cmp_op (codes "le" ++ float_width_text t)
      (float_types (λ t. visit_cmp_op (codes "le" ++ float_width_text t) ≡ ok (CmpOp.fle t)) refl
        refl refl t)
      text h
visit_cmp_op-text CmpOp.l_lt text h = cc
visit_cmp_op-text CmpOp.l_le text h = cc

-- A printed conversion: its opcode and the types it is from and to.
abbrev pub conv_op_parts : ConvOp → Text × PrimType × PrimType
conv_op_parts (ConvOp.z_ext a b) = (codes "zext", PrimType.int a, PrimType.int b)
conv_op_parts (ConvOp.s_ext a b) = (codes "sext", PrimType.int a, PrimType.int b)
conv_op_parts (ConvOp.fp_conv a b) = (codes "fpconv", PrimType.float a, PrimType.float b)
conv_op_parts (ConvOp.fp_to_ui a b) = (codes "fptoui", PrimType.float a, PrimType.int b)
conv_op_parts (ConvOp.fp_to_si a b) = (codes "fptosi", PrimType.float a, PrimType.int b)
conv_op_parts (ConvOp.ui_to_fp a b) = (codes "uitofp", PrimType.int a, PrimType.float b)
conv_op_parts (ConvOp.si_to_fp a b) = (codes "sitofp", PrimType.int a, PrimType.float b)
conv_op_parts (ConvOp.i_to_b a) = (codes "itob", PrimType.int a, PrimType.bool)
conv_op_parts (ConvOp.b_to_i b) = (codes "btoi", PrimType.bool, PrimType.int b)
conv_op_parts (ConvOp.f_to_b a) = (codes "ftob", PrimType.float a, PrimType.bool)
conv_op_parts (ConvOp.b_to_f b) = (codes "btof", PrimType.bool, PrimType.float b)

abbrev pub visit_conv_parts : Text × PrimType × PrimType → Result ConvOp
visit_conv_parts (opcode, from, to) = visit_conv_op opcode from to
