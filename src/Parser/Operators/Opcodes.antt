-- ===== src/Parser/Operators/Opcodes.antt =====
-- parser.hpp `VisitBinOp` on the opcodes that Futhark.g4 has for the scalar operators.
use mlir_backend.Prelude.{
  ◌≡◌, refl, sym, ap, ◌∙◌, [], ◌++◌, Option, none, some, Text, codes, Result, ok,
}
use mlir_backend.Ir.Primitive.{
  IntType, int8, int16, int32, int64, FloatType, float16, float32, float64, overflow_wrap,
  overflow_undef, Overflow, Safety, BinOp,
}
use mlir_backend.Parser.Operators.{visit_bin_op}

-- The numbers that stand for the types.
abbrev pub width_text : IntType → Text
width_text int8 = codes "8"
width_text int16 = codes "16"
width_text int32 = codes "32"
width_text int64 = codes "64"

abbrev pub float_width_text : FloatType → Text
float_width_text float16 = codes "16"
float_width_text float32 = codes "32"
float_width_text float64 = codes "64"

abbrev wrap_text : Overflow → Text
wrap_text overflow_wrap = []
wrap_text overflow_undef = codes "_nw"

-- The rule's name for an operator, `ADD` to `LOGOR`, with its number.
abbrev pub bin_op_text : BinOp → Text
bin_op_text (BinOp.add t o) = codes "add" ++ (wrap_text o ++ width_text t)
bin_op_text (BinOp.sub t o) = codes "sub" ++ (wrap_text o ++ width_text t)
bin_op_text (BinOp.mul t o) = codes "mul" ++ (wrap_text o ++ width_text t)
bin_op_text (BinOp.f_add t) = codes "fadd" ++ float_width_text t
bin_op_text (BinOp.f_sub t) = codes "fsub" ++ float_width_text t
bin_op_text (BinOp.f_mul t) = codes "fmul" ++ float_width_text t
bin_op_text (BinOp.f_div t) = codes "fdiv" ++ float_width_text t
bin_op_text (BinOp.f_mod t) = codes "fmod" ++ float_width_text t
bin_op_text (BinOp.f_min t) = codes "fmin" ++ float_width_text t
bin_op_text (BinOp.f_max t) = codes "fmax" ++ float_width_text t
bin_op_text (BinOp.f_pow t) = codes "fpow" ++ float_width_text t
bin_op_text (BinOp.u_div t _) = codes "udiv" ++ width_text t
bin_op_text (BinOp.u_div_up t _) = codes "udiv_up" ++ width_text t
bin_op_text (BinOp.s_div t _) = codes "sdiv" ++ width_text t
bin_op_text (BinOp.s_div_up t _) = codes "sdiv_up" ++ width_text t
bin_op_text (BinOp.u_mod t _) = codes "umod" ++ width_text t
bin_op_text (BinOp.s_mod t _) = codes "smod" ++ width_text t
bin_op_text (BinOp.s_quot t _) = codes "squot" ++ width_text t
bin_op_text (BinOp.s_rem t _) = codes "srem" ++ width_text t
bin_op_text (BinOp.s_min t) = codes "smin" ++ width_text t
bin_op_text (BinOp.u_min t) = codes "umin" ++ width_text t
bin_op_text (BinOp.s_max t) = codes "smax" ++ width_text t
bin_op_text (BinOp.u_max t) = codes "umax" ++ width_text t
bin_op_text (BinOp.shl t) = codes "shl" ++ width_text t
bin_op_text (BinOp.l_shr t) = codes "lshr" ++ width_text t
bin_op_text (BinOp.a_shr t) = codes "ashr" ++ width_text t
bin_op_text (BinOp.and t) = codes "and" ++ width_text t
bin_op_text (BinOp.or t) = codes "or" ++ width_text t
bin_op_text (BinOp.xor t) = codes "xor" ++ width_text t
bin_op_text (BinOp.pow t) = codes "pow" ++ width_text t
bin_op_text BinOp.log_and = codes "logand"
bin_op_text BinOp.log_or = codes "logor"

abbrev pub safety_of : BinOp → Safety
safety_of (BinOp.u_div _ s) = s
safety_of (BinOp.u_div_up _ s) = s
safety_of (BinOp.s_div _ s) = s
safety_of (BinOp.s_div_up _ s) = s
safety_of (BinOp.u_mod _ s) = s
safety_of (BinOp.s_mod _ s) = s
safety_of (BinOp.s_quot _ s) = s
safety_of (BinOp.s_rem _ s) = s
safety_of _ = Safety.unsafe

-- The grammar's opcode of an operator. It has none for the safe operators.
abbrev pub bin_opcode : BinOp → Option Text
bin_opcode op = elim (safety_of op) [ Safety.unsafe ↦ some (bin_op_text op) | Safety.safe ↦ none ]

pub int_types : (P : IntType → Type 0) → P int8 → P int16 → P int32 → P int64 → (t : IntType) → P t
int_types P a b c d int8 = a
int_types P a b c d int16 = b
int_types P a b c d int32 = c
int_types P a b c d int64 = d

pub float_types :
    (P : FloatType → Type 0) → P float16 → P float32 → P float64 → (t : FloatType) → P t
float_types P a b c float16 = a
float_types P a b c float32 = b
float_types P a b c float64 = c

abbrev pub BinOpReads : BinOp → Type 0
BinOpReads op = visit_bin_op (bin_op_text op) ≡ ok op

-- What is read from an opcode is read from a text that is this opcode.
pub read_opcode :
    {A : Type 0} (visit : Text → Result A) (opcode : Text) {r : Result A}
    → visit opcode ≡ r
    → (text : Text) → some opcode ≡ some text
    → visit text ≡ r
read_opcode visit opcode e text h =
    ap (λ o. elim o [ none ↦ visit opcode | some t ↦ visit t ]) (sym h) ∙ e

pub visit_bin_op-unsafe : (op : BinOp) → safety_of op ≡ Safety.unsafe → BinOpReads op
unfolding visit_bin_op
visit_bin_op-unsafe (BinOp.add t overflow_wrap) _ =
    int_types (λ t. BinOpReads (BinOp.add t overflow_wrap)) refl refl refl refl t
visit_bin_op-unsafe (BinOp.add t overflow_undef) _ =
    int_types (λ t. BinOpReads (BinOp.add t overflow_undef)) refl refl refl refl t
visit_bin_op-unsafe (BinOp.sub t overflow_wrap) _ =
    int_types (λ t. BinOpReads (BinOp.sub t overflow_wrap)) refl refl refl refl t
visit_bin_op-unsafe (BinOp.sub t overflow_undef) _ =
    int_types (λ t. BinOpReads (BinOp.sub t overflow_undef)) refl refl refl refl t
visit_bin_op-unsafe (BinOp.mul t overflow_wrap) _ =
    int_types (λ t. BinOpReads (BinOp.mul t overflow_wrap)) refl refl refl refl t
visit_bin_op-unsafe (BinOp.mul t overflow_undef) _ =
    int_types (λ t. BinOpReads (BinOp.mul t overflow_undef)) refl refl refl refl t
visit_bin_op-unsafe (BinOp.f_add t) _ =
    float_types (λ t. BinOpReads (BinOp.f_add t)) refl refl refl t
visit_bin_op-unsafe (BinOp.f_sub t) _ =
    float_types (λ t. BinOpReads (BinOp.f_sub t)) refl refl refl t
visit_bin_op-unsafe (BinOp.f_mul t) _ =
    float_types (λ t. BinOpReads (BinOp.f_mul t)) refl refl refl t
visit_bin_op-unsafe (BinOp.f_div t) _ =
    float_types (λ t. BinOpReads (BinOp.f_div t)) refl refl refl t
visit_bin_op-unsafe (BinOp.f_mod t) _ =
    float_types (λ t. BinOpReads (BinOp.f_mod t)) refl refl refl t
visit_bin_op-unsafe (BinOp.f_min t) _ =
    float_types (λ t. BinOpReads (BinOp.f_min t)) refl refl refl t
visit_bin_op-unsafe (BinOp.f_max t) _ =
    float_types (λ t. BinOpReads (BinOp.f_max t)) refl refl refl t
visit_bin_op-unsafe (BinOp.f_pow t) _ =
    float_types (λ t. BinOpReads (BinOp.f_pow t)) refl refl refl t
visit_bin_op-unsafe (BinOp.u_div t Safety.unsafe) _ =
    int_types (λ t. BinOpReads (BinOp.u_div t Safety.unsafe)) refl refl refl refl t
visit_bin_op-unsafe (BinOp.u_div t Safety.safe) h = cc
visit_bin_op-unsafe (BinOp.u_div_up t Safety.unsafe) _ =
    int_types (λ t. BinOpReads (BinOp.u_div_up t Safety.unsafe)) refl refl refl refl t
visit_bin_op-unsafe (BinOp.u_div_up t Safety.safe) h = cc
visit_bin_op-unsafe (BinOp.s_div t Safety.unsafe) _ =
    int_types (λ t. BinOpReads (BinOp.s_div t Safety.unsafe)) refl refl refl refl t
visit_bin_op-unsafe (BinOp.s_div t Safety.safe) h = cc
visit_bin_op-unsafe (BinOp.s_div_up t Safety.unsafe) _ =
    int_types (λ t. BinOpReads (BinOp.s_div_up t Safety.unsafe)) refl refl refl refl t
visit_bin_op-unsafe (BinOp.s_div_up t Safety.safe) h = cc
visit_bin_op-unsafe (BinOp.u_mod t Safety.unsafe) _ =
    int_types (λ t. BinOpReads (BinOp.u_mod t Safety.unsafe)) refl refl refl refl t
visit_bin_op-unsafe (BinOp.u_mod t Safety.safe) h = cc
visit_bin_op-unsafe (BinOp.s_mod t Safety.unsafe) _ =
    int_types (λ t. BinOpReads (BinOp.s_mod t Safety.unsafe)) refl refl refl refl t
visit_bin_op-unsafe (BinOp.s_mod t Safety.safe) h = cc
visit_bin_op-unsafe (BinOp.s_quot t Safety.unsafe) _ =
    int_types (λ t. BinOpReads (BinOp.s_quot t Safety.unsafe)) refl refl refl refl t
visit_bin_op-unsafe (BinOp.s_quot t Safety.safe) h = cc
visit_bin_op-unsafe (BinOp.s_rem t Safety.unsafe) _ =
    int_types (λ t. BinOpReads (BinOp.s_rem t Safety.unsafe)) refl refl refl refl t
visit_bin_op-unsafe (BinOp.s_rem t Safety.safe) h = cc
visit_bin_op-unsafe (BinOp.s_min t) _ =
    int_types (λ t. BinOpReads (BinOp.s_min t)) refl refl refl refl t
visit_bin_op-unsafe (BinOp.u_min t) _ =
    int_types (λ t. BinOpReads (BinOp.u_min t)) refl refl refl refl t
visit_bin_op-unsafe (BinOp.s_max t) _ =
    int_types (λ t. BinOpReads (BinOp.s_max t)) refl refl refl refl t
visit_bin_op-unsafe (BinOp.u_max t) _ =
    int_types (λ t. BinOpReads (BinOp.u_max t)) refl refl refl refl t
visit_bin_op-unsafe (BinOp.shl t) _ =
    int_types (λ t. BinOpReads (BinOp.shl t)) refl refl refl refl t
visit_bin_op-unsafe (BinOp.l_shr t) _ =
    int_types (λ t. BinOpReads (BinOp.l_shr t)) refl refl refl refl t
visit_bin_op-unsafe (BinOp.a_shr t) _ =
    int_types (λ t. BinOpReads (BinOp.a_shr t)) refl refl refl refl t
visit_bin_op-unsafe (BinOp.and t) _ =
    int_types (λ t. BinOpReads (BinOp.and t)) refl refl refl refl t
visit_bin_op-unsafe (BinOp.or t) _ = int_types (λ t. BinOpReads (BinOp.or t)) refl refl refl refl t
visit_bin_op-unsafe (BinOp.xor t) _ =
    int_types (λ t. BinOpReads (BinOp.xor t)) refl refl refl refl t
visit_bin_op-unsafe (BinOp.pow t) _ =
    int_types (λ t. BinOpReads (BinOp.pow t)) refl refl refl refl t
visit_bin_op-unsafe BinOp.log_and _ = refl
visit_bin_op-unsafe BinOp.log_or _ = refl
