-- ===== src/Parser/Operators.antt =====
-- parser.hpp: the opcodes of scalar operators, comparisons, conversions and `iota`.
pub mod Opcodes
pub mod Roundtrip
use mlir_backend.Prelude.{
  ℕ, Bool, true, false, List, [], ◌∷◌, ◌==◌, if◌then◌else◌, Text, codes, text_eq, Result, ok, err,
  ◌>>=◌, Error,
}
use mlir_backend.Ir.Primitive.{
  IntType, int8, int16, int32, int64, FloatType, float16, float32, float64, PrimType, prim_type_int,
  prim_type_float, overflow_wrap, overflow_undef, Safety, BinOp, CmpOp, ConvOp,
}
use mlir_backend.Parser.Numbers.{is_digit, stoi}
use mlir_backend.Parser.Values.{starts_with, contains_text, visit_prim_type}

-- `std::find_if(str.begin(), str.end(), ::isdigit)`: what stands before the first digit, and the
-- rest.
unfoldable pub before_digit : Text → Text
before_digit [] = []
before_digit (c ∷ s) = if is_digit c then [] else c ∷ before_digit s

unfoldable pub from_digit : Text → Text
from_digit [] = []
from_digit (c ∷ s) = if is_digit c then c ∷ s else from_digit s

-- The types that `VisitBinOp` gives to a width: 8 and 16 bits are where it starts.
abbrev bin_int_type : ℕ → IntType
bin_int_type width =
    if width == 64
    then int64
    else if width == 32
    then int32
    else if width == 16
    then int16
    else int8

abbrev bin_float_type : ℕ → FloatType
bin_float_type width = if width == 64 then float64 else if width == 32 then float32 else float16

-- The tests of `VisitBinOp` on the name, in the order of the source. `Safety` is left out there.
bin_op_named : Text → IntType → FloatType → Result BinOp
bin_op_named name int_ty float_ty =
    if text_eq name (codes "add")
    then ok (BinOp.add int_ty overflow_wrap)
    else if text_eq name (codes "add_nw")
    then ok (BinOp.add int_ty overflow_undef)
    else if text_eq name (codes "sub")
    then ok (BinOp.sub int_ty overflow_wrap)
    else if text_eq name (codes "sub_nw")
    then ok (BinOp.sub int_ty overflow_undef)
    else if text_eq name (codes "mul")
    then ok (BinOp.mul int_ty overflow_wrap)
    else if text_eq name (codes "mul_nw")
    then ok (BinOp.mul int_ty overflow_undef)
    else if text_eq name (codes "udiv")
    then ok (BinOp.u_div int_ty Safety.unsafe)
    else if text_eq name (codes "udiv_up")
    then ok (BinOp.u_div_up int_ty Safety.unsafe)
    else if text_eq name (codes "sdiv")
    then ok (BinOp.s_div int_ty Safety.unsafe)
    else if text_eq name (codes "sdiv_up")
    then ok (BinOp.s_div_up int_ty Safety.unsafe)
    else if text_eq name (codes "umod")
    then ok (BinOp.u_mod int_ty Safety.unsafe)
    else if text_eq name (codes "smod")
    then ok (BinOp.s_mod int_ty Safety.unsafe)
    else if text_eq name (codes "squot")
    then ok (BinOp.s_quot int_ty Safety.unsafe)
    else if text_eq name (codes "srem")
    then ok (BinOp.s_rem int_ty Safety.unsafe)
    else if text_eq name (codes "smin")
    then ok (BinOp.s_min int_ty)
    else if text_eq name (codes "umin")
    then ok (BinOp.u_min int_ty)
    else if text_eq name (codes "smax")
    then ok (BinOp.s_max int_ty)
    else if text_eq name (codes "umax")
    then ok (BinOp.u_max int_ty)
    else if text_eq name (codes "shl")
    then ok (BinOp.shl int_ty)
    else if text_eq name (codes "lshr")
    then ok (BinOp.l_shr int_ty)
    else if text_eq name (codes "ashr")
    then ok (BinOp.a_shr int_ty)
    else if text_eq name (codes "and")
    then ok (BinOp.and int_ty)
    else if text_eq name (codes "or")
    then ok (BinOp.or int_ty)
    else if text_eq name (codes "xor")
    then ok (BinOp.xor int_ty)
    else if text_eq name (codes "pow")
    then ok (BinOp.pow int_ty)
    else if text_eq name (codes "fadd")
    then ok (BinOp.f_add float_ty)
    else if text_eq name (codes "fsub")
    then ok (BinOp.f_sub float_ty)
    else if text_eq name (codes "fmul")
    then ok (BinOp.f_mul float_ty)
    else if text_eq name (codes "fdiv")
    then ok (BinOp.f_div float_ty)
    else if text_eq name (codes "fmod")
    then ok (BinOp.f_mod float_ty)
    else if text_eq name (codes "fmin")
    then ok (BinOp.f_min float_ty)
    else if text_eq name (codes "fmax")
    then ok (BinOp.f_max float_ty)
    else if text_eq name (codes "fpow")
    then ok (BinOp.f_pow float_ty)
    else err Error.undefined

-- `VisitBinOp`
unfoldable pub visit_bin_op : Text → Result BinOp
unfolding bin_op_named before_digit from_digit text_eq stoi
visit_bin_op str =
    let name = before_digit str in
    if text_eq name (codes "logand")
    then ok BinOp.log_and
    else if text_eq name (codes "logor")
    then ok BinOp.log_or
    else (stoi (from_digit str) >>= λ width.
        bin_op_named name (bin_int_type width) (bin_float_type width))

-- The width of a comparison: 0 where the opcode has no digit.
cmp_width : Text → Result ℕ
unfolding stoi
cmp_width [] = ok 0
cmp_width (c ∷ s) = stoi (c ∷ s)

-- The types that `VisitCmpOp` gives to a width.
abbrev cmp_int_type : ℕ → IntType
cmp_int_type width =
    if width == 8 then int8 else if width == 16 then int16 else if width == 32 then int32 else int64

abbrev cmp_float_type : ℕ → FloatType
cmp_float_type width = if width == 16 then float16 else if width == 32 then float32 else float64

-- `eq_` with its type's name
cmp_eq : Text → ℕ → Result CmpOp
unfolding contains_text prim_type_int prim_type_float
cmp_eq str width =
    if contains_text (codes "bool") str
    then ok (CmpOp.eq PrimType.bool)
    else if contains_text (codes "f") str
    then (prim_type_float width >>= λ t. ok (CmpOp.eq t))
    else (prim_type_int width >>= λ t. ok (CmpOp.eq t))

-- `VisitCmpOp`
unfoldable pub visit_cmp_op : Text → Result CmpOp
unfolding cmp_width cmp_eq starts_with from_digit
visit_cmp_op str = cmp_width (from_digit str) >>= λ width.
    if starts_with (codes "eq_") str
    then cmp_eq str width
    else if starts_with (codes "slt") str
    then ok (CmpOp.slt (cmp_int_type width))
    else if starts_with (codes "sle") str
    then ok (CmpOp.sle (cmp_int_type width))
    else if starts_with (codes "ult") str
    then ok (CmpOp.ult (cmp_int_type width))
    else if starts_with (codes "ule") str
    then ok (CmpOp.ule (cmp_int_type width))
    else if starts_with (codes "lt") str
    then ok (CmpOp.flt (cmp_float_type width))
    else if starts_with (codes "le") str
    then ok (CmpOp.fle (cmp_float_type width))
    else err Error.undefined

-- `std::get<PrimTypeInt>(t.v).t` and `std::get<PrimTypeFloat>(t.v).t`
abbrev pub as_int : PrimType → Result IntType
as_int (PrimType.int t) = ok t
as_int _ = err Error.bad_variant_access

abbrev pub as_float : PrimType → Result FloatType
as_float (PrimType.float t) = ok t
as_float _ = err Error.bad_variant_access

-- The opcode's part of `VisitBasicOpConvOp`.
unfoldable pub visit_conv_op : Text → PrimType → PrimType → Result ConvOp
unfolding text_eq
visit_conv_op opcode from to =
    if text_eq opcode (codes "zext")
    then (as_int from >>= λ a. as_int to >>= λ b. ok (ConvOp.z_ext a b))
    else if text_eq opcode (codes "sext")
    then (as_int from >>= λ a. as_int to >>= λ b. ok (ConvOp.s_ext a b))
    else if text_eq opcode (codes "fpconv")
    then (as_float from >>= λ a. as_float to >>= λ b. ok (ConvOp.fp_conv a b))
    else if text_eq opcode (codes "fptoui")
    then (as_float from >>= λ a. as_int to >>= λ b. ok (ConvOp.fp_to_ui a b))
    else if text_eq opcode (codes "fptosi")
    then (as_float from >>= λ a. as_int to >>= λ b. ok (ConvOp.fp_to_si a b))
    else if text_eq opcode (codes "uitofp")
    then (as_int from >>= λ a. as_float to >>= λ b. ok (ConvOp.ui_to_fp a b))
    else if text_eq opcode (codes "sitofp")
    then (as_int from >>= λ a. as_float to >>= λ b. ok (ConvOp.si_to_fp a b))
    else if text_eq opcode (codes "itob")
    then (as_int from >>= λ a. ok (ConvOp.i_to_b a))
    else if text_eq opcode (codes "btoi")
    then (as_int to >>= λ b. ok (ConvOp.b_to_i b))
    else if text_eq opcode (codes "ftob")
    then (as_float from >>= λ a. ok (ConvOp.f_to_b a))
    else if text_eq opcode (codes "btof")
    then (as_float to >>= λ b. ok (ConvOp.b_to_f b))
    else err Error.undefined

-- The element type of `iota`, by the token's text.
unfoldable pub iota_type : Text → Result IntType
unfolding text_eq
iota_type text =
    if text_eq text (codes "iota16")
    then ok int16
    else if text_eq text (codes "iota32")
    then ok int32
    else if text_eq text (codes "iota64")
    then ok int64
    else err Error.undefined
