-- ===== src/Ir/Syntax.antt =====
-- mlir-backend/ir/syntax.hpp and segop.hpp: statements, bodies, kernels, functions and programs.
-- A vector of statements or operators is a list type of its own, since expressions hold bodies.
use mlir_backend.Prelude.{ℕ, List, Option, Text}
use mlir_backend.Ir.Primitive.{IntType, PrimType, PrimValue, Safety, UnOp, BinOp, CmpOp, ConvOp}
use mlir_backend.Ir.Core.{
  VName, Commutativity, Uniqueness, SubExp, Slice, FlatSlice, Shape, IrType, Diet, Pat, Attrs,
  Param,
}
use mlir_backend.Ir.Gpu.{SizeOp}

abbrev pub LetDec : Type 0
LetDec = IrType

abbrev pub FParam : Type 0
FParam = Param IrType

abbrev pub LParam : Type 0
LParam = Param IrType

-- `RetType` paired with `RetAls`
pub record RetAls : Type 0 where
  pub param_als : List ℕ
  pub other_als : List ℕ

pub data BasicOp : Type 0 where
  sub_exp : SubExp → BasicOp
  opaque : BasicOp
  array_lit : List SubExp → IrType → BasicOp
  array_val : List PrimValue → PrimType → BasicOp
  un_op : UnOp → SubExp → BasicOp
  bin_op : BinOp → SubExp → SubExp → BasicOp
  cmp_op : CmpOp → SubExp → SubExp → BasicOp
  conv_op : ConvOp → SubExp → BasicOp
  assert : BasicOp
  index : VName → Slice SubExp → BasicOp
  update : Safety → VName → Slice SubExp → SubExp → BasicOp
  flat_index : VName → FlatSlice SubExp → BasicOp
  flat_update : VName → FlatSlice SubExp → VName → BasicOp
  -- the dimension, the arrays, the total size
  concat : ℕ → List VName → SubExp → BasicOp
  manifest : VName → List ℕ → BasicOp
  -- n, x, s and the element type
  iota : SubExp → SubExp → SubExp → IntType → BasicOp
  replicate : Shape → SubExp → BasicOp
  scratch : PrimType → List SubExp → BasicOp
  -- the array, dimBegin, dimEnd, reshapedDim, remainder
  reshape : SubExp → ℕ → ℕ → Shape → Shape → BasicOp
  rearrange : VName → List ℕ → BasicOp

pub data MatchSort : Type 0 where
  normal fallback equiv : MatchSort

pub data LoopForm : Type 0 where
  for_loop : VName → IntType → SubExp → LoopForm
  while_loop : VName → LoopForm

pub data SegVirt : Type 0 where
  no_virt virt no_virt_full : SegVirt

pub data SegLevel : Type 0 where
  seg_thread seg_block : SegVirt → SegLevel
  seg_thread_in_block : SegLevel

pub record SegSpace : Type 0 where
  pub flat_id : Text
  pub dims : List (Text × SubExp)

mutual
  pub data Exp : Type 0 where
    basic_op : BasicOp → Exp
    apply : Text → List (SubExp × Diet) → List (IrType × RetAls) → Safety → Exp
    host_size_op : SizeOp → Exp
    host_seg_op : SegOp → Exp
    host_gpu_body : List IrType → Body → Exp
    exp_sub_exp : SubExp → Exp
    exp_if : SubExp → Body → Body → List IrType → MatchSort → Exp
    exp_loop : List (FParam × SubExp) → LoopForm → Body → Exp

  pub data Stm : Type 0 where
    stm : Pat LetDec → Exp → Stm

  pub data Stms : Type 0 where
    no_stms : Stms
    more_stms : Stm → Stms → Stms

  -- statements and results
  pub data Body : Type 0 where
    body : Stms → List SubExp → Body

  -- parameters, return types, body
  pub data Lambda : Type 0 where
    lambda : List LParam → List IrType → Body → Lambda

  -- `KernelBody`, whose results are one subexpression each
  pub data KernelBody : Type 0 where
    kernel_body : Stms → List SubExp → KernelBody

  -- commutativity, lambda, neutral elements, shape
  pub data SegBinOp : Type 0 where
    seg_bin_op : Commutativity → Lambda → List SubExp → Shape → SegBinOp

  pub data SegBinOps : Type 0 where
    no_bin_ops : SegBinOps
    more_bin_ops : SegBinOp → SegBinOps → SegBinOps

  -- shape, race factor, destinations, neutral elements, operator shape, lambda
  pub data HistOp : Type 0 where
    hist_op : Shape → SubExp → List VName → List SubExp → List SubExp → Lambda → HistOp

  pub data HistOps : Type 0 where
    no_hist_ops : HistOps
    more_hist_ops : HistOp → HistOps → HistOps

  pub data SegOp : Type 0 where
    seg_map : SegLevel → SegSpace → List IrType → KernelBody → SegOp
    seg_red : SegLevel → SegSpace → List IrType → KernelBody → SegBinOps → SegOp
    -- the last lambda is the post operator
    seg_scan : SegLevel → SegSpace → List IrType → KernelBody → SegBinOps → Lambda → SegOp
    seg_hist : SegLevel → SegSpace → List IrType → KernelBody → HistOps → SegOp

pub record EntryPoint : Type 0 where
  pub name : Text
  pub params : List (Text × Uniqueness)
  pub results : List (Text × Uniqueness)

pub record FunDef : Type 0 where
  pub entry : Option EntryPoint
  pub attrs : Attrs
  pub name : Text
  pub ret_type : List (IrType × RetAls)
  pub params : List FParam
  pub body : Body

-- The field `rep` is never set and never read.
pub record Prog : Type 0 where
  pub consts : Stms
  pub funs : List FunDef
