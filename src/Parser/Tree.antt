-- ===== src/Parser/Tree.antt =====
-- The parse tree: a type for each rule of Futhark.g4, a constructor for each labelled alternative,
-- holding the tokens' texts and the subtrees that the visitor reads. A repeated subtree is a list.
use mlir_backend.Prelude.{List, Option, Text, Bool}

pub data PrimValueContext : Type 0 where
  -- NUMBER and INTEGER_TYPE; FLOAT and FLOAT_TYPE
  prim_value_integer prim_value_float : Text → Text → PrimValueContext
  prim_value_float_special prim_value_bool : Text → PrimValueContext

pub data SubExpContext : Type 0 where
  constant_sub_expression : PrimValueContext → SubExpContext
  var_sub_exp : Text → SubExpContext

-- `pExtShape`, whose brackets the visitor does not tell apart.
abbrev pub ExtShapeContext : Type 0
ExtShapeContext = List SubExpContext

pub data TypeContext : Type 0 where
  type_shape : Text → ExtShapeContext → TypeContext
  type_prim : Text → TypeContext
  type_unit_array : ExtShapeContext → TypeContext
  type_unit : TypeContext

pub data DimIndexContext : Type 0 where
  dim_slice : SubExpContext → SubExpContext → SubExpContext → DimIndexContext
  dim_fix : SubExpContext → DimIndexContext

-- Operators hold the text of their opcode.
pub data BasicOpContext : Type 0 where
  replicate : ExtShapeContext → SubExpContext → BasicOpContext
  copy : SubExpContext → BasicOpContext
  array_lit : List SubExpContext → TypeContext → BasicOpContext
  index : SubExpContext → List DimIndexContext → BasicOpContext
  concat : Text → List SubExpContext → BasicOpContext
  iota : Text → SubExpContext → SubExpContext → SubExpContext → BasicOpContext
  binary cmp : Text → SubExpContext → SubExpContext → BasicOpContext
  -- opcode, source type, operand, target type
  conv : Text → Text → SubExpContext → Text → BasicOpContext
  -- operand, the two numbers, the two shapes
  reshape : SubExpContext → Text → Text → ExtShapeContext → ExtShapeContext → BasicOpContext
  rearrange manifest : SubExpContext → List Text → BasicOpContext
  assert : BasicOpContext
  scratch : Text → List SubExpContext → BasicOpContext

pub data SizeClassContext : Type 0 where
  size_class_threshold : Option Text → SizeClassContext
  size_class_named : Text → SizeClassContext

pub data SizeOpContext : Type 0 where
  size_op_get_size : Text → SizeClassContext → SizeOpContext
  size_op_get_size_max : SizeClassContext → SizeOpContext
  size_op_cmp_size_le : Text → SizeClassContext → SubExpContext → SizeOpContext

pub data LoopFormContext : Type 0 where
  -- counter, its type, bound
  loop_for : Text → Text → SubExpContext → LoopFormContext
  loop_while : Text → LoopFormContext

pub data SegLevelContext : Type 0 where
  -- the text of `pSegVirt`
  seg_level_thread seg_level_block : Text → SegLevelContext
  seg_level_thread_in_block : SegLevelContext

-- All IDs of the rule, in order, and all its sizes.
pub record SegSpaceContext : Type 0 where
  pub ids : List Text
  pub sub_exps : List SubExpContext

-- `ID ':' pType`: a pattern element or a parameter of a function, a loop or a lambda.
abbrev pub NamedType : Type 0
NamedType = Text × TypeContext

mutual
  pub data ExpContext : Type 0 where
    exp_apply : Text → List SubExpContext → List TypeContext → ExpContext
    exp_basic_op : BasicOpContext → ExpContext
    exp_seg_op : SegOpContext → ExpContext
    exp_size_op : SizeOpContext → ExpContext
    -- parameters, initial values, form, body
    exp_loop : List NamedType → List SubExpContext → LoopFormContext → CaseBodyContext → ExpContext
    -- MATCH_SORT, condition, arms, types
    exp_if :
        Option Text
        → SubExpContext
        → CaseBodyContext
        → CaseBodyContext
        → List TypeContext
        → ExpContext
    exp_gpu_body : List TypeContext → CaseBodyContext → ExpContext
    exp_sub_exp : SubExpContext → ExpContext

  pub data StmContext : Type 0 where
    stm : List NamedType → ExpContext → StmContext

  pub data StmContexts : Type 0 where
    no_stms : StmContexts
    more_stms : StmContext → StmContexts → StmContexts

  pub data BodyContext : Type 0 where
    body : StmContexts → List SubExpContext → BodyContext
    empty_body : List SubExpContext → BodyContext

  pub data CaseBodyContext : Type 0 where
    case_body_full : StmContexts → List SubExpContext → CaseBodyContext
    case_body_result : List SubExpContext → CaseBodyContext

  pub data KernelBodyContext : Type 0 where
    kernel_body : StmContexts → List SubExpContext → KernelBodyContext
    empty_kernel_body : List SubExpContext → KernelBodyContext

  -- parameters, types, body
  pub data LambdaContext : Type 0 where
    lambda : List NamedType → List TypeContext → BodyContext → LambdaContext

  -- neutral elements, shape if any, text of `pComm`, lambda
  pub data SegBinOpContext : Type 0 where
    seg_bin_op :
        List SubExpContext → Option ExtShapeContext → Text → LambdaContext → SegBinOpContext

  pub data SegBinOpContexts : Type 0 where
    no_bin_ops : SegBinOpContexts
    more_bin_ops : SegBinOpContext → SegBinOpContexts → SegBinOpContexts

  -- shape, race factor, destinations, neutral elements, operator shape if any, lambda
  pub data HistOpContext : Type 0 where
    hist_op :
        ExtShapeContext
        → SubExpContext
        → List SubExpContext
        → List SubExpContext
        → Option ExtShapeContext
        → LambdaContext
        → HistOpContext

  pub data HistOpContexts : Type 0 where
    no_hist_ops : HistOpContexts
    more_hist_ops : HistOpContext → HistOpContexts → HistOpContexts

  pub data SegOpContext : Type 0 where
    seg_map :
        SegLevelContext → SegSpaceContext → List TypeContext → KernelBodyContext → SegOpContext
    seg_red :
        SegLevelContext
        → SegSpaceContext
        → List TypeContext
        → KernelBodyContext
        → SegBinOpContexts
        → SegOpContext
    seg_scan :
        SegLevelContext
        → SegSpaceContext
        → List TypeContext
        → KernelBodyContext
        → SegBinOpContexts
        → LambdaContext
        → SegOpContext
    seg_hist :
        SegLevelContext
        → SegSpaceContext
        → List TypeContext
        → KernelBodyContext
        → HistOpContexts
        → SegOpContext

pub record FunDefContext : Type 0 where
  -- the IDs of each attribute
  pub attrs : List (List Text)
  pub has_entry : Bool
  pub id : Text
  pub types : List TypeContext
  pub params : List NamedType
  pub body_context : BodyContext

pub record RootContext : Type 0 where
  pub stms : StmContexts
  pub fun_defs : List FunDefContext
