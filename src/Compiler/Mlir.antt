-- ===== src/Compiler/Mlir.antt =====
-- MLIR as the compiler uses it. Types, attributes and calls are the terms that compiler.hpp builds;
-- what a call returns and how it changes the module is a parameter, the record `Mlir`.
use mlir_backend.Prelude.{ℕ, Bool, List, Option, Text}

-- The types that the code builds and inspects. MLIR makes types unique, so `==` is equality.
-- A tensor's dimensions are int64_t patterns.
pub data MlirType : Type 0 where
  integer : ℕ → MlirType
  f16 f32 f64 index : MlirType
  ranked_tensor : List ℕ → MlirType → MlirType

pub data Attribute : Type 0 where
  -- type, value
  integer_attr float_attr : MlirType → ℕ → Attribute
  bool_attr : Bool → Attribute
  zero_attr : MlirType → Attribute

-- `DenseElementsAttr`
pub data Constant : Type 0 where
  scalar : Attribute → Constant
  dense_elements : MlirType → List Attribute → Constant

-- `AffineMap::get(rank, 0, exprs)` where every expression is a dimension.
pub record AffineMap : Type 0 where
  pub rank : ℕ
  pub results : List ℕ

pub data IteratorType : Type 0 where
  parallel reduction : IteratorType

pub data CmpIPredicate : Type 0 where
  eq ult ule slt sle : CmpIPredicate

pub data CmpFPredicate : Type 0 where
  oeq olt ole : CmpFPredicate

pub data Comparison : Type 0 where
  cmp_i : CmpIPredicate → Comparison
  cmp_f : CmpFPredicate → Comparison

-- `arith` and `math` operations that take values and no more.
pub data Arith : Type 0 where
  add_i mul_i sub_i div_s_i ceil_div_s_i : Arith
  add_f mul_f sub_f div_f max_num_f pow_f : Arith
  select : Arith
  sqrt rsqrt cbrt exp exp2 exp_m1 log log2 log10 log1p : Arith
  sin cos tan asin acos atan sinh cosh tanh asinh acosh atanh : Arith
  erf erfc ceil floor trunc round_even is_nan is_inf : Arith
  ct_pop count_leading_zeros count_trailing_zeros : Arith
  atan2 copy_sign fma : Arith

pub data Cast : Type 0 where
  index_cast ext_ui ext_si si_to_fp tensor_cast : Cast

-- `OpFoldResult`
pub data FoldResult (V : Type 0) : Type 0 where
  attr : ℕ → FoldResult V
  value : V → FoldResult V

-- lhs and rhs batching, lhs and rhs contracting
pub record DotDimensions : Type 0 where
  pub lhs_batching : List ℕ
  pub rhs_batching : List ℕ
  pub lhs_contracting : List ℕ
  pub rhs_contracting : List ℕ

-- The operations without a region: `X::create(builder, …)`.
pub data Op (V F : Type 0) : Type 0 where
  constant : Constant → Op V F
  constant_index : ℕ → Op V F
  arith : Arith → List V → Op V F
  compare_op : Comparison → V → V → Op V F
  cast : Cast → MlirType → V → Op V F
  -- inputs, then the output
  linalg_add linalg_mul : List V → V → Op V F
  linalg_index : ℕ → Op V F
  fill : V → V → Op V F
  matmul : V → V → V → Op V F
  transpose : V → V → List ℕ → Op V F
  broadcast : V → V → List ℕ → Op V F
  -- the type and a value for each dynamic dimension
  tensor_empty : MlirType → List V → Op V F
  tensor_extract : V → List V → Op V F
  tensor_insert : V → V → List V → Op V F
  -- type, source, offsets, sizes, strides
  extract_slice :
      MlirType → V → List (FoldResult V) → List (FoldResult V) → List (FoldResult V) → Op V F
  parallel_insert_slice :
      V → V → List (FoldResult V) → List (FoldResult V) → List (FoldResult V) → Op V F
  tensor_dim : V → ℕ → Op V F
  from_elements : MlirType → List V → Op V F
  tensor_concat : ℕ → List V → Op V F
  collapse_shape expand_shape : MlirType → V → List (List ℕ) → Op V F
  tie_shape : V → List V → Op V F
  dot_general : MlirType → V → V → DotDimensions → Op V F
  -- also the ragged dimension and the group dimensions
  ragged_dot : MlirType → V → V → V → DotDimensions → ℕ → List ℕ → Op V F
  stablehlo_lt : V → V → Op V F
  call : F → List V → Op V F
  -- the terminators of regions and of functions
  linalg_yield scf_yield ext_yield stablehlo_return func_return : List V → Op V F
  func_private : F → Op V F
  arg_attr : F → ℕ → List ℕ → Op V F

-- The operations whose regions the code fills by a callback, or by a block that it creates.
pub data RegionOp (V : Type 0) : Type 0 where
  -- result types, inputs, outputs, indexing maps, iterators
  generic : List MlirType → List V → List V → List AffineMap → List IteratorType → RegionOp V
  -- lower bound, upper bound, step, initial values
  scf_for : V → V → V → List V → RegionOp V
  scf_if : V → RegionOp V
  -- upper bounds and shared outputs
  scf_forall : List V → List V → RegionOp V
  in_parallel : RegionOp V
  -- result type, updates, indices, destination, block argument types
  scatter : MlirType → V → V → V → List MlirType → RegionOp V
  -- operands, dimension, stability, block argument types
  sort : List V → ℕ → Bool → List MlirType → RegionOp V

pub record Mlir : Type 1 where
  pub Value : Type 0
  pub Func : Type 0
  -- the module under construction, with the builder's insertion point
  pub Module : Type 0
  pub type_of : Value → MlirType
  -- `ShapedType::kDynamic`
  pub k_dynamic : ℕ
  -- `X::create`: the operation's results
  pub create : Op Value Func → Module → List Value × Module
  -- creates an operation and moves into its (first) region: the region's arguments
  pub open_region : RegionOp Value → Module → List Value × Module
  -- moves to the next region of the operation
  pub next_region : Module → Module
  -- leaves the region: the operation's results
  pub close_region : Module → List Value × Module
  -- creates a function at the end of the module, from its name, input and result types
  pub create_func : Text → List MlirType → List MlirType → Module → Func × Module
  pub argument_types : Func → List MlirType
  -- adds the entry block and moves into it: its arguments
  pub open_func : Func → Module → List Value × Module
  -- restores the insertion point that was there before the function
  pub close_func : Module → Module
  -- `tensor::CastOp::areCastCompatible`
  pub are_cast_compatible : MlirType → MlirType → Bool
  -- `getReassociationIndicesForReshape`
  pub reassociation : MlirType → MlirType → Option (List (List ℕ))
  -- `matchPattern` with `m_Constant` and `m_ConstantInt`, and the values read
  pub constant_ints : Value → Module → Option (List ℕ)
  pub constant_int : Value → Module → Option ℕ
  -- whether the build checks assertions
  pub asserts : Bool
