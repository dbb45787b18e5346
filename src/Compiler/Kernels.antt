-- ===== src/Compiler/Kernels.antt =====
-- compiler.hpp: iteration spaces, affine reads and the segmented operations. Where a kernel's body,
-- lambda or post operator is lowered the model takes that lowering as an argument.
pub mod Affine
pub mod Recognition
use mlir_backend.Prelude.{
  ℕ, zero, suc, ◌+◌, ◌-◌, Bool, true, false, List, [], ◌∷◌, ◌++◌, Option, none, some, ◌==◌, ◌||◌,
  not, ltb, leb, length, take, drop, get_elem?, replicate, exists, map, if◌then◌else◌, Text,
  text_eq, Result, ok, err, Error, or_err, map_result, ◌>>=◌ as bind_result,
}
use mlir_backend.Ir.Primitive.{FloatOps}
use mlir_backend.Ir.Core.{
  VName, SubExp, constant, var, DimIndex, dim_fix, dim_slice, Slice, IrType, PatElem, Param,
}
use mlir_backend.Ir.Syntax.{
  BasicOp, LParam, SegLevel, seg_thread, SegSpace, Exp, Stm, Stms, no_stms, more_stms,
}
use mlir_backend.Compiler.Monad.{pure, throw, lift, ◌>>=◌, ◌>>◌, map_action, for_each}
use mlir_backend.Compiler.Mlir.{
  Mlir, MlirType, index, ranked_tensor, AffineMap, IteratorType, Cast, FoldResult, attr, value, Op,
  RegionOp,
}
use mlir_backend.Compiler.State.{
  Lower, Values, emit_one, emit_unit, open_op, close_op, head_value, assert_that, zip_equal,
  zip_shortest, lookup, bind, in_local, size_if,
}
use mlir_backend.Compiler.Types.{
  type_eq, get_ranked_type, is_dynamic, to_shape_type, to_shape_types, lower_ty,
  lower_seg_op_base_type,
}
use mlir_backend.Compiler.Values.{lower_sub_exp, lower_sub_exps, to_index}
use mlir_backend.Compiler.Tensors.{identity_map, range_from}

-- `struct Dim`
pub record Dim (V : Type 0) : Type 0 where
  pub id : Text
  pub value : V
  pub is_dyn : Bool
  pub position : ℕ

-- `struct AffineRead`
pub record AffineRead : Type 0 where
  pub result : VName
  pub array : VName
  pub index_map : AffineMap

-- `RequireThreadLevel`
abbrev pub require_thread_level : SegLevel → Result (Unit {0})
require_thread_level (seg_thread _) = ok tt
require_thread_level _ = err Error.undefined

-- `std::ranges::find(iterSpace, name, &Dim::id)`: the index of the first dimension of that name.
unfoldable pub find_dim : {V : Type 0} → Text → List (Dim V) → Option ℕ
find_dim name [] = none
find_dim name (d ∷ ds) = if text_eq d.id name then some d.position else find_dim name ds

-- The dimensions that an index expression uses, if each is a variable of the iteration space.
unfoldable pub used_dims : {V : Type 0} → List (DimIndex SubExp) → List (Dim V) → Option (List ℕ)
used_dims [] space = some []
used_dims (dim_slice _ _ _ ∷ ds) space = none
used_dims (dim_fix (constant _) ∷ ds) space = none
used_dims (dim_fix (var v) ∷ ds) space = elim (find_dim v.name space) [
  | none ↦ none
  | some i ↦ elim (used_dims ds space) [ none ↦ none | some is ↦ some (i ∷ is) ]
]

-- `toAffineRead`
unfoldable pub to_affine_read : {V : Type 0} → VName → Exp → List (Dim V) → Option AffineRead
to_affine_read vn (Exp.basic_op (BasicOp.index arr slice)) space =
    elim (used_dims slice.dims space) [
      | none ↦ none
      | some is ↦ some (record {
        result = vn;
        array = arr;
        index_map = record { rank = length space; results = is };
      })
    ]
to_affine_read vn _ space = none

-- The one name that a kernel's statement binds.
abbrev pub single_name : Stm → Result VName
single_name (Stm.stm p e) = only p.elems
  where
    only : List (PatElem IrType) → Result VName
    only (e ∷ []) = ok e.name
    only _ = err Error.undefined

abbrev stm_exp : Stm → Exp
stm_exp (Stm.stm p e) = e

-- `FindSegOpAffineReads`
unfoldable pub find_affine_reads : {V : Type 0} → List (Dim V) → Stms → Result (List AffineRead)
find_affine_reads space no_stms = ok []
find_affine_reads space (more_stms s ss) = bind_result (single_name s) λ vn.
    bind_result (find_affine_reads space ss)
      λ reads. ok (elim (to_affine_read vn (stm_exp s) space) [ none ↦ reads | some r ↦ r ∷ reads ])

-- `skipLowering`: the names that affine reads bind.
abbrev pub read_names : List AffineRead → List Text
read_names = map λ r. r.result.name

abbrev pub is_skipped : List Text → Text → Bool
is_skipped skip name = exists (λ s. text_eq s name) skip

abbrev pub dim_sizes : SegSpace → List SubExp
dim_sizes space = map (λ d. d.1) space.dims

module _ (mlir : Mlir) (floats : FloatOps) where
  open mlir use {Value, type_of}

  abbrev pub IterationSpace : Type 0
  IterationSpace = List (Dim Value)

  unfoldable pub lower_dims : ℕ → List (Text × SubExp) → Lower mlir IterationSpace
  lower_dims i [] = pure []
  lower_dims i ((id, dim) ∷ dims) = do
    d ← lower_sub_exp mlir floats dim
    t ← lift (to_shape_type mlir dim)
    rest ← lower_dims (suc i) dims
    pure (record { id = id; value = d; is_dyn = is_dynamic mlir t; position = i } ∷ rest)

  -- `LowerSegSpace`
  unfoldable pub lower_seg_space : SegSpace → Lower mlir IterationSpace
  unfolding lower_dims
  lower_seg_space space = lower_dims 0 space.dims

  -- An index for the bound of each dynamic dimension.
  unfoldable pub space_sizes : IterationSpace → Lower mlir (Values mlir)
  space_sizes [] = pure []
  space_sizes (d ∷ ds) = size_if mlir d.is_dyn (to_index mlir floats d.value) (space_sizes ds)

  -- The types of a kernel's results: the element types over the shape.
  abbrev result_types : List ℕ → List IrType → Result (List MlirType)
  result_types shape =
      map_result λ t. bind_result (lower_seg_op_base_type t) λ e. ok (ranked_tensor shape e)

  -- The iteration variables of `LowerSegOpKernelBody`, bound to the iteration indices.
  unfoldable pub bind_gtid : Dim Value → Lower mlir (Unit {0})
  bind_gtid d = do
    idx ← emit_one mlir (Op.linalg_index d.position)
    val ← emit_one mlir (Op.cast Cast.index_cast (type_of d.value) idx)
    bind mlir d.id val

  abbrev pub bind_names : List (Text × Value) → Lower mlir (Unit {0})
  bind_names = for_each λ p. bind mlir p.0 p.1

  -- `LowerSegOpKernelBody`; `lower_rest` lowers the statements but those of the given names.
  unfoldable pub lower_kernel_body :
      Values mlir
      → List AffineRead
      → IterationSpace
      → (List Text → Lower mlir (Unit {0}))
      → List SubExp
      → Lower mlir (Values mlir)
  unfolding bind_gtid
  lower_kernel_body block_args reads space lower_rest results = do
    pairs ← zip_equal mlir reads block_args
    for_each (λ (p : AffineRead × Value). bind mlir p.0.result.name p.1) pairs
    for_each bind_gtid space
    lower_rest (read_names reads)
    lower_sub_exps mlir floats results

  abbrev read_inputs : List AffineRead → Lower mlir (Values mlir)
  read_inputs = map_action λ (r : AffineRead). lookup mlir r.array.name

  abbrev read_maps : List AffineRead → List AffineMap
  read_maps = map λ r. r.index_map

  -- `LowerSegMap`
  unfoldable pub lower_seg_map :
      SegLevel
      → SegSpace
      → List IrType
      → Stms
      → (List Text → Lower mlir (Unit {0}))
      → List SubExp
      → Lower mlir (Values mlir)
  unfolding find_affine_reads
  lower_seg_map lvl space ret stms lower_rest results = do
    lift (require_thread_level lvl)
    iter_space ← lower_seg_space space
    reads ← lift (find_affine_reads iter_space stms)
    inputs ← read_inputs reads
    shape ← lift (to_shape_types mlir (dim_sizes space))
    return_types ← lift (result_types shape ret)
    sizes ← space_sizes iter_space
    outputs ← map_action (λ t. emit_one mlir (Op.tensor_empty t sizes)) return_types
    let rank = length iter_space
    args ← open_op mlir (
        RegionOp.generic return_types inputs outputs
          (read_maps reads ++ replicate (length outputs) (identity_map rank))
          (replicate rank IteratorType.parallel))
    in_local mlir (do
      vs ← lower_kernel_body args reads iter_space lower_rest results
      assert_that mlir (length vs == length outputs)
      emit_unit mlir (Op.linalg_yield vs))
    close_op mlir

  -- The parameters of a combining lambda: first the accumulators, then the kernel's results.
  unfoldable pub bind_lambda : List LParam → Values mlir → Values mlir → Lower mlir (Unit {0})
  bind_lambda params accs results = do
    assert_that mlir (length params == length accs + length results)
    bind_names (map (λ (p : LParam × Value). (p.0.name, p.1)) (zip_shortest mlir params accs))
    pairs ← zip_equal mlir (drop (length accs) params) results
    bind_names (map (λ (p : LParam × Value). (p.0.name, p.1)) pairs)

  -- `LowerSegRed`, once its one operator has been taken apart.
  unfoldable pub lower_seg_red :
      SegSpace
      → Stms
      → (List Text → Lower mlir (Unit {0}))
      → List SubExp
      → List LParam
      → List IrType
      → Lower mlir (Values mlir)
      → List SubExp
      → Lower mlir (Values mlir)
  lower_seg_red space stms lower_rest results params lambda_ret lower_lambda neutral = do
    nes ← lower_sub_exps mlir floats neutral
    iter_space ← lower_seg_space space
    let rank = length iter_space
    if rank == 0 then throw Error.undefined else pure tt
    reads ← lift (find_affine_reads iter_space stms)
    inputs ← read_inputs reads
    shape ← lift (to_shape_types mlir (take (rank - 1) (dim_sizes space)))
    return_types ← lift (result_types shape lambda_ret)
    sizes ← space_sizes (take (rank - 1) iter_space)
    typed ← zip_equal mlir return_types nes
    outputs ←
        map_action
          (λ (p : MlirType × Value). do
            e ← emit_one mlir (Op.tensor_empty p.0 sizes)
            emit_one mlir (Op.fill p.1 e))
          typed
    args ← open_op mlir (
        RegionOp.generic return_types inputs outputs
          (read_maps reads
            ++ replicate (length outputs)
                (record { rank = rank; results = range_from 0 (rank - 1) }))
          (replicate (rank - 1) IteratorType.parallel ++ IteratorType.reduction ∷ []))
    in_local mlir (do
      returns ← lower_kernel_body args reads iter_space lower_rest results
      bind_lambda params (drop (length inputs) args) returns
      vs ← lower_lambda
      emit_unit mlir (Op.linalg_yield vs))
    close_op mlir

  -- What follows the map in `LowerSegHist`, with its one operator's destinations and lambda.
  unfoldable pub lower_seg_hist :
      Values mlir → List VName → List LParam → Lower mlir (Values mlir) → Lower mlir (Values mlir)
  lower_seg_hist inputs dest params lower_lambda = do
    dests ← map_action (λ (v : VName). lookup mlir v.name) dest
    if length dests == 1 then pure tt else throw Error.undefined
    d ← head_value mlir dests
    indices ← lift (or_err (get_elem? inputs 0) Error.undefined)
    values ← lift (or_err (get_elem? inputs 1) Error.undefined)
    (shape, _) ← lift (get_ranked_type (type_of indices))
    if length shape == 1 then pure tt else throw Error.undefined
    types ← lift (map_result (λ (p : LParam). lower_ty mlir p.dec) params)
    block ← open_op mlir (RegionOp.scatter (type_of d) values indices d types)
    in_local mlir (do
      pairs ← zip_equal mlir params block
      bind_names (map (λ (p : LParam × Value). (p.0.name, p.1)) pairs)
      returns ← lower_lambda
      emit_unit mlir (Op.ext_yield returns))
    rs ← close_op mlir
    r ← head_value mlir rs
    pure (r ∷ [])
