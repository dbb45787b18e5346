-- ===== src/Compiler/Tensors.antt =====
-- compiler.hpp: operations on arrays, and `LowerBasicOp`.
pub mod Sizes
pub mod Slices
pub mod Transpose
use mlir_backend.Prelude.{
  ℕ, zero, suc, Bool, true, false, List, [], ◌∷◌, ◌++◌, Option, none, some, ◌==◌, not, ltb, length,
  exists, get_elem?, if◌then◌else◌, Result, ok, err, Error, or_err, map_result,
  ◌>>=◌ as bind_result,
}
use mlir_backend.Word.{signed_ltb}
use mlir_backend.Ir.Primitive.{IntType, prim_type_int, int_type_width, FloatOps, PrimType}
use mlir_backend.Ir.Core.{
  VName, SubExp, constant, var, sub_exp_get_int_value, DimIndex, dim_fix, dim_slice, Slice, Shape,
  IrType,
}
use mlir_backend.Ir.Syntax.{BasicOp}
use mlir_backend.Compiler.Monad.{Action, pure, throw, lift, ◌>>=◌, ◌>>◌, map_action}
use mlir_backend.Compiler.Mlir.{
  Mlir, MlirType, index, ranked_tensor, Attribute, scalar, dense_elements, AffineMap, IteratorType,
  Arith, Cast, FoldResult, attr, value, Op, RegionOp,
}
use mlir_backend.Compiler.State.{
  State, Lower, Values, emit_one, emit_unit, open_op, close_op, head_value, lookup, size_if,
}
use mlir_backend.Compiler.Types.{
  type_eq, lower_prim_type, get_ranked_type, is_dynamic, to_shape_type, to_shape_types, lower_ty,
}
use mlir_backend.Compiler.Values.{get_prim_value_attr, lower_sub_exp, lower_sub_exps, to_index}
use mlir_backend.Compiler.Scalars.{lower_bin_op, lower_cmp_op, lower_conv_op}

-- 0, 1, …, n - 1
unfoldable pub range_from : ℕ → ℕ → List ℕ
range_from k zero = []
range_from k (suc n) = k ∷ range_from (suc k) n

-- `AffineMap::getMultiDimIdentityMap`
unfoldable pub identity_map : ℕ → AffineMap
unfolding range_from
identity_map rank = record { rank = rank; results = range_from 0 rank }

abbrev is_slice : DimIndex SubExp → Bool
is_slice (dim_fix _) = false
is_slice (dim_slice _ _ _) = true

-- `std::get<DimFix<SubExp>>`
abbrev fixed_index : DimIndex SubExp → Result SubExp
fixed_index (dim_fix i) = ok i
fixed_index (dim_slice _ _ _) = err Error.bad_variant_access

-- The dimensions of a transposed shape: entry i is the source's dimension perm[i].
unfoldable pub permute_dims : List ℕ → List ℕ → Result (List ℕ)
permute_dims shape perm =
    map_result (λ p. or_err (get_elem? shape p) Error.undefined_behaviour) perm

-- The attributes of an array literal, or nothing at the first element that is no constant.
unfoldable pub literal_attrs : FloatOps → List SubExp → Result (Option (List Attribute))
literal_attrs floats [] = ok (some [])
literal_attrs floats (var _ ∷ es) = ok none
literal_attrs floats (constant c ∷ es) =
    bind_result (get_prim_value_attr floats c)
      λ a. bind_result (literal_attrs floats es) (prepend a)
  where
    prepend : Attribute → Option (List Attribute) → Result (Option (List Attribute))
    prepend a none = ok none
    prepend a (some as') = ok (some (a ∷ as'))

module _ (mlir : Mlir) (floats : FloatOps) where
  open mlir use {Value, type_of}

  -- A value for each dynamic dimension of a shape that subexpressions give.
  unfoldable pub dynamic_sizes : List SubExp → List ℕ → Lower mlir (Values mlir)
  dynamic_sizes [] ts = pure []
  dynamic_sizes (d ∷ ds) [] = pure []
  dynamic_sizes (d ∷ ds) (t ∷ ts) =
      size_if mlir (is_dynamic mlir t) (lower_sub_exp mlir floats d >>= to_index mlir floats)
        (dynamic_sizes ds ts)

  -- The sizes of a value's own dynamic dimensions, from number `i` on, read back off the value.
  unfoldable pub read_back_sizes : Value → ℕ → List ℕ → Lower mlir (Values mlir)
  read_back_sizes op i [] = pure []
  read_back_sizes op i (d ∷ ds) =
      size_if mlir (is_dynamic mlir d) (emit_one mlir (Op.tensor_dim op i))
        (read_back_sizes op (suc i) ds)

  -- `createIota`
  unfoldable pub create_iota : Value → Value → Value → MlirType → ℕ → Lower mlir Value
  unfolding identity_map
  create_iota n x s element_ty dim_ty = do
    let return_ty = ranked_tensor (dim_ty ∷ []) element_ty
    output ←
        emit_one mlir (Op.tensor_empty return_ty (if is_dynamic mlir dim_ty then n ∷ [] else []))
    _ ← open_op mlir (
        RegionOp.generic (return_ty ∷ []) [] (output ∷ []) (identity_map 1 ∷ [])
          (IteratorType.parallel ∷ []))
    iv ← emit_one mlir (Op.linalg_index 0)
    i ← emit_one mlir (Op.cast Cast.index_cast element_ty iv)
    offset ← emit_one mlir (Op.arith Arith.mul_i (i ∷ s ∷ []))
    result ← emit_one mlir (Op.arith Arith.add_i (x ∷ offset ∷ []))
    emit_unit mlir (Op.linalg_yield (result ∷ []))
    rs ← close_op mlir
    head_value mlir rs

  -- `toIndex` in `LowerIndex`: constants stay attributes.
  unfoldable pub fold_index : SubExp → Lower mlir (FoldResult Value)
  fold_index (constant c) = do k ← lift (sub_exp_get_int_value (constant c)); pure (attr k)
  fold_index (var x) = do
    v ← lower_sub_exp mlir floats (var x)
    i ← to_index mlir floats v
    pure (value i)

  -- The stride must be seen to be positive.
  unfoldable pub positive_stride : SubExp → Lower mlir ℕ
  positive_stride (var _) = throw Error.undefined
  positive_stride (constant c) = do
    k ← lift (sub_exp_get_int_value (constant c))
    if signed_ltb k 1 then throw Error.undefined else pure k

  -- Offsets, sizes, strides and the dimensions that are kept.
  abbrev Extent : Type 0
  Extent = List (FoldResult Value) × List (FoldResult Value) × List (FoldResult Value) × List ℕ

  unfoldable pub slice_extent : List (DimIndex SubExp) → Lower mlir Extent
  unfolding fold_index positive_stride
  slice_extent [] = pure ([], [], [], [])
  slice_extent (dim_fix i ∷ ds) = do
    o ← fold_index i
    (os, ns, ss, shape) ← slice_extent ds
    pure (o ∷ os, attr 1 ∷ ns, attr 1 ∷ ss, shape)
  slice_extent (dim_slice start len stride ∷ ds) = do
    o ← fold_index start
    n ← fold_index len
    k ← positive_stride stride
    t ← lift (to_shape_type mlir len)
    (os, ns, ss, shape) ← slice_extent ds
    pure (o ∷ os, n ∷ ns, attr k ∷ ss, t ∷ shape)

  -- `LowerIndex`
  unfoldable pub lower_index : VName → Slice SubExp → Lower mlir Value
  lower_index arr slice = do
    tensor ← lookup mlir arr.name
    if exists is_slice slice.dims
        then (do
          (os, ns, ss, shape) ← slice_extent slice.dims
          (_, elem) ← lift (get_ranked_type (type_of tensor))
          emit_one mlir (Op.extract_slice (ranked_tensor shape elem) tensor os ns ss))
        else (do
          indices ←
              map_action
                (λ d. do
                  e ← lift (fixed_index d)
                  i ← lower_sub_exp mlir floats e
                  to_index mlir floats i)
                slice.dims
          emit_one mlir (Op.tensor_extract tensor indices))

  unfoldable pub literal_value : List SubExp → MlirType → Option (List Attribute) → Lower mlir Value
  literal_value values tensor_ty (some as') = do
    _ ← lift (get_ranked_type tensor_ty)
    emit_one mlir (Op.constant (dense_elements tensor_ty as'))
  literal_value values tensor_ty none = do
    vs ← lower_sub_exps mlir floats values
    emit_one mlir (Op.from_elements tensor_ty vs)

  -- `LowerArrayLit`
  unfoldable pub lower_array_lit : List SubExp → IrType → Lower mlir Value
  unfolding literal_attrs literal_value
  lower_array_lit values t = do
    tensor_ty ← lift (lower_ty mlir t)
    attrs ← lift (literal_attrs floats values)
    literal_value values tensor_ty attrs

  -- `BasicOpReshape`
  unfoldable pub lower_reshape : SubExp → List SubExp → Lower mlir Value
  lower_reshape x remainder = do
    op0 ← lower_sub_exp mlir floats x
    (source_shape, elem) ← lift (get_ranked_type (type_of op0))
    shape ← lift (to_shape_types mlir remainder)
    let source_ty = ranked_tensor source_shape elem
    let result_ty = ranked_tensor shape elem
    if type_eq source_ty result_ty then pure op0 else (do
      groups ← lift (or_err (mlir.reassociation source_ty result_ty) Error.undefined)
      if ltb (length shape) (length source_shape)
          then emit_one mlir (Op.collapse_shape result_ty op0 groups)
          else emit_one mlir (Op.expand_shape result_ty op0 groups))

  -- `BasicOpRearrange`
  unfoldable pub lower_rearrange : VName → List ℕ → Lower mlir Value
  lower_rearrange arr perm = do
    op ← lookup mlir arr.name
    (shape, elem) ← lift (get_ranked_type (type_of op))
    if length perm == length shape
        then (do
          dims ← lift (permute_dims shape perm)
          destination ← emit_one mlir (Op.tensor_empty (ranked_tensor dims elem) [])
          emit_one mlir (Op.transpose op destination perm))
        else throw Error.undefined

  -- The inner part of `BasicOpReplicate`: the element type, the inner dimensions and their sizes, and
  -- the value to broadcast, which for a scalar is a tensor of rank 0.
  unfoldable pub inner_part :
      Value → MlirType → Lower mlir (MlirType × List ℕ × Values mlir × Value)
  inner_part op (ranked_tensor dims elem) = do
    sizes ← read_back_sizes op 0 dims
    pure (elem, dims, sizes, op)
  inner_part op t = do
    op' ← emit_one mlir (Op.from_elements (ranked_tensor [] t) (op ∷ []))
    pure (t, [], [], op')

  unfoldable pub broadcast_to : Value → List SubExp → Lower mlir Value
  unfolding inner_part range_from
  broadcast_to op dims = do
    outer ← lift (to_shape_types mlir dims)
    outer_sizes ← dynamic_sizes dims outer
    (elem, inner, inner_sizes, op') ← inner_part op (type_of op)
    destination ←
        emit_one mlir
          (Op.tensor_empty (ranked_tensor (outer ++ inner) elem) (outer_sizes ++ inner_sizes))
    emit_one mlir (Op.broadcast op' destination (range_from 0 (length outer)))

  -- `BasicOpReplicate`: by the empty shape it is the identity.
  unfoldable pub lower_replicate : List SubExp → SubExp → Lower mlir Value
  unfolding broadcast_to
  lower_replicate [] val = lower_sub_exp mlir floats val
  lower_replicate (d ∷ ds) val = do op ← lower_sub_exp mlir floats val; broadcast_to op (d ∷ ds)

  -- `BasicOpScratch`
  unfoldable pub lower_scratch : PrimType → List SubExp → Lower mlir Value
  lower_scratch t dims = do
    base_ty ← lift (lower_prim_type t)
    shape ← lift (to_shape_types mlir dims)
    sizes ← dynamic_sizes dims shape
    emit_one mlir (Op.tensor_empty (ranked_tensor shape base_ty) sizes)

  -- `BasicOpIota`
  unfoldable pub lower_iota : SubExp → SubExp → SubExp → IntType → Lower mlir Value
  unfolding prim_type_int
  lower_iota n x s t = do
    n' ← lower_sub_exp mlir floats n
    count ← to_index mlir floats n'
    x' ← lower_sub_exp mlir floats x
    s' ← lower_sub_exp mlir floats s
    p ← lift (prim_type_int (int_type_width t))
    element_ty ← lift (lower_prim_type p)
    dim ← lift (to_shape_type mlir n)
    create_iota count x' s' element_ty dim

  -- `LowerBasicOp`
  unfoldable pub lower_basic_op : BasicOp → Lower mlir Value
  lower_basic_op (BasicOp.sub_exp e) = lower_sub_exp mlir floats e
  lower_basic_op (BasicOp.array_lit values t) = lower_array_lit values t
  lower_basic_op (BasicOp.bin_op op x y) = do
    op0 ← lower_sub_exp mlir floats x
    op1 ← lower_sub_exp mlir floats y
    lower_bin_op mlir op op0 op1
  lower_basic_op (BasicOp.iota n x s t) = lower_iota n x s t
  lower_basic_op (BasicOp.concat dim arrs total) = do
    operands ← map_action (λ (v : VName). lookup mlir v.name) arrs
    emit_one mlir (Op.tensor_concat dim operands)
  lower_basic_op (BasicOp.index arr slice) = lower_index arr slice
  lower_basic_op (BasicOp.conv_op op x) = do
    op0 ← lower_sub_exp mlir floats x
    lower_conv_op mlir op op0
  lower_basic_op (BasicOp.reshape x b e reshaped remainder) = lower_reshape x remainder.dims
  lower_basic_op (BasicOp.rearrange arr perm) = lower_rearrange arr perm
  lower_basic_op (BasicOp.replicate shape val) = lower_replicate shape.dims val
  lower_basic_op (BasicOp.scratch t dims) = lower_scratch t dims
  lower_basic_op (BasicOp.cmp_op op x y) = do
    lhs ← lower_sub_exp mlir floats x
    rhs ← lower_sub_exp mlir floats y
    lower_cmp_op mlir op lhs rhs
  lower_basic_op BasicOp.opaque = throw Error.undefined
  lower_basic_op (BasicOp.array_val _ _) = throw Error.undefined
  lower_basic_op (BasicOp.un_op _ _) = throw Error.undefined
  lower_basic_op (BasicOp.flat_index _ _) = throw Error.undefined
  lower_basic_op (BasicOp.update _ _ _ _) = throw Error.undefined
  lower_basic_op BasicOp.assert = throw Error.undefined
  lower_basic_op (BasicOp.flat_update _ _ _) = throw Error.undefined
  lower_basic_op (BasicOp.manifest _ _) = throw Error.undefined
