-- ===== src/Compiler/Keeps/Operations.antt =====
-- The rules for operations on scalars and arrays, black boxes, kernels and loops.
use mlir_backend.Prelude.{ℕ, suc, List, [], ◌∷◌, Option, none, some, Text, Error}
use mlir_backend.Ir.Primitive.{FloatOps, IntType, PrimType, BinOp, CmpOp, ConvOp}
use mlir_backend.Ir.Core.{VName, SubExp, constant, var, DimIndex, dim_fix, dim_slice, Slice, IrType}
use mlir_backend.Ir.Syntax.{BasicOp}
use mlir_backend.Compiler.Mlir.{Mlir, MlirType, ranked_tensor, Attribute, Arith}
use mlir_backend.Compiler.State.{Values}
use mlir_backend.Compiler.Scalars.{
  scalar_op, scalar_only, lower_bin_op, lower_cmp_op, lower_conv_op, apply_intrinsic,
  based_intrinsic, lower_intrinsic, intrinsic_op, intrinsic_base_name,
}
use mlir_backend.Compiler.Tensors.{
  dynamic_sizes, read_back_sizes, create_iota, fold_index, positive_stride, slice_extent,
  lower_index, literal_value, lower_array_lit, lower_reshape, lower_rearrange, inner_part,
  broadcast_to, lower_replicate, lower_scratch, lower_iota, lower_basic_op,
}
use mlir_backend.Compiler.Nesting.{Region, Frame, running}
use mlir_backend.Compiler.Keeps.Rules.{
  Invariant, Keeps, Keeps-pure, Keeps-throw, Keeps-lift, Keeps-if, Keeps->>=,
}
use mlir_backend.Compiler.Keeps.Basic.{Keeps-size_if, call_rules, value_rules}

module _ (mlir : Mlir) (floats : FloatOps) (I : Invariant mlir) {r : Region} {σ : List Frame} where
  open mlir use {Value, Func}

  Keeps-scalar_only :
      (x y : Value) (o : Option Arith) → Keeps mlir I (running r ∷ σ) (scalar_only mlir x y o)
  unfolding scalar_only
  Keeps-scalar_only x y none = Keeps-throw Error.undefined
  Keeps-scalar_only x y (some a) = search call_rules depth 12

  Keeps-lower_bin_op :
      (op : BinOp) (x y : Value) → Keeps mlir I (running r ∷ σ) (lower_bin_op mlir op x y)
  unfolding lower_bin_op
  Keeps-lower_bin_op (BinOp.add t o) x y = search call_rules depth 12
  Keeps-lower_bin_op (BinOp.mul t o) x y = search call_rules depth 12
  Keeps-lower_bin_op op x y = Keeps-scalar_only x y (scalar_op op)

  Keeps-lower_cmp_op :
      (op : CmpOp) (x y : Value) → Keeps mlir I (running r ∷ σ) (lower_cmp_op mlir op x y)
  unfolding lower_cmp_op
  Keeps-lower_cmp_op op x y = search call_rules depth 12

  Keeps-lower_conv_op :
      (op : ConvOp) (x : Value) → Keeps mlir I (running r ∷ σ) (lower_conv_op mlir op x)
  unfolding lower_conv_op
  Keeps-lower_conv_op (ConvOp.z_ext a b) x = search call_rules depth 12
  Keeps-lower_conv_op _ x = search call_rules depth 12

  Keeps-apply_intrinsic :
      (f : Text) (vs : Values mlir) (o : Option (Arith × ℕ))
      → Keeps mlir I (running r ∷ σ) (apply_intrinsic mlir f vs o)
  unfolding apply_intrinsic
  Keeps-apply_intrinsic f vs none = Keeps-throw _
  Keeps-apply_intrinsic f vs (some (op, n)) = search call_rules depth 12

  Keeps-based_intrinsic :
      (f : Text) (vs : Values mlir) (o : Option Text)
      → Keeps mlir I (running r ∷ σ) (based_intrinsic mlir f vs o)
  unfolding based_intrinsic
  Keeps-based_intrinsic f vs none = Keeps-throw _
  Keeps-based_intrinsic f vs (some b) = Keeps-apply_intrinsic f vs (intrinsic_op b)

  pub Keeps-lower_intrinsic :
      (f : Text) (vs : Values mlir) → Keeps mlir I (running r ∷ σ) (lower_intrinsic mlir f vs)
  unfolding lower_intrinsic
  Keeps-lower_intrinsic f vs =
      Keeps-if _ (Keeps-apply_intrinsic f vs (some (Arith.select, 3)))
        (Keeps-based_intrinsic f vs (intrinsic_base_name f))

  Keeps-dynamic_sizes :
      (ds : List SubExp) (ts : List ℕ)
      → Keeps mlir I (running r ∷ σ) (dynamic_sizes mlir floats ds ts)
  unfolding dynamic_sizes
  Keeps-dynamic_sizes [] ts = Keeps-pure []
  Keeps-dynamic_sizes (d ∷ ds) [] = Keeps-pure []
  Keeps-dynamic_sizes (d ∷ ds) (t ∷ ts) =
      Keeps-size_if mlir I _ (search value_rules depth 12) (Keeps-dynamic_sizes ds ts)

  Keeps-read_back_sizes :
      (v : Value) (i : ℕ) (ds : List ℕ)
      → Keeps mlir I (running r ∷ σ) (read_back_sizes mlir floats v i ds)
  unfolding read_back_sizes
  Keeps-read_back_sizes v i [] = Keeps-pure []
  Keeps-read_back_sizes v i (d ∷ ds) =
      Keeps-size_if mlir I _ (search value_rules depth 12) (Keeps-read_back_sizes v (suc i) ds)

  pub Keeps-create_iota :
      (n x s : Value) (t : MlirType) (d : ℕ)
      → Keeps mlir I (running r ∷ σ) (create_iota mlir floats n x s t d)
  unfolding create_iota
  Keeps-create_iota n x s t d = search call_rules depth 30

  Keeps-fold_index : (e : SubExp) → Keeps mlir I (running r ∷ σ) (fold_index mlir floats e)
  unfolding fold_index
  Keeps-fold_index (constant c) = search value_rules depth 12
  Keeps-fold_index (var v) = search value_rules depth 12

  Keeps-positive_stride :
      (e : SubExp) → Keeps mlir I (running r ∷ σ) (positive_stride mlir floats e)
  unfolding positive_stride
  Keeps-positive_stride (constant c) = search value_rules depth 12
  Keeps-positive_stride (var v) = search value_rules depth 12

  Keeps-slice_extent :
      (ds : List (DimIndex SubExp)) → Keeps mlir I (running r ∷ σ) (slice_extent mlir floats ds)
  unfolding slice_extent
  Keeps-slice_extent [] = Keeps-pure _
  Keeps-slice_extent (dim_fix i ∷ ds) =
      Keeps->>= (Keeps-fold_index i) λ o. Keeps->>= (Keeps-slice_extent ds) λ r. Keeps-pure _
  Keeps-slice_extent (dim_slice a n s ∷ ds) =
      let ih = Keeps-slice_extent ds in
      Keeps->>= (Keeps-fold_index a) λ o. Keeps->>= (Keeps-fold_index n) λ m.
        Keeps->>= (Keeps-positive_stride s)
          λ k. Keeps->>= (Keeps-lift _) λ t. Keeps->>= ih λ r. Keeps-pure _

  Keeps-lower_index :
      (v : VName) (s : Slice SubExp) → Keeps mlir I (running r ∷ σ) (lower_index mlir floats v s)
  unfolding lower_index
  Keeps-lower_index v s = search (value_rules, Keeps-slice_extent) depth 20

  Keeps-literal_value :
      (vs : List SubExp) (t : MlirType) (o : Option (List Attribute))
      → Keeps mlir I (running r ∷ σ) (literal_value mlir floats vs t o)
  unfolding literal_value
  Keeps-literal_value vs t none = search value_rules depth 12
  Keeps-literal_value vs t (some as') = search value_rules depth 12

  Keeps-lower_array_lit :
      (vs : List SubExp) (t : IrType)
      → Keeps mlir I (running r ∷ σ) (lower_array_lit mlir floats vs t)
  unfolding lower_array_lit
  Keeps-lower_array_lit vs t = search (value_rules, Keeps-literal_value) depth 12

  Keeps-lower_reshape :
      (x : SubExp) (ds : List SubExp)
      → Keeps mlir I (running r ∷ σ) (lower_reshape mlir floats x ds)
  unfolding lower_reshape
  Keeps-lower_reshape x ds = search value_rules depth 20

  Keeps-lower_rearrange :
      (v : VName) (perm : List ℕ)
      → Keeps mlir I (running r ∷ σ) (lower_rearrange mlir floats v perm)
  unfolding lower_rearrange
  Keeps-lower_rearrange v perm = search value_rules depth 20

  Keeps-inner_part :
      (v : Value) (t : MlirType) → Keeps mlir I (running r ∷ σ) (inner_part mlir floats v t)
  unfolding inner_part
  Keeps-inner_part v (ranked_tensor ds e) = search (value_rules, Keeps-read_back_sizes) depth 12
  Keeps-inner_part v _ = search value_rules depth 12

  Keeps-broadcast_to :
      (v : Value) (ds : List SubExp) → Keeps mlir I (running r ∷ σ) (broadcast_to mlir floats v ds)
  unfolding broadcast_to
  Keeps-broadcast_to v ds = search (value_rules, Keeps-dynamic_sizes, Keeps-inner_part) depth 20

  Keeps-lower_replicate :
      (ds : List SubExp) (x : SubExp)
      → Keeps mlir I (running r ∷ σ) (lower_replicate mlir floats ds x)
  unfolding lower_replicate
  Keeps-lower_replicate [] x = search value_rules
  Keeps-lower_replicate (d ∷ ds) x = search (value_rules, Keeps-broadcast_to) depth 12

  Keeps-lower_scratch :
      (t : PrimType) (ds : List SubExp)
      → Keeps mlir I (running r ∷ σ) (lower_scratch mlir floats t ds)
  unfolding lower_scratch
  Keeps-lower_scratch t ds = search (value_rules, Keeps-dynamic_sizes) depth 12

  Keeps-lower_iota :
      (n x s : SubExp) (t : IntType) → Keeps mlir I (running r ∷ σ) (lower_iota mlir floats n x s t)
  unfolding lower_iota
  Keeps-lower_iota n x s t = search (value_rules, Keeps-create_iota) depth 30

  -- A scalar or array operation keeps the invariant.
  pub Keeps-lower_basic_op :
      (op : BasicOp) → Keeps mlir I (running r ∷ σ) (lower_basic_op mlir floats op)
  unfolding lower_basic_op
  Keeps-lower_basic_op (BasicOp.array_lit vs t) = Keeps-lower_array_lit vs t
  Keeps-lower_basic_op (BasicOp.bin_op op x y) = search (value_rules, Keeps-lower_bin_op) depth 12
  Keeps-lower_basic_op (BasicOp.iota n x s t) = Keeps-lower_iota n x s t
  Keeps-lower_basic_op (BasicOp.index v s) = Keeps-lower_index v s
  Keeps-lower_basic_op (BasicOp.conv_op op x) = search (value_rules, Keeps-lower_conv_op) depth 12
  Keeps-lower_basic_op (BasicOp.reshape x b e s r) = Keeps-lower_reshape x r.dims
  Keeps-lower_basic_op (BasicOp.rearrange v p) = Keeps-lower_rearrange v p
  Keeps-lower_basic_op (BasicOp.replicate s x) = Keeps-lower_replicate s.dims x
  Keeps-lower_basic_op (BasicOp.scratch t ds) = Keeps-lower_scratch t ds
  Keeps-lower_basic_op (BasicOp.cmp_op op x y) = search (value_rules, Keeps-lower_cmp_op) depth 12
  Keeps-lower_basic_op _ = search value_rules depth 12
