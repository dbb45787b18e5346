-- ===== src/Compiler/Scans.antt =====
-- compiler.hpp: `LowerSegScan`, an outer parallel loop over rows with a sequential loop along the
-- scanned dimension. What is lowered inside them is an argument.
use mlir_backend.Prelude.{
  ℕ, List, [], ◌∷◌, ◌++◌, ◌==◌, length, take, drop, get_elem?, map, replicate, if◌then◌else◌,
  Result, ok, err, Error, or_err, map_result, ◌>>=◌ as bind_result,
}
use mlir_backend.Ir.Primitive.{FloatOps}
use mlir_backend.Ir.Core.{SubExp, IrType}
use mlir_backend.Ir.Syntax.{LParam, SegSpace}
use mlir_backend.Compiler.Monad.{pure, lift, ◌>>=◌, ◌>>◌, map_action, for_each}
use mlir_backend.Compiler.Mlir.{
  Mlir, MlirType, FoldResult, index, ranked_tensor, Cast, attr, value, Op, RegionOp,
}
use mlir_backend.Compiler.State.{
  Lower, Values, emit_one, emit_unit, open_op, close_op, zip_equal, bind, in_local,
}
use mlir_backend.Compiler.Types.{type_eq, is_dynamic, to_shape_types, lower_seg_op_base_type}
use mlir_backend.Compiler.Values.{lower_sub_exps}
use mlir_backend.Compiler.Kernels.{Dim, lower_seg_space, space_sizes, dim_sizes, bind_lambda}

-- Splits off the last element: `iterSpace.back()` and `first(size - 1)`.
abbrev pub split_last {ℓ} : {A : Type ℓ} → List A → Result (List A × A)
split_last [] = err Error.undefined
split_last (x ∷ []) = ok ([], x)
split_last (x ∷ y ∷ ys) = elim (split_last (y ∷ ys)) [
  | ok (init, last) ↦ ok (x ∷ init, last)
  | err e ↦ err e
]

-- `values[i]` for i below n
abbrev first_of_range {ℓ} : {A : Type ℓ} → ℕ → List A → Result (List A)
first_of_range n xs =
    if length (take n xs) == n then ok (take n xs) else err Error.undefined_behaviour

module _ (mlir : Mlir) (floats : FloatOps) where
  open mlir use {Value, type_of}

  -- An upper bound or an index at the type `t`, cast where it has another.
  abbrev at_type : MlirType → Value → Lower mlir Value
  at_type t v =
      if type_eq (type_of v) t then pure v else emit_one mlir (Op.cast Cast.index_cast t v)

  -- The row type of each output: the scanned dimension alone.
  abbrev row_types : ℕ → List IrType → Result (List MlirType)
  row_types n =
      map_result λ t. bind_result (lower_seg_op_base_type t) λ e. ok (ranked_tensor (n ∷ []) e)

  abbrev bind_dims : List (Dim Value × Value) → Lower mlir (Unit {0})
  bind_dims = for_each λ p. do gtid ← at_type (type_of p.0.value) p.1; bind mlir p.0.id gtid

  unfoldable pub tie_all : Values mlir → Values mlir → Lower mlir (Values mlir)
  tie_all [] vs = pure vs
  tie_all (s ∷ sizes) vs = map_action (λ v. emit_one mlir (Op.tie_shape v (s ∷ sizes))) vs

  -- One round of the sequential loop: the kernel, the operator, the post operator, and a write into
  -- each row. The first result is the carry.
  unfoldable pub scan_round :
      Dim Value
      → Value
      → Values mlir
      → Values mlir
      → Values mlir
      → Lower mlir (Unit {0})
      → List SubExp
      → List LParam
      → Lower mlir (Values mlir)
      → List LParam
      → Lower mlir (Values mlir)
      → ℕ
      → ℕ
      → Lower mlir (Values mlir)
  unfolding tie_all
  scan_round scan_dim scan_index accs rows row_sizes lower_stms results params lower_lambda
        post_params lower_post scan_count output_count =
      do
        shaped ← tie_all row_sizes rows
        gtid ← at_type (type_of scan_dim.value) scan_index
        bind mlir scan_dim.id gtid
        lower_stms
        kernel_results ← lower_sub_exps mlir floats results
        next_accs ←
            in_local mlir (do bind_lambda mlir floats params accs kernel_results; lower_lambda)
        outputs ← in_local mlir (do
          ps ← lift (first_of_range scan_count post_params)
          vs ← lift (first_of_range scan_count next_accs)
          pairs ← zip_equal mlir ps vs
          for_each (λ (p : LParam × Value). bind mlir p.0.name p.1) pairs
          lower_post)
        os ← lift (first_of_range output_count outputs)
        rs ← lift (first_of_range output_count shaped)
        pairs ← zip_equal mlir os rs
        next_rows ←
            map_action
              (λ (p : Value × Value). emit_one mlir (Op.tensor_insert p.0 p.1 (scan_index ∷ [])))
              pairs
        pure (next_accs ++ next_rows)

  -- The sequential loop along the scanned dimension: its results are the last carry.
  unfoldable pub scan_loop :
      Dim Value
      → Value
      → Value
      → Value
      → Values mlir
      → Values mlir
      → Lower mlir (Unit {0})
      → List SubExp
      → List LParam
      → Lower mlir (Values mlir)
      → List LParam
      → Lower mlir (Values mlir)
      → ℕ
      → ℕ
      → Lower mlir (Values mlir)
  unfolding scan_round
  scan_loop scan_dim zero upper one initial_values row_sizes lower_stms results params lower_lambda
        post_params lower_post scan_count output_count =
      do
        loop_args ← open_op mlir (RegionOp.scf_for zero upper one initial_values)
        scan_index ← lift (or_err (get_elem? loop_args 0) Error.undefined_behaviour)
        let iter_args = drop 1 loop_args
        carry ←
            scan_round scan_dim scan_index (take scan_count iter_args) (drop scan_count iter_args)
              row_sizes lower_stms results params lower_lambda post_params lower_post scan_count
              output_count
        emit_unit mlir (Op.scf_yield carry)
        close_op mlir

  -- The end of a parallel round: each row that is complete goes into the output that is shared.
  unfoldable pub write_rows :
      ℕ → Values mlir → FoldResult Value → Values mlir → Values mlir → Lower mlir (Unit {0})
  write_rows output_count ivs row_size loop_results shared_outputs = do
    _ ← open_op mlir RegionOp.in_parallel
    rows ← lift (first_of_range output_count loop_results)
    shared ← lift (first_of_range output_count shared_outputs)
    targets ← zip_equal mlir rows shared
    for_each
        (λ (p : Value × Value). emit_unit mlir (
          Op.parallel_insert_slice p.0 p.1 (map (λ (v : Value). value v) ivs ++ attr 0 ∷ [])
            (replicate (length ivs) (attr 1) ++ row_size ∷ [])
            (replicate (length ivs) (attr 1) ++ attr 1 ∷ [])))
        targets
    _ ← close_op mlir
    pure tt

  -- A parallel round of `LowerSegScan`: one row, from its index in the dimensions before the last.
  unfoldable pub scan_rows :
      List (Dim Value)
      → Dim Value
      → ℕ
      → Value
      → Value
      → Value
      → Values mlir
      → List MlirType
      → Values mlir
      → Lower mlir (Unit {0})
      → List SubExp
      → List LParam
      → Lower mlir (Values mlir)
      → List LParam
      → Lower mlir (Values mlir)
      → ℕ
      → ℕ
      → ℕ
      → Values mlir
      → Lower mlir (Unit {0})
  unfolding scan_loop write_rows
  scan_rows before_last scan_dim row_dim zero upper one neutrals elem_rows row_sizes lower_stms
        results params lower_lambda post_params lower_post scan_count output_count map_rank
        region_args =
      do
        let ivs = take map_rank region_args
        pairs ← zip_equal mlir before_last ivs
        bind_dims pairs
        initial_rows ← map_action (λ t. emit_one mlir (Op.tensor_empty t row_sizes)) elem_rows
        loop_results ←
            scan_loop scan_dim zero upper one (neutrals ++ initial_rows) row_sizes lower_stms
              results params lower_lambda post_params lower_post scan_count output_count
        _ ← lift (or_err (get_elem? elem_rows 0) Error.undefined_behaviour)
        let row_size = if is_dynamic mlir row_dim then value upper else attr row_dim
        write_rows output_count ivs row_size (drop scan_count loop_results)
            (drop map_rank region_args)

  -- `LowerSegScan`, once its one operator and its post operator have been taken apart.
  unfoldable pub lower_seg_scan :
      SegSpace
      → List IrType
      → Lower mlir (Unit {0})
      → List SubExp
      → List LParam
      → Lower mlir (Values mlir)
      → List SubExp
      → List LParam
      → Lower mlir (Values mlir)
      → Lower mlir (Values mlir)
  unfolding scan_rows tie_all
  lower_seg_scan space ret lower_stms results params lower_lambda neutral post_params lower_post =
      do
        let scan_count = length neutral
        let output_count = length ret
        iter_space ← lower_seg_space mlir floats space
        (before_last, scan_dim) ← lift (split_last iter_space)
        neutrals ← lower_sub_exps mlir floats neutral
        shape ← lift (to_shape_types mlir (dim_sizes space))
        (_, row_dim) ← lift (split_last shape)
        elem_rows ← lift (row_types row_dim ret)
        return_types ← lift (
            map_result
              (λ (t : IrType).
                bind_result (lower_seg_op_base_type t) λ e. ok (ranked_tensor shape e))
              ret)
        sizes ← space_sizes mlir floats iter_space
        initial_outputs ← map_action (λ t. emit_one mlir (Op.tensor_empty t sizes)) return_types
        zero ← emit_one mlir (Op.constant_index 0)
        one ← emit_one mlir (Op.constant_index 1)
        upper ← at_type index scan_dim.value
        map_uppers ← map_action (λ (d : Dim Value). at_type index d.value) before_last
        let row_sizes = if scan_dim.is_dyn then upper ∷ [] else []
        region_args ← open_op mlir (RegionOp.scf_forall map_uppers initial_outputs)
        in_local mlir (
            scan_rows before_last scan_dim row_dim zero upper one neutrals elem_rows row_sizes
              lower_stms results params lower_lambda post_params lower_post scan_count output_count
              (length map_uppers) region_args)
        forall_results ← close_op mlir
        tie_all sizes forall_results
