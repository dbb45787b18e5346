-- ===== src/Compiler/Loops.antt =====
-- compiler.hpp: `LowerLoop`. The body is an argument.
use mlir_backend.Prelude.{List, drop, get_elem?, map, Error, or_err}
use mlir_backend.Ir.Primitive.{FloatOps, IntType, int_type_width}
use mlir_backend.Ir.Core.{VName, SubExp}
use mlir_backend.Ir.Syntax.{FParam, LoopForm, for_loop, while_loop}
use mlir_backend.Compiler.Monad.{pure, throw, lift, ◌>>=◌, ◌>>◌, map_action, for_each}
use mlir_backend.Compiler.Mlir.{Mlir, MlirType, integer, Cast, Op, RegionOp}
use mlir_backend.Compiler.State.{
  Lower, Values, emit_one, emit_unit, open_op, close_op, zip_equal, bind, in_local,
}
use mlir_backend.Compiler.Types.{lower_ty}
use mlir_backend.Compiler.Values.{lower_sub_exp, to_index, cast_to_type}

module _ (mlir : Mlir) (floats : FloatOps) where
  open mlir use {Value, type_of}

  -- The merge parameters' types, and their initial values cast to them.
  unfoldable pub lower_merge : List (FParam × SubExp) → Lower mlir (List (MlirType × Value))
  lower_merge = map_action λ p. do
    t ← lift (lower_ty mlir p.0.dec)
    v ← lower_sub_exp mlir floats p.1
    i ← cast_to_type mlir floats v t
    pure (t, i)

  unfoldable pub cast_all : List (Value × MlirType) → Lower mlir (Values mlir)
  cast_all = map_action λ p. cast_to_type mlir floats p.0 p.1

  -- The body of the loop that `LowerLoop` makes, in a context of its own.
  unfoldable pub loop_round :
      List (FParam × SubExp)
      → VName
      → IntType
      → List MlirType
      → Value
      → Values mlir
      → Lower mlir (Values mlir)
      → Lower mlir (Unit {0})
  unfolding cast_all
  loop_round merge i t types iv args lower_body = do
    counter ← emit_one mlir (Op.cast Cast.index_cast (integer (int_type_width t)) iv)
    bind mlir i.name counter
    pairs ← zip_equal mlir merge args
    for_each (λ (p : (FParam × SubExp) × Value). bind mlir p.0.0.name p.1) pairs
    vs ← lower_body
    typed ← zip_equal mlir vs types
    rs ← cast_all typed
    emit_unit mlir (Op.scf_yield rs)

  -- `LowerLoop`
  unfoldable pub lower_loop :
      List (FParam × SubExp) → LoopForm → Lower mlir (Values mlir) → Lower mlir (Values mlir)
  unfolding lower_merge loop_round
  lower_loop merge (while_loop c) lower_body = throw Error.undefined
  lower_loop merge (for_loop i t bound) lower_body = do
    merged ← lower_merge merge
    lb ← emit_one mlir (Op.constant_index 0)
    bound' ← lower_sub_exp mlir floats bound
    ub ← to_index mlir floats bound'
    step ← emit_one mlir (Op.constant_index 1)
    loop_args ←
        open_op mlir (RegionOp.scf_for lb ub step (map (λ (p : MlirType × Value). p.1) merged))
    iv ← lift (or_err (get_elem? loop_args 0) Error.undefined_behaviour)
    in_local mlir (
        loop_round merge i t (map (λ (p : MlirType × Value). p.0) merged) iv (drop 1 loop_args)
          lower_body)
    close_op mlir
