-- ===== src/Compiler/Keeps/Blackboxes.antt =====
-- The rules for black boxes.
use mlir_backend.Prelude.{ℕ, List, ◌∷◌}
use mlir_backend.Ir.Primitive.{FloatOps}
use mlir_backend.Compiler.Mlir.{Mlir, MlirType}
use mlir_backend.Compiler.State.{Values}
use mlir_backend.Compiler.Blackboxes.{
  BlackBox, mat_mul, dot_general, ragged_dot, arg_sort, scatter, lower_mat_mul, dot_dimensions,
  lower_dot_general, lower_ragged_dot, lower_arg_sort, lower_scatter, lower_black_box,
}
use mlir_backend.Compiler.Nesting.{Region, Frame, running}
use mlir_backend.Compiler.Keeps.Rules.{Invariant, Keeps}
use mlir_backend.Compiler.Keeps.Basic.{value_rules}
use mlir_backend.Compiler.Keeps.Operations.{Keeps-create_iota}

module _ (mlir : Mlir) (floats : FloatOps) (I : Invariant mlir) {r : Region} {σ : List Frame} where
  open mlir use {Value, Func}

  Keeps-lower_mat_mul :
      (vs : Values mlir) (ts : List MlirType)
      → Keeps mlir I (running r ∷ σ) (lower_mat_mul mlir floats vs ts)
  unfolding lower_mat_mul
  Keeps-lower_mat_mul vs ts = search value_rules depth 40

  Keeps-dot_dimensions :
      (vs : Values mlir) (i : ℕ) → Keeps mlir I (running r ∷ σ) (dot_dimensions mlir floats vs i)
  unfolding dot_dimensions
  Keeps-dot_dimensions vs i = search value_rules depth 40

  Keeps-lower_dot_general :
      (vs : Values mlir) (ts : List MlirType)
      → Keeps mlir I (running r ∷ σ) (lower_dot_general mlir floats vs ts)
  unfolding lower_dot_general
  Keeps-lower_dot_general vs ts = search (value_rules, Keeps-dot_dimensions) depth 40

  Keeps-lower_ragged_dot :
      (vs : Values mlir) (ts : List MlirType)
      → Keeps mlir I (running r ∷ σ) (lower_ragged_dot mlir floats vs ts)
  unfolding lower_ragged_dot
  Keeps-lower_ragged_dot vs ts = search (value_rules, Keeps-dot_dimensions) depth 40

  Keeps-lower_arg_sort :
      (vs : Values mlir) (ts : List MlirType)
      → Keeps mlir I (running r ∷ σ) (lower_arg_sort mlir floats vs ts)
  unfolding lower_arg_sort
  Keeps-lower_arg_sort vs ts = search (value_rules, Keeps-create_iota) depth 40

  Keeps-lower_scatter :
      (vs : Values mlir) (ts : List MlirType)
      → Keeps mlir I (running r ∷ σ) (lower_scatter mlir floats vs ts)
  unfolding lower_scatter
  Keeps-lower_scatter vs ts = search value_rules depth 40

  pub Keeps-lower_black_box :
      (b : BlackBox) (vs : Values mlir) (ts : List MlirType)
      → Keeps mlir I (running r ∷ σ) (lower_black_box mlir floats b vs ts)
  unfolding lower_black_box
  Keeps-lower_black_box mat_mul vs ts = Keeps-lower_mat_mul vs ts
  Keeps-lower_black_box dot_general vs ts = Keeps-lower_dot_general vs ts
  Keeps-lower_black_box ragged_dot vs ts = Keeps-lower_ragged_dot vs ts
  Keeps-lower_black_box arg_sort vs ts = Keeps-lower_arg_sort vs ts
  Keeps-lower_black_box scatter vs ts = Keeps-lower_scatter vs ts
