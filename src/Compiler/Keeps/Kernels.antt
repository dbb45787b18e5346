-- ===== src/Compiler/Keeps/Kernels.antt =====
-- The rules for kernels. What is lowered inside them is an argument, and so is the proof that it
-- keeps the invariant.
use mlir_backend.Prelude.{ℕ, suc, List, [], ◌∷◌, Text}
use mlir_backend.Ir.Primitive.{FloatOps}
use mlir_backend.Ir.Core.{VName, SubExp, IrType}
use mlir_backend.Ir.Syntax.{LParam, SegLevel, SegSpace, Stms}
use mlir_backend.Compiler.Mlir.{Mlir}
use mlir_backend.Compiler.State.{Lower, Values}
use mlir_backend.Compiler.Kernels.{
  Dim, AffineRead, IterationSpace, lower_dims, lower_seg_space, space_sizes, bind_gtid, bind_lambda,
  lower_kernel_body, lower_seg_map, lower_seg_red, lower_seg_hist,
}
use mlir_backend.Compiler.Nesting.{Region, Frame, running}
use mlir_backend.Compiler.Keeps.Rules.{Invariant, KeepsAll, Keeps, Keeps-pure}
use mlir_backend.Compiler.Keeps.Basic.{Keeps-size_if, value_rules}

module _ (mlir : Mlir) (floats : FloatOps) (I : Invariant mlir) {r : Region} {σ : List Frame} where
  open mlir use {Value, Func}

  Keeps-lower_dims :
      (i : ℕ) (ds : List (Text × SubExp))
      → Keeps mlir I (running r ∷ σ) (lower_dims mlir floats i ds)
  unfolding lower_dims
  Keeps-lower_dims i [] = Keeps-pure []
  Keeps-lower_dims i ((id, d) ∷ ds) =
      let ih = Keeps-lower_dims (suc i) ds in search value_rules depth 20

  pub Keeps-lower_seg_space :
      (sp : SegSpace) → Keeps mlir I (running r ∷ σ) (lower_seg_space mlir floats sp)
  unfolding lower_seg_space
  Keeps-lower_seg_space sp = Keeps-lower_dims 0 sp.dims

  pub Keeps-space_sizes :
      (ds : IterationSpace mlir floats) → Keeps mlir I (running r ∷ σ) (space_sizes mlir floats ds)
  unfolding space_sizes
  Keeps-space_sizes [] = Keeps-pure []
  Keeps-space_sizes (d ∷ ds) =
      Keeps-size_if mlir I _ (search value_rules depth 12) (Keeps-space_sizes ds)

  Keeps-bind_gtid : (d : Dim Value) → Keeps mlir I (running r ∷ σ) (bind_gtid mlir floats d)
  unfolding bind_gtid
  Keeps-bind_gtid d = search value_rules depth 12

  pub Keeps-bind_lambda :
      (ps : List LParam) (as' rs : Values mlir)
      → Keeps mlir I (running r ∷ σ) (bind_lambda mlir floats ps as' rs)
  unfolding bind_lambda
  Keeps-bind_lambda ps as' rs = search value_rules depth 20

  module _ (lower_rest : List Text → Lower mlir (Unit {0}))
      (rest_kept : (skip : List Text) → KeepsAll mlir I (lower_rest skip)) where
    Keeps-lower_kernel_body :
        (args : Values mlir) (reads : List AffineRead) (space : IterationSpace mlir floats)
        (rs : List SubExp)
        → Keeps mlir I
            (running r ∷ σ)
            (lower_kernel_body mlir floats args reads space lower_rest rs)
    unfolding lower_kernel_body
    Keeps-lower_kernel_body args reads space rs =
        search (value_rules, Keeps-bind_gtid, rest_kept) depth 30

module _ (mlir : Mlir) (floats : FloatOps) (I : Invariant mlir) {r : Region} {σ : List Frame} where
  open mlir use {Value, Func}

  module _ (lower_rest : List Text → Lower mlir (Unit {0}))
      (rest_kept : (skip : List Text) → KeepsAll mlir I (lower_rest skip)) where
    pub Keeps-lower_seg_map :
        (lvl : SegLevel) (sp : SegSpace) (ret : List IrType) (ss : Stms) (rs : List SubExp)
        → Keeps mlir I (running r ∷ σ) (lower_seg_map mlir floats lvl sp ret ss lower_rest rs)
    unfolding lower_seg_map
    Keeps-lower_seg_map lvl sp ret ss rs =
        search (value_rules, Keeps-lower_seg_space, Keeps-space_sizes, Keeps-lower_kernel_body)
          depth 40

    pub Keeps-lower_seg_red :
        (sp : SegSpace) (ss : Stms) (rs : List SubExp) (ps : List LParam) (ret : List IrType)
        (lower_lambda : Lower mlir (Values mlir)) (ne : List SubExp)
        → KeepsAll mlir I lower_lambda
        → Keeps mlir I
            (running r ∷ σ)
            (lower_seg_red mlir floats sp ss lower_rest rs ps ret lower_lambda ne)
    unfolding lower_seg_red
    Keeps-lower_seg_red sp ss rs ps ret lower_lambda ne kept =
        search
          (
            value_rules, Keeps-lower_seg_space, Keeps-space_sizes, Keeps-lower_kernel_body,
            Keeps-bind_lambda,
          )
          depth 40

  pub Keeps-lower_seg_hist :
      (vs : Values mlir) (dest : List VName) (ps : List LParam)
      (lower_lambda : Lower mlir (Values mlir))
      → KeepsAll mlir I lower_lambda
      → Keeps mlir I (running r ∷ σ) (lower_seg_hist mlir floats vs dest ps lower_lambda)
  unfolding lower_seg_hist
  Keeps-lower_seg_hist vs dest ps lower_lambda kept = search value_rules depth 40
