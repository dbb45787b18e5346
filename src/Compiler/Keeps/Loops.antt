-- ===== src/Compiler/Keeps/Loops.antt =====
-- The rules for scans and loops. What is lowered inside them is an argument, and so is the proof that
-- it keeps the invariant.
use mlir_backend.Prelude.{ℕ, List, [], ◌∷◌}
use mlir_backend.Ir.Primitive.{FloatOps, IntType}
use mlir_backend.Ir.Core.{VName, SubExp, IrType}
use mlir_backend.Ir.Syntax.{LParam, FParam, SegSpace, LoopForm, for_loop, while_loop}
use mlir_backend.Compiler.Mlir.{FoldResult, Mlir, MlirType}
use mlir_backend.Compiler.State.{Lower, Values}
use mlir_backend.Compiler.Kernels.{Dim}
use mlir_backend.Compiler.Scans.{
  tie_all, scan_round, scan_loop, write_rows, scan_rows, lower_seg_scan,
}
use mlir_backend.Compiler.Loops.{loop_round, lower_merge, cast_all, lower_loop}
use mlir_backend.Compiler.Nesting.{Region, Frame, running, ended, for_body, forall_body}
use mlir_backend.Compiler.Keeps.Rules.{
  Moves, Invariant, KeepsAll, Keeps, Keeps->>=, Moves-Keeps, Keeps-pure, Keeps-throw,
}
use mlir_backend.Compiler.Keeps.Basic.{Keeps-open, Moves-local->>=, Moves-close->>=, value_rules}
use mlir_backend.Compiler.Keeps.Kernels.{
  Keeps-lower_seg_space, Keeps-space_sizes, Keeps-bind_lambda,
}

module _ (mlir : Mlir) (floats : FloatOps) (I : Invariant mlir) {r : Region} {σ : List Frame} where
  open mlir use {Value, Func}

  Keeps-tie_all :
      (sizes vs : Values mlir) → Keeps mlir I (running r ∷ σ) (tie_all mlir floats sizes vs)
  unfolding tie_all
  Keeps-tie_all [] vs = Keeps-pure vs
  Keeps-tie_all (s ∷ sizes) vs = search value_rules depth 12

  Keeps-scan_round :
      (d : Dim Value) (i : Value) (accs rows sizes : Values mlir)
      (lower_stms : Lower mlir (Unit {0})) (rs : List SubExp) (ps : List LParam)
      (lower_lambda : Lower mlir (Values mlir)) (qs : List LParam)
      (lower_post : Lower mlir (Values mlir)) (n m : ℕ)
      → KeepsAll mlir I lower_stms
      → KeepsAll mlir I lower_lambda
      → KeepsAll mlir I lower_post
      → Keeps mlir I (running r ∷ σ) (
          scan_round mlir floats d i accs rows sizes lower_stms rs ps lower_lambda qs lower_post n
            m)
  unfolding scan_round
  Keeps-scan_round d i accs rows sizes lower_stms rs ps lower_lambda qs lower_post n m k₁ k₂ k₃ =
      search (value_rules, Keeps-tie_all, Keeps-bind_lambda) depth 40

  Keeps-lower_merge :
      (ms : List (FParam × SubExp)) → Keeps mlir I (running r ∷ σ) (lower_merge mlir floats ms)
  unfolding lower_merge
  Keeps-lower_merge ms = search value_rules depth 12

  Keeps-cast_all :
      (ps : List (Value × MlirType)) → Keeps mlir I (running r ∷ σ) (cast_all mlir floats ps)
  unfolding cast_all
  Keeps-cast_all ps = search value_rules depth 12

module _ (mlir : Mlir) (floats : FloatOps) (I : Invariant mlir) {r : Region} {σ : List Frame} where
  open mlir use {Value, Func}

  Keeps-scan_loop :
      (d : Dim Value) (zero upper one : Value) (inits sizes : Values mlir)
      (lower_stms : Lower mlir (Unit {0})) (rs : List SubExp) (ps : List LParam)
      (lower_lambda : Lower mlir (Values mlir)) (qs : List LParam)
      (lower_post : Lower mlir (Values mlir)) (n m : ℕ)
      → KeepsAll mlir I lower_stms
      → KeepsAll mlir I lower_lambda
      → KeepsAll mlir I lower_post
      → Keeps mlir I (running r ∷ σ) (
          scan_loop mlir floats d zero upper one inits sizes lower_stms rs ps lower_lambda qs
            lower_post n m)
  unfolding scan_loop
  Keeps-scan_loop d zero upper one inits sizes lower_stms rs ps lower_lambda qs lower_post n m k₁ k₂
        k₃ =
      search (value_rules, Keeps-scan_round) depth 20

module _ (mlir : Mlir) (floats : FloatOps) (I : Invariant mlir) {σ : List Frame} where
  open mlir use {Value}

  Moves-write_rows :
      (n : ℕ) (ivs : Values mlir) (size : FoldResult Value) (rows shared : Values mlir)
      → Moves mlir I
          (running forall_body ∷ σ)
          (ended forall_body ∷ σ)
          (write_rows mlir floats n ivs size rows shared)
  unfolding write_rows
  Moves-write_rows n ivs size rows shared = search value_rules depth 20

  Moves-loop_round :
      (ms : List (FParam × SubExp)) (i : VName) (t : IntType) (types : List MlirType) (iv : Value)
      (args : Values mlir) (lower_body : Lower mlir (Values mlir))
      → KeepsAll mlir I lower_body
      → Moves mlir I
          (running for_body ∷ σ)
          (ended for_body ∷ σ)
          (loop_round mlir floats ms i t types iv args lower_body)
  unfolding loop_round
  Moves-loop_round ms i t types iv args lower_body kept =
      search (value_rules, Keeps-cast_all) depth 20

  Moves-scan_rows :
      (before : List (Dim Value)) (d : Dim Value) (n : ℕ) (zero upper one : Value)
      (neutrals : Values mlir) (rows : List MlirType) (sizes : Values mlir)
      (lower_stms : Lower mlir (Unit {0})) (rs : List SubExp) (ps : List LParam)
      (lower_lambda : Lower mlir (Values mlir)) (qs : List LParam)
      (lower_post : Lower mlir (Values mlir)) (i j k : ℕ) (args : Values mlir)
      → KeepsAll mlir I lower_stms
      → KeepsAll mlir I lower_lambda
      → KeepsAll mlir I lower_post
      → Moves mlir I (running forall_body ∷ σ) (ended forall_body ∷ σ) (
          scan_rows mlir floats before d n zero upper one neutrals rows sizes lower_stms rs ps
            lower_lambda qs lower_post i j k args)
  unfolding scan_rows
  Moves-scan_rows before d n zero upper one neutrals rows sizes lower_stms rs ps lower_lambda qs
        lower_post i j k args k₁ k₂ k₃ =
      search (value_rules, Keeps-scan_loop, Moves-write_rows) depth 20

module _ (mlir : Mlir) (floats : FloatOps) (I : Invariant mlir) {r : Region} {σ : List Frame} where
  open mlir use {Value, Func}

  pub Keeps-lower_seg_scan :
      (sp : SegSpace) (ret : List IrType) (lower_stms : Lower mlir (Unit {0})) (rs : List SubExp)
      (ps : List LParam) (lower_lambda : Lower mlir (Values mlir)) (ne : List SubExp)
      (qs : List LParam) (lower_post : Lower mlir (Values mlir))
      → KeepsAll mlir I lower_stms
      → KeepsAll mlir I lower_lambda
      → KeepsAll mlir I lower_post
      → Keeps mlir I
          (running r ∷ σ)
          (lower_seg_scan mlir floats sp ret lower_stms rs ps lower_lambda ne qs lower_post)
  unfolding lower_seg_scan
  Keeps-lower_seg_scan sp ret lower_stms rs ps lower_lambda ne qs lower_post k₁ k₂ k₃ =
      Keeps->>= (Keeps-lower_seg_space mlir floats I sp) λ space.
        Keeps->>= (search value_rules depth 5) λ split.
          Keeps->>= (search value_rules depth 12) λ neutrals.
            Keeps->>= (search value_rules depth 5) λ shape.
              Keeps->>= (search value_rules depth 5) λ row.
                Keeps->>= (search value_rules depth 5) λ rows.
                  Keeps->>= (search value_rules depth 5) λ types.
                    Keeps->>= (Keeps-space_sizes mlir floats I space) λ sizes.
                      Keeps->>= (search value_rules depth 12) λ outputs.
                        Keeps->>= (search value_rules depth 12) λ zero.
                          Keeps->>= (search value_rules depth 12) λ one.
                            Keeps->>= (search value_rules depth 12) λ upper.
                              Keeps->>= (search value_rules depth 12) λ uppers.
                                Keeps-open mlir I _ tt λ args.
                                  Moves-local->>= mlir I
                                    (Moves-scan_rows mlir floats I _ (split.1) _ _ _ _ _ _ _
                                      lower_stms rs ps lower_lambda qs lower_post _ _ _ _ k₁ k₂ k₃)
                                    λ u.
                                      Moves-close->>= mlir I tt
                                        λ vs. Moves-Keeps (Keeps-tie_all mlir floats I sizes vs)

  pub Keeps-lower_loop :
      (ms : List (FParam × SubExp)) (form : LoopForm) (lower_body : Lower mlir (Values mlir))
      → KeepsAll mlir I lower_body
      → Keeps mlir I (running r ∷ σ) (lower_loop mlir floats ms form lower_body)
  unfolding lower_loop
  Keeps-lower_loop ms (while_loop c) lower_body kept = Keeps-throw _
  Keeps-lower_loop ms (for_loop i t b) lower_body kept =
      search (value_rules, Keeps-lower_merge, Moves-loop_round) depth 30
