-- ===== src/Compiler/Refinement/Correct.antt =====
-- compiler.hpp `LowerBody` on integer scalars and conditionals.
use mlir_backend.Prelude.{◌≡◌, refl, true, false, List, [], ◌∷◌, some}
use mlir_backend.Ir.Primitive.{FloatOps}
use mlir_backend.Ir.Syntax.{Body, FunDef, Prog}
use mlir_backend.Compiler.Monad.{done}
use mlir_backend.Compiler.Mlir.{Mlir, integer}
use mlir_backend.Compiler.State.{State, Lower, Values}
use mlir_backend.Compiler.Lower.{Callee, lower_body}
use mlir_backend.Compiler.Refinement.Words.{Number}
use mlir_backend.Compiler.Refinement.Source.{Meanings, eval_body}
use mlir_backend.Compiler.Refinement.Target.{AllDenote, none_denotes, more_denote, Stays, Semantics}
use mlir_backend.Compiler.Refinement.Total.{Gives-eq-done}
use mlir_backend.Compiler.Refinement.Simulation.{Simulates}
use mlir_backend.Compiler.Refinement.Bodies.{ComputesAll-lower_body}

module _ (mlir : Mlir) (sem : Semantics mlir) (floats : FloatOps) (prog : Prog)
    (lower_call : FunDef → Lower mlir (Callee mlir.Func)) where
  open mlir use {Value, Func, Module}

  -- The values are integers of the numbers' widths, one for one.
  abbrev pub HaveWidths : Values mlir → List Number → Type 0
  HaveWidths [] [] = Unit
  HaveWidths (v ∷ vs) (x ∷ xs) = (mlir.type_of v ≡ integer x.width) × HaveWidths vs xs
  HaveWidths _ _ = ⊥

  AllDenote-HaveWidths :
      {m : Module} {vs : Values mlir} {xs : List Number}
      → AllDenote mlir sem.bits false m vs xs
      → HaveWidths vs xs
  AllDenote-HaveWidths none_denotes = tt
  AllDenote-HaveWidths (more_denote (t, d) ds) = (t, AllDenote-HaveWidths ds)

  -- Where every name that has a meaning is bound to a value that denotes it, a body of integer
  -- scalars and conditionals that has a meaning is lowered: nothing is thrown, the values that are
  -- returned denote the numbers that the body means, and no value has lost its bits.
  pub lower_body-AllDenote :
      (ρ : Meanings) (b : Body) (xs : List Number) (s : State mlir)
      → Simulates mlir sem true ρ s
      → eval_body prog.funs true ρ b ≡ some xs
      → (vs : Values mlir) × (s' : State mlir) × (lower_body mlir floats prog lower_call b s
          ≡ done (vs, s'))
        × AllDenote mlir sem.bits true s'.ir vs xs
        × Stays mlir sem.bits s.ir s'.ir
  lower_body-AllDenote ρ b xs s sim h =
      let (vs, s', e, (ds, l)) =
        Gives-eq-done (lower_body mlir floats prog lower_call b s)
          (ComputesAll-lower_body mlir sem floats prog lower_call b true ρ xs s sim h) in
      (vs, s', e, ds, l.stays refl)

  -- Where names are bound to values of their widths, a body of integer scalars and conditionals
  -- whose types fit is lowered, whatever it computes, a division by zero included: nothing is
  -- thrown, and the values that are returned are integers of the body's widths, one for one.
  pub lower_body-HaveWidths :
      (ρ : Meanings) (b : Body) (xs : List Number) (s : State mlir)
      → Simulates mlir sem false ρ s
      → eval_body prog.funs false ρ b ≡ some xs
      → (vs : Values mlir) × (s' : State mlir) × (lower_body mlir floats prog lower_call b s
          ≡ done (vs, s'))
        × HaveWidths vs xs
  lower_body-HaveWidths ρ b xs s sim h =
      let (vs, s', e, (ds, l)) =
        Gives-eq-done (lower_body mlir floats prog lower_call b s)
          (ComputesAll-lower_body mlir sem floats prog lower_call b false ρ xs s sim h) in
      (vs, s', e, AllDenote-HaveWidths ds)
