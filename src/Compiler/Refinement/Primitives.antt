-- ===== src/Compiler/Refinement/Primitives.antt =====
-- compiler.hpp `ExpApply` on a name that the program does not define, and `LowerIntrinsic` on the names
-- that select one of two values.
use mlir_backend.Prelude.{
  ◌≡◌, Bool, true, false, List, [], ◌∷◌, Option, none, some, Text, codes, ◌==◌, if◌then◌else◌,
  arith,
}
use mlir_backend.Ir.Primitive.{FloatOps}
use mlir_backend.Ir.Core.{SubExp, IrType}
use mlir_backend.Ir.Syntax.{FunDef, Prog}
use mlir_backend.Parser.Values.{starts_with}
use mlir_backend.Compiler.Monad.{map_action}
use mlir_backend.Compiler.Mlir.{Mlir, Arith, Op}
use mlir_backend.Compiler.State.{State, Lower, Values, emit_one}
use mlir_backend.Compiler.Values.{lower_sub_exp}
use mlir_backend.Compiler.Scalars.{lower_intrinsic, apply_intrinsic}
use mlir_backend.Compiler.Lower.{Callee, lower_apply}
use mlir_backend.Compiler.Refinement.Words.{Number, bit}
use mlir_backend.Compiler.Refinement.Source.{
  Meanings, number, eval_results, eval_truth, eval_select, eval_primitive,
}
use mlir_backend.Compiler.Refinement.Target.{
  Denotes, AllDenote, none_denotes, more_denote, Semantics,
}
use mlir_backend.Compiler.Refinement.Total.{Gives->>=, Gives-mono}
use mlir_backend.Compiler.Refinement.Later.{Later-trans, AllAt, Computes, Computes-emit_one}
use mlir_backend.Compiler.Refinement.Simulation.{Simulates}
use mlir_backend.Compiler.Refinement.Subexps.{
  then_try-eq-some, ComputesAll, ComputesAll-listed, ComputesAll-lower_sub_exps,
}

-- A truth value is one bit.
pub eval_truth-eq-some :
    (x : Number) {b : Bool} → eval_truth x ≡ some b → (x.width ≡ 1) × (x.pattern ≡ bit b)
eval_truth-eq-some x {b} h = ground arith

same_width-eq-some :
    (x y : Number) (o : Option Number) {z : Number}
    → (if x.width == y.width then o else none) ≡ some z
    → (y.width ≡ x.width) × (o ≡ some z)
same_width-eq-some x y o h = ground arith

module _ (mlir : Mlir) (sem : Semantics mlir) (floats : FloatOps) (run : Bool) (ρ : Meanings) where
  open mlir use {Value, Func}

  -- A value that denotes a truth value holds one bit.
  pub truth-Denotes :
      (x : Number) (b : Bool) {m : mlir.Module} {v : Value}
      → eval_truth x ≡ some b
      → Denotes mlir sem.bits run m v x
      → Denotes mlir sem.bits run m v (number 1 (bit b))
  truth-Denotes x b h (t, d) =
      let (w, p) = eval_truth-eq-some x h in (rw w at t, λ r. rw p at (d r))

  Computes-select :
      (a b c : Value) (x y z : Number) (s : State mlir) {r : Number}
      → Denotes mlir sem.bits run s.ir a x
      → Denotes mlir sem.bits run s.ir b y
      → Denotes mlir sem.bits run s.ir c z
      → eval_select (x ∷ y ∷ z ∷ []) ≡ some r
      → Computes mlir sem run ρ (emit_one mlir (Op.arith Arith.select (a ∷ b ∷ c ∷ []))) r s
  Computes-select a b c x y z s {r} da db (tc, dc) h =
      let (t, et, h₁) = then_try-eq-some (eval_truth x) _ h in
      let p = if t then y.pattern else z.pattern in
      let (w, h₂) = same_width-eq-some y z (some (number y.width p)) h₁ in
      Computes-emit_one mlir sem run ρ (Op.arith Arith.select (a ∷ b ∷ c ∷ [])) y.width p r s tt
        (cc) (λ _. cc)
        (sem.select_op run t y.width y.pattern z.pattern a b c s.ir (truth-Denotes x t et da) db
          (rw w at tc, dc))

  ComputesAll-lower_intrinsic :
      (fname : Text) (vs : Values mlir) (xs : List Number) (z : Number) {zs : List Number}
      (s : State mlir)
      → starts_with (codes "cond_") fname ≡ true
      → AllDenote mlir sem.bits run s.ir vs xs
      → eval_select xs ≡ some z
      → some (z ∷ []) ≡ some zs
      → ComputesAll mlir sem floats run ρ (lower_intrinsic mlir fname vs) zs s
  unfolding lower_intrinsic apply_intrinsic
  ComputesAll-lower_intrinsic fname _ _ z s e
        (more_denote {v = a} {x = x} da
          (more_denote {v = b} {x = y} db (more_denote {v = c} {x = w} dc none_denotes)))
        h h' =
      rw e (
        ComputesAll-listed mlir sem floats run ρ
          (emit_one mlir (Op.arith Arith.select (a ∷ b ∷ c ∷ []))) z s h'
          (Computes-select a b c x y w s da db dc h))
  ComputesAll-lower_intrinsic fname _ _ z s e _ h h' = cc

  pub ComputesAll-lower_apply :
      (prog : Prog) (lower_function : FunDef → Lower mlir (Callee Func)) (fname : Text)
      (args : List SubExp) (types : List IrType) (is_cond : Bool) (fun : Option FunDef)
      (zs : List Number) (s : State mlir)
      → Simulates mlir sem run ρ s
      → starts_with (codes "cond_") fname ≡ is_cond
      → eval_primitive is_cond fun ρ args ≡ some zs
      → ComputesAll mlir sem floats run ρ
          (lower_apply mlir floats prog lower_function fname args types fun)
          zs
          s
  unfolding lower_apply
  ComputesAll-lower_apply prog lower_function fname args types true none zs s sim e h =
      let (xs, ex, h₁) = then_try-eq-some (eval_results ρ args) _ h in
      let (z, ez, h₂) = then_try-eq-some (eval_select xs) _ h₁ in
      Gives->>= (AllAt mlir sem run ρ xs s) (AllAt mlir sem run ρ zs s)
        (map_action (lower_sub_exp mlir floats) args) (lower_intrinsic mlir fname) s
        (ComputesAll-lower_sub_exps mlir sem floats run ρ args xs s sim ex)
        λ vs s₁ (ds, l).
          Gives-mono (lower_intrinsic mlir fname vs s₁)
            (λ ws s₂ (ds', l'). (ds', Later-trans mlir sem run ρ l l'))
            (ComputesAll-lower_intrinsic fname vs xs z s₁ e ds ez h₂)
  ComputesAll-lower_apply prog lower_function fname args types true (some f) zs s sim e h = cc
  ComputesAll-lower_apply prog lower_function fname args types false fun zs s sim e h = cc
