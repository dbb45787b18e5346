-- ===== src/Compiler/Refinement/Bodies.antt =====
-- compiler.hpp `LowerBody`, `LowerStm`, `LowerExp` and `LowerBasicOp` on integer scalars and
-- conditionals, against the meaning of the statements.
use mlir_backend.Prelude.{
  codes, ◌≡◌, refl, Bool, true, false, not, List, none, some, ◌&&◌, if◌then◌else◌,
}
use mathlib.Core.Path.{subst}
use mlir_backend.Ir.Primitive.{FloatOps}
use mlir_backend.Ir.Syntax.{Exp, Stm, stm, Stms, no_stms, more_stms, Body, body, FunDef, Prog}
use mlir_backend.Compiler.Monad.{pure, map_action}
use mlir_backend.Compiler.Mlir.{Mlir}
use mlir_backend.Compiler.State.{State, Lower}
use mlir_backend.Compiler.Values.{lower_sub_exp}
use mlir_backend.Compiler.Tensors.{lower_basic_op}
use mlir_backend.Compiler.Lower.{
  find_function, Callee, elem_name, bind_pattern, lower_exp, lower_stm, lower_stms, lower_body,
}
use mlir_backend.Compiler.Refinement.Words.{Number, bit}
use mlir_backend.Compiler.Refinement.Source.{
  Meanings, number, eval_sub_exp, eval_basic_op, eval_exp, eval_truth, same_widths, eval_stm,
  eval_stms, eval_body,
}
use mlir_backend.Compiler.Refinement.Target.{Semantics}
use mlir_backend.Compiler.Refinement.Total.{Gives, Gives->>=, Gives-mono}
use mlir_backend.Compiler.Refinement.Simulation.{
  Simulates, Simulates-Later, Later-grown, Advances, Advances-refl, Advances-trans, Advances-after,
}
use mlir_backend.Parser.Values.{starts_with}
use mlir_backend.Compiler.Refinement.Primitives.{truth-Denotes, ComputesAll-lower_apply}
use mlir_backend.Compiler.Refinement.Branches.{AllAt-conditional}
use mlir_backend.Compiler.Refinement.Later.{some-same, Later-trans, Computes, AllAt}
use mlir_backend.Compiler.Refinement.Subexps.{
  then_try-eq-some, ComputesAll, Computes-lower_sub_exp, Computes-lower_basic_op,
  ComputesAll-listed, ComputesAll-lower_sub_exps,
}
use mlir_backend.Compiler.Refinement.Bindings.{Advances-bind_all}

if_same-eq-some :
    (b c : Bool) (xs ys : List Number) {zs : List Number}
    → (if c then some (if b then xs else ys) else none) ≡ some zs
    → (c ≡ true) × ((if b then xs else ys) ≡ zs)
if_same-eq-some b true xs ys h = (refl, some-same _ _ h)
if_same-eq-some b false xs ys h = cc

module _ (mlir : Mlir) (sem : Semantics mlir) (floats : FloatOps) where
  open mlir use {Value, Func}

  module _ (prog : Prog) (lower_function : FunDef → Lower mlir (Callee Func)) where
    mutual
      unfolding lower_exp eval_exp lower_stm eval_stm lower_stms eval_stms lower_body eval_body pure

      ComputesAll-lower_exp :
          (e : Exp) (run : Bool) (ρ : Meanings) (xs : List Number) (s : State mlir)
          → Simulates mlir sem run ρ s
          → eval_exp prog.funs run ρ e ≡ some xs
          → ComputesAll mlir sem floats run ρ (lower_exp mlir floats prog lower_function e) xs s
      ComputesAll-lower_exp (Exp.basic_op op) run ρ xs s sim h =
          let (x, ex, h₁) = then_try-eq-some (eval_basic_op run ρ op) _ h in
          ComputesAll-listed mlir sem floats run ρ (lower_basic_op mlir floats op) x s h₁
            (Computes-lower_basic_op mlir sem floats run ρ op x s sim ex)
      ComputesAll-lower_exp (Exp.exp_sub_exp e) run ρ xs s sim h =
          let (x, ex, h₁) = then_try-eq-some (eval_sub_exp ρ e) _ h in
          ComputesAll-listed mlir sem floats run ρ (lower_sub_exp mlir floats e) x s h₁
            (Computes-lower_sub_exp mlir sem floats run ρ e x s sim ex)
      ComputesAll-lower_exp (Exp.exp_if cond t e types sort) run ρ zs s sim h =
          let (x, ex, h₁) = then_try-eq-some (eval_sub_exp ρ cond) _ h in
          let (b, eb, h₂) = then_try-eq-some (eval_truth x) _ h₁ in
          let (xs, ext, h₃) = then_try-eq-some (eval_body prog.funs (run && b) ρ t) _ h₂ in
          let (ys, eye, h₄) = then_try-eq-some (eval_body prog.funs (run && not b) ρ e) _ h₃ in
          let (w, ez) = if_same-eq-some b (same_widths xs ys) xs ys h₄ in
          let holds : Computes mlir sem run ρ (lower_sub_exp mlir floats cond) (number 1 (bit b))
              s =
            Gives-mono (lower_sub_exp mlir floats cond s)
              (λ v s₁ (d, l). (truth-Denotes mlir sem floats run ρ x b eb d, l))
              (Computes-lower_sub_exp mlir sem floats run ρ cond x s sim ex) in
          subst
            (λ r.
              ComputesAll mlir sem floats run ρ
                (lower_exp mlir floats prog lower_function (Exp.exp_if cond t e types sort)) r s)
            ez
            (AllAt-conditional mlir sem run ρ _ (lower_body mlir floats prog lower_function t)
              (lower_body mlir floats prog lower_function e) b xs ys s sim holds
              (λ s' sim'. ComputesAll-lower_body t (run && b) ρ xs s' sim' ext)
              (λ s' sim'. ComputesAll-lower_body e (run && not b) ρ ys s' sim' eye) w)
      ComputesAll-lower_exp (Exp.apply fname args types _) run ρ xs s sim h =
          ComputesAll-lower_apply mlir sem floats run ρ prog lower_function fname _ _
            (starts_with (codes "cond_") fname) (find_function fname prog.funs) xs s sim refl h
      ComputesAll-lower_exp _ run ρ xs s sim h = cc

      Advances-lower_stm :
          (st : Stm) (run : Bool) (ρ ρ' : Meanings) (s : State mlir)
          → Simulates mlir sem run ρ s
          → eval_stm prog.funs run ρ st ≡ some ρ'
          → Gives
              (λ (u : Unit {0}) (s' : State mlir). Advances mlir sem run ρ ρ' s s')
              (lower_stm mlir floats prog lower_function st s)
      Advances-lower_stm (stm p e) run ρ ρ' s sim h =
          let (xs, ex, h₁) = then_try-eq-some (eval_exp prog.funs run ρ e) _ h in
          Gives->>= (AllAt mlir sem run ρ xs s)
            (λ (u : Unit {0}) (s' : State mlir). Advances mlir sem run ρ ρ' s s')
            (lower_exp mlir floats prog lower_function e) _ s
            (ComputesAll-lower_exp e run ρ xs s sim ex)
            λ vs s₁ (ds, l).
              Gives-mono (bind_pattern mlir floats prog lower_function p.elems vs s₁)
                (λ u s₂ a. Advances-after mlir sem run l a)
                (Advances-bind_all mlir sem elem_name run ρ ρ' p.elems vs xs s₁
                  (Simulates-Later mlir sem run sim l) ds h₁)

      pub Advances-lower_stms :
          (ss : Stms) (run : Bool) (ρ ρ' : Meanings) (s : State mlir)
          → Simulates mlir sem run ρ s
          → eval_stms prog.funs run ρ ss ≡ some ρ'
          → Gives
              (λ (u : Unit {0}) (s' : State mlir). Advances mlir sem run ρ ρ' s s')
              (lower_stms mlir floats prog lower_function ss s)
      Advances-lower_stms no_stms run ρ ρ' s sim h =
          subst (λ r. Advances mlir sem run ρ r s s) (some-same _ _ h)
            (Advances-refl mlir sem run sim)
      Advances-lower_stms (more_stms st ss) run ρ ρ' s sim h =
          let (ρ₁, h₁, h₂) = then_try-eq-some (eval_stm prog.funs run ρ st) _ h in
          Gives->>= (λ (u : Unit {0}) (s' : State mlir). Advances mlir sem run ρ ρ₁ s s')
            (λ (u : Unit {0}) (s' : State mlir). Advances mlir sem run ρ ρ' s s')
            (lower_stm mlir floats prog lower_function st) _ s
            (Advances-lower_stm st run ρ ρ₁ s sim h₁)
            λ u s₁ a.
              Gives-mono (lower_stms mlir floats prog lower_function ss s₁)
                (λ u s₂ a'. Advances-trans mlir sem run a a')
                (Advances-lower_stms ss run ρ₁ ρ' s₁ a.simulates h₂)

      pub ComputesAll-lower_body :
          (b : Body) (run : Bool) (ρ : Meanings) (xs : List Number) (s : State mlir)
          → Simulates mlir sem run ρ s
          → eval_body prog.funs run ρ b ≡ some xs
          → ComputesAll mlir sem floats run ρ (lower_body mlir floats prog lower_function b) xs s
      ComputesAll-lower_body (body ss es) run ρ xs s sim h =
          let (ρ₁, h₁, h₂) = then_try-eq-some (eval_stms prog.funs run ρ ss) _ h in
          Gives->>= (λ (u : Unit {0}) (s' : State mlir). Advances mlir sem run ρ ρ₁ s s')
            (AllAt mlir sem run ρ xs s) (lower_stms mlir floats prog lower_function ss) _ s
            (Advances-lower_stms ss run ρ ρ₁ s sim h₁)
            λ u s₁ a.
              Gives-mono (map_action (lower_sub_exp mlir floats) es s₁)
                (λ vs s₂ (ds, l).
                  (ds, Later-trans mlir sem run ρ a.later (Later-grown mlir sem run a.grows l)))
                (ComputesAll-lower_sub_exps mlir sem floats run ρ₁ es xs s₁ a.simulates h₂)
