-- ===== src/Compiler/Refinement/Subexps.antt =====
-- compiler.hpp `LowerSubExp` and `LowerBasicOp` on integer scalars, against their meaning.
use mlir_backend.Prelude.{◌≡◌, refl, Bool, List, [], ◌∷◌, Option, none, some}
use mathlib.Core.Path.{subst}
use mlir_backend.Ir.Primitive.{FloatOps}
use mlir_backend.Ir.Core.{SubExp, constant, var}
use mlir_backend.Ir.Syntax.{BasicOp}
use mlir_backend.Compiler.Monad.{lift, ◌>>=◌, pure, map_action}
use mlir_backend.Compiler.Mlir.{Mlir}
use mlir_backend.Compiler.State.{State, Lower, Values, lookup}
use mlir_backend.Compiler.Values.{lower_sub_exp}
use mlir_backend.Compiler.Scalars.{lower_bin_op, lower_cmp_op, lower_conv_op}
use mlir_backend.Compiler.Tensors.{lower_basic_op}
use mlir_backend.Compiler.Refinement.Words.{Number}
use mlir_backend.Compiler.Refinement.Source.{
  Meanings, ◌then_try◌, eval_sub_exp, eval_basic_op, eval_results, eval_bin_op, eval_cmp_op,
  eval_conv_op,
}
use mlir_backend.Compiler.Refinement.Target.{
  Denotes, AllDenote, none_denotes, more_denote, Semantics,
}
use mlir_backend.Compiler.Refinement.Total.{Gives, Gives->>=}
use mlir_backend.Compiler.Refinement.Simulation.{Simulates, Simulates-Later}
use mlir_backend.Compiler.Refinement.Later.{
  some-same, Later-refl, Later-trans, Denotes-Later, Computes, OneAt, AllAt, Computes->>=,
}
use mlir_backend.Compiler.Refinement.Operators.{
  Computes-lower_prim_value, Computes-lower_bin_op, Computes-lower_cmp_op, Computes-lower_conv_op,
}

pub then_try-eq-some :
    {A B : Type 0} (o : Option A) (f : A → Option B) {b : B}
    → (o then_try f) ≡ some b
    → (a : A) × (o ≡ some a) × (f a ≡ some b)
then_try-eq-some none f h = cc
then_try-eq-some (some a) f h = (a, refl, h)

module _ (mlir : Mlir) (sem : Semantics mlir) (floats : FloatOps) where
  open mlir use {Value, Func}

  module _ (run : Bool) (ρ : Meanings) where
    pub Computes-lower_sub_exp :
        (e : SubExp) (x : Number) (s : State mlir)
        → Simulates mlir sem run ρ s
        → eval_sub_exp ρ e ≡ some x
        → Computes mlir sem run ρ (lower_sub_exp mlir floats e) x s
    unfolding lower_sub_exp lookup lift
    Computes-lower_sub_exp (constant c) x s sim h =
        Computes-lower_prim_value mlir sem run ρ floats c x s h
    Computes-lower_sub_exp (var v) x s sim h =
        let (u, k, d) = sim.finds v.name x h in rw k (d, Later-refl mlir sem run ρ s)

    Computes-operands :
        (e f : SubExp) (k : Value → Value → Lower mlir Value) (g : Number → Number → Option Number)
        (z : Number) (s : State mlir)
        → Simulates mlir sem run ρ s
        → ((a b : Value) (x y : Number) (s : State mlir)
            → Denotes mlir sem.bits run s.ir a x
            → Denotes mlir sem.bits run s.ir b y
            → g x y ≡ some z
            → Computes mlir sem run ρ (k a b) z s)
        → (eval_sub_exp ρ e then_try λ x. eval_sub_exp ρ f then_try λ y. g x y) ≡ some z
        → Computes mlir sem run ρ
            (lower_sub_exp mlir floats e >>= λ a. lower_sub_exp mlir floats f >>= λ b. k a b)
            z
            s
    Computes-operands e f k g z s sim law h =
        let (x, ex, h₁) = then_try-eq-some (eval_sub_exp ρ e) _ h in
        let (y, ey, h₂) = then_try-eq-some (eval_sub_exp ρ f) (g x) h₁ in
        Computes->>= mlir sem run ρ (lower_sub_exp mlir floats e) _ x z s
          (Computes-lower_sub_exp e x s sim ex)
          λ a s₁ ha l₁.
            Computes->>= mlir sem run ρ (lower_sub_exp mlir floats f) (k a) y z s₁
              (Computes-lower_sub_exp f y s₁ (Simulates-Later mlir sem run sim l₁) ey)
              λ b s₂ hb l₂. law a b x y s₂ (Denotes-Later mlir sem run ρ l₂ ha) hb h₂

    pub Computes-lower_basic_op :
        (op : BasicOp) (x : Number) (s : State mlir)
        → Simulates mlir sem run ρ s
        → eval_basic_op run ρ op ≡ some x
        → Computes mlir sem run ρ (lower_basic_op mlir floats op) x s
    unfolding lower_basic_op
    Computes-lower_basic_op (BasicOp.sub_exp e) x s sim h = Computes-lower_sub_exp e x s sim h
    Computes-lower_basic_op (BasicOp.bin_op op e f) x s sim h =
        Computes-operands e f (lower_bin_op mlir op) (eval_bin_op run op) x s sim
          (λ a b y z s' ha hb. Computes-lower_bin_op mlir sem run ρ a b y z x s' ha hb op) h
    Computes-lower_basic_op (BasicOp.cmp_op op e f) x s sim h =
        Computes-operands e f (lower_cmp_op mlir op) (eval_cmp_op run op) x s sim
          (λ a b y z s' ha hb. Computes-lower_cmp_op mlir sem run ρ a b y z x s' ha hb op) h
    Computes-lower_basic_op (BasicOp.conv_op op e) x s sim h =
        let (y, ey, h₁) = then_try-eq-some (eval_sub_exp ρ e) (eval_conv_op run op) h in
        Computes->>= mlir sem run ρ (lower_sub_exp mlir floats e) (lower_conv_op mlir op) y x s
          (Computes-lower_sub_exp e y s sim ey)
          λ a s₁ ha _. Computes-lower_conv_op mlir sem run ρ op a y x s₁ ha h₁
    Computes-lower_basic_op _ x s sim h = cc

    -- The action returns values that denote the numbers.
    abbrev pub ComputesAll : Lower mlir (Values mlir) → List Number → State mlir → Type 0
    ComputesAll m xs s = Gives (AllAt mlir sem run ρ xs s) (m s)

    pub ComputesAll-listed :
        (m : Lower mlir Value) (x : Number) {xs : List Number} (s : State mlir)
        → some (x ∷ []) ≡ some xs
        → Computes mlir sem run ρ m x s
        → ComputesAll (m >>= λ v. pure (v ∷ [])) xs s
    unfolding pure
    ComputesAll-listed m x {xs} s e h =
        Gives->>= (OneAt mlir sem run ρ x s) (AllAt mlir sem run ρ xs s) m _ s h λ v s' (d, l). (
          subst (AllDenote mlir sem.bits run s'.ir (v ∷ [])) (some-same _ _ e)
              (more_denote d none_denotes),
          l,
        )

    pub ComputesAll-lower_sub_exps :
        (es : List SubExp) (xs : List Number) (s : State mlir)
        → Simulates mlir sem run ρ s
        → eval_results ρ es ≡ some xs
        → ComputesAll (map_action (lower_sub_exp mlir floats) es) xs s
    unfolding map_action pure
    ComputesAll-lower_sub_exps [] xs s sim h = (
      subst (AllDenote mlir sem.bits run s.ir []) (some-same _ _ h) none_denotes,
      Later-refl mlir sem run ρ s,
    )
    ComputesAll-lower_sub_exps (e ∷ es) xs s sim h =
        let (x, ex, h₁) = then_try-eq-some (eval_sub_exp ρ e) _ h in
        let (rest, er, h₂) = then_try-eq-some (eval_results ρ es) _ h₁ in
        Gives->>= (OneAt mlir sem run ρ x s) (AllAt mlir sem run ρ xs s)
          (lower_sub_exp mlir floats e) _ s (Computes-lower_sub_exp e x s sim ex)
          λ v s₁ (d, l).
            Gives->>= (AllAt mlir sem run ρ rest s₁) (AllAt mlir sem run ρ xs s)
              (map_action (lower_sub_exp mlir floats) es) _ s₁
              (ComputesAll-lower_sub_exps es rest s₁ (Simulates-Later mlir sem run sim l) er)
              λ vs s₂ (ds, l'). (
                subst (AllDenote mlir sem.bits run s₂.ir (v ∷ vs)) (some-same _ _ h₂)
                    (more_denote (Denotes-Later mlir sem run ρ l' d) ds),
                Later-trans mlir sem run ρ l l',
              )
