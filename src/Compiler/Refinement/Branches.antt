-- ===== src/Compiler/Refinement/Branches.antt =====
-- compiler.hpp `LowerExp` on `ExpIf`: both arms are created, in the context of the expression.
use mlir_backend.Prelude.{
  ◌≡◌, refl, Bool, true, false, not, List, [], ◌∷◌, some, Text, ◌++◌, ◌&&◌, if◌then◌else◌,
}
use mathlib.Core.Path.{◌∙◌}
use mlir_backend.Compiler.Monad.{◌>>=◌, ◌>>◌, pure}
use mlir_backend.Compiler.Env
use mlir_backend.Compiler.Mlir.{Mlir, RegionOp, Op}
use mlir_backend.Compiler.State.{
  State, created, opened, next, Lower, Values, emit, emit_unit, open_op, next_op, close_op,
}
use mlir_backend.Compiler.Refinement.Words.{Number, bit}
use mlir_backend.Compiler.Refinement.Source.{Meanings, number, same_widths}
use mlir_backend.Compiler.Refinement.Target.{Inside, nothing, an_if, Denotes, Stays, Semantics}
use mlir_backend.Compiler.Refinement.Total.{Gives, Gives-then}
use mlir_backend.Compiler.Refinement.Simulation.{Simulates, Simulates-Later}
use mlir_backend.Compiler.Refinement.Later.{Later-trans, OneAt, AllAt, Computes}

module _ (mlir : Mlir) (sem : Semantics mlir) (run : Bool) (ρ : Meanings) where
  open mlir use {Value, Func}

  -- In an arm, the names are bound as before, and mean what they meant if the arm runs.
  Simulates-arm :
      (runs : Bool) {s s' : State mlir}
      → Simulates mlir sem run ρ s
      → ((name : Text) (x : Number)
          → ρ name ≡ some x
          → Env.lookup name s'.subexps ≡ Env.lookup name s.subexps)
      → (runs ≡ true → run ≡ true)
      → (runs ≡ true → Stays mlir sem.bits s.ir s'.ir)
      → Simulates mlir sem runs ρ s'
  Simulates-arm runs sim same r st = record {
    finds = λ name x e.
        let (v, k, (t, d)) = sim.finds name x e in
        (v, same name x e ∙ k, (t, λ h. st h v _ (d (r h))));
  }

  then-Stays :
      (r b : Bool) (c : Value) (m : mlir.Module)
      → Denotes mlir sem.bits r m c (number 1 (bit b))
      → (r && b) ≡ true
      → Stays mlir sem.bits m ((mlir.open_region (RegionOp.scf_if c) m).1)
  then-Stays true true c m d h = sem.then_region c m d
  then-Stays true false c m d h = cc
  then-Stays false b c m d h = cc

  else-Stays :
      (r b : Bool) (c : Value) (vs : Values mlir) (m m₁ : mlir.Module)
      → Denotes mlir sem.bits r m c (number 1 (bit b))
      → Inside mlir ((mlir.open_region (RegionOp.scf_if c) m).1) m₁
      → (r && not b) ≡ true
      → Stays mlir sem.bits m (mlir.next_region ((mlir.create (Op.scf_yield vs) m₁).1))
  else-Stays true false c vs m m₁ d i h = sem.else_region c vs m m₁ d i
  else-Stays true true c vs m m₁ d i h = cc
  else-Stays false b c vs m m₁ d i h = cc

  and-first : (a b : Bool) → (a && b) ≡ true → a ≡ true
  and-first true b h = refl
  and-first false b h = h

  -- An `if` whose parts are these actions.
  abbrev pub conditional :
      Lower mlir Value
      → Lower mlir (Values mlir)
      → Lower mlir (Values mlir)
      → Lower mlir (Values mlir)
  conditional cond t e = do
    c ← cond
    _ ← open_op mlir (RegionOp.scf_if c)
    then_value ← t
    emit_unit mlir (Op.scf_yield then_value)
    next_op mlir
    else_value ← e
    emit_unit mlir (Op.scf_yield else_value)
    close_op mlir

  -- where the first arm starts, and where the second one starts
  abbrev open_state : Value → State mlir → State mlir
  open_state c s = record s {
    ir = (mlir.open_region (RegionOp.scf_if c) s.ir).1;
    log = s.log ++ opened (RegionOp.scf_if c) ∷ [];
  }

  abbrev next_state : Values mlir → State mlir → State mlir
  next_state vs s = record s {
    ir = mlir.next_region ((mlir.create (Op.scf_yield vs) s.ir).1);
    log = (s.log ++ created (Op.scf_yield vs) ∷ []) ++ next ∷ [];
  }

  pub AllAt-conditional :
      (cond : Lower mlir Value) (t e : Lower mlir (Values mlir)) (b : Bool) (xs ys : List Number)
      (s : State mlir)
      → Simulates mlir sem run ρ s
      → Computes mlir sem run ρ cond (number 1 (bit b)) s
      → ((s' : State mlir)
          → Simulates mlir sem (run && b) ρ s'
          → Gives (AllAt mlir sem (run && b) ρ xs s') (t s'))
      → ((s' : State mlir)
          → Simulates mlir sem (run && not b) ρ s'
          → Gives (AllAt mlir sem (run && not b) ρ ys s') (e s'))
      → same_widths xs ys ≡ true
      → Gives (AllAt mlir sem run ρ (if b then xs else ys) s) (conditional cond t e s)
  unfolding ◌>>=◌ emit open_op next_op close_op pure
  AllAt-conditional cond t e b xs ys s sim hc ht he w =
      Gives-then (OneAt mlir sem run ρ (number 1 (bit b)) s)
        (AllAt mlir sem run ρ (if b then xs else ys) s) (cond s) _ hc
        λ c s₁ (dc, l).
          let sim₁ = Simulates-Later mlir sem run sim l in
          Gives-then (AllAt mlir sem (run && b) ρ xs (open_state c s₁))
            (AllAt mlir sem run ρ (if b then xs else ys) s) (t (open_state c s₁)) _
            (ht (open_state c s₁) (
              Simulates-arm (run && b) sim₁ (λ name x h. refl) (and-first run b)
                (then-Stays run b c s₁.ir dc)))
            λ vs s₃ (dvs, l₃).
              Gives-then (AllAt mlir sem (run && not b) ρ ys (next_state vs s₃))
                (AllAt mlir sem run ρ (if b then xs else ys) s) (e (next_state vs s₃)) _
                (he (next_state vs s₃) (
                  Simulates-arm (run && not b) sim₁ l₃.same_names (and-first run (not b))
                    (else-Stays run b c vs s₁.ir s₃.ir dc l₃.inside)))
                λ ws s₅ (dws, l₅).
                  let (ds, st) =
                    sem.if_results run b c vs ws xs ys s₁.ir s₃.ir s₅.ir dc l₃.inside dvs l₃.stays
                      l₅.inside dws l₅.stays w in
                  (
                    ds,
                    Later-trans mlir sem run ρ l (record {
                      inside = an_if c vs ws nothing l₃.inside l₅.inside;
                      same_names = λ name x h. l₅.same_names name x h ∙ l₃.same_names name x h;
                      stays = st;
                    }),
                  )
