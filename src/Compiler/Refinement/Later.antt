-- ===== src/Compiler/Refinement/Later.antt =====
-- What the lowering of an integer scalar does to the state, and actions that compute a number.
use mlir_backend.Prelude.{ℕ, ◌≡◌, refl, Bool, true, List, some, Text}
use mathlib.Core.Path.{◌∙◌}
use mlir_backend.Compiler.Monad.{◌>>=◌, pure}
use mlir_backend.Compiler.Env
use mlir_backend.Compiler.Mlir.{Mlir, Op}
use mlir_backend.Compiler.Nesting.{IsPlain}
use mlir_backend.Compiler.State.{State, Lower, Values, emit, emit_one, head_value}
use mlir_backend.Compiler.Refinement.Words.{Number}
use mlir_backend.Compiler.Refinement.Source.{Meanings, number}
use mlir_backend.Compiler.Refinement.Target.{
  Inside, Inside-trans, nothing, an_op, Stays, Denotes, AllDenote, Yields, Semantics,
}
use mlir_backend.Compiler.Refinement.Total.{Gives, Gives->>=, Gives-mono}

pub some-same {ℓ} : {A : Type ℓ} (a b : A) → some a ≡ some b → a ≡ b
some-same a b h = cc

module _ (mlir : Mlir) (sem : Semantics mlir) (run : Bool) (ρ : Meanings) where
  open mlir use {Value, Func}

  -- What comes later is created at the same place, the names that have a meaning are bound to the
  -- same values, and where the code runs no value's bits are lost.
  pub record Later (s s' : State mlir) : Type 0 where
    pub inside : Inside mlir s.ir s'.ir
    pub same_names :
        (name : Text) (x : Number)
        → ρ name ≡ some x
        → Env.lookup name s'.subexps ≡ Env.lookup name s.subexps
    pub stays : run ≡ true → Stays mlir sem.bits s.ir s'.ir

  pub Later-refl : (s : State mlir) → Later s s
  Later-refl s = record { inside = nothing; same_names = λ name x h. refl; stays = λ r v a h. h }

  pub Later-trans : {s t u : State mlir} → Later s t → Later t u → Later s u
  Later-trans h k = record {
    inside = Inside-trans mlir h.inside k.inside;
    same_names = λ name x e. k.same_names name x e ∙ h.same_names name x e;
    stays = λ r v a e. k.stays r v a (h.stays r v a e);
  }

  pub Denotes-Later :
      {s s' : State mlir} {v : Value} {x : Number}
      → Later s s'
      → Denotes mlir sem.bits run s.ir v x
      → Denotes mlir sem.bits run s'.ir v x
  Denotes-Later {v = v} l (t, d) = (t, λ r. l.stays r v _ (d r))

  -- The value denotes the number in a later state.
  abbrev pub OneAt : Number → State mlir → Value → State mlir → Type 0
  OneAt x s v s' = Denotes mlir sem.bits run s'.ir v x × Later s s'

  abbrev pub AllAt : List Number → State mlir → Values mlir → State mlir → Type 0
  AllAt xs s vs s' = AllDenote mlir sem.bits run s'.ir vs xs × Later s s'

  -- The action returns a value that denotes the number.
  abbrev pub Computes : Lower mlir Value → Number → State mlir → Type 0
  Computes m x s = Gives (OneAt x s) (m s)

  pub Computes->>= :
      (m : Lower mlir Value) (f : Value → Lower mlir Value) (x y : Number) (s : State mlir)
      → Computes m x s
      → ((v : Value) (s' : State mlir)
          → Denotes mlir sem.bits run s'.ir v x
          → Later s s'
          → Computes (f v) y s')
      → Computes (m >>= f) y s
  Computes->>= m f x y s h k =
      Gives->>= (OneAt x s) (OneAt y s) m f s h
        λ v s₁ (d, l). Gives-mono (f v s₁) (λ w s₂ (e, l'). (e, Later-trans l l')) (k v s₁ d l)

  -- An operation whose result denotes a number, which the evaluation gives.
  pub Computes-emit_one :
      (op : Op Value Func) (w c : ℕ) (z : Number) (s : State mlir)
      → IsPlain op
      → (w ≡ z.width)
      → (run ≡ true → some c ≡ some z.pattern)
      → Yields mlir sem.bits run (number w c) s.ir (mlir.create op s.ir)
      → Computes (emit_one mlir op) z s
  unfolding emit head_value ◌>>=◌ pure
  Computes-emit_one op w c z s p ew ez (v, e, (t, d), st) = rw e (
    (rw ew at t, λ r. d r ∙ ez r),
    record { inside = an_op op p nothing; same_names = λ name x h. refl; stays = st },
  )
