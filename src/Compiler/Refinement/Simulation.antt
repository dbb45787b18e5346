-- ===== src/Compiler/Refinement/Simulation.antt =====
-- compiler.hpp `Env` and the module under construction, against what the names in scope mean.
use mlir_backend.Prelude.{
  ◌≡◌, refl, Bool, true, false, List, none, some, Text, text_eq, text_eq-ne, ok, if◌then◌else◌,
}
use mathlib.Core.Path.{subst, ◌∙◌, ap}
use mlir_backend.Compiler.Env
use mlir_backend.Compiler.Mlir.{Mlir}
use mlir_backend.Compiler.State.{State, Values}
use mlir_backend.Compiler.Refinement.Words.{Number}
use mlir_backend.Compiler.Refinement.Source.{Meanings, assign_number}
use mlir_backend.Compiler.Refinement.Target.{
  Denotes, AllDenote, nothing, none_denotes, more_denote, Semantics,
}
use mlir_backend.Compiler.Refinement.Later.{
  some-same, Later, Later-refl, Later-trans, Denotes-Later,
}

-- What has a meaning keeps it.
abbrev pub Grows : Meanings → Meanings → Type 0
Grows ρ ρ' = (name : Text) (x : Number) → ρ name ≡ some x → ρ' name ≡ some x

fresh_name-ne :
    (ρ : Meanings) (name j : Text) {y : Number}
    → ρ name ≡ none
    → ρ j ≡ some y
    → text_eq name j ≡ false
fresh_name-ne ρ name j h e = text_eq-ne name j λ p. cc (h, e, ap ρ p)

Grows-assign :
    (ρ : Meanings) (name : Text) (x : Number) → ρ name ≡ none → Grows ρ (assign_number ρ name x)
Grows-assign ρ name x h j y e = rw (fresh_name-ne ρ name j h e) e

-- No name has a meaning yet.
abbrev pub nothing_bound : Meanings
nothing_bound name = none

module _ (mlir : Mlir) (sem : Semantics mlir) where
  open mlir use {Value, Func}

  -- Each name that has a meaning is bound to a value that denotes it.
  pub record Simulates (run : Bool) (ρ : Meanings) (s : State mlir) : Type 0 where
    pub finds :
        (name : Text) (x : Number)
        → ρ name ≡ some x
        → (v : Value) × (Env.lookup name s.subexps ≡ ok v) × Denotes mlir sem.bits run s.ir v x

  module _ (run : Bool) where
    pub Simulates-nothing_bound : (s : State mlir) → Simulates run nothing_bound s
    Simulates-nothing_bound s = record { finds = λ name x h. cc }

    pub Simulates-Later :
        {ρ : Meanings} {s s' : State mlir}
        → Simulates run ρ s
        → Later mlir sem run ρ s s'
        → Simulates run ρ s'
    Simulates-Later {s = s} {s' = s'} h l = record {
      finds = λ name x e.
          let (v, k, d) = h.finds name x e in
          (v, l.same_names name x e ∙ k, Denotes-Later mlir sem run _ l d);
    }

    pub Later-grown :
        {ρ ρ' : Meanings} {s s' : State mlir}
        → Grows ρ ρ'
        → Later mlir sem run ρ' s s'
        → Later mlir sem run ρ s s'
    Later-grown g l = record {
      inside = l.inside;
      same_names = λ name x e. l.same_names name x (g name x e);
      stays = l.stays;
    }

    -- A statement: the names have their new meanings, and the old ones are untouched.
    pub record Advances (ρ ρ' : Meanings) (s s' : State mlir) : Type 0 where
      pub simulates : Simulates run ρ' s'
      pub later : Later mlir sem run ρ s s'
      pub grows : Grows ρ ρ'

    pub Advances-refl : {ρ : Meanings} {s : State mlir} → Simulates run ρ s → Advances ρ ρ s s
    Advances-refl {ρ} {s} h = record {
      simulates = h;
      later = Later-refl mlir sem run ρ s;
      grows = λ name x e. e;
    }

    pub Advances-after :
        {ρ ρ' : Meanings} {s s₁ s₂ : State mlir}
        → Later mlir sem run ρ s s₁
        → Advances ρ ρ' s₁ s₂
        → Advances ρ ρ' s s₂
    Advances-after {ρ} l a = record {
      simulates = a.simulates;
      later = Later-trans mlir sem run ρ l a.later;
      grows = a.grows;
    }

    pub Advances-trans :
        {ρ ρ₁ ρ₂ : Meanings} {s s₁ s₂ : State mlir}
        → Advances ρ ρ₁ s s₁
        → Advances ρ₁ ρ₂ s₁ s₂
        → Advances ρ ρ₂ s s₂
    Advances-trans {ρ} h k = record {
      simulates = k.simulates;
      later = Later-trans mlir sem run ρ h.later (Later-grown h.grows k.later);
      grows = λ name x e. k.grows name x (h.grows name x e);
    }

    -- A name that had no meaning is bound.
    pub Advances-bind :
        {ρ : Meanings} {s : State mlir} (name : Text) (v : Value) (x : Number)
        → ρ name ≡ none
        → Simulates run ρ s
        → Denotes mlir sem.bits run s.ir v x
        → Advances ρ (assign_number ρ name x) s (record s { subexps = Env.insert name v s.subexps })
    Advances-bind {ρ} {s} name v x fresh h d = record {
      simulates = record {
        finds = λ j y e. rw (Env.lookup-insert j name v s.subexps) (
            elim (text_eq name j)
                as (λ b.
                  (if b then some x else ρ j) ≡ some y
                  → (u : Value) × ((if b then ok v else Env.lookup j s.subexps) ≡ ok u)
                    × Denotes mlir sem.bits run s.ir u y) [
                      | true ↦ λ k.
                          (v, refl, subst (Denotes mlir sem.bits run s.ir v) (some-same x y k) d)
                      | false ↦ h.finds j y
                    ]
              e);
      };
      later = record {
        inside = nothing;
        same_names =
            λ j y e. rw (Env.lookup-insert j name v s.subexps, fresh_name-ne ρ name j fresh e) refl;
        stays = λ r u a e. e;
      };
      grows = Grows-assign ρ name x fresh;
    }

    pub AllDenote-Later :
        {ρ : Meanings} {s s' : State mlir} {vs : Values mlir} {xs : List Number}
        → Later mlir sem run ρ s s'
        → AllDenote mlir sem.bits run s.ir vs xs
        → AllDenote mlir sem.bits run s'.ir vs xs
    AllDenote-Later l none_denotes = none_denotes
    AllDenote-Later l (more_denote d ds) =
        more_denote (Denotes-Later mlir sem run _ l d) (AllDenote-Later l ds)
