-- ===== src/Compiler/Refinement/Bindings.antt =====
-- compiler.hpp: the loops over `llvm::zip_equal` that bind names to values.
use mlir_backend.Prelude.{
  ◌≡◌, refl, Bool, List, [], ◌∷◌, Option, none, some, Text, ok, length, ==_iff, arith,
}
use mathlib.Core.Path.{subst}
use mlir_backend.Compiler.Monad.{lift, ◌>>=◌, pure, for_each}
use mlir_backend.Compiler.Env
use mlir_backend.Compiler.Mlir.{Mlir}
use mlir_backend.Compiler.State.{State, Lower, Values, bind, zip_equal, zip_walk, zip_shortest}
use mlir_backend.Compiler.Refinement.Words.{Number}
use mlir_backend.Compiler.Refinement.Source.{Meanings, assign_number, bind_fresh, bind_numbers}
use mlir_backend.Compiler.Refinement.Target.{AllDenote, none_denotes, more_denote, Semantics}
use mlir_backend.Compiler.Refinement.Total.{Gives, Gives-mono}
use mlir_backend.Compiler.Refinement.Subexps.{then_try-eq-some}
use mlir_backend.Compiler.Refinement.Simulation.{
  Simulates, Advances, Advances-refl, Advances-trans, Advances-bind,
}
use mlir_backend.Compiler.Refinement.Later.{some-same}

bind_fresh-eq-some :
    (o : Option Number) (ρ : Meanings) (name : Text) (x : Number) {ρ' : Meanings}
    → bind_fresh o ρ name x ≡ some ρ'
    → (o ≡ none) × (assign_number ρ name x ≡ ρ')
bind_fresh-eq-some none ρ name x h = (refl, some-same _ _ h)
bind_fresh-eq-some (some y) ρ name x h = cc

-- Of ranges of one length, neither walk passes the end of the other.
zip_walk-eq-ok :
    (mlir : Mlir) {A B : Type 0} (xs : List A) (ys : List B)
    → length xs ≡ length ys
    → zip_walk mlir xs ys ≡ ok (zip_shortest mlir xs ys)
unfolding zip_walk
zip_walk-eq-ok mlir [] ys h = refl
zip_walk-eq-ok mlir (x ∷ xs) [] h = absurd (omega arith)
zip_walk-eq-ok mlir (x ∷ xs) (y ∷ ys) h =
    let e : length xs ≡ length ys = omega arith in rw (zip_walk-eq-ok mlir xs ys e) refl

module _ (mlir : Mlir) (sem : Semantics mlir) where
  open mlir use {Value, Func}

  pub Advances-bind_pairs :
      {A : Type 0} (name : A → Text) (run : Bool) (ρ ρ' : Meanings) (elems : List A)
      (vs : Values mlir) (xs : List Number) (s : State mlir)
      → Simulates mlir sem run ρ s
      → AllDenote mlir sem.bits run s.ir vs xs
      → bind_numbers name ρ elems xs ≡ some ρ'
      → Gives
          (λ (u : Unit {0}) (s' : State mlir). Advances mlir sem run ρ ρ' s s')
          (for_each (λ (p : A × Value). bind mlir (name p.0) p.1) (zip_shortest mlir elems vs) s)
  unfolding for_each bind pure ◌>>=◌
  Advances-bind_pairs name run ρ ρ' [] _ _ s sim none_denotes h =
      subst (λ r. Advances mlir sem run ρ r s s) (some-same _ _ h) (Advances-refl mlir sem run sim)
  Advances-bind_pairs {A} name run ρ ρ' (e ∷ es) _ _ s sim (more_denote {v} {x} {vs} {xs} d ds) h =
      let (ρ₁, h₁, h₂) = then_try-eq-some (bind_fresh (ρ (name e)) ρ (name e) x) _ h in
      let (fresh, e₁) = bind_fresh-eq-some (ρ (name e)) ρ (name e) x h₁ in
      let s₁ = record s { subexps = Env.insert (name e) v s.subexps } in
      let first : Advances mlir sem run ρ ρ₁ s s₁ =
        subst (λ r. Advances mlir sem run ρ r s s₁) e₁
          (Advances-bind mlir sem run (name e) v x fresh sim d) in
      Gives-mono
        (for_each (λ (p : A × Value). bind mlir (name p.0) p.1) (zip_shortest mlir es vs) s₁)
        (λ u s₂ rest. Advances-trans mlir sem run first rest)
        (Advances-bind_pairs name run ρ₁ ρ' es vs xs s₁ first.simulates ds h₂)
  Advances-bind_pairs name run ρ ρ' _ _ _ s sim _ h = cc

  pub bound-length :
      {A : Type 0} (name : A → Text) (run : Bool) (m : mlir.Module) (ρ : Meanings) {ρ' : Meanings}
      (elems : List A) (vs : Values mlir) (xs : List Number)
      → AllDenote mlir sem.bits run m vs xs
      → bind_numbers name ρ elems xs ≡ some ρ'
      → length elems ≡ length vs
  bound-length name run m ρ [] _ _ none_denotes h = refl
  bound-length name run m ρ (e ∷ es) _ _ (more_denote {v} {x} {vs} {xs} d ds) h =
      let (ρ₁, _, h₂) = then_try-eq-some (bind_fresh (ρ (name e)) ρ (name e) x) _ h in
      omega (arith, bound-length name run m ρ₁ es vs xs ds h₂)
  bound-length name run m ρ _ _ _ _ h = cc

  pub Gives-zip_equal->>= :
      {A B : Type 0} (R : B → State mlir → Type 0) (elems : List A) (vs : Values mlir)
      (k : List (A × Value) → Lower mlir B) (s : State mlir)
      → length elems ≡ length vs
      → Gives R (k (zip_shortest mlir elems vs) s)
      → Gives R ((zip_equal mlir elems vs >>= k) s)
  unfolding zip_equal lift ◌>>=◌ pure
  Gives-zip_equal->>= R elems vs k s e h =
      rw ((==_iff (length elems) (length vs)).1 e, zip_walk-eq-ok mlir elems vs e) h

  -- A loop over names and values that are asserted to be equally many.
  pub Advances-bind_all :
      {A : Type 0} (name : A → Text) (run : Bool) (ρ ρ' : Meanings) (elems : List A)
      (vs : Values mlir) (xs : List Number) (s : State mlir)
      → Simulates mlir sem run ρ s
      → AllDenote mlir sem.bits run s.ir vs xs
      → bind_numbers name ρ elems xs ≡ some ρ'
      → Gives
          (λ (u : Unit {0}) (s' : State mlir). Advances mlir sem run ρ ρ' s s')
          ((zip_equal mlir elems vs >>= for_each (λ (p : A × Value). bind mlir (name p.0) p.1)) s)
  Advances-bind_all {A} name run ρ ρ' elems vs xs s sim ds h =
      Gives-zip_equal->>= (λ (u : Unit {0}) (s' : State mlir). Advances mlir sem run ρ ρ' s s')
        elems vs (for_each λ (p : A × Value). bind mlir (name p.0) p.1) s
        (bound-length name run s.ir ρ elems vs xs ds h)
        (Advances-bind_pairs name run ρ ρ' elems vs xs s sim ds h)
