-- ===== src/Compiler/Refinement/Total.antt =====
-- Actions that return, and what holds of the value and of the state that they return.
use mathlib.Core.Path.{subst, sym}
use mlir_backend.Prelude.{◌≡◌, refl, ap, Bool, true, false, if◌then◌else◌}
use mlir_backend.Compiler.Monad.{Action, Outcome, done, thrown, out_of_fuel, ◌>>=◌}

-- The outcome is a value, and it has the property.
abbrev pub Gives : {S A : Type 0} → (A → S → Type 0) → Outcome (A × S) → Type 0
Gives Q (done (a, s)) = Q a s
Gives Q (thrown _) = ⊥
Gives Q out_of_fuel = ⊥

module _ {S A B : Type 0} (Q : A → S → Type 0) (R : B → S → Type 0) where
  pub Gives-then :
      (o : Outcome (A × S)) (f : A → Action S B)
      → Gives Q o
      → ((a : A) (s : S) → Q a s → Gives R (f a s))
      → Gives R (elim o [ done (a, s') ↦ f a s' | thrown e ↦ thrown e | out_of_fuel ↦ out_of_fuel ])
  Gives-then (done (a, s)) f h k = k a s h
  Gives-then (thrown e) f h k = absurd h
  Gives-then out_of_fuel f h k = absurd h

  pub Gives->>= :
      (m : Action S A) (f : A → Action S B) (s : S)
      → Gives Q (m s)
      → ((a : A) (s : S) → Q a s → Gives R (f a s))
      → Gives R ((m >>= f) s)
  unfolding ◌>>=◌
  Gives->>= m f s h k = Gives-then (m s) f h k

pub Gives-mono :
    {S A : Type 0} {Q R : A → S → Type 0} (o : Outcome (A × S))
    → ((a : A) (s : S) → Q a s → R a s)
    → Gives Q o
    → Gives R o
Gives-mono (done (a, s)) k h = k a s h
Gives-mono (thrown e) k h = h
Gives-mono out_of_fuel k h = h

pub Gives-eq-done :
    {S A : Type 0} {Q : A → S → Type 0} (o : Outcome (A × S))
    → Gives Q o
    → (a : A) × (s : S) × (o ≡ done (a, s)) × Q a s
Gives-eq-done (done (a, s)) h = (a, s, refl, h)
Gives-eq-done (thrown e) h = absurd h
Gives-eq-done out_of_fuel h = absurd h

pub after_done :
    {S A B : Type 0} (m : Action S A) (f : A → Action S B) (s : S) {a : A} {s' : S}
    → m s ≡ done (a, s')
    → (m >>= f) s ≡ f a s'
unfolding ◌>>=◌
after_done m f s e =
    ap (λ o. elim o [ done (a, s') ↦ f a s' | thrown e ↦ thrown e | out_of_fuel ↦ out_of_fuel ]) e

pub Gives-after_done :
    {S A B : Type 0} (R : B → S → Type 0) (m : Action S A) (f : A → Action S B) (s : S) {a : A}
    {s' : S}
    → m s ≡ done (a, s')
    → Gives R (f a s')
    → Gives R ((m >>= f) s)
Gives-after_done R m f s e h = subst (Gives R) (sym (after_done m f s e)) h

pub Gives-if :
    {S A : Type 0} (Q : A → S → Type 0) (b : Bool) (m k : Action S A) (s : S)
    → Gives Q (m s)
    → Gives Q (k s)
    → Gives Q ((if b then m else k) s)
Gives-if Q true m k s h h' = h
Gives-if Q false m k s h h' = h'
