-- ===== src/Compiler/Monad.antt =====
-- State and exceptions: an action takes the compiler's state and returns a value with the new
-- state, or throws. A throw ends the compilation, so the state does not come back. That the fuel of
-- a chain of calls runs out is kept apart from what the program throws.
use mlir_backend.Prelude.{Bool, List, [], ◌∷◌, Result, ok, err, Error, if◌then◌else◌}

pub data Outcome (A : Type 0) : Type 0 where
  done : A → Outcome A
  thrown : Error → Outcome A
  out_of_fuel : Outcome A

abbrev pub Action : Type 0 → Type 0 → Type 0
Action S A = S → Outcome (A × S)

module _ {S A : Type 0} where
  unfoldable pub pure : A → Action S A
  pure a s = done (a, s)

  unfoldable pub throw : Error → Action S A
  throw e s = thrown e

  unfoldable pub lift : Result A → Action S A
  lift (ok a) s = done (a, s)
  lift (err e) s = thrown e

infixl 5 ◌>>=◌ ◌>>◌
unfoldable pub ◌>>=◌ : {S A B : Type 0} → Action S A → (A → Action S B) → Action S B
◌>>=◌ m f s = elim (m s) [ done (a, s') ↦ f a s' | thrown e ↦ thrown e | out_of_fuel ↦ out_of_fuel ]

abbrev pub ◌>>◌ : {S A B : Type 0} → Action S A → Action S B → Action S B
m >> k = m >>= λ _. k

abbrev pub require : {S : Type 0} → Bool → Error → Action S (Unit {0})
require b e = if b then pure tt else throw e

-- A loop that pushes a result for each element, and one that pushes none.
unfoldable pub map_action : {S A B : Type 0} → (A → Action S B) → List A → Action S (List B)
map_action f [] = pure []
map_action f (x ∷ xs) = f x >>= λ y. map_action f xs >>= λ ys. pure (y ∷ ys)

unfoldable pub for_each : {S A : Type 0} → (A → Action S (Unit {0})) → List A → Action S (Unit {0})
for_each f [] = pure tt
for_each f (x ∷ xs) = f x >> for_each f xs
