-- ===== src/Compiler/Env.antt =====
-- compiler.hpp `Env`: a hash map as an association list; `insert` is `insert_or_assign`.
use mlir_backend.Prelude.{
  ◌≡◌, refl, List, [], ◌∷◌, Text, text_eq, text_eq_refl, text_eq_sound, if◌then◌else◌, Result, ok,
  err, Error, arith,
}

pub record Env (V : Type 0) : Type 0 where
  pub entries : List (Text × V)

module _ {V : Type 0} where
  assign : Text → V → List (Text × V) → List (Text × V)
  assign name v [] = (name, v) ∷ []
  assign name v ((k, w) ∷ m) = if text_eq k name then (name, v) ∷ m else (k, w) ∷ assign name v m

  find : Text → List (Text × V) → Result V
  find name [] = err (Error.unbound_variable name)
  find name ((k, w) ∷ m) = if text_eq k name then ok w else find name m

  abbrev pub empty : Env V
  empty = record { entries = [] }

  unfoldable pub insert : Text → V → Env V → Env V
  unfolding assign
  insert name v env = record { entries = assign name v env.entries }

  unfoldable pub lookup : Text → Env V → Result V
  unfolding find
  lookup name env = find name env.entries

  find-assign :
      (j k : Text) (v : V) (m : List (Text × V))
      → find j (assign k v m) ≡ (if text_eq k j then ok v else find j m)
  unfolding find assign
  find-assign j k v [] = refl
  find-assign j k v ((i, w) ∷ m) = ground (
    arith,
    find-assign j k v m,
    text_eq_sound k j,
    text_eq_sound i j,
    text_eq_sound i k,
    text_eq_refl i,
    text_eq_refl j,
    text_eq_refl k,
  )

  -- What a lookup finds after an insertion.
  pub lookup-insert :
      (j k : Text) (v : V) (env : Env V)
      → lookup j (insert k v env) ≡ (if text_eq k j then ok v else lookup j env)
  unfolding lookup insert
  lookup-insert j k v env = find-assign j k v env.entries
