-- ===== src/Compiler/Missing.antt =====
-- The functions of a program that have no entry in `functions`.
use mlir_backend.Prelude.{
  ℕ, ◌<◌, ◌≤◌, ◌≡◌, Bool, true, false, List, [], ◌∷◌, none, some, Text, text_eq, text_eq_refl,
  text_eq_sound, All, arith, count, count-le, count-lt,
}
use mlir_backend.Ir.Syntax.{FunDef}
use mlir_backend.Compiler.Functions.{find_lowered}
use mlir_backend.Compiler.Keeps.Lower.{IsListed}

-- Whether a name has no lowered function.
abbrev is_missing : {F : Type 0} → List (Text × F) → FunDef → Bool
is_missing memo f = elim (find_lowered f.name memo) [ none ↦ true | some _ ↦ false ]

-- The functions of a program that are not lowered yet.
abbrev pub missing : {F : Type 0} → List FunDef → List (Text × F) → ℕ
missing funs memo = count (is_missing memo) funs

module _ {F : Type 0} where
  -- A name that is missing after an entry was missing before.
  entry-missing :
      (n : Text) (g : F) (memo : List (Text × F)) (f : FunDef)
      → is_missing ((n, g) ∷ memo) f ≡ true
      → is_missing memo f ≡ true
  unfolding find_lowered
  entry-missing n g memo f h = ground arith

  entry-found :
      (n : Text) (g : F) (memo : List (Text × F)) (f : FunDef)
      → find_lowered n memo ≡ none
      → text_eq f.name n ≡ true
      → (is_missing ((n, g) ∷ memo) f ≡ false) × (is_missing memo f ≡ true)
  unfolding find_lowered
  entry-found n g memo f h e = let s = text_eq_sound f.name n e in ground (arith, text_eq_refl n)

  -- An entry does not add to them.
  pub missing-le :
      (n : Text) (g : F) (memo : List (Text × F)) (funs : List FunDef)
      → missing funs ((n, g) ∷ memo) ≤ missing funs memo
  missing-le n g memo funs =
      count-le (is_missing ((n, g) ∷ memo)) (is_missing memo) (entry-missing n g memo) funs

  -- An entry for a listed function leaves one fewer.
  pub missing-entry :
      (n : Text) (g : F) (memo : List (Text × F)) (funs : List FunDef)
      → find_lowered n memo ≡ none
      → IsListed n funs
      → missing funs ((n, g) ∷ memo) < missing funs memo
  missing-entry n g memo funs h l =
      count-lt (is_missing ((n, g) ∷ memo)) (is_missing memo) (λ f. text_eq f.name n)
        (entry-missing n g memo) (λ f e. entry-found n g memo f h e) funs l

IsListed-weaken :
    (f : FunDef) (fs gs : List FunDef)
    → All (λ (g : FunDef). IsListed g.name fs) gs
    → All (λ (g : FunDef). IsListed g.name (f ∷ fs)) gs
IsListed-weaken f fs [] h = tt
IsListed-weaken f fs (g ∷ gs) (h, hs) = (ground arith, IsListed-weaken f fs gs hs)

pub All-IsListed : (fs : List FunDef) → All (λ (g : FunDef). IsListed g.name fs) fs
All-IsListed [] = tt
All-IsListed (f ∷ fs) =
    (ground (arith, text_eq_refl f.name), IsListed-weaken f fs fs (All-IsListed fs))
