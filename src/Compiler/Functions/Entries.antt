-- ===== src/Compiler/Functions/Entries.antt =====
-- compiler.hpp: an entry in `functions` under a name that has none.
use mlir_backend.Prelude.{◌≡◌, refl, sym, ap, List, [], ◌∷◌, none, Text, arith}
use mathlib.Core.Path.{subst}
use mlir_backend.Compiler.Functions.{find_lowered, erase, enter}

erase-missing :
    {F : Type 0} (name : Text) (m : List (Text × F)) → find_lowered name m ≡ none → erase name m ≡ m
unfolding erase find_lowered
erase-missing name [] h = refl
erase-missing name ((k, g) ∷ m) h = let ih = erase-missing name m in ground arith

enter-missing :
    {F : Type 0} (name : Text) (f : F) (m : List (Text × F))
    → find_lowered name m ≡ none
    → enter name f m ≡ (name, f) ∷ m
unfolding enter
enter-missing name f m h = ap (λ rest. (name, f) ∷ rest) (erase-missing name m h)

-- What holds with an entry added holds after the assignment, for a name that has no entry.
pub enter_new :
    {F : Type 0} (R : List (Text × F) → Type 0) (name : Text) (f : F) (m : List (Text × F))
    → find_lowered name m ≡ none
    → R ((name, f) ∷ m)
    → R (enter name f m)
enter_new R name f m h r = subst R (sym (enter-missing name f m h)) r
