-- ===== src/Compiler/Callees.antt =====
-- compiler.hpp `ExpApply`: which functions `func.call` calls.
use mlir_backend.Prelude.{◌≡◌, List, [], ◌∷◌, ◌++◌, Option, none, some, Text, All, All-append}
use mathlib.Core.Path.{subst, sym}
use mlir_backend.Ir.Primitive.{FloatOps}
use mlir_backend.Ir.Syntax.{Prog}
use mlir_backend.Compiler.Monad.{done}
use mlir_backend.Compiler.Mlir.{Mlir}
use mlir_backend.Compiler.State.{
  State, Call, created, opened, next, closed, func_created, func_opened, func_closed,
}
use mlir_backend.Compiler.Nesting.{called_func, IsNone, IsBuilt}
use mlir_backend.Compiler.Functions.Entries.{enter_new}
use mlir_backend.Compiler.Functions.{find_lowered, lower_program}
use mlir_backend.Compiler.Keeps.{Invariant, IsLowered, Kept}
use mlir_backend.Compiler.Keeps.Functions.{FunctionLaws}
use mlir_backend.Compiler.Definition.{entry_stays}
use mlir_backend.Compiler.Termination.{Kept-lower_program}

module _ {F : Type 0} where
  -- What is called, if anything is, has an entry.
  abbrev pub IsKnown : List (Text × F) → Option F → Type 0
  IsKnown memo none = Unit
  IsKnown memo (some f) = IsLowered f memo

  IsNone-IsKnown : (memo : List (Text × F)) (o : Option F) → IsNone o → IsKnown memo o
  IsNone-IsKnown memo none h = tt
  IsNone-IsKnown memo (some f) h = elim h [ ]

  IsKnown-entered :
      (n : Text) (g : F) (memo : List (Text × F)) (o : Option F)
      → find_lowered n memo ≡ none
      → IsKnown memo o
      → IsKnown ((n, g) ∷ memo) o
  IsKnown-entered n g memo none e h = tt
  IsKnown-entered n g memo (some f) e (name, k) = (name, entry_stays name f n g memo e k)

module _ {V F : Type 0} where
  abbrev pub IsKnownCall : List (Text × F) → Call V F → Type 0
  IsKnownCall memo (created op) = IsKnown memo (called_func op)
  IsKnownCall memo _ = Unit

  IsBuilt-IsKnownCall : (memo : List (Text × F)) (c : Call V F) → IsBuilt c → IsKnownCall memo c
  IsBuilt-IsKnownCall memo (created op) b = IsNone-IsKnown memo (called_func op) b
  IsBuilt-IsKnownCall memo (opened _) b = tt
  IsBuilt-IsKnownCall memo next b = tt
  IsBuilt-IsKnownCall memo closed b = tt
  IsBuilt-IsKnownCall memo (func_created _ _ _) b = tt
  IsBuilt-IsKnownCall memo (func_opened _) b = tt
  IsBuilt-IsKnownCall memo func_closed b = tt

  IsKnownCall-entered :
      (n : Text) (g : F) (memo : List (Text × F)) (c : Call V F)
      → find_lowered n memo ≡ none
      → IsKnownCall memo c
      → IsKnownCall ((n, g) ∷ memo) c
  IsKnownCall-entered n g memo (created op) e h = IsKnown-entered n g memo (called_func op) e h
  IsKnownCall-entered n g memo (opened _) e h = tt
  IsKnownCall-entered n g memo next e h = tt
  IsKnownCall-entered n g memo closed e h = tt
  IsKnownCall-entered n g memo (func_created _ _ _) e h = tt
  IsKnownCall-entered n g memo (func_opened _) e h = tt
  IsKnownCall-entered n g memo func_closed e h = tt

  All-entered :
      (n : Text) (g : F) (memo : List (Text × F)) (cs : List (Call V F))
      → find_lowered n memo ≡ none
      → All (IsKnownCall memo) cs
      → All (IsKnownCall ((n, g) ∷ memo)) cs
  All-entered n g memo [] e h = tt
  All-entered n g memo (c ∷ cs) e (h, hs) =
      (IsKnownCall-entered n g memo c e h, All-entered n g memo cs e hs)

module _ (mlir : Mlir) (floats : FloatOps) (prog : Prog) where
  -- Each call so far is of a function that has an entry.
  abbrev known_calls : Invariant mlir
  known_calls = record {
    holds = λ σ s. All (IsKnownCall s.functions) s.log;
    calls = λ {c = c} m s step b h.
        All-append _ s.log (c ∷ []) h (IsBuilt-IsKnownCall s.functions c b, tt);
    invokes = λ f args m s k h. All-append (IsKnownCall s.functions) s.log _ h (k, tt);
    binds = λ n v s h. h;
    restores = λ s s' h h'. h';
  }

  known_laws : FunctionLaws mlir known_calls
  known_laws = record {
    adds = λ m n inputs rets f s e h.
        enter_new (λ memo. All (IsKnownCall memo) (s.log ++ func_created n inputs rets ∷ [])) n f
          s.functions e
          (All-append (IsKnownCall ((n, f) ∷ s.functions)) s.log (func_created n inputs rets ∷ [])
            (All-entered n f s.functions s.log e h) (tt, tt));
    resets = λ s h. h;
  }

  -- Where the lowering of a program returns that starts with no calls, each call of a function that
  -- it makes is of a function that has an entry among the lowered functions.
  pub lower_program-IsKnownCall :
      (s : State mlir) {s' : State mlir}
      → s.log ≡ []
      → lower_program mlir floats prog s ≡ done (tt, s')
      → All (IsKnownCall s'.functions) s'.log
  lower_program-IsKnownCall s empty e = subst (Kept mlir _) e (
      Kept-lower_program mlir floats prog known_calls known_laws [] s
        (subst (λ cs. All (IsKnownCall s.functions) cs) (sym empty) tt))
