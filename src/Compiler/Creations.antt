-- ===== src/Compiler/Creations.antt =====
-- `LowerFunction` and the loop of `main`: how often each function is created.
use mlir_backend.Prelude.{
  ℕ, ◌≡◌, ◌≢◌, refl, sym, ap, List, [], ◌∷◌, ◌++◌, none, some, ok, Text, text_eq, text_eq_sound,
  Bool, false, ◌∙◌, count, count-append, arith,
}
use mathlib.Core.Path.{subst}
use mlir_backend.Ir.Primitive.{FloatOps}
use mlir_backend.Ir.Syntax.{FunDef, Prog}
use mlir_backend.Compiler.Monad.{done}
use mlir_backend.Compiler.Mlir.{Mlir, MlirType}
use mlir_backend.Compiler.State.{
  State, Call, created, opened, next, closed, func_created, func_opened, func_closed,
}
use mlir_backend.Compiler.Nesting.{IsBuilt}
use mlir_backend.Compiler.Blackboxes.{maybe_black_box}
use mlir_backend.Compiler.Functions.Entries.{enter_new}
use mlir_backend.Compiler.Functions.{find_lowered, lower_program}
use mlir_backend.Compiler.Keeps.{Invariant, Kept}
use mlir_backend.Compiler.Keeps.Functions.{FunctionLaws}
use mlir_backend.Compiler.Completeness.{Kept-lowered}

-- How often a name has a lowered function, and how often it was created.
module _ {F : Type 0} where
  abbrev entries : Text → List (Text × F) → ℕ
  entries name memo = elim (find_lowered name memo) [ none ↦ 0 | some f ↦ 1 ]

  entries-found :
      (name : Text) (memo : List (Text × F)) → find_lowered name memo ≢ none → entries name memo ≡ 1
  entries-found name memo h = ground arith

  entries-empty : (name : Text) (memo : List (Text × F)) → memo ≡ [] → entries name memo ≡ 0
  unfolding find_lowered
  entries-empty name memo e = ap (entries name) e

module _ {V F : Type 0} where
  abbrev pub creates : Text → Call V F → Bool
  creates name (func_created n inputs rets) = text_eq n name
  creates name _ = false

  creates-IsBuilt : (name : Text) (c : Call V F) → IsBuilt c → creates name c ≡ false
  creates-IsBuilt name (created op) b = refl
  creates-IsBuilt name (opened op) b = refl
  creates-IsBuilt name next b = refl
  creates-IsBuilt name closed b = refl
  creates-IsBuilt name (func_created n inputs rets) b = elim b [ ]
  creates-IsBuilt name (func_opened f) b = refl
  creates-IsBuilt name func_closed b = refl

  -- A call other than a creation leaves the count as it was.
  count-uncreated :
      (name : Text) (cs : List (Call V F)) (c : Call V F)
      → creates name c ≡ false
      → count (creates name) (cs ++ c ∷ []) ≡ count (creates name) cs
  count-uncreated name cs c not_created =
      let sum = count-append (creates name) cs (c ∷ []) in ground arith

  entries-entered :
      (name n : Text) (inputs rets : List MlirType) (f : F) (memo : List (Text × F))
      (cs : List (Call V F))
      → find_lowered n memo ≡ none
      → count (creates name) cs ≡ entries name memo
      → count (creates name) (cs ++ func_created n inputs rets ∷ []) ≡ entries name ((n, f) ∷ memo)
  unfolding find_lowered
  entries-entered name n inputs rets f memo cs e h =
      let sum = count-append (creates name) cs (func_created n inputs rets ∷ []) in
      let same = text_eq_sound n name in ground arith

module _ (mlir : Mlir) (floats : FloatOps) (prog : Prog) where
  -- A function was created once for its entry.
  abbrev one_each : Text → Invariant mlir
  one_each name = record {
    holds = λ σ s. count (creates name) s.log ≡ entries name s.functions;
    calls = λ {c = c} m s step b h. count-uncreated name s.log c (creates-IsBuilt name c b) ∙ h;
    invokes = λ f args m s k h. count-uncreated name s.log _ refl ∙ h;
    binds = λ n v s h. h;
    restores = λ s s' h h'. h';
  }

  one_laws : (name : Text) → FunctionLaws mlir (one_each name)
  one_laws name = record {
    adds = λ m n inputs rets f s e h.
        let log = s.log ++ func_created n inputs rets ∷ [] in
        enter_new (λ memo. count (creates name) log ≡ entries name memo) n f s.functions e
          (entries-entered name n inputs rets f s.functions s.log e h);
    resets = λ s h. h;
  }

  -- Where the lowering of a program returns that starts with no calls and no functions, each function
  -- of the program that is not a black box was created, and none of its name was created twice.
  pub lower_program-creates_once :
      (before : List FunDef) (fun : FunDef) (after : List FunDef) (s : State mlir) {s' : State mlir}
      → prog.funs ≡ before ++ fun ∷ after
      → maybe_black_box fun.attrs.attrs ≡ ok none
      → s.log ≡ []
      → s.functions ≡ []
      → lower_program mlir floats prog s ≡ done (tt, s')
      → count (creates fun.name) s'.log ≡ 1
  lower_program-creates_once before fun after s {s'} split e no_calls no_functions returned =
      let none_yet =
        ap (count (creates fun.name)) no_calls
        ∙ sym (entries-empty fun.name s.functions no_functions) in
      let at_end = subst (Kept mlir _) returned (
        Kept-lowered mlir floats prog (one_each fun.name) (one_laws fun.name) before fun after [] s
          split e none_yet) in
      at_end.1 ∙ entries-found fun.name s'.functions (at_end.0)
