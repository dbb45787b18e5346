-- ===== src/Compiler/Completeness.antt =====
-- `LowerFunction` and the loop of `main`: which functions are created.
use mlir_backend.Prelude.{
  ℕ, zero, suc, ◌≡◌, ◌≢◌, refl, sym, List, [], ◌∷◌, ◌++◌, Option, none, some, ok, Text,
  text_eq_refl, All, arith, length, count-length,
}
use mathlib.Core.Path.{subst}
use mlir_backend.Ir.Primitive.{FloatOps}
use mlir_backend.Ir.Syntax.{FunDef, Prog}
use mlir_backend.Compiler.Monad.{done, pure, lift, ◌>>=◌, ◌>>◌, for_each}
use mlir_backend.Compiler.Mlir.{Mlir}
use mlir_backend.Compiler.State.{State}
use mlir_backend.Compiler.Nesting.{Frame}
use mlir_backend.Compiler.Blackboxes.{maybe_black_box}
use mlir_backend.Compiler.Lower.{func}
use mlir_backend.Compiler.Functions.Entries.{enter_new}
use mlir_backend.Compiler.Functions.{
  enter, find_lowered, define_function, lower_known, lower_function, lower_program,
}
use mlir_backend.Compiler.Missing.{All-IsListed}
use mlir_backend.Compiler.Keeps.{
  with_functions, Invariant, Kept, Kept-weaken, Keeps-pure, Keeps->>=,
}
use mlir_backend.Compiler.Keeps.Lower.{IsListed}
use mlir_backend.Compiler.Keeps.Functions.{
  FunctionLaws, Turns, Turns->>=, Turns-Keeps->>=, Turns-define_function,
}
use mlir_backend.Compiler.Definition.{FewMissing, WithoutEntry, entry_kept, few_laws, no_entry}
use mlir_backend.Compiler.Termination.{Calls-lower_function, Keeps-lower_function, Keeps-All}

module _ (mlir : Mlir) (floats : FloatOps) (prog : Prog) (I : Invariant mlir)
    (laws : FunctionLaws mlir I) where
  open mlir use {Func}

  -- The name has a lowered function.
  abbrev pub WithEntry : Text → Invariant mlir
  WithEntry name = with_functions (λ memo. find_lowered name memo ≢ none) I

  found_after :
      (name : Text) (n : Text) (g : Func) (memo : List (Text × Func))
      → find_lowered name memo ≢ none
      → find_lowered name ((n, g) ∷ memo) ≢ none
  unfolding find_lowered
  found_after name n g memo h = ground arith

  found_itself :
      (name : Text) (g : Func) (memo : List (Text × Func))
      → find_lowered name (enter name g memo) ≢ none
  unfolding find_lowered enter
  found_itself name g memo = ground (arith, text_eq_refl name)

  entry_laws : (name : Text) → FunctionLaws mlir (WithEntry name)
  entry_laws name = record {
    adds = λ m n inputs rets f s e (q, h). (
      enter_new (λ memo. find_lowered name memo ≢ none) n f s.functions e
          (found_after name n f s.functions q),
      laws.adds m n inputs rets f s e h,
    );
    resets = λ s (q, h). (q, laws.resets s h);
  }

  abbrev Few : ℕ → Invariant mlir
  Few = FewMissing mlir floats prog I laws

  abbrev FewWith : Text → ℕ → Invariant mlir
  FewWith name = FewMissing mlir floats prog (WithEntry name) (entry_laws name)

  -- The part of `LowerFunction` past the lookups adds the function's entry.
  Turns-defined :
      (k : ℕ) (fun : FunDef)
      → IsListed fun.name prog.funs
      → (σ : List Frame)
      → Turns mlir
          (WithoutEntry mlir floats prog I laws fun k)
          (FewWith fun.name k)
          σ
          (define_function mlir floats prog (lower_function mlir floats prog (suc k)) fun)
  Turns-defined k fun l σ =
      Turns-define_function mlir floats prog (FewWith fun.name k)
        (few_laws mlir floats prog (WithEntry fun.name) (entry_laws fun.name) k)
        (lower_function mlir floats prog (suc k))
        (Calls-lower_function mlir floats prog k (WithEntry fun.name) (entry_laws fun.name))
        (WithoutEntry mlir floats prog I laws fun k) fun
        λ m inputs rets f s h.
          let few = entry_kept mlir floats prog I laws fun k l m inputs rets f s h in
          (few.0, (found_itself fun.name f s.functions, few.1))

  known_or_defined :
      (k : ℕ) (fun : FunDef) (σ : List Frame) (s : State mlir)
      → IsListed fun.name prog.funs
      → (Few k).holds σ s
      → (o : Option Func) → find_lowered fun.name s.functions ≡ o
      → Kept mlir ((FewWith fun.name k).holds σ) (elim o [
        | some f ↦ done (func f, s)
        | none ↦ define_function mlir floats prog (lower_function mlir floats prog k) fun s
      ])
  known_or_defined k fun σ s l (few, h) (some f) e = (few, (λ absent. ground arith, h))
  known_or_defined zero fun σ s l (few, h) none e =
      elim (no_entry mlir floats prog I laws fun s l few e) [ ]
  known_or_defined (suc k) fun σ s l (few, h) none e =
      Kept-weaken ((FewWith fun.name k).holds σ) _ _ (λ s' p. (omega arith, p.1))
        ((Turns-defined k fun l σ).at s ((few, e), h))

  Turns-lower_function :
      (k : ℕ) (fun : FunDef) (σ : List Frame)
      → IsListed fun.name prog.funs
      → maybe_black_box fun.attrs.attrs ≡ ok none
      → Turns mlir (Few k) (FewWith fun.name k) σ (lower_function mlir floats prog (suc k) fun)
  unfolding lower_function lower_known ◌>>=◌ lift
  Turns-lower_function k fun σ l e = record {
    at = λ s h.
        subst
          (λ b.
            Kept mlir ((FewWith fun.name k).holds σ)
              ((lift b >>= lower_known mlir floats prog (lower_function mlir floats prog k) fun) s))
          (sym e) (known_or_defined k fun σ s l h (find_lowered fun.name s.functions) refl);
  }

  -- The loop of `main` over the functions before `fun`, `fun` itself, and those after.
  Turns-All :
      (n : ℕ) (before : List FunDef) (fun : FunDef) (after : List FunDef) (σ : List Frame)
      → All (λ (f : FunDef). IsListed f.name prog.funs) (before ++ fun ∷ after)
      → maybe_black_box fun.attrs.attrs ≡ ok none
      → Turns mlir (Few n) (FewWith fun.name n) σ (
          for_each
            (λ f. lower_function mlir floats prog (suc n) f >> pure tt)
            (before ++ fun ∷ after))
  unfolding for_each
  Turns-All n [] fun after σ (l, ls) e =
      Turns-Keeps->>= (Turns-Keeps->>= (Turns-lower_function n fun σ l e) λ c. Keeps-pure tt)
        λ u. Keeps-All mlir floats prog (WithEntry fun.name) (entry_laws fun.name) n after σ ls
  Turns-All n (f ∷ before) fun after σ (l, ls) e =
      Turns->>=
        (Keeps->>= (Keeps-lower_function mlir floats prog I laws n f l σ) λ c. Keeps-pure tt)
        λ u. Turns-All n before fun after σ ls e

  pub Kept-lowered :
      (before : List FunDef) (fun : FunDef) (after : List FunDef) (σ : List Frame) (s : State mlir)
      → prog.funs ≡ before ++ fun ∷ after
      → maybe_black_box fun.attrs.attrs ≡ ok none
      → I.holds σ s
      → Kept mlir ((WithEntry fun.name).holds σ) (lower_program mlir floats prog s)
  unfolding lower_program
  Kept-lowered before fun after σ s split e h =
      let listed =
        subst (λ funs. All (λ (f : FunDef). IsListed f.name prog.funs) funs) split
          (All-IsListed prog.funs) in
      Kept-weaken ((FewWith fun.name (length prog.funs)).holds σ) _ _ (λ s' p. p.1)
        (subst
          (λ funs. Kept mlir ((FewWith fun.name (length prog.funs)).holds σ) (
            for_each (λ f. lower_function mlir floats prog (suc (length prog.funs)) f >> pure tt)
              funs s))
          (sym split)
          ((Turns-All (length prog.funs) before fun after σ listed e).at s
            (count-length _ prog.funs, h)))
