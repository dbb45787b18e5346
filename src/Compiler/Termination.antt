-- ===== src/Compiler/Termination.antt =====
-- mlir-backend.cpp and `LowerFunction`: the depth of calls, and the entries of `functions`.
use mlir_backend.Prelude.{
  Result, ok, err, ℕ, zero, suc, ◌≡◌, ◌≢◌, refl, List, [], ◌∷◌, Option, none, some, Text, All,
  arith, length, count-length,
}
use mathlib.Core.Path.{subst}
use mlir_backend.Ir.Primitive.{FloatOps}
use mlir_backend.Ir.Syntax.{FunDef, Prog}
use mlir_backend.Compiler.Monad.{
  Outcome, done, thrown, out_of_fuel, pure, lift, ◌>>=◌, ◌>>◌, for_each,
}
use mlir_backend.Compiler.Mlir.{Mlir}
use mlir_backend.Compiler.State.{State, Lower}
use mlir_backend.Compiler.Nesting.{Frame, Runs, declares, invokes}
use mlir_backend.Compiler.Blackboxes.{BlackBox}
use mlir_backend.Compiler.Lower.{Callee, func, black_box}
use mlir_backend.Compiler.Functions.Entries.{enter_new}
use mlir_backend.Compiler.Functions.{
  find_lowered, define_function, lower_known, lower_function, lower_program,
}
use mlir_backend.Compiler.Missing.{All-IsListed}
use mlir_backend.Compiler.Definition.{
  FewMissing, no_entry, entry_stays, IsEntry, KeptWith-define_function,
}
use mlir_backend.Compiler.Keeps.{
  Calls, IsCallable, KeptWith, KeptWith-weaken, KeptWith-Kept, with_functions, any_state, Invariant,
  Kept, Kept-weaken, Keeps, Keeps-pure, Keeps->>=,
}
use mlir_backend.Compiler.Keeps.Lower.{IsListed}
use mlir_backend.Compiler.Keeps.Functions.{FunctionLaws}

-- What is found or defined can be called.
IsEntry-IsCallable :
    {mlir : Mlir} (name : Text) (c : Callee mlir.Func) (s : State mlir)
    → IsEntry {mlir = mlir} name c s
    → IsCallable name c s.functions
IsEntry-IsCallable name (func f) s h = h
IsEntry-IsCallable name (black_box b) s h = tt

module _ (mlir : Mlir) (floats : FloatOps) (prog : Prog) where
  open mlir use {Func}

  module _ (lower_call : FunDef → Lower mlir (Callee Func)) (fun : FunDef)
      (Q : Callee Func → State mlir → Type 0) (s : State mlir)
      (called : (b : BlackBox) → Q (black_box b) s)
      (found : (f : Func) → find_lowered fun.name s.functions ≡ some f → Q (func f) s)
      (defined : find_lowered fun.name s.functions ≡ none
        → KeptWith mlir Q (define_function mlir floats prog lower_call fun s)) where
    found_or_defined :
        (o : Option Func)
        → find_lowered fun.name s.functions ≡ o
        → KeptWith mlir Q (elim o [
          | some f ↦ done (func f, s)
          | none ↦ define_function mlir floats prog lower_call fun s
        ])
    found_or_defined (some f) e = found f e
    found_or_defined none e = defined e

    KeptWith-lower_known :
        (b : Option BlackBox) → KeptWith mlir Q (lower_known mlir floats prog lower_call fun b s)
    unfolding lower_known
    KeptWith-lower_known (some b) = called b
    KeptWith-lower_known none = found_or_defined (find_lowered fun.name s.functions) refl

    KeptWith-lifted :
        (r : Result (Option BlackBox))
        → KeptWith mlir Q ((lift r >>= lower_known mlir floats prog lower_call fun) s)
    unfolding lift ◌>>=◌
    KeptWith-lifted (ok b) = KeptWith-lower_known b
    KeptWith-lifted (err e) = tt

  pub Calls-lower_function :
      (k : ℕ) (I : Invariant mlir) (laws : FunctionLaws mlir I) (fun : FunDef)
      → IsListed fun.name prog.funs
      → (σ : List Frame)
      → Calls mlir
          (FewMissing mlir floats prog I laws k)
          σ
          fun.name
          (lower_function mlir floats prog (suc k) fun)
  unfolding lower_function
  Calls-lower_function zero I laws fun l σ = record {
    at = λ s h.
        KeptWith-lifted _ fun _ s (λ b. (h, tt)) (λ f e. (h, e))
          (λ e. elim (no_entry mlir floats prog I laws fun s l (h.0) e) [ ]) _;
  }
  Calls-lower_function (suc k) I laws fun l σ = record {
    at = λ s h.
        KeptWith-lifted _ fun _ s (λ b. (h, tt)) (λ f e. (h, e))
          (λ e.
            KeptWith-weaken
              (λ c s'.
                (FewMissing mlir floats prog I laws k).holds σ s'
                × IsEntry {mlir = mlir} fun.name c s')
              (λ c s'.
                (FewMissing mlir floats prog I laws (suc k)).holds σ s'
                × IsCallable fun.name c s'.functions)
              _ (λ c s' q. ((omega arith, q.0.1), IsEntry-IsCallable fun.name c s' (q.1)))
              (KeptWith-define_function mlir floats prog k (lower_function mlir floats prog (suc k))
                (Calls-lower_function k) I laws σ fun s l ((h.0, e), h.1)))
          _;
  }

module _ (mlir : Mlir) (floats : FloatOps) (prog : Prog) (I : Invariant mlir)
    (laws : FunctionLaws mlir I) where
  pub Keeps-lower_function :
      (k : ℕ) (fun : FunDef)
      → IsListed fun.name prog.funs
      → (σ : List Frame)
      → Keeps mlir
          (FewMissing mlir floats prog I laws k)
          σ
          (lower_function mlir floats prog (suc k) fun)
  Keeps-lower_function k fun l σ = record {
    at = λ s h.
        KeptWith-Kept
          (λ c s'.
            (FewMissing mlir floats prog I laws k).holds σ s' × IsCallable fun.name c s'.functions)
          _ _ (λ c s' q. q.0) ((Calls-lower_function mlir floats prog k I laws fun l σ).at s h);
  }

  pub Keeps-All :
      (n : ℕ) (funs : List FunDef) (σ : List Frame)
      → All (λ (f : FunDef). IsListed f.name prog.funs) funs
      → Keeps mlir
          (FewMissing mlir floats prog I laws n)
          σ
          (for_each (λ f. lower_function mlir floats prog (suc n) f >> pure tt) funs)
  unfolding for_each
  Keeps-All n [] σ l = Keeps-pure tt
  Keeps-All n (f ∷ fs) σ (l, ls) =
      Keeps->>= (Keeps->>= (Keeps-lower_function n f l σ) λ c. Keeps-pure tt)
        λ u. Keeps-All n fs σ ls

  -- The rule for the whole program.
  pub Kept-lower_program :
      (σ : List Frame) (s : State mlir)
      → I.holds σ s
      → Kept mlir (I.holds σ) (lower_program mlir floats prog s)
  unfolding lower_program
  Kept-lower_program σ s h =
      Kept-weaken ((FewMissing mlir floats prog I laws (length prog.funs)).holds σ) _ _
        (λ s' p. p.1)
        ((Keeps-All (length prog.funs) prog.funs σ (All-IsListed prog.funs)).at s
          (count-length _ prog.funs, h))

-- A property of the lowered functions that an entry for a missing name keeps.
pub functions_laws :
    (mlir : Mlir) (R : List (Text × mlir.Func) → Type 0)
    → ((n : Text) (g : mlir.Func) (memo : List (Text × mlir.Func))
        → find_lowered n memo ≡ none
        → R memo
        → R ((n, g) ∷ memo))
    → FunctionLaws mlir (with_functions R any_state)
functions_laws mlir R kept = record {
  adds = λ m name inputs rets f s e (q, h).
      (enter_new R name f s.functions e (kept name f s.functions e q), h);
  resets = λ s h. h;
}

module _ (mlir : Mlir) (floats : FloatOps) (prog : Prog) where
  functions_after :
      (R : List (Text × mlir.Func) → Type 0)
      → ((n : Text) (g : mlir.Func) (memo : List (Text × mlir.Func))
          → find_lowered n memo ≡ none
          → R memo
          → R ((n, g) ∷ memo))
      → (s : State mlir) {s' : State mlir} → R s.functions
      → lower_program mlir floats prog s ≡ done (tt, s')
      → R s'.functions
  functions_after R kept s h e =
      (subst (Kept mlir _) e (
        Kept-lower_program mlir floats prog (with_functions R any_state)
          (functions_laws mlir R kept) [] s (h, tt))).0

  -- Whatever the program and the state it starts from, the lowering of the program does not run out
  -- of fuel: it returns or throws.
  pub lower_program-returns : (s : State mlir) → lower_program mlir floats prog s ≢ out_of_fuel
  lower_program-returns s e =
      never _ (lower_program mlir floats prog s)
        (Kept-lower_program mlir floats prog any_state
          (record { adds = λ m name inputs rets f s e h. h; resets = λ s h. h }) [] s tt)
        e
    where
      never :
          (Q : State mlir → Type 0) (o : Outcome (Unit {0} × State mlir))
          → Kept mlir Q o
          → o ≢ out_of_fuel
      never Q (done _) h e = cc
      never Q (thrown _) h e = cc
      never Q out_of_fuel h e = h

  -- Where the lowering of a program returns, a function that was lowered before is still found
  -- under its name: its entry is never replaced.
  pub lower_program-find_lowered :
      (s : State mlir) {s' : State mlir} (name : Text) (f : mlir.Func)
      → find_lowered name s.functions ≡ some f
      → lower_program mlir floats prog s ≡ done (tt, s')
      → find_lowered name s'.functions ≡ some f
  lower_program-find_lowered s name f h e =
      functions_after (λ memo. find_lowered name memo ≡ some f) (entry_stays name f) s h e

  -- The calls so far are well nested, and the builder stands where they lead.
  abbrev nested : Invariant mlir
  nested = record {
    holds = λ σ s. Runs [] s.log σ;
    calls = λ m s step b h. Runs.then h step refl;
    invokes = λ f args m s k h. Runs.then h invokes refl;
    binds = λ name v s h. h;
    restores = λ s s' h h'. h';
  }

  -- Where the lowering of a program returns, its calls to MLIR are well nested, if those before it
  -- were: each operation is created in a region that is open and has no terminator yet, each region
  -- gets one terminator, of its own kind, and is closed after it, and the calls end outside all
  -- regions.
  pub lower_program-Runs :
      (s : State mlir) {s' : State mlir}
      → Runs [] s.log []
      → lower_program mlir floats prog s ≡ done (tt, s')
      → Runs [] s'.log []
  lower_program-Runs s h e = subst (Kept mlir _) e (
      Kept-lower_program mlir floats prog nested
        (record {
          adds = λ m name inputs rets f s e h. Runs.then h declares refl;
          resets = λ s h. h;
        })
        [] s h)
