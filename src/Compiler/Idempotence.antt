-- ===== src/Compiler/Idempotence.antt =====
-- compiler.hpp `LowerFunction`, twice on one function.
use mlir_backend.Prelude.{
  ℕ, zero, suc, ◌≤◌, ◌≡◌, refl, sym, [], Option, none, some, ok, err, Result,
}
use mathlib.Core.Path.{subst}
use mlir_backend.Ir.Primitive.{FloatOps}
use mlir_backend.Ir.Syntax.{FunDef, Prog}
use mlir_backend.Compiler.Monad.{done, lift, ◌>>=◌}
use mlir_backend.Compiler.Mlir.{Mlir}
use mlir_backend.Compiler.State.{State}
use mlir_backend.Compiler.Blackboxes.{BlackBox, maybe_black_box}
use mlir_backend.Compiler.Lower.{Callee, func, black_box}
use mlir_backend.Compiler.Functions.{find_lowered, define_function, lower_known, lower_function}
use mlir_backend.Compiler.Missing.{missing}
use mlir_backend.Compiler.Keeps.{KeptWith-weaken, any_state, KeptWith}
use mlir_backend.Compiler.Keeps.Lower.{IsListed}
use mlir_backend.Compiler.Keeps.Functions.{FunctionLaws}
use mlir_backend.Compiler.Definition.{IsEntry, no_entry, KeptWith-define_function}
use mlir_backend.Compiler.Termination.{Calls-lower_function}

module _ (mlir : Mlir) (floats : FloatOps) (prog : Prog) where
  open mlir use {Func}

  any_laws : FunctionLaws mlir any_state
  any_laws = record { adds = λ m n inputs rets f s e h. tt; resets = λ s h. tt }

  -- Lowering the function again gives the same, in the same state.
  abbrev IsKnown : FunDef → Callee Func → State mlir → Type 0
  IsKnown fun c s = (n : ℕ) → lower_function mlir floats prog (suc n) fun s ≡ done (c, s)

  find_lowered-IsKnown :
      (fun : FunDef) (f : Func) (s : State mlir)
      → maybe_black_box fun.attrs.attrs ≡ ok none
      → find_lowered fun.name s.functions ≡ some f
      → IsKnown fun (func f) s
  unfolding lower_function lower_known ◌>>=◌ lift
  find_lowered-IsKnown fun f s e found n =
      subst
        (λ b.
          (lift b >>= lower_known mlir floats prog (lower_function mlir floats prog n) fun) s
          ≡ done (func f, s))
        (sym e)
        (subst
          (λ o.
            (elim o [
              | some g ↦ done (func g, s)
              | none ↦ define_function mlir floats prog (lower_function mlir floats prog n) fun s
            ])
            ≡ done (func f, s))
          (sym found) refl)

  maybe_black_box-IsKnown :
      (fun : FunDef) (b : BlackBox) (s : State mlir)
      → maybe_black_box fun.attrs.attrs ≡ ok (some b)
      → IsKnown fun (black_box b) s
  unfolding lower_function lower_known ◌>>=◌ lift
  maybe_black_box-IsKnown fun b s e n =
      subst
        (λ r.
          (lift r >>= lower_known mlir floats prog (lower_function mlir floats prog n) fun) s
          ≡ done (black_box b, s))
        (sym e) refl

  IsEntry-IsKnown :
      (fun : FunDef) (c : Callee Func) (s : State mlir)
      → maybe_black_box fun.attrs.attrs ≡ ok none
      → IsEntry {mlir = mlir} fun.name c s
      → IsKnown fun c s
  IsEntry-IsKnown fun (func f) s e h = find_lowered-IsKnown fun f s e h
  IsEntry-IsKnown fun (black_box b) s e h = elim h [ ]

  found_or_defined :
      (k : ℕ) (fun : FunDef) (s : State mlir)
      → IsListed fun.name prog.funs
      → missing prog.funs s.functions ≤ k
      → maybe_black_box fun.attrs.attrs ≡ ok none
      → (o : Option Func) → find_lowered fun.name s.functions ≡ o
      → KeptWith mlir (IsKnown fun) (elim o [
        | some f ↦ done (func f, s)
        | none ↦ define_function mlir floats prog (lower_function mlir floats prog k) fun s
      ])
  found_or_defined k fun s l few e (some f) found = find_lowered-IsKnown fun f s e found
  found_or_defined zero fun s l few e none found =
      elim (no_entry mlir floats prog any_state any_laws fun s l few found) [ ]
  found_or_defined (suc k) fun s l few e none found =
      KeptWith-weaken _ _ _ (λ c s' h. IsEntry-IsKnown fun c s' e (h.1))
        (KeptWith-define_function mlir floats prog k (lower_function mlir floats prog (suc k))
          (Calls-lower_function mlir floats prog k) any_state any_laws [] fun s l
          ((few, found), tt))

  KeptWith-lower_function :
      (k : ℕ) (fun : FunDef) (s : State mlir)
      → IsListed fun.name prog.funs
      → missing prog.funs s.functions ≤ k
      → (r : Result (Option BlackBox)) → maybe_black_box fun.attrs.attrs ≡ r
      → KeptWith mlir
          (IsKnown fun)
          ((lift r >>= lower_known mlir floats prog (lower_function mlir floats prog k) fun) s)
  unfolding lower_known ◌>>=◌ lift
  KeptWith-lower_function k fun s l few (err _) e = tt
  KeptWith-lower_function k fun s l few (ok (some b)) e = maybe_black_box-IsKnown fun b s e
  KeptWith-lower_function k fun s l few (ok none) e =
      found_or_defined k fun s l few e (find_lowered fun.name s.functions) refl

  -- Where a function of the program is lowered, with fuel for those that have no entry yet, lowering
  -- it again from the state that results gives the same callee, and leaves that state as it is: no
  -- second call to MLIR is made.
  pub lower_function-again :
      (k : ℕ) (fun : FunDef) (s : State mlir) {s' : State mlir} {c : Callee Func}
      → IsListed fun.name prog.funs
      → missing prog.funs s.functions ≤ k
      → lower_function mlir floats prog (suc k) fun s ≡ done (c, s')
      → (n : ℕ) → lower_function mlir floats prog (suc n) fun s' ≡ done (c, s')
  unfolding lower_function
  lower_function-again k fun s l few e =
      subst (KeptWith mlir (IsKnown fun)) e
        (KeptWith-lower_function k fun s l few (maybe_black_box fun.attrs.attrs) refl)
