-- ===== src/Compiler/Refinement/Programs.antt =====
-- The loop of mlir-backend.cpp over the functions of a program whose functions are of integer
-- scalars and conditionals.
use mlir_backend.Prelude.{
  ℕ, suc, ◌≡◌, ap, false, List, [], ◌∷◌, Option, none, some, All, length, ok,
}
use mlir_backend.Ir.Primitive.{FloatOps}
use mlir_backend.Ir.Core.{IrType}
use mlir_backend.Ir.Syntax.{FParam, RetAls, FunDef, Prog}
use mlir_backend.Compiler.Monad.{Action, done, lift, pure, ◌>>=◌, ◌>>◌, for_each}
use mlir_backend.Compiler.Mlir.{Mlir}
use mlir_backend.Compiler.State.{State, Lower}
use mlir_backend.Compiler.Blackboxes.{maybe_black_box}
use mlir_backend.Compiler.Lower.{Callee, func}
use mlir_backend.Compiler.Functions.{
  find_lowered, define_function, lower_known, lower_function, lower_program,
}
use mlir_backend.Compiler.Refinement.Words.{Number}
use mlir_backend.Compiler.Refinement.Source.{eval_function}
use mlir_backend.Compiler.Refinement.Target.{Semantics}
use mlir_backend.Compiler.Refinement.Total.{
  Gives, Gives->>=, Gives-mono, Gives-after_done, Gives-eq-done,
}
use mlir_backend.Compiler.Refinement.Signatures.{HaveTypes, Entry}
use mlir_backend.Compiler.Refinement.Functions.{Gives-define_function}

-- The function is no black box, and its types fit: on arguments of its parameters' widths, which do
-- not matter otherwise, its statements have types, and its results have its result types.
pub record IsScalar (prog : Prog) (fun : FunDef) : Type 0 where
  pub arguments : List Number
  pub results : List Number
  pub not_black_box : maybe_black_box fun.attrs.attrs ≡ ok none
  pub params_fit : HaveTypes (λ (p : FParam). p.dec) fun.params arguments
  pub results_fit : HaveTypes (λ (t : IrType × RetAls). t.0) fun.ret_type results
  pub typed : eval_function false prog fun arguments ≡ some results

-- The action returns.
abbrev Succeeds : {S A : Type 0} → Action S A → S → Type 0
Succeeds {S} {A} m s = Gives (λ (a : A) (s' : S). Unit {0}) (m s)

Succeeds->>= :
    {S A B : Type 0} (m : Action S A) (f : A → Action S B) (s : S)
    → Succeeds m s
    → ((a : A) (s : S) → Succeeds (f a) s)
    → Succeeds (m >>= f) s
Succeeds->>= {S} {A} {B} m f s h k =
    Gives->>= (λ (a : A) (s' : S). Unit {0}) (λ (b : B) (s' : S). Unit {0}) m f s h λ a s' _. k a s'

Succeeds-for_each :
    {S A : Type 0} (P : A → Type 0) (f : A → Action S (Unit {0})) (items : List A) (s : S)
    → All P items
    → ((a : A) (s : S) → P a → Succeeds (f a) s)
    → Succeeds (for_each f items) s
unfolding for_each pure
Succeeds-for_each P f [] s h k = tt
Succeeds-for_each P f (a ∷ items) s (h, hs) k =
    Succeeds->>= (f a) _ s (k a s h) λ u s'. Succeeds-for_each P f items s' hs k

module _ (mlir : Mlir) (sem : Semantics mlir) (floats : FloatOps) (prog : Prog)
    (entry : (arguments : List Number) → Entry mlir sem false arguments) where
  open mlir use {Func}

  module _ (lower_call : FunDef → Lower mlir (Callee Func)) (fun : FunDef) (s : State mlir)
      (scalar : IsScalar prog fun) where
    found_or_defined :
        (o : Option Func)
        → Gives
            (λ (c : Callee Func) (s' : State mlir). Unit {0})
            (elim o [
              | some f ↦ done (func f, s)
              | none ↦ define_function mlir floats prog lower_call fun s
            ])
    found_or_defined (some f) = tt
    found_or_defined none =
        Gives-mono (define_function mlir floats prog lower_call fun s) (λ c s' _. tt)
          (Gives-define_function mlir sem floats prog lower_call false fun scalar.arguments
            scalar.results s (entry scalar.arguments) scalar.params_fit scalar.results_fit
            scalar.typed)

    Succeeds-lower_known : Succeeds (lower_known mlir floats prog lower_call fun none) s
    unfolding lower_known
    Succeeds-lower_known = found_or_defined (find_lowered fun.name s.functions)

  Succeeds-lower_function :
      (fuel : ℕ) (fun : FunDef) (s : State mlir)
      → IsScalar prog fun
      → Succeeds (lower_function mlir floats prog (suc fuel) fun) s
  unfolding lower_function lift
  Succeeds-lower_function fuel fun s scalar =
      Gives-after_done (λ (c : Callee Func) (s' : State mlir). Unit {0})
        (lift (maybe_black_box fun.attrs.attrs))
        (lower_known mlir floats prog (lower_function mlir floats prog fuel) fun) s
        (ap (λ b. lift b s) scalar.not_black_box)
        (Succeeds-lower_known (lower_function mlir floats prog fuel) fun s scalar)

  -- A program of functions of integer scalars and conditionals whose types fit is lowered from any
  -- state, whatever the functions compute: nothing is thrown and the fuel is enough.
  pub lower_program-succeeds :
      (s : State mlir)
      → All (IsScalar prog) prog.funs
      → (s' : State mlir) × (lower_program mlir floats prog s ≡ done (tt, s'))
  unfolding lower_program pure
  lower_program-succeeds s scalars =
      let (_, s', e, _) = Gives-eq-done (lower_program mlir floats prog s) (
        Succeeds-for_each (IsScalar prog)
          (λ f. lower_function mlir floats prog (suc (length prog.funs)) f >> pure tt) prog.funs s
          scalars
          λ f s' scalar.
            Succeeds->>= (lower_function mlir floats prog (suc (length prog.funs)) f) _ s'
              (Succeeds-lower_function (length prog.funs) f s' scalar) λ c s''. tt) in
      (s', e)
