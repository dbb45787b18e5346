-- ===== src/Compiler/Refinement/Functions.antt =====
-- compiler.hpp `LowerFunction` on functions of integer scalars.
use mlir_backend.Prelude.{
  Bool, ℕ, none, suc, ap, ok, ◌≡◌, refl, true, List, [], ◌∷◌, ◌++◌, some, Text,
}
use mathlib.Core.Path.{◌∙◌}
use mlir_backend.Ir.Primitive.{FloatOps}
use mlir_backend.Ir.Core.{IrType}
use mlir_backend.Ir.Syntax.{RetAls, FParam, FunDef, Prog}
use mlir_backend.Compiler.Monad.{Outcome, thrown, out_of_fuel, lift, map_action, done, ◌>>=◌, pure}
use mlir_backend.Compiler.Env
use mlir_backend.Compiler.Mlir.{Mlir, Op}
use mlir_backend.Compiler.State.{
  State, Lower, Values, func_created, func_opened, in_local, emit, zip_shortest, bind, emit_unit,
}
use mlir_backend.Compiler.Monad.{for_each}
use mlir_backend.Compiler.Types.{lower_ty}
use mlir_backend.Compiler.Blackboxes.{maybe_black_box}
use mlir_backend.Compiler.Lower.{Callee, func, lower_body, lower_stms}
use mlir_backend.Compiler.Functions.{
  enter, is_some, find_lowered, create_function, annotate, define_function, lower_known,
  lower_function, function_body, open_function, close_function,
}
use mlir_backend.Compiler.Refinement.Words.{Number}
use mlir_backend.Compiler.Refinement.Source.{bind_numbers, eval_stms, eval_function}
use mlir_backend.Compiler.Refinement.Target.{AllDenote, Semantics}
use mlir_backend.Compiler.Refinement.Total.{
  Gives, Gives-after_done, Gives-if, Gives->>=, Gives-eq-done,
}
use mlir_backend.Compiler.Refinement.Later.{AllAt}
use mlir_backend.Compiler.Refinement.Simulation.{
  Advances, AllDenote-Later, nothing_bound, Simulates-nothing_bound,
}
use mlir_backend.Compiler.Refinement.Subexps.{then_try-eq-some}
use mlir_backend.Compiler.Refinement.Bindings.{
  Advances-bind_pairs, bound-length, Gives-zip_equal->>=,
}
use mlir_backend.Compiler.Refinement.Bodies.{Advances-lower_stms, ComputesAll-lower_body}
use mlir_backend.Compiler.Refinement.Signatures.{
  HaveTypes, types_of, Entry, map_action-lower_ty, size_args-scalar,
}

-- The last that was created is a return of values that denote the numbers, and the end of the
-- function.
abbrev pub Returns : (mlir : Mlir) → Semantics mlir → Bool → List Number → State mlir → Type 0
Returns mlir sem run xs s =
    (vs : Values mlir) × (m : mlir.Module) × ((s.ir
        ≡ mlir.close_func ((mlir.create (Op.func_return vs) m).1))
      × AllDenote mlir sem.bits run m vs xs)

-- The function that the code creates for one of these argument and result types.
abbrev pub created_function :
    (mlir : Mlir) → FunDef → List Number → List Number → State mlir → mlir.Func
created_function mlir fun arguments xs s =
    (mlir.create_func fun.name (types_of arguments) (types_of xs) s.ir).0

module _ (mlir : Mlir) (sem : Semantics mlir) (floats : FloatOps) (prog : Prog)
    (lower_call : FunDef → Lower mlir (Callee mlir.Func)) (run : Bool) where
  open mlir use {Value, Func, Module}

  Gives-function_body :
      (fun : FunDef) (f : Func) (arguments xs : List Number) (s : State mlir)
      → AllDenote mlir sem.bits run
          ((mlir.open_func f s.ir).1)
          ((mlir.open_func f s.ir).0)
          arguments
      → eval_function run prog fun arguments ≡ some xs
      → Gives
          (λ (u : Unit {0}) (s' : State mlir). Returns mlir sem run xs s')
          (function_body mlir floats prog lower_call fun f s)
  unfolding function_body open_function close_function emit eval_function pure ◌>>=◌
  Gives-function_body fun f arguments xs s ds h =
      let (ρ, h₁, h₂) = then_try-eq-some (eval_stms prog.funs run nothing_bound prog.consts) _ h in
      let name_of : FParam → Text = λ p. p.name in
      let (ρ', h₃, h₄) = then_try-eq-some (bind_numbers name_of ρ fun.params arguments) _ h₂ in
      let R = λ (u : Unit {0}) (s' : State mlir). Returns mlir sem run xs s' in
      let args = (mlir.open_func f s.ir).0 in
      let entry : State mlir = record s {
        ir = (mlir.open_func f s.ir).1;
        log = s.log ++ func_opened f ∷ [];
        subexps = Env.empty;
      } in
      Gives->>= (λ (u : Unit {0}) (s' : State mlir). Advances mlir sem run nothing_bound ρ entry s')
        R (lower_stms mlir floats prog lower_call prog.consts) _ entry
        (Advances-lower_stms mlir sem floats prog lower_call prog.consts run nothing_bound ρ entry
          (Simulates-nothing_bound mlir sem run entry) h₁)
        λ u s₁ a.
          let ds₁ = AllDenote-Later mlir sem run a.later ds in
          Gives-zip_equal->>= mlir sem R fun.params args _ s₁
            (bound-length mlir sem name_of run s₁.ir ρ fun.params args arguments ds₁ h₃)
            (Gives->>= (λ (u : Unit {0}) (s' : State mlir). Advances mlir sem run ρ ρ' s₁ s') R
              (for_each (λ (p : FParam × Value). bind mlir p.0.name p.1)
                (zip_shortest mlir fun.params args))
              _ s₁
              (Advances-bind_pairs mlir sem name_of run ρ ρ' fun.params args arguments s₁
                a.simulates ds₁ h₃)
              λ u s₂ a'.
                Gives->>= (AllAt mlir sem run ρ' xs s₂) R
                  (lower_body mlir floats prog lower_call fun.body) _ s₂
                  (ComputesAll-lower_body mlir sem floats prog lower_call fun.body run ρ' xs s₂
                    a'.simulates h₄)
                  λ vs s₃ (ds₃, l). (vs, s₃.ir, (refl, ds₃)))

  Gives-annotate :
      (f : Func) (fun : FunDef) (arguments : List Number) (s : State mlir)
      → HaveTypes (λ (p : FParam). p.dec) fun.params arguments
      → Gives (λ (u : Unit {0}) (s' : State mlir). Unit) (annotate mlir floats prog f fun s)
  unfolding annotate lift ◌>>=◌ for_each pure emit
  Gives-annotate f fun arguments s h = rw (size_args-scalar 0 [] fun.params arguments h) (
      Gives-if (λ (u : Unit {0}) (s' : State mlir). Unit {0}) (is_some fun.entry)
        (lift (ok []) >>= for_each λ (a : ℕ × List ℕ). emit_unit mlir (Op.arg_attr f a.0 a.1))
        (emit_unit mlir (Op.func_private f)) s tt tt)

  -- The context is put back, and the module stays.
  Gives-restored :
      {A : Type 0} (xs : List Number) (ctx : Env.Env Value) (o : Outcome (A × State mlir))
      → Gives (λ (a : A) (s' : State mlir). Returns mlir sem run xs s') o
      → Gives
          (λ (a : A) (s' : State mlir). Returns mlir sem run xs s')
          (elim o [
            | done (a, s') ↦ done (a, record s' { subexps = ctx })
            | thrown e ↦ thrown e
            | out_of_fuel ↦ out_of_fuel
          ])
  Gives-restored xs ctx (done (a, s')) h = h
  Gives-restored xs ctx (thrown e) h = h
  Gives-restored xs ctx out_of_fuel h = h

  pub Gives-define_function :
      (fun : FunDef) (arguments xs : List Number) (s : State mlir)
      → Entry mlir sem run arguments
      → HaveTypes (λ (p : FParam). p.dec) fun.params arguments
      → HaveTypes (λ (t : IrType × RetAls). t.0) fun.ret_type xs
      → eval_function run prog fun arguments ≡ some xs
      → Gives
          (λ (c : Callee Func) (s' : State mlir).
            (c ≡ func (created_function mlir fun arguments xs s)) × Returns mlir sem run xs s')
          (define_function mlir floats prog lower_call fun s)
  unfolding define_function create_function in_local pure ◌>>=◌
  Gives-define_function fun arguments xs s entry hp hr h =
      let R : Callee Func → State mlir → Type 0 = λ c s'.
        (c ≡ func (created_function mlir fun arguments xs s)) × Returns mlir sem run xs s' in
      let f = created_function mlir fun arguments xs s in
      let s₁ : State mlir = record s {
        ir = (mlir.create_func fun.name (types_of arguments) (types_of xs) s.ir).1;
        log = s.log ++ func_created fun.name (types_of arguments) (types_of xs) ∷ [];
        functions = enter fun.name f s.functions;
      } in
      Gives-after_done R
        (map_action (λ (t : IrType × RetAls). lift (lower_ty mlir t.0)) fun.ret_type) _ s
        (map_action-lower_ty mlir (λ (t : IrType × RetAls). t.0) fun.ret_type xs s hr)
        (Gives-after_done R (map_action (λ (p : FParam). lift (lower_ty mlir p.dec)) fun.params) _ s
          (map_action-lower_ty mlir (λ (p : FParam). p.dec) fun.params arguments s hp)
          (Gives->>= (λ (u : Unit {0}) (s' : State mlir). Unit {0}) R
            (annotate mlir floats prog f fun) _ s₁ (Gives-annotate f fun arguments s₁ hp)
            λ u s₂ _.
              Gives->>= (λ (u : Unit {0}) (s' : State mlir). Returns mlir sem run xs s') R
                (in_local mlir (function_body mlir floats prog lower_call fun f)) _ s₂
                (Gives-restored xs s₂.subexps (function_body mlir floats prog lower_call fun f s₂) (
                  Gives-function_body fun f arguments xs s₂
                    (entry.entry_block f s₂.ir (entry.created_types _ _ _ s.ir)) h))
                λ u s₃ r. (refl, r)))

-- Where a function of integer scalars and conditionals is lowered that is no black box and has no
-- entry yet, in a run that calls it with arguments of its parameters' types for which it has a
-- meaning, of its result types: nothing is thrown, the callee is the function that was created
-- under its name with these types, and what it returns denotes what the source function means.
pub lower_function-Returns :
    (mlir : Mlir) (sem : Semantics mlir) (floats : FloatOps) (prog : Prog) (fuel : ℕ) (fun : FunDef)
    (arguments xs : List Number) (s : State mlir)
    → Entry mlir sem true arguments
    → maybe_black_box fun.attrs.attrs ≡ ok none
    → find_lowered fun.name s.functions ≡ none
    → HaveTypes (λ (p : FParam). p.dec) fun.params arguments
    → HaveTypes (λ (t : IrType × RetAls). t.0) fun.ret_type xs
    → eval_function true prog fun arguments ≡ some xs
    → (s' : State mlir) × (lower_function mlir floats prog (suc fuel) fun s
        ≡ done (func (created_function mlir fun arguments xs s), s'))
      × Returns mlir sem true xs s'
unfolding lower_function lower_known lift
lower_function-Returns mlir sem floats prog fuel fun arguments xs s entry hb hf hp hr h =
    let R : Callee mlir.Func → State mlir → Type 0 =
      λ c s'. (c ≡ func (created_function mlir fun arguments xs s)) × Returns mlir sem true xs s' in
    let known : Gives R
        (lower_known mlir floats prog (lower_function mlir floats prog fuel) fun none s) =
      rw (hf, Gives)
        (Gives-define_function mlir sem floats prog (lower_function mlir floats prog fuel) true fun
          arguments xs s entry hp hr h) in
    let (c, s', e, (ec, r)) = Gives-eq-done (lower_function mlir floats prog (suc fuel) fun s) (
      Gives-after_done R (lift (maybe_black_box fun.attrs.attrs))
        (lower_known mlir floats prog (lower_function mlir floats prog fuel) fun) s
        (ap (λ b. lift b s) hb) known) in
    (s', e ∙ ap (λ c. done (c, s')) ec, r)
