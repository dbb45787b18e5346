-- ===== src/Compiler/Keeps/Functions.antt =====
-- The rules for `LowerFunction`, for an invariant that also allows for a new function's entry and for
-- the empty context that its body starts with.
use mlir_backend.Prelude.{◌≡◌, List, [], ◌∷◌, ◌++◌, none, Text}
use mlir_backend.Ir.Primitive.{FloatOps}
use mlir_backend.Ir.Syntax.{FunDef, Prog}
use mlir_backend.Compiler.Monad.{pure, ◌>>=◌}
use mlir_backend.Compiler.Env
use mlir_backend.Compiler.Mlir.{Mlir, MlirType, Op}
use mlir_backend.Compiler.State.{
  State, created, func_created, Lower, Values, in_local, emit, emit_unit,
}
use mlir_backend.Compiler.Nesting.{
  IsBuilt, Frame, running, ended, func_body, IsMark, marks, enters, leaves,
}
use mlir_backend.Compiler.Lower.{Callee}
use mlir_backend.Compiler.Functions.{
  enter, find_lowered, create_function, open_function, close_function, annotate, function_body,
  define_function,
}
use mlir_backend.Compiler.Keeps.Rules.{
  Calls, Invariant, logged, Kept, Kept->>=, Keeps, Moves, Keeps-Moves,
}
use mlir_backend.Compiler.Keeps.Basic.{Keeps-in_local, value_rules}
use mlir_backend.Compiler.Keeps.Lower.{IsListed, Keeps-lower_body, Keeps-lower_stms}

-- The state after the creation of a function.
abbrev pub entered :
    (mlir : Mlir)
    → mlir.Module
    → Text
    → List MlirType
    → List MlirType
    → mlir.Func
    → State mlir
    → State mlir
entered mlir m name inputs rets f s = record s {
  ir = m;
  log = s.log ++ func_created name inputs rets ∷ [];
  functions = enter name f s.functions;
}

-- What a function's definition needs of an invariant.
pub record FunctionLaws (mlir : Mlir) (I : Invariant mlir) : Type 0 where
  pub adds :
      {σ : List Frame} (m : mlir.Module) (name : Text) (inputs rets : List MlirType) (f : mlir.Func)
      (s : State mlir)
      → find_lowered name s.functions ≡ none
      → I.holds σ s
      → I.holds σ (entered mlir m name inputs rets f s)
  pub resets :
      {σ : List Frame} (s : State mlir) → I.holds σ s → I.holds σ (record s { subexps = Env.empty })

-- The action starts where one invariant holds and ends where another does, at the same place.
pub record Turns (mlir : Mlir) {A : Type 0} (I J : Invariant mlir) (σ : List Frame)
    (m : Lower mlir A) : Type 0 where
  pub at : (s : State mlir) → I.holds σ s → Kept mlir (J.holds σ) (m s)

pub Turns->>= :
    {mlir : Mlir} {I J : Invariant mlir} {σ : List Frame} {A B : Type 0} {m : Lower mlir A}
    {f : A → Lower mlir B}
    → Keeps mlir I σ m
    → ((a : A) → Turns mlir I J σ (f a))
    → Turns mlir I J σ (m >>= f)
Turns->>= {m = m} {f = f} km kf = record {
  at = λ s h. Kept->>= _ _ m f s (km.at s h) λ a s' q. (kf a).at s' q;
}

pub Turns-Keeps->>= :
    {mlir : Mlir} {I J : Invariant mlir} {σ : List Frame} {A B : Type 0} {m : Lower mlir A}
    {f : A → Lower mlir B}
    → Turns mlir I J σ m
    → ((a : A) → Keeps mlir J σ (f a))
    → Turns mlir I J σ (m >>= f)
Turns-Keeps->>= {m = m} {f = f} km kf = record {
  at = λ s h. Kept->>= _ _ m f s (km.at s h) λ a s' q. (kf a).at s' q;
}

module _ (mlir : Mlir) (floats : FloatOps) (prog : Prog) (I : Invariant mlir)
    (laws : FunctionLaws mlir I) {σ : List Frame} where
  open mlir use {Value, Func}

  Moves-open_function->>= :
      {B : Type 0} {τ : List Frame} (f : Func) {k : Values mlir → Lower mlir B}
      → ((vs : Values mlir) → Moves mlir I (running func_body ∷ σ) τ (k vs))
      → Moves mlir I σ τ (open_function mlir floats prog f >>= k)
  unfolding open_function ◌>>=◌
  Moves-open_function->>= f kk = record {
    at = λ s h. (kk _).at _ (laws.resets (logged mlir _ _ s) (I.calls _ s enters tt h));
  }

  Moves-close_function : Moves mlir I (ended func_body ∷ σ) σ (close_function mlir floats prog)
  unfolding close_function
  Moves-close_function = record { at = λ s h. I.calls _ s leaves tt h }

  Keeps-mark :
      (op : Op Value Func)
      → IsMark op
      → IsBuilt {V = Value} {F = Func} (created op)
      → Keeps mlir I σ (emit_unit mlir op)
  unfolding emit pure ◌>>=◌
  Keeps-mark op p b = record { at = λ s h. I.calls _ s (marks p) b h }

  pub Keeps-annotate : (f : Func) (fun : FunDef) → Keeps mlir I σ (annotate mlir floats prog f fun)
  unfolding annotate
  Keeps-annotate f fun = search (value_rules, Keeps-mark) depth 12

-- `J` holds before the new function has its entry, and `I` after.
module _ (mlir : Mlir) (floats : FloatOps) (prog : Prog) (I : Invariant mlir)
    (laws : FunctionLaws mlir I) (J : Invariant mlir) {σ : List Frame} (name : Text)
    (added : (m : mlir.Module) (inputs rets : List MlirType) (f : mlir.Func) (s : State mlir)
      → J.holds σ s
      → I.holds σ (entered mlir m name inputs rets f s)) where
  open mlir use {Func}

  Turns-create_function :
      {B : Type 0} (inputs rets : List MlirType) {k : Func → Lower mlir B}
      → ((f : Func) → Keeps mlir I σ (k f))
      → Turns mlir J I σ (create_function mlir floats prog name inputs rets >>= k)
  unfolding create_function ◌>>=◌
  Turns-create_function inputs rets kk = record {
    at = λ s h. (kk _).at _ (added _ inputs rets _ s h);
  }

-- A function's body takes the builder into a new function, and back to where it was.
module _ (mlir : Mlir) (floats : FloatOps) (prog : Prog) (I : Invariant mlir)
    (laws : FunctionLaws mlir I) (lower_call : FunDef → Lower mlir (Callee mlir.Func))
    (call_kept : (fun : FunDef)
      → IsListed fun.name prog.funs
      → (σ : List Frame) → Calls mlir I σ fun.name (lower_call fun))
    {σ : List Frame} where
  open mlir use {Func}

  pub Keeps-body :
      (f : Func) (fun : FunDef)
      → Keeps mlir I σ (in_local mlir (function_body mlir floats prog lower_call fun f))
  unfolding function_body
  Keeps-body f fun =
      let stms_kept = Keeps-lower_stms mlir floats prog lower_call I call_kept in
      let body_kept = Keeps-lower_body mlir floats prog lower_call I call_kept in
      Keeps-in_local mlir I (
        Keeps-Moves (
          search (value_rules, Moves-open_function->>=, Moves-close_function, stms_kept, body_kept)
            depth 20))

  pub Turns-define_function :
      (J : Invariant mlir) (fun : FunDef)
      → ((m : mlir.Module) (inputs rets : List MlirType) (f : Func) (s : State mlir)
          → J.holds σ s
          → I.holds σ (entered mlir m fun.name inputs rets f s))
      → Turns mlir J I σ (define_function mlir floats prog lower_call fun)
  unfolding define_function
  Turns-define_function J fun added = Turns->>= (search value_rules depth 12) λ ret_types.
      Turns->>= (search value_rules depth 12) λ input_types.
        Turns-create_function mlir floats prog I laws J fun.name added input_types ret_types
          λ f. search (value_rules, Keeps-annotate, Keeps-body) depth 12
