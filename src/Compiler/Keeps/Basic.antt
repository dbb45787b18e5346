-- ===== src/Compiler/Keeps/Basic.antt =====
-- The rules for the calls of MLIR, the context, and the lowering of values.
use mlir_backend.Prelude.{[], ◌∷◌, Bool, List, Text, Result, Error}
use mlir_backend.Ir.Primitive.{FloatOps, PrimValue}
use mlir_backend.Ir.Core.{SubExp, constant, var}
use mlir_backend.Compiler.Monad.{Outcome, done, out_of_fuel, pure, thrown, ◌>>=◌}
use mlir_backend.Compiler.Mlir.{FoldResult, Mlir, MlirType, Op, RegionOp}
use mlir_backend.Compiler.State.{
  emit_unit, created, State, Lower, Values, emit, open_op, next_op, close_op, head_value, lookup,
  bind, in_local, zip_equal, size_if,
}
use mlir_backend.Compiler.Nesting.{
  Region, Frame, running, ended, inserting, then_body, else_body, forall_body, IsPlain, IsBuilt,
  Ends, HasBody, body_of, IsLast, plain, ends, opens, turns, closes, gathers, inserts, gathered,
}
use mlir_backend.Compiler.Values.{
  lower_prim_value, lower_sub_exp, cast_to_type, read_ir, get_constant_int_tensor, get_constant_int,
}
use mlir_backend.Compiler.Keeps.Rules.{
  IsLowered, with_functions, Invariant, Moves, Moves->>=, Keeps-Moves, Kept, Keeps, Keeps-pure,
  Keeps-throw, Keeps-lift, Keeps-if, Keeps->>=, action_rules,
}

module _ (mlir : Mlir) (I : Invariant mlir) {r : Region} {σ : List Frame} where
  open mlir use {Value, Func}

  pub Keeps-emit :
      (op : Op Value Func)
      → IsPlain op
      → IsBuilt {V = Value} {F = Func} (created op)
      → Keeps mlir I (running r ∷ σ) (emit mlir op)
  unfolding emit
  Keeps-emit op p b = record { at = λ s h. I.calls _ s (plain p) b h }

  -- A terminator, at the end of a region and before it.
  pub Moves-end :
      (op : Op Value Func)
      → Ends r op
      → IsBuilt {V = Value} {F = Func} (created op)
      → Moves mlir I (running r ∷ σ) (ended r ∷ σ) (emit_unit mlir op)
  unfolding emit pure ◌>>=◌
  Moves-end op e b = record { at = λ s h. I.calls _ s (ends e) b h }

  pub Moves-end->>= :
      {B : Type 0} {τ : List Frame} {f : Unit {0} → Lower mlir B} (op : Op Value Func)
      → Ends r op
      → IsBuilt {V = Value} {F = Func} (created op)
      → ((u : Unit {0}) → Moves mlir I (ended r ∷ σ) τ (f u))
      → Moves mlir I (running r ∷ σ) τ (emit_unit mlir op >>= f)
  Moves-end->>= op e b kf = Moves->>= (Moves-end op e b) kf

  Moves-open_op :
      (op : RegionOp Value)
      → HasBody op
      → Moves mlir I (running r ∷ σ) (running (body_of op) ∷ running r ∷ σ) (open_op mlir op)
  unfolding open_op
  Moves-open_op op b = record { at = λ s h. I.calls _ s (opens b) tt h }

  pub Moves-open :
      {B : Type 0} {τ : List Frame} {f : Values mlir → Lower mlir B} (op : RegionOp Value)
      → HasBody op
      → ((vs : Values mlir) → Moves mlir I (running (body_of op) ∷ running r ∷ σ) τ (f vs))
      → Moves mlir I (running r ∷ σ) τ (open_op mlir op >>= f)
  Moves-open op b kf = Moves->>= (Moves-open_op op b) kf

  pub Keeps-open :
      {B : Type 0} {f : Values mlir → Lower mlir B} (op : RegionOp Value)
      → HasBody op
      → ((vs : Values mlir)
          → Moves mlir I (running (body_of op) ∷ running r ∷ σ) (running r ∷ σ) (f vs))
      → Keeps mlir I (running r ∷ σ) (open_op mlir op >>= f)
  Keeps-open op b kf = Keeps-Moves (Moves-open op b kf)

  pub Moves-close :
      {q : Region}
      → IsLast q
      → Moves mlir I (ended q ∷ running r ∷ σ) (running r ∷ σ) (close_op mlir)
  unfolding close_op
  Moves-close l = record { at = λ s h. I.calls _ s (closes l) tt h }

  pub Moves-close->>= :
      {q : Region} {B : Type 0} {τ : List Frame} {f : Values mlir → Lower mlir B}
      → IsLast q
      → ((vs : Values mlir) → Moves mlir I (running r ∷ σ) τ (f vs))
      → Moves mlir I (ended q ∷ running r ∷ σ) τ (close_op mlir >>= f)
  Moves-close->>= l kf = Moves->>= (Moves-close l) kf

module _ (mlir : Mlir) (I : Invariant mlir) {σ : List Frame} where
  open mlir use {Value, Func}

  -- The second region of `scf.if`.
  pub Moves-next->>= :
      {B : Type 0} {τ : List Frame} {f : Unit {0} → Lower mlir B}
      → ((u : Unit {0}) → Moves mlir I (running else_body ∷ σ) τ (f u))
      → Moves mlir I (ended then_body ∷ σ) τ (next_op mlir >>= f)
  unfolding next_op ◌>>=◌
  Moves-next->>= kf = record { at = λ s h. (kf tt).at _ (I.calls _ s turns tt h) }

  -- The region of `scf.forall.in_parallel`.
  pub Moves-gather->>= :
      {B : Type 0} {τ : List Frame} {f : Values mlir → Lower mlir B}
      → ((vs : Values mlir) → Moves mlir I (inserting ∷ running forall_body ∷ σ) τ (f vs))
      → Moves mlir I (running forall_body ∷ σ) τ (open_op mlir RegionOp.in_parallel >>= f)
  unfolding open_op ◌>>=◌
  Moves-gather->>= kf = record { at = λ s h. (kf _).at _ (I.calls _ s gathers tt h) }

  pub Keeps-insert :
      (x y : Value) (os ns ss : List (FoldResult Value))
      → Keeps mlir I (inserting ∷ σ) (emit mlir (Op.parallel_insert_slice x y os ns ss))
  unfolding emit
  Keeps-insert x y os ns ss = record { at = λ s h. I.calls _ s inserts tt h }

  pub Moves-gathered->>= :
      {B : Type 0} {τ : List Frame} {f : Values mlir → Lower mlir B}
      → ((vs : Values mlir) → Moves mlir I (ended forall_body ∷ σ) τ (f vs))
      → Moves mlir I (inserting ∷ running forall_body ∷ σ) τ (close_op mlir >>= f)
  unfolding close_op ◌>>=◌
  Moves-gathered->>= kf = record { at = λ s h. (kf _).at _ (I.calls _ s gathered tt h) }

  pub Keeps-head_value : (vs : Values mlir) → Keeps mlir I σ (head_value mlir vs)
  unfolding head_value
  Keeps-head_value [] = Keeps-throw Error.undefined_behaviour
  Keeps-head_value (v ∷ _) = Keeps-pure v

  pub Keeps-lookup : (name : Text) → Keeps mlir I σ (lookup mlir name)
  unfolding lookup
  Keeps-lookup name = record { at = λ s h. (Keeps-lift {I = I} {σ = σ} _).at s h }

  pub Keeps-bind : (name : Text) (v : Value) → Keeps mlir I σ (bind mlir name v)
  unfolding bind
  Keeps-bind name v = record { at = λ s h. I.binds name v s h }

  pub Keeps-zip_equal :
      {A B : Type 0} (xs : List A) (ys : List B) → Keeps mlir I σ (zip_equal mlir xs ys)
  unfolding zip_equal
  Keeps-zip_equal xs ys = search action_rules depth 9

  local-Kept :
      {A : Type 0} (τ : List Frame) (s : State mlir) (o : Outcome (A × State mlir))
      → I.holds σ s
      → Kept mlir (I.holds τ) o
      → Kept mlir (I.holds τ) (elim o [
        | done (a, s') ↦ done (a, record s' { subexps = s.subexps })
        | thrown e ↦ thrown e
        | out_of_fuel ↦ out_of_fuel
      ])
  local-Kept τ s (done (_, s')) p h = I.restores s s' p h
  local-Kept τ s (thrown _) p h = h
  local-Kept τ s out_of_fuel p h = h

  pub Keeps-in_local :
      {A : Type 0} {m : Lower mlir A} → Keeps mlir I σ m → Keeps mlir I σ (in_local mlir m)
  unfolding in_local
  Keeps-in_local {m = m} k = record { at = λ s h. local-Kept _ s (m s) h (k.at s h) }

  pub Moves-in_local :
      {A : Type 0} {τ : List Frame} {m : Lower mlir A}
      → Moves mlir I σ τ m
      → Moves mlir I σ τ (in_local mlir m)
  unfolding in_local
  Moves-in_local {m = m} k = record { at = λ s h. local-Kept _ s (m s) h (k.at s h) }

  pub Keeps-size_if :
      (b : Bool) {m : Lower mlir Value} {n : Lower mlir (Values mlir)}
      → Keeps mlir I σ m
      → Keeps mlir I σ n
      → Keeps mlir I σ (size_if mlir b m n)
  unfolding size_if
  Keeps-size_if Bool.true km kn = search action_rules depth 9
  Keeps-size_if Bool.false km kn = kn

module _ (mlir : Mlir) (I : Invariant mlir) {r : Region} {σ : List Frame} where
  -- A context of its own for the rest of a region.
  pub Moves-local->>= :
      {A B : Type 0} {τ : List Frame} {m : Lower mlir A} {f : A → Lower mlir B}
      → Moves mlir I (running r ∷ σ) (ended r ∷ σ) m
      → ((a : A) → Moves mlir I (ended r ∷ σ) τ (f a))
      → Moves mlir I (running r ∷ σ) τ (in_local mlir m >>= f)
  Moves-local->>= km kf = Moves->>= (Moves-in_local mlir I km) kf

-- A function is called that has an entry.
module _ (mlir : Mlir) (I : Invariant mlir) {r : Region} {σ : List Frame} (f : mlir.Func) where
  pub Keeps-call :
      (args : Values mlir)
      → Keeps mlir (with_functions (IsLowered f) I) (running r ∷ σ) (emit mlir (Op.call f args))
  unfolding emit
  Keeps-call args = record { at = λ s (k, h). (k, I.invokes f args _ s k h) }

pub ruleset call_rules = (
  action_rules, Keeps-emit, Moves-end, Moves-end->>=, Moves-open, Keeps-open, Moves-close,
  Moves-close->>=, Moves-next->>=, Moves-gather->>=, Keeps-insert, Moves-gathered->>=,
  Moves-local->>=, Keeps-head_value, Keeps-lookup, Keeps-bind, Keeps-zip_equal, Keeps-in_local,
  Keeps-size_if,
)

module _ (mlir : Mlir) (floats : FloatOps) (I : Invariant mlir) {r : Region} {σ : List Frame} where
  open mlir use {Value, Func}

  pub Keeps-read_ir :
      {A : Type 0} (f : mlir.Module → Result A)
      → Keeps mlir I (running r ∷ σ) (read_ir mlir floats f)
  unfolding read_ir
  Keeps-read_ir f = record { at = λ s h. (Keeps-lift {I = I} {σ = running r ∷ σ} _).at s h }

  pub Keeps-lower_prim_value :
      (v : PrimValue) → Keeps mlir I (running r ∷ σ) (lower_prim_value mlir floats v)
  unfolding lower_prim_value
  Keeps-lower_prim_value v = search call_rules depth 9

  pub Keeps-lower_sub_exp :
      (e : SubExp) → Keeps mlir I (running r ∷ σ) (lower_sub_exp mlir floats e)
  unfolding lower_sub_exp
  Keeps-lower_sub_exp (constant c) = Keeps-lower_prim_value c
  Keeps-lower_sub_exp (var v) = Keeps-lookup mlir I v.name

  pub Keeps-cast_to_type :
      (v : Value) (t : MlirType) → Keeps mlir I (running r ∷ σ) (cast_to_type mlir floats v t)
  unfolding cast_to_type
  Keeps-cast_to_type v t = search call_rules depth 9

  pub Keeps-get_constant_int :
      (v : Value) → Keeps mlir I (running r ∷ σ) (get_constant_int mlir floats v)
  unfolding get_constant_int
  Keeps-get_constant_int v = Keeps-read_ir _

  pub Keeps-get_constant_int_tensor :
      (v : Value) → Keeps mlir I (running r ∷ σ) (get_constant_int_tensor mlir floats v)
  unfolding get_constant_int_tensor
  Keeps-get_constant_int_tensor v = search (call_rules, Keeps-read_ir) depth 9

pub ruleset value_rules = (
  call_rules, Keeps-lower_prim_value, Keeps-lower_sub_exp, Keeps-cast_to_type,
  Keeps-get_constant_int, Keeps-get_constant_int_tensor,
)
