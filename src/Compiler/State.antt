-- ===== src/Compiler/State.antt =====
-- The compiler's state: the context of names, the functions lowered so far, the module, and a log
-- of the calls that went to MLIR. The log is the model's own; it is what theorems about the emitted
-- code speak of.
use mlir_backend.Prelude.{
  Bool, true, false, List, [], ◌∷◌, ◌++◌, Text, Result, ok, err, Error, length, ◌==◌, ◌||◌, not,
}
use mlir_backend.Compiler.Monad.{
  Action, done, thrown, out_of_fuel, pure, throw, lift, ◌>>=◌, ◌>>◌, require,
}
use mlir_backend.Compiler.Env
use mlir_backend.Compiler.Env.{Env}
use mlir_backend.Compiler.Mlir.{MlirType, Op, RegionOp, Mlir}

pub data Call (V F : Type 0) : Type 0 where
  created : Op V F → Call V F
  opened : RegionOp V → Call V F
  next closed : Call V F
  func_created : Text → List MlirType → List MlirType → Call V F
  func_opened : F → Call V F
  func_closed : Call V F

module _ (mlir : Mlir) where
  open mlir use {Value, Func, Module}

  pub record State : Type 0 where
    -- `Ctx::subexps`
    pub subexps : Env Value
    -- `FutharkCompiler::functions`, keyed by the function's name
    pub functions : List (Text × Func)
    pub ir : Module
    pub log : List (Call Value Func)

  abbrev pub Lower : Type 0 → Type 0
  Lower A = Action State A

  abbrev pub Values : Type 0
  Values = List Value

  -- `X::create(builder, …)`, with all results
  unfoldable pub emit : Op Value Func → Lower Values
  emit op s =
      let (rs, m) = mlir.create op s.ir in
      done (rs, record s { ir = m; log = s.log ++ created op ∷ [] })

  -- An operation that has one result by its definition; MLIR's accessor asserts that there is one.
  unfoldable pub head_value : Values → Lower Value
  head_value [] = throw Error.undefined_behaviour
  head_value (v ∷ _) = pure v

  abbrev pub emit_one : Op Value Func → Lower Value
  emit_one op = emit op >>= head_value

  abbrev pub emit_unit : Op Value Func → Lower (Unit {0})
  emit_unit op = emit op >> pure tt

  unfoldable pub open_op : RegionOp Value → Lower Values
  open_op op s =
      let (args, m) = mlir.open_region op s.ir in
      done (args, record s { ir = m; log = s.log ++ opened op ∷ [] })

  unfoldable pub next_op : Lower (Unit {0})
  next_op s = done (tt, record s { ir = mlir.next_region s.ir; log = s.log ++ next ∷ [] })

  unfoldable pub close_op : Lower Values
  close_op s =
      let (rs, m) = mlir.close_region s.ir in
      done (rs, record s { ir = m; log = s.log ++ closed ∷ [] })

  -- `ctx.subexps.lookup` and `ctx.subexps.insert`
  unfoldable pub lookup : Text → Lower Value
  lookup name s = lift (Env.lookup name s.subexps) s

  unfoldable pub bind : Text → Value → Lower (Unit {0})
  bind name v s = done (tt, record s { subexps = Env.insert name v s.subexps })

  -- `Ctx local = ctx`: what is bound inside is gone afterwards.
  unfoldable pub in_local : {A : Type 0} → Lower A → Lower A
  in_local m s = elim (m s) [
    | done (a, s') ↦ done (a, record s' { subexps = s.subexps })
    | thrown e ↦ thrown e
    | out_of_fuel ↦ out_of_fuel
  ]

  -- `assert`
  abbrev pub assert_that : Bool → Lower (Unit {0})
  assert_that b = require (b || not mlir.asserts) Error.assertion

  -- `llvm::zip_equal`: the lengths are asserted to be equal; the walk ends with the first range, and
  -- where the second is shorter it reads past its end.
  unfoldable pub zip_walk : {A B : Type 0} → List A → List B → Result (List (A × B))
  zip_walk [] ys = ok []
  zip_walk (x ∷ xs) [] = err Error.undefined_behaviour
  zip_walk {A} {B} (x ∷ xs) (y ∷ ys) = elim (zip_walk xs ys) [
    | ok zs ↦ ok ((x, y) ∷ zs)
    | err e ↦ err e
  ]

  unfoldable pub zip_equal : {A B : Type 0} → List A → List B → Lower (List (A × B))
  unfolding zip_walk
  zip_equal xs ys = do assert_that (length xs == length ys); lift (zip_walk xs ys)

  -- `if (isDynamic(d)) sizes.push_back(size)`, and the rest of the loop
  unfoldable pub size_if : Bool → Lower Value → Lower Values → Lower Values
  size_if true size rest = do v ← size; vs ← rest; pure (v ∷ vs)
  size_if false size rest = rest

  -- `llvm::zip` ends with the shorter range.
  abbrev pub zip_shortest : {A B : Type 0} → List A → List B → List (A × B)
  zip_shortest [] ys = []
  zip_shortest (x ∷ xs) [] = []
  zip_shortest (x ∷ xs) (y ∷ ys) = (x, y) ∷ zip_shortest xs ys
