-- ===== src/Compiler/Functions.antt =====
-- compiler.hpp `LowerFunction` and the loop of mlir-backend.cpp over the program's functions. A call
-- lowers the function that it names, so the recursion is on fuel: the depth of calls.
pub mod Entries
pub mod SizeArgs
use mlir_backend.Prelude.{
  ℕ, zero, suc, ◌+◌, ◌-◌, ◌^◌, Bool, true, false, List, [], ◌∷◌, ◌++◌, Option, none, some, length,
  map, Text, text_eq, if◌then◌else◌, Result, ok, err, Error, map_result, ◌>>=◌ as bind_result,
}
use mlir_backend.Ir.Primitive.{FloatOps}
use mlir_backend.Ir.Core.{SubExp, constant, var, Attrs, IrType, type_array}
use mlir_backend.Ir.Syntax.{FParam, RetAls, FunDef, Prog}
use mlir_backend.Compiler.Monad.{done, out_of_fuel, pure, lift, ◌>>=◌, ◌>>◌, map_action, for_each}
use mlir_backend.Compiler.Env
use mlir_backend.Compiler.Mlir.{Mlir, MlirType, Op}
use mlir_backend.Compiler.State.{
  State, Call, func_created, func_opened, func_closed, Lower, Values, emit_unit, zip_equal, bind,
  in_local,
}
use mlir_backend.Compiler.Types.{lower_ty}
use mlir_backend.Compiler.Blackboxes.{BlackBox, maybe_black_box}
use mlir_backend.Compiler.Lower.{Callee, func, black_box, lower_body, lower_stms}

-- `argPosition`, a map from names to positions; the last assignment to a name counts.
abbrev pub Positions : Type 0
Positions = List (Text × ℕ)

unfoldable pub position_of : Text → Positions → Result ℕ
position_of name [] = err Error.out_of_range
position_of name ((k, i) ∷ m) = if text_eq k name then ok i else position_of name m

abbrev pub is_some : {A : Type 0} → Option A → Bool
is_some none = false
is_some (some _) = true

-- -1 as an int64_t
abbrev pub minus_one : ℕ
minus_one = 2 ^ 64 - 1

-- The entry of `futhark.size_args` for one dimension.
unfoldable pub dim_position : Positions → SubExp → Result ℕ
unfolding position_of
dim_position m (var v) = position_of v.name m
dim_position m (constant _) = ok minus_one

-- The annotation of a parameter, if it is an array.
unfoldable pub size_args_of : Positions → IrType → Result (Option (List ℕ))
size_args_of m (type_array elem shape u) =
    bind_result (map_result (dim_position m) shape.dims) λ pos. ok (some pos)
size_args_of m _ = ok none

-- The loop over the parameters, from number `i` on: each is entered before its own type is read.
unfoldable pub size_args : ℕ → Positions → List FParam → Result (List (ℕ × List ℕ))
size_args i m [] = ok []
size_args i m (p ∷ ps) =
    let m' = (p.name, i) ∷ m in
    bind_result (size_args_of m' p.dec) λ a.
      bind_result (size_args (suc i) m' ps)
        λ rest. ok (elim a [ none ↦ rest | some pos ↦ (i, pos) ∷ rest ])

-- `functions.find(fun)`: functions are equal if their names are.
unfoldable pub find_lowered : {F : Type 0} → Text → List (Text × F) → Option F
find_lowered name [] = none
find_lowered name ((k, f) ∷ m) = if text_eq k name then some f else find_lowered name m

-- `functions[fun] = func`: an entry that stands under the name is replaced.
unfoldable pub erase : {F : Type 0} → Text → List (Text × F) → List (Text × F)
erase name [] = []
erase name ((k, g) ∷ m) = if text_eq k name then erase name m else (k, g) ∷ erase name m

unfoldable pub enter : {F : Type 0} → Text → F → List (Text × F) → List (Text × F)
enter name f m = (name, f) ∷ erase name m

module _ (mlir : Mlir) (floats : FloatOps) (prog : Prog) where
  open mlir use {Value, Func}

  -- `FuncOp::create`, `builder.insert` and the entry in `functions`
  unfoldable pub create_function : Text → List MlirType → List MlirType → Lower mlir Func
  create_function name inputs rets s =
      let (f, m) = mlir.create_func name inputs rets s.ir in
      done (
        f,
        record s {
          ir = m;
          log = s.log ++ func_created name inputs rets ∷ [];
          functions = enter name f s.functions;
        },
      )

  -- `func.addEntryBlock()` with the builder moved to it, in an empty context
  unfoldable pub open_function : Func → Lower mlir (Values mlir)
  open_function f s =
      let (args, m) = mlir.open_func f s.ir in
      done (args, record s { ir = m; log = s.log ++ func_opened f ∷ []; subexps = Env.empty })

  unfoldable pub close_function : Lower mlir (Unit {0})
  close_function s =
      done (tt, record s { ir = mlir.close_func s.ir; log = s.log ++ func_closed ∷ [] })

  unfoldable pub annotate : Func → FunDef → Lower mlir (Unit {0})
  annotate f fun =
      if is_some fun.entry
      then (do
        args ← lift (size_args 0 [] fun.params)
        for_each (λ (a : ℕ × List ℕ). emit_unit mlir (Op.arg_attr f a.0 a.1)) args)
      else emit_unit mlir (Op.func_private f)

  -- The body of the new function, with the constants before it.
  unfoldable pub function_body :
      (FunDef → Lower mlir (Callee Func)) → FunDef → Func → Lower mlir (Unit {0})
  unfolding open_function close_function
  function_body lower_call fun f = do
    args ← open_function f
    lower_stms mlir floats prog lower_call prog.consts
    pairs ← zip_equal mlir fun.params args
    for_each (λ (p : FParam × Value). bind mlir p.0.name p.1) pairs
    ret ← lower_body mlir floats prog lower_call fun.body
    emit_unit mlir (Op.func_return ret)
    close_function

  -- The part of `LowerFunction` past the lookups: `lower_call` lowers the functions it calls.
  unfoldable pub define_function :
      (FunDef → Lower mlir (Callee Func)) → FunDef → Lower mlir (Callee Func)
  unfolding annotate function_body
  define_function lower_call fun = do
    ret_types ← map_action (λ (t : IrType × RetAls). lift (lower_ty mlir t.0)) fun.ret_type
    input_types ← map_action (λ (p : FParam). lift (lower_ty mlir p.dec)) fun.params
    f ← create_function fun.name input_types ret_types
    annotate f fun
    in_local mlir (function_body lower_call fun f)
    pure (func f)

  -- `LowerFunction` after `MaybeBlackBox`
  unfoldable pub lower_known :
      (FunDef → Lower mlir (Callee Func)) → FunDef → Option BlackBox → Lower mlir (Callee Func)
  lower_known lower_call fun (some b) s = done (black_box b, s)
  lower_known lower_call fun none s = elim (find_lowered fun.name s.functions) [
    | some f ↦ done (func f, s)
    | none ↦ define_function lower_call fun s
  ]

  unfoldable pub no_fuel : Lower mlir (Callee Func)
  no_fuel s = out_of_fuel

  -- `LowerFunction`
  unfoldable pub lower_function : ℕ → FunDef → Lower mlir (Callee Func)
  unfolding lower_known no_fuel
  lower_function zero fun = no_fuel
  lower_function (suc fuel) fun = do
    b ← lift (maybe_black_box fun.attrs.attrs)
    lower_known (lower_function fuel) fun b

  -- the loop in `main`; a chain of calls meets each function once, and then one that is known
  unfoldable pub lower_program : Lower mlir (Unit {0})
  lower_program = for_each (λ f. lower_function (suc (length prog.funs)) f >> pure tt) prog.funs
