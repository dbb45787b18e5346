-- ===== src/Tests/Nested.antt =====
-- The calls of a program of one function with a branch in it, and of one of two functions.
use mlir_backend.Prelude.{All, ◌≡◌, refl, count, [], ◌∷◌, codes, text_eq, arith}
use mlir_backend.Compiler.Monad.{
  Outcome, done, thrown, out_of_fuel, for_each, map_action, pure, ◌>>=◌, lift,
}
use mlir_backend.Compiler.Env
use mlir_backend.Compiler.State.{
  State, in_local, zip_equal, lookup, bind, emit, head_value, open_op, next_op, close_op,
}
use mlir_backend.Compiler.Types.{lower_ty, lower_prim_type}
use mlir_backend.Compiler.Values.{lower_sub_exp, lower_prim_value, get_prim_value_attr}
use mlir_backend.Compiler.Blackboxes.{maybe_black_box}
use mlir_backend.Compiler.Lower.{lower_stms, func}
use mlir_backend.Compiler.Idempotence.{lower_function-again}
use mlir_backend.Compiler.Functions.{
  enter, erase, find_lowered, create_function, lower_function, lower_known, define_function,
  function_body, lower_program,
}
use mlir_backend.Compiler.Nesting.{Runs, here}
use mlir_backend.Compiler.Callees.{IsKnownCall, lower_program-IsKnownCall}
use mlir_backend.Compiler.Termination.{lower_program-Runs}
use mlir_backend.Tests.Fixtures.{toy, toy_floats, start, branching, calling, mutual_calls}
use mlir_backend.Compiler.Creations.{creates, lower_program-creates_once}

-- The state at the end, for a run that returns.
abbrev end_of : Outcome (Unit {0} × State toy) → State toy
end_of (done (_, s)) = s
end_of _ = start

nested_example : Runs [] (end_of (lower_program toy toy_floats branching start)).log []
unfolding lower_program lower_function lower_known define_function function_body for_each map_action
    ◌>>=◌ lift pure maybe_black_box find_lowered lower_ty lower_prim_type create_function enter
    erase emit in_local lower_stms zip_equal text_eq lower_sub_exp lower_prim_value
    get_prim_value_attr head_value open_op next_op close_op bind lookup Env.lookup Env.insert
nested_example = lower_program-Runs toy toy_floats branching start here refl

-- f and g call each other: f is created when it is lowered, and not again where g calls it.
creates_once_example :
    count (creates (codes "f")) (end_of (lower_program toy toy_floats mutual_calls start)).log ≡ 1
unfolding lower_program lower_function lower_known define_function function_body for_each map_action
    ◌>>=◌ lift pure maybe_black_box find_lowered lower_ty lower_prim_type create_function enter
    erase emit in_local lower_stms zip_equal text_eq
creates_once_example =
    lower_program-creates_once toy toy_floats mutual_calls [] (calling "f" "g")
      (calling "g" "f" ∷ []) start refl refl refl refl refl

-- The state once f is lowered, and g with it.
abbrev after_f : State toy
unfolding lower_function lower_known define_function function_body for_each map_action ◌>>=◌ lift
    pure maybe_black_box find_lowered lower_ty lower_prim_type create_function enter erase emit
    in_local lower_stms zip_equal text_eq
after_f = elim (lower_function toy toy_floats mutual_calls 3 (calling "f" "g") start) [
  | done (_, s) ↦ s
  | thrown e ↦ start
  | out_of_fuel ↦ start
]

again_example :
    lower_function toy toy_floats mutual_calls 5 (calling "f" "g") after_f
    ≡ done (func (codes "f"), after_f)
unfolding lower_function lower_known define_function function_body for_each map_action ◌>>=◌ lift
    pure maybe_black_box find_lowered lower_ty lower_prim_type create_function enter erase emit
    in_local lower_stms zip_equal text_eq
again_example =
    lower_function-again toy toy_floats mutual_calls 2 (calling "f" "g") start refl (omega arith)
      refl 4

called_example :
    All
      (IsKnownCall (end_of (lower_program toy toy_floats mutual_calls start)).functions)
      (end_of (lower_program toy toy_floats mutual_calls start)).log
unfolding lower_program lower_function lower_known define_function function_body for_each map_action
    ◌>>=◌ lift pure maybe_black_box find_lowered lower_ty lower_prim_type create_function enter
    erase emit in_local lower_stms zip_equal text_eq
called_example = lower_program-IsKnownCall toy toy_floats mutual_calls start refl refl
