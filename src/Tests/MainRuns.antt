-- ===== src/Tests/MainRuns.antt =====
-- A file of two functions with nothing in their bodies, the second of which is a black box.
use mlir_backend.Prelude.{◌≡◌, refl, true, false, List, [], ◌∷◌, some, codes, text_eq, Text, count}
use mlir_backend.Parser.Tree.{RootContext, FunDefContext, empty_body, no_stms}
use mlir_backend.Parser.Visit.{visit_prog, visit_stms, visit_fun_def, visit_attr, visit_body}
use mlir_backend.Compiler.Monad.{Outcome, done, for_each, ◌>>=◌, lift, map_action, pure}
use mlir_backend.Compiler.State.{State, emit, in_local, zip_equal}
use mlir_backend.Compiler.Blackboxes.{maybe_black_box, to_black_box, black_box_name}
use mlir_backend.Compiler.Lower.{lower_stms}
use mlir_backend.Compiler.Functions.{
  enter, erase, find_lowered, create_function, lower_function, lower_known, define_function,
  function_body, lower_program,
}
use mlir_backend.Compiler.Creations.{creates}
use mlir_backend.Main.{compile, new_compiler, main}
use mlir_backend.Main.Composition.{compile-creates_once, main-IsSuccess, IsSuccess}
use mlir_backend.Tests.Fixtures.{toy, toy_floats}

abbrev empty_function : List (List Text) → Text → FunDefContext
empty_function attrs name = record {
  attrs = attrs;
  has_entry = false;
  id = name;
  types = [];
  params = [];
  body_context = empty_body [];
}

abbrev two_functions : RootContext
two_functions = record {
  stms = no_stms;
  fun_defs =
      empty_function [] (codes "f")
      ∷ empty_function ((codes "blackbox" ∷ codes "argsort" ∷ []) ∷ []) (codes "sort")
      ∷ [];
}

abbrev end_of : Outcome (Unit {0} × State toy) → State toy
end_of (done (_, s)) = s
end_of _ = new_compiler toy toy_floats 0

compiled_once_example :
    count
      (creates (codes "f"))
      (end_of (compile toy toy_floats two_functions (new_compiler toy toy_floats 0))).log
    ≡ 1
unfolding compile maybe_black_box to_black_box black_box_name visit_prog visit_stms visit_fun_def
    visit_attr visit_body lower_program for_each ◌>>=◌ lower_function lower_known lift find_lowered
    define_function function_body map_action pure create_function enter erase emit in_local
    lower_stms zip_equal text_eq
compiled_once_example =
    compile-creates_once toy toy_floats two_functions [] (empty_function [] (codes "f"))
      (empty_function ((codes "blackbox" ∷ codes "argsort" ∷ []) ∷ []) (codes "sort") ∷ []) 0 refl
      refl refl refl

zero_example : IsSuccess toy toy_floats (some two_functions) 0 (λ m. true)
unfolding main compile maybe_black_box to_black_box black_box_name visit_prog visit_stms
    visit_fun_def visit_attr visit_body lower_program for_each ◌>>=◌ lower_function lower_known lift
    find_lowered define_function function_body map_action pure create_function enter erase emit
    in_local lower_stms zip_equal text_eq
zero_example = main-IsSuccess toy toy_floats (some two_functions) 0 (λ m. true) refl
