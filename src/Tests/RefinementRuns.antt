-- ===== src/Tests/RefinementRuns.antt =====
-- Bodies, functions, programs and a file of integer scalars, on the machine whose values carry their
-- bits.
use mlir_backend.Prelude.{
  ◌≡◌, refl, true, false, List, [], ◌∷◌, some, ok, if◌then◌else◌, codes, text_eq,
}
use mlir_backend.Compiler.Monad.{done}
use mlir_backend.Compiler.Mlir.{integer}
use mlir_backend.Compiler.State.{State}
use mlir_backend.Compiler.Lower.{func, find_function, lower_body}
use mlir_backend.Compiler.Functions.{find_lowered, lower_function, lower_program}
use mlir_backend.Compiler.Refinement.Programs.{IsScalar, lower_program-succeeds}
use mlir_backend.Compiler.Blackboxes.{maybe_black_box}
use mlir_backend.Compiler.Refinement.Functions.{Returns, lower_function-Returns}
use mlir_backend.Compiler.Refinement.Source.{number, eval_body, eval_function}
use mlir_backend.Compiler.Refinement.Target.{AllDenote, Stays}
use mlir_backend.Compiler.Refinement.Simulation.{Simulates, Simulates-nothing_bound, Advances-bind}
use mlir_backend.Compiler.Refinement.Correct.{
  lower_body-AllDenote, HaveWidths, lower_body-HaveWidths,
}
use mlir_backend.Parser.Visit.{visit_prog, visit_stms, visit_fun_def}
use mlir_backend.Parser.Values.{starts_with, visit_type, visit_sub_exp}
use mlir_backend.Parser.BasicOps.{visit_basic_op}
use mlir_backend.Parser.Operators.{visit_bin_op}
use mlir_backend.Compiler.Nesting.{Runs}
use mlir_backend.Main.{main, returned, new_compiler}
use mlir_backend.Main.Scalars.{main-returned}
use mlir_backend.Tests.Fixtures.{toy_floats}
use mlir_backend.Tests.Machine.{
  Cell, machine, meaning, seven_entry, typed_entry, cell, cell-Denotes,
}
use mlir_backend.Tests.ScalarFixtures.{
  square_or_fail, limit, square_fun, minus_three, x_and_k, idle, with_k, with_x_and_k, no_calls,
  divide, divide_fun, square_and_divide, double_tree, double_fun, double_prog,
}

bound-Simulates : Simulates machine meaning true x_and_k with_x_and_k
unfolding text_eq
bound-Simulates =
    let k =
      Advances-bind machine meaning true {s = idle} (codes "k") (cell (number 32 9)) (number 32 9)
        refl (Simulates-nothing_bound machine meaning true idle) (cell-Denotes [] (number 32 9)) in
    let x =
      Advances-bind machine meaning true {s = with_k} (codes "x") (cell minus_three) minus_three
        refl k.simulates (cell-Denotes [] minus_three) in
    x.simulates

body_example :
    (vs : List Cell) × (s' : State machine) × (lower_body machine toy_floats limit no_calls
        square_or_fail with_x_and_k
      ≡ done (vs, s'))
    × AllDenote machine meaning.bits true s'.ir vs (number 32 9 ∷ number 64 9 ∷ [])
    × Stays machine meaning.bits with_x_and_k.ir s'.ir
unfolding eval_body text_eq starts_with find_function
body_example =
    lower_body-AllDenote machine meaning toy_floats limit no_calls x_and_k square_or_fail
      (number 32 9 ∷ number 64 9 ∷ []) with_x_and_k bound-Simulates refl

unrun-Simulates : Simulates machine meaning false x_and_k with_x_and_k
unrun-Simulates = record {
  finds =
      λ name x e. let (v, k, (t, d)) = bound-Simulates.finds name x e in (v, k, (t, λ r. d refl));
}

widths_example :
    (vs : List Cell) × (s' : State machine) × (lower_body machine toy_floats limit no_calls divide
        with_x_and_k
      ≡ done (vs, s'))
    × HaveWidths machine meaning toy_floats limit no_calls vs (number 32 0 ∷ [])
unfolding eval_body text_eq
widths_example =
    lower_body-HaveWidths machine meaning toy_floats limit no_calls x_and_k divide
      (number 32 0 ∷ []) with_x_and_k unrun-Simulates refl

function_example :
    (s' : State machine) × (lower_function machine toy_floats limit 1 square_fun idle
      ≡ done (func (codes "square", integer 32 ∷ []), s'))
    × Returns machine meaning true (number 32 49 ∷ number 64 49 ∷ []) s'
unfolding eval_body eval_function text_eq starts_with find_function maybe_black_box find_lowered
function_example =
    lower_function-Returns machine meaning toy_floats limit 0 square_fun (number 32 7 ∷ [])
      (number 32 49 ∷ number 64 49 ∷ []) idle seven_entry refl refl (refl, tt) (refl, (refl, tt))
      refl

square_fun-IsScalar : IsScalar square_and_divide square_fun
unfolding eval_body eval_function text_eq starts_with find_function maybe_black_box
square_fun-IsScalar = record {
  arguments = number 32 0 ∷ [];
  results = number 32 9 ∷ number 64 0 ∷ [];
  not_black_box = refl;
  params_fit = (refl, tt);
  results_fit = (refl, (refl, tt));
  typed = refl;
}

divide_fun-IsScalar : IsScalar square_and_divide divide_fun
unfolding eval_body eval_function text_eq starts_with find_function maybe_black_box
divide_fun-IsScalar = record {
  arguments = number 32 0 ∷ [];
  results = number 32 0 ∷ [];
  not_black_box = refl;
  params_fit = (refl, tt);
  results_fit = (refl, tt);
  typed = refl;
}

program_example :
    (s' : State machine) × (lower_program machine toy_floats square_and_divide idle ≡ done (tt, s'))
program_example =
    lower_program-succeeds machine meaning toy_floats square_and_divide typed_entry idle
      (square_fun-IsScalar, (divide_fun-IsScalar, tt))

double_tree-read : visit_prog toy_floats double_tree ≡ ok double_prog
unfolding visit_prog visit_stms visit_fun_def visit_type visit_basic_op visit_sub_exp visit_bin_op
double_tree-read = refl

double_fun-IsScalar : IsScalar double_prog double_fun
unfolding eval_body eval_function text_eq starts_with find_function maybe_black_box
double_fun-IsScalar = record {
  arguments = number 32 0 ∷ [];
  results = number 32 0 ∷ [];
  not_black_box = refl;
  params_fit = (refl, tt);
  results_fit = (refl, tt);
  typed = refl;
}

verdict_example :
    (s : State machine) × (lower_program machine toy_floats double_prog
        (new_compiler machine toy_floats [])
      ≡ done (tt, s))
    × Runs [] s.log []
    × (main machine toy_floats (some double_tree) [] (λ m. true)
        ≡ (if true then returned 0 else returned 1))
verdict_example =
    main-returned machine meaning toy_floats typed_entry double_tree double_prog [] (λ m. true)
      double_tree-read (double_fun-IsScalar, tt)
