-- ===== src/Main.antt =====
-- mlir-backend/mlir-backend.cpp: `main`, and the constructor of `FutharkCompiler`.
use mlir_backend.Prelude.{ℕ, Bool, if◌then◌else◌, List, [], Option, none, some, ok, err, Error}
use mlir_backend.Ir.Primitive.{FloatOps}
use mlir_backend.Parser.Tree.{RootContext}
use mlir_backend.Parser.Visit.{visit_prog}
use mlir_backend.Compiler.Monad.{Outcome, done, thrown, out_of_fuel}
use mlir_backend.Compiler.Env
use mlir_backend.Compiler.Mlir.{Mlir}
use mlir_backend.Compiler.State.{State, Lower}
use mlir_backend.Compiler.Functions.{lower_program}
pub mod Composition
pub mod Scalars

-- The exit code, or the exception that nothing catches. The last stands for a run that goes on.
pub data Exit : Type 0 where
  returned : ℕ → Exit
  uncaught : Error → Exit
  unfinished : Exit

module _ (mlir : Mlir) (floats : FloatOps) where
  -- The constructor of `FutharkCompiler`, for the module that MLIR creates: no function is lowered.
  abbrev pub new_compiler : mlir.Module → State mlir
  new_compiler m = record { subexps = Env.empty; functions = []; ir = m; log = [] }

  -- `ParseFuthark` on what the grammar makes of the file, and the loop over the functions.
  unfoldable pub compile : RootContext → Lower mlir (Unit {0})
  compile tree s = elim (visit_prog floats tree) [
    | ok prog ↦ lower_program mlir floats prog s
    | err e ↦ thrown e
  ]

  -- The end of `main`: the module goes through MLIR's verifier.
  abbrev pub exit_of : (mlir.Module → Bool) → Outcome (Unit {0} × State mlir) → Exit
  exit_of verify (done (_, s)) = if verify s.ir then returned 0 else returned 1
  exit_of verify (thrown e) = uncaught e
  exit_of verify out_of_fuel = unfinished

  -- `main`: the tree of the file, if there is such a file, the new module, and the verifier.
  unfoldable pub main : Option RootContext → mlir.Module → (mlir.Module → Bool) → Exit
  unfolding compile
  main none m verify = returned 1
  main (some tree) m verify = exit_of verify (compile tree (new_compiler m))
