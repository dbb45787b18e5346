-- ===== src/Main/Scalars.antt =====
-- mlir-backend.cpp: `main` on a file of functions of integer scalars and conditionals.
use mlir_backend.Prelude.{◌≡◌, ap, ◌∙◌, err, Bool, false, List, [], some, All, ok, if◌then◌else◌}
use mlir_backend.Ir.Primitive.{FloatOps}
use mlir_backend.Ir.Syntax.{Prog}
use mlir_backend.Parser.Tree.{RootContext}
use mlir_backend.Parser.Visit.{visit_prog}
use mlir_backend.Compiler.Monad.{done, thrown}
use mlir_backend.Compiler.Mlir.{Mlir}
use mlir_backend.Compiler.State.{State}
use mlir_backend.Compiler.Nesting.{Runs, here}
use mlir_backend.Compiler.Functions.{lower_program}
use mlir_backend.Compiler.Termination.{lower_program-Runs}
use mlir_backend.Compiler.Refinement.Words.{Number}
use mlir_backend.Compiler.Refinement.Target.{Semantics}
use mlir_backend.Compiler.Refinement.Signatures.{Entry}
use mlir_backend.Compiler.Refinement.Programs.{IsScalar, lower_program-succeeds}
use mlir_backend.Main.{exit_of, compile, returned, new_compiler, main}

-- A file that is read is lowered.
compile-read :
    (mlir : Mlir) (floats : FloatOps) (tree : RootContext) (prog : Prog) (s : State mlir)
    → visit_prog floats tree ≡ ok prog
    → compile mlir floats tree s ≡ lower_program mlir floats prog s
unfolding compile
compile-read mlir floats tree prog s read =
    ap (λ r. elim r [ ok prog ↦ lower_program mlir floats prog s | err e ↦ thrown e ]) read

-- Where a file is read as a program of functions of integer scalars and conditionals whose types
-- fit, main lowers it, its calls to MLIR are well nested, and it returns 0 if the verifier accepts
-- the module that results, and 1 if not.
pub main-returned :
    (mlir : Mlir) (sem : Semantics mlir) (floats : FloatOps)
    → ((arguments : List Number) → Entry mlir sem false arguments)
    → (tree : RootContext) (prog : Prog) (m : mlir.Module) (verify : mlir.Module → Bool)
    → visit_prog floats tree ≡ ok prog
    → All (IsScalar prog) prog.funs
    → (s : State mlir) × (lower_program mlir floats prog (new_compiler mlir floats m)
        ≡ done (tt, s))
      × Runs [] s.log []
      × (main mlir floats (some tree) m verify ≡ (if verify s.ir then returned 0 else returned 1))
unfolding main
main-returned mlir sem floats entry tree prog m verify read scalars =
    let (s, e) =
      lower_program-succeeds mlir sem floats prog entry (new_compiler mlir floats m) scalars in
    (
      s,
      e,
      lower_program-Runs mlir floats prog _ here e,
      ap (exit_of mlir floats verify) (compile-read mlir floats tree prog _ read ∙ e),
    )
