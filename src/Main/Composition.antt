-- ===== src/Main/Composition.antt =====
-- The parser and the compiler together, from the parse tree of a file to the module.
use mlir_backend.Prelude.{
  ◌≡◌, refl, sym, ap, ◌∙◌, Bool, true, List, [], ◌∷◌, ◌++◌, Option, none, some, Result, ok, err,
  count, map_result, >>=-eq-ok, arith,
}
use mathlib.Core.Path.{subst}
use mlir_backend.Ir.Primitive.{FloatOps}
use mlir_backend.Ir.Core.{Attr}
use mlir_backend.Ir.Syntax.{FunDef, Prog}
use mlir_backend.Parser.Tree.{RootContext, FunDefContext}
use mlir_backend.Parser.Visit.{
  visit_ret_types, visit_param, visit_body, visit_stms, visit_attr, visit_fun_def, visit_prog,
}
use mlir_backend.Compiler.Monad.{Outcome, done, thrown, out_of_fuel}
use mlir_backend.Compiler.Mlir.{Mlir}
use mlir_backend.Compiler.State.{State}
use mlir_backend.Compiler.Blackboxes.{maybe_black_box}
use mlir_backend.Compiler.Functions.{lower_program}
use mlir_backend.Compiler.Nesting.{Runs, here}
use mlir_backend.Compiler.Termination.{lower_program-Runs}
use mlir_backend.Compiler.Creations.{creates, lower_program-creates_once}
use mlir_backend.Main.{returned, new_compiler, compile, exit_of, main}

-- An element's result stands between those of the elements before it and after it.
map_result-split :
    {A B : Type 0} (f : A → Result B) (before : List A) (x : A) (after : List A) {zs : List B}
    → map_result f (before ++ x ∷ after) ≡ ok zs
    → (ys : List B) × (y : B) × (ys' : List B) × (f x ≡ ok y) × (zs ≡ ys ++ y ∷ ys')
map_result-split f [] x after h =
    let (y, e, h₁) = >>=-eq-ok (f x) _ h in
    let (ys', e', h₂) = >>=-eq-ok (map_result f after) _ h₁ in ([], y, ys', e, ground arith)
map_result-split f (w ∷ before) x after h =
    let (v, e, h₁) = >>=-eq-ok (f w) _ h in
    let (vs, e', h₂) = >>=-eq-ok (map_result f (before ++ x ∷ after)) _ h₁ in
    let (ys, y, ys', fx, split) = map_result-split f before x after e' in
    (v ∷ ys, y, ys', fx, ground arith)

module _ (floats : FloatOps) where
  -- A function keeps its name and its attributes.
  visit_fun_def-parts :
      (def : FunDefContext) {fun : FunDef}
      → visit_fun_def floats def ≡ ok fun
      → (fun.name ≡ def.id) × (map_result visit_attr def.attrs ≡ ok fun.attrs.attrs)
  unfolding visit_fun_def
  visit_fun_def-parts def h =
      let (ret_type, _, h₁) = >>=-eq-ok (visit_ret_types floats def.types) _ h in
      let (params, _, h₂) = >>=-eq-ok (map_result (visit_param floats) def.params) _ h₁ in
      let (attrs, e, h₃) = >>=-eq-ok (map_result visit_attr def.attrs) _ h₂ in
      let (body, _, h₄) = >>=-eq-ok (visit_body floats def.body_context) _ h₃ in
      (
        sym (ap (λ (r : Result FunDef). elim r [ ok f ↦ f.name | err _ ↦ def.id ]) h₄),
        e ∙ ap (λ (r : Result FunDef). ok (elim r [ ok f ↦ f.attrs.attrs | err _ ↦ attrs ])) h₄,
      )

  visit_prog-funs :
      (tree : RootContext) {prog : Prog}
      → visit_prog floats tree ≡ ok prog
      → map_result (visit_fun_def floats) tree.fun_defs ≡ ok prog.funs
  unfolding visit_prog
  visit_prog-funs tree h =
      let (consts, _, h₁) = >>=-eq-ok (visit_stms floats tree.stms) _ h in
      let (funs, e, h₂) = >>=-eq-ok (map_result (visit_fun_def floats) tree.fun_defs) _ h₁ in
      e ∙ ap (λ (r : Result Prog). ok (elim r [ ok p ↦ p.funs | err _ ↦ funs ])) h₂

module _ (mlir : Mlir) (floats : FloatOps) where
  compile-inv :
      (tree : RootContext) (s : State mlir) {s' : State mlir} (r : Result Prog)
      → visit_prog floats tree ≡ r
      → (elim r [ ok prog ↦ lower_program mlir floats prog s | err e ↦ thrown e ]) ≡ done (tt, s')
      → (prog : Prog) × (visit_prog floats tree ≡ ok prog)
        × (lower_program mlir floats prog s ≡ done (tt, s'))
  compile-inv tree s (ok prog) e h = (prog, e, h)
  compile-inv tree s (err x) e h = cc

  -- Where a program is read from its parse tree and lowered by a new compiler, each function of the
  -- tree whose attributes make it no black box is created exactly once, under its own name.
  pub compile-creates_once :
      (tree : RootContext) (before : List FunDefContext) (def : FunDefContext)
      (after : List FunDefContext) (m : mlir.Module) {attrs : List Attr} {s' : State mlir}
      → tree.fun_defs ≡ before ++ def ∷ after
      → map_result visit_attr def.attrs ≡ ok attrs
      → maybe_black_box attrs ≡ ok none
      → compile mlir floats tree (new_compiler mlir floats m) ≡ done (tt, s')
      → count (creates def.id) s'.log ≡ 1
  unfolding compile
  compile-creates_once tree before def after m {attrs} {s'} split read plain h =
      let s = new_compiler mlir floats m in
      let (prog, parsed, lowered) = compile-inv tree s (visit_prog floats tree) refl h in
      let all = visit_prog-funs floats tree parsed in
      let (ys, fun, ys', found, split') =
        map_result-split (visit_fun_def floats) before def after
          (subst (λ ds. map_result (visit_fun_def floats) ds ≡ ok prog.funs) split all) in
      let (name_eq, attrs_eq) = visit_fun_def-parts floats def found in
      let same : ok attrs ≡ ok fun.attrs.attrs = sym read ∙ attrs_eq in
      let not_box =
        ap (λ (r : Result (List Attr)). elim r [ ok as' ↦ maybe_black_box as' | err e ↦ err e ])
          (sym same)
        ∙ plain in
      subst (λ name. count (creates name) s'.log ≡ 1) name_eq
        (lower_program-creates_once mlir floats prog ys fun ys' s split' not_box refl refl lowered)

  -- What an exit code of 0 stands for.
  abbrev pub IsSuccess : Option RootContext → mlir.Module → (mlir.Module → Bool) → Type 0
  IsSuccess none m verify = ⊥
  IsSuccess (some tree) m verify =
      (s : State mlir) × (compile mlir floats tree (new_compiler mlir floats m) ≡ done (tt, s))
      × (verify s.ir ≡ true)
      × Runs [] s.log []

  exit_of-IsSuccess :
      (tree : RootContext) (m : mlir.Module) (verify : mlir.Module → Bool)
      (o : Outcome (Unit {0} × State mlir))
      → compile mlir floats tree (new_compiler mlir floats m) ≡ o
      → exit_of mlir floats verify o ≡ returned 0
      → IsSuccess (some tree) m verify
  unfolding compile
  exit_of-IsSuccess tree m verify (done (_, s)) e h =
      let (prog, parsed, lowered) =
        compile-inv tree (new_compiler mlir floats m) (visit_prog floats tree) refl e in
      (s, e, ground arith, lower_program-Runs mlir floats prog _ here lowered)
  exit_of-IsSuccess tree m verify (thrown x) e h = cc
  exit_of-IsSuccess tree m verify out_of_fuel e h = cc

  -- Where `main` returns 0, there is a file, its program was read and lowered, the calls to MLIR are
  -- well nested, and the verifier accepts the module.
  pub main-IsSuccess :
      (file : Option RootContext) (m : mlir.Module) (verify : mlir.Module → Bool)
      → main mlir floats file m verify ≡ returned 0
      → IsSuccess file m verify
  unfolding main
  main-IsSuccess none m verify h = ground arith
  main-IsSuccess (some tree) m verify h = exit_of-IsSuccess tree m verify _ refl h
