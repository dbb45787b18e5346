-- ===== src/Compiler/Keeps/Lower.antt =====
-- The rules for bodies, statements, expressions and kernels. The functions that the program lists
-- are lowered by an argument, which comes with a proof that it keeps the invariant.
use mlir_backend.Prelude.{
  ◌≡◌, text_eq_refl, arith, Bool, true, false, List, [], ◌∷◌, Option, none, some, Text, text_eq,
  exists, if◌then◌else◌,
}
use mlir_backend.Ir.Primitive.{FloatOps}
use mlir_backend.Ir.Core.{SubExp, IrType, PatElem}
use mlir_backend.Ir.Syntax.{
  LetDec, LParam, Exp, Stm, stm, Stms, no_stms, more_stms, Body, body, Lambda, lambda, KernelBody,
  kernel_body, SegBinOp, seg_bin_op, SegBinOps, no_bin_ops, more_bin_ops, HistOp, hist_op, HistOps,
  no_hist_ops, more_hist_ops, SegOp, seg_map, seg_red, seg_scan, seg_hist, FunDef, Prog,
}
use mlir_backend.Compiler.Mlir.{Mlir, MlirType}
use mlir_backend.Compiler.State.{State, Lower, Values}
use mlir_backend.Compiler.Lower.{
  Callee, func, black_box, find_function, call_callee, cast_results, lower_apply, bind_pattern,
  lower_body, lower_stms, lower_stm, lower_exp, lower_kernel_stms, lower_kernel_stm, lower_lambda,
  lower_reduction, lower_operator, lower_histogram, lower_hist_op, lower_map, lower_scan_body,
  lower_seg_op,
}
use mlir_backend.Compiler.Nesting.{Region, Frame, running}
use mlir_backend.Compiler.Keeps.Rules.{
  Calls, Calls->>=, IsCallable, IsLowered, Kept, Kept->>=, Kept-weaken, with_functions, Invariant,
  KeepsAll, Keeps, Keeps-pure, Keeps-throw, Keeps-if, Keeps->>=,
}
use mlir_backend.Compiler.Keeps.Basic.{Keeps-call, Keeps-lower_sub_exp, value_rules}
use mlir_backend.Compiler.Keeps.Operations.{Keeps-lower_intrinsic, Keeps-lower_basic_op}
use mlir_backend.Compiler.Keeps.Blackboxes.{Keeps-lower_black_box}
use mlir_backend.Compiler.Keeps.Kernels.{
  Keeps-lower_seg_map, Keeps-lower_seg_red, Keeps-lower_seg_hist,
}
use mlir_backend.Compiler.Keeps.Loops.{Keeps-lower_seg_scan, Keeps-lower_loop}

-- Some function of the list has the name.
abbrev pub IsListed : Text → List FunDef → Type 0
IsListed name funs = exists (λ (f : FunDef). text_eq f.name name) funs ≡ true

abbrev pub IsFound : Option FunDef → List FunDef → Type 0
IsFound none funs = Unit {0}
IsFound (some f) funs = IsListed f.name funs

IsFound-weaken :
    (o : Option FunDef) (f : FunDef) (fs : List FunDef) → IsFound o fs → IsFound o (f ∷ fs)
IsFound-weaken none f fs h = tt
IsFound-weaken (some g) f fs h = ground arith

pub find_function-IsFound :
    (name : Text) (funs : List FunDef) → IsFound (find_function name funs) funs
unfolding find_function
find_function-IsFound name [] = tt
find_function-IsFound name (f ∷ fs) =
    elim (text_eq f.name name)
      as (λ b. IsFound (if b then some f else find_function name fs) (f ∷ fs)) [
        | true ↦ ground (arith, text_eq_refl f.name)
        | false ↦ IsFound-weaken _ f fs (find_function-IsFound name fs)
      ]

module _ (mlir : Mlir) (floats : FloatOps) (prog : Prog)
    (lower_function : FunDef → Lower mlir (Callee mlir.Func)) (I : Invariant mlir)
    (function_kept : (fun : FunDef)
      → IsListed fun.name prog.funs
      → (σ : List Frame) → Calls mlir I σ fun.name (lower_function fun))
    {r : Region} {σ : List Frame} where
  open mlir use {Value, Func}

  Keeps-bind_pattern :
      (elems : List (PatElem LetDec)) (vs : Values mlir)
      → Keeps mlir I (running r ∷ σ) (bind_pattern mlir floats prog lower_function elems vs)
  Keeps-bind_pattern elems vs = search value_rules depth 12

  Kept-call_callee :
      (args : List SubExp) (ts : List MlirType) (name : Text) (c : Callee Func) (s : State mlir)
      → I.holds (running r ∷ σ) s
      → IsCallable name c s.functions
      → Kept mlir
          (I.holds (running r ∷ σ))
          (call_callee mlir floats prog lower_function args ts c s)
  unfolding call_callee
  Kept-call_callee args ts name (func f) s h k =
      let known = with_functions (IsLowered f) I in
      let kept : Keeps mlir known (running r ∷ σ)
          (call_callee mlir floats prog lower_function args ts (func f)) =
        search (value_rules, Keeps-call) depth 20 in
      Kept-weaken (known.holds (running r ∷ σ)) _ _ (λ s' p. p.1) (kept.at s ((name, k), h))
  Kept-call_callee args ts name (black_box b) s h k =
      let kept : Keeps mlir I (running r ∷ σ)
          (call_callee mlir floats prog lower_function args ts (black_box b)) =
        search (value_rules, Keeps-lower_black_box) depth 20 in
      kept.at s h

  Keeps-cast_results :
      (vs : Values mlir) (ts : List MlirType)
      → Keeps mlir I (running r ∷ σ) (cast_results mlir floats prog lower_function vs ts)
  Keeps-cast_results vs ts = search value_rules depth 12

  Keeps-lower_apply :
      (fname : Text) (args : List SubExp) (ts : List IrType) (o : Option FunDef)
      → IsFound o prog.funs
      → Keeps mlir I (running r ∷ σ) (lower_apply mlir floats prog lower_function fname args ts o)
  unfolding lower_apply
  Keeps-lower_apply fname args ts none h = search (value_rules, Keeps-lower_intrinsic) depth 20
  Keeps-lower_apply fname args ts (some fun) h = Keeps->>= (search value_rules depth 12) λ types.
      Calls->>= fun.name _ _ (function_kept fun h (running r ∷ σ)) λ c s q k.
        Kept->>= (I.holds (running r ∷ σ)) _
          (call_callee mlir floats prog lower_function args types c) _ s
          (Kept-call_callee args types fun.name c s q k)
          λ vs s' h'. (Keeps-cast_results vs types).at s' h'

module _ (mlir : Mlir) (floats : FloatOps) (prog : Prog)
    (lower_function : FunDef → Lower mlir (Callee mlir.Func)) (I : Invariant mlir)
    (function_kept : (fun : FunDef)
      → IsListed fun.name prog.funs
      → (σ : List Frame) → Calls mlir I σ fun.name (lower_function fun)) where
  open mlir use {Value, Func}

  mutual
    unfolding lower_body lower_stms lower_stm lower_exp lower_kernel_stms lower_kernel_stm
        lower_lambda lower_reduction lower_operator lower_histogram lower_hist_op lower_map
        lower_scan_body lower_seg_op

    pub Keeps-lower_body :
        (r : Region) (σ : List Frame) (b : Body)
        → Keeps mlir I (running r ∷ σ) (lower_body mlir floats prog lower_function b)
    Keeps-lower_body r σ (body ss rs) =
        Keeps->>= (Keeps-lower_stms r σ ss) λ u. search value_rules depth 12

    pub Keeps-lower_stms :
        (r : Region) (σ : List Frame) (ss : Stms)
        → Keeps mlir I (running r ∷ σ) (lower_stms mlir floats prog lower_function ss)
    Keeps-lower_stms r σ no_stms = Keeps-pure tt
    Keeps-lower_stms r σ (more_stms s ss) =
        Keeps->>= (Keeps-lower_stm r σ s) λ u. Keeps-lower_stms r σ ss

    Keeps-lower_stm :
        (r : Region) (σ : List Frame) (s : Stm)
        → Keeps mlir I (running r ∷ σ) (lower_stm mlir floats prog lower_function s)
    Keeps-lower_stm r σ (stm p e) =
        Keeps->>= (Keeps-lower_exp r σ e)
          λ vs. Keeps-bind_pattern mlir floats prog lower_function I function_kept p.elems vs

    Keeps-lower_exp :
        (r : Region) (σ : List Frame) (e : Exp)
        → Keeps mlir I (running r ∷ σ) (lower_exp mlir floats prog lower_function e)
    Keeps-lower_exp r σ (Exp.basic_op op) =
        Keeps->>= (Keeps-lower_basic_op mlir floats I op) λ v. Keeps-pure (v ∷ [])
    Keeps-lower_exp r σ (Exp.exp_sub_exp x) =
        Keeps->>= (Keeps-lower_sub_exp mlir floats I x) λ v. Keeps-pure (v ∷ [])
    Keeps-lower_exp r σ (Exp.host_size_op op) = Keeps-throw _
    Keeps-lower_exp r σ (Exp.host_seg_op op) = Keeps-lower_seg_op r σ op
    Keeps-lower_exp r σ (Exp.host_gpu_body _ _) = Keeps-throw _
    Keeps-lower_exp r σ (Exp.apply fname args types _) =
        Keeps-lower_apply mlir floats prog lower_function I function_kept fname _ _
          (find_function fname prog.funs) (find_function-IsFound fname prog.funs)
    Keeps-lower_exp r σ (Exp.exp_loop merge form b) =
        Keeps-lower_loop mlir floats I merge form (lower_body mlir floats prog lower_function b)
          λ q τ. Keeps-lower_body q τ b
    Keeps-lower_exp r σ (Exp.exp_if cond t e types sort) =
        let then_kept : KeepsAll mlir I (lower_body mlir floats prog lower_function t) =
          λ q τ. Keeps-lower_body q τ t in
        let else_kept : KeepsAll mlir I (lower_body mlir floats prog lower_function e) =
          λ q τ. Keeps-lower_body q τ e in
        search value_rules depth 20

    Keeps-lower_kernel_stms :
        (r : Region) (σ : List Frame) (ss : Stms) (skip : List Text)
        → Keeps mlir I (running r ∷ σ) (lower_kernel_stms mlir floats prog lower_function ss skip)
    Keeps-lower_kernel_stms r σ no_stms skip = Keeps-pure tt
    Keeps-lower_kernel_stms r σ (more_stms s ss) skip =
        Keeps->>= (Keeps-lower_kernel_stm r σ s skip) λ u. Keeps-lower_kernel_stms r σ ss skip

    Keeps-lower_kernel_stm :
        (r : Region) (σ : List Frame) (s : Stm) (skip : List Text)
        → Keeps mlir I (running r ∷ σ) (lower_kernel_stm mlir floats prog lower_function s skip)
    Keeps-lower_kernel_stm r σ (stm p e) skip =
        let exp_kept = Keeps-lower_exp r σ e in
        search (value_rules, Keeps-bind_pattern mlir floats prog lower_function I function_kept)
          depth 12

    Keeps-lower_lambda :
        (r : Region) (σ : List Frame) (l : Lambda)
        → Keeps mlir I (running r ∷ σ) (lower_lambda mlir floats prog lower_function l)
    Keeps-lower_lambda r σ (lambda params ret b) = Keeps-lower_body r σ b

    Keeps-lower_reduction :
        (r : Region) (σ : List Frame) (os : SegBinOps)
        (k : List LParam
          → List IrType
          → Lower mlir (Values mlir)
          → List SubExp
          → Lower mlir (Values mlir))
        → ((ps : List LParam) (ts : List IrType) (m : Lower mlir (Values mlir)) (ne : List SubExp)
            → KeepsAll mlir I m
            → Keeps mlir I (running r ∷ σ) (k ps ts m ne))
        → Keeps mlir I (running r ∷ σ) (lower_reduction mlir floats prog lower_function os k)
    Keeps-lower_reduction r σ no_bin_ops k kk = Keeps-throw _
    Keeps-lower_reduction r σ (more_bin_ops o os) k kk = Keeps-lower_operator r σ o _ k kk

    Keeps-lower_operator :
        (r : Region) (σ : List Frame) (o : SegBinOp) (b : Bool)
        (k : List LParam
          → List IrType
          → Lower mlir (Values mlir)
          → List SubExp
          → Lower mlir (Values mlir))
        → ((ps : List LParam) (ts : List IrType) (m : Lower mlir (Values mlir)) (ne : List SubExp)
            → KeepsAll mlir I m
            → Keeps mlir I (running r ∷ σ) (k ps ts m ne))
        → Keeps mlir I (running r ∷ σ) (lower_operator mlir floats prog lower_function o b k)
    Keeps-lower_operator r σ (seg_bin_op comm l neutral shape) only k kk =
        Keeps-if _ (kk _ _ _ _ (λ q τ. Keeps-lower_lambda q τ l)) (Keeps-throw _)

    Keeps-lower_histogram :
        (r : Region) (σ : List Frame) (os : HistOps) (vs : Values mlir)
        → Keeps mlir I (running r ∷ σ) (lower_histogram mlir floats prog lower_function os vs)
    Keeps-lower_histogram r σ no_hist_ops vs = Keeps-throw _
    Keeps-lower_histogram r σ (more_hist_ops o os) vs = Keeps-lower_hist_op r σ o _ vs

    Keeps-lower_hist_op :
        (r : Region) (σ : List Frame) (o : HistOp) (b : Bool) (vs : Values mlir)
        → Keeps mlir I (running r ∷ σ) (lower_hist_op mlir floats prog lower_function o b vs)
    Keeps-lower_hist_op r σ (hist_op shape race dest neutral op_shape l) only vs =
        Keeps-if _
          (Keeps-lower_seg_hist mlir floats I vs dest _ _ (λ q τ. Keeps-lower_lambda q τ l))
          (Keeps-throw _)

    Keeps-lower_map :
        (r : Region) (σ : List Frame) (b : KernelBody)
        (k : Stms → (List Text → Lower mlir (Unit {0})) → List SubExp → Lower mlir (Values mlir))
        → ((ss : Stms) (m : List Text → Lower mlir (Unit {0})) (rs : List SubExp)
            → ((skip : List Text) → KeepsAll mlir I (m skip))
            → Keeps mlir I (running r ∷ σ) (k ss m rs))
        → Keeps mlir I (running r ∷ σ) (lower_map mlir floats prog lower_function b k)
    Keeps-lower_map r σ (kernel_body ss rs) k kk =
        kk _ _ _ λ skip q τ. Keeps-lower_kernel_stms q τ ss skip

    Keeps-lower_scan_body :
        (r : Region) (σ : List Frame) (b : KernelBody)
        (k : Lower mlir (Unit {0}) → List SubExp → Lower mlir (Values mlir))
        → ((m : Lower mlir (Unit {0})) (rs : List SubExp)
            → KeepsAll mlir I m
            → Keeps mlir I (running r ∷ σ) (k m rs))
        → Keeps mlir I (running r ∷ σ) (lower_scan_body mlir floats prog lower_function b k)
    Keeps-lower_scan_body r σ (kernel_body ss rs) k kk = kk _ _ λ q τ. Keeps-lower_stms q τ ss

    Keeps-lower_seg_op :
        (r : Region) (σ : List Frame) (o : SegOp)
        → Keeps mlir I (running r ∷ σ) (lower_seg_op mlir floats prog lower_function o)
    Keeps-lower_seg_op r σ (seg_map lvl space ret b) =
        Keeps-lower_map r σ b _
          λ ss m rs km. Keeps-lower_seg_map mlir floats I m km lvl space ret ss rs
    Keeps-lower_seg_op r σ (seg_red lvl space ret b ops) =
        Keeps->>= (search value_rules depth 5) λ u.
          Keeps-lower_reduction r σ ops _ λ ps ts op ne kop.
            Keeps-lower_map r σ b _
              λ ss m rs km. Keeps-lower_seg_red mlir floats I m km space ss rs ps ts op ne kop
    Keeps-lower_seg_op r σ (seg_scan lvl space ret b ops post) =
        Keeps->>= (search value_rules depth 5) λ u.
          Keeps-lower_reduction r σ ops _ λ ps ts op ne kop.
            Keeps-lower_scan_body r σ b _ λ m rs km.
              Keeps-lower_seg_scan mlir floats I space ret m rs ps op ne _ _ km kop
                (λ q τ. Keeps-lower_lambda q τ post)
    Keeps-lower_seg_op r σ (seg_hist lvl space ret b ops) =
        Keeps->>= (search value_rules depth 5) λ u.
          Keeps->>=
            (Keeps-lower_map r σ b _
              λ ss m rs km. Keeps-lower_seg_map mlir floats I m km lvl space ret ss rs)
            λ vs. Keeps->>= (search value_rules depth 5) λ v. Keeps-lower_histogram r σ ops vs
