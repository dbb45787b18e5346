-- ===== src/Compiler/Scope/SegOp.antt =====
-- compiler.hpp `LowerSegOp` and `LowerLoop`: the context after a kernel and after a loop.
use mlir_backend.Prelude.{◌≡◌, Bool, List, Text}
use mathlib.Core.Path.{subst}
use mlir_backend.Ir.Primitive.{FloatOps}
use mlir_backend.Ir.Core.{SubExp, IrType}
use mlir_backend.Ir.Syntax.{
  FParam, LParam, LoopForm, Stms, Body, KernelBody, kernel_body, SegBinOp, seg_bin_op, SegBinOps,
  no_bin_ops, more_bin_ops, HistOp, hist_op, HistOps, no_hist_ops, more_hist_ops, SegOp, seg_map,
  seg_red, seg_scan, seg_hist, FunDef, Prog, Exp,
}
use mlir_backend.Compiler.Monad.{done}
use mlir_backend.Compiler.Mlir.{Mlir}
use mlir_backend.Compiler.State.{State, Lower, Values}
use mlir_backend.Compiler.Lower.{
  Callee, lower_exp, lower_reduction, lower_operator, lower_histogram, lower_hist_op, lower_map,
  lower_scan_body, lower_seg_op, lower_body,
}
use mlir_backend.Compiler.Scope.{
  Restores, SameContext, Restores->>=, Restores-throw, Restores-if, Restores-lower_loop,
  Restores-lower_seg_map, Restores-lower_seg_red, Restores-lower_seg_hist, Restores-lower_seg_scan,
  scope_rules,
}

module _ (mlir : Mlir) (floats : FloatOps) (prog : Prog)
    (lower_function : FunDef → Lower mlir (Callee mlir.Func)) where
  abbrev Reduction : Type 0
  Reduction =
      List LParam → List IrType → Lower mlir (Values mlir) → List SubExp → Lower mlir (Values mlir)

  Restores-lower_operator :
      (o : SegBinOp) (only : Bool) (k : Reduction)
      → ((ps : List LParam) (ts : List IrType) (m : Lower mlir (Values mlir)) (ne : List SubExp)
          → Restores mlir (k ps ts m ne))
      → Restores mlir (lower_operator mlir floats prog lower_function o only k)
  unfolding lower_operator
  Restores-lower_operator (seg_bin_op comm l neutral shape) only k kk =
      Restores-if _ (kk _ _ _ _) (Restores-throw _)

  Restores-lower_reduction :
      (os : SegBinOps) (k : Reduction)
      → ((ps : List LParam) (ts : List IrType) (m : Lower mlir (Values mlir)) (ne : List SubExp)
          → Restores mlir (k ps ts m ne))
      → Restores mlir (lower_reduction mlir floats prog lower_function os k)
  unfolding lower_reduction
  Restores-lower_reduction no_bin_ops k kk = Restores-throw _
  Restores-lower_reduction (more_bin_ops o os) k kk = Restores-lower_operator o _ k kk

  Restores-lower_hist_op :
      (o : HistOp) (only : Bool) (vs : Values mlir)
      → Restores mlir (lower_hist_op mlir floats prog lower_function o only vs)
  unfolding lower_hist_op
  Restores-lower_hist_op (hist_op shape race dest neutral op_shape l) only vs =
      Restores-if _ (Restores-lower_seg_hist mlir floats vs dest _ _) (Restores-throw _)

  Restores-lower_histogram :
      (os : HistOps) (vs : Values mlir)
      → Restores mlir (lower_histogram mlir floats prog lower_function os vs)
  unfolding lower_histogram
  Restores-lower_histogram no_hist_ops vs = Restores-throw _
  Restores-lower_histogram (more_hist_ops o os) vs = Restores-lower_hist_op o _ vs

  Restores-lower_map :
      (b : KernelBody)
      (k : Stms → (List Text → Lower mlir (Unit {0})) → List SubExp → Lower mlir (Values mlir))
      → ((ss : Stms) (m : List Text → Lower mlir (Unit {0})) (rs : List SubExp)
          → Restores mlir (k ss m rs))
      → Restores mlir (lower_map mlir floats prog lower_function b k)
  unfolding lower_map
  Restores-lower_map (kernel_body ss rs) k kk = kk _ _ _

  Restores-lower_scan_body :
      (b : KernelBody) (k : Lower mlir (Unit {0}) → List SubExp → Lower mlir (Values mlir))
      → ((m : Lower mlir (Unit {0})) (rs : List SubExp) → Restores mlir (k m rs))
      → Restores mlir (lower_scan_body mlir floats prog lower_function b k)
  unfolding lower_scan_body
  Restores-lower_scan_body (kernel_body ss rs) k kk = kk _ _

  Restores-lower_seg_op :
      (o : SegOp) → Restores mlir (lower_seg_op mlir floats prog lower_function o)
  unfolding lower_seg_op
  Restores-lower_seg_op (seg_map lvl space ret b) =
      Restores-lower_map b _ λ ss m rs. Restores-lower_seg_map mlir floats lvl space ret ss m rs
  Restores-lower_seg_op (seg_red lvl space ret b ops) =
      Restores->>= (search scope_rules depth 5) λ u. Restores-lower_reduction ops _ λ ps ts op ne.
        Restores-lower_map b _
          λ ss m rs. Restores-lower_seg_red mlir floats space ss m rs ps ts op ne
  Restores-lower_seg_op (seg_scan lvl space ret b ops post) =
      Restores->>= (search scope_rules depth 5) λ u. Restores-lower_reduction ops _ λ ps ts op ne.
        Restores-lower_scan_body b _
          λ m rs. Restores-lower_seg_scan mlir floats space ret m rs ps op ne _ _
  Restores-lower_seg_op (seg_hist lvl space ret b ops) =
      Restores->>= (search scope_rules depth 5) λ u.
        Restores->>=
          (Restores-lower_map b _
            λ ss m rs. Restores-lower_seg_map mlir floats lvl space ret ss m rs)
          λ vs. Restores->>= (search scope_rules depth 5) λ v. Restores-lower_histogram ops vs

  -- Where a kernel is lowered, of whatever kind, the context is what it was before: no name that is
  -- bound in the kernel, nor by its operators, is bound after it.
  pub lower_seg_op-subexps :
      (o : SegOp) (s : State mlir) {s' : State mlir} {vs : Values mlir}
      → lower_seg_op mlir floats prog lower_function o s ≡ done (vs, s')
      → s'.subexps ≡ s.subexps
  lower_seg_op-subexps o s e = subst (SameContext mlir s) e ((Restores-lower_seg_op o).at s)

  -- Where a loop is lowered, the context is what it was before: neither the counter, nor the merge
  -- parameters, nor a name that is bound in its body is bound after it.
  pub lower_exp-subexps :
      (merge : List (FParam × SubExp)) (form : LoopForm) (b : Body) (s : State mlir)
      {s' : State mlir} {vs : Values mlir}
      → lower_exp mlir floats prog lower_function (Exp.exp_loop merge form b) s ≡ done (vs, s')
      → s'.subexps ≡ s.subexps
  unfolding lower_exp
  lower_exp-subexps merge form b s e = subst (SameContext mlir s) e (
      (Restores-lower_loop mlir floats merge form (lower_body mlir floats prog lower_function b)).at
        s)
