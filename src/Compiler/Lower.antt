-- ===== src/Compiler/Lower.antt =====
-- compiler.hpp: bodies, statements, expressions and kernels. They call one another along the syntax;
-- `lower_function` is the way out of it, and is an argument.
use mlir_backend.Prelude.{
  Bool, true, false, List, [], ◌∷◌, Option, none, some, ◌==◌, ◌&&◌, if◌then◌else◌, length, map,
  Text, text_eq, Error,
}
use mlir_backend.Ir.Primitive.{FloatOps}
use mlir_backend.Ir.Core.{SubExp, IrType, Diet, PatElem}
use mlir_backend.Ir.Syntax.{
  LetDec, LParam, RetAls, Exp, Stm, stm, Stms, no_stms, more_stms, Body, body, Lambda, lambda,
  KernelBody, kernel_body, SegBinOp, seg_bin_op, SegBinOps, no_bin_ops, more_bin_ops, HistOp,
  hist_op, HistOps, no_hist_ops, more_hist_ops, SegOp, seg_map, seg_red, seg_scan, seg_hist, FunDef,
  Prog,
}
use mlir_backend.Compiler.Monad.{pure, throw, lift, ◌>>=◌, ◌>>◌, map_action, for_each}
use mlir_backend.Compiler.Mlir.{Mlir, MlirType, Op, RegionOp}
use mlir_backend.Compiler.State.{
  Lower, Values, emit, emit_unit, open_op, next_op, close_op, assert_that, zip_equal, bind,
}
use mlir_backend.Compiler.Types.{lower_ty}
use mlir_backend.Compiler.Values.{lower_sub_exp, lower_sub_exps, cast_to_type}
use mlir_backend.Compiler.Scalars.{lower_intrinsic}
use mlir_backend.Compiler.Tensors.{lower_basic_op}
use mlir_backend.Compiler.Blackboxes.{BlackBox, lower_black_box}
use mlir_backend.Compiler.Kernels.{
  require_thread_level, lower_seg_map, lower_seg_red, lower_seg_hist, is_skipped,
}
use mlir_backend.Compiler.Scans.{lower_seg_scan}
use mlir_backend.Compiler.Loops.{lower_loop}

-- `std::variant<mlir::func::FuncOp, BlackBox>`
pub data Callee (F : Type 0) : Type 0 where
  func : F → Callee F
  black_box : BlackBox → Callee F

-- `FindFunction`
unfoldable pub find_function : Text → List FunDef → Option FunDef
find_function fname [] = none
find_function fname (f ∷ fs) = if text_eq f.name fname then some f else find_function fname fs

-- `ops.size() == 1`, past the first operator
abbrev only_one : SegBinOps → Bool
only_one no_bin_ops = true
only_one (more_bin_ops _ _) = false

abbrev only_one_hist : HistOps → Bool
only_one_hist no_hist_ops = true
only_one_hist (more_hist_ops _ _) = false

abbrev lambda_params : Lambda → List LParam
lambda_params (lambda params _ _) = params

abbrev lambda_ret : Lambda → List IrType
lambda_ret (lambda _ ret _) = ret

-- Whether the first name of a kernel's statement is an affine read's.
abbrev skips : List (PatElem LetDec) → List Text → Bool
skips [] skip = false
skips (e ∷ _) skip = is_skipped skip e.name.name

-- The name that a pattern's element binds.
abbrev pub elem_name : PatElem LetDec → Text
elem_name e = e.name.name

module _ (mlir : Mlir) (floats : FloatOps) (prog : Prog)
    (lower_function : FunDef → Lower mlir (Callee mlir.Func)) where
  open mlir use {Value, Func}

  -- the end of `LowerStm`
  abbrev pub bind_pattern : List (PatElem LetDec) → Values mlir → Lower mlir (Unit {0})
  bind_pattern elems vs = do
    pairs ← zip_equal mlir elems vs
    for_each (λ (p : PatElem LetDec × Value). bind mlir (elem_name p.0) p.1) pairs

  abbrev pub cast_results : Values mlir → List MlirType → Lower mlir (Values mlir)
  cast_results returns types = do
    pairs ← zip_equal mlir returns types
    map_action (λ (p : Value × MlirType). cast_to_type mlir floats p.0 p.1) pairs

  unfoldable pub call_callee : List SubExp → List MlirType → Callee Func → Lower mlir (Values mlir)
  call_callee args ret_types (func f) = do
    pairs ← zip_equal mlir args (mlir.argument_types f)
    vs ←
        map_action
          (λ (p : SubExp × MlirType). do
            v ← lower_sub_exp mlir floats p.0
            cast_to_type mlir floats v p.1)
          pairs
    emit mlir (Op.call f vs)
  call_callee args ret_types (black_box b) = do
    vs ← lower_sub_exps mlir floats args
    lower_black_box mlir floats b vs ret_types

  -- `ExpApply`
  unfoldable pub lower_apply :
      Text → List SubExp → List IrType → Option FunDef → Lower mlir (Values mlir)
  unfolding call_callee
  lower_apply fname args types none = do
    vs ← lower_sub_exps mlir floats args
    lower_intrinsic mlir fname vs
  lower_apply fname args types (some fun) = do
    ret_types ← map_action (λ (t : IrType). lift (lower_ty mlir t)) types
    callee ← lower_function fun
    returns ← call_callee args ret_types callee
    cast_results returns ret_types

  unfoldable mutual
    unfolding find_function lower_apply

    -- `LowerBody`
    pub lower_body : Body → Lower mlir (Values mlir)
    lower_body (body ss rs) = do lower_stms ss; lower_sub_exps mlir floats rs

    pub lower_stms : Stms → Lower mlir (Unit {0})
    lower_stms no_stms = pure tt
    lower_stms (more_stms s ss) = do lower_stm s; lower_stms ss

    -- `LowerStm`
    pub lower_stm : Stm → Lower mlir (Unit {0})
    lower_stm (stm p e) = do vs ← lower_exp e; bind_pattern p.elems vs

    -- `LowerExp`, with `LowerHostOp` and `LowerSizeOp`
    pub lower_exp : Exp → Lower mlir (Values mlir)
    lower_exp (Exp.basic_op op) = do v ← lower_basic_op mlir floats op; pure (v ∷ [])
    lower_exp (Exp.exp_sub_exp x) = do v ← lower_sub_exp mlir floats x; pure (v ∷ [])
    lower_exp (Exp.host_size_op op) = throw Error.undefined
    lower_exp (Exp.host_seg_op op) = lower_seg_op op
    lower_exp (Exp.host_gpu_body _ _) = throw Error.undefined
    lower_exp (Exp.apply fname args types _) =
        lower_apply fname (map (λ (a : SubExp × Diet). a.0) args)
          (map (λ (t : IrType × RetAls). t.0) types) (find_function fname prog.funs)
    lower_exp (Exp.exp_loop merge form b) = lower_loop mlir floats merge form (lower_body b)
    -- Both arms are lowered in the context of the expression itself.
    lower_exp (Exp.exp_if cond t e types sort) = do
      c ← lower_sub_exp mlir floats cond
      _ ← open_op mlir (RegionOp.scf_if c)
      then_value ← lower_body t
      emit_unit mlir (Op.scf_yield then_value)
      next_op mlir
      else_value ← lower_body e
      emit_unit mlir (Op.scf_yield else_value)
      close_op mlir

    -- the loop of `LowerSegOpKernelBody` over its statements
    pub lower_kernel_stms : Stms → List Text → Lower mlir (Unit {0})
    lower_kernel_stms no_stms skip = pure tt
    lower_kernel_stms (more_stms s ss) skip = do lower_kernel_stm s skip; lower_kernel_stms ss skip

    pub lower_kernel_stm : Stm → List Text → Lower mlir (Unit {0})
    lower_kernel_stm (stm p e) skip = do
      let whole = (do vs ← lower_exp e; bind_pattern p.elems vs)
      assert_that mlir (length p.elems == 1)
      if skips p.elems skip then pure tt else whole

    -- the body of a lambda, in the context where its parameters are bound
    pub lower_lambda : Lambda → Lower mlir (Values mlir)
    lower_lambda (lambda params ret b) = lower_body b

    -- the one operator of a reduction, with what `LowerSegRed` does of it
    pub lower_reduction :
        SegBinOps
        → (List LParam
            → List IrType
            → Lower mlir (Values mlir)
            → List SubExp
            → Lower mlir (Values mlir))
        → Lower mlir (Values mlir)
    lower_reduction no_bin_ops k = throw Error.undefined
    lower_reduction (more_bin_ops o os) k = lower_operator o (only_one os) k

    pub lower_operator :
        SegBinOp
        → Bool
        → (List LParam
            → List IrType
            → Lower mlir (Values mlir)
            → List SubExp
            → Lower mlir (Values mlir))
        → Lower mlir (Values mlir)
    lower_operator (seg_bin_op comm l neutral shape) only k =
        if only && length shape.dims == 0
        then k (lambda_params l) (lambda_ret l) (lower_lambda l) neutral
        else throw Error.undefined

    pub lower_histogram : HistOps → Values mlir → Lower mlir (Values mlir)
    lower_histogram no_hist_ops inputs = throw Error.undefined
    lower_histogram (more_hist_ops o os) inputs = lower_hist_op o (only_one_hist os) inputs

    pub lower_hist_op : HistOp → Bool → Values mlir → Lower mlir (Values mlir)
    lower_hist_op (hist_op shape race dest neutral op_shape l) only inputs =
        if only
        then lower_seg_hist mlir floats inputs dest (lambda_params l) (lower_lambda l)
        else throw Error.undefined

    pub lower_map :
        KernelBody
        → (Stms → (List Text → Lower mlir (Unit {0})) → List SubExp → Lower mlir (Values mlir))
        → Lower mlir (Values mlir)
    lower_map (kernel_body ss rs) k = k ss (lower_kernel_stms ss) rs

    -- the body of a scan, whose statements are all lowered
    pub lower_scan_body :
        KernelBody
        → (Lower mlir (Unit {0}) → List SubExp → Lower mlir (Values mlir))
        → Lower mlir (Values mlir)
    lower_scan_body (kernel_body ss rs) k = k (lower_stms ss) rs

    -- `LowerSegOp`
    pub lower_seg_op : SegOp → Lower mlir (Values mlir)
    lower_seg_op (seg_map lvl space ret b) = lower_map b (lower_seg_map mlir floats lvl space ret)
    lower_seg_op (seg_red lvl space ret b ops) = do
      lift (require_thread_level lvl)
      lower_reduction ops λ params lambda_ret lower_op neutral. lower_map b λ ss lower_rest rs.
          lower_seg_red mlir floats space ss lower_rest rs params lambda_ret lower_op neutral
    lower_seg_op (seg_scan lvl space ret b ops post) = do
      lift (require_thread_level lvl)
      lower_reduction ops λ params lambda_ret lower_op neutral. lower_scan_body b λ lower_all rs.
          lower_seg_scan mlir floats space ret lower_all rs params lower_op neutral
            (lambda_params post) (lower_lambda post)
    lower_seg_op (seg_hist lvl space ret b ops) = do
      lift (require_thread_level lvl)
      inputs ← lower_map b (lower_seg_map mlir floats lvl space ret)
      if length inputs == 2 then pure tt else throw Error.undefined
      lower_histogram ops inputs
