-- ===== src/Parser/Visit.antt =====
-- parser.hpp: statements, bodies, control flow, kernels, functions and the program. The visitor
-- follows the parse tree, so its functions are one block over the tree's types.
pub mod Space
use mlir_backend.Prelude.{
  Bool, true, false, List, [], ◌∷◌, Option, none, some, ◌==◌, if◌then◌else◌, Text, codes, text_eq,
  length, Result, ok, err, ◌>>=◌, Error, map_result,
}
use mlir_backend.Ir.Primitive.{FloatOps, Safety}
use mlir_backend.Ir.Core.{
  vname, Commutativity, SubExp, Shape, IrType, Diet, PatElem, Pat, Attr, atom_attr, comp_attr,
  AttrArgs, no_args, more_args, Attrs,
}
use mlir_backend.Ir.Gpu.{SizeClass, SizeOp, size_class_from_name}
use mlir_backend.Ir.Syntax.{
  LetDec, FParam, RetAls, MatchSort, LoopForm, SegVirt, SegLevel, seg_thread, seg_block,
  seg_thread_in_block, SegSpace, Exp, Stm, Stms, Body, Lambda, KernelBody, SegBinOp, SegBinOps,
  HistOp, HistOps, SegOp, EntryPoint, FunDef, Prog,
}
use mlir_backend.Parser.Numbers.{stoll}
use mlir_backend.Parser.Tree.{
  SubExpContext, TypeContext, ExtShapeContext, NamedType, SizeClassContext, SizeOpContext,
  LoopFormContext, SegLevelContext, SegSpaceContext, ExpContext, StmContext, StmContexts,
  BodyContext, CaseBodyContext, KernelBodyContext, LambdaContext, SegBinOpContext, SegBinOpContexts,
  HistOpContext, HistOpContexts, SegOpContext, FunDefContext, RootContext,
}
use mlir_backend.Parser.Values.{
  visit_sub_exp, visit_sub_exps, visit_var, visit_ext_shape, visit_type, visit_prim_type,
}
use mlir_backend.Parser.Operators.{as_int}
use mlir_backend.Parser.BasicOps.{visit_basic_op}

abbrev no_als : RetAls
no_als = record { param_als = []; other_als = [] }

abbrev no_attrs : Attrs
no_attrs = record { attrs = [] }

atom_args : List Text → AttrArgs
atom_args [] = no_args
atom_args (s ∷ ids) = more_args (atom_attr s) (atom_args ids)

-- `VisitAttr`, on the IDs of the rule; the grammar gives at least one.
unfoldable pub visit_attr : List Text → Result Attr
unfolding atom_args
visit_attr [] = err Error.undefined_behaviour
visit_attr (name ∷ []) = ok (atom_attr name)
visit_attr (name ∷ arg ∷ args) = ok (comp_attr name (atom_args (arg ∷ args)))

-- `VisitSizeClass`: the path of a threshold is left empty.
unfoldable pub visit_size_class : SizeClassContext → Result SizeClass
unfolding size_class_from_name
visit_size_class (SizeClassContext.size_class_threshold none) =
    ok (SizeClass.threshold (record { def = none; path = [] }))
visit_size_class (SizeClassContext.size_class_threshold (some number)) = do
  v ← stoll number
  ok (SizeClass.threshold (record { def = some v; path = [] }))
visit_size_class (SizeClassContext.size_class_named name) = ok (size_class_from_name name)

-- `VisitSegVirt`
abbrev visit_seg_virt : Text → SegVirt
visit_seg_virt text = if text_eq text (codes "virtualise") then SegVirt.virt else SegVirt.no_virt

-- `VisitSegLevel`
unfoldable pub visit_seg_level : SegLevelContext → SegLevel
unfolding text_eq
visit_seg_level (SegLevelContext.seg_level_thread v) = seg_thread (visit_seg_virt v)
visit_seg_level (SegLevelContext.seg_level_block v) = seg_block (visit_seg_virt v)
visit_seg_level SegLevelContext.seg_level_thread_in_block = seg_thread_in_block

module _ (floats : FloatOps) where
  abbrev visit_types : List TypeContext → Result (List IrType)
  visit_types = map_result (visit_type floats)

  -- the return types of `VisitFunDef` and `VisitApply`
  abbrev pub visit_ret_types : List TypeContext → Result (List (IrType × RetAls))
  visit_ret_types = map_result λ t. visit_type floats t >>= λ t'. ok (t', no_als)

  -- `VisitFParam`, and the parameters of loops and lambdas
  abbrev pub visit_param : NamedType → Result FParam
  visit_param (name, t) = do
    t' ← visit_type floats t
    ok (record { attrs = no_attrs; name = name; dec = t' })

  -- `VisitPatElem`
  abbrev visit_pat_elem : NamedType → Result (PatElem LetDec)
  visit_pat_elem (name, t) = do
    t' ← visit_type floats t
    ok (record { name = vname name; dec = t' })

  -- `VisitPat`
  abbrev visit_pat : List NamedType → Result (Pat LetDec)
  visit_pat ts = do es ← map_result visit_pat_elem ts; ok (record { elems = es })

  -- The merge parameters of a loop, each visited with its initial value.
  visit_merge : List NamedType → List SubExpContext → Result (List (FParam × SubExp))
  visit_merge [] _ = ok []
  visit_merge (p ∷ ps) [] = err Error.undefined_behaviour
  visit_merge (p ∷ ps) (i ∷ is) = do
    p' ← visit_param p
    i' ← visit_sub_exp floats i
    rest ← visit_merge ps is
    ok ((p', i') ∷ rest)

  -- `VisitLoopForm`
  unfoldable pub visit_loop_form : LoopFormContext → Result LoopForm
  visit_loop_form (LoopFormContext.loop_for i t bound) = do
    prim_type ← visit_prim_type t
    int_type ← as_int prim_type
    bound' ← visit_sub_exp floats bound
    ok (LoopForm.for_loop (vname i) int_type bound')
  visit_loop_form (LoopFormContext.loop_while c) = ok (LoopForm.while_loop (vname c))

  -- `VisitSizeOpInner`
  unfoldable pub visit_size_op : SizeOpContext → Result SizeOp
  unfolding visit_size_class
  visit_size_op (SizeOpContext.size_op_get_size name cls) = do
    ok (SizeOp.get_size name (← visit_size_class cls))
  visit_size_op (SizeOpContext.size_op_get_size_max cls) = do
    ok (SizeOp.get_size_max (← visit_size_class cls))
  visit_size_op (SizeOpContext.size_op_cmp_size_le name cls x) = do
    cls' ← visit_size_class cls
    x' ← visit_sub_exp floats x
    ok (SizeOp.cmp_size_le name cls' x')

  -- The loop of `VisitSegSpace`: the i-th ID goes with the i-th size, and the next one is the flat
  -- id. An ID that is not there is read out of bounds.
  unfoldable pub visit_space_dims :
      List Text → List SubExpContext → Result (List (Text × SubExp) × Text)
  visit_space_dims [] sizes = err Error.undefined_behaviour
  visit_space_dims (name ∷ names) [] = ok ([], name)
  visit_space_dims (name ∷ names) (size ∷ sizes) = do
    size' ← visit_sub_exp floats size
    (dims, flat_id) ← visit_space_dims names sizes
    ok ((name, size') ∷ dims, flat_id)

  -- `VisitSegSpace`
  unfoldable pub visit_seg_space : SegSpaceContext → Result SegSpace
  unfolding visit_space_dims
  visit_seg_space ctx = do
    (dims, flat_id) ← visit_space_dims ctx.ids ctx.sub_exps
    ok (record { flat_id = flat_id; dims = dims })

  -- The operator shape of a `HistOp` and the shape of a `SegBinOp`: empty where there is none.
  abbrev visit_shape_option : Option ExtShapeContext → Result Shape
  visit_shape_option none = ok (record { dims = [] })
  visit_shape_option (some shape) = visit_ext_shape floats shape

  -- `VisitExpIf`'s sort
  abbrev match_sort : Option Text → MatchSort
  match_sort none = MatchSort.normal
  match_sort (some sort) =
      if text_eq sort (codes "<equiv>") then MatchSort.equiv else MatchSort.fallback

  unfoldable mutual
    unfolding text_eq visit_merge

    -- `VisitExp`
    pub visit_exp : ExpContext → Result Exp
    -- `VisitExpSegOp`
    visit_exp (ExpContext.exp_seg_op op) = do ok (Exp.host_seg_op (← visit_seg_op op))
    -- `VisitApply`
    visit_exp (ExpContext.exp_apply fname args types) = do
      args' ← map_result (λ a. visit_sub_exp floats a >>= λ a'. ok (a', Diet.consume)) args
      types' ← visit_ret_types types
      ok (Exp.apply fname args' types' Safety.unsafe)
    -- `VisitExpBasicOp`
    visit_exp (ExpContext.exp_basic_op op) = do ok (Exp.basic_op (← visit_basic_op floats op))
    -- `VisitSizeOp`
    visit_exp (ExpContext.exp_size_op op) = do ok (Exp.host_size_op (← visit_size_op op))
    -- `VisitExpIf`
    visit_exp (ExpContext.exp_if sort c t e types) = do
      cond ← visit_sub_exp floats c
      then_body ← visit_case_body t
      else_body ← visit_case_body e
      types' ← visit_types types
      ok (Exp.exp_if cond then_body else_body types' (match_sort sort))
    -- `VisitExpLoop`
    visit_exp (ExpContext.exp_loop params inits form b) = do
      let rest = (do
        merge ← visit_merge params inits
        form' ← visit_loop_form form
        body ← visit_case_body b
        ok (Exp.exp_loop merge form' body))
      if length params == length inits then rest else err Error.loop_arity
    -- `VisitExpGpuBody`
    visit_exp (ExpContext.exp_gpu_body types b) = do
      types' ← visit_types types
      body ← visit_case_body b
      ok (Exp.host_gpu_body types' body)
    -- `VisitExpSubExp`
    visit_exp (ExpContext.exp_sub_exp x) = do ok (Exp.exp_sub_exp (← visit_sub_exp floats x))

    -- `VisitStm`
    pub visit_stm : StmContext → Result Stm
    visit_stm (StmContext.stm p e) = do pat ← visit_pat p; exp ← visit_exp e; ok (Stm.stm pat exp)

    pub visit_stms : StmContexts → Result Stms
    visit_stms StmContexts.no_stms = ok Stms.no_stms
    visit_stms (StmContexts.more_stms s ss) = do
      s' ← visit_stm s
      ss' ← visit_stms ss
      ok (Stms.more_stms s' ss')

    -- `VisitBody`, `VisitNormalBody` and `VisitEmptyBody`
    pub visit_body : BodyContext → Result Body
    visit_body (BodyContext.body ss rs) = do
      ss' ← visit_stms ss
      rs' ← visit_sub_exps floats rs
      ok (Body.body ss' rs')
    visit_body (BodyContext.empty_body rs) = do
      ok (Body.body Stms.no_stms (← visit_sub_exps floats rs))

    -- `VisitCaseBody`
    pub visit_case_body : CaseBodyContext → Result Body
    visit_case_body (CaseBodyContext.case_body_full ss rs) = do
      ss' ← visit_stms ss
      rs' ← visit_sub_exps floats rs
      ok (Body.body ss' rs')
    visit_case_body (CaseBodyContext.case_body_result rs) = do
      ok (Body.body Stms.no_stms (← visit_sub_exps floats rs))

    -- `VisitKernelBody`, `VisitNormalKernelBody` and `VisitEmptyKernelBody`
    pub visit_kernel_body : KernelBodyContext → Result KernelBody
    visit_kernel_body (KernelBodyContext.kernel_body ss rs) = do
      ss' ← visit_stms ss
      rs' ← visit_sub_exps floats rs
      ok (KernelBody.kernel_body ss' rs')
    visit_kernel_body (KernelBodyContext.empty_kernel_body rs) = do
      ok (KernelBody.kernel_body Stms.no_stms (← visit_sub_exps floats rs))

    -- `VisitLambda`
    pub visit_lambda : LambdaContext → Result Lambda
    visit_lambda (LambdaContext.lambda params types b) = do
      params' ← map_result visit_param params
      types' ← visit_types types
      body ← visit_body b
      ok (Lambda.lambda params' types' body)

    -- `VisitSegBinOp`
    pub visit_seg_bin_op : SegBinOpContext → Result SegBinOp
    visit_seg_bin_op (SegBinOpContext.seg_bin_op ne shape comm l) = do
      lambda ← visit_lambda l
      ne' ← visit_sub_exps floats ne
      shape' ← visit_shape_option shape
      ok (
          SegBinOp.seg_bin_op
            (if text_eq comm (codes "commutative")
              then Commutativity.commutative
              else Commutativity.noncommutative)
            lambda ne' shape')

    pub visit_seg_bin_ops : SegBinOpContexts → Result SegBinOps
    visit_seg_bin_ops SegBinOpContexts.no_bin_ops = ok SegBinOps.no_bin_ops
    visit_seg_bin_ops (SegBinOpContexts.more_bin_ops o os) = do
      o' ← visit_seg_bin_op o
      os' ← visit_seg_bin_ops os
      ok (SegBinOps.more_bin_ops o' os')

    -- `VisitHistOp`
    pub visit_hist_op : HistOpContext → Result HistOp
    visit_hist_op (HistOpContext.hist_op shape race dest ne op_shape l) = do
      shape' ← visit_ext_shape floats shape
      race' ← visit_sub_exp floats race
      dest' ← map_result (visit_var floats) dest
      ne' ← visit_sub_exps floats ne
      op_shape' ← visit_shape_option op_shape
      lambda ← visit_lambda l
      ok (HistOp.hist_op shape' race' dest' ne' op_shape'.dims lambda)

    pub visit_hist_ops : HistOpContexts → Result HistOps
    visit_hist_ops HistOpContexts.no_hist_ops = ok HistOps.no_hist_ops
    visit_hist_ops (HistOpContexts.more_hist_ops o os) = do
      o' ← visit_hist_op o
      os' ← visit_hist_ops os
      ok (HistOps.more_hist_ops o' os')

    -- `VisitSegMap`, `VisitSegRed`, `VisitSegScan` and `VisitSegHist`
    pub visit_seg_op : SegOpContext → Result SegOp
    visit_seg_op (SegOpContext.seg_map lvl space types b) = do
      space' ← visit_seg_space space
      types' ← visit_types types
      body ← visit_kernel_body b
      ok (SegOp.seg_map (visit_seg_level lvl) space' types' body)
    visit_seg_op (SegOpContext.seg_red lvl space types b ops) = do
      space' ← visit_seg_space space
      types' ← visit_types types
      body ← visit_kernel_body b
      ops' ← visit_seg_bin_ops ops
      ok (SegOp.seg_red (visit_seg_level lvl) space' types' body ops')
    visit_seg_op (SegOpContext.seg_scan lvl space types b ops post) = do
      space' ← visit_seg_space space
      types' ← visit_types types
      body ← visit_kernel_body b
      ops' ← visit_seg_bin_ops ops
      post_op ← visit_lambda post
      ok (SegOp.seg_scan (visit_seg_level lvl) space' types' body ops' post_op)
    visit_seg_op (SegOpContext.seg_hist lvl space types b ops) = do
      space' ← visit_seg_space space
      types' ← visit_types types
      body ← visit_kernel_body b
      ops' ← visit_hist_ops ops
      ok (SegOp.seg_hist (visit_seg_level lvl) space' types' body ops')

  -- `VisitEntry`: an entry point with nothing in it.
  abbrev visit_entry : Bool → Option EntryPoint
  visit_entry true = some (record { name = []; params = []; results = [] })
  visit_entry false = none

  -- `VisitFunDef`
  unfoldable pub visit_fun_def : FunDefContext → Result FunDef
  visit_fun_def ctx = do
    ret_type ← visit_ret_types ctx.types
    params ← map_result visit_param ctx.params
    attrs ← map_result visit_attr ctx.attrs
    body ← visit_body ctx.body_context
    ok (record {
      entry = visit_entry ctx.has_entry;
      attrs = record { attrs = attrs };
      name = ctx.id;
      ret_type = ret_type;
      params = params;
      body = body;
    })

  -- `VisitProg`
  unfoldable pub visit_prog : RootContext → Result Prog
  visit_prog ctx = do
    consts ← visit_stms ctx.stms
    funs ← map_result visit_fun_def ctx.fun_defs
    ok (record { consts = consts; funs = funs })
