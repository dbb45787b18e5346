-- ===== src/Tests/ScalarFixtures.antt =====
-- let c = x < k in let r = if c then x * x else x squot 0 in let w = sext r in
-- let m = cond_i32(c, r, k) in (m, w), where k is a constant of the program and x is 7 or minus 3;
-- and two functions more.
use Prim.Native.String.{String}
use mlir_backend.Prelude.{ℕ, ◌-◌, ◌^◌, false, [], ◌∷◌, none, codes}
use mlir_backend.Ir.Primitive.{
  overflow_wrap, Safety, PrimType, int32, int64, int_value, int32_value, BinOp, CmpOp, ConvOp,
}
use mlir_backend.Ir.Core.{Diet, SubExp, constant, vname, var, IrType, type_prim}
use mlir_backend.Ir.Syntax.{
  BasicOp, MatchSort, Exp, Stm, stm, no_stms, more_stms, Body, body, FunDef, Prog, RetAls,
}
use mlir_backend.Compiler.Env
use mlir_backend.Compiler.State.{State, Lower}
use mlir_backend.Compiler.Lower.{Callee}
use mlir_backend.Compiler.Functions.{lower_function}
use mlir_backend.Compiler.Refinement.Words.{Number}
use mlir_backend.Compiler.Refinement.Source.{Meanings, number, assign_number}
use mlir_backend.Compiler.Refinement.Simulation.{nothing_bound}
use mlir_backend.Parser.Tree
use mlir_backend.Parser.Tree.{RootContext}
use mlir_backend.Tests.Fixtures.{toy_floats}
use mlir_backend.Tests.Machine.{machine, cell}

abbrev pub named : String → SubExp
named x = var (vname (codes x))

abbrev pub i32_value : ℕ → SubExp
i32_value k = constant (int_value (int32_value k))

abbrev pub let_be : String → IrType → Exp → Stm
let_be x t e = stm (record { elems = record { name = vname (codes x); dec = t } ∷ [] }) e

abbrev pub i32 : IrType
i32 = type_prim (PrimType.int int32)

abbrev pub one_result : String → BasicOp → Body
one_result x op = body (more_stms (let_be x i32 (Exp.basic_op op)) no_stms) (named x ∷ [])

abbrev pub no_alias : RetAls
no_alias = record { param_als = []; other_als = [] }

abbrev pub square_or_fail : Body
square_or_fail =
    body
      (more_stms
        (let_be "c" (type_prim PrimType.bool)
          (Exp.basic_op (BasicOp.cmp_op (CmpOp.slt int32) (named "x") (named "k"))))
        (more_stms
          (let_be "r" i32 (
            Exp.exp_if (named "c")
              (one_result "p"
                (BasicOp.bin_op (BinOp.mul int32 overflow_wrap) (named "x") (named "x")))
              (one_result "q"
                (BasicOp.bin_op (BinOp.s_quot int32 Safety.unsafe) (named "x") (i32_value 0)))
              [] MatchSort.normal))
          (more_stms
            (let_be "w" (type_prim (PrimType.int int64))
              (Exp.basic_op (BasicOp.conv_op (ConvOp.s_ext int32 int64) (named "r"))))
            (more_stms
              (let_be "m" i32 (
                Exp.apply (codes "cond_i32")
                  ((named "c", Diet.observe)
                    ∷ (named "r", Diet.observe)
                    ∷ (named "k", Diet.observe)
                    ∷ [])
                  ((i32, no_alias) ∷ []) Safety.safe))
              no_stms))))
      (named "m" ∷ named "w" ∷ [])

abbrev pub limit : Prog
limit = record {
  consts = more_stms (let_be "k" i32 (Exp.basic_op (BasicOp.sub_exp (i32_value 9)))) no_stms;
  funs = [];
}

abbrev pub square_fun : FunDef
square_fun = record {
  entry = none;
  attrs = record { attrs = [] };
  name = codes "square";
  ret_type = (i32, no_alias) ∷ (type_prim (PrimType.int int64), no_alias) ∷ [];
  params = record { attrs = record { attrs = [] }; name = codes "x"; dec = i32 } ∷ [];
  body = square_or_fail;
}

abbrev pub minus_three : Number
minus_three = number 32 (2 ^ 32 - 3)

abbrev pub x_and_k : Meanings
x_and_k =
    assign_number (assign_number nothing_bound (codes "k") (number 32 9)) (codes "x") minus_three

abbrev pub idle : State machine
idle = record { subexps = Env.empty; functions = []; ir = []; log = [] }

abbrev pub with_k : State machine
with_k = record idle { subexps = Env.insert (codes "k") (cell (number 32 9)) idle.subexps }

abbrev pub with_x_and_k : State machine
with_x_and_k = record with_k { subexps = Env.insert (codes "x") (cell minus_three) with_k.subexps }

abbrev pub no_calls : FunDef → Lower machine (Callee machine.Func)
no_calls = lower_function machine toy_floats limit 0

-- Minus three is less than 9; the arm that divides by zero is lowered all the same, and alone.
abbrev pub divide : Body
divide =
    one_result "q" (BasicOp.bin_op (BinOp.s_quot int32 Safety.unsafe) (named "x") (i32_value 0))

abbrev pub divide_fun : FunDef
divide_fun = record square_fun {
  name = codes "divide";
  ret_type = (i32, no_alias) ∷ [];
  body = divide;
}

abbrev pub square_and_divide : Prog
square_and_divide = record limit { funs = square_fun ∷ divide_fun ∷ [] }

-- The file: fun double (x : i32) : i32 = let y = add32(x, x) in y
abbrev pub double_tree : RootContext
double_tree = record {
  stms = Tree.no_stms;
  fun_defs =
      record {
        attrs = [];
        has_entry = false;
        id = codes "double";
        types = Tree.type_prim (codes "i32") ∷ [];
        params = (codes "x", Tree.type_prim (codes "i32")) ∷ [];
        body_context =
            Tree.body
              (Tree.more_stms
                (Tree.stm ((codes "y", Tree.type_prim (codes "i32")) ∷ []) (
                  Tree.exp_basic_op (
                    Tree.BasicOpContext.binary (codes "add32") (Tree.var_sub_exp (codes "x"))
                      (Tree.var_sub_exp (codes "x")))))
                Tree.no_stms)
              (Tree.var_sub_exp (codes "y") ∷ []);
      }
      ∷ [];
}

abbrev pub double_fun : FunDef
double_fun = record {
  entry = none;
  attrs = record { attrs = [] };
  name = codes "double";
  ret_type = (i32, no_alias) ∷ [];
  params = record { attrs = record { attrs = [] }; name = codes "x"; dec = i32 } ∷ [];
  body = one_result "y" (BasicOp.bin_op (BinOp.add int32 overflow_wrap) (named "x") (named "x"));
}

abbrev pub double_prog : Prog
double_prog = record { consts = no_stms; funs = double_fun ∷ [] }
