-- ===== src/Compiler/Refinement/Source.antt =====
-- The meaning of a body of integer scalars in Futhark: statements that bind names to a value, an
-- integer operator, a comparison, a conversion to a wider type, the results of a conditional,
-- or one of two values that a primitive function selects.
-- `none` is what lies outside of this fragment, has the wrong type or has no meaning, such as a
-- division by zero. Names are bound once. An arm that is not taken does not run: there `run` is
-- false, only the widths matter, and every pattern that an operator computes is 0.
use mlir_backend.Prelude.{
  codes, map, ℕ, ◌%◌, ◌^◌, Bool, true, false, not, List, [], ◌∷◌, Option, none, some, Text, text_eq,
  ltb, leb, ◌==◌, ◌&&◌, if◌then◌else◌,
}
use mlir_backend.Ir.Primitive.{
  IntType, int_type_width, IntValue, int8_value, int16_value, int32_value, int64_value,
  int_value_width, PrimType, PrimValue, int_value, float_value, bool_value, unit_value, BinOp,
  CmpOp, ConvOp,
}
use mlir_backend.Ir.Core.{Diet, SubExp, constant, var}
use mlir_backend.Ir.Syntax.{
  BasicOp, Exp, Stm, stm, Stms, no_stms, more_stms, Body, body, FParam, FunDef, Prog,
}
use mlir_backend.Parser.Values.{starts_with}
use mlir_backend.Compiler.Lower.{elem_name, find_function}
use mlir_backend.Compiler.Refinement.Words.{
  Number, bit, add_words, sub_words, mul_words, quot_words, div_up_words, signed_lt, signed_le,
  extend_sign,
}

-- what the names in scope stand for
abbrev pub Meanings : Type 0
Meanings = Text → Option Number

abbrev pub number : ℕ → ℕ → Number
number w a = record { width = w; pattern = a }

infixl 5 ◌then_try◌
abbrev pub ◌then_try◌ : {A B : Type 0} → Option A → (A → Option B) → Option B
none then_try f = none
some a then_try f = f a

-- the bits of an integer
abbrev pub int_value_bits : IntValue → ℕ
int_value_bits (int8_value v) = v % 2 ^ 8
int_value_bits (int16_value v) = v % 2 ^ 16
int_value_bits (int32_value v) = v % 2 ^ 32
int_value_bits (int64_value v) = v % 2 ^ 64

abbrev pub eval_prim_value : PrimValue → Option Number
eval_prim_value (int_value v) = some (number (int_value_width v) (int_value_bits v))
eval_prim_value (float_value _) = none
eval_prim_value (bool_value b) = some (number 1 (bit b))
eval_prim_value unit_value = none

-- What an operation gives: where it runs, its pattern if it has one.
abbrev pub outcome : Bool → ℕ → Option ℕ → Option Number
outcome false w o = some (number w 0)
outcome true w none = none
outcome true w (some a) = some (number w a)

-- an operator of a type, on operands of its width
abbrev pub on_type : IntType → Number → Number → (ℕ → ℕ → ℕ → Option Number) → Option Number
on_type t x y f =
    let w = int_type_width t in
    if x.width == w && y.width == w then f w x.pattern y.pattern else none

abbrev pub widen : IntType → IntType → Number → Option Number → Option Number
widen from to x r =
    if x.width == int_type_width from && ltb (int_type_width from) (int_type_width to)
    then r
    else none

-- A pattern of one bit is a truth value.
abbrev pub eval_truth : Number → Option Bool
eval_truth x = if x.width == 1 && ltb x.pattern 2 then some (x.pattern == 1) else none

abbrev pub same_widths : List Number → List Number → Bool
same_widths [] [] = true
same_widths (x ∷ xs) (y ∷ ys) = x.width == y.width && same_widths xs ys
same_widths _ _ = false

module _ (run : Bool) where
  abbrev pub eval_bin_op : BinOp → Number → Number → Option Number
  eval_bin_op (BinOp.add t _) x y = on_type t x y λ w a b. outcome run w (some (add_words w a b))
  eval_bin_op (BinOp.sub t _) x y = on_type t x y λ w a b. outcome run w (some (sub_words w a b))
  eval_bin_op (BinOp.mul t _) x y = on_type t x y λ w a b. outcome run w (some (mul_words w a b))
  eval_bin_op (BinOp.s_quot t _) x y = on_type t x y λ w a b. outcome run w (quot_words w a b)
  eval_bin_op (BinOp.s_div_up t _) x y = on_type t x y λ w a b. outcome run w (div_up_words w a b)
  eval_bin_op _ x y = none

  abbrev truth : Bool → Option Number
  truth b = outcome run 1 (some (bit b))

  abbrev pub eval_cmp_op : CmpOp → Number → Number → Option Number
  eval_cmp_op (CmpOp.eq (PrimType.int t)) x y = on_type t x y λ w a b. truth (a == b)
  eval_cmp_op (CmpOp.ult t) x y = on_type t x y λ w a b. truth (ltb a b)
  eval_cmp_op (CmpOp.ule t) x y = on_type t x y λ w a b. truth (leb a b)
  eval_cmp_op (CmpOp.slt t) x y = on_type t x y λ w a b. truth (signed_lt w a b)
  eval_cmp_op (CmpOp.sle t) x y = on_type t x y λ w a b. truth (signed_le w a b)
  eval_cmp_op _ x y = none

  abbrev pub eval_conv_op : ConvOp → Number → Option Number
  eval_conv_op (ConvOp.z_ext from to) x =
      widen from to x (outcome run (int_type_width to) (some x.pattern))
  eval_conv_op (ConvOp.s_ext from to) x =
      let w = int_type_width from in
      let w' = int_type_width to in
      widen from to x (outcome run w' (some (extend_sign w w' x.pattern)))
  eval_conv_op _ x = none

abbrev pub eval_sub_exp : Meanings → SubExp → Option Number
eval_sub_exp ρ (constant c) = eval_prim_value c
eval_sub_exp ρ (var v) = ρ v.name

abbrev pub eval_basic_op : Bool → Meanings → BasicOp → Option Number
eval_basic_op run ρ (BasicOp.sub_exp e) = eval_sub_exp ρ e
eval_basic_op run ρ (BasicOp.bin_op op x y) =
    eval_sub_exp ρ x then_try λ a. eval_sub_exp ρ y then_try λ b. eval_bin_op run op a b
eval_basic_op run ρ (BasicOp.cmp_op op x y) =
    eval_sub_exp ρ x then_try λ a. eval_sub_exp ρ y then_try λ b. eval_cmp_op run op a b
eval_basic_op run ρ (BasicOp.conv_op op x) = eval_sub_exp ρ x then_try λ a. eval_conv_op run op a
eval_basic_op run ρ _ = none

abbrev pub eval_results : Meanings → List SubExp → Option (List Number)
eval_results ρ [] = some []
eval_results ρ (x ∷ xs) =
    eval_sub_exp ρ x then_try λ a. eval_results ρ xs then_try λ rest. some (a ∷ rest)

-- The name now stands for the number.
abbrev pub assign_number : Meanings → Text → Number → Meanings
assign_number ρ name x j = if text_eq name j then some x else ρ j

-- A name that has a meaning is not bound again.
abbrev pub bind_fresh : Option Number → Meanings → Text → Number → Option Meanings
bind_fresh none ρ name x = some (assign_number ρ name x)
bind_fresh (some _) ρ name x = none

abbrev pub bind_numbers :
    {A : Type 0} → (A → Text) → Meanings → List A → List Number → Option Meanings
bind_numbers name ρ [] [] = some ρ
bind_numbers name ρ (e ∷ es) (x ∷ xs) =
    bind_fresh (ρ (name e)) ρ (name e) x then_try λ ρ'. bind_numbers name ρ' es xs
bind_numbers name ρ _ _ = none

-- A condition selects one of two numbers of one width.
abbrev pub eval_select : List Number → Option Number
eval_select (c ∷ x ∷ y ∷ []) = eval_truth c then_try λ b.
    if x.width == y.width then some (number x.width (if b then x.pattern else y.pattern)) else none
eval_select _ = none

-- A function that the program does not define is a primitive one: those of the names `cond_t` select
-- one of their arguments.
abbrev pub eval_primitive : Bool → Option FunDef → Meanings → List SubExp → Option (List Number)
eval_primitive true none ρ args =
    eval_results ρ args then_try λ xs. eval_select xs then_try λ z. some (z ∷ [])
eval_primitive _ _ ρ args = none

module _ (funs : List FunDef) where
  unfoldable mutual
    pub eval_body : Bool → Meanings → Body → Option (List Number)
    eval_body run ρ (body ss rs) = eval_stms run ρ ss then_try λ ρ'. eval_results ρ' rs

    pub eval_stms : Bool → Meanings → Stms → Option Meanings
    eval_stms run ρ no_stms = some ρ
    eval_stms run ρ (more_stms s ss) = eval_stm run ρ s then_try λ ρ'. eval_stms run ρ' ss

    pub eval_stm : Bool → Meanings → Stm → Option Meanings
    eval_stm run ρ (stm p e) = eval_exp run ρ e then_try λ xs. bind_numbers elem_name ρ p.elems xs

    pub eval_exp : Bool → Meanings → Exp → Option (List Number)
    eval_exp run ρ (Exp.basic_op op) = eval_basic_op run ρ op then_try λ x. some (x ∷ [])
    eval_exp run ρ (Exp.exp_sub_exp e) = eval_sub_exp ρ e then_try λ x. some (x ∷ [])
    eval_exp run ρ (Exp.exp_if cond t e _ _) = eval_sub_exp ρ cond then_try λ x.
        eval_truth x then_try λ b. eval_body (run && b) ρ t then_try λ xs.
        eval_body (run && not b) ρ e then_try λ ys.
        if same_widths xs ys then some (if b then xs else ys) else none
    eval_exp run ρ (Exp.apply fname args types _) =
        eval_primitive (starts_with (codes "cond_") fname) (find_function fname funs) ρ
          (map (λ (a : SubExp × Diet). a.0) args)
    eval_exp run ρ _ = none

-- A function of the arguments: the program's constants, then the parameters, then the body.
unfoldable pub eval_function : Bool → Prog → FunDef → List Number → Option (List Number)
unfolding eval_stms eval_body
eval_function run prog fun arguments =
    eval_stms prog.funs run (λ name. none) prog.consts then_try λ ρ.
    bind_numbers (λ (p : FParam). p.name) ρ fun.params arguments then_try λ ρ'.
    eval_body prog.funs run ρ' fun.body
