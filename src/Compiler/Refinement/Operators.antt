-- ===== src/Compiler/Refinement/Operators.antt =====
-- compiler.hpp: constants, scalar operators, comparisons and conversions, against their meaning.
use mlir_backend.Prelude.{
  ℕ, ◌%◌, ◌^◌, ◌<◌, ◌≡◌, refl, Bool, true, false, [], ◌∷◌, Option, none, some, ok, arith,
}
use mlir_backend.Ir.Primitive.{
  IntType, int_type_width, IntValue, int8_value, int16_value, int32_value, int64_value,
  int_value_get, int_value_width, PrimType, PrimValue, prim_type_int, int_value, bool_value, BinOp,
  CmpOp, ConvOp, FloatOps,
}
use mlir_backend.Compiler.Monad.{lift, ◌>>=◌, pure}
use mlir_backend.Compiler.Mlir.{
  Mlir, integer, integer_attr, bool_attr, scalar, Arith, Cast, Comparison, CmpIPredicate, Op,
}
use mlir_backend.Compiler.State.{State, emit_one}
use mlir_backend.Compiler.Types.{lower_prim_type}
use mlir_backend.Compiler.Values.{get_prim_value_attr, lower_prim_value}
use mlir_backend.Compiler.Scalars.{
  lower_bin_op, lower_cmp_op, lower_conv_op, scalar_only, scalar_op, comparison,
}
use mlir_backend.Compiler.Refinement.Words.{Number, bit, extend_sign}
use mlir_backend.Compiler.Refinement.Source.{
  Meanings, number, int_value_bits, eval_prim_value, eval_bin_op, eval_cmp_op, eval_conv_op,
  on_type, widen, outcome,
}
use mlir_backend.Compiler.Refinement.Target.{Denotes, Semantics, IsIntArith, arith_bits, cmp_holds}
use mlir_backend.Compiler.Refinement.Later.{Computes, Computes-emit_one}

-- the low bits of a value that was converted to 64 bits
get-int_value_bits : (v : IntValue) → int_value_get v % 2 ^ int_value_width v ≡ int_value_bits v
unfolding int_value_get
get-int_value_bits (int8_value v) = ground arith
get-int_value_bits (int16_value v) = ground arith
get-int_value_bits (int32_value v) = ground arith
get-int_value_bits (int64_value v) = refl

-- An operator that has a result has operands of its type.
on_type-eq-some :
    (t : IntType) (x y : Number) (f : ℕ → ℕ → ℕ → Option Number) {z : Number}
    → on_type t x y f ≡ some z
    → (x.width ≡ int_type_width t)
      × (y.width ≡ int_type_width t)
      × (f (int_type_width t) x.pattern y.pattern ≡ some z)
on_type-eq-some t x y f h = ground arith

widen-eq-some :
    (from to : IntType) (x : Number) (r : Option Number) {z : Number}
    → widen from to x r ≡ some z
    → (x.width ≡ int_type_width from) × (int_type_width from < int_type_width to) × (r ≡ some z)
widen-eq-some from to x r h = ground arith

-- A result has the width of the operation, and where the code runs, its pattern.
outcome-eq-some :
    (run : Bool) (w : ℕ) (o : Option ℕ) {z : Number}
    → outcome run w o ≡ some z
    → (w ≡ z.width) × (run ≡ true → o ≡ some z.pattern)
outcome-eq-some false w o h = (cc, cc)
outcome-eq-some true w none h = cc
outcome-eq-some true w (some a) h = (cc, cc)

module _ (mlir : Mlir) (sem : Semantics mlir) (run : Bool) (ρ : Meanings) where
  open mlir use {Value, Func}

  as_width :
      {m : mlir.Module} {v : Value} {x : Number} {w : ℕ}
      → x.width ≡ w
      → Denotes mlir sem.bits run m v x
      → Denotes mlir sem.bits run m v (number w x.pattern)
  as_width e (t, d) = (rw e at t, d)

  pub Computes-lower_prim_value :
      (floats : FloatOps) (c : PrimValue) (x : Number) (s : State mlir)
      → eval_prim_value c ≡ some x
      → Computes mlir sem run ρ (lower_prim_value mlir floats c) x s
  unfolding lower_prim_value get_prim_value_attr lift ◌>>=◌
  Computes-lower_prim_value floats (int_value v) x s h =
      let w = int_value_width v in
      Computes-emit_one mlir sem run ρ
        (Op.constant (scalar (integer_attr (integer w) (int_value_get v)))) w (int_value_bits v) x s
        tt (cc) (λ r. cc)
        (rw (← get-int_value_bits v) (sem.int_constant run w (int_value_get v) s.ir))
  Computes-lower_prim_value floats (bool_value b) x s h =
      Computes-emit_one mlir sem run ρ (Op.constant (scalar (bool_attr b))) 1 (bit b) x s tt (cc)
        (λ r. cc) (sem.bool_constant run b s.ir)
  Computes-lower_prim_value floats _ x s h = cc

  module _ (a b : Value) (x y z : Number) (s : State mlir) (ha : Denotes mlir sem.bits run s.ir a x)
      (hb : Denotes mlir sem.bits run s.ir b y) where
    Computes-arith :
        (op : Arith) (t : IntType)
        → IsIntArith op
        → on_type t x y (λ w p q. outcome run w (arith_bits op w p q)) ≡ some z
        → Computes mlir sem run ρ (emit_one mlir (Op.arith op (a ∷ b ∷ []))) z s
    Computes-arith op t i h =
        let w = int_type_width t in
        let (ex, ey, h₁) = on_type-eq-some t x y (λ w p q. outcome run w (arith_bits op w p q)) h in
        let (ew, ez) = outcome-eq-some run w (arith_bits op w x.pattern y.pattern) h₁ in
        Computes-emit_one mlir sem run ρ (Op.arith op (a ∷ b ∷ [])) w z.pattern z s tt ew
          (λ r. refl)
          (sem.arith_op run op w _ _ z.pattern a b s.ir i (as_width ex ha) (as_width ey hb) ez)

    Computes-comparison :
        (p : CmpIPredicate) (t : IntType)
        → on_type t x y (λ w a b. outcome run 1 (some (bit (cmp_holds p w a b)))) ≡ some z
        → Computes mlir sem run ρ (emit_one mlir (Op.compare_op (Comparison.cmp_i p) a b)) z s
    Computes-comparison p t h =
        let w = int_type_width t in
        let (ex, ey, h₁) =
          on_type-eq-some t x y (λ w a b. outcome run 1 (some (bit (cmp_holds p w a b)))) h in
        let c = bit (cmp_holds p w x.pattern y.pattern) in
        let (ew, ez) = outcome-eq-some run 1 (some c) h₁ in
        Computes-emit_one mlir sem run ρ (Op.compare_op (Comparison.cmp_i p) a b) 1 c z s tt ew ez
          (sem.cmp_i_op run p w _ _ a b s.ir (as_width ex ha) (as_width ey hb))

    pub Computes-lower_bin_op :
        (op : BinOp)
        → eval_bin_op run op x y ≡ some z
        → Computes mlir sem run ρ (lower_bin_op mlir op a b) z s
    unfolding lower_bin_op scalar_only scalar_op pure ◌>>=◌
    Computes-lower_bin_op (BinOp.add t o) h = rw ha.0 (Computes-arith Arith.add_i t tt h)
    Computes-lower_bin_op (BinOp.mul t o) h = rw ha.0 (Computes-arith Arith.mul_i t tt h)
    Computes-lower_bin_op (BinOp.sub t o) h = rw ha.0 (Computes-arith Arith.sub_i t tt h)
    Computes-lower_bin_op (BinOp.s_quot t o) h = rw ha.0 (Computes-arith Arith.div_s_i t tt h)
    Computes-lower_bin_op (BinOp.s_div_up t o) h =
        rw ha.0 (Computes-arith Arith.ceil_div_s_i t tt h)
    Computes-lower_bin_op _ h = cc

    pub Computes-lower_cmp_op :
        (op : CmpOp)
        → eval_cmp_op run op x y ≡ some z
        → Computes mlir sem run ρ (lower_cmp_op mlir op a b) z s
    unfolding lower_cmp_op comparison lift ◌>>=◌
    Computes-lower_cmp_op (CmpOp.eq (PrimType.int t)) h = Computes-comparison CmpIPredicate.eq t h
    Computes-lower_cmp_op (CmpOp.ult t) h = Computes-comparison CmpIPredicate.ult t h
    Computes-lower_cmp_op (CmpOp.ule t) h = Computes-comparison CmpIPredicate.ule t h
    Computes-lower_cmp_op (CmpOp.slt t) h = Computes-comparison CmpIPredicate.slt t h
    Computes-lower_cmp_op (CmpOp.sle t) h = Computes-comparison CmpIPredicate.sle t h
    Computes-lower_cmp_op _ h = cc

  -- the type that `PrimType::Int` gives for a width
  int_type-lowered : (t : IntType) → prim_type_int (int_type_width t) ≡ ok (PrimType.int t)
  unfolding prim_type_int
  int_type-lowered t = ground arith

  pub Computes-lower_conv_op :
      (op : ConvOp) (a : Value) (x z : Number) (s : State mlir)
      → Denotes mlir sem.bits run s.ir a x
      → eval_conv_op run op x ≡ some z
      → Computes mlir sem run ρ (lower_conv_op mlir op a) z s
  unfolding lower_conv_op lower_prim_type lift ◌>>=◌
  Computes-lower_conv_op (ConvOp.z_ext from to) a x z s ha h =
      let w' = int_type_width to in
      let (ex, lt, h₁) = widen-eq-some from to x (outcome run w' (some x.pattern)) h in
      let (ew, ez) = outcome-eq-some run w' (some x.pattern) h₁ in
      rw (int_type-lowered to) (
        Computes-emit_one mlir sem run ρ (Op.cast Cast.ext_ui (integer w') a) w' x.pattern z s tt ew
          ez (sem.ext_ui_op run (int_type_width from) w' _ a s.ir lt (as_width ex ha)))
  Computes-lower_conv_op (ConvOp.s_ext from to) a x z s ha h =
      let w = int_type_width from in
      let w' = int_type_width to in
      let c = extend_sign w w' x.pattern in
      let (ex, lt, h₁) = widen-eq-some from to x (outcome run w' (some c)) h in
      let (ew, ez) = outcome-eq-some run w' (some c) h₁ in
      rw (int_type-lowered to) (
        Computes-emit_one mlir sem run ρ (Op.cast Cast.ext_si (integer w') a) w' c z s tt ew ez
          (sem.ext_si_op run w w' x.pattern a s.ir lt (as_width ex ha)))
  Computes-lower_conv_op _ a x z s ha h = cc
