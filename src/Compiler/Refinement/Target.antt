-- ===== src/Compiler/Refinement/Target.antt =====
-- What MLIR documents of the operations that integer scalars are lowered to: `arith.constant`,
-- `addi`, `subi`, `muli`, `divsi`, `ceildivsi`, `cmpi`, `select`, `extui`, `extsi` and `scf.if`.
-- A value's bits are spoken of at the insertion point, in a run of the code that comes before it.
use mlir_backend.Prelude.{
  ℕ, ◌%◌, ◌^◌, ◌<◌, ◌≡◌, Bool, true, not, ◌&&◌, List, [], ◌∷◌, Option, none, some, ltb, leb, ◌==◌,
  if◌then◌else◌,
}
use mlir_backend.Compiler.Mlir.{
  Mlir, integer, integer_attr, bool_attr, scalar, Arith, Cast, CmpIPredicate, Comparison, Op,
  RegionOp,
}
use mlir_backend.Compiler.Nesting.{IsPlain}
use mlir_backend.Compiler.Refinement.Words.{
  Number, bit, add_words, sub_words, mul_words, quot_words, div_up_words, signed_lt, signed_le,
  extend_sign,
}
use mlir_backend.Compiler.Refinement.Source.{number, same_widths}

-- The operations on integers that `arith_bits` speaks of.
abbrev pub IsIntArith : Arith → Type 0
IsIntArith Arith.add_i = Unit
IsIntArith Arith.sub_i = Unit
IsIntArith Arith.mul_i = Unit
IsIntArith Arith.div_s_i = Unit
IsIntArith Arith.ceil_div_s_i = Unit
IsIntArith _ = ⊥

-- The result's bits, for operands of so many bits. `none` is undefined behaviour.
abbrev pub arith_bits : Arith → ℕ → ℕ → ℕ → Option ℕ
arith_bits Arith.add_i w a b = some (add_words w a b)
arith_bits Arith.sub_i w a b = some (sub_words w a b)
arith_bits Arith.mul_i w a b = some (mul_words w a b)
arith_bits Arith.div_s_i w a b = quot_words w a b
arith_bits Arith.ceil_div_s_i w a b = div_up_words w a b
arith_bits _ w a b = none

abbrev pub cmp_holds : CmpIPredicate → ℕ → ℕ → ℕ → Bool
cmp_holds CmpIPredicate.eq w a b = a == b
cmp_holds CmpIPredicate.ult w a b = ltb a b
cmp_holds CmpIPredicate.ule w a b = leb a b
cmp_holds CmpIPredicate.slt w a b = signed_lt w a b
cmp_holds CmpIPredicate.sle w a b = signed_le w a b

module _ (mlir : Mlir) where
  open mlir use {Value, Func, Module, type_of, create}

  -- What is created at one place of one region, with whole conditionals among it.
  pub data Inside : Module → Module → Type 0 where
    nothing : {m : Module} → Inside m m
    an_op :
        {m m₁ : Module} (op : Op Value Func)
        → IsPlain op
        → Inside m m₁
        → Inside m ((create op m₁).1)
    an_if :
        {m m₀ m₁ m₂ : Module} (c : Value) (vs ws : List Value)
        → Inside m m₀
        → Inside ((mlir.open_region (RegionOp.scf_if c) m₀).1) m₁
        → Inside (mlir.next_region ((create (Op.scf_yield vs) m₁).1)) m₂
        → Inside m ((mlir.close_region ((create (Op.scf_yield ws) m₂).1)).1)

  pub Inside-trans : {m m₁ m₂ : Module} → Inside m m₁ → Inside m₁ m₂ → Inside m m₂
  Inside-trans h nothing = h
  Inside-trans h (an_op op p k) = an_op op p (Inside-trans h k)
  Inside-trans h (an_if c vs ws k t e) = an_if c vs ws (Inside-trans h k) t e

  module _ (bits : Module → Value → Option ℕ) where
    -- No value's bits are lost from the one place to the other.
    abbrev pub Stays : Module → Module → Type 0
    Stays m m' = (v : Value) (a : ℕ) → bits m v ≡ some a → bits m' v ≡ some a

    -- The value is an integer of the number's width, and has the number's bits if the code runs.
    abbrev pub Denotes : Bool → Module → Value → Number → Type 0
    Denotes run m v x = (type_of v ≡ integer x.width) × (run ≡ true → bits m v ≡ some x.pattern)

    -- The values denote the numbers, one for one.
    pub data AllDenote (run : Bool) (m : Module) : List Value → List Number → Type 0 where
      none_denotes : AllDenote run m [] []
      more_denote :
          {v : Value} {x : Number} {vs : List Value} {xs : List Number}
          → Denotes run m v x
          → AllDenote run m vs xs
          → AllDenote run m (v ∷ vs) (x ∷ xs)

    -- An operation that was created here has one result, which denotes the number.
    abbrev pub Yields : Bool → Number → Module → List Value × Module → Type 0
    Yields run x m (vs, m') =
        (v : Value) × (vs ≡ v ∷ []) × Denotes run m' v x × (run ≡ true → Stays m m')

  -- `bits` is what a value holds when the code before the insertion point has run. Each law has a
  -- case for code that is created and does not run, where it speaks of types alone.
  pub record Semantics : Type 0 where
    pub bits : Module → Value → Option ℕ
    -- `IntegerAttr::get(type, value)` keeps the low bits of the value.
    pub int_constant :
        (run : Bool) (w a : ℕ) (m : Module)
        → Yields bits run
            (number w (a % 2 ^ w))
            m
            (create (Op.constant (scalar (integer_attr (integer w) a))) m)
    pub bool_constant :
        (run b : Bool) (m : Module)
        → Yields bits run (number 1 (bit b)) m (create (Op.constant (scalar (bool_attr b))) m)
    pub arith_op :
        (run : Bool) (op : Arith) (w a b c : ℕ) (x y : Value) (m : Module)
        → IsIntArith op
        → Denotes bits run m x (number w a)
        → Denotes bits run m y (number w b)
        → (run ≡ true → arith_bits op w a b ≡ some c)
        → Yields bits run (number w c) m (create (Op.arith op (x ∷ y ∷ [])) m)
    pub cmp_i_op :
        (run : Bool) (p : CmpIPredicate) (w a b : ℕ) (x y : Value) (m : Module)
        → Denotes bits run m x (number w a)
        → Denotes bits run m y (number w b)
        → Yields bits run
            (number 1 (bit (cmp_holds p w a b)))
            m
            (create (Op.compare_op (Comparison.cmp_i p) x y) m)
    pub ext_ui_op :
        (run : Bool) (w w' a : ℕ) (x : Value) (m : Module)
        → w < w'
        → Denotes bits run m x (number w a)
        → Yields bits run (number w' a) m (create (Op.cast Cast.ext_ui (integer w') x) m)
    pub ext_si_op :
        (run : Bool) (w w' a : ℕ) (x : Value) (m : Module)
        → w < w'
        → Denotes bits run m x (number w a)
        → Yields bits run
            (number w' (extend_sign w w' a))
            m
            (create (Op.cast Cast.ext_si (integer w') x) m)
    pub select_op :
        (run b : Bool) (w p q : ℕ) (c x y : Value) (m : Module)
        → Denotes bits run m c (number 1 (bit b))
        → Denotes bits run m x (number w p)
        → Denotes bits run m y (number w q)
        → Yields bits run
            (number w (if b then p else q))
            m
            (create (Op.arith Arith.select (c ∷ x ∷ y ∷ [])) m)
    -- The first region of an `scf.if` runs if the condition is true, the second if it is false,
    -- and the results are what the region that ran has yielded.
    pub then_region :
        (c : Value) (m : Module)
        → Denotes bits true m c (number 1 1)
        → Stays bits m ((mlir.open_region (RegionOp.scf_if c) m).1)
    pub else_region :
        (c : Value) (vs : List Value) (m m₁ : Module)
        → Denotes bits true m c (number 1 0)
        → Inside ((mlir.open_region (RegionOp.scf_if c) m).1) m₁
        → Stays bits m (mlir.next_region ((create (Op.scf_yield vs) m₁).1))
    pub if_results :
        (run b : Bool) (c : Value) (vs ws : List Value) (xs ys : List Number) (m m₁ m₂ : Module)
        → Denotes bits run m c (number 1 (bit b))
        → Inside ((mlir.open_region (RegionOp.scf_if c) m).1) m₁
        → AllDenote bits (run && b) m₁ vs xs
        → ((run && b) ≡ true → Stays bits ((mlir.open_region (RegionOp.scf_if c) m).1) m₁)
        → Inside (mlir.next_region ((create (Op.scf_yield vs) m₁).1)) m₂
        → AllDenote bits (run && not b) m₂ ws ys
        → ((run && not b) ≡ true
            → Stays bits (mlir.next_region ((create (Op.scf_yield vs) m₁).1)) m₂)
        → same_widths xs ys ≡ true
        → (AllDenote bits run
            ((mlir.close_region ((create (Op.scf_yield ws) m₂).1)).1)
            ((mlir.close_region ((create (Op.scf_yield ws) m₂).1)).0)
            (if b then xs else ys))
          × (run ≡ true → Stays bits m ((mlir.close_region ((create (Op.scf_yield ws) m₂).1)).1))
