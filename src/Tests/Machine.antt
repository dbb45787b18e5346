-- ===== src/Tests/Machine.antt =====
-- An instance of MLIR whose values carry their bits: an operation on integers computes at once, and
-- the module is the stack of what the conditionals that stand open have been given.
use mlir_backend.Prelude.{
  ℕ, ◌%◌, ◌^◌, ◌≡◌, refl, Bool, true, false, not, ◌&&◌, ◌==◌, List, [], ◌∷◌, Option, none, some,
  Text, if◌then◌else◌, arith,
}
use mathlib.Core.Path.{◌∙◌, ap}
use mlir_backend.Compiler.Mlir.{
  Mlir, MlirType, integer, index, integer_attr, bool_attr, Constant, scalar, Arith, Cast,
  Comparison, Op, RegionOp,
}
use mlir_backend.Compiler.Nesting.{IsPlain}
use mlir_backend.Compiler.Refinement.Words.{Number, bit, extend_sign}
use mlir_backend.Compiler.Refinement.Source.{number, same_widths, ◌then_try◌}
use mlir_backend.Compiler.Refinement.Target.{
  Inside, nothing, an_op, an_if, Denotes, AllDenote, none_denotes, more_denote, Semantics,
  arith_bits, cmp_holds,
}
use mlir_backend.Compiler.Refinement.Signatures.{types_of, Entry}

pub record Cell : Type 0 where
  pub kind : MlirType
  pub bits : Option ℕ

abbrev width_of : MlirType → ℕ
width_of (integer w) = w
width_of _ = 0

abbrev constant_cell : Constant → Cell
constant_cell (scalar (integer_attr (integer w) a)) = record {
  kind = integer w;
  bits = some (a % 2 ^ w);
}
constant_cell (scalar (bool_attr b)) = record { kind = integer 1; bits = some (bit b) }
constant_cell _ = record { kind = index; bits = none }

abbrev cast_bits : Cast → MlirType → MlirType → ℕ → Option ℕ
cast_bits Cast.ext_ui from to a = some a
cast_bits Cast.ext_si from to a = some (extend_sign (width_of from) (width_of to) a)
cast_bits _ from to a = none

abbrev select_cell : Cell → Cell → Cell → Cell
select_cell c x y = record {
  kind = x.kind;
  bits = c.bits then_try λ b. if b == 1 then x.bits else y.bits;
}

abbrev arith_cell : Arith → List Cell → Cell
arith_cell op (x ∷ y ∷ []) = record {
  kind = x.kind;
  bits = x.bits then_try λ a. y.bits then_try λ b. arith_bits op (width_of x.kind) a b;
}
arith_cell _ (c ∷ x ∷ y ∷ []) = select_cell c x y
arith_cell _ _ = record { kind = index; bits = none }

abbrev compare_cell : Comparison → Cell → Cell → Cell
compare_cell (Comparison.cmp_i p) x y = record {
  kind = integer 1;
  bits = x.bits then_try λ a. y.bits then_try λ b. some (bit (cmp_holds p (width_of x.kind) a b));
}
compare_cell _ x y = record { kind = integer 1; bits = none }

abbrev results : Op Cell (Text × List MlirType) → List Cell
results (Op.constant c) = constant_cell c ∷ []
results (Op.arith op xs) = arith_cell op xs ∷ []
results (Op.compare_op p x y) = compare_cell p x y ∷ []
results (Op.cast op t x) =
    record { kind = t; bits = x.bits then_try λ a. cast_bits op x.kind t a } ∷ []
results _ = []

-- what a conditional yields goes on the stack
abbrev pushed : Op Cell (Text × List MlirType) → List (List Cell) → List (List Cell)
pushed (Op.scf_yield vs) m = vs ∷ m
pushed _ m = m

abbrev opened_by : RegionOp Cell → List (List Cell) → List (List Cell)
opened_by (RegionOp.scf_if c) m = (c ∷ []) ∷ m
opened_by _ m = m

abbrev is_one : Option ℕ → Bool
is_one none = false
is_one (some a) = a == 1

-- the second arm's values, the first arm's, and the condition
abbrev taken_off : List (List Cell) → List Cell × List (List Cell)
taken_off (ws ∷ vs ∷ (c ∷ []) ∷ m) = (if is_one c.bits then vs else ws, m)
taken_off m = ([], m)

-- every argument of a call is 7
abbrev sevens : List MlirType → List Cell
sevens [] = []
sevens (t ∷ ts) = record { kind = t; bits = some 7 } ∷ sevens ts

abbrev pub machine : Mlir
machine = record {
  Value = Cell;
  Func = Text × List MlirType;
  Module = List (List Cell);
  type_of = λ v. v.kind;
  k_dynamic = 1000;
  create = λ op m. (results op, pushed op m);
  open_region = λ op m. ([], opened_by op m);
  next_region = λ m. m;
  close_region = taken_off;
  create_func = λ name inputs rets m. ((name, inputs), m);
  argument_types = λ f. f.1;
  open_func = λ f m. (sevens f.1, m);
  close_func = λ m. m;
  are_cast_compatible = λ a b. false;
  reassociation = λ a b. none;
  constant_ints = λ v m. none;
  constant_int = λ v m. none;
  asserts = true;
}

abbrev bits_of : List (List Cell) → Cell → Option ℕ
bits_of m v = v.bits

plain-pushed :
    (op : Op Cell (Text × List MlirType)) (m : List (List Cell)) → IsPlain op → pushed op m ≡ m
plain-pushed (Op.scf_yield vs) m h = absurd h
plain-pushed _ m h = refl

-- Whole conditionals leave the stack as it was.
Inside-same : {m m' : List (List Cell)} → Inside machine m m' → m' ≡ m
Inside-same nothing = refl
Inside-same (an_op {m₁} op p h) = plain-pushed op m₁ p ∙ Inside-same h
Inside-same (an_if {m₀ = m₀} {m₁} {m₂} c vs ws h t e) =
    ap (λ m. (taken_off (ws ∷ m)).1) (Inside-same e ∙ ap (λ m. vs ∷ m) (Inside-same t))
    ∙ Inside-same h

heads_same :
    (x y : Number) (xs ys : List Number)
    → same_widths (x ∷ xs) (y ∷ ys) ≡ true
    → (x.width ≡ y.width) × (same_widths xs ys ≡ true)
heads_same x y xs ys h = ground arith

-- The bits are the value's own, wherever it stands.
anywhere :
    {run : Bool} {m m' : List (List Cell)} {vs : List Cell} {xs : List Number}
    → AllDenote machine bits_of run m vs xs
    → AllDenote machine bits_of run m' vs xs
anywhere none_denotes = none_denotes
anywhere (more_denote d ds) = more_denote d (anywhere ds)

-- Where the code does not run, only the widths matter.
other_widths :
    {m m' : List (List Cell)} (vs : List Cell) (xs ys : List Number)
    → AllDenote machine bits_of false m vs xs
    → same_widths xs ys ≡ true
    → AllDenote machine bits_of false m' vs ys
other_widths _ [] [] none_denotes h = none_denotes
other_widths _ (x ∷ xs) (y ∷ ys) (more_denote {vs = vs} (t, d) ds) h =
    let (e, h') = heads_same x y xs ys h in
    more_denote (t ∙ ap integer e, λ f. cc) (other_widths vs xs ys ds h')
other_widths _ [] (y ∷ ys) _ h = cc
other_widths _ (x ∷ xs) [] _ h = cc

same_widths_sym : (xs ys : List Number) → same_widths xs ys ≡ true → same_widths ys xs ≡ true
same_widths_sym [] [] h = refl
same_widths_sym (x ∷ xs) (y ∷ ys) h =
    let (e, h') = heads_same x y xs ys h in ground (arith, same_widths_sym xs ys h')
same_widths_sym [] (y ∷ ys) h = cc
same_widths_sym (x ∷ xs) [] h = cc

chosen :
    (run b one : Bool) {m m₁ m₂ : List (List Cell)} (vs ws : List Cell) (xs ys : List Number)
    → (run ≡ true → one ≡ b)
    → AllDenote machine bits_of (run && b) m₁ vs xs
    → AllDenote machine bits_of (run && not b) m₂ ws ys
    → same_widths xs ys ≡ true
    → AllDenote machine bits_of run m (if one then vs else ws) (if b then xs else ys)
chosen true true one vs ws xs ys h dv dw w = rw (h refl) (anywhere dv)
chosen true false one vs ws xs ys h dv dw w = rw (h refl) (anywhere dw)
chosen false true true vs ws xs ys h dv dw w = anywhere dv
chosen false true false vs ws xs ys h dv dw w = other_widths ws ys xs dw (same_widths_sym xs ys w)
chosen false false true vs ws xs ys h dv dw w = other_widths vs xs ys dv w
chosen false false false vs ws xs ys h dv dw w = anywhere dw

bits_one : (b : Bool) {o : Option ℕ} → o ≡ some (bit b) → is_one o ≡ b
bits_one true e = rw e refl
bits_one false e = rw e refl

selected :
    (b : Bool) (o x y : Option ℕ) {p q : ℕ}
    → o ≡ some (bit b)
    → x ≡ some p
    → y ≡ some q
    → (o then_try λ c. if c == 1 then x else y) ≡ some (if b then p else q)
selected true o x y e ex ey = rw (e, ex) refl
selected false o x y e ex ey = rw (e, ey) refl

pub meaning : Semantics machine
meaning = record {
  bits = bits_of;
  int_constant = λ run w a m. (_, refl, (refl, λ r. refl), λ r v a h. h);
  bool_constant = λ run b m. (_, refl, (refl, λ r. refl), λ r v a h. h);
  arith_op = λ run op w a b c x y m i (tx, dx) (ty, dy) e.
      (_, refl, (tx, λ r. rw (dx r, dy r, tx) (e r)), λ r v a h. h);
  cmp_i_op = λ run p w a b x y m (tx, dx) (ty, dy).
      (_, refl, (refl, λ r. rw (dx r, dy r, tx) refl), λ r v a h. h);
  ext_ui_op = λ run w w' a x m lt (tx, dx). (_, refl, (refl, λ r. rw (dx r) refl), λ r v a h. h);
  ext_si_op =
      λ run w w' a x m lt (tx, dx). (_, refl, (refl, λ r. rw (dx r, tx) refl), λ r v a h. h);
  select_op = λ run b w p q c x y m (tc, dc) (tx, dx) (ty, dy).
      (_, refl, (tx, λ r. selected b c.bits x.bits y.bits (dc r) (dx r) (dy r)), λ r v a h. h);
  then_region = λ c m d v a h. h;
  else_region = λ c vs m m₁ d i v a h. h;
  if_results = λ run b c vs ws xs ys m m₁ m₂ (tc, dc) i₁ dv s₁ i₂ dw s₂ w.
      let e : m₂ ≡ vs ∷ (c ∷ []) ∷ m = Inside-same i₂ ∙ ap (λ m. vs ∷ m) (Inside-same i₁) in
      (
        rw e (chosen run b (is_one c.bits) vs ws xs ys (λ r. bits_one b (dc r)) dv dw w),
        λ r v a h. h,
      );
}

-- the cell of a number
abbrev pub cell : Number → Cell
cell x = record { kind = integer x.width; bits = some x.pattern }

pub cell-Denotes :
    (m : List (List Cell)) (x : Number) → Denotes machine meaning.bits true m (cell x) x
unfolding meaning
cell-Denotes m x = (refl, λ r. refl)

pub seven_entry : Entry machine meaning true (number 32 7 ∷ [])
seven_entry = record {
  created_types = λ name inputs results m. refl;
  entry_block = λ f m e. rw e (more_denote (cell-Denotes m (number 32 7)) none_denotes);
}

-- The arguments have the types of the function, whatever these are.
sevens-types_of :
    (m : List (List Cell)) (xs : List Number)
    → AllDenote machine meaning.bits false m (sevens (types_of xs)) xs
sevens-types_of m [] = none_denotes
sevens-types_of m (x ∷ xs) = more_denote (refl, λ r. cc) (sevens-types_of m xs)

pub typed_entry : (arguments : List Number) → Entry machine meaning false arguments
typed_entry arguments = record {
  created_types = λ name inputs results m. refl;
  entry_block = λ f m e. rw e (sevens-types_of m arguments);
}
