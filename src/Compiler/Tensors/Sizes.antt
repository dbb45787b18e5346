-- ===== src/Compiler/Tensors/Sizes.antt =====
-- compiler.hpp `LowerBasicOp`: the sizes given to `tensor.empty`, which has a value for each dynamic
-- dimension of its type.
use mlir_backend.Prelude.{
  ℕ, suc, ◌≡◌, refl, ap, List, [], ◌∷◌, ◌++◌, length, count, All, All-append, length-append,
  count-append, length-map_result, Bool, true, false, if◌then◌else◌, Result, ok, err, arith,
}
use mathlib.Core.Path.{subst}
use mlir_backend.Ir.Primitive.{FloatOps, PrimType}
use mlir_backend.Ir.Core.{SubExp, constant, var}
use mlir_backend.Compiler.Monad.{Outcome, done, thrown, out_of_fuel, pure, throw, lift, ◌>>=◌}
use mlir_backend.Compiler.Env
use mlir_backend.Compiler.Mlir.{Mlir, MlirType, ranked_tensor, integer, f16, f32, f64, index, Op}
use mlir_backend.Compiler.State.{
  State, Call, created, Lower, Values, emit, emit_one, head_value, lookup, size_if,
}
use mlir_backend.Compiler.Types.{is_dynamic, to_shape_type}
use mlir_backend.Compiler.Values.{lower_prim_value, lower_sub_exp}
use mlir_backend.Compiler.Tensors.{
  dynamic_sizes, read_back_sizes, lower_scratch, inner_part, broadcast_to, lower_replicate,
}

module _ (mlir : Mlir) where
  open mlir use {Value, Func}

  abbrev dynamic_count : List ℕ → ℕ
  dynamic_count = count (is_dynamic mlir)

  -- A `tensor.empty` has as many sizes as its type has dynamic dimensions.
  abbrev pub IsSized : Call Value Func → Type 0
  IsSized (created (Op.tensor_empty (ranked_tensor shape _) sizes)) =
      length sizes ≡ dynamic_count shape
  IsSized _ = Unit

  abbrev Ended : {A : Type 0} → (A → Type 0) → Outcome (A × State mlir) → Type 0
  Ended Q (done (a, s)) = Q a × All IsSized s.log
  Ended Q _ = Unit

-- Actions that emit sized operations alone, and whose result satisfies `Q`.
record Emits (mlir : Mlir) {A : Type 0} (Q : A → Type 0) (m : Lower mlir A) : Type 0 where
  at : (s : State mlir) → All (IsSized mlir) s.log → Ended mlir Q (m s)

abbrev Anything : {A : Type 0} → A → Type 0
Anything a = Unit {0}

module _ {mlir : Mlir} where
  open mlir use {Value, Func}

  Emits-pure : {A : Type 0} {Q : A → Type 0} (a : A) → Q a → Emits mlir Q (pure a)
  unfolding pure
  Emits-pure a q = record { at = λ s h. (q, h) }

  Emits-lift :
      {A : Type 0} {Q : A → Type 0} (r : Result A)
      → ((a : A) → r ≡ ok a → Q a)
      → Emits mlir Q (lift r)
  unfolding lift
  Emits-lift (ok a) q = record { at = λ s h. (q a refl, h) }
  Emits-lift (err e) q = record { at = λ s h. tt }

  Ended-then :
      {A B : Type 0} {Q : A → Type 0} {R : B → Type 0} (o : Outcome (A × State mlir))
      (f : A → Lower mlir B)
      → Ended mlir Q o
      → ((a : A) → Q a → Emits mlir R (f a))
      → Ended mlir R
          (elim o [ done (a, s') ↦ f a s' | thrown e ↦ thrown e | out_of_fuel ↦ out_of_fuel ])
  Ended-then (done (a, s)) f (q, h) k = (k a q).at s h
  Ended-then (thrown e) f h k = tt
  Ended-then out_of_fuel f h k = tt

  Emits->>= :
      {A B : Type 0} {Q : A → Type 0} {R : B → Type 0} {m : Lower mlir A} {f : A → Lower mlir B}
      → Emits mlir Q m
      → ((a : A) → Q a → Emits mlir R (f a))
      → Emits mlir R (m >>= f)
  unfolding ◌>>=◌
  Emits->>= {m = m} {f = f} km kf = record { at = λ s h. Ended-then (m s) f (km.at s h) kf }

  Emits-emit_one :
      (op : Op Value Func) → IsSized mlir (created op) → Emits mlir Anything (emit_one mlir op)
  unfolding emit head_value throw pure
  Emits-emit_one op sized =
      Emits->>= {Q = Anything}
        (record {
          at = λ s h. (tt, All-append (IsSized mlir) s.log (created op ∷ []) h (sized, tt));
        })
        λ vs q. first vs
    where
      first : (vs : Values mlir) → Emits mlir Anything (head_value mlir vs)
      first [] = record { at = λ s h. tt }
      first (v ∷ _) = record { at = λ s h. (tt, h) }

  Emits-size_if :
      (b : Bool) (n : ℕ) {m : Lower mlir Value} {r : Lower mlir (Values mlir)}
      → Emits mlir Anything m
      → Emits mlir (λ vs. length vs ≡ n) r
      → Emits mlir (λ vs. length vs ≡ (if b then suc n else n)) (size_if mlir b m r)
  unfolding size_if
  Emits-size_if true n km kr =
      Emits->>= km λ v q. Emits->>= kr λ vs e. Emits-pure (v ∷ vs) (ap suc e)
  Emits-size_if false n km kr = kr

sized_append :
    (mlir : Mlir) (xs ys : List mlir.Value) (ds es : List ℕ)
    → length xs ≡ dynamic_count mlir ds
    → length ys ≡ dynamic_count mlir es
    → length (xs ++ ys) ≡ dynamic_count mlir (ds ++ es)
sized_append mlir xs ys ds es p q =
    omega (arith, length-append xs ys, count-append (is_dynamic mlir) ds es)

module _ {mlir : Mlir} (floats : FloatOps) where
  open mlir use {Value, Func, type_of}

  Emits-lower_sub_exp : (e : SubExp) → Emits mlir Anything (lower_sub_exp mlir floats e)
  unfolding lower_sub_exp lower_prim_value lookup
  Emits-lower_sub_exp (constant c) =
      Emits->>= {Q = Anything} (Emits-lift _ λ a e. tt) λ a q. Emits-emit_one _ tt
  Emits-lower_sub_exp (var v) = record {
    at = λ s h. (Emits-lift {Q = Anything} (Env.lookup v.name s.subexps) λ a e. tt).at s h;
  }

  Emits-dynamic_sizes :
      (ds : List SubExp) (ts : List ℕ)
      → length ts ≡ length ds
      → Emits mlir (λ vs. length vs ≡ dynamic_count mlir ts) (dynamic_sizes mlir floats ds ts)
  unfolding dynamic_sizes
  Emits-dynamic_sizes [] [] e = Emits-pure [] refl
  Emits-dynamic_sizes [] (t ∷ ts) e = ground arith
  Emits-dynamic_sizes (d ∷ ds) [] e = ground arith
  Emits-dynamic_sizes (d ∷ ds) (t ∷ ts) e =
      Emits-size_if _ _ (Emits->>= (Emits-lower_sub_exp d) λ v q. Emits-emit_one _ tt)
        (Emits-dynamic_sizes ds ts (omega arith))

  Emits-read_back_sizes :
      (op : Value) (i : ℕ) (ds : List ℕ)
      → Emits mlir (λ vs. length vs ≡ dynamic_count mlir ds) (read_back_sizes mlir floats op i ds)
  unfolding read_back_sizes
  Emits-read_back_sizes op i [] = Emits-pure [] refl
  Emits-read_back_sizes op i (d ∷ ds) =
      Emits-size_if _ _ (Emits-emit_one _ tt) (Emits-read_back_sizes op (suc i) ds)

  Emits-lower_scratch :
      (t : PrimType) (dims : List SubExp) → Emits mlir Anything (lower_scratch mlir floats t dims)
  unfolding lower_scratch
  Emits-lower_scratch t dims = Emits->>= {Q = Anything} (Emits-lift _ λ a e. tt) λ base q.
      Emits->>= {Q = λ shape. length shape ≡ length dims}
        (Emits-lift _ λ a e. length-map_result (to_shape_type mlir) dims e)
        λ shape l. Emits->>= (Emits-dynamic_sizes dims shape l) λ sizes e. Emits-emit_one _ e

  -- The inner part: as many sizes as its dimensions need.
  Emits-inner_part :
      (op : Value) (t : MlirType)
      → Emits mlir
          (λ (p : MlirType × List ℕ × Values mlir × Value). length (p.2) ≡ dynamic_count mlir (p.1))
          (inner_part mlir floats op t)
  unfolding inner_part
  Emits-inner_part op (ranked_tensor dims elem) =
      Emits->>= (Emits-read_back_sizes op 0 dims) λ sizes e. Emits-pure _ e
  Emits-inner_part op (integer _) = Emits->>= (Emits-emit_one _ tt) λ v q. Emits-pure _ refl
  Emits-inner_part op f16 = Emits->>= (Emits-emit_one _ tt) λ v q. Emits-pure _ refl
  Emits-inner_part op f32 = Emits->>= (Emits-emit_one _ tt) λ v q. Emits-pure _ refl
  Emits-inner_part op f64 = Emits->>= (Emits-emit_one _ tt) λ v q. Emits-pure _ refl
  Emits-inner_part op index = Emits->>= (Emits-emit_one _ tt) λ v q. Emits-pure _ refl

  Emits-lower_replicate :
      (dims : List SubExp) (val : SubExp)
      → Emits mlir Anything (lower_replicate mlir floats dims val)
  unfolding lower_replicate broadcast_to
  Emits-lower_replicate [] val = Emits-lower_sub_exp val
  Emits-lower_replicate (d ∷ ds) val = Emits->>= (Emits-lower_sub_exp val) λ op q.
      Emits->>= {Q = λ shape. length shape ≡ length (d ∷ ds)}
        (Emits-lift _ λ a e. length-map_result (to_shape_type mlir) (d ∷ ds) e)
        λ outer l. Emits->>= (Emits-dynamic_sizes (d ∷ ds) outer l) λ outer_sizes e.
          Emits->>= (Emits-inner_part op (type_of op)) λ part e'.
            Emits->>=
              (Emits-emit_one _ (sized_append mlir outer_sizes (part.2) outer (part.1) e e'))
              λ dest q'. Emits-emit_one _ tt

module _ (mlir : Mlir) (floats : FloatOps) where
  IsSized-after :
      {A : Type 0} (Q : A → Type 0) (o : Outcome (A × State mlir)) {a : A} {s' : State mlir}
      → Ended mlir Q o
      → o ≡ done (a, s')
      → All (IsSized mlir) s'.log
  IsSized-after Q o h e = (subst (Ended mlir Q) e h).1

  -- Where `lower_scratch` returns, every `tensor.empty` emitted so far has a size for each dynamic
  -- dimension of its type, and no more, if that held of those emitted before.
  pub lower_scratch-IsSized :
      (t : PrimType) (dims : List SubExp) (s : State mlir) {v : mlir.Value} {s' : State mlir}
      → All (IsSized mlir) s.log
      → lower_scratch mlir floats t dims s ≡ done (v, s')
      → All (IsSized mlir) s'.log
  lower_scratch-IsSized t dims s h e =
      IsSized-after Anything _ ((Emits-lower_scratch floats t dims).at s h) e

  -- Where `lower_replicate` returns, every `tensor.empty` emitted so far has a size for each dynamic
  -- dimension of its type, and no more, if that held of those emitted before.
  pub lower_replicate-IsSized :
      (dims : List SubExp) (val : SubExp) (s : State mlir) {v : mlir.Value} {s' : State mlir}
      → All (IsSized mlir) s.log
      → lower_replicate mlir floats dims val s ≡ done (v, s')
      → All (IsSized mlir) s'.log
  lower_replicate-IsSized dims val s h e =
      IsSized-after Anything _ ((Emits-lower_replicate floats dims val).at s h) e
