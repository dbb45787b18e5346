-- ===== src/Compiler/Tensors/Slices.antt =====
-- compiler.hpp `LowerIndex`: the offsets, sizes and strides of a slice, and the type of its result.
use mlir_backend.Prelude.{
  ℕ, ◌≡◌, refl, sym, ap, List, [], ◌∷◌, ◌++◌, Bool, true, false, if◌then◌else◌,
}
use mlir_backend.Word.{signed_ltb}
use mlir_backend.Ir.Primitive.{FloatOps}
use mlir_backend.Ir.Core.{SubExp, DimIndex, dim_fix, dim_slice}
use mlir_backend.Compiler.Monad.{Action, Outcome, done, thrown, out_of_fuel, pure, throw, ◌>>=◌}
use mlir_backend.Compiler.Mlir.{Mlir, FoldResult, attr, value, ranked_tensor, Op}
use mlir_backend.Compiler.State.{State, Call, created, Lower, Values, emit, emit_one, head_value}

-- What a chain of actions that returns has passed through.
pub done->>= :
    {S A B : Type 0} (m : Action S A) (f : A → Action S B) (s : S) {r : B × S}
    → (m >>= f) s ≡ done r
    → (a : A) × (s' : S) × (m s ≡ done (a, s')) × (f a s' ≡ done r)
unfolding ◌>>=◌
done->>= {S} {A} {B} m f s {r} h = split_on (m s) refl h
  where
    split_on :
        (o : Outcome (A × S))
        → m s ≡ o
        → (elim o [ done (a, s') ↦ f a s' | thrown e ↦ thrown e | out_of_fuel ↦ out_of_fuel ])
          ≡ done r
        → (a : A) × (s' : S) × (m s ≡ done (a, s')) × (f a s' ≡ done r)
    split_on (done (a, s')) e k = (a, s', e, k)
    split_on (thrown x) e k = cc
    split_on out_of_fuel e k = cc

module _ (mlir : Mlir) (floats : FloatOps) where
  open mlir use {Value, Func}

  -- A constant size is the dimension itself, and a value stands for a dynamic one.
  abbrev IsDim : FoldResult Value → ℕ → Type 0
  IsDim (attr n) t = n ≡ t
  IsDim (value v) t = t ≡ mlir.k_dynamic

  -- The stride is known, and positive as an int64_t.
  abbrev IsStride : FoldResult Value → Type 0
  IsStride (attr k) = signed_ltb k 1 ≡ false
  IsStride (value v) = ⊥

  -- An offset, a size and a stride for each index; a fixed index has one element and no dimension in
  -- the result, a slice has a dimension of its size.
  abbrev pub IsExtract :
      List (DimIndex SubExp)
      → List (FoldResult Value)
      → List (FoldResult Value)
      → List (FoldResult Value)
      → List ℕ
      → Type 0
  IsExtract [] [] [] [] [] = Unit
  IsExtract (dim_fix i ∷ ds) (o ∷ os) (n ∷ ns) (k ∷ ss) shape =
      (n ≡ attr 1) × (k ≡ attr 1) × IsExtract ds os ns ss shape
  IsExtract (dim_slice start len stride ∷ ds) (o ∷ os) (n ∷ ns) (k ∷ ss) (t ∷ shape) =
      IsDim n t × IsStride k × IsExtract ds os ns ss shape
  IsExtract _ _ _ _ _ = ⊥

  abbrev Extent : Type 0
  Extent = List (FoldResult Value) × List (FoldResult Value) × List (FoldResult Value) × List ℕ

  abbrev pub IsExtent : List (DimIndex SubExp) → Extent → Type 0
  IsExtent ds (os, ns, ss, shape) = IsExtract ds os ns ss shape

  -- The call makes a slice of these indices, of a type with the dimensions that they leave.
  abbrev pub IsExtractCall : List (DimIndex SubExp) → Call Value Func → Type 0
  IsExtractCall ds (created (Op.extract_slice (ranked_tensor shape _) _ os ns ss)) =
      IsExtract ds os ns ss shape
  IsExtractCall ds _ = ⊥

  pub taken :
      {A : Type 0} (b : Bool) (m n : Lower mlir A) (s : State mlir) {r : A × State mlir}
      → b ≡ true
      → (if b then m else n) s ≡ done r
      → m s ≡ done r
  taken true m n s e h = h
  taken false m n s e h = cc

  pub emit_one-log :
      (op : Op Value Func) (s : State mlir) {v : Value} {s' : State mlir}
      → emit_one mlir op s ≡ done (v, s')
      → s'.log ≡ s.log ++ created op ∷ []
  unfolding emit head_value ◌>>=◌ throw pure
  emit_one-log op s {v} {s'} h = headed ((mlir.create op s.ir).0) refl h
    where
      headed :
          (vs : Values mlir)
          → (mlir.create op s.ir).0 ≡ vs
          → head_value mlir vs
              (record s { ir = (mlir.create op s.ir).1; log = s.log ++ created op ∷ [] })
            ≡ done (v, s')
          → s'.log ≡ s.log ++ created op ∷ []
      headed [] e h = cc
      headed (w ∷ vs) e h = sym (
          ap
            (λ (o : Outcome (Value × State mlir)). elim o [
              | done (_, s) ↦ s.log
              | thrown _ ↦ s'.log
              | out_of_fuel ↦ s'.log
            ])
            h)
