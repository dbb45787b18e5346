-- ===== src/Compiler/Kernels/Recognition.antt =====
-- compiler.hpp `toAffineRead`: which statements are recognised as affine reads.
use mlir_backend.Prelude.{
  ℕ, ◌≡◌, refl, Bool, true, false, if◌then◌else◌, Option-cases, ◌↔◌, ◌⊎◌, inl, inr, List, [], ◌∷◌,
  some, length, All, Text, text_eq_sound, text_eq_refl, text_eq, arith,
}
use mlir_backend.Ir.Core.{VName, SubExp, constant, var, DimIndex, dim_fix, dim_slice, Slice}
use mlir_backend.Ir.Syntax.{BasicOp, Exp}
use mlir_backend.Compiler.Kernels.{Dim, AffineRead, find_dim, used_dims, to_affine_read}

module _ {V : Type 0} where
  -- A dimension of the iteration space has the name.
  abbrev pub IsDimension : List (Dim V) → Text → Type 0
  IsDimension [] name = ⊥
  IsDimension (d ∷ space) name = (d.id ≡ name) ⊎ IsDimension space name

  -- One index, at a variable of the iteration space.
  abbrev pub IsCoordinate : List (Dim V) → DimIndex SubExp → Type 0
  IsCoordinate space (dim_fix (var v)) = IsDimension space v.name
  IsCoordinate space _ = ⊥

  find_dim-IsDimension :
      (name : Text) (space : List (Dim V)) {i : ℕ}
      → find_dim name space ≡ some i
      → IsDimension space name
  unfolding find_dim
  find_dim-IsDimension name [] h = cc
  find_dim-IsDimension name (d ∷ space) {i} h =
      named (text_eq d.id name) refl (λ e. find_dim-IsDimension name space e) h
    where
      named :
          (b : Bool)
          → text_eq d.id name ≡ b
          → (find_dim name space ≡ some i → IsDimension space name)
          → (if b then some d.position else find_dim name space) ≡ some i
          → IsDimension (d ∷ space) name
      named true e _ _ = inl (text_eq_sound d.id name e)
      named false _ later h' = inr (later h')

  IsDimension-found :
      (name : Text) (space : List (Dim V))
      → IsDimension space name
      → (i : ℕ) × (find_dim name space ≡ some i)
  unfolding find_dim
  IsDimension-found name [] h = elim h [ ]
  IsDimension-found name (d ∷ space) h =
      found (text_eq d.id name) refl (λ l. IsDimension-found name space l) h
    where
      found :
          (b : Bool)
          → text_eq d.id name ≡ b
          → (IsDimension space name → (i : ℕ) × (find_dim name space ≡ some i))
          → (d.id ≡ name) ⊎ IsDimension space name
          → (i : ℕ) × ((if b then some d.position else find_dim name space) ≡ some i)
      found true _ _ _ = (d.position, refl)
      found false e _ (inl same) = let r = text_eq_refl name in cc
      found false _ after (inr later) = after later

  used_dims-IsCoordinate :
      (ds : List (DimIndex SubExp)) (space : List (Dim V)) {is : List ℕ}
      → used_dims ds space ≡ some is
      → All (IsCoordinate space) ds
  unfolding used_dims
  used_dims-IsCoordinate [] space h = tt
  used_dims-IsCoordinate (dim_slice _ _ _ ∷ ds) space h = cc
  used_dims-IsCoordinate (dim_fix (constant _) ∷ ds) space h = cc
  used_dims-IsCoordinate (dim_fix (var v) ∷ ds) space {is} h =
      elim (Option-cases (find_dim v.name space)) [
        | inl e ↦ cc
        | inr (i, e) ↦ elim (Option-cases (used_dims ds space)) [
          | inl e' ↦ ground arith
          | inr (is', e') ↦
              (find_dim-IsDimension v.name space e, used_dims-IsCoordinate ds space e')
        ]
      ]

  coordinates_used :
      (ds : List (DimIndex SubExp)) (space : List (Dim V))
      → All (IsCoordinate space) ds
      → (is : List ℕ) × (used_dims ds space ≡ some is)
  unfolding used_dims
  coordinates_used [] space h = ([], refl)
  coordinates_used (dim_slice _ _ _ ∷ ds) space (h, _) = elim h [ ]
  coordinates_used (dim_fix (constant _) ∷ ds) space (h, _) = elim h [ ]
  coordinates_used (dim_fix (var v) ∷ ds) space (h, hs) =
      let (i, e) = IsDimension-found v.name space h in
      let (is, e') = coordinates_used ds space hs in (i ∷ is, ground arith)

  -- An index expression is recognised as an affine read exactly where each of its indices is a
  -- variable that names a dimension of the iteration space.
  pub to_affine_read-IsCoordinate :
      (vn arr : VName) (slice : Slice SubExp) (space : List (Dim V))
      → ((r : AffineRead) × (to_affine_read vn (Exp.basic_op (BasicOp.index arr slice)) space
            ≡ some r))
        ↔ All (IsCoordinate space) slice.dims
  unfolding to_affine_read
  to_affine_read-IsCoordinate vn arr slice space = (
    λ (r, h). elim (Option-cases (used_dims slice.dims space)) [
      | inl e ↦ ground arith
      | inr (is, e) ↦ used_dims-IsCoordinate slice.dims space e
    ],
    λ h.
        let (is, e) = coordinates_used slice.dims space h in
        let read : AffineRead = record {
          result = vn;
          array = arr;
          index_map = record { rank = length space; results = is };
        } in
        (read, ground arith),
  )
