-- ===== src/Compiler/Kernels/Affine.antt =====
-- compiler.hpp `toAffineRead` and `FindSegOpAffineReads`: what an indexing map computes.
use mlir_backend.Prelude.{
  ℕ, ◌<◌, ◌≡◌, refl, ap, Option-cases, inl, inr, List, [], ◌∷◌, Option, none, some, length, map,
  All, Text, text_eq_sound, ok, >>=-eq-ok, arith,
}
use mathlib.Core.Path.{subst}
use mlir_backend.Ir.Core.{VName, SubExp, constant, var, DimIndex, dim_fix, dim_slice, Slice}
use mlir_backend.Ir.Syntax.{BasicOp, Exp, Stms, no_stms, more_stms}
use mlir_backend.Compiler.Mlir.{AffineMap}
use mlir_backend.Compiler.Kernels.{
  Dim, AffineRead, find_dim, used_dims, to_affine_read, find_affine_reads, single_name, stm_exp,
}

-- The results of a map at a point, whose i-th coordinate is `point i`.
abbrev pub apply_map : AffineMap → (ℕ → ℕ) → List ℕ
apply_map m point = map point m.results

Option-injective : {A : Type 0} {a b : A} → some a ≡ some b → a ≡ b
Option-injective {a = a} h = ap (λ o. elim o [ none ↦ a | some c ↦ c ]) h

-- The value of an index where names stand for numbers.
abbrev pub index_value : (Text → ℕ) → DimIndex SubExp → Option ℕ
index_value ρ (dim_fix (var v)) = some (ρ v.name)
index_value ρ _ = none

module _ {V : Type 0} where
  -- At a point, each dimension's name stands for the coordinate of that dimension.
  abbrev pub NamesCoordinates : (Text → ℕ) → (ℕ → ℕ) → List (Dim V) → Type 0
  NamesCoordinates ρ point space = All (λ (d : Dim V). ρ d.id ≡ point d.position) space

  find_dim-NamesCoordinates :
      (ρ : Text → ℕ) (point : ℕ → ℕ) (name : Text) (space : List (Dim V)) {i : ℕ}
      → NamesCoordinates ρ point space
      → find_dim name space ≡ some i
      → ρ name ≡ point i
  unfolding find_dim
  find_dim-NamesCoordinates ρ point name [] hs h = cc
  find_dim-NamesCoordinates ρ point name (d ∷ space) {i} (p, hs) h =
      let ih =
        λ (e : find_dim name space ≡ some i). find_dim-NamesCoordinates ρ point name space hs e in
      ground (arith, text_eq_sound d.id name)

  used_dims-index_value :
      (ρ : Text → ℕ) (point : ℕ → ℕ) (ds : List (DimIndex SubExp)) (space : List (Dim V))
      {is : List ℕ}
      → NamesCoordinates ρ point space
      → used_dims ds space ≡ some is
      → map (index_value ρ) ds ≡ map some (map point is)
  unfolding used_dims
  used_dims-index_value ρ point [] space {is} hs h = ground arith
  used_dims-index_value ρ point (dim_slice _ _ _ ∷ ds) space hs h = cc
  used_dims-index_value ρ point (dim_fix (constant _) ∷ ds) space hs h = cc
  used_dims-index_value ρ point (dim_fix (var v) ∷ ds) space {is} hs h =
      elim (Option-cases (find_dim v.name space)) [
        | inl e ↦ ground arith
        | inr (i, e) ↦ elim (Option-cases (used_dims ds space)) [
          | inl e' ↦ ground arith
          | inr (is', e') ↦
              let c = find_dim-NamesCoordinates ρ point v.name space hs e in
              let ih = used_dims-index_value ρ point ds space hs e' in ground arith
        ]
      ]

  find_dim-bound :
      (name : Text) (space : List (Dim V)) (n : ℕ) {i : ℕ}
      → All (λ (d : Dim V). d.position < n) space
      → find_dim name space ≡ some i
      → i < n
  unfolding find_dim
  find_dim-bound name [] n hs h = cc
  find_dim-bound name (d ∷ space) n {i} (p, hs) h =
      let ih = λ (e : find_dim name space ≡ some i). find_dim-bound name space n hs e in
      ground arith

  used_dims-bound :
      (ds : List (DimIndex SubExp)) (space : List (Dim V)) (n : ℕ) {is : List ℕ}
      → All (λ (d : Dim V). d.position < n) space
      → used_dims ds space ≡ some is
      → All (λ i. i < n) is
  unfolding used_dims
  used_dims-bound [] space n {is} hs h = ground arith
  used_dims-bound (dim_slice _ _ _ ∷ ds) space n hs h = cc
  used_dims-bound (dim_fix (constant _) ∷ ds) space n hs h = cc
  used_dims-bound (dim_fix (var v) ∷ ds) space n {is} hs h =
      elim (Option-cases (find_dim v.name space)) [
        | inl e ↦ ground arith
        | inr (i, e) ↦ elim (Option-cases (used_dims ds space)) [
          | inl e' ↦ ground arith
          | inr (is', e') ↦
              let ih = used_dims-bound ds space n hs e' in
              let b = find_dim-bound v.name space n hs e in ground arith
        ]
      ]

  -- The read that is found for an index expression names its array and the statement's result, and
  -- at each point of the iteration space, where the dimensions' names stand for its coordinates, its
  -- map computes the values of the indices.
  pub to_affine_read-index_value :
      (vn arr : VName) (slice : Slice SubExp) (space : List (Dim V)) (ρ : Text → ℕ) (point : ℕ → ℕ)
      {r : AffineRead}
      → NamesCoordinates ρ point space
      → to_affine_read vn (Exp.basic_op (BasicOp.index arr slice)) space ≡ some r
      → (r.result ≡ vn)
        × (r.array ≡ arr)
        × (map (index_value ρ) slice.dims ≡ map some (apply_map r.index_map point))
  unfolding to_affine_read
  to_affine_read-index_value vn arr slice space ρ point {r} hs h =
      elim (Option-cases (used_dims slice.dims space)) [
        | inl e ↦ ground arith
        | inr (is, e) ↦ let v = used_dims-index_value ρ point slice.dims space hs e in ground arith
      ]

  -- A map of the space: of its rank, and over its dimensions alone.
  abbrev pub IsMapOf : List (Dim V) → AffineMap → Type 0
  IsMapOf space m = (m.rank ≡ length space) × All (λ i. i < length space) m.results

  affine_read-IsMapOf :
      (vn : VName) (e : Exp) (space : List (Dim V)) {r : AffineRead}
      → All (λ (d : Dim V). d.position < length space) space
      → to_affine_read vn e space ≡ some r
      → IsMapOf space r.index_map
  unfolding to_affine_read
  affine_read-IsMapOf vn (Exp.basic_op (BasicOp.index arr slice)) space {r} hs h =
      elim (Option-cases (used_dims slice.dims space)) [
        | inl e ↦ ground arith
        | inr (is, e) ↦
            let read : AffineRead = record {
              result = vn;
              array = arr;
              index_map = record { rank = length space; results = is };
            } in
            let same =
              (λ (q : some read ≡ some r). Option-injective q) (rw (e, to_affine_read) at h) in
            subst (λ r. IsMapOf space r.index_map) same
              (refl, used_dims-bound slice.dims space (length space) hs e)
      ]
  affine_read-IsMapOf vn _ space hs h = cc

  -- The indexing maps that are found in a kernel's statements are of the rank of its iteration space,
  -- and use dimensions of it alone, if its dimensions are numbered below its length.
  pub find_affine_reads-IsMapOf :
      (space : List (Dim V)) (ss : Stms) {reads : List AffineRead}
      → All (λ (d : Dim V). d.position < length space) space
      → find_affine_reads space ss ≡ ok reads
      → All (λ (r : AffineRead). IsMapOf space r.index_map) reads
  unfolding find_affine_reads
  find_affine_reads-IsMapOf space no_stms {reads} hs h = ground arith
  find_affine_reads-IsMapOf space (more_stms s ss) {reads} hs h =
      let (vn, e, h₁) = >>=-eq-ok (single_name s) _ h in
      let (rest, e', h₂) = >>=-eq-ok (find_affine_reads space ss) _ h₁ in
      let ih = find_affine_reads-IsMapOf space ss hs e' in
      elim (Option-cases (to_affine_read vn (stm_exp s) space)) [
        | inl o ↦ ground arith
        | inr (r, o) ↦ let m = affine_read-IsMapOf vn (stm_exp s) space hs o in ground arith
      ]
