-- ===== src/Parser/Visit/Space.antt =====
-- parser.hpp `VisitSegSpace`: the IDs and the sizes of an iteration space.
use mlir_backend.Prelude.{
  ℕ, suc, ◌<◌, ◌≡◌, refl, ap, List, [], ◌∷◌, ◌++◌, map, length, take, map_result, Text, ok,
  >>=-eq-ok, arith,
}
use mlir_backend.Ir.Primitive.{FloatOps}
use mlir_backend.Ir.Core.{SubExp}
use mlir_backend.Ir.Syntax.{SegSpace}
use mlir_backend.Parser.Tree.{SubExpContext, SegSpaceContext}
use mlir_backend.Parser.Values.{visit_sub_exp}
use mlir_backend.Parser.Visit.{visit_space_dims, visit_seg_space}

no_names : {n : ℕ} → n < 0 → ⊥
no_names p = omega arith

-- The names and the flat id are the first IDs, in their order, and the sizes are those that are read.
abbrev pub IsSpaceOf : List Text → ℕ → List SubExp → List (Text × SubExp) × Text → Type 0
IsSpaceOf ids n sizes (dims, flat_id) =
    (map (λ (d : Text × SubExp). d.0) dims ++ flat_id ∷ [] ≡ take (suc n) ids)
    × (map (λ (d : Text × SubExp). d.1) dims ≡ sizes)

module _ (floats : FloatOps) where
  space_dims :
      (ids : List Text) (sizes : List SubExpContext) {ds : List SubExp}
      → length sizes < length ids
      → map_result (visit_sub_exp floats) sizes ≡ ok ds
      → (r : List (Text × SubExp) × Text) × (visit_space_dims floats ids sizes ≡ ok r)
        × IsSpaceOf ids (length sizes) ds r
  unfolding visit_space_dims
  space_dims [] sizes l h = elim (no_names l) [ ]
  space_dims (name ∷ names) [] {ds} l h = (([], name), refl, (refl, ground arith))
  space_dims (name ∷ names) (size ∷ sizes) l h =
      let (d, e, h₁) = >>=-eq-ok (visit_sub_exp floats size) _ h in
      let (rest, e', h₂) = >>=-eq-ok (map_result (visit_sub_exp floats) sizes) _ h₁ in
      let (r, v, (names_eq, sizes_eq)) = space_dims names sizes (omega arith) e' in
      (((name, d) ∷ r.0, r.1), ground arith, (ap (λ ns. name ∷ ns) names_eq, ground arith))

  -- Where there are more IDs than sizes, and the sizes are read, the space is read: its dimensions
  -- are the sizes under the first IDs, in their order, and its flat id is the ID that follows.
  pub visit_seg_space-IsSpaceOf :
      (ctx : SegSpaceContext) {ds : List SubExp}
      → length ctx.sub_exps < length ctx.ids
      → map_result (visit_sub_exp floats) ctx.sub_exps ≡ ok ds
      → (sp : SegSpace) × (visit_seg_space floats ctx ≡ ok sp)
        × IsSpaceOf ctx.ids (length ctx.sub_exps) ds (sp.dims, sp.flat_id)
  unfolding visit_seg_space
  visit_seg_space-IsSpaceOf ctx l h =
      let (r, v, is_space) = space_dims ctx.ids ctx.sub_exps l h in
      (record { flat_id = r.1; dims = r.0 }, ground arith, is_space)
