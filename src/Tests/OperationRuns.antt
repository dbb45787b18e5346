-- ===== src/Tests/OperationRuns.antt =====
-- A slice of an array of two dimensions, xs[0, 1 :+ 2 * 1], its transposition, and the name of a
-- logarithm.
use mlir_backend.Prelude.{
  true, ok, none, ℕ, Text, some, ◌≡◌, ◌≢◌, refl, List, [], ◌∷◌, codes, text_eq,
}
use mlir_backend.Ir.Primitive.{int_value, int64_value}
use mlir_backend.Ir.Core.{
  Attr, int_attr, comp_attr, no_args, more_args, SubExp, constant, Slice, dim_fix, dim_slice,
}
use mlir_backend.Compiler.Blackboxes.{is_black_box, has_black_box, maybe_black_box, black_box_name}
use mlir_backend.Compiler.Env
use mlir_backend.Compiler.Mlir.{MlirType, ranked_tensor, integer, Op, attr}
use mlir_backend.Compiler.State.{State, Call, created}
use mlir_backend.Compiler.Scalars.{intrinsic_base_name}
use mlir_backend.Compiler.Scalars.Intrinsics.{intrinsic_base_name-Separates}
use mlir_backend.Tests.Fixtures.{toy, start}

abbrev number : ℕ → SubExp
number k = constant (int_value (int64_value k))

abbrev row : Slice SubExp
row = record { dims = dim_fix (number 0) ∷ dim_slice (number 1) (number 2) (number 1) ∷ [] }

abbrev bound_to_xs : State toy
bound_to_xs = record start {
  subexps = Env.insert (codes "xs") (ranked_tensor (3 ∷ 4 ∷ []) (integer 64)) Env.empty;
}

abbrev slice_call : Call MlirType Text
slice_call = created (
    Op.extract_slice (ranked_tensor (2 ∷ []) (integer 64)) (ranked_tensor (3 ∷ 4 ∷ []) (integer 64))
      (attr 0 ∷ attr 1 ∷ []) (attr 1 ∷ attr 2 ∷ []) (attr 1 ∷ attr 1 ∷ []))

filled : codes "log2" ≢ []
filled e = cc

base_name_example : intrinsic_base_name (codes "log2_64") ≡ some (codes "log2")
base_name_example =
    intrinsic_base_name-Separates (codes "log2") (codes "_") 54 (52 ∷ []) (refl, filled)
      (refl, (refl, tt))

-- xs of 3 rows and an unknown number of columns
abbrev bound_to_rows : State toy
bound_to_rows = record start {
  subexps = Env.insert (codes "xs") (ranked_tensor (3 ∷ 1000 ∷ []) (integer 64)) Env.empty;
}

abbrev transposed : MlirType
transposed = ranked_tensor (1000 ∷ 3 ∷ []) (integer 64)

abbrev after_transpose : State toy
after_transpose = record bound_to_rows {
  log =
      created (Op.tensor_empty transposed [])
      ∷ created (Op.transpose (ranked_tensor (3 ∷ 1000 ∷ []) (integer 64)) transposed (1 ∷ 0 ∷ []))
      ∷ [];
}

-- An attribute `blackbox(3)` makes a black box for one reader of the attributes and not for the other.
abbrev numbered : List Attr
numbered = comp_attr (codes "blackbox") (more_args (int_attr 3) no_args) ∷ []

numbered-disagrees : (is_black_box numbered ≡ true) × (maybe_black_box numbered ≡ ok none)
unfolding is_black_box has_black_box maybe_black_box black_box_name text_eq
numbered-disagrees = (refl, refl)
