-- ===== src/Compiler/Blackboxes.antt =====
-- blackbox.hpp, and the black boxes of compiler.hpp: matrix products, sorting and scattering, which
-- become one operation each. Their size parameters come first and are disregarded.
use mlir_backend.Prelude.{
  ℕ, suc, ◌-◌, Bool, false, List, [], ◌∷◌, ◌++◌, Option, none, some, ◌==◌, ◌||◌, not, ltb, leb,
  length, drop, get_elem?, is_contained, if◌then◌else◌, Text, codes, text_eq, Result, ok, err,
  Error, or_err, map_result, ◌>>=◌ as bind_result,
}
use mlir_backend.Ir.Primitive.{FloatOps}
use mlir_backend.Ir.Core.{Attr, atom_attr, comp_attr, no_args, more_args}
use mlir_backend.Compiler.Monad.{pure, throw, lift, ◌>>=◌, ◌>>◌}
use mlir_backend.Compiler.Mlir.{
  Mlir, MlirType, integer, ranked_tensor, integer_attr, zero_attr, scalar, DotDimensions, Op,
  RegionOp,
}
use mlir_backend.Compiler.State.{
  Lower, Values, emit_one, emit_unit, open_op, close_op, head_value, assert_that, zip_equal,
}
use mlir_backend.Compiler.Types.{get_ranked_type, is_dynamic, static_shape}
use mlir_backend.Compiler.Values.{get_constant_int_tensor, get_constant_int}
use mlir_backend.Compiler.Tensors.{create_iota}

pub data BlackBox : Type 0 where
  mat_mul dot_general ragged_dot arg_sort scatter : BlackBox

-- `ToBlackBox`
unfoldable pub to_black_box : Text → Result BlackBox
unfolding text_eq
to_black_box name =
    if text_eq name (codes "matmul")
    then ok mat_mul
    else if text_eq name (codes "dot_general")
    then ok dot_general
    else if text_eq name (codes "ragged_dot")
    then ok ragged_dot
    else if text_eq name (codes "argsort")
    then ok arg_sort
    else if text_eq name (codes "scatter")
    then ok scatter
    else err Error.undefined

-- The name in an attribute `blackbox(name)`.
unfoldable pub black_box_name : Attr → Option Text
unfolding text_eq
black_box_name (comp_attr name (more_args (atom_attr v) no_args)) =
    if text_eq name (codes "blackbox") then some v else none
black_box_name _ = none

-- `MaybeBlackBox` on the vector: the first such attribute decides.
unfoldable pub maybe_black_box : List Attr → Result (Option BlackBox)
maybe_black_box [] = ok none
maybe_black_box (a ∷ attrs) = elim (black_box_name a) [
  | none ↦ maybe_black_box attrs
  | some v ↦ bind_result (to_black_box v) λ b. ok (some b)
]

-- Whether an attribute is `blackbox(a)`, whatever a is.
unfoldable pub has_black_box : Attr → Bool
unfolding text_eq
has_black_box (comp_attr name (more_args a no_args)) = text_eq name (codes "blackbox")
has_black_box _ = false

-- `IsBlackBox`, which no code calls
unfoldable pub is_black_box : List Attr → Bool
is_black_box [] = false
is_black_box (a ∷ attrs) = has_black_box a || is_black_box attrs

-- `args[args.size() - n + i]` for i from 0 on: the last n arguments.
abbrev pub last_args {ℓ} : {A : Type ℓ} → ℕ → List A → Result (List A)
last_args n args =
    if ltb (length args) n then err Error.undefined_behaviour else ok (drop (length args - n) args)

abbrev pub arg_at {ℓ} : {A : Type ℓ} → List A → ℕ → Result A
arg_at args i = or_err (get_elem? args i) Error.undefined_behaviour

is_excluded : List (List ℕ) → ℕ → Bool
is_excluded [] i = false
is_excluded (u ∷ used) i = is_contained u i || is_excluded used i

-- The dimensions of a shape, from number `i` on, whose numbers stand in none of the lists.
unfoldable pub free_dims : List (List ℕ) → ℕ → List ℕ → List ℕ
unfolding is_excluded
free_dims used i [] = []
free_dims used i (d ∷ ds) =
    let rest = free_dims used (suc i) ds in if is_excluded used i then rest else d ∷ rest

-- The dimensions that a list of numbers picks.
abbrev pub pick_dims : List ℕ → List ℕ → Result (List ℕ)
pick_dims shape is = map_result (arg_at shape) is

-- `resultShape` of `LowerDotGeneral`
unfoldable pub dot_general_shape : List ℕ → List ℕ → DotDimensions → Result (List ℕ)
unfolding free_dims
dot_general_shape lhs rhs d = bind_result (pick_dims lhs d.lhs_batching) λ batch. ok (
    batch
    ++ (free_dims (d.lhs_batching ∷ d.lhs_contracting ∷ []) 0 lhs
        ++ free_dims (d.rhs_batching ∷ d.rhs_contracting ∷ []) 0 rhs))

-- `resultShape` of `LowerRaggedDot`: the number of groups comes first in mode 2.
unfoldable pub ragged_dot_shape : List ℕ → List ℕ → DotDimensions → ℕ → List ℕ → ℕ → Result (List ℕ)
unfolding free_dims
ragged_dot_shape lhs rhs d ragged group g = bind_result (pick_dims lhs d.lhs_batching) λ batch. ok (
    (if is_contained d.lhs_contracting ragged then g ∷ [] else [])
    ++ (batch
        ++ (free_dims (d.lhs_batching ∷ d.lhs_contracting ∷ []) 0 lhs
            ++ free_dims (d.rhs_batching ∷ d.rhs_contracting ∷ group ∷ []) 0 rhs)))

-- `shape.back()`
abbrev last_dim : List ℕ → Result ℕ
last_dim [] = err Error.undefined_behaviour
last_dim (d ∷ ds) = arg_at (d ∷ ds) (length ds)

module _ (mlir : Mlir) (floats : FloatOps) where
  open mlir use {Value, type_of}

  -- The values whose dimension in the result's type is dynamic.
  abbrev dynamic_only : List (Value × ℕ) → Values mlir
  dynamic_only [] = []
  dynamic_only ((v, t) ∷ ps) =
      let rest = dynamic_only ps in if is_dynamic mlir t then v ∷ rest else rest

  -- `LowerMatMul`
  unfoldable pub lower_mat_mul : Values mlir → List MlirType → Lower mlir (Values mlir)
  lower_mat_mul args ret_types = do
    assert_that mlir (length args == 5)
    assert_that mlir (length ret_types == 1)
    x ← lift (arg_at args 3)
    y ← lift (arg_at args 4)
    m ← emit_one mlir (Op.tensor_dim x 0)
    n ← emit_one mlir (Op.tensor_dim y 1)
    z ← lift (arg_at ret_types 0)
    (shape, elem) ← lift (get_ranked_type z)
    sizes ← zip_equal mlir (m ∷ n ∷ []) shape
    zero ← emit_one mlir (Op.constant (scalar (zero_attr elem)))
    e ← emit_one mlir (Op.tensor_empty z (dynamic_only sizes))
    filled ← emit_one mlir (Op.fill zero e)
    r ← emit_one mlir (Op.matmul x y filled)
    pure (r ∷ [])

  -- The four lists of dimension numbers, from argument `i` on.
  unfoldable pub dot_dimensions : Values mlir → ℕ → Lower mlir DotDimensions
  dot_dimensions args i = do
    lb ← lift (arg_at args i)
    lb' ← get_constant_int_tensor mlir floats lb
    rb ← lift (arg_at args (suc i))
    rb' ← get_constant_int_tensor mlir floats rb
    lc ← lift (arg_at args (suc (suc i)))
    lc' ← get_constant_int_tensor mlir floats lc
    rc ← lift (arg_at args (suc (suc (suc i))))
    rc' ← get_constant_int_tensor mlir floats rc
    pure (record {
      lhs_batching = lb';
      rhs_batching = rb';
      lhs_contracting = lc';
      rhs_contracting = rc';
    })

  -- `LowerDotGeneral`
  unfoldable pub lower_dot_general : Values mlir → List MlirType → Lower mlir (Values mlir)
  unfolding dot_dimensions
  lower_dot_general all_args ret_types = do
    assert_that mlir (leb 6 (length all_args))
    assert_that mlir (length ret_types == 1)
    args ← lift (last_args 6 all_args)
    lhs ← lift (arg_at args 0)
    rhs ← lift (arg_at args 1)
    d ← dot_dimensions args 2
    (lhs_shape, elem) ← lift (get_ranked_type (type_of lhs))
    (rhs_shape, _) ← lift (get_ranked_type (type_of rhs))
    shape ← lift (dot_general_shape lhs_shape rhs_shape d)
    r ← emit_one mlir (Op.dot_general (ranked_tensor shape elem) lhs rhs d)
    pure (r ∷ [])

  -- `LowerRaggedDot`
  unfoldable pub lower_ragged_dot : Values mlir → List MlirType → Lower mlir (Values mlir)
  unfolding dot_dimensions
  lower_ragged_dot all_args ret_types = do
    assert_that mlir (leb 9 (length all_args))
    assert_that mlir (length ret_types == 1)
    args ← lift (last_args 9 all_args)
    lhs ← lift (arg_at args 0)
    rhs ← lift (arg_at args 1)
    group_sizes ← lift (arg_at args 2)
    d ← dot_dimensions args 3
    ragged_value ← lift (arg_at args 7)
    ragged ← get_constant_int mlir floats ragged_value
    group_value ← lift (arg_at args 8)
    group ← get_constant_int_tensor mlir floats group_value
    (lhs_shape, elem) ← lift (get_ranked_type (type_of lhs))
    (rhs_shape, _) ← lift (get_ranked_type (type_of rhs))
    if static_shape mlir rhs_shape then pure tt else throw Error.ragged_rhs_dynamic
    (group_shape, _) ← lift (get_ranked_type (type_of group_sizes))
    g ← lift (last_dim group_shape)
    shape ← lift (ragged_dot_shape lhs_shape rhs_shape d ragged group g)
    r ← emit_one mlir (Op.ragged_dot (ranked_tensor shape elem) lhs rhs group_sizes d ragged group)
    pure (r ∷ [])

  -- `LowerArgSort`
  unfoldable pub lower_arg_sort : Values mlir → List MlirType → Lower mlir (Values mlir)
  lower_arg_sort all_args ret_types = do
    assert_that mlir (leb 2 (length all_args))
    assert_that mlir (length ret_types == 1)
    args ← lift (last_args 2 all_args)
    inputs ← lift (arg_at args 0)
    stable_value ← lift (arg_at args 1)
    stable ← get_constant_int mlir floats stable_value
    (shape, elem) ← lift (get_ranked_type (type_of inputs))
    if length shape == 1 then pure tt else throw Error.undefined
    if static_shape mlir shape then pure tt else throw Error.argsort_dynamic
    n ← emit_one mlir (Op.tensor_dim inputs 0)
    x ← emit_one mlir (Op.constant (scalar (integer_attr (integer 64) 0)))
    s ← emit_one mlir (Op.constant (scalar (integer_attr (integer 64) 1)))
    dim ← lift (arg_at shape 0)
    indices ← create_iota mlir floats n x s (integer 64) dim
    let val_scalar = ranked_tensor [] elem
    let idx_scalar = ranked_tensor [] (integer 64)
    block ← open_op mlir (
        RegionOp.sort (inputs ∷ indices ∷ []) 0 (not (stable == 0))
          (val_scalar ∷ val_scalar ∷ idx_scalar ∷ idx_scalar ∷ []))
    a ← lift (arg_at block 0)
    b ← lift (arg_at block 1)
    lt ← emit_one mlir (Op.stablehlo_lt a b)
    emit_unit mlir (Op.stablehlo_return (lt ∷ []))
    rs ← close_op mlir
    r ← lift (arg_at rs 1)
    pure (r ∷ [])

  -- `LowerScatter`
  unfoldable pub lower_scatter : Values mlir → List MlirType → Lower mlir (Values mlir)
  lower_scatter all_args ret_types = do
    assert_that mlir (leb 3 (length all_args))
    assert_that mlir (length ret_types == 1)
    args ← lift (last_args 3 all_args)
    dest ← lift (arg_at args 0)
    indices ← lift (arg_at args 1)
    values ← lift (arg_at args 2)
    (_, elem) ← lift (get_ranked_type (type_of values))
    block ← open_op mlir (RegionOp.scatter (type_of dest) values indices dest (elem ∷ elem ∷ []))
    a ← lift (arg_at block 0)
    emit_unit mlir (Op.ext_yield (a ∷ []))
    rs ← close_op mlir
    r ← head_value mlir rs
    pure (r ∷ [])

  -- the `switch` in `LowerExp`
  unfoldable pub lower_black_box : BlackBox → Values mlir → List MlirType → Lower mlir (Values mlir)
  lower_black_box mat_mul = lower_mat_mul
  lower_black_box dot_general = lower_dot_general
  lower_black_box ragged_dot = lower_ragged_dot
  lower_black_box arg_sort = lower_arg_sort
  lower_black_box scatter = lower_scatter
