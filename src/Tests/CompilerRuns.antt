-- ===== src/Tests/CompilerRuns.antt =====
-- Lowerings of small programs, operations and kernels.
use mlir_backend.Prelude.{
  ℕ, ◌+◌, ◌≡◌, ◌≢◌, ◌↔◌, refl, List, [], ◌∷◌, some, true, Text, codes, map, All, ok, if◌then◌else◌,
  text_eq, arith,
}
use mlir_backend.Ir.Primitive.{PrimType, int64}
use mlir_backend.Ir.Core.{vname, SubExp, DimIndex, type_prim}
use mlir_backend.Ir.Syntax.{BasicOp, Exp, stm, Stms, no_stms, more_stms}
use mlir_backend.Compiler.Monad.{for_each, map_action, out_of_fuel, pure, ◌>>=◌, lift}
use mlir_backend.Compiler.Env
use mlir_backend.Compiler.Env.{Env}
use mlir_backend.Compiler.Mlir.{MlirType, integer, index, ranked_tensor, Op, Cast}
use mlir_backend.Compiler.State.{
  State, in_local, zip_equal, Call, created, size_if, lookup, emit, head_value,
}
use mlir_backend.Compiler.Types.{lower_ty, lower_prim_type, to_shape_type}
use mlir_backend.Compiler.Values.{lower_sub_exp}
use mlir_backend.Compiler.Tensors.{dynamic_sizes, lower_scratch, lower_replicate}
use mlir_backend.Compiler.Tensors.Sizes.{IsSized, lower_scratch-IsSized, lower_replicate-IsSized}
use mlir_backend.Compiler.Blackboxes.{maybe_black_box}
use mlir_backend.Compiler.Lower.{lower_stms}
use mlir_backend.Compiler.Kernels.{
  used_dims, find_dim, Dim, AffineRead, to_affine_read, find_affine_reads,
}
use mlir_backend.Compiler.Kernels.Recognition.{IsCoordinate, to_affine_read-IsCoordinate}
use mlir_backend.Compiler.Kernels.Affine.{
  index_value, apply_map, IsMapOf, to_affine_read-index_value, find_affine_reads-IsMapOf,
}
use mlir_backend.Compiler.Functions.{
  enter, erase, find_lowered, create_function, lower_function, lower_known, define_function,
  function_body, size_args, size_args_of, dim_position, lower_program,
}
use mlir_backend.Compiler.Functions.SizeArgs.{IsAnnotation, array_params, size_args-IsAnnotation}
use mlir_backend.Compiler.Termination.{lower_program-returns, lower_program-find_lowered}
use mlir_backend.Tests.Fixtures.{
  toy, toy_floats, start, bound_to_n, mutual_calls, size_param, array_param,
}

lower_program_example : lower_program toy toy_floats mutual_calls start ≢ out_of_fuel
lower_program_example = lower_program-returns toy toy_floats mutual_calls start

abbrev n : SubExp
n = SubExp.var (vname (codes "n"))

-- xs[j, i] in a space of the dimensions i and j
abbrev space : List (Dim MlirType)
space =
    record { id = codes "i"; value = integer 64; is_dyn = true; position = 0 }
    ∷ record { id = codes "j"; value = integer 64; is_dyn = true; position = 1 }
    ∷ []

abbrev transposed : List (DimIndex SubExp)
transposed =
    DimIndex.dim_fix (SubExp.var (vname (codes "j")))
    ∷ DimIndex.dim_fix (SubExp.var (vname (codes "i")))
    ∷ []

abbrev transposed_read : AffineRead
transposed_read = record {
  result = vname (codes "x");
  array = vname (codes "xs");
  index_map = record { rank = 2; results = 1 ∷ 0 ∷ [] };
}

-- Coordinates 5 and 6, which i and j stand for.
abbrev point : ℕ → ℕ
point i = 5 + i

abbrev at_point : Text → ℕ
at_point name = if text_eq name (codes "i") then 5 else 6

affine_read_example :
    (transposed_read.result ≡ vname (codes "x"))
    × (transposed_read.array ≡ vname (codes "xs"))
    × (map (index_value at_point) transposed ≡ map some (apply_map transposed_read.index_map point))
unfolding to_affine_read text_eq used_dims find_dim
affine_read_example =
    to_affine_read-index_value (vname (codes "x")) (vname (codes "xs"))
      (record { dims = transposed }) space at_point point {r = transposed_read} (refl, (refl, tt))
      refl

recognition_example :
    ((r : AffineRead) × (to_affine_read
          (vname (codes "x"))
          (Exp.basic_op (BasicOp.index (vname (codes "xs")) (record { dims = transposed })))
          space
        ≡ some r))
    ↔ All (IsCoordinate space) transposed
recognition_example =
    to_affine_read-IsCoordinate (vname (codes "x")) (vname (codes "xs"))
      (record { dims = transposed }) space

abbrev read_stms : Stms
read_stms =
    more_stms
      (stm
        (record {
          elems = record { name = vname (codes "x"); dec = type_prim (PrimType.int int64) } ∷ [];
        })
        (Exp.basic_op (BasicOp.index (vname (codes "xs")) (record { dims = transposed }))))
      no_stms

reads_example : All (λ (r : AffineRead). IsMapOf space r.index_map) (transposed_read ∷ [])
unfolding find_affine_reads to_affine_read text_eq used_dims find_dim
reads_example = find_affine_reads-IsMapOf space read_stms (ground arith, (ground arith, tt)) refl

-- f(n: i64, xs: [n]i64): the array's dimension is given by parameter 0.
size_args_example :
    All (IsAnnotation (size_param ∷ array_param ∷ [])) ((1, 0 ∷ []) ∷ [])
    × (map (λ (a : ℕ × List ℕ). a.0) ((1, 0 ∷ []) ∷ [])
        ≡ array_params 0 (size_param ∷ array_param ∷ []))
unfolding size_args text_eq size_args_of dim_position
size_args_example = size_args-IsAnnotation (size_param ∷ array_param ∷ []) refl

abbrev three : Env ℕ
three = Env.insert (codes "x") 3 Env.empty

lookup_example :
    Env.lookup (codes "x") (Env.insert (codes "x") 4 three)
    ≡ (if text_eq (codes "x") (codes "x") then ok 4 else Env.lookup (codes "x") three)
lookup_example = Env.lookup-insert (codes "x") (codes "x") 4 three

-- The calls for a tensor of n elements.
abbrev sized_calls : List (Call MlirType Text)
sized_calls =
    created (Op.cast Cast.index_cast index (integer 64))
    ∷ created (Op.tensor_empty (ranked_tensor (1000 ∷ []) (integer 64)) (index ∷ []))
    ∷ []

scratch_example : All (IsSized toy) sized_calls
unfolding lower_scratch ◌>>=◌ lift lower_prim_type to_shape_type dynamic_sizes size_if lower_sub_exp
    lookup Env.lookup Env.insert text_eq emit head_value pure
scratch_example =
    lower_scratch-IsSized toy toy_floats (PrimType.int int64) (n ∷ []) bound_to_n
      {s' = record bound_to_n { log = sized_calls }} tt refl

-- n copies of n
abbrev replicate_calls : List (Call MlirType Text)
replicate_calls =
    created (Op.cast Cast.index_cast index (integer 64))
    ∷ created (Op.from_elements (ranked_tensor [] (integer 64)) (integer 64 ∷ []))
    ∷ created (Op.tensor_empty (ranked_tensor (1000 ∷ []) (integer 64)) (index ∷ []))
    ∷ created (Op.broadcast (integer 64) (ranked_tensor (1000 ∷ []) (integer 64)) (0 ∷ []))
    ∷ []

replicate_example : All (IsSized toy) replicate_calls
unfolding lower_replicate ◌>>=◌ lift to_shape_type dynamic_sizes size_if lower_sub_exp lookup
    Env.lookup Env.insert text_eq emit head_value pure
replicate_example =
    lower_replicate-IsSized toy toy_floats (n ∷ []) n bound_to_n
      {s' = record bound_to_n { log = replicate_calls }} tt refl

-- A state in which f is lowered already, under another value.
abbrev with_f : State toy
with_f = record start { functions = (codes "f", codes "f_0") ∷ [] }

kept_entry_example :
    find_lowered (codes "f") ((codes "g", codes "g") ∷ (codes "f", codes "f_0") ∷ [])
    ≡ some (codes "f_0")
unfolding lower_program lower_function lower_known define_function function_body for_each map_action
    ◌>>=◌ lift pure maybe_black_box find_lowered lower_ty lower_prim_type create_function enter
    erase emit in_local lower_stms zip_equal text_eq
kept_entry_example =
    lower_program-find_lowered toy toy_floats mutual_calls with_f (codes "f") (codes "f_0") refl
      refl
