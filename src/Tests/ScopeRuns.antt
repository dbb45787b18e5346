-- ===== src/Tests/ScopeRuns.antt =====
-- A kernel that gives back its index, and a loop with nothing in it.
use mlir_backend.Prelude.{ℕ, ◌≡◌, refl, [], ◌∷◌, codes, text_eq, Text}
use mlir_backend.Ir.Primitive.{PrimType, int_value, int64_value, int64}
use mlir_backend.Ir.Core.{vname, SubExp, constant, var, type_prim, sub_exp_get_int_value}
use mlir_backend.Ir.Syntax.{
  SegLevel, SegVirt, SegOp, seg_map, kernel_body, body, no_stms, Exp, for_loop, FunDef,
}
use mlir_backend.Compiler.Monad.{Outcome, done, lift, ◌>>=◌, pure, map_action, for_each}
use mlir_backend.Compiler.Env
use mlir_backend.Compiler.Types.{to_shape_type, lower_seg_op_base_type, lower_prim_type}
use mlir_backend.Compiler.Values.{lower_sub_exp, lower_prim_value, get_prim_value_attr}
use mlir_backend.Compiler.Kernels.{
  lower_dims, lower_seg_space, space_sizes, find_affine_reads, bind_gtid, lower_kernel_body,
  lower_seg_map,
}
use mlir_backend.Compiler.Loops.{lower_loop, loop_round, lower_merge, cast_all}
use mlir_backend.Compiler.Mlir.{Mlir, index}
use mlir_backend.Compiler.State.{
  State, Lower, Values, emit, head_value, open_op, close_op, in_local, zip_equal, bind, lookup,
  size_if,
}
use mlir_backend.Compiler.Lower.{
  Callee, lower_map, lower_kernel_stms, lower_stms, lower_body, lower_seg_op, lower_exp,
}
use mlir_backend.Compiler.Functions.{lower_function}
use mlir_backend.Compiler.Scope.SegOp.{lower_seg_op-subexps, lower_exp-subexps}
use mlir_backend.Tests.Fixtures.{toy, toy_floats, start, mutual_calls}

abbrev number : ℕ → SubExp
number k = constant (int_value (int64_value k))

abbrev lower_call : FunDef → Lower toy (Callee Text)
lower_call = lower_function toy toy_floats mutual_calls 3

abbrev indices : SegOp
indices =
    seg_map (SegLevel.seg_thread SegVirt.no_virt)
      (record { flat_id = codes "t"; dims = (codes "i", number 2) ∷ [] })
      (type_prim (PrimType.int int64) ∷ []) (kernel_body no_stms (var (vname (codes "i")) ∷ []))

abbrev state_of : {mlir : Mlir} → State mlir → Outcome (Values mlir × State mlir) → State mlir
state_of s (done (_, s')) = s'
state_of s _ = s

kernel_example :
    (state_of start (lower_seg_op toy toy_floats mutual_calls lower_call indices start)).subexps
    ≡ start.subexps
unfolding lower_seg_op lower_map lower_seg_map lift ◌>>=◌ lower_seg_space lower_dims lower_sub_exp
    lower_prim_value get_prim_value_attr emit head_value pure find_affine_reads map_action
    to_shape_type sub_exp_get_int_value space_sizes size_if open_op in_local lower_kernel_body
    zip_equal for_each bind_gtid bind lower_kernel_stms lookup Env.lookup Env.insert text_eq
    close_op lower_seg_op_base_type lower_prim_type
kernel_example = lower_seg_op-subexps toy toy_floats mutual_calls lower_call indices start refl

-- A loop's region has the counter as its argument.
abbrev looping : Mlir
looping = record toy { open_region = λ op m. (index ∷ [], m) }

abbrev at_start : State looping
at_start = record { subexps = Env.empty; functions = []; ir = 0; log = [] }

abbrev empty_loop : Exp
empty_loop = Exp.exp_loop [] (for_loop (vname (codes "i")) int64 (number 2)) (body no_stms [])

loop_example :
    (state_of at_start (
      lower_exp looping toy_floats mutual_calls
        (lower_function looping toy_floats mutual_calls 3)
        empty_loop
        at_start)).subexps
    ≡ at_start.subexps
unfolding lower_exp lower_loop loop_round lower_merge cast_all lower_body lower_stms lift ◌>>=◌
    lower_sub_exp lower_prim_value get_prim_value_attr emit head_value pure map_action open_op
    in_local zip_equal for_each bind lookup Env.lookup Env.insert text_eq close_op
loop_example =
    lower_exp-subexps looping toy_floats mutual_calls
      (lower_function looping toy_floats mutual_calls 3) []
      (for_loop (vname (codes "i")) int64 (number 2)) (body no_stms []) at_start refl
