-- ===== src/Tests/Fixtures.antt =====
-- A small instance of MLIR, whose values are their types, and a program of two functions that call
-- each other.
use Prim.Native.String.{String}
use mlir_backend.Prelude.{ℕ, Bool, true, false, List, [], ◌∷◌, none, Text, codes, ok}
use mlir_backend.Ir.Primitive.{Safety, FloatOps, PrimType, bool_value, int64}
use mlir_backend.Ir.Core.{SubExp, constant, vname, var, IrType, type_prim, type_array}
use mlir_backend.Ir.Syntax.{
  FParam, MatchSort, Exp, stm, no_stms, more_stms, Body, body, FunDef, Prog,
}
use mlir_backend.Compiler.Env
use mlir_backend.Compiler.Mlir.{Mlir, MlirType, index, integer, Op}
use mlir_backend.Compiler.State.{State}

abbrev pub toy_floats : FloatOps
toy_floats = record {
  stod = λ s. ok 0;
  to_float = λ d. d;
  to_uint16 = λ d. d;
  of_float = λ d. d;
  of_uint16 = λ d. d;
  negate = λ d. d;
  infinity = 0;
  quiet_nan = 0;
}

-- The results of an operation: one value, of the type that the call names if it names one.
abbrev toy_results : Op MlirType Text → List MlirType
toy_results (Op.tensor_empty t _) = t ∷ []
toy_results (Op.cast _ t _) = t ∷ []
toy_results (Op.constant_index _) = index ∷ []
toy_results (Op.call _ _) = []
toy_results _ = integer 64 ∷ []

abbrev pub toy : Mlir
toy = record {
  Value = MlirType;
  Func = Text;
  Module = ℕ;
  type_of = λ t. t;
  k_dynamic = 1000;
  create = λ op m. (toy_results op, m);
  open_region = λ op m. ([], m);
  next_region = λ m. m;
  close_region = λ m. (index ∷ [], m);
  create_func = λ name inputs rets m. (name, m);
  argument_types = λ f. [];
  open_func = λ f m. ([], m);
  close_func = λ m. m;
  are_cast_compatible = λ a b. true;
  reassociation = λ a b. none;
  constant_ints = λ v m. none;
  constant_int = λ v m. none;
  asserts = true;
}

abbrev pub start : State toy
start = record { subexps = Env.empty; functions = []; ir = 0; log = [] }

abbrev pub bound_to_n : State toy
bound_to_n = record start { subexps = Env.insert (codes "n") (integer 64) Env.empty }

abbrev i64 : IrType
i64 = type_prim (PrimType.int int64)

abbrev without_params : String → Body → FunDef
without_params name b = record {
  entry = none;
  attrs = record { attrs = [] };
  name = codes name;
  ret_type = [];
  params = [];
  body = b;
}

abbrev pub calling : String → String → FunDef
calling name callee = without_params name (
    body
      (more_stms (stm (record { elems = [] }) (Exp.apply (codes callee) [] [] Safety.unsafe))
        no_stms)
      [])

abbrev pub mutual_calls : Prog
mutual_calls = record { consts = no_stms; funs = calling "f" "g" ∷ calling "g" "f" ∷ [] }

-- let y = if true then true else false in y
abbrev truth : Bool → SubExp
truth b = constant (bool_value b)

abbrev pub branching : Prog
branching = record {
  consts = no_stms;
  funs =
      without_params "h" (
        body
          (more_stms
            (stm
              (record {
                elems = record { name = vname (codes "y"); dec = type_prim PrimType.bool } ∷ [];
              })
              (Exp.exp_if (truth true) (body no_stms (truth true ∷ []))
                (body no_stms (truth false ∷ [])) [] MatchSort.normal))
            no_stms)
          (var (vname (codes "y")) ∷ []))
      ∷ [];
}

-- A parameter of 64 bits, and one that is an array of so many of them.
abbrev pub size_param : FParam
size_param = record { attrs = record { attrs = [] }; name = codes "n"; dec = i64 }

abbrev pub array_param : FParam
array_param = record {
  attrs = record { attrs = [] };
  name = codes "xs";
  dec = type_array (PrimType.int int64) (record { dims = var (vname (codes "n")) ∷ [] }) tt;
}
