-- ===== src/Compiler/Refinement/Signatures.antt =====
-- compiler.hpp `LowerFunction`: the types of functions of integer scalars, and what a call of such a
-- function finds.
use mlir_backend.Prelude.{Bool, ℕ, none, Option, suc, ap, ok, ◌≡◌, refl, List, [], ◌∷◌, some, Text}
use mlir_backend.Ir.Primitive.{PrimType, int_type_width}
use mlir_backend.Ir.Core.{IrType, type_prim}
use mlir_backend.Ir.Syntax.{FParam}
use mlir_backend.Compiler.Monad.{lift, map_action, done, ◌>>=◌, pure}
use mlir_backend.Compiler.Mlir.{Mlir, MlirType, integer}
use mlir_backend.Compiler.State.{State}
use mlir_backend.Compiler.Types.{lower_ty, lower_prim_type}
use mlir_backend.Compiler.Functions.{Positions, size_args, size_args_of}
use mlir_backend.Compiler.Refinement.Words.{Number}
use mlir_backend.Compiler.Refinement.Target.{AllDenote, Semantics}
use mlir_backend.Compiler.Refinement.Total.{after_done}
use mlir_backend.Compiler.Refinement.Later.{some-same}

-- The width of a scalar type.
abbrev pub scalar_width : IrType → Option ℕ
scalar_width (type_prim (PrimType.int t)) = some (int_type_width t)
scalar_width (type_prim PrimType.bool) = some 1
scalar_width _ = none

-- The types are scalar, and of the numbers' widths, one for one.
abbrev pub HaveTypes : {A : Type 0} → (A → IrType) → List A → List Number → Type 0
HaveTypes type [] [] = Unit
HaveTypes type (a ∷ items) (x ∷ xs) =
    (scalar_width (type a) ≡ some x.width) × HaveTypes type items xs
HaveTypes type _ _ = ⊥

abbrev pub types_of : List Number → List MlirType
types_of [] = []
types_of (x ∷ xs) = integer x.width ∷ types_of xs

-- The run is a call of a function that is created, with these arguments. Where nothing runs, they
-- have the types of the arguments.
pub record Entry (mlir : Mlir) (sem : Semantics mlir) (run : Bool) (arguments : List Number)
    : Type 0 where
  -- `FunctionType::getInputs` gives what the function was created with.
  pub created_types :
      (name : Text) (inputs results : List MlirType) (m : mlir.Module)
      → mlir.argument_types ((mlir.create_func name inputs results m).0) ≡ inputs
  -- The arguments of the entry block are those of the call.
  pub entry_block :
      (f : mlir.Func) (m : mlir.Module)
      → mlir.argument_types f ≡ types_of arguments
      → AllDenote mlir sem.bits run ((mlir.open_func f m).1) ((mlir.open_func f m).0) arguments

lower_ty-scalar :
    (mlir : Mlir) (t : IrType) {w : ℕ} → scalar_width t ≡ some w → lower_ty mlir t ≡ ok (integer w)
unfolding lower_ty lower_prim_type
lower_ty-scalar mlir (type_prim (PrimType.int t)) h = ap (λ w. ok (integer w)) (some-same _ _ h)
lower_ty-scalar mlir (type_prim PrimType.bool) h = ap (λ w. ok (integer w)) (some-same _ _ h)
lower_ty-scalar mlir _ h = cc

pub map_action-lower_ty :
    (mlir : Mlir) {A : Type 0} (type : A → IrType) (items : List A) (xs : List Number)
    (s : State mlir)
    → HaveTypes type items xs
    → map_action {S = State mlir} (λ a. lift (lower_ty mlir (type a))) items s
      ≡ done (types_of xs, s)
unfolding map_action pure lift ◌>>=◌
map_action-lower_ty mlir type [] [] s h = refl
map_action-lower_ty mlir type (a ∷ items) (x ∷ xs) s (e, h) = rw (lower_ty-scalar mlir (type a) e) (
    after_done (map_action (λ a. lift (lower_ty mlir (type a))) items) _ s
      (map_action-lower_ty mlir type items xs s h))
map_action-lower_ty mlir type [] (x ∷ xs) s h = absurd h
map_action-lower_ty mlir type (a ∷ items) [] s h = absurd h

-- A scalar has no annotation.
scalar-size_args :
    (m : Positions) (t : IrType) {w : ℕ} → scalar_width t ≡ some w → size_args_of m t ≡ ok none
unfolding size_args_of
scalar-size_args m (type_prim t) h = refl
scalar-size_args m _ h = cc

pub size_args-scalar :
    (i : ℕ) (m : Positions) (ps : List FParam) (xs : List Number)
    → HaveTypes (λ (p : FParam). p.dec) ps xs
    → size_args i m ps ≡ ok []
unfolding size_args
size_args-scalar i m [] xs h = refl
size_args-scalar i m (p ∷ ps) (x ∷ xs) (e, h) =
    rw
      (
        scalar-size_args ((p.name, i) ∷ m) p.dec e,
        size_args-scalar (suc i) ((p.name, i) ∷ m) ps xs h,
      )
      refl
size_args-scalar i m (p ∷ ps) [] h = absurd h
