-- ===== src/Prelude/Results.antt =====
-- Exceptions as values. A constructor of `Error` stands for each exception that the code or the
-- standard library throws, and for what C++ leaves undefined.
use mathlib.Core.Path.{◌≡◌, refl}
use mathlib.Core.List.{List, [], ◌∷◌}
use mathlib.Core.Option.{Option, none, some}
use mlir_backend.Prelude.Lists.{length}
use mlir_backend.Prelude.Strings.{Text}
use native.Mathlib.Omega.{arith}

pub data Error : Type 0 where
  -- utils.hpp `Undefined()`
  undefined : Error
  -- `Env::lookup`
  unbound_variable : Text → Error
  not_an_integer not_constant not_vname : Error
  loop_arity concat_format : Error
  ragged_rhs_dynamic argsort_dynamic : Error
  no_definition not_primitive : Text → Error
  -- `std::get`, `std::stoi` and its kin, `at`
  bad_variant_access invalid_argument out_of_range : Error
  -- an `assert` that fails, `llvm::zip_equal` of unequal lengths included
  assertion : Error
  -- a read of an uninitialised variable or out of bounds
  undefined_behaviour : Error

-- A value, or what was thrown in its place.
pub data Result {ℓ} (T : Type ℓ) : Type ℓ where
  err : Error → Result T
  ok : T → Result T

infixl 5 ◌>>=◌
abbrev pub ◌>>=◌ {ℓ κ} : {T : Type ℓ} {U : Type κ} → Result T → (T → Result U) → Result U
r >>= next = elim r [ err e ↦ err e | ok t ↦ next t ]

abbrev pub or_err {ℓ} : {A : Type ℓ} → Option A → Error → Result A
or_err none e = err e
or_err (some a) e = ok a

-- A loop that visits each element and pushes the results back.
abbrev pub map_result {ℓ κ} : {A : Type ℓ} {B : Type κ} → (A → Result B) → List A → Result (List B)
map_result f [] = ok []
map_result f (x ∷ xs) = f x >>= λ y. map_result f xs >>= λ ys. ok (y ∷ ys)

pub >>=-eq-ok {ℓ κ} :
    {T : Type ℓ} {U : Type κ} (r : Result T) (next : T → Result U) {u : U}
    → (r >>= next) ≡ ok u
    → (t : T) × (r ≡ ok t) × (next t ≡ ok u)
>>=-eq-ok (err e) next h = cc
>>=-eq-ok (ok t) next h = (t, refl, h)

-- Every element gives one result.
pub length-map_result {ℓ κ} :
    {A : Type ℓ} {B : Type κ} (f : A → Result B) (xs : List A) {ys : List B}
    → map_result f xs ≡ ok ys
    → length ys ≡ length xs
length-map_result f [] {ys} h = ground arith
length-map_result f (x ∷ xs) {ys} h =
    let (y, e, h₁) = >>=-eq-ok (f x) _ h in
    let (zs, e', h₂) = >>=-eq-ok (map_result f xs) _ h₁ in ground (arith, length-map_result f xs e')
