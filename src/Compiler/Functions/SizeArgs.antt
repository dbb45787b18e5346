-- ===== src/Compiler/Functions/SizeArgs.antt =====
-- compiler.hpp `LowerFunction`: the annotation of an entry point's parameters by the positions of
-- the parameters that give their dimensions.
use mlir_backend.Prelude.{
  ℕ, suc, ◌<◌, ◌+◌, ◌≡◌, ◌≢◌, refl, sym, ap, Bool, true, false, List, [], ◌∷◌, Option, none, some,
  map, All, get_elem?, Text, text_eq, text_eq_sound, text_eq_refl, ok, err, >>=-eq-ok, map_result,
  if◌then◌else◌, arith,
}
use mathlib.Core.Path.{subst}
use mlir_backend.Ir.Core.{SubExp, constant, var, IrType, type_prim, type_acc, type_array, type_mem}
use mlir_backend.Ir.Syntax.{FParam}
use mlir_backend.Compiler.Functions.{
  Positions, position_of, minus_one, dim_position, size_args_of, size_args,
}

ok-injective : {A : Type 0} {a b : A} → ok a ≡ ok b → a ≡ b
ok-injective {a = a} h = ap (λ r. elim r [ err _ ↦ a | ok c ↦ c ]) h

-- Among the first `n` parameters, number `p` is the last one of a name.
abbrev pub IsLast : List FParam → ℕ → Text → ℕ → Type 0
IsLast params n name p =
    (p < n)
    × ((q : FParam) × (get_elem? params p ≡ some q) × (q.name ≡ name))
    × ((j : ℕ) (q : FParam) → p < j → j < n → get_elem? params j ≡ some q → q.name ≢ name)

-- What stands for a dimension of parameter `i`: the number of the parameter that gives it, which is
-- not after i, or -1 where it is static.
abbrev pub IsSize : List FParam → ℕ → SubExp → ℕ → Type 0
IsSize params i (var v) p = IsLast params (suc i) v.name p
IsSize params i (constant _) p = p ≡ minus_one

abbrev pub AreSizes : List FParam → ℕ → List SubExp → List ℕ → Type 0
AreSizes params i [] [] = Unit
AreSizes params i (d ∷ ds) (p ∷ ps) = IsSize params i d p × AreSizes params i ds ps
AreSizes params i _ _ = ⊥

-- An array's annotation has one number for each of its dimensions.
abbrev pub IsTypeAnnotation : List FParam → ℕ → IrType → List ℕ → Type 0
IsTypeAnnotation params i (type_array e shape u) ps = AreSizes params i shape.dims ps
IsTypeAnnotation params i _ ps = ⊥

abbrev pub IsAnnotation : List FParam → ℕ × List ℕ → Type 0
IsAnnotation params a =
    (q : FParam) × (get_elem? params a.0 ≡ some q) × IsTypeAnnotation params a.0 q.dec a.1

abbrev is_array : IrType → Bool
is_array (type_array _ _ _) = true
is_array _ = false

-- The numbers of the parameters that are arrays, in order, the first parameter's being `i`.
abbrev pub array_params : ℕ → List FParam → List ℕ
array_params i [] = []
array_params i (p ∷ ps) =
    let rest = array_params (suc i) ps in if is_array p.dec then i ∷ rest else rest

-- The map has the last parameter of each name among the first n.
abbrev Enters : List FParam → ℕ → Positions → Type 0
Enters params n m = (name : Text) (p : ℕ) → position_of name m ≡ ok p → IsLast params n name p

Enters-cons :
    (params : List FParam) (i : ℕ) (m : Positions) (q : FParam)
    → get_elem? params i ≡ some q
    → Enters params i m
    → Enters params (suc i) ((q.name, i) ∷ m)
unfolding position_of
Enters-cons params i m q e hs name p h = entered (text_eq q.name name) refl h
  where
    entered :
        (b : Bool)
        → text_eq q.name name ≡ b
        → (if b then ok i else position_of name m) ≡ ok p
        → IsLast params (suc i) name p
    entered true eq h' =
        subst (IsLast params (suc i) name) (ok-injective h')
          (omega arith, (q, e, text_eq_sound q.name name eq), λ j r l l' at same. omega arith)
    entered false ne h' =
        let (l, found, last) = hs name p h' in
        (
          omega arith,
          found,
          λ j r above below at same.
              let old = λ (k : j < i). last j r above k at same in
              let new : j ≡ i → ⊥ = λ k. let t = text_eq_refl name in cc in ground arith,
        )

dim_position-IsSize :
    (params : List FParam) (i : ℕ) (m : Positions) (d : SubExp) {p : ℕ}
    → Enters params (suc i) m
    → dim_position m d ≡ ok p
    → IsSize params i d p
unfolding dim_position
dim_position-IsSize params i m (var v) {p} hs h = hs v.name p h
dim_position-IsSize params i m (constant _) hs h = sym (ok-injective h)

map_result-AreSizes :
    (params : List FParam) (i : ℕ) (m : Positions) (ds : List SubExp) {ps : List ℕ}
    → Enters params (suc i) m
    → map_result (dim_position m) ds ≡ ok ps
    → AreSizes params i ds ps
map_result-AreSizes params i m [] {ps} hs h = subst (AreSizes params i []) (ok-injective h) tt
map_result-AreSizes params i m (d ∷ ds) {ps} hs h =
    let (p, e, h₁) = >>=-eq-ok (dim_position m d) _ h in
    let (rest, e', h₂) = >>=-eq-ok (map_result (dim_position m) ds) _ h₁ in
    subst (AreSizes params i (d ∷ ds)) (ok-injective h₂)
      (dim_position-IsSize params i m d hs e, map_result-AreSizes params i m ds hs e')

-- The annotations of the parameters from number `i` on: for each array, and right.
abbrev Annotate : List FParam → ℕ → List FParam → List (ℕ × List ℕ) → Type 0
Annotate params i ps as' =
    All (IsAnnotation params) as' × (map (λ (a : ℕ × List ℕ). a.0) as' ≡ array_params i ps)

-- What a parameter adds to the annotations of those after it.
abbrev add_annotation : ℕ → Option (List ℕ) → List (ℕ × List ℕ) → List (ℕ × List ℕ)
add_annotation i a rest = elim a [ none ↦ rest | some ps ↦ (i, ps) ∷ rest ]

Annotate-none :
    (params : List FParam) (i : ℕ) (q : FParam) (ps : List FParam) (rest : List (ℕ × List ℕ))
    {a : Option (List ℕ)}
    → is_array q.dec ≡ false
    → ok none ≡ ok a
    → Annotate params (suc i) ps rest
    → Annotate params i (q ∷ ps) (add_annotation i a rest)
Annotate-none params i q ps rest plain h (right, all) =
    subst (λ a. Annotate params i (q ∷ ps) (add_annotation i a rest)) (ok-injective h)
      (right, rw plain all)

Annotate-add_annotation :
    (params : List FParam) (i : ℕ) (m : Positions) (q : FParam) (t : IrType) (ps : List FParam)
    (rest : List (ℕ × List ℕ)) {a : Option (List ℕ)}
    → q.dec ≡ t
    → get_elem? params i ≡ some q
    → Enters params (suc i) m
    → size_args_of m t ≡ ok a
    → Annotate params (suc i) ps rest
    → Annotate params i (q ∷ ps) (add_annotation i a rest)
unfolding size_args_of
Annotate-add_annotation params i m q (type_array e shape u) ps rest is_t at hs h (right, all) =
    let (sizes, e', h₁) = >>=-eq-ok (map_result (dim_position m) shape.dims) _ h in
    let sized = map_result-AreSizes params i m shape.dims hs e' in
    subst (λ a. Annotate params i (q ∷ ps) (add_annotation i a rest)) (ok-injective h₁)
      (
        ((q, at, subst (λ t. IsTypeAnnotation params i t sizes) (sym is_t) sized), right),
        rw is_t (ap (λ is. i ∷ is) all),
      )
Annotate-add_annotation params i m q (type_prim _) ps rest is_t at hs h r =
    Annotate-none params i q ps rest (ap is_array is_t) h r
Annotate-add_annotation params i m q (type_acc _ _ _ _) ps rest is_t at hs h r =
    Annotate-none params i q ps rest (ap is_array is_t) h r
Annotate-add_annotation params i m q type_mem ps rest is_t at hs h r =
    Annotate-none params i q ps rest (ap is_array is_t) h r

from_parameter :
    (params : List FParam) (i : ℕ) (m : Positions) (ps : List FParam) {as' : List (ℕ × List ℕ)}
    → Enters params i m
    → ((k : ℕ) → get_elem? params (i + k) ≡ get_elem? ps k)
    → size_args i m ps ≡ ok as'
    → Annotate params i ps as'
unfolding size_args
from_parameter params i m [] hs there h = subst (Annotate params i []) (ok-injective h) (tt, refl)
from_parameter params i m (q ∷ ps) hs there h =
    let m' : Positions = (q.name, i) ∷ m in
    let at : get_elem? params i ≡ some q =
      subst (λ j. get_elem? params j ≡ some q) (omega arith) (there 0) in
    let after =
      λ (k : ℕ). subst (λ j. get_elem? params j ≡ get_elem? ps k) (omega arith) (there (suc k)) in
    let entered = Enters-cons params i m q at hs in
    let (a, e, h₁) = >>=-eq-ok (size_args_of m' q.dec) _ h in
    let (rest, e', h₂) = >>=-eq-ok (size_args (suc i) m' ps) _ h₁ in
    subst (Annotate params i (q ∷ ps)) (ok-injective h₂) (
      Annotate-add_annotation params i m' q q.dec ps rest refl at entered e
        (from_parameter params (suc i) m' ps entered after e'))

-- Where the annotations of a function's parameters are computed, the parameters that are arrays are
-- annotated, in order, each once, and each annotation has one number for each dimension of its
-- parameter's type: for a variable, that of the last parameter of this name that is not after the
-- annotated one, and for a constant -1 as an int64_t.
pub size_args-IsAnnotation :
    (params : List FParam) {as' : List (ℕ × List ℕ)}
    → size_args 0 [] params ≡ ok as'
    → All (IsAnnotation params) as' × (map (λ (a : ℕ × List ℕ). a.0) as' ≡ array_params 0 params)
unfolding position_of
size_args-IsAnnotation params h =
    from_parameter params 0 [] params (λ name p e. cc) (λ k. ap (get_elem? params) (omega arith)) h
