-- ===== src/Compiler/Scope.antt =====
-- compiler.hpp: `Ctx local = ctx`, and the context after each way to build an action, with any action
-- inside.
pub mod SegOp
use mlir_backend.Prelude.{
  ℕ, suc, ◌≡◌, refl, ◌∙◌, sym, Bool, true, false, List, [], ◌∷◌, Text, Result, ok, err, Error,
  if◌then◌else◌,
}
use mlir_backend.Ir.Primitive.{FloatOps, PrimValue}
use mlir_backend.Ir.Core.{VName, SubExp, constant, var, IrType}
use mlir_backend.Ir.Syntax.{
  FParam, LParam, SegLevel, SegSpace, Stms, LoopForm, for_loop, while_loop,
}
use mlir_backend.Compiler.Monad.{
  Outcome, done, thrown, out_of_fuel, pure, throw, lift, ◌>>=◌, map_action, for_each,
}
use mlir_backend.Compiler.Mlir.{Mlir, MlirType, Op, RegionOp}
use mlir_backend.Compiler.State.{
  State, Lower, Values, emit, open_op, close_op, head_value, lookup, in_local, zip_equal, size_if,
}
use mlir_backend.Compiler.Values.{lower_prim_value, lower_sub_exp, cast_to_type}
use mlir_backend.Compiler.Kernels.{
  IterationSpace, lower_dims, lower_seg_space, space_sizes, lower_seg_map, lower_seg_red,
  lower_seg_hist,
}
use mlir_backend.Compiler.Scans.{tie_all, lower_seg_scan}
use mlir_backend.Compiler.Loops.{lower_merge, lower_loop}

-- The context after the action, where it returns, is that of `s`.
abbrev SameContext : (mlir : Mlir) {A : Type 0} → State mlir → Outcome (A × State mlir) → Type 0
SameContext mlir s (done (_, s')) = s'.subexps ≡ s.subexps
SameContext mlir s _ = Unit

pub record Restores (mlir : Mlir) {A : Type 0} (m : Lower mlir A) : Type 0 where
  pub at : (s : State mlir) → SameContext mlir s (m s)

module _ {mlir : Mlir} where
  open mlir use {Value, Func}

  module _ {A B : Type 0} where
    SameContext-then :
        (s : State mlir) (o : Outcome (A × State mlir)) (f : A → Lower mlir B)
        → SameContext mlir s o
        → ((a : A) → Restores mlir (f a))
        → SameContext mlir s
            (elim o [ done (a, s') ↦ f a s' | thrown e ↦ thrown e | out_of_fuel ↦ out_of_fuel ])
    SameContext-then s (done (a, s')) f h k = widen (f a s') ((k a).at s')
      where
        widen : (o : Outcome (B × State mlir)) → SameContext mlir s' o → SameContext mlir s o
        widen (done _) e = e ∙ h
        widen (thrown _) e = tt
        widen out_of_fuel e = tt
    SameContext-then s (thrown e) f h k = tt
    SameContext-then s out_of_fuel f h k = tt

    Restores->>= :
        {m : Lower mlir A} {f : A → Lower mlir B}
        → Restores mlir m
        → ((a : A) → Restores mlir (f a))
        → Restores mlir (m >>= f)
    unfolding ◌>>=◌
    Restores->>= {m = m} {f = f} km kf = record {
      at = λ s. SameContext-then s (m s) f (km.at s) kf;
    }

  module _ {A : Type 0} where
    Restores-pure : (a : A) → Restores mlir (pure a)
    unfolding pure
    Restores-pure a = record { at = λ s. refl }

    Restores-throw : (e : Error) → Restores mlir {A = A} (throw e)
    unfolding throw
    Restores-throw e = record { at = λ s. tt }

    Restores-lift : (r : Result A) → Restores mlir (lift r)
    unfolding lift
    Restores-lift (ok a) = record { at = λ s. refl }
    Restores-lift (err e) = record { at = λ s. tt }

    Restores-if :
        (b : Bool) {m n : Lower mlir A}
        → Restores mlir m
        → Restores mlir n
        → Restores mlir (if b then m else n)
    Restores-if true km kn = km
    Restores-if false km kn = kn

    -- A local context ends, whatever happened in it.
    Restores-in_local : (m : Lower mlir A) → Restores mlir (in_local mlir m)
    unfolding in_local
    Restores-in_local m = record { at = λ s. ended s (m s) }
      where
        ended :
            (s : State mlir) (o : Outcome (A × State mlir))
            → SameContext mlir s (elim o [
              | done (a, s') ↦ done (a, record s' { subexps = s.subexps })
              | thrown e ↦ thrown e
              | out_of_fuel ↦ out_of_fuel
            ])
        ended s (done _) = refl
        ended s (thrown _) = tt
        ended s out_of_fuel = tt

  Restores-map_action :
      {A B : Type 0} (f : A → Lower mlir B) (xs : List A)
      → ((a : A) → Restores mlir (f a))
      → Restores mlir (map_action f xs)
  unfolding map_action
  Restores-map_action f [] kf = Restores-pure []
  Restores-map_action f (x ∷ xs) kf =
      Restores->>= (kf x)
        λ y. Restores->>= (Restores-map_action f xs kf) λ ys. Restores-pure (y ∷ ys)

  Restores-emit : (op : Op Value Func) → Restores mlir (emit mlir op)
  unfolding emit
  Restores-emit op = record { at = λ s. refl }

  Restores-open_op : (op : RegionOp Value) → Restores mlir (open_op mlir op)
  unfolding open_op
  Restores-open_op op = record { at = λ s. refl }

  Restores-close_op : Restores mlir (close_op mlir)
  unfolding close_op
  Restores-close_op = record { at = λ s. refl }

  Restores-lookup : (name : Text) → Restores mlir (lookup mlir name)
  unfolding lookup
  Restores-lookup name = record { at = λ s. (Restores-lift _).at s }

  Restores-head_value : (vs : Values mlir) → Restores mlir (head_value mlir vs)
  unfolding head_value
  Restores-head_value [] = Restores-throw Error.undefined_behaviour
  Restores-head_value (v ∷ _) = Restores-pure v

ruleset scope_rules = (
  Restores->>=, Restores-pure, Restores-throw, Restores-lift, Restores-if, Restores-in_local,
  Restores-map_action, Restores-emit, Restores-open_op, Restores-close_op, Restores-lookup,
  Restores-head_value,
)

module _ (mlir : Mlir) (floats : FloatOps) where
  open mlir use {Value, Func}

  Restores-zip_equal :
      {A B : Type 0} (xs : List A) (ys : List B) → Restores mlir (zip_equal mlir xs ys)
  unfolding zip_equal
  Restores-zip_equal xs ys = search scope_rules depth 9

  Restores-size_if :
      (b : Bool) {m : Lower mlir Value} {n : Lower mlir (Values mlir)}
      → Restores mlir m
      → Restores mlir n
      → Restores mlir (size_if mlir b m n)
  unfolding size_if
  Restores-size_if true km kn = search scope_rules depth 9
  Restores-size_if false km kn = kn

  Restores-lower_prim_value : (v : PrimValue) → Restores mlir (lower_prim_value mlir floats v)
  unfolding lower_prim_value
  Restores-lower_prim_value v = search scope_rules depth 9

  Restores-lower_sub_exp : (e : SubExp) → Restores mlir (lower_sub_exp mlir floats e)
  unfolding lower_sub_exp
  Restores-lower_sub_exp (constant c) = Restores-lower_prim_value c
  Restores-lower_sub_exp (var v) = Restores-lookup v.name

  Restores-cast_to_type : (v : Value) (t : MlirType) → Restores mlir (cast_to_type mlir floats v t)
  unfolding cast_to_type
  Restores-cast_to_type v t = search scope_rules depth 9

ruleset size_rules = (
  scope_rules, Restores-zip_equal, Restores-size_if, Restores-lower_sub_exp, Restores-cast_to_type,
)

module _ (mlir : Mlir) (floats : FloatOps) where
  open mlir use {Value}

  Restores-lower_dims :
      (i : ℕ) (ds : List (Text × SubExp)) → Restores mlir (lower_dims mlir floats i ds)
  unfolding lower_dims
  Restores-lower_dims i [] = Restores-pure []
  Restores-lower_dims i ((id, d) ∷ ds) =
      let ih = Restores-lower_dims (suc i) ds in search size_rules depth 20

  Restores-lower_seg_space : (sp : SegSpace) → Restores mlir (lower_seg_space mlir floats sp)
  unfolding lower_seg_space
  Restores-lower_seg_space sp = Restores-lower_dims 0 sp.dims

  Restores-space_sizes :
      (ds : IterationSpace mlir floats) → Restores mlir (space_sizes mlir floats ds)
  unfolding space_sizes
  Restores-space_sizes [] = Restores-pure []
  Restores-space_sizes (d ∷ ds) =
      Restores-size_if mlir floats _ (search size_rules depth 12) (Restores-space_sizes ds)

  Restores-tie_all : (sizes vs : Values mlir) → Restores mlir (tie_all mlir floats sizes vs)
  unfolding tie_all
  Restores-tie_all [] vs = Restores-pure vs
  Restores-tie_all (s ∷ sizes) vs = search scope_rules depth 12

  Restores-lower_merge : (ms : List (FParam × SubExp)) → Restores mlir (lower_merge mlir floats ms)
  unfolding lower_merge
  Restores-lower_merge ms = search size_rules depth 12

  -- A loop, whatever is lowered in its body, leaves the context as it was.
  pub Restores-lower_loop :
      (ms : List (FParam × SubExp)) (form : LoopForm) (lower_body : Lower mlir (Values mlir))
      → Restores mlir (lower_loop mlir floats ms form lower_body)
  unfolding lower_loop
  Restores-lower_loop ms (while_loop c) lower_body = Restores-throw _
  Restores-lower_loop ms (for_loop i t b) lower_body =
      search (size_rules, Restores-lower_merge) depth 30

  Restores-lower_seg_map :
      (lvl : SegLevel) (sp : SegSpace) (ret : List IrType) (ss : Stms)
      (lower_rest : List Text → Lower mlir (Unit {0})) (rs : List SubExp)
      → Restores mlir (lower_seg_map mlir floats lvl sp ret ss lower_rest rs)
  unfolding lower_seg_map
  Restores-lower_seg_map lvl sp ret ss lower_rest rs =
      search (size_rules, Restores-lower_seg_space, Restores-space_sizes) depth 40

  Restores-lower_seg_red :
      (sp : SegSpace) (ss : Stms) (lower_rest : List Text → Lower mlir (Unit {0}))
      (rs : List SubExp) (ps : List LParam) (ret : List IrType)
      (lower_lambda : Lower mlir (Values mlir)) (ne : List SubExp)
      → Restores mlir (lower_seg_red mlir floats sp ss lower_rest rs ps ret lower_lambda ne)
  unfolding lower_seg_red
  Restores-lower_seg_red sp ss lower_rest rs ps ret lower_lambda ne =
      search (size_rules, Restores-lower_seg_space, Restores-space_sizes) depth 40

  Restores-lower_seg_hist :
      (vs : Values mlir) (dest : List VName) (ps : List LParam)
      (lower_lambda : Lower mlir (Values mlir))
      → Restores mlir (lower_seg_hist mlir floats vs dest ps lower_lambda)
  unfolding lower_seg_hist
  Restores-lower_seg_hist vs dest ps lower_lambda = search size_rules depth 40

  Restores-lower_seg_scan :
      (sp : SegSpace) (ret : List IrType) (lower_stms : Lower mlir (Unit {0})) (rs : List SubExp)
      (ps : List LParam) (lower_lambda : Lower mlir (Values mlir)) (ne : List SubExp)
      (qs : List LParam) (lower_post : Lower mlir (Values mlir))
      → Restores mlir
          (lower_seg_scan mlir floats sp ret lower_stms rs ps lower_lambda ne qs lower_post)
  unfolding lower_seg_scan
  Restores-lower_seg_scan sp ret lower_stms rs ps lower_lambda ne qs lower_post =
      search (size_rules, Restores-lower_seg_space, Restores-space_sizes, Restores-tie_all) depth 40
