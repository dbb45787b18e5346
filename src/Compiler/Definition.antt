-- ===== src/Compiler/Definition.antt =====
-- compiler.hpp `LowerFunction` past its lookups: what holds while the new function is defined, and its entry.
use mlir_backend.Prelude.{
  ℕ, suc, ◌≤◌, ◌<◌, ◌≡◌, ◌≢◌, List, [], ◌∷◌, none, some, Text, text_eq_sound, arith,
}
use mlir_backend.Ir.Primitive.{FloatOps}
use mlir_backend.Ir.Syntax.{FunDef, Prog}
use mlir_backend.Compiler.Monad.{pure}
use mlir_backend.Compiler.Mlir.{Mlir, MlirType}
use mlir_backend.Compiler.State.{State, Lower}
use mlir_backend.Compiler.Nesting.{Frame}
use mlir_backend.Compiler.Lower.{Callee, func}
use mlir_backend.Compiler.Functions.Entries.{enter_new}
use mlir_backend.Compiler.Functions.{enter, find_lowered, define_function}
use mlir_backend.Compiler.Functions.{create_function, annotate, function_body}
use mlir_backend.Compiler.Keeps.{Calls, KeptWith, KeptWith->>=, with_functions}
use mlir_backend.Compiler.Keeps.Functions.{Keeps-annotate, Keeps-body}
use mlir_backend.Compiler.Lower.{black_box}
use mlir_backend.Compiler.State.{in_local}
use mlir_backend.Compiler.Monad.{◌>>=◌, lift, map_action}
use mlir_backend.Prelude.{Result, text_eq_refl}
use mlir_backend.Compiler.Missing.{missing, missing-entry, missing-le}
use mlir_backend.Compiler.Keeps.{Invariant, Keeps, value_rules}
use mlir_backend.Compiler.Keeps.Lower.{IsListed}
use mlir_backend.Compiler.Keeps.Functions.{FunctionLaws, entered}

module _ {F : Type 0} where
  pub entry_stays :
      (name : Text) (f : F) (n : Text) (g : F) (memo : List (Text × F))
      → find_lowered n memo ≡ none
      → find_lowered name memo ≡ some f
      → find_lowered name ((n, g) ∷ memo) ≡ some f
  unfolding find_lowered
  entry_stays name f n g memo h e = let same = text_eq_sound n name in ground arith

  pub found_itself :
      (name : Text) (f : F) (memo : List (Text × F))
      → find_lowered name (enter name f memo) ≡ some f
  unfolding find_lowered enter
  found_itself name f memo = ground (arith, text_eq_refl name)

-- What is called stands in `functions` under the name.
abbrev pub IsEntry : {mlir : Mlir} → Text → Callee mlir.Func → State mlir → Type 0
IsEntry name (func f) s = find_lowered name s.functions ≡ some f
IsEntry name (black_box b) s = ⊥

-- `I` is what else is to hold of the state.
module _ (mlir : Mlir) (floats : FloatOps) (prog : Prog) (I : Invariant mlir)
    (laws : FunctionLaws mlir I) where
  open mlir use {Func}

  -- At most `k` functions of the program are missing.
  abbrev pub FewMissing : ℕ → Invariant mlir
  FewMissing k = with_functions (λ memo. missing prog.funs memo ≤ k) I

  -- `fun` is missing as well.
  abbrev pub WithoutEntry : FunDef → ℕ → Invariant mlir
  WithoutEntry fun k =
      with_functions
        (λ memo. (missing prog.funs memo ≤ suc k) × (find_lowered fun.name memo ≡ none)) I

  -- The entry of the function itself leaves one fewer missing.
  pub entry_kept :
      (fun : FunDef) (k : ℕ) {σ : List Frame}
      → IsListed fun.name prog.funs
      → (m : mlir.Module) (inputs rets : List MlirType) (f : Func) (s : State mlir)
      → (WithoutEntry fun k).holds σ s
      → (FewMissing k).holds σ (entered mlir m fun.name inputs rets f s)
  entry_kept fun k l m inputs rets f s ((few, e), h) =
      let fewer = missing-entry fun.name f s.functions prog.funs e l in
      (
        enter_new (λ memo. missing prog.funs memo ≤ k) fun.name f s.functions e
            (few_less fewer few),
        laws.adds m fun.name inputs rets f s e h,
      )
    where
      few_less : {a b : ℕ} → a < b → b ≤ suc k → a ≤ k
      few_less p q = omega arith

  pub few_laws : (k : ℕ) → FunctionLaws mlir (FewMissing k)
  few_laws k = record {
    adds = λ m name inputs rets f s e (few, h). (
      enter_new (λ memo. missing prog.funs memo ≤ k) name f s.functions e
          (at_most few (missing-le name f s.functions prog.funs)),
      laws.adds m name inputs rets f s e h,
    );
    resets = λ s (few, h). (few, laws.resets s h);
  }
    where
      at_most : {a b : ℕ} → a ≤ k → b ≤ a → b ≤ k
      at_most p q = omega arith

  -- None of the functions that are lowered is left out of a count of zero.
  pub no_entry :
      (fun : FunDef) (s : State mlir)
      → IsListed fun.name prog.funs
      → missing prog.funs s.functions ≤ 0
      → find_lowered fun.name s.functions ≢ none
  no_entry fun s l h e =
      let g = (mlir.create_func fun.name [] [] s.ir).0 in
      let fewer = missing-entry fun.name g s.functions prog.funs e l in below_zero fewer h
    where
      below_zero : {a b : ℕ} → a < b → b ≤ 0 → ⊥
      below_zero p q = omega arith

  -- The name stands for `f`.
  abbrev pub Entry : Text → Func → Invariant mlir
  Entry name f = with_functions (λ memo. find_lowered name memo ≡ some f) I

  pub Entry-laws : (name : Text) (f : Func) → FunctionLaws mlir (Entry name f)
  Entry-laws name f = record {
    adds = λ m n inputs rets g s e (q, h). (
      enter_new (λ memo. find_lowered name memo ≡ some f) n g s.functions e
          (entry_stays name f n g s.functions e q),
      laws.adds m n inputs rets g s e h,
    );
    resets = λ s (q, h). (q, laws.resets s h);
  }

module _ (mlir : Mlir) (floats : FloatOps) (prog : Prog) (k : ℕ)
    (lower_call : FunDef → Lower mlir (Callee mlir.Func))
    (call_kept : (I : Invariant mlir) (laws : FunctionLaws mlir I) (fun : FunDef)
      → IsListed fun.name prog.funs
      → (σ : List Frame)
      → Calls mlir (FewMissing mlir floats prog I laws k) σ fun.name (lower_call fun))
    (I : Invariant mlir) (laws : FunctionLaws mlir I) (σ : List Frame) where
  open mlir use {Func}

  abbrev FewWith : Text → Func → Invariant mlir
  FewWith name f =
      FewMissing mlir floats prog (Entry mlir floats prog I laws name f)
        (Entry-laws mlir floats prog I laws name f) k

  abbrev IsDefined : Text → Callee Func → State mlir → Type 0
  IsDefined name c s =
      (FewMissing mlir floats prog I laws k).holds σ s × IsEntry {mlir = mlir} name c s

  -- After the creation: the entry stays what it is.
  KeptWith-created :
      (fun : FunDef) (f : Func) (s : State mlir)
      → (FewWith fun.name f).holds σ s
      → KeptWith mlir (IsDefined fun.name) (
          (annotate mlir floats prog f fun >>= λ u.
          in_local mlir (function_body mlir floats prog lower_call fun f) >>= λ v. pure (func f))
            s)
  unfolding pure
  KeptWith-created fun f s h =
      let entry_laws = Entry-laws mlir floats prog I laws fun.name f in
      let few = few_laws mlir floats prog (Entry mlir floats prog I laws fun.name f) entry_laws k in
      KeptWith->>= _ _ _ _ s
        ((Keeps-annotate mlir floats prog (FewWith fun.name f) few {σ = σ} f fun).at s h)
        λ u s₁ h₁.
          KeptWith->>= _ _ _ _ s₁
            ((Keeps-body mlir floats prog (FewWith fun.name f) few lower_call
                (call_kept (Entry mlir floats prog I laws fun.name f) entry_laws) {σ = σ} f fun).at
              s₁ h₁)
            λ v s₂ h₂. ((h₂.0, h₂.1.1), h₂.1.0)

  KeptWith-create_function :
      {B : Type 0} (Q : B → State mlir → Type 0) (name : Text) (inputs rets : List MlirType)
      (g : Func → Lower mlir B) (s : State mlir)
      → ((f : Func) (m : mlir.Module) → KeptWith mlir Q (g f (entered mlir m name inputs rets f s)))
      → KeptWith mlir Q ((create_function mlir floats prog name inputs rets >>= g) s)
  unfolding create_function ◌>>=◌
  KeptWith-create_function Q name inputs rets g s h = h _ _

  Keeps-types :
      (J : Invariant mlir) {A : Type 0} (f : A → Result MlirType) (xs : List A)
      → Keeps mlir J σ (map_action (λ x. lift (f x)) xs)
  Keeps-types J f xs = search value_rules depth 12

  pub KeptWith-define_function :
      (fun : FunDef) (s : State mlir)
      → IsListed fun.name prog.funs
      → (WithoutEntry mlir floats prog I laws fun k).holds σ s
      → KeptWith mlir (IsDefined fun.name) (define_function mlir floats prog lower_call fun s)
  unfolding define_function
  KeptWith-define_function fun s l h =
      let without = WithoutEntry mlir floats prog I laws fun k in
      KeptWith->>= _ _ _ _ s ((Keeps-types without _ fun.ret_type).at s h) λ rets s₁ h₁.
        KeptWith->>= _ _ _ _ s₁ ((Keeps-types without _ fun.params).at s₁ h₁) λ inputs s₂ h₂.
          KeptWith-create_function _ fun.name inputs rets _ s₂ λ f m.
            let few = entry_kept mlir floats prog I laws fun k {σ = σ} l m inputs rets f s₂ h₂ in
            KeptWith-created fun f _ (few.0, (found_itself fun.name f s₂.functions, few.1))
