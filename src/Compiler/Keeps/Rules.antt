-- ===== src/Compiler/Keeps/Rules.antt =====
-- Invariants of the lowering, and the rules for the combinators of actions.
use mlir_backend.Prelude.{
  some, ◌≡◌, Bool, true, false, List, [], ◌∷◌, ◌++◌, Text, Result, ok, err, Error, if◌then◌else◌,
}
use mlir_backend.Compiler.Monad.{
  Outcome, done, thrown, out_of_fuel, pure, throw, lift, ◌>>=◌, map_action, for_each,
}
use mlir_backend.Compiler.Env
use mlir_backend.Compiler.Mlir.{Mlir, Op}
use mlir_backend.Compiler.State.{State, Call, created, Lower}
use mlir_backend.Compiler.Lower.{Callee, func, black_box}
use mlir_backend.Compiler.Functions.{find_lowered}
use mlir_backend.Compiler.Nesting.{Region, Frame, running, Step, IsBuilt}

-- The state after a call.
abbrev pub logged :
    (mlir : Mlir) → mlir.Module → Call mlir.Value mlir.Func → State mlir → State mlir
logged mlir m c s = record s { ir = m; log = s.log ++ c ∷ [] }

-- The function has an entry.
abbrev pub IsLowered : {F : Type 0} → F → List (Text × F) → Type 0
IsLowered f memo = (name : Text) × (find_lowered name memo ≡ some f)

-- What holds of the state wherever the builder stands. It is kept by each call that may come there,
-- by a binding, and where a context ends.
pub record Invariant (mlir : Mlir) : Type 1 where
  pub holds : List Frame → State mlir → Type 0
  pub calls :
      {σ τ : List Frame} {c : Call mlir.Value mlir.Func} (m : mlir.Module) (s : State mlir)
      → Step σ c τ
      → IsBuilt c
      → holds σ s
      → holds τ (logged mlir m c s)
  pub invokes :
      {r : Region} {σ : List Frame} (f : mlir.Func) (args : List mlir.Value) (m : mlir.Module)
      (s : State mlir)
      → IsLowered f s.functions
      → holds (running r ∷ σ) s
      → holds (running r ∷ σ) (logged mlir m (created (Op.call f args)) s)
  pub binds :
      {σ : List Frame} (name : Text) (v : mlir.Value) (s : State mlir)
      → holds σ s
      → holds σ (record s { subexps = Env.insert name v s.subexps })
  pub restores :
      {σ τ : List Frame} (s s' : State mlir)
      → holds σ s
      → holds τ s'
      → holds τ (record s' { subexps = s.subexps })

-- An invariant, and a property of the lowered functions.
abbrev pub with_functions :
    {mlir : Mlir} → (List (Text × mlir.Func) → Type 0) → Invariant mlir → Invariant mlir
with_functions R I = record {
  holds = λ σ s. R s.functions × I.holds σ s;
  calls = λ m s step b (q, h). (q, I.calls m s step b h);
  invokes = λ g args m s k (q, h). (q, I.invokes g args m s k h);
  binds = λ name v s (q, h). (q, I.binds name v s h);
  restores = λ s s' (_, h) (q, h'). (q, I.restores s s' h h');
}

-- No condition on the state.
abbrev pub any_state : {mlir : Mlir} → Invariant mlir
any_state = record {
  holds = λ σ s. Unit;
  calls = λ m s step b h. tt;
  invokes = λ g args m s k h. tt;
  binds = λ name v s h. tt;
  restores = λ s s' h h'. tt;
}

-- The state of an outcome satisfies `Q`, and the fuel has not run out.
abbrev pub Kept :
    (mlir : Mlir) {A : Type 0} → (State mlir → Type 0) → Outcome (A × State mlir) → Type 0
Kept mlir Q (done (_, s)) = Q s
Kept mlir Q (thrown _) = Unit
Kept mlir Q out_of_fuel = ⊥

-- The action leaves the builder where it was, and keeps the invariant there.
pub record Keeps (mlir : Mlir) {A : Type 0} (I : Invariant mlir) (σ : List Frame) (m : Lower mlir A)
    : Type 0 where
  pub at : (s : State mlir) → I.holds σ s → Kept mlir (I.holds σ) (m s)

-- It does so in each region that takes operations.
abbrev pub KeepsAll : (mlir : Mlir) {A : Type 0} → Invariant mlir → Lower mlir A → Type 0
KeepsAll mlir I m = (r : Region) (σ : List Frame) → Keeps mlir I (running r ∷ σ) m

-- The action moves the builder from one stack to another, and keeps the invariant.
pub record Moves (mlir : Mlir) {A : Type 0} (I : Invariant mlir) (σ τ : List Frame)
    (m : Lower mlir A) : Type 0 where
  pub at : (s : State mlir) → I.holds σ s → Kept mlir (I.holds τ) (m s)

pub Kept-weaken :
    {mlir : Mlir} (Q R : State mlir → Type 0) {A : Type 0} (o : Outcome (A × State mlir))
    → ((s : State mlir) → Q s → R s)
    → Kept mlir Q o
    → Kept mlir R o
Kept-weaken Q R (done (_, s)) w h = w s h
Kept-weaken Q R (thrown e) w h = tt
Kept-weaken Q R out_of_fuel w h = h

Kept-then :
    {mlir : Mlir} (Q R : State mlir → Type 0) {A B : Type 0} (o : Outcome (A × State mlir))
    (f : A → Lower mlir B)
    → Kept mlir Q o
    → ((a : A) (s : State mlir) → Q s → Kept mlir R (f a s))
    → Kept mlir R
        (elim o [ done (a, s') ↦ f a s' | thrown e ↦ thrown e | out_of_fuel ↦ out_of_fuel ])
Kept-then Q R (done (a, s)) f h kf = kf a s h
Kept-then Q R (thrown e) f h kf = tt
Kept-then Q R out_of_fuel f h kf = h

pub Kept->>= :
    {mlir : Mlir} (Q R : State mlir → Type 0) {A B : Type 0} (m : Lower mlir A)
    (f : A → Lower mlir B) (s : State mlir)
    → Kept mlir Q (m s)
    → ((a : A) (s : State mlir) → Q s → Kept mlir R (f a s))
    → Kept mlir R ((m >>= f) s)
unfolding ◌>>=◌
Kept->>= Q R m f s h kf = Kept-then Q R (m s) f h kf

-- The same with the value that is returned.
abbrev pub KeptWith :
    (mlir : Mlir) {A : Type 0} → (A → State mlir → Type 0) → Outcome (A × State mlir) → Type 0
KeptWith mlir Q (done (a, s)) = Q a s
KeptWith mlir Q (thrown _) = Unit
KeptWith mlir Q out_of_fuel = ⊥

KeptWith-then :
    {mlir : Mlir} (Q : State mlir → Type 0) {A B : Type 0} (R : B → State mlir → Type 0)
    (o : Outcome (A × State mlir)) (f : A → Lower mlir B)
    → Kept mlir Q o
    → ((a : A) (s : State mlir) → Q s → KeptWith mlir R (f a s))
    → KeptWith mlir R
        (elim o [ done (a, s') ↦ f a s' | thrown e ↦ thrown e | out_of_fuel ↦ out_of_fuel ])
KeptWith-then Q R (done (a, s)) f h kf = kf a s h
KeptWith-then Q R (thrown e) f h kf = tt
KeptWith-then Q R out_of_fuel f h kf = h

pub KeptWith->>= :
    {mlir : Mlir} (Q : State mlir → Type 0) {A B : Type 0} (R : B → State mlir → Type 0)
    (m : Lower mlir A) (f : A → Lower mlir B) (s : State mlir)
    → Kept mlir Q (m s)
    → ((a : A) (s : State mlir) → Q s → KeptWith mlir R (f a s))
    → KeptWith mlir R ((m >>= f) s)
unfolding ◌>>=◌
KeptWith->>= Q R m f s h kf = KeptWith-then Q R (m s) f h kf

module _ {mlir : Mlir} {I : Invariant mlir} {σ : List Frame} where
  module _ {A : Type 0} where
    pub Keeps-pure : (a : A) → Keeps mlir I σ (pure a)
    unfolding pure
    Keeps-pure a = record { at = λ s h. h }

    pub Keeps-throw : (e : Error) → Keeps mlir {A = A} I σ (throw e)
    unfolding throw
    Keeps-throw e = record { at = λ s h. tt }

    pub Keeps-lift : (r : Result A) → Keeps mlir I σ (lift r)
    unfolding lift
    Keeps-lift (ok a) = record { at = λ s h. h }
    Keeps-lift (err e) = record { at = λ s h. tt }

    pub Keeps-if :
        (b : Bool) {m n : Lower mlir A}
        → Keeps mlir I σ m
        → Keeps mlir I σ n
        → Keeps mlir I σ (if b then m else n)
    Keeps-if true km kn = km
    Keeps-if false km kn = kn

  module _ {A B : Type 0} where
    pub Keeps->>= :
        {m : Lower mlir A} {f : A → Lower mlir B}
        → Keeps mlir I σ m
        → ((a : A) → Keeps mlir I σ (f a))
        → Keeps mlir I σ (m >>= f)
    Keeps->>= {m = m} {f = f} km kf = record {
      at = λ s h. Kept->>= _ _ m f s (km.at s h) λ a s' q. (kf a).at s' q;
    }

  pub Keeps-map_action :
      {A B : Type 0} (f : A → Lower mlir B) (xs : List A)
      → ((a : A) → Keeps mlir I σ (f a))
      → Keeps mlir I σ (map_action f xs)
  unfolding map_action
  Keeps-map_action f [] kf = Keeps-pure []
  Keeps-map_action f (x ∷ xs) kf =
      Keeps->>= (kf x) λ y. Keeps->>= (Keeps-map_action f xs kf) λ ys. Keeps-pure (y ∷ ys)

  pub Keeps-for_each :
      {A : Type 0} (f : A → Lower mlir (Unit {0})) (xs : List A)
      → ((a : A) → Keeps mlir I σ (f a))
      → Keeps mlir I σ (for_each f xs)
  unfolding for_each
  Keeps-for_each f [] kf = Keeps-pure tt
  Keeps-for_each f (x ∷ xs) kf = Keeps->>= (kf x) λ u. Keeps-for_each f xs kf

  pub Moves-step :
      {A B : Type 0} {τ : List Frame} {m : Lower mlir A} {f : A → Lower mlir B}
      → Keeps mlir I σ m
      → ((a : A) → Moves mlir I σ τ (f a))
      → Moves mlir I σ τ (m >>= f)
  Moves-step {m = m} {f = f} km kf = record {
    at = λ s h. Kept->>= _ _ m f s (km.at s h) λ a s' q. (kf a).at s' q;
  }

  pub Moves->>= :
      {A B : Type 0} {τ υ : List Frame} {m : Lower mlir A} {f : A → Lower mlir B}
      → Moves mlir I σ τ m
      → ((a : A) → Moves mlir I τ υ (f a))
      → Moves mlir I σ υ (m >>= f)
  Moves->>= {m = m} {f = f} km kf = record {
    at = λ s h. Kept->>= _ _ m f s (km.at s h) λ a s' q. (kf a).at s' q;
  }

  pub Moves-Keeps : {A : Type 0} {m : Lower mlir A} → Keeps mlir I σ m → Moves mlir I σ σ m
  Moves-Keeps k = record { at = k.at }

  pub Keeps-Moves : {A : Type 0} {m : Lower mlir A} → Moves mlir I σ σ m → Keeps mlir I σ m
  Keeps-Moves k = record { at = k.at }

-- What is called is found under the name, unless it is a black box.
abbrev pub IsCallable : {F : Type 0} → Text → Callee F → List (Text × F) → Type 0
IsCallable name (func f) memo = find_lowered name memo ≡ some f
IsCallable name (black_box b) memo = Unit

-- The action keeps the invariant, and gives something that can be called.
pub record Calls (mlir : Mlir) (I : Invariant mlir) (σ : List Frame) (name : Text)
    (m : Lower mlir (Callee mlir.Func)) : Type 0 where
  pub at :
      (s : State mlir)
      → I.holds σ s
      → KeptWith mlir (λ c s'. I.holds σ s' × IsCallable name c s'.functions) (m s)

pub KeptWith-weaken :
    {mlir : Mlir} {A : Type 0} (Q R : A → State mlir → Type 0) (o : Outcome (A × State mlir))
    → ((a : A) (s : State mlir) → Q a s → R a s)
    → KeptWith mlir Q o
    → KeptWith mlir R o
KeptWith-weaken Q R (done (a, s)) w h = w a s h
KeptWith-weaken Q R (thrown _) w h = tt
KeptWith-weaken Q R out_of_fuel w h = h

pub KeptWith-Kept :
    {mlir : Mlir} {A : Type 0} (Q : A → State mlir → Type 0) (R : State mlir → Type 0)
    (o : Outcome (A × State mlir))
    → ((a : A) (s : State mlir) → Q a s → R s)
    → KeptWith mlir Q o
    → Kept mlir R o
KeptWith-Kept Q R (done (a, s)) w h = w a s h
KeptWith-Kept Q R (thrown _) w h = tt
KeptWith-Kept Q R out_of_fuel w h = h

KeptWith-next :
    {mlir : Mlir} {A B : Type 0} (Q : A → State mlir → Type 0) (R : State mlir → Type 0)
    (o : Outcome (A × State mlir)) (f : A → Lower mlir B)
    → KeptWith mlir Q o
    → ((a : A) (s : State mlir) → Q a s → Kept mlir R (f a s))
    → Kept mlir R
        (elim o [ done (a, s') ↦ f a s' | thrown e ↦ thrown e | out_of_fuel ↦ out_of_fuel ])
KeptWith-next Q R (done (a, s)) f h kf = kf a s h
KeptWith-next Q R (thrown e) f h kf = tt
KeptWith-next Q R out_of_fuel f h kf = h

pub Calls->>= :
    {mlir : Mlir} {I : Invariant mlir} {σ : List Frame} {B : Type 0} (name : Text)
    (m : Lower mlir (Callee mlir.Func)) (f : Callee mlir.Func → Lower mlir B)
    → Calls mlir I σ name m
    → ((c : Callee mlir.Func) (s : State mlir)
        → I.holds σ s
        → IsCallable name c s.functions
        → Kept mlir (I.holds σ) (f c s))
    → Keeps mlir I σ (m >>= f)
unfolding ◌>>=◌
Calls->>= name m f km kf = record {
  at = λ s h. KeptWith-next _ _ (m s) f (km.at s h) λ c s' (q, k). kf c s' q k;
}

pub ruleset action_rules = (
  Keeps-pure, Keeps-throw, Keeps-lift, Keeps-if, Keeps->>=, Keeps-map_action, Keeps-for_each,
  Moves-step, Moves-Keeps,
)
