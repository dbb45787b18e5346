-- ===== src/Compiler/Nesting.antt =====
-- The regions of MLIR as compiler.hpp fills them: which calls a region may get, and which operation
-- ends it. A frame is a region that the builder stands in; the innermost is the head of a stack.
use mlir_backend.Prelude.{Option, none, some, List, [], ◌∷◌, ◌++◌, ◌≡◌, Text}
use mlir_backend.Compiler.Mlir.{MlirType, FoldResult, Op, RegionOp}
use mlir_backend.Compiler.State.{
  Call, created, opened, next, closed, func_created, func_opened, func_closed,
}

pub data Region : Type 0 where
  func_body generic_body for_body forall_body then_body else_body scatter_body sort_body : Region

-- A region that still takes operations, one that has its terminator, and the region of
-- `scf.forall.in_parallel`, which takes insertions alone.
pub data Frame : Type 0 where
  running ended : Region → Frame
  inserting : Frame

module _ {V F : Type 0} where
  -- Neither a terminator, nor a call of a function, nor an insertion, nor a change of a function's attributes.
  abbrev pub IsPlain : Op V F → Type 0
  IsPlain (Op.linalg_yield _) = ⊥
  IsPlain (Op.scf_yield _) = ⊥
  IsPlain (Op.ext_yield _) = ⊥
  IsPlain (Op.stablehlo_return _) = ⊥
  IsPlain (Op.func_return _) = ⊥
  IsPlain (Op.parallel_insert_slice _ _ _ _ _) = ⊥
  IsPlain (Op.func_private _) = ⊥
  IsPlain (Op.arg_attr _ _ _) = ⊥
  IsPlain (Op.call _ _) = ⊥
  IsPlain _ = Unit

  -- These set attributes of a function, and add no operation to a region.
  abbrev pub IsMark : Op V F → Type 0
  IsMark (Op.func_private _) = Unit
  IsMark (Op.arg_attr _ _ _) = Unit
  IsMark _ = ⊥

  -- The terminator of each region.
  abbrev pub Ends : Region → Op V F → Type 0
  Ends func_body (Op.func_return _) = Unit
  Ends generic_body (Op.linalg_yield _) = Unit
  Ends for_body (Op.scf_yield _) = Unit
  Ends then_body (Op.scf_yield _) = Unit
  Ends else_body (Op.scf_yield _) = Unit
  Ends scatter_body (Op.ext_yield _) = Unit
  Ends sort_body (Op.stablehlo_return _) = Unit
  Ends _ _ = ⊥

-- The first region of an operation.
abbrev pub body_of : {V : Type 0} → RegionOp V → Region
body_of (RegionOp.generic _ _ _ _ _) = generic_body
body_of (RegionOp.scf_for _ _ _ _) = for_body
body_of (RegionOp.scf_if _) = then_body
body_of (RegionOp.scf_forall _ _) = forall_body
body_of RegionOp.in_parallel = forall_body
body_of (RegionOp.scatter _ _ _ _ _) = scatter_body
body_of (RegionOp.sort _ _ _ _) = sort_body

-- An operation with regions of its own: not `in_parallel`, which is part of `scf.forall`.
abbrev pub HasBody : {V : Type 0} → RegionOp V → Type 0
HasBody RegionOp.in_parallel = ⊥
HasBody _ = Unit

-- The last region of an operation.
abbrev pub IsLast : Region → Type 0
IsLast func_body = ⊥
IsLast then_body = ⊥
IsLast _ = Unit

-- What each call does to the stack of regions.
pub data Step {V F : Type 0} : List Frame → Call V F → List Frame → Type 0 where
  plain :
      {r : Region} {σ : List Frame} {op : Op V F}
      → IsPlain op
      → Step (running r ∷ σ) (created op) (running r ∷ σ)
  invokes :
      {r : Region} {σ : List Frame} {f : F} {args : List V}
      → Step (running r ∷ σ) (created (Op.call f args)) (running r ∷ σ)
  marks : {σ : List Frame} {op : Op V F} → IsMark op → Step σ (created op) σ
  ends :
      {r : Region} {σ : List Frame} {op : Op V F}
      → Ends r op
      → Step (running r ∷ σ) (created op) (ended r ∷ σ)
  opens :
      {r : Region} {σ : List Frame} {op : RegionOp V}
      → HasBody op
      → Step (running r ∷ σ) (opened op) (running (body_of op) ∷ running r ∷ σ)
  turns : {σ : List Frame} → Step (ended then_body ∷ σ) next (running else_body ∷ σ)
  closes :
      {q r : Region} {σ : List Frame}
      → IsLast q
      → Step (ended q ∷ running r ∷ σ) closed (running r ∷ σ)
  gathers :
      {σ : List Frame}
      → Step
          (running forall_body ∷ σ)
          (opened RegionOp.in_parallel)
          (inserting ∷ running forall_body ∷ σ)
  inserts :
      {σ : List Frame} {x y : V} {os ns ss : List (FoldResult V)}
      → Step (inserting ∷ σ) (created (Op.parallel_insert_slice x y os ns ss)) (inserting ∷ σ)
  gathered :
      {σ : List Frame} → Step (inserting ∷ running forall_body ∷ σ) closed (ended forall_body ∷ σ)
  declares :
      {σ : List Frame} {name : Text} {inputs rets : List MlirType}
      → Step σ (func_created name inputs rets) σ
  enters : {σ : List Frame} {f : F} → Step σ (func_opened f) (running func_body ∷ σ)
  leaves : {σ : List Frame} → Step (ended func_body ∷ σ) func_closed σ

-- The calls of a log, in order, from one stack to another.
pub data Runs {V F : Type 0} (σ : List Frame) : List (Call V F) → List Frame → Type 0 where
  here : Runs σ [] σ
  then :
      {τ υ : List Frame} {cs ds : List (Call V F)} {c : Call V F}
      → Runs σ cs τ
      → Step τ c υ
      → ds ≡ cs ++ c ∷ []
      → Runs σ ds υ

-- The function that an operation calls.
abbrev pub called_func : {V F : Type 0} → Op V F → Option F
called_func (Op.call f _) = some f
called_func _ = none

abbrev pub IsNone : {F : Type 0} → Option F → Type 0
IsNone none = Unit
IsNone (some _) = ⊥

-- Any call but the creation of a function, which comes with an entry in `functions`, and `func.call`,
-- which needs one.
abbrev pub IsBuilt : {V F : Type 0} → Call V F → Type 0
IsBuilt (func_created _ _ _) = ⊥
IsBuilt (created op) = IsNone (called_func op)
IsBuilt _ = Unit
