-- ===== src/Compiler/Tensors/Transpose.antt =====
-- compiler.hpp `LowerBasicOp` on `BasicOpRearrange`: the tensor that a transposition fills.
use mlir_backend.Prelude.{ℕ, ◌≡◌, List, [], ◌∷◌, ◌++◌, some, length, get_elem?, ok}
use mlir_backend.Ir.Primitive.{FloatOps}
use mlir_backend.Ir.Core.{VName}
use mlir_backend.Compiler.Env
use mlir_backend.Compiler.Mlir.{Mlir, MlirType, ranked_tensor, Op}
use mlir_backend.Compiler.State.{State, created, lookup}

-- Each entry of the permutation names the dimension that stands in its place.
abbrev pub IsPermuted : List ℕ → List ℕ → List ℕ → Type 0
IsPermuted shape [] [] = Unit
IsPermuted shape (p ∷ perm) (d ∷ dims) = (get_elem? shape p ≡ some d) × IsPermuted shape perm dims
IsPermuted shape _ _ = ⊥

module _ (mlir : Mlir) (floats : FloatOps) where
  open mlir use {Value, Func, type_of}

  -- The two calls for the array: the permutation has its rank, and each dimension of the tensor to
  -- fill, which is given no sizes, is the array's dimension that the permutation names there.
  pub record IsTransposition (arr : VName) (perm : List ℕ) (s s' : State mlir) : Type 0 where
    pub source : Value
    pub destination : Value
    pub shape : List ℕ
    pub dims : List ℕ
    pub elem : MlirType
    pub is_bound : Env.lookup arr.name s.subexps ≡ ok source
    pub has_shape : type_of source ≡ ranked_tensor shape elem
    pub has_rank : length perm ≡ length shape
    pub is_permuted : IsPermuted shape perm dims
    pub calls :
        s'.log
        ≡ (s.log ++ created (Op.tensor_empty (ranked_tensor dims elem) []) ∷ [])
          ++ created (Op.transpose source destination perm) ∷ []
