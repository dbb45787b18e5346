-- ===== src/Ir/Core.antt =====
-- mlir-backend/ir/core.hpp: names, subexpressions, slices, types and attributes.
use mlir_backend.Prelude.{ℕ, List, Text, Result, ok, err, Error}
use mlir_backend.Ir.Primitive.{
  PrimType, PrimValue, BinOp, CmpOp, UnOp, ConvOp, prim_value_get_int_value,
}

pub record VName : Type 0 where
  pub name : Text
  pub tag : ℕ

-- `VName{name}`: the tag's default is 0.
abbrev pub vname : Text → VName
vname s = record { name = s; tag = 0 }

pub data Commutativity : Type 0 where
  noncommutative commutative : Commutativity

pub data Uniqueness : Type 0 where
  nonunique unique : Uniqueness

pub record ShapeBase (D : Type 0) : Type 0 where
  pub dims : List D

pub data SubExp : Type 0 where
  constant : PrimValue → SubExp
  var : VName → SubExp

-- `SubExp::GetIntValue`
unfoldable pub sub_exp_get_int_value : SubExp → Result ℕ
unfolding prim_value_get_int_value
sub_exp_get_int_value (constant c) = prim_value_get_int_value c
sub_exp_get_int_value (var _) = err Error.not_constant

-- `SubExp::GetVName`
unfoldable pub get_vname : SubExp → Result VName
get_vname (constant _) = err Error.not_vname
get_vname (var v) = ok v

pub data DimIndex (D : Type 0) : Type 0 where
  dim_fix : D → DimIndex D
  dim_slice : D → D → D → DimIndex D

pub record Slice (D : Type 0) : Type 0 where
  pub dims : List (DimIndex D)

pub record FlatDimIndex (D : Type 0) : Type 0 where
  pub n : D
  pub s : D

pub record FlatSlice (D : Type 0) : Type 0 where
  pub offset : D
  pub dims : List (FlatDimIndex D)

abbrev pub Shape : Type 0
Shape = ShapeBase SubExp

-- `Ext`, `ExtSize` and `ExtShape`: a bound size by its number, or a size.
pub data Ext (A : Type 0) : Type 0 where
  bound : ℕ → Ext A
  free : A → Ext A

abbrev pub ExtShape : Type 0
ExtShape = ShapeBase (Ext SubExp)

-- `TypeBase<ShapeT, UT>`; `Types` is the vector of types in an accumulator.
mutual
  pub data TypeBase (S U : Type 0) : Type 0 where
    type_prim : PrimType → TypeBase S U
    type_acc : PrimType → Shape → Types S U → U → TypeBase S U
    type_array : PrimType → S → U → TypeBase S U
    type_mem : TypeBase S U

  pub data Types (S U : Type 0) : Type 0 where
    no_types : Types S U
    more_types : TypeBase S U → Types S U → Types S U

-- `Type`: `NoUniqueness` carries nothing.
abbrev pub IrType : Type 0
IrType = TypeBase Shape (Unit {0})

abbrev pub DeclExtType : Type 0
DeclExtType = TypeBase ExtShape Uniqueness

-- `Type::CreatePrim`
abbrev pub create_prim : PrimType → IrType
create_prim t = type_prim t

-- `Type::CreateArr`
abbrev pub create_arr : PrimType → Shape → IrType
create_arr t shape = type_array t shape tt

pub data Diet : Type 0 where
  consume observe observe_prim : Diet

pub record PatElem (D : Type 0) : Type 0 where
  pub name : VName
  pub dec : D

pub record Pat (D : Type 0) : Type 0 where
  pub elems : List (PatElem D)

mutual
  pub data Attr : Type 0 where
    atom_attr : Text → Attr
    int_attr : ℕ → Attr
    comp_attr : Text → AttrArgs → Attr

  pub data AttrArgs : Type 0 where
    no_args : AttrArgs
    more_args : Attr → AttrArgs → AttrArgs

pub record Attrs : Type 0 where
  pub attrs : List Attr

pub record Param (D : Type 0) : Type 0 where
  pub attrs : Attrs
  pub name : Text
  pub dec : D

-- `PrimExp`; the arguments of a call are a list of their own.
mutual
  pub data PrimExp : Type 0 where
    leaf_exp : Text → PrimType → PrimExp
    value_exp : PrimValue → PrimExp
    bin_op_exp : BinOp → PrimExp → PrimExp → PrimExp
    cmp_op_exp : CmpOp → PrimExp → PrimExp → PrimExp
    un_op_exp : UnOp → PrimExp → PrimExp
    conv_op_exp : ConvOp → PrimExp → PrimExp
    fun_exp : Text → PrimExps → PrimType → PrimExp

  pub data PrimExps : Type 0 where
    no_exps : PrimExps
    more_exps : PrimExp → PrimExps → PrimExps
