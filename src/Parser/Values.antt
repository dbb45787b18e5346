-- ===== src/Parser/Values.antt =====
-- parser.hpp: literals, subexpressions, scalar types, types and slices.
pub mod Literals
use mlir_backend.Prelude.{
  ℕ, ◌≡◌, refl, Bool, true, false, ◌||◌, List, [], ◌∷◌, Option, none, some, ◌==◌, if◌then◌else◌,
  Text, codes, text_eq, Result, ok, err, ◌>>=◌, Error, map_result,
}
use mlir_backend.Word.{truncate}
use mlir_backend.Ir.Primitive.{
  PrimType, bool, unit, prim_type_int, prim_type_float, IntValue, int8_value, int16_value,
  int32_value, int64_value, FloatValue, float16_value, float32_value, float64_value, PrimValue,
  int_value, float_value, bool_value, FloatOps,
}
use mlir_backend.Ir.Core.{
  VName, vname, SubExp, constant, var, DimIndex, Shape, IrType, create_prim, create_arr, get_vname,
}
use mlir_backend.Parser.Numbers.{stoll}
use mlir_backend.Parser.Tree.{
  PrimValueContext, prim_value_integer, prim_value_float, prim_value_float_special, prim_value_bool,
  SubExpContext, constant_sub_expression, var_sub_exp, ExtShapeContext, TypeContext, type_shape,
  type_prim, type_unit_array, type_unit, DimIndexContext,
}

-- `s.rfind(p, 0) == 0`
unfoldable pub starts_with : Text → Text → Bool
starts_with [] s = true
starts_with (c ∷ p) [] = false
starts_with (c ∷ p) (d ∷ s) = if c == d then starts_with p s else false

-- `s.find(p) != npos`
unfoldable pub contains_text : Text → Text → Bool
unfolding starts_with
contains_text p [] = starts_with p []
contains_text p (c ∷ s) = starts_with p (c ∷ s) || contains_text p s

-- `VisitPrimValueInteger`
unfoldable pub visit_prim_value_integer : Text → Text → Result IntValue
unfolding text_eq
visit_prim_value_integer number w = do
  v ← stoll number
  if text_eq w (codes "i8")
      then ok (int8_value (truncate 8 v))
      else if text_eq w (codes "i16")
      then ok (int16_value (truncate 16 v))
      else if text_eq w (codes "i32")
      then ok (int32_value (truncate 32 v))
      else if text_eq w (codes "i64")
      then ok (int64_value v)
      else err Error.undefined

-- `VisitPrimType`
unfoldable pub visit_prim_type : Text → Result PrimType
unfolding text_eq prim_type_int prim_type_float
visit_prim_type name =
    if text_eq name (codes "i8")
    then prim_type_int 8
    else if text_eq name (codes "i16")
    then prim_type_int 16
    else if text_eq name (codes "i32")
    then prim_type_int 32
    else if text_eq name (codes "i64")
    then prim_type_int 64
    else if text_eq name (codes "f16")
    then prim_type_float 16
    else if text_eq name (codes "f32")
    then prim_type_float 32
    else if text_eq name (codes "f64")
    then prim_type_float 64
    else if text_eq name (codes "bool")
    then ok bool
    else err Error.undefined

module _ (floats : FloatOps) where
  open floats use {stod, to_float, to_uint16, negate, infinity, quiet_nan}

  -- `VisitPrimValueFloat`: a 16-bit float gets the double converted to an integer for its bits.
  pub visit_prim_value_float : Text → Text → Result FloatValue
  unfolding text_eq
  visit_prim_value_float number w = do
    v ← stod number
    if text_eq w (codes "f16")
        then ok (float16_value (to_uint16 v))
        else if text_eq w (codes "f32")
        then ok (float32_value (to_float v))
        else if text_eq w (codes "f64")
        then ok (float64_value v)
        else err Error.undefined

  -- `text.front() == '-'`
  abbrev is_minus : Text → Bool
  is_minus [] = false
  is_minus (c ∷ _) = c == b'-'

  -- `VisitPrimValueFloatSpecial`
  pub visit_prim_value_float_special : Text → Result FloatValue
  unfolding contains_text
  visit_prim_value_float_special text =
      let mag = if contains_text (codes "nan") text then quiet_nan else infinity in
      let v = if is_minus text then negate mag else mag in
      if contains_text (codes "f16") text
      then ok (float16_value (to_uint16 v))
      else if contains_text (codes "f32") text
      then ok (float32_value (to_float v))
      else if contains_text (codes "f64") text
      then ok (float64_value v)
      else err Error.undefined

  -- `VisitPrimValue`
  unfoldable pub visit_prim_value : PrimValueContext → Result PrimValue
  unfolding visit_prim_value_integer visit_prim_value_float visit_prim_value_float_special
  visit_prim_value (prim_value_integer number w) = do
    ok (int_value (← visit_prim_value_integer number w))
  visit_prim_value (prim_value_float number w) = do
    ok (float_value (← visit_prim_value_float number w))
  visit_prim_value (prim_value_float_special text) = do
    ok (float_value (← visit_prim_value_float_special text))
  visit_prim_value (prim_value_bool text) = ok (bool_value (text_eq text (codes "true")))

  -- `VisitSubExp`
  unfoldable pub visit_sub_exp : SubExpContext → Result SubExp
  unfolding visit_prim_value
  visit_sub_exp (constant_sub_expression value) = do ok (constant (← visit_prim_value value))
  visit_sub_exp (var_sub_exp name) = ok (var (vname name))

  abbrev pub visit_sub_exps : List SubExpContext → Result (List SubExp)
  visit_sub_exps = map_result visit_sub_exp

  -- `VisitSubExp(ctx).GetVName()`
  abbrev pub visit_array : SubExpContext → Result VName
  visit_array ctx = do get_vname (← visit_sub_exp ctx)

  -- `std::get<VarSubExp>(VisitSubExp(ctx).v).v`
  pub visit_var : SubExpContext → Result VName
  visit_var ctx = visit_sub_exp ctx >>= take_var
    where
      take_var : SubExp → Result VName
      take_var (constant _) = err Error.bad_variant_access
      take_var (var v) = ok v

  -- `VisitExtShape`
  abbrev pub visit_ext_shape : ExtShapeContext → Result Shape
  visit_ext_shape ctx = do ds ← visit_sub_exps ctx; ok (record { dims = ds })

  -- `VisitType`
  unfoldable pub visit_type : TypeContext → Result IrType
  unfolding visit_prim_type
  visit_type (type_prim t) = do ok (create_prim (← visit_prim_type t))
  visit_type (type_shape t shape) = do
    prim_type ← visit_prim_type t
    ext_shape ← visit_ext_shape shape
    ok (create_arr prim_type ext_shape)
  visit_type (type_unit_array shape) = do ok (create_arr unit (← visit_ext_shape shape))
  visit_type type_unit = ok (create_prim unit)

  -- `VisitDimIndex`
  pub visit_dim_index : DimIndexContext → Result (DimIndex SubExp)
  visit_dim_index (DimIndexContext.dim_slice start length stride) = do
    start' ← visit_sub_exp start
    length' ← visit_sub_exp length
    stride' ← visit_sub_exp stride
    ok (DimIndex.dim_slice start' length' stride')
  visit_dim_index (DimIndexContext.dim_fix i) = do ok (DimIndex.dim_fix (← visit_sub_exp i))
