-- ===== src/Ir/Primitive.antt =====
-- mlir-backend/ir/primitive.hpp: scalar types, values and operators. An intN_t is its bit pattern;
-- a float or a double is its IEEE bit pattern, since the code converts floats and never computes
-- with them.
pub mod Roundtrip
use mlir_backend.Prelude.{
  ℕ, ◌+◌, ◌-◌, ◌<◌, ◌^◌, ◌/◌, ◌%◌, ◌≡◌, refl, Bool, List, [], ◌∷◌, arith, ltb, ◌==◌, if◌then◌else◌,
  Result, ok, err, Error,
}
use mlir_backend.Word.{truncate, sign_extend}

pub data IntType : Type 0 where
  int8 int16 int32 int64 : IntType

pub data FloatType : Type 0 where
  float16 float32 float64 : FloatType

-- `GetWidth(IntType)`
abbrev pub int_type_width : IntType → ℕ
int_type_width int8 = 8
int_type_width int16 = 16
int_type_width int32 = 32
int_type_width int64 = 64

-- `GetWidth(FloatType)`
abbrev pub float_type_width : FloatType → ℕ
float_type_width float16 = 16
float_type_width float32 = 32
float_type_width float64 = 64

pub data PrimType : Type 0 where
  int : IntType → PrimType
  float : FloatType → PrimType
  bool unit : PrimType

-- `PrimType::Int`: at any other width the local `t` is read uninitialised.
unfoldable pub prim_type_int : ℕ → Result PrimType
prim_type_int v =
    if v == 8
    then ok (int int8)
    else if v == 16
    then ok (int int16)
    else if v == 32
    then ok (int int32)
    else if v == 64
    then ok (int int64)
    else err Error.undefined_behaviour

-- `PrimType::Float`
unfoldable pub prim_type_float : ℕ → Result PrimType
prim_type_float v =
    if v == 16
    then ok (float float16)
    else if v == 32
    then ok (float float32)
    else if v == 64
    then ok (float float64)
    else err Error.undefined_behaviour

-- A value holds the pattern of its own width.
pub data IntValue : Type 0 where
  int8_value int16_value int32_value int64_value : ℕ → IntValue

-- `GetValue(IntValue)`: the conversion of the signed value to uint64_t repeats the sign.
unfoldable pub int_value_get : IntValue → ℕ
int_value_get (int8_value v) = sign_extend 8 v
int_value_get (int16_value v) = sign_extend 16 v
int_value_get (int32_value v) = sign_extend 32 v
int_value_get (int64_value v) = v

-- `GetWidth(IntValue)`
abbrev pub int_value_width : IntValue → ℕ
int_value_width (int8_value _) = 8
int_value_width (int16_value _) = 16
int_value_width (int32_value _) = 32
int_value_width (int64_value _) = 64

-- `IntValue::CreateInt8` and its kin: the argument is converted to the type of the value.
abbrev pub create_int8 : ℕ → IntValue
create_int8 value = int8_value (truncate 8 value)

abbrev pub create_int16 : ℕ → IntValue
create_int16 value = int16_value (truncate 16 value)

abbrev pub create_int32 : ℕ → IntValue
create_int32 value = int32_value (truncate 32 value)

abbrev pub create_int64 : ℕ → IntValue
create_int64 value = int64_value (truncate 64 value)

-- The patterns that a value can hold.
abbrev pub FitsWidth : IntValue → Type 0
FitsWidth (int8_value v) = v < 2 ^ 8
FitsWidth (int16_value v) = v < 2 ^ 16
FitsWidth (int32_value v) = v < 2 ^ 32
FitsWidth (int64_value v) = v < 2 ^ 64

-- `Float16Value` holds 16 bits, the others a float and a double.
pub data FloatValue : Type 0 where
  float16_value float32_value float64_value : ℕ → FloatValue

-- `GetWidth(FloatValue)`
abbrev pub float_value_width : FloatValue → ℕ
float_value_width (float16_value _) = 16
float_value_width (float32_value _) = 32
float_value_width (float64_value _) = 64

pub data PrimValue : Type 0 where
  int_value : IntValue → PrimValue
  float_value : FloatValue → PrimValue
  bool_value : Bool → PrimValue
  unit_value : PrimValue

-- `PrimValue::CreateInt`: every other width gives 64 bits.
unfoldable pub create_int : ℕ → ℕ → PrimValue
create_int value width =
    if width == 8
    then int_value (create_int8 value)
    else if width == 16
    then int_value (create_int16 value)
    else if width == 32
    then int_value (create_int32 value)
    else int_value (create_int64 value)

-- `PrimValue::GetIntValue`
unfoldable pub prim_value_get_int_value : PrimValue → Result ℕ
unfolding int_value_get
prim_value_get_int_value (int_value v) = ok (int_value_get v)
prim_value_get_int_value (float_value _) = err Error.not_an_integer
prim_value_get_int_value (bool_value _) = err Error.not_an_integer
prim_value_get_int_value unit_value = err Error.not_an_integer

-- What the code converts floats with; all arguments and results are bit patterns.
pub record FloatOps : Type 0 where
  -- `std::stod`, which throws out of range
  pub stod : List ℕ → Result ℕ
  -- `(float)d` and `(uint16_t)d` of a double
  pub to_float : ℕ → ℕ
  pub to_uint16 : ℕ → ℕ
  -- conversions to double
  pub of_float : ℕ → ℕ
  pub of_uint16 : ℕ → ℕ
  -- unary minus and the special values of double
  pub negate : ℕ → ℕ
  pub infinity : ℕ
  pub quiet_nan : ℕ

-- `GetValue(FloatValue)`: the bits of a 16-bit float are converted as an integer.
abbrev pub float_value_get : FloatOps → FloatValue → ℕ
float_value_get f (float16_value bits) = f.of_uint16 bits
float_value_get f (float32_value v) = f.of_float v
float_value_get f (float64_value v) = v

pub data Overflow : Type 0 where
  overflow_wrap overflow_undef : Overflow

-- `Unsafe` is the first enumerator, so it is what an omitted initialiser gives.
pub data Safety : Type 0 where
  unsafe safe : Safety

pub data UnOp : Type 0 where
  neg : PrimType → UnOp
  complement abs s_signum u_signum : IntType → UnOp
  f_abs f_signum : FloatType → UnOp

pub data BinOp : Type 0 where
  add sub mul : IntType → Overflow → BinOp
  f_add f_sub f_mul f_div f_mod f_min f_max f_pow : FloatType → BinOp
  u_div u_div_up s_div s_div_up u_mod s_mod s_quot s_rem : IntType → Safety → BinOp
  s_min u_min s_max u_max shl l_shr a_shr and or xor pow : IntType → BinOp
  log_and log_or : BinOp

pub data CmpOp : Type 0 where
  eq : PrimType → CmpOp
  ult ule slt sle : IntType → CmpOp
  flt fle : FloatType → CmpOp
  l_lt l_le : CmpOp

pub data ConvOp : Type 0 where
  z_ext s_ext : IntType → IntType → ConvOp
  fp_conv : FloatType → FloatType → ConvOp
  fp_to_ui fp_to_si : FloatType → IntType → ConvOp
  ui_to_fp si_to_fp : IntType → FloatType → ConvOp
  i_to_b b_to_i : IntType → ConvOp
  f_to_b b_to_f : FloatType → ConvOp
