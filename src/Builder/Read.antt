-- ===== src/Builder/Read.antt =====
-- `ColumnBuilder` of columnar.rs: the values of a row, the number of rows, `pop` and `split_off`.
-- An `assert!` that the source makes, `n <= self.len()`, is a hypothesis of the theorems.
use rypipe.Prelude.{ℕ, Bool, false, Option, none, some, ℤ, Str, if◌then◌else◌}
use rypipe.Value.{show_bool, F64, TimeUnit, Host}
use rypipe.Decimal.{format_decimal128}
use rypipe.Columnar.Primitive
use rypipe.Columnar.Nullable
use rypipe.Columnar.Texts
use rypipe.Columnar.Texts.{as_usize}
use rypipe.Columnar.Dict.{Dictionary, entry}
use rypipe.Builder.{ColumnBuilder, and_then, zero_int, zero_float}

pub data TypedValue : Type 0 where
  str : Str → TypedValue
  int64 : ℤ → TypedValue
  float64 : F64 → TypedValue
  bool : Bool → TypedValue
  date32 : ℤ → TypedValue
  timestamp : ℤ → TimeUnit → TypedValue
  decimal128 : ℤ → ℕ → TypedValue

unfoldable pub len : ColumnBuilder → ℕ
len (ColumnBuilder.string v) = v.validity.len
len (ColumnBuilder.int64 v) = v.validity.len
len (ColumnBuilder.float64 v) = v.validity.len
len (ColumnBuilder.boolean v) = v.validity.len
len (ColumnBuilder.date32 v) = v.validity.len
len (ColumnBuilder.timestamp unit fmt v) = v.validity.len
len (ColumnBuilder.decimal128 scale v) = v.validity.len
len (ColumnBuilder.dictionary codes d) = codes.validity.len

unfoldable pub pop : ColumnBuilder → ColumnBuilder
unfolding Texts.pop Primitive.pop Nullable.pop
pop (ColumnBuilder.string v) = ColumnBuilder.string (Texts.pop v)
pop (ColumnBuilder.int64 v) = ColumnBuilder.int64 (Primitive.pop zero_int v)
pop (ColumnBuilder.float64 v) = ColumnBuilder.float64 (Primitive.pop zero_float v)
pop (ColumnBuilder.boolean v) = ColumnBuilder.boolean (Primitive.pop false v)
pop (ColumnBuilder.date32 v) = ColumnBuilder.date32 (Primitive.pop zero_int v)
pop (ColumnBuilder.timestamp unit fmt v) =
    ColumnBuilder.timestamp unit fmt (Primitive.pop zero_int v)
pop (ColumnBuilder.decimal128 scale v) = ColumnBuilder.decimal128 scale (Primitive.pop zero_int v)
pop (ColumnBuilder.dictionary codes d) = ColumnBuilder.dictionary (Nullable.pop 0 codes).1 d

-- The first `n` rows, and what is left.
unfoldable pub split_off : ColumnBuilder → ℕ → ColumnBuilder × ColumnBuilder
unfolding Texts.split_off Primitive.split_off Nullable.split_off
split_off (ColumnBuilder.string v) n =
    let (a, b) = Texts.split_off v n in (ColumnBuilder.string a, ColumnBuilder.string b)
split_off (ColumnBuilder.int64 v) n =
    let (a, b) = Primitive.split_off zero_int v n in (ColumnBuilder.int64 a, ColumnBuilder.int64 b)
split_off (ColumnBuilder.float64 v) n =
    let (a, b) = Primitive.split_off zero_float v n in
    (ColumnBuilder.float64 a, ColumnBuilder.float64 b)
split_off (ColumnBuilder.boolean v) n =
    let (a, b) = Primitive.split_off false v n in (ColumnBuilder.boolean a, ColumnBuilder.boolean b)
split_off (ColumnBuilder.date32 v) n =
    let (a, b) = Primitive.split_off zero_int v n in
    (ColumnBuilder.date32 a, ColumnBuilder.date32 b)
split_off (ColumnBuilder.timestamp unit fmt v) n =
    let (a, b) = Primitive.split_off zero_int v n in
    (ColumnBuilder.timestamp unit fmt a, ColumnBuilder.timestamp unit fmt b)
split_off (ColumnBuilder.decimal128 scale v) n =
    let (a, b) = Primitive.split_off zero_int v n in
    (ColumnBuilder.decimal128 scale a, ColumnBuilder.decimal128 scale b)
split_off (ColumnBuilder.dictionary codes d) n =
    let (a, b) = Nullable.split_off 0 codes n in
    (ColumnBuilder.dictionary a d, ColumnBuilder.dictionary b d)

-- `o.map(f)`
abbrev pub mapped {ℓ κ} : {A : Type ℓ} {B : Type κ} → (A → B) → Option A → Option B
mapped f none = none
mapped f (some x) = some (f x)

module _ (H : Host) where
  -- `str::from_utf8(…).ok()`
  abbrev pub decoded : Str → Option Str
  decoded s = if H.is_utf8 s then some s else none

  -- The text of a row of codes, as bytes.
  abbrev pub code_bytes : Dictionary → Option ℕ → Option Str
  code_bytes d code = and_then code (λ c. entry d (as_usize c))

  unfoldable pub get_typed_value : ColumnBuilder → ℕ → Option TypedValue
  unfolding Texts.get Primitive.get Nullable.get
  get_typed_value (ColumnBuilder.string v) i = mapped TypedValue.str (Texts.get H.is_utf8 v i)
  get_typed_value (ColumnBuilder.int64 v) i = mapped TypedValue.int64 (Primitive.get zero_int v i)
  get_typed_value (ColumnBuilder.float64 v) i =
      mapped TypedValue.float64 (Primitive.get zero_float v i)
  get_typed_value (ColumnBuilder.boolean v) i = mapped TypedValue.bool (Primitive.get false v i)
  get_typed_value (ColumnBuilder.date32 v) i = mapped TypedValue.date32 (Primitive.get zero_int v i)
  get_typed_value (ColumnBuilder.timestamp unit fmt v) i =
      mapped (λ value. TypedValue.timestamp value unit) (Primitive.get zero_int v i)
  get_typed_value (ColumnBuilder.decimal128 scale v) i =
      mapped (λ n. TypedValue.decimal128 n scale) (Primitive.get zero_int v i)
  get_typed_value (ColumnBuilder.dictionary codes d) i =
      mapped TypedValue.str (and_then (code_bytes d (Nullable.get 0 codes i)) decoded)

  unfoldable pub get_filter_value : ColumnBuilder → ℕ → Option Str
  unfolding Texts.get Primitive.get Nullable.get format_decimal128
  get_filter_value (ColumnBuilder.string v) i = Texts.get H.is_utf8 v i
  get_filter_value (ColumnBuilder.int64 v) i = mapped H.show_i64 (Primitive.get zero_int v i)
  get_filter_value (ColumnBuilder.float64 v) i = mapped H.show_f64 (Primitive.get zero_float v i)
  get_filter_value (ColumnBuilder.boolean v) i = mapped show_bool (Primitive.get false v i)
  get_filter_value (ColumnBuilder.date32 v) i = mapped H.format_date32 (Primitive.get zero_int v i)
  get_filter_value (ColumnBuilder.timestamp unit fmt v) i =
      mapped (λ ts. H.format_timestamp ts unit) (Primitive.get zero_int v i)
  get_filter_value (ColumnBuilder.decimal128 scale v) i =
      mapped (λ n. format_decimal128 n scale) (Primitive.get zero_int v i)
  get_filter_value (ColumnBuilder.dictionary codes d) i =
      mapped H.from_utf8_lossy (code_bytes d (Nullable.get 0 codes i))
