-- ===== src/Builder.antt =====
-- crates/rypipe-core/src/columnar.rs: `ColumnBuilder`, the storage of a column by its type, and
-- what is pushed into it and read from it. The other operations are in Builder/.
pub mod Read
pub mod Merge
pub mod Utf8
pub mod Rows
pub mod Extend
pub mod Reading
pub mod Promote
pub mod Variants
pub mod Push
pub mod Chunks
mod Tests
use rypipe.Prelude.{
  ℕ, Bool, true, false, Option, none, some, List, [], ◌∷◌, ℤ, pos, Str, bytes, str_eq, length,
  if◌then◌else◌,
}
use rypipe.Value.{parse_bool, show_bool, F64, Value, TimeUnit, Host}
use rypipe.Plan.{FieldType}
use rypipe.Decimal.{parse_decimal128}
use rypipe.Columnar.Bitmap
use rypipe.Columnar.Bitmap.{empty}
use rypipe.Columnar.Primitive.{PrimColumn}
use rypipe.Columnar.Primitive
use rypipe.Columnar.Nullable.{NullableColumn}
use rypipe.Columnar.Nullable
use rypipe.Columnar.Texts.{StrColumn}
use rypipe.Columnar.Texts
use rypipe.Columnar.Dict.{Dictionary, push_text}
use rypipe.Columnar.Dict

-- `i64`, `i32` and `i128` are integers, a `bool` is stored as it is.
pub data ColumnBuilder : Type 0 where
  string : StrColumn → ColumnBuilder
  int64 : PrimColumn ℤ → ColumnBuilder
  float64 : PrimColumn F64 → ColumnBuilder
  boolean : PrimColumn Bool → ColumnBuilder
  date32 : PrimColumn ℤ → ColumnBuilder
  timestamp : TimeUnit → Option Str → PrimColumn ℤ → ColumnBuilder
  decimal128 : ℕ → PrimColumn ℤ → ColumnBuilder
  dictionary : NullableColumn ℕ → Dictionary → ColumnBuilder

-- The defaults of the stored types.
abbrev pub zero_int : ℤ
zero_int = pos 0

abbrev pub zero_float : F64
zero_float = record { bits = 0 }

abbrev pub no_values : {T : Type 0} → PrimColumn T
no_values = record { items = []; validity = empty }

-- `with_capacity`: an empty column of the type.
unfoldable pub new : FieldType → ColumnBuilder
new FieldType.string = ColumnBuilder.string Texts.new
new FieldType.int64 = ColumnBuilder.int64 no_values
new FieldType.float64 = ColumnBuilder.float64 no_values
new FieldType.boolean = ColumnBuilder.boolean no_values
new FieldType.date32 = ColumnBuilder.date32 no_values
new (FieldType.timestamp unit fmt) = ColumnBuilder.timestamp unit fmt no_values
new (FieldType.decimal128 scale) = ColumnBuilder.decimal128 scale no_values
new FieldType.dictionary =
    ColumnBuilder.dictionary (record { values = []; validity = empty }) Dict.new

-- `value.and_then(f)`
abbrev pub and_then {ℓ κ} : {A : Type ℓ} {B : Type κ} → Option A → (A → Option B) → Option B
and_then none f = none
and_then (some x) f = f x

module _ (H : Host) where
  -- `push`, and `push_str` with the text borrowed.
  unfoldable pub push_str : ColumnBuilder → Option Str → ColumnBuilder
  unfolding Texts.push Primitive.push push_text parse_bool parse_decimal128
  push_str (ColumnBuilder.string v) value = ColumnBuilder.string (Texts.push v value)
  push_str (ColumnBuilder.int64 v) value =
      ColumnBuilder.int64 (Primitive.push zero_int v (and_then value H.lexical_i64))
  push_str (ColumnBuilder.float64 v) value =
      ColumnBuilder.float64 (Primitive.push zero_float v (and_then value H.lexical_f64))
  push_str (ColumnBuilder.boolean v) value =
      ColumnBuilder.boolean (Primitive.push false v (and_then value parse_bool))
  push_str (ColumnBuilder.date32 v) value =
      ColumnBuilder.date32 (Primitive.push zero_int v (and_then value H.parse_date32))
  push_str (ColumnBuilder.timestamp unit fmt v) value =
      ColumnBuilder.timestamp unit fmt
        (Primitive.push zero_int v (and_then value (λ s. H.parse_timestamp s unit fmt)))
  push_str (ColumnBuilder.decimal128 scale v) value =
      ColumnBuilder.decimal128 scale
        (Primitive.push zero_int v (and_then value (λ s. parse_decimal128 H s scale)))
  push_str (ColumnBuilder.dictionary codes d) value =
      let (codes', d') = push_text codes d value in ColumnBuilder.dictionary codes' d'

  -- `push_value`: the cases of `Value::Int64`, `Float64`, `Bool`, `Date32` and `Timestamp`.
  unfoldable pub push_int : ColumnBuilder → ℤ → ColumnBuilder
  unfolding push_str
  push_int (ColumnBuilder.int64 v) i = ColumnBuilder.int64 (Primitive.push zero_int v (some i))
  push_int (ColumnBuilder.float64 v) i =
      ColumnBuilder.float64 (Primitive.push zero_float v (some (H.of_int i)))
  push_int (ColumnBuilder.string col) i =
      ColumnBuilder.string (Texts.push col (some (H.show_i64 i)))
  push_int (ColumnBuilder.dictionary codes d) i =
      let (codes', d') = push_text codes d (some (H.show_i64 i)) in
      ColumnBuilder.dictionary codes' d'
  push_int c i = push_str c none

  unfoldable pub push_float : ColumnBuilder → F64 → ColumnBuilder
  unfolding push_str
  push_float (ColumnBuilder.float64 v) f =
      ColumnBuilder.float64 (Primitive.push zero_float v (some f))
  push_float (ColumnBuilder.int64 v) f =
      ColumnBuilder.int64 (Primitive.push zero_int v (some (H.to_int f)))
  push_float (ColumnBuilder.string col) f =
      ColumnBuilder.string (Texts.push col (some (H.show_f64 f)))
  push_float (ColumnBuilder.dictionary codes d) f =
      let (codes', d') = push_text codes d (some (H.show_f64 f)) in
      ColumnBuilder.dictionary codes' d'
  push_float c f = push_str c none

  unfoldable pub push_bool : ColumnBuilder → Bool → ColumnBuilder
  unfolding push_str
  push_bool (ColumnBuilder.boolean v) b = ColumnBuilder.boolean (Primitive.push false v (some b))
  push_bool (ColumnBuilder.string col) b =
      ColumnBuilder.string (Texts.push col (some (show_bool b)))
  push_bool (ColumnBuilder.dictionary codes d) b =
      let (codes', d') = push_text codes d (some (show_bool b)) in
      ColumnBuilder.dictionary codes' d'
  push_bool c b = push_str c none

  unfoldable pub push_date : ColumnBuilder → ℤ → ColumnBuilder
  unfolding push_str
  push_date (ColumnBuilder.date32 v) d = ColumnBuilder.date32 (Primitive.push zero_int v (some d))
  push_date (ColumnBuilder.int64 v) d = ColumnBuilder.int64 (Primitive.push zero_int v (some d))
  push_date (ColumnBuilder.float64 v) d =
      ColumnBuilder.float64 (Primitive.push zero_float v (some (H.of_int d)))
  push_date (ColumnBuilder.string col) d =
      ColumnBuilder.string (Texts.push col (some (H.format_date32 d)))
  push_date (ColumnBuilder.dictionary codes dict) d =
      let (codes', dict') = push_text codes dict (some (H.format_date32 d)) in
      ColumnBuilder.dictionary codes' dict'
  push_date c d = push_str c none

  -- `unit` is that of the column, and a column of texts has none.
  unfoldable pub push_timestamp : ColumnBuilder → ℤ → ColumnBuilder
  unfolding push_str
  push_timestamp (ColumnBuilder.timestamp unit fmt v) ts =
      ColumnBuilder.timestamp unit fmt (Primitive.push zero_int v (some ts))
  push_timestamp (ColumnBuilder.int64 v) ts =
      ColumnBuilder.int64 (Primitive.push zero_int v (some ts))
  push_timestamp (ColumnBuilder.float64 v) ts =
      ColumnBuilder.float64 (Primitive.push zero_float v (some (H.of_int ts)))
  push_timestamp (ColumnBuilder.string col) ts =
      ColumnBuilder.string (Texts.push col (some (H.show_i64 ts)))
  push_timestamp (ColumnBuilder.dictionary codes d) ts =
      let (codes', d') = push_text codes d (some (H.show_i64 ts)) in
      ColumnBuilder.dictionary codes' d'
  push_timestamp c ts = push_str c none

  unfoldable pub push_value : ColumnBuilder → Value → ColumnBuilder
  unfolding push_str push_int push_float push_bool push_date push_timestamp
  push_value c Value.null = push_str c none
  push_value c (Value.str s) = push_str c (some s)
  push_value c (Value.int64 i) = push_int c i
  push_value c (Value.float64 f) = push_float c f
  push_value c (Value.bool b) = push_bool c b
  push_value c (Value.date32 d) = push_date c d
  push_value c (Value.timestamp ts) = push_timestamp c ts
