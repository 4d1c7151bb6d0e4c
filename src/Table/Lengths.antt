-- ===== src/Table/Lengths.antt =====
-- How many rows a column has after each operation of `ColumnBuilder`.
use rypipe.Prelude.{
  ℕ, zero, suc, Bool, true, false, ◌+◌, ◌-◌, ◌≡◌, ◌≤◌, refl, ◌∙◌, Option, none, some, ℤ, Str, arith,
  ◌==◌, Bool-cases, Option-cases, inl, inr, ltb, min,
}
use rypipe.Value.{show_bool, Value, Host, F64}
use rypipe.Columnar.Bitmap.{ValidityBitmap}
use rypipe.Columnar.Bitmap
use rypipe.Columnar.Primitive.{PrimColumn}
use rypipe.Columnar.Primitive
use rypipe.Columnar.Nullable.{NullableColumn}
use rypipe.Columnar.Nullable
use rypipe.Columnar.Texts.{StrColumn}
use rypipe.Columnar.Texts
use rypipe.Columnar.Dict.{Dictionary, push_text}
use rypipe.Builder.{
  ColumnBuilder, push_str, push_int, push_float, push_bool, push_date, push_timestamp, push_value,
  new,
}
use rypipe.Builder.Read.{len, pop}
use rypipe.Plan.{FieldType}
use rypipe.Table.Rows.{truncate}

pub bitmap_push : (b : ValidityBitmap) (v : Bool) → (Bitmap.push b v).len ≡ b.len + 1
unfolding Bitmap.push
bitmap_push b true = refl
bitmap_push b false = refl

bitmap_pop : (b : ValidityBitmap) → (Bitmap.pop b).1.len ≡ b.len - 1
unfolding Bitmap.pop
bitmap_pop b = elim (Bool-cases (b.len == 0)) [
  | inl none_left ↦ rw none_left (ground arith)
  | inr some_left ↦ rw some_left refl
]

texts_pop : (v : StrColumn) → (Texts.pop v).validity.len ≡ v.validity.len - 1
unfolding Texts.pop
texts_pop v = elim (Option-cases (Bitmap.pop v.validity).0) [
  | inl gone ↦ rw (gone, Texts.pop) (bitmap_pop v.validity)
  | inr (x, there) ↦ rw (there, Texts.pop) (bitmap_pop v.validity)
]

codes_pop : (c : NullableColumn ℕ) → (Nullable.pop 0 c).1.validity.len ≡ c.validity.len - 1
unfolding Nullable.pop
codes_pop c = elim (Option-cases (Bitmap.pop c.validity).0) [
  | inl gone ↦ rw (gone, Nullable.pop) (bitmap_pop c.validity)
  | inr (x, there) ↦ rw (there, Nullable.pop) (bitmap_pop c.validity)
]

codes_push :
    (c : NullableColumn ℕ) (d : Dictionary) (v : Option Str)
    → (push_text c d v).0.validity.len ≡ c.validity.len + 1
unfolding push_text Nullable.push
codes_push c d none = bitmap_push c.validity _
codes_push c d (some s) = bitmap_push c.validity _

-- `pop` takes a row away, if there is one.
pub len-pop : (b : ColumnBuilder) → len (pop b) ≡ len b - 1
unfolding len pop Primitive.pop
len-pop (ColumnBuilder.string v) = texts_pop v
len-pop (ColumnBuilder.int64 v) = bitmap_pop v.validity
len-pop (ColumnBuilder.float64 v) = bitmap_pop v.validity
len-pop (ColumnBuilder.boolean v) = bitmap_pop v.validity
len-pop (ColumnBuilder.date32 v) = bitmap_pop v.validity
len-pop (ColumnBuilder.timestamp u f v) = bitmap_pop v.validity
len-pop (ColumnBuilder.decimal128 n v) = bitmap_pop v.validity
len-pop (ColumnBuilder.dictionary codes d) = codes_pop codes

module _ (H : Host) where
  pub len-push_str : (b : ColumnBuilder) (v : Option Str) → len (push_str H b v) ≡ len b + 1
  unfolding len push_str Primitive.push Texts.push
  len-push_str (ColumnBuilder.string c) v = bitmap_push c.validity _
  len-push_str (ColumnBuilder.int64 c) v = bitmap_push c.validity _
  len-push_str (ColumnBuilder.float64 c) v = bitmap_push c.validity _
  len-push_str (ColumnBuilder.boolean c) v = bitmap_push c.validity _
  len-push_str (ColumnBuilder.date32 c) v = bitmap_push c.validity _
  len-push_str (ColumnBuilder.timestamp u f c) v = bitmap_push c.validity _
  len-push_str (ColumnBuilder.decimal128 n c) v = bitmap_push c.validity _
  len-push_str (ColumnBuilder.dictionary codes d) v = codes_push codes d v

  len-push_int : (b : ColumnBuilder) (i : ℤ) → len (push_int H b i) ≡ len b + 1
  unfolding len push_int push_str Primitive.push Texts.push
  len-push_int (ColumnBuilder.dictionary codes d) i = codes_push codes d (some (H.show_i64 i))
  len-push_int (ColumnBuilder.string c) i = bitmap_push c.validity _
  len-push_int (ColumnBuilder.int64 c) i = bitmap_push c.validity _
  len-push_int (ColumnBuilder.float64 c) i = bitmap_push c.validity _
  len-push_int b i = len-push_str b none

  len-push_float : (b : ColumnBuilder) (f : F64) → len (push_float H b f) ≡ len b + 1
  unfolding len push_float push_str Primitive.push Texts.push
  len-push_float (ColumnBuilder.dictionary codes d) f = codes_push codes d (some (H.show_f64 f))
  len-push_float (ColumnBuilder.string c) f = bitmap_push c.validity _
  len-push_float (ColumnBuilder.int64 c) f = bitmap_push c.validity _
  len-push_float (ColumnBuilder.float64 c) f = bitmap_push c.validity _
  len-push_float b f = len-push_str b none

  len-push_bool : (b : ColumnBuilder) (t : Bool) → len (push_bool H b t) ≡ len b + 1
  unfolding len push_bool push_str Primitive.push Texts.push
  len-push_bool (ColumnBuilder.dictionary codes d) t = codes_push codes d (some (show_bool t))
  len-push_bool (ColumnBuilder.string c) t = bitmap_push c.validity _
  len-push_bool (ColumnBuilder.boolean c) t = bitmap_push c.validity _
  len-push_bool b t = len-push_str b none

  len-push_date : (b : ColumnBuilder) (t : ℤ) → len (push_date H b t) ≡ len b + 1
  unfolding len push_date push_str Primitive.push Texts.push
  len-push_date (ColumnBuilder.dictionary codes d) t = codes_push codes d (some (H.format_date32 t))
  len-push_date (ColumnBuilder.string c) t = bitmap_push c.validity _
  len-push_date (ColumnBuilder.int64 c) t = bitmap_push c.validity _
  len-push_date (ColumnBuilder.float64 c) t = bitmap_push c.validity _
  len-push_date (ColumnBuilder.date32 c) t = bitmap_push c.validity _
  len-push_date b t = len-push_str b none

  len-push_timestamp : (b : ColumnBuilder) (t : ℤ) → len (push_timestamp H b t) ≡ len b + 1
  unfolding len push_timestamp push_str Primitive.push Texts.push
  len-push_timestamp (ColumnBuilder.dictionary codes d) t = codes_push codes d (some (H.show_i64 t))
  len-push_timestamp (ColumnBuilder.string c) t = bitmap_push c.validity _
  len-push_timestamp (ColumnBuilder.int64 c) t = bitmap_push c.validity _
  len-push_timestamp (ColumnBuilder.float64 c) t = bitmap_push c.validity _
  len-push_timestamp (ColumnBuilder.timestamp u f c) t = bitmap_push c.validity _
  len-push_timestamp b t = len-push_str b none

  -- `push_value` adds a row, whatever the value and the column are.
  pub len-push_value : (b : ColumnBuilder) (v : Value) → len (push_value H b v) ≡ len b + 1
  unfolding push_value
  len-push_value b Value.null = len-push_str b none
  len-push_value b (Value.str s) = len-push_str b (some s)
  len-push_value b (Value.int64 i) = len-push_int b i
  len-push_value b (Value.float64 f) = len-push_float b f
  len-push_value b (Value.bool t) = len-push_bool b t
  len-push_value b (Value.date32 d) = len-push_date b d
  len-push_value b (Value.timestamp t) = len-push_timestamp b t

len-truncate_from :
    (fuel : ℕ) (b : ColumnBuilder) (rows : ℕ)
    → len b ≤ fuel + rows
    → len (truncate fuel b rows) ≡ min (len b) rows
unfolding truncate
len-truncate_from zero b rows h = omega arith
len-truncate_from (suc fuel) b rows h = elim (Bool-cases (ltb rows (len b))) [
  | inl longer ↦ rw longer (
      len-truncate_from fuel (pop b) rows (omega (arith, len-pop b))
      ∙ ground (arith, len-pop b, longer))
  | inr short ↦ rw short (ground (arith, short))
]

-- The loop that truncates a column ends, with as many rows as the table has, or with all rows of
-- a column that has less.
pub len-truncate : (b : ColumnBuilder) (rows : ℕ) → len (truncate (len b) b rows) ≡ min (len b) rows
len-truncate b rows = len-truncate_from (len b) b rows (omega arith)

pub len-new : (ft : FieldType) → len (new ft) ≡ 0
unfolding len new
len-new FieldType.string = refl
len-new FieldType.int64 = refl
len-new FieldType.float64 = refl
len-new FieldType.boolean = refl
len-new FieldType.date32 = refl
len-new (FieldType.timestamp u f) = refl
len-new (FieldType.decimal128 n) = refl
len-new FieldType.dictionary = refl
