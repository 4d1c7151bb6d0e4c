-- ===== src/Builder/Push.antt =====
-- `with_capacity` and `push_str` of columnar.rs on the rows that a column holds.
use mathlib.Core.List.{map-append}
use rypipe.Prelude.{
  ℕ, Bool, true, false, ◌+◌, ◌-◌, ◌^◌, ◌<◌, ◌≡◌, refl, sym, ap, Option, none, some, List, [], ◌∷◌,
  ◌++◌, map, length, Str, arith,
}
use rypipe.Value.{parse_bool, Host}
use rypipe.Plan.{FieldType}
use rypipe.Decimal.{parse_decimal128}
use rypipe.Columnar.Slices.{empty-Holds}
use rypipe.Columnar.Cells.{pushed, length-map}
use rypipe.Columnar.Primitive.{PrimColumn}
use rypipe.Columnar.Primitive
use rypipe.Columnar.Texts.{StrColumn}
use rypipe.Columnar.Texts
use rypipe.Columnar.TextCells.{text_of}
use rypipe.Columnar.TextRows.{new-TextRows, push-TextRows}
use rypipe.Columnar.Nullable.{NullableColumn}
use rypipe.Columnar.Dict.{Dictionary, push_text}
use rypipe.Columnar.Words.{new-HoldsWords, with_word, length-ends}
use rypipe.Columnar.Coded.{Coded, push_text-DictRows, push_null-DictRows}
use rypipe.Columnar.DictColumn.{present}
use rypipe.Builder.{ColumnBuilder, zero_int, zero_float, new, no_values, and_then, push_str}
use rypipe.Builder.Read.{TypedValue, mapped}
use rypipe.Builder.Utf8.{AllUtf8, AllUtf8-append, AllUtf8-with_word, present-append}
use rypipe.Builder.Rows.{PrimHolds, TextHolds, DictHolds, HoldsRows, text_bytes, entries}

-- The value that a text gives in a column.
unfoldable pub cell : Host → ColumnBuilder → Option Str → Option TypedValue
cell H (ColumnBuilder.string v) s = mapped TypedValue.str s
cell H (ColumnBuilder.int64 v) s = mapped TypedValue.int64 (and_then s H.lexical_i64)
cell H (ColumnBuilder.float64 v) s = mapped TypedValue.float64 (and_then s H.lexical_f64)
cell H (ColumnBuilder.boolean v) s = mapped TypedValue.bool (and_then s parse_bool)
cell H (ColumnBuilder.date32 v) s = mapped TypedValue.date32 (and_then s H.parse_date32)
cell H (ColumnBuilder.timestamp u f v) s =
    mapped (λ t. TypedValue.timestamp t u) (and_then s (λ x. H.parse_timestamp x u f))
cell H (ColumnBuilder.decimal128 n v) s =
    mapped (λ t. TypedValue.decimal128 t n) (and_then s (λ x. parse_decimal128 H x n))
cell H (ColumnBuilder.dictionary codes d) s = mapped TypedValue.str s

empty-PrimHolds : {T : Type 0} (d : T) (f : T → TypedValue) → PrimHolds d f no_values []
empty-PrimHolds d f = ([], record { valid = empty-Holds; values_of = refl }, refl)

pub new-HoldsRows : (utf8 : Str → Bool) (ft : FieldType) → HoldsRows utf8 (new ft) []
unfolding new HoldsRows Coded
new-HoldsRows utf8 FieldType.string = ([], new-TextRows, tt, refl)
new-HoldsRows utf8 FieldType.int64 = empty-PrimHolds zero_int TypedValue.int64
new-HoldsRows utf8 FieldType.float64 = empty-PrimHolds zero_float TypedValue.float64
new-HoldsRows utf8 FieldType.boolean = empty-PrimHolds false TypedValue.bool
new-HoldsRows utf8 FieldType.date32 = empty-PrimHolds zero_int TypedValue.date32
new-HoldsRows utf8 (FieldType.timestamp u f) =
    empty-PrimHolds zero_int (λ t. TypedValue.timestamp t u)
new-HoldsRows utf8 (FieldType.decimal128 n) =
    empty-PrimHolds zero_int (λ t. TypedValue.decimal128 t n)
new-HoldsRows utf8 FieldType.dictionary = (
  [],
  [],
  record {
    codes_of = [];
    stored = record { valid = empty-Holds; values_of = refl };
    dict = new-HoldsWords;
    each = tt;
  },
  tt,
  refl,
)

pub push-PrimHolds :
    {T : Type 0} (d : T) (f : T → TypedValue) (v : PrimColumn T) (x : Option T)
    (xs : List (Option TypedValue))
    → PrimHolds d f v xs
    → PrimHolds d f (Primitive.push d v x) (xs ++ (mapped f x ∷ []))
unfolding Primitive.push
push-PrimHolds d f v x xs (ys, s, e) = (
  ys ++ (x ∷ []),
  pushed d v.items v.validity ys s x,
  rw e (sym (map-append (mapped f) ys (x ∷ []))),
)

present_utf8 :
    (utf8 : Str → Bool) (x : Option Str)
    → ((s : Str) → x ≡ some s → utf8 s ≡ true)
    → AllUtf8 utf8 (present (x ∷ []))
present_utf8 utf8 none h = tt
present_utf8 utf8 (some s) h = (h s refl, tt)

push-TextHolds :
    (utf8 : Str → Bool) (v : StrColumn) (x : Option Str) (xs : List (Option TypedValue))
    → TextHolds utf8 v xs
    → ((s : Str) → x ≡ some s → utf8 s ≡ true)
    → length v.bytes + length (text_of x) < 2 ^ 31
    → TextHolds utf8 (Texts.push v x) (xs ++ (mapped TypedValue.str x ∷ []))
push-TextHolds utf8 v x xs (ys, s, p, e) encoded small = (
  ys ++ (x ∷ []),
  push-TextRows v ys x s (omega (arith, ap length s.text)),
  rw (present-append ys (x ∷ []))
      (AllUtf8-append utf8 (present ys) (present (x ∷ [])) p (present_utf8 utf8 x encoded)),
  rw e (sym (map-append (mapped TypedValue.str) ys (x ∷ []))),
)

push-DictHolds :
    (utf8 : Str → Bool) (codes : NullableColumn ℕ) (d : Dictionary) (x : Option Str)
    (xs : List (Option TypedValue))
    → DictHolds utf8 codes d xs
    → ((s : Str) → x ≡ some s → utf8 s ≡ true)
    → length d.bytes + length (text_of x) < 2 ^ 31
    → length d.offsets - 1 + 1 < 2 ^ 31
    → DictHolds utf8
        (push_text codes d x).0
        (push_text codes d x).1
        (xs ++ (mapped TypedValue.str x ∷ []))
push-DictHolds utf8 codes d none xs (ws, ys, s, p, e) encoded small few = (
  ws,
  ys ++ (none ∷ []),
  push_null-DictRows codes d ws ys s,
  p,
  rw e (sym (map-append (mapped TypedValue.str) ys (none ∷ []))),
)
push-DictHolds utf8 codes d (some x) xs (ws, ys, s, p, e) encoded small few = (
  with_word ws x,
  ys ++ (some x ∷ []),
  push_text-DictRows codes d ws ys x s (omega (arith, ap length s.dict.text))
      (omega (arith, ap length s.dict.ends_of, length-ends 0 (map some ws), length-map some ws)),
  AllUtf8-with_word utf8 ws x p (encoded x refl),
  rw e (sym (map-append (mapped TypedValue.str) ys (some x ∷ []))),
)

-- For a column that holds a list of rows, with room for the text, which is UTF-8, and for a word
-- of its dictionary, `push_str` adds the value of the text in this column as the last row.
pub push_str-HoldsRows :
    (H : Host) (c : ColumnBuilder) (x : Option Str) (xs : List (Option TypedValue))
    → HoldsRows H.is_utf8 c xs
    → ((s : Str) → x ≡ some s → H.is_utf8 s ≡ true)
    → text_bytes c + length (text_of x) < 2 ^ 31
    → entries c + 1 < 2 ^ 31
    → HoldsRows H.is_utf8 (push_str H c x) (xs ++ (cell H c x ∷ []))
unfolding push_str HoldsRows text_bytes entries cell
push_str-HoldsRows H (ColumnBuilder.string v) x xs s encoded small few =
    push-TextHolds H.is_utf8 v x xs s encoded small
push_str-HoldsRows H (ColumnBuilder.int64 v) x xs s encoded small few =
    push-PrimHolds zero_int TypedValue.int64 v (and_then x H.lexical_i64) xs s
push_str-HoldsRows H (ColumnBuilder.float64 v) x xs s encoded small few =
    push-PrimHolds zero_float TypedValue.float64 v (and_then x H.lexical_f64) xs s
push_str-HoldsRows H (ColumnBuilder.boolean v) x xs s encoded small few =
    push-PrimHolds false TypedValue.bool v (and_then x parse_bool) xs s
push_str-HoldsRows H (ColumnBuilder.date32 v) x xs s encoded small few =
    push-PrimHolds zero_int TypedValue.date32 v (and_then x H.parse_date32) xs s
push_str-HoldsRows H (ColumnBuilder.timestamp u f v) x xs s encoded small few =
    push-PrimHolds zero_int (λ t. TypedValue.timestamp t u) v
      (and_then x (λ y. H.parse_timestamp y u f)) xs s
push_str-HoldsRows H (ColumnBuilder.decimal128 n v) x xs s encoded small few =
    push-PrimHolds zero_int (λ t. TypedValue.decimal128 t n) v
      (and_then x (λ y. parse_decimal128 H y n)) xs s
push_str-HoldsRows H (ColumnBuilder.dictionary codes d) x xs s encoded small few =
    push-DictHolds H.is_utf8 codes d x xs s encoded small few
