-- ===== src/Builder/Merge.antt =====
-- `ColumnBuilder` of columnar.rs: the variants and their promotions, `extend_owned`, and the
-- upgrade of a column of texts to a dictionary. An error keeps no message.
use rypipe.Prelude.{
  ℕ, zero, suc, false, ◌+◌, ◌&&◌, ◌||◌, Option, none, some, List, [], ◌∷◌, Str, bytes, str_eq,
  member, length, map, ltb, max, min, ◌==◌, if◌then◌else◌, merge, Result, ok, err,
}
use rypipe.Value.{TimeUnit, Host, second, millisecond, microsecond, nanosecond}
use rypipe.Plan.{unit_eq}
use rypipe.Columnar.Bitmap.{empty}
use rypipe.Columnar.Primitive.{PrimColumn}
use rypipe.Columnar.Primitive
use rypipe.Columnar.Texts.{StrColumn}
use rypipe.Columnar.Texts
use rypipe.Columnar.Dict.{Dictionary, push_texts, extend}
use rypipe.Columnar.Dict
use rypipe.Builder.{ColumnBuilder, zero_int, zero_float}

abbrev pub timestamp_key : TimeUnit → Str
timestamp_key second = bytes "timestamp[s]"
timestamp_key millisecond = bytes "timestamp[ms]"
timestamp_key microsecond = bytes "timestamp[us]"
timestamp_key nanosecond = bytes "timestamp[ns]"

abbrev pub decimal_key : ℕ → Str
decimal_key scale =
    if scale == 0
    then bytes "decimal128(0)"
    else if scale == 2
    then bytes "decimal128(2)"
    else if scale == 4
    then bytes "decimal128(4)"
    else if scale == 8
    then bytes "decimal128(8)"
    else if scale == 10
    then bytes "decimal128(10)"
    else if scale == 18
    then bytes "decimal128(18)"
    else bytes "decimal128"

unfoldable pub variant_key : ColumnBuilder → Str
variant_key (ColumnBuilder.string v) = bytes "string"
variant_key (ColumnBuilder.int64 v) = bytes "int64"
variant_key (ColumnBuilder.float64 v) = bytes "float64"
variant_key (ColumnBuilder.boolean v) = bytes "boolean"
variant_key (ColumnBuilder.date32 v) = bytes "date32"
variant_key (ColumnBuilder.timestamp unit fmt v) = timestamp_key unit
variant_key (ColumnBuilder.decimal128 scale v) = decimal_key scale
variant_key (ColumnBuilder.dictionary codes d) = bytes "dictionary"

-- `VARIANT_KEYS`
abbrev pub variant_keys : List Str
variant_keys =
    bytes "string"
    ∷ bytes "int64"
    ∷ bytes "float64"
    ∷ bytes "boolean"
    ∷ bytes "date32"
    ∷ bytes "timestamp[s]"
    ∷ bytes "timestamp[ms]"
    ∷ bytes "timestamp[us]"
    ∷ bytes "timestamp[ns]"
    ∷ bytes "dictionary"
    ∷ []

-- The variant that columns of two variants are promoted to, if there is one.
unfoldable pub unify_variants : Str → Str → Option Str
unfolding str_eq member
unify_variants a b =
    if str_eq a b
    then (if member a variant_keys then some a else none)
    else if (str_eq a (bytes "int64") && str_eq b (bytes "float64"))
        || (str_eq a (bytes "float64") && str_eq b (bytes "int64"))
    then some (bytes "float64")
    else if (str_eq a (bytes "string") && str_eq b (bytes "dictionary"))
        || (str_eq a (bytes "dictionary") && str_eq b (bytes "string"))
    then some (bytes "dictionary")
    else none

-- `if a.len() == 0 { *a = b } else { a.append(&b) }`
abbrev pub append_column : {T : Type 0} → T → PrimColumn T → PrimColumn T → PrimColumn T
append_column d a b = if a.validity.len == 0 then b else Primitive.append d a b

-- The distinct texts among the rows: the set `seen`.
unfoldable pub distinct : List (Option Str) → List Str → List Str
unfolding member
distinct [] seen = seen
distinct (none ∷ xs) seen = distinct xs seen
distinct (some x ∷ xs) seen = distinct xs (if member x seen then seen else x ∷ seen)

module _ (H : Host) where
  -- `StrColumn::iter`, for `count` rows from `from` on.
  unfoldable pub texts_from : StrColumn → (from count : ℕ) → List (Option Str)
  unfolding Texts.get
  texts_from v from zero = []
  texts_from v from (suc count) = Texts.get H.is_utf8 v from ∷ texts_from v (from + 1) count

  unfoldable pub iter : StrColumn → List (Option Str)
  unfolding texts_from
  iter v = texts_from v 0 v.validity.len

  -- A dictionary column of the texts of a text column.
  unfoldable pub encoded : StrColumn → ColumnBuilder
  unfolding iter push_texts
  encoded old =
      let (codes, d) = push_texts (record { values = []; validity = empty }) Dict.new (iter old) in
      ColumnBuilder.dictionary codes d

  -- What `promote_to_variant` returns, or the column that it leaves.
  unfoldable pub promote_to_variant : ColumnBuilder → Str → Result ColumnBuilder
  unfolding variant_key str_eq encoded
  promote_to_variant (ColumnBuilder.int64 v) target =
      if str_eq (bytes "int64") target
      then ok (ColumnBuilder.int64 v)
      else if str_eq target (bytes "float64")
      then ok
          (ColumnBuilder.float64 (record { items = map H.of_int v.items; validity = v.validity }))
      else err merge
  promote_to_variant (ColumnBuilder.string v) target =
      if str_eq (bytes "string") target
      then ok (ColumnBuilder.string v)
      else if str_eq target (bytes "dictionary")
      then ok (encoded v)
      else err merge
  promote_to_variant c target = if str_eq (variant_key c) target then ok c else err merge

  unfoldable pub extend_owned : ColumnBuilder → ColumnBuilder → Result ColumnBuilder
  unfolding Primitive.append Texts.append extend unit_eq
  extend_owned (ColumnBuilder.string a) (ColumnBuilder.string b) =
      ok (ColumnBuilder.string (if a.validity.len == 0 then b else Texts.append a b))
  extend_owned (ColumnBuilder.int64 a) (ColumnBuilder.int64 b) =
      ok (ColumnBuilder.int64 (append_column zero_int a b))
  extend_owned (ColumnBuilder.float64 a) (ColumnBuilder.float64 b) =
      ok (ColumnBuilder.float64 (append_column zero_float a b))
  extend_owned (ColumnBuilder.boolean a) (ColumnBuilder.boolean b) =
      ok (ColumnBuilder.boolean (append_column false a b))
  extend_owned (ColumnBuilder.date32 a) (ColumnBuilder.date32 b) =
      ok (ColumnBuilder.date32 (append_column zero_int a b))
  extend_owned (ColumnBuilder.timestamp unit fmt a) (ColumnBuilder.timestamp unit' fmt' b) =
      if unit_eq unit unit'
      then ok (ColumnBuilder.timestamp unit fmt (append_column zero_int a b))
      else err merge
  extend_owned (ColumnBuilder.decimal128 scale a) (ColumnBuilder.decimal128 scale' b) =
      if scale == scale'
      then ok (ColumnBuilder.decimal128 scale (append_column zero_int a b))
      else err merge
  extend_owned (ColumnBuilder.dictionary a_codes a) (ColumnBuilder.dictionary b_codes b) =
      let (codes, d) = extend H.is_utf8 a_codes a b_codes b in
      ok (
        if a_codes.validity.len == 0
        then ColumnBuilder.dictionary b_codes b
        else ColumnBuilder.dictionary codes d)
  extend_owned _ _ = err merge

  -- `(rows as f64 * max_ratio) as usize` is the number `ratio` of rows that the host computes.
  unfoldable pub try_upgrade_to_dict :
      (ratio : ℕ → ℕ) → ColumnBuilder → (min_rows max_size : ℕ) → ColumnBuilder
  unfolding iter distinct encoded
  try_upgrade_to_dict ratio (ColumnBuilder.string old) min_rows max_size =
      let rows = old.validity.len in
      let cap = min (max (ratio rows) 16) max_size in
      let kept = ColumnBuilder.string old in
      if ltb rows min_rows
      then kept
      else if ltb cap (length (distinct (iter old) []))
      then kept
      else encoded old
  try_upgrade_to_dict ratio c min_rows max_size = c
