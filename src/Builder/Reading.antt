-- ===== src/Builder/Reading.antt =====
-- `get_typed_value` and `get_filter_value` of columnar.rs on the rows that a column holds.
use rypipe.Prelude.{
  ℕ, zero, suc, true, false, ◌≡◌, refl, sym, ap, ◌∙◌, Option, none, some, List, [], ◌∷◌, Str, arith,
  inl, inr,
}
use rypipe.Value.{show_bool, Host}
use rypipe.Decimal.{format_decimal128}
use rypipe.Columnar.Cells.{row_at, row_read}
use rypipe.Columnar.Texts.{StrColumn, as_usize}
use rypipe.Columnar.Texts
use rypipe.Columnar.TextRead.{get-TextRows}
use rypipe.Columnar.Primitive.{PrimColumn}
use rypipe.Columnar.Primitive
use rypipe.Columnar.Nullable.{NullableColumn}
use rypipe.Columnar.Nullable
use rypipe.Columnar.Rows.{get_iff}
use rypipe.Columnar.Dict.{Dictionary, entry}
use rypipe.Columnar.Entries.{entry_iff, get_elem?-lt}
use rypipe.Columnar.DictColumn.{row_word}
use rypipe.Builder.{ColumnBuilder, and_then, zero_int, zero_float}
use rypipe.Builder.Read.{TypedValue, mapped, decoded, code_bytes, get_typed_value, get_filter_value}
use rypipe.Builder.Utf8.{word_utf8, row_utf8}
use rypipe.Builder.Rows.{typed, PrimHolds, TextHolds, DictHolds, HoldsRows}

-- A typed value as the text that filters compare.
unfoldable pub show_typed : Host → TypedValue → Str
show_typed H (TypedValue.str s) = s
show_typed H (TypedValue.int64 i) = H.show_i64 i
show_typed H (TypedValue.float64 f) = H.show_f64 f
show_typed H (TypedValue.bool b) = show_bool b
show_typed H (TypedValue.date32 d) = H.format_date32 d
show_typed H (TypedValue.timestamp t u) = H.format_timestamp t u
show_typed H (TypedValue.decimal128 n s) = format_decimal128 n s

row_at-typed :
    {T : Type 0} (f : T → TypedValue) (ys : List (Option T)) (i : ℕ)
    → row_at (typed f ys) i ≡ mapped f (row_at ys i)
row_at-typed f [] i = refl
row_at-typed f (y ∷ ys) zero = refl
row_at-typed f (y ∷ ys) (suc i) = row_at-typed f ys i

module _ (H : Host) where
  read_prim :
      {T : Type 0} (d : T) (f : T → TypedValue) (v : PrimColumn T) (xs : List (Option TypedValue))
      (i : ℕ)
      → PrimHolds d f v xs
      → (mapped f (Primitive.get d v i) ≡ row_at xs i)
  unfolding Primitive.get
  read_prim d f v xs i (ys, s, e) =
      ap (mapped f) (row_read d v.items v.validity ys s i)
      ∙ sym (row_at-typed f ys i)
      ∙ ap (λ t. row_at t i) (sym e)

  read_text :
      (v : StrColumn) (xs : List (Option TypedValue)) (i : ℕ)
      → TextHolds H.is_utf8 v xs
      → mapped TypedValue.str (Texts.get H.is_utf8 v i) ≡ row_at xs i
  read_text v xs i (ys, s, p, e) =
      ap (mapped TypedValue.str) (get-TextRows H.is_utf8 v ys i s (row_utf8 H.is_utf8 ys p i))
      ∙ sym (row_at-typed TypedValue.str ys i)
      ∙ ap (λ t. row_at t i) (sym e)

  -- The bytes of a row of a dictionary column, which are UTF-8.
  read_code :
      (codes : NullableColumn ℕ) (d : Dictionary) (xs : List (Option TypedValue)) (i : ℕ)
      → DictHolds H.is_utf8 codes d xs
      → (mapped TypedValue.str (code_bytes H d (Nullable.get 0 codes i)) ≡ row_at xs i)
        × (mapped TypedValue.str (and_then (code_bytes H d (Nullable.get 0 codes i)) (decoded H))
            ≡ row_at xs i)
  read_code codes d xs i (ws, ys, s, p, e) =
      let here : row_at xs i ≡ mapped TypedValue.str (row_at ys i) =
        ap (λ t. row_at t i) e ∙ row_at-typed TypedValue.str ys i in
      elim (row_word ws s.codes_of ys i s.each) [
        | inl (no_code, null) ↦
            rw (get_iff 0 codes s.codes_of s.stored i, no_code, here, null) (refl, refl)
        | inr (c, y, code, text, word) ↦
            let within : as_usize c ≡ c = ground (arith, get_elem?-lt ws c y word, s.dict.few) in
            let found : entry d c ≡ some y = entry_iff d ws c s.dict ∙ word in
            rw
              (
                get_iff 0 codes s.codes_of s.stored i,
                code,
                here,
                text,
                within,
                found,
                word_utf8 H.is_utf8 ws p c y word,
              )
              (refl, refl)
      ]

  -- For a column that holds a list of rows, `get_typed_value` gives the value of the row, and
  -- nothing for a null row or past the end.
  pub get_typed_value-HoldsRows :
      (c : ColumnBuilder) (xs : List (Option TypedValue)) (i : ℕ)
      → HoldsRows H.is_utf8 c xs
      → get_typed_value H c i ≡ row_at xs i
  unfolding get_typed_value HoldsRows
  get_typed_value-HoldsRows (ColumnBuilder.string v) xs i s = read_text v xs i s
  get_typed_value-HoldsRows (ColumnBuilder.int64 v) xs i s =
      read_prim zero_int TypedValue.int64 v xs i s
  get_typed_value-HoldsRows (ColumnBuilder.float64 v) xs i s =
      read_prim zero_float TypedValue.float64 v xs i s
  get_typed_value-HoldsRows (ColumnBuilder.boolean v) xs i s =
      read_prim false TypedValue.bool v xs i s
  get_typed_value-HoldsRows (ColumnBuilder.date32 v) xs i s =
      read_prim zero_int TypedValue.date32 v xs i s
  get_typed_value-HoldsRows (ColumnBuilder.timestamp u f v) xs i s =
      read_prim zero_int (λ t. TypedValue.timestamp t u) v xs i s
  get_typed_value-HoldsRows (ColumnBuilder.decimal128 n v) xs i s =
      read_prim zero_int (λ t. TypedValue.decimal128 t n) v xs i s
  get_typed_value-HoldsRows (ColumnBuilder.dictionary codes d) xs i s = (read_code codes d xs i s).1

  same_text : (o : Option Str) → o ≡ mapped (λ s. s) o
  same_text none = refl
  same_text (some s) = refl

  -- The text of a value that is there.
  shown :
      {T : Type 0} (f : T → TypedValue) (o : Option T)
      → mapped (show_typed H) (mapped f o) ≡ mapped (λ x. show_typed H (f x)) o
  shown f none = refl
  shown f (some x) = refl

  shown_code :
      (codes : NullableColumn ℕ) (d : Dictionary) (xs : List (Option TypedValue)) (i : ℕ)
      → DictHolds H.is_utf8 codes d xs
      → ((s : Str) → H.is_utf8 s ≡ true → H.from_utf8_lossy s ≡ s)
      → mapped H.from_utf8_lossy (code_bytes H d (Nullable.get 0 codes i))
        ≡ mapped
            (show_typed H)
            (mapped TypedValue.str (and_then (code_bytes H d (Nullable.get 0 codes i)) (decoded H)))
  unfolding show_typed
  shown_code codes d xs i (ws, ys, s, p, e) lossless = elim (row_word ws s.codes_of ys i s.each) [
    | inl (no_code, null) ↦ rw (get_iff 0 codes s.codes_of s.stored i, no_code) refl
    | inr (c, y, code, text, word) ↦
        let within : as_usize c ≡ c = ground (arith, get_elem?-lt ws c y word, s.dict.few) in
        let found : entry d c ≡ some y = entry_iff d ws c s.dict ∙ word in
        let encoding = word_utf8 H.is_utf8 ws p c y word in
        rw
          (
            get_iff 0 codes s.codes_of s.stored i,
            code,
            within,
            found,
            encoding,
            lossless y encoding,
          )
          refl
  ]

  -- For a column that holds a list of rows, and a host that decodes UTF-8 without loss, the text
  -- that `get_filter_value` gives for a row is that of the value that `get_typed_value` gives.
  pub get_filter_value-get_typed_value :
      (c : ColumnBuilder) (xs : List (Option TypedValue)) (i : ℕ)
      → HoldsRows H.is_utf8 c xs
      → ((s : Str) → H.is_utf8 s ≡ true → H.from_utf8_lossy s ≡ s)
      → get_filter_value H c i ≡ mapped (show_typed H) (get_typed_value H c i)
  unfolding get_typed_value get_filter_value HoldsRows show_typed
  get_filter_value-get_typed_value (ColumnBuilder.string v) xs i s lossless =
      same_text (Texts.get H.is_utf8 v i) ∙ sym (shown TypedValue.str (Texts.get H.is_utf8 v i))
  get_filter_value-get_typed_value (ColumnBuilder.int64 v) xs i s lossless =
      sym (shown TypedValue.int64 (Primitive.get zero_int v i))
  get_filter_value-get_typed_value (ColumnBuilder.float64 v) xs i s lossless =
      sym (shown TypedValue.float64 (Primitive.get zero_float v i))
  get_filter_value-get_typed_value (ColumnBuilder.boolean v) xs i s lossless =
      sym (shown TypedValue.bool (Primitive.get false v i))
  get_filter_value-get_typed_value (ColumnBuilder.date32 v) xs i s lossless =
      sym (shown TypedValue.date32 (Primitive.get zero_int v i))
  get_filter_value-get_typed_value (ColumnBuilder.timestamp u f v) xs i s lossless =
      sym (shown (λ t. TypedValue.timestamp t u) (Primitive.get zero_int v i))
  get_filter_value-get_typed_value (ColumnBuilder.decimal128 n v) xs i s lossless =
      sym (shown (λ t. TypedValue.decimal128 t n) (Primitive.get zero_int v i))
  get_filter_value-get_typed_value (ColumnBuilder.dictionary codes d) xs i s lossless =
      shown_code codes d xs i s lossless
