-- ===== src/Builder/Promote.antt =====
-- `promote_to_variant` and `try_upgrade_to_dict` of columnar.rs on the rows that a column holds.
use rypipe.Prelude.{
  ℕ, suc, Bool, true, false, ◌+◌, ◌^◌, ◌<◌, ◌≡◌, refl, ap, ◌∙◌, Option, none, some, List, [], ◌∷◌,
  map, length, ℤ, Str, bytes, str_eq, arith, if◌then◌else◌, Bool-cases, inl, inr, ok, err, merge,
  ltb, min, max, ◌⊎◌,
}
use rypipe.Value.{F64, Host}
use rypipe.Columnar.Bitmap.{empty}
use rypipe.Columnar.Slices.{empty-Holds}
use rypipe.Columnar.Flat.{is_some, unwrap_or}
use rypipe.Columnar.Cells.{length-map, row_at}
use rypipe.Columnar.Primitive.{PrimColumn}
use rypipe.Columnar.Texts.{StrColumn}
use rypipe.Columnar.Texts
use rypipe.Columnar.TextRead.{get-TextRows}
use rypipe.Columnar.TextRows.{TextRows}
use rypipe.Columnar.Dict.{Dictionary, push_texts}
use rypipe.Columnar.Dict
use rypipe.Columnar.Words.{with_words, new-HoldsWords}
use rypipe.Columnar.Coded.{Coded, DictRows}
use rypipe.Columnar.DictColumn.{present, push_texts-DictRows}
use rypipe.Builder.{ColumnBuilder, zero_int, zero_float}
use rypipe.Builder.Read.{TypedValue, mapped, len}
use rypipe.Builder.Merge.{
  variant_key, texts_from, iter, encoded, promote_to_variant, distinct, try_upgrade_to_dict,
}
use rypipe.Builder.Utf8.{AllUtf8, AllUtf8-with_words, row_utf8}
use rypipe.Builder.Rows.{typed, TextHolds, PrimHolds, HoldsRows}

-- A value of an integer column, as that of a float column.
unfoldable pub widened : Host → TypedValue → TypedValue
widened H (TypedValue.int64 i) = TypedValue.float64 (H.of_int i)
widened H v = v

-- The rows of the column after a promotion to the variant `target`.
unfoldable pub promoted :
    Host → ColumnBuilder → Str → List (Option TypedValue) → List (Option TypedValue)
unfolding str_eq widened
promoted H (ColumnBuilder.int64 v) target xs =
    if str_eq (bytes "int64") target then xs else map (mapped (widened H)) xs
promoted H c target xs = xs

module _ (H : Host) where
  texts_of :
      (v : StrColumn) (from : ℕ) (ys : List (Option Str))
      → ((i : ℕ) → Texts.get H.is_utf8 v (from + i) ≡ row_at ys i)
      → texts_from H v from (length ys) ≡ ys
  unfolding texts_from
  texts_of v from [] at = refl
  texts_of v from (y ∷ ys) at =
      let zero_on : from + 0 ≡ from = omega arith in
      let first : Texts.get H.is_utf8 v from ≡ y = rw zero_on at (at 0) in
      let next : (i : ℕ) → Texts.get H.is_utf8 v (from + 1 + i) ≡ row_at ys i =
        λ i. let on : from + suc i ≡ from + 1 + i = omega arith in rw on at (at (suc i)) in
      rw (first, texts_of v (from + 1) ys next) refl

  iter-TextRows :
      (v : StrColumn) (ys : List (Option Str))
      → TextRows v ys
      → AllUtf8 H.is_utf8 (present ys)
      → iter H v ≡ ys
  unfolding iter
  iter-TextRows v ys s p =
      let count : v.validity.len ≡ length ys = s.valid.rows ∙ length-map is_some ys in
      let here : (i : ℕ) → Texts.get H.is_utf8 v (0 + i) ≡ row_at ys i = λ i.
        let on : 0 + i ≡ i = omega arith in
        rw on (get-TextRows H.is_utf8 v ys i s (row_utf8 H.is_utf8 ys p i)) in
      ap (λ n. texts_from H v 0 n) count ∙ texts_of v 0 ys here

  -- A text column becomes a dictionary column of the same rows, whose words are the texts.
  pub encoded_rows :
      (v : StrColumn) (ys : List (Option Str))
      → TextRows v ys
      → AllUtf8 H.is_utf8 (present ys)
      → v.validity.len < 2 ^ 31
      → DictRows
          (push_texts (record { values = []; validity = empty }) Dict.new (iter H v)).0
          (push_texts (record { values = []; validity = empty }) Dict.new (iter H v)).1
          (with_words [] (present ys))
          ys
  unfolding Coded
  encoded_rows v ys s p few =
      let count : v.validity.len ≡ length ys = s.valid.rows ∙ length-map is_some ys in
      let fresh : DictRows (record { values = []; validity = empty }) Dict.new [] [] = record {
        codes_of = [];
        stored = record { valid = empty-Holds; values_of = refl };
        dict = new-HoldsWords;
        each = tt;
      } in
      rw (iter-TextRows v ys s p) (
        push_texts-DictRows (record { values = []; validity = empty }) Dict.new [] [] ys fresh
          (omega (arith, s.small)) (omega (arith, few)))

  encoded-HoldsRows :
      (v : StrColumn) (xs : List (Option TypedValue))
      → TextHolds H.is_utf8 v xs
      → v.validity.len < 2 ^ 31
      → HoldsRows H.is_utf8 (encoded H v) xs
  unfolding encoded HoldsRows
  encoded-HoldsRows v xs (ys, s, p, e) few = (
    with_words [] (present ys),
    ys,
    encoded_rows v ys s p few,
    AllUtf8-with_words H.is_utf8 [] (present ys) tt p,
    e,
  )

  wide_values :
      (ys : List (Option ℤ))
      → H.of_int zero_int ≡ zero_float
      → map H.of_int (map (unwrap_or zero_int) ys)
        ≡ map (unwrap_or zero_float) (map (mapped H.of_int) ys)
  wide_values [] z = refl
  wide_values (none ∷ ys) z = rw (z, wide_values ys z) refl
  wide_values (some y ∷ ys) z = ap (λ t. H.of_int y ∷ t) (wide_values ys z)

  wide_rows :
      (ys : List (Option ℤ))
      → (map is_some (map (mapped H.of_int) ys) ≡ map is_some ys)
        × (map (mapped (widened H)) (typed TypedValue.int64 ys)
            ≡ typed TypedValue.float64 (map (mapped H.of_int) ys))
  unfolding widened
  wide_rows [] = (refl, refl)
  wide_rows (none ∷ ys) = let (a, b) = wide_rows ys in (ap (λ t. false ∷ t) a, ap (λ t. none ∷ t) b)
  wide_rows (some y ∷ ys) =
      let (a, b) = wide_rows ys in
      (ap (λ t. true ∷ t) a, ap (λ t. some (TypedValue.float64 (H.of_int y)) ∷ t) b)

  wide-PrimHolds :
      (v : PrimColumn ℤ) (xs : List (Option TypedValue))
      → H.of_int zero_int ≡ zero_float
      → PrimHolds zero_int TypedValue.int64 v xs
      → PrimHolds zero_float TypedValue.float64
          (record { items = map H.of_int v.items; validity = v.validity })
          (map (mapped (widened H)) xs)
  wide-PrimHolds v xs z (ys, s, e) =
      let (bits, rows) = wide_rows ys in
      (
        map (mapped H.of_int) ys,
        record {
          valid = rw bits s.valid;
          values_of = ap (map H.of_int) s.values_of ∙ wide_values ys z;
        },
        ap (map (mapped (widened H))) e ∙ rows,
      )

  pub kept_or_err :
      (t : Bool) (c c' : ColumnBuilder) → (if t then ok c else err merge) ≡ ok c' → c ≡ c'
  kept_or_err true c c' h = cc
  kept_or_err false c c' h = cc

  pub one_or_other :
      (t u : Bool) (c d c' : ColumnBuilder)
      → (if t then ok c else if u then ok d else err merge) ≡ ok c'
      → ((t ≡ true) × (c ≡ c')) ⊎ ((t ≡ false) × (d ≡ c'))
  one_or_other true u c d c' h = inl (refl, cc)
  one_or_other false true c d c' h = inr (refl, cc)
  one_or_other false false c d c' h = let impossible : err merge ≡ ok c' = h in cc

  -- For a column of less than 2^31 rows that holds a list of rows, and a host that converts 0 to
  -- the float 0, a column that `promote_to_variant` gives holds the same rows, but for the
  -- integers of a column that becomes one of floats, which are converted.
  pub promote_to_variant-HoldsRows :
      (c c' : ColumnBuilder) (target : Str) (xs : List (Option TypedValue))
      → H.of_int zero_int ≡ zero_float
      → HoldsRows H.is_utf8 c xs
      → len c < 2 ^ 31
      → promote_to_variant H c target ≡ ok c'
      → HoldsRows H.is_utf8 c' (promoted H c target xs)
  unfolding promote_to_variant promoted HoldsRows len
  promote_to_variant-HoldsRows (ColumnBuilder.int64 v) c' target xs z s few h =
      let wide : PrimColumn F64 = record { items = map H.of_int v.items; validity = v.validity } in
      elim (one_or_other (str_eq (bytes "int64") target) (str_eq target (bytes "float64"))
        (ColumnBuilder.int64 v) (ColumnBuilder.float64 wide) c' h) [
          | inl (same, e) ↦ rw (same, ← e) s
          | inr (other, e) ↦ rw (other, ← e) (wide-PrimHolds v xs z s)
        ]
  promote_to_variant-HoldsRows (ColumnBuilder.string v) c' target xs z s few h =
      elim (one_or_other (str_eq (bytes "string") target) (str_eq target (bytes "dictionary"))
        (ColumnBuilder.string v) (encoded H v) c' h) [
          | inl (same, e) ↦ rw (← e) s
          | inr (other, e) ↦ rw (← e) (encoded-HoldsRows v xs s few)
        ]
  promote_to_variant-HoldsRows c c' target xs z s few h =
      rw (← kept_or_err (str_eq (variant_key c) target) c c' h) s

  -- For a column of less than 2^31 rows that holds a list of rows, `try_upgrade_to_dict` gives a
  -- column that holds the same rows, whatever its thresholds are.
  pub try_upgrade_to_dict-HoldsRows :
      (ratio : ℕ → ℕ) (c : ColumnBuilder) (min_rows max_size : ℕ) (xs : List (Option TypedValue))
      → HoldsRows H.is_utf8 c xs
      → len c < 2 ^ 31
      → HoldsRows H.is_utf8 (try_upgrade_to_dict H ratio c min_rows max_size) xs
  unfolding try_upgrade_to_dict HoldsRows len
  try_upgrade_to_dict-HoldsRows ratio (ColumnBuilder.string v) min_rows max_size xs s few =
      elim (Bool-cases (ltb v.validity.len min_rows)) [
        | inl short ↦ rw short s
        | inr enough ↦
            elim (Bool-cases (
              ltb (min (max (ratio v.validity.len) 16) max_size)
                (length (distinct (iter H v) [])))) [
                  | inl many ↦ rw (enough, many) s
                  | inr fewer ↦ rw (enough, fewer) (encoded-HoldsRows v xs s few)
                ]
      ]
  try_upgrade_to_dict-HoldsRows ratio c min_rows max_size xs s few = s
