-- ===== src/Builder/Extend.antt =====
-- `extend_owned` of columnar.rs on the rows that the columns hold.
use mathlib.Core.List.{map-append}
use rypipe.Prelude.{
  ℕ, suc, Bool, true, false, ◌+◌, ◌-◌, ◌^◌, ◌<◌, ◌≡◌, refl, sym, ap, ◌∙◌, Option, none, some, List,
  [], ◌∷◌, ◌++◌, map, length, Str, arith, ◌==◌, if◌then◌else◌, Bool-cases, inl, inr, ok,
}
use rypipe.Value.{TimeUnit, Host}
use rypipe.Plan.{unit_eq}
use rypipe.Columnar.Flat.{is_some}
use rypipe.Columnar.Cells.{length-map}
use rypipe.Columnar.Texts.{StrColumn}
use rypipe.Columnar.Texts
use rypipe.Columnar.TextRows.{append-TextRows}
use rypipe.Columnar.Nullable.{NullableColumn}
use rypipe.Columnar.Dict.{Dictionary, extend}
use rypipe.Columnar.Words.{with_words, length-ends}
use rypipe.Columnar.Coded.{Coded, DictRows}
use rypipe.Columnar.DictColumn.{present, extend-DictRows}
use rypipe.Builder.{ColumnBuilder, zero_int, zero_float}
use rypipe.Builder.Read.{TypedValue, mapped}
use rypipe.Builder.Merge.{extend_owned, append_column}
use rypipe.Builder.Utf8.{AllUtf8-append, AllUtf8-with_words, word_utf8, present-append}
use rypipe.Builder.Rows.{
  typed, TextHolds, DictHolds, HoldsRows, text_bytes, entries, SameType, empty_list,
  append_column-PrimHolds,
}

append_column-TextHolds :
    (utf8 : Str → Bool) (a b : StrColumn) (xs ys : List (Option TypedValue))
    → TextHolds utf8 a xs
    → TextHolds utf8 b ys
    → length a.bytes + length b.bytes < 2 ^ 31
    → TextHolds utf8 (if a.validity.len == 0 then b else Texts.append a b) (xs ++ ys)
append_column-TextHolds utf8 a b xs ys (us, s, p, e) (vs, t, q, g) small =
    let count : a.validity.len ≡ length us = s.valid.rows ∙ length-map is_some us in
    elim (Bool-cases (a.validity.len == 0)) [
      | inl none_yet ↦
          let nothing : us ≡ [] = empty_list us a.validity.len count none_yet in
          let no_xs : xs ≡ [] = e ∙ ap (typed TypedValue.str) nothing in
          rw (none_yet, no_xs) (vs, t, q, g)
      | inr some_rows ↦ rw some_rows (
        us ++ vs,
        append-TextRows a b us vs s t (omega (arith, ap length s.text, ap length t.text)),
        rw (present-append us vs) (AllUtf8-append utf8 (present us) (present vs) p q),
        rw (e, g) (sym (map-append (mapped TypedValue.str) us vs)),
      )
    ]

rows_of_codes :
    (ws : List Str) (cs : List (Option ℕ)) (xs : List (Option Str))
    → Coded ws cs xs
    → length cs ≡ length xs
unfolding Coded
rows_of_codes ws [] [] h = refl
rows_of_codes ws (none ∷ cs) (none ∷ xs) h = ap suc (rows_of_codes ws cs xs h)
rows_of_codes ws (some c ∷ cs) (some x ∷ xs) h = ap suc (rows_of_codes ws cs xs h.1)
rows_of_codes ws [] (x ∷ xs) h = elim h [ ]
rows_of_codes ws (none ∷ cs) [] h = elim h [ ]
rows_of_codes ws (some c ∷ cs) [] h = elim h [ ]
rows_of_codes ws (none ∷ cs) (some x ∷ xs) h = elim h [ ]
rows_of_codes ws (some c ∷ cs) (none ∷ xs) h = elim h [ ]

-- The number of rows of a dictionary column.
pub dict_rows :
    (codes : NullableColumn ℕ) (d : Dictionary) (ws : List Str) (xs : List (Option Str))
    → DictRows codes d ws xs
    → codes.validity.len ≡ length xs
dict_rows codes d ws xs s =
    s.stored.valid.rows ∙ length-map is_some s.codes_of ∙ rows_of_codes ws s.codes_of xs s.each

-- What `extend_owned` makes of two dictionary columns.
abbrev merged :
    (Str → Bool) → NullableColumn ℕ → Dictionary → NullableColumn ℕ → Dictionary → ColumnBuilder
merged utf8 a_codes a b_codes b =
    if a_codes.validity.len == 0
    then ColumnBuilder.dictionary b_codes b
    else ColumnBuilder.dictionary (extend utf8 a_codes a b_codes b).0
        (extend utf8 a_codes a b_codes b).1

merged-HoldsRows :
    (utf8 : Str → Bool) (a_codes b_codes : NullableColumn ℕ) (a b : Dictionary)
    (xs ys : List (Option TypedValue))
    → DictHolds utf8 a_codes a xs
    → DictHolds utf8 b_codes b ys
    → length a.bytes + length b.bytes < 2 ^ 31
    → length a.offsets - 1 + (length b.offsets - 1) < 2 ^ 31
    → HoldsRows utf8 (merged utf8 a_codes a b_codes b) (xs ++ ys)
unfolding HoldsRows
merged-HoldsRows utf8 a_codes b_codes a b xs ys (ws, us, s, p, e) (ws', vs, t, q, g) small few =
    let count : a_codes.validity.len ≡ length us = dict_rows a_codes a ws us s in
    elim (Bool-cases (a_codes.validity.len == 0)) [
      | inl none_yet ↦
          let nothing : us ≡ [] = empty_list us a_codes.validity.len count none_yet in
          let no_xs : xs ≡ [] = e ∙ ap (typed TypedValue.str) nothing in
          rw (none_yet, no_xs) (ws', vs, t, q, g)
      | inr some_rows ↦ rw some_rows (
        with_words ws ws',
        us ++ vs,
        extend-DictRows utf8 a_codes b_codes a b ws ws' us vs s t (word_utf8 utf8 ws' q)
            (omega (arith, ap length s.dict.text, ap length t.dict.text))
            (omega (
              arith,
              few,
              ap length s.dict.ends_of,
              ap length t.dict.ends_of,
              length-ends 0 (map some ws),
              length-ends 0 (map some ws'),
              length-map some ws,
              length-map some ws',
            )),
        AllUtf8-with_words utf8 ws ws' p q,
        rw (e, g) (sym (map-append (mapped TypedValue.str) us vs)),
      )
    ]

unit_eq_refl : (u : TimeUnit) → unit_eq u u ≡ true
unfolding unit_eq
unit_eq_refl TimeUnit.second = refl
unit_eq_refl TimeUnit.millisecond = refl
unit_eq_refl TimeUnit.microsecond = refl
unit_eq_refl TimeUnit.nanosecond = refl

-- For two columns of one type that hold lists of rows, with room for the texts and the words of
-- both, `extend_owned` succeeds, with a column of the rows of the first and then those of the
-- second.
pub extend_owned-HoldsRows :
    (H : Host) (a b : ColumnBuilder) (xs ys : List (Option TypedValue))
    → SameType a b
    → HoldsRows H.is_utf8 a xs
    → HoldsRows H.is_utf8 b ys
    → text_bytes a + text_bytes b < 2 ^ 31
    → entries a + entries b < 2 ^ 31
    → (c : ColumnBuilder) × (extend_owned H a b ≡ ok c) × HoldsRows H.is_utf8 c (xs ++ ys)
unfolding SameType HoldsRows text_bytes entries extend_owned
extend_owned-HoldsRows H (ColumnBuilder.string a) (ColumnBuilder.string b) xs ys same s t small
      few =
    (
      ColumnBuilder.string (if a.validity.len == 0 then b else Texts.append a b),
      refl,
      append_column-TextHolds H.is_utf8 a b xs ys s t small,
    )
extend_owned-HoldsRows H (ColumnBuilder.int64 a) (ColumnBuilder.int64 b) xs ys same s t small few =
    (
      ColumnBuilder.int64 (append_column zero_int a b),
      refl,
      append_column-PrimHolds zero_int TypedValue.int64 a b xs ys s t,
    )
extend_owned-HoldsRows H (ColumnBuilder.float64 a) (ColumnBuilder.float64 b) xs ys same s t small
      few =
    (
      ColumnBuilder.float64 (append_column zero_float a b),
      refl,
      append_column-PrimHolds zero_float TypedValue.float64 a b xs ys s t,
    )
extend_owned-HoldsRows H (ColumnBuilder.boolean a) (ColumnBuilder.boolean b) xs ys same s t small
      few =
    (
      ColumnBuilder.boolean (append_column false a b),
      refl,
      append_column-PrimHolds false TypedValue.bool a b xs ys s t,
    )
extend_owned-HoldsRows H (ColumnBuilder.date32 a) (ColumnBuilder.date32 b) xs ys same s t small
      few =
    (
      ColumnBuilder.date32 (append_column zero_int a b),
      refl,
      append_column-PrimHolds zero_int TypedValue.date32 a b xs ys s t,
    )
extend_owned-HoldsRows H (ColumnBuilder.timestamp u f a) (ColumnBuilder.timestamp u' f' b) xs ys
      same s t small few =
    (
      ColumnBuilder.timestamp u f (append_column zero_int a b),
      rw (← same, unit_eq_refl u) refl,
      append_column-PrimHolds zero_int (λ v. TypedValue.timestamp v u) a b xs ys s (rw same t),
    )
extend_owned-HoldsRows H (ColumnBuilder.decimal128 n a) (ColumnBuilder.decimal128 n' b) xs ys same s
      t small few =
    let equal : (n == n') ≡ true = ground (arith, same) in
    (
      ColumnBuilder.decimal128 n (append_column zero_int a b),
      rw equal refl,
      append_column-PrimHolds zero_int (λ v. TypedValue.decimal128 v n) a b xs ys s (rw same t),
    )
extend_owned-HoldsRows H (ColumnBuilder.dictionary c a) (ColumnBuilder.dictionary c' b) xs ys same s
      t small few =
    (merged H.is_utf8 c a c' b, refl, merged-HoldsRows H.is_utf8 c c' a b xs ys s t small few)
extend_owned-HoldsRows H a b xs ys same s t small few = elim same [ ]
