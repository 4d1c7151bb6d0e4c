-- ===== src/Builder/Rows.antt =====
-- What a `ColumnBuilder` holds: a list of rows, each a typed value or null.
use mathlib.Core.List.{map-append}
use rypipe.Prelude.{
  ℕ, Bool, true, false, ◌-◌, ◌≡◌, refl, sym, ap, ◌∙◌, Option, List, [], ◌∷◌, ◌++◌, map, length, Str,
  arith, ◌==◌, Bool-cases, inl, inr,
}
use rypipe.Columnar.Flat.{is_some}
use rypipe.Columnar.Cells.{length-map}
use rypipe.Columnar.Primitive.{PrimColumn}
use rypipe.Columnar.Rows.{PrimRows, append-Rows}
use rypipe.Columnar.TextRows.{TextRows}
use rypipe.Columnar.Texts.{StrColumn}
use rypipe.Columnar.Nullable.{NullableColumn}
use rypipe.Columnar.Dict.{Dictionary}
use rypipe.Columnar.Coded.{DictRows}
use rypipe.Columnar.DictColumn.{present}
use rypipe.Builder.{ColumnBuilder, zero_int, zero_float}
use rypipe.Builder.Read.{TypedValue, mapped}
use rypipe.Builder.Merge.{append_column}
use rypipe.Builder.Utf8.{AllUtf8}

-- The values of a list of nullable rows as typed values.
abbrev pub typed : {T : Type 0} → (T → TypedValue) → List (Option T) → List (Option TypedValue)
typed f xs = map (mapped f) xs

-- A primitive column holds the rows.
abbrev pub PrimHolds :
    {T : Type 0} → T → (T → TypedValue) → PrimColumn T → List (Option TypedValue) → Type 0
PrimHolds {T} d f v xs = (ys : List (Option T)) × PrimRows d v ys × (xs ≡ typed f ys)

abbrev pub TextHolds : (Str → Bool) → StrColumn → List (Option TypedValue) → Type 0
TextHolds utf8 v xs =
    (ys : List (Option Str)) × TextRows v ys
    × AllUtf8 utf8 (present ys)
    × (xs ≡ typed TypedValue.str ys)

abbrev pub DictHolds :
    (Str → Bool) → NullableColumn ℕ → Dictionary → List (Option TypedValue) → Type 0
DictHolds utf8 codes d xs =
    (ws : List Str) × (ys : List (Option Str)) × DictRows codes d ws ys
    × AllUtf8 utf8 ws
    × (xs ≡ typed TypedValue.str ys)

-- The column holds the rows `xs`.
unfoldable pub HoldsRows : (Str → Bool) → ColumnBuilder → List (Option TypedValue) → Type 0
HoldsRows utf8 (ColumnBuilder.string v) xs = TextHolds utf8 v xs
HoldsRows utf8 (ColumnBuilder.int64 v) xs = PrimHolds zero_int TypedValue.int64 v xs
HoldsRows utf8 (ColumnBuilder.float64 v) xs = PrimHolds zero_float TypedValue.float64 v xs
HoldsRows utf8 (ColumnBuilder.boolean v) xs = PrimHolds false TypedValue.bool v xs
HoldsRows utf8 (ColumnBuilder.date32 v) xs = PrimHolds zero_int TypedValue.date32 v xs
HoldsRows utf8 (ColumnBuilder.timestamp unit fmt v) xs =
    PrimHolds zero_int (λ t. TypedValue.timestamp t unit) v xs
HoldsRows utf8 (ColumnBuilder.decimal128 scale v) xs =
    PrimHolds zero_int (λ n. TypedValue.decimal128 n scale) v xs
HoldsRows utf8 (ColumnBuilder.dictionary codes d) xs = DictHolds utf8 codes d xs

-- The bytes of a column's texts, and the words of its dictionary.
unfoldable pub text_bytes : ColumnBuilder → ℕ
text_bytes (ColumnBuilder.string v) = length v.bytes
text_bytes (ColumnBuilder.dictionary codes d) = length d.bytes
text_bytes c = 0

unfoldable pub entries : ColumnBuilder → ℕ
entries (ColumnBuilder.dictionary codes d) = length d.offsets - 1
entries c = 0

-- The columns store their values in the same way.
unfoldable pub SameType : ColumnBuilder → ColumnBuilder → Type 0
SameType (ColumnBuilder.string a) (ColumnBuilder.string b) = Unit
SameType (ColumnBuilder.int64 a) (ColumnBuilder.int64 b) = Unit
SameType (ColumnBuilder.float64 a) (ColumnBuilder.float64 b) = Unit
SameType (ColumnBuilder.boolean a) (ColumnBuilder.boolean b) = Unit
SameType (ColumnBuilder.date32 a) (ColumnBuilder.date32 b) = Unit
SameType (ColumnBuilder.timestamp u f a) (ColumnBuilder.timestamp u' f' b) = u ≡ u'
SameType (ColumnBuilder.decimal128 s a) (ColumnBuilder.decimal128 s' b) = s ≡ s'
SameType (ColumnBuilder.dictionary c a) (ColumnBuilder.dictionary c' b) = Unit
SameType _ _ = ⊥

pub empty_list : {A : Type 0} (xs : List A) (n : ℕ) → n ≡ length xs → (n == 0) ≡ true → xs ≡ []
empty_list [] n h e = refl
empty_list (x ∷ xs) n h e = ground arith

pub append_column-PrimHolds :
    {T : Type 0} (d : T) (f : T → TypedValue) (a b : PrimColumn T)
    (xs ys : List (Option TypedValue))
    → PrimHolds d f a xs
    → PrimHolds d f b ys
    → PrimHolds d f (append_column d a b) (xs ++ ys)
append_column-PrimHolds d f a b xs ys (us, s, e) (vs, t, g) =
    let count : a.validity.len ≡ length us = s.valid.rows ∙ length-map is_some us in
    elim (Bool-cases (a.validity.len == 0)) [
      | inl none_yet ↦
          let nothing : us ≡ [] = empty_list us a.validity.len count none_yet in
          let no_xs : xs ≡ [] = e ∙ ap (typed f) nothing in rw (none_yet, no_xs) (vs, t, g)
      | inr some_rows ↦
          rw some_rows
            (us ++ vs, append-Rows d a b us vs s t, rw (e, g) (sym (map-append (mapped f) us vs)))
    ]
