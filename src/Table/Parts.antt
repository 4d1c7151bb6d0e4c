-- ===== src/Table/Parts.antt =====
-- `split_off` of engine/table_builder.rs: the rows of the two parts of a table.
use rypipe.Prelude.{
  ℕ, zero, suc, ◌+◌, ◌-◌, ◌≡◌, ◌≤◌, ◌<◌, false, ltb, refl, sym, ap, ◌∙◌, some, List, [], ◌∷◌, arith,
  ◌==◌, get_elem?, Bool-cases, inl, inr,
}
use rypipe.Columnar.Bitmap.{ValidityBitmap, push_range, empty, is_valid}
use rypipe.Columnar.Bitmap
use rypipe.Columnar.Primitive
use rypipe.Columnar.Nullable
use rypipe.Columnar.Texts.{StrColumn}
use rypipe.Columnar.Texts
use rypipe.Builder.{ColumnBuilder}
use rypipe.Builder.Read.{len}
use rypipe.Builder.Read
use rypipe.Table.{TableBuilder}
use rypipe.Table.Rows.{split_columns, parts_at, split_off}
use rypipe.Table.Lengths.{bitmap_push}
use rypipe.Table.Finished.{AllRows}

range_len :
    (b o : ValidityBitmap) (from count : ℕ) → (push_range b o from count).len ≡ b.len + count
unfolding push_range
range_len b o from zero = omega arith
range_len b o from (suc count) =
    range_len (Bitmap.push b (is_valid o from)) o (from + 1) count
    ∙ omega (arith, bitmap_push b (is_valid o from))

bitmap_parts :
    (b : ValidityBitmap) (n : ℕ)
    → ((Bitmap.split_off b n).0.len ≡ n) × ((Bitmap.split_off b n).1.len ≡ b.len - n)
unfolding Bitmap.split_off
bitmap_parts b n =
    (range_len empty b 0 n ∙ omega arith, range_len empty b n (b.len - n) ∙ omega arith)

text_parts :
    (c : StrColumn) (n : ℕ)
    → ((Texts.split_off c n).0.validity.len ≡ n)
      × ((Texts.split_off c n).1.validity.len ≡ c.validity.len - n)
unfolding Texts.split_off
text_parts c n = elim (Bool-cases (n == 0)) [
  | inl none_of ↦ rw none_of (ground arith, ground arith)
  | inr some_of ↦ elim (Bool-cases (n == c.validity.len)) [
    | inl all ↦ rw (some_of, all) (ground arith, ground arith)
    | inr part ↦ rw (some_of, part) (bitmap_parts c.validity n)
  ]
]

column_parts :
    (c : ColumnBuilder) (n : ℕ)
    → (len (Read.split_off c n).0 ≡ n) × (len (Read.split_off c n).1 ≡ len c - n)
unfolding len Read.split_off Primitive.split_off Nullable.split_off
column_parts (ColumnBuilder.string v) n = text_parts v n
column_parts (ColumnBuilder.int64 v) n = bitmap_parts v.validity n
column_parts (ColumnBuilder.float64 v) n = bitmap_parts v.validity n
column_parts (ColumnBuilder.boolean v) n = bitmap_parts v.validity n
column_parts (ColumnBuilder.date32 v) n = bitmap_parts v.validity n
column_parts (ColumnBuilder.timestamp u f v) n = bitmap_parts v.validity n
column_parts (ColumnBuilder.decimal128 s v) n = bitmap_parts v.validity n
column_parts (ColumnBuilder.dictionary codes d) n = bitmap_parts codes.validity n

first_parts :
    (cs : List ColumnBuilder) (n i : ℕ) (b : ColumnBuilder)
    → get_elem? (split_columns cs n).0 i ≡ some b
    → len b ≡ n
unfolding split_columns
first_parts [] n i b h = cc
first_parts (c ∷ cs) n zero b h =
    let e : (Read.split_off c n).0 ≡ b = cc in ap len (sym e) ∙ (column_parts c n).0
first_parts (c ∷ cs) n (suc i) b h = first_parts cs n i b h

other_parts :
    (cs : List ColumnBuilder) (n rows i : ℕ) (b : ColumnBuilder)
    → ((j : ℕ) (c : ColumnBuilder) → get_elem? cs j ≡ some c → len c ≡ rows)
    → get_elem? (split_columns cs n).1 i ≡ some b
    → len b ≡ rows - n
unfolding split_columns
other_parts [] n rows i b s h = cc
other_parts (c ∷ cs) n rows zero b s h =
    let e : (Read.split_off c n).1 ≡ b = cc in
    ap len (sym e) ∙ (column_parts c n).1 ∙ omega (arith, s 0 c refl)
other_parts (c ∷ cs) n rows (suc i) b s h = other_parts cs n rows i b (λ j d g. s (suc j) d g) h

-- Every column is cut where the table is, in its place.
column_at :
    (cs : List ColumnBuilder) (n i : ℕ) (c : ColumnBuilder)
    → get_elem? cs i ≡ some c
    → (get_elem? (split_columns cs n).0 i ≡ some (Read.split_off c n).0)
      × (get_elem? (split_columns cs n).1 i ≡ some (Read.split_off c n).1)
unfolding split_columns
column_at [] n i c h = cc
column_at (d ∷ cs) n zero c h =
    let same : d ≡ c = cc in
    (ap (λ x. some (Read.split_off x n).0) same, ap (λ x. some (Read.split_off x n).1) same)
column_at (d ∷ cs) n (suc i) c h = column_at cs n i c h

-- For a table whose columns have as many rows as it, and `n` above 0 and at most these,
-- `split_off` gives a table of `n` rows and leaves one of the others, the columns of each have as
-- many rows as it, and each column of the table stands in its place in both, cut by its own
-- `split_off`.
pub split_off-AllRows :
    (t : TableBuilder) (n : ℕ)
    → AllRows t.columns t.row_count
    → 0 < n
    → n ≤ t.row_count
    → (first : TableBuilder) × (others : TableBuilder) × (split_off t n ≡ some (first, others))
      × (first.row_count ≡ n)
      × (others.row_count + n ≡ t.row_count)
      × AllRows first.columns n
      × AllRows others.columns (t.row_count - n)
      × ((i : ℕ) (c : ColumnBuilder)
          → get_elem? t.columns i ≡ some c
          → (get_elem? first.columns i ≡ some (Read.split_off c n).0)
            × (get_elem? others.columns i ≡ some (Read.split_off c n).1))
unfolding split_off parts_at
split_off-AllRows t n s some_rows le =
    let enough : ltb t.row_count n ≡ false = ground (arith, le) in
    let not_zero : (n == 0) ≡ false = ground (arith, some_rows) in
    (
      (parts_at t n).0,
      (parts_at t n).1,
      rw (enough, not_zero) refl,
      refl,
      omega (arith, le),
      record { each = λ i b h. first_parts t.columns n i b h },
      record { each = λ i b h. other_parts t.columns n t.row_count i b s.each h },
      column_at t.columns n,
    )
