-- ===== src/Table/Finished.antt =====
-- Rows of a `TableBuilder` from their first field to their end: the columns stay aligned.
use rypipe.Prelude.{
  ℕ, zero, suc, Bool, true, false, ◌+◌, ◌*◌, ◌≡◌, ◌<◌, ◌≤◌, refl, sym, ap, ◌∙◌, none, some, List,
  [], ◌∷◌, Str, lookup, length, get_elem?, if◌then◌else◌, Bool-cases, inl, inr, arith, map,
}
use rypipe.Value.{Value, Host}
use rypipe.Columnar.Cells.{length-map}
use rypipe.Columnar.Entries.{get_elem?-lt}
use rypipe.Builder.{ColumnBuilder, push_str}
use rypipe.Builder.Read.{len, pop}
use rypipe.Table.{TableBuilder, is_dirty, push_field, put_field_at}
use rypipe.Table.Rows.{
  is_full, cleared, fill_from, null_fill_missing, finish_row, normalize, truncate,
}
use rypipe.Table.Bits.{is_full-is_dirty, is_dirty-cleared}
use rypipe.Table.Lengths.{len-pop, len-push_str, len-truncate}
use rypipe.Table.Aligned.{Aligned, IsAligned, one_if}
use rypipe.Table.Fields.{push_field-IsAligned, put_field_at-IsAligned}

-- Every column has `rows` rows.
pub record AllRows (columns : List ColumnBuilder) (rows : ℕ) : Type 0 where
  pub each : (i : ℕ) (b : ColumnBuilder) → get_elem? columns i ≡ some b → len b ≡ rows

get_elem?-map :
    {A B : Type 0} (f : A → B) (xs : List A) (i : ℕ) (y : B)
    → get_elem? (map f xs) i ≡ some y
    → (x : A) × (get_elem? xs i ≡ some x) × (f x ≡ y)
get_elem?-map f [] i y h = cc
get_elem?-map f (x ∷ xs) zero y h = (x, refl, cc)
get_elem?-map f (x ∷ xs) (suc i) y h = get_elem?-map f xs i y h

AllRows-pop :
    (cs : List ColumnBuilder) (rows : ℕ) → AllRows cs (rows + 1) → AllRows (map pop cs) rows
AllRows-pop cs rows s = record {
  each = λ i b h.
      let (c, there, e) = get_elem?-map pop cs i b h in
      ap len (sym e) ∙ len-pop c ∙ omega (arith, s.each i c there);
}

same_words : (dirty : List ℕ) → length (cleared dirty) ≡ length dirty
same_words [] = refl
same_words (w ∷ ws) = ap suc (same_words ws)

-- With all rows of the columns there and no bit set, the table is aligned.
between_rows :
    (cs : List ColumnBuilder) (ix : List (Str × ℕ)) (dirty : List ℕ) (rows : ℕ)
    → AllRows cs rows
    → ((name : Str) (i : ℕ) → lookup name ix ≡ some i → i < length cs)
    → length cs ≤ 64 * length dirty
    → Aligned cs ix (cleared dirty) rows
between_rows cs ix dirty rows s slots words = record {
  lens = λ i b h. rw (is_dirty-cleared dirty i) (s.each i b h ∙ omega arith);
  clear = λ i h. is_dirty-cleared dirty i;
  slots = slots;
  words = omega (arith, words, same_words dirty);
}

-- What a decoder does with the table.
pub data Event : Type 0 where
  field : Str → Value → Event
  field_at : ℕ → Value → Event
  ended : Bool → Event

-- For a table whose columns are aligned, with fields of a row that does not end, the loops of
-- `normalize` end, within a round for each row of the column, with as many rows as the table in
-- every column.
pub normalize-AllRows :
    (t : TableBuilder) → IsAligned t → AllRows (normalize t).columns (normalize t).row_count
unfolding normalize
normalize-AllRows t s = record {
  each = λ i b h.
      let (c, there, e) = get_elem?-map (λ b. truncate (len b) b t.row_count) t.columns i b h in
      ap len (sym e) ∙ len-truncate c t.row_count ∙ omega (arith, s.aligned.lens i c there);
}

module _ (H : Host) where
  length-fill_from :
      (dirty : List ℕ) (k : ℕ) (cs : List ColumnBuilder)
      → length (fill_from H dirty k cs) ≡ length cs
  unfolding fill_from
  length-fill_from dirty k [] = refl
  length-fill_from dirty k (c ∷ cs) = ap suc (length-fill_from dirty (k + 1) cs)

  filled-len :
      (dirty : List ℕ) (k rows : ℕ) (cs : List ColumnBuilder)
      → ((i : ℕ) (b : ColumnBuilder)
          → get_elem? cs i ≡ some b
          → len b ≡ rows + one_if (is_dirty dirty (k + i)))
      → (i : ℕ) (b : ColumnBuilder) → get_elem? (fill_from H dirty k cs) i ≡ some b
      → len b ≡ rows + 1
  unfolding fill_from
  filled-len dirty k rows [] s i b h = cc
  filled-len dirty k rows (c ∷ cs) s zero b h =
      let here : k + 0 ≡ k = omega arith in
      let mine : len c ≡ rows + one_if (is_dirty dirty k) = rw here at (s 0 c refl) in
      let e : (if is_dirty dirty k then c else push_str H c none) ≡ b = cc in
      ap len (sym e) ∙ elim (Bool-cases (is_dirty dirty k)) [
        | inl dirty_yet ↦ rw dirty_yet (rw dirty_yet at mine)
        | inr missing ↦
            let mine' : len c ≡ rows + 0 = rw missing at mine in
            rw missing (len-push_str H c none ∙ omega (arith, mine'))
      ]
  filled-len dirty k rows (c ∷ cs) s (suc i) b h =
      filled-len dirty (k + 1) rows cs
        (λ j d g. let on : k + suc j ≡ k + 1 + j = omega arith in rw on at (s (suc j) d g)) i b h

  -- After the null fill every column has one row more than the table.
  null_fill_missing-AllRows :
      (t : TableBuilder)
      → IsAligned t
      → AllRows (null_fill_missing H t).columns (t.row_count + 1)
        × (length (null_fill_missing H t).columns ≡ length t.columns)
  unfolding null_fill_missing
  null_fill_missing-AllRows t s = elim (Bool-cases (is_full t.row_dirty (length t.columns))) [
    | inl full ↦ rw full (
      record {
        each = λ i b h.
            let set_yet =
              is_full-is_dirty t.row_dirty (length t.columns) i full
                (get_elem?-lt t.columns i b h) in
            s.aligned.lens i b h ∙ ap (λ d. t.row_count + one_if d) set_yet;
      },
      refl,
    )
    | inr gaps ↦ rw gaps (
      record {
        each =
            filled-len t.row_dirty 0 t.row_count t.columns
              (λ i b h. let on : 0 + i ≡ i = omega arith in rw on (s.aligned.lens i b h));
      },
      length-fill_from t.row_dirty 0 t.columns,
    )
  ]

  -- The table after the null fill, once the row is counted or its values are popped.
  counted :
      (t : TableBuilder) (columns : List ColumnBuilder) (rows : ℕ)
      → IsAligned t
      → AllRows columns rows
      → length columns ≡ length t.columns
      → Aligned columns t.field_index (cleared t.row_dirty) rows
  counted t columns rows s all same =
      between_rows columns t.field_index t.row_dirty rows all
        (λ name i h. omega (arith, same, s.aligned.slots name i h))
        (omega (arith, same, s.aligned.words))

  -- When a row ends, every column has as many rows as the table, whatever the filter's verdict is.
  pub finish_row-IsAligned :
      (t : TableBuilder) (kept : Bool)
      → IsAligned t
      → IsAligned (finish_row H t kept)
        × AllRows (finish_row H t kept).columns (finish_row H t kept).row_count
  unfolding finish_row null_fill_missing
  finish_row-IsAligned t true s =
      let (all, same) = null_fill_missing-AllRows t s in
      (
        record {
          between = s.between;
          aligned = counted t (null_fill_missing H t).columns (t.row_count + 1) s all same;
        },
        all,
      )
  finish_row-IsAligned t false s =
      let (all, same) = null_fill_missing-AllRows t s in
      let less = AllRows-pop (null_fill_missing H t).columns t.row_count all in
      (
        record {
          between = s.between;
          aligned =
              counted t (map pop (null_fill_missing H t).columns) t.row_count s less
                (length-map pop (null_fill_missing H t).columns ∙ same);
        },
        less,
      )

  unfoldable pub run_events : TableBuilder → List Event → TableBuilder
  unfolding push_field put_field_at finish_row
  run_events t [] = t
  run_events t (field name v ∷ es) = run_events (push_field H t name v) es
  run_events t (field_at i v ∷ es) = run_events (put_field_at H t i v) es
  run_events t (ended kept ∷ es) = run_events (finish_row H t kept) es

  pub run_events-IsAligned :
      (t : TableBuilder) (es : List Event) → IsAligned t → IsAligned (run_events t es)
  unfolding run_events
  run_events-IsAligned t [] s = s
  run_events-IsAligned t (field name v ∷ es) s =
      run_events-IsAligned (push_field H t name v) es (push_field-IsAligned H t name v s)
  run_events-IsAligned t (field_at i v ∷ es) s =
      run_events-IsAligned (put_field_at H t i v) es (put_field_at-IsAligned H t i v s)
  run_events-IsAligned t (ended kept ∷ es) s =
      run_events-IsAligned (finish_row H t kept) es (finish_row-IsAligned t kept s).0

  -- For a table whose columns are aligned, whatever fields come and whatever the filter decides at
  -- the ends of the rows, in any order, the end of a row leaves every column with as many rows as
  -- the table.
  pub finish_row-run_events :
      (t : TableBuilder) (es : List Event) (kept : Bool)
      → IsAligned t
      → IsAligned (finish_row H (run_events t es) kept)
        × AllRows
            (finish_row H (run_events t es) kept).columns
            (finish_row H (run_events t es) kept).row_count
  finish_row-run_events t es kept s =
      finish_row-IsAligned (run_events t es) kept (run_events-IsAligned t es s)
