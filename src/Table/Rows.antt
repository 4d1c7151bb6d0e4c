-- ===== src/Table/Rows.antt =====
-- `TableBuilder` of engine/table_builder.rs: the end of a row, partial rows, and the split of a
-- table. `kept` is the verdict that `filter.check` gives on the row, true if there is no filter.
use rypipe.Prelude.{
  ℕ, zero, suc, Bool, true, false, ◌+◌, ◌-◌, ◌*◌, ◌/◌, ◌%◌, ◌&&◌, List, [], ◌∷◌, Option, none, some,
  length, get_or, ltb, ◌==◌, if◌then◌else◌, map, div_ceil,
}
use rypipe.Value.{Host}
use rypipe.Builder.{ColumnBuilder, push_str}
use rypipe.Builder.Read.{len, pop}
use rypipe.Builder.Read
use rypipe.Table.{TableBuilder, is_dirty}

-- `(1 << n) - 1`, which is `u64::MAX` for 64.
unfoldable pub ones : ℕ → ℕ
ones zero = 0
ones (suc n) = 2 * ones n + 1

-- `(0..n).all(|w| row_dirty[w] == u64::MAX)`
unfoldable pub all_max : List ℕ → ℕ → Bool
unfolding ones
all_max dirty zero = true
all_max dirty (suc n) = let rest = all_max dirty n in rest && get_or dirty n 0 == ones 64

unfoldable pub is_full : List ℕ → ℕ → Bool
unfolding all_max
is_full dirty ncols =
    let full_words = ncols / 64 in
    let rem_bits = ncols % 64 in
    let last = get_or dirty full_words 0 == ones rem_bits in
    all_max dirty full_words && (if rem_bits == 0 then true else last)

-- `row_dirty.fill(0)`, and `vec![0; n]`
abbrev pub cleared : List ℕ → List ℕ
cleared dirty = map (λ w. 0) dirty

unfoldable pub no_bits : ℕ → List ℕ
no_bits zero = []
no_bits (suc n) = 0 ∷ no_bits n

-- `while b.len() > row_count { b.pop() }`, with fuel for the rows of the column.
unfoldable pub truncate : ℕ → ColumnBuilder → ℕ → ColumnBuilder
unfolding len pop
truncate zero b row_count = b
truncate (suc fuel) b row_count =
    let rest = truncate fuel (pop b) row_count in if ltb row_count (len b) then rest else b

unfoldable pub normalize : TableBuilder → TableBuilder
unfolding truncate
normalize t = record t {
  columns = map (λ b. truncate (len b) b t.row_count) t.columns;
  row_dirty = cleared t.row_dirty;
}

unfoldable pub split_columns : List ColumnBuilder → ℕ → List ColumnBuilder × List ColumnBuilder
unfolding Read.split_off
split_columns [] n = ([], [])
split_columns (c ∷ cs) n =
    let (a, b) = Read.split_off c n in
    let (firsts, rests) = split_columns cs n in (a ∷ firsts, b ∷ rests)

-- The first `n` rows, and what is left.
unfoldable pub parts_at : TableBuilder → ℕ → TableBuilder × TableBuilder
unfolding split_columns no_bits
parts_at t n =
    let (drained, rest) = split_columns t.columns n in
    let words = no_bits (div_ceil (length t.columns) 64) in
    (
      record t {
        columns = drained;
        row_count = n;
        row_dirty = words;
        unknown_error = false;
        strict_error = none;
        direct = false;
        ordinal_expect = [];
        current_ordinal = 0;
      },
      record t {
        columns = rest;
        row_count = t.row_count - n;
        row_dirty = words;
        rows_accepted = 0;
        rows_rejected = 0;
      },
    )

-- The source asserts that the table has `n` rows, and that `n` is not 0. Where an assertion fails it
-- panics, which is nothing here.
unfoldable pub split_off : TableBuilder → ℕ → Option (TableBuilder × TableBuilder)
unfolding parts_at
split_off t n = if ltb t.row_count n then none else if n == 0 then none else some (parts_at t n)

module _ (H : Host) where
  -- A null for each column from `i` on without a value.
  unfoldable pub fill_from : List ℕ → ℕ → List ColumnBuilder → List ColumnBuilder
  unfolding is_dirty push_str
  fill_from dirty i [] = []
  fill_from dirty i (b ∷ bs) =
      (if is_dirty dirty i then b else push_str H b none) ∷ fill_from dirty (i + 1) bs

  -- `null_fill_missing`, and the first half of `finish_row`.
  unfoldable pub null_fill_missing : TableBuilder → TableBuilder
  unfolding is_full fill_from
  null_fill_missing t = record t {
    columns =
        if is_full t.row_dirty (length t.columns)
        then t.columns
        else fill_from t.row_dirty 0 t.columns;
    row_dirty = cleared t.row_dirty;
  }

  unfoldable pub finish_row : TableBuilder → (kept : Bool) → TableBuilder
  unfolding null_fill_missing
  finish_row t kept =
      let filled = null_fill_missing t in
      if kept
      then record filled {
        row_count = filled.row_count + 1;
        rows_accepted = filled.rows_accepted + 1;
      }
      else record filled {
        columns = map pop filled.columns;
        rows_rejected = filled.rows_rejected + 1;
      }
