-- ===== src/Table/Extend.antt =====
-- `TableBuilder::extend` (merge.rs): the rows of another table are appended column by column.
use rypipe.Prelude.{
  ℕ, ◌+◌, ◌||◌, Option, none, some, List, [], ◌∷◌, ◌++◌, Str, lookup, length, get_elem?, set, ltb,
  div_ceil, if◌then◌else◌, Result, ok, ◌>>=◌,
}
use rypipe.Value.{Host}
use rypipe.Plan.{ExecutionPlan, column_type}
use rypipe.Columnar.Flat.{is_some}
use rypipe.Builder.{ColumnBuilder, new}
use rypipe.Builder.Chunks.{merge_column}
use rypipe.Table.{TableBuilder, insert, push_nulls, schema_insert_index}
use rypipe.Table.Rows.{normalize}
use rypipe.Table.Take.{take_column}

-- The errors and the counts of the other table, which is normalized too.
unfoldable pub carried : TableBuilder → TableBuilder → TableBuilder
carried t other = record t {
  strict_error = elim t.strict_error [ none ↦ other.strict_error | some e ↦ some e ];
  unknown_error = t.unknown_error || other.unknown_error;
  rows_accepted = t.rows_accepted + other.rows_accepted;
  rows_rejected = t.rows_rejected + other.rows_rejected;
}

-- The column `i` of a table replaced.
abbrev pub with_at : TableBuilder → ℕ → ColumnBuilder → TableBuilder
with_at t i b = record t { columns = set t.columns i b }

module _ (H : Host) where
  -- A column that only the other table has, with nulls for the rows of this one.
  unfoldable pub adopt_column : TableBuilder → ExecutionPlan → Str → TableBuilder
  unfolding push_nulls column_type new schema_insert_index insert
  adopt_column t plan name =
      let builder = push_nulls H (new (column_type plan name)) t.row_count in
      let columns = t.columns ++ (builder ∷ []) in
      let words =
        if ltb (length t.row_dirty) (div_ceil (length columns) 64)
        then t.row_dirty ++ (0 ∷ [])
        else t.row_dirty in
      record t {
        columns = columns;
        field_index = (name, length t.columns) ∷ t.field_index;
        row_dirty = words;
        column_order = insert t.column_order (schema_insert_index t name) name;
      }

  unfoldable pub adopt : TableBuilder → ExecutionPlan → List Str → TableBuilder
  unfolding adopt_column lookup
  adopt t plan [] = t
  adopt t plan (name ∷ names) =
      adopt (if is_some (lookup name t.field_index) then t else adopt_column t plan name) plan names

  -- The column `b` of this table gets the rows of the other table's column, or nulls.
  unfoldable pub joined : ColumnBuilder → Option ColumnBuilder → ℕ → Result ColumnBuilder
  unfolding push_nulls
  joined b none rows = ok (push_nulls H b rows)
  joined b (some c) rows = merge_column H b c

  abbrev pub poured :
      TableBuilder
      → TableBuilder
      → ℕ
      → ColumnBuilder
      → Option (ColumnBuilder × TableBuilder)
      → Result (TableBuilder × TableBuilder)
  poured t other i b none = do c ← joined b none other.row_count; ok (with_at t i c, other)
  poured t other i b (some (taken, rest)) = do
    c ← joined b (some taken) other.row_count
    ok (with_at t i c, rest)

  -- Both tables after the step for a name. An index that no column has, at which the source
  -- panics, changes nothing here.
  unfoldable pub pour_column :
      TableBuilder → TableBuilder → Str → Result (TableBuilder × TableBuilder)
  unfolding take_column joined
  pour_column t other name = elim (lookup name t.field_index) [
    | none ↦ ok (t, other)
    | some i ↦ elim (get_elem? t.columns i) [
      | none ↦ ok (t, other)
      | some b ↦ poured t other i b (take_column other name)
    ]
  ]

  unfoldable pub pour :
      TableBuilder → TableBuilder → List Str → Result (TableBuilder × TableBuilder)
  unfolding pour_column
  pour t other [] = ok (t, other)
  pour t other (name ∷ names) = pour_column t other name >>= (λ p. pour p.0 p.1 names)

  unfoldable pub extend : TableBuilder → TableBuilder → Result TableBuilder
  unfolding normalize carried adopt pour
  extend t other =
      let o = normalize other in
      let all = adopt (carried (normalize t) o) o.plan o.column_order in
      pour all o all.column_order
      >>= (λ p. ok (record p.0 { row_count = t.row_count + other.row_count }))
