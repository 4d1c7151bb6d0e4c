-- ===== src/Table/Extended.antt =====
-- `TableBuilder::extend` (merge.rs): what becomes of every column of the two tables.
use rypipe.Prelude.{arith}
use rypipe.Value.{Host}
use rypipe.Columnar.Cells.{length-map}
use rypipe.Table.{TableBuilder}
use rypipe.Table.Rows.{normalize, truncate}
use rypipe.Builder.Read.{len}
use rypipe.Table.Taken.{IsIndexed}
use rypipe.Table.Extend.{carried, adopt}

pub normalize-IsIndexed : (t : TableBuilder) → IsIndexed t → IsIndexed (normalize t)
unfolding normalize
normalize-IsIndexed t s = record {
  distinct = s.distinct;
  slots = λ name i h.
      omega (arith, s.slots name i h, length-map (λ b. truncate (len b) b t.row_count) t.columns);
  one = s.one;
}

module _ (H : Host) (t other : TableBuilder) where
  abbrev start : TableBuilder
  start = carried (normalize t) (normalize other)

  abbrev all : TableBuilder
  all = adopt H start (normalize other).plan (normalize other).column_order
