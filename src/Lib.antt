-- ===== src/Lib.antt =====
-- Verification library of the rypipe core engine, the Rust crate crates/rypipe-core.
--
-- rypipe turns byte inputs into columnar batches. A splitter cuts the input into chunks at record
-- starts; workers parse the chunks and hand each row, field by field, to a table builder, which
-- tests the plan's filter as soon as it can and keeps the accepted rows in flat columns; a
-- coordinator delivers the batches of the chunks in order. A budget bounds what is held at once. A
-- second entry feeds bytes to an incremental parser as they come.
--
-- The parts, the files here, and the code (paths below crates/rypipe-core/src):
--   * Prelude: lists, machine words, texts as bytes, ℤ, the error type (error.rs).
--   * Budget (budget.rs, and `MemoryBudget` of bounded.rs): Budget.Partition is `BudgetPartition`
--     with `serial` and `parallel`; Budget.Ledger is `BudgetLedger`, one function per method.
--   * Value (value.rs) with `Host`, the operations of other crates, of floats and of Unicode tables
--     that the engine calls; Decimal (columnar/scalar_parse.rs, `compare_decimal128`).
--   * Plan (plan.rs, the data types of plan/predicate.rs): `ExecutionPlan` and its queries.
--   * Filter (engine/table_builder/predicates.rs, engine/predicate.rs): Filter.Row reads the row
--     buffer, Filter.Leaf and Filter.Compare are the leaves of `eval_predicate`, Filter.Eval is
--     `eval_predicate` and `eval_predicate_with_null`; Filter.Buffer is the buffered path of
--     `resolve_and_put`, `row_rejected` and `end_row` (engine/table_builder.rs).
--   * Batch (plan/predicate.rs, `is_type_at` of columnar.rs): `FilterPredicate::check`, which tests a
--     row of columns; what a verdict means on the values of a row is in Batch.Keeps.
--   * Columnar (columnar.rs): Columnar.Bitmap is `ValidityBitmap` on bytes, Columnar.Nullable
--     `NullableColumn`, Columnar.Primitive `PrimColumn`, Columnar.Texts `StrColumn`; their abstract
--     views are lists, in Contents, Cells and TextRows. Columnar.Dict is the dictionary of a
--     dictionary column, whose abstract view is the list of its words (Words, Coded).
--   * Builder (columnar.rs): `ColumnBuilder`, with the pushes in Builder, the reads in Builder.Read,
--     promotion and merging in Builder.Merge, the merge of a column of two chunks (merge.rs) in
--     Builder.Chunks; its abstract view is a list of typed values, in Builder.Rows.
--   * Table (engine/table_builder.rs): `TableBuilder` where fields go straight to the columns; the
--     end of a row and the split of a table are in Table.Rows; `extend` (merge.rs), which appends
--     another table, is in Table.Extend, with the removal of a column in Table.Take.
--   * Masks (block_masks.rs): `BlockMasks`, the search for delimiters by 64-bit masks; a mask is the
--     function of its bits (Masks.Bits), `next_unquoted` is in Masks.Quotes, and the scans byte by
--     byte that it is compared with are in Masks.Scan and Masks.Quoted.
--   * Unify (dict.rs): `unify_dictionaries`, with the seed that parallel.rs makes of a first chunk.
--   * Split (decoder.rs): Split.Points is `default_find_split_points` and `split_points_to_ranges`,
--     with the bounds of the count in Split.Counts; Split.Regions describes the skip regions suffix
--     by suffix. Split.Boundaries is `is_continued_newline` and `find_next_record_boundary`, and
--     Split.Boundaries.Lines the reading by lines that it is compared with.
--   * Stream (parallel_stream.rs): the coordinator loop of `run_bytes_stream_core`.
--   * Feed (streaming_parser.rs): `RecordStream`, with the parser as a parameter.
--
-- Conventions. A text is the list of its UTF-8 bytes. A `usize` is a natural number with the
-- wrap-around of 64 bits written out where the code can reach it; an `i32` offset is its 32-bit
-- pattern. An index out of range, where the code panics, reads a default or gives nothing, as a
-- failed assertion does; the theorems are about states in which no index is. A float is its bit
-- pattern, with the operations of `Host`.
--
-- Fuel. `find_next_record_boundary` gets a round for each byte and one more: each round starts behind
-- the newline that the last one found. The search for skip regions gets as many for each opener.
-- The loop of `normalize` gets a round for each row of the column, which each round pops. The
-- coordinator's drain gets a round for each pending batch, which each round removes. The searches by
-- masks get a round for each byte, and each moves on by a block of 64; the walk over the quotes of a
-- block gets 66, one for each bit and one more.
--
-- Not modelled: reading and decompressing files, threads and channels (an interleaving of the
-- workers is the order of their messages), the Arrow export, instrumentation, the
-- other SIMD scanners, the Python bindings; and so far the unified schema of several tables, schema
-- discovery, and the spilling sink. The verdict of the batch filter is an input of `finish_row`. In
-- the buffered path the memory reservation, the check of a frozen schema and the switch to direct
-- pushes for late predicates are left out.
-- The memory that vectors reserve is not counted.
mod Prelude
pub mod Budget
pub mod Builder
pub mod Value
pub mod Decimal
pub mod Plan
pub mod Filter
pub mod Columnar
pub mod Split
pub mod Stream
pub mod Table
pub mod Unify
pub mod Feed
pub mod Masks
pub mod Batch
