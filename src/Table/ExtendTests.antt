-- ===== src/Table/ExtendTests.antt =====
-- Tests of `TableBuilder::extend`, and its theorem at two concrete tables.
use rypipe.Prelude.{◌≡◌, refl, false, none, [], ◌∷◌, Str, bytes, lookup, str_eq, ok, err, pos, map}
use rypipe.Value.{Value}
use rypipe.Value.Sample.{sample}
use rypipe.Plan.{FieldType, ExecutionPlan, column_type}
use rypipe.Builder.{ColumnBuilder, new, push_value, push_str}
use rypipe.Builder.Read.{len}
use rypipe.Builder.Chunks.{merge_column}
use rypipe.Columnar.Bitmap
use rypipe.Columnar.Primitive
use rypipe.Columnar.Texts
use rypipe.Table.{TableBuilder, push_nulls, insert}
use rypipe.Prelude.{member}
use rypipe.Builder.{push_int}
use rypipe.Builder.Merge.{variant_key, unify_variants, extend_owned}
use rypipe.Table.{padded, schema_insert_index}
use rypipe.Table.Take.{take_column, without_column, swap_remove, repointed, remove_name, name_at}
use rypipe.Table.Extend.{pour, pour_column, adopt, adopt_column, carried}
use rypipe.Table.Rows.{normalize, truncate}
use rypipe.Table.Extend.{extend, joined}

abbrev plan : ExecutionPlan
plan = record {
  field_map = [];
  drop_fields = [];
  field_types = [];
  dictionary_columns = [];
  filter = none;
  schema_order = [];
  auto_dict = false;
  dict_threshold = none;
  dict_max_size = none;
  strict_types = false;
  max_split_chunks = none;
  min_chunk_bytes = none;
}

-- A table of one row with two columns.
abbrev table : Str → Str → ColumnBuilder → ColumnBuilder → TableBuilder
table x y c d = record {
  columns = c ∷ d ∷ [];
  field_index = (y, 1) ∷ (x, 0) ∷ [];
  column_order = x ∷ y ∷ [];
  row_count = 1;
  plan = plan;
  row_dirty = 0 ∷ [];
  frozen = none;
  unknown_error = false;
  strict_error = none;
  direct = false;
  ordinal_expect = [];
  current_ordinal = 0;
  rows_accepted = 1;
  rows_rejected = 0;
}

abbrev numbers : ColumnBuilder
numbers = push_value sample (new FieldType.int64) (Value.int64 (pos 7))

abbrev letters : ColumnBuilder
letters = push_value sample (new FieldType.string) (Value.str (bytes "x"))

abbrev first : TableBuilder
first = table (bytes "a") (bytes "b") numbers letters

abbrev second : TableBuilder
second = table (bytes "d") (bytes "a") letters numbers

abbrev merged : TableBuilder
merged = elim (extend sample first second) [ ok r ↦ r | err e ↦ first ]

program : Unit {0}
unfolding extend pour pour_column joined merge_column variant_key unify_variants extend_owned
    truncate len push_value push_str push_int push_nulls new column_type insert schema_insert_index
    adopt adopt_column carried normalize take_column without_column swap_remove repointed
    remove_name name_at lookup str_eq member Primitive.append Primitive.push Texts.append Texts.push
    Bitmap.push Bitmap.append padded
program = tt

lengths : map len merged.columns ≡ 2 ∷ 2 ∷ 2 ∷ []
unfolding program
lengths = refl

order : merged.column_order ≡ bytes "a" ∷ bytes "b" ∷ bytes "d" ∷ []
unfolding program
order = refl

-- The column of nulls that the first table gets for `d`.
abbrev no_letters : ColumnBuilder
no_letters = push_nulls sample (new (column_type plan (bytes "d"))) 1
