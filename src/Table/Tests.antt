-- ===== src/Table/Tests.antt =====
-- Tests of `TableBuilder`, and its theorems at a concrete table.
use rypipe.Prelude.{
  ◌≡◌, refl, true, false, none, some, List, [], ◌∷◌, bytes, arith, lookup, map, ◌%◌, ◌+◌, ℕ, ◌<◌,
  sym, ◌∙◌, Str, str_eq, eq_of_str_eq, Bool-cases, inl, inr, length, if◌then◌else◌,
}
use rypipe.Value.{Value}
use rypipe.Value.Sample.{sample}
use rypipe.Plan.{ExecutionPlan, column_type}
use rypipe.Columnar.Bits.{test_bit, test_bit-zero}
use rypipe.Columnar.Bitmap
use rypipe.Builder.{push_value, new}
use rypipe.Builder.{ColumnBuilder}
use rypipe.Prelude.{◌≤◌, ◌-◌, get_elem?}
use rypipe.Builder.Read.{len, mapped}
use rypipe.Builder.Read
use rypipe.Table.Take.{take_column}
use rypipe.Table.Taken.{IsIndexed, column_of, take_column-column_of}
use rypipe.Plan.{FieldType}
use rypipe.Table.{TableBuilder, is_dirty, push_field}
use rypipe.Table.Rows.{split_off, normalize, finish_row}
use rypipe.Table.Aligned.{IsAligned}
use rypipe.Table.Parts.{split_off-AllRows}
use rypipe.Table.Finished.{
  AllRows, Event, field, ended, run_events, run_events-IsAligned, finish_row-run_events,
  normalize-AllRows,
}

abbrev plan : ExecutionPlan
plan = record {
  field_map = [];
  drop_fields = [];
  field_types = [];
  dictionary_columns = bytes "b" ∷ [];
  filter = none;
  schema_order = [];
  auto_dict = false;
  dict_threshold = none;
  dict_max_size = none;
  strict_types = false;
  max_split_chunks = none;
  min_chunk_bytes = none;
}

abbrev fresh : TableBuilder
fresh = record {
  columns = [];
  field_index = [];
  column_order = [];
  row_count = 0;
  plan = plan;
  row_dirty = [];
  frozen = none;
  unknown_error = false;
  strict_error = none;
  direct = false;
  ordinal_expect = [];
  current_ordinal = 0;
  rows_accepted = 0;
  rows_rejected = 0;
}

nothing_dirty : (i : ℕ) → is_dirty [] i ≡ false
unfolding is_dirty
nothing_dirty i = test_bit-zero (i % 64)

fresh-IsAligned : IsAligned fresh
unfolding is_dirty test_bit lookup
fresh-IsAligned = record {
  between = refl;
  aligned = record {
    lens = λ i b h. let impossible : none ≡ some b = h in cc;
    clear = λ i h. nothing_dirty i;
    slots = λ name i h. let impossible : none ≡ some i = h in cc;
    words = omega arith;
  };
}

-- A row of two fields, and one field of a row that the filter rejects.
abbrev events : List Event
events =
    field (bytes "a") (Value.str (bytes "x"))
    ∷ field (bytes "b") (Value.str (bytes "y"))
    ∷ ended true
    ∷ field (bytes "b") (Value.str (bytes "z"))
    ∷ []

two_columns :
    map len (finish_row sample (run_events sample fresh events) false).columns ≡ 1 ∷ 1 ∷ []
unfolding run_events push_field finish_row lookup len Bitmap.push Bitmap.pop column_type push_value
    new
two_columns = refl

finish_row-run_events_example :
    IsAligned (finish_row sample (run_events sample fresh events) false)
    × AllRows
        (finish_row sample (run_events sample fresh events) false).columns
        (finish_row sample (run_events sample fresh events) false).row_count
finish_row-run_events_example = finish_row-run_events sample fresh events false fresh-IsAligned

normalize-AllRows_example :
    AllRows
      (normalize (run_events sample fresh events)).columns
      (normalize (run_events sample fresh events)).row_count
normalize-AllRows_example =
    normalize-AllRows (run_events sample fresh events)
      (run_events-IsAligned sample fresh events fresh-IsAligned)

-- The table after the first row, without the unfinished one.
abbrev one_row : TableBuilder
one_row = normalize (run_events sample fresh events)

rows_there : 1 ≤ one_row.row_count
unfolding run_events push_field finish_row lookup normalize
rows_there = omega arith

split_off-AllRows_example :
    (first : TableBuilder) × (others : TableBuilder) × (split_off one_row 1 ≡ some (first, others))
    × (first.row_count ≡ 1)
    × (others.row_count + 1 ≡ one_row.row_count)
    × AllRows first.columns 1
    × AllRows others.columns (one_row.row_count - 1)
    × ((i : ℕ) (c : ColumnBuilder)
        → get_elem? one_row.columns i ≡ some c
        → (get_elem? first.columns i ≡ some (Read.split_off c 1).0)
          × (get_elem? others.columns i ≡ some (Read.split_off c 1).1))
split_off-AllRows_example =
    split_off-AllRows one_row 1
      (normalize-AllRows (run_events sample fresh events)
        (run_events-IsAligned sample fresh events fresh-IsAligned))
      (omega arith) rows_there

no_rows : split_off one_row 0 ≡ none
unfolding split_off run_events push_field finish_row lookup normalize
no_rows = refl

-- `take_column` of the first of three columns.
abbrev three : TableBuilder
three = record fresh {
  columns = new FieldType.int64 ∷ new FieldType.string ∷ new FieldType.boolean ∷ [];
  field_index = (bytes "c", 2) ∷ (bytes "b", 1) ∷ (bytes "a", 0) ∷ [];
  row_dirty = 0 ∷ [];
}

by_letter :
    (name : Str) (i : ℕ) → lookup name three.field_index ≡ some i → (name ≡ (97 + i) ∷ []) × (i < 3)
unfolding lookup
by_letter name i h = elim (Bool-cases (str_eq (bytes "c") name)) [
  | inl c ↦
      let two : some 2 ≡ some i = rw c at h in
      let same : i ≡ 2 = cc in rw same (sym (eq_of_str_eq (bytes "c") name c), omega arith)
  | inr not_c ↦ elim (Bool-cases (str_eq (bytes "b") name)) [
    | inl b ↦
        let one : some 1 ≡ some i = rw (not_c, b) at h in
        let same : i ≡ 1 = cc in rw same (sym (eq_of_str_eq (bytes "b") name b), omega arith)
    | inr not_b ↦ elim (Bool-cases (str_eq (bytes "a") name)) [
      | inl a ↦
          let first : some 0 ≡ some i = rw (not_c, not_b, a) at h in
          let same : i ≡ 0 = cc in rw same (sym (eq_of_str_eq (bytes "a") name a), omega arith)
      | inr not_a ↦ let impossible : none ≡ some i = rw (not_c, not_b, not_a) at h in cc
    ]
  ]
]

three-IsIndexed : IsIndexed three
unfolding lookup
three-IsIndexed = record {
  distinct = (refl, (refl, (refl, tt)));
  slots = λ name i h. (by_letter name i h).1;
  one = λ a b i h g. (by_letter a i h).0 ∙ sym (by_letter b i g).0;
}

the_last_moves :
    mapped (λ r. r.1.field_index) (take_column three (bytes "a"))
    ≡ some ((bytes "c", 0) ∷ (bytes "b", 1) ∷ [])
unfolding take_column
the_last_moves = refl

first_column : column_of three (bytes "a") ≡ some (new FieldType.int64)
unfolding column_of
first_column = refl

take_column-column_of_example :
    (rest : TableBuilder) × (take_column three (bytes "a") ≡ some (new FieldType.int64, rest))
    × IsIndexed rest
    × (length rest.columns + 1 ≡ 3)
    × (rest.row_count ≡ 0)
    × ((other : Str)
        → column_of rest other ≡ (if str_eq (bytes "a") other then none else column_of three other))
take_column-column_of_example =
    take_column-column_of three (bytes "a") (new FieldType.int64) three-IsIndexed first_column
