-- ===== src/Batch/Tests.antt =====
-- The batch filter on a table of one row, and its theorems there.
use rypipe.Prelude.{
  ◌≡◌, refl, true, false, none, some, List, [], ◌∷◌, Str, Option, bytes, lookup, pos, str_eq,
  str_cmp, member, Bool-cases, inl, inr, arith, if◌then◌else◌,
}
use rypipe.Value.{Value}
use rypipe.Decimal.Digits.{value}
use rypipe.Filter.Compare.{eval_compare_literal}
use rypipe.Value.Sample.{sample}
use rypipe.Plan.{ExecutionPlan, FieldType, FilterPredicate, gt, column_type, rename, resolve_field}
use rypipe.Filter.Row.{RowScope, slot_of, last_of, get_buffered_value, verdict, resolve_or, fail}
use rypipe.Filter.Eval.{eval_predicate_with_null}
use rypipe.Columnar.Bitmap
use rypipe.Builder.{new, push_str}
use rypipe.Builder.Read.{TypedValue, mapped, len, get_typed_value}
use rypipe.Builder.Rows.{text_bytes, entries}
use rypipe.Builder.Push.{new-HoldsRows, push_str-HoldsRows, cell}
use rypipe.Batch.{
  Columns, get_column, get_value, get_filter_view, compare_typed, typed_from_literal,
}
use rypipe.Batch.Check.{check, text_test, text_or_missing, typed_of, pred_ordinal}
use rypipe.Batch.Keeps.{keeps}
use rypipe.Batch.Cells.{AllHold, cell_of}
use rypipe.Batch.Agrees
use rypipe.Batch.Agrees.{check-keeps}
use rypipe.Batch.Verdicts.{eval_predicate_with_null-check}
use rypipe.Batch.Decimals.{decimal_literals}
use rypipe.Prelude.{◌≢◌, cmp, not}
use rypipe.Plan.{CompareOp}
use rypipe.Columnar.Bitmap.{empty}
use rypipe.Builder.Rows.{HoldsRows}

program : Unit {0}
unfolding new push_str text_bytes entries len cell lookup str_eq rename resolve_field member
    Bitmap.push Bitmap.is_valid get_column get_value check text_test text_or_missing typed_of
    pred_ordinal compare_typed typed_from_literal str_cmp cell_of get_buffered_value get_filter_view
    slot_of last_of
program = tt

abbrev plan : ExecutionPlan
plan = record {
  field_map = [];
  drop_fields = [];
  field_types = [];
  dictionary_columns = [];
  filter = none;
  schema_order = [];
  auto_dict = false;
  dict_threshold = none;
  dict_max_size = none;
  strict_types = false;
  max_split_chunks = none;
  min_chunk_bytes = none;
}

-- The field `a` has the text "x".
abbrev table : Columns
table = record {
  columns = push_str sample (new FieldType.string) (some (bytes "x")) ∷ [];
  field_index = (bytes "a", 0) ∷ [];
}

abbrev rows : List (List (Option TypedValue))
rows = (some (TypedValue.str (bytes "x")) ∷ []) ∷ []

abbrev scope : RowScope
scope = record {
  plan = plan;
  field_index = (bytes "a", 0) ∷ [];
  fields = (0, Value.str (bytes "x")) ∷ [];
}

-- `a == "x" and not (b > "m" or a == "y")`, with `b` missing.
abbrev filter : FilterPredicate
filter = FilterPredicate.and (FilterPredicate.equal (bytes "a") (bytes "x")) (
    FilterPredicate.not (
      FilterPredicate.or (FilterPredicate.compare_literal (bytes "b") gt (bytes "m"))
        (FilterPredicate.equal (bytes "a") (bytes "y"))))

table-AllHold : AllHold sample.is_utf8 table.columns rows
unfolding program
table-AllHold = (
  push_str-HoldsRows sample (new FieldType.string) (some (bytes "x")) []
      (new-HoldsRows sample.is_utf8 FieldType.string) (λ s e. refl) (omega arith) (omega arith),
  tt,
)

filter_keeps : check sample table 0 plan filter ≡ true
unfolding program
filter_keeps = refl

check-keeps_example :
    check sample table 0 plan filter
    ≡ keeps sample
        (cell_of table.field_index rows 0)
        (Agrees.column_type_at sample table rows 0 plan table-AllHold (λ t e. refl))
        plan
        filter
check-keeps_example = check-keeps sample table rows 0 plan table-AllHold (λ t e. refl) filter

-- The text of a field.
abbrev text_of : Str → Option Str
text_of name = if str_eq (bytes "a") name then some (bytes "x") else none

stored : (name : Str) → cell_of table.field_index rows 0 name ≡ mapped TypedValue.str (text_of name)
unfolding cell_of lookup
stored name = elim (Bool-cases (str_eq (bytes "a") name)) [
  | inl here ↦ rw here refl
  | inr other ↦ rw other refl
]

buffered : (f : Str) → get_buffered_value scope f ≡ mapped Value.str (text_of (rename plan f))
unfolding program
buffered f = elim (Bool-cases (str_eq (bytes "a") f)) [
  | inl here ↦ rw here refl
  | inr other ↦ rw other refl
]

eval_predicate_with_null-check_example :
    eval_predicate_with_null sample scope filter ≡ verdict (check sample table 0 plan filter)
eval_predicate_with_null-check_example =
    eval_predicate_with_null-check sample scope table rows 0 text_of filter (tt, (tt, tt))
      (record { types = refl; dictionaries = refl; drops = refl; order = refl }) (λ s e. refl)
      table-AllHold stored buffered

-- The field `a` is declared a decimal, and "10" is compared with "9".
abbrev decimal_plan : ExecutionPlan
decimal_plan = record plan { field_types = (bytes "a", FieldType.decimal128 0) ∷ [] }

abbrev decimal_table : Columns
decimal_table = record {
  columns = push_str sample (new (FieldType.decimal128 0)) (some (bytes "10")) ∷ [];
  field_index = (bytes "a", 0) ∷ [];
}

abbrev decimal_scope : RowScope
decimal_scope = record {
  plan = decimal_plan;
  field_index = (bytes "a", 0) ∷ [];
  fields = (0, Value.str (bytes "10")) ∷ [];
}

-- By bytes "10" is before "9", by value behind it.
other_order : str_cmp (bytes "10") (bytes "9") ≢ cmp (pos 10) (pos 9)
unfolding program cmp
other_order e = cc

no_decimals : HoldsRows sample.is_utf8 (new (FieldType.decimal128 0)) []
no_decimals = new-HoldsRows sample.is_utf8 (FieldType.decimal128 0)

decimal_literals_example :
    (op : CompareOp) × (eval_predicate_with_null sample decimal_scope
        (FilterPredicate.compare_literal (bytes "a") op (bytes "9"))
      ≡ verdict (
          not (
            check sample decimal_table 0 decimal_plan
              (FilterPredicate.compare_literal (bytes "a") op (bytes "9")))))
unfolding program column_type resolve_or value
decimal_literals_example =
    decimal_literals sample decimal_scope decimal_table (bytes "a") 0
      (record { items = []; validity = empty }) [] (bytes "10") (bytes "9") (pos 10) (pos 9) refl
      refl no_decimals refl refl refl other_order

verdicts_differ :
    (eval_predicate_with_null sample decimal_scope
        (FilterPredicate.compare_literal (bytes "a") gt (bytes "9"))
      ≡ fail)
    × (check sample decimal_table 0 decimal_plan
          (FilterPredicate.compare_literal (bytes "a") gt (bytes "9"))
        ≡ true)
unfolding program eval_predicate_with_null eval_compare_literal column_type resolve_or
    get_typed_value value
verdicts_differ = (refl, refl)
