-- ===== src/Filter/Tests.antt =====
-- Tests of the filter, and its theorems at concrete rows.
use rypipe.Prelude.{ℕ, none, Bool, true, false, [], ◌∷◌, bytes, str_eq, lookup, member, ◌≡◌, refl}
use rypipe.Value.{str}
use rypipe.Value.Sample.{sample}
use rypipe.Plan.{FieldType, ExecutionPlan, FilterPredicate, eq, resolve_field, column_type}
use rypipe.Filter.Row.{
  undecided, fail, RowScope, get_buffered_value, get_buffered_str, resolve_or, last_of, slot_of,
  as_text,
}
use rypipe.Filter.Compare.{eval_compare}
use rypipe.Filter.Eval.{eval_predicate, eval_predicate_with_null}
use rypipe.Filter.Settle.{Settles}
use rypipe.Filter.AtEnd.{at_end-Settles}
use rypipe.Filter.Buffer.{Arrival, receive, receive_all, is_pass, read_row}
use rypipe.Filter.Accept.{early-Settles, accept_row}
use rypipe.Filter.Absence.{equal_and_not_in, not_in_accepts_early, declared_text_fails}

abbrev plan : ExecutionPlan
plan = record {
  field_map = [];
  drop_fields = [];
  field_types = (bytes "a", FieldType.string) ∷ (bytes "b", FieldType.string) ∷ [];
  dictionary_columns = [];
  filter = none;
  schema_order = [];
  auto_dict = false;
  dict_threshold = none;
  dict_max_size = none;
  strict_types = false;
  max_split_chunks = none;
  min_chunk_bytes = none;
}

abbrev empty_row : RowScope
empty_row = record { plan = plan; field_index = []; fields = [] }

abbrev field_a : Arrival
field_a = record { columns = (bytes "a", 0) ∷ []; slot = 0; value = str (bytes "x") }

abbrev field_b : Arrival
field_b = record { columns = (bytes "b", 1) ∷ []; slot = 1; value = str (bytes "y") }

abbrev a_is_x : FilterPredicate
a_is_x = FilterPredicate.equal (bytes "a") (bytes "x")

abbrev every_slot : ℕ → Bool
every_slot slot = true

at_end-Settles_example :
    Settles
      (eval_predicate sample (receive empty_row field_a) a_is_x)
      (eval_predicate_with_null sample (receive empty_row field_a) a_is_x)
at_end-Settles_example = at_end-Settles sample (receive empty_row field_a) a_is_x

early-Settles_example : Settles (eval_predicate sample (receive empty_row field_a) a_is_x) (
    eval_predicate_with_null sample (receive_all (receive empty_row field_a) (field_b ∷ [])) a_is_x)
unfolding receive last_of
early-Settles_example =
    early-Settles sample a_is_x tt (receive empty_row field_a) (field_b ∷ []) (refl, tt)

accept_row_example :
    read_row sample every_slot true true a_is_x empty_row undecided (field_a ∷ field_b ∷ [])
    ≡ is_pass
        (eval_predicate_with_null sample (receive_all empty_row (field_a ∷ field_b ∷ [])) a_is_x)
unfolding receive last_of
accept_row_example =
    accept_row sample a_is_x tt every_slot true true empty_row undecided (field_a ∷ field_b ∷ [])
      (refl, (refl, tt)) tt

row_accepted :
    read_row sample every_slot true true a_is_x empty_row undecided (field_a ∷ field_b ∷ []) ≡ true
unfolding read_row eval_predicate get_buffered_str get_buffered_value slot_of resolve_field last_of
    as_text column_type
row_accepted = refl

not_in_accepts_early_example :
    let p = equal_and_not_in (bytes "a") (bytes "x") (bytes "b") (bytes "y" ∷ []) in
    let row = field_a ∷ field_b ∷ [] in
    (read_row sample every_slot true true p empty_row undecided row ≡ true)
    × (eval_predicate_with_null sample (receive_all empty_row row) p ≡ fail)
unfolding receive get_buffered_str get_buffered_value slot_of as_text last_of resolve_field lookup
    column_type member str_eq
not_in_accepts_early_example =
    not_in_accepts_early sample every_slot empty_row field_a field_b (bytes "a") (bytes "x")
      (bytes "b") (bytes "y") (bytes "y" ∷ []) refl refl refl refl refl

declared_text_fails_example :
    eval_compare sample (receive (receive empty_row field_a) field_b) (bytes "a") eq (bytes "b")
    ≡ fail
unfolding receive get_buffered_value slot_of last_of resolve_field lookup str_eq resolve_or
declared_text_fails_example =
    declared_text_fails sample (receive (receive empty_row field_a) field_b) (bytes "a") (bytes "b")
      eq (bytes "x") (bytes "y") refl refl refl refl
