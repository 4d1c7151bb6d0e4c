-- ===== src/Filter/Buffer.antt =====
-- The buffered path of one row: `put_field` or `resolve_and_put` buffers each field and evaluates the
-- filter at a predicate's field, `row_rejected` lets the adapter skip the rest, and `end_row` decides
-- (engine/table_builder.rs). The memory reservation, the check of a frozen schema and the switch to
-- direct pushes for late predicates are left out.
use rypipe.Prelude.{ℕ, Bool, true, false, ◌&&◌, List, [], ◌∷◌, ◌++◌, Str, ◌==◌, if◌then◌else◌}
use rypipe.Value.{Host, Value}
use rypipe.Plan.{FilterPredicate}
use rypipe.Filter.Row.{PredicateState, undecided, pass, fail, RowScope}
use rypipe.Filter.Eval.{eval_predicate, eval_predicate_with_null}

-- A field that arrives: its slot and value, with the columns that it adds to `field_index`.
pub record Arrival : Type 0 where
  pub columns : List (Str × ℕ)
  pub slot : ℕ
  pub value : Value

-- Replace the buffered value of the slot, or push one.
unfoldable pub buffer : ℕ → Value → List (ℕ × Value) → List (ℕ × Value)
buffer slot v [] = (slot, v) ∷ []
buffer slot v ((s, w) ∷ rest) = if s == slot then (s, v) ∷ rest else (s, w) ∷ buffer slot v rest

unfoldable pub receive : RowScope → Arrival → RowScope
unfolding buffer
receive r a = record r {
  field_index = r.field_index ++ a.columns;
  fields = buffer a.slot a.value r.fields;
}

-- Every field of the row in the buffer, as if nothing were decided early.
unfoldable pub receive_all : RowScope → List Arrival → RowScope
receive_all r [] = r
receive_all r (a ∷ rest) = receive_all (receive r a) rest

abbrev pub is_pass : PredicateState → Bool
is_pass pass = true
is_pass _ = false

abbrev pub is_fail : PredicateState → Bool
is_fail fail = true
is_fail _ = false

-- `end_row` outside of direct mode: an undecided filter takes the missing fields as null.
unfoldable pub end_row : Host → FilterPredicate → RowScope → PredicateState → Bool
end_row h p r undecided = is_pass (eval_predicate_with_null h r p)
end_row h p r s = is_pass s

-- The rest of a row from a buffer and the state of its filter, to whether the row is accepted.
-- `skips` is whether the adapter stops at `row_rejected`, `predicate_slot` the engine's mask, and
-- `drains` whether the plan neither renames, drops nor projects fields. Then the row is drained and
-- accepted once the filter passes, and what follows is pushed directly; under other plans, and in
-- `put_field`, the state is kept, and each further field of the filter evaluates it again.
unfoldable pub read_row :
    Host
    → (predicate_slot : ℕ → Bool) → (drains skips : Bool) → FilterPredicate
    → RowScope
    → PredicateState
    → List Arrival
    → Bool
unfolding receive end_row
read_row h predicate_slot drains skips p r state [] = end_row h p r state
read_row h predicate_slot drains skips p r state (a ∷ rest) =
    let r' = receive r a in
    let state' = if predicate_slot a.slot then eval_predicate h r' p else state in
    let continued = read_row h predicate_slot drains skips p r' state' rest in
    if skips && is_fail state
    then end_row h p r state
    else if predicate_slot a.slot && (drains && is_pass state')
    then true
    else continued
