-- ===== src/Filter/Absence.antt =====
-- Where an early decision is wrong: leaves that decide on a missing field (`In`, `NotIn`,
-- `NotField`, `IsNull`), and texts in columns that are declared as text.
use rypipe.Prelude.{
  ℕ, none, some, Bool, true, List, [], ◌∷◌, Str, str_eq_refl, member, lookup, ◌≡◌, refl, arith,
}
use rypipe.Value.{Host, str}
use rypipe.Plan.{FieldType, ExecutionPlan, FilterPredicate, CompareOp, column_type}
use rypipe.Filter.Row.{
  PredicateState, undecided, fail, RowScope, get_buffered_value, get_buffered_str, resolve_or,
}
use rypipe.Filter.Compare.{eval_compare}
use rypipe.Filter.Eval.{and_state, eval_predicate, eval_predicate_with_null}
use rypipe.Filter.Buffer.{Arrival, receive, receive_all, read_row}

and_state-fail : (s : PredicateState) → and_state s fail ≡ fail
unfolding and_state
and_state-fail s = ground arith

-- `a == x and b not in values`
abbrev pub equal_and_not_in : Str → Str → Str → List Str → FilterPredicate
equal_and_not_in a x b values =
    FilterPredicate.and (FilterPredicate.equal a x) (FilterPredicate.not_in b values)

-- For a predicate slot, a first field with the wanted value, and a second field with an excluded
-- value that has not come yet at the first, the row of the two is accepted by the buffered path of
-- a plan that neither renames, drops nor projects fields, while the filter `a == x and b not in
-- values` fails the whole row.
pub not_in_accepts_early :
    (h : Host) (mask : ℕ → Bool) (r : RowScope) (first second : Arrival) (a x b y : Str)
    (values : List Str)
    → mask first.slot ≡ true
    → get_buffered_str h (receive r first) a ≡ some x
    → get_buffered_str h (receive r first) b ≡ none
    → get_buffered_str h (receive (receive r first) second) b ≡ some y
    → member y values ≡ true
    → let p = equal_and_not_in a x b values in
      let row = first ∷ second ∷ [] in
      (read_row h mask true true p r undecided row ≡ true)
      × (eval_predicate_with_null h (receive_all r row) p ≡ fail)
unfolding read_row receive_all eval_predicate eval_predicate_with_null
not_in_accepts_early h mask r first second a x b y values m ha hb hy mem =
    (rw (m, ha, hb, str_eq_refl x) refl, rw (hy, mem) (and_state-fail _))

column_type-declared :
    (plan : ExecutionPlan) (name : Str) {ft : FieldType}
    → lookup name plan.field_types ≡ some ft
    → column_type plan name ≡ ft
unfolding column_type
column_type-declared plan name e = rw (e, column_type) refl

-- A comparison of two columns that the plan declares as text fails, whatever the operator and the
-- two texts, once both are in the buffer as texts.
pub declared_text_fails :
    (h : Host) (r : RowScope) (fa fb : Str) (op : CompareOp) (x y : Str)
    → lookup (resolve_or r.plan fa) r.plan.field_types ≡ some FieldType.string
    → lookup (resolve_or r.plan fb) r.plan.field_types ≡ some FieldType.string
    → get_buffered_value r fa ≡ some (str x)
    → get_buffered_value r fb ≡ some (str y)
    → eval_compare h r fa op fb ≡ fail
unfolding eval_compare
declared_text_fails h r fa fb op x y da db va vb =
    let ta = column_type-declared r.plan (resolve_or r.plan fa) da in
    let tb = column_type-declared r.plan (resolve_or r.plan fb) db in
    rw (ta, tb, da, db, va, vb) refl
