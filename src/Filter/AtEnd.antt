-- ===== src/Filter/AtEnd.antt =====
-- The verdict of `eval_predicate_with_null` at the end of a row.
use rypipe.Prelude.{Option, none, some, Bool, not, Str, str_eq, ◌≢◌, refl, arith}
use rypipe.Value.{Host}
use rypipe.Plan.{FilterPredicate}
use rypipe.Filter.Row.{PredicateState, undecided, pass, fail, RowScope, get_buffered_str, verdict}
use rypipe.Filter.Leaf.{waiting, deciding}
use rypipe.Filter.Eval.{
  and_state, or_state, not_state, or_final, not_final, settled, eval_predicate,
  eval_predicate_with_null,
}
use rypipe.Filter.Settle.{
  Settles, Settles-refl, Settles-trans, and-Settles, or-Settles, not-Settles,
}

settled-ne-undecided : (s : PredicateState) → settled s ≢ undecided
unfolding settled
settled-ne-undecided s = ground arith

deciding_fail-ne-undecided : (o : Option Str) (t : Str → Bool) → deciding fail o t ≢ undecided
deciding_fail-ne-undecided o t = ground arith

deciding_pass-ne-undecided : (o : Option Str) (t : Str → Bool) → deciding pass o t ≢ undecided
deciding_pass-ne-undecided o t = ground arith

verdict-ne-undecided : (b : Bool) → verdict b ≢ undecided
verdict-ne-undecided b = ground arith

and_state-ne-undecided :
    (a b : PredicateState) → a ≢ undecided → b ≢ undecided → and_state a b ≢ undecided
unfolding and_state
and_state-ne-undecided a b h k = ground arith

or_final-ne-undecided : (a b : PredicateState) → or_final a b ≢ undecided
unfolding or_final
or_final-ne-undecided a b = ground arith

not_final-ne-undecided : (a : PredicateState) → not_final a ≢ undecided
unfolding not_final
not_final-ne-undecided a = ground arith

module _ (h : Host) (r : RowScope) where
  -- At the end of a row the filter is decided, whatever fields are missing.
  pub at_end_decided : (p : FilterPredicate) → eval_predicate_with_null h r p ≢ undecided
  unfolding eval_predicate_with_null
  at_end_decided (FilterPredicate.equal f v) =
      deciding_fail-ne-undecided (get_buffered_str h r f) (λ s. str_eq s v)
  at_end_decided (FilterPredicate.not_equal f v) =
      deciding_pass-ne-undecided (get_buffered_str h r f) (λ s. not (str_eq s v))
  at_end_decided (FilterPredicate.always keep) = verdict-ne-undecided keep
  at_end_decided (FilterPredicate.and a b) =
      and_state-ne-undecided _ _ (at_end_decided a) (at_end_decided b)
  at_end_decided (FilterPredicate.or a b) = or_final-ne-undecided _ _
  at_end_decided (FilterPredicate.not a) = not_final-ne-undecided _
  at_end_decided p = settled-ne-undecided _

waiting-fail : (o : Option Str) (t : Str → Bool) → Settles (waiting o t) (deciding fail o t)
waiting-fail none t = tt
waiting-fail (some s) t = Settles-refl (verdict (t s))

waiting-pass : (o : Option Str) (t : Str → Bool) → Settles (waiting o t) (deciding pass o t)
waiting-pass none t = tt
waiting-pass (some s) t = Settles-refl (verdict (t s))

settled-Settles : (s : PredicateState) → Settles s (settled s)
unfolding settled
settled-Settles undecided = tt
settled-Settles pass = refl
settled-Settles fail = refl

or_final-Settles : (a b : PredicateState) → Settles (or_state a b) (or_final a b)
unfolding or_state or_final
or_final-Settles undecided undecided = tt
or_final-Settles undecided pass = refl
or_final-Settles undecided fail = tt
or_final-Settles pass b = refl
or_final-Settles fail undecided = tt
or_final-Settles fail pass = refl
or_final-Settles fail fail = refl

not_final-Settles : (a : PredicateState) → Settles (not_state a) (not_final a)
unfolding not_state not_final
not_final-Settles undecided = tt
not_final-Settles pass = refl
not_final-Settles fail = refl

module _ (h : Host) (r : RowScope) where
  -- What the filter decides on the fields of a row is also its verdict once the missing fields
  -- count as null.
  pub at_end-Settles :
      (p : FilterPredicate) → Settles (eval_predicate h r p) (eval_predicate_with_null h r p)
  unfolding eval_predicate_with_null
  at_end-Settles (FilterPredicate.equal f v) =
      waiting-fail (get_buffered_str h r f) (λ s. str_eq s v)
  at_end-Settles (FilterPredicate.not_equal f v) =
      waiting-pass (get_buffered_str h r f) (λ s. not (str_eq s v))
  at_end-Settles (FilterPredicate.always keep) = Settles-refl _
  at_end-Settles (FilterPredicate.and a b) =
      and-Settles _ _ _ _ (at_end-Settles a) (at_end-Settles b)
  at_end-Settles (FilterPredicate.or a b) =
      Settles-trans _ _ _ (or-Settles _ _ _ _ (at_end-Settles a) (at_end-Settles b))
        (or_final-Settles (eval_predicate_with_null h r a) (eval_predicate_with_null h r b))
  at_end-Settles (FilterPredicate.not a) =
      Settles-trans _ _ _ (not-Settles _ _ (at_end-Settles a)) (not_final-Settles _)
  at_end-Settles p = settled-Settles _
