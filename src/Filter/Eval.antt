-- ===== src/Filter/Eval.antt =====
-- `eval_predicate` and `eval_predicate_with_null` of engine/table_builder/predicates.rs: the state
-- of the whole filter while the row is being read, and its verdict at the end of the row.
use rypipe.Prelude.{
  Bool, true, false, not, [], ◌∷◌, Str, str_eq, starts_with, ends_with, contains, member,
}
use rypipe.Value.{Host}
use rypipe.Plan.{FilterPredicate}
use rypipe.Filter.Row.{PredicateState, undecided, pass, fail, RowScope, get_buffered_str, verdict}
use rypipe.Filter.Leaf.{
  waiting, deciding, arithmetic_holds, trimmed, text_holds, length_holds, eval_is_type,
}
use rypipe.Filter.Compare.{eval_compare, eval_compare_literal}

abbrev is_empty : Str → Bool
is_empty [] = true
is_empty (c ∷ s) = false

-- The tables of `And`, `Or` and `Not`.
unfoldable pub and_state : PredicateState → PredicateState → PredicateState
and_state fail _ = fail
and_state pass s = s
and_state undecided fail = fail
and_state undecided _ = undecided

unfoldable pub or_state : PredicateState → PredicateState → PredicateState
or_state pass _ = pass
or_state fail s = s
or_state undecided pass = pass
or_state undecided _ = undecided

unfoldable pub not_state : PredicateState → PredicateState
not_state pass = fail
not_state fail = pass
not_state undecided = undecided

-- A leaf that is still undecided fails.
unfoldable pub settled : PredicateState → PredicateState
settled undecided = fail
settled s = s

-- The tables at the end of the row, where `undecided` is not expected.
unfoldable pub or_final : PredicateState → PredicateState → PredicateState
or_final pass _ = pass
or_final _ pass = pass
or_final _ _ = fail

unfoldable pub not_final : PredicateState → PredicateState
not_final fail = pass
not_final _ = fail

module _ (h : Host) (r : RowScope) where
  unfoldable pub eval_predicate : FilterPredicate → PredicateState
  unfolding and_state or_state not_state
  eval_predicate (FilterPredicate.equal f v) = waiting (get_buffered_str h r f) (λ s. str_eq s v)
  eval_predicate (FilterPredicate.not_equal f v) =
      waiting (get_buffered_str h r f) (λ s. not (str_eq s v))
  eval_predicate (FilterPredicate.compare fa op fb) = eval_compare h r fa op fb
  eval_predicate (FilterPredicate.compare_literal f op v) = eval_compare_literal h r f op v
  eval_predicate (FilterPredicate.starts_with f v) =
      waiting (get_buffered_str h r f) (λ s. starts_with s v)
  eval_predicate (FilterPredicate.ends_with f v) =
      waiting (get_buffered_str h r f) (λ s. ends_with s v)
  eval_predicate (FilterPredicate.in_set f vs) =
      deciding fail (get_buffered_str h r f) (λ s. member s vs)
  eval_predicate (FilterPredicate.not_in f vs) =
      deciding pass (get_buffered_str h r f) (λ s. not (member s vs))
  eval_predicate (FilterPredicate.always keep) = verdict keep
  eval_predicate (FilterPredicate.not_field f) =
      deciding pass (get_buffered_str h r f) (λ s. is_empty s)
  eval_predicate (FilterPredicate.arithmetic_compare f op x cmp_op v) =
      waiting (get_buffered_str h r f) (λ s. arithmetic_holds h op x cmp_op v s)
  eval_predicate (FilterPredicate.strip f op v mode) =
      waiting (get_buffered_str h r f) (λ s. text_holds h op v (trimmed h mode s))
  eval_predicate (FilterPredicate.lower f op v) =
      waiting (get_buffered_str h r f) (λ s. text_holds h op v (h.to_lowercase s))
  eval_predicate (FilterPredicate.upper f op v) =
      waiting (get_buffered_str h r f) (λ s. text_holds h op v (h.to_uppercase s))
  eval_predicate (FilterPredicate.replace f old new op v) =
      waiting (get_buffered_str h r f) (λ s. text_holds h op v (h.replace s old new))
  eval_predicate (FilterPredicate.length f op v) =
      waiting (get_buffered_str h r f) (λ s. length_holds h op v s)
  eval_predicate (FilterPredicate.contains f v) =
      waiting (get_buffered_str h r f) (λ s. contains s v)
  eval_predicate (FilterPredicate.is_null f) = deciding pass (get_buffered_str h r f) (λ s. false)
  eval_predicate (FilterPredicate.is_type f ft) = eval_is_type h r f ft
  eval_predicate (FilterPredicate.regex f pattern) =
      waiting (get_buffered_str h r f) (λ s. h.is_match pattern s)
  eval_predicate (FilterPredicate.and a b) = and_state (eval_predicate a) (eval_predicate b)
  eval_predicate (FilterPredicate.or a b) = or_state (eval_predicate a) (eval_predicate b)
  eval_predicate (FilterPredicate.not a) = not_state (eval_predicate a)

  unfoldable pub eval_predicate_with_null : FilterPredicate → PredicateState
  unfolding eval_predicate and_state or_final not_final settled
  eval_predicate_with_null (FilterPredicate.equal f v) =
      deciding fail (get_buffered_str h r f) (λ s. str_eq s v)
  eval_predicate_with_null (FilterPredicate.not_equal f v) =
      deciding pass (get_buffered_str h r f) (λ s. not (str_eq s v))
  eval_predicate_with_null (FilterPredicate.always keep) = verdict keep
  eval_predicate_with_null (FilterPredicate.and a b) =
      and_state (eval_predicate_with_null a) (eval_predicate_with_null b)
  eval_predicate_with_null (FilterPredicate.or a b) =
      or_final (eval_predicate_with_null a) (eval_predicate_with_null b)
  eval_predicate_with_null (FilterPredicate.not a) = not_final (eval_predicate_with_null a)
  eval_predicate_with_null p = settled (eval_predicate p)
