-- ===== src/Batch/Keeps.antt =====
-- What the batch filter means: the verdict on a row of typed values, without columns or an order.
use rypipe.Prelude.{
  Bool, true, false, ◌&&◌, ◌||◌, not, Option, none, some, Str, str_eq, starts_with, ends_with,
  member, contains,
}
use rypipe.Value.{Host}
use rypipe.Plan.{FieldType, FilterPredicate, ExecutionPlan, rename, is_empty}
use rypipe.Filter.Leaf.{trimmed, text_holds, length_holds}
use rypipe.Builder.Read.{TypedValue}
use rypipe.Builder.Reading.{show_typed}
use rypipe.Batch.{compare_typed, typed_from_literal, number_holds}

-- A test of a value that is there, else the verdict on a null.
abbrev pub on_value : Bool → Option TypedValue → (TypedValue → Bool) → Bool
on_value null none test = null
on_value null (some v) test = test v

module _ (H : Host) (cell : Str → Option TypedValue) (is_type : Str → FieldType → Bool)
    (plan : ExecutionPlan) where
  abbrev at_field : Bool → Str → (TypedValue → Bool) → Bool
  at_field null f test = on_value null (cell (rename plan f)) test

  unfoldable pub keeps : FilterPredicate → Bool
  keeps (FilterPredicate.equal f v) = at_field false f (λ x. str_eq (show_typed H x) v)
  keeps (FilterPredicate.not_equal f v) = not (at_field false f (λ x. str_eq (show_typed H x) v))
  keeps (FilterPredicate.compare fa op fb) =
      at_field false fa (λ x. at_field false fb (λ y. compare_typed H x op y))
  keeps (FilterPredicate.compare_literal f op v) =
      at_field false f
        (λ x. on_value false (typed_from_literal H x v) (λ y. compare_typed H x op y))
  keeps (FilterPredicate.starts_with f v) = at_field false f (λ x. starts_with (show_typed H x) v)
  keeps (FilterPredicate.ends_with f v) = at_field false f (λ x. ends_with (show_typed H x) v)
  keeps (FilterPredicate.in_set f vs) = at_field false f (λ x. member (show_typed H x) vs)
  keeps (FilterPredicate.not_in f vs) = not (at_field false f (λ x. member (show_typed H x) vs))
  keeps (FilterPredicate.always keep) = keep
  keeps (FilterPredicate.not_field f) = at_field true f (λ x. is_empty (show_typed H x))
  keeps (FilterPredicate.arithmetic_compare f op x cmp_op v) =
      at_field false f (number_holds H op x cmp_op v)
  keeps (FilterPredicate.strip f op v mode) =
      at_field false f (λ x. text_holds H op v (trimmed H mode (show_typed H x)))
  keeps (FilterPredicate.lower f op v) =
      at_field false f (λ x. text_holds H op v (H.to_lowercase (show_typed H x)))
  keeps (FilterPredicate.upper f op v) =
      at_field false f (λ x. text_holds H op v (H.to_uppercase (show_typed H x)))
  keeps (FilterPredicate.replace f old new op v) =
      at_field false f (λ x. text_holds H op v (H.replace (show_typed H x) old new))
  keeps (FilterPredicate.length f op v) =
      at_field false f (λ x. length_holds H op v (show_typed H x))
  keeps (FilterPredicate.contains f v) = at_field false f (λ x. contains (show_typed H x) v)
  keeps (FilterPredicate.is_null f) = at_field true f (λ x. false)
  keeps (FilterPredicate.is_type f ft) = is_type (rename plan f) ft
  keeps (FilterPredicate.regex f pattern) =
      at_field false f (λ x. H.is_match pattern (show_typed H x))
  keeps (FilterPredicate.and a b) = keeps a && keeps b
  keeps (FilterPredicate.or a b) = keeps a || keeps b
  keeps (FilterPredicate.not a) = not (keeps a)
