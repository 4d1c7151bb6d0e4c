-- ===== src/Batch/Check.antt =====
-- `FilterPredicate::check` of plan/predicate.rs.
use rypipe.Prelude.{
  ℕ, Bool, true, ◌&&◌, ◌||◌, not, min, Option, none, some, Str, str_eq, starts_with, ends_with,
  member, contains, lookup, leb, max_word, if◌then◌else◌,
}
use rypipe.Value.{Host}
use rypipe.Plan.{FilterPredicate, ExecutionPlan, rename, is_empty}
use rypipe.Filter.Leaf.{trimmed, text_holds, length_holds}
use rypipe.Builder.{and_then}
use rypipe.Builder.Read.{TypedValue, get_typed_value}
use rypipe.Batch.{
  Columns, get_column, get_value, is_type_at, compare_typed, typed_from_literal, number_holds,
  is_some, is_some_and,
}

-- The index of a field's column, `usize::MAX` without one.
unfoldable pub ordinal_of : Columns → ExecutionPlan → Str → ℕ
unfolding lookup rename
ordinal_of c plan field = elim (lookup (rename plan field) c.field_index) [
  | some i ↦ i
  | none ↦ max_word
]

unfoldable pub pred_ordinal : Columns → ExecutionPlan → FilterPredicate → ℕ
unfolding ordinal_of
pred_ordinal c plan (FilterPredicate.equal f v) = ordinal_of c plan f
pred_ordinal c plan (FilterPredicate.not_equal f v) = ordinal_of c plan f
pred_ordinal c plan (FilterPredicate.compare_literal f op v) = ordinal_of c plan f
pred_ordinal c plan (FilterPredicate.starts_with f v) = ordinal_of c plan f
pred_ordinal c plan (FilterPredicate.ends_with f v) = ordinal_of c plan f
pred_ordinal c plan (FilterPredicate.in_set f vs) = ordinal_of c plan f
pred_ordinal c plan (FilterPredicate.not_in f vs) = ordinal_of c plan f
pred_ordinal c plan (FilterPredicate.not_field f) = ordinal_of c plan f
pred_ordinal c plan (FilterPredicate.arithmetic_compare f op x cmp_op v) = ordinal_of c plan f
pred_ordinal c plan (FilterPredicate.strip f op v mode) = ordinal_of c plan f
pred_ordinal c plan (FilterPredicate.lower f op v) = ordinal_of c plan f
pred_ordinal c plan (FilterPredicate.upper f op v) = ordinal_of c plan f
pred_ordinal c plan (FilterPredicate.replace f old new op v) = ordinal_of c plan f
pred_ordinal c plan (FilterPredicate.length f op v) = ordinal_of c plan f
pred_ordinal c plan (FilterPredicate.contains f v) = ordinal_of c plan f
pred_ordinal c plan (FilterPredicate.is_null f) = ordinal_of c plan f
pred_ordinal c plan (FilterPredicate.is_type f ft) = ordinal_of c plan f
pred_ordinal c plan (FilterPredicate.regex f pattern) = ordinal_of c plan f
pred_ordinal c plan (FilterPredicate.always keep) = max_word
pred_ordinal c plan (FilterPredicate.compare fa op fb) =
    min (ordinal_of c plan fa) (ordinal_of c plan fb)
pred_ordinal c plan (FilterPredicate.and a b) = min (pred_ordinal c plan a) (pred_ordinal c plan b)
pred_ordinal c plan (FilterPredicate.or a b) = min (pred_ordinal c plan a) (pred_ordinal c plan b)
pred_ordinal c plan (FilterPredicate.not inner) = pred_ordinal c plan inner

module _ (H : Host) (c : Columns) (row : ℕ) (plan : ExecutionPlan) where
  -- The typed value of a field.
  unfoldable pub typed_of : Str → Option TypedValue
  unfolding get_column rename
  typed_of field = and_then (get_column c (rename plan field)) (λ b. get_typed_value H b row)

  -- The text of a field, for a leaf that fails without one, and for one that holds.
  unfoldable pub text_test : Str → (Str → Bool) → Bool
  text_test field test = is_some_and (get_value H c plan field row) test

  unfoldable pub text_or_missing : Str → (Str → Bool) → Bool
  text_or_missing field test = elim (get_value H c plan field row) [ some s ↦ test s | none ↦ true ]

  unfoldable pub check : FilterPredicate → Bool
  check (FilterPredicate.not_equal f v) = text_or_missing f (λ s. not (str_eq s v))
  check (FilterPredicate.equal f v) = text_test f (λ s. str_eq s v)
  check (FilterPredicate.compare fa op fb) =
      is_some_and (typed_of fa) (λ a. is_some_and (typed_of fb) (λ b. compare_typed H a op b))
  check (FilterPredicate.compare_literal f op v) =
      is_some_and (typed_of f)
        (λ a. is_some_and (typed_from_literal H a v) (λ b. compare_typed H a op b))
  check (FilterPredicate.starts_with f v) = text_test f (λ s. starts_with s v)
  check (FilterPredicate.ends_with f v) = text_test f (λ s. ends_with s v)
  check (FilterPredicate.in_set f vs) = text_test f (λ s. member s vs)
  check (FilterPredicate.not_in f vs) = text_or_missing f (λ s. not (member s vs))
  check (FilterPredicate.always keep) = keep
  check (FilterPredicate.not_field f) = text_or_missing f (λ s. is_empty s)
  check (FilterPredicate.arithmetic_compare f op x cmp_op v) =
      is_some_and (typed_of f) (number_holds H op x cmp_op v)
  check (FilterPredicate.strip f op v mode) =
      text_test f (λ s. text_holds H op v (trimmed H mode s))
  check (FilterPredicate.lower f op v) = text_test f (λ s. text_holds H op v (H.to_lowercase s))
  check (FilterPredicate.upper f op v) = text_test f (λ s. text_holds H op v (H.to_uppercase s))
  check (FilterPredicate.replace f old new op v) =
      text_test f (λ s. text_holds H op v (H.replace s old new))
  check (FilterPredicate.length f op v) = text_test f (length_holds H op v)
  check (FilterPredicate.contains f v) = text_test f (λ s. contains s v)
  check (FilterPredicate.is_null f) = not (is_some (get_value H c plan f row))
  check (FilterPredicate.regex f pattern) = text_test f (H.is_match pattern)
  check (FilterPredicate.is_type f ft) =
      is_some_and (get_column c (rename plan f)) (λ b. is_type_at H b row ft)
  check (FilterPredicate.and a b) =
      let first = check a in
      let second = check b in
      if leb (pred_ordinal c plan a) (pred_ordinal c plan b)
      then first && second
      else second && first
  check (FilterPredicate.or a b) =
      let first = check a in
      let second = check b in
      if leb (pred_ordinal c plan a) (pred_ordinal c plan b)
      then first || second
      else second || first
  check (FilterPredicate.not inner) = not (check inner)
