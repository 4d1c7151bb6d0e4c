-- ===== src/Batch/RowFilter.antt =====
-- The batch filter and the filter of the row buffer give the same verdict on a row of texts.
use rypipe.Prelude.{
  Bool, false, ◌≡◌, refl, ap, ◌∙◌, not, Option, none, some, [], Str, str_eq, str_cmp, member,
  starts_with, ends_with, contains, lookup,
}
use rypipe.Value.{Host, Value}
use rypipe.Plan.{
  type_eq, FieldType, FilterPredicate, CompareOp, ExecutionPlan, rename, is_empty, column_type,
  resolve_field,
}
use rypipe.Filter.Row.{
  pass, fail, RowScope, get_buffered_value, get_buffered_str, text_at, as_text, resolve_or, verdict,
  apply_op,
}
use rypipe.Filter.Leaf.{
  waiting, deciding, trimmed, text_holds, length_holds, arithmetic_holds, normalize,
}
use rypipe.Filter.Compare.{
  eval_compare, eval_compare_literal, compatible, typed_state, ordered_state, value_cmp,
  declared_cmp, seen, literal_value, parsed_literal, literal_cmp,
}
use rypipe.Filter.Eval.{settled, eval_predicate, eval_predicate_with_null}
use rypipe.Builder.Read.{TypedValue, mapped}
use rypipe.Builder.Reading.{show_typed}
use rypipe.Batch.{compare_typed, typed_cmp, typed_from_literal}
use rypipe.Batch.Keeps.{on_value, keeps}
use rypipe.Batch.Leaves.{
  verdict-and, verdict-or, verdict-not, settled-verdict, texts, waiting-verdict, fail-verdict,
  pass-verdict, not-verdict, arithmetic-verdict,
}

-- No leaf tests the type of a field.
abbrev pub NoTypeTest : FilterPredicate → Type 0
NoTypeTest (FilterPredicate.is_type f ft) = ⊥
NoTypeTest (FilterPredicate.and a b) = NoTypeTest a × NoTypeTest b
NoTypeTest (FilterPredicate.or a b) = NoTypeTest a × NoTypeTest b
NoTypeTest (FilterPredicate.not a) = NoTypeTest a
NoTypeTest p = Unit {0}

-- The plan stores every field as text, and drops none.
pub record IsTextPlan (plan : ExecutionPlan) : Type 0 where
  pub types : plan.field_types ≡ []
  pub dictionaries : plan.dictionary_columns ≡ []
  pub drops : plan.drop_fields ≡ []
  pub order : plan.schema_order ≡ []

text_plan-column_type :
    (plan : ExecutionPlan) (name : Str) → IsTextPlan plan → column_type plan name ≡ FieldType.string
unfolding column_type lookup member
text_plan-column_type plan name t = rw (t.types, t.dictionaries, column_type) refl

text_plan-resolve_field :
    (plan : ExecutionPlan) (f : Str) → IsTextPlan plan → resolve_field plan f ≡ some (rename plan f)
unfolding resolve_field member
text_plan-resolve_field plan f t = rw (t.drops, t.order) refl

module _ (H : Host) where
  -- A row of texts H in the buffer, and the same texts H by the names of their columns.
  module _ (r : RowScope) (text : Str → Option Str) (t : IsTextPlan r.plan)
      (buffered : (f : Str)
        → get_buffered_value r f ≡ mapped Value.str (text (rename r.plan f))) where
    abbrev row_cell : Str → Option TypedValue
    row_cell name = texts H (text name)

    as_text_of : (f : Str) (o : Option Str) → text_at H r.plan f (mapped Value.str o) ≡ o
    unfolding text_at as_text
    as_text_of f none = refl
    as_text_of f (some s) =
        rw
          (
            text_plan-resolve_field r.plan f t,
            text_at,
            text_plan-column_type r.plan (rename r.plan f) t,
          )
          refl

    buffered_str : (f : Str) → get_buffered_str H r f ≡ text (rename r.plan f)
    unfolding get_buffered_str
    buffered_str f = ap (text_at H r.plan f) (buffered f) ∙ as_text_of f (text (rename r.plan f))

    resolved : (f : Str) → resolve_or r.plan f ≡ rename r.plan f
    unfolding resolve_or
    resolved f = rw (text_plan-resolve_field r.plan f t, resolve_or) refl

    untyped : (name : Str) → lookup name r.plan.field_types ≡ none
    unfolding lookup
    untyped name = rw t.types refl

    ordered :
        (op : CompareOp) (a b : Option Str)
        → settled (
            ordered_state H op
              (value_cmp H (declared_cmp H none none))
              (seen H FieldType.string (mapped Value.str a))
              (seen H FieldType.string (mapped Value.str b)))
          ≡ verdict (
              on_value false
                (texts H a)
                (λ x. on_value false (texts H b) (λ y. compare_typed H x op y)))
    unfolding settled ordered_state value_cmp declared_cmp seen normalize compare_typed typed_cmp
    ordered op none b = refl
    ordered op (some x) none = refl
    ordered op (some x) (some y) = settled-verdict (apply_op op (some (str_cmp x y)))

    compare-verdict :
        (fa : Str) (op : CompareOp) (fb : Str)
        → settled (eval_compare H r fa op fb)
          ≡ verdict (
              on_value false
                (row_cell (rename r.plan fa))
                (λ x. on_value false (row_cell (rename r.plan fb)) (λ y. compare_typed H x op y)))
    unfolding eval_compare compatible type_eq typed_state
    compare-verdict fa op fb =
        rw
          (
            resolved fa,
            resolved fb,
            text_plan-column_type r.plan (rename r.plan fa) t,
            text_plan-column_type r.plan (rename r.plan fb) t,
            untyped (resolve_or r.plan fa),
            untyped (resolve_or r.plan fb),
            buffered fa,
            buffered fb,
          )
          (ordered op (text (rename r.plan fa)) (text (rename r.plan fb)))

    literal_ordered :
        (op : CompareOp) (v : Str) (a : Option Str)
        → settled (
            ordered_state H op
              (literal_cmp H)
              (literal_value H FieldType.string (mapped Value.str a))
              (parsed_literal H FieldType.string v))
          ≡ verdict (
              on_value false
                (texts H a)
                (λ x. on_value false (typed_from_literal H x v) (λ y. compare_typed H x op y)))
    unfolding settled ordered_state literal_cmp literal_value parsed_literal typed_from_literal
        compare_typed typed_cmp
    literal_ordered op v none = refl
    literal_ordered op v (some x) = settled-verdict (apply_op op (some (str_cmp x v)))

    literal-verdict :
        (f : Str) (op : CompareOp) (v : Str)
        → settled (eval_compare_literal H r f op v)
          ≡ verdict (
              on_value false
                (row_cell (rename r.plan f))
                (λ x. on_value false (typed_from_literal H x v) (λ y. compare_typed H x op y)))
    unfolding eval_compare_literal
    literal-verdict f op v =
        rw (resolved f, text_plan-column_type r.plan (rename r.plan f) t, buffered f)
          (literal_ordered op v (text (rename r.plan f)))

    waiting-cell :
        (f : Str) (test : Str → Bool)
        → settled (waiting (get_buffered_str H r f) test)
          ≡ verdict (on_value false (row_cell (rename r.plan f)) (λ x. test (show_typed H x)))
    waiting-cell f test =
        ap (λ o. settled (waiting o test)) (buffered_str f)
        ∙ waiting-verdict H (text (rename r.plan f)) test

    -- The verdict of the row buffer at the end of the row.
    pub eval_predicate_with_null-keeps :
        (is_type : Str → FieldType → Bool) (p : FilterPredicate)
        → NoTypeTest p
        → eval_predicate_with_null H r p ≡ verdict (keeps H row_cell is_type r.plan p)
    unfolding eval_predicate_with_null eval_predicate keeps
    eval_predicate_with_null-keeps k (FilterPredicate.equal f v) n =
        ap (λ o. deciding fail o (λ s. str_eq s v)) (buffered_str f)
        ∙ fail-verdict H (text (rename r.plan f)) (λ s. str_eq s v)
    eval_predicate_with_null-keeps k (FilterPredicate.not_equal f v) n =
        ap (λ o. deciding pass o (λ s. not (str_eq s v))) (buffered_str f)
        ∙ not-verdict H (text (rename r.plan f)) (λ s. str_eq s v)
    eval_predicate_with_null-keeps k (FilterPredicate.compare fa op fb) n = compare-verdict fa op fb
    eval_predicate_with_null-keeps k (FilterPredicate.compare_literal f op v) n =
        literal-verdict f op v
    eval_predicate_with_null-keeps k (FilterPredicate.starts_with f v) n =
        waiting-cell f (λ s. starts_with s v)
    eval_predicate_with_null-keeps k (FilterPredicate.ends_with f v) n =
        waiting-cell f (λ s. ends_with s v)
    eval_predicate_with_null-keeps k (FilterPredicate.in_set f vs) n =
        ap (λ o. settled (deciding fail o (λ s. member s vs))) (buffered_str f)
        ∙ ap settled (fail-verdict H (text (rename r.plan f)) (λ s. member s vs))
        ∙ settled-verdict _
    eval_predicate_with_null-keeps k (FilterPredicate.not_in f vs) n =
        ap (λ o. settled (deciding pass o (λ s. not (member s vs)))) (buffered_str f)
        ∙ ap settled (not-verdict H (text (rename r.plan f)) (λ s. member s vs))
        ∙ settled-verdict _
    eval_predicate_with_null-keeps k (FilterPredicate.always keep) n = refl
    eval_predicate_with_null-keeps k (FilterPredicate.not_field f) n =
        ap (λ o. settled (deciding pass o (λ s. is_empty s))) (buffered_str f)
        ∙ ap settled (pass-verdict H (text (rename r.plan f)) (λ s. is_empty s))
        ∙ settled-verdict _
    eval_predicate_with_null-keeps k (FilterPredicate.arithmetic_compare f op x cmp_op v) n =
        ap (λ o. settled (waiting o (λ s. arithmetic_holds H op x cmp_op v s))) (buffered_str f)
        ∙ arithmetic-verdict H op x cmp_op v (text (rename r.plan f))
    eval_predicate_with_null-keeps k (FilterPredicate.strip f op v mode) n =
        waiting-cell f (λ s. text_holds H op v (trimmed H mode s))
    eval_predicate_with_null-keeps k (FilterPredicate.lower f op v) n =
        waiting-cell f (λ s. text_holds H op v (H.to_lowercase s))
    eval_predicate_with_null-keeps k (FilterPredicate.upper f op v) n =
        waiting-cell f (λ s. text_holds H op v (H.to_uppercase s))
    eval_predicate_with_null-keeps k (FilterPredicate.replace f old new op v) n =
        waiting-cell f (λ s. text_holds H op v (H.replace s old new))
    eval_predicate_with_null-keeps k (FilterPredicate.length f op v) n =
        waiting-cell f (λ s. length_holds H op v s)
    eval_predicate_with_null-keeps k (FilterPredicate.contains f v) n =
        waiting-cell f (λ s. contains s v)
    eval_predicate_with_null-keeps k (FilterPredicate.is_null f) n =
        ap (λ o. settled (deciding pass o (λ s. false))) (buffered_str f)
        ∙ ap settled (pass-verdict H (text (rename r.plan f)) (λ s. false))
        ∙ settled-verdict _
    eval_predicate_with_null-keeps k (FilterPredicate.regex f pattern) n =
        waiting-cell f (λ s. H.is_match pattern s)
    eval_predicate_with_null-keeps k (FilterPredicate.is_type f ft) n = elim n [ ]
    eval_predicate_with_null-keeps k (FilterPredicate.and a b) n =
        rw (eval_predicate_with_null-keeps k a n.0, eval_predicate_with_null-keeps k b n.1)
          (verdict-and _ _)
    eval_predicate_with_null-keeps k (FilterPredicate.or a b) n =
        rw (eval_predicate_with_null-keeps k a n.0, eval_predicate_with_null-keeps k b n.1)
          (verdict-or _ _)
    eval_predicate_with_null-keeps k (FilterPredicate.not a) n =
        rw (eval_predicate_with_null-keeps k a n) (verdict-not _)
