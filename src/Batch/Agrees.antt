-- ===== src/Batch/Agrees.antt =====
-- The batch filter gives the verdict on the values of the row, in whatever order it tests them.
use rypipe.Prelude.{
  ℕ, Bool, true, false, ◌≡◌, refl, ap, ◌∙◌, ◌&&◌, ◌||◌, not, Option, none, some, List, Str, str_eq,
  member, starts_with, ends_with, contains, leb, if◌then◌else◌, arith,
}
use rypipe.Value.{Host}
use rypipe.Plan.{FieldType, FilterPredicate, ExecutionPlan, rename, is_empty}
use rypipe.Filter.Leaf.{trimmed, text_holds, length_holds}
use rypipe.Builder.Read.{TypedValue, mapped}
use rypipe.Builder.Reading.{show_typed}
use rypipe.Batch.{
  Columns, get_column, is_type_at, compare_typed, typed_from_literal, number_holds, is_some,
  is_some_and,
}
use rypipe.Batch.Check.{typed_of, text_test, text_or_missing, pred_ordinal, check}
use rypipe.Batch.Keeps.{on_value, keeps}
use rypipe.Batch.Cells.{AllHold, cell_of, typed_of-cell_of, get_value-cell_of}

either_order-and : (t a b : Bool) → (if t then a && b else b && a) ≡ (a && b)
either_order-and t a b = ground arith

either_order-or : (t a b : Bool) → (if t then a || b else b || a) ≡ (a || b)
either_order-or t a b = ground arith

on_value-is_some_and :
    (o : Option TypedValue) (f : TypedValue → Bool) → is_some_and o f ≡ on_value false o f
on_value-is_some_and none f = refl
on_value-is_some_and (some v) f = refl

module _ (H : Host) where
  shown_test :
      (o : Option TypedValue) (f : Str → Bool)
      → is_some_and (mapped (show_typed H) o) f ≡ on_value false o (λ x. f (show_typed H x))
  shown_test none f = refl
  shown_test (some v) f = refl

  shown_or_missing :
      (o : Option TypedValue) (f : Str → Bool)
      → (elim (mapped (show_typed H) o) [ some s ↦ f s | none ↦ true ])
        ≡ on_value true o (λ x. f (show_typed H x))
  shown_or_missing none f = refl
  shown_or_missing (some v) f = refl

  shown_not :
      (o : Option TypedValue) (f : Str → Bool)
      → (elim (mapped (show_typed H) o) [ some s ↦ not (f s) | none ↦ true ])
        ≡ not (on_value false o (λ x. f (show_typed H x)))
  shown_not none f = refl
  shown_not (some v) f = refl

  shown_null :
      (o : Option TypedValue)
      → not (is_some (mapped (show_typed H) o)) ≡ on_value true o (λ x. false)
  shown_null none = refl
  shown_null (some v) = refl

  compared :
      (a b : Option TypedValue) (f : TypedValue → TypedValue → Bool)
      → is_some_and a (λ x. is_some_and b (f x)) ≡ on_value false a (λ x. on_value false b (f x))
  compared none b f = refl
  compared (some x) b f = on_value-is_some_and b (f x)

  with_literal :
      (a : Option TypedValue) (g : TypedValue → Option TypedValue)
      (f : TypedValue → TypedValue → Bool)
      → is_some_and a (λ x. is_some_and (g x) (f x))
        ≡ on_value false a (λ x. on_value false (g x) (f x))
  with_literal none g f = refl
  with_literal (some x) g f = on_value-is_some_and (g x) (f x)

  module _ (c : Columns) (xss : List (List (Option TypedValue))) (row : ℕ) (plan : ExecutionPlan)
      (s : AllHold H.is_utf8 c.columns xss)
      (lossless : (t : Str) → H.is_utf8 t ≡ true → H.from_utf8_lossy t ≡ t) where
    abbrev pub cell : Str → Option TypedValue
    cell name = cell_of c.field_index xss row name

    -- Whether the column of a name shows the row as the type.
    abbrev pub column_type_at : Str → FieldType → Bool
    column_type_at name ft = is_some_and (get_column c name) (λ b. is_type_at H b row ft)

    text_test-cell :
        (f : Str) (test : Str → Bool)
        → text_test H c row plan f test
          ≡ on_value false (cell (rename plan f)) (λ x. test (show_typed H x))
    unfolding text_test
    text_test-cell f test =
        ap (λ o. is_some_and o test) (get_value-cell_of H c xss row plan s f lossless)
        ∙ shown_test (cell (rename plan f)) test

    text_or_missing-cell :
        (f : Str) (test : Str → Bool)
        → text_or_missing H c row plan f test
          ≡ on_value true (cell (rename plan f)) (λ x. test (show_typed H x))
    unfolding text_or_missing
    text_or_missing-cell f test =
        rw (get_value-cell_of H c xss row plan s f lossless, text_or_missing)
          (shown_or_missing (cell (rename plan f)) test)

    text_not-cell :
        (f : Str) (test : Str → Bool)
        → text_or_missing H c row plan f (λ t. not (test t))
          ≡ not (on_value false (cell (rename plan f)) (λ x. test (show_typed H x)))
    unfolding text_or_missing
    text_not-cell f test =
        rw (get_value-cell_of H c xss row plan s f lossless, text_or_missing)
          (shown_not (cell (rename plan f)) test)

    at : (f : Str) → typed_of H c row plan f ≡ cell (rename plan f)
    at f = typed_of-cell_of H c xss row plan s f

    -- For columns that hold lists of rows, and a host that decodes UTF-8 without loss, `check`
    -- gives the verdict of the filter on the typed values of the row, where a conjunction and a
    -- disjunction test both operands: in whatever order `check` takes the operands, and whichever
    -- of the two ways it reads a text. A type test is that of the column.
    pub check-keeps :
        (p : FilterPredicate) → check H c row plan p ≡ keeps H cell column_type_at plan p
    unfolding check keeps
    check-keeps (FilterPredicate.equal f v) = text_test-cell f (λ t. str_eq t v)
    check-keeps (FilterPredicate.not_equal f v) = text_not-cell f (λ t. str_eq t v)
    check-keeps (FilterPredicate.compare fa op fb) =
        rw (at fa, at fb)
          (compared (cell (rename plan fa)) (cell (rename plan fb)) (λ a b. compare_typed H a op b))
    check-keeps (FilterPredicate.compare_literal f op v) = rw (at f) (
        with_literal (cell (rename plan f)) (λ a. typed_from_literal H a v)
          (λ a b. compare_typed H a op b))
    check-keeps (FilterPredicate.starts_with f v) = text_test-cell f (λ t. starts_with t v)
    check-keeps (FilterPredicate.ends_with f v) = text_test-cell f (λ t. ends_with t v)
    check-keeps (FilterPredicate.in_set f vs) = text_test-cell f (λ t. member t vs)
    check-keeps (FilterPredicate.not_in f vs) = text_not-cell f (λ t. member t vs)
    check-keeps (FilterPredicate.always keep) = refl
    check-keeps (FilterPredicate.not_field f) = text_or_missing-cell f (λ t. is_empty t)
    check-keeps (FilterPredicate.arithmetic_compare f op x cmp_op v) =
        rw (at f) (on_value-is_some_and (cell (rename plan f)) (number_holds H op x cmp_op v))
    check-keeps (FilterPredicate.strip f op v mode) =
        text_test-cell f (λ t. text_holds H op v (trimmed H mode t))
    check-keeps (FilterPredicate.lower f op v) =
        text_test-cell f (λ t. text_holds H op v (H.to_lowercase t))
    check-keeps (FilterPredicate.upper f op v) =
        text_test-cell f (λ t. text_holds H op v (H.to_uppercase t))
    check-keeps (FilterPredicate.replace f old new op v) =
        text_test-cell f (λ t. text_holds H op v (H.replace t old new))
    check-keeps (FilterPredicate.length f op v) = text_test-cell f (length_holds H op v)
    check-keeps (FilterPredicate.contains f v) = text_test-cell f (λ t. contains t v)
    check-keeps (FilterPredicate.is_null f) =
        rw (get_value-cell_of H c xss row plan s f lossless) (shown_null (cell (rename plan f)))
    check-keeps (FilterPredicate.regex f pattern) = text_test-cell f (H.is_match pattern)
    check-keeps (FilterPredicate.is_type f ft) = refl
    check-keeps (FilterPredicate.and a b) =
        either_order-and (leb (pred_ordinal c plan a) (pred_ordinal c plan b))
          (check H c row plan a) (check H c row plan b)
        ∙ rw (check-keeps a, check-keeps b) refl
    check-keeps (FilterPredicate.or a b) =
        either_order-or (leb (pred_ordinal c plan a) (pred_ordinal c plan b)) (check H c row plan a)
          (check H c row plan b)
        ∙ rw (check-keeps a, check-keeps b) refl
    check-keeps (FilterPredicate.not a) = ap not (check-keeps a)
