-- ===== src/Batch/Verdicts.antt =====
-- The row buffer and the finished columns of one row of texts, tested by the two filters.
use mathlib.Core.Path.{fun_ext}
use rypipe.Prelude.{ℕ, ◌≡◌, sym, ap, ◌∙◌, true, Option, List, Str}
use rypipe.Value.{Host, Value}
use rypipe.Plan.{FilterPredicate, rename}
use rypipe.Filter.Row.{RowScope, get_buffered_value, verdict}
use rypipe.Filter.Eval.{eval_predicate_with_null}
use rypipe.Builder.Read.{TypedValue, mapped}
use rypipe.Batch.{Columns}
use rypipe.Batch.Check.{check}
use rypipe.Batch.Keeps.{keeps}
use rypipe.Batch.Cells.{AllHold, cell_of}
use rypipe.Batch.Agrees.{column_type_at, check-keeps}
use rypipe.Batch.RowFilter.{NoTypeTest, IsTextPlan, eval_predicate_with_null-keeps}

module _ (H : Host) (r : RowScope) (c : Columns) (xss : List (List (Option TypedValue))) (row : ℕ)
    (text : Str → Option Str) where
  -- For a filter without type tests, a plan that types, drops and projects no field, columns that
  -- hold lists of rows, a host that decodes UTF-8 without loss, and a row whose fields stand as
  -- the same texts in the row buffer and in the columns, missing ones included, the verdict of the
  -- row buffer at the end of the row is that of `check` on the columns.
  pub eval_predicate_with_null-check :
      (p : FilterPredicate)
      → NoTypeTest p
      → IsTextPlan r.plan
      → ((s : Str) → H.is_utf8 s ≡ true → H.from_utf8_lossy s ≡ s)
      → AllHold H.is_utf8 c.columns xss
      → ((name : Str) → cell_of c.field_index xss row name ≡ mapped TypedValue.str (text name))
      → ((f : Str) → get_buffered_value r f ≡ mapped Value.str (text (rename r.plan f)))
      → eval_predicate_with_null H r p ≡ verdict (check H c row r.plan p)
  eval_predicate_with_null-check p no_types plan lossless holds stored buffered =
      let same : (λ (name : Str). mapped TypedValue.str (text name))
          ≡ cell_of c.field_index xss row =
        fun_ext (λ name. sym (stored name)) in
      eval_predicate_with_null-keeps H r text plan buffered
        (column_type_at H c xss row r.plan holds lossless) p no_types
      ∙ ap
          (λ cell.
            verdict (keeps H cell (column_type_at H c xss row r.plan holds lossless) r.plan p))
          same
      ∙ ap verdict (sym (check-keeps H c xss row r.plan holds lossless p))
