-- ===== src/Batch/Leaves.antt =====
-- The leaves of the filter of the row buffer at the end of a row, by the text of their field.
use rypipe.Prelude.{
  Bool, true, false, ◌≡◌, refl, ap, ◌∙◌, ◌&&◌, ◌||◌, not, Option, none, some, Str, arith,
  Option-cases, inl, inr,
}
use rypipe.Value.{Host, F64}
use rypipe.Plan.{ArithOp, CompareOp}
use rypipe.Filter.Row.{pass, fail, verdict}
use rypipe.Filter.Leaf.{waiting, deciding, arithmetic_holds, arith_result}
use rypipe.Filter.Eval.{and_state, or_final, not_final, settled}
use rypipe.Builder.Read.{TypedValue, mapped}
use rypipe.Builder.Reading.{show_typed}
use rypipe.Batch.{number_holds, as_number}
use rypipe.Batch.Keeps.{on_value}

pub verdict-and : (a b : Bool) → and_state (verdict a) (verdict b) ≡ verdict (a && b)
unfolding and_state
verdict-and a b = ground arith

pub verdict-or : (a b : Bool) → or_final (verdict a) (verdict b) ≡ verdict (a || b)
unfolding or_final
verdict-or a b = ground arith

pub verdict-not : (a : Bool) → not_final (verdict a) ≡ verdict (not a)
unfolding not_final
verdict-not a = ground arith

pub settled-verdict : (a : Bool) → settled (verdict a) ≡ verdict a
unfolding settled
settled-verdict a = ground arith

module _ (H : Host) where
  abbrev pub texts : Option Str → Option TypedValue
  texts o = mapped TypedValue.str o

  pub waiting-verdict :
      (o : Option Str) (test : Str → Bool)
      → settled (waiting o test) ≡ verdict (on_value false (texts o) (λ x. test (show_typed H x)))
  unfolding settled show_typed
  waiting-verdict none test = refl
  waiting-verdict (some s) test = settled-verdict (test s)

  pub fail-verdict :
      (o : Option Str) (test : Str → Bool)
      → deciding fail o test ≡ verdict (on_value false (texts o) (λ x. test (show_typed H x)))
  unfolding show_typed
  fail-verdict none test = refl
  fail-verdict (some s) test = refl

  pub pass-verdict :
      (o : Option Str) (test : Str → Bool)
      → deciding pass o test ≡ verdict (on_value true (texts o) (λ x. test (show_typed H x)))
  unfolding show_typed
  pass-verdict none test = refl
  pass-verdict (some s) test = refl

  pub not-verdict :
      (o : Option Str) (test : Str → Bool)
      → deciding pass o (λ s. not (test s))
        ≡ verdict (not (on_value false (texts o) (λ x. test (show_typed H x))))
  unfolding show_typed
  not-verdict none test = refl
  not-verdict (some s) test = refl

  arithmetic_lem :
      (op : ArithOp) (x : F64) (cmp_op : CompareOp) (v s : Str)
      → arithmetic_holds H op x cmp_op v s ≡ number_holds H op x cmp_op v (TypedValue.str s)
  unfolding arithmetic_holds number_holds as_number
  arithmetic_lem op x cmp_op v s = elim (Option-cases (H.parse_f64 s)) [
    | inl no_number ↦ rw (no_number, arithmetic_holds) refl
    | inr (a, number) ↦ elim (Option-cases (arith_result H op a x)) [
      | inl nothing ↦ rw (number, nothing, arithmetic_holds) refl
      | inr (b, result) ↦ elim (Option-cases (H.parse_f64 v)) [
        | inl no_literal ↦ rw (number, result, no_literal, arithmetic_holds) refl
        | inr (y, literal) ↦ rw (number, result, literal, arithmetic_holds) refl
      ]
    ]
  ]

  pub arithmetic-verdict :
      (op : ArithOp) (x : F64) (cmp_op : CompareOp) (v : Str) (o : Option Str)
      → settled (waiting o (λ s. arithmetic_holds H op x cmp_op v s))
        ≡ verdict (on_value false (texts o) (number_holds H op x cmp_op v))
  unfolding settled
  arithmetic-verdict op x cmp_op v none = refl
  arithmetic-verdict op x cmp_op v (some s) =
      settled-verdict (arithmetic_holds H op x cmp_op v s)
      ∙ ap verdict (arithmetic_lem op x cmp_op v s)
