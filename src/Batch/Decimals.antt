-- ===== src/Batch/Decimals.antt =====
-- A decimal column compared with a literal, by the filter of the row buffer and by the batch filter.
use Prim.Native.Nat.{Ordering}
use rypipe.Prelude.{
  ℕ, zero, suc, ◌≡◌, ◌≢◌, refl, sym, ap, ◌∙◌, true, not, Option, some, List, [], ◌∷◌, ◌++◌, length,
  Str, ℤ, pos, negsuc, cmp, str_cmp, ◌==◌, arith,
}
use rypipe.Value.{Host, Value}
use rypipe.Plan.{FieldType, FilterPredicate, CompareOp, column_type, rename}
use rypipe.Decimal.{parse_decimal128, compare_decimal128}
use rypipe.Columnar.Cells.{row_at}
use rypipe.Columnar.Primitive.{PrimColumn}
use rypipe.Filter.Row.{RowScope, get_buffered_value, resolve_or, verdict, apply_op, op_holds}
use rypipe.Filter.Compare.{
  eval_compare_literal, ordered_state, literal_cmp, literal_value, parsed_literal,
}
use rypipe.Filter.Eval.{eval_predicate, eval_predicate_with_null}
use rypipe.Builder.{ColumnBuilder, zero_int, push_str}
use rypipe.Builder.Read.{TypedValue}
use rypipe.Builder.Reading.{get_typed_value-HoldsRows}
use rypipe.Builder.Rows.{HoldsRows}
use rypipe.Builder.Push.{push-PrimHolds}
use rypipe.Batch.{Columns, get_column, compare_typed, typed_cmp, typed_from_literal}
use rypipe.Batch.Check.{check, typed_of}
use rypipe.Batch.Leaves.{settled-verdict}

==_refl : (n : ℕ) → (n == n) ≡ true
==_refl n = ground arith

-- At one scale the values are compared as integers.
compare_decimal128-cmp : (n k : ℤ) (scale : ℕ) → compare_decimal128 n scale k scale ≡ cmp n k
unfolding compare_decimal128 cmp
compare_decimal128-cmp (pos zero) k scale = refl
compare_decimal128-cmp (pos (suc m)) (pos zero) scale = refl
compare_decimal128-cmp (negsuc m) (pos zero) scale = refl
compare_decimal128-cmp (pos (suc m)) (pos (suc j)) scale = rw (==_refl scale) refl
compare_decimal128-cmp (pos (suc m)) (negsuc j) scale = rw (==_refl scale) refl
compare_decimal128-cmp (negsuc m) (pos (suc j)) scale = rw (==_refl scale) refl
compare_decimal128-cmp (negsuc m) (negsuc j) scale = rw (==_refl scale) refl

-- Two different orders are told apart by an operator.
told_apart : (x y : Ordering) → x ≢ y → (op : CompareOp) × (op_holds op x ≡ not (op_holds op y))
unfolding op_holds
told_apart Ordering.lt Ordering.lt differ = elim (differ refl) [ ]
told_apart Ordering.lt y differ = (CompareOp.lt, refl)
told_apart Ordering.eq Ordering.eq differ = elim (differ refl) [ ]
told_apart Ordering.eq y differ = (CompareOp.eq, refl)
told_apart Ordering.gt Ordering.gt differ = elim (differ refl) [ ]
told_apart Ordering.gt y differ = (CompareOp.gt, refl)

last_row :
    (xs : List (Option TypedValue)) (x : Option TypedValue)
    → row_at (xs ++ (x ∷ [])) (length xs) ≡ x
last_row [] x = refl
last_row (y ∷ xs) x = last_row xs x

module _ (H : Host) (r : RowScope) (c : Columns) (f : Str) (scale : ℕ) where
  by_text :
      (op : CompareOp) (s v : Str)
      → column_type r.plan (resolve_or r.plan f) ≡ FieldType.decimal128 scale
      → get_buffered_value r f ≡ some (Value.str s)
      → eval_predicate_with_null H r (FilterPredicate.compare_literal f op v)
        ≡ verdict (apply_op op (some (str_cmp s v)))
  unfolding eval_predicate_with_null eval_predicate eval_compare_literal ordered_state literal_cmp
      literal_value parsed_literal
  by_text op s v declared buffered = rw (declared, buffered) (settled-verdict _)

  by_value :
      (op : CompareOp) (v : Str) (n k : ℤ) (row : ℕ)
      → typed_of H c row r.plan f ≡ some (TypedValue.decimal128 n scale)
      → parse_decimal128 H v scale ≡ some k
      → check H c row r.plan (FilterPredicate.compare_literal f op v) ≡ apply_op op (some (cmp n k))
  unfolding check typed_from_literal compare_typed typed_cmp
  by_value op v n k row stored literal =
      rw (stored, literal) (ap (λ o. apply_op op (some o)) (compare_decimal128-cmp n k scale))

  -- The value of the text that was pushed last.
  pushed_value :
      (col : PrimColumn ℤ) (xs : List (Option TypedValue)) (s : Str) (n : ℤ)
      → HoldsRows H.is_utf8 (ColumnBuilder.decimal128 scale col) xs
      → get_column c (rename r.plan f)
        ≡ some (push_str H (ColumnBuilder.decimal128 scale col) (some s))
      → parse_decimal128 H s scale ≡ some n
      → typed_of H c (length xs) r.plan f ≡ some (TypedValue.decimal128 n scale)
  unfolding typed_of HoldsRows push_str
  pushed_value col xs s n holds there parsed =
      let value : TypedValue = TypedValue.decimal128 n scale in
      rw (there, typed_of)
        (get_typed_value-HoldsRows H (push_str H (ColumnBuilder.decimal128 scale col) (some s))
            (xs ++ (some value ∷ [])) (length xs)
            (rw parsed
              (push-PrimHolds zero_int (λ t. TypedValue.decimal128 t scale) col (some n) xs holds))
          ∙ last_row xs (some value))

  -- For a field that the plan declares as a decimal, and a row whose text stands in the row buffer
  -- and was pushed to the field's decimal column, where it and a literal are decimals that are not
  -- in the order of the bytes of their texts, there is an operator for which the comparison with
  -- the literal has opposite verdicts in the row buffer and in `check`.
  pub decimal_literals :
      (col : PrimColumn ℤ) (xs : List (Option TypedValue)) (s v : Str) (n k : ℤ)
      → column_type r.plan (resolve_or r.plan f) ≡ FieldType.decimal128 scale
      → get_buffered_value r f ≡ some (Value.str s)
      → HoldsRows H.is_utf8 (ColumnBuilder.decimal128 scale col) xs
      → get_column c (rename r.plan f)
        ≡ some (push_str H (ColumnBuilder.decimal128 scale col) (some s))
      → parse_decimal128 H s scale ≡ some n
      → parse_decimal128 H v scale ≡ some k
      → str_cmp s v ≢ cmp n k
      → (op : CompareOp) × (eval_predicate_with_null H r (FilterPredicate.compare_literal f op v)
          ≡ verdict (not (check H c (length xs) r.plan (FilterPredicate.compare_literal f op v))))
  unfolding apply_op
  decimal_literals col xs s v n k declared buffered holds there parsed literal differ =
      let (op, opposite) = told_apart (str_cmp s v) (cmp n k) differ in
      let value = pushed_value col xs s n holds there parsed in
      (
        op,
        by_text op s v declared buffered
            ∙ ap verdict opposite
            ∙ ap (λ b. verdict (not b)) (sym (by_value op v n k (length xs) value literal)),
      )
