-- ===== src/Filter/Compare.antt =====
-- The leaves `Compare` and `CompareLiteral` of `TableBuilder::eval_predicate`
-- (engine/table_builder/predicates.rs), which order two values, or a value and a literal.
use Prim.Native.Nat.{Ordering}
use rypipe.Prelude.{ℕ, Option, none, some, Bool, true, Str, str_cmp, lookup, ℤ, cmp, if◌then◌else◌}
use rypipe.Value.{parse_bool, Host, F64, Value, str, int64, float64, bool, date32, timestamp}
use rypipe.Plan.{FieldType, CompareOp, column_type, unit_eq, type_eq}
use rypipe.Decimal.{parse_decimal128, compare_decimal128}
use rypipe.Filter.Row.{
  PredicateState, undecided, fail, RowScope, get_buffered_value, get_buffered_str, resolve_or,
  apply_op, verdict,
}
use rypipe.Filter.Leaf.{bool_cmp, normalize}

-- The `compatible` of two column types.
unfoldable pub compatible : FieldType → FieldType → Bool
unfolding unit_eq type_eq
compatible FieldType.int64 FieldType.int64 = true
compatible FieldType.int64 FieldType.float64 = true
compatible FieldType.float64 FieldType.int64 = true
compatible FieldType.float64 FieldType.float64 = true
compatible (FieldType.decimal128 a) (FieldType.decimal128 b) = true
compatible (FieldType.timestamp u f) (FieldType.timestamp v g) = unit_eq u v
compatible a b = type_eq a b

module _ (h : Host) where
  -- Two optional numbers, in order if both are there.
  both_int : Option ℤ → Option ℤ → Option Ordering
  unfolding cmp
  both_int (some x) (some y) = some (cmp x y)
  both_int _ _ = none

  both_float : Option F64 → Option F64 → Option Ordering
  both_float (some x) (some y) = h.partial_cmp x y
  both_float _ _ = none

  as_float : Option ℤ → Option F64
  as_float none = none
  as_float (some i) = some (h.of_int i)

  -- Two texts, by the types that the plan declares for their columns.
  unfoldable pub declared_cmp : Option FieldType → Option FieldType → Str → Str → Option Ordering
  unfolding both_int both_float as_float
  declared_cmp (some FieldType.int64) (some FieldType.int64) a b =
      both_int (h.lexical_i64 a) (h.lexical_i64 b)
  declared_cmp (some FieldType.float64) (some FieldType.float64) a b =
      both_float (h.lexical_f64 a) (h.lexical_f64 b)
  declared_cmp (some FieldType.int64) (some FieldType.float64) a b =
      both_float (as_float (h.lexical_i64 a)) (h.lexical_f64 b)
  declared_cmp (some FieldType.float64) (some FieldType.int64) a b =
      both_float (h.lexical_f64 a) (as_float (h.lexical_i64 b))
  declared_cmp none none a b = some (str_cmp a b)
  declared_cmp (some (FieldType.timestamp u f)) (some (FieldType.timestamp v g)) a b =
      both_int (h.parse_timestamp a u f) (h.parse_timestamp b v g)
  declared_cmp (some FieldType.date32) (some FieldType.date32) a b =
      both_int (h.parse_date32 a) (h.parse_date32 b)
  declared_cmp _ _ a b = none

  -- Two values of a `Compare`; `texts` orders two texts.
  unfoldable pub value_cmp : (Str → Str → Option Ordering) → Value → Value → Option Ordering
  unfolding cmp bool_cmp
  value_cmp texts (int64 a) (int64 b) = some (cmp a b)
  value_cmp texts (float64 a) (float64 b) = h.partial_cmp a b
  value_cmp texts (int64 a) (float64 b) = h.partial_cmp (h.of_int a) b
  value_cmp texts (float64 a) (int64 b) = h.partial_cmp a (h.of_int b)
  value_cmp texts (str a) (str b) = texts a b
  value_cmp texts (bool a) (bool b) = some (bool_cmp a b)
  value_cmp texts (date32 a) (date32 b) = some (cmp a b)
  value_cmp texts (timestamp a) (timestamp b) = some (cmp a b)
  value_cmp texts _ _ = none

  -- Two decimals, from their texts.
  unfoldable pub decimal_state :
      CompareOp → (a_scale b_scale : ℕ) → Option Str → Option Str → PredicateState
  unfolding compare_decimal128 apply_op
  decimal_state op sa sb (some a) (some b) = elim (parse_decimal128 h a sa) [
    | none ↦ fail
    | some x ↦ elim (parse_decimal128 h b sb) [
      | none ↦ fail
      | some y ↦ verdict (apply_op op (some (compare_decimal128 x sa y sb)))
    ]
  ]
  decimal_state op sa sb _ _ = undecided

  -- `value.and_then(normalize)`
  unfoldable pub seen : FieldType → Option Value → Option Value
  unfolding normalize
  seen ft none = none
  seen ft (some v) = normalize h ft v

  unfoldable pub ordered_state :
      CompareOp → (Value → Value → Option Ordering) → Option Value → Option Value → PredicateState
  unfolding apply_op
  ordered_state op order (some a) (some b) = verdict (apply_op op (order a b))
  ordered_state op order _ _ = undecided

  unfoldable pub typed_state :
      RowScope → CompareOp → (field_a field_b : Str) → FieldType → FieldType → PredicateState
  unfolding decimal_state seen ordered_state value_cmp declared_cmp
  typed_state r op fa fb (FieldType.decimal128 sa) (FieldType.decimal128 sb) =
      decimal_state op sa sb (get_buffered_str h r fa) (get_buffered_str h r fb)
  typed_state r op fa fb ta tb =
      let da = lookup (resolve_or r.plan fa) r.plan.field_types in
      let db = lookup (resolve_or r.plan fb) r.plan.field_types in
      ordered_state op (value_cmp (declared_cmp da db)) (seen ta (get_buffered_value r fa))
        (seen tb (get_buffered_value r fb))

  unfoldable pub eval_compare : RowScope → Str → CompareOp → Str → PredicateState
  unfolding compatible typed_state
  eval_compare r fa op fb =
      let ta = column_type r.plan (resolve_or r.plan fa) in
      let tb = column_type r.plan (resolve_or r.plan fb) in
      if compatible ta tb then typed_state r op fa fb ta tb else fail

  -- The value of a `CompareLiteral`: dates, timestamps and decimals stay as they are.
  literal_side : FieldType → Value → Option Value
  unfolding normalize
  literal_side FieldType.int64 v = normalize h FieldType.int64 v
  literal_side FieldType.float64 v = normalize h FieldType.float64 v
  literal_side FieldType.boolean v = normalize h FieldType.boolean v
  literal_side _ v = some v

  unfoldable pub parsed_literal : FieldType → Str → Option Value
  unfolding parse_bool
  parsed_literal FieldType.int64 s = elim (h.lexical_i64 s) [
    | none ↦ none
    | some i ↦ some (int64 i)
  ]
  parsed_literal FieldType.float64 s = elim (h.lexical_f64 s) [
    | none ↦ none
    | some x ↦ some (float64 x)
  ]
  parsed_literal FieldType.boolean s = elim (parse_bool s) [ none ↦ none | some b ↦ some (bool b) ]
  parsed_literal _ s = some (str s)

  unfoldable pub literal_value : FieldType → Option Value → Option Value
  unfolding literal_side
  literal_value ft none = none
  literal_value ft (some v) = literal_side ft v

  -- Dates and timestamps have no order here.
  unfoldable pub literal_cmp : Value → Value → Option Ordering
  unfolding cmp bool_cmp str_cmp
  literal_cmp (int64 a) (int64 b) = some (cmp a b)
  literal_cmp (float64 a) (float64 b) = h.partial_cmp a b
  literal_cmp (int64 a) (float64 b) = h.partial_cmp (h.of_int a) b
  literal_cmp (float64 a) (int64 b) = h.partial_cmp a (h.of_int b)
  literal_cmp (str a) (str b) = some (str_cmp a b)
  literal_cmp (bool a) (bool b) = some (bool_cmp a b)
  literal_cmp _ _ = none

  unfoldable pub eval_compare_literal : RowScope → Str → CompareOp → Str → PredicateState
  unfolding literal_value parsed_literal literal_cmp ordered_state
  eval_compare_literal r field op value =
      let ft = column_type r.plan (resolve_or r.plan field) in
      ordered_state op literal_cmp (literal_value ft (get_buffered_value r field))
        (parsed_literal ft value)
