-- ===== src/Filter/Leaf.antt =====
-- The leaves of `TableBuilder::eval_predicate` (engine/table_builder/predicates.rs), which read
-- the value of a field in the row buffer. A field that has not come yet reads as `none`.
use Prim.Native.Nat.{Ordering}
use rypipe.Prelude.{
  Option, none, some, Bool, true, false, [], ◌∷◌, Str, bytes, str_cmp, member, char_count, pos,
  if◌then◌else◌,
}
use rypipe.Value.{parse_bool, Host, Value, F64, int64, float64, bool, date32, timestamp, as_str}
use rypipe.Plan.{
  FieldType, CompareOp, ArithOp, add, sub, mul, div, TrimMode, both, start, end, column_type,
  type_eq,
}
use rypipe.Filter.Row.{
  PredicateState, undecided, pass, fail, RowScope, get_buffered_value, resolve_or, apply_op,
  verdict,
}

-- `false < true`
unfoldable pub bool_cmp : Bool → Bool → Ordering
bool_cmp false true = Ordering.lt
bool_cmp true false = Ordering.gt
bool_cmp _ _ = Ordering.eq

-- Test a text that is there; wait for one that is not.
abbrev pub waiting : Option Str → (Str → Bool) → PredicateState
waiting none test = undecided
waiting (some s) test = verdict (test s)

-- Test a text that is there; decide at once where it is not.
abbrev pub deciding : PredicateState → Option Str → (Str → Bool) → PredicateState
deciding absent none test = absent
deciding absent (some s) test = verdict (test s)

module _ (h : Host) where
  unfoldable pub arith_result : ArithOp → F64 → F64 → Option F64
  arith_result add x y = some (h.f64_add x y)
  arith_result sub x y = some (h.f64_sub x y)
  arith_result mul x y = some (h.f64_mul x y)
  arith_result div x y = if h.is_zero y then none else some (h.f64_div x y)

  -- A text or a literal that is no number, and a division by zero, hold for nothing.
  unfoldable pub arithmetic_holds : ArithOp → F64 → CompareOp → Str → Str → Bool
  unfolding arith_result apply_op
  arithmetic_holds op value cmp_op literal actual = elim (h.parse_f64 actual) [
    | none ↦ false
    | some x ↦ elim (arith_result op x value) [
      | none ↦ false
      | some result ↦ elim (h.parse_f64 literal) [
        | none ↦ false
        | some y ↦ apply_op cmp_op (h.partial_cmp result y)
      ]
    ]
  ]

  unfoldable pub trimmed : TrimMode → Str → Str
  trimmed both s = h.trim s
  trimmed start s = h.trim_start s
  trimmed end s = h.trim_end s

  unfoldable pub text_holds : CompareOp → Str → Str → Bool
  unfolding apply_op str_cmp
  text_holds op value transformed = apply_op op (some (str_cmp transformed value))

  unfoldable pub length_holds : CompareOp → Str → Str → Bool
  unfolding apply_op char_count
  length_holds op value actual = elim (h.parse_f64 value) [
    | none ↦ false
    | some y ↦ apply_op op (h.partial_cmp (h.of_int (pos (char_count actual))) y)
  ]

  -- `matches!(s.to_lowercase(), …)`
  unfoldable pub looks_boolean : Str → Bool
  unfolding member
  looks_boolean s =
      member (h.to_lowercase s)
        (bytes "true" ∷ bytes "false" ∷ bytes "1" ∷ bytes "0" ∷ bytes "yes" ∷ bytes "no" ∷ [])

  is_some {ℓ} : {A : Type ℓ} → Option A → Bool
  is_some none = false
  is_some (some a) = true

  -- Whether a text in a column of another type counts as the type.
  parses_like : FieldType → Value → Bool
  unfolding looks_boolean is_some as_str
  parses_like FieldType.int64 v = elim (as_str v) [
    | none ↦ false
    | some s ↦ is_some (h.parse_i64 s)
  ]
  parses_like FieldType.float64 v = elim (as_str v) [
    | none ↦ false
    | some s ↦ is_some (h.parse_f64 s)
  ]
  parses_like FieldType.boolean v = elim (as_str v) [ none ↦ false | some s ↦ looks_boolean s ]
  parses_like FieldType.string v = true
  parses_like FieldType.dictionary v = true
  parses_like _ v = false

  -- `IsType`: a field that has not come yet fails.
  unfoldable pub eval_is_type : RowScope → Str → FieldType → PredicateState
  unfolding parses_like
  eval_is_type r field ft = elim (get_buffered_value r field) [
    | none ↦ fail
    | some v ↦
        if type_eq (column_type r.plan (resolve_or r.plan field)) ft
        then pass
        else verdict (parses_like ft v)
  ]

  -- The value a comparison sees: a text in a typed column is parsed.
  unfoldable pub normalize : FieldType → Value → Option Value
  unfolding as_str parse_bool
  normalize FieldType.int64 v = elim (as_str v) [
    | some s ↦ elim (h.lexical_i64 s) [ none ↦ none | some i ↦ some (int64 i) ]
    | none ↦ some v
  ]
  normalize FieldType.float64 v = elim (as_str v) [
    | some s ↦ elim (h.lexical_f64 s) [ none ↦ none | some x ↦ some (float64 x) ]
    | none ↦ some v
  ]
  normalize FieldType.boolean v = elim (as_str v) [
    | some s ↦ elim (parse_bool s) [ none ↦ none | some b ↦ some (bool b) ]
    | none ↦ some v
  ]
  normalize FieldType.date32 v = elim (as_str v) [
    | some s ↦ elim (h.parse_date32 s) [ none ↦ none | some d ↦ some (date32 d) ]
    | none ↦ some v
  ]
  normalize (FieldType.timestamp u f) v = elim (as_str v) [
    | some s ↦ elim (h.parse_timestamp s u f) [ none ↦ none | some t ↦ some (timestamp t) ]
    | none ↦ some v
  ]
  normalize (FieldType.decimal128 n) v = none
  normalize _ v = some v
