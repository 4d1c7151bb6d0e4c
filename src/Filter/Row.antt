-- ===== src/Filter/Row.antt =====
-- What evaluation reads of a `TableBuilder`: the plan, the slots of the columns, and the buffer of
-- the current row (engine/predicate.rs, and the accessors of engine/table_builder/predicates.rs).
use Prim.Native.Nat.{Ordering}
use mathlib.Core.Option
use rypipe.Prelude.{
  ℕ, Option, none, some, Bool, true, false, List, [], ◌∷◌, Str, lookup, ◌==◌, if◌then◌else◌,
}
use rypipe.Value.{parse_bool, show_bool, Host, Value, str, int64, float64, bool, date32, timestamp}
use rypipe.Decimal.{parse_decimal128, format_decimal128}
use rypipe.Plan.{
  FieldType, ExecutionPlan, CompareOp, gt, lt, ge, le, eq, ne, column_type, resolve_field,
}

pub data PredicateState : Type 0 where
  undecided pass fail : PredicateState

-- `fields` is the `RowBuffer.fields` of the row that is being read.
pub record RowScope : Type 0 where
  pub plan : ExecutionPlan
  pub field_index : List (Str × ℕ)
  pub fields : List (ℕ × Value)

-- The last entry of a slot counts: the source searches from the end.
unfoldable pub last_of : ℕ → List (ℕ × Value) → Option Value
last_of slot [] = none
last_of slot ((s, v) ∷ rest) =
    let later = last_of slot rest in
    elim later [ some w ↦ some w | none ↦ if s == slot then some v else none ]

unfoldable pub slot_in : Option Str → List (Str × ℕ) → Option ℕ
slot_in none index = none
slot_in (some resolved) index = lookup resolved index

-- The slot of a field: renamed, not dropped, and with a column.
unfoldable pub slot_of : RowScope → Str → Option ℕ
unfolding slot_in
slot_of r field = slot_in (resolve_field r.plan field) r.field_index

unfoldable pub value_at : Option ℕ → List (ℕ × Value) → Option Value
value_at none fields = none
value_at (some slot) fields = last_of slot fields

unfoldable pub get_buffered_value : RowScope → Str → Option Value
unfolding value_at
get_buffered_value r field = value_at (slot_of r field) r.fields

-- The value as text in the form that its column type gives it; `none` if it does not parse.
-- Like the source's, the arms of a `match` over the type first.
unfoldable pub as_text : Host → FieldType → Value → Option Str
unfolding parse_bool show_bool
as_text h FieldType.int64 (str s) = Option.map h.show_i64 (h.parse_i64 s)
as_text h FieldType.int64 (int64 i) = some (h.show_i64 i)
as_text h FieldType.int64 _ = none
as_text h FieldType.float64 (str s) = Option.map h.show_f64 (h.parse_f64 s)
as_text h FieldType.float64 (int64 i) = some (h.show_i64 i)
as_text h FieldType.float64 (float64 f) = some (h.show_f64 f)
as_text h FieldType.float64 _ = none
as_text h FieldType.boolean (str s) = Option.map show_bool (parse_bool s)
as_text h FieldType.boolean (bool b) = some (show_bool b)
as_text h FieldType.boolean _ = none
as_text h (FieldType.decimal128 n) (str s) =
    Option.map (λ v. format_decimal128 v n) (parse_decimal128 h s n)
as_text h (FieldType.decimal128 n) _ = none
as_text h FieldType.date32 (str s) = Option.map h.format_date32 (h.parse_date32 s)
as_text h FieldType.date32 (date32 d) = some (h.format_date32 d)
as_text h FieldType.date32 _ = none
as_text h (FieldType.timestamp u f) (str s) =
    Option.map (λ v. h.format_timestamp v u) (h.parse_timestamp s u f)
as_text h (FieldType.timestamp u f) (timestamp t) = some (h.format_timestamp t u)
as_text h (FieldType.timestamp u f) _ = none
as_text h _ (str s) = some s
as_text h _ (int64 i) = some (h.show_i64 i)
as_text h _ (float64 f) = some (h.show_f64 f)
as_text h _ (bool b) = some (show_bool b)
as_text h _ v = some (h.debug_value v)

-- The name a field is looked up by when the plan drops it.
unfoldable pub resolve_or : ExecutionPlan → Str → Str
resolve_or plan field = elim (resolve_field plan field) [ some s ↦ s | none ↦ field ]

-- The text of a buffered value, in the form of the column that the field resolves to.
unfoldable pub text_at : Host → ExecutionPlan → Str → Option Value → Option Str
text_at h plan field none = none
text_at h plan field (some value) = elim (resolve_field plan field) [
  | none ↦ none
  | some resolved ↦ as_text h (column_type plan resolved) value
]

unfoldable pub get_buffered_str : Host → RowScope → Str → Option Str
unfolding text_at
get_buffered_str h r field = text_at h r.plan field (get_buffered_value r field)

-- The inner `match` of `apply_op`, which the three-valued evaluation repeats at each comparison.
unfoldable pub op_holds : CompareOp → Ordering → Bool
op_holds gt Ordering.gt = true
op_holds lt Ordering.lt = true
op_holds ge Ordering.lt = false
op_holds ge _ = true
op_holds le Ordering.gt = false
op_holds le _ = true
op_holds eq Ordering.eq = true
op_holds ne Ordering.eq = false
op_holds ne _ = true
op_holds _ _ = false

-- `apply_op` of plan/predicate.rs: no order (NaN) matches nothing.
unfoldable pub apply_op : CompareOp → Option Ordering → Bool
unfolding op_holds
apply_op op none = false
apply_op op (some o) = op_holds op o

abbrev pub verdict : Bool → PredicateState
verdict true = pass
verdict false = fail
