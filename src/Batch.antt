-- ===== src/Batch.antt =====
-- The batch filter of plan/predicate.rs, which tests a row of finished columns: the values that its
-- leaves read, compare and parse. `FilterPredicate::check` is in Batch.Check.
pub mod Check
pub mod Keeps
pub mod Cells
pub mod Agrees
pub mod Leaves
pub mod RowFilter
pub mod Verdicts
pub mod Decimals
mod Tests
use Prim.Native.Nat.{Ordering}
use rypipe.Prelude.{
  ℕ, Bool, true, false, ◌||◌, ◌&&◌, Option, none, some, List, [], ◌∷◌, ℤ, pos, negsuc, cmp, ◌-◌,
  ◌^◌, Str, bytes, str_eq, str_cmp, member, get_elem?, lookup, ◌==◌, if◌then◌else◌,
}
use rypipe.Value.{F64, Host}
use rypipe.Plan.{FieldType, CompareOp, ArithOp, ExecutionPlan, rename, unit_eq}
use rypipe.Decimal.{parse_decimal128, compare_decimal128}
use rypipe.Filter.Row.{apply_op}
use rypipe.Filter.Leaf.{bool_cmp, looks_boolean, arith_result}
use rypipe.Columnar.Primitive
use rypipe.Columnar.Nullable
use rypipe.Columnar.Texts
use rypipe.Builder.{ColumnBuilder, and_then, zero_int, zero_float}
use rypipe.Builder.Read.{TypedValue, get_typed_value, get_filter_value, decoded, code_bytes}

abbrev pub is_some {ℓ} : {A : Type ℓ} → Option A → Bool
is_some none = false
is_some (some a) = true

-- `o.is_some_and(f)`
abbrev pub is_some_and {ℓ} : {A : Type ℓ} → Option A → (A → Bool) → Bool
is_some_and none f = false
is_some_and (some a) f = f a

-- The columns of a table with the index of each name.
pub record Columns : Type 0 where
  pub columns : List ColumnBuilder
  pub field_index : List (Str × ℕ)

-- An index out of range, where the code panics, reads as a missing column.
unfoldable pub get_column : Columns → Str → Option ColumnBuilder
unfolding lookup
get_column c name = and_then (lookup name c.field_index) (get_elem? c.columns)

module _ (H : Host) where
  unfoldable pub get_filter_view : ColumnBuilder → ℕ → Option Str
  unfolding Texts.get Nullable.get
  get_filter_view (ColumnBuilder.string v) i = Texts.get H.is_utf8 v i
  get_filter_view (ColumnBuilder.dictionary codes d) i =
      and_then (code_bytes H d (Nullable.get 0 codes i)) (decoded H)
  get_filter_view _ i = none

  -- The borrowed text first, then the formatted one.
  unfoldable pub column_text : ColumnBuilder → ℕ → Option Str
  column_text c row = elim (get_filter_view c row) [
    | some s ↦ some s
    | none ↦ get_filter_value H c row
  ]

  unfoldable pub get_value : Columns → ExecutionPlan → Str → ℕ → Option Str
  unfolding get_column rename column_text
  get_value c plan field row = and_then (get_column c (rename plan field)) (λ b. column_text b row)

  -- `f >= lo && f <= hi` for the bounds of `i64`.
  abbrev float_ge : F64 → F64 → Bool
  float_ge a b = elim (H.partial_cmp a b) [
    | some Ordering.gt ↦ true
    | some Ordering.eq ↦ true
    | _ ↦ false
  ]

  abbrev float_eq : F64 → F64 → Bool
  float_eq a b = elim (H.partial_cmp a b) [ some Ordering.eq ↦ true | _ ↦ false ]

  fits_i64 : F64 → Bool
  fits_i64 f =
      float_eq (H.fract f) (H.of_int (pos 0))
      && float_ge f (H.of_int (negsuc (2 ^ 63 - 1)))
      && float_ge (H.of_int (pos (2 ^ 63 - 1))) f

  is_flag : ℤ → Bool
  is_flag (pos n) = n == 0 || n == 1
  is_flag (negsuc n) = false

  -- The arms of `is_type_at` for a column of texts.
  unfoldable pub text_is_type : Str → FieldType → Bool
  unfolding looks_boolean
  text_is_type s FieldType.string = true
  text_is_type s FieldType.int64 = is_some (H.parse_i64 s)
  text_is_type s FieldType.float64 = is_some (H.parse_f64 s)
  text_is_type s FieldType.boolean = looks_boolean H s
  text_is_type s FieldType.date32 = is_some (H.parse_date32 s)
  text_is_type s (FieldType.timestamp u f) = is_some (H.parse_i64 s) || is_some (H.parse_date32 s)
  text_is_type s (FieldType.decimal128 n) =
      is_some (H.parse_i128 (H.trim s)) || is_some (H.parse_f64 s)
  text_is_type s FieldType.dictionary = true

  unfoldable pub is_type_at : ColumnBuilder → ℕ → FieldType → Bool
  unfolding text_is_type fits_i64 is_flag unit_eq Texts.get Primitive.get Nullable.get
  is_type_at (ColumnBuilder.string v) i ft =
      is_some_and (Texts.get H.is_utf8 v i) (λ s. text_is_type s ft)
  is_type_at (ColumnBuilder.int64 v) i FieldType.int64 = is_some (Primitive.get zero_int v i)
  is_type_at (ColumnBuilder.int64 v) i FieldType.float64 = is_some (Primitive.get zero_int v i)
  is_type_at (ColumnBuilder.int64 v) i FieldType.string = is_some (Primitive.get zero_int v i)
  is_type_at (ColumnBuilder.int64 v) i FieldType.boolean =
      is_some_and (Primitive.get zero_int v i) is_flag
  is_type_at (ColumnBuilder.float64 v) i FieldType.float64 = is_some (Primitive.get zero_float v i)
  is_type_at (ColumnBuilder.float64 v) i FieldType.string = is_some (Primitive.get zero_float v i)
  is_type_at (ColumnBuilder.float64 v) i FieldType.int64 =
      is_some_and (Primitive.get zero_float v i) fits_i64
  is_type_at (ColumnBuilder.float64 v) i FieldType.boolean =
      is_some_and (Primitive.get zero_float v i)
        (λ f. float_eq f (H.of_int (pos 0)) || float_eq f (H.of_int (pos 1)))
  is_type_at (ColumnBuilder.boolean v) i FieldType.boolean = is_some (Primitive.get false v i)
  is_type_at (ColumnBuilder.boolean v) i FieldType.string = is_some (Primitive.get false v i)
  is_type_at (ColumnBuilder.boolean v) i FieldType.int64 = is_some (Primitive.get false v i)
  is_type_at (ColumnBuilder.boolean v) i FieldType.float64 = is_some (Primitive.get false v i)
  is_type_at (ColumnBuilder.date32 v) i FieldType.date32 = is_some (Primitive.get zero_int v i)
  is_type_at (ColumnBuilder.date32 v) i FieldType.string = is_some (Primitive.get zero_int v i)
  is_type_at (ColumnBuilder.date32 v) i FieldType.int64 = is_some (Primitive.get zero_int v i)
  is_type_at (ColumnBuilder.timestamp u f v) i (FieldType.timestamp u' f') =
      unit_eq u u' && is_some (Primitive.get zero_int v i)
  is_type_at (ColumnBuilder.timestamp u f v) i FieldType.string =
      is_some (Primitive.get zero_int v i)
  is_type_at (ColumnBuilder.timestamp u f v) i FieldType.int64 =
      is_some (Primitive.get zero_int v i)
  is_type_at (ColumnBuilder.decimal128 s v) i (FieldType.decimal128 t) =
      is_some (Primitive.get zero_int v i)
  is_type_at (ColumnBuilder.decimal128 s v) i FieldType.string =
      is_some (Primitive.get zero_int v i)
  is_type_at (ColumnBuilder.decimal128 s v) i FieldType.int64 = is_some (Primitive.get zero_int v i)
  is_type_at (ColumnBuilder.decimal128 s v) i FieldType.float64 =
      is_some (Primitive.get zero_int v i)
  is_type_at (ColumnBuilder.dictionary codes d) i FieldType.dictionary =
      is_some (Nullable.get 0 codes i)
  is_type_at (ColumnBuilder.dictionary codes d) i FieldType.string =
      is_some (Nullable.get 0 codes i)
  is_type_at c i ft = false

  -- The order of two values, with integers widened to floats; `none` where they have none.
  unfoldable pub typed_cmp : TypedValue → TypedValue → Option Ordering
  unfolding cmp str_cmp bool_cmp compare_decimal128 unit_eq
  typed_cmp (TypedValue.int64 x) (TypedValue.int64 y) = some (cmp x y)
  typed_cmp (TypedValue.float64 x) (TypedValue.float64 y) = H.partial_cmp x y
  typed_cmp (TypedValue.int64 x) (TypedValue.float64 y) = H.partial_cmp (H.of_int x) y
  typed_cmp (TypedValue.float64 x) (TypedValue.int64 y) = H.partial_cmp x (H.of_int y)
  typed_cmp (TypedValue.decimal128 x s) (TypedValue.decimal128 y t) =
      some (compare_decimal128 x s y t)
  typed_cmp (TypedValue.str x) (TypedValue.str y) = some (str_cmp x y)
  typed_cmp (TypedValue.bool x) (TypedValue.bool y) = some (bool_cmp x y)
  typed_cmp (TypedValue.date32 x) (TypedValue.date32 y) = some (cmp x y)
  typed_cmp (TypedValue.timestamp x u) (TypedValue.timestamp y v) =
      if unit_eq u v then some (cmp x y) else none
  typed_cmp a b = none

  unfoldable pub compare_typed : TypedValue → CompareOp → TypedValue → Bool
  unfolding typed_cmp apply_op
  compare_typed a op b = apply_op op (typed_cmp a b)

  -- `"true" | "True" | "TRUE"`, and the same for false.
  bool_literal : Str → Option Bool
  unfolding member
  bool_literal s =
      if member s (bytes "true" ∷ bytes "True" ∷ bytes "TRUE" ∷ [])
      then some true
      else if member s (bytes "false" ∷ bytes "False" ∷ bytes "FALSE" ∷ [])
      then some false
      else none

  unfoldable pub typed_from_literal : TypedValue → Str → Option TypedValue
  unfolding bool_literal parse_decimal128
  typed_from_literal (TypedValue.str s) literal = some (TypedValue.str literal)
  typed_from_literal (TypedValue.int64 i) literal =
      and_then (H.parse_i64 literal) (λ v. some (TypedValue.int64 v))
  typed_from_literal (TypedValue.float64 f) literal =
      and_then (H.parse_f64 literal) (λ v. some (TypedValue.float64 v))
  typed_from_literal (TypedValue.bool b) literal =
      and_then (bool_literal literal) (λ v. some (TypedValue.bool v))
  typed_from_literal (TypedValue.date32 d) literal =
      and_then (H.parse_i32 literal) (λ v. some (TypedValue.date32 v))
  typed_from_literal (TypedValue.timestamp t unit) literal =
      and_then (H.parse_i64 literal) (λ v. some (TypedValue.timestamp v unit))
  typed_from_literal (TypedValue.decimal128 n scale) literal =
      and_then (parse_decimal128 H literal scale) (λ v. some (TypedValue.decimal128 v scale))

  -- The number that arithmetic reads.
  unfoldable pub as_number : TypedValue → Option F64
  as_number (TypedValue.int64 v) = some (H.of_int v)
  as_number (TypedValue.float64 v) = some v
  as_number (TypedValue.decimal128 v scale) = some (H.f64_div (H.of_int v) (H.powi10 scale))
  as_number (TypedValue.str s) = H.parse_f64 s
  as_number v = none

  unfoldable pub number_holds : ArithOp → F64 → CompareOp → Str → TypedValue → Bool
  unfolding as_number arith_result apply_op
  number_holds op value cmp_op literal a = is_some_and (as_number a) (λ x.
      is_some_and (arith_result H op x value) (λ result.
        is_some_and (H.parse_f64 literal) (λ y. apply_op cmp_op (H.partial_cmp result y))))
