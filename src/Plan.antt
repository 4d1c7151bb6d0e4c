-- ===== src/Plan.antt =====
-- crates/rypipe-core/src/plan.rs and the data types of crates/rypipe-core/src/plan/predicate.rs.
pub mod Resolve
mod Tests
use rypipe.Prelude.{
  ℕ, Option, none, some, Bool, true, false, ◌&&◌, ◌||◌, List, [], ◌∷◌, Str, str_eq, lookup, member,
  ◌==◌, if◌then◌else◌,
}
use rypipe.Value.{F64, TimeUnit, second, millisecond, microsecond, nanosecond}

pub data FieldType : Type 0 where
  string int64 float64 boolean dictionary date32 : FieldType
  timestamp : TimeUnit → Option Str → FieldType
  decimal128 : ℕ → FieldType

pub data CompareOp : Type 0 where
  gt lt ge le eq ne : CompareOp

pub data ArithOp : Type 0 where
  add sub mul div : ArithOp

pub data TrimMode : Type 0 where
  both start end : TrimMode

-- A compiled expression is a function of its pattern, so `regex` keeps the pattern alone.
pub data FilterPredicate : Type 0 where
  not_equal : Str → Str → FilterPredicate
  equal : Str → Str → FilterPredicate
  compare : Str → CompareOp → Str → FilterPredicate
  compare_literal : Str → CompareOp → Str → FilterPredicate
  starts_with : Str → Str → FilterPredicate
  ends_with : Str → Str → FilterPredicate
  in_set : Str → List Str → FilterPredicate
  not_in : Str → List Str → FilterPredicate
  always : Bool → FilterPredicate
  not_field : Str → FilterPredicate
  arithmetic_compare : Str → ArithOp → F64 → CompareOp → Str → FilterPredicate
  strip : Str → CompareOp → Str → TrimMode → FilterPredicate
  lower : Str → CompareOp → Str → FilterPredicate
  upper : Str → CompareOp → Str → FilterPredicate
  replace : Str → Str → Str → CompareOp → Str → FilterPredicate
  length : Str → CompareOp → Str → FilterPredicate
  contains : Str → Str → FilterPredicate
  is_null : Str → FilterPredicate
  is_type : Str → FieldType → FilterPredicate
  regex : Str → Str → FilterPredicate
  and or : FilterPredicate → FilterPredicate → FilterPredicate
  not : FilterPredicate → FilterPredicate

-- `==` on time units and on field types.
unfoldable pub unit_eq : TimeUnit → TimeUnit → Bool
unit_eq second second = true
unit_eq millisecond millisecond = true
unit_eq microsecond microsecond = true
unit_eq nanosecond nanosecond = true
unit_eq _ _ = false

format_eq : Option Str → Option Str → Bool
unfolding str_eq
format_eq none none = true
format_eq (some f) (some g) = str_eq f g
format_eq _ _ = false

unfoldable pub type_eq : FieldType → FieldType → Bool
unfolding unit_eq format_eq
type_eq string string = true
type_eq int64 int64 = true
type_eq float64 float64 = true
type_eq boolean boolean = true
type_eq dictionary dictionary = true
type_eq date32 date32 = true
type_eq (timestamp u f) (timestamp v g) = unit_eq u v && format_eq f g
type_eq (decimal128 s) (decimal128 t) = s == t
type_eq _ _ = false

-- The observer is not kept: its hooks change nothing in the engine.
pub record ExecutionPlan : Type 0 where
  pub field_map : List (Str × Str)
  pub drop_fields : List Str
  pub field_types : List (Str × FieldType)
  pub dictionary_columns : List Str
  pub filter : Option FilterPredicate
  pub schema_order : List Str
  pub auto_dict : Bool
  pub dict_threshold : Option F64
  pub dict_max_size : Option ℕ
  pub strict_types : Bool
  pub max_split_chunks : Option ℕ
  pub min_chunk_bytes : Option ℕ

-- Determine the storage type for an output column.
unfoldable pub column_type : ExecutionPlan → Str → FieldType
unfolding lookup member
column_type plan name = elim (lookup name plan.field_types) [
  | some ft ↦ ft
  | none ↦ if member name plan.dictionary_columns then dictionary else string
]

-- `plan.field_map.get(f).map_or(f, …)`, the function `resolve` of plan/predicate.rs.
unfoldable pub rename : ExecutionPlan → Str → Str
unfolding lookup
rename plan raw = elim (lookup raw plan.field_map) [ some s ↦ s | none ↦ raw ]

-- `matches` inside `filter_references`.
unfoldable pub references : ExecutionPlan → Str → FilterPredicate → Bool
unfolding rename str_eq
references plan name (equal f _) = str_eq (rename plan f) name
references plan name (not_equal f _) = str_eq (rename plan f) name
references plan name (compare_literal f _ _) = str_eq (rename plan f) name
references plan name (starts_with f _) = str_eq (rename plan f) name
references plan name (ends_with f _) = str_eq (rename plan f) name
references plan name (in_set f _) = str_eq (rename plan f) name
references plan name (not_in f _) = str_eq (rename plan f) name
references plan name (not_field f) = str_eq (rename plan f) name
references plan name (arithmetic_compare f _ _ _ _) = str_eq (rename plan f) name
references plan name (strip f _ _ _) = str_eq (rename plan f) name
references plan name (lower f _ _) = str_eq (rename plan f) name
references plan name (upper f _ _) = str_eq (rename plan f) name
references plan name (replace f _ _ _ _) = str_eq (rename plan f) name
references plan name (length f _ _) = str_eq (rename plan f) name
references plan name (contains f _) = str_eq (rename plan f) name
references plan name (is_null f) = str_eq (rename plan f) name
references plan name (is_type f _) = str_eq (rename plan f) name
references plan name (regex f _) = str_eq (rename plan f) name
references plan name (always _) = false
references plan name (compare f _ g) = str_eq (rename plan f) name || str_eq (rename plan g) name
references plan name (and a b) = references plan name a || references plan name b
references plan name (or a b) = references plan name a || references plan name b
references plan name (not a) = references plan name a

unfoldable pub filter_references : ExecutionPlan → Str → Bool
filter_references plan name = elim plan.filter [ none ↦ false | some f ↦ references plan name f ]

abbrev pub is_empty {ℓ} : {A : Type ℓ} → List A → Bool
is_empty [] = true
is_empty (x ∷ xs) = false

abbrev pub flip : Bool → Bool
flip true = false
flip false = true

-- Rename, then drop, then project to `schema_order`; `none` means that the field is dropped.
unfoldable pub resolve_field : ExecutionPlan → Str → Option Str
unfolding rename member filter_references
resolve_field plan raw =
    let resolved = rename plan raw in
    if member resolved plan.drop_fields
    then none
    else if flip (is_empty plan.schema_order)
        && flip (member resolved plan.schema_order)
        && flip (filter_references plan resolved)
    then none
    else some resolved
