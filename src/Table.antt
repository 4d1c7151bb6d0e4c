-- ===== src/Table.antt =====
-- crates/rypipe-core/src/engine/table_builder.rs: `TableBuilder` where fields go straight to the
-- columns: the columns of the output, their names, and the rows. `row_dirty` is a list of 64-bit
-- words. The messages of errors are not modelled, nor are the observer's callbacks, which change
-- nothing here, nor the memory reservation.
pub mod Rows
pub mod Bits
pub mod Lengths
pub mod Aligned
pub mod Fields
pub mod Take
pub mod Index
pub mod Swap
pub mod Extend
pub mod Replaced
pub mod Poured
pub mod Adopted
pub mod Extended
pub mod Taken
pub mod Parts
pub mod Finished
mod Tests
mod ExtendTests
use rypipe.Prelude.{
  ℕ, zero, suc, Bool, true, false, ◌+◌, ◌-◌, ◌*◌, ◌/◌, ◌%◌, ◌&&◌, Option, none, some, List, [], ◌∷◌,
  ◌++◌, Str, str_eq, lookup, length, get_elem?, get_or, set, ltb, ◌==◌, if◌then◌else◌, Error,
  plan_error, map, div_ceil, max,
}
use rypipe.Value.{parse_bool, Value, Host}
use rypipe.Plan.{ExecutionPlan, FieldType, column_type, resolve_field, is_empty, flip}
use rypipe.Decimal.{parse_decimal128}
use rypipe.Columnar.Bits.{test_bit, set_bit}
use rypipe.Columnar.Flat.{is_some}
use rypipe.Builder.{ColumnBuilder, new, push_str, push_value}
use rypipe.Builder.Read.{len, pop}

-- Of a frozen schema (schema.rs), whether a field that it does not have is an error.
pub record FrozenSchema : Type 0 where
  pub exact : Bool

-- `direct` is that of the row buffer: a row of it is counted before its last fields come.
pub record TableBuilder : Type 0 where
  pub columns : List ColumnBuilder
  pub field_index : List (Str × ℕ)
  pub column_order : List Str
  pub row_count : ℕ
  pub plan : ExecutionPlan
  pub row_dirty : List ℕ
  pub frozen : Option FrozenSchema
  pub unknown_error : Bool
  pub strict_error : Option Error
  pub direct : Bool
  pub ordinal_expect : List (Option (ℕ × Str))
  pub current_ordinal : ℕ
  pub rows_accepted : ℕ
  pub rows_rejected : ℕ

-- `order.iter().position(|n| n == name)`, counted from `i`.
unfoldable pub position_from : ℕ → List Str → Str → Option ℕ
unfolding str_eq
position_from i [] name = none
position_from i (n ∷ ns) name =
    let rest = position_from (i + 1) ns name in if str_eq n name then some i else rest

-- The first name in the order of the columns that the schema puts after `p`, counted from `i`.
unfoldable pub later_from : List Str → (p i : ℕ) → List Str → Option ℕ
unfolding position_from
later_from order p i [] = none
later_from order p i (existing ∷ rest) =
    let found = later_from order p (i + 1) rest in
    elim (position_from 0 order existing) [
      | none ↦ found
      | some ep ↦ if ltb p ep then some i else found
    ]

unfoldable pub schema_insert_index : TableBuilder → Str → ℕ
unfolding position_from later_from
schema_insert_index t name =
    let order = t.plan.schema_order in
    if is_empty order then length t.column_order else elim (position_from 0 order name) [
      | none ↦ length t.column_order
      | some p ↦ elim (later_from order p 0 t.column_order) [
        | none ↦ length t.column_order
        | some i ↦ i
      ]
    ]

-- `Vec::insert`, at an index that is at most the length.
unfoldable pub insert : {A : Type 0} → List A → ℕ → A → List A
insert xs zero x = x ∷ xs
insert [] (suc i) x = x ∷ []
insert (y ∷ ys) (suc i) x = y ∷ insert ys i x

-- `Vec::resize`, when it grows.
unfoldable pub padded : {A : Type 0} → List A → ℕ → A → List A
padded [] zero x = []
padded [] (suc n) x = x ∷ padded [] n x
padded (y ∷ ys) zero x = y ∷ ys
padded (y ∷ ys) (suc n) x = y ∷ padded ys n x

-- Whether the column `i` has got a value in the row.
unfoldable pub is_dirty : List ℕ → ℕ → Bool
unfolding test_bit
is_dirty dirty i = test_bit (get_or dirty (i / 64) 0) (i % 64)

-- `row_dirty[word] |= 1 << bit`
unfoldable pub mark : List ℕ → ℕ → List ℕ
unfolding set_bit
mark dirty i = set dirty (i / 64) (set_bit (get_or dirty (i / 64) 0) (i % 64))

-- Whether no column has the name, and an exact schema was frozen.
abbrev pub is_unknown : TableBuilder → Str → Bool
is_unknown t name = elim t.frozen [
  | none ↦ false
  | some f ↦ f.exact && flip (is_some (lookup name t.field_index))
]

-- The ordinal's slot and name, on the first row, and the next ordinal.
unfoldable pub expect : TableBuilder → ℕ → Str → TableBuilder
unfolding padded
expect t idx name =
    let ord = t.current_ordinal in
    let grown = padded t.ordinal_expect (ord + 1) none in
    record t {
      ordinal_expect =
          if t.row_count == 0 then set grown ord (some (idx, name)) else t.ordinal_expect;
      current_ordinal = ord + 1;
    }

module _ (H : Host) where
  -- `for _ in 0..n { b.push(None) }`
  unfoldable pub push_nulls : ColumnBuilder → ℕ → ColumnBuilder
  unfolding push_str
  push_nulls b zero = b
  push_nulls b (suc n) = push_nulls (push_str H b none) n

  unfoldable pub parses_as : Str → FieldType → Bool
  unfolding parse_bool parse_decimal128
  parses_as s FieldType.string = true
  parses_as s FieldType.dictionary = true
  parses_as s FieldType.int64 = is_some (H.lexical_i64 s)
  parses_as s FieldType.float64 = is_some (H.lexical_f64 s)
  parses_as s FieldType.boolean = is_some (parse_bool s)
  parses_as s FieldType.date32 = is_some (H.parse_date32 s)
  parses_as s (FieldType.timestamp unit fmt) = is_some (H.parse_timestamp s unit fmt)
  parses_as s (FieldType.decimal128 scale) = is_some (parse_decimal128 H s scale)

  -- The column that `name` gets, with nulls for the rows so far.
  unfoldable pub with_column : TableBuilder → Str → TableBuilder
  unfolding push_nulls column_type new schema_insert_index insert padded
  with_column t name =
      let backfill = if t.direct then t.row_count - 1 else t.row_count in
      let b = push_nulls (new (column_type t.plan name)) backfill in
      let columns = t.columns ++ (b ∷ []) in
      record t {
        columns = columns;
        field_index = (name, length t.columns) ∷ t.field_index;
        row_dirty = padded t.row_dirty (div_ceil (length columns) 64) 0;
        column_order = insert t.column_order (schema_insert_index t name) name;
      }

  unfoldable pub ensure_column_idx : TableBuilder → Str → ℕ × TableBuilder
  unfolding with_column lookup
  ensure_column_idx t name = elim (lookup name t.field_index) [
    | some idx ↦ (idx, t)
    | none ↦
        if is_unknown t name
        then (0, record t { unknown_error = true })
        else (length t.columns, with_column t name)
  ]

  -- Whether the value of the column `idx` is a text that is not of the declared type.
  unfoldable pub violates : TableBuilder → ℕ → Value → Bool
  unfolding parses_as lookup
  violates t idx (Value.str s) = elim (get_elem? t.column_order idx) [
    | none ↦ false
    | some name ↦ elim (lookup name t.plan.field_types) [
      | none ↦ false
      | some ft ↦ flip (parses_as s ft)
    ]
  ]
  violates t idx _ = false

  unfoldable pub record_strict_violation_at : TableBuilder → ℕ → Value → TableBuilder
  unfolding violates
  record_strict_violation_at t idx value =
      if t.plan.strict_types && flip (is_some t.strict_error) && violates t idx value
      then record t { strict_error = some plan_error }
      else t

  -- A value takes the place of one that the row already has in the column.
  unfoldable pub replaced : ColumnBuilder → ℕ → Value → ColumnBuilder
  unfolding len pop push_value
  replaced b row_count value = push_value H (if ltb row_count (len b) then pop b else b) value

  unfoldable pub store : TableBuilder → ℕ → Value → TableBuilder
  unfolding mark replaced
  store t idx value = record t {
    row_dirty = mark t.row_dirty idx;
    columns = elim (get_elem? t.columns idx) [
      | none ↦ t.columns
      | some b ↦ set t.columns idx (replaced b t.row_count value)
    ];
  }

  unfoldable pub push_field_resolved : TableBuilder → Str → Value → TableBuilder
  unfolding ensure_column_idx record_strict_violation_at expect store
  push_field_resolved t name value =
      let (idx, t') = ensure_column_idx t name in
      if is_unknown t name
      then record t { unknown_error = true }
      else store (expect (record_strict_violation_at t' idx value) idx name) idx value

  unfoldable pub put_field_at : TableBuilder → ℕ → Value → TableBuilder
  unfolding record_strict_violation_at store
  put_field_at t idx value =
      if ltb idx (length t.columns)
      then store (record_strict_violation_at t idx value) idx value
      else t

  -- A field with its output name, whose column may be there.
  unfoldable pub push_kept : TableBuilder → Str → Value → TableBuilder
  unfolding push_field_resolved
  push_kept t resolved value = elim (lookup resolved t.field_index) [
    | none ↦ push_field_resolved t resolved value
    | some idx ↦ store (expect (record_strict_violation_at t idx value) idx resolved) idx value
  ]

  unfoldable pub push_field : TableBuilder → Str → Value → TableBuilder
  unfolding push_kept resolve_field
  push_field t name value =
      let kept = elim (resolve_field t.plan name) as (λ o. TableBuilder) [
        | none ↦ t
        | some resolved ↦ push_kept t resolved value
      ] in
      if is_empty t.plan.field_map && is_empty t.plan.drop_fields && is_empty t.plan.schema_order
      then push_field_resolved t name value
      else kept
