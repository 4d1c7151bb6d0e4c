-- ===== src/Table/Fields.antt =====
-- A field that comes into a `TableBuilder` keeps its columns aligned.
use rypipe.Prelude.{
  ℕ, false, ◌&&◌, ◌≡◌, ◌<◌, refl, none, some, Str, lookup, length, ltb, Bool-cases, Option-cases,
  inl, inr, arith, length-append, ltb→lt,
}
use rypipe.Value.{Value, Host}
use rypipe.Plan.{resolve_field, is_empty, flip}
use rypipe.Columnar.Flat.{is_some}
use rypipe.Table.{
  TableBuilder, with_column, ensure_column_idx, is_unknown, record_strict_violation_at, violates,
  expect, store, push_field_resolved, push_kept, push_field, put_field_at,
}
use rypipe.Table.Aligned.{IsAligned, store-IsAligned, with_column-IsAligned}

module _ (H : Host) where
  ensure-none :
      (t : TableBuilder) (name : Str)
      → lookup name t.field_index ≡ none
      → is_unknown t name ≡ false
      → ensure_column_idx H t name ≡ (length t.columns, with_column H t name)
  unfolding ensure_column_idx
  ensure-none t name h known = rw (h, ensure_column_idx, known) refl

  ensure-some :
      (t : TableBuilder) (name : Str) (i : ℕ)
      → lookup name t.field_index ≡ some i
      → ensure_column_idx H t name ≡ (i, t)
  unfolding ensure_column_idx
  ensure-some t name i h = rw (h, ensure_column_idx) refl

  length_more :
      (t : TableBuilder) (name : Str) → length t.columns < length (with_column H t name).columns
  unfolding with_column
  length_more t name = omega (arith, length-append t.columns _)

  -- The slot of a name, whose column is there unless the name is unknown.
  ensure_column_idx-IsAligned :
      (t : TableBuilder) (name : Str)
      → IsAligned t
      → is_unknown t name ≡ false
      → IsAligned (ensure_column_idx H t name).1
        × ((ensure_column_idx H t name).0 < length (ensure_column_idx H t name).1.columns)
  ensure_column_idx-IsAligned t name s known = elim (Option-cases (lookup name t.field_index)) [
    | inl missing ↦
        rw (ensure-none t name missing known) (with_column-IsAligned H t name s, length_more t name)
    | inr (i, there) ↦ rw (ensure-some t name i there) (s, s.aligned.slots name i there)
  ]

  recorded :
      (t : TableBuilder) (i : ℕ) (v : Value)
      → IsAligned t
      → IsAligned (record_strict_violation_at H t i v)
        × (length (record_strict_violation_at H t i v).columns ≡ length t.columns)
  unfolding record_strict_violation_at
  recorded t i v s =
      elim (Bool-cases (t.plan.strict_types && flip (is_some t.strict_error) && violates H t i v)) [
        | inl bad ↦ rw bad (record { between = s.between; aligned = s.aligned }, refl)
        | inr good ↦ rw good (s, refl)
      ]

  expected :
      (t : TableBuilder) (i idx : ℕ) (name : Str) (v : Value)
      → IsAligned t
      → IsAligned (expect (record_strict_violation_at H t i v) idx name)
        × (length (expect (record_strict_violation_at H t i v) idx name).columns ≡ length t.columns)
  unfolding expect
  expected t i idx name v s =
      let (e, same) = recorded t i v s in
      (record { between = e.between; aligned = e.aligned }, same)

  pub push_field_resolved-IsAligned :
      (t : TableBuilder) (name : Str) (v : Value)
      → IsAligned t
      → IsAligned (push_field_resolved H t name v)
  unfolding push_field_resolved
  push_field_resolved-IsAligned t name v s = elim (Bool-cases (is_unknown t name)) [
    | inl unknown ↦ rw unknown (record { between = s.between; aligned = s.aligned })
    | inr known ↦
        let t' : TableBuilder = (ensure_column_idx H t name).1 in
        let idx : ℕ = (ensure_column_idx H t name).0 in
        let (s', lt) = ensure_column_idx-IsAligned t name s known in
        let (e, same) = expected t' idx idx name v s' in
        rw known (
          store-IsAligned H (expect (record_strict_violation_at H t' idx v) idx name) idx v e
            (omega (arith, same, lt)))
  ]

  -- A value in a column that is there.
  put_there :
      (t : TableBuilder) (idx : ℕ) (name : Str) (v : Value)
      → IsAligned t
      → idx < length t.columns
      → IsAligned (store H (expect (record_strict_violation_at H t idx v) idx name) idx v)
  put_there t idx name v s lt =
      let (e, same) = expected t idx idx name v s in
      store-IsAligned H (expect (record_strict_violation_at H t idx v) idx name) idx v e
        (omega (arith, same, lt))

  push_kept-IsAligned :
      (t : TableBuilder) (resolved : Str) (v : Value)
      → IsAligned t
      → IsAligned (push_kept H t resolved v)
  unfolding push_kept
  push_kept-IsAligned t resolved v s = elim (Option-cases (lookup resolved t.field_index)) [
    | inl missing ↦ rw (missing, push_kept) (push_field_resolved-IsAligned t resolved v s)
    | inr (idx, there) ↦
        rw (there, push_kept) (put_there t idx resolved v s (s.aligned.slots resolved idx there))
  ]

  -- A field keeps the table aligned.
  pub push_field-IsAligned :
      (t : TableBuilder) (name : Str) (v : Value) → IsAligned t → IsAligned (push_field H t name v)
  unfolding push_field
  push_field-IsAligned t name v s =
      elim (Bool-cases (
        is_empty t.plan.field_map && is_empty t.plan.drop_fields && is_empty t.plan.schema_order)) [
          | inl plain ↦ rw plain (push_field_resolved-IsAligned t name v s)
          | inr mapped ↦ elim (Option-cases (resolve_field t.plan name)) [
            | inl dropped ↦ rw (mapped, dropped) s
            | inr (resolved, kept) ↦ rw (mapped, kept) (push_kept-IsAligned t resolved v s)
          ]
        ]

  -- A value in a slot keeps the table aligned, and one past the columns changes nothing.
  pub put_field_at-IsAligned :
      (t : TableBuilder) (idx : ℕ) (v : Value) → IsAligned t → IsAligned (put_field_at H t idx v)
  unfolding put_field_at
  put_field_at-IsAligned t idx v s = elim (Bool-cases (ltb idx (length t.columns))) [
    | inl there ↦
        let (e, same) = recorded t idx v s in
        rw there (
          store-IsAligned H (record_strict_violation_at H t idx v) idx v e
            (omega (arith, same, ltb→lt idx (length t.columns) there)))
    | inr outside ↦ rw outside s
  ]
