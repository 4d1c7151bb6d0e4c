-- ===== src/Batch/Cells.antt =====
-- What the batch filter reads in a row of columns that hold a list of rows each.
use rypipe.Prelude.{
  ℕ, zero, suc, Bool, true, ◌≡◌, refl, sym, ◌∙◌, Option, none, some, List, [], ◌∷◌, Str, get_elem?,
  lookup, Option-cases, inl, inr,
}
use rypipe.Value.{Host}
use rypipe.Plan.{ExecutionPlan, rename}
use rypipe.Columnar.Cells.{row_at}
use rypipe.Builder.{ColumnBuilder, and_then}
use rypipe.Builder.Read.{TypedValue, mapped, get_typed_value, get_filter_value}
use rypipe.Builder.Rows.{HoldsRows}
use rypipe.Builder.Reading.{show_typed, get_typed_value-HoldsRows, get_filter_value-get_typed_value}
use rypipe.Batch.{Columns, get_column, get_filter_view, column_text, get_value}
use rypipe.Batch.Check.{typed_of}

-- Each column holds a list of rows.
abbrev pub AllHold : (Str → Bool) → List ColumnBuilder → List (List (Option TypedValue)) → Type 0
AllHold u [] [] = Unit {0}
AllHold u (c ∷ cs) (xs ∷ xss) = HoldsRows u c xs × AllHold u cs xss
AllHold u _ _ = ⊥

-- The value of a row in the column of a name.
unfoldable pub cell_of :
    List (Str × ℕ) → List (List (Option TypedValue)) → ℕ → Str → Option TypedValue
unfolding lookup
cell_of index xss row name =
    and_then (lookup name index) (λ i. and_then (get_elem? xss i) (λ xs. row_at xs row))

module _ (H : Host) where
  view_typed :
      (c : ColumnBuilder) (row : ℕ) (s : Str)
      → get_filter_view H c row ≡ some s
      → get_typed_value H c row ≡ some (TypedValue.str s)
  unfolding get_filter_view get_typed_value
  view_typed (ColumnBuilder.string v) row s e = rw e refl
  view_typed (ColumnBuilder.dictionary codes d) row s e = rw e refl
  view_typed c row s e = cc

  column_slow :
      (c : ColumnBuilder) (row : ℕ)
      → get_filter_view H c row ≡ none
      → column_text H c row ≡ get_filter_value H c row
  unfolding column_text
  column_slow c row slow = rw (slow, column_text) refl

  column_fast :
      (c : ColumnBuilder) (row : ℕ) (s : Str)
      → get_filter_view H c row ≡ some s
      → column_text H c row ≡ some s
  unfolding column_text
  column_fast c row s fast = rw (fast, column_text) refl

  column_text-HoldsRows :
      (c : ColumnBuilder) (xs : List (Option TypedValue)) (row : ℕ)
      → HoldsRows H.is_utf8 c xs
      → ((s : Str) → H.is_utf8 s ≡ true → H.from_utf8_lossy s ≡ s)
      → column_text H c row ≡ mapped (show_typed H) (row_at xs row)
  unfolding show_typed
  column_text-HoldsRows c xs row s lossless =
      let typed = get_typed_value-HoldsRows H c xs row s in
      elim (Option-cases (get_filter_view H c row)) [
        | inl slow ↦
            column_slow c row slow
            ∙ rw (← typed) (get_filter_value-get_typed_value H c xs row s lossless)
        | inr (t, fast) ↦
            let there : row_at xs row ≡ some (TypedValue.str t) =
              sym typed ∙ view_typed c row t fast in
            column_fast c row t fast ∙ rw there refl
      ]

  -- The columns at an index.
  columns_at :
      {A : Type 0} (f : ColumnBuilder → Option A) (g : List (Option TypedValue) → Option A)
      (cs : List ColumnBuilder) (xss : List (List (Option TypedValue))) (i : ℕ)
      → AllHold H.is_utf8 cs xss
      → ((c : ColumnBuilder) (xs : List (Option TypedValue))
          → HoldsRows H.is_utf8 c xs
          → f c ≡ g xs)
      → and_then (get_elem? cs i) f ≡ and_then (get_elem? xss i) g
  columns_at f g [] [] i s each = refl
  columns_at f g (c ∷ cs) (xs ∷ xss) zero s each = each c xs s.0
  columns_at f g (c ∷ cs) (xs ∷ xss) (suc i) s each = columns_at f g cs xss i s.1 each
  columns_at f g [] (xs ∷ xss) i s each = elim s [ ]
  columns_at f g (c ∷ cs) [] i s each = elim s [ ]

  module _ (c : Columns) (xss : List (List (Option TypedValue))) (row : ℕ) (plan : ExecutionPlan)
      (s : AllHold H.is_utf8 c.columns xss) where
    pub typed_of-cell_of :
        (f : Str) → typed_of H c row plan f ≡ cell_of c.field_index xss row (rename plan f)
    unfolding typed_of cell_of get_column
    typed_of-cell_of f = elim (Option-cases (lookup (rename plan f) c.field_index)) [
      | inl nothing ↦ rw nothing refl
      | inr (i, found) ↦ rw found (
          columns_at (λ b. get_typed_value H b row) (λ xs. row_at xs row) c.columns xss i s
            (λ b xs h. get_typed_value-HoldsRows H b xs row h))
    ]

    mapped_then :
        (o : Option (List (Option TypedValue)))
        → and_then o (λ xs. mapped (show_typed H) (row_at xs row))
          ≡ mapped (show_typed H) (and_then o (λ xs. row_at xs row))
    mapped_then none = refl
    mapped_then (some xs) = refl

    pub get_value-cell_of :
        (f : Str)
        → ((t : Str) → H.is_utf8 t ≡ true → H.from_utf8_lossy t ≡ t)
        → get_value H c plan f row
          ≡ mapped (show_typed H) (cell_of c.field_index xss row (rename plan f))
    unfolding get_value cell_of get_column
    get_value-cell_of f lossless = elim (Option-cases (lookup (rename plan f) c.field_index)) [
      | inl nothing ↦ rw nothing refl
      | inr (i, found) ↦ rw found (
          columns_at (λ b. column_text H b row) (λ xs. mapped (show_typed H) (row_at xs row))
            c.columns xss i s (λ b xs h. column_text-HoldsRows b xs row h lossless)
          ∙ mapped_then (get_elem? xss i))
    ]
