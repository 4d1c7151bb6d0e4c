-- ===== src/Table/Taken.antt =====
-- `take_column` of engine/table_builder.rs: the columns that stay keep their names.
use rypipe.Prelude.{
  ℕ, true, false, ◌+◌, ◌-◌, ◌≡◌, ◌≢◌, ◌<◌, refl, sym, ap, ◌∙◌, Option, none, some, List, Str,
  str_eq, str_eq_refl, lookup, length, get_elem?, ◌==◌, ==_iff, if◌then◌else◌, Bool-cases,
  Option-cases, inl, inr, arith,
}
use rypipe.Builder.{ColumnBuilder}
use rypipe.Table.{TableBuilder}
use rypipe.Table.Take.{remove_name, swap_remove, repointed, without_column, take_column}
use rypipe.Table.Swap.{length-swap_remove, get_elem?-swap_remove}
use rypipe.Table.Index.{
  Distinct, Distinct-remove_name, Distinct-repointed, lookup-remove_name, lookup-repointed,
}

-- The column that has a name.
unfoldable pub column_of : TableBuilder → Str → Option ColumnBuilder
unfolding lookup
column_of t name = elim (lookup name t.field_index) [ none ↦ none | some i ↦ get_elem? t.columns i ]

pub column_of-at :
    (t : TableBuilder) (name : Str) (i : ℕ)
    → lookup name t.field_index ≡ some i
    → column_of t name ≡ get_elem? t.columns i
unfolding column_of
column_of-at t name i h = rw (h, column_of) refl

pub column_of-none :
    (t : TableBuilder) (name : Str) → lookup name t.field_index ≡ none → column_of t name ≡ none
unfolding column_of
column_of-none t name h = rw (h, column_of) refl

-- The index has every name once, and gives the names different columns of the table.
pub record IsIndexed (t : TableBuilder) : Type 0 where
  pub distinct : Distinct t.field_index
  pub slots : (name : Str) (i : ℕ) → lookup name t.field_index ≡ some i → i < length t.columns
  pub one :
      (a b : Str) (i : ℕ)
      → lookup a t.field_index ≡ some i
      → lookup b t.field_index ≡ some i
      → a ≡ b

module _ (t : TableBuilder) (s : IsIndexed t) (name : Str) (idx : ℕ)
    (at : lookup name t.field_index ≡ some idx) where
  abbrev last : ℕ
  last = length t.columns - 1

  abbrev others : List (Str × ℕ)
  others = remove_name t.field_index name

  -- Where the index without the name has another one, it is not at the column that is taken.
  kept_at :
      (other : Str) (i : ℕ)
      → lookup other others ≡ some i
      → (lookup other t.field_index ≡ some i) × (i ≢ idx)
  kept_at other i h = elim (Bool-cases (str_eq name other)) [
    | inl mine ↦
        let impossible : none ≡ some i =
          rw (lookup-remove_name t.field_index name other, mine) at h in
        cc
    | inr apart ↦
        let there : lookup other t.field_index ≡ some i =
          rw (lookup-remove_name t.field_index name other, apart) at h in
        (
          there,
          λ same.
              let mine : name ≡ other = s.one name other idx at (there ∙ ap some same) in
              let itself : str_eq name other ≡ true = rw (← mine) (str_eq_refl name) in
              let impossible : false ≡ true = sym apart ∙ itself in cc,
        )
  ]

  others_one : (a b : Str) (i : ℕ) → lookup a others ≡ some i → lookup b others ≡ some i → a ≡ b
  others_one a b i h g = s.one a b i (kept_at a i h).0 (kept_at b i g).0

  others_distinct : Distinct others
  others_distinct = Distinct-remove_name t.field_index name s.distinct

  -- Where the new index has a name, and where the old one had it.
  came_from :
      (other : Str) (j : ℕ)
      → lookup other (repointed others idx last) ≡ some j
      → (i : ℕ) × (lookup other others ≡ some i) × ((if i == last then idx else i) ≡ j)
  came_from other j h = elim (Option-cases (lookup other others)) [
    | inl gone ↦
        let impossible : none ≡ some j =
          rw (lookup-repointed others idx last other others_distinct others_one, gone) at h in
        cc
    | inr (i, there) ↦
        let same : some (if i == last then idx else i) ≡ some j =
          rw (lookup-repointed others idx last other others_distinct others_one, there) at h in
        (i, there, cc)
  ]

  idx_in : idx < length t.columns
  idx_in = s.slots name idx at

  size : length t.columns ≡ last + 1
  size = omega (arith, idx_in)

  length-without_column : length (without_column t name idx).columns + 1 ≡ length t.columns
  unfolding without_column
  length-without_column = omega (arith, size, length-swap_remove t.columns idx last size)

  without_column-IsIndexed : IsIndexed (without_column t name idx)
  unfolding without_column
  without_column-IsIndexed = record {
    distinct = Distinct-repointed others idx last others_distinct;
    slots = λ other j h.
        let (i, there, same) = came_from other j h in
        let (was, apart) = kept_at other i there in
        ground (
          arith,
          same,
          apart,
          s.slots other i was,
          size,
          idx_in,
          length-swap_remove t.columns idx last size,
        );
    one = λ a b j h g.
        let (i, there, same) = came_from a j h in
        let (k, there', same') = came_from b j g in
        let equal : i ≡ k =
          ground (arith, same, same', (kept_at a i there).1, (kept_at b k there').1) in
        others_one a b k (there ∙ ap some equal) there';
  }

  moved_column :
      (i : ℕ)
      → i < length t.columns
      → i ≢ idx
      → get_elem? (swap_remove t.columns idx last) (if i == last then idx else i)
        ≡ get_elem? t.columns i
  moved_column i within apart = elim (Bool-cases (i == last)) [
    | inl moved ↦
        let same : i ≡ last = (==_iff i last).0 moved in
        let mine : (idx == idx) ≡ true = ground arith in
        rw moved (
          get_elem?-swap_remove t.columns idx last idx size (omega (arith, size, idx_in))
            (ground (arith, same, apart, size, idx_in))
          ∙ rw mine (ap (get_elem? t.columns) (sym same)))
    | inr stays ↦
        let other : (idx == i) ≡ false = ground (arith, apart) in
        rw stays (
          get_elem?-swap_remove t.columns idx last i size (omega (arith, size, idx_in))
            (ground (arith, stays, within, size))
          ∙ rw other refl)
  ]

  column_of-without_column :
      (other : Str)
      → column_of (without_column t name idx) other
        ≡ (if str_eq name other then none else column_of t other)
  unfolding without_column
  column_of-without_column other =
      let step = lookup-repointed others idx last other others_distinct others_one in
      elim (Option-cases (lookup other others)) [
        | inl gone ↦
            column_of-none (without_column t name idx) other (step ∙ rw gone refl)
            ∙ sym (elim (Bool-cases (str_eq name other)) [
              | inl mine ↦ rw mine refl
              | inr apart ↦ rw apart (
                  column_of-none t other
                    (sym (lookup-remove_name t.field_index name other ∙ rw apart refl) ∙ gone))
            ])
        | inr (i, there) ↦
            let (was, apart) = kept_at other i there in
            column_of-at (without_column t name idx) other (if i == last then idx else i)
              (step ∙ rw there refl)
            ∙ moved_column i (s.slots other i was) apart
            ∙ sym (elim (Bool-cases (str_eq name other)) [
              | inl mine ↦
                  let impossible : none ≡ some i =
                    rw (lookup-remove_name t.field_index name other, mine) at there in
                  cc
              | inr differs ↦ rw differs (column_of-at t other i was)
            ])
      ]

-- For a table whose index gives different names different columns, and a name with a column,
-- `take_column` gives this column, and leaves a table with one column less and such an index, in
-- which that name has no column and every other name has the column that it had.
pub take_column-column_of :
    (t : TableBuilder) (name : Str) (c : ColumnBuilder)
    → IsIndexed t
    → column_of t name ≡ some c
    → (rest : TableBuilder) × (take_column t name ≡ some (c, rest))
      × IsIndexed rest
      × (length rest.columns + 1 ≡ length t.columns)
      × (rest.row_count ≡ t.row_count)
      × ((other : Str)
          → column_of rest other ≡ (if str_eq name other then none else column_of t other))
unfolding take_column without_column
take_column-column_of t name c s h = elim (Option-cases (lookup name t.field_index)) [
  | inl gone ↦ let impossible : none ≡ some c = sym (column_of-none t name gone) ∙ h in cc
  | inr (idx, at) ↦
      let there : get_elem? t.columns idx ≡ some c = sym (column_of-at t name idx at) ∙ h in
      (
        without_column t name idx,
        rw (at, there, take_column) refl,
        without_column-IsIndexed t s name idx at,
        length-without_column t s name idx at,
        refl,
        column_of-without_column t s name idx at,
      )
]
