-- ===== src/Table/Replaced.antt =====
-- The step of `TableBuilder::extend` (merge.rs) that replaces a column of the table.
use rypipe.Prelude.{
  ℕ, true, false, ◌≡◌, refl, sym, ap, ◌∙◌, none, some, Str, str_eq, str_eq_refl, eq_of_str_eq,
  lookup, ◌==◌, ==_iff, if◌then◌else◌, Bool-cases, Option-cases, inl, inr, arith,
}
use rypipe.Columnar.Contents.{length-set}
use rypipe.Builder.{ColumnBuilder}
use rypipe.Table.{TableBuilder}
use rypipe.Table.Swap.{get_elem?-written}
use rypipe.Table.Taken.{IsIndexed, column_of, column_of-at, column_of-none}
use rypipe.Table.Extend.{with_at}

module _ (t : TableBuilder) (s : IsIndexed t) (name : Str) (i : ℕ) (x : ColumnBuilder)
    (at : lookup name t.field_index ≡ some i) where
  pub with_at-IsIndexed : IsIndexed (with_at t i x)
  with_at-IsIndexed = record {
    distinct = s.distinct;
    slots = λ other j h. ground (arith, s.slots other j h, length-set t.columns i x);
    one = s.one;
  }

  pub column_of-with_at :
      (other : Str)
      → column_of (with_at t i x) other ≡ (if str_eq name other then some x else column_of t other)
  column_of-with_at other = elim (Option-cases (lookup other t.field_index)) [
    | inl gone ↦ column_of-none (with_at t i x) other gone ∙ elim (Bool-cases (str_eq name other)) [
      | inl mine ↦
          let same : name ≡ other = eq_of_str_eq name other mine in
          let impossible : none ≡ some i = sym gone ∙ rw same at at in cc
      | inr apart ↦ rw apart (sym (column_of-none t other gone))
    ]
    | inr (j, there) ↦
        column_of-at (with_at t i x) other j there
        ∙ get_elem?-written t.columns i j x (s.slots name i at)
        ∙ elim (Bool-cases (str_eq name other)) [
          | inl mine ↦
              let same : name ≡ other = eq_of_str_eq name other mine in
              let where_it_is : lookup other t.field_index ≡ some i = rw same at at in
              let equal : some i ≡ some j = sym where_it_is ∙ there in
              let index : i ≡ j = cc in
              let hit : (i == j) ≡ true = ground (arith, index) in rw (mine, hit) refl
          | inr apart ↦ elim (Bool-cases (i == j)) [
            | inl hit ↦
                let index : j ≡ i = sym ((==_iff i j).0 hit) in
                let same : name ≡ other = s.one name other i at (there ∙ ap some index) in
                let itself : str_eq name other ≡ true = rw (← same) (str_eq_refl name) in
                let impossible : false ≡ true = sym apart ∙ itself in cc
            | inr miss ↦ rw (apart, miss) (sym (column_of-at t other j there))
          ]
        ]
  ]
