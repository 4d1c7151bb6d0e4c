-- ===== src/Table/Poured.antt =====
-- The second loop of `TableBuilder::extend` (merge.rs), one column of the two tables after the
-- other.
use rypipe.Prelude.{
  ℕ, false, ◌≡◌, refl, sym, ap, ◌∙◌, Option, none, some, List, [], ◌∷◌, Str, str_eq, eq_of_str_eq,
  lookup, get_elem?, member, if◌then◌else◌, Bool-cases, Option-cases, Result-cases, inl, inr,
  Result, ok, err,
}
use rypipe.Value.{Host}
use rypipe.Builder.{ColumnBuilder}
use rypipe.Table.{TableBuilder}
use rypipe.Table.Take.{take_column}
use rypipe.Table.Taken.{IsIndexed, column_of, column_of-at, column_of-none, take_column-column_of}
use rypipe.Table.Replaced.{with_at-IsIndexed, column_of-with_at}
use rypipe.Table.Extend.{with_at, joined, poured, pour_column, pour}

-- No name stands twice in the list.
abbrev pub NoRepeat : List Str → Type 0
NoRepeat [] = Unit {0}
NoRepeat (n ∷ ns) = (member n ns ≡ false) × NoRepeat ns

module _ (H : Host) where
  -- What a column becomes when the names `ns` are poured.
  abbrev pub after :
      List Str → Str → ColumnBuilder → Option ColumnBuilder → ℕ → Result ColumnBuilder
  after ns name a o rows = if member name ns then joined H a o rows else ok a

  -- What a step of the loop leaves of the two tables.
  record Step (t other : TableBuilder) (n : Str) (t' other' : TableBuilder) : Type 0 where
    indexed : IsIndexed t'
    other_indexed : IsIndexed other'
    rows : other'.row_count ≡ other.row_count
    columns :
        (name : Str) (a : ColumnBuilder)
        → column_of t name ≡ some a
        → (c : ColumnBuilder) × (column_of t' name ≡ some c)
          × ((if str_eq n name then joined H a (column_of other name) other.row_count else ok a)
              ≡ ok c)
    others : (name : Str) → str_eq n name ≡ false → column_of other' name ≡ column_of other name

  idle :
      (t other : TableBuilder) (n : Str)
      → IsIndexed t
      → IsIndexed other
      → column_of t n ≡ none
      → Step t other n t other
  idle t other n s o gone = record {
    indexed = s;
    other_indexed = o;
    rows = refl;
    columns = λ name a h. elim (Bool-cases (str_eq n name)) [
      | inl mine ↦
          let same : n ≡ name = eq_of_str_eq n name mine in
          let missing : column_of t name ≡ none = rw same at gone in
          let impossible : none ≡ some a = sym missing ∙ h in cc
      | inr apart ↦ (a, h, rw apart refl)
    ];
    others = λ name apart. refl;
  }

  written :
      (t other rest : TableBuilder) (n : Str) (i : ℕ) (b c : ColumnBuilder)
      → IsIndexed t
      → lookup n t.field_index ≡ some i
      → column_of t n ≡ some b
      → joined H b (column_of other n) other.row_count ≡ ok c
      → IsIndexed rest
      → rest.row_count ≡ other.row_count
      → ((name : Str) → str_eq n name ≡ false → column_of rest name ≡ column_of other name)
      → Step t other n (with_at t i c) rest
  written t other rest n i b c s at there joining r count kept = record {
    indexed = with_at-IsIndexed t s n i c at;
    other_indexed = r;
    rows = count;
    columns = λ name a h. elim (Bool-cases (str_eq n name)) [
      | inl mine ↦
          let same : n ≡ name = eq_of_str_eq n name mine in
          let old : column_of t name ≡ some b = rw same at there in
          let equal : some b ≡ some a = sym old ∙ h in
          let column : b ≡ a = cc in
          let merging : joined H b (column_of other name) other.row_count ≡ ok c =
            rw same at joining in
          (c, column_of-with_at t s n i c at name ∙ rw mine refl, rw mine (rw column at merging))
      | inr apart ↦ (a, column_of-with_at t s n i c at name ∙ rw apart h, rw apart refl)
    ];
    others = kept;
  }

  nothing_taken : (t : TableBuilder) (n : Str) → column_of t n ≡ none → take_column t n ≡ none
  unfolding take_column
  nothing_taken t n h = elim (Option-cases (lookup n t.field_index)) [
    | inl gone ↦ rw (gone, take_column) refl
    | inr (i, at) ↦
        let gone : get_elem? t.columns i ≡ none = sym (column_of-at t n i at) ∙ h in
        rw (at, gone, take_column) refl
  ]

  -- The result of a step that replaces the column `b` at `i`.
  poured-Step :
      (t other : TableBuilder) (n : Str) (i : ℕ) (b : ColumnBuilder)
      (p : TableBuilder × TableBuilder)
      → IsIndexed t
      → IsIndexed other
      → lookup n t.field_index ≡ some i
      → column_of t n ≡ some b
      → poured H t other i b (take_column other n) ≡ ok p
      → Step t other n p.0 p.1
  poured-Step t other n i b p s o at there h = elim (Option-cases (column_of other n)) [
    | inl gone ↦
        let h' : poured H t other i b none ≡ ok p = rw (nothing_taken other n gone) at h in
        elim (Result-cases (joined H b none other.row_count)) [
          | inr (e, failed) ↦ let impossible : err e ≡ ok p = rw failed at h' in cc
          | inl (c, padding) ↦
              let result : ok (with_at t i c, other) ≡ ok p = rw padding at h' in
              let same : (with_at t i c, other) ≡ p = cc in
              rw (← same) (
                written t other other n i b c s at there (rw gone padding) o refl
                  (λ name apart. refl))
        ]
    | inr (taken, found) ↦
        let (rest, taking, r, shorter, count, kept) = take_column-column_of other n taken o found in
        let h' : poured H t other i b (some (taken, rest)) ≡ ok p = rw taking at h in
        elim (Result-cases (joined H b (some taken) other.row_count)) [
          | inr (e, failed) ↦ let impossible : err e ≡ ok p = rw failed at h' in cc
          | inl (c, merging) ↦
              let result : ok (with_at t i c, rest) ≡ ok p = rw merging at h' in
              let same : (with_at t i c, rest) ≡ p = cc in
              rw (← same) (
                written t other rest n i b c s at there (rw found merging) r count
                  (λ name apart. kept name ∙ rw apart refl))
        ]
  ]

  pour_column-Step :
      (t other : TableBuilder) (n : Str) (p : TableBuilder × TableBuilder)
      → IsIndexed t
      → IsIndexed other
      → pour_column H t other n ≡ ok p
      → Step t other n p.0 p.1
  unfolding pour_column
  pour_column-Step t other n p s o h = elim (Option-cases (lookup n t.field_index)) [
    | inl gone ↦
        let result : ok (t, other) ≡ ok p = rw (gone, pour_column) at h in
        let same : (t, other) ≡ p = cc in rw (← same) (idle t other n s o (column_of-none t n gone))
    | inr (i, at) ↦ elim (Option-cases (get_elem? t.columns i)) [
      | inl past ↦
          let result : ok (t, other) ≡ ok p = rw (at, past, pour_column) at h in
          let same : (t, other) ≡ p = cc in
          rw (← same) (idle t other n s o (column_of-at t n i at ∙ past))
      | inr (b, there) ↦
          let rest : poured H t other i b (take_column other n) ≡ ok p =
            rw (at, there, pour_column) at h in
          poured-Step t other n i b p s o at (column_of-at t n i at ∙ there) rest
    ]
  ]

  -- The step for `n`, and then those for `ns`.
  combined :
      (n : Str) (ns : List Str) (name : Str) (a b c : ColumnBuilder) (o o' : Option ColumnBuilder)
      (rows : ℕ)
      → member n ns ≡ false
      → (if str_eq n name then joined H a o rows else ok a) ≡ ok b
      → after ns name b o' rows ≡ ok c
      → (str_eq n name ≡ false → o' ≡ o)
      → after (n ∷ ns) name a o rows ≡ ok c
  unfolding member
  combined n ns name a b c o o' rows new made became kept = elim (Bool-cases (str_eq n name)) [
    | inl mine ↦
        let same : n ≡ name = eq_of_str_eq n name mine in
        let gone : member name ns ≡ false = rw same at new in
        let joining : joined H a o rows ≡ ok b = rw mine at made in
        let last : ok b ≡ ok c = rw gone at became in rw mine (joining ∙ last)
    | inr apart ↦
        let unchanged : ok a ≡ ok b = rw apart at made in
        let same : b ≡ a = cc in
        let other : o' ≡ o = kept apart in rw apart (rw (same, other) at became)
  ]

  -- For two tables whose indices give different names different columns, and names without
  -- repetition, if the loop ends without an error, then every column of the first table is merged
  -- with the column of the same name of the second, or padded with a null for each row of the
  -- second if it has none, where the name is among the names, and is as it was where it is not.
  pub pour-columns :
      (ns : List Str) (t other : TableBuilder) (p : TableBuilder × TableBuilder)
      → IsIndexed t
      → IsIndexed other
      → NoRepeat ns
      → pour H t other ns ≡ ok p
      → (name : Str) (a : ColumnBuilder) → column_of t name ≡ some a
      → (c : ColumnBuilder) × (column_of p.0 name ≡ some c)
        × (after ns name a (column_of other name) other.row_count ≡ ok c)
  unfolding pour member
  pour-columns [] t other p s o single h name a there =
      let same : (t, other) ≡ p = cc in rw (← same) (a, there, refl)
  pour-columns (n ∷ ns) t other p s o (new, single) h name a there =
      elim (Result-cases (pour_column H t other n)) [
        | inr (e, failed) ↦ let impossible : err e ≡ ok p = rw failed at h in cc
        | inl (q, stepping) ↦
            let rest : pour H q.0 q.1 ns ≡ ok p = rw stepping at h in
            let step = pour_column-Step t other n q s o stepping in
            let (b, column, made) = step.columns name a there in
            let (c, final, became) =
              pour-columns ns q.0 q.1 p step.indexed step.other_indexed single rest name b column in
            (
              c,
              final,
              combined n ns name a b c (column_of other name) (column_of q.1 name) other.row_count
                  new made (sym (ap (after ns name b (column_of q.1 name)) step.rows) ∙ became)
                  (step.others name),
            )
      ]
