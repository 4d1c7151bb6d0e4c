-- ===== src/Table/Adopted.antt =====
-- The first loop of `TableBuilder::extend` (merge.rs), which adds the columns that only the other
-- table has.
use rypipe.Prelude.{
  ℕ, zero, suc, true, false, ◌||◌, ◌≡◌, ◌⊎◌, ◌<◌, refl, sym, ap, ◌∙◌, Option, none, some, List, [],
  ◌∷◌, ◌++◌, Str, str_eq, eq_of_str_eq, lookup, length, length-append, get_elem?, member,
  if◌then◌else◌, Bool-cases, Option-cases, inl, inr, arith,
}
use rypipe.Value.{Host}
use rypipe.Plan.{ExecutionPlan, column_type}
use rypipe.Columnar.Flat.{is_some}
use rypipe.Builder.{ColumnBuilder, new}
use rypipe.Builder.Variants.{str_eq_symm}
use rypipe.Table.{TableBuilder, insert, push_nulls, schema_insert_index}
use rypipe.Table.Index.{lookup-cons}
use rypipe.Table.Swap.{there_is}
use rypipe.Table.Taken.{IsIndexed, column_of, column_of-at, column_of-none}
use rypipe.Table.Poured.{NoRepeat}
use rypipe.Table.Extend.{adopt_column, adopt}

-- The names in the order of the columns are those of the index, each once.
pub record IsOrdered (t : TableBuilder) : Type 0 where
  pub single : NoRepeat t.column_order
  pub named : (name : Str) → member name t.column_order ≡ is_some (lookup name t.field_index)

member-insert :
    (xs : List Str) (i : ℕ) (y x : Str) → member x (insert xs i y) ≡ (str_eq y x || member x xs)
unfolding insert member
member-insert xs zero y x = refl
member-insert [] (suc i) y x = refl
member-insert (z ∷ xs) (suc i) y x = rw (member-insert xs i y x) (ground arith)

NoRepeat-insert :
    (xs : List Str) (i : ℕ) (y : Str) → member y xs ≡ false → NoRepeat xs → NoRepeat (insert xs i y)
unfolding insert member
NoRepeat-insert xs zero y new n = (new, n)
NoRepeat-insert [] (suc i) y new n = (refl, tt)
NoRepeat-insert (z ∷ xs) (suc i) y new (first, n) = (
  rw (member-insert xs i y z, first, str_eq_symm y z) (ground (arith, new)),
  NoRepeat-insert xs i y (ground (arith, new)) n,
)

module _ {A : Type 0} where
  before_end :
      (xs : List A) (i : ℕ) (v : A) → i < length xs → get_elem? (xs ++ (v ∷ [])) i ≡ get_elem? xs i
  before_end [] i v h = ground arith
  before_end (x ∷ xs) zero v h = refl
  before_end (x ∷ xs) (suc i) v h = before_end xs i v (omega arith)

  at_end : (xs : List A) (v : A) → get_elem? (xs ++ (v ∷ [])) (length xs) ≡ some v
  at_end [] v = refl
  at_end (x ∷ xs) v = at_end xs v

has_column :
    (t : TableBuilder) (name : Str)
    → IsIndexed t
    → is_some (lookup name t.field_index) ≡ true
    → (a : ColumnBuilder) × (column_of t name ≡ some a)
has_column t name s h = elim (Option-cases (lookup name t.field_index)) [
  | inl gone ↦ let impossible : false ≡ true = rw gone at h in cc
  | inr (i, at) ↦
      let (a, there) = there_is t.columns i (s.slots name i at) in
      (a, column_of-at t name i at ∙ there)
]

module _ (H : Host) (plan : ExecutionPlan) where
  -- A column of nulls with the type that the other table's plan declares.
  abbrev pub padding : ℕ → Str → ColumnBuilder
  padding rows name = push_nulls H (new (column_type plan name)) rows

  module _ (t : TableBuilder) (name : Str) (gone : lookup name t.field_index ≡ none) where
    new_or_old :
        (x : Str) (i : ℕ)
        → lookup x ((name, length t.columns) ∷ t.field_index) ≡ some i
        → ((name ≡ x) × (i ≡ length t.columns)) ⊎ (lookup x t.field_index ≡ some i)
    new_or_old x i h = elim (Bool-cases (str_eq name x)) [
      | inl mine ↦
          let e : some (length t.columns) ≡ some i =
            rw (lookup-cons name x (length t.columns) t.field_index, mine) at h in
          inl (eq_of_str_eq name x mine, cc)
      | inr apart ↦ inr (rw (lookup-cons name x (length t.columns) t.field_index, apart) at h)
    ]

    past_end :
        (s : IsIndexed t) (x : Str) (i : ℕ)
        → i ≡ length t.columns
        → lookup x t.field_index ≡ some i
        → ⊥
    past_end s x i same old = ground (arith, s.slots x i old, same)

    adopt_column-IsIndexed : IsIndexed t → IsIndexed (adopt_column H t plan name)
    unfolding adopt_column
    adopt_column-IsIndexed s = record {
      distinct = (gone, s.distinct);
      slots = λ x i h. elim (new_or_old x i h) [
        | inl (mine, same) ↦
            omega (arith, same, length-append t.columns (padding t.row_count name ∷ []))
        | inr old ↦
            omega (arith, s.slots x i old, length-append t.columns (padding t.row_count name ∷ []))
      ];
      one = λ a b i h g. elim (new_or_old a i h) [
        | inl (mine, same) ↦ elim (new_or_old b i g) [
          | inl (yours, also) ↦ sym mine ∙ yours
          | inr old ↦ elim (past_end s b i same old) [ ]
        ]
        | inr old ↦ elim (new_or_old b i g) [
          | inl (yours, also) ↦ elim (past_end s a i also old) [ ]
          | inr old' ↦ s.one a b i old old'
        ]
      ];
    }

    adopt_column-IsOrdered : IsOrdered t → IsOrdered (adopt_column H t plan name)
    unfolding adopt_column
    adopt_column-IsOrdered s = record {
      single =
          NoRepeat-insert t.column_order (schema_insert_index t name) name
            (s.named name ∙ rw gone refl) s.single;
      named = λ x.
          member-insert t.column_order (schema_insert_index t name) name x
          ∙ rw (s.named x, lookup-cons name x (length t.columns) t.field_index) (ground arith);
    }

    column_of-adopt_column :
        (x : Str)
        → IsIndexed t
        → column_of (adopt_column H t plan name) x
          ≡ (if str_eq name x then some (padding t.row_count name) else column_of t x)
    unfolding adopt_column
    column_of-adopt_column x s = elim (Bool-cases (str_eq name x)) [
      | inl mine ↦ rw mine (
          column_of-at (adopt_column H t plan name) x (length t.columns)
            (lookup-cons name x (length t.columns) t.field_index ∙ rw mine refl)
          ∙ at_end t.columns (padding t.row_count name))
      | inr apart ↦ rw apart (elim (Option-cases (lookup x t.field_index)) [
        | inl missing ↦
            column_of-none (adopt_column H t plan name) x
              (lookup-cons name x (length t.columns) t.field_index ∙ rw apart missing)
            ∙ sym (column_of-none t x missing)
        | inr (i, there) ↦
            column_of-at (adopt_column H t plan name) x i
              (lookup-cons name x (length t.columns) t.field_index ∙ rw apart there)
            ∙ before_end t.columns i (padding t.row_count name) (s.slots x i there)
            ∙ sym (column_of-at t x i there)
      ])
    ]

  -- The column with which a name enters the second loop, from the one that it has.
  abbrev pub held : Option ColumnBuilder → List Str → Str → ℕ → Option ColumnBuilder
  held (some a) names x rows = some a
  held none names x rows = if member x names then some (padding rows x) else none

  -- What the loop leaves of a table.
  pub record Grown (t : TableBuilder) (names : List Str) (grown : TableBuilder) : Type 0 where
    pub indexed : IsIndexed grown
    pub ordered : IsOrdered grown
    pub columns : (x : Str) → column_of grown x ≡ held (column_of t x) names x t.row_count

  held_before :
      (t : TableBuilder) (n x : Str) (names : List Str)
      → IsIndexed t
      → is_some (lookup n t.field_index) ≡ true
      → held (column_of t x) names x t.row_count ≡ held (column_of t x) (n ∷ names) x t.row_count
  unfolding member
  held_before t n x names s there = elim (Option-cases (column_of t x)) [
    | inr (a, column) ↦ rw column refl
    | inl missing ↦ rw missing (elim (Bool-cases (str_eq n x)) [
      | inl mine ↦
          let (a, column) = has_column t n s there in
          let same : n ≡ x = eq_of_str_eq n x mine in
          let found : column_of t x ≡ some a = sym (ap (column_of t) same) ∙ column in
          let impossible : none ≡ some a = sym missing ∙ found in cc
      | inr apart ↦ rw apart refl
    ])
  ]

  held_after :
      (t : TableBuilder) (n x : Str) (names : List Str)
      → IsIndexed t
      → lookup n t.field_index ≡ none
      → held (column_of (adopt_column H t plan n) x) names x t.row_count
        ≡ held (column_of t x) (n ∷ names) x t.row_count
  unfolding member
  held_after t n x names s gone =
      rw (column_of-adopt_column t n gone x s) (elim (Bool-cases (str_eq n x)) [
        | inl mine ↦
            let same : n ≡ x = eq_of_str_eq n x mine in
            let missing : column_of t x ≡ none = rw same at (column_of-none t n gone) in
            rw (missing, mine) (ap (λ y. some (padding t.row_count y)) same)
        | inr apart ↦ elim (Option-cases (column_of t x)) [
          | inl missing ↦ rw (missing, apart) refl
          | inr (a, column) ↦ rw (column, apart) refl
        ]
      ])

  pub adopt-Grown :
      (names : List Str) (t : TableBuilder)
      → IsIndexed t
      → IsOrdered t
      → Grown t names (adopt H t plan names)
  unfolding adopt adopt_column
  adopt-Grown [] t s o = record {
    indexed = s;
    ordered = o;
    columns = λ x. elim (Option-cases (column_of t x)) [
      | inl missing ↦ rw missing refl
      | inr (a, column) ↦ rw column refl
    ];
  }
  adopt-Grown (n ∷ names) t s o = elim (Option-cases (lookup n t.field_index)) [
    | inr (i, there) ↦
        let here : is_some (lookup n t.field_index) ≡ true = rw there refl in
        let rest = adopt-Grown names t s o in
        rw here (record {
          indexed = rest.indexed;
          ordered = rest.ordered;
          columns = λ x. rest.columns x ∙ held_before t n x names s here;
        })
    | inl gone ↦
        let here : is_some (lookup n t.field_index) ≡ false = rw gone refl in
        let rest =
          adopt-Grown names (adopt_column H t plan n) (adopt_column-IsIndexed t n gone s)
            (adopt_column-IsOrdered t n gone o) in
        rw here (record {
          indexed = rest.indexed;
          ordered = rest.ordered;
          columns = λ x. rest.columns x ∙ held_after t n x names s gone;
        })
  ]
