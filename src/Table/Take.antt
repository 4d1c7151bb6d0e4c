-- ===== src/Table/Take.antt =====
-- `take_column` of engine/table_builder.rs, by which `extend` (merge.rs) takes the columns of the
-- other table one after the other.
use rypipe.Prelude.{
  ℕ, ◌-◌, Option, none, some, List, [], ◌∷◌, Str, str_eq, lookup, length, get_elem?, set, take,
  ◌==◌, if◌then◌else◌, div_ceil,
}
use rypipe.Builder.{ColumnBuilder}
use rypipe.Table.{TableBuilder, padded}

-- `HashMap::remove`
unfoldable pub remove_name : List (Str × ℕ) → Str → List (Str × ℕ)
unfolding str_eq
remove_name [] name = []
remove_name ((k, i) ∷ ix) name =
    let rest = remove_name ix name in if str_eq k name then rest else (k, i) ∷ rest

-- A name that the map has at the index.
unfoldable pub name_at : List (Str × ℕ) → ℕ → Option Str
name_at [] i = none
name_at ((k, v) ∷ ix) i = let rest = name_at ix i in if v == i then some k else rest

-- `pop` of a list with `last` elements before its last one, and `swap_remove` of another index.
unfoldable pub swap_remove : {A : Type 0} → List A → (idx last : ℕ) → List A
swap_remove xs idx last =
    if idx == last
    then take last xs
    else elim (get_elem? xs last) [ none ↦ xs | some x ↦ take last (set xs idx x) ]

-- The name of the column that was moved gets its new index.
unfoldable pub repointed : List (Str × ℕ) → (idx last : ℕ) → List (Str × ℕ)
unfolding name_at remove_name
repointed ix idx last =
    if idx == last
    then ix
    else elim (name_at ix last) [ none ↦ ix | some k ↦ (k, idx) ∷ remove_name ix k ]

unfoldable pub without_column : TableBuilder → Str → ℕ → TableBuilder
unfolding swap_remove repointed remove_name padded
without_column t name idx =
    let last = length t.columns - 1 in
    record t {
      columns = swap_remove t.columns idx last;
      field_index = repointed (remove_name t.field_index name) idx last;
      row_dirty = padded [] (div_ceil (length t.columns) 64) 0;
    }

-- Without the name there is nothing to take. An index that no column has, at which the source
-- panics, gives nothing here either.
unfoldable pub take_column : TableBuilder → Str → Option (ColumnBuilder × TableBuilder)
unfolding lookup without_column
take_column t name = elim (lookup name t.field_index) [
  | none ↦ none
  | some idx ↦ elim (get_elem? t.columns idx) [
    | none ↦ none
    | some col ↦ some (col, without_column t name idx)
  ]
]
