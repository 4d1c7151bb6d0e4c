-- ===== src/Unify/Seed.antt =====
-- `unify_dictionaries` with the seed that parallel.rs builds, which has no index.
use rypipe.Prelude.{
  ℕ, zero, suc, true, false, ◌+◌, ◌-◌, ◌≡◌, ◌≤◌, refl, ap, ◌∙◌, none, List, [], ◌∷◌, ◌++◌, length,
  lookup, ltb, map, arith, length-append,
}
use rypipe.Value.{Host}
use rypipe.Columnar.Texts.{as_i32}
use rypipe.Columnar.Dict.{Dictionary}
use rypipe.Builder.{ColumnBuilder}
use rypipe.Unify.{
  seed_len, RemapTable, Global, slice, seed_from, seed_of, overflow_from, overflow, remap_entry,
  remap_entries, remap_table, unify_dictionaries,
}

-- The number of entries of a column's dictionary.
unfoldable pub count_of : ColumnBuilder → ℕ
count_of (ColumnBuilder.dictionary codes d) = length d.offsets - 1
count_of c = 0

-- The codes `from..from + count`.
pub codes_from : (from count : ℕ) → List ℕ
codes_from from zero = []
codes_from from (suc count) = as_i32 from ∷ codes_from (from + 1) count

-- A column whose codes all stay as they are.
pub own_codes : ColumnBuilder → RemapTable
unfolding count_of codes_from
own_codes c = record { codes = codes_from 0 (count_of c); is_identity = true }

-- No column has more entries than `n`.
abbrev pub AllWithin : ℕ → List ColumnBuilder → Type 0
AllWithin n [] = Unit
AllWithin n (c ∷ cs) = (count_of c ≤ n) × AllWithin n cs

seed_from-length :
    (seed first : Dictionary) (from count : ℕ)
    → (length (seed_from seed first from count).offsets ≡ length seed.offsets + count)
      × ((seed_from seed first from count).index ≡ seed.index)
unfolding seed_from
seed_from-length seed first from zero = (omega arith, refl)
seed_from-length seed first from (suc count) =
    let bytes = seed.bytes ++ slice first from in
    let (size, index) =
      seed_from-length
        (record seed { bytes = bytes; offsets = seed.offsets ++ (as_i32 (length bytes) ∷ []) })
        first (from + 1) count in
    (size ∙ omega (arith, length-append seed.offsets (as_i32 (length bytes) ∷ [])), index)

seed_of-length :
    (first : Dictionary)
    → (length (seed_of first).offsets ≡ 1 + (length first.offsets - 1))
      × ((seed_of first).index ≡ [])
unfolding seed_of
seed_of-length first =
    seed_from-length (record { bytes = []; offsets = 0 ∷ []; index = [] }) first 0
      (length first.offsets - 1)

module _ (H : Host) where
  no_overflow :
      (n : ℕ) (g : Global) (cols : List ColumnBuilder) → AllWithin n cols → overflow H n g cols ≡ g
  unfolding overflow overflow_from count_of
  no_overflow n g [] h = refl
  no_overflow n g (ColumnBuilder.dictionary codes d ∷ cols) h =
      let none_more : length d.offsets - 1 - n ≡ 0 = omega (arith, h.0) in
      rw none_more (no_overflow n g cols h.1)
  no_overflow n g (c ∷ cols) h = no_overflow n g cols h.1

  kept_entry :
      (g : Global) (d : Dictionary) (i : ℕ)
      → g.dict.index ≡ []
      → remap_entry H g d i ≡ (as_i32 i, true)
  unfolding remap_entry lookup
  kept_entry g d i h =
      let absent : lookup (H.from_utf8_lossy (slice d i)) g.dict.index ≡ none =
        ap (λ m. lookup (H.from_utf8_lossy (slice d i)) m) h in
      rw (absent, remap_entry) refl

  kept_codes :
      (g : Global) (d : Dictionary) (from count : ℕ)
      → g.dict.index ≡ []
      → remap_entries H g d from count ≡ (codes_from from count, true)
  unfolding remap_entries codes_from
  kept_codes g d from zero h = refl
  kept_codes g d from (suc count) h =
      rw (kept_codes g d (from + 1) count h, kept_entry g d from h) refl

  kept_table :
      (n : ℕ) (g : Global) (c : ColumnBuilder)
      → count_of c ≤ n
      → g.dict.index ≡ []
      → remap_table H n g c ≡ own_codes c
  unfolding remap_table own_codes count_of codes_from
  kept_table n g (ColumnBuilder.dictionary codes d) h e =
      let few : ltb n (length d.offsets - 1) ≡ false = ground (arith, h) in
      rw (few, kept_codes g d 0 (length d.offsets - 1) e) refl
  kept_table n g (ColumnBuilder.string v) h e = refl
  kept_table n g (ColumnBuilder.int64 v) h e = refl
  kept_table n g (ColumnBuilder.float64 v) h e = refl
  kept_table n g (ColumnBuilder.boolean v) h e = refl
  kept_table n g (ColumnBuilder.date32 v) h e = refl
  kept_table n g (ColumnBuilder.timestamp u f v) h e = refl
  kept_table n g (ColumnBuilder.decimal128 s v) h e = refl

  kept_tables :
      (n : ℕ) (g : Global) (cols : List ColumnBuilder)
      → AllWithin n cols
      → g.dict.index ≡ []
      → map (remap_table H n g) cols ≡ map own_codes cols
  kept_tables n g [] h e = refl
  kept_tables n g (c ∷ cols) h e = rw (kept_table n g c h.0 e, kept_tables n g cols h.1 e) refl

  -- With the seed of a first dictionary, and columns whose dictionaries have no more entries than
  -- it, `unify_dictionaries` gives the seed alone, whatever the texts of the columns are, and
  -- every code of the columns stays as it is.
  pub unify_dictionaries-seed_of :
      (first : Dictionary) (locals : List ColumnBuilder)
      → AllWithin (length first.offsets - 1) locals
      → unify_dictionaries H (seed_of first) locals ≡ (seed_of first, map own_codes locals)
  unfolding unify_dictionaries
  unify_dictionaries-seed_of first locals h =
      let (size, index) = seed_of-length first in
      let n : seed_len (seed_of first) ≡ length first.offsets - 1 = omega (arith, size) in
      rw
        (
          n,
          no_overflow (length first.offsets - 1)
              (record { dict = seed_of first; next_code = as_i32 (length first.offsets - 1) })
              locals h,
          kept_tables (length first.offsets - 1)
              (record { dict = seed_of first; next_code = as_i32 (length first.offsets - 1) })
              locals h index,
        )
        refl
