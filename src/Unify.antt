-- ===== src/Unify.antt =====
-- crates/rypipe-core/src/dict.rs: `unify_dictionaries`, and the seed that parallel.rs makes of the
-- dictionary of the first chunk. Codes are 32-bit patterns.
pub mod Seed
mod Tests
use rypipe.Prelude.{
  ℕ, zero, suc, Bool, true, false, ◌+◌, ◌-◌, ◌&&◌, ◌≡◌, ◌≤◌, refl, ap, ◌∙◌, sym, Option, none, some,
  List, [], ◌∷◌, ◌++◌, Str, length, get_or, take, drop, lookup, ltb, ◌==◌, if◌then◌else◌, map,
  arith, length-append,
}
use rypipe.Value.{Host}
use rypipe.Columnar.Flat.{is_some}
use rypipe.Columnar.Texts.{as_i32, as_usize}
use rypipe.Columnar.Dict.{Dictionary}
use rypipe.Builder.{ColumnBuilder}

-- A `SeedDict` has the fields of a dictionary.
abbrev pub seed_len : Dictionary → ℕ
seed_len seed = length seed.offsets - 1

pub record RemapTable : Type 0 where
  pub codes : List ℕ
  pub is_identity : Bool

-- The unified dictionary while it grows.
pub record Global : Type 0 where
  pub dict : Dictionary
  pub next_code : ℕ

-- `&data[offsets[i]..offsets[i + 1]]`
abbrev pub slice : Dictionary → ℕ → Str
slice d i =
    let start = as_usize (get_or d.offsets i 0) in
    take (as_usize (get_or d.offsets (i + 1) 0) - start) (drop start d.bytes)

-- A text of a chunk, unless the unified dictionary has it.
abbrev pub with_overflow : Global → Str → Global
with_overflow g val = elim (lookup val g.dict.index) [
  | some code ↦ g
  | none ↦
      let bytes = g.dict.bytes ++ val in
      record {
        dict = record {
          bytes = bytes;
          offsets = g.dict.offsets ++ (as_i32 (length bytes) ∷ []);
          index = (val, g.next_code) ∷ g.dict.index;
        };
        next_code = as_i32 (g.next_code + 1);
      }
]

-- The seed that parallel.rs builds: the entries `from..from + count` of the first dictionary, and
-- no index.
unfoldable pub seed_from : Dictionary → Dictionary → (from count : ℕ) → Dictionary
seed_from seed first from zero = seed
seed_from seed first from (suc count) =
    let bytes = seed.bytes ++ slice first from in
    seed_from
      (record seed { bytes = bytes; offsets = seed.offsets ++ (as_i32 (length bytes) ∷ []) }) first
      (from + 1) count

unfoldable pub seed_of : Dictionary → Dictionary
unfolding seed_from
seed_of first =
    seed_from (record { bytes = []; offsets = 0 ∷ []; index = [] }) first 0
      (length first.offsets - 1)

module _ (H : Host) where
  unfoldable pub overflow_from : Global → Dictionary → (from count : ℕ) → Global
  unfolding lookup
  overflow_from g d from zero = g
  overflow_from g d from (suc count) =
      overflow_from (with_overflow g (H.from_utf8_lossy (slice d from))) d (from + 1) count

  unfoldable pub overflow : (seed_count : ℕ) → Global → List ColumnBuilder → Global
  unfolding overflow_from
  overflow n g [] = g
  overflow n g (ColumnBuilder.dictionary codes d ∷ cols) =
      overflow n (overflow_from g d n (length d.offsets - 1 - n)) cols
  overflow n g (c ∷ cols) = overflow n g cols

  -- The code of an entry, and whether it is the one it has in its chunk; an entry that the unified
  -- dictionary or the chunk's own index does not have keeps its code.
  unfoldable pub remap_entry : Global → Dictionary → ℕ → ℕ × Bool
  unfolding lookup
  remap_entry g d i =
      let val = H.from_utf8_lossy (slice d i) in
      elim (lookup val g.dict.index) [
        | none ↦ (as_i32 i, true)
        | some code ↦ elim (lookup val d.index) [
          | none ↦ (as_i32 i, true)
          | some own ↦ (code, code == own)
        ]
      ]

  unfoldable pub remap_entries : Global → Dictionary → (from count : ℕ) → List ℕ × Bool
  unfolding remap_entry
  remap_entries g d from zero = ([], true)
  remap_entries g d from (suc count) =
      let (code, same) = remap_entry g d from in
      let (codes, rest) = remap_entries g d (from + 1) count in (code ∷ codes, same && rest)

  unfoldable pub remap_table : (seed_count : ℕ) → Global → ColumnBuilder → RemapTable
  unfolding remap_entries
  remap_table n g (ColumnBuilder.dictionary codes d) =
      let count = length d.offsets - 1 in
      let (table, same) = remap_entries g d 0 count in
      record { codes = table; is_identity = if ltb n count then false else same }
  remap_table n g c = record { codes = []; is_identity = true }

  unfoldable pub unify_dictionaries : Dictionary → List ColumnBuilder → Dictionary × List RemapTable
  unfolding overflow remap_table
  unify_dictionaries seed locals =
      let n = seed_len seed in
      let g = overflow n (record { dict = seed; next_code = as_i32 n }) locals in
      (g.dict, map (remap_table n g) locals)
