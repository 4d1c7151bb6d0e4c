-- ===== src/Table/Bits.antt =====
-- The words of `row_dirty`: what a mark changes, and when all columns have a value.
use rypipe.Prelude.{
  ℕ, zero, suc, Bool, true, false, ◌+◌, ◌*◌, ◌/◌, ◌%◌, ◌&&◌, ◌≡◌, ◌<◌, ◌≤◌, refl, List, [], ◌∷◌,
  length, get_or, ltb, ◌==◌, if◌then◌else◌, Bool-cases, inl, inr, arith, ==_iff,
}
use rypipe.Columnar.Bits.{test_bit, set_bit, test_bit-set_bit, test_bit-zero}
use rypipe.Columnar.Contents.{get_or-set, length-set}
use rypipe.Table.{is_dirty, mark, padded}
use rypipe.Table.Rows.{ones, all_max, is_full, cleared}

test_bit-ones : (n i : ℕ) → i < n → test_bit (ones n) i ≡ true
unfolding test_bit ones
test_bit-ones zero i h = ground arith
test_bit-ones (suc n) zero h = let odd : (2 * ones n + 1) % 2 ≡ 1 = omega arith in rw odd refl
test_bit-ones (suc n) (suc i) h =
    let half : (2 * ones n + 1) / 2 ≡ ones n = omega arith in
    rw half (test_bit-ones n i (omega arith))

both_true : (a b : Bool) → (a && b) ≡ true → (a ≡ true) × (b ≡ true)
both_true true b h = (refl, h)
both_true false b h = cc

second_true : (a b : Bool) → a ≡ false → (if a then true else b) ≡ true → b ≡ true
second_true true b e h = cc
second_true false b e h = h

all_max-ones :
    (dirty : List ℕ) (n i : ℕ) → all_max dirty n ≡ true → i < n → get_or dirty i 0 ≡ ones 64
unfolding all_max
all_max-ones dirty zero i h lt = ground arith
all_max-ones dirty (suc n) i h lt =
    let both : (all_max dirty n ≡ true) × ((get_or dirty n 0 == ones 64) ≡ true) =
      both_true (all_max dirty n) (get_or dirty n 0 == ones 64) h in
    elim (Bool-cases (i == n)) [
      | inl same ↦
          let equal : i ≡ n = (==_iff i n).0 same in
          rw equal ((==_iff (get_or dirty n 0) (ones 64)).0 both.1)
      | inr other ↦ all_max-ones dirty n i both.0 (ground arith)
    ]

-- If the words are full for `ncols` columns, each of these has a value.
pub is_full-is_dirty :
    (dirty : List ℕ) (ncols i : ℕ)
    → is_full dirty ncols ≡ true
    → i < ncols
    → is_dirty dirty i ≡ true
unfolding is_full is_dirty
is_full-is_dirty dirty ncols i h lt =
    let last = get_or dirty (ncols / 64) 0 == ones (ncols % 64) in
    let (whole, part) =
      both_true (all_max dirty (ncols / 64)) (if ncols % 64 == 0 then true else last) h in
    elim (Bool-cases (ltb (i / 64) (ncols / 64))) [
      | inl before ↦
          rw (all_max-ones dirty (ncols / 64) (i / 64) whole (ground arith))
            (test_bit-ones 64 (i % 64) (omega arith))
      | inr at_end ↦
          let word : i / 64 ≡ ncols / 64 = ground (arith, lt) in
          let within : i % 64 < ncols % 64 = omega (arith, word, lt) in
          let some_left : (ncols % 64 == 0) ≡ false = ground (arith, within) in
          let value =
            (==_iff (get_or dirty (ncols / 64) 0) (ones (ncols % 64))).0
              (second_true (ncols % 64 == 0) last some_left part) in
          rw (word, value) (test_bit-ones (ncols % 64) (i % 64) within)
    ]

-- A mark sets the column's bit and no other.
pub is_dirty-mark :
    (dirty : List ℕ) (i j : ℕ)
    → i / 64 < length dirty
    → is_dirty (mark dirty i) j ≡ (if i == j then true else is_dirty dirty j)
unfolding is_dirty mark
is_dirty-mark dirty i j h =
    rw (get_or-set dirty (i / 64) (j / 64) (set_bit (get_or dirty (i / 64) 0) (i % 64)) 0 h)
      (elim (Bool-cases (i / 64 == j / 64)) [
        | inl same ↦
            let equal : i / 64 ≡ j / 64 = ground arith in
            rw (same, test_bit-set_bit (get_or dirty (i / 64) 0) (i % 64) (j % 64), equal)
              (let iff : (i % 64 == j % 64) ≡ (i == j) = ground (arith, equal) in rw iff refl)
        | inr other ↦ let differs : (i == j) ≡ false = ground arith in rw (other, differs) refl
      ])

get_or-cleared : (dirty : List ℕ) (i : ℕ) → get_or (cleared dirty) i 0 ≡ 0
get_or-cleared [] i = refl
get_or-cleared (w ∷ ws) zero = refl
get_or-cleared (w ∷ ws) (suc i) = get_or-cleared ws i

pub is_dirty-cleared : (dirty : List ℕ) (i : ℕ) → is_dirty (cleared dirty) i ≡ false
unfolding is_dirty
is_dirty-cleared dirty i = rw (get_or-cleared dirty (i / 64)) (test_bit-zero (i % 64))

get_or-padded : (dirty : List ℕ) (n i : ℕ) → get_or (padded dirty n 0) i 0 ≡ get_or dirty i 0
unfolding padded
get_or-padded [] zero i = refl
get_or-padded [] (suc n) zero = refl
get_or-padded [] (suc n) (suc i) = get_or-padded [] n i
get_or-padded (w ∷ ws) zero i = refl
get_or-padded (w ∷ ws) (suc n) zero = refl
get_or-padded (w ∷ ws) (suc n) (suc i) = get_or-padded ws n i

pub is_dirty-padded : (dirty : List ℕ) (n i : ℕ) → is_dirty (padded dirty n 0) i ≡ is_dirty dirty i
unfolding is_dirty
is_dirty-padded dirty n i = rw (get_or-padded dirty n (i / 64)) refl

pub length-padded : (dirty : List ℕ) (n : ℕ) → n ≤ length (padded dirty n 0)
unfolding padded
length-padded [] zero = omega arith
length-padded [] (suc n) = omega (arith, length-padded [] n)
length-padded (w ∷ ws) zero = omega arith
length-padded (w ∷ ws) (suc n) = omega (arith, length-padded ws n)

pub length-mark : (dirty : List ℕ) (i : ℕ) → length (mark dirty i) ≡ length dirty
unfolding mark
length-mark dirty i = length-set dirty (i / 64) (set_bit (get_or dirty (i / 64) 0) (i % 64))
