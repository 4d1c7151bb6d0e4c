-- ===== src/Split/Planned.antt =====
-- The split points that `default_find_split_points` of decoder.rs plans are the record starts of the
-- nominal offsets, without those in skip regions.
use rypipe.Prelude.{
  ℕ, zero, suc, ◌+◌, ◌-◌, ◌/◌, ◌*◌, ◌≤◌, ◌<◌, ◌≡◌, ◌⊎◌, refl, sym, ap, ◌∙◌, true, false, Option,
  none, some, List, [], ◌∷◌, Str, length, starts_with, leb, ltb, ◌==◌, ==_iff, if◌then◌else◌, arith,
  Bool-cases, Option-cases, inl, inr,
}
use rypipe.Split.{Splitter, SkipRegionFinder, plan_chunk_count_with, parallel}
use rypipe.Split.Points.{
  outside_skips, candidate, candidates, insert, sort, dedup_after, dedup, retain_positive, close_at,
  default_find_split_points,
}
use rypipe.Split.Order.{All, sort-All, dedup-All, retain-All, close_at-All}
use rypipe.Split.Regions.{find_first, is_skipped, in_skip_region-is_skipped}

-- `pos` is the record start of one of the `n - 1` nominal offsets, and in no skip region.
pub record IsPlanned (s : Splitter) (bytes : Str) (n pos : ℕ) : Type 0 where
  pub index : ℕ
  pub low : 1 ≤ index
  pub high : index < n
  pub start : s.next_record_start bytes (length bytes / n * index) ≡ some pos
  pub outside : is_skipped s.skip_regions bytes pos ≡ false

-- No closer of the skip regions is empty.
abbrev pub SomeClosers : Option SkipRegionFinder → Type 0
SomeClosers none = Unit {0}
SomeClosers (some finder) = (opener : Str) → starts_with [] (finder.closer_for opener) ≡ false

abbrev pub Has : ℕ → List ℕ → Type 0
Has p [] = ⊥
Has p (x ∷ xs) = (x ≡ p) ⊎ Has p xs

insert-Has : (p x : ℕ) (ys : List ℕ) → Has p (x ∷ ys) → Has p (insert x ys)
unfolding insert
insert-Has p x [] h = h
insert-Has p x (y ∷ ys) h = elim (Bool-cases (leb x y)) [
  | inl le ↦ rw le h
  | inr gt ↦ rw gt (elim h [
    | inl here ↦ inr (insert-Has p x ys (inl here))
    | inr (inl at) ↦ inl at
    | inr (inr rest) ↦ inr (insert-Has p x ys (inr rest))
  ])
]

sort-Has : (p : ℕ) (xs : List ℕ) → Has p xs → Has p (sort xs)
unfolding sort
sort-Has p [] h = h
sort-Has p (x ∷ xs) (inl here) = insert-Has p x (sort xs) (inl here)
sort-Has p (x ∷ xs) (inr rest) = insert-Has p x (sort xs) (inr (sort-Has p xs rest))

dedup_after-Has : (p x : ℕ) (ys : List ℕ) → Has p (x ∷ ys) → Has p (x ∷ dedup_after x ys)
unfolding dedup_after
dedup_after-Has p x [] h = h
dedup_after-Has p x (y ∷ ys) (inl here) = inl here
dedup_after-Has p x (y ∷ ys) (inr rest) = elim (Bool-cases (x == y)) [
  | inl same ↦
      let e : y ≡ x = sym ((==_iff x y).0 same) in rw same (dedup_after-Has p x ys (rw e at rest))
  | inr other ↦ rw other (inr (dedup_after-Has p y ys rest))
]

dedup-Has : (p : ℕ) (xs : List ℕ) → Has p xs → Has p (dedup xs)
unfolding dedup
dedup-Has p [] h = h
dedup-Has p (x ∷ xs) h = dedup_after-Has p x xs h

retain_positive-Has : (p : ℕ) (xs : List ℕ) → 0 < p → Has p xs → Has p (retain_positive xs)
unfolding retain_positive
retain_positive-Has p [] positive h = elim h [ ]
retain_positive-Has p (x ∷ xs) positive (inl here) =
    let kept : ltb 0 x ≡ true = ground (arith, here, positive) in rw kept (inl here)
retain_positive-Has p (x ∷ xs) positive (inr rest) = elim (Bool-cases (ltb 0 x)) [
  | inl kept ↦ rw kept (inr (retain_positive-Has p xs positive rest))
  | inr gone ↦ rw gone (retain_positive-Has p xs positive rest)
]

close_at-Has : (p len k : ℕ) (xs : List ℕ) → Has p xs → Has p (close_at len k xs)
unfolding close_at
close_at-Has p len k [] h = elim h [ ]
close_at-Has p len k (x ∷ xs) (inl here) = inl here
close_at-Has p len k (x ∷ xs) (inr rest) = inr (close_at-Has p len x xs rest)

module _ (s : Splitter) (bytes : Str) (n : ℕ)
    (finds : (text needle : Str) → s.find text needle ≡ find_first text needle)
    (closers : SomeClosers s.skip_regions) where
  outside_skips-is_skipped :
      (o : Option SkipRegionFinder) (pos : ℕ)
      → SomeClosers o
      → outside_skips s bytes o pos ≡ (if is_skipped o bytes pos then none else some pos)
  unfolding outside_skips is_skipped
  outside_skips-is_skipped none pos c = refl
  outside_skips-is_skipped (some finder) pos c =
      rw (in_skip_region-is_skipped s finds finder bytes pos c) refl

  candidate_found :
      (i pos : ℕ)
      → candidate s bytes n i ≡ some pos
      → (s.next_record_start bytes (length bytes / n * i) ≡ some pos)
        × (is_skipped s.skip_regions bytes pos ≡ false)
  unfolding candidate
  candidate_found i pos h = elim (Option-cases (s.next_record_start bytes (length bytes / n * i))) [
    | inl nothing ↦ let impossible : none ≡ some pos = rw (nothing, candidate) at h in cc
    | inr (q, at) ↦
        let kept : (if is_skipped s.skip_regions bytes q then none else some q) ≡ some pos =
          sym (outside_skips-is_skipped s.skip_regions q closers) ∙ rw (at, candidate) at h in
        elim (Bool-cases (is_skipped s.skip_regions bytes q)) [
          | inl inside ↦ let impossible : none ≡ some pos = rw inside at kept in cc
          | inr outside ↦
              let e : some q ≡ some pos = rw outside at kept in
              let same : q ≡ pos = cc in (at ∙ e, rw same at outside)
        ]
  ]

  candidate_planned :
      (i pos : ℕ)
      → s.next_record_start bytes (length bytes / n * i) ≡ some pos
      → is_skipped s.skip_regions bytes pos ≡ false
      → candidate s bytes n i ≡ some pos
  unfolding candidate
  candidate_planned i pos at outside =
      rw (at, candidate) (outside_skips-is_skipped s.skip_regions pos closers ∙ rw outside refl)

  candidates-IsPlanned :
      (from count : ℕ)
      → 1 ≤ from
      → from + count ≤ 1 + (n - 1)
      → All (IsPlanned s bytes n) (candidates s bytes n from count)
  unfolding candidates
  candidates-IsPlanned from zero low high = tt
  candidates-IsPlanned from (suc count) low high =
      let rest = candidates-IsPlanned (from + 1) count (omega arith) (omega arith) in
      elim (Option-cases (candidate s bytes n from)) [
        | inl nothing ↦ rw (nothing, candidates) rest
        | inr (pos, found) ↦
            let (start, outside) = candidate_found from pos found in
            rw (found, candidates)
              (
                record {
                  index = from;
                  low = low;
                  high = omega (arith, low, high);
                  start = start;
                  outside = outside;
                },
                rest,
              )
      ]

  candidates-Has :
      (from count i pos : ℕ)
      → from ≤ i
      → i < from + count
      → candidate s bytes n i ≡ some pos
      → Has pos (candidates s bytes n from count)
  unfolding candidates
  candidates-Has from zero i pos low high h = ground arith
  candidates-Has from (suc count) i pos low high h = elim (Bool-cases (from == i)) [
    | inl here ↦
        let same : i ≡ from = sym ((==_iff from i).0 here) in
        let found : candidate s bytes n from ≡ some pos = ap (candidate s bytes n) (sym same) ∙ h in
        rw (found, candidates) (inl refl)
    | inr later ↦
        let rest = candidates-Has (from + 1) count i pos (ground (arith, later)) (omega arith) h in
        elim (Option-cases (candidate s bytes n from)) [
          | inl nothing ↦ rw (nothing, candidates) rest
          | inr (q, found) ↦ rw (found, candidates) (inr rest)
        ]
  ]

weakened :
    (n : ℕ) (s : Splitter) (bytes : Str) (xs : List ℕ)
    → All (IsPlanned s bytes n) xs
    → All (λ p. (p ≡ 0) ⊎ ((p ≡ length bytes) ⊎ IsPlanned s bytes n p)) xs
weakened n s bytes [] a = tt
weakened n s bytes (x ∷ xs) a = (inr (inr a.0), weakened n s bytes xs a.1)

-- For a splitter whose search gives the first place of a text, and whose closers are not empty, an
-- input that is not empty, and more than one chunk: each planned split point is 0, the length of
-- the input, or the record start of a nominal offset with no region open in the window before it,
-- where a region is open if its opener stands there without a closer after it; and each such
-- record start above 0 is a split point.
pub find_split_points-IsPlanned :
    (s : Splitter) (bytes : Str) (max_chunks min_chunk_bytes : ℕ)
    → ((text needle : Str) → s.find text needle ≡ find_first text needle)
    → SomeClosers s.skip_regions
    → 0 < length bytes
    → 1 < max_chunks
    → let n = plan_chunk_count_with (length bytes) max_chunks parallel min_chunk_bytes in
      let points = default_find_split_points s bytes max_chunks min_chunk_bytes in
      All (λ p. (p ≡ 0) ⊎ ((p ≡ length bytes) ⊎ IsPlanned s bytes n p)) points
      × ((pos : ℕ) → 0 < pos → IsPlanned s bytes n pos → Has pos points)
unfolding default_find_split_points
find_split_points-IsPlanned s bytes max_chunks min_chunk_bytes finds closers some_bytes chunks =
    let len = length bytes in
    let n = plan_chunk_count_with len max_chunks parallel min_chunk_bytes in
    let found = candidates s bytes n 1 (n - 1) in
    let ok : ℕ → Type 0 = λ p. (p ≡ 0) ⊎ ((p ≡ len) ⊎ IsPlanned s bytes n p) in
    let planned =
      weakened n s bytes found
        (candidates-IsPlanned s bytes n finds closers 1 (n - 1) (omega arith) (omega arith)) in
    let kept =
      retain-All ok (dedup (sort found)) (dedup-All ok (sort found) (sort-All ok found planned)) in
    let more : leb max_chunks 1 ≡ false = ground (arith, chunks) in
    let bytes_there : (len == 0) ≡ false = ground (arith, some_bytes) in
    rw (more, bytes_there)
      (
        (
          inl refl,
          close_at-All ok len 0 (retain_positive (dedup (sort found))) (inr (inl refl)) kept,
        ),
        λ pos positive p.
            let there =
              candidates-Has s bytes n finds closers 1 (n - 1) p.index pos p.low
                (omega (arith, p.low, p.high))
                (candidate_planned s bytes n finds closers p.index pos p.start p.outside) in
            inr (
              close_at-Has pos len 0 (retain_positive (dedup (sort found))) (
                retain_positive-Has pos (dedup (sort found)) positive
                  (dedup-Has pos (sort found) (sort-Has pos found there)))),
      )
