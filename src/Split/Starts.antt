-- ===== src/Split/Starts.antt =====
-- The split points that `default_find_split_points` gives are in order, start at 0 and end at the
-- length of the input.
use rypipe.Prelude.{
  ℕ, ◌-◌, ◌/◌, ◌*◌, ◌≤◌, ◌<◌, ◌≡◌, refl, ap, ◌∙◌, false, Option, none, some, List, [], ◌∷◌, Str,
  length, leb, ◌==◌, arith, Bool-cases, Option-cases, inl, inr,
}
use rypipe.Split.{Splitter, SkipRegionFinder, plan_chunk_count_with, parallel, in_skip_region}
use rypipe.Split.Points.{
  outside_skips, candidate, candidates, sort, dedup, retain_positive, default_find_split_points,
}
use rypipe.Split.Order.{
  Steps, sort-SortedFrom, retained-Above, close_at-Steps, sort-All, dedup-All, retain-All,
  candidates-All,
}

outside_skips_same :
    (s : Splitter) (bytes : Str) (o : Option SkipRegionFinder) (pos pos' : ℕ)
    → outside_skips s bytes o pos ≡ some pos'
    → pos ≡ pos'
unfolding outside_skips
outside_skips_same s bytes none pos pos' e = cc
outside_skips_same s bytes (some f) pos pos' e = elim (Bool-cases (in_skip_region s bytes pos f)) [
  | inl inside ↦ let impossible : none ≡ some pos' = rw inside at e in cc
  | inr outside ↦ let same : some pos ≡ some pos' = rw outside at e in cc
]

-- A candidate is a record start of the splitter.
candidate_start :
    (s : Splitter) (bytes : Str) (n i pos : ℕ)
    → candidate s bytes n i ≡ some pos
    → s.next_record_start bytes (length bytes / n * i) ≡ some pos
unfolding candidate
candidate_start s bytes n i pos e =
    elim (Option-cases (s.next_record_start bytes (length bytes / n * i))) [
      | inl nothing ↦ let impossible : none ≡ some pos = rw (nothing, candidate) at e in cc
      | inr (found, at) ↦
          let kept : outside_skips s bytes s.skip_regions found ≡ some pos =
            rw (at, candidate) at e in
          at ∙ ap some (outside_skips_same s bytes s.skip_regions found pos kept)
    ]

-- In order from 0 to `len`, with at least one step.
abbrev pub InOrder : ℕ → List ℕ → Type 0
InOrder len [] = ⊥
InOrder len (p ∷ points) = (p ≡ 0) × Steps 0 len points

-- For an input that is not empty, and a splitter whose record starts lie within it, the planned
-- split points rise strictly from 0 to the length of the input.
pub find_split_points-InOrder :
    (s : Splitter) (bytes : Str) (max_chunks min_chunk_bytes : ℕ)
    → 0 < length bytes
    → ((from pos : ℕ) → s.next_record_start bytes from ≡ some pos → pos ≤ length bytes)
    → InOrder (length bytes) (default_find_split_points s bytes max_chunks min_chunk_bytes)
unfolding default_find_split_points
find_split_points-InOrder s bytes max_chunks min_chunk_bytes some_bytes within =
    let len = length bytes in
    let n = plan_chunk_count_with len max_chunks parallel min_chunk_bytes in
    let found = candidates s bytes n 1 (n - 1) in
    let low : ℕ → Type 0 = λ p. p ≤ len in
    let below =
      candidates-All low s bytes n 1 (n - 1)
        (λ i pos e. within (length bytes / n * i) pos (candidate_start s bytes n i pos e)) in
    let kept =
      retain-All low (dedup (sort found)) (dedup-All low (sort found) (sort-All low found below)) in
    let inner = retained-Above (sort found) (sort-SortedFrom found) in
    let bytes_there : (len == 0) ≡ false = ground (arith, some_bytes) in
    elim (Bool-cases (leb max_chunks 1)) [
      | inl one ↦ rw one (refl, (some_bytes, refl))
      | inr more ↦
          rw (more, bytes_there)
            (
              refl,
              close_at-Steps len 0 (retain_positive (dedup (sort found))) (omega arith) inner kept,
            )
    ]
