-- ===== src/Split/Points.antt =====
-- `default_find_split_points` and `split_points_to_ranges` of decoder.rs.
use rypipe.Prelude.{
  ℕ, zero, suc, ◌+◌, ◌-◌, ◌*◌, ◌/◌, Option, none, some, List, [], ◌∷◌, Str, length, leb, ltb, ◌==◌,
  if◌then◌else◌,
}
use rypipe.Split.{Splitter, SkipRegionFinder, plan_chunk_count_with, parallel, in_skip_region}

-- Reject a candidate inside a skip region.
unfoldable pub outside_skips : Splitter → Str → Option SkipRegionFinder → ℕ → Option ℕ
outside_skips s bytes none pos = some pos
outside_skips s bytes (some finder) pos =
    if in_skip_region s bytes pos finder then none else some pos

-- The record start of the `i`-th nominal offset, unless it lies in a skip region.
unfoldable pub candidate : Splitter → Str → (n i : ℕ) → Option ℕ
unfolding outside_skips
candidate s bytes n i = elim (s.next_record_start bytes (length bytes / n * i)) [
  | none ↦ none
  | some pos ↦ outside_skips s bytes s.skip_regions pos
]

-- `(from..from + count).filter_map(…)`
unfoldable pub candidates : Splitter → Str → (n from count : ℕ) → List ℕ
unfolding candidate
candidates s bytes n from zero = []
candidates s bytes n from (suc count) =
    let rest = candidates s bytes n (from + 1) count in
    elim (candidate s bytes n from) [ none ↦ rest | some pos ↦ pos ∷ rest ]

-- `sort_unstable`: numbers that are equal are the same, so every sort gives this list.
unfoldable pub insert : ℕ → List ℕ → List ℕ
insert x [] = x ∷ []
insert x (y ∷ ys) = if leb x y then x ∷ (y ∷ ys) else y ∷ insert x ys

unfoldable pub sort : List ℕ → List ℕ
unfolding insert
sort [] = []
sort (x ∷ xs) = insert x (sort xs)

-- `dedup`
unfoldable pub dedup_after : ℕ → List ℕ → List ℕ
dedup_after x [] = []
dedup_after x (y ∷ ys) = if x == y then dedup_after x ys else y ∷ dedup_after y ys

unfoldable pub dedup : List ℕ → List ℕ
unfolding dedup_after
dedup [] = []
dedup (x ∷ xs) = x ∷ dedup_after x xs

-- `retain(|&p| p > 0)`
unfoldable pub retain_positive : List ℕ → List ℕ
retain_positive [] = []
retain_positive (x ∷ xs) = let rest = retain_positive xs in if ltb 0 x then x ∷ rest else rest

-- Push `len` unless it is the last point; `before` is the point before the list.
unfoldable pub close_at : ℕ → ℕ → List ℕ → List ℕ
close_at len before [] = if before == len then [] else len ∷ []
close_at len before (x ∷ xs) = x ∷ close_at len x xs

unfoldable pub default_find_split_points :
    Splitter → Str → (max_chunks min_chunk_bytes : ℕ) → List ℕ
unfolding candidates sort dedup retain_positive close_at
default_find_split_points s bytes max_chunks min_chunk_bytes =
    let len = length bytes in
    let n = plan_chunk_count_with len max_chunks parallel min_chunk_bytes in
    if leb max_chunks 1
    then 0 ∷ (len ∷ [])
    else if len == 0
    then 0 ∷ (len ∷ [])
    else 0 ∷ close_at len 0 (retain_positive (dedup (sort (candidates s bytes n 1 (n - 1)))))

-- `windows(2)`, without the empty ones; `start` is the first point.
unfoldable pub ranges_from : ℕ → List ℕ → List (ℕ × ℕ)
ranges_from start [] = []
ranges_from start (end ∷ points) =
    let rest = ranges_from end points in if ltb start end then (start, end) ∷ rest else rest

unfoldable pub split_points_to_ranges : List ℕ → (len : ℕ) → List (ℕ × ℕ)
unfolding ranges_from
split_points_to_ranges [] len = (0, len) ∷ []
split_points_to_ranges (p ∷ []) len = (0, len) ∷ []
split_points_to_ranges (p ∷ (q ∷ points)) len = ranges_from p (q ∷ points)
