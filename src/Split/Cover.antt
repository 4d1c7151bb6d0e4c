-- ===== src/Split/Cover.antt =====
-- The ranges that `split_points_to_ranges` makes of split points in order cover the input.
use rypipe.Prelude.{
  ℕ, ◌+◌, ◌-◌, ◌≤◌, ◌<◌, ◌≡◌, refl, sym, some, List, [], ◌∷◌, ◌++◌, Str, length, take, drop, ltb,
  arith, lt→ltb, ltb→lt, take-append-drop, drop_again, Bool-cases, inl, inr,
}
use rypipe.Split.{Splitter}
use rypipe.Split.Points.{default_find_split_points, ranges_from, split_points_to_ranges}
use rypipe.Split.Order.{Steps}
use rypipe.Split.Starts.{InOrder, find_split_points-InOrder}

-- `bytes[start..end]` of every range, one after the other.
abbrev pub chunks : Str → List (ℕ × ℕ) → Str
chunks bytes [] = []
chunks bytes ((start, end) ∷ ranges) = take (end - start) (drop start bytes) ++ chunks bytes ranges

-- No range is empty.
abbrev pub NoneEmpty : List (ℕ × ℕ) → Type 0
NoneEmpty [] = Unit
NoneEmpty ((start, end) ∷ ranges) = (start < end) × NoneEmpty ranges

module _ {A : Type 0} where
  drop_whole : (xs : List A) → drop (length xs) xs ≡ []
  drop_whole [] = refl
  drop_whole (x ∷ xs) = drop_whole xs

chunk_and_rest :
    (bytes : Str) (k x : ℕ) → k < x → take (x - k) (drop k bytes) ++ drop x bytes ≡ drop k bytes
chunk_and_rest bytes k x h =
    let there : k + (x - k) ≡ x = omega arith in
    let rest : drop (x - k) (drop k bytes) ≡ drop x bytes =
      rw there at (drop_again k (x - k) bytes) in
    rw rest at (take-append-drop (x - k) (drop k bytes))

ranges_cover :
    (bytes : Str) (k : ℕ) (points : List ℕ)
    → Steps k (length bytes) points
    → chunks bytes (ranges_from k points) ≡ drop k bytes
unfolding ranges_from
ranges_cover bytes k [] end = rw end (sym (drop_whole bytes))
ranges_cover bytes k (x ∷ points) (lt, rest) =
    rw (lt→ltb k x lt, ranges_cover bytes x points rest) (chunk_and_rest bytes k x lt)

pub ranges_from-NoneEmpty : (k : ℕ) (points : List ℕ) → NoneEmpty (ranges_from k points)
unfolding ranges_from
ranges_from-NoneEmpty k [] = tt
ranges_from-NoneEmpty k (x ∷ points) = elim (Bool-cases (ltb k x)) [
  | inl lt ↦ rw lt (ltb→lt k x lt, ranges_from-NoneEmpty x points)
  | inr ge ↦ rw ge (ranges_from-NoneEmpty x points)
]

InOrder-cover :
    (bytes : Str) (points : List ℕ)
    → 0 < length bytes
    → InOrder (length bytes) points
    → (chunks bytes (split_points_to_ranges points (length bytes)) ≡ bytes)
      × NoneEmpty (split_points_to_ranges points (length bytes))
unfolding split_points_to_ranges
InOrder-cover bytes [] h o = elim o [ ]
InOrder-cover bytes (p ∷ []) h (first, end) =
    let impossible : ⊥ = omega (arith, end, h) in elim impossible [ ]
InOrder-cover bytes (p ∷ (q ∷ points)) h (first, steps) =
    rw first (ranges_cover bytes 0 (q ∷ points) steps, ranges_from-NoneEmpty 0 (q ∷ points))

-- For an input that is not empty, and a splitter whose record starts lie within it, the chunks
-- between the planned split points are not empty, and one after the other they are the input.
pub find_split_points-chunks :
    (s : Splitter) (bytes : Str) (max_chunks min_chunk_bytes : ℕ)
    → 0 < length bytes
    → ((from pos : ℕ) → s.next_record_start bytes from ≡ some pos → pos ≤ length bytes)
    → let ranges =
        split_points_to_ranges
          (default_find_split_points s bytes max_chunks min_chunk_bytes)
          (length bytes) in
      (chunks bytes ranges ≡ bytes) × NoneEmpty ranges
find_split_points-chunks s bytes max_chunks min_chunk_bytes h within =
    InOrder-cover bytes (default_find_split_points s bytes max_chunks min_chunk_bytes) h
      (find_split_points-InOrder s bytes max_chunks min_chunk_bytes h within)
