-- ===== src/Split/Order.antt =====
-- What the steps of `default_find_split_points` (sort, dedup, retain, and the end point) do to the
-- order of the points, and to what holds for all of them.
use rypipe.Prelude.{
  ℕ, zero, suc, ◌+◌, ◌≤◌, ◌<◌, ◌≡◌, refl, sym, true, some, List, [], ◌∷◌, Str, leb, ltb, ◌==◌,
  arith, Bool-cases, Option-cases, inl, inr, leb→le, ltb→lt, ==_iff,
}
use rypipe.Split.{Splitter}
use rypipe.Split.Points.{
  candidate, candidates, insert, sort, dedup_after, dedup, retain_positive, close_at,
}

-- Every number of the list satisfies `P`.
abbrev pub All : (ℕ → Type 0) → List ℕ → Type 0
All P [] = Unit
All P (x ∷ xs) = P x × All P xs

-- In ascending order, and none below `k`.
abbrev pub SortedFrom : ℕ → List ℕ → Type 0
SortedFrom k [] = Unit
SortedFrom k (x ∷ xs) = (k ≤ x) × SortedFrom x xs

-- In strictly ascending order from above `k`, and the last one, or `k`, is `len`.
abbrev pub Steps : ℕ → ℕ → List ℕ → Type 0
Steps k len [] = k ≡ len
Steps k len (x ∷ xs) = (k < x) × Steps x len xs

-- In strictly ascending order from above `k`.
abbrev Above : ℕ → List ℕ → Type 0
Above k [] = Unit
Above k (x ∷ xs) = (k < x) × Above x xs

insert-SortedFrom : (k x : ℕ) (ys : List ℕ) → k ≤ x → SortedFrom k ys → SortedFrom k (insert x ys)
unfolding insert
insert-SortedFrom k x [] h s = (h, tt)
insert-SortedFrom k x (y ∷ ys) h s = elim (Bool-cases (leb x y)) [
  | inl le ↦ rw le (h, (leb→le x y le, s.1))
  | inr gt ↦ rw gt (s.0, insert-SortedFrom y x ys (ground (arith, gt)) s.1)
]

pub sort-SortedFrom : (xs : List ℕ) → SortedFrom 0 (sort xs)
unfolding sort
sort-SortedFrom [] = tt
sort-SortedFrom (x ∷ xs) = insert-SortedFrom 0 x (sort xs) (omega arith) (sort-SortedFrom xs)

dedup_after-Above : (x : ℕ) (ys : List ℕ) → SortedFrom x ys → Above x (dedup_after x ys)
unfolding dedup_after
dedup_after-Above x [] s = tt
dedup_after-Above x (y ∷ ys) s = elim (Bool-cases (x == y)) [
  | inl same ↦
      let e : y ≡ x = sym ((==_iff x y).0 same) in rw same (dedup_after-Above x ys (rw e at s.1))
  | inr other ↦ rw other (ground (arith, other, s.0), dedup_after-Above y ys s.1)
]

retain-Above : (k : ℕ) (xs : List ℕ) → Above k xs → Above k (retain_positive xs)
unfolding retain_positive
retain-Above k [] a = tt
retain-Above k (x ∷ xs) a =
    let positive : ltb 0 x ≡ true = ground (arith, a.0) in rw positive (a.0, retain-Above x xs a.1)

Above-weaken : (j k : ℕ) (xs : List ℕ) → j ≤ k → Above k xs → Above j xs
Above-weaken j k [] h a = tt
Above-weaken j k (x ∷ xs) h a = (omega arith, a.1)

pub retained-Above : (xs : List ℕ) → SortedFrom 0 xs → Above 0 (retain_positive (dedup xs))
unfolding retain_positive dedup
retained-Above [] s = tt
retained-Above (x ∷ xs) s =
    let rest = retain-Above x (dedup_after x xs) (dedup_after-Above x xs s.1) in
    elim (Bool-cases (ltb 0 x)) [
      | inl positive ↦ rw positive (ltb→lt 0 x positive, rest)
      | inr nothing ↦
          rw nothing (Above-weaken 0 x (retain_positive (dedup_after x xs)) (omega arith) rest)
    ]

pub close_at-Steps :
    (len k : ℕ) (xs : List ℕ)
    → k ≤ len
    → Above k xs
    → All (λ p. p ≤ len) xs
    → Steps k len (close_at len k xs)
unfolding close_at
close_at-Steps len k [] h a below = elim (Bool-cases (k == len)) [
  | inl same ↦ rw same ((==_iff k len).0 same)
  | inr other ↦ rw other (ground (arith, other), refl)
]
close_at-Steps len k (x ∷ xs) h a below = (a.0, close_at-Steps len x xs below.0 a.1 below.1)

module _ (P : ℕ → Type 0) where
  insert-All : (x : ℕ) (ys : List ℕ) → P x → All P ys → All P (insert x ys)
  unfolding insert
  insert-All x [] p a = (p, tt)
  insert-All x (y ∷ ys) p a = elim (Bool-cases (leb x y)) [
    | inl le ↦ rw le (p, a)
    | inr gt ↦ rw gt (a.0, insert-All x ys p a.1)
  ]

  pub sort-All : (xs : List ℕ) → All P xs → All P (sort xs)
  unfolding sort
  sort-All [] a = tt
  sort-All (x ∷ xs) a = insert-All x (sort xs) a.0 (sort-All xs a.1)

  dedup_after-All : (x : ℕ) (ys : List ℕ) → All P ys → All P (dedup_after x ys)
  unfolding dedup_after
  dedup_after-All x [] a = tt
  dedup_after-All x (y ∷ ys) a = elim (Bool-cases (x == y)) [
    | inl same ↦ rw same (dedup_after-All x ys a.1)
    | inr other ↦ rw other (a.0, dedup_after-All y ys a.1)
  ]

  pub dedup-All : (xs : List ℕ) → All P xs → All P (dedup xs)
  unfolding dedup
  dedup-All [] a = tt
  dedup-All (x ∷ xs) a = (a.0, dedup_after-All x xs a.1)

  pub retain-All : (xs : List ℕ) → All P xs → All P (retain_positive xs)
  unfolding retain_positive
  retain-All [] a = tt
  retain-All (x ∷ xs) a = elim (Bool-cases (ltb 0 x)) [
    | inl positive ↦ rw positive (a.0, retain-All xs a.1)
    | inr nothing ↦ rw nothing (retain-All xs a.1)
  ]

  pub close_at-All : (len k : ℕ) (xs : List ℕ) → P len → All P xs → All P (close_at len k xs)
  unfolding close_at
  close_at-All len k [] p a = elim (Bool-cases (k == len)) [
    | inl same ↦ rw same tt
    | inr other ↦ rw other (p, tt)
  ]
  close_at-All len k (x ∷ xs) p a = (a.0, close_at-All len x xs p a.1)

  pub candidates-All :
      (s : Splitter) (bytes : Str) (n from count : ℕ)
      → ((i pos : ℕ) → candidate s bytes n i ≡ some pos → P pos)
      → All P (candidates s bytes n from count)
  unfolding candidates
  candidates-All s bytes n from zero at = tt
  candidates-All s bytes n from (suc count) at = elim (Option-cases (candidate s bytes n from)) [
    | inl nothing ↦ rw (nothing, candidates) (candidates-All s bytes n (from + 1) count at)
    | inr (pos, e) ↦
        rw (e, candidates) (at from pos e, candidates-All s bytes n (from + 1) count at)
  ]
