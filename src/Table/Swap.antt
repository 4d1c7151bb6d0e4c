-- ===== src/Table/Swap.antt =====
-- `pop` and `swap_remove` of the list of columns.
use rypipe.Prelude.{
  ℕ, zero, suc, false, ◌+◌, ◌≡◌, ◌<◌, ◌≤◌, refl, ◌∙◌, some, List, [], ◌∷◌, length, get_elem?, set,
  take, length-take, ◌==◌, if◌then◌else◌, Bool-cases, inl, inr, arith,
}
use rypipe.Columnar.Contents.{length-set}
use rypipe.Table.Take.{swap_remove}

module _ {A : Type 0} where
  get_elem?-take : (xs : List A) (n i : ℕ) → i < n → get_elem? (take n xs) i ≡ get_elem? xs i
  get_elem?-take xs zero i h = ground arith
  get_elem?-take [] (suc n) i h = refl
  get_elem?-take (x ∷ xs) (suc n) zero h = refl
  get_elem?-take (x ∷ xs) (suc n) (suc i) h = get_elem?-take xs n i (omega arith)

  pub get_elem?-written :
      (xs : List A) (k i : ℕ) (v : A)
      → k < length xs
      → get_elem? (set xs k v) i ≡ (if k == i then some v else get_elem? xs i)
  get_elem?-written [] k i v h = ground arith
  get_elem?-written (x ∷ xs) zero zero v h = refl
  get_elem?-written (x ∷ xs) zero (suc i) v h = ground arith
  get_elem?-written (x ∷ xs) (suc k) zero v h = ground arith
  get_elem?-written (x ∷ xs) (suc k) (suc i) v h =
      get_elem?-written xs k i v (omega arith) ∙ ground arith

  pub there_is : (xs : List A) (i : ℕ) → i < length xs → (x : A) × (get_elem? xs i ≡ some x)
  there_is [] i h = ground arith
  there_is (x ∷ xs) zero h = (x, refl)
  there_is (x ∷ xs) (suc i) h = there_is xs i (omega arith)

  pub length-swap_remove :
      (xs : List A) (idx last : ℕ) → length xs ≡ last + 1 → length (swap_remove xs idx last) ≡ last
  unfolding swap_remove
  length-swap_remove xs idx last size = elim (Bool-cases (idx == last)) [
    | inl at_end ↦ rw at_end (omega (arith, length-take last xs))
    | inr inside ↦
        let (x, there) = there_is xs last (omega arith) in
        rw (inside, there) (omega (arith, length-take last (set xs idx x), length-set xs idx x))
  ]

  pub get_elem?-swap_remove :
      (xs : List A) (idx last i : ℕ)
      → length xs ≡ last + 1
      → idx ≤ last
      → i < last
      → get_elem? (swap_remove xs idx last) i
        ≡ (if idx == i then get_elem? xs last else get_elem? xs i)
  unfolding swap_remove
  get_elem?-swap_remove xs idx last i size within h = elim (Bool-cases (idx == last)) [
    | inl at_end ↦
        let other : (idx == i) ≡ false = ground (arith, at_end) in
        rw (at_end, other) (get_elem?-take xs last i h)
    | inr inside ↦
        let (x, there) = there_is xs last (omega arith) in
        rw (inside, there)
          (get_elem?-take (set xs idx x) last i h ∙ get_elem?-written xs idx i x (omega arith))
  ]
