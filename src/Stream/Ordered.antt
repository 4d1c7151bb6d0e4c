-- ===== src/Stream/Ordered.antt =====
-- An ordered stream delivers the batches of all chunks in order, whatever order they arrive in.
use rypipe.Prelude.{
  ℕ, zero, suc, ◌+◌, ◌-◌, ◌≤◌, ◌<◌, ◌≡◌, ◌⊎◌, refl, none, some, List, [], ◌∷◌, ◌++◌, length, ◌==◌,
  if◌then◌else◌, ok, arith, Bool-cases, Option-cases, inl, inr,
}
use rypipe.Stream.{find, remove, Coordinator, Delivery, deliver, drain}

module _ {V : Type 0} where
  pub find-remove :
      (k j : ℕ) (m : List (ℕ × V)) → find j (remove k m) ≡ (if k == j then none else find j m)
  unfolding find remove
  find-remove k j [] = ground arith
  find-remove k j ((i, v) ∷ m) = elim (Bool-cases (i == k)) [
    | inl same ↦ rw same (ground (arith, find-remove k j m))
    | inr other ↦ rw other (ground (arith, find-remove k j m))
  ]

  length-remove : (k : ℕ) (m : List (ℕ × V)) → length (remove k m) ≤ length m
  unfolding remove
  length-remove k [] = omega arith
  length-remove k ((i, v) ∷ m) = ground (arith, length-remove k m)

  length-remove_found :
      (k : ℕ) (m : List (ℕ × V)) (v : V) → find k m ≡ some v → length (remove k m) < length m
  unfolding find remove
  length-remove_found k [] v e = cc
  length-remove_found k ((i, w) ∷ m) v e = elim (Bool-cases (i == k)) [
    | inl same ↦ rw same (omega (arith, length-remove k m))
    | inr other ↦ rw other (omega (arith, length-remove_found k m v (rw other at e)))
  ]

module _ {V : Type 0} where
  find-nothing : (k : ℕ) (m : List (ℕ × V)) → length m ≤ 0 → find k m ≡ none
  unfolding find
  find-nothing k [] le = refl
  find-nothing k (x ∷ m) le = ground arith

-- The number is in the list.
abbrev pub Has : ℕ → List ℕ → Type 0
Has k [] = ⊥
Has k (x ∷ xs) = (k ≡ x) ⊎ Has k xs

module _ {B : Type 0} (batch : ℕ → B) where
  -- The batches of the first `count` chunks.
  abbrev pub first_batches : ℕ → List B
  first_batches zero = []
  first_batches (suc count) = first_batches count ++ (batch count ∷ [])

module _ {B : Type 0} (d : Delivery B) (batch : ℕ → B) (n : ℕ) where
  -- What holds between two rounds of `drain`: every chunk is delivered, waits, or is still to come.
  pub record Waiting (c : Coordinator B) (rest : List ℕ) : Type 0 where
    pub given : c.delivered ≡ first_batches batch c.next_seq
    pub bound : c.next_seq ≤ n
    pub held : (k : ℕ) (b : B) → find k c.pending ≡ some b → (b ≡ batch k) × (k < n)
    pub each :
        (k : ℕ) → k < n → (k < c.next_seq) ⊎ ((find k c.pending ≡ some (batch k)) ⊎ Has k rest)

  -- And between two messages: the next chunk does not wait.
  pub record Settled (c : Coordinator B) (rest : List ℕ) : Type 0 where
    pub waiting : Waiting c rest
    pub absent : find c.next_seq c.pending ≡ none

  module _ (accepts : (h : List B) (b : B) → d.consume h b ≡ ok tt) where
    -- The next chunk is delivered from the pending ones.
    delivered_next :
        (c : Coordinator B) (rest : List ℕ) (b : B)
        → Waiting c rest
        → find c.next_seq c.pending ≡ some b
        → Waiting
            (record {
              pending = remove c.next_seq c.pending;
              next_seq = c.next_seq + 1;
              reorder_bytes = c.reorder_bytes - d.size b;
              dispatched = c.dispatched;
              delivered = c.delivered ++ (b ∷ []);
            })
            rest
    delivered_next c rest b w there =
        let (same, lt) = w.held c.next_seq b there in
        let next : c.next_seq + 1 ≡ suc c.next_seq = omega arith in
        record {
          given = rw (next, w.given, same) refl;
          bound = omega arith;
          held = λ k b' e.
              let e' = rw (find-remove c.next_seq k c.pending) at e in
              elim (Bool-cases (c.next_seq == k)) [
                | inl here ↦ let impossible : none ≡ some b' = rw here at e' in cc
                | inr other ↦ w.held k b' (rw other at e')
              ];
          each = λ k kn. elim (w.each k kn) [
            | inl before ↦ inl (omega arith)
            | inr (inr later) ↦ inr (inr later)
            | inr (inl waits) ↦ elim (Bool-cases (c.next_seq == k)) [
              | inl here ↦ inl (ground (arith, here))
              | inr other ↦ inr (inl (rw (find-remove c.next_seq k c.pending, other) waits))
            ]
          ];
        }

    pub drain-Settled :
        (fuel : ℕ) (c : Coordinator B) (rest : List ℕ)
        → length c.pending ≤ fuel
        → Waiting c rest
        → (c' : Coordinator B) × (drain d fuel c ≡ ok c') × Settled c' rest
    unfolding drain deliver
    drain-Settled zero c rest le w =
        (c, refl, record { waiting = w; absent = find-nothing c.next_seq c.pending le })
    drain-Settled (suc fuel) c rest le w = elim (Option-cases (find c.next_seq c.pending)) [
      | inl nothing ↦ (c, rw (nothing, drain) refl, record { waiting = w; absent = nothing })
      | inr (b, there) ↦
          let shorter = length-remove_found c.next_seq c.pending b there in
          let (c', done, settled) =
            drain-Settled fuel _ rest (omega arith) (delivered_next c rest b w there) in
          (c', rw (there, drain, accepts c.delivered b) done, settled)
    ]
