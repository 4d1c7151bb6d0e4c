-- ===== src/Stream/Arrivals.antt =====
-- Every message of an ordered stream keeps what `Settled` says, and at the end all is delivered.
use rypipe.Prelude.{
  ℕ, suc, ◌+◌, ◌<◌, ◌≡◌, refl, sym, ap, ◌∙◌, Bool, true, false, none, some, List, [], ◌∷◌, ◌++◌,
  length, ◌==◌, if◌then◌else◌, Result, ok, arith, Bool-cases, inl, inr, ==_iff, saturating_add,
}
use rypipe.Stream.{
  find, remove, Coordinator, Delivery, deliver, deliver_next, keep, arrive, coordinate, start,
}
use rypipe.Stream.Ordered.{Has, first_batches, Waiting, Settled, find-remove, drain-Settled}

-- All the numbers are below `n`.
abbrev pub Below : ℕ → List ℕ → Type 0
Below n [] = Unit
Below n (seq ∷ rest) = (seq < n) × Below n rest

-- The messages of workers that succeed, for the chunks of the list.
abbrev pub messages : {B : Type 0} → (ℕ → B) → List ℕ → List (ℕ × Result B)
messages batch [] = []
messages batch (seq ∷ rest) = (seq, ok (batch seq)) ∷ messages batch rest

module _ {A : Type 0} (x y : A) where
  if_true : (b : Bool) → b ≡ true → (if b then x else y) ≡ x
  if_true b e = rw e refl

  if_false : (b : Bool) → b ≡ false → (if b then x else y) ≡ y
  if_false b e = rw e refl

module _ {B : Type 0} (d : Delivery B) (batch : ℕ → B) (n : ℕ)
    (accepts : (h : List B) (b : B) → d.consume h b ≡ ok tt) where
  arrived_next :
      (c : Coordinator B) (rest : List ℕ)
      → Waiting d batch n c (c.next_seq ∷ rest)
      → c.next_seq < n
      → Waiting d batch n
          (record {
            pending = c.pending;
            next_seq = c.next_seq + 1;
            reorder_bytes = c.reorder_bytes;
            dispatched = c.dispatched;
            delivered = c.delivered ++ (batch c.next_seq ∷ []);
          })
          rest
  arrived_next c rest w lt =
      let next : c.next_seq + 1 ≡ suc c.next_seq = omega arith in
      record {
        given = rw (next, w.given) refl;
        bound = omega arith;
        held = w.held;
        each = λ k kn. elim (w.each k kn) [
          | inl before ↦ inl (omega arith)
          | inr (inl waits) ↦ inr (inl waits)
          | inr (inr (inl here)) ↦ inl (omega (arith, here))
          | inr (inr (inr later)) ↦ inr (inr later)
        ];
      }

  deliver_next-Settled :
      (c : Coordinator B) (rest : List ℕ)
      → Waiting d batch n c (c.next_seq ∷ rest)
      → c.next_seq < n
      → (c' : Coordinator B) × (deliver_next d c (batch c.next_seq) ≡ ok c')
        × Settled d batch n c' rest
  unfolding deliver_next deliver
  deliver_next-Settled c rest w lt =
      let (c', done, s) =
        drain-Settled d batch n accepts (length c.pending) _ rest (omega arith)
          (arrived_next c rest w lt) in
      (
        record c' { dispatched = c'.next_seq },
        rw (accepts c.delivered (batch c.next_seq), done) refl,
        record {
          waiting = record {
            given = s.waiting.given;
            bound = s.waiting.bound;
            held = s.waiting.held;
            each = s.waiting.each;
          };
          absent = s.absent;
        },
      )

  keep-Settled :
      (c : Coordinator B) (seq : ℕ) (rest : List ℕ)
      → d.strict ≡ false
      → Settled d batch n c (seq ∷ rest)
      → seq < n
      → (seq == c.next_seq) ≡ false
      → (c' : Coordinator B) × (keep d c seq (batch seq) ≡ ok c') × Settled d batch n c' rest
  unfolding keep find
  keep-Settled c seq rest lax s lt early =
      let w = s.waiting in
      (
        record c {
          pending = (seq, batch seq) ∷ remove seq c.pending;
          reorder_bytes = saturating_add c.reorder_bytes (d.size (batch seq));
        },
        rw lax refl,
        record {
          waiting = record {
            given = w.given;
            bound = w.bound;
            held = λ k b e. elim (Bool-cases (seq == k)) [
              | inl here ↦
                  let same : some (batch seq) ≡ some b = rw here at e in
                  let at : seq ≡ k = (==_iff seq k).0 here in (cc, omega (arith, at))
              | inr other ↦ w.held k b (rw (find-remove seq k c.pending, other) at (rw other at e))
            ];
            each = λ k kn. elim (Bool-cases (seq == k)) [
              | inl here ↦
                  let at : seq ≡ k = (==_iff seq k).0 here in
                  inr (inl (rw here (ap (λ i. some (batch i)) at)))
              | inr other ↦ elim (w.each k kn) [
                | inl before ↦ inl before
                | inr (inl waits) ↦
                    inr (inl (rw other (rw (find-remove seq k c.pending, other) waits)))
                | inr (inr (inl here)) ↦
                    let impossible : ⊥ = ground (arith, here, other) in elim impossible [ ]
                | inr (inr (inr later)) ↦ inr (inr later)
              ]
            ];
          };
          absent = rw (early, find-remove seq c.next_seq c.pending) (rw early s.absent);
        },
      )

  arrive_now :
      (c : Coordinator B) (seq : ℕ) (b : B)
      → d.ordered ≡ true
      → (seq == c.next_seq) ≡ true
      → arrive d c seq (ok b) ≡ deliver_next d c b
  unfolding arrive
  arrive_now c seq b ordered now =
      if_true _ _ d.ordered ordered ∙ if_true _ _ (seq == c.next_seq) now

  arrive_early :
      (c : Coordinator B) (seq : ℕ) (b : B)
      → d.ordered ≡ true
      → (seq == c.next_seq) ≡ false
      → arrive d c seq (ok b) ≡ keep d c seq b
  unfolding arrive
  arrive_early c seq b ordered early =
      if_true _ _ d.ordered ordered ∙ if_false _ _ (seq == c.next_seq) early

  arrive-Settled :
      (c : Coordinator B) (seq : ℕ) (rest : List ℕ)
      → d.ordered ≡ true
      → d.strict ≡ false
      → Settled d batch n c (seq ∷ rest)
      → seq < n
      → (c' : Coordinator B) × (arrive d c seq (ok (batch seq)) ≡ ok c') × Settled d batch n c' rest
  arrive-Settled c seq rest ordered lax s lt = elim (Bool-cases (seq == c.next_seq)) [
    | inl now ↦
        let here : seq ≡ c.next_seq = (==_iff seq c.next_seq).0 now in
        let (c', done, s') =
          deliver_next-Settled c rest (rw here at s.waiting) (omega (arith, here, lt)) in
        (
          c',
          arrive_now c seq (batch seq) ordered now
              ∙ ap (λ i. deliver_next d c (batch i)) here
              ∙ done,
          s',
        )
    | inr early ↦
        let (c', done, s') = keep-Settled c seq rest lax s lt early in
        (c', arrive_early c seq (batch seq) ordered early ∙ done, s')
  ]

  coordinate-Settled :
      (c : Coordinator B) (seqs : List ℕ)
      → d.ordered ≡ true
      → d.strict ≡ false
      → Settled d batch n c seqs
      → Below n seqs
      → (c' : Coordinator B) × (coordinate d c (messages batch seqs) ≡ ok c')
        × Settled d batch n c' []
  unfolding coordinate
  coordinate-Settled c [] ordered lax s below = (c, refl, s)
  coordinate-Settled c (seq ∷ rest) ordered lax s below =
      let (c', done, s') = arrive-Settled c seq rest ordered lax s below.0 in
      let (c'', all, s'') = coordinate-Settled c' rest ordered lax s' below.1 in
      (c'', rw done all, s'')

  start-Settled : (seqs : List ℕ) → ((k : ℕ) → k < n → Has k seqs) → Settled d batch n start seqs
  unfolding find
  start-Settled seqs every = record {
    waiting = record {
      given = refl;
      bound = omega arith;
      held = λ k b e. cc;
      each = λ k kn. inr (inr (every k kn));
    };
    absent = refl;
  }

  -- With no message left, the next chunk is none of those below `n`.
  at_end : (c : Coordinator B) → Settled d batch n c [] → c.next_seq < n → ⊥
  at_end c s lt = elim (s.waiting.each c.next_seq lt) [
    | inl before ↦ omega arith
    | inr (inl waits) ↦ let impossible : none ≡ some (batch c.next_seq) = sym s.absent ∙ waits in cc
    | inr (inr later) ↦ later
  ]

  -- For an ordered stream without a strict budget whose consumer takes every batch, and messages
  -- that bring the batches of the chunks below `n`, each at least once and in any order, the
  -- coordinator succeeds and the consumer has got the batches of all chunks in order.
  pub coordinate-first_batches :
      (seqs : List ℕ)
      → d.ordered ≡ true
      → d.strict ≡ false
      → Below n seqs
      → ((k : ℕ) → k < n → Has k seqs)
      → (c : Coordinator B) × (coordinate d start (messages batch seqs) ≡ ok c)
        × (c.delivered ≡ first_batches batch n)
  coordinate-first_batches seqs ordered lax below every =
      let (c, done, s) =
        coordinate-Settled start seqs ordered lax (start-Settled seqs every) below in
      let last : c.next_seq ≡ n = ground (arith, s.waiting.bound, at_end c s) in
      (c, done, s.waiting.given ∙ ap (λ count. first_batches batch count) last)
