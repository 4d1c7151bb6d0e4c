-- ===== src/Stream.antt =====
-- The coordinator of crates/rypipe-core/src/parallel_stream.rs: batches arrive from the workers in
-- any order and go to the consumer, in the order of their chunks if the stream is ordered.
pub mod Ordered
pub mod Arrivals
mod Tests
use rypipe.Prelude.{
  ℕ, zero, suc, ◌+◌, ◌-◌, Bool, true, false, ◌&&◌, Option, none, some, List, [], ◌∷◌, ◌++◌, length,
  ltb, ◌==◌, if◌then◌else◌, saturating_add, Result, ok, err, memory, ◌>>=◌,
}

-- A map from numbers, as an association list without double keys (`BTreeMap`).
module _ {V : Type 0} where
  unfoldable pub find : ℕ → List (ℕ × V) → Option V
  find k [] = none
  find k ((j, v) ∷ m) = if j == k then some v else find k m

  unfoldable pub remove : ℕ → List (ℕ × V) → List (ℕ × V)
  remove k [] = []
  remove k ((j, v) ∷ m) = let rest = remove k m in if j == k then rest else (j, v) ∷ rest

-- `delivered` is what the consumer has got; `dispatched` is the number that lets workers start.
pub record Coordinator (B : Type 0) : Type 0 where
  pub pending : List (ℕ × B)
  pub next_seq : ℕ
  pub reorder_bytes : ℕ
  pub dispatched : ℕ
  pub delivered : List B

-- The options of the stream; the size of a batch in memory, which is arrow's; and the consumer,
-- which may fail on a batch after those it has got.
pub record Delivery (B : Type 0) : Type 0 where
  pub ordered : Bool
  pub strict : Bool
  pub reorder_limit : ℕ
  pub size : B → ℕ
  pub consume : List B → B → Result (Unit {0})

module _ {B : Type 0} (d : Delivery B) where
  unfoldable pub deliver : Coordinator B → B → Result (Coordinator B)
  deliver c batch =
      d.consume c.delivered batch
      >>= (λ done. ok (record c { delivered = c.delivered ++ (batch ∷ []) }))

  -- `while let Some(b) = pending.remove(&next_seq)`, which has a round for each pending batch. The
  -- subtraction stops at 0, where that of the source would wrap after a sum that saturated.
  unfoldable pub drain : (fuel : ℕ) → Coordinator B → Result (Coordinator B)
  unfolding find remove deliver
  drain zero c = ok c
  drain (suc fuel) c = elim (find c.next_seq c.pending) [
    | none ↦ ok c
    | some b ↦
        deliver
          (record c {
            pending = remove c.next_seq c.pending;
            reorder_bytes = c.reorder_bytes - d.size b;
          })
          b
        >>= (λ c'. drain fuel (record c' { next_seq = c'.next_seq + 1 }))
  ]

  -- The batch of the next chunk, and those that waited for it.
  unfoldable pub deliver_next : Coordinator B → B → Result (Coordinator B)
  unfolding drain
  deliver_next c batch =
      deliver c batch
      >>= (λ c'. drain (length c'.pending) (record c' { next_seq = c'.next_seq + 1 }))
      >>= (λ c'. ok (record c' { dispatched = c'.next_seq }))

  -- A batch that comes too early waits, if there is room for it.
  unfoldable pub keep : Coordinator B → ℕ → B → Result (Coordinator B)
  keep c seq batch =
      let bytes = saturating_add c.reorder_bytes (d.size batch) in
      if d.strict && ltb d.reorder_limit bytes
      then err (memory bytes d.reorder_limit)
      else ok (record c { pending = (seq, batch) ∷ remove seq c.pending; reorder_bytes = bytes })

  -- A message from a worker.
  unfoldable pub arrive : Coordinator B → ℕ → Result B → Result (Coordinator B)
  unfolding deliver deliver_next keep
  arrive c seq res = res >>= (λ batch.
      if d.ordered
      then (if seq == c.next_seq then deliver_next c batch else keep c seq batch)
      else deliver c batch)

  unfoldable pub coordinate : Coordinator B → List (ℕ × Result B) → Result (Coordinator B)
  unfolding arrive
  coordinate c [] = ok c
  coordinate c ((seq, res) ∷ messages) = arrive c seq res >>= (λ c'. coordinate c' messages)

abbrev pub start : {B : Type 0} → Coordinator B
start = record { pending = []; next_seq = 0; reorder_bytes = 0; dispatched = 0; delivered = [] }
