-- ===== src/Split/Counts.antt =====
-- The bounds of `plan_chunk_count_with` of decoder.rs.
use native.Mathlib.Nat.{mul-div-le}
use rypipe.Prelude.{ℕ, ◌*◌, ◌/◌, ◌≤◌, ◌⊎◌, inl, inr, min, max, arith, saturating_mul}
use rypipe.Split.{SplitMode, parallel, streaming, plan_chunk_count_with}

capped :
    (size cap threads : ℕ)
    → let n = min (max (min size cap) threads) 1024 in
      (min threads 1024 ≤ n) × (n ≤ 1024) × ((n ≤ threads) ⊎ (n ≤ size))
capped size cap threads = omega arith

-- A count that is at most `bytes / m` gives every chunk `m` bytes.
enough_bytes : (bytes m n : ℕ) → n ≤ bytes / m → n * m ≤ bytes
enough_bytes bytes m n h = grind (arith, mul-div-le bytes m)

bounds :
    (bytes m cap threads : ℕ)
    → let n = min (max (min (bytes / m) cap) threads) 1024 in
      (min threads 1024 ≤ n) × (n ≤ 1024) × ((n ≤ threads) ⊎ (n * m ≤ bytes))
bounds bytes m cap threads =
    let (low, high, many) = capped (bytes / m) cap threads in
    (low, high, elim many [ inl few ↦ inl few | inr fits ↦ inr (enough_bytes bytes m _ fits) ])

-- The planned number of chunks is at least the number of threads, or 1024 if that is less, and at
-- most 1024; where it is above the number of threads, the input has at least `min_chunk_bytes` for
-- each chunk.
pub plan_chunk_count_with_bounds :
    (bytes threads : ℕ) (mode : SplitMode) (min_chunk_bytes : ℕ)
    → let n = plan_chunk_count_with bytes threads mode min_chunk_bytes in
      (min threads 1024 ≤ n) × (n ≤ 1024) × ((n ≤ threads) ⊎ (n * max min_chunk_bytes 1 ≤ bytes))
unfolding plan_chunk_count_with
plan_chunk_count_with_bounds bytes threads parallel min_chunk_bytes =
    bounds bytes (max min_chunk_bytes 1) (saturating_mul 16 threads) threads
plan_chunk_count_with_bounds bytes threads streaming min_chunk_bytes =
    bounds bytes (max min_chunk_bytes 1) (saturating_mul 8 threads) threads
