-- ===== src/Budget/Partition.antt =====
-- `BudgetPartition` of crates/rypipe-core/src/budget.rs: the per-component limits.
use native.Mathlib.Nat.{mul-div-le}
use rypipe.Prelude.{ℕ, zero, suc, ◌+◌, ◌*◌, ◌/◌, ◌≤◌, ◌<◌, ◌≡◌, max, arith, wmul, word}
use rypipe.Budget.{MemoryBudget}

pub record BudgetPartition : Type 0 where
  pub budget : ℕ
  pub batch_target : ℕ
  pub max_chunk_bytes : ℕ
  pub max_in_flight : ℕ
  pub reorder_limit : ℕ

unfoldable pub serial : MemoryBudget → BudgetPartition
serial budget =
    let b = budget.bytes in
    record {
      budget = b;
      batch_target = max (b / 8) 1;
      max_chunk_bytes = max (b / 16) 1;
      max_in_flight = 2;
      reorder_limit = 0;
    }

unfoldable pub parallel : MemoryBudget → ℕ → BudgetPartition
parallel budget threads =
    let b = budget.bytes in
    let n = max threads 1 in
    let chunk = max (b / wmul 8 n) 1 in
    record {
      budget = b;
      batch_target = chunk;
      max_chunk_bytes = chunk;
      max_in_flight = wmul 2 n;
      reorder_limit = max (b / 2) 1;
    }

-- What the serial executor may hold at once: one input chunk, its builder at twice the chunk, the
-- accumulator at twice the batch, and the batches in flight.
abbrev pub serial_worst : BudgetPartition → ℕ
serial_worst p =
    p.max_chunk_bytes
    + 2 * p.max_chunk_bytes
    + 2 * p.batch_target
    + p.max_in_flight * p.batch_target

-- What `threads` workers may hold at once: their builders, the finished batches, the reorder buffer.
abbrev pub parallel_worst : ℕ → BudgetPartition → ℕ
parallel_worst threads p =
    threads * (2 * p.max_chunk_bytes) + p.max_in_flight * p.batch_target + p.reorder_limit

-- For a budget of at least 16 bytes the limits that `serial` sets together stay within 11/16 of
-- the budget.
pub serial_fits : (b : MemoryBudget) → 16 ≤ b.bytes → 16 * serial_worst (serial b) ≤ 11 * b.bytes
unfolding serial
serial_fits b h = omega arith

-- Eight shares of `b / (8 n)`, `n` times, are at most `b`.
shares_fit : (b n : ℕ) → n * (b / (8 * n)) * 8 ≤ b
shares_fit b n = grind (arith, mul-div-le b (8 * n))

-- The parallel limits add up, for `t` of `n` workers with a share of `c` bytes each.
limits_add_up :
    (t n c b : ℕ)
    → t ≤ n
    → 1 ≤ n
    → 8 * n ≤ b
    → n * c * 8 ≤ b
    → t * (2 * max c 1) + 2 * n * max c 1 + max (b / 2) 1 ≤ b
limits_add_up t n zero b tn n1 h k = omega arith
limits_add_up t n (suc c) b tn n1 h k =
    let one : max (suc c) 1 ≡ suc c = omega arith in
    let tm : t * suc c ≤ n * suc c = grind arith in rw one (omega arith)

-- For a budget of at least 8 bytes for each worker, and below 2^64, the limits that `parallel`
-- sets for the builders, the batches in flight and the reorder buffer together stay within the
-- budget.
pub parallel_fits :
    (b : MemoryBudget) (threads : ℕ)
    → 8 * max threads 1 ≤ b.bytes
    → b.bytes < word
    → parallel_worst threads (parallel b threads) ≤ b.bytes
unfolding parallel
parallel_fits b threads h w =
    let n : ℕ = max threads 1 in
    let eight : wmul 8 n ≡ 8 * n = omega arith in
    let two : wmul 2 n ≡ 2 * n = omega arith in
    rw (eight, two)
      (limits_add_up threads n (b.bytes / (8 * n)) b.bytes (omega arith) (omega arith) h
        (shares_fit b.bytes n))
