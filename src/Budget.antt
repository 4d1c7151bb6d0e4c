-- ===== src/Budget.antt =====
-- crates/rypipe-core/src/budget.rs and the `MemoryBudget` of crates/rypipe-core/src/bounded.rs.
pub mod Partition
pub mod Ledger
mod Tests
use rypipe.Prelude.{
  ℕ, ◌+◌, ◌-◌, ◌*◌, ◌/◌, ◌%◌, ◌^◌, min, max, Bool, true, false, ◌&&◌, Result, ok, err, memory, ltb,
  if◌then◌else◌,
}
use rypipe.Prelude.{wadd, wmul, saturating_add}

pub record MemoryBudget : Type 0 where
  pub bytes : ℕ
  pub strict : Bool

unfoldable pub new : ℕ → MemoryBudget
new bytes = record { bytes = bytes; strict = false }

unfoldable pub with_strict : MemoryBudget → Bool → MemoryBudget
with_strict b strict = record b { strict = strict }

unfoldable pub share : MemoryBudget → ℕ → MemoryBudget
share b count = record b { bytes = b.bytes / max count 1 }

unfoldable pub check : MemoryBudget → ℕ → Result (Unit {0})
check b used = if b.strict && ltb b.bytes used then err (memory used b.bytes) else ok tt
