-- ===== src/Budget/Tests.antt =====
-- Tests of the budget, and its theorems at concrete budgets and ledgers.
use rypipe.Prelude.{◌+◌, ◌*◌, ◌≤◌, ◌≡◌, ◌↔◌, refl, List, [], ◌∷◌, arith, ok, true}
use rypipe.Budget.{MemoryBudget}
use rypipe.Budget.Partition.{
  serial, parallel, serial_worst, parallel_worst, serial_fits, parallel_fits,
}
use rypipe.Budget.Ledger.{
  new, apply, run, check, Charge, builders, charge_flight, release_flight, charge_order, live_sum,
  highest, peak-run, check_iff,
}

abbrev small : MemoryBudget
small = record { bytes = 4096; strict = true }

serial_fits_example : 16 * serial_worst (serial small) ≤ 11 * 4096
serial_fits_example = serial_fits small (omega arith)

parallel_fits_example : parallel_worst 4 (parallel small 4) ≤ 4096
parallel_fits_example = parallel_fits small 4 (omega arith) (omega arith)

abbrev calls : List Charge
calls = builders 100 ∷ charge_flight 50 ∷ release_flight 50 ∷ charge_order 20 ∷ []

peak-run_example : (run (new small) calls).peak ≡ highest 0 (new small) calls
unfolding new apply
peak-run_example =
    peak-run (new small) calls (omega arith) (omega arith)
      (omega arith, (omega arith, (tt, (omega arith, tt))))

peak_of_calls : (run (new small) calls).peak ≡ 150
unfolding run new apply
peak_of_calls = refl

check_iff_example : (check (new small) 10 ≡ ok tt) ↔ (live_sum (new small) ≤ 4096 + 10)
unfolding new
check_iff_example = check_iff (new small) 10 (omega arith)
