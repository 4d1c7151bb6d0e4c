-- ===== src/Budget/Ledger.antt =====
-- `BudgetLedger` of crates/rypipe-core/src/budget.rs: charges for live bytes, and their peak.
use rypipe.Prelude.{ℕ, ◌+◌, ◌-◌, ◌≤◌, ◌<◌, max, ◌≡◌, refl, ◌↔◌, List, [], ◌∷◌, arith}
use rypipe.Prelude.{Result, ok, err, memory, ltb, if◌then◌else◌, wadd, saturating_add, word}
use rypipe.Budget.{MemoryBudget}

pub record BudgetLedger : Type 0 where
  pub budget : ℕ
  pub input : ℕ
  pub builders : ℕ
  pub in_flight : ℕ
  pub reorder : ℕ
  pub peak : ℕ

unfoldable pub new : MemoryBudget → BudgetLedger
new b = record { budget = b.bytes; input = 0; builders = 0; in_flight = 0; reorder = 0; peak = 0 }

unfoldable pub live : BudgetLedger → ℕ
live l = wadd (wadd (wadd l.input l.builders) l.in_flight) l.reorder

unfoldable pub note : BudgetLedger → BudgetLedger
unfolding live
note l = record l { peak = max l.peak (live l) }

unfoldable pub set_input : BudgetLedger → ℕ → BudgetLedger
unfolding note
set_input l bytes = note (record l { input = bytes })

unfoldable pub set_builders : BudgetLedger → ℕ → BudgetLedger
unfolding note
set_builders l bytes = note (record l { builders = bytes })

unfoldable pub charge_in_flight : BudgetLedger → ℕ → BudgetLedger
unfolding note
charge_in_flight l bytes = note (record l { in_flight = wadd l.in_flight bytes })

unfoldable pub release_in_flight : BudgetLedger → ℕ → BudgetLedger
release_in_flight l bytes = record l { in_flight = l.in_flight - bytes }

unfoldable pub charge_reorder : BudgetLedger → ℕ → BudgetLedger
unfolding note
charge_reorder l bytes = note (record l { reorder = wadd l.reorder bytes })

unfoldable pub release_reorder : BudgetLedger → ℕ → BudgetLedger
release_reorder l bytes = record l { reorder = l.reorder - bytes }

unfoldable pub check : BudgetLedger → ℕ → Result (Unit {0})
unfolding live
check l allowance =
    let used = live l in
    let limit = saturating_add l.budget allowance in
    if ltb limit used then err (memory used limit) else ok tt

-- A call of one of the six methods.
pub data Charge : Type 0 where
  input builders charge_flight release_flight charge_order release_order : ℕ → Charge

unfoldable pub apply : BudgetLedger → Charge → BudgetLedger
unfolding set_input set_builders charge_in_flight release_in_flight charge_reorder release_reorder
apply l (input n) = set_input l n
apply l (builders n) = set_builders l n
apply l (charge_flight n) = charge_in_flight l n
apply l (release_flight n) = release_in_flight l n
apply l (charge_order n) = charge_reorder l n
apply l (release_order n) = release_reorder l n

unfoldable pub run : BudgetLedger → List Charge → BudgetLedger
run l [] = l
run l (e ∷ es) = run (apply l e) es

-- The live bytes, summed exactly.
abbrev pub live_sum : BudgetLedger → ℕ
live_sum l = l.input + l.builders + l.in_flight + l.reorder

-- The call leaves a sum that fits a machine word.
abbrev pub Room : BudgetLedger → Charge → Type 0
Room l (input n) = n + l.builders + l.in_flight + l.reorder < word
Room l (builders n) = l.input + n + l.in_flight + l.reorder < word
Room l (charge_flight n) = live_sum l + n < word
Room l (charge_order n) = live_sum l + n < word
Room l _ = Unit

abbrev pub AllRoom : BudgetLedger → List Charge → Type 0
AllRoom l [] = Unit
AllRoom l (e ∷ es) = Room l e × AllRoom (apply l e) es

-- The highest exact sum over `p` and all states of the run.
abbrev pub highest : ℕ → BudgetLedger → List Charge → ℕ
highest p l [] = p
highest p l (e ∷ es) = highest (max p (live_sum (apply l e))) (apply l e) es

apply-peak :
    (l : BudgetLedger) (e : Charge)
    → live_sum l ≤ l.peak
    → live_sum l < word
    → Room l e
    → (live_sum (apply l e) < word)
      × ((apply l e).peak ≡ max l.peak (live_sum (apply l e)))
      × (live_sum (apply l e) ≤ (apply l e).peak)
unfolding apply
apply-peak l (input n) h w r = omega arith
apply-peak l (builders n) h w r = omega arith
apply-peak l (charge_flight n) h w r = omega arith
apply-peak l (release_flight n) h w r = omega arith
apply-peak l (charge_order n) h w r = omega arith
apply-peak l (release_order n) h w r = omega arith

-- While no sum overflows a machine word, the recorded peak is the highest sum of live bytes over
-- all states of a run of charges and releases.
pub peak-run :
    (l : BudgetLedger) (es : List Charge)
    → live_sum l ≤ l.peak
    → live_sum l < word
    → AllRoom l es
    → (run l es).peak ≡ highest l.peak l es
unfolding run
peak-run l [] h w r = refl
peak-run l (e ∷ es) h w r =
    let (w', p, h') = apply-peak l e h w r.0 in rw (← p) (peak-run (apply l e) es h' w' r.1)

-- For a ledger whose sum fits a machine word, `check` succeeds exactly when the live bytes are at
-- most the budget and the allowance.
pub check_iff :
    (l : BudgetLedger) (allowance : ℕ)
    → live_sum l < word
    → (check l allowance ≡ ok tt) ↔ (live_sum l ≤ l.budget + allowance)
unfolding check
check_iff l allowance w = ground arith
