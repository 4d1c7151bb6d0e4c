-- ===== src/Masks/Cursor.antt =====
-- The state between calls of `next_unquoted`, and the rounds of its loop.
use rypipe.Prelude.{
  ℕ, suc, ◌+◌, ◌-◌, ◌≤◌, ◌<◌, ◌≡◌, refl, true, false, Option, none, some, Str, length, wadd, wsub,
}
use rypipe.Masks.{BlockMasks, ensure_all, advance_block}
use rypipe.Masks.Quotes.{scan_block_unquoted, next_unquoted_loop}
use rypipe.Masks.Cache.{IsCache}
use rypipe.Masks.Quoted.{unquoted}
use rypipe.Masks.Shown.{IsActive}

-- The state between calls of `next_unquoted`: the block at hand ends at or after the cursor.
pub record IsCursor (buf delims quotes : Str) (b : BlockMasks) : Type 0 where
  pub cache : IsCache buf delims quotes b
  pub active : IsActive delims b.in_quote
  pub at_block :
      b.loaded ≡ true → (b.base ≤ b.quote_pos) × (b.quote_pos ≤ b.base + 64) × (b.base < length buf)

-- The state carries on the scan with the result `r`.
abbrev pub Continues : BlockMasks → Option ℕ × ℕ → Type 0
Continues b r =
    (b.loaded ≡ true) × (b.in_quote ≡ r.1) × ((p : ℕ) → r.0 ≡ some p → b.quote_pos ≡ p + 1)

-- The result of a search from `cur`, with the quote `q` open.
abbrev pub FindsFrom : Str → Str → Str → ℕ → ℕ → ℕ → Option (Option ℕ × BlockMasks) → Type 0
FindsFrom buf delims quotes d q cur result =
    (b' : BlockMasks) × (result ≡ some ((unquoted buf quotes d q cur (length buf - cur)).0, b'))
    × IsCursor buf delims quotes b'
    × Continues b' (unquoted buf quotes d q cur (length buf - cur))

pub set_quote-IsCache :
    (buf delims quotes : Str) (b : BlockMasks) (q n : ℕ)
    → IsCache buf delims quotes b
    → IsCache buf delims quotes (record b { in_quote = q; quote_pos = n })
set_quote-IsCache buf delims quotes b q n c = record {
  buffer = c.buffer;
  delimiters = c.delimiters;
  quoting = c.quoting;
  fresh = c.fresh;
}

-- A round of the loop, by what its block gives.
module _ (fuel : ℕ) (b : BlockMasks) (cur di q : ℕ) where
  abbrev pub searched : BlockMasks
  searched = record (ensure_all b) { in_quote = q }

  pub round_found :
      (p : ℕ)
      → scan_block_unquoted (ensure_all b) (wsub cur (ensure_all b).base) di ≡ some (some p, q)
      → some (
        some ((ensure_all b).base + p),
        record (ensure_all b) { in_quote = q; quote_pos = (ensure_all b).base + p + 1 },
      )
        ≡ next_unquoted_loop (suc fuel) b cur di
  unfolding next_unquoted_loop
  round_found p e = rw (e, next_unquoted_loop) refl

  pub round_more :
      scan_block_unquoted (ensure_all b) (wsub cur (ensure_all b).base) di ≡ some (none, q)
      → (advance_block searched).1 ≡ true
      → next_unquoted_loop fuel
          (record (advance_block searched).0 { quote_pos = (advance_block searched).0.base })
          (advance_block searched).0.base
          di
        ≡ next_unquoted_loop (suc fuel) b cur di
  unfolding next_unquoted_loop
  round_more e more = rw (e, next_unquoted_loop) (rw more refl)

  pub round_last :
      scan_block_unquoted (ensure_all b) (wsub cur (ensure_all b).base) di ≡ some (none, q)
      → (advance_block searched).1 ≡ false
      → some (
        none,
        record (advance_block searched).0 { quote_pos = wadd (advance_block searched).0.base 64 },
      )
        ≡ next_unquoted_loop (suc fuel) b cur di
  unfolding next_unquoted_loop
  round_last e last = rw (e, next_unquoted_loop) (rw last refl)
