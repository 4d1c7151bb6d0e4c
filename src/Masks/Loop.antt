-- ===== src/Masks/Loop.antt =====
-- The loop of `next_unquoted`, block by block.
use rypipe.Prelude.{
  ℕ, zero, suc, ◌+◌, ◌-◌, ◌^◌, ◌≤◌, ◌<◌, ◌≡◌, refl, ap, ◌∙◌, true, false, Option, none, some, Str,
  length, arith, Bool-cases, Option-cases, inl, inr, wadd, wsub,
}
use mathlib.Core.Path.{subst}
use rypipe.Masks.{BlockMasks, position, ensure_all, advance_block}
use rypipe.Masks.Quotes.{scan_block_unquoted, next_unquoted_loop}
use rypipe.Masks.Scan.{above}
use rypipe.Masks.Cache.{hit, IsDelim, IsCache}
use rypipe.Masks.Steps.{
  ensure_all-IsCache, ensure_all-frame, ensure_all-Shows, advance_block-IsCache, advance_block-last,
  advance_block-more, advance_block-frame, advance_block-stays,
}
use rypipe.Masks.Any.{hits, AreDelims}
use rypipe.Masks.Quoted.{unquoted}
use rypipe.Masks.Shown.{IsActive, IsShown}
use rypipe.Masks.Block.{AreQuotes, scan_block_unquoted-unquoted}
use rypipe.Masks.Window.{
  then_scan, unquoted_past, unquoted_below, unquoted_window, unquoted-IsActive,
}
use rypipe.Masks.Cursor.{FindsFrom, set_quote-IsCache, round_found, round_more, round_last}

module _ (buf delims quotes : Str) (d : ℕ) (fits : length buf ≤ 2 ^ 63) (few : length delims ≤ 8)
    (known : IsDelim delims d) (known_quotes : AreDelims delims quotes)
    (are_quotes : AreQuotes quotes)
    (apart : (i : ℕ) → hit buf d i ≡ true → hits buf quotes i ≡ false) where
  abbrev Finds : ℕ → ℕ → Option (Option ℕ × BlockMasks) → Type 0
  Finds q cur result = FindsFrom buf delims quotes d q cur result

  shown : (b : BlockMasks) → IsCache buf delims quotes b → IsShown buf delims quotes (ensure_all b)
  shown b c =
      let same : (ensure_all b).base ≡ b.base = (ensure_all-frame buf delims quotes b c).0 in
      record {
        cache = ensure_all-IsCache buf delims quotes b c few;
        each = λ d k. rw same (ensure_all-Shows buf delims quotes b c d few k);
        known = known_quotes;
        few = few;
      }

  -- The scan from `cur`, from what the block at hand gives.
  from_block :
      (base q cur q' : ℕ) (x : Option ℕ)
      → base ≤ cur
      → cur ≤ base + 64
      → unquoted buf quotes d q (base + (cur - base)) (64 - (cur - base)) ≡ (above base x, q')
      → unquoted buf quotes d q cur (length buf - cur)
        ≡ then_scan
            (λ r. unquoted buf quotes d r (base + 64) (length buf - (base + 64)))
            (above base x, q')
  from_block base q cur q' x low high agrees =
      let here : base + (cur - base) ≡ cur = omega arith in
      let there : cur + (64 - (cur - base)) ≡ base + 64 = omega arith in
      let agrees' : unquoted buf quotes d q cur (64 - (cur - base)) ≡ (above base x, q') =
        rw here at agrees in
      rw (agrees', there) at (unquoted_window buf quotes d q cur (64 - (cur - base)))

  -- A block in which a `d` is found.
  found_there :
      (b : BlockMasks) (cur p q' : ℕ)
      → IsCache buf delims quotes b
      → IsActive delims b.in_quote
      → b.loaded ≡ true
      → b.base ≤ cur
      → cur ≤ b.base + 64
      → b.base < length buf
      → unquoted buf quotes d b.in_quote (b.base + (cur - b.base)) (64 - (cur - b.base))
        ≡ (some (b.base + p), q')
      → Finds b.in_quote cur
          (some (some (b.base + p), record b { in_quote = q'; quote_pos = b.base + p + 1 }))
  found_there b cur p q' c active loaded low high inside agrees =
      let total : unquoted buf quotes d b.in_quote cur (length buf - cur)
          ≡ (some (b.base + p), q') =
        from_block b.base b.in_quote cur q' (some p) low high agrees in
      let below : b.base + p < b.base + (cur - b.base) + (64 - (cur - b.base)) =
        unquoted_below buf quotes d b.in_quote (b.base + (cur - b.base)) (64 - (cur - b.base))
          (b.base + p) (ap (λ r. r.0) agrees) in
      let active' : IsActive delims q' = rw total at (
        unquoted-IsActive buf quotes d delims known_quotes b.in_quote cur (length buf - cur)
          active) in
      rw total (
        record b { in_quote = q'; quote_pos = b.base + p + 1 },
        refl,
        record {
          cache = set_quote-IsCache buf delims quotes b q' (b.base + p + 1) c;
          active = active';
          at_block = λ l. (omega arith, omega arith, inside);
        },
        (loaded, refl, λ k e. ground arith),
      )

  -- The last block, without a `d`.
  nothing_left :
      (b a : BlockMasks) (cur q' : ℕ)
      → IsActive delims b.in_quote
      → IsCache buf delims quotes a
      → a.loaded ≡ true
      → a.in_quote ≡ q'
      → a.base ≡ b.base
      → b.base ≤ cur
      → cur ≤ b.base + 64
      → b.base < length buf
      → length buf ≤ b.base + 64
      → unquoted buf quotes d b.in_quote (b.base + (cur - b.base)) (64 - (cur - b.base))
        ≡ (none, q')
      → Finds b.in_quote cur (some (none, record a { quote_pos = wadd a.base 64 }))
  nothing_left b a cur q' active c loaded quote same low high inside over agrees =
      let rest : unquoted buf quotes d q' (b.base + 64) (length buf - (b.base + 64)) ≡ (none, q') =
        unquoted_past buf quotes d q' (b.base + 64) (length buf - (b.base + 64)) over in
      let total : unquoted buf quotes d b.in_quote cur (length buf - cur) ≡ (none, q') =
        from_block b.base b.in_quote cur q' none low high agrees ∙ rest in
      let active' : IsActive delims q' = rw total at (
        unquoted-IsActive buf quotes d delims known_quotes b.in_quote cur (length buf - cur)
          active) in
      rw total (
        record a { quote_pos = wadd a.base 64 },
        refl,
        record {
          cache = set_quote-IsCache buf delims quotes a a.in_quote (wadd a.base 64) c;
          active = rw quote active';
          at_block = λ l. (omega arith, omega arith, omega arith);
        },
        (loaded, quote, λ k e. cc),
      )

  -- A block without a `d`, before others.
  found_later :
      (b : BlockMasks) (cur q' : ℕ) (result : Option (Option ℕ × BlockMasks))
      → b.base ≤ cur
      → cur ≤ b.base + 64
      → unquoted buf quotes d b.in_quote (b.base + (cur - b.base)) (64 - (cur - b.base))
        ≡ (none, q')
      → Finds q' (b.base + 64) result
      → Finds b.in_quote cur result
  found_later b cur q' result low high agrees later =
      let total : unquoted buf quotes d b.in_quote cur (length buf - cur)
          ≡ unquoted buf quotes d q' (b.base + 64) (length buf - (b.base + 64)) =
        from_block b.base b.in_quote cur q' none low high agrees in
      rw total later

  pub transfer :
      (q q' cur : ℕ) (r r' : Option (Option ℕ × BlockMasks))
      → q ≡ q'
      → r ≡ r'
      → Finds q cur r
      → Finds q' cur r'
  transfer q q' cur r r' e f found =
      subst (λ k. Finds k cur r') e (subst (λ k. Finds q cur k) f found)

  pub next_unquoted_loop-unquoted :
      (fuel : ℕ) (b : BlockMasks) (cur : ℕ)
      → IsCache buf delims quotes b
      → IsActive delims b.in_quote
      → b.loaded ≡ true
      → b.base ≤ cur
      → cur ≤ b.base + 64
      → b.base < length buf
      → length buf ≤ fuel + b.base
      → Finds b.in_quote cur (next_unquoted_loop fuel b cur (position delims d))
  next_unquoted_loop-unquoted zero b cur c active loaded low high inside enough =
      absurd (omega arith)
  next_unquoted_loop-unquoted (suc fuel) b cur c active loaded low high inside enough =
      let e : BlockMasks = ensure_all b in
      let s : IsShown buf delims quotes e = shown b c in
      let (base_same, quote_same, pos_same, loaded_same) = ensure_all-frame buf delims quotes b c in
      let active' : IsActive delims e.in_quote = rw quote_same active in
      let loaded' : e.loaded ≡ true = loaded_same ∙ loaded in
      let low' : e.base ≤ cur = rw base_same low in
      let high' : cur ≤ e.base + 64 = rw base_same high in
      let inside' : e.base < length buf = rw base_same inside in
      let offset : wsub cur e.base ≡ cur - e.base = omega arith in
      let (x, q', scanned, agrees) =
        scan_block_unquoted-unquoted buf delims quotes e s (cur - e.base) d known are_quotes apart
          active' (omega arith) in
      let go = transfer e.in_quote b.in_quote cur in
      elim (Option-cases x) [
        | inr (p, found) ↦
            let scanned' =
              ap (λ o. scan_block_unquoted e o (position delims d)) offset ∙ rw found at scanned in
            go _ _ quote_same (round_found fuel b cur (position delims d) q' p scanned') (
              found_there e cur p q' s.cache active' loaded' low' high' inside'
                (rw found at agrees))
        | inl missed ↦
            let scanned' =
              ap (λ o. scan_block_unquoted e o (position delims d)) offset ∙ rw missed at scanned in
            let agrees' = rw missed at agrees in
            let c' : BlockMasks = record e { in_quote = q' } in
            let ok : IsCache buf delims quotes c' =
              set_quote-IsCache buf delims quotes e q' e.quote_pos s.cache in
            let a : BlockMasks = (advance_block c').0 in
            let a_ok : IsCache buf delims quotes a =
              advance_block-IsCache buf delims quotes c' ok in
            let (quote', pos', loads) = advance_block-frame buf delims quotes c' ok in
            elim (Bool-cases (advance_block c').1) [
              | inl more ↦
                  let (at_next, reaches) =
                    advance_block-more buf delims quotes c' ok inside' fits more in
                  let active_q : IsActive delims q' = rw agrees' at (
                    unquoted-IsActive buf quotes d delims known_quotes e.in_quote
                      (e.base + (cur - e.base)) (64 - (cur - e.base)) active') in
                  let rest =
                    next_unquoted_loop-unquoted fuel (record a { quote_pos = a.base }) a.base
                      (set_quote-IsCache buf delims quotes a a.in_quote a.base a_ok)
                      (rw quote' active_q) (loads more) (omega arith) (omega arith) (omega arith)
                      (omega arith) in
                  go _ _ quote_same (round_more fuel b cur (position delims d) q' scanned' more) (
                    found_later e cur q' _ low' high' agrees' (
                      subst
                        (λ k. Finds q' k (
                          next_unquoted_loop fuel (record a { quote_pos = a.base }) a.base
                            (position delims d)))
                        at_next (transfer a.in_quote q' a.base _ _ quote' refl rest)))
              | inr last ↦
                  let (stays, still) = advance_block-stays buf delims quotes c' ok last in
                  go _ _ quote_same (round_last fuel b cur (position delims d) q' scanned' last) (
                    nothing_left e a cur q' active' a_ok (still ∙ loaded') quote' stays low' high'
                      inside' (advance_block-last buf delims quotes c' ok inside' fits last)
                      agrees')
            ]
      ]
