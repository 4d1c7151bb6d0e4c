-- ===== src/Masks/Next.antt =====
-- `next`, `next_any` and `next_far` find the first byte that they look for.
use rypipe.Prelude.{
  ℕ, zero, suc, ◌+◌, ◌-◌, ◌^◌, ◌≤◌, ◌<◌, ◌≡◌, refl, ap, Bool, true, false, none, some, Str, length,
  leb, if◌then◌else◌, arith, Bool-cases, inl, inr,
}
use rypipe.Masks.{
  Mask, BlockMasks, from_mask, mask_and, nonzero, trailing_zeros, mask_for, seek, advance_block,
  next_loop, next,
}
use rypipe.Masks.Scan.{scan, or_else, EndsAt, block_scan, scan_window, scan_nothing}
use rypipe.Masks.Cache.{hit, hit_past, IsDelim, Shows, IsCache}
use rypipe.Masks.Steps.{
  seek-IsCache, seek-Holds, mask_for-IsCache, mask_for-base, mask_for-Shows, advance_block-IsCache,
  advance_block-last, advance_block-more,
}

-- Where the search goes on behind a block, after it found nothing there.
module _ (p : ℕ → Bool) (len base cur : ℕ) (m : Mask) (ends : EndsAt p len)
    (shows : (j : ℕ) → j < 64 → m j ≡ p (base + j)) (low : base ≤ cur)
    (high : cur < base + 64) where
  in_block :
      (if nonzero (mask_and m (from_mask (cur - base)))
        then some (base + trailing_zeros (mask_and m (from_mask (cur - base))))
        else none)
      ≡ scan p cur (64 - (cur - base))
  in_block =
      let here : base + (cur - base) ≡ cur = omega arith in
      rw here at (block_scan p m base (cur - base) shows (omega arith))

  rest :
      scan p cur (len - cur)
      ≡ or_else (scan p cur (64 - (cur - base))) (scan p (base + 64) (len - (base + 64)))
  rest =
      let there : cur + (64 - (cur - base)) ≡ base + 64 = omega arith in
      rw there at (scan_window p len cur (64 - (cur - base)) ends)

  pub block_found :
      nonzero (mask_and m (from_mask (cur - base))) ≡ true
      → scan p cur (len - cur) ≡ some (base + trailing_zeros (mask_and m (from_mask (cur - base))))
  block_found found =
      let here : some (base + trailing_zeros (mask_and m (from_mask (cur - base))))
          ≡ scan p cur (64 - (cur - base)) =
        rw found at in_block in
      rw (← here) at rest

  pub block_missed :
      nonzero (mask_and m (from_mask (cur - base))) ≡ false
      → scan p cur (len - cur) ≡ scan p (base + 64) (len - (base + 64))
  block_missed missed =
      let here : none ≡ scan p cur (64 - (cur - base)) = rw missed at in_block in
      rw (← here) at rest

module _ (buf delims quotes : Str) (fits : length buf ≤ 2 ^ 63) where
  hit-EndsAt : (d : ℕ) → EndsAt (hit buf d) (length buf)
  hit-EndsAt d i h = hit_past buf d i h

  next_loop-scan :
      (fuel : ℕ) (b : BlockMasks) (cur d : ℕ)
      → IsDelim delims d
      → IsCache buf delims quotes b
      → cur < length buf
      → length buf ≤ fuel + cur
      → (b' : BlockMasks) × (next_loop fuel b cur d
          ≡ some (scan (hit buf d) cur (length buf - cur), b'))
        × IsCache buf delims quotes b'
  unfolding next_loop
  next_loop-scan zero b cur d known c inside enough = absurd (omega arith)
  next_loop-scan (suc fuel) b cur d known c inside enough =
      let s : BlockMasks = seek b cur in
      let s_ok : IsCache buf delims quotes s = seek-IsCache buf delims quotes b c cur in
      let (low, high) = seek-Holds buf delims quotes b c cur in
      let b' : BlockMasks = (mask_for s d).1 in
      let ok : IsCache buf delims quotes b' = mask_for-IsCache buf delims quotes s s_ok d known in
      let same : b'.base ≡ s.base = mask_for-base buf delims quotes s s_ok d in
      let low' : b'.base ≤ cur = rw same low in
      let high' : cur < b'.base + 64 = rw same high in
      let shows : Shows buf delims quotes (mask_for s d).0 b'.base d =
        rw same (mask_for-Shows buf delims quotes s s_ok d known) in
      let m : Mask = mask_and (mask_for s d).0 (from_mask (cur - b'.base)) in
      let a : BlockMasks = (advance_block b').0 in
      elim (Bool-cases (nonzero m)) [
        | inl found ↦ (
          b',
          rw
              (
                found,
                block_found (hit buf d) (length buf) b'.base cur (mask_for s d).0 (hit-EndsAt d)
                    shows low' high' found,
              )
              refl,
          ok,
        )
        | inr missed ↦ elim (Bool-cases (advance_block b').1) [
          | inl more ↦
              let (at_next, reaches) =
                advance_block-more buf delims quotes b' ok (omega arith) fits more in
              let (b2, result, ok2) =
                next_loop-scan fuel a a.base d known (advance_block-IsCache buf delims quotes b' ok)
                  (omega arith) (omega arith) in
              (
                b2,
                rw
                    (
                      missed,
                      more,
                      result,
                      block_missed (hit buf d) (length buf) b'.base cur (mask_for s d).0
                          (hit-EndsAt d) shows low' high' missed,
                      at_next,
                    )
                    refl,
                ok2,
              )
          | inr last ↦
              let over : length buf ≤ b'.base + 64 =
                advance_block-last buf delims quotes b' ok (omega arith) fits last in
              let nothing : scan (hit buf d) (b'.base + 64) (length buf - (b'.base + 64)) ≡ none =
                scan_nothing (hit buf d) (b'.base + 64) (length buf - (b'.base + 64))
                  (λ j x y. hit_past buf d j (omega arith)) in
              (
                a,
                rw
                    (
                      missed,
                      last,
                      block_missed (hit buf d) (length buf) b'.base cur (mask_for s d).0
                          (hit-EndsAt d) shows low' high' missed,
                      nothing,
                    )
                    refl,
                advance_block-IsCache buf delims quotes b' ok,
              )
        ]
      ]

  -- The first place of the byte.
  pub next-scan :
      (b : BlockMasks) (from d : ℕ)
      → IsDelim delims d
      → IsCache buf delims quotes b
      → (b' : BlockMasks) × (next b from d ≡ some (scan (hit buf d) from (length buf - from), b'))
        × IsCache buf delims quotes b'
  unfolding next scan
  next-scan b from d known c = elim (Bool-cases (leb (length b.buf) from)) [
    | inl past ↦
        let e : length b.buf ≡ length buf = ap length c.buffer in
        let nothing_left : length buf - from ≡ 0 = ground arith in
        (b, rw (past, nothing_left) refl, c)
    | inr within ↦
        let e : length b.buf ≡ length buf = ap length c.buffer in
        let (b', found, ok) =
          next_loop-scan (length b.buf) b from d known c (ground arith) (omega arith) in
        (b', rw (within, found) refl, ok)
  ]
