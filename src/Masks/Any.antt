-- ===== src/Masks/Any.antt =====
-- `next_any` finds the first of several bytes, and says which it is.
use rypipe.Prelude.{
  ℕ, zero, suc, ◌+◌, ◌-◌, ◌^◌, ◌≤◌, ◌<◌, ◌≡◌, refl, sym, ap, ◌∙◌, Bool, true, false, ◌&&◌, ◌||◌,
  Option, none, some, [], ◌∷◌, Str, get_or, length, leb, arith, Bool-cases, inl, inr,
}
use rypipe.Masks.{
  Mask, BlockMasks, first_set, any_set, from_mask, mask_and, nonzero, trailing_zeros, position,
  ensure_all, seek, advance_block, combined, delim_at, next_any_loop, next_any,
}
use rypipe.Masks.Scan.{scan, EndsAt, scan_nothing}
use rypipe.Masks.Cache.{hit, hit_past, IsDelim, Shows, IsCache}
use rypipe.Masks.Steps.{
  seek-IsCache, seek-Holds, ensure_all-IsCache, ensure_all-frame, ensure_all-Shows,
  advance_block-IsCache, advance_block-last, advance_block-more,
}
use rypipe.Masks.Next.{block_found, block_missed}

-- Whether the byte at `i` is there and is one of `ds`.
unfoldable pub hits : Str → Str → ℕ → Bool
hits buf [] i = false
hits buf (d ∷ ds) i = hit buf d i || hits buf ds i

abbrev pub AreDelims : Str → Str → Type 0
AreDelims delims [] = Unit {0}
AreDelims delims (d ∷ ds) = IsDelim delims d × AreDelims delims ds

pub hits-EndsAt : (buf ds : Str) → EndsAt (hits buf ds) (length buf)
unfolding hits
hits-EndsAt buf [] i h = refl
hits-EndsAt buf (d ∷ ds) i h = rw (hit_past buf d i h) (hits-EndsAt buf ds i h)

pub hit_byte : (buf : Str) (d i : ℕ) → hit buf d i ≡ true → get_or buf i 0 ≡ d
unfolding hit
hit_byte [] d i h = cc
hit_byte (c ∷ s) d zero h = ground arith
hit_byte (c ∷ s) d (suc i) h = hit_byte s d i h

-- A position with the byte there.
abbrev pub with_byte : Str → Option ℕ → Option (ℕ × ℕ)
with_byte buf none = none
with_byte buf (some i) = some (i, get_or buf i 0)

pub first_set-any_set :
    (m : Mask) (i n : ℕ)
    → any_set m i n ≡ true
    → (m (first_set m i n) ≡ true) × (first_set m i n < i + n)
unfolding first_set any_set
first_set-any_set m i zero h = cc
first_set-any_set m i (suc n) h = elim (Bool-cases (m i)) [
  | inl here ↦ rw here (here, omega arith)
  | inr later ↦
      let (set_there, small) = first_set-any_set m (suc i) n (rw later at h) in
      rw later (set_there, omega arith)
]

pub both : (a c : Bool) → (a && c) ≡ true → (a ≡ true) × (c ≡ true)
both a c h = ground arith

module _ (buf delims quotes : Str) where
  pub combined-Shows :
      (b : BlockMasks) (ds : Str)
      → b.delims ≡ delims
      → AreDelims delims ds
      → ((d : ℕ)
          → IsDelim delims d
          → Shows buf delims quotes (b.masks (position delims d)) b.base d)
      → (j : ℕ) → j < 64
      → combined b ds j ≡ hits buf ds (b.base + j)
  unfolding combined hits
  combined-Shows b [] same known shows j l = refl
  combined-Shows b (d ∷ ds) same known shows j l =
      rw (same, shows d known.0 j l, combined-Shows b ds same known.1 shows j l) refl

  delim_at_lem :
      (b : BlockMasks) (ds : Str) (fallback : ℕ)
      → b.delims ≡ delims
      → AreDelims delims ds
      → ((d : ℕ)
          → IsDelim delims d
          → Shows buf delims quotes (b.masks (position delims d)) b.base d)
      → (j : ℕ) → j < 64
      → hits buf ds (b.base + j) ≡ true
      → delim_at b j ds fallback ≡ get_or buf (b.base + j) 0
  unfolding delim_at hits
  delim_at_lem b [] fallback same known shows j l found = cc
  delim_at_lem b (d ∷ ds) fallback same known shows j l found =
      elim (Bool-cases (hit buf d (b.base + j))) [
        | inl here ↦ rw (same, shows d known.0 j l, here) (sym (hit_byte buf d (b.base + j) here))
        | inr there ↦
            rw (same, shows d known.0 j l, there)
              (delim_at_lem b ds fallback same known.1 shows j l (rw there at found))
      ]

module _ (buf delims quotes : Str) (fits : length buf ≤ 2 ^ 63) (few : length delims ≤ 8) where
  next_any_loop-scan :
      (fuel : ℕ) (b : BlockMasks) (cur : ℕ) (ds : Str)
      → AreDelims delims ds
      → IsCache buf delims quotes b
      → cur < length buf
      → length buf ≤ fuel + cur
      → (b' : BlockMasks) × (next_any_loop fuel b cur ds
          ≡ some (with_byte buf (scan (hits buf ds) cur (length buf - cur)), b'))
        × IsCache buf delims quotes b'
  unfolding next_any_loop
  next_any_loop-scan zero b cur ds known c inside enough = absurd (omega arith)
  next_any_loop-scan (suc fuel) b cur ds known c inside enough =
      let s : BlockMasks = seek b cur in
      let s_ok : IsCache buf delims quotes s = seek-IsCache buf delims quotes b c cur in
      let (low, high) = seek-Holds buf delims quotes b c cur in
      let b' : BlockMasks = ensure_all s in
      let ok : IsCache buf delims quotes b' = ensure_all-IsCache buf delims quotes s s_ok few in
      let same : b'.base ≡ s.base = (ensure_all-frame buf delims quotes s s_ok).0 in
      let low' : b'.base ≤ cur = rw same low in
      let high' : cur < b'.base + 64 = rw same high in
      let each : (d : ℕ)
          → IsDelim delims d
          → Shows buf delims quotes (b'.masks (position delims d)) b'.base d =
        λ d k. rw same (ensure_all-Shows buf delims quotes s s_ok d few k) in
      let shows : (j : ℕ) → j < 64 → combined b' ds j ≡ hits buf ds (b'.base + j) =
        combined-Shows buf delims quotes b' ds ok.delimiters known each in
      let m : Mask = mask_and (combined b' ds) (from_mask (cur - b'.base)) in
      let a : BlockMasks = (advance_block b').0 in
      elim (Bool-cases (nonzero m)) [
        | inl found ↦
            let (set_there, small) = first_set-any_set m 0 64 found in
            let bit : combined b' ds (trailing_zeros m) ≡ true = (both _ _ set_there).0 in
            let small' : trailing_zeros m < 64 = omega arith in
            let there : hits buf ds (b'.base + trailing_zeros m) ≡ true =
              sym (shows (trailing_zeros m) small') ∙ bit in
            (
              b',
              rw
                  (
                    found,
                    block_found (hits buf ds) (length buf) b'.base cur (combined b' ds)
                        (hits-EndsAt buf ds) shows low' high' found,
                    delim_at_lem buf delims quotes b' ds (get_or ds 0 0) ok.delimiters known each
                        (trailing_zeros m) small' there,
                  )
                  refl,
              ok,
            )
        | inr missed ↦ elim (Bool-cases (advance_block b').1) [
          | inl more ↦
              let (at_next, reaches) =
                advance_block-more buf delims quotes b' ok (omega arith) fits more in
              let (b2, result, ok2) =
                next_any_loop-scan fuel a a.base ds known
                  (advance_block-IsCache buf delims quotes b' ok) (omega arith) (omega arith) in
              (
                b2,
                rw
                    (
                      missed,
                      more,
                      result,
                      block_missed (hits buf ds) (length buf) b'.base cur (combined b' ds)
                          (hits-EndsAt buf ds) shows low' high' missed,
                      at_next,
                    )
                    refl,
                ok2,
              )
          | inr last ↦
              let over : length buf ≤ b'.base + 64 =
                advance_block-last buf delims quotes b' ok (omega arith) fits last in
              let nothing : scan (hits buf ds) (b'.base + 64) (length buf - (b'.base + 64)) ≡ none =
                scan_nothing (hits buf ds) (b'.base + 64) (length buf - (b'.base + 64))
                  (λ j x y. hits-EndsAt buf ds j (omega arith)) in
              (
                a,
                rw
                    (
                      missed,
                      last,
                      block_missed (hits buf ds) (length buf) b'.base cur (combined b' ds)
                          (hits-EndsAt buf ds) shows low' high' missed,
                      nothing,
                    )
                    refl,
                advance_block-IsCache buf delims quotes b' ok,
              )
        ]
      ]

  -- For a buffer below 2^63 bytes, at most 8 delimiters with the bytes wanted among them, and a
  -- cache that holds the masks of its block, `next_any` ends within a round for each byte, gives
  -- the first position at or after `from` with one of the bytes, and which it is, or nothing if
  -- there is none; and the cache still holds the masks of its block.
  pub next_any-scan :
      (b : BlockMasks) (from : ℕ) (ds : Str)
      → AreDelims delims ds
      → IsCache buf delims quotes b
      → (b' : BlockMasks) × (next_any b from ds
          ≡ some (with_byte buf (scan (hits buf ds) from (length buf - from)), b'))
        × IsCache buf delims quotes b'
  unfolding next_any scan
  next_any-scan b from ds known c = elim (Bool-cases (leb (length b.buf) from)) [
    | inl past ↦
        let e : length b.buf ≡ length buf = ap length c.buffer in
        let nothing_left : length buf - from ≡ 0 = ground arith in
        (b, rw (past, nothing_left) refl, c)
    | inr within ↦
        let e : length b.buf ≡ length buf = ap length c.buffer in
        let (b', found, ok) =
          next_any_loop-scan (length b.buf) b from ds known c (ground arith) (omega arith) in
        (b', rw (within, found) refl, ok)
  ]
