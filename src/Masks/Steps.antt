-- ===== src/Masks/Steps.antt =====
-- The steps of the searches keep the cache, and give the masks of the block at hand.
use rypipe.Prelude.{
  ℕ, ◌+◌, ◌*◌, ◌/◌, ◌^◌, ◌≤◌, ◌<◌, ◌≡◌, refl, ap, ◌%◌, true, false, ◌||◌, not, Str, get_or, length,
  leb, ltb, ◌==◌, arith, Bool-cases, inl, inr,
}
use rypipe.Masks.{
  BlockMasks, low_bits, position, same_bits, load_at, select_block, advance_block, mask_for, fill,
  ensure_all, seek, with_quotes,
}
use rypipe.Masks.Cache.{IsDelim, get_or-position, compute_one-hit, same_bits_at, Shows, IsCache}

pub with_quotes-IsCache :
    (buf delims quotes : Str) → IsCache buf delims quotes (with_quotes buf delims quotes)
unfolding with_quotes
with_quotes-IsCache buf delims quotes = record {
  buffer = refl;
  delimiters = refl;
  quoting = refl;
  fresh = λ i h j l. cc;
}

module _ (buf delims quotes : Str) (b : BlockMasks) (c : IsCache buf delims quotes b) where
  pub load_at-IsCache : (base : ℕ) → IsCache buf delims quotes (load_at b base)
  unfolding load_at
  load_at-IsCache base = record {
    buffer = c.buffer;
    delimiters = c.delimiters;
    quoting = c.quoting;
    fresh = λ i h j l. cc;
  }

  -- The block is the one that holds the position.
  abbrev pub Holds : BlockMasks → ℕ → Type 0
  Holds b' cur = (b'.base ≤ cur) × (cur < b'.base + 64)

  pub seek-IsCache : (cur : ℕ) → IsCache buf delims quotes (seek b cur)
  unfolding seek select_block
  seek-IsCache cur = elim (Bool-cases (ltb cur b.base || leb (b.base + 64) cur)) [
    | inr inside ↦ rw inside c
    | inl outside ↦ elim (Bool-cases (not (cur / 64 * 64 == b.base) || not b.loaded)) [
      | inl other ↦ rw (outside, other) (load_at-IsCache (cur / 64 * 64))
      | inr same ↦ rw (outside, same) c
    ]
  ]

  pub seek-Holds : (cur : ℕ) → Holds (seek b cur) cur
  unfolding seek select_block load_at
  seek-Holds cur = ground arith

  pub mask_for-IsCache : (d : ℕ) → IsDelim delims d → IsCache buf delims quotes (mask_for b d).1
  unfolding mask_for
  mask_for-IsCache d known = elim (Bool-cases (b.computed (position b.delims d))) [
    | inl cached ↦ rw cached c
    | inr new ↦
        let here : get_or delims (position delims d) 0 ≡ d = get_or-position delims d known in
        rw new record {
          buffer = c.buffer;
          delimiters = c.delimiters;
          quoting = c.quoting;
          fresh = λ i h j l. elim (Bool-cases (i == position b.delims d)) [
            | inl same ↦
                let at_b : i ≡ position b.delims d = ground arith in
                let at_i : i ≡ position delims d = rw c.delimiters at at_b in
                rw (same, at_i, here, ← c.buffer) (compute_one-hit b d j l)
            | inr other ↦ rw other (c.fresh i (rw other at h) j l)
          ];
        }
  ]

  pub mask_for-base : (d : ℕ) → (mask_for b d).1.base ≡ b.base
  unfolding mask_for
  mask_for-base d = ground arith

  pub mask_for-Shows :
      (d : ℕ) → IsDelim delims d → Shows buf delims quotes (mask_for b d).0 b.base d
  unfolding mask_for
  mask_for-Shows d known j l = elim (Bool-cases (b.computed (position b.delims d))) [
    | inl cached ↦
        let here : get_or delims (position delims d) 0 ≡ d = get_or-position delims d known in
        let cached' : b.computed (position delims d) ≡ true = rw c.delimiters at cached in
        rw (cached, c.delimiters) (rw here at (c.fresh (position delims d) cached' j l))
    | inr new ↦ rw (new, ← c.buffer) (compute_one-hit b d j l)
  ]

  pub ensure_all-IsCache : length delims ≤ 8 → IsCache buf delims quotes (ensure_all b)
  unfolding ensure_all fill
  ensure_all-IsCache few = elim (Bool-cases (same_bits b.computed (low_bits (length b.delims)) 8)) [
    | inl cached ↦ rw cached c
    | inr new ↦ rw new record {
      buffer = c.buffer;
      delimiters = c.delimiters;
      quoting = c.quoting;
      fresh =
          λ i h j l. rw (h, c.delimiters, ← c.buffer) (compute_one-hit b (get_or delims i 0) j l);
    }
  ]

  pub ensure_all-frame :
      ((ensure_all b).base ≡ b.base)
      × ((ensure_all b).in_quote ≡ b.in_quote)
      × ((ensure_all b).quote_pos ≡ b.quote_pos)
      × ((ensure_all b).loaded ≡ b.loaded)
  unfolding ensure_all
  ensure_all-frame = elim (Bool-cases (same_bits b.computed (low_bits (length b.delims)) 8)) [
    | inl cached ↦ rw cached (refl, refl, refl, refl)
    | inr new ↦ rw new (refl, refl, refl, refl)
  ]

  pub ensure_all-Shows :
      (d : ℕ)
      → length delims ≤ 8
      → IsDelim delims d
      → Shows buf delims quotes ((ensure_all b).masks (position delims d)) b.base d
  unfolding ensure_all fill
  ensure_all-Shows d few known j l =
      let here : get_or delims (position delims d) 0 ≡ d = get_or-position delims d known in
      elim (Bool-cases (same_bits b.computed (low_bits (length b.delims)) 8)) [
        | inl cached ↦
            let full : b.computed (position delims d) ≡ ltb (position delims d) (length b.delims) =
              same_bits_at b.computed (low_bits (length b.delims)) 8 (position delims d) cached
                (omega arith) in
            let known' : b.computed (position delims d) ≡ true =
              rw (full, c.delimiters) (ground arith) in
            rw cached (rw here at (c.fresh (position delims d) known' j l))
        | inr new ↦
            let inside : ltb (position delims d) (length b.delims) ≡ true =
              rw c.delimiters (ground arith) in
            rw (new, inside, c.delimiters, here, ← c.buffer) (compute_one-hit b d j l)
      ]

  pub advance_block-IsCache : IsCache buf delims quotes (advance_block b).0
  unfolding advance_block
  advance_block-IsCache = elim (Bool-cases (leb (length b.buf) ((b.base + 64) % 2 ^ 64))) [
    | inl last ↦ rw last c
    | inr more ↦ rw more (load_at-IsCache ((b.base + 64) % 2 ^ 64))
  ]

  -- The next block, if the buffer reaches it.
  pub advance_block-last :
      b.base < length buf
      → length buf ≤ 2 ^ 63
      → (advance_block b).1 ≡ false
      → length buf ≤ b.base + 64
  unfolding advance_block load_at
  advance_block-last inside fits last =
      let e : length b.buf ≡ length buf = ap length c.buffer in ground arith

  pub advance_block-more :
      b.base < length buf
      → length buf ≤ 2 ^ 63
      → (advance_block b).1 ≡ true
      → ((advance_block b).0.base ≡ b.base + 64) × (b.base + 64 < length buf)
  unfolding advance_block load_at
  advance_block-more inside fits more =
      let e : length b.buf ≡ length buf = ap length c.buffer in ground arith

  pub advance_block-frame :
      ((advance_block b).0.in_quote ≡ b.in_quote)
      × ((advance_block b).0.quote_pos ≡ b.quote_pos)
      × (((advance_block b).1 ≡ true) → (advance_block b).0.loaded ≡ true)
  unfolding advance_block load_at
  advance_block-frame = ground arith

  pub advance_block-stays :
      (advance_block b).1 ≡ false
      → ((advance_block b).0.base ≡ b.base) × ((advance_block b).0.loaded ≡ b.loaded)
  unfolding advance_block load_at
  advance_block-stays last = ground arith
