-- ===== src/Masks/Walk.antt =====
-- The whole walk over the quotes of a block.
use rypipe.Prelude.{
  ℕ, zero, suc, ◌+◌, ◌-◌, ◌≤◌, ◌<◌, ◌≡◌, refl, ap, ◌∙◌, true, false, none, some, Str, ◌==◌, arith,
  Bool-cases, inl, inr,
}
use rypipe.Masks.{Mask, BlockMasks, mask_and, from_mask, nonzero, trailing_zeros, position}
use rypipe.Masks.Quotes.{walk_events}
use rypipe.Masks.Scan.{scan}
use rypipe.Masks.Cache.{hit, IsDelim}
use rypipe.Masks.Quoted.{unquoted_inside, unquoted_closed}
use rypipe.Masks.Events.{outside_event, bit_at_or_after}
use rypipe.Masks.Shown.{IsActive, IsShown, Agrees, bits_found, bits_missed}

abbrev closing : BlockMasks → ℕ → ℕ → Mask
closing b q pos = mask_and (b.masks (position b.delims q)) (from_mask pos)

module _ (b : BlockMasks) (fuel q pos di : ℕ) (active : (q == 0) ≡ false) where
  walk_closed :
      nonzero (closing b q pos) ≡ true
      → walk_events (suc fuel) b q pos di
        ≡ walk_events fuel b 0 (suc (trailing_zeros (closing b q pos))) di
  unfolding walk_events
  walk_closed closes = rw (active, closes) refl

  walk_inside :
      nonzero (closing b q pos) ≡ false → walk_events (suc fuel) b q pos di ≡ some (none, q)
  unfolding walk_events
  walk_inside stays = rw (active, stays) refl

module _ (buf delims quotes : Str) (d : ℕ) (b : BlockMasks) (s : IsShown buf delims quotes b)
    (known : IsDelim delims d) where
  closing_shows :
      (q : ℕ)
      → IsDelim delims q
      → (j : ℕ) → j < 64
      → b.masks (position b.delims q) j ≡ hit buf q (b.base + j)
  closing_shows q known_q j l =
      ap (λ ds. b.masks (position ds q) j) s.cache.delimiters ∙ s.each q known_q j l

  -- One event from inside of a quote, given the walk from behind its end.
  inside_event :
      (fuel q pos : ℕ)
      → (inside : (q == 0) ≡ false) → IsDelim delims q
      → pos ≤ 64
      → (pos ≤ trailing_zeros (closing b q pos)
          → trailing_zeros (closing b q pos) < 64
          → Agrees buf quotes d b.base 0
              (suc (trailing_zeros (closing b q pos)))
              (walk_events fuel b 0 (suc (trailing_zeros (closing b q pos))) (position delims d)))
      → Agrees buf quotes d b.base q pos (walk_events (suc fuel) b q pos (position delims d))
  inside_event fuel q pos inside known_q small ih =
      let k : ℕ = trailing_zeros (closing b q pos) in
      let m : Mask = b.masks (position b.delims q) in
      elim (Bool-cases (nonzero (closing b q pos))) [
        | inr stays ↦ (
          none,
          q,
          walk_inside b fuel q pos (position delims d) inside stays,
          unquoted_inside buf quotes d q (b.base + pos) (64 - pos) inside
              (bits_missed (hit buf q) m b.base pos (closing_shows q known_q) small stays),
        )
        | inl closes ↦
            let (after, below) = bit_at_or_after buf delims quotes d b s known m pos closes in
            let next : b.base + suc k ≡ suc (b.base + k) = omega arith in
            let left : 64 - suc k ≡ b.base + pos + (64 - pos) - suc (b.base + k) = omega arith in
            let (x, q', walked, agrees) = ih after below in
            let there : scan (hit buf q) (b.base + pos) (64 - pos) ≡ some (b.base + k) =
              bits_found (hit buf q) m b.base pos (closing_shows q known_q) small closes in
            (
              x,
              q',
              walk_closed b fuel q pos (position delims d) inside closes ∙ walked,
              unquoted_closed buf quotes d q (b.base + pos) (64 - pos) (b.base + k) inside there
                  ∙ rw (next, left) at agrees,
            )
      ]

  -- With 65 rounds for a whole block the walk ends.
  pub walk_events-unquoted :
      (fuel q pos : ℕ)
      → IsActive delims q
      → pos ≤ 64
      → 64 < fuel + pos
      → Agrees buf quotes d b.base q pos (walk_events fuel b q pos (position delims d))
  walk_events-unquoted zero q pos active small enough = absurd (omega arith)
  walk_events-unquoted (suc fuel) q pos active small enough = elim (Bool-cases (q == 0)) [
    | inl outside ↦
        let z : q ≡ 0 = ground arith in
        rw z (
          outside_event buf delims quotes d b s known fuel pos small
            (λ q' k a l. walk_events-unquoted fuel q' _ k (omega arith) (omega arith)))
    | inr inside ↦
        inside_event fuel q pos inside (active inside) small
          (λ a l. walk_events-unquoted fuel 0 _ (λ h. cc) (omega arith) (omega arith))
  ]
