-- ===== src/Masks/Events.antt =====
-- The walk over the quotes of a block finds what the scan byte by byte finds.
use rypipe.Prelude.{
  ℕ, suc, ◌+◌, ◌-◌, ◌≤◌, ◌<◌, ◌≡◌, sym, ap, ◌∙◌, true, false, ◌&&◌, none, some, Str, get_or, ltb,
  arith, Bool-cases, ltb→lt, inl, inr,
}
use rypipe.Masks.{
  Mask, BlockMasks, mask_and, from_mask, nonzero, trailing_zeros, position, combined,
}
use rypipe.Masks.Quotes.{quote_index_at, walk_events}
use rypipe.Masks.Scan.{scan}
use rypipe.Masks.Cache.{hit, IsDelim}
use rypipe.Masks.Any.{both, hits, combined-Shows, first_set-any_set}
use rypipe.Masks.Quoted.{unquoted_nothing, unquoted_found, unquoted_opened}
use rypipe.Masks.Shown.{
  IsActive, IsShown, Agrees, bits_found, bits_missed, quote_index_at_lem, walk_alone, walk_nothing,
  walk_first, walk_opened, ltb→le,
}

module _ (buf delims quotes : Str) (d : ℕ) (b : BlockMasks) (s : IsShown buf delims quotes b)
    (known : IsDelim delims d) where
  -- The bits that the walk reads at `pos`.
  abbrev at_d : ℕ → Mask
  at_d pos = mask_and (b.masks (position delims d)) (from_mask pos)

  abbrev at_quote : ℕ → Mask
  at_quote pos = mask_and (combined b b.quotes) (from_mask pos)

  quote_shows : (j : ℕ) → j < 64 → combined b b.quotes j ≡ hits buf quotes (b.base + j)
  quote_shows j l =
      ap (λ qs. combined b qs j) s.cache.quoting
      ∙ combined-Shows buf delims quotes b quotes s.cache.delimiters s.known s.each j l

  opened_by :
      (j : ℕ)
      → j < 64
      → hits buf quotes (b.base + j) ≡ true
      → (get_or b.delims (quote_index_at b j b.quotes) 0 ≡ get_or buf (b.base + j) 0)
        × IsDelim delims (get_or buf (b.base + j) 0)
  opened_by j l h =
      let (entry, active) = quote_index_at_lem buf delims quotes b s quotes s.known j l h in
      (ap (λ qs. get_or b.delims (quote_index_at b j qs) 0) s.cache.quoting ∙ entry, active)

  quote_bit :
      (pos : ℕ)
      → nonzero (at_quote pos) ≡ true
      → (hits buf quotes (b.base + trailing_zeros (at_quote pos)) ≡ true)
        × (trailing_zeros (at_quote pos) < 64)
  quote_bit pos found =
      let (set_there, small) = first_set-any_set (at_quote pos) 0 64 found in
      let small' : trailing_zeros (at_quote pos) < 64 = omega arith in
      let bit : combined b b.quotes (trailing_zeros (at_quote pos)) ≡ true = ground arith in
      (sym (quote_shows (trailing_zeros (at_quote pos)) small') ∙ bit, small')

  -- The bits found by a mask from `pos` on are at or after it.
  pub bit_at_or_after :
      (m : Mask) (pos : ℕ)
      → nonzero (mask_and m (from_mask pos)) ≡ true
      → (pos ≤ trailing_zeros (mask_and m (from_mask pos)))
        × (trailing_zeros (mask_and m (from_mask pos)) < 64)
  bit_at_or_after m pos found =
      let (set_there, small) = first_set-any_set (mask_and m (from_mask pos)) 0 64 found in
      let small' : trailing_zeros (mask_and m (from_mask pos)) < 64 = omega arith in
      (ground arith, small')

  d_before_quote :
      (pos i k : ℕ)
      → ltb i (trailing_zeros (at_quote pos)) ≡ true
      → scan (hits buf quotes) (b.base + pos) (64 - pos)
        ≡ some (b.base + trailing_zeros (at_quote pos))
      → scan (hits buf quotes) (b.base + pos) (64 - pos) ≡ some k
      → b.base + i < k
  d_before_quote pos i k less there e =
      let same : some (b.base + trailing_zeros (at_quote pos)) ≡ some k = sym there ∙ e in
      let k_is : b.base + trailing_zeros (at_quote pos) ≡ k = cc in
      let less' = ltb→lt i (trailing_zeros (at_quote pos)) less in omega arith

  quote_before_d :
      (pos g : ℕ)
      → pos ≤ 64
      → (nonzero (at_d pos) && ltb (trailing_zeros (at_d pos)) (trailing_zeros (at_quote pos)))
        ≡ false
      → scan (hit buf d) (b.base + pos) (64 - pos) ≡ some g
      → b.base + trailing_zeros (at_quote pos) ≤ g
  quote_before_d pos g small q_first e = elim (Bool-cases (nonzero (at_d pos))) [
    | inr no_d ↦
        let bad : none ≡ some g =
          sym (bits_missed (hit buf d) _ b.base pos (s.each d known) small no_d) ∙ e in
        cc
    | inl is_d ↦
        let same : some (b.base + trailing_zeros (at_d pos)) ≡ some g =
          sym (bits_found (hit buf d) _ b.base pos (s.each d known) small is_d) ∙ e in
        let g_is : b.base + trailing_zeros (at_d pos) ≡ g = cc in
        let not_less : ltb (trailing_zeros (at_d pos)) (trailing_zeros (at_quote pos)) ≡ false =
          rw is_d at q_first in
        let le = ltb→le (trailing_zeros (at_d pos)) (trailing_zeros (at_quote pos)) not_less in
        omega arith
  ]

  -- One event from outside of quotes, given the walk from the quote it opens.
  pub outside_event :
      (fuel pos : ℕ)
      → pos ≤ 64
      → ((q : ℕ)
          → IsActive delims q
          → pos ≤ trailing_zeros (at_quote pos)
          → trailing_zeros (at_quote pos) < 64
          → Agrees buf quotes d b.base q
              (suc (trailing_zeros (at_quote pos)))
              (walk_events fuel b q (suc (trailing_zeros (at_quote pos))) (position delims d)))
      → Agrees buf quotes d b.base 0 pos (walk_events (suc fuel) b 0 pos (position delims d))
  outside_event fuel pos small ih = elim (Bool-cases (nonzero (at_quote pos))) [
    | inr no_quote ↦
        let q_none =
          bits_missed (hits buf quotes) (combined b b.quotes) b.base pos quote_shows small
            no_quote in
        elim (Bool-cases (nonzero (at_d pos))) [
          | inr no_d ↦ (
            none,
            0,
            walk_nothing b fuel pos _ no_quote no_d,
            unquoted_nothing buf quotes d (b.base + pos) (64 - pos)
                (bits_missed (hit buf d) _ b.base pos (s.each d known) small no_d) q_none,
          )
          | inl is_d ↦ (
            some (trailing_zeros (at_d pos)),
            0,
            walk_alone b fuel pos _ no_quote is_d,
            unquoted_found buf quotes d (b.base + pos) (64 - pos) _
                (bits_found (hit buf d) _ b.base pos (s.each d known) small is_d) (λ k e. cc),
          )
        ]
    | inl is_quote ↦
        let q_some =
          bits_found (hits buf quotes) (combined b b.quotes) b.base pos quote_shows small
            is_quote in
        let (is_hit, below) = quote_bit pos is_quote in
        let (entry, active) = opened_by (trailing_zeros (at_quote pos)) below is_hit in
        let after = (bit_at_or_after (combined b b.quotes) pos is_quote).0 in
        let (x, q', walked, agrees) =
          ih (get_or buf (b.base + trailing_zeros (at_quote pos)) 0) (λ h. active) after below in
        let next : b.base + suc (trailing_zeros (at_quote pos))
            ≡ suc (b.base + trailing_zeros (at_quote pos)) =
          omega arith in
        let left : 64 - suc (trailing_zeros (at_quote pos))
            ≡ b.base + pos + (64 - pos) - suc (b.base + trailing_zeros (at_quote pos)) =
          omega arith in
        elim (Bool-cases
          (nonzero (at_d pos) && ltb (trailing_zeros (at_d pos)) (trailing_zeros (at_quote pos)))) [
            | inl d_first ↦
                let (is_d, less) = both _ _ d_first in
                (
                  some (trailing_zeros (at_d pos)),
                  0,
                  walk_first b fuel pos _ is_d less,
                  unquoted_found buf quotes d (b.base + pos) (64 - pos) _
                      (bits_found (hit buf d) _ b.base pos (s.each d known) small is_d)
                      (λ k e. d_before_quote pos _ k less q_some e),
                )
            | inr q_first ↦ (
              x,
              q',
              walk_opened b fuel pos _ is_quote q_first ∙ rw (sym entry) at walked,
              unquoted_opened buf quotes d (b.base + pos) (64 - pos) _ q_some
                    (λ g e. quote_before_d pos g small q_first e)
                  ∙ rw (next, left) at agrees,
            )
          ]
  ]
