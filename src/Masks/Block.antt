-- ===== src/Masks/Block.antt =====
-- A block is searched alike by the fast path and by the walk.
use rypipe.Prelude.{
  ℕ, zero, suc, ◌+◌, ◌≤◌, ◌<◌, ◌≡◌, refl, sym, ap, ◌∙◌, true, false, ◌&&◌, none, some, [], ◌∷◌, Str,
  ◌==◌, arith, Bool-cases, Option-cases, inl, inr,
}
use mathlib.Core.Path.{subst}
use rypipe.Masks.{Mask, BlockMasks, mask_and, from_mask, nonzero, any_set, position}
use rypipe.Masks.Quotes.{single_quote_remaining, scan_parity, scan_block_unquoted}
use rypipe.Masks.Cache.{hit, IsDelim}
use rypipe.Masks.Any.{hits, AreDelims}
use rypipe.Masks.Shown.{IsActive, IsShown, Agrees}
use rypipe.Masks.Walk.{walk_events-unquoted}
use rypipe.Masks.Fast.{scan_parity-unquoted}

-- No quote is the byte 0, which stands for no quote.
abbrev pub AreQuotes : Str → Type 0
AreQuotes [] = Unit {0}
AreQuotes (q ∷ qs) = ((q == 0) ≡ false) × AreQuotes qs

no_bit : (m : Mask) (i n j : ℕ) → any_set m i n ≡ false → i ≤ j → j < i + n → m j ≡ false
unfolding any_set
no_bit m i zero j h low high = absurd (omega arith)
no_bit m i (suc n) j h low high = elim (Bool-cases (m i)) [
  | inl here ↦ let bad : true ≡ false = rw here at h in cc
  | inr not_here ↦ elim (Bool-cases (i == j)) [
    | inl same ↦ let e : i ≡ j = ground arith in rw (← e) not_here
    | inr before ↦ no_bit m (suc i) n j (rw not_here at h) (ground arith) (omega arith)
  ]
]

module _ (buf delims quotes : Str) (b : BlockMasks) (s : IsShown buf delims quotes b)
    (pos : ℕ) where
  -- A type without bits at or after `pos` does not occur there.
  no_quote :
      (q : ℕ)
      → IsDelim delims q
      → nonzero (mask_and (b.masks (position b.delims q)) (from_mask pos)) ≡ false
      → (j : ℕ) → pos ≤ j
      → j < 64
      → hit buf q (b.base + j) ≡ false
  no_quote q k nothing j after below =
      let none_there : (b.masks (position b.delims q) j && from_mask pos j) ≡ false =
        no_bit (mask_and (b.masks (position b.delims q)) (from_mask pos)) 0 64 j nothing
          (omega arith) (omega arith) in
      let from_here : from_mask pos j ≡ true = ground arith in
      let bit : b.masks (position b.delims q) j ≡ false = ground arith in
      sym (s.each q k j below) ∙ rw s.cache.delimiters at bit

  no_other :
      (qs : Str) (f qi : ℕ)
      → AreDelims delims qs
      → single_quote_remaining b pos qs (some f) ≡ some qi
      → (qi ≡ f) × ((j : ℕ) → pos ≤ j → j < 64 → hits buf qs (b.base + j) ≡ false)
  unfolding single_quote_remaining hits
  no_other [] f qi k e = (cc, λ j a l. refl)
  no_other (q ∷ qs) f qi k e =
      elim (Bool-cases (nonzero (mask_and (b.masks (position b.delims q)) (from_mask pos)))) [
        | inl there ↦ let bad : none ≡ some qi = rw there at e in absurd (cc)
        | inr nothing ↦
            let (same, others) = no_other qs f qi k.1 (rw nothing at e) in
            (same, λ j a l. rw (no_quote q k.0 nothing j a l) (others j a l))
      ]

  -- What the result says: only that type occurs at or after `pos`.
  single_quote_remaining-only :
      (qs : Str) (qi : ℕ)
      → AreDelims delims qs
      → AreQuotes qs
      → single_quote_remaining b pos qs none ≡ some qi
      → (q : ℕ) × IsDelim delims q
        × ((q == 0) ≡ false)
        × (qi ≡ position delims q)
        × ((j : ℕ) → pos ≤ j → j < 64 → hits buf qs (b.base + j) ≡ hit buf q (b.base + j))
  unfolding single_quote_remaining hits
  single_quote_remaining-only [] qi k z e = absurd (cc)
  single_quote_remaining-only (q ∷ qs) qi k z e =
      elim (Bool-cases (nonzero (mask_and (b.masks (position b.delims q)) (from_mask pos)))) [
        | inl there ↦
            let (same, others) = no_other qs (position b.delims q) qi k.1 (rw there at e) in
            (
              q,
              k.0,
              z.0,
              same ∙ ap (λ ds. position ds q) s.cache.delimiters,
              λ j a l. rw (others j a l) (ground arith),
            )
        | inr nothing ↦
            let (p, p_known, p_set, same, others) =
              single_quote_remaining-only qs qi k.1 z.1 (rw nothing at e) in
            (p, p_known, p_set, same, λ j a l. rw (no_quote q k.0 nothing j a l) (others j a l))
      ]

  module _ (d : ℕ) (known : IsDelim delims d) (are_quotes : AreQuotes quotes)
      (apart : (i : ℕ) → hit buf d i ≡ true → hits buf quotes i ≡ false) where
    pub scan_block_unquoted-unquoted :
        IsActive delims b.in_quote
        → pos ≤ 64
        → Agrees buf quotes d b.base b.in_quote pos (scan_block_unquoted b pos (position delims d))
    unfolding scan_block_unquoted
    scan_block_unquoted-unquoted active small =
        let walked =
          walk_events-unquoted buf delims quotes d b s known 66 b.in_quote pos active small
            (omega arith) in
        elim (Bool-cases (b.in_quote == 0)) [
          | inr inside ↦ rw inside walked
          | inl outside ↦ elim (Option-cases (single_quote_remaining b pos b.quotes none)) [
            | inl several ↦ rw (outside, several) walked
            | inr (qi, single) ↦
                let single' : single_quote_remaining b pos quotes none ≡ some qi =
                  ap (λ qs. single_quote_remaining b pos qs none) (sym s.cache.quoting) ∙ single in
                let (q, q_known, q_set, same, only) =
                  single_quote_remaining-only quotes qi s.known are_quotes single' in
                let closed : b.in_quote ≡ 0 = ground arith in
                let fast =
                  scan_parity-unquoted buf delims quotes d b s known q pos q_known q_set small only
                    apart closed in
                let fast' : Agrees buf quotes d b.base b.in_quote pos
                    (some (scan_parity b pos (position delims d) qi)) =
                  subst
                    (λ n.
                      Agrees buf quotes d b.base n pos
                        (some (scan_parity b pos (position delims d) qi)))
                    (sym closed)
                    (subst
                      (λ k.
                        Agrees buf quotes d b.base 0 pos
                          (some (scan_parity b pos (position delims d) k)))
                      (sym same) fast) in
                rw (outside, single) fast'
          ]
        ]
