-- ===== src/Masks/Fast.antt =====
-- The fast path of a block with one quote type left.
use rypipe.Prelude.{
  ℕ, zero, suc, ◌+◌, ◌-◌, ◌≤◌, ◌<◌, ◌≡◌, refl, sym, ap, ◌∙◌, Bool, true, false, ◌&&◌, not, Option,
  none, some, Str, get_or, ◌==◌, if◌then◌else◌, arith, Bool-cases, inl, inr,
}
use rypipe.Masks.{
  Mask, BlockMasks, xor, complement, mask_and, from_mask, nonzero, trailing_zeros, parity, odd_ones,
  prefix_xor, position,
}
use rypipe.Masks.Quotes.{scan_parity}
use rypipe.Masks.Parity.{prefix_xor-parity}
use rypipe.Masks.Scan.{scan, scan-mask, scan-append, scan_nothing}
use rypipe.Masks.Cache.{hit, IsDelim, get_or-position}
use rypipe.Masks.Any.{hits, hit_byte}
use rypipe.Masks.Quoted.{quote_after, is_outside, unquoted}
use rypipe.Masks.Shown.{IsShown, Agrees}

parity_nothing : (m : Mask) (n : ℕ) → ((j : ℕ) → j < n → m j ≡ false) → parity m n ≡ false
unfolding parity
parity_nothing m zero h = refl
parity_nothing m (suc n) h =
    rw (parity_nothing m n (λ j l. h j (omega arith)), h n (omega arith)) refl

-- The search from the lowest bit skips bits that are not set.
scan_skip :
    (m : Mask) (pos : ℕ)
    → pos ≤ 64
    → ((j : ℕ) → j < pos → m j ≡ false)
    → scan m 0 64 ≡ scan m pos (64 - pos)
scan_skip m pos small h =
    let parts : 64 ≡ pos + (64 - pos) = omega arith in
    let here : 0 + pos ≡ pos = omega arith in
    let nothing : scan m 0 pos ≡ none = scan_nothing m 0 pos (λ j a c. h j (omega arith)) in
    ap (scan m 0) parts ∙ scan-append m 0 pos (64 - pos) ∙ rw (nothing, here) refl

module _ (buf delims quotes : Str) (d : ℕ) (b : BlockMasks) (s : IsShown buf delims quotes b)
    (known : IsDelim delims d) (q pos : ℕ) (q_known : IsDelim delims q) (q_set : (q == 0) ≡ false)
    (small : pos ≤ 64)
    (only : (j : ℕ) → pos ≤ j → j < 64 → hits buf quotes (b.base + j) ≡ hit buf q (b.base + j))
    (apart : (i : ℕ) → hit buf d i ≡ true → hits buf quotes i ≡ false) where
  abbrev qmask : Mask
  qmask = mask_and (b.masks (position delims q)) (from_mask pos)

  abbrev outside : Mask
  outside =
      mask_and (mask_and (b.masks (position delims d)) (from_mask pos))
        (complement (prefix_xor qmask))

  abbrev state : ℕ → ℕ
  state j = if parity qmask j then q else 0

  abbrev finish : Option ℕ → Option ℕ × ℕ
  finish none = (none, state 64)
  finish (some x) = (some (b.base + x), 0)

  from_bit : (j : ℕ) → pos ≤ j → j < 64 → from_mask pos j ≡ true
  from_bit j after below = ground arith

  quote_bit : (j : ℕ) → pos ≤ j → j < 64 → qmask j ≡ hit buf q (b.base + j)
  quote_bit j after below = rw (s.each q q_known j below, from_bit j after below) (ground arith)

  next_parity :
      (j : ℕ)
      → pos ≤ j
      → j < 64
      → parity qmask (suc j) ≡ xor (parity qmask j) (hit buf q (b.base + j))
  unfolding parity
  next_parity j after below = ap (xor (parity qmask j)) (quote_bit j after below)

  outside_bit :
      (j : ℕ)
      → pos ≤ j
      → j < 64
      → outside j
        ≡ (hit buf d (b.base + j) && xor true (xor (parity qmask j) (hit buf q (b.base + j))))
  outside_bit j after below =
      let inside : prefix_xor qmask j ≡ xor (parity qmask j) (hit buf q (b.base + j)) =
        prefix_xor-parity qmask j below ∙ next_parity j after below in
      rw (s.each d known j below, from_bit j after below, inside) (ground arith)

  not_both : (i : ℕ) (x : Bool) → hits buf quotes i ≡ x → (hit buf d i && x) ≡ false
  not_both i true h = elim (Bool-cases (hit buf d i)) [
    | inl e ↦ let bad : true ≡ false = sym h ∙ apart i e in cc
    | inr e ↦ rw e refl
  ]
  not_both i false h = ground arith

  -- What one byte does, in terms of the parity before it.
  after_byte :
      (j : ℕ) → pos ≤ j → j < 64 → quote_after buf quotes (state j) (b.base + j) ≡ state (suc j)
  unfolding quote_after
  after_byte j after below = elim (Bool-cases (parity qmask j)) [
    | inl p ↦ rw (next_parity j after below, p, q_set) (ground arith)
    | inr p ↦ elim (Bool-cases (hit buf q (b.base + j))) [
      | inl k ↦
          rw (next_parity j after below, p, only j after below, k, hit_byte buf q (b.base + j) k)
            refl
      | inr k ↦ rw (next_parity j after below, p, only j after below, k) refl
    ]
  ]

  outside_byte :
      (j : ℕ) → pos ≤ j → j < 64 → is_outside buf quotes d (state j) (b.base + j) ≡ outside j
  unfolding is_outside
  outside_byte j after below =
      let never = not_both (b.base + j) _ (only j after below) in
      elim (Bool-cases (parity qmask j)) [
        | inl p ↦ rw (outside_bit j after below, p, q_set) (ground arith)
        | inr p ↦ rw (outside_bit j after below, p, only j after below) (ground arith)
      ]

  outside_state : (j : ℕ) → is_outside buf quotes d (state j) (b.base + j) ≡ true → state j ≡ 0
  unfolding is_outside
  outside_state j h = elim (Bool-cases (parity qmask j)) [
    | inl p ↦
        let bad : (q == 0 && not (hits buf quotes (b.base + j)) && hit buf d (b.base + j)) ≡ true =
          rw p at h in
        let no : false ≡ true = rw q_set at bad in cc
    | inr p ↦ rw p refl
  ]

  -- From a byte of the block on, the scan byte by byte finds the first bit outside.
  by_parity :
      (n j : ℕ)
      → j + n ≡ 64
      → pos ≤ j
      → unquoted buf quotes d (state j) (b.base + j) n ≡ finish (scan outside j n)
  unfolding unquoted scan
  by_parity zero j e after = let last : j ≡ 64 = omega arith in rw last refl
  by_parity (suc n) j e after =
      let is_out = outside_byte j after (omega arith) in
      elim (Bool-cases (outside j)) [
        | inl here ↦
            let zero_state = outside_state j (is_out ∙ here) in rw (is_out, here, zero_state) refl
        | inr later ↦
            let step = after_byte j after (omega arith) in
            let next : suc (b.base + j) ≡ b.base + suc j = omega arith in
            rw (is_out, later, step, next) (by_parity n (suc j) (omega arith) (omega arith))
      ]

  first_bits : scan outside 0 64 ≡ scan outside pos (64 - pos)
  first_bits = scan_skip outside pos small (λ j l. ground arith)

  no_state : state pos ≡ 0
  no_state =
      let nothing : parity qmask pos ≡ false = parity_nothing qmask pos (λ j l. ground arith) in
      rw nothing refl

  in_block :
      unquoted buf quotes d 0 (b.base + pos) (64 - pos)
      ≡ finish (if nonzero outside then some (trailing_zeros outside) else none)
  in_block =
      let walked = by_parity (64 - pos) pos (omega arith) (omega arith) in
      rw no_state at walked ∙ ap finish (sym first_bits ∙ scan-mask outside 0 64)

  pub scan_parity-unquoted :
      b.in_quote ≡ 0
      → Agrees buf quotes d b.base 0 pos
          (some (scan_parity b pos (position delims d) (position delims q)))
  unfolding scan_parity
  scan_parity-unquoted closed =
      let entry : get_or b.delims (position delims q) 0 ≡ q =
        ap (λ ds. get_or ds (position delims q) 0) s.cache.delimiters
        ∙ get_or-position delims q q_known in
      elim (Bool-cases (nonzero outside)) [
        | inl found ↦
            (some (trailing_zeros outside), 0, rw (found, closed) refl, rw found at in_block)
        | inr missed ↦ elim (Bool-cases (odd_ones qmask)) [
          | inl odd ↦ (none, q, rw (missed, odd, entry) refl, rw (missed, odd) at in_block)
          | inr even ↦ (none, 0, rw (missed, even, closed) refl, rw (missed, even) at in_block)
        ]
      ]
