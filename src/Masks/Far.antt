-- ===== src/Masks/Far.antt =====
-- `next_far` finds what `next` finds, whichever search it takes.
use rypipe.Prelude.{
  ℕ, zero, suc, ◌+◌, ◌-◌, ◌^◌, ◌≤◌, ◌≡◌, refl, false, sym, ap, ◌∙◌, Option, none, some, [], ◌∷◌,
  Str, length, length-drop, drop, ltb, ◌==◌, arith, Bool-cases, inl, inr,
}
use rypipe.Split.Boundaries.{Memchr}
use rypipe.Split.Boundaries.Scan as BoundaryScan
use rypipe.Split.Boundaries.Scan.{index_of}
use rypipe.Masks.{BlockMasks, next_far}
use rypipe.Masks.Scan.{scan, scan-agree, scan-above, above}
use rypipe.Masks.Cache.{hit, IsDelim, IsCache}
use rypipe.Masks.Next.{next-scan}

hit-drop : (buf : Str) (d n j : ℕ) → hit buf d (n + j) ≡ hit (drop n buf) d j
unfolding hit
hit-drop buf d zero j = let e : 0 + j ≡ j = omega arith in rw e refl
hit-drop [] d (suc n) j = refl
hit-drop (c ∷ s) d (suc n) j =
    let e : suc n + j ≡ suc (n + j) = omega arith in rw e (hit-drop s d n j)

above_one : (o : Option ℕ) → BoundaryScan.next o ≡ above 1 o
above_one none = refl
above_one (some i) = ap some (omega arith)

-- What `memchr` is documented to return is the first place of the byte.
index_of-scan : (s : Str) (d : ℕ) → index_of d s ≡ scan (hit s d) 0 (length s)
unfolding index_of scan hit
index_of-scan [] d = refl
index_of-scan (c ∷ s) d =
    let tail : (j : ℕ) → hit (c ∷ s) d (1 + j) ≡ hit s d j = λ j. hit-drop (c ∷ s) d 1 j in
    let later : above 1 (scan (hit s d) 0 (length s)) ≡ scan (hit (c ∷ s) d) 1 (length s) =
      ap (above 1)
        (sym (scan-agree (λ j. hit (c ∷ s) d (1 + j)) (hit s d) 0 (length s) (λ j x y. tail j)))
      ∙ scan-above (hit (c ∷ s) d) 1 0 (length s) in
    let rest : BoundaryScan.next (index_of d s) ≡ scan (hit (c ∷ s) d) 1 (length s) =
      above_one (index_of d s) ∙ ap (above 1) (index_of-scan s d) ∙ later in
    elim (Bool-cases (c == d)) [ inl here ↦ rw here refl | inr there ↦ rw there rest ]

by_above :
    (from : ℕ) (o : Option ℕ) → (elim o [ none ↦ none | some i ↦ some (from + i) ]) ≡ above from o
by_above from none = refl
by_above from (some i) = refl

-- From any position on.
index_of-drop :
    (buf : Str) (d from : ℕ)
    → above from (index_of d (drop from buf)) ≡ scan (hit buf d) from (length buf - from)
index_of-drop buf d from =
    let start : from + 0 ≡ from = omega arith in
    let same : scan (hit (drop from buf) d) 0 (length buf - from)
        ≡ scan (λ j. hit buf d (from + j)) 0 (length buf - from) =
      scan-agree (hit (drop from buf) d) (λ j. hit buf d (from + j)) 0 (length buf - from)
        (λ j x y. sym (hit-drop buf d from j)) in
    ap (above from) (
      index_of-scan (drop from buf) d
      ∙ ap (scan (hit (drop from buf) d) 0) (length-drop from buf)
      ∙ same)
    ∙ rw start at (scan-above (hit buf d) from 0 (length buf - from))

module _ (buf delims quotes : Str) (fits : length buf ≤ 2 ^ 63) (m : Memchr) where
  -- For a buffer below 2^63 bytes, a position `from` at most at its end, a wanted byte among the
  -- delimiters, a cache that holds the masks of its block, and a `memchr` that gives the first
  -- index of the byte, `next_far` ends and gives the first position of the byte at or after
  -- `from`, whatever the hint, by `memchr` and by the masks alike; and the cache still holds the
  -- masks of its block.
  pub next_far-scan :
      (b : BlockMasks) (from d hint : ℕ)
      → from ≤ length buf
      → ((s : Str) → m.memchr d s ≡ index_of d s)
      → IsDelim delims d
      → IsCache buf delims quotes b
      → (b' : BlockMasks) × (next_far m b from d hint
          ≡ some (scan (hit buf d) from (length buf - from), b'))
        × IsCache buf delims quotes b'
  unfolding next_far
  next_far-scan b from d hint within finds known c = elim (Bool-cases (ltb 256 hint)) [
    | inr near ↦ rw near (next-scan buf delims quotes fits b from d known c)
    | inl far ↦
        let found : (elim (m.memchr d (drop from b.buf)) [ none ↦ none | some i ↦ some (from + i) ])
            ≡ scan (hit buf d) from (length buf - from) =
          by_above from (m.memchr d (drop from b.buf))
          ∙ ap (above from) (finds (drop from b.buf) ∙ ap (λ s. index_of d (drop from s)) c.buffer)
          ∙ index_of-drop buf d from in
        let inside : ltb (length b.buf) from ≡ false = rw c.buffer (ground (arith, within)) in
        (b, rw (far, inside, found) refl, c)
  ]
