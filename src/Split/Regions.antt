-- ===== src/Split/Regions.antt =====
-- `in_skip_region` of decoder.rs, compared with a description of the regions suffix by suffix.
use rypipe.Prelude.{
  ℕ, zero, suc, ◌+◌, ◌-◌, ◌≡◌, ◌≤◌, ◌<◌, refl, ap, ◌∙◌, Bool, true, false, ◌&&◌, ◌||◌, not, Option,
  none, some, List, [], ◌∷◌, Str, length, take, drop, drop_again, starts_with, contains, leb,
  leb→le, if◌then◌else◌, arith, Bool-cases, Option-cases, inl, inr,
}
use rypipe.Split.Boundaries.Scan.{next}
use rypipe.Split.{Splitter, SkipRegionFinder, unclosed, any_unclosed, in_skip_region}

-- The first index of a text: what `memmem::find` is documented to return.
unfoldable pub find_first : (haystack needle : Str) → Option ℕ
unfolding starts_with
find_first [] needle = if starts_with [] needle then some 0 else none
find_first (c ∷ s) needle =
    let later = next (find_first s needle) in if starts_with (c ∷ s) needle then some 0 else later

-- Whether the opener stands where the text begins, without a closer after it.
abbrev pub opened_here : (opener closer : Str) → Str → Bool
opened_here opener closer s = starts_with s opener && not (contains (drop (length opener) s) closer)

-- Whether the opener stands anywhere without a closer after it.
unfoldable pub left_open : (opener closer : Str) → Str → Bool
unfolding contains starts_with
left_open opener closer [] = opened_here opener closer []
left_open opener closer (c ∷ s) =
    let later = left_open opener closer s in opened_here opener closer (c ∷ s) || later

unfoldable pub any_left_open : SkipRegionFinder → List Str → Str → Bool
unfolding left_open
any_left_open finder [] s = false
any_left_open finder (opener ∷ openers) s =
    left_open opener (finder.closer_for opener) s || any_left_open finder openers s

-- Whether a region is open at a position, by the bytes of the window before it.
unfoldable pub is_skipped : Option SkipRegionFinder → Str → ℕ → Bool
unfolding any_left_open
is_skipped none bytes at = false
is_skipped (some finder) bytes at =
    leb at (length bytes)
    && any_left_open finder finder.openers (drop (at - finder.window) (take at bytes))

find_first-contains : (s needle : Str) → find_first s needle ≡ none → contains s needle ≡ false
unfolding find_first contains
find_first-contains [] needle h = elim (Bool-cases (starts_with [] needle)) [
  | inl starts ↦ let impossible : some 0 ≡ none = rw starts at h in cc
  | inr misses ↦ misses
]
find_first-contains (c ∷ s) needle h = elim (Bool-cases (starts_with (c ∷ s) needle)) [
  | inl starts ↦ let impossible : some 0 ≡ none = rw starts at h in cc
  | inr misses ↦ elim (Option-cases (find_first s needle)) [
    | inl nothing ↦ rw (misses, find_first-contains s needle nothing) refl
    | inr (i, found) ↦ let impossible : next (some i) ≡ none = rw (misses, found) at h in cc
  ]
]

contains-find_first :
    (s needle : Str) (i : ℕ) → find_first s needle ≡ some i → contains s needle ≡ true
unfolding find_first contains
contains-find_first [] needle i h = elim (Bool-cases (starts_with [] needle)) [
  | inl starts ↦ starts
  | inr misses ↦ let impossible : none ≡ some i = rw misses at h in cc
]
contains-find_first (c ∷ s) needle i h = elim (Bool-cases (starts_with (c ∷ s) needle)) [
  | inl starts ↦ rw starts refl
  | inr misses ↦ elim (Option-cases (find_first s needle)) [
    | inl nothing ↦ let impossible : none ≡ some i = rw (misses, nothing) at h in cc
    | inr (j, found) ↦ rw (misses, contains-find_first s needle j found) refl
  ]
]

-- Without the opener nothing is left open.
left_open-none :
    (opener closer s : Str) → find_first s opener ≡ none → left_open opener closer s ≡ false
unfolding find_first left_open
left_open-none opener closer [] h = elim (Bool-cases (starts_with [] opener)) [
  | inl starts ↦ let impossible : some 0 ≡ none = rw starts at h in cc
  | inr misses ↦ rw misses refl
]
left_open-none opener closer (c ∷ s) h = elim (Bool-cases (starts_with (c ∷ s) opener)) [
  | inl starts ↦ let impossible : some 0 ≡ none = rw starts at h in cc
  | inr misses ↦ elim (Option-cases (find_first s opener)) [
    | inl nothing ↦ rw (misses, left_open-none opener closer s nothing) refl
    | inr (i, found) ↦ let impossible : next (some i) ≡ none = rw (misses, found) at h in cc
  ]
]

-- From the first opener on.
left_open-some :
    (opener closer s : Str) (i : ℕ)
    → find_first s opener ≡ some i
    → left_open opener closer s ≡ (
        not (contains (drop (length opener) (drop i s)) closer)
        || left_open opener closer (drop (i + 1) s))
unfolding find_first left_open
left_open-some opener closer [] i h = elim (Bool-cases (starts_with [] opener)) [
  | inl starts ↦
      let e : some 0 ≡ some i = rw starts at h in
      let same : i ≡ 0 = cc in rw (same, starts) (ground arith)
  | inr misses ↦ let impossible : none ≡ some i = rw misses at h in cc
]
left_open-some opener closer (c ∷ s) i h = elim (Bool-cases (starts_with (c ∷ s) opener)) [
  | inl starts ↦
      let e : some 0 ≡ some i = rw starts at h in let same : i ≡ 0 = cc in rw (same, starts) refl
  | inr misses ↦ elim (Option-cases (find_first s opener)) [
    | inl nothing ↦ let impossible : none ≡ some i = rw (misses, nothing) at h in cc
    | inr (j, found) ↦
        let e : some (j + 1) ≡ some i = rw (misses, found) at h in
        let value : j + 1 ≡ i = cc in
        let same : i ≡ suc j = omega (arith, value) in
        let on : suc j + 1 ≡ suc (j + 1) = omega arith in
        rw (same, on, misses) (left_open-some opener closer s j found)
  ]
]

drop_all : (n : ℕ) (s : Str) → length s ≤ n → drop n s ≡ []
drop_all zero [] h = refl
drop_all (suc n) [] h = refl
drop_all zero (c ∷ s) h = ground arith
drop_all (suc n) (c ∷ s) h = drop_all n s (omega arith)

take-nil : (n : ℕ) → take {A = ℕ} n [] ≡ []
take-nil zero = refl
take-nil (suc n) = refl

window_bytes :
    (bytes : Str) (start at : ℕ) → take (at - start) (drop start bytes) ≡ drop start (take at bytes)
window_bytes bytes zero at = let e : at - 0 ≡ at = omega arith in rw e refl
window_bytes bytes (suc start) zero = let e : 0 - suc start ≡ 0 = omega arith in rw e refl
window_bytes [] (suc start) (suc at) = take-nil (suc at - suc start)
window_bytes (c ∷ bytes) (suc start) (suc at) =
    let e : suc at - suc start ≡ at - start = omega arith in rw e (window_bytes bytes start at)

the_end : (n search : ℕ) → search ≤ n → n < 0 + search → ⊥
the_end n search h g = omega arith

module _ (s : Splitter)
    (finds : (text needle : Str) → s.find text needle ≡ find_first text needle) where
  -- One round, which found the opener at `from`, with what the later rounds give.
  round :
      (scan closer : Str) (from : ℕ) (later opened : Bool)
      → starts_with [] closer ≡ false
      → (from < length scan → later ≡ opened)
      → (if leb (length scan) from
          then true
          else elim (s.find (drop from scan) closer) [ none ↦ true | some p ↦ later ])
        ≡ (not (contains (drop from scan) closer) || opened)
  unfolding contains
  round scan closer from later opened some_closer same =
      elim (Bool-cases (leb (length scan) from)) [
        | inl past ↦
            rw (past, drop_all from scan (leb→le (length scan) from past), some_closer) refl
        | inr inside ↦ elim (Option-cases (find_first (drop from scan) closer)) [
          | inl nothing ↦
              let none_found : s.find (drop from scan) closer ≡ none =
                finds (drop from scan) closer ∙ nothing in
              rw (inside, none_found, find_first-contains (drop from scan) closer nothing) refl
          | inr (p, found) ↦
              let first : s.find (drop from scan) closer ≡ some p =
                finds (drop from scan) closer ∙ found in
              rw (inside, first, contains-find_first (drop from scan) closer p found)
                (same (ground (arith, inside)))
        ]
      ]

  -- The loop for one opener, with a round for each byte left and one more.
  unclosed-left_open :
      (scan opener closer : Str) (fuel search : ℕ)
      → starts_with [] closer ≡ false
      → search ≤ length scan
      → length scan < fuel + search
      → unclosed s scan opener closer fuel search ≡ left_open opener closer (drop search scan)
  unfolding unclosed contains
  unclosed-left_open scan opener closer zero search some_closer within enough =
      elim (the_end (length scan) search within enough) [ ]
  unclosed-left_open scan opener closer (suc fuel) search some_closer within enough =
      let s' : Str = drop search scan in
      elim (Option-cases (find_first s' opener)) [
        | inl nothing ↦
            let none_found : s.find s' opener ≡ none = finds s' opener ∙ nothing in
            rw (none_found, unclosed, left_open-none opener closer s' nothing) refl
        | inr (i, found) ↦
            let first : s.find s' opener ≡ some i = finds s' opener ∙ found in
            let after : drop (length opener) (drop i s') ≡ drop (search + i + length opener) scan =
              ap (drop (length opener)) (drop_again search i scan)
              ∙ drop_again (search + i) (length opener) scan in
            let tail : drop (i + 1) s' ≡ drop (search + (i + 1)) scan =
              drop_again search (i + 1) scan in
            rw (first, unclosed, left_open-some opener closer s' i found, after, tail)
              (round scan closer (search + i + length opener)
                (unclosed s scan opener closer fuel (search + (i + 1)))
                (left_open opener closer (drop (search + (i + 1)) scan)) some_closer
                (λ inside.
                  unclosed-left_open scan opener closer fuel (search + (i + 1)) some_closer
                    (omega arith) (omega (arith, enough))))
      ]

  any_unclosed-left_open :
      (finder : SkipRegionFinder) (scan : Str) (openers : List Str)
      → ((opener : Str) → starts_with [] (finder.closer_for opener) ≡ false)
      → any_unclosed s finder scan openers ≡ any_left_open finder openers scan
  unfolding any_unclosed any_left_open
  any_unclosed-left_open finder scan [] closers = refl
  any_unclosed-left_open finder scan (opener ∷ openers) closers =
      rw
        (
          unclosed-left_open scan opener (finder.closer_for opener) (length scan + 1) 0
              (closers opener) (omega arith) (omega arith),
          any_unclosed-left_open finder scan openers closers,
        )
        refl

  -- Whether a position is in a skip region.
  pub in_skip_region-is_skipped :
      (finder : SkipRegionFinder) (bytes : Str) (at : ℕ)
      → ((opener : Str) → starts_with [] (finder.closer_for opener) ≡ false)
      → in_skip_region s bytes at finder ≡ is_skipped (some finder) bytes at
  unfolding in_skip_region is_skipped
  in_skip_region-is_skipped finder bytes at closers =
      let start : ℕ = at - finder.window in
      rw
        (
          any_unclosed-left_open finder (take (at - start) (drop start bytes)) finder.openers
              closers,
          window_bytes bytes start at,
        )
        (ground arith)
