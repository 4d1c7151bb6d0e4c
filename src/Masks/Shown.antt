-- ===== src/Masks/Shown.antt =====
-- A block whose masks are all shown, and the steps of the walk over its quotes.
use rypipe.Prelude.{
  ℕ, suc, ◌+◌, ◌-◌, ◌≤◌, ◌<◌, ◌≡◌, refl, sym, Bool, true, false, ◌&&◌, Option, none, some, [], ◌∷◌,
  Str, get_or, length, ltb, ◌==◌, arith, Bool-cases, inl, inr,
}
use rypipe.Masks.{
  Mask, BlockMasks, mask_and, from_mask, nonzero, trailing_zeros, position, combined,
}
use rypipe.Masks.Quotes.{quote_index_at, walk_events}
use rypipe.Masks.Scan.{scan, above, block_scan}
use rypipe.Masks.Cache.{hit, IsDelim, get_or-position, Shows, IsCache}
use rypipe.Masks.Any.{hits, hit_byte, AreDelims}
use rypipe.Masks.Quoted.{unquoted}

pub ltb→le : (a c : ℕ) → ltb a c ≡ false → c ≤ a
ltb→le a c h = ground arith

-- An open quote is one of the delimiters.
abbrev pub IsActive : Str → ℕ → Type 0
IsActive delims q = (q == 0) ≡ false → IsDelim delims q

module _ (p : ℕ → Bool) (m : Mask) (base pos : ℕ) (shows : (j : ℕ) → j < 64 → m j ≡ p (base + j))
    (small : pos ≤ 64) where
  pub bits_found :
      nonzero (mask_and m (from_mask pos)) ≡ true
      → scan p (base + pos) (64 - pos) ≡ some (base + trailing_zeros (mask_and m (from_mask pos)))
  bits_found found = sym (rw found at (block_scan p m base pos shows small))

  pub bits_missed :
      nonzero (mask_and m (from_mask pos)) ≡ false → scan p (base + pos) (64 - pos) ≡ none
  bits_missed missed = sym (rw missed at (block_scan p m base pos shows small))

-- What a block gives is that of the scan from `pos` on.
abbrev pub Agrees : Str → Str → ℕ → ℕ → ℕ → ℕ → Option (Option ℕ × ℕ) → Type 0
Agrees buf quotes d base q pos result =
    (x : Option ℕ) × (q' : ℕ) × (result ≡ some (x, q'))
    × (unquoted buf quotes d q (base + pos) (64 - pos) ≡ (above base x, q'))

-- The masks of a block whose delimiters are all shown.
pub record IsShown (buf delims quotes : Str) (b : BlockMasks) : Type 0 where
  pub cache : IsCache buf delims quotes b
  pub each :
      (d : ℕ) → IsDelim delims d → Shows buf delims quotes (b.masks (position delims d)) b.base d
  pub known : AreDelims delims quotes
  pub few : length delims ≤ 8

module _ (buf delims quotes : Str) (b : BlockMasks) (s : IsShown buf delims quotes b) where
  pub quote_index_at_lem :
      (qs : Str)
      → AreDelims delims qs
      → (j : ℕ) → j < 64
      → hits buf qs (b.base + j) ≡ true
      → (get_or b.delims (quote_index_at b j qs) 0 ≡ get_or buf (b.base + j) 0)
        × IsDelim delims (get_or buf (b.base + j) 0)
  unfolding quote_index_at hits
  quote_index_at_lem [] k j l h = cc
  quote_index_at_lem (q ∷ qs) k j l h = elim (Bool-cases (hit buf q (b.base + j))) [
    | inl here ↦
        let byte : get_or buf (b.base + j) 0 ≡ q = hit_byte buf q (b.base + j) here in
        let entry : get_or delims (position delims q) 0 ≡ q = get_or-position delims q k.0 in
        rw (s.cache.delimiters, s.each q k.0 j l, here, byte, entry) (refl, k.0)
    | inr there ↦
        let (a, c) = quote_index_at_lem qs k.1 j l (rw there at h) in
        let bit : b.masks (position b.delims q) j ≡ false =
          rw (s.cache.delimiters, s.each q k.0 j l) there in
        (rw bit a, c)
  ]

-- The steps of the walk, for the masks at hand.
module _ (b : BlockMasks) (fuel pos di : ℕ) where
  abbrev g : Mask
  g = mask_and (b.masks di) (from_mask pos)

  abbrev qs : Mask
  qs = mask_and (combined b b.quotes) (from_mask pos)

  pub walk_alone :
      nonzero qs ≡ false
      → nonzero g ≡ true
      → walk_events (suc fuel) b 0 pos di ≡ some (some (trailing_zeros g), 0)
  unfolding walk_events
  walk_alone no_quote is_d = rw (no_quote, is_d) refl

  pub walk_nothing :
      nonzero qs ≡ false → nonzero g ≡ false → walk_events (suc fuel) b 0 pos di ≡ some (none, 0)
  unfolding walk_events
  walk_nothing no_quote no_d = rw (no_quote, no_d) refl

  pub walk_first :
      nonzero g ≡ true
      → ltb (trailing_zeros g) (trailing_zeros qs) ≡ true
      → walk_events (suc fuel) b 0 pos di ≡ some (some (trailing_zeros g), 0)
  unfolding walk_events
  walk_first is_d less = elim (Bool-cases (nonzero qs)) [
    | inl e ↦ rw (is_d, e, less) refl
    | inr e ↦ rw (is_d, e) refl
  ]

  pub walk_opened :
      nonzero qs ≡ true
      → (nonzero g && ltb (trailing_zeros g) (trailing_zeros qs)) ≡ false
      → walk_events (suc fuel) b 0 pos di
        ≡ walk_events fuel b
            (get_or b.delims (quote_index_at b (trailing_zeros qs) b.quotes) 0)
            (suc (trailing_zeros qs))
            di
  unfolding walk_events
  walk_opened is_quote not_first = rw (is_quote, not_first) refl
