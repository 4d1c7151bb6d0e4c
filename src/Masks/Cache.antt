-- ===== src/Masks/Cache.antt =====
-- The cache of masks holds the positions of the delimiters in the block at `base`.
use rypipe.Prelude.{
  ℕ, zero, suc, ◌+◌, ◌-◌, ◌≤◌, ◌<◌, ◌≡◌, refl, Bool, true, false, none, some, [], ◌∷◌, Str,
  get_elem?, get_or, length, drop, take, leb, ltb, ◌==◌, arith, Bool-cases, inl, inr,
}
use rypipe.Masks.{Mask, BlockMasks, mask64, position, same_bits, compute_one}

-- Whether the byte at `i` is there and is `d`.
unfoldable pub hit : Str → ℕ → ℕ → Bool
hit buf d i = elim (get_elem? buf i) [ none ↦ false | some c ↦ c == d ]

-- A byte is one of the delimiters.
abbrev pub IsDelim : Str → ℕ → Type 0
IsDelim delims d = position delims d < length delims

pub get_or-position :
    (delims : Str) (d : ℕ) → IsDelim delims d → get_or delims (position delims d) 0 ≡ d
unfolding position
get_or-position [] d h = absurd (omega arith)
get_or-position (c ∷ s) d h = elim (Bool-cases (c == d)) [
  | inl here ↦ rw here (ground arith)
  | inr there ↦ let h' : position s d < length s = ground arith in rw there (get_or-position s d h')
]

pub hit_past : (buf : Str) (d i : ℕ) → length buf ≤ i → hit buf d i ≡ false
unfolding hit
hit_past [] d i h = refl
hit_past (c ∷ s) d zero h = absurd (omega arith)
hit_past (c ∷ s) d (suc i) h = hit_past s d i (omega arith)

pub hit_within : (buf : Str) (d i : ℕ) → i < length buf → hit buf d i ≡ (get_or buf i 0 == d)
unfolding hit
hit_within [] d i h = absurd (omega arith)
hit_within (c ∷ s) d zero h = refl
hit_within (c ∷ s) d (suc i) h = hit_within s d i (omega arith)

get_or-drop : (buf : Str) (n j : ℕ) → get_or (drop n buf) j 0 ≡ get_or buf (n + j) 0
get_or-drop buf zero j = let e : 0 + j ≡ j = omega arith in rw e refl
get_or-drop [] (suc n) j = refl
get_or-drop (c ∷ s) (suc n) j =
    let e : suc n + j ≡ suc (n + j) = omega arith in rw e (get_or-drop s n j)

get_or-take : (buf : Str) (n j : ℕ) → j < n → get_or (take n buf) j 0 ≡ get_or buf j 0
get_or-take buf zero j h = absurd (omega arith)
get_or-take [] (suc n) j h = refl
get_or-take (c ∷ s) (suc n) zero h = refl
get_or-take (c ∷ s) (suc n) (suc j) h = get_or-take s n j (omega arith)

-- The mask of a delimiter, also in the tail of the buffer.
pub compute_one-hit :
    (b : BlockMasks) (d j : ℕ) → j < 64 → compute_one b d j ≡ hit b.buf d (b.base + j)
unfolding compute_one mask64
compute_one-hit b d j h = elim (Bool-cases (leb (b.base + 64) (length b.buf))) [
  | inl whole ↦
      rw (whole, hit_within b.buf d (b.base + j) (ground arith), get_or-drop b.buf b.base j) refl
  | inr tail ↦ elim (Bool-cases (length b.buf - b.base == 0)) [
    | inl nothing ↦ rw (tail, nothing, hit_past b.buf d (b.base + j) (ground arith)) refl
    | inr some_left ↦ elim (Bool-cases (ltb j (length b.buf - b.base))) [
      | inl within ↦
          rw
            (
              tail,
              some_left,
              within,
              hit_within b.buf d (b.base + j) (ground arith),
              get_or-take (drop b.base b.buf) (length b.buf - b.base) j (ground arith),
              get_or-drop b.buf b.base j,
            )
            (ground arith)
      | inr past ↦
          rw (tail, some_left, past, hit_past b.buf d (b.base + j) (ground arith)) (ground arith)
    ]
  ]
]

pub same_bits_at : (a c : Mask) (n i : ℕ) → same_bits a c n ≡ true → i < n → a i ≡ c i
unfolding same_bits
same_bits_at a c zero i h l = absurd (omega arith)
same_bits_at a c (suc n) i h l = elim (Bool-cases (i == n)) [
  | inl here ↦ let e : i ≡ n = ground arith in rw e (ground arith)
  | inr before ↦ same_bits_at a c n i (ground arith) (ground arith)
]

module _ (buf delims quotes : Str) where
  -- A mask is that of `d` in the block at `base`.
  abbrev pub Shows : Mask → ℕ → ℕ → Type 0
  Shows m base d = (j : ℕ) → j < 64 → m j ≡ hit buf d (base + j)

  pub record IsCache (b : BlockMasks) : Type 0 where
    pub buffer : b.buf ≡ buf
    pub delimiters : b.delims ≡ delims
    pub quoting : b.quotes ≡ quotes
    pub fresh : (i : ℕ) → b.computed i ≡ true → Shows (b.masks i) b.base (get_or delims i 0)
