-- ===== src/Masks/Scan.antt =====
-- A search byte by byte, and the search by masks: the first set bit of a mask that has a bit of a
-- window of positions for each position that passes the test.
use rypipe.Prelude.{
  ap, ℕ, zero, suc, ◌+◌, ◌-◌, ◌≤◌, ◌<◌, ◌≡◌, refl, sym, ◌∙◌, Bool, true, false, Option, none, some,
  leb, if◌then◌else◌, arith, Bool-cases, inl, inr,
}
use rypipe.Masks.{Mask, any_set, first_set, from_mask, mask_and}

-- The first of `n` positions from `i` on that passes a test.
unfoldable pub scan : (ℕ → Bool) → ℕ → ℕ → Option ℕ
scan p i zero = none
scan p i (suc n) = let later = scan p (suc i) n in if p i then some i else later

abbrev pub or_else {ℓ} : {A : Type ℓ} → Option A → Option A → Option A
or_else none b = b
or_else (some a) b = some a

abbrev pub above : ℕ → Option ℕ → Option ℕ
above base none = none
above base (some i) = some (base + i)

pub scan-mask :
    (m : Mask) (i n : ℕ) → scan m i n ≡ (if any_set m i n then some (first_set m i n) else none)
unfolding scan any_set first_set
scan-mask m i zero = refl
scan-mask m i (suc n) = elim (Bool-cases (m i)) [
  | inl hit ↦ rw hit refl
  | inr miss ↦ rw miss (scan-mask m (suc i) n)
]

pub scan-agree :
    (p q : ℕ → Bool) (i n : ℕ) → ((j : ℕ) → i ≤ j → j < i + n → p j ≡ q j) → scan p i n ≡ scan q i n
unfolding scan
scan-agree p q i zero h = refl
scan-agree p q i (suc n) h =
    let rest : scan p (suc i) n ≡ scan q (suc i) n =
      scan-agree p q (suc i) n (λ j a b. h j (omega arith) (omega arith)) in
    rw (h i (omega arith) (omega arith), rest) refl

pub scan_nothing :
    (p : ℕ → Bool) (i n : ℕ) → ((j : ℕ) → i ≤ j → j < i + n → p j ≡ false) → scan p i n ≡ none
unfolding scan
scan_nothing p i zero h = refl
scan_nothing p i (suc n) h =
    rw (h i (omega arith) (omega arith))
      (scan_nothing p (suc i) n (λ j a b. h j (omega arith) (omega arith)))

pub scan-append :
    (p : ℕ → Bool) (i n k : ℕ) → scan p i (n + k) ≡ or_else (scan p i n) (scan p (i + n) k)
unfolding scan
scan-append p i zero k =
    let a : 0 + k ≡ k = omega arith in let b : i + 0 ≡ i = omega arith in rw (a, b) refl
scan-append p i (suc n) k =
    let a : suc n + k ≡ suc (n + k) = omega arith in
    let b : i + suc n ≡ suc i + n = omega arith in
    rw (a, b)
      (elim (Bool-cases (p i)) [
        | inl hit ↦ rw hit refl
        | inr miss ↦ rw miss (scan-append p (suc i) n k)
      ])

pub scan-above :
    (p : ℕ → Bool) (base i n : ℕ) → above base (scan (λ j. p (base + j)) i n) ≡ scan p (base + i) n
unfolding scan
scan-above p base i zero = refl
scan-above p base i (suc n) =
    let next : suc (base + i) ≡ base + suc i = omega arith in
    elim (Bool-cases (p (base + i))) [
      | inl hit ↦ rw hit refl
      | inr miss ↦ rw (miss, next) (scan-above p base (suc i) n)
    ]

skip_here :
    (m : Mask) (i o n : ℕ)
    → i + n ≡ 64
    → i ≡ o
    → scan (mask_and m (from_mask o)) i n ≡ scan m o (64 - o)
skip_here m i o n e same =
    let left : n ≡ 64 - o = omega arith in
    let all : scan (mask_and m (from_mask o)) i n ≡ scan m i n =
      scan-agree (mask_and m (from_mask o)) m i n (λ j a b. ground arith) in
    cc

-- The bits before `o` of a mask are skipped.
skip :
    (m : Mask) (i o n : ℕ)
    → i + n ≡ 64
    → i ≤ o
    → o ≤ 64
    → scan (mask_and m (from_mask o)) i n ≡ scan m o (64 - o)
unfolding scan
skip m i o zero e l h = let none_left : 64 - o ≡ 0 = omega arith in rw none_left refl
skip m i o (suc n) e l h = elim (Bool-cases (leb o i)) [
  | inl here ↦ skip_here m i o (suc n) e (ground arith)
  | inr before ↦
      let miss : mask_and m (from_mask o) i ≡ false = ground arith in
      rw miss (skip m (suc i) o n (omega arith) (ground arith) h)
]

above_if :
    (base i : ℕ) (t : Bool)
    → above base (if t then some i else none) ≡ (if t then some (base + i) else none)
above_if base i true = refl
above_if base i false = refl

-- What the first set bit at or after `o` says of the positions from `base + o` on.
pub block_scan :
    (p : ℕ → Bool) (m : Mask) (base o : ℕ)
    → ((j : ℕ) → j < 64 → m j ≡ p (base + j))
    → o ≤ 64
    → (if any_set (mask_and m (from_mask o)) 0 64
        then some (base + first_set (mask_and m (from_mask o)) 0 64)
        else none)
      ≡ scan p (base + o) (64 - o)
block_scan p m base o h small =
    let m' : Mask = mask_and m (from_mask o) in
    let agree : scan m o (64 - o) ≡ scan (λ j. p (base + j)) o (64 - o) =
      scan-agree m (λ j. p (base + j)) o (64 - o) (λ j a b. h j (omega arith)) in
    let bits : scan m' 0 64 ≡ scan (λ j. p (base + j)) o (64 - o) =
      skip m 0 o 64 (omega arith) (omega arith) small ∙ agree in
    let moved : above base (scan m' 0 64) ≡ scan p (base + o) (64 - o) =
      rw bits (scan-above p base o (64 - o)) in
    sym (above_if base (first_set m' 0 64) (any_set m' 0 64)) ∙ rw (scan-mask m' 0 64) at moved

-- A test that fails past the end.
abbrev pub EndsAt : (ℕ → Bool) → ℕ → Type 0
EndsAt p len = (i : ℕ) → len ≤ i → p i ≡ false

or_else_nothing : (o : Option ℕ) → or_else o none ≡ o
or_else_nothing none = refl
or_else_nothing (some i) = refl

-- The search up to the end is that of the next `w` positions, then that of the rest.
pub scan_window :
    (p : ℕ → Bool) (len i w : ℕ)
    → EndsAt p len
    → scan p i (len - i) ≡ or_else (scan p i w) (scan p (i + w) (len - (i + w)))
scan_window p len i w ends = elim (Bool-cases (leb (i + w) len)) [
  | inl within ↦
      let parts : len - i ≡ w + (len - (i + w)) = ground arith in
      rw parts (scan-append p i w (len - (i + w)))
  | inr over ↦
      let nothing : scan p (i + w) (len - (i + w)) ≡ none =
        scan_nothing p (i + w) (len - (i + w)) (λ j a b. ends j (ground arith)) in
      let parts : w ≡ (len - i) + (w - (len - i)) = ground arith in
      let tail : scan p (i + (len - i)) (w - (len - i)) ≡ none =
        scan_nothing p (i + (len - i)) (w - (len - i)) (λ j a b. ends j (omega arith)) in
      let first : scan p i w ≡ scan p i (len - i) =
        ap (scan p i) parts
        ∙ scan-append p i (len - i) (w - (len - i))
        ∙ rw tail (or_else_nothing (scan p i (len - i))) in
      rw (nothing, first) (sym (or_else_nothing (scan p i (len - i))))
]
