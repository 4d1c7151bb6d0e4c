-- ===== src/Masks/Quoted.antt =====
-- The reference for `next_unquoted`: a scan byte by byte with the quote that is inside, 0 for none.
use rypipe.Prelude.{
  ℕ, zero, suc, ◌+◌, ◌-◌, ◌≤◌, ◌<◌, ◌≡◌, refl, Bool, false, ◌&&◌, not, Option, none, some, Str,
  get_or, ◌==◌, if◌then◌else◌, arith, Bool-cases, inl, inr,
}
use rypipe.Masks.Scan.{scan}
use rypipe.Masks.Cache.{hit}
use rypipe.Masks.Any.{hits}

-- The open quote behind the byte at `i`.
unfoldable pub quote_after : Str → Str → ℕ → ℕ → ℕ
quote_after buf quotes q i =
    if q == 0
    then (if hits buf quotes i then get_or buf i 0 else 0)
    else if hit buf q i
    then 0
    else q

-- Whether the byte at `i` is `d`, and outside of quotes.
unfoldable pub is_outside : Str → Str → ℕ → ℕ → ℕ → Bool
is_outside buf quotes d q i = q == 0 && not (hits buf quotes i) && hit buf d i

-- The first `d` outside of quotes among `n` bytes from `i` on, and the quote that is open there.
unfoldable pub unquoted : Str → Str → ℕ → ℕ → ℕ → ℕ → Option ℕ × ℕ
unfolding quote_after is_outside
unquoted buf quotes d q i zero = (none, q)
unquoted buf quotes d q i (suc n) =
    let later = unquoted buf quotes d (quote_after buf quotes q i) (suc i) n in
    if is_outside buf quotes d q i then (some i, q) else later

scan_low : (p : ℕ → Bool) (i n k : ℕ) → scan p i n ≡ some k → i ≤ k
unfolding scan
scan_low p i zero k h = cc
scan_low p i (suc n) k h = elim (Bool-cases (p i)) [
  | inl here ↦ let e : some i ≡ some k = rw here at h in ground arith
  | inr later ↦ let l : suc i ≤ k = scan_low p (suc i) n k (rw later at h) in omega arith
]

module _ (buf quotes : Str) (d : ℕ) where
  -- No quote and no `d` comes: nothing is found.
  pub unquoted_nothing :
      (i n : ℕ)
      → scan (hit buf d) i n ≡ none
      → scan (hits buf quotes) i n ≡ none
      → unquoted buf quotes d 0 i n ≡ (none, 0)
  unfolding unquoted scan
  unquoted_nothing i zero no_d no_quote = refl
  unquoted_nothing i (suc n) no_d no_quote = elim (Bool-cases (hit buf d i)) [
    | inl x ↦ let bad : some i ≡ none = rw x at no_d in cc
    | inr x ↦ elim (Bool-cases (hits buf quotes i)) [
      | inl y ↦ let bad : some i ≡ none = rw y at no_quote in cc
      | inr y ↦ rw (x, y) (unquoted_nothing (suc i) n (rw x at no_d) (rw y at no_quote))
    ]
  ]

  -- A `d` comes before any quote.
  pub unquoted_found :
      (i n g : ℕ)
      → scan (hit buf d) i n ≡ some g
      → ((k : ℕ) → scan (hits buf quotes) i n ≡ some k → g < k)
      → unquoted buf quotes d 0 i n ≡ (some g, 0)
  unfolding unquoted scan
  unquoted_found i zero g at_g first = cc
  unquoted_found i (suc n) g at_g first = elim (Bool-cases (hits buf quotes i)) [
    | inl y ↦
        let early : g < i = first i (rw y refl) in
        let late : i ≤ g = scan_low (hit buf d) i (suc n) g at_g in absurd (omega arith)
    | inr y ↦ elim (Bool-cases (hit buf d i)) [
      | inl x ↦ let e : some i ≡ some g = rw x at at_g in rw (x, y) (cc)
      | inr x ↦ rw (x, y) (unquoted_found (suc i) n g (rw x at at_g) (λ k e. first k (rw y e)))
    ]
  ]

  -- A quote comes before any `d`.
  pub unquoted_opened :
      (i n k : ℕ)
      → scan (hits buf quotes) i n ≡ some k
      → ((g : ℕ) → scan (hit buf d) i n ≡ some g → k ≤ g)
      → unquoted buf quotes d 0 i n ≡ unquoted buf quotes d (get_or buf k 0) (suc k) (i + n - suc k)
  unfolding unquoted scan
  unquoted_opened i zero k at_k first = cc
  unquoted_opened i (suc n) k at_k first = elim (Bool-cases (hits buf quotes i)) [
    | inl y ↦
        let e : some i ≡ some k = rw y at at_k in
        let same : i ≡ k = ground arith in
        let left : k + suc n - suc k ≡ n = omega arith in rw (y, same, left) refl
    | inr y ↦
        let at_k' : scan (hits buf quotes) (suc i) n ≡ some k = rw y at at_k in
        let late : suc i ≤ k = scan_low (hits buf quotes) (suc i) n k at_k' in
        let left : i + suc n ≡ suc i + n = omega arith in
        elim (Bool-cases (hit buf d i)) [
          | inl x ↦ let early : k ≤ i = first i (rw x refl) in absurd (omega arith)
          | inr x ↦ rw (x, y, left) (unquoted_opened (suc i) n k at_k' (λ g e. first g (rw x e)))
        ]
  ]

  -- Inside a quote only its byte matters.
  pub unquoted_inside :
      (q i n : ℕ)
      → (q == 0) ≡ false
      → scan (hit buf q) i n ≡ none
      → unquoted buf quotes d q i n ≡ (none, q)
  unfolding unquoted scan
  unquoted_inside q i zero inside no_close = refl
  unquoted_inside q i (suc n) inside no_close = elim (Bool-cases (hit buf q i)) [
    | inl x ↦ let bad : some i ≡ none = rw x at no_close in cc
    | inr x ↦ rw (inside, x) (unquoted_inside q (suc i) n inside (rw x at no_close))
  ]

  pub unquoted_closed :
      (q i n k : ℕ)
      → (q == 0) ≡ false
      → scan (hit buf q) i n ≡ some k
      → unquoted buf quotes d q i n ≡ unquoted buf quotes d 0 (suc k) (i + n - suc k)
  unfolding unquoted scan
  unquoted_closed q i zero k inside at_k = cc
  unquoted_closed q i (suc n) k inside at_k = elim (Bool-cases (hit buf q i)) [
    | inl x ↦
        let e : some i ≡ some k = rw x at at_k in
        let same : i ≡ k = ground arith in
        let left : k + suc n - suc k ≡ n = omega arith in rw (inside, x, same, left) refl
    | inr x ↦
        let left : i + suc n ≡ suc i + n = omega arith in
        rw (inside, x, left) (unquoted_closed q (suc i) n k inside (rw x at at_k))
  ]
