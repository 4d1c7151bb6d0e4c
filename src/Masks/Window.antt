-- ===== src/Masks/Window.antt =====
-- The scan byte by byte, in parts.
use rypipe.Prelude.{
  ℕ, zero, suc, ◌+◌, ◌-◌, ◌≤◌, ◌<◌, ◌≡◌, refl, sym, ap, ◌∙◌, true, Option, none, some, [], ◌∷◌, Str,
  get_or, length, leb, ◌==◌, arith, Bool-cases, inl, inr,
}
use mathlib.Core.Path.{fun_ext}
use rypipe.Masks.Cache.{hit, hit_past, IsDelim}
use rypipe.Masks.Any.{hits, hits-EndsAt, hit_byte, AreDelims}
use rypipe.Masks.Quoted.{quote_after, is_outside, unquoted}
use rypipe.Masks.Shown.{IsActive}

-- A scan in two parts: where the first finds nothing the second goes on with its quote.
abbrev pub then_scan : (ℕ → Option ℕ × ℕ) → Option ℕ × ℕ → Option ℕ × ℕ
then_scan rest (none, q) = rest q
then_scan rest (some i, q) = (some i, q)

abbrev nothing : ℕ → Option ℕ × ℕ
nothing q = (none, q)

module _ (buf quotes : Str) (d : ℕ) where
  unquoted-append :
      (q i n k : ℕ)
      → unquoted buf quotes d q i (n + k)
        ≡ then_scan (λ r. unquoted buf quotes d r (i + n) k) (unquoted buf quotes d q i n)
  unfolding unquoted
  unquoted-append q i zero k =
      let a : 0 + k ≡ k = omega arith in let c : i + 0 ≡ i = omega arith in rw (a, c) refl
  unquoted-append q i (suc n) k =
      let a : suc n + k ≡ suc (n + k) = omega arith in
      let c : i + suc n ≡ suc i + n = omega arith in
      rw (a, c)
        (elim (Bool-cases (is_outside buf quotes d q i)) [
          | inl here ↦ rw here refl
          | inr later ↦ rw later (unquoted-append (quote_after buf quotes q i) (suc i) n k)
        ])

  -- Past the end nothing is found, and the quote stays.
  pub unquoted_past : (q i n : ℕ) → length buf ≤ i → unquoted buf quotes d q i n ≡ (none, q)
  unfolding unquoted is_outside quote_after
  unquoted_past q i zero h = refl
  unquoted_past q i (suc n) h =
      let no_d = hit_past buf d i h in
      let no_close = hit_past buf q i h in
      let no_quote = hits-EndsAt buf quotes i h in
      let rest = unquoted_past q (suc i) n (omega arith) in
      elim (Bool-cases (q == 0)) [
        | inl e ↦ let z : q ≡ 0 = ground arith in rw (no_d, no_quote, z) (rw z at rest)
        | inr e ↦ rw (e, no_close) rest
      ]

  pub unquoted_below : (q i n p : ℕ) → (unquoted buf quotes d q i n).0 ≡ some p → p < i + n
  unfolding unquoted
  unquoted_below q i zero p h = cc
  unquoted_below q i (suc n) p h = elim (Bool-cases (is_outside buf quotes d q i)) [
    | inl here ↦ let e : some i ≡ some p = rw here at h in ground arith
    | inr later ↦
        let below = unquoted_below (quote_after buf quotes q i) (suc i) n p (rw later at h) in
        omega arith
  ]

  then_scan-nothing : (r : Option ℕ × ℕ) → then_scan nothing r ≡ r
  then_scan-nothing (none, q) = refl
  then_scan-nothing (some i, q) = refl

  -- The scan up to the end is that of the next `w` bytes, then that of the rest.
  pub unquoted_window :
      (q i w : ℕ)
      → unquoted buf quotes d q i (length buf - i)
        ≡ then_scan
            (λ r. unquoted buf quotes d r (i + w) (length buf - (i + w)))
            (unquoted buf quotes d q i w)
  unquoted_window q i w = elim (Bool-cases (leb (i + w) (length buf))) [
    | inl within ↦
        let parts : length buf - i ≡ w + (length buf - (i + w)) = ground arith in
        ap (unquoted buf quotes d q i) parts ∙ unquoted-append q i w (length buf - (i + w))
    | inr over ↦
        let parts : w ≡ (length buf - i) + (w - (length buf - i)) = ground arith in
        let tail : (λ (r : ℕ).
          unquoted buf quotes d r (i + (length buf - i)) (w - (length buf - i)))
            ≡ nothing =
          fun_ext
            (λ r. unquoted_past r (i + (length buf - i)) (w - (length buf - i)) (omega arith)) in
        let rest : (λ (r : ℕ). unquoted buf quotes d r (i + w) (length buf - (i + w))) ≡ nothing =
          fun_ext (λ r. unquoted_past r (i + w) (length buf - (i + w)) (ground arith)) in
        let short : unquoted buf quotes d q i w ≡ unquoted buf quotes d q i (length buf - i) =
          ap (unquoted buf quotes d q i) parts
          ∙ unquoted-append q i (length buf - i) (w - (length buf - i))
          ∙ ap (λ f. then_scan f (unquoted buf quotes d q i (length buf - i))) tail
          ∙ then_scan-nothing (unquoted buf quotes d q i (length buf - i)) in
        sym (
          ap (λ f. then_scan f (unquoted buf quotes d q i w)) rest
          ∙ then_scan-nothing (unquoted buf quotes d q i w)
          ∙ short)
  ]

  hits-IsDelim :
      (delims qs : Str) (i : ℕ)
      → AreDelims delims qs
      → hits buf qs i ≡ true
      → IsDelim delims (get_or buf i 0)
  unfolding hits
  hits-IsDelim delims [] i k h = cc
  hits-IsDelim delims (q ∷ qs) i k h = elim (Bool-cases (hit buf q i)) [
    | inl here ↦ rw (hit_byte buf q i here) k.0
    | inr there ↦ hits-IsDelim delims qs i k.1 (rw there at h)
  ]

  quote_after-IsActive :
      (delims : Str)
      → AreDelims delims quotes
      → (q i : ℕ) → IsActive delims q
      → IsActive delims (quote_after buf quotes q i)
  unfolding quote_after
  quote_after-IsActive delims known q i active = elim (Bool-cases (q == 0)) [
    | inl outside ↦ elim (Bool-cases (hits buf quotes i)) [
      | inl opens ↦ rw (outside, opens) (λ h. hits-IsDelim delims quotes i known opens)
      | inr other ↦ rw (outside, other) (λ h. cc)
    ]
    | inr inside ↦ elim (Bool-cases (hit buf q i)) [
      | inl closes ↦ rw (inside, closes) (λ h. cc)
      | inr other ↦ rw (inside, other) active
    ]
  ]

  -- An open quote is a delimiter.
  pub unquoted-IsActive :
      (delims : Str)
      → AreDelims delims quotes
      → (q i n : ℕ) → IsActive delims q
      → IsActive delims (unquoted buf quotes d q i n).1
  unfolding unquoted quote_after
  unquoted-IsActive delims known q i zero active = active
  unquoted-IsActive delims known q i (suc n) active =
      elim (Bool-cases (is_outside buf quotes d q i)) [
        | inl here ↦ rw here active
        | inr later ↦ rw later (
            unquoted-IsActive delims known (quote_after buf quotes q i) (suc i) n
              (quote_after-IsActive delims known q i active))
      ]
