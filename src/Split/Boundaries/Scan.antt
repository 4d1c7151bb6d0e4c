-- ===== src/Split/Boundaries/Scan.antt =====
-- `find_next_record_boundary` gives the first newline that is a boundary.
use rypipe.Prelude.{
  drop_again, ℕ, zero, suc, ◌+◌, ◌≤◌, ◌<◌, ◌≡◌, refl, sym, ◌∙◌, Bool, true, false, ◌&&◌, not,
  Option, none, some, [], ◌∷◌, Str, length, drop, ltb, leb, ◌==◌, if◌then◌else◌, arith, Bool-cases,
  Option-cases, inl, inr, leb→le,
}
use rypipe.Split.Boundaries.{
  Memchr, Separation, is_boundary, next_boundary, find_next_record_boundary, is_plain, is_empty,
  continued,
}

abbrev pub next : Option ℕ → Option ℕ
next none = none
next (some i) = some (i + 1)

-- The first index of a byte: what `memchr` is documented to return.
unfoldable pub index_of : ℕ → Str → Option ℕ
index_of b [] = none
index_of b (c ∷ s) = let rest = index_of b s in if c == b then some 0 else next rest

-- The position after the first newline in `rest` that is a boundary; `rest` starts at `pos`.
unfoldable pub scan : (boundary : ℕ → Bool) → (rest : Str) → (pos : ℕ) → Option ℕ
scan boundary [] pos = none
scan boundary (c ∷ rest) pos =
    let later = scan boundary rest (pos + 1) in
    if c == b'\n' then (if boundary pos then some (pos + 1) else later) else later

module _ (boundary : ℕ → Bool) where
  -- The scan, from the first newline on.
  resume : Str → ℕ → Option ℕ → Option ℕ
  resume rest pos none = none
  resume rest pos (some rel) =
      if boundary (pos + rel)
      then some (pos + rel + 1)
      else scan boundary (drop (rel + 1) rest) (pos + rel + 1)

  resume-next :
      (c : ℕ) (rest : Str) (pos : ℕ) (o : Option ℕ)
      → resume rest (pos + 1) o ≡ resume (c ∷ rest) pos (next o)
  unfolding resume
  resume-next c rest pos none = refl
  resume-next c rest pos (some i) =
      let on : pos + (i + 1) ≡ pos + 1 + i = omega arith in
      let one_more : i + 1 + 1 ≡ suc (i + 1) = omega arith in rw (on, one_more) refl

  scan_from_newline :
      (rest : Str) (pos : ℕ) → scan boundary rest pos ≡ resume rest pos (index_of b'\n' rest)
  unfolding scan resume index_of
  scan_from_newline [] pos = refl
  scan_from_newline (c ∷ rest) pos = elim (Bool-cases (c == b'\n')) [
    | inl newline ↦
        let here : pos + 0 ≡ pos = omega arith in
        let one : 0 + 1 ≡ suc 0 = omega arith in rw (newline, here, one) refl
    | inr other ↦
        rw other (scan_from_newline rest (pos + 1) ∙ resume-next c rest pos (index_of b'\n' rest))
  ]

drop_past : (n : ℕ) (xs : Str) → length xs ≤ n → drop n xs ≡ []
drop_past zero [] h = refl
drop_past (suc n) [] h = refl
drop_past zero (x ∷ xs) h = ground arith
drop_past (suc n) (x ∷ xs) h = drop_past n xs (omega arith)

module _ (m : Memchr) (o : Separation) (bytes : Str) where
  -- With a round for each byte left and one more, the loop gives what the scan gives.
  next_boundary-scan :
      (fuel pos : ℕ)
      → ((s : Str) → m.memchr b'\n' s ≡ index_of b'\n' s)
      → length bytes < fuel + pos
      → next_boundary m o bytes fuel pos ≡ scan (is_boundary m o bytes) (drop pos bytes) pos
  unfolding next_boundary scan resume
  next_boundary-scan zero pos finds enough = rw (drop_past pos bytes (omega arith)) refl
  next_boundary-scan (suc fuel) pos finds enough = elim (Bool-cases (leb (length bytes) pos)) [
    | inl past ↦ rw (past, drop_past pos bytes (leb→le (length bytes) pos past)) refl
    | inr within ↦
        rw
          (
            within,
            finds (drop pos bytes),
            scan_from_newline (is_boundary m o bytes) (drop pos bytes) pos,
          )
          (elim (Option-cases (index_of b'\n' (drop pos bytes))) [
            | inl nothing ↦ rw nothing refl
            | inr (rel, found) ↦
                let order : pos + (rel + 1) ≡ pos + rel + 1 = omega arith in
                let left : drop (rel + 1) (drop pos bytes) ≡ drop (pos + rel + 1) bytes =
                  rw order at (drop_again pos (rel + 1) bytes) in
                rw (found, next_boundary-scan fuel (pos + rel + 1) finds (omega arith), left) refl
          ])
  ]

  both_true : (a b : Bool) → (a && not b) ≡ true → (a ≡ true) × (b ≡ false)
  both_true true false e = (refl, refl)
  both_true true true e = (refl, sym e)
  both_true false b e = cc

  -- Without any rule every newline is a boundary.
  plain_boundary :
      (nl_pos : ℕ) → is_plain m o bytes o.continuation ≡ true → is_boundary m o bytes nl_pos ≡ true
  unfolding is_boundary continued
  plain_boundary nl_pos plain = elim (Option-cases o.continuation) [
    | inl none_set ↦
        let both : (is_empty o.comment_prefixes && not o.blank_line_mode) ≡ true =
          rw none_set at plain in
        let (no_comments, line_mode) =
          both_true (is_empty o.comment_prefixes) o.blank_line_mode both in
        let goes_on : continued m o bytes nl_pos ≡ false = rw (none_set, continued) refl in
        rw (goes_on, line_mode, no_comments) refl
    | inr (c, set) ↦ let impossible : false ≡ true = rw set at plain in cc
  ]

  plain_search :
      (from : ℕ)
      → ((s : Str) → m.memchr b'\n' s ≡ index_of b'\n' s)
      → is_plain m o bytes o.continuation ≡ true
      → (if ltb (length bytes) from then none else elim (m.memchr b'\n' (drop from bytes)) [
        | none ↦ none
        | some offset ↦ some (from + offset + 1)
      ])
        ≡ scan (is_boundary m o bytes) (drop from bytes) from
  unfolding resume scan
  plain_search from finds plain = elim (Bool-cases (ltb (length bytes) from)) [
    | inl past ↦ rw (past, drop_past from bytes (ground (arith, past))) refl
    | inr within ↦
        rw
          (
            within,
            finds (drop from bytes),
            scan_from_newline (is_boundary m o bytes) (drop from bytes) from,
          )
          (elim (Option-cases (index_of b'\n' (drop from bytes))) [
            | inl nothing ↦ rw nothing refl
            | inr (rel, found) ↦ rw (found, plain_boundary (from + rel) plain) refl
          ])
  ]

  -- If `memchr` finds the first newline, `find_next_record_boundary` gives the position after the
  -- first newline at or after `from` that is a boundary, and nothing if there is none: the plain
  -- search and the loop agree with a scan byte by byte.
  pub find_next_record_boundary-scan :
      (from : ℕ)
      → ((s : Str) → m.memchr b'\n' s ≡ index_of b'\n' s)
      → find_next_record_boundary m o bytes from
        ≡ scan (is_boundary m o bytes) (drop from bytes) from
  unfolding find_next_record_boundary
  find_next_record_boundary-scan from finds =
      elim (Bool-cases (is_plain m o bytes o.continuation)) [
        | inl plain ↦ rw plain (plain_search from finds plain)
        | inr other ↦ rw other (next_boundary-scan (length bytes + 1) from finds (omega arith))
      ]
