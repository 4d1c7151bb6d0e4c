-- ===== src/Split/Boundaries/Records.antt =====
-- `find_next_record_boundary` of decoder.rs gives the end of the record that the reading by lines
-- gives.
use rypipe.Prelude.{
  ℕ, zero, suc, ◌+◌, ◌≡◌, ◌≤◌, refl, sym, ap, ◌∙◌, Bool, true, false, ◌&&◌, none, List, [], ◌∷◌,
  ◌++◌, Str, length, drop, leb, ◌==◌, ==_iff, arith, Bool-cases, inl, inr,
}
use rypipe.Split.Boundaries.{Memchr, Separation, is_boundary, find_next_record_boundary}
use rypipe.Split.Boundaries.Scan.{index_of, scan, find_next_record_boundary-scan}
use rypipe.Split.Boundaries.Back.{onto, last_index_of, joined, NoNewline}
use rypipe.Split.Boundaries.Lines.{closes, by_lines, head, NotNewline}
use rypipe.Split.Boundaries.Decided.{AllLines, is_boundary-closes}

module _ (from : ℕ) (boundary : ℕ → Bool) where
  abbrev from_on : ℕ → Bool
  from_on p = leb from p && boundary p

  scan-from_on :
      (rest : Str) (pos : ℕ) → from ≤ pos → scan from_on rest pos ≡ scan boundary rest pos
  unfolding scan
  scan-from_on [] pos h = refl
  scan-from_on (c ∷ rest) pos h =
      let reached : leb from pos ≡ true = ground (arith, h) in
      rw (reached, scan-from_on rest (pos + 1) (omega (arith, h))) refl

  scan-drop :
      (rest : Str) (pos n : ℕ)
      → from ≡ pos + n
      → scan from_on rest pos ≡ scan boundary (drop n rest) from
  unfolding scan
  scan-drop rest pos zero h =
      let same : pos ≡ from = omega (arith, h) in
      scan-from_on rest pos (omega (arith, h)) ∙ ap (scan boundary rest) same
  scan-drop [] pos (suc n) h = refl
  scan-drop (c ∷ rest) pos (suc n) h =
      let later : leb from pos ≡ false = ground (arith, h) in
      let one : from ≡ pos + 1 + n = omega (arith, h) in
      rw (later, scan-drop rest (pos + 1) n one) (ground arith)

module _ (m : Memchr) (o : Separation) (bytes : Str) (from : ℕ)
    (finds_last : (s : Str) → m.memrchr b'\n' s ≡ last_index_of b'\n' s)
    (apart : NotNewline o.continuation) where
  by_lines-scan :
      (rest line : Str) (lines : List Str)
      → NoNewline line
      → AllLines lines
      → bytes ≡ onto (line ++ joined lines) rest
      → by_lines o from (head lines) line rest (length (line ++ joined lines))
        ≡ scan (from_on from (is_boundary m o bytes)) rest (length (line ++ joined lines))
  unfolding by_lines scan
  by_lines-scan [] line lines n all e = refl
  by_lines-scan (c ∷ rest) line lines n all e = elim (Bool-cases (c == b'\n')) [
    | inl newline ↦
        let pos : ℕ = length (line ++ joined lines) in
        let same : c ≡ b'\n' = (==_iff c b'\n').0 newline in
        let e' : bytes ≡ onto (line ++ joined lines) (b'\n' ∷ rest) =
          e ∙ ap (λ x. onto (line ++ joined lines) (x ∷ rest)) same in
        let ends : is_boundary m o bytes pos ≡ closes o (head lines) line =
          ap (λ b. is_boundary m o b pos) e'
          ∙ is_boundary-closes m o finds_last apart line lines rest n all in
        let on : pos + 1 ≡ suc pos = omega arith in
        rw (newline, ends, on, by_lines-scan rest [] (line ∷ lines) tt (n, all) e') refl
    | inr other ↦
        let on : length (line ++ joined lines) + 1 ≡ suc (length (line ++ joined lines)) =
          omega arith in
        rw (other, on, by_lines-scan rest (c ∷ line) lines (other, n) all e) refl
  ]

  -- If `memchr` and `memrchr` find the first and the last newline, and the continuation character,
  -- if there is one, is not the newline, then `find_next_record_boundary` gives the position
  -- behind the first line that ends at or after `from` and with which a record ends, and nothing
  -- if there is none: it is what reading the input by lines from its start gives.
  pub find_next_record_boundary-by_lines :
      ((s : Str) → m.memchr b'\n' s ≡ index_of b'\n' s)
      → find_next_record_boundary m o bytes from ≡ by_lines o from none [] bytes 0
  find_next_record_boundary-by_lines finds =
      find_next_record_boundary-scan m o bytes from finds
      ∙ sym (scan-drop from (is_boundary m o bytes) bytes 0 from (omega arith))
      ∙ sym (by_lines-scan bytes [] [] tt tt refl)
