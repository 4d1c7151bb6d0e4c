-- ===== src/Split/Boundaries/Decided.antt =====
-- The body of the loop of `find_next_record_boundary` (decoder.rs) takes a newline for a boundary
-- exactly where a record ends with its line.
use rypipe.Prelude.{
  ◌-◌, ◌≡◌, refl, ap, ◌∙◌, true, false, ◌&&◌, not, List, [], ◌∷◌, ◌++◌, Str, length, arith,
  Bool-cases, inl, inr,
}
use rypipe.Split.Boundaries.{Memchr, Separation, is_empty, line_end, is_boundary}
use rypipe.Split.Boundaries.Back.{
  onto, last_index_of, without_cr, goes_on, joined, NoNewline, line_end-onto,
}
use rypipe.Split.Boundaries.Lines.{
  is_comment, is_blank, closes, head, NotNewline, without_cr-joined,
}
use rypipe.Split.Boundaries.Closes.{
  is_comment-empty, goes_on-is_blank, no_bytes, continued_line, continued-before, end_test,
  ends_record_line, ends_record_next,
}

-- The end of a blank line is right behind the newline of the line before.
blank_end :
    (line l : Str) (lines : List Str) (rest : Str)
    → is_blank line ≡ true
    → line_end (onto (line ++ joined (l ∷ lines)) rest) (length (line ++ joined (l ∷ lines))) - 1
      ≡ length (l ++ joined lines)
unfolding is_blank
blank_end line l lines rest blank =
    let e : without_cr line ≡ [] = no_bytes (without_cr line) blank in
    ap (λ n. n - 1)
      (line_end-onto (line ++ joined (l ∷ lines)) rest
        ∙ ap length (without_cr-joined line (l ∷ lines) ∙ ap (λ s. s ++ joined (l ∷ lines)) e))
    ∙ omega arith

abbrev pub AllLines : List Str → Type 0
AllLines [] = Unit {0}
AllLines (line ∷ lines) = NoNewline line × AllLines lines

module _ (m : Memchr) (o : Separation)
    (finds : (s : Str) → m.memrchr b'\n' s ≡ last_index_of b'\n' s)
    (apart : NotNewline o.continuation) where
  in_line_mode :
      (line : Str) (lines : List Str) (rest : Str)
      → NoNewline line
      → o.blank_line_mode ≡ false
      → is_boundary m o (onto (line ++ joined lines) (b'\n' ∷ rest)) (length (line ++ joined lines))
        ≡ (not (is_comment o.comment_prefixes line) && not (goes_on o.continuation line))
  unfolding is_boundary
  in_line_mode line lines rest n mode =
      rw
        (
          continued_line m o finds apart line lines rest,
          ends_record_line m o finds apart line lines (b'\n' ∷ rest) n mode,
          mode,
        )
        (elim (Bool-cases (is_empty o.comment_prefixes)) [
          | inl none_set ↦
              rw (none_set, is_comment-empty o.comment_prefixes line none_set) (ground arith)
          | inr some_set ↦ rw some_set (ground arith)
        ])

  at_the_first :
      (line rest : Str)
      → NoNewline line
      → o.blank_line_mode ≡ true
      → is_boundary m o (onto (line ++ []) (b'\n' ∷ rest)) (length (line ++ [])) ≡ false
  unfolding is_boundary
  at_the_first line rest n mode =
      rw (end_test m o finds apart line [] (b'\n' ∷ rest) n, mode) (ground arith)

  after_a_line :
      (line l : Str) (lines : List Str) (rest : Str)
      → NoNewline line
      → NoNewline l
      → o.blank_line_mode ≡ true
      → is_boundary m o
          (onto (line ++ joined (l ∷ lines)) (b'\n' ∷ rest))
          (length (line ++ joined (l ∷ lines)))
        ≡ (is_blank line
            && not (is_comment o.comment_prefixes line)
            && not (is_comment o.comment_prefixes l)
            && not (goes_on o.continuation l))
  unfolding is_boundary
  after_a_line line l lines rest n n' mode = elim (Bool-cases (is_blank line)) [
    | inr text ↦
        rw (end_test m o finds apart line (l ∷ lines) (b'\n' ∷ rest) n, text, mode) (ground arith)
    | inl blank ↦
        rw
          (
            continued_line m o finds apart line (l ∷ lines) rest,
            end_test m o finds apart line (l ∷ lines) (b'\n' ∷ rest) n,
            blank_end line l lines (b'\n' ∷ rest) blank,
            continued-before m o finds apart line l lines rest n n',
            ends_record_next m o finds apart line l lines rest n n' mode,
            blank,
            goes_on-is_blank o.continuation line blank,
            mode,
          )
          (elim (Bool-cases (is_empty o.comment_prefixes)) [
            | inl none_set ↦
                rw
                  (
                    none_set,
                    is_comment-empty o.comment_prefixes line none_set,
                    is_comment-empty o.comment_prefixes l none_set,
                  )
                  (ground arith)
            | inr some_set ↦ rw some_set (ground arith)
          ])
  ]

  -- The newline behind the line `line` of the input is a boundary where the line ends a record.
  pub is_boundary-closes :
      (line : Str) (lines : List Str) (rest : Str)
      → NoNewline line
      → AllLines lines
      → is_boundary m o (onto (line ++ joined lines) (b'\n' ∷ rest)) (length (line ++ joined lines))
        ≡ closes o (head lines) line
  unfolding closes
  is_boundary-closes line [] rest n all = elim (Bool-cases o.blank_line_mode) [
    | inl mode ↦ rw (at_the_first line rest n mode, mode) refl
    | inr mode ↦ rw (in_line_mode line [] rest n mode, mode) refl
  ]
  is_boundary-closes line (l ∷ lines) rest n all = elim (Bool-cases o.blank_line_mode) [
    | inl mode ↦ rw (after_a_line line l lines rest n all.0 mode, mode) refl
    | inr mode ↦ rw (in_line_mode line (l ∷ lines) rest n mode, mode) refl
  ]
