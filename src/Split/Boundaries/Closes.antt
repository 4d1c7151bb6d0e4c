-- ===== src/Split/Boundaries/Closes.antt =====
-- The body of the loop of `find_next_record_boundary` (decoder.rs) takes a newline for a boundary
-- where a record ends with its line.
use rypipe.Prelude.{
  ℕ, suc, ◌-◌, ◌≡◌, refl, ap, ◌∙◌, Bool, true, false, ◌&&◌, ◌||◌, not, Option, none, some, List, [],
  ◌∷◌, ◌++◌, Str, length, ltb, get_or, ◌==◌, if◌then◌else◌, arith, Bool-cases, inl, inr,
}
use rypipe.Split.Boundaries.{
  Memchr, Separation, is_empty, any_prefix, blank, line_end, continued, start_of_line, slice,
  ends_record,
}
use rypipe.Split.Boundaries.Back.{
  onto, last_index_of, without_cr, ends_with_byte, goes_on, joined, NoNewline, continued-onto,
  onto-append, slice_line, start_of_line-joined, byte_before,
}
use rypipe.Split.Boundaries.Lines.{
  is_comment, is_blank, NotNewline, goes_on-joined, any_prefix-onto, without_cr-joined,
}

pub is_comment-empty :
    (ps : List Str) (line : Str) → is_empty ps ≡ true → is_comment ps line ≡ false
unfolding is_comment
is_comment-empty [] line h = refl
is_comment-empty (p ∷ ps) line h = cc

pub no_bytes : (line : Str) → is_empty line ≡ true → line ≡ []
no_bytes [] h = refl
no_bytes (c ∷ line) h = cc

pub goes_on-is_blank : (o : Option ℕ) (line : Str) → is_blank line ≡ true → goes_on o line ≡ false
unfolding goes_on is_blank
goes_on-is_blank none line h = refl
goes_on-is_blank (some c) line h =
    let e : without_cr line ≡ [] = no_bytes (without_cr line) h in rw e (ground arith)

two_bytes :
    (m : Memchr) (o : Separation) (bs : Str) (c d : ℕ) (line s : Str)
    → blank m o bs (onto line (c ∷ (d ∷ s))) ≡ false
two_bytes m o bs c d [] s = refl
two_bytes m o bs c d (e ∷ line) s = two_bytes m o bs e c line (d ∷ s)

blank-onto :
    (m : Memchr) (o : Separation) (bs line : Str) → blank m o bs (onto line []) ≡ is_blank line
unfolding is_blank
blank-onto m o bs [] = refl
blank-onto m o bs (c ∷ []) = ground arith
blank-onto m o bs (c ∷ (d ∷ line)) = two_bytes m o bs d c line [] ∙ ground arith

-- Before the end of a blank line stands the newline of the line before it.
abbrev pub newline_before : List Str → Bool
newline_before lines = not (is_empty lines)

last_byte :
    (line : Str) (lines : List Str)
    → NoNewline line
    → ends_with_byte b'\n' (line ++ joined lines) ≡ (is_empty line && newline_before lines)
last_byte [] [] n = refl
last_byte [] (l ∷ lines) n = refl
last_byte (c ∷ line) lines n = n.0

NoNewline-without_cr : (line : Str) → NoNewline line → NoNewline (without_cr line)
NoNewline-without_cr [] n = n
NoNewline-without_cr (c ∷ line) n = elim (Bool-cases (c == b'\r')) [
  | inl cr ↦ rw cr n.1
  | inr other ↦ rw other n
]

ends_with_newline :
    (line : Str) (lines : List Str)
    → NoNewline line
    → ends_with_byte b'\n' (without_cr (line ++ joined lines))
      ≡ (is_blank line && newline_before lines)
unfolding is_blank
ends_with_newline line lines n =
    ap (ends_with_byte b'\n') (without_cr-joined line lines)
    ∙ last_byte (without_cr line) lines (NoNewline-without_cr line n)

not_both : (n : ℕ) (b : Bool) → ((n == 0) || not b) ≡ not (ltb 0 n && b)
not_both n b = ground arith

module _ (m : Memchr) (o : Separation)
    (finds : (s : Str) → m.memrchr b'\n' s ≡ last_index_of b'\n' s)
    (apart : NotNewline o.continuation) where
  pub continued_line :
      (line : Str) (lines : List Str) (rest : Str)
      → continued m o (onto (line ++ joined lines) (b'\n' ∷ rest)) (length (line ++ joined lines))
        ≡ goes_on o.continuation line
  continued_line line lines rest =
      continued-onto m o (line ++ joined lines) rest
      ∙ goes_on-joined o.continuation line lines apart

  comment_line :
      (line : Str) (lines : List Str) (rest : Str)
      → NoNewline line
      → any_prefix o.comment_prefixes (
          slice m o
            (onto (line ++ joined lines) rest)
            (start_of_line m o (onto (line ++ joined lines) rest) (length (line ++ joined lines)))
            (length (line ++ joined lines)))
        ≡ is_comment o.comment_prefixes line
  comment_line line lines rest n =
      rw (start_of_line-joined m o line lines rest finds n, slice_line m o line (joined lines) rest)
        (any_prefix-onto o.comment_prefixes line)

  -- The line before, from its newline.
  module _ (line l : Str) (lines : List Str) (rest : Str) (none_here : NoNewline line)
      (none_there : NoNewline l) where
    abbrev before : Str
    before = onto (line ++ joined (l ∷ lines)) (b'\n' ∷ rest)

    abbrev end_before : ℕ
    end_before = length (l ++ joined lines)

    split_there : before ≡ onto (l ++ joined lines) (b'\n' ∷ onto line (b'\n' ∷ rest))
    split_there = onto-append line (joined (l ∷ lines)) (b'\n' ∷ rest)

    pub continued-before : continued m o before end_before ≡ goes_on o.continuation l
    continued-before =
        ap (λ b. continued m o b end_before) split_there
        ∙ continued_line l lines (onto line (b'\n' ∷ rest))

    comment_before :
        any_prefix o.comment_prefixes
          (slice m o before (start_of_line m o before end_before) end_before)
        ≡ is_comment o.comment_prefixes l
    comment_before =
        ap
          (λ b.
            any_prefix o.comment_prefixes (slice m o b (start_of_line m o b end_before) end_before))
          split_there
        ∙ comment_line l lines (b'\n' ∷ onto line (b'\n' ∷ rest)) none_there

  pub end_test :
      (line : Str) (lines : List Str) (rest : Str)
      → NoNewline line
      → (let b = onto (line ++ joined lines) rest in
          let end = line_end b (length (line ++ joined lines)) in
          (end == 0) || not (get_or b (end - 1) 0 == b'\n'))
        ≡ not (is_blank line && newline_before lines)
  end_test line lines rest n =
      let back : Str = line ++ joined lines in
      let end : ℕ = line_end (onto back rest) (length back) in
      not_both end (get_or (onto back rest) (end - 1) 0 == b'\n')
      ∙ ap not (byte_before back rest b'\n' ∙ ends_with_newline line lines n)

  -- In line mode a line that is no comment ends a record.
  pub ends_record_line :
      (line : Str) (lines : List Str) (rest : Str)
      → NoNewline line
      → o.blank_line_mode ≡ false
      → ends_record m o (onto (line ++ joined lines) rest) (length (line ++ joined lines))
        ≡ not (is_comment o.comment_prefixes line)
  unfolding ends_record
  ends_record_line line lines rest n mode = rw (comment_line line lines rest n, mode) (ground arith)

  -- In blank-line mode the first line ends none.
  pub ends_record_first :
      (line rest : Str)
      → NoNewline line
      → o.blank_line_mode ≡ true
      → ends_record m o (onto (line ++ []) rest) (length (line ++ [])) ≡ false
  unfolding ends_record
  ends_record_first line rest n mode =
      rw (comment_line line [] rest n, mode, start_of_line-joined m o line [] rest finds n)
        (ground arith)

  pub ends_record_next :
      (line l : Str) (lines : List Str) (rest : Str)
      → NoNewline line
      → NoNewline l
      → o.blank_line_mode ≡ true
      → ends_record m o
          (onto (line ++ joined (l ∷ lines)) (b'\n' ∷ rest))
          (length (line ++ joined (l ∷ lines)))
        ≡ (if is_comment o.comment_prefixes line
            then false
            else is_blank line
              && not (goes_on o.continuation l)
              && not (is_comment o.comment_prefixes l))
  unfolding ends_record
  ends_record_next line l lines rest n n' mode =
      let behind : suc (length (l ++ joined lines)) - 1 ≡ length (l ++ joined lines) =
        omega arith in
      rw
        (
          comment_line line (l ∷ lines) (b'\n' ∷ rest) n,
          start_of_line-joined m o line (l ∷ lines) (b'\n' ∷ rest) finds n,
          behind,
          continued-before line l lines rest n n',
          comment_before line l lines rest n n',
          slice_line m o line (joined (l ∷ lines)) (b'\n' ∷ rest),
          blank-onto m o (onto (line ++ joined (l ∷ lines)) (b'\n' ∷ rest)) line,
          mode,
        )
        (ground arith)
