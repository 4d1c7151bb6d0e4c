-- ===== src/Split/Boundaries/Lines.antt =====
-- `find_next_record_boundary` of decoder.rs, compared with a description of the records by lines.
use rypipe.Prelude.{
  ℕ, ◌+◌, ◌≡◌, refl, Bool, false, ◌&&◌, ◌||◌, not, Option, none, some, List, [], ◌∷◌, ◌++◌, Str,
  leb, starts_with, ◌==◌, if◌then◌else◌, arith, Bool-cases, inl, inr,
}
use rypipe.Split.Boundaries.{Separation, is_empty, any_prefix}
use rypipe.Split.Boundaries.Back.{onto, without_cr, run, ends_with_byte, goes_on, joined}

-- Whether a line, which is in reverse, starts with one of the prefixes.
unfoldable pub is_comment : List Str → Str → Bool
is_comment [] line = false
is_comment (prefix ∷ prefixes) line = starts_with (onto line []) prefix || is_comment prefixes line

-- A line of no bytes, or of a `\r` alone.
unfoldable pub is_blank : Str → Bool
is_blank line = is_empty (without_cr line)

-- Whether a record ends with a line, which is in reverse; `previous` is the line before it. A
-- comment ends none, nor does a line that continues. In blank-line mode a record ends with a blank
-- line, unless it is the first, or the line before it continues or is a comment.
unfoldable pub closes : Separation → (previous : Option Str) → (line : Str) → Bool
unfolding is_blank is_comment goes_on
closes o none line =
    not o.blank_line_mode
    && not (is_comment o.comment_prefixes line)
    && not (goes_on o.continuation line)
closes o (some previous) line =
    if o.blank_line_mode
    then is_blank line
      && not (is_comment o.comment_prefixes line)
      && not (is_comment o.comment_prefixes previous)
      && not (goes_on o.continuation previous)
    else not (is_comment o.comment_prefixes line) && not (goes_on o.continuation line)

-- The position behind the first line that ends at or after `from` and with which a record ends:
-- the bytes are read one by one from the start of the input, and only the line that is read and the
-- one before it are kept, in reverse.
unfoldable pub by_lines :
    Separation → (from : ℕ) → (previous : Option Str) → (line rest : Str) → (pos : ℕ) → Option ℕ
unfolding closes
by_lines o from previous line [] pos = none
by_lines o from previous line (c ∷ rest) pos =
    let next_line = by_lines o from (some line) [] rest (pos + 1) in
    let same_line = by_lines o from previous (c ∷ line) rest (pos + 1) in
    if c == b'\n'
    then (if leb from pos && closes o previous line then some (pos + 1) else next_line)
    else same_line

abbrev pub head : List Str → Option Str
head [] = none
head (line ∷ lines) = some line

-- The lines before do not matter for a line's continuation.
run-joined : (line : Str) (lines : List Str) → run (line ++ joined lines) ≡ run line
run-joined [] [] = refl
run-joined [] (l ∷ lines) = refl
run-joined (c ∷ line) lines = rw (run-joined line lines) refl

ends_with_byte-joined :
    (b : ℕ) (line : Str) (lines : List Str)
    → (b == b'\n') ≡ false
    → ends_with_byte b (line ++ joined lines) ≡ ends_with_byte b line
ends_with_byte-joined b [] [] h = refl
ends_with_byte-joined b [] (l ∷ lines) h = ground (arith, h)
ends_with_byte-joined b (c ∷ line) lines h = refl

pub without_cr-joined :
    (line : Str) (lines : List Str)
    → without_cr (line ++ joined lines) ≡ without_cr line ++ joined lines
without_cr-joined [] [] = refl
without_cr-joined [] (l ∷ lines) = refl
without_cr-joined (c ∷ line) lines = elim (Bool-cases (c == b'\r')) [
  | inl cr ↦ rw cr refl
  | inr other ↦ rw other refl
]

abbrev pub NotNewline : Option ℕ → Type 0
NotNewline none = Unit {0}
NotNewline (some c) = (c == b'\n') ≡ false

pub goes_on-joined :
    (o : Option ℕ) (line : Str) (lines : List Str)
    → NotNewline o
    → goes_on o (line ++ joined lines) ≡ goes_on o line
unfolding goes_on
goes_on-joined none line lines h = refl
goes_on-joined (some c) line lines h =
    rw
      (
        without_cr-joined line lines,
        run-joined (without_cr line) lines,
        ends_with_byte-joined c (without_cr line) lines h,
      )
      refl

pub any_prefix-onto :
    (ps : List Str) (line : Str) → any_prefix ps (onto line []) ≡ is_comment ps line
unfolding any_prefix is_comment
any_prefix-onto [] line = refl
any_prefix-onto (p ∷ ps) line = rw (any_prefix-onto ps line) refl
