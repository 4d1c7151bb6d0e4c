-- ===== src/Split/Boundaries.antt =====
-- `is_continued_newline` and `find_next_record_boundary` of decoder.rs.
pub mod Scan
pub mod Back
pub mod Lines
pub mod Closes
pub mod Decided
pub mod Records
use rypipe.Prelude.{
  ℕ, zero, suc, ◌+◌, ◌-◌, ◌%◌, Bool, true, false, ◌&&◌, ◌||◌, not, Option, none, some, List, [],
  ◌∷◌, Str, starts_with, length, get_or, take, drop, ltb, leb, ◌==◌, if◌then◌else◌,
}

-- `memchr::memchr` and `memchr::memrchr`
pub record Memchr : Type 0 where
  pub memchr : (byte : ℕ) → Str → Option ℕ
  pub memrchr : (byte : ℕ) → Str → Option ℕ

-- How a `Splitter` separates records.
pub record Separation : Type 0 where
  pub continuation : Option ℕ
  pub comment_prefixes : List Str
  pub blank_line_mode : Bool

-- The length of the run of backslashes that ends before the cursor.
unfoldable pub backslashes : Str → ℕ → ℕ
backslashes bytes zero = 0
backslashes bytes (suc cursor) =
    let run = backslashes bytes cursor in if get_or bytes cursor 0 == b'\\' then run + 1 else 0

-- The position before a `\r` that precedes the newline, or the newline itself.
abbrev pub line_end : Str → ℕ → ℕ
line_end bytes pos = if ltb 0 pos && (get_or bytes (pos - 1) 0 == b'\r') then pos - 1 else pos

-- The source tests `bytes.get(pos)`: past the end there is no newline.
unfoldable pub is_continued_newline : Str → ℕ → Bool
unfolding backslashes
is_continued_newline bytes pos =
    if (pos == 0) || not (get_or bytes pos 0 == b'\n')
    then false
    else backslashes bytes (line_end bytes pos) % 2 == 1

abbrev pub is_empty {ℓ} : {A : Type ℓ} → List A → Bool
is_empty [] = true
is_empty (x ∷ xs) = false

unfoldable pub any_prefix : List Str → Str → Bool
unfolding starts_with
any_prefix [] line = false
any_prefix (p ∷ ps) line = starts_with line p || any_prefix ps line

module _ (m : Memchr) (o : Separation) (bytes : Str) where
  -- The closure `continued`.
  unfoldable pub continued : ℕ → Bool
  unfolding is_continued_newline
  continued newline =
      let end = line_end bytes newline in
      elim o.continuation [
        | none ↦ false
        | some character ↦
            if character == b'\\'
            then is_continued_newline bytes newline
            else ltb 0 end && (get_or bytes (end - 1) 0 == character)
      ]

  abbrev pub start_of_line : ℕ → ℕ
  start_of_line nl_pos = elim (m.memrchr b'\n' (take nl_pos bytes)) [ none ↦ 0 | some p ↦ p + 1 ]

  abbrev pub slice : ℕ → ℕ → Str
  slice from to = take (to - from) (drop from bytes)

  -- A line that is empty, or holds a `\r` alone.
  abbrev pub blank : Str → Bool
  blank [] = true
  blank (c ∷ []) = c == b'\r'
  blank (c ∷ (d ∷ s)) = false

  -- The end of a line whose newline is not continued: comments, and in blank-line mode, text lines
  -- and blank lines after a comment are no boundary.
  unfoldable pub ends_record : ℕ → Bool
  unfolding continued any_prefix
  ends_record nl_pos =
      let line_start = start_of_line nl_pos in
      let line = slice line_start nl_pos in
      let previous = line_start - 1 in
      if any_prefix o.comment_prefixes line
      then false
      else if o.blank_line_mode
      then ltb 0 line_start
        && blank line
        && not (continued previous)
        && not (any_prefix o.comment_prefixes (slice (start_of_line previous) previous))
      else true

  -- Whether the newline is a boundary: the body of the loop, which returns the position after it
  -- or continues there.
  unfoldable pub is_boundary : ℕ → Bool
  unfolding continued ends_record
  is_boundary nl_pos =
      let end = line_end bytes nl_pos in
      if continued nl_pos
      then false
      else if not o.blank_line_mode
      then (if is_empty o.comment_prefixes then true else ends_record nl_pos)
      else if (end == 0) || not (get_or bytes (end - 1) 0 == b'\n')
      then false
      else if is_empty o.comment_prefixes && not (continued (end - 1))
      then true
      else ends_record nl_pos

  -- The loop; each round starts behind a newline, so a round for each byte and one more are enough.
  unfoldable pub next_boundary : (fuel pos : ℕ) → Option ℕ
  unfolding is_boundary
  next_boundary zero pos = none
  next_boundary (suc fuel) pos =
      if leb (length bytes) pos then none else elim (m.memchr b'\n' (drop pos bytes)) [
        | none ↦ none
        | some rel ↦
            let rest = next_boundary fuel (pos + rel + 1) in
            if is_boundary (pos + rel) then some (pos + rel + 1) else rest
      ]

  abbrev pub is_plain : Option ℕ → Bool
  is_plain none = is_empty o.comment_prefixes && not o.blank_line_mode
  is_plain (some c) = false

  unfoldable pub find_next_record_boundary : ℕ → Option ℕ
  unfolding next_boundary
  find_next_record_boundary from =
      let loop = next_boundary (length bytes + 1) from in
      if is_plain o.continuation
      then (if ltb (length bytes) from then none else elim (m.memchr b'\n' (drop from bytes)) [
        | none ↦ none
        | some offset ↦ some (from + offset + 1)
      ])
      else loop
