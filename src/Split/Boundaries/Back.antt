-- ===== src/Split/Boundaries/Back.antt =====
-- The tests of decoder.rs that look back from a newline, on the bytes before it in reverse.
use rypipe.Prelude.{
  ℕ, suc, ◌+◌, ◌-◌, ◌%◌, ◌≡◌, refl, ap, ◌∙◌, Bool, false, ◌&&◌, Option, none, some, List, [], ◌∷◌,
  ◌++◌, Str, length, length-append, take, drop, get_or, ltb, ◌==◌, if◌then◌else◌, arith, Bool-cases,
  Option-cases, inl, inr,
}
use rypipe.Split.Boundaries.{
  Memchr, Separation, backslashes, line_end, is_continued_newline, continued, start_of_line, slice,
}

-- The bytes of `back`, which are in reverse, before `rest`.
abbrev pub onto : Str → Str → Str
onto [] rest = rest
onto (c ∷ back) rest = onto back (c ∷ rest)

-- The last index of a byte: what `memrchr` is documented to return.
unfoldable pub last_index_of : ℕ → Str → Option ℕ
last_index_of b [] = none
last_index_of b (c ∷ s) = elim (last_index_of b s) [
  | some i ↦ some (i + 1)
  | none ↦ if c == b then some 0 else none
]

-- Without the `\r` of a line's end.
abbrev pub without_cr : Str → Str
without_cr [] = []
without_cr (c ∷ s) = if c == b'\r' then s else c ∷ s

-- The run of backslashes at the end, and whether a byte is the last one.
abbrev pub run : Str → ℕ
run [] = 0
run (c ∷ s) = if c == b'\\' then run s + 1 else 0

abbrev pub ends_with_byte : ℕ → Str → Bool
ends_with_byte b [] = false
ends_with_byte b (c ∷ s) = c == b

-- Whether a line, which is in reverse, continues on the next one.
unfoldable pub goes_on : Option ℕ → Str → Bool
goes_on none line = false
goes_on (some character) line =
    if character == b'\\'
    then run (without_cr line) % 2 == 1
    else ends_with_byte character (without_cr line)

get_or-onto : (back s : Str) (i : ℕ) → get_or (onto back s) (length back + i) 0 ≡ get_or s i 0
get_or-onto [] s i = let e : 0 + i ≡ i = omega arith in rw e refl
get_or-onto (c ∷ back) s i =
    let e : suc (length back) + i ≡ length back + suc i = omega arith in
    rw e (get_or-onto back (c ∷ s) (suc i))

here : (back s : Str) (c : ℕ) → get_or (onto back (c ∷ s)) (length back) 0 ≡ c
here back s c =
    let e : length back + 0 ≡ length back = omega arith in rw e at (get_or-onto back (c ∷ s) 0)

pub line_end-onto :
    (back rest : Str) → line_end (onto back rest) (length back) ≡ length (without_cr back)
line_end-onto [] rest = ground arith
line_end-onto (c ∷ back) rest =
    let one : suc (length back) - 1 ≡ length back = omega arith in
    rw (one, here back rest c) (ground arith)

-- The bytes before the line's end are those without the `\r`.
before_end : (back rest : Str) → (s : Str) × (onto back rest ≡ onto (without_cr back) s)
before_end [] rest = (rest, refl)
before_end (c ∷ back) rest = elim (Bool-cases (c == b'\r')) [
  | inl cr ↦ (c ∷ rest, rw cr refl)
  | inr other ↦ (rest, rw other refl)
]

backslashes-onto : (back rest : Str) → backslashes (onto back rest) (length back) ≡ run back
unfolding backslashes
backslashes-onto [] rest = refl
backslashes-onto (c ∷ back) rest = rw (here back rest c, backslashes-onto back (c ∷ rest)) refl

ends_with_byte-onto :
    (back rest : Str) (b : ℕ)
    → (ltb 0 (length back) && (get_or (onto back rest) (length back - 1) 0 == b))
      ≡ ends_with_byte b back
ends_with_byte-onto [] rest b = ground arith
ends_with_byte-onto (c ∷ back) rest b =
    let one : suc (length back) - 1 ≡ length back = omega arith in
    rw (one, here back rest c) (ground arith)

-- Over the end of a line, which may hold a `\r`.
run_before :
    (back rest : Str)
    → backslashes (onto back rest) (line_end (onto back rest) (length back)) ≡ run (without_cr back)
run_before back rest =
    let (s, e) = before_end back rest in
    ap (backslashes (onto back rest)) (line_end-onto back rest)
    ∙ ap (λ b. backslashes b (length (without_cr back))) e
    ∙ backslashes-onto (without_cr back) s

pub byte_before :
    (back rest : Str) (b : ℕ)
    → (let end = line_end (onto back rest) (length back) in
        ltb 0 end && (get_or (onto back rest) (end - 1) 0 == b))
      ≡ ends_with_byte b (without_cr back)
byte_before back rest b =
    let (s, e) = before_end back rest in
    ap (λ end. ltb 0 end && (get_or (onto back rest) (end - 1) 0 == b)) (line_end-onto back rest)
    ∙ ap (λ x. ltb 0 (length (without_cr back)) && (get_or x (length (without_cr back) - 1) 0 == b))
        e
    ∙ ends_with_byte-onto (without_cr back) s b

is_continued_newline-onto :
    (back rest : Str)
    → is_continued_newline (onto back (b'\n' ∷ rest)) (length back)
      ≡ (run (without_cr back) % 2 == 1)
unfolding is_continued_newline
is_continued_newline-onto [] rest = refl
is_continued_newline-onto (c ∷ back) rest =
    let some_bytes : (suc (length back) == 0) ≡ false = ground arith in
    rw (some_bytes, here (c ∷ back) rest b'\n')
      (ap (λ k. k % 2 == 1) (run_before (c ∷ back) (b'\n' ∷ rest)))

pub continued-onto :
    (m : Memchr) (o : Separation) (back rest : Str)
    → continued m o (onto back (b'\n' ∷ rest)) (length back) ≡ goes_on o.continuation back
unfolding continued goes_on
continued-onto m o back rest = elim (Option-cases o.continuation) [
  | inl none_set ↦ rw (none_set, continued, goes_on) refl
  | inr (character, set) ↦
      rw (set, continued, goes_on)
        (elim (Bool-cases (character == b'\\')) [
          | inl backslash ↦ rw backslash (is_continued_newline-onto back rest)
          | inr other ↦ rw other (byte_before back (b'\n' ∷ rest) character)
        ])
]

-- Lines in reverse, each before the newline that ends it.
abbrev pub joined : List Str → Str
joined [] = []
joined (line ∷ lines) = b'\n' ∷ (line ++ joined lines)

abbrev pub NoNewline : Str → Type 0
NoNewline [] = Unit {0}
NoNewline (c ∷ s) = ((c == b'\n') ≡ false) × NoNewline s

-- The last newline in reversed bytes, by its index.
newline_at : Str → Option ℕ
newline_at [] = none
newline_at (c ∷ back) = if c == b'\n' then some (length back) else newline_at back

last_or : ℕ → Option ℕ → Option ℕ → Option ℕ
last_or n (some i) other = some (n + i)
last_or n none other = other

last_index_of-onto :
    (back s : Str)
    → last_index_of b'\n' (onto back s)
      ≡ last_or (length back) (last_index_of b'\n' s) (newline_at back)
unfolding last_index_of newline_at last_or
last_index_of-onto [] s = elim (Option-cases (last_index_of b'\n' s)) [
  | inl nothing ↦ rw nothing refl
  | inr (i, found) ↦ rw found (ap some (omega arith))
]
last_index_of-onto (c ∷ back) s =
    last_index_of-onto back (c ∷ s) ∙ elim (Option-cases (last_index_of b'\n' s)) [
      | inr (i, found) ↦ rw found (ap some (omega arith))
      | inl nothing ↦ rw nothing (elim (Bool-cases (c == b'\n')) [
        | inl newline ↦ rw newline (ap some (omega arith))
        | inr other ↦ rw other refl
      ])
    ]

newline_at_line :
    (line before : Str) → NoNewline line → newline_at (line ++ before) ≡ newline_at before
unfolding newline_at
newline_at_line [] before n = refl
newline_at_line (c ∷ line) before (other, n) = rw other (newline_at_line line before n)

take-onto : (back s : Str) (k : ℕ) → take (length back + k) (onto back s) ≡ onto back (take k s)
take-onto [] s k = let e : 0 + k ≡ k = omega arith in rw e refl
take-onto (c ∷ back) s k =
    let e : suc (length back) + k ≡ length back + suc k = omega arith in
    rw e (take-onto back (c ∷ s) (suc k))

drop-onto : (back s : Str) (k : ℕ) → drop (length back + k) (onto back s) ≡ drop k s
drop-onto [] s k = let e : 0 + k ≡ k = omega arith in rw e refl
drop-onto (c ∷ back) s k =
    let e : suc (length back) + k ≡ length back + suc k = omega arith in
    rw e (drop-onto back (c ∷ s) (suc k))

pub onto-append : (xs ys s : Str) → onto (xs ++ ys) s ≡ onto ys (onto xs s)
onto-append [] ys s = refl
onto-append (x ∷ xs) ys s = onto-append xs ys (x ∷ s)

-- A line between the newline that ends the lines before it and what follows.
pub slice_line :
    (m : Memchr) (o : Separation) (line before rest : Str)
    → slice m o (onto (line ++ before) rest) (length before) (length (line ++ before))
      ≡ onto line []
slice_line m o line before rest =
    let none_left : length before + 0 ≡ length before = omega arith in
    let size : length (line ++ before) - length before ≡ length line + 0 =
      omega (arith, length-append line before) in
    let start : drop (length before) (onto (line ++ before) rest) ≡ onto line rest =
      ap (drop (length before)) (onto-append line before rest)
      ∙ rw none_left at (drop-onto before (onto line rest) 0) in
    rw (size, start) (take-onto line rest 0)

after_newline :
    (lines : List Str)
    → (elim (newline_at (joined lines)) [ none ↦ 0 | some p ↦ p + 1 ]) ≡ length (joined lines)
unfolding newline_at
after_newline [] = refl
after_newline (line ∷ lines) = omega arith

pub start_of_line-joined :
    (m : Memchr) (o : Separation) (line : Str) (lines : List Str) (rest : Str)
    → ((s : Str) → m.memrchr b'\n' s ≡ last_index_of b'\n' s)
    → NoNewline line
    → start_of_line m o (onto (line ++ joined lines) rest) (length (line ++ joined lines))
      ≡ length (joined lines)
unfolding newline_at last_or last_index_of
start_of_line-joined m o line lines rest finds n =
    let back : Str = line ++ joined lines in
    let none_left : length back + 0 ≡ length back = omega arith in
    let cut : take (length back) (onto back rest) ≡ onto back [] =
      rw none_left at (take-onto back rest 0) in
    let last : m.memrchr b'\n' (take (length back) (onto back rest)) ≡ newline_at (joined lines) =
      ap (m.memrchr b'\n') cut
      ∙ finds (onto back [])
      ∙ last_index_of-onto back []
      ∙ newline_at_line line (joined lines) n in
    rw (last, start_of_line) (after_newline lines)
