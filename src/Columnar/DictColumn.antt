-- ===== src/Columnar/DictColumn.antt =====
-- A dictionary column as a list of texts: building it, merging, reading, popping and splitting.
use mathlib.Core.List.{append-nil, append_assoc}
use rypipe.Prelude.{
  ℕ, zero, suc, Bool, true, ◌+◌, ◌-◌, ◌^◌, ◌<◌, ◌≡◌, refl, ap, Option, none, some, List, [], ◌∷◌,
  ◌++◌, Str, length, get_elem?, take, drop, map, arith, length-append, ◌⊎◌, inl, inr,
}
use rypipe.Columnar.Bitmap.{empty}
use rypipe.Columnar.Cells.{length-map, row_at}
use rypipe.Columnar.TextCells.{concat}
use rypipe.Columnar.Nullable.{NullableColumn}
use rypipe.Columnar.Rows.{iter-Rows}
use rypipe.Columnar.Dict.{Dictionary, push_text, push_texts, remap_from, extend}
use rypipe.Columnar.Words.{size, with_word, with_words, size-with_word, length-ends}
use rypipe.Columnar.Remap.{remap_from-Remaps, kept_by_words}
use rypipe.Columnar.Coded.{
  Coded, DictRows, Coded-kept, push_text-DictRows, push_null-DictRows, push_codes-DictRows,
}

-- The texts among the rows, in order.
abbrev pub present : List (Option Str) → List Str
present [] = []
present (none ∷ xs) = present xs
present (some x ∷ xs) = x ∷ present xs

pub no_rows : NullableColumn ℕ
no_rows = record { values = []; validity = empty }

-- For a dictionary column that holds a list of texts, with room for more, pushing texts one by
-- one gives a column that holds them after the others.
pub push_texts-DictRows :
    (codes : NullableColumn ℕ) (d : Dictionary) (ws : List Str) (xs vs : List (Option Str))
    → DictRows codes d ws xs
    → size ws + length (concat vs) < 2 ^ 31
    → length ws + length vs < 2 ^ 31
    → DictRows
        (push_texts codes d vs).0
        (push_texts codes d vs).1
        (with_words ws (present vs))
        (xs ++ vs)
unfolding push_texts with_words
push_texts-DictRows codes d ws xs [] s small few = rw (append-nil xs) s
push_texts-DictRows codes d ws xs (none ∷ vs) s small few = rw (← append_assoc xs (none ∷ []) vs) (
    push_texts-DictRows (push_text codes d none).0 (push_text codes d none).1 ws (xs ++ (none ∷ []))
      vs (push_null-DictRows codes d ws xs s) small (omega arith))
push_texts-DictRows codes d ws xs (some v ∷ vs) s small few =
    let long = length-append v (concat vs) in
    let grown = size-with_word ws v in
    rw (← append_assoc xs (some v ∷ []) vs) (
      push_texts-DictRows (push_text codes d (some v)).0 (push_text codes d (some v)).1
        (with_word ws v) (xs ++ (some v ∷ [])) vs
        (push_text-DictRows codes d ws xs v s (omega arith) (omega arith)) (omega arith)
        (omega arith))

-- For two dictionary columns that hold lists of texts, with room for the words of both, and whose
-- second dictionary is UTF-8, `extend` gives a column of the texts of the first and then those of
-- the second.
pub extend-DictRows :
    (utf8 : Str → Bool) (codes b_codes : NullableColumn ℕ) (d b : Dictionary) (ws vs : List Str)
    (xs ys : List (Option Str))
    → DictRows codes d ws xs
    → DictRows b_codes b vs ys
    → ((i : ℕ) (v : Str) → get_elem? vs i ≡ some v → utf8 v ≡ true)
    → size ws + size vs < 2 ^ 31
    → length ws + length vs < 2 ^ 31
    → DictRows
        (extend utf8 codes d b_codes b).0
        (extend utf8 codes d b_codes b).1
        (with_words ws vs)
        (xs ++ ys)
unfolding extend
extend-DictRows utf8 codes b_codes d b ws vs xs ys s t encoded small few =
    let count : length b.offsets - 1 ≡ length vs =
      omega (arith, ap length t.dict.ends_of, length-ends 0 (map some vs), length-map some vs) in
    let at : (i : ℕ) → get_elem? vs (0 + i) ≡ get_elem? vs i =
      λ i. let on : 0 + i ≡ i = omega arith in rw on refl in
    let (held, remaps) = remap_from-Remaps utf8 d b ws vs vs 0 s.dict t.dict encoded at small few in
    let mine : DictRows codes (remap_from utf8 d b 0 (length vs)).1 (with_words ws vs) xs = record {
      codes_of = s.codes_of;
      stored = s.stored;
      dict = held;
      each = Coded-kept ws (with_words ws vs) s.codes_of xs (kept_by_words ws vs) s.each;
    } in
    rw (count, iter-Rows 0 b_codes t.codes_of t.stored)
      (push_codes-DictRows codes (remap_from utf8 d b 0 (length vs)).1 (with_words ws vs) vs
        (remap_from utf8 d b 0 (length vs)).0 xs ys t.codes_of mine remaps t.dict.few t.each)

-- What a row of codes and texts is: null, or a code and its word.
pub row_word :
    (ws : List Str) (cs : List (Option ℕ)) (xs : List (Option Str)) (i : ℕ)
    → Coded ws cs xs
    → ((row_at cs i ≡ none) × (row_at xs i ≡ none))
      ⊎ ((c : ℕ) × (x : Str) × (row_at cs i ≡ some c)
          × (row_at xs i ≡ some x)
          × (get_elem? ws c ≡ some x))
unfolding Coded
row_word ws [] [] i h = inl (refl, refl)
row_word ws (none ∷ cs) (none ∷ xs) zero h = inl (refl, refl)
row_word ws (some c ∷ cs) (some x ∷ xs) zero h = inr (c, x, refl, refl, h.0)
row_word ws (none ∷ cs) (none ∷ xs) (suc i) h = row_word ws cs xs i h
row_word ws (some c ∷ cs) (some x ∷ xs) (suc i) h = row_word ws cs xs i h.1
row_word ws [] (x ∷ xs) i h = elim h [ ]
row_word ws (none ∷ cs) [] i h = elim h [ ]
row_word ws (some c ∷ cs) [] i h = elim h [ ]
row_word ws (none ∷ cs) (some x ∷ xs) i h = elim h [ ]
row_word ws (some c ∷ cs) (none ∷ xs) i h = elim h [ ]

-- The first rows, the others, and all but the last.
pub Coded-take :
    (ws : List Str) (cs : List (Option ℕ)) (xs : List (Option Str)) (n : ℕ)
    → Coded ws cs xs
    → Coded ws (take n cs) (take n xs) × Coded ws (drop n cs) (drop n xs)
unfolding Coded
Coded-take ws cs xs zero h = (tt, h)
Coded-take ws [] [] (suc n) h = (tt, tt)
Coded-take ws (none ∷ cs) (none ∷ xs) (suc n) h = Coded-take ws cs xs n h
Coded-take ws (some c ∷ cs) (some x ∷ xs) (suc n) h =
    let (first, rest) = Coded-take ws cs xs n h.1 in ((h.0, first), rest)
Coded-take ws [] (x ∷ xs) (suc n) h = elim h [ ]
Coded-take ws (none ∷ cs) [] (suc n) h = elim h [ ]
Coded-take ws (some c ∷ cs) [] (suc n) h = elim h [ ]
Coded-take ws (none ∷ cs) (some x ∷ xs) (suc n) h = elim h [ ]
Coded-take ws (some c ∷ cs) (none ∷ xs) (suc n) h = elim h [ ]
