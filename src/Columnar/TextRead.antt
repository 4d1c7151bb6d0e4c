-- ===== src/Columnar/TextRead.antt =====
-- Reading a text of a `StrColumn`, and taking the last one away.
use mathlib.Core.List.{append-nil, map-append}
use rypipe.Prelude.{
  ℕ, zero, suc, Bool, true, false, ◌+◌, ◌-◌, ◌^◌, ◌<◌, ◌≡◌, refl, sym, ap, ◌∙◌, Option, none, some,
  List, [], ◌∷◌, ◌++◌, Str, length, get_or, take, drop, map, arith, length-append, take-append-drop,
  Option-cases, inl, inr,
}
use rypipe.Columnar.Contents.{is_valid_iff}
use rypipe.Columnar.Slices.{pop-Holds}
use rypipe.Columnar.Flat.{is_some, last, without_last}
use rypipe.Columnar.Cells.{row_at, without_last-snoc}
use rypipe.Columnar.Texts.{StrColumn, as_usize, get, pop}
use rypipe.Columnar.TextCells.{
  text_of, concat, ends, concat-append, ends-append, get_or-ends, take-length-append,
}
use rypipe.Columnar.TextRows.{TextRows, split_text}

-- A row that is there starts where the rows before it end.
pub row_text :
    (xs : List (Option Str)) (i : ℕ) (t : Str)
    → row_at xs i ≡ some t
    → (i < length xs)
      × (length (concat (take (suc i) xs)) ≡ length (concat (take i xs)) + length t)
      × (concat (drop i xs) ≡ t ++ concat (drop (suc i) xs))
row_text [] i t h = cc
row_text (none ∷ xs) zero t h = cc
row_text (some x ∷ xs) zero t h =
    let same : x ≡ t = cc in
    (omega arith, omega (arith, length-append x [], ap length same), ap (λ u. u ++ concat xs) same)
row_text (x ∷ xs) (suc i) t h =
    let (lt, size, text) = row_text xs i t h in
    (
      omega arith,
      omega (
        arith,
        size,
        length-append (text_of x) (concat (take (suc i) xs)),
        length-append (text_of x) (concat (take i xs)),
      ),
      text,
    )

valid_row :
    (xs : List (Option Str)) (i : ℕ) → get_or (map is_some xs) i false ≡ is_some (row_at xs i)
valid_row [] i = refl
valid_row (x ∷ xs) zero = refl
valid_row (x ∷ xs) (suc i) = valid_row xs i

pub cut_text :
    (xs : List (Option Str)) (i : ℕ) (t : Str)
    → row_at xs i ≡ some t
    → take (length t) (drop (length (concat (take i xs))) (concat xs)) ≡ t
cut_text xs i t h =
    rw ((split_text xs i).1, (row_text xs i t h).2)
      (take-length-append t (concat (drop (suc i) xs)))

pub prefix_small :
    (xs : List (Option Str)) (i : ℕ) (t : Str)
    → row_at xs i ≡ some t
    → length (concat xs) < 2 ^ 31
    → length (concat (take i xs)) + length t < 2 ^ 31
prefix_small xs i t h small =
    let (lt, size, split) = row_text xs i t h in
    let whole : length (concat xs) ≡ length (concat (take i xs)) + length (concat (drop i xs)) =
      ap (λ u. length (concat u)) (sym (take-append-drop i xs))
      ∙ ap length (concat-append (take i xs) (drop i xs))
      ∙ length-append (concat (take i xs)) (concat (drop i xs)) in
    omega (arith, whole, ap length split, length-append t (concat (drop (suc i) xs)))

-- For a text column that holds a list of rows in less than 2^31 bytes, whose texts are UTF-8,
-- `get` gives the text of the row, and nothing for a null row or past the end.
pub get-TextRows :
    (utf8 : Str → Bool) (c : StrColumn) (xs : List (Option Str)) (i : ℕ)
    → TextRows c xs
    → ((t : Str) → row_at xs i ≡ some t → utf8 t ≡ true)
    → get utf8 c i ≡ row_at xs i
unfolding get
get-TextRows utf8 c xs i s encoded =
    let valid = is_valid_iff c.validity (map is_some xs) s.valid i ∙ valid_row xs i in
    elim (Option-cases (row_at xs i)) [
      | inl null ↦ rw (valid, null) refl
      | inr (t, there) ↦
          let (lt, size, split) = row_text xs i t there in
          let next : i + 1 ≡ suc i = omega arith in
          let start : get_or (ends 0 xs) i 0 ≡ length (concat (take i xs)) =
            omega (arith, get_or-ends 0 i xs) in
          let end : get_or (ends 0 xs) (suc i) 0 ≡ length (concat (take i xs)) + length t =
            omega (arith, get_or-ends 0 (suc i) xs, size) in
          let within = prefix_small xs i t there s.small in
          let start' : as_usize (length (concat (take i xs))) ≡ length (concat (take i xs)) =
            ground (arith, within) in
          let end' : as_usize (length (concat (take i xs)) + length t)
              ≡ length (concat (take i xs)) + length t =
            ground (arith, within) in
          let size' : length (concat (take i xs)) + length t - length (concat (take i xs))
              ≡ length t =
            omega arith in
          rw
            (
              s.ends_of,
              s.text,
              valid,
              there,
              next,
              start,
              end,
              start',
              end',
              size',
              cut_text xs i t there,
              encoded t there,
            )
            refl
    ]

last-ends : (k : ℕ) (xs : List (Option Str)) → last (ends k xs) ≡ some (k + length (concat xs))
last-ends k [] = ap some (omega arith)
last-ends k (x ∷ []) = ap some (omega (arith, length-append (text_of x) []))
last-ends k (x ∷ (y ∷ xs)) =
    last-ends (k + length (text_of x)) (y ∷ xs)
    ∙ ap some (omega (arith, length-append (text_of x) (concat (y ∷ xs))))

-- For a text column that holds a list of rows in less than 2^31 bytes, `pop` leaves a column of
-- all rows but the last.
pub pop-TextRows :
    (c : StrColumn) (xs : List (Option Str)) (x : Option Str)
    → TextRows c (xs ++ (x ∷ []))
    → TextRows (pop c) xs
unfolding pop
pop-TextRows c xs x s =
    let held = rw (map-append is_some xs (x ∷ [])) at s.valid in
    let (bit, rest) = pop-Holds c.validity (map is_some xs) (is_some x) held in
    let m : ℕ = length (concat xs) in
    let whole : concat (xs ++ (x ∷ [])) ≡ concat xs ++ text_of x =
      concat-append xs (x ∷ []) ∙ ap (λ t. concat xs ++ t) (append-nil (text_of x)) in
    let small : m < 2 ^ 31 =
      omega (arith, s.small, ap length whole, length-append (concat xs) (text_of x)) in
    let offsets : without_last c.offsets ≡ ends 0 xs =
      ap (λ t. without_last t) (s.ends_of ∙ ends-append 0 xs (x ∷ []))
      ∙ without_last-snoc (ends 0 xs) (0 + m + length (text_of x)) in
    let end : as_usize m ≡ m = ground (arith, small) in
    let ended : last (ends 0 xs) ≡ some m = last-ends 0 xs ∙ ap some (omega arith) in
    rw (bit, pop, offsets, ended, end, s.text, whole)
      (record {
        valid = rest;
        text = take-length-append (concat xs) (text_of x);
        ends_of = refl;
        small = small;
      })
