-- ===== src/Columnar/Entries.antt =====
-- Reading the entries of a dictionary, and the remap of one dictionary into another.
use rypipe.Prelude.{
  ℕ, zero, suc, ◌+◌, ◌-◌, ◌<◌, ◌≤◌, ◌≡◌, refl, sym, ap, ◌∙◌, Option, none, some, List, [], ◌∷◌, Str,
  length, get_elem?, get_or, take, drop, map, arith, Option-cases, Bool-cases, inl, inr, leb,
}
use rypipe.Columnar.Cells.{length-map, row_at}
use rypipe.Columnar.Texts.{as_usize}
use rypipe.Columnar.TextCells.{concat, ends, get_or-ends}
use rypipe.Columnar.TextRead.{row_text, cut_text, prefix_small}
use rypipe.Columnar.Dict.{Dictionary, entry}
use rypipe.Columnar.Words.{HoldsWords, length-ends}

module _ {A : Type 0} where
  pub get_elem?-get_or :
      (xs : List A) (i : ℕ) (d : A) → i < length xs → get_elem? xs i ≡ some (get_or xs i d)
  get_elem?-get_or [] i d h = ground arith
  get_elem?-get_or (x ∷ xs) zero d h = refl
  get_elem?-get_or (x ∷ xs) (suc i) d h = get_elem?-get_or xs i d (omega arith)

  pub get_elem?-past : (xs : List A) (i : ℕ) → length xs ≤ i → get_elem? xs i ≡ none
  get_elem?-past [] i h = refl
  get_elem?-past (x ∷ xs) zero h = ground arith
  get_elem?-past (x ∷ xs) (suc i) h = get_elem?-past xs i (omega arith)

  pub get_elem?-lt : (xs : List A) (i : ℕ) (x : A) → get_elem? xs i ≡ some x → i < length xs
  get_elem?-lt [] i x h = cc
  get_elem?-lt (y ∷ xs) zero x h = omega arith
  get_elem?-lt (y ∷ xs) (suc i) x h = omega (arith, get_elem?-lt xs i x h)

row_at-map : (ws : List Str) (i : ℕ) → row_at (map some ws) i ≡ get_elem? ws i
row_at-map [] i = refl
row_at-map (w ∷ ws) zero = refl
row_at-map (w ∷ ws) (suc i) = row_at-map ws i

-- Where the word `i` stands in the bytes.
pub word_bytes :
    (d : Dictionary) (ws : List Str) (i : ℕ) (w : Str)
    → HoldsWords d ws
    → get_elem? ws i ≡ some w
    → (get_elem? d.offsets i ≡ some (get_or d.offsets i 0))
      × (get_elem? d.offsets (i + 1) ≡ some (get_or d.offsets (i + 1) 0))
      × (take
            (as_usize (get_or d.offsets (i + 1) 0) - as_usize (get_or d.offsets i 0))
            (drop (as_usize (get_or d.offsets i 0)) d.bytes)
          ≡ w)
word_bytes d ws i w s there =
    let xs : List (Option Str) = map some ws in
    let at : row_at xs i ≡ some w = row_at-map ws i ∙ there in
    let (lt, long, split) = row_text xs i w at in
    let next : i + 1 ≡ suc i = omega arith in
    let start : get_or (ends 0 xs) i 0 ≡ length (concat (take i xs)) =
      omega (arith, get_or-ends 0 i xs) in
    let end : get_or (ends 0 xs) (suc i) 0 ≡ length (concat (take i xs)) + length w =
      omega (arith, get_or-ends 0 (suc i) xs, long) in
    let within = prefix_small xs i w at s.small in
    let start' : as_usize (length (concat (take i xs))) ≡ length (concat (take i xs)) =
      ground (arith, within) in
    let end' : as_usize (length (concat (take i xs)) + length w)
        ≡ length (concat (take i xs)) + length w =
      ground (arith, within) in
    let less : length (concat (take i xs)) + length w - length (concat (take i xs)) ≡ length w =
      omega arith in
    let count = length-ends 0 xs in
    rw (s.ends_of, s.text, next)
      (
        get_elem?-get_or (ends 0 xs) i 0 (omega arith),
        get_elem?-get_or (ends 0 xs) (suc i) 0 (omega arith),
        rw (start, end, start', end', less) (cut_text xs i w at),
      )

entry-some :
    (d : Dictionary) (i start end : ℕ)
    → get_elem? d.offsets i ≡ some start
    → get_elem? d.offsets (i + 1) ≡ some end
    → entry d i ≡ some (take (as_usize end - as_usize start) (drop (as_usize start) d.bytes))
unfolding entry
entry-some d i start end h k = rw (h, k, entry) refl

entry-none : (d : Dictionary) (i : ℕ) → get_elem? d.offsets (i + 1) ≡ none → entry d i ≡ none
unfolding entry
entry-none d i h = elim (Option-cases (get_elem? d.offsets i)) [
  | inl missing ↦ rw (missing, entry) refl
  | inr (start, there) ↦ rw (there, h, entry) refl
]

-- For a dictionary that holds a list of words, the entry of a code is its word, and there is none
-- past the last word.
pub entry_iff :
    (d : Dictionary) (ws : List Str) (i : ℕ) → HoldsWords d ws → entry d i ≡ get_elem? ws i
entry_iff d ws i s = elim (Option-cases (get_elem? ws i)) [
  | inr (w, there) ↦
      let (first, second, text) = word_bytes d ws i w s there in
      entry-some d i (get_or d.offsets i 0) (get_or d.offsets (i + 1) 0) first second
      ∙ ap some text
      ∙ sym there
  | inl missing ↦
      let past : length ws ≤ i = elim (Bool-cases (leb (length ws) i)) [
        | inl le ↦ ground arith
        | inr gt ↦
            let there = get_elem?-get_or ws i [] (ground arith) in
            let impossible : none ≡ some (get_or ws i []) = sym missing ∙ there in cc
      ] in
      let over : get_elem? d.offsets (i + 1) ≡ none = rw (s.ends_of) (
        get_elem?-past (ends 0 (map some ws)) (i + 1)
          (omega (arith, length-ends 0 (map some ws), length-map some ws))) in
      entry-none d i over ∙ sym missing
]
