-- ===== src/Builder/Utf8.antt =====
-- Lists of texts that are all UTF-8, as those of a column are.
use rypipe.Prelude.{
  ℕ, zero, suc, Bool, true, ◌≡◌, ap, refl, Option, none, some, List, [], ◌∷◌, ◌++◌, Str, get_elem?,
  Option-cases, inl, inr,
}
use rypipe.Columnar.Cells.{row_at}
use rypipe.Columnar.Words.{position, with_word, with_words, with_word-new, with_word-old}
use rypipe.Columnar.DictColumn.{present}

module _ (utf8 : Str → Bool) where
  abbrev pub AllUtf8 : List Str → Type 0
  AllUtf8 [] = Unit
  AllUtf8 (w ∷ ws) = (utf8 w ≡ true) × AllUtf8 ws

  pub AllUtf8-append : (ws vs : List Str) → AllUtf8 ws → AllUtf8 vs → AllUtf8 (ws ++ vs)
  AllUtf8-append [] vs h k = k
  AllUtf8-append (w ∷ ws) vs h k = (h.0, AllUtf8-append ws vs h.1 k)

  pub AllUtf8-with_word :
      (ws : List Str) (v : Str) → AllUtf8 ws → utf8 v ≡ true → AllUtf8 (with_word ws v)
  AllUtf8-with_word ws v h k = elim (Option-cases (position v ws)) [
    | inl missing ↦ rw (with_word-new ws v missing) (AllUtf8-append ws (v ∷ []) h (k, tt))
    | inr (j, there) ↦ rw (with_word-old ws v j there) h
  ]

  pub AllUtf8-with_words : (ws vs : List Str) → AllUtf8 ws → AllUtf8 vs → AllUtf8 (with_words ws vs)
  unfolding with_words
  AllUtf8-with_words ws [] h k = h
  AllUtf8-with_words ws (v ∷ vs) h k =
      AllUtf8-with_words (with_word ws v) vs (AllUtf8-with_word ws v h k.0) k.1

  pub word_utf8 :
      (ws : List Str) → AllUtf8 ws → (i : ℕ) (w : Str) → get_elem? ws i ≡ some w → utf8 w ≡ true
  word_utf8 [] h i w e = cc
  word_utf8 (v ∷ ws) h zero w e = let same : v ≡ w = cc in rw (← same) h.0
  word_utf8 (v ∷ ws) h (suc i) w e = word_utf8 ws h.1 i w e

  pub row_utf8 :
      (xs : List (Option Str))
      → AllUtf8 (present xs)
      → (i : ℕ) (w : Str) → row_at xs i ≡ some w
      → utf8 w ≡ true
  row_utf8 [] h i w e = cc
  row_utf8 (none ∷ xs) h zero w e = cc
  row_utf8 (some v ∷ xs) h zero w e = let same : v ≡ w = cc in rw (← same) h.0
  row_utf8 (none ∷ xs) h (suc i) w e = row_utf8 xs h i w e
  row_utf8 (some v ∷ xs) h (suc i) w e = row_utf8 xs h.1 i w e

pub present-append : (xs ys : List (Option Str)) → present (xs ++ ys) ≡ present xs ++ present ys
present-append [] ys = refl
present-append (none ∷ xs) ys = present-append xs ys
present-append (some x ∷ xs) ys = ap (λ t. x ∷ t) (present-append xs ys)
