-- ===== src/Columnar/Remap.antt =====
-- The remap of one dictionary into another: what `extend_owned` builds before it moves the codes.
use rypipe.Prelude.{
  ℕ, zero, suc, Bool, true, ◌+◌, ◌^◌, ◌<◌, ◌≡◌, refl, ◌∙◌, none, some, List, [], ◌∷◌, Str, length,
  get_elem?, get_or, arith, length-append, Option-cases, inl, inr,
}
use rypipe.Columnar.Dict.{Dictionary, dict_code, entry_text, remap_from}
use rypipe.Columnar.Words.{
  HoldsWords, size, position, with_word, with_words, with_word-new, with_word-old, size-with_word,
  get_elem?-append, dict_code-HoldsWords,
}
use rypipe.Columnar.Entries.{word_bytes}

-- A code keeps its word.
pub kept_by_word :
    (ws : List Str) (v : Str) (i : ℕ) (w : Str)
    → get_elem? ws i ≡ some w
    → get_elem? (with_word ws v) i ≡ some w
kept_by_word ws v i w h = elim (Option-cases (position v ws)) [
  | inl missing ↦ rw (with_word-new ws v missing) (get_elem?-append ws (v ∷ []) i w h)
  | inr (j, there) ↦ rw (with_word-old ws v j there) h
]

pub kept_by_words :
    (ws vs : List Str) (i : ℕ) (w : Str)
    → get_elem? ws i ≡ some w
    → get_elem? (with_words ws vs) i ≡ some w
unfolding with_words
kept_by_words ws [] i w h = h
kept_by_words ws (v ∷ vs) i w h = kept_by_words (with_word ws v) vs i w (kept_by_word ws v i w h)

-- Every entry of `vs` has, in `ws`, the code that the remap gives it.
pub record Remaps (remap : List ℕ) (vs ws : List Str) : Type 0 where
  pub word : (i : ℕ) (v : Str) → get_elem? vs i ≡ some v → get_elem? ws (get_or remap i 0) ≡ some v

pub size-cons : (v : Str) (vs : List Str) → size (v ∷ vs) ≡ length v + size vs
size-cons v vs = length-append v _

codes_of :
    (code : ℕ) (v : Str) (vs : List Str) (remap : List ℕ) (ws : List Str)
    → get_elem? ws code ≡ some v
    → Remaps remap vs ws
    → (i : ℕ) (w : Str) → get_elem? (v ∷ vs) i ≡ some w
    → get_elem? ws (get_or (code ∷ remap) i 0) ≡ some w
codes_of code v vs remap ws first rest zero w h = first ∙ h
codes_of code v vs remap ws first rest (suc i) w h = rest.word i w h

entry_text-word :
    (utf8 : Str → Bool) (d : Dictionary) (ws : List Str) (i : ℕ) (w : Str)
    → HoldsWords d ws
    → get_elem? ws i ≡ some w
    → utf8 w ≡ true
    → entry_text utf8 d i ≡ w
unfolding entry_text
entry_text-word utf8 d ws i w s there encoded =
    let (first, second, text) = word_bytes d ws i w s there in rw (text, encoded) refl

remap_from-zero :
    (utf8 : Str → Bool) (d b : Dictionary) (from : ℕ) → remap_from utf8 d b from zero ≡ ([], d)
unfolding remap_from
remap_from-zero utf8 d b from = refl

remap_from-suc :
    (utf8 : Str → Bool) (d b : Dictionary) (from count : ℕ) (v : Str)
    → entry_text utf8 b from ≡ v
    → remap_from utf8 d b from (suc count) ≡ (
      (dict_code d v).0 ∷ (remap_from utf8 (dict_code d v).1 b (from + 1) count).0,
      (remap_from utf8 (dict_code d v).1 b (from + 1) count).1,
    )
unfolding remap_from
remap_from-suc utf8 d b from count v h = rw h refl

pub remap_from-Remaps :
    (utf8 : Str → Bool) (d b : Dictionary) (ws vs tail : List Str) (from : ℕ)
    → HoldsWords d ws
    → HoldsWords b vs
    → ((i : ℕ) (v : Str) → get_elem? vs i ≡ some v → utf8 v ≡ true)
    → ((i : ℕ) → get_elem? vs (from + i) ≡ get_elem? tail i)
    → size ws + size tail < 2 ^ 31
    → length ws + length tail < 2 ^ 31
    → HoldsWords (remap_from utf8 d b from (length tail)).1 (with_words ws tail)
      × Remaps (remap_from utf8 d b from (length tail)).0 tail (with_words ws tail)
unfolding with_words
remap_from-Remaps utf8 d b ws vs [] from s t encoded at small few =
    rw (remap_from-zero utf8 d b from)
      (s, record { word = λ i v h. let impossible : none ≡ some v = h in cc })
remap_from-Remaps utf8 d b ws vs (v ∷ tail) from s t encoded at small few =
    let zero_on : from + 0 ≡ from = omega arith in
    let there : get_elem? vs from ≡ some v = rw zero_on at (at 0) in
    let text = entry_text-word utf8 b vs from v t there (encoded from v there) in
    let more = size-cons v tail in
    let grown = size-with_word ws v in
    let (s', mine) = dict_code-HoldsWords d ws v s (omega arith) (omega arith) in
    let next : (i : ℕ) → get_elem? vs (from + 1 + i) ≡ get_elem? tail i =
      λ i. let on : from + suc i ≡ from + 1 + i = omega arith in rw on at (at (suc i)) in
    let (held, rest) =
      remap_from-Remaps utf8 (dict_code d v).1 b (with_word ws v) vs tail (from + 1) s' t encoded
        next (omega arith) (omega arith) in
    let step = remap_from-suc utf8 d b from (length tail) v text in
    rw step (
      held,
      record {
        word =
            codes_of (dict_code d v).0 v tail _ (with_words (with_word ws v) tail)
              (kept_by_words (with_word ws v) tail (dict_code d v).0 v mine) rest;
      },
    )
