-- ===== src/Columnar/Words.antt =====
-- The words of a dictionary, in the order of their codes, and what `dict_code` does to them.
use mathlib.Core.List.{append-nil, map-append}
use rypipe.Prelude.{
  ℕ, zero, suc, true, false, ◌+◌, ◌-◌, ◌^◌, ◌<◌, ◌≤◌, ◌≡◌, refl, sym, ap, ◌∙◌, Option, none, some,
  List, [], ◌∷◌, ◌++◌, Str, length, get_elem?, map, lookup, str_eq, str_eq_refl, eq_of_str_eq,
  if◌then◌else◌, arith, length-append, Bool-cases, Option-cases, inl, inr,
}
use rypipe.Columnar.Cells.{length-map}
use rypipe.Columnar.Texts.{as_i32}
use rypipe.Columnar.TextCells.{text_of, concat, ends, concat-append, ends-append}
use rypipe.Columnar.Dict.{Dictionary, new, dict_code, inserted}

-- One code more.
abbrev pub next : Option ℕ → Option ℕ
next none = none
next (some i) = some (suc i)

-- The code of a word: where it first stands.
unfoldable pub position : Str → List Str → Option ℕ
unfolding str_eq
position v [] = none
position v (w ∷ ws) = if str_eq w v then some 0 else next (position v ws)

-- The words, and `v` after them unless it is one.
unfoldable pub with_word : List Str → Str → List Str
unfolding position
with_word ws v = elim (position v ws) [ none ↦ ws ++ (v ∷ []) | some i ↦ ws ]

unfoldable pub with_words : List Str → List Str → List Str
unfolding with_word
with_words ws [] = ws
with_words ws (v ∷ vs) = with_words (with_word ws v) vs

-- The bytes that the words take.
abbrev pub size : List Str → ℕ
size ws = length (concat (map some ws))

-- The dictionary holds the words `ws`.
pub record HoldsWords (d : Dictionary) (ws : List Str) : Type 0 where
  pub text : d.bytes ≡ concat (map some ws)
  pub ends_of : d.offsets ≡ ends 0 (map some ws)
  pub found : (v : Str) → lookup v d.index ≡ position v ws
  pub small : size ws < 2 ^ 31
  pub few : length ws < 2 ^ 31

pub new-HoldsWords : HoldsWords new []
unfolding lookup position
new-HoldsWords = record {
  text = refl;
  ends_of = refl;
  found = λ v. refl;
  small = omega arith;
  few = omega arith;
}

pub position-found :
    (v : Str) (ws : List Str) (i : ℕ) → position v ws ≡ some i → get_elem? ws i ≡ some v
unfolding position
position-found v [] i h = cc
position-found v (w ∷ ws) i h = elim (Bool-cases (str_eq w v)) [
  | inl same ↦
      let e : some 0 ≡ some i = rw same at h in
      let word : w ≡ v = eq_of_str_eq w v same in let i_is : 0 ≡ i = cc in rw (← i_is, word) refl
  | inr other ↦
      let e : next (position v ws) ≡ some i = rw other at h in
      elim (Option-cases (position v ws)) [
        | inl missing ↦ let impossible : none ≡ some i = rw missing at e in cc
        | inr (j, there) ↦
            let at : some (suc j) ≡ some i = rw there at e in
            let i_is : suc j ≡ i = cc in rw (← i_is) (position-found v ws j there)
      ]
]

absent :
    (v w : Str) (ws : List Str)
    → position v (w ∷ ws) ≡ none
    → (str_eq w v ≡ false) × (position v ws ≡ none)
unfolding position
absent v w ws h = elim (Bool-cases (str_eq w v)) [
  | inl same ↦ let impossible : ◌≡◌ {A = Option ℕ} (some 0) none = rw same at h in cc
  | inr other ↦ elim (Option-cases (position v ws)) [
    | inl missing ↦ (other, missing)
    | inr (j, there) ↦
        let e : next (position v ws) ≡ none = rw other at h in
        let impossible : ◌≡◌ {A = Option ℕ} (some (suc j)) none = rw there at e in cc
  ]
]

pub position-append :
    (k v : Str) (ws : List Str)
    → position v ws ≡ none
    → position k (ws ++ (v ∷ [])) ≡ (if str_eq v k then some (length ws) else position k ws)
unfolding position
position-append k v [] h = refl
position-append k v (w ∷ ws) h =
    let (other, later) = absent v w ws h in
    let rest = position-append k v ws later in
    elim (Bool-cases (str_eq w k)) [
      | inl same ↦
          let word : w ≡ k = eq_of_str_eq w k same in
          elim (Bool-cases (str_eq v k)) [
            | inl new_same ↦
                let word' : v ≡ k = eq_of_str_eq v k new_same in
                let impossible : true ≡ false =
                  sym (str_eq_refl k)
                  ∙ ap (λ t. str_eq t k) (sym word)
                  ∙ ap (λ t. str_eq w t) (sym word')
                  ∙ other in
                cc
            | inr new_other ↦ rw (same, new_other) refl
          ]
      | inr differs ↦
          rw (differs, rest)
            (elim (Bool-cases (str_eq v k)) [
              | inl new_same ↦ rw new_same refl
              | inr new_other ↦ rw new_other refl
            ])
    ]

pub get_elem?-append :
    (ws vs : List Str) (i : ℕ) (w : Str) → get_elem? ws i ≡ some w → get_elem? (ws ++ vs) i ≡ some w
get_elem?-append [] vs i w h = cc
get_elem?-append (x ∷ ws) vs zero w h = h
get_elem?-append (x ∷ ws) vs (suc i) w h = get_elem?-append ws vs i w h

pub get_elem?-length : (ws : List Str) (v : Str) → get_elem? (ws ++ (v ∷ [])) (length ws) ≡ some v
get_elem?-length [] v = refl
get_elem?-length (w ∷ ws) v = get_elem?-length ws v

pub length-ends : (k : ℕ) (xs : List (Option Str)) → length (ends k xs) ≡ suc (length xs)
length-ends k [] = refl
length-ends k (x ∷ xs) = ap suc (length-ends (k + length (text_of x)) xs)

pub size-append : (ws : List Str) (v : Str) → size (ws ++ (v ∷ [])) ≡ size ws + length v
size-append ws v =
    ap length (ap concat (map-append some ws (v ∷ [])) ∙ concat-append (map some ws) (some v ∷ []))
    ∙ length-append (concat (map some ws)) (v ++ [])
    ∙ ap (λ t. size ws + length t) (append-nil v)

pub with_word-new :
    (ws : List Str) (v : Str) → position v ws ≡ none → with_word ws v ≡ ws ++ (v ∷ [])
unfolding with_word
with_word-new ws v h = rw (h, with_word) refl

pub with_word-old : (ws : List Str) (v : Str) (i : ℕ) → position v ws ≡ some i → with_word ws v ≡ ws
unfolding with_word
with_word-old ws v i h = rw (h, with_word) refl

dict_code-new :
    (d : Dictionary) (v : Str)
    → lookup v d.index ≡ none
    → dict_code d v ≡ (as_i32 (as_i32 (length d.offsets) + (2 ^ 32 - 1)), inserted d v)
unfolding dict_code
dict_code-new d v h = rw (h, dict_code) refl

dict_code-old :
    (d : Dictionary) (v : Str) (i : ℕ) → lookup v d.index ≡ some i → dict_code d v ≡ (i, d)
unfolding dict_code
dict_code-old d v i h = rw (h, dict_code) refl

-- The sizes of the words and of what they become.
pub size-with_word :
    (ws : List Str) (v : Str)
    → (size (with_word ws v) ≤ size ws + length v) × (length (with_word ws v) ≤ length ws + 1)
unfolding with_word
size-with_word ws v = elim (Option-cases (position v ws)) [
  | inl missing ↦
      rw (with_word-new ws v missing)
        (omega (arith, size-append ws v), omega (arith, length-append ws (v ∷ [])))
  | inr (j, there) ↦ rw (with_word-old ws v j there) (omega arith, omega arith)
]

-- The dictionary with a word that is new.
inserted-HoldsWords :
    (d : Dictionary) (ws : List Str) (v : Str)
    → HoldsWords d ws
    → position v ws ≡ none
    → size ws + length v < 2 ^ 31
    → length ws + 1 < 2 ^ 31
    → HoldsWords (inserted d v) (ws ++ (v ∷ []))
unfolding lookup
inserted-HoldsWords d ws v s missing small few =
    let whole : concat (map some (ws ++ (v ∷ []))) ≡ concat (map some ws) ++ v =
      ap concat (map-append some ws (v ∷ []))
      ∙ concat-append (map some ws) (some v ∷ [])
      ∙ ap (λ t. concat (map some ws) ++ t) (append-nil v) in
    let long : length (concat (map some ws) ++ v) ≡ size ws + length v =
      length-append (concat (map some ws)) v in
    let end : as_i32 (length (concat (map some ws) ++ v)) ≡ 0 + size ws + length v =
      omega (arith, long) in
    let code : as_i32 (as_i32 (length (ends 0 (map some ws))) + (2 ^ 32 - 1)) ≡ length ws =
      omega (arith, length-ends 0 (map some ws), length-map some ws, few) in
    record {
      text = rw (whole, s.text) refl;
      ends_of =
          rw
            (
              map-append some ws (v ∷ []),
              ends-append 0 (map some ws) (some v ∷ []),
              s.ends_of,
              s.text,
              end,
            )
            refl;
      found = λ k. rw (position-append k v ws missing, s.found k, s.ends_of, code) refl;
      small = omega (arith, size-append ws v);
      few = omega (arith, length-append ws (v ∷ []));
    }

-- For a dictionary that holds a list of words, with room for one more, `dict_code` gives a code
-- under which the dictionary then has the word.
pub dict_code-HoldsWords :
    (d : Dictionary) (ws : List Str) (v : Str)
    → HoldsWords d ws
    → size ws + length v < 2 ^ 31
    → length ws + 1 < 2 ^ 31
    → HoldsWords (dict_code d v).1 (with_word ws v)
      × (get_elem? (with_word ws v) (dict_code d v).0 ≡ some v)
dict_code-HoldsWords d ws v s small few = elim (Option-cases (position v ws)) [
  | inl missing ↦
      let code : as_i32 (as_i32 (length (ends 0 (map some ws))) + (2 ^ 32 - 1)) ≡ length ws =
        omega (arith, length-ends 0 (map some ws), length-map some ws, few) in
      rw (dict_code-new d v (s.found v ∙ missing), with_word-new ws v missing)
        (
          inserted-HoldsWords d ws v s missing small few,
          rw (s.ends_of, code) (get_elem?-length ws v),
        )
  | inr (j, there) ↦
      rw (dict_code-old d v j (s.found v ∙ there), with_word-old ws v j there)
        (s, position-found v ws j there)
]
