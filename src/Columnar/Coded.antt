-- ===== src/Columnar/Coded.antt =====
-- A dictionary column as the texts that its codes stand for.
use mathlib.Core.List.{append-nil, append_assoc}
use rypipe.Prelude.{
  ℕ, ◌+◌, ◌^◌, ◌<◌, ◌≡◌, Option, none, some, List, [], ◌∷◌, ◌++◌, Str, length, get_elem?, get_or,
  arith,
}
use rypipe.Columnar.Texts.{as_usize}
use rypipe.Columnar.Nullable.{NullableColumn}
use rypipe.Columnar.Nullable
use rypipe.Columnar.Rows.{NullableRows, push-Rows}
use rypipe.Columnar.Dict.{Dictionary, dict_code, push_text, push_codes}
use rypipe.Columnar.Words.{HoldsWords, size, with_word, dict_code-HoldsWords}
use rypipe.Columnar.Entries.{get_elem?-lt}
use rypipe.Columnar.Remap.{Remaps, kept_by_word}

-- The codes `cs` stand, row by row, for the texts `xs`, and a null for a null.
unfoldable pub Coded : List Str → List (Option ℕ) → List (Option Str) → Type 0
Coded ws [] [] = Unit
Coded ws (none ∷ cs) (none ∷ xs) = Coded ws cs xs
Coded ws (some c ∷ cs) (some x ∷ xs) = (get_elem? ws c ≡ some x) × Coded ws cs xs
Coded ws _ _ = ⊥

-- The column of the codes and the dictionary, whose words are `ws`, holds the texts `xs`.
pub record DictRows (codes : NullableColumn ℕ) (d : Dictionary) (ws : List Str)
    (xs : List (Option Str)) : Type 0 where
  pub codes_of : List (Option ℕ)
  pub stored : NullableRows 0 codes codes_of
  pub dict : HoldsWords d ws
  pub each : Coded ws codes_of xs

-- Other words under which every code has the same text.
pub Coded-kept :
    (ws vs : List Str) (cs : List (Option ℕ)) (xs : List (Option Str))
    → ((i : ℕ) (w : Str) → get_elem? ws i ≡ some w → get_elem? vs i ≡ some w)
    → Coded ws cs xs
    → Coded vs cs xs
unfolding Coded
Coded-kept ws vs [] [] keeps h = h
Coded-kept ws vs (none ∷ cs) (none ∷ xs) keeps h = Coded-kept ws vs cs xs keeps h
Coded-kept ws vs (some c ∷ cs) (some x ∷ xs) keeps h =
    (keeps c x h.0, Coded-kept ws vs cs xs keeps h.1)
Coded-kept ws vs [] (x ∷ xs) keeps h = elim h [ ]
Coded-kept ws vs (none ∷ cs) [] keeps h = elim h [ ]
Coded-kept ws vs (some c ∷ cs) [] keeps h = elim h [ ]
Coded-kept ws vs (none ∷ cs) (some x ∷ xs) keeps h = elim h [ ]
Coded-kept ws vs (some c ∷ cs) (none ∷ xs) keeps h = elim h [ ]

Coded-append :
    (ws : List Str) (cs bs : List (Option ℕ)) (xs ys : List (Option Str))
    → Coded ws cs xs
    → Coded ws bs ys
    → Coded ws (cs ++ bs) (xs ++ ys)
unfolding Coded
Coded-append ws [] bs [] ys h k = k
Coded-append ws (none ∷ cs) bs (none ∷ xs) ys h k = Coded-append ws cs bs xs ys h k
Coded-append ws (some c ∷ cs) bs (some x ∷ xs) ys h k = (h.0, Coded-append ws cs bs xs ys h.1 k)
Coded-append ws [] bs (x ∷ xs) ys h k = elim h [ ]
Coded-append ws (none ∷ cs) bs [] ys h k = elim h [ ]
Coded-append ws (some c ∷ cs) bs [] ys h k = elim h [ ]
Coded-append ws (none ∷ cs) bs (some x ∷ xs) ys h k = elim h [ ]
Coded-append ws (some c ∷ cs) bs (none ∷ xs) ys h k = elim h [ ]

-- One code more.
push_code :
    (codes : NullableColumn ℕ) (d : Dictionary) (ws : List Str) (xs : List (Option Str))
    (c : Option ℕ) (x : Option Str)
    → DictRows codes d ws xs
    → Coded ws (c ∷ []) (x ∷ [])
    → DictRows (Nullable.push 0 codes c) d ws (xs ++ (x ∷ []))
push_code codes d ws xs c x s h = record {
  codes_of = s.codes_of ++ (c ∷ []);
  stored =
      (push-Rows 0 codes (record { items = codes.values; validity = codes.validity }) s.codes_of c
        s.stored s.stored).0;
  dict = s.dict;
  each = Coded-append ws s.codes_of (c ∷ []) xs (x ∷ []) s.each h;
}

-- For a dictionary column that holds a list of texts, with room for one more word, a push adds the
-- text at the end.
pub push_text-DictRows :
    (codes : NullableColumn ℕ) (d : Dictionary) (ws : List Str) (xs : List (Option Str)) (v : Str)
    → DictRows codes d ws xs
    → size ws + length v < 2 ^ 31
    → length ws + 1 < 2 ^ 31
    → DictRows
        (push_text codes d (some v)).0
        (push_text codes d (some v)).1
        (with_word ws v)
        (xs ++ (some v ∷ []))
unfolding push_text Coded
push_text-DictRows codes d ws xs v s small few =
    let (held, mine) = dict_code-HoldsWords d ws v s.dict small few in
    push_code codes (dict_code d v).1 (with_word ws v) xs (some (dict_code d v).0) (some v)
      (record {
        codes_of = s.codes_of;
        stored = s.stored;
        dict = held;
        each = Coded-kept ws (with_word ws v) s.codes_of xs (kept_by_word ws v) s.each;
      })
      (mine, tt)

pub push_null-DictRows :
    (codes : NullableColumn ℕ) (d : Dictionary) (ws : List Str) (xs : List (Option Str))
    → DictRows codes d ws xs
    → DictRows (push_text codes d none).0 (push_text codes d none).1 ws (xs ++ (none ∷ []))
unfolding push_text Coded
push_null-DictRows codes d ws xs s = push_code codes d ws xs none none s tt

-- The codes of another column, through the remap.
pub push_codes-DictRows :
    (codes : NullableColumn ℕ) (d : Dictionary) (ws vs : List Str) (remap : List ℕ)
    (xs ys : List (Option Str)) (cs : List (Option ℕ))
    → DictRows codes d ws xs
    → Remaps remap vs ws
    → length vs < 2 ^ 31
    → Coded vs cs ys
    → DictRows (push_codes codes remap cs) d ws (xs ++ ys)
unfolding push_codes Coded
push_codes-DictRows codes d ws vs remap xs [] [] s r few h = rw (append-nil xs) s
push_codes-DictRows codes d ws vs remap xs (none ∷ ys) (none ∷ cs) s r few h =
    rw (← append_assoc xs (none ∷ []) ys) (
      push_codes-DictRows (Nullable.push 0 codes none) d ws vs remap (xs ++ (none ∷ [])) ys cs
        (push_code codes d ws xs none none s tt) r few h)
push_codes-DictRows codes d ws vs remap xs (some y ∷ ys) (some c ∷ cs) s r few h =
    let within : as_usize c ≡ c = ground (arith, get_elem?-lt vs c y h.0) in
    rw (← append_assoc xs (some y ∷ []) ys, within)
      (push_codes-DictRows (Nullable.push 0 codes (some (get_or remap c 0))) d ws vs remap
        (xs ++ (some y ∷ [])) ys cs
        (push_code codes d ws xs (some (get_or remap c 0)) (some y) s (r.word c y h.0, tt)) r few
        h.1)
push_codes-DictRows codes d ws vs remap xs ys [] s r few h = elim h [ ]
push_codes-DictRows codes d ws vs remap xs [] (none ∷ cs) s r few h = elim h [ ]
push_codes-DictRows codes d ws vs remap xs [] (some c ∷ cs) s r few h = elim h [ ]
push_codes-DictRows codes d ws vs remap xs (some y ∷ ys) (none ∷ cs) s r few h = elim h [ ]
push_codes-DictRows codes d ws vs remap xs (none ∷ ys) (some c ∷ cs) s r few h = elim h [ ]
