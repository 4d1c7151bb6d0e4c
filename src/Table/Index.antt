-- ===== src/Table/Index.antt =====
-- The index of a table's columns by their names, when a column is taken out.
use rypipe.Prelude.{
  ℕ, true, false, ◌≡◌, refl, sym, ap, ◌∙◌, none, some, List, [], ◌∷◌, Str, str_eq, str_eq_refl,
  eq_of_str_eq, lookup, ◌==◌, ==_iff, if◌then◌else◌, Bool-cases, inl, inr, arith, Option-cases,
}
use rypipe.Builder.Variants.{str_eq_symm}
use rypipe.Builder.Read.{mapped}
use rypipe.Table.Take.{remove_name, name_at, repointed}

-- Every name stands once in the index.
abbrev pub Distinct : List (Str × ℕ) → Type 0
Distinct [] = Unit {0}
Distinct ((k, i) ∷ ix) = (lookup k ix ≡ none) × Distinct ix

pub lookup-cons :
    (k other : Str) (i : ℕ) (ix : List (Str × ℕ))
    → lookup other ((k, i) ∷ ix) ≡ (if str_eq k other then some i else lookup other ix)
unfolding lookup
lookup-cons k other i ix = refl

pub lookup-remove_name :
    (ix : List (Str × ℕ)) (name other : Str)
    → lookup other (remove_name ix name) ≡ (if str_eq name other then none else lookup other ix)
unfolding lookup remove_name
lookup-remove_name [] name other = ground arith
lookup-remove_name ((k, i) ∷ ix) name other = elim (Bool-cases (str_eq k name)) [
  | inl mine ↦
      let same : k ≡ name = eq_of_str_eq k name mine in
      rw mine (lookup-remove_name ix name other ∙ rw same (ground arith))
  | inr kept ↦ rw kept (elim (Bool-cases (str_eq k other)) [
    | inl here ↦
        let same : k ≡ other = eq_of_str_eq k other here in
        let apart : str_eq name other ≡ false = rw (str_eq_symm name other) (rw same at kept) in
        rw (here, apart) refl
    | inr further ↦ rw further (lookup-remove_name ix name other)
  ])
]

pub Distinct-remove_name :
    (ix : List (Str × ℕ)) (name : Str) → Distinct ix → Distinct (remove_name ix name)
unfolding remove_name
Distinct-remove_name [] name d = d
Distinct-remove_name ((k, i) ∷ ix) name (new, d) = elim (Bool-cases (str_eq k name)) [
  | inl mine ↦ rw mine (Distinct-remove_name ix name d)
  | inr kept ↦
      rw kept
        (rw (lookup-remove_name ix name k, new) (ground arith), Distinct-remove_name ix name d)
]

name_at-lookup :
    (ix : List (Str × ℕ)) (i : ℕ) (k : Str)
    → Distinct ix
    → name_at ix i ≡ some k
    → lookup k ix ≡ some i
unfolding name_at lookup
name_at-lookup [] i k d h = cc
name_at-lookup ((j, v) ∷ ix) i k (new, d) h = elim (Bool-cases (v == i)) [
  | inl here ↦
      let e : some j ≡ some k = rw here at h in
      let same : j ≡ k = cc in rw (same, str_eq_refl k) (ap some ((==_iff v i).0 here))
  | inr further ↦
      let e : name_at ix i ≡ some k = rw further at h in
      let there : lookup k ix ≡ some i = name_at-lookup ix i k d e in
      elim (Bool-cases (str_eq j k)) [
        | inl mine ↦
            let same : j ≡ k = eq_of_str_eq j k mine in
            let gone : lookup k ix ≡ none = rw same at new in cc
        | inr other ↦ rw other there
      ]
]

name_at-none :
    (ix : List (Str × ℕ)) (i : ℕ) (k : Str) → name_at ix i ≡ none → lookup k ix ≡ some i → ⊥
unfolding name_at lookup
name_at-none [] i k h e = cc
name_at-none ((j, v) ∷ ix) i k h e = elim (Bool-cases (v == i)) [
  | inl here ↦ let impossible : some j ≡ none = rw here at h in cc
  | inr further ↦
      let rest : name_at ix i ≡ none = rw further at h in
      elim (Bool-cases (str_eq j k)) [
        | inl mine ↦
            let value : some v ≡ some i = rw mine at e in
            let same : v ≡ i = cc in ground (arith, same, further)
        | inr other ↦
            let there : lookup k ix ≡ some i = rw other at e in name_at-none ix i k rest there
      ]
]

-- The column `last` is that of `k`, which now stands at `idx`.
moved_or_kept :
    (ix : List (Str × ℕ)) (idx last : ℕ) (k other : Str)
    → ((a b : Str) (i : ℕ) → lookup a ix ≡ some i → lookup b ix ≡ some i → a ≡ b)
    → lookup k ix ≡ some last
    → (if str_eq k other then some idx else if str_eq k other then none else lookup other ix)
      ≡ mapped (λ i. if i == last then idx else i) (lookup other ix)
moved_or_kept ix idx last k other one moved = elim (Bool-cases (str_eq k other)) [
  | inl mine ↦
      let same : k ≡ other = eq_of_str_eq k other mine in
      let there : lookup other ix ≡ some last = rw same at moved in
      rw (mine, there) (ap some (ground arith))
  | inr apart ↦ rw apart (elim (Option-cases (lookup other ix)) [
    | inl gone ↦ rw gone refl
    | inr (i, there) ↦ rw there (elim (Bool-cases (i == last)) [
      | inl also ↦
          let last_too : lookup other ix ≡ some last = there ∙ ap some ((==_iff i last).0 also) in
          let same : k ≡ other = one k other last moved last_too in
          let itself : str_eq k other ≡ true = rw same (str_eq_refl other) in
          let impossible : false ≡ true = sym apart ∙ itself in cc
      | inr stays ↦ rw stays refl
    ])
  ])
]

-- The index after the column `idx` is taken: only the name of the column `last` has moved.
pub lookup-repointed :
    (ix : List (Str × ℕ)) (idx last : ℕ) (other : Str)
    → Distinct ix
    → ((a b : Str) (i : ℕ) → lookup a ix ≡ some i → lookup b ix ≡ some i → a ≡ b)
    → lookup other (repointed ix idx last)
      ≡ mapped (λ i. if i == last then idx else i) (lookup other ix)
unfolding repointed
lookup-repointed ix idx last other d one = elim (Bool-cases (idx == last)) [
  | inl at_end ↦ rw at_end (elim (Option-cases (lookup other ix)) [
    | inl gone ↦ rw gone refl
    | inr (i, there) ↦ rw there (ap some (ground (arith, at_end)))
  ])
  | inr inside ↦ rw inside (elim (Option-cases (name_at ix last)) [
    | inl nobody ↦ rw nobody (elim (Option-cases (lookup other ix)) [
      | inl gone ↦ rw gone refl
      | inr (i, there) ↦ rw there (elim (Bool-cases (i == last)) [
        | inl moved ↦
            let same : i ≡ last = (==_iff i last).0 moved in
            elim (name_at-none ix last other nobody (there ∙ ap some same)) [ ]
        | inr stays ↦ rw stays refl
      ])
    ])
    | inr (k, found) ↦
        let moved = name_at-lookup ix last k d found in
        rw found (
          rw (lookup-cons k other idx (remove_name ix k), lookup-remove_name ix k other)
            (moved_or_kept ix idx last k other one moved))
  ])
]

pub Distinct-repointed :
    (ix : List (Str × ℕ)) (idx last : ℕ) → Distinct ix → Distinct (repointed ix idx last)
unfolding repointed
Distinct-repointed ix idx last d = elim (Bool-cases (idx == last)) [
  | inl at_end ↦ rw at_end d
  | inr inside ↦ rw inside (elim (Option-cases (name_at ix last)) [
    | inl nobody ↦ rw nobody d
    | inr (k, found) ↦
        rw found (lookup-remove_name ix k k ∙ rw (str_eq_refl k) refl, Distinct-remove_name ix k d)
  ])
]
