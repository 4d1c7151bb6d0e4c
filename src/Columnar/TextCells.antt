-- ===== src/Columnar/TextCells.antt =====
-- The bytes and the offsets of a list of texts, as a `StrColumn` keeps them.
use mathlib.Core.List.{append_assoc}
use rypipe.Prelude.{
  ℕ, zero, suc, ◌+◌, ◌-◌, ◌^◌, ◌<◌, ◌≤◌, ◌≡◌, refl, sym, ap, ◌∙◌, Option, List, [], ◌∷◌, ◌++◌, Str,
  length, get_or, take, drop, map, arith, length-append,
}
use rypipe.Columnar.Flat.{unwrap_or}
use rypipe.Columnar.Texts.{as_i32}

abbrev pub text_of : Option Str → Str
text_of x = unwrap_or [] x

abbrev pub concat : List (Option Str) → Str
concat [] = []
concat (x ∷ xs) = text_of x ++ concat xs

-- Where each row ends, after the start `k` of the first.
abbrev pub ends : ℕ → List (Option Str) → List ℕ
ends k [] = k ∷ []
ends k (x ∷ xs) = k ∷ ends (k + length (text_of x)) xs

pub concat-append : (xs ys : List (Option Str)) → concat (xs ++ ys) ≡ concat xs ++ concat ys
concat-append [] ys = refl
concat-append (x ∷ xs) ys =
    ap (λ t. text_of x ++ t) (concat-append xs ys)
    ∙ sym (append_assoc (text_of x) (concat xs) (concat ys))

pub ends-head : (k : ℕ) (ys : List (Option Str)) → ends k ys ≡ k ∷ drop 1 (ends k ys)
ends-head k [] = refl
ends-head k (y ∷ ys) = refl

-- The start of the rows after `x` and `xs`.
start_after :
    (k : ℕ) (x : Option Str) (xs : List (Option Str))
    → k + length (text_of x) + length (concat xs) ≡ k + length (text_of x ++ concat xs)
start_after k x xs = omega (arith, length-append (text_of x) (concat xs))

pub ends-append :
    (k : ℕ) (xs ys : List (Option Str))
    → ends k (xs ++ ys) ≡ ends k xs ++ drop 1 (ends (k + length (concat xs)) ys)
ends-append k [] ys = let here : k + 0 ≡ k = omega arith in rw here (ends-head k ys)
ends-append k (x ∷ xs) ys =
    rw (← start_after k x xs) (ap (λ t. k ∷ t) (ends-append (k + length (text_of x)) xs ys))

pub map-ends-shift :
    (k m : ℕ) (xs : List (Option Str))
    → m + k + length (concat xs) < 2 ^ 31
    → map (λ o. as_i32 (o + k)) (ends m xs) ≡ ends (m + k) xs
map-ends-shift k m [] h = let small : as_i32 (m + k) ≡ m + k = omega arith in rw small refl
map-ends-shift k m (x ∷ xs) h =
    let small : as_i32 (m + k) ≡ m + k = omega (arith, start_after m x xs) in
    let order : m + length (text_of x) + k ≡ m + k + length (text_of x) = omega arith in
    let rest = map-ends-shift k (m + length (text_of x)) xs (omega (arith, start_after m x xs)) in
    rw small (ap (λ t. (m + k) ∷ t) (rw order at rest))

pub map-ends-back :
    (k m : ℕ) (xs : List (Option Str))
    → k + m + length (concat xs) < 2 ^ 31
    → map (λ off. as_i32 (off + 2 ^ 32 - as_i32 m)) (ends (k + m) xs) ≡ ends k xs
map-ends-back k m [] h =
    let back : as_i32 (k + m + 2 ^ 32 - as_i32 m) ≡ k = omega arith in rw back refl
map-ends-back k m (x ∷ xs) h =
    let back : as_i32 (k + m + 2 ^ 32 - as_i32 m) ≡ k = omega arith in
    let order : k + length (text_of x) + m ≡ k + m + length (text_of x) = omega arith in
    let rest = map-ends-back (k + length (text_of x)) m xs (omega (arith, start_after k x xs)) in
    rw back (ap (λ t. k ∷ t) (rw order at rest))

pub get_or-ends :
    (k n : ℕ) (xs : List (Option Str))
    → n ≤ length xs
    → get_or (ends k xs) n 0 ≡ k + length (concat (take n xs))
get_or-ends k zero [] h = omega arith
get_or-ends k zero (x ∷ xs) h = omega arith
get_or-ends k (suc n) [] h = ground arith
get_or-ends k (suc n) (x ∷ xs) h = omega (
  arith,
  get_or-ends (k + length (text_of x)) n xs,
  length-append (text_of x) (concat (take n xs)),
)

pub take-ends :
    (k n : ℕ) (xs : List (Option Str))
    → n ≤ length xs
    → take (suc n) (ends k xs) ≡ ends k (take n xs)
take-ends k zero [] h = refl
take-ends k zero (x ∷ xs) h = refl
take-ends k (suc n) [] h = ground arith
take-ends k (suc n) (x ∷ xs) h =
    ap (λ t. k ∷ t) (take-ends (k + length (text_of x)) n xs (omega arith))

pub drop-ends :
    (k n : ℕ) (xs : List (Option Str))
    → n ≤ length xs
    → drop n (ends k xs) ≡ ends (k + length (concat (take n xs))) (drop n xs)
drop-ends k zero xs h = let here : k + 0 ≡ k = omega arith in rw here refl
drop-ends k (suc n) [] h = ground arith
drop-ends k (suc n) (x ∷ xs) h =
    rw (← start_after k x (take n xs)) (drop-ends (k + length (text_of x)) n xs (omega arith))

module _ {A : Type 0} where
  pub take-length-append : (xs ys : List A) → take (length xs) (xs ++ ys) ≡ xs
  take-length-append [] ys = refl
  take-length-append (x ∷ xs) ys = ap (λ t. x ∷ t) (take-length-append xs ys)

  pub drop-next : (n : ℕ) (xs : List A) → drop (suc n) xs ≡ drop 1 (drop n xs)
  drop-next zero xs = refl
  drop-next (suc n) [] = refl
  drop-next (suc n) (x ∷ xs) = drop-next n xs

  pub drop-length-append : (xs ys : List A) → drop (length xs) (xs ++ ys) ≡ ys
  drop-length-append [] ys = refl
  drop-length-append (x ∷ xs) ys = drop-length-append xs ys
