-- ===== src/Columnar/Cells.antt =====
-- What a `NullableColumn` or a `PrimColumn` holds: a list of rows, each a value or null.
use mathlib.Core.List.{map-append}
use rypipe.Prelude.{
  ℕ, zero, suc, ◌≤◌, ◌≡◌, refl, ap, false, Option, none, some, List, [], ◌∷◌, ◌++◌, map, length,
  get_elem?, get_or, take, drop, if◌then◌else◌, arith,
}
use rypipe.Columnar.Bitmap.{ValidityBitmap}
use rypipe.Columnar.Bitmap
use rypipe.Columnar.Contents.{Holds, push-Holds, is_valid_iff}
use rypipe.Columnar.Slices.{split_off-Holds}
use rypipe.Columnar.Flat.{is_some, unwrap_or, last, without_last}

-- The rows `xs`, as values and validity, with `d` for a null.
pub record Stores {T : Type 0} (d : T) (values : List T) (validity : ValidityBitmap)
    (xs : List (Option T)) : Type 0 where
  pub valid : Holds validity (map is_some xs)
  pub values_of : values ≡ map (unwrap_or d) xs

module _ {A B : Type 0} (f : A → B) where
  pub length-map : (xs : List A) → length (map f xs) ≡ length xs
  length-map [] = refl
  length-map (x ∷ xs) = ap suc (length-map xs)

  pub map-take : (n : ℕ) (xs : List A) → map f (take n xs) ≡ take n (map f xs)
  map-take zero xs = refl
  map-take (suc n) [] = refl
  map-take (suc n) (x ∷ xs) = ap (λ t. f x ∷ t) (map-take n xs)

  pub map-drop : (n : ℕ) (xs : List A) → map f (drop n xs) ≡ drop n (map f xs)
  map-drop zero xs = refl
  map-drop (suc n) [] = refl
  map-drop (suc n) (x ∷ xs) = map-drop n xs

module _ {A : Type 0} where
  pub last-snoc : (xs : List A) (x : A) → last (xs ++ (x ∷ [])) ≡ some x
  last-snoc [] x = refl
  last-snoc (y ∷ []) x = refl
  last-snoc (y ∷ (z ∷ xs)) x = last-snoc (z ∷ xs) x

  pub without_last-snoc : (xs : List A) (x : A) → without_last (xs ++ (x ∷ [])) ≡ xs
  without_last-snoc [] x = refl
  without_last-snoc (y ∷ []) x = refl
  without_last-snoc (y ∷ (z ∷ xs)) x = ap (λ t. y ∷ t) (without_last-snoc (z ∷ xs) x)

  -- The row `i` of a list of nullable rows.
  abbrev pub row_at : List (Option A) → ℕ → Option A
  row_at xs i = get_or xs i none

module _ {T : Type 0} (d : T) where
  pub value_if_valid :
      (xs : List (Option T)) (i : ℕ)
      → (if get_or (map is_some xs) i false then get_elem? (map (unwrap_or d) xs) i else none)
        ≡ row_at xs i
  value_if_valid [] i = refl
  value_if_valid (none ∷ xs) zero = refl
  value_if_valid (some x ∷ xs) zero = refl
  value_if_valid (x ∷ xs) (suc i) = value_if_valid xs i

  module _ (values : List T) (validity : ValidityBitmap) (xs : List (Option T))
      (s : Stores d values validity xs) where
    pub pushed :
        (x : Option T)
        → Stores d
            (values ++ (unwrap_or d x ∷ []))
            (Bitmap.push validity (is_some x))
            (xs ++ (x ∷ []))
    pushed x = record {
      valid =
          rw (map-append is_some xs (x ∷ []))
            (push-Holds validity (map is_some xs) s.valid (is_some x));
      values_of = rw (map-append (unwrap_or d) xs (x ∷ []), s.values_of) refl;
    }

    pub row_read :
        (i : ℕ) → (if Bitmap.is_valid validity i then get_elem? values i else none) ≡ row_at xs i
    row_read i =
        rw (is_valid_iff validity (map is_some xs) s.valid i, s.values_of) (value_if_valid xs i)

    pub first_rows :
        (n : ℕ)
        → n ≤ length xs
        → Stores d (take n values) (Bitmap.split_off validity n).0 (take n xs)
    first_rows n le = record {
      valid =
          rw (map-take is_some n xs)
            (split_off-Holds validity (map is_some xs) n s.valid
              (omega (arith, length-map is_some xs))).0;
      values_of = rw (map-take (unwrap_or d) n xs, s.values_of) refl;
    }

    pub other_rows :
        (n : ℕ)
        → n ≤ length xs
        → Stores d (drop n values) (Bitmap.split_off validity n).1 (drop n xs)
    other_rows n le = record {
      valid =
          rw (map-drop is_some n xs)
            (split_off-Holds validity (map is_some xs) n s.valid
              (omega (arith, length-map is_some xs))).1;
      values_of = rw (map-drop (unwrap_or d) n xs, s.values_of) refl;
    }
