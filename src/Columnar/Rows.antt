-- ===== src/Columnar/Rows.antt =====
-- The operations of `NullableColumn` and `PrimColumn` on the rows that the columns hold.
use mathlib.Core.List.{map-append}
use rypipe.Prelude.{
  ℕ, suc, ◌+◌, ◌≤◌, ◌≡◌, refl, ap, ◌∙◌, Option, some, List, [], ◌∷◌, ◌++◌, map, length, take, drop,
  arith,
}
use rypipe.Columnar.Bitmap.{ValidityBitmap}
use rypipe.Columnar.Slices.{pop-Holds, append-Holds}
use rypipe.Columnar.Bitmap
use rypipe.Columnar.Flat.{is_some, unwrap_or, last, without_last}
use rypipe.Columnar.Nullable.{NullableColumn, iter, iter_range}
use rypipe.Columnar.Nullable
use rypipe.Columnar.Primitive.{PrimColumn, append}
use rypipe.Columnar.Primitive
use rypipe.Columnar.Cells.{
  Stores, row_at, length-map, last-snoc, without_last-snoc, pushed, row_read, first_rows,
  other_rows,
}

module _ {T : Type 0} (d : T) where
  -- The rows of a nullable, and of a primitive column.
  abbrev pub NullableRows : NullableColumn T → List (Option T) → Type 0
  NullableRows c xs = Stores d c.values c.validity xs

  abbrev pub PrimRows : PrimColumn T → List (Option T) → Type 0
  PrimRows c xs = Stores d c.items c.validity xs

  pub get_iff :
      (c : NullableColumn T) (xs : List (Option T))
      → NullableRows c xs
      → (i : ℕ) → Nullable.get d c i ≡ row_at xs i
  unfolding Nullable.get
  get_iff c xs s i = row_read d c.values c.validity xs s i

  rows_from :
      (c : NullableColumn T) (from : ℕ) (ys : List (Option T))
      → ((i : ℕ) → Nullable.get d c (from + i) ≡ row_at ys i)
      → iter_range d c from (length ys) ≡ ys
  unfolding iter_range
  rows_from c from [] at = refl
  rows_from c from (y ∷ ys) at =
      let zero_on : from + 0 ≡ from = omega arith in
      let first : Nullable.get d c from ≡ y = rw zero_on at (at 0) in
      let next : (i : ℕ) → Nullable.get d c (from + 1 + i) ≡ row_at ys i =
        λ i. let on : from + suc i ≡ from + 1 + i = omega arith in rw on at (at (suc i)) in
      rw (first, rows_from c (from + 1) ys next) refl

  -- For a nullable column that holds a list of rows, `iter` gives these rows in order.
  pub iter-Rows : (c : NullableColumn T) (xs : List (Option T)) → NullableRows c xs → iter d c ≡ xs
  unfolding iter
  iter-Rows c xs s =
      let n : c.validity.len ≡ length xs = s.valid.rows ∙ length-map is_some xs in
      let here : (i : ℕ) → Nullable.get d c (0 + i) ≡ row_at xs i =
        λ i. let on : 0 + i ≡ i = omega arith in rw on (get_iff c xs s i) in
      ap (λ count. iter_range d c 0 count) n ∙ rows_from c 0 xs here

  -- `push` adds a row at the end of a nullable column, and of a primitive one.
  pub push-Rows :
      (c : NullableColumn T) (p : PrimColumn T) (xs : List (Option T)) (x : Option T)
      → NullableRows c xs
      → PrimRows p xs
      → NullableRows (Nullable.push d c x) (xs ++ (x ∷ []))
        × PrimRows (Primitive.push d p x) (xs ++ (x ∷ []))
  unfolding Nullable.push Primitive.push
  push-Rows c p xs x s t = (pushed d c.values c.validity xs s x, pushed d p.items p.validity xs t x)

  -- For a nullable and a primitive column that hold the same rows, and `n` at most their number,
  -- `split_off` gives a column of the first `n` rows and leaves one of the others.
  pub split_off-Rows :
      (c : NullableColumn T) (p : PrimColumn T) (xs : List (Option T)) (n : ℕ)
      → NullableRows c xs
      → PrimRows p xs
      → n ≤ length xs
      → (NullableRows (Nullable.split_off d c n).0 (take n xs)
          × NullableRows (Nullable.split_off d c n).1 (drop n xs))
        × (PrimRows (Primitive.split_off d p n).0 (take n xs)
            × PrimRows (Primitive.split_off d p n).1 (drop n xs))
  unfolding Nullable.split_off Primitive.split_off
  split_off-Rows c p xs n s t le = (
    (first_rows d c.values c.validity xs s n le, other_rows d c.values c.validity xs s n le),
    (first_rows d p.items p.validity xs t n le, other_rows d p.items p.validity xs t n le),
  )

  -- For two primitive columns that hold lists of rows, `append` gives a column of the rows of the
  -- first and then those of the second.
  pub append-Rows :
      (c o : PrimColumn T) (xs ys : List (Option T))
      → PrimRows c xs
      → PrimRows o ys
      → PrimRows (append d c o) (xs ++ ys)
  unfolding append
  append-Rows c o xs ys s t = record {
    valid =
        rw (map-append is_some xs ys)
          (append-Holds c.validity o.validity (map is_some xs) (map is_some ys) s.valid t.valid);
    values_of = rw (map-append (unwrap_or d) xs ys, s.values_of, t.values_of) refl;
  }

  last_value :
      (values : List T) (xs : List (Option T)) (x : Option T)
      → values ≡ map (unwrap_or d) (xs ++ (x ∷ []))
      → values ≡ map (unwrap_or d) xs ++ (unwrap_or d x ∷ [])
  last_value values xs x h = h ∙ map-append (unwrap_or d) xs (x ∷ [])

  popped :
      (values : List T) (validity : ValidityBitmap) (xs : List (Option T)) (x : Option T)
      → Stores d values validity (xs ++ (x ∷ []))
      → ((Bitmap.pop validity).0 ≡ some (is_some x))
        × Stores d (without_last values) (Bitmap.pop validity).1 xs
  popped values validity xs x s =
      let held = rw (map-append is_some xs (x ∷ [])) at s.valid in
      let (bit, rest) = pop-Holds validity (map is_some xs) (is_some x) held in
      (
        bit,
        record {
          valid = rest;
          values_of =
              rw (last_value values xs x s.values_of)
                (without_last-snoc (map (unwrap_or d) xs) (unwrap_or d x));
        },
      )

  -- For a nullable and a primitive column that hold the same rows, with a last one, `pop` leaves
  -- columns of the other rows, and that of the nullable column gives the value of the last row, or
  -- the default if it is null.
  pub pop-Rows :
      (c : NullableColumn T) (p : PrimColumn T) (xs : List (Option T)) (x : Option T)
      → NullableRows c (xs ++ (x ∷ []))
      → PrimRows p (xs ++ (x ∷ []))
      → ((Nullable.pop d c).0 ≡ some (unwrap_or d x))
        × (NullableRows (Nullable.pop d c).1 xs × PrimRows (Primitive.pop d p) xs)
  unfolding Nullable.pop Primitive.pop
  pop-Rows c p xs x s t =
      let (bit, below) = popped c.values c.validity xs x s in
      let value : last c.values ≡ some (unwrap_or d x) =
        rw (last_value c.values xs x s.values_of)
          (last-snoc (map (unwrap_or d) xs) (unwrap_or d x)) in
      rw (bit, Nullable.pop) (value, (below, (popped p.items p.validity xs x t).1))
