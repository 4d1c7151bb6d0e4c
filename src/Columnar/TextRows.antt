-- ===== src/Columnar/TextRows.antt =====
-- The operations of `StrColumn` on the texts that the column holds, while they are below 2^31 bytes.
use mathlib.Core.List.{append-nil, map-append}
use rypipe.Prelude.{
  ℕ, zero, suc, true, false, ◌+◌, ◌-◌, ◌^◌, ◌<◌, ◌≤◌, ◌≡◌, refl, sym, ap, ◌∙◌, Option, List, [],
  ◌∷◌, ◌++◌, Str, length, get_or, take, drop, map, arith, length-append, take-append-drop, ◌==◌,
  Bool-cases, inl, inr,
}
use rypipe.Columnar.Contents.{Holds, push-Holds}
use rypipe.Columnar.Slices.{append-Holds, split_off-Holds, empty-Holds, take_all}
use rypipe.Columnar.Flat.{is_some}
use rypipe.Columnar.Cells.{length-map, map-take, map-drop}
use rypipe.Columnar.Texts.{StrColumn, as_i32, as_usize, new, push, split_off, append}
use rypipe.Columnar.TextCells.{
  text_of, concat, ends, concat-append, ends-append, map-ends-shift, map-ends-back, ends-head,
  drop-next, get_or-ends, take-ends, drop-ends, take-length-append, drop-length-append,
}

-- The column holds the rows `xs`, which take less than 2^31 bytes.
pub record TextRows (c : StrColumn) (xs : List (Option Str)) : Type 0 where
  pub valid : Holds c.validity (map is_some xs)
  pub text : c.bytes ≡ concat xs
  pub ends_of : c.offsets ≡ ends 0 xs
  pub small : length (concat xs) < 2 ^ 31

pub new-TextRows : TextRows new []
new-TextRows = record { valid = empty-Holds; text = refl; ends_of = refl; small = omega arith }

-- For a text column that holds a list of rows, `push` gives one that holds one row more at the
-- end, if all stay below 2^31 bytes.
pub push-TextRows :
    (c : StrColumn) (xs : List (Option Str)) (x : Option Str)
    → TextRows c xs
    → length (concat xs) + length (text_of x) < 2 ^ 31
    → TextRows (push c x) (xs ++ (x ∷ []))
unfolding push
push-TextRows c xs x s small =
    let whole : concat (xs ++ (x ∷ [])) ≡ concat xs ++ text_of x =
      concat-append xs (x ∷ []) ∙ ap (λ t. concat xs ++ t) (append-nil (text_of x)) in
    let long : length (concat xs ++ text_of x) ≡ length (concat xs) + length (text_of x) =
      length-append (concat xs) (text_of x) in
    let end : as_i32 (length (concat xs ++ text_of x))
        ≡ 0 + length (concat xs) + length (text_of x) =
      omega (arith, long) in
    record {
      valid =
          rw (map-append is_some xs (x ∷ []))
            (push-Holds c.validity (map is_some xs) s.valid (is_some x));
      text = rw (whole, s.text) refl;
      ends_of = rw (ends-append 0 xs (x ∷ []), s.ends_of, s.text, end) refl;
      small = rw whole (omega (arith, long));
    }

-- The bytes of the first rows, and of the others.
pub split_text :
    (xs : List (Option Str)) (n : ℕ)
    → (take (length (concat (take n xs))) (concat xs) ≡ concat (take n xs))
      × (drop (length (concat (take n xs))) (concat xs) ≡ concat (drop n xs))
split_text xs n =
    let both : concat xs ≡ concat (take n xs) ++ concat (drop n xs) =
      ap concat (sym (take-append-drop n xs)) ∙ concat-append (take n xs) (drop n xs) in
    (
      rw both (take-length-append (concat (take n xs)) (concat (drop n xs))),
      rw both (drop-length-append (concat (take n xs)) (concat (drop n xs))),
    )

-- For two text columns that hold lists of rows in less than 2^31 bytes together, `append` gives a
-- column of the rows of the first and then those of the second.
pub append-TextRows :
    (c o : StrColumn) (xs ys : List (Option Str))
    → TextRows c xs
    → TextRows o ys
    → length (concat xs) + length (concat ys) < 2 ^ 31
    → TextRows (append c o) (xs ++ ys)
unfolding append
append-TextRows c o xs ys s t small =
    let base : as_i32 (length (concat xs)) ≡ length (concat xs) = omega (arith, s.small) in
    let long = length-append (concat xs) (concat ys) in
    record {
      valid =
          rw (map-append is_some xs ys)
            (append-Holds c.validity o.validity (map is_some xs) (map is_some ys) s.valid t.valid);
      text = rw (concat-append xs ys, s.text, t.text) refl;
      ends_of =
          rw (ends-append 0 xs ys, s.ends_of, t.ends_of, s.text, base)
            (ap (λ t. ends 0 xs ++ t)
              (map-drop (λ o'. as_i32 (o' + length (concat xs))) 1 (ends 0 ys)
                ∙ ap (λ t. drop 1 t)
                    (map-ends-shift (length (concat xs)) 0 ys (omega (arith, small)))));
      small = rw (concat-append xs ys) (omega (arith, long));
    }

-- The prefix of a column that ends within it.
part_of-TextRows :
    (c : StrColumn) (xs : List (Option Str)) (n : ℕ)
    → TextRows c xs
    → n ≤ length xs
    → (n == 0) ≡ false
    → (n == c.validity.len) ≡ false
    → TextRows (split_off c n).0 (take n xs) × TextRows (split_off c n).1 (drop n xs)
unfolding split_off
part_of-TextRows c xs n s le some_rows inside =
    let m : ℕ = length (concat (take n xs)) in
    let (first, rest) = split_text xs n in
    let total : length (concat xs) ≡ m + length (concat (drop n xs)) =
      ap (λ t. length (concat t)) (sym (take-append-drop n xs))
      ∙ ap length (concat-append (take n xs) (drop n xs))
      ∙ length-append (concat (take n xs)) (concat (drop n xs)) in
    let at : get_or (ends 0 xs) n 0 ≡ m = omega (arith, get_or-ends 0 n xs le) in
    let offset : as_usize m ≡ m = ground (arith, s.small, total) in
    let next : n + 1 ≡ suc n = omega arith in
    let (bits, others) =
      split_off-Holds c.validity (map is_some xs) n s.valid
        (omega (arith, length-map is_some xs)) in
    let back = map-ends-back 0 m (drop n xs) (omega (arith, s.small, total)) in
    let tail : drop (suc n) (ends 0 xs) ≡ drop 1 (ends (0 + m) (drop n xs)) =
      drop-next n (ends 0 xs) ∙ ap (λ t. drop 1 t) (drop-ends 0 n xs le) in
    let offsets : 0 ∷ map (λ off. as_i32 (off + 2 ^ 32 - as_i32 m)) (drop (suc n) (ends 0 xs))
        ≡ ends 0 (drop n xs) =
      ap (λ t. 0 ∷ t)
        (ap (λ t. map (λ off. as_i32 (off + 2 ^ 32 - as_i32 m)) t) tail
          ∙ map-drop (λ off. as_i32 (off + 2 ^ 32 - as_i32 m)) 1 (ends (0 + m) (drop n xs))
          ∙ ap (λ t. drop 1 t) back)
      ∙ sym (ends-head 0 (drop n xs)) in
    rw (s.ends_of, s.text, at, some_rows, inside, offset, next)
      (
        record {
          valid = rw (map-take is_some n xs) bits;
          text = first;
          ends_of = take-ends 0 n xs le;
          small = omega (arith, s.small, total);
        },
        record {
          valid = rw (map-drop is_some n xs) others;
          text = rest;
          ends_of = offsets;
          small = omega (arith, s.small, total);
        },
      )

drop_all : {A : Type 0} (n : ℕ) (xs : List A) → n ≡ length xs → drop n xs ≡ []
drop_all zero [] h = refl
drop_all (suc n) [] h = refl
drop_all zero (x ∷ xs) h = ground arith
drop_all (suc n) (x ∷ xs) h = drop_all n xs (omega arith)

-- All the rows of a column, which then starts anew.
all-TextRows :
    (c : StrColumn) (xs : List (Option Str)) (n : ℕ)
    → TextRows c xs
    → (n == 0) ≡ false
    → (n == c.validity.len) ≡ true
    → n ≡ length xs
    → TextRows (split_off c n).0 (take n xs) × TextRows (split_off c n).1 (drop n xs)
unfolding split_off
all-TextRows c xs n s some_rows all rows =
    rw (some_rows, all, take_all xs n rows, drop_all n xs rows) (s, new-TextRows)

-- For a text column that holds a list of rows in less than 2^31 bytes, and `n` above 0 and at most
-- their number, `split_off` gives a column of the first `n` rows and leaves one of the others.
pub split_off-TextRows :
    (c : StrColumn) (xs : List (Option Str)) (n : ℕ)
    → TextRows c xs
    → 0 < n
    → n ≤ length xs
    → TextRows (split_off c n).0 (take n xs) × TextRows (split_off c n).1 (drop n xs)
split_off-TextRows c xs n s some_rows le =
    let rows : c.validity.len ≡ length xs = s.valid.rows ∙ length-map is_some xs in
    let not_none : (n == 0) ≡ false = ground (arith, some_rows) in
    elim (Bool-cases (n == c.validity.len)) [
      | inl all ↦ all-TextRows c xs n s not_none all (ground (arith, rows))
      | inr inside ↦ part_of-TextRows c xs n s le not_none inside
    ]
