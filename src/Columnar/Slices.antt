-- ===== src/Columnar/Slices.antt =====
-- The operations of `ValidityBitmap` that take rows away or bring several: `pop`, `append` and
-- `split_off`, on what the bitmaps hold.
use mathlib.Core.List.{append-nil, append_assoc}
use rypipe.Prelude.{
  ◌∙◌, ap, ℕ, zero, suc, ◌+◌, ◌-◌, ◌*◌, ◌/◌, ◌%◌, ◌<◌, ◌≤◌, ◌≡◌, refl, Bool, true, false, some,
  List, [], ◌∷◌, ◌++◌, length, get_or, take, drop, ltb, ◌==◌, if◌then◌else◌, arith, sym,
  length-append, length-take, length-drop, Bool-cases, inl, inr,
}
use rypipe.Columnar.Bits.{
  test_bit, clear_bit, low_bits, test_bit-clear_bit, test_bit-low_bits, test_bit-zero,
}
use rypipe.Columnar.Bitmap.{
  ValidityBitmap, empty, update, shrunk, masked, push, pop, is_valid, push_range, append, split_off,
}
use rypipe.Columnar.Contents.{
  Holds, bit_at, nulls, nulls-append, get_or-append, get_or-past, get_or-set, get_or-snoc,
  length-set, bit_at-update, push-Holds, is_valid_iff,
}

get_or-take :
    (n : ℕ) (bits : List ℕ) (i : ℕ)
    → get_or (take n bits) i 0 ≡ (if ltb i n then get_or bits i 0 else 0)
get_or-take zero bits i = ground arith
get_or-take (suc n) [] i = ground arith
get_or-take (suc n) (x ∷ bits) zero = ground arith
get_or-take (suc n) (x ∷ bits) (suc i) = rw (get_or-take n bits i) (ground arith)

bit_at-take :
    (n : ℕ) (bits : List ℕ) (i : ℕ)
    → bit_at (take n bits) i ≡ (if ltb i (8 * n) then bit_at bits i else false)
unfolding bit_at
bit_at-take n bits i = rw (get_or-take n bits (i / 8)) (ground (arith, test_bit-zero (i % 8)))

-- The byte that row `n` is in, cut to the rows before it, loses nothing if no later bit is set.
bit_at-mask :
    (bits : List ℕ) (n i : ℕ)
    → n / 8 < length bits
    → (n ≤ i → bit_at bits i ≡ false)
    → bit_at (update bits (n / 8) (λ byte. low_bits byte (n % 8))) i ≡ bit_at bits i
unfolding bit_at
bit_at-mask bits n i h past =
    rw (get_or-set bits (n / 8) (i / 8) (low_bits (get_or bits (n / 8) 0) (n % 8)) 0 h)
      (ground (arith, test_bit-low_bits (get_or bits (n / 8) 0) (n % 8) (i % 8)))

bit_at-append :
    (bits more : List ℕ) (i : ℕ)
    → bit_at (bits ++ more) i
      ≡ (if ltb i (8 * length bits) then bit_at bits i else bit_at more (i - 8 * length bits))
unfolding bit_at
bit_at-append bits more i = rw (get_or-append bits more (i / 8) 0) (ground arith)

-- A byte that holds no row goes without changing a row.
shrunk_at :
    (xs : List Bool) (bits : List ℕ) (i : ℕ)
    → length bits ≡ length xs / 8 + 1
    → bit_at bits i ≡ get_or xs i false
    → bit_at (shrunk (length xs) bits) i ≡ get_or xs i false
shrunk_at xs bits i h row =
    ground (arith, bit_at-take (length bits - 1) bits i, get_or-past xs i false)

length-shrunk :
    (len : ℕ) (bits : List ℕ) → length bits ≡ len / 8 + 1 → length (shrunk len bits) ≡ (len + 7) / 8
length-shrunk len bits h = ground (arith, length-take (length bits - 1) bits)

nulls_before :
    (xs : List Bool) (v : Bool) (n : ℕ)
    → n ≡ nulls (xs ++ (v ∷ []))
    → (if v then n else n - 1) ≡ nulls xs
nulls_before xs true n h = omega (arith, nulls-append xs (true ∷ []))
nulls_before xs false n h = omega (arith, nulls-append xs (false ∷ []))

-- For a bitmap that holds rows with `v` as the last one, `pop` gives `v` and leaves a bitmap that
-- holds the others.
pub pop-Holds :
    (b : ValidityBitmap) (xs : List Bool) (v : Bool)
    → Holds b (xs ++ (v ∷ []))
    → ((pop b).0 ≡ some v) × Holds (pop b).1 xs
unfolding pop
pop-Holds b xs v h =
    let long : length (xs ++ (v ∷ [])) ≡ length xs + 1 = length-append xs (v ∷ []) in
    let n : b.len ≡ length xs + 1 = omega (arith, h.rows, long) in
    let m : b.len - 1 ≡ length xs = omega (arith, n) in
    let some_rows : (b.len == 0) ≡ false = ground (arith, n) in
    let bit : test_bit (get_or b.bits (length xs / 8) 0) (length xs % 8) ≡ v =
      unfold bit_at in ground (arith, h.row (length xs), get_or-snoc xs v (length xs)) in
    let f : ℕ → ℕ = λ byte. clear_bit byte (length xs % 8) in
    let cleared : List ℕ = update b.bits (length xs / 8) f in
    let size : length cleared ≡ length xs / 8 + 1 = omega (
      arith,
      h.size,
      long,
      length-set b.bits (length xs / 8) (f (get_or b.bits (length xs / 8) 0)),
    ) in
    let row : (i : ℕ) → bit_at cleared i ≡ get_or xs i false = λ i.
      rw
        (bit_at-update b.bits (length xs) f false (omega (arith, h.size, long))
          (λ byte. test_bit-clear_bit byte (length xs % 8)) i)
        (ground (arith, h.row i, get_or-snoc xs v i, get_or-past xs i false)) in
    rw (m, some_rows, bit)
      (
        refl,
        record {
          rows = refl;
          size = length-shrunk (length xs) cleared size;
          null_rows = nulls_before xs v b.null_count h.null_rows;
          row = λ i. shrunk_at xs cleared i size (row i);
        },
      )

drop_at : (ys : List Bool) (i : ℕ) → i < length ys → drop i ys ≡ get_or ys i false ∷ drop (i + 1) ys
drop_at [] i h = ground arith
drop_at (y ∷ ys) zero h = refl
drop_at (y ∷ ys) (suc i) h =
    let next : suc i + 1 ≡ suc (i + 1) = omega arith in rw next (drop_at ys i (omega arith))

-- `push_range` adds the rows of the other bitmap from `from` on.
push_range-Holds :
    (b o : ValidityBitmap) (xs ys : List Bool) (from count : ℕ)
    → Holds b xs
    → Holds o ys
    → from + count ≤ length ys
    → Holds (push_range b o from count) (xs ++ take count (drop from ys))
unfolding push_range
push_range-Holds b o xs ys from zero h k le = rw (append-nil xs) h
push_range-Holds b o xs ys from (suc count) h k le =
    let v = is_valid o from in
    let pushed = push-Holds b xs h v in
    let rest =
      push_range-Holds (push b v) o (xs ++ (v ∷ [])) ys (from + 1) count pushed k (omega arith) in
    let there : drop from ys ≡ v ∷ drop (from + 1) ys =
      rw (is_valid_iff o ys k from) (drop_at ys from (omega arith)) in
    rw there (rw (append_assoc xs (v ∷ []) (take count (drop (from + 1) ys))) at rest)

pub empty-Holds : Holds empty []
unfolding bit_at
empty-Holds = record {
  rows = refl;
  size = refl;
  null_rows = refl;
  row = λ i. test_bit-zero (i % 8);
}

masked_at :
    (xs : List Bool) (bits : List ℕ) (n i : ℕ)
    → length xs ≡ n
    → length bits ≡ (n + 7) / 8
    → bit_at bits i ≡ get_or xs i false
    → bit_at (masked n bits) i ≡ get_or xs i false
unfolding masked
masked_at xs bits n i long size row = elim (Bool-cases (n % 8 == 0)) [
  | inl whole ↦ rw whole row
  | inr part ↦
      let at : length bits - 1 ≡ n / 8 = ground arith in
      rw (part, at)
        (bit_at-mask bits n i (ground arith) (λ past. row ∙ get_or-past xs i false (omega arith))
          ∙ row)
]

length-masked : (n : ℕ) (bits : List ℕ) → length (masked n bits) ≡ length bits
unfolding masked
length-masked n bits =
    ground (
      arith,
      length-set bits (length bits - 1) (low_bits (get_or bits (length bits - 1) 0) (n % 8)),
    )

pub take_all : {A : Type 0} (ys : List A) (n : ℕ) → n ≡ length ys → take n ys ≡ ys
take_all [] zero h = refl
take_all [] (suc n) h = ground arith
take_all (y ∷ ys) zero h = ground arith
take_all (y ∷ ys) (suc n) h = ap (λ t. y ∷ t) (take_all ys n (omega arith))

-- What `append` does when the rows so far fill whole bytes: the bytes, then a mask on the last one.
whole_bytes-Holds :
    (b o : ValidityBitmap) (xs ys : List Bool)
    → Holds b xs
    → Holds o ys
    → (b.len % 8) ≡ 0
    → Holds (append b o) (xs ++ ys)
unfolding append
whole_bytes-Holds b o xs ys h k full =
    let long : length (xs ++ ys) ≡ length xs + length ys = length-append xs ys in
    let both : List ℕ = b.bits ++ o.bits in
    let size : length both ≡ (length xs + length ys + 7) / 8 =
      omega (arith, length-append b.bits o.bits, h.size, k.size, h.rows, full) in
    let row : (i : ℕ) → bit_at both i ≡ get_or (xs ++ ys) i false = λ i.
      rw (bit_at-append b.bits o.bits i, get_or-append xs ys i false)
        (ground (arith, h.row i, k.row (i - length xs), h.size, h.rows, full)) in
    let n : b.len + o.len ≡ length xs + length ys = omega (arith, h.rows, k.rows) in
    let aligned : (b.len % 8 == 0) ≡ true = ground (arith, full) in
    rw (aligned, n)
      (record {
        rows = sym long;
        size = omega (arith, length-masked (length xs + length ys) both, size, long);
        null_rows = omega (arith, h.null_rows, k.null_rows, nulls-append xs ys);
        row = λ i. masked_at (xs ++ ys) both (length xs + length ys) i long size (row i);
      })

row_by_row-Holds :
    (b o : ValidityBitmap) (xs ys : List Bool)
    → Holds b xs
    → Holds o ys
    → ((b.len % 8) == 0) ≡ false
    → Holds (append b o) (xs ++ ys)
unfolding append
row_by_row-Holds b o xs ys h k part =
    let added = push_range-Holds b o xs ys 0 o.len h k (omega (arith, k.rows)) in
    rw part (rw (take_all ys o.len k.rows) at added)

-- For two bitmaps that hold lists of rows, `append` gives a bitmap that holds the rows of the
-- first and then those of the second, both where the first fills whole bytes and where it does
-- not.
pub append-Holds :
    (b o : ValidityBitmap) (xs ys : List Bool)
    → Holds b xs
    → Holds o ys
    → Holds (append b o) (xs ++ ys)
append-Holds b o xs ys h k = elim (Bool-cases (b.len % 8 == 0)) [
  | inl whole ↦ whole_bytes-Holds b o xs ys h k (ground arith)
  | inr part ↦ row_by_row-Holds b o xs ys h k part
]

-- For a bitmap that holds a list of rows, and `n` at most their number, `split_off` gives a bitmap
-- of the first `n` rows and leaves one of the others.
pub split_off-Holds :
    (b : ValidityBitmap) (xs : List Bool) (n : ℕ)
    → Holds b xs
    → n ≤ length xs
    → Holds (split_off b n).0 (take n xs) × Holds (split_off b n).1 (drop n xs)
unfolding split_off
split_off-Holds b xs n h le =
    let left : b.len - n ≡ length (drop n xs) = omega (arith, h.rows, length-drop n xs) in
    let rest = push_range-Holds empty b [] xs n (b.len - n) empty-Holds h (omega (arith, h.rows)) in
    (
      push_range-Holds empty b [] xs 0 n empty-Holds h (omega arith),
      rw (take_all (drop n xs) (b.len - n) left) at rest,
    )
