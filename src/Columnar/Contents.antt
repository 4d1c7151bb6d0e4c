-- ===== src/Columnar/Contents.antt =====
-- What a `ValidityBitmap` holds, as a list of Booleans, and that every operation keeps it so.
use rypipe.Prelude.{
  ℕ, zero, suc, ◌+◌, ◌-◌, ◌/◌, ◌%◌, ◌<◌, ◌≤◌, ◌≡◌, refl, Bool, true, false, List, [], ◌∷◌, ◌++◌,
  length, get_or, set, ltb, ◌==◌, if◌then◌else◌, arith, sym, length-append,
}
use rypipe.Columnar.Bits.{test_bit, set_bit, test_bit-set_bit, test_bit-zero}
use rypipe.Columnar.Bitmap.{ValidityBitmap, update, grown, push, is_valid}

-- Bit `i` of the bytes, 0 past their end.
unfoldable pub bit_at : List ℕ → ℕ → Bool
bit_at bits i = test_bit (get_or bits (i / 8) 0) (i % 8)

abbrev pub nulls : List Bool → ℕ
nulls [] = 0
nulls (true ∷ xs) = nulls xs
nulls (false ∷ xs) = suc (nulls xs)

-- The bitmap holds the rows `xs`: as many bytes as they need, and no bit set past their end.
pub record Holds (b : ValidityBitmap) (xs : List Bool) : Type 0 where
  pub rows : b.len ≡ length xs
  pub size : length b.bits ≡ (length xs + 7) / 8
  pub null_rows : b.null_count ≡ nulls xs
  pub row : (i : ℕ) → bit_at b.bits i ≡ get_or xs i false

module _ {ℓ} {A : Type ℓ} where
  pub get_or-append :
      (xs ys : List A) (i : ℕ) (d : A)
      → get_or (xs ++ ys) i d
        ≡ (if ltb i (length xs) then get_or xs i d else get_or ys (i - length xs) d)
  get_or-append [] ys i d = ground arith
  get_or-append (x ∷ xs) ys zero d = ground arith
  get_or-append (x ∷ xs) ys (suc i) d = rw (get_or-append xs ys i d) (ground arith)

  pub get_or-past : (xs : List A) (i : ℕ) (d : A) → length xs ≤ i → get_or xs i d ≡ d
  get_or-past [] i d h = refl
  get_or-past (x ∷ xs) zero d h = ground arith
  get_or-past (x ∷ xs) (suc i) d h = get_or-past xs i d (omega arith)

  pub get_or-set :
      (xs : List A) (k i : ℕ) (v d : A)
      → k < length xs
      → get_or (set xs k v) i d ≡ (if k == i then v else get_or xs i d)
  get_or-set [] k i v d h = ground arith
  get_or-set (x ∷ xs) zero zero v d h = ground arith
  get_or-set (x ∷ xs) zero (suc i) v d h = ground arith
  get_or-set (x ∷ xs) (suc k) zero v d h = ground arith
  get_or-set (x ∷ xs) (suc k) (suc i) v d h =
      rw (get_or-set xs k i v d (omega arith)) (ground arith)

  pub length-set : (xs : List A) (k : ℕ) (v : A) → length (set xs k v) ≡ length xs
  length-set [] k v = refl
  length-set (x ∷ xs) zero v = refl
  length-set (x ∷ xs) (suc k) v = omega (arith, length-set xs k v)

pub nulls-append : (xs ys : List Bool) → nulls (xs ++ ys) ≡ nulls xs + nulls ys
nulls-append [] ys = omega arith
nulls-append (true ∷ xs) ys = nulls-append xs ys
nulls-append (false ∷ xs) ys = omega (arith, nulls-append xs ys)

-- A bit after one of the bytes is changed by `f`, which gives bit `k` the value `v`.
pub bit_at-update :
    (bits : List ℕ) (n : ℕ) (f : ℕ → ℕ) (v : Bool)
    → n / 8 < length bits
    → ((b j : ℕ) → test_bit (f b) j ≡ (if n % 8 == j then v else test_bit b j))
    → (i : ℕ) → bit_at (update bits (n / 8) f) i ≡ (if n == i then v else bit_at bits i)
unfolding bit_at
bit_at-update bits n f v h at i =
    rw (get_or-set bits (n / 8) (i / 8) (f (get_or bits (n / 8) 0)) 0 h)
      (ground (arith, at (get_or bits (n / 8) 0) (i % 8)))

-- A zero byte at the end changes no bit.
bit_at-zero : (bits : List ℕ) (i : ℕ) → bit_at (bits ++ (0 ∷ [])) i ≡ bit_at bits i
unfolding bit_at
bit_at-zero bits i =
    rw (get_or-append bits (0 ∷ []) (i / 8) 0)
      (ground (arith, test_bit-zero (i % 8), get_or-past bits (i / 8) 0))

pub grown_at : (len : ℕ) (bits : List ℕ) (i : ℕ) → bit_at (grown len bits) i ≡ bit_at bits i
grown_at len bits i = ground (arith, bit_at-zero bits i)

pub length-grown :
    (len : ℕ) (bits : List ℕ)
    → length bits ≡ (len + 7) / 8
    → length (grown len bits) ≡ (len + 1 + 7) / 8
length-grown len bits h = ground (arith, length-append bits (0 ∷ []))

-- What a row at the end reads.
pub get_or-snoc :
    (xs : List Bool) (v : Bool) (i : ℕ)
    → get_or (xs ++ (v ∷ [])) i false ≡ (if length xs == i then v else get_or xs i false)
get_or-snoc xs v i = rw (get_or-append xs (v ∷ []) i false) (ground (arith, get_or-past xs i false))

module _ (b : ValidityBitmap) (xs : List Bool) (h : Holds b xs) where
  length-snoc : (v : Bool) → length (xs ++ (v ∷ [])) ≡ b.len + 1
  length-snoc v = omega (arith, h.rows, length-append xs (v ∷ []))

  bits_size : length b.bits ≡ (b.len + 7) / 8
  bits_size = omega (arith, h.rows, h.size)

  -- For a bitmap that holds a list of rows, `push` gives one that holds one row more at the end.
  pub push-Holds : (v : Bool) → Holds (push b v) (xs ++ (v ∷ []))
  unfolding push
  push-Holds true =
      let g = grown b.len b.bits in
      let f : ℕ → ℕ = λ byte. set_bit byte (b.len % 8) in
      let long : length g ≡ (b.len + 1 + 7) / 8 = length-grown b.len b.bits bits_size in
      record {
        rows = sym (length-snoc true);
        size =
            omega (
              arith,
              long,
              length-set g (b.len / 8) (f (get_or g (b.len / 8) 0)),
              length-snoc true,
            );
        null_rows = omega (arith, h.null_rows, nulls-append xs (true ∷ []));
        row = λ i.
            rw
              (bit_at-update g b.len f true (omega (arith, long))
                (λ byte. test_bit-set_bit byte (b.len % 8)) i)
              (ground (arith, grown_at b.len b.bits i, h.row i, get_or-snoc xs true i, h.rows));
      }
  push-Holds false = record {
    rows = sym (length-snoc false);
    size = omega (arith, length-grown b.len b.bits bits_size, length-snoc false);
    null_rows = omega (arith, h.null_rows, nulls-append xs (false ∷ []));
    row = λ i.
        ground
          (arith, grown_at b.len b.bits i, h.row i, get_or-snoc xs false i, get_or-past xs i false);
  }

  -- A row in range reads as pushed, any other as invalid.
  pub is_valid_iff : (i : ℕ) → is_valid b i ≡ get_or xs i false
  unfolding is_valid bit_at
  is_valid_iff i = ground (arith, h.row i, h.rows, get_or-past xs i false)
