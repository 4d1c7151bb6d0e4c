-- ===== src/Columnar/Bitmap.antt =====
-- `ValidityBitmap` of columnar.rs: one bit for each row, eight to a byte, and the count of nulls.
-- `bits[i]` out of bounds, where the source panics, reads 0 and writes nothing; the theorems are
-- about bitmaps in which no index is out of bounds. Capacities are not modelled.
use rypipe.Prelude.{
  ℕ, zero, suc, ◌+◌, ◌-◌, ◌/◌, ◌%◌, Bool, ◌&&◌, Option, none, some, List, [], ◌∷◌, ◌++◌, length,
  get_or, set, take, ltb, ◌==◌, if◌then◌else◌,
}
use rypipe.Columnar.Bits.{test_bit, set_bit, clear_bit, low_bits}

pub record ValidityBitmap : Type 0 where
  pub bits : List ℕ
  pub len : ℕ
  pub null_count : ℕ

abbrev pub empty : ValidityBitmap
empty = record { bits = []; len = 0; null_count = 0 }

-- `bits[i] op= …`
abbrev pub update : List ℕ → ℕ → (ℕ → ℕ) → List ℕ
update bits i f = set bits i (f (get_or bits i 0))

-- A new byte for every eighth row.
abbrev pub grown : ℕ → List ℕ → List ℕ
grown len bits = if len % 8 == 0 then bits ++ (0 ∷ []) else bits

unfoldable pub push : ValidityBitmap → Bool → ValidityBitmap
unfolding set_bit
push b valid =
    let bits = grown b.len b.bits in
    if valid
    then record {
      bits = update bits (b.len / 8) (λ byte. set_bit byte (b.len % 8));
      len = b.len + 1;
      null_count = b.null_count;
    }
    else record { bits = bits; len = b.len + 1; null_count = b.null_count + 1 }

-- The byte that holds no row any more goes.
abbrev pub shrunk : ℕ → List ℕ → List ℕ
shrunk len bits = if len % 8 == 0 then take (length bits - 1) bits else bits

unfoldable pub pop : ValidityBitmap → Option Bool × ValidityBitmap
unfolding test_bit clear_bit
pop b =
    let len = b.len - 1 in
    let valid = test_bit (get_or b.bits (len / 8) 0) (len % 8) in
    let bits = update b.bits (len / 8) (λ byte. clear_bit byte (len % 8)) in
    if b.len == 0 then (none, b) else (
      some valid,
      record {
        bits = shrunk len bits;
        len = len;
        null_count = if valid then b.null_count else b.null_count - 1;
      },
    )

unfoldable pub is_valid : ValidityBitmap → ℕ → Bool
unfolding test_bit
is_valid b i = ltb i b.len && test_bit (get_or b.bits (i / 8) 0) (i % 8)

-- `for i in from..from + count { b.push(other.is_valid(i)) }`
unfoldable pub push_range : ValidityBitmap → ValidityBitmap → (from count : ℕ) → ValidityBitmap
unfolding push is_valid
push_range b other from zero = b
push_range b other from (suc count) =
    push_range (push b (is_valid other from)) other (from + 1) count

-- The bits past the last row are cleared.
unfoldable pub masked : ℕ → List ℕ → List ℕ
unfolding low_bits
masked len bits =
    if len % 8 == 0 then bits else update bits (length bits - 1) (λ byte. low_bits byte (len % 8))

unfoldable pub append : ValidityBitmap → ValidityBitmap → ValidityBitmap
unfolding push_range masked
append b other =
    let bits = b.bits ++ other.bits in
    let len = b.len + other.len in
    let slow = push_range b other 0 other.len in
    if b.len % 8 == 0
    then record { bits = masked len bits; len = len; null_count = b.null_count + other.null_count }
    else slow

-- The first `n` rows, and what is left.
unfoldable pub split_off : ValidityBitmap → ℕ → ValidityBitmap × ValidityBitmap
unfolding push_range
split_off b n = (push_range empty b 0 n, push_range empty b n (b.len - n))
