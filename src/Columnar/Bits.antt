-- ===== src/Columnar/Bits.antt =====
-- The operations on the bits of a `u8` that `ValidityBitmap` uses, and where each of them changes a
-- bit. Bit `k` is the one of weight 2^k.
use rypipe.Prelude.{
  ℕ, zero, suc, ◌+◌, ◌*◌, ◌/◌, ◌%◌, ◌<◌, ◌≡◌, refl, Bool, true, false, ◌==◌, if◌then◌else◌, ltb,
  arith,
}

-- `b & (1 << k) != 0`
unfoldable pub test_bit : ℕ → ℕ → Bool
test_bit b zero = b % 2 == 1
test_bit b (suc k) = test_bit (b / 2) k

-- `b | (1 << k)`
unfoldable pub set_bit : ℕ → ℕ → ℕ
set_bit b zero = 2 * (b / 2) + 1
set_bit b (suc k) = 2 * set_bit (b / 2) k + b % 2

-- `b & !(1 << k)`
unfoldable pub clear_bit : ℕ → ℕ → ℕ
clear_bit b zero = 2 * (b / 2)
clear_bit b (suc k) = 2 * clear_bit (b / 2) k + b % 2

-- `b & ((1 << k) - 1)`
unfoldable pub low_bits : ℕ → ℕ → ℕ
low_bits b zero = 0
low_bits b (suc k) = 2 * low_bits (b / 2) k + b % 2

half : (x r : ℕ) → r < 2 → (2 * x + r) / 2 ≡ x
half x r h = omega arith

parity : (x r : ℕ) → r < 2 → (2 * x + r) % 2 ≡ r
parity x r h = omega arith

bit_lt : (b : ℕ) → b % 2 < 2
bit_lt b = omega arith

pub test_bit-zero : (j : ℕ) → test_bit 0 j ≡ false
unfolding test_bit
test_bit-zero zero = refl
test_bit-zero (suc j) = test_bit-zero j

pub test_bit-set_bit :
    (b k j : ℕ) → test_bit (set_bit b k) j ≡ (if k == j then true else test_bit b j)
unfolding test_bit set_bit
test_bit-set_bit b zero zero = ground arith
test_bit-set_bit b zero (suc j) = rw (half (b / 2) 1 (omega arith)) (ground arith)
test_bit-set_bit b (suc k) zero = rw (parity (set_bit (b / 2) k) (b % 2) (bit_lt b)) (ground arith)
test_bit-set_bit b (suc k) (suc j) =
    rw (half (set_bit (b / 2) k) (b % 2) (bit_lt b), test_bit-set_bit (b / 2) k j) (ground arith)

pub test_bit-clear_bit :
    (b k j : ℕ) → test_bit (clear_bit b k) j ≡ (if k == j then false else test_bit b j)
unfolding test_bit clear_bit
test_bit-clear_bit b zero zero = ground arith
test_bit-clear_bit b zero (suc j) =
    let same : 2 * (b / 2) / 2 ≡ b / 2 = omega arith in rw same (ground arith)
test_bit-clear_bit b (suc k) zero =
    rw (parity (clear_bit (b / 2) k) (b % 2) (bit_lt b)) (ground arith)
test_bit-clear_bit b (suc k) (suc j) =
    rw (half (clear_bit (b / 2) k) (b % 2) (bit_lt b), test_bit-clear_bit (b / 2) k j)
      (ground arith)

pub test_bit-low_bits :
    (b k j : ℕ) → test_bit (low_bits b k) j ≡ (if ltb j k then test_bit b j else false)
unfolding test_bit low_bits
test_bit-low_bits b zero j = rw (test_bit-zero j) (ground arith)
test_bit-low_bits b (suc k) zero =
    rw (parity (low_bits (b / 2) k) (b % 2) (bit_lt b)) (ground arith)
test_bit-low_bits b (suc k) (suc j) =
    rw (half (low_bits (b / 2) k) (b % 2) (bit_lt b), test_bit-low_bits (b / 2) k j) (ground arith)
