-- ===== src/Masks/Bits.antt =====
-- Bit masks of 64-byte blocks (block_masks.rs): a `u64` is the function of its bits, of which those
-- below 64 are read.
use rypipe.Prelude.{
  ℕ, zero, suc, ◌-◌, Bool, true, false, ◌&&◌, ◌||◌, Str, get_or, leb, ltb, ◌==◌, if◌then◌else◌,
}

abbrev pub Mask : Type 0
Mask = ℕ → Bool

-- The operators of `u64`.
abbrev pub no_bits : Mask
no_bits i = false

abbrev pub mask_and : Mask → Mask → Mask
mask_and a b i = a i && b i

abbrev pub mask_or : Mask → Mask → Mask
mask_or a b i = a i || b i

abbrev pub xor : Bool → Bool → Bool
xor true true = false
xor true false = true
xor false b = b

abbrev pub complement : Mask → Mask
complement a i = xor true (a i)

abbrev pub mask_xor : Mask → Mask → Mask
mask_xor a b i = xor (a i) (b i)

abbrev pub shift_left : Mask → ℕ → Mask
shift_left a k i = if leb k i then a (i - k) else false

-- `(1 << n) - 1`, for an `n` below 64.
abbrev pub low_bits : ℕ → Mask
low_bits n i = ltb i n

-- Whether one of the `n` bits from `i` on is set.
unfoldable pub any_set : Mask → ℕ → ℕ → Bool
any_set m i zero = false
any_set m i (suc n) = m i || any_set m (suc i) n

-- The first of the `n` bits from `i` on that is set, `i + n` if none is.
unfoldable pub first_set : Mask → ℕ → ℕ → ℕ
first_set m i zero = i
first_set m i (suc n) = let later = first_set m (suc i) n in if m i then i else later

-- Whether the number of set bits among the first `n` is odd.
unfoldable pub parity : Mask → ℕ → Bool
parity m zero = false
parity m (suc n) = xor (parity m n) (m n)

abbrev pub nonzero : Mask → Bool
nonzero m = any_set m 0 64

abbrev pub trailing_zeros : Mask → ℕ
trailing_zeros m = first_set m 0 64

-- `count_ones() & 1 == 1`
abbrev pub odd_ones : Mask → Bool
odd_ones m = parity m 64

unfoldable pub doubled : ℕ → Mask → Mask
doubled k m = mask_xor m (shift_left m k)

unfoldable pub prefix_xor : Mask → Mask
unfolding doubled
prefix_xor m = doubled 32 (doubled 16 (doubled 8 (doubled 4 (doubled 2 (doubled 1 m)))))

-- The bits of the bytes of `p` that are the needle, where what lies behind `p` is padded by 0.
unfoldable pub mask64 : Str → ℕ → Mask
mask64 p needle i = get_or p i 0 == needle
