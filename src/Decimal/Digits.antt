-- ===== src/Decimal/Digits.antt =====
-- Decimal digits: `to_string` of an unsigned number, and its inverse on texts of digits.
use rypipe.Prelude.{
  ℕ, zero, suc, ◌+◌, ◌-◌, ◌*◌, ◌/◌, ◌%◌, Bool, true, ◌&&◌, [], ◌∷◌, Str, leb, ◌==◌, if◌then◌else◌,
}

-- The digits of `n` before `rest`. `fuel` is above the number of digits.
digits_before : ℕ → ℕ → Str → Str
digits_before zero n rest = rest
digits_before (suc fuel) n rest =
    let more = digits_before fuel (n / 10) ((n % 10 + b'0') ∷ rest) in
    if n / 10 == 0 then (n % 10 + b'0') ∷ rest else more

-- `n.to_string()`; a number has fewer than `n + 2` digits.
unfoldable pub digit_chars : ℕ → Str
unfolding digits_before
digit_chars n = digits_before (n + 1) n []

unfoldable pub is_digits : Str → Bool
is_digits [] = true
is_digits (c ∷ s) = leb b'0' c && leb c b'9' && is_digits s

-- The number that digits stand for, after those of `acc`.
unfoldable pub value : ℕ → Str → ℕ
value acc [] = acc
value acc (c ∷ s) = value (acc * 10 + (c - b'0')) s
