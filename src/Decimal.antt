-- ===== src/Decimal.antt =====
-- Decimals as scaled integers: `parse_decimal128` and `format_decimal128` of
-- crates/rypipe-core/src/columnar/scalar_parse.rs, `compare_decimal128` of plan/predicate.rs.
-- An `i128` is a ℤ between -2^127 and 2^127 - 1; `checked` is the overflow test of its operations
-- on magnitudes.
pub mod Digits
use Digits.{digit_chars, is_digits, value}
use Prim.Native.Nat.{Ordering, compare}
use rypipe.Prelude.{
  ℕ, zero, suc, ◌+◌, ◌-◌, ◌*◌, ◌^◌, min, max, Option, none, some, Bool, true, false, ◌&&◌, List, [],
  ◌∷◌, ◌++◌, Str, bytes, ℤ, pos, negsuc, cmp, neg, length, get_or, take, drop, leb, ltb, ◌==◌,
  if◌then◌else◌,
}
use rypipe.Value.{Host}

abbrev pub i128_bound : ℕ
i128_bound = 2 ^ 127

checked : ℕ → Option ℕ
checked n = if ltb n i128_bound then some n else none

infixl 5 ◌>>=◌
abbrev ◌>>=◌ : {A B : Type 0} → Option A → (A → Option B) → Option B
none >>= f = none
some a >>= f = f a

-- `strip_prefix('-')`, else `strip_prefix('+')` or the text itself.
abbrev pub strip_sign : Str → Bool × Str
strip_sign [] = (false, [])
strip_sign (c ∷ s) =
    if c == b'-' then (true, s) else if c == b'+' then (false, s) else (false, c ∷ s)

-- `split_once('.')`, with an empty fraction where there is no point.
abbrev pub split_point : Str → Str × Str
split_point [] = ([], [])
split_point (c ∷ s) = let (i, f) = split_point s in if c == b'.' then ([], s) else (c ∷ i, f)

abbrev is_empty : Str → Bool
is_empty [] = true
is_empty (c ∷ s) = false

-- `str::parse::<i128>` of a text of digits.
parse_i128 : Str → Option ℕ
unfolding checked
parse_i128 s = checked (value 0 s)

-- The digits of the fraction that fit the scale, scaled.
scale_fraction : Str → ℕ → ℕ → Option ℕ
unfolding checked parse_i128
scale_fraction frac scale val =
    let digits = take (min (length frac) scale) frac in
    if is_empty digits then some val else do
      f ← parse_i128 digits
      p ← checked (10 ^ (scale - length digits))
      t ← checked (f * p)
      checked (val + t)

unfoldable pub parse_decimal128 : Host → Str → ℕ → Option ℤ
unfolding checked parse_i128 scale_fraction is_digits
parse_decimal128 h s scale =
    let (negative, t) = strip_sign (h.trim s) in
    let (int_part, frac_part) = split_point t in
    if is_empty int_part && is_empty frac_part
    then none
    else if is_digits int_part && is_digits frac_part
    then (do
      i ← parse_i128 int_part
      p ← checked (10 ^ scale)
      v ← checked (i * p)
      w ← scale_fraction frac_part scale v
      some (if negative then neg (pos w) else pos w))
    else none

-- `unsigned_abs` and `is_negative`
abbrev pub unsigned_abs : ℤ → ℕ
unsigned_abs (pos n) = n
unsigned_abs (negsuc n) = suc n

abbrev pub is_negative : ℤ → Bool
is_negative (pos n) = false
is_negative (negsuc n) = true

abbrev zeros : ℕ → Str
zeros zero = []
zeros (suc n) = b'0' ∷ zeros n

unfoldable pub format_decimal128 : ℤ → ℕ → Str
unfolding digit_chars
format_decimal128 v zero = (if is_negative v then bytes "-" else []) ++ digit_chars (unsigned_abs v)
format_decimal128 v scale =
    let sign = if is_negative v then bytes "-" else [] in
    let d = digit_chars (unsigned_abs v) in
    let digits = if leb (length d) scale then zeros (scale + 1 - length d) ++ d else d in
    let split = length digits - scale in sign ++ (take split digits ++ (b'.' ∷ drop split digits))

-- Compare `width` places from place `i` on; a missing place counts as the digit 0.
cmp_places : ℕ → ℕ → Str → Str → Ordering
cmp_places zero i a b = Ordering.eq
cmp_places (suc width) i a b =
    let rest = cmp_places width (i + 1) a b in
    elim (compare (get_or a i b'0') (get_or b i b'0')) [
      | Ordering.eq ↦ rest
      | Ordering.lt ↦ Ordering.lt
      | Ordering.gt ↦ Ordering.gt
    ]

abbrev reverse_order : Ordering → Ordering
reverse_order Ordering.lt = Ordering.gt
reverse_order Ordering.eq = Ordering.eq
reverse_order Ordering.gt = Ordering.lt

-- The magnitudes, by their lengths when written out at the same scale, then place by place.
cmp_magnitudes : ℕ → ℕ → ℕ → ℕ → Ordering
unfolding digit_chars cmp_places
cmp_magnitudes a a_scale b b_scale =
    let scale = max a_scale b_scale in
    let da = digit_chars a in
    let db = digit_chars b in
    let a_len = length da + scale - a_scale in
    let b_len = length db + scale - b_scale in
    let places = cmp_places (max a_len b_len) 0 da db in
    elim (compare a_len b_len) [
      | Ordering.eq ↦ places
      | Ordering.lt ↦ Ordering.lt
      | Ordering.gt ↦ Ordering.gt
    ]

abbrev is_zero : ℤ → Bool
is_zero (pos zero) = true
is_zero _ = false

abbrev by_sign : Bool → Bool → Ordering → Ordering
by_sign true false order = Ordering.lt
by_sign false true order = Ordering.gt
by_sign true true order = reverse_order order
by_sign false false order = order

unfoldable pub compare_decimal128 : ℤ → ℕ → ℤ → ℕ → Ordering
unfolding cmp cmp_magnitudes
compare_decimal128 a a_scale b b_scale =
    if is_zero a
    then cmp a b
    else if is_zero b
    then cmp a b
    else if a_scale == b_scale
    then cmp a b
    else by_sign (is_negative a) (is_negative b)
        (cmp_magnitudes (unsigned_abs a) a_scale (unsigned_abs b) b_scale)
