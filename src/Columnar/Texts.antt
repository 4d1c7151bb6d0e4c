-- ===== src/Columnar/Texts.antt =====
-- `StrColumn` of columnar.rs: the bytes of all rows one after the other, where each row ends, and
-- the validity. An `i32` is its 32-bit pattern. Capacities are not modelled. An index out of range,
-- where the source panics, reads 0 and cuts at the end; no index is, while the bytes are below 2^31.
use rypipe.Prelude.{
  ℕ, Bool, ◌+◌, ◌-◌, ◌%◌, ◌^◌, Option, none, some, List, [], ◌∷◌, ◌++◌, Str, length, get_or, take,
  drop, map, ltb, ◌==◌, if◌then◌else◌,
}
use rypipe.Columnar.Bitmap.{ValidityBitmap, empty}
use rypipe.Columnar.Bitmap
use rypipe.Columnar.Flat.{is_some, without_last, unwrap_or, last}

pub record StrColumn : Type 0 where
  pub bytes : Str
  pub offsets : List ℕ
  pub validity : ValidityBitmap

-- `n as i32` and `n as usize`
abbrev pub as_i32 : ℕ → ℕ
as_i32 n = n % 2 ^ 32

abbrev pub as_usize : ℕ → ℕ
as_usize n = if ltb n (2 ^ 31) then n else n + (2 ^ 64 - 2 ^ 32)

-- `with_capacity`, and the derived `default`, which has no offset.
abbrev pub new : StrColumn
new = record { bytes = []; offsets = 0 ∷ []; validity = empty }

abbrev pub default : StrColumn
default = record { bytes = []; offsets = []; validity = empty }

unfoldable pub push : StrColumn → Option Str → StrColumn
push c v =
    let bytes = c.bytes ++ unwrap_or [] v in
    record {
      bytes = bytes;
      offsets = c.offsets ++ (as_i32 (length bytes) ∷ []);
      validity = Bitmap.push c.validity (is_some v);
    }

unfoldable pub pop : StrColumn → StrColumn
pop c =
    let (valid, validity) = Bitmap.pop c.validity in
    let offsets = without_last c.offsets in
    elim valid [
      | none ↦ record c { validity = validity }
      | some v ↦ record {
        bytes = take (as_usize (unwrap_or 0 (last offsets))) c.bytes;
        offsets = offsets;
        validity = validity;
      }
    ]

-- The first `n` rows, and what is left.
unfoldable pub split_off : StrColumn → ℕ → StrColumn × StrColumn
split_off c n =
    let offset = as_usize (get_or c.offsets n 0) in
    let (first, rest) = Bitmap.split_off c.validity n in
    if n == 0 then (default, c) else if n == c.validity.len then (c, new) else (
      record { bytes = take offset c.bytes; offsets = take (n + 1) c.offsets; validity = first },
      record {
        bytes = drop offset c.bytes;
        offsets = 0 ∷ map (λ off. as_i32 (off + 2 ^ 32 - as_i32 offset)) (drop (n + 1) c.offsets);
        validity = rest;
      },
    )

-- The text of a row; `utf8` is the test of `str::from_utf8`.
unfoldable pub get : (utf8 : Str → Bool) → StrColumn → ℕ → Option Str
get utf8 c i =
    let start = as_usize (get_or c.offsets i 0) in
    let end = as_usize (get_or c.offsets (i + 1) 0) in
    let text = take (end - start) (drop start c.bytes) in
    if Bitmap.is_valid c.validity i then (if utf8 text then some text else none) else none

unfoldable pub append : StrColumn → StrColumn → StrColumn
append c other =
    let base = as_i32 (length c.bytes) in
    record {
      bytes = c.bytes ++ other.bytes;
      offsets = c.offsets ++ map (λ o. as_i32 (o + base)) (drop 1 other.offsets);
      validity = Bitmap.append c.validity other.validity;
    }
