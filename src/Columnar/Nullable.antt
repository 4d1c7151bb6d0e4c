-- ===== src/Columnar/Nullable.antt =====
-- `NullableColumn` of columnar.rs: a value for each row, which is the type's default where the row
-- is null, and the validity of the rows.
use rypipe.Prelude.{
  ℕ, zero, suc, ◌+◌, Option, none, some, List, [], ◌∷◌, ◌++◌, get_elem?, take, drop, if◌then◌else◌,
}
use rypipe.Columnar.Bitmap.{ValidityBitmap}
use rypipe.Columnar.Bitmap
use rypipe.Columnar.Flat.{is_some, unwrap_or, last, without_last}

pub record NullableColumn (T : Type 0) : Type 0 where
  pub values : List T
  pub validity : ValidityBitmap

-- `d` is the default of the values' type.
module _ {T : Type 0} (d : T) where
  unfoldable pub push : NullableColumn T → Option T → NullableColumn T
  push c value = record {
    values = c.values ++ (unwrap_or d value ∷ []);
    validity = Bitmap.push c.validity (is_some value);
  }

  -- The value that goes, also of a null row; nothing if there is no row.
  unfoldable pub pop : NullableColumn T → Option T × NullableColumn T
  pop c =
      let (valid, validity) = Bitmap.pop c.validity in
      elim valid [
        | none ↦ (none, record { values = c.values; validity = validity })
        | some v ↦ (last c.values, record { values = without_last c.values; validity = validity })
      ]

  unfoldable pub get : NullableColumn T → ℕ → Option T
  get c i = if Bitmap.is_valid c.validity i then get_elem? c.values i else none

  -- `(from..from + count).map(|i| self.get(i))`, and `iter`.
  unfoldable pub iter_range : NullableColumn T → (from count : ℕ) → List (Option T)
  unfolding get
  iter_range c from zero = []
  iter_range c from (suc count) = get c from ∷ iter_range c (from + 1) count

  unfoldable pub iter : NullableColumn T → List (Option T)
  unfolding iter_range
  iter c = iter_range c 0 c.validity.len

  -- The first `n` rows, and what is left.
  unfoldable pub split_off : NullableColumn T → ℕ → NullableColumn T × NullableColumn T
  split_off c n =
      let (first, rest) = Bitmap.split_off c.validity n in
      (
        record { values = take n c.values; validity = first },
        record { values = drop n c.values; validity = rest },
      )
