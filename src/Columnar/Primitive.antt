-- ===== src/Columnar/Primitive.antt =====
-- `PrimColumn` of columnar.rs: a value for each row, which is the type's default where the row is
-- null, and the validity of the rows.
use rypipe.Prelude.{ℕ, Option, none, List, [], ◌∷◌, ◌++◌, get_elem?, take, drop, if◌then◌else◌}
use rypipe.Columnar.Bitmap.{ValidityBitmap}
use rypipe.Columnar.Bitmap
use rypipe.Columnar.Flat.{is_some, unwrap_or, without_last}

-- `items` is the source's field `data`.
pub record PrimColumn (T : Type 0) : Type 0 where
  pub items : List T
  pub validity : ValidityBitmap

module _ {T : Type 0} (d : T) where
  unfoldable pub push : PrimColumn T → Option T → PrimColumn T
  push c v = record {
    items = c.items ++ (unwrap_or d v ∷ []);
    validity = Bitmap.push c.validity (is_some v);
  }

  unfoldable pub pop : PrimColumn T → PrimColumn T
  pop c = record { items = without_last c.items; validity = (Bitmap.pop c.validity).1 }

  unfoldable pub get : PrimColumn T → ℕ → Option T
  get c i = if Bitmap.is_valid c.validity i then get_elem? c.items i else none

  unfoldable pub split_off : PrimColumn T → ℕ → PrimColumn T × PrimColumn T
  split_off c n =
      let (first, rest) = Bitmap.split_off c.validity n in
      (
        record { items = take n c.items; validity = first },
        record { items = drop n c.items; validity = rest },
      )

  unfoldable pub append : PrimColumn T → PrimColumn T → PrimColumn T
  append c other = record {
    items = c.items ++ other.items;
    validity = Bitmap.append c.validity other.validity;
  }
