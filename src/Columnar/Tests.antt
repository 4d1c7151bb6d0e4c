-- ===== src/Columnar/Tests.antt =====
-- Tests of the columns, and their theorems at concrete rows.
use rypipe.Prelude.{ℕ, ◌≡◌, refl, Bool, true, false, some, List, [], ◌∷◌, Str, bytes, arith}
use rypipe.Columnar.Bitmap.{ValidityBitmap, empty, push, append, is_valid, masked}
use rypipe.Columnar.Bits.{set_bit}
use rypipe.Columnar.Contents.{Holds, push-Holds, is_valid_iff}
use rypipe.Columnar.Slices.{empty-Holds, append-Holds}
use rypipe.Columnar.Nullable.{NullableColumn, iter}
use rypipe.Columnar.Nullable
use rypipe.Columnar.Primitive.{PrimColumn}
use rypipe.Columnar.Primitive
use rypipe.Columnar.Rows.{NullableRows, PrimRows, push-Rows}
use rypipe.Columnar.Texts.{StrColumn, new}
use rypipe.Columnar.Texts
use rypipe.Columnar.TextRows.{TextRows, new-TextRows, push-TextRows, split_off-TextRows}
use rypipe.Columnar.TextRead.{get-TextRows}

abbrev rows : List Bool
rows = true ∷ []

abbrev one : ValidityBitmap
one = push empty true

one-Holds : Holds one rows
one-Holds = push-Holds empty [] empty-Holds true

is_valid_iff_example : is_valid one 0 ≡ true
is_valid_iff_example = is_valid_iff one rows one-Holds 0

append-Holds_example : Holds (append one (push one false)) (true ∷ true ∷ false ∷ [])
append-Holds_example =
    append-Holds one (push one false) rows (true ∷ false ∷ []) one-Holds
      (push-Holds one rows one-Holds false)

-- Eight rows, which fill a byte.
abbrev eight : ValidityBitmap
eight = push (push (push (push (push (push (push one true) true) true) true) true) false) true

appended : (append eight (push one false)).bits ≡ 191 ∷ 1 ∷ []
unfolding append push masked set_bit
appended = refl

abbrev no_numbers : NullableColumn ℕ
no_numbers = record { values = []; validity = empty }

abbrev no_items : PrimColumn ℕ
no_items = record { items = []; validity = empty }

no_numbers-Rows : NullableRows 0 no_numbers []
no_numbers-Rows = record { valid = empty-Holds; values_of = refl }

no_items-Rows : PrimRows 0 no_items []
no_items-Rows = record { valid = empty-Holds; values_of = refl }

abbrev seven : NullableColumn ℕ
seven = Nullable.push 0 no_numbers (some 7)

abbrev seven_items : PrimColumn ℕ
seven_items = Primitive.push 0 no_items (some 7)

seven-Rows : NullableRows 0 seven (some 7 ∷ []) × PrimRows 0 seven_items (some 7 ∷ [])
seven-Rows = push-Rows 0 no_numbers no_items [] (some 7) no_numbers-Rows no_items-Rows

push-Rows_example : NullableRows 0 seven (some 7 ∷ []) × PrimRows 0 seven_items (some 7 ∷ [])
push-Rows_example = push-Rows 0 no_numbers no_items [] (some 7) no_numbers-Rows no_items-Rows

abbrev hello : StrColumn
hello = Texts.push new (some (bytes "hello"))

hello-TextRows : TextRows hello (some (bytes "hello") ∷ [])
hello-TextRows = push-TextRows new [] (some (bytes "hello")) new-TextRows (omega arith)

split_off-TextRows_example :
    TextRows (Texts.split_off hello 1).0 (some (bytes "hello") ∷ [])
    × TextRows (Texts.split_off hello 1).1 []
split_off-TextRows_example =
    split_off-TextRows hello (some (bytes "hello") ∷ []) 1 hello-TextRows (omega arith)
      (omega arith)

abbrev any_text : Str → Bool
any_text s = true

get-TextRows_example : Texts.get any_text hello 0 ≡ some (bytes "hello")
get-TextRows_example =
    get-TextRows any_text hello (some (bytes "hello") ∷ []) 0 hello-TextRows (λ t e. refl)
