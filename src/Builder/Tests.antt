-- ===== src/Builder/Tests.antt =====
-- Tests of `ColumnBuilder`, and its theorems at concrete columns.
use rypipe.Prelude.{
  ◌≡◌, refl, none, some, List, [], ◌∷◌, ◌++◌, bytes, arith, ok, err, if◌then◌else◌, Option, lookup,
}
use rypipe.Value.Sample.{sample}
use rypipe.Plan.{FieldType}
use rypipe.Columnar.Bitmap
use rypipe.Columnar.Dict.{push_text}
use rypipe.Builder.{ColumnBuilder, new, push_str}
use rypipe.Builder.Read.{TypedValue, mapped, len, get_typed_value, get_filter_value}
use rypipe.Builder.Merge.{
  extend_owned, promote_to_variant, try_upgrade_to_dict, unify_variants, variant_key,
}
use rypipe.Builder.Rows.{HoldsRows, text_bytes, entries, SameType}
use rypipe.Builder.Push.{new-HoldsRows, push_str-HoldsRows, cell}
use rypipe.Builder.Extend.{extend_owned-HoldsRows}
use rypipe.Builder.Reading.{get_typed_value-HoldsRows, get_filter_value-get_typed_value, show_typed}
use rypipe.Builder.Promote.{promote_to_variant-HoldsRows, try_upgrade_to_dict-HoldsRows, promoted}
use rypipe.Builder.Chunks.{
  merge_column, promoted_merge, merge_column-HoldsRows, reconciled, target_of,
}
use rypipe.Builder.Variants.{unify_variants-variant_key, is_decimal}

program : Unit {0}
unfolding new push_str text_bytes entries len SameType cell promoted promote_to_variant lookup
    Bitmap.push Bitmap.is_valid
program = tt

-- A dictionary column of "x", one of "y", and a text column of "x".
abbrev first : ColumnBuilder
first = push_str sample (new FieldType.dictionary) (some (bytes "x"))

abbrev second : ColumnBuilder
second = push_str sample (new FieldType.dictionary) (some (bytes "y"))

abbrev texts : ColumnBuilder
texts = push_str sample (new FieldType.string) (some (bytes "x"))

abbrev row_x : List (Option TypedValue)
row_x = some (TypedValue.str (bytes "x")) ∷ []

abbrev row_y : List (Option TypedValue)
row_y = some (TypedValue.str (bytes "y")) ∷ []

first-HoldsRows : HoldsRows sample.is_utf8 first row_x
unfolding program
first-HoldsRows =
    push_str-HoldsRows sample (new FieldType.dictionary) (some (bytes "x")) []
      (new-HoldsRows sample.is_utf8 FieldType.dictionary) (λ s e. refl) (omega arith) (omega arith)

second-HoldsRows : HoldsRows sample.is_utf8 second row_y
unfolding program
second-HoldsRows =
    push_str-HoldsRows sample (new FieldType.dictionary) (some (bytes "y")) []
      (new-HoldsRows sample.is_utf8 FieldType.dictionary) (λ s e. refl) (omega arith) (omega arith)

texts-HoldsRows : HoldsRows sample.is_utf8 texts row_x
unfolding program
texts-HoldsRows =
    push_str-HoldsRows sample (new FieldType.string) (some (bytes "x")) []
      (new-HoldsRows sample.is_utf8 FieldType.string) (λ s e. refl) (omega arith) (omega arith)

push_str-HoldsRows_example :
    HoldsRows sample.is_utf8 (push_str sample first (some (bytes "y"))) (row_x ++ row_y)
unfolding program
push_str-HoldsRows_example =
    push_str-HoldsRows sample first (some (bytes "y")) row_x first-HoldsRows (λ s e. refl)
      (omega arith) (omega arith)

extend_owned-HoldsRows_example :
    (c : ColumnBuilder) × (extend_owned sample first second ≡ ok c)
    × HoldsRows sample.is_utf8 c (row_x ++ row_y)
unfolding program
extend_owned-HoldsRows_example =
    extend_owned-HoldsRows sample first second row_x row_y tt first-HoldsRows second-HoldsRows
      (omega arith) (omega arith)

get_typed_value-HoldsRows_example :
    get_typed_value sample first 0 ≡ some (TypedValue.str (bytes "x"))
get_typed_value-HoldsRows_example = get_typed_value-HoldsRows sample first row_x 0 first-HoldsRows

get_filter_value-get_typed_value_example :
    get_filter_value sample first 0 ≡ mapped (show_typed sample) (get_typed_value sample first 0)
get_filter_value-get_typed_value_example =
    get_filter_value-get_typed_value sample first row_x 0 first-HoldsRows (λ s e. refl)

-- What the text column becomes.
abbrev upgraded : ColumnBuilder
upgraded =
    let (codes, d) =
      push_text (record { values = []; validity = record { bits = []; len = 0; null_count = 0 } })
        (record { bytes = []; offsets = 0 ∷ []; index = [] }) (some (bytes "x")) in
    ColumnBuilder.dictionary codes d

promote_to_variant-HoldsRows_example : HoldsRows sample.is_utf8 upgraded row_x
unfolding program
promote_to_variant-HoldsRows_example =
    promote_to_variant-HoldsRows sample texts upgraded (bytes "dictionary") row_x refl
      texts-HoldsRows (omega arith) refl

try_upgrade_to_dict-HoldsRows_example :
    HoldsRows sample.is_utf8 (try_upgrade_to_dict sample (λ n. n) texts 1 256) row_x
unfolding program
try_upgrade_to_dict-HoldsRows_example =
    try_upgrade_to_dict-HoldsRows sample (λ n. n) texts 1 256 row_x texts-HoldsRows (omega arith)

unify_variants-variant_key_example :
    (unify_variants (variant_key texts) (variant_key first)
      ≡ unify_variants (variant_key first) (variant_key texts))
    × (unify_variants (variant_key texts) (variant_key texts)
        ≡ (if is_decimal texts then none else some (variant_key texts)))
unify_variants-variant_key_example = unify_variants-variant_key texts first

-- The text column and the dictionary column of two chunks.
abbrev together : ColumnBuilder
together = elim (merge_column sample texts second) as (λ r. ColumnBuilder) [
  | ok c ↦ c
  | err e ↦ texts
]

merge_column-HoldsRows_example : HoldsRows sample.is_utf8 together (
    reconciled sample texts (target_of texts second) row_x
    ++ reconciled sample second (target_of texts second) row_y)
unfolding program merge_column unify_variants promoted_merge extend_owned
merge_column-HoldsRows_example =
    merge_column-HoldsRows sample texts second together row_x row_y refl texts-HoldsRows
      second-HoldsRows (omega arith) (omega arith) refl
