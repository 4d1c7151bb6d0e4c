-- ===== src/Builder/Variants.antt =====
-- `unify_variants` of columnar.rs: which storage variants of one column go together.
use rypipe.Prelude.{
  ℕ, Bool, true, false, ◌≡◌, refl, sym, ap, ◌∙◌, none, some, [], ◌∷◌, Str, bytes, str_eq,
  str_eq_refl, eq_of_str_eq, member, ◌&&◌, ◌||◌, ◌==◌, if◌then◌else◌, Bool-cases, inl, inr, arith,
}
use rypipe.Value.{TimeUnit}
use rypipe.Builder.{ColumnBuilder}
use rypipe.Builder.Merge.{decimal_key, variant_key, variant_keys, unify_variants}

pub str_eq_symm : (s t : Str) → str_eq s t ≡ str_eq t s
unfolding str_eq
str_eq_symm [] [] = refl
str_eq_symm [] (b ∷ t) = refl
str_eq_symm (a ∷ s) [] = refl
str_eq_symm (a ∷ s) (b ∷ t) = ground (arith, str_eq_symm s t)

swapped : (p q r s : Bool) → (p && q) || (r && s) ≡ (s && r) || (q && p)
swapped true true true true = refl
swapped true true true false = refl
swapped true true false true = refl
swapped true true false false = refl
swapped true false true true = refl
swapped true false true false = refl
swapped true false false true = refl
swapped true false false false = refl
swapped false true true true = refl
swapped false true true false = refl
swapped false true false true = refl
swapped false true false false = refl
swapped false false true true = refl
swapped false false true false = refl
swapped false false false true = refl
swapped false false false false = refl

unify_variants_symm : (a b : Str) → unify_variants a b ≡ unify_variants b a
unfolding unify_variants
unify_variants_symm a b = elim (Bool-cases (str_eq a b)) [
  | inl same ↦
      let equal : a ≡ b = eq_of_str_eq a b same in
      ap (λ t. unify_variants a t) (sym equal) ∙ ap (λ t. unify_variants t a) equal
  | inr other ↦
      let other' : str_eq b a ≡ false = str_eq_symm b a ∙ other in
      rw
        (
          other,
          other',
          swapped (str_eq a (bytes "int64")) (str_eq b (bytes "float64"))
              (str_eq a (bytes "float64")) (str_eq b (bytes "int64")),
          swapped (str_eq a (bytes "string")) (str_eq b (bytes "dictionary"))
              (str_eq a (bytes "dictionary")) (str_eq b (bytes "string")),
        )
        refl
]

unfoldable pub is_decimal : ColumnBuilder → Bool
is_decimal (ColumnBuilder.decimal128 scale v) = true
is_decimal c = false

unknown_if :
    (t : Bool) (a b : Str)
    → member a variant_keys ≡ false
    → member b variant_keys ≡ false
    → member (if t then a else b) variant_keys ≡ false
unknown_if true a b h k = h
unknown_if false a b h k = k

decimal_keys : (n : ℕ) → member (decimal_key n) variant_keys ≡ false
unfolding member str_eq
decimal_keys n = unknown_if (n == 0) (bytes "decimal128(0)") _ refl (
    unknown_if (n == 2) (bytes "decimal128(2)") _ refl (
      unknown_if (n == 4) (bytes "decimal128(4)") _ refl (
        unknown_if (n == 8) (bytes "decimal128(8)") _ refl (
          unknown_if (n == 10) (bytes "decimal128(10)") _ refl
            (unknown_if (n == 18) (bytes "decimal128(18)") (bytes "decimal128") refl refl)))))

same_key :
    (a : Str) (t : Bool)
    → member a variant_keys ≡ t
    → unify_variants a a ≡ (if t then some a else none)
unfolding unify_variants
same_key a t h = rw (str_eq_refl a, h) refl

own :
    (c : ColumnBuilder)
    → unify_variants (variant_key c) (variant_key c)
      ≡ (if is_decimal c then none else some (variant_key c))
unfolding variant_key is_decimal member str_eq
own (ColumnBuilder.string v) = same_key (bytes "string") true refl
own (ColumnBuilder.int64 v) = same_key (bytes "int64") true refl
own (ColumnBuilder.float64 v) = same_key (bytes "float64") true refl
own (ColumnBuilder.boolean v) = same_key (bytes "boolean") true refl
own (ColumnBuilder.date32 v) = same_key (bytes "date32") true refl
own (ColumnBuilder.timestamp TimeUnit.second f v) = same_key (bytes "timestamp[s]") true refl
own (ColumnBuilder.timestamp TimeUnit.millisecond f v) = same_key (bytes "timestamp[ms]") true refl
own (ColumnBuilder.timestamp TimeUnit.microsecond f v) = same_key (bytes "timestamp[us]") true refl
own (ColumnBuilder.timestamp TimeUnit.nanosecond f v) = same_key (bytes "timestamp[ns]") true refl
own (ColumnBuilder.decimal128 n v) = same_key (decimal_key n) false (decimal_keys n)
own (ColumnBuilder.dictionary codes d) = same_key (bytes "dictionary") true refl

-- `unify_variants` does not depend on the order of its arguments; and it gives the variant of two
-- columns that have the same one, but for decimals, whose variants it does not know.
pub unify_variants-variant_key :
    (c d : ColumnBuilder)
    → (unify_variants (variant_key c) (variant_key d)
        ≡ unify_variants (variant_key d) (variant_key c))
      × (unify_variants (variant_key c) (variant_key c)
          ≡ (if is_decimal c then none else some (variant_key c)))
unfolding variant_key is_decimal
unify_variants-variant_key c d = (unify_variants_symm (variant_key c) (variant_key d), own c)
