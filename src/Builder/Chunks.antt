-- ===== src/Builder/Chunks.antt =====
-- A column of two chunks becomes one: the step of `TableBuilder::extend` (merge.rs) for a column
-- that both have.
use rypipe.Prelude.{
  Bool, true, false, ◌+◌, ◌^◌, ◌<◌, ◌≤◌, ◌≡◌, refl, sym, ap, ◌∙◌, Option, none, some, List, [], ◌∷◌,
  ◌++◌, map, length, Str, bytes, str_eq, arith, if◌then◌else◌, Bool-cases, Option-cases,
  Result-cases, inl, inr, Result, ok, err, merge, ◌>>=◌, length-append, ==_iff, ◌==◌,
}
use rypipe.Value.{F64, TimeUnit, Host}
use rypipe.Columnar.Flat.{is_some}
use rypipe.Columnar.Cells.{length-map}
use rypipe.Plan.{unit_eq}
use rypipe.Columnar.Primitive.{PrimColumn}
use rypipe.Columnar.Texts.{StrColumn}
use rypipe.Columnar.TextCells.{concat}
use rypipe.Columnar.Words.{size, with_word, with_words, size-with_word, length-ends}
use rypipe.Columnar.Remap.{size-cons}
use rypipe.Columnar.DictColumn.{present}
use rypipe.Builder.{ColumnBuilder, zero_int, zero_float}
use rypipe.Builder.Read.{TypedValue, len}
use rypipe.Builder.Merge.{variant_key, unify_variants, promote_to_variant, extend_owned, encoded}
use rypipe.Builder.Rows.{TextHolds, HoldsRows, text_bytes, entries, SameType}
use rypipe.Builder.Extend.{extend_owned-HoldsRows}
use rypipe.Builder.Promote.{
  promoted, promote_to_variant-HoldsRows, encoded_rows, kept_or_err, one_or_other,
}

-- Both columns promoted to the variant, and then merged.
unfoldable pub promoted_merge : Host → Str → ColumnBuilder → ColumnBuilder → Result ColumnBuilder
promoted_merge H target a b = do
  a' ← promote_to_variant H a target
  b' ← promote_to_variant H b target
  extend_owned H a' b'

unfoldable pub merge_column : Host → ColumnBuilder → ColumnBuilder → Result ColumnBuilder
merge_column H self_b other_b =
    let skey = variant_key self_b in
    let okey = variant_key other_b in
    let promotion = elim (unify_variants skey okey) as (λ o. Result ColumnBuilder) [
      | none ↦ err merge
      | some target ↦ promoted_merge H target self_b other_b
    ] in
    if str_eq skey okey then extend_owned H self_b other_b else promotion

-- The rows of a column after its promotion, if there is one.
unfoldable pub reconciled :
    Host → ColumnBuilder → Option Str → List (Option TypedValue) → List (Option TypedValue)
reconciled H c none xs = xs
reconciled H c (some target) xs = promoted H c target xs

-- The variant that two columns are promoted to, unless they have the same one.
unfoldable pub target_of : ColumnBuilder → ColumnBuilder → Option Str
target_of a b =
    if str_eq (variant_key a) (variant_key b)
    then none
    else unify_variants (variant_key a) (variant_key b)

size-with_words :
    (ws vs : List Str)
    → (size (with_words ws vs) ≤ size ws + size vs)
      × (length (with_words ws vs) ≤ length ws + length vs)
unfolding with_words
size-with_words ws [] = (omega arith, omega arith)
size-with_words ws (v ∷ vs) =
    let (less, fewer) = size-with_words (with_word ws v) vs in
    let (one, first) = size-with_word ws v in
    let more = size-cons v vs in (omega arith, omega arith)

size-present :
    (ys : List (Option Str))
    → (size (present ys) ≡ length (concat ys)) × (length (present ys) ≤ length ys)
size-present [] = (refl, omega arith)
size-present (none ∷ ys) = let (a, b) = size-present ys in (a, omega arith)
size-present (some y ∷ ys) =
    let (a, b) = size-present ys in
    (omega (arith, a, size-cons y (present ys), length-append y (concat ys)), omega arith)

ok_injective : (a b : ColumnBuilder) → ok a ≡ ok b → a ≡ b
ok_injective a b h = cc

module _ (H : Host) where
  encoded_sizes :
      (v : StrColumn) (xs : List (Option TypedValue))
      → TextHolds H.is_utf8 v xs
      → v.validity.len < 2 ^ 31
      → (text_bytes (encoded H v) ≤ length v.bytes) × (entries (encoded H v) ≤ v.validity.len)
  unfolding encoded text_bytes entries
  encoded_sizes v xs (ys, s, p, e) few =
      let r = encoded_rows H v ys s p few in
      let (less, fewer) = size-with_words [] (present ys) in
      let (same, most) = size-present ys in
      let count : v.validity.len ≡ length ys = s.valid.rows ∙ length-map is_some ys in
      (
        omega (arith, ap length r.dict.text, ap length s.text),
        omega (
          arith,
          ap length r.dict.ends_of,
          length-ends 0 (map some (with_words [] (present ys))),
          length-map some (with_words [] (present ys)),
        ),
      )

  -- What a promotion adds to the texts and the words of a column.
  promoted_sizes :
      (c c' : ColumnBuilder) (target : Str) (xs : List (Option TypedValue))
      → HoldsRows H.is_utf8 c xs
      → len c < 2 ^ 31
      → promote_to_variant H c target ≡ ok c'
      → (text_bytes c' ≤ text_bytes c) × (entries c' ≤ entries c + len c)
  unfolding promote_to_variant text_bytes entries HoldsRows len
  promoted_sizes (ColumnBuilder.int64 v) c' target xs s few h =
      let wide : PrimColumn F64 = record { items = map H.of_int v.items; validity = v.validity } in
      elim (one_or_other H (str_eq (bytes "int64") target) (str_eq target (bytes "float64"))
        (ColumnBuilder.int64 v) (ColumnBuilder.float64 wide) c' h) [
          | inl (same, e) ↦ rw (← e) (omega arith, omega arith)
          | inr (other, e) ↦ rw (← e) (omega arith, omega arith)
        ]
  promoted_sizes (ColumnBuilder.string v) c' target xs s few h =
      elim (one_or_other H (str_eq (bytes "string") target) (str_eq target (bytes "dictionary"))
        (ColumnBuilder.string v) (encoded H v) c' h) [
          | inl (same, e) ↦ rw (← e) (omega arith, omega arith)
          | inr (other, e) ↦
              let (less, fewer) = encoded_sizes v xs s few in rw (← e) (less, omega (arith, fewer))
        ]
  promoted_sizes c c' target xs s few h =
      rw (← kept_or_err H (str_eq (variant_key c) target) c c' h) (omega arith, omega arith)

  same_unit : (u u' : TimeUnit) → unit_eq u u' ≡ true → u ≡ u'
  unfolding unit_eq
  same_unit TimeUnit.second TimeUnit.second h = refl
  same_unit TimeUnit.millisecond TimeUnit.millisecond h = refl
  same_unit TimeUnit.microsecond TimeUnit.microsecond h = refl
  same_unit TimeUnit.nanosecond TimeUnit.nanosecond h = refl
  same_unit u u' h = cc

  chosen : (t : Bool) (a c : ColumnBuilder) → (if t then ok a else err merge) ≡ ok c → t ≡ true
  chosen true a c h = refl
  chosen false a c h = let impossible : err merge ≡ ok c = h in cc

  -- Only columns of one type are merged.
  ok-SameType : (a b c : ColumnBuilder) → extend_owned H a b ≡ ok c → SameType a b
  unfolding SameType extend_owned
  ok-SameType (ColumnBuilder.string a) (ColumnBuilder.string b) c h = tt
  ok-SameType (ColumnBuilder.int64 a) (ColumnBuilder.int64 b) c h = tt
  ok-SameType (ColumnBuilder.float64 a) (ColumnBuilder.float64 b) c h = tt
  ok-SameType (ColumnBuilder.boolean a) (ColumnBuilder.boolean b) c h = tt
  ok-SameType (ColumnBuilder.date32 a) (ColumnBuilder.date32 b) c h = tt
  ok-SameType (ColumnBuilder.timestamp u f a) (ColumnBuilder.timestamp u' f' b) c h =
      same_unit u u' (chosen (unit_eq u u') _ c h)
  ok-SameType (ColumnBuilder.decimal128 n a) (ColumnBuilder.decimal128 n' b) c h =
      (==_iff n n').0 (chosen (n == n') _ c h)
  ok-SameType (ColumnBuilder.dictionary x a) (ColumnBuilder.dictionary y b) c h = tt
  ok-SameType a b c h = let impossible : err merge ≡ ok c = h in cc

  extended :
      (a b c : ColumnBuilder) (xs ys : List (Option TypedValue))
      → HoldsRows H.is_utf8 a xs
      → HoldsRows H.is_utf8 b ys
      → text_bytes a + text_bytes b < 2 ^ 31
      → entries a + entries b < 2 ^ 31
      → extend_owned H a b ≡ ok c
      → HoldsRows H.is_utf8 c (xs ++ ys)
  extended a b c xs ys s t small few h =
      let (c', e, held) = extend_owned-HoldsRows H a b xs ys (ok-SameType a b c h) s t small few in
      let same : c' ≡ c = ok_injective c' c (sym e ∙ h) in rw (← same) held

  both_promoted :
      (a b c : ColumnBuilder) (target : Str) (xs ys : List (Option TypedValue))
      → H.of_int zero_int ≡ zero_float
      → HoldsRows H.is_utf8 a xs
      → HoldsRows H.is_utf8 b ys
      → text_bytes a + text_bytes b < 2 ^ 31
      → entries a + len a + (entries b + len b) < 2 ^ 31
      → promoted_merge H target a b ≡ ok c
      → HoldsRows H.is_utf8 c (promoted H a target xs ++ promoted H b target ys)
  unfolding promoted_merge
  both_promoted a b c target xs ys z s t small few h =
      elim (Result-cases (promote_to_variant H a target)) [
        | inr (x, failed) ↦ let impossible : err x ≡ ok c = rw failed at h in cc
        | inl (a', first) ↦ elim (Result-cases (promote_to_variant H b target)) [
          | inr (x, failed) ↦ let impossible : err x ≡ ok c = rw (first, failed) at h in cc
          | inl (b', second) ↦
              let merging : extend_owned H a' b' ≡ ok c = rw (first, second) at h in
              let (less, fewer) = promoted_sizes a a' target xs s (omega arith) first in
              let (less', fewer') = promoted_sizes b b' target ys t (omega arith) second in
              extended a' b' c (promoted H a target xs) (promoted H b target ys)
                (promote_to_variant-HoldsRows H a a' target xs z s (omega arith) first)
                (promote_to_variant-HoldsRows H b b' target ys z t (omega arith) second)
                (omega arith) (omega arith) merging
        ]
      ]

  -- For two columns that hold lists of rows, with room for the texts of both and for a word of
  -- each row, and a host that converts 0 to the float 0, a column that the merge of the two gives
  -- holds the rows of the first and then those of the second, with the integers converted where
  -- the other column has floats.
  pub merge_column-HoldsRows :
      (a b c : ColumnBuilder) (xs ys : List (Option TypedValue))
      → H.of_int zero_int ≡ zero_float
      → HoldsRows H.is_utf8 a xs
      → HoldsRows H.is_utf8 b ys
      → text_bytes a + text_bytes b < 2 ^ 31
      → entries a + len a + (entries b + len b) < 2 ^ 31
      → merge_column H a b ≡ ok c
      → HoldsRows H.is_utf8 c
          (reconciled H a (target_of a b) xs ++ reconciled H b (target_of a b) ys)
  unfolding merge_column target_of reconciled
  merge_column-HoldsRows a b c xs ys z s t small few h =
      elim (Bool-cases (str_eq (variant_key a) (variant_key b))) [
        | inl same ↦
            let merging : extend_owned H a b ≡ ok c = rw same at h in
            rw same (extended a b c xs ys s t small (omega arith) merging)
        | inr differ ↦ elim (Option-cases (unify_variants (variant_key a) (variant_key b))) [
          | inl never ↦ let impossible : err merge ≡ ok c = rw (differ, never) at h in cc
          | inr (target, both) ↦
              let merging : promoted_merge H target a b ≡ ok c = rw (differ, both) at h in
              rw (differ, both) (both_promoted a b c target xs ys z s t small few merging)
        ]
      ]
