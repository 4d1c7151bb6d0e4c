-- ===== src/Filter/Early.antt =====
-- Stability: a decision made early in a row, by a filter whose leaves wait for their fields, is the
-- verdict at the end of the row, whatever fields come later.
use Prim.Native.Nat.{Ordering}
use rypipe.Prelude.{
  ℕ, Option, none, some, Bool, not, List, Str, str_eq, starts_with, ends_with, contains, ◌≡◌, refl,
  Bool-cases, inl, inr,
}
use rypipe.Value.{Host, Value}
use rypipe.Plan.{FieldType, FilterPredicate, CompareOp, column_type}
use rypipe.Filter.Row.{
  RowScope, get_buffered_value, get_buffered_str, text_at, resolve_or, verdict, apply_op,
}
use rypipe.Filter.Leaf.{waiting, arithmetic_holds, trimmed, text_holds, length_holds}
use rypipe.Filter.Compare.{
  compatible, seen, decimal_state, ordered_state, typed_state, eval_compare, literal_value,
  literal_cmp, eval_compare_literal,
}
use rypipe.Filter.Eval.{eval_predicate}
use rypipe.Filter.Settle.{Settles, Settles-refl, and-Settles, or-Settles, not-Settles}

-- Every leaf of the filter is undecided while its field is missing: no leaf asks for absence.
abbrev pub Waits : FilterPredicate → Type 0
Waits (FilterPredicate.in_set f vs) = ⊥
Waits (FilterPredicate.not_in f vs) = ⊥
Waits (FilterPredicate.not_field f) = ⊥
Waits (FilterPredicate.is_null f) = ⊥
Waits (FilterPredicate.is_type f ft) = ⊥
Waits (FilterPredicate.and a b) = Waits a × Waits b
Waits (FilterPredicate.or a b) = Waits a × Waits b
Waits (FilterPredicate.not a) = Waits a
Waits p = Unit

-- What is there stays there.
abbrev pub Keeps {ℓ} : {A : Type ℓ} → Option A → Option A → Type ℓ
Keeps {A} o o' = (a : A) → o ≡ some a → o' ≡ some a

waiting-Settles :
    (o o' : Option Str) (t : Str → Bool) → Keeps o o' → Settles (waiting o t) (waiting o' t)
waiting-Settles none o' t k = tt
waiting-Settles (some s) o' t k = rw (k s refl) (Settles-refl (verdict (t s)))

module _ (h : Host) where
  seen-Keeps :
      (ft : FieldType) (o o' : Option Value) → Keeps o o' → Keeps (seen h ft o) (seen h ft o')
  unfolding seen
  seen-Keeps ft none o' k a e = cc
  seen-Keeps ft (some v) o' k a e = rw (k v refl) e

  literal-Keeps :
      (ft : FieldType) (o o' : Option Value)
      → Keeps o o'
      → Keeps (literal_value h ft o) (literal_value h ft o')
  unfolding literal_value
  literal-Keeps ft none o' k a e = cc
  literal-Keeps ft (some v) o' k a e = rw (k v refl) e

  ordered-Settles :
      (op : CompareOp) (order : Value → Value → Option Ordering) (a b a' b' : Option Value)
      → Keeps a a'
      → Keeps b b'
      → Settles (ordered_state h op order a b) (ordered_state h op order a' b')
  unfolding ordered_state
  ordered-Settles op order none b a' b' ka kb = tt
  ordered-Settles op order (some x) none a' b' ka kb = tt
  ordered-Settles op order (some x) (some y) a' b' ka kb =
      rw (ka x refl, kb y refl) (Settles-refl (verdict (apply_op op (order x y))))

  decimal-Settles :
      (op : CompareOp) (sa sb : ℕ) (a b a' b' : Option Str)
      → Keeps a a'
      → Keeps b b'
      → Settles (decimal_state h op sa sb a b) (decimal_state h op sa sb a' b')
  unfolding decimal_state
  decimal-Settles op sa sb none b a' b' ka kb = tt
  decimal-Settles op sa sb (some x) none a' b' ka kb = tt
  decimal-Settles op sa sb (some x) (some y) a' b' ka kb =
      rw (ka x refl, kb y refl) (Settles-refl (decimal_state h op sa sb (some x) (some y)))

-- A later state of the row: the plan is the same, columns and values may have been added.
abbrev pub later : RowScope → List (Str × ℕ) → List (ℕ × Value) → RowScope
later r index fields = record r { field_index = index; fields = fields }

text_at-Keeps :
    (h : Host) (r : RowScope) (f : Str) (o o' : Option Value)
    → Keeps o o'
    → Keeps (text_at h r.plan f o) (text_at h r.plan f o')
unfolding text_at
text_at-Keeps h r f none o' k a e = cc
text_at-Keeps h r f (some v) o' k a e = rw (k v refl) e

module _ (h : Host) (r : RowScope) (index : List (Str × ℕ)) (fields : List (ℕ × Value))
    (keeps : (f : Str)
      → Keeps (get_buffered_value r f) (get_buffered_value (later r index fields) f)) where
  str-Keeps :
      (f : Str) → Keeps (get_buffered_str h r f) (get_buffered_str h (later r index fields) f)
  unfolding get_buffered_str
  str-Keeps f = text_at-Keeps h r f _ _ (keeps f)

  typed-Settles :
      (op : CompareOp) (fa fb : Str) (ta tb : FieldType)
      → Settles
          (typed_state h r op fa fb ta tb)
          (typed_state h (later r index fields) op fa fb ta tb)
  unfolding typed_state
  typed-Settles op fa fb (FieldType.decimal128 sa) (FieldType.decimal128 sb) =
      decimal-Settles h op sa sb _ _ _ _ (str-Keeps fa) (str-Keeps fb)
  typed-Settles op fa fb ta tb =
      ordered-Settles h op _ _ _ _ _ (seen-Keeps h ta _ _ (keeps fa))
        (seen-Keeps h tb _ _ (keeps fb))

  compare-Settles :
      (fa : Str) (op : CompareOp) (fb : Str)
      → Settles (eval_compare h r fa op fb) (eval_compare h (later r index fields) fa op fb)
  unfolding eval_compare
  compare-Settles fa op fb =
      let ta = column_type r.plan (resolve_or r.plan fa) in
      let tb = column_type r.plan (resolve_or r.plan fb) in
      elim (Bool-cases (compatible ta tb)) [
        | inl yes' ↦ rw yes' (typed-Settles op fa fb ta tb)
        | inr no' ↦ rw no'
      ]

  literal-Settles :
      (f : Str) (op : CompareOp) (v : Str)
      → Settles
          (eval_compare_literal h r f op v)
          (eval_compare_literal h (later r index fields) f op v)
  unfolding eval_compare_literal
  literal-Settles f op v =
      let ft = column_type r.plan (resolve_or r.plan f) in
      ordered-Settles h op (literal_cmp h) _ _ _ _ (literal-Keeps h ft _ _ (keeps f)) (λ a e. e)

  text-Settles :
      (f : Str) (t : Str → Bool)
      → Settles
          (waiting (get_buffered_str h r f) t)
          (waiting (get_buffered_str h (later r index fields) f) t)
  text-Settles f t = waiting-Settles _ _ t (str-Keeps f)

  pub eval-Settles :
      (p : FilterPredicate)
      → Waits p
      → Settles (eval_predicate h r p) (eval_predicate h (later r index fields) p)
  unfolding eval_predicate
  eval-Settles (FilterPredicate.equal f v) w = text-Settles f (λ s. str_eq s v)
  eval-Settles (FilterPredicate.not_equal f v) w = text-Settles f (λ s. not (str_eq s v))
  eval-Settles (FilterPredicate.compare fa op fb) w = compare-Settles fa op fb
  eval-Settles (FilterPredicate.compare_literal f op v) w = literal-Settles f op v
  eval-Settles (FilterPredicate.starts_with f v) w = text-Settles f (λ s. starts_with s v)
  eval-Settles (FilterPredicate.ends_with f v) w = text-Settles f (λ s. ends_with s v)
  eval-Settles (FilterPredicate.in_set f vs) w = absurd w
  eval-Settles (FilterPredicate.not_in f vs) w = absurd w
  eval-Settles (FilterPredicate.always keep) w = Settles-refl (verdict keep)
  eval-Settles (FilterPredicate.not_field f) w = absurd w
  eval-Settles (FilterPredicate.arithmetic_compare f op x c v) w =
      text-Settles f (λ s. arithmetic_holds h op x c v s)
  eval-Settles (FilterPredicate.strip f op v mode) w =
      text-Settles f (λ s. text_holds h op v (trimmed h mode s))
  eval-Settles (FilterPredicate.lower f op v) w =
      text-Settles f (λ s. text_holds h op v (h.to_lowercase s))
  eval-Settles (FilterPredicate.upper f op v) w =
      text-Settles f (λ s. text_holds h op v (h.to_uppercase s))
  eval-Settles (FilterPredicate.replace f old new op v) w =
      text-Settles f (λ s. text_holds h op v (h.replace s old new))
  eval-Settles (FilterPredicate.length f op v) w = text-Settles f (λ s. length_holds h op v s)
  eval-Settles (FilterPredicate.contains f v) w = text-Settles f (λ s. contains s v)
  eval-Settles (FilterPredicate.is_null f) w = absurd w
  eval-Settles (FilterPredicate.is_type f ft) w = absurd w
  eval-Settles (FilterPredicate.regex f pattern) w = text-Settles f (λ s. h.is_match pattern s)
  eval-Settles (FilterPredicate.and a b) w =
      and-Settles _ _ _ _ (eval-Settles a w.0) (eval-Settles b w.1)
  eval-Settles (FilterPredicate.or a b) w =
      or-Settles _ _ _ _ (eval-Settles a w.0) (eval-Settles b w.1)
  eval-Settles (FilterPredicate.not a) w = not-Settles _ _ (eval-Settles a w)
