-- ===== src/Table/Aligned.antt =====
-- The columns of a `TableBuilder` keep the same number of rows.
use rypipe.Prelude.{
  ℕ, zero, suc, Bool, true, false, ◌+◌, ◌*◌, ◌/◌, ◌≡◌, ◌<◌, ◌≤◌, refl, sym, ap, ◌∙◌, none, some,
  List, [], ◌∷◌, ◌++◌, Str, str_eq, lookup, length, get_elem?, get_or, set, ltb, ◌==◌, Bool-cases,
  inl, inr, arith, length-append, div_ceil, ◌⊎◌, ◌≢◌,
}
use rypipe.Value.{Value, Host}
use rypipe.Plan.{FieldType, column_type}
use rypipe.Columnar.Contents.{length-set}
use rypipe.Columnar.Entries.{get_elem?-lt, get_elem?-get_or}
use rypipe.Builder.{ColumnBuilder, new, push_str}
use rypipe.Builder.Read.{len, pop}
use rypipe.Table.{TableBuilder, is_dirty, mark, push_nulls, with_column, replaced, store}
use rypipe.Table.Bits.{is_dirty-mark, is_dirty-padded, length-padded, length-mark}
use rypipe.Table.Lengths.{len-pop, len-push_str, len-push_value, len-new}

abbrev pub one_if : Bool → ℕ
one_if true = 1
one_if false = 0

-- Every column has the rows of the table, and one more if it got a value in the row that is being
-- read; a name's column is there, and the words have a bit for each column, none set past them.
pub record Aligned (columns : List ColumnBuilder) (index : List (Str × ℕ)) (dirty : List ℕ)
    (rows : ℕ) : Type 0 where
  pub lens :
      (i : ℕ) (b : ColumnBuilder)
      → get_elem? columns i ≡ some b
      → len b ≡ rows + one_if (is_dirty dirty i)
  pub clear : (i : ℕ) → length columns ≤ i → is_dirty dirty i ≡ false
  pub slots : (name : Str) (i : ℕ) → lookup name index ≡ some i → i < length columns
  pub words : length columns ≤ 64 * length dirty

-- The table is not within a row that is counted, and aligned.
pub record IsAligned (t : TableBuilder) : Type 0 where
  pub between : t.direct ≡ false
  pub aligned : Aligned t.columns t.field_index t.row_dirty t.row_count

module _ {A : Type 0} where
  get_elem?-set :
      (xs : List A) (k i : ℕ) (v x : A)
      → get_elem? (set xs k v) i ≡ some x
      → ((k ≡ i) × (v ≡ x)) ⊎ ((k ≢ i) × (get_elem? xs i ≡ some x))
  get_elem?-set [] k i v x h = cc
  get_elem?-set (y ∷ ys) zero zero v x h = inl (refl, cc)
  get_elem?-set (y ∷ ys) zero (suc i) v x h = inr (ground arith, h)
  get_elem?-set (y ∷ ys) (suc k) zero v x h = inr (ground arith, h)
  get_elem?-set (y ∷ ys) (suc k) (suc i) v x h = elim (get_elem?-set ys k i v x h) [
    | inl (same, value) ↦ inl (ap suc same, value)
    | inr (other, rest) ↦ inr (ground (arith, other), rest)
  ]

  get_elem?-snoc :
      (xs : List A) (i : ℕ) (v x : A)
      → get_elem? (xs ++ (v ∷ [])) i ≡ some x
      → ((i ≡ length xs) × (v ≡ x)) ⊎ (get_elem? xs i ≡ some x)
  get_elem?-snoc [] zero v x h = inl (refl, cc)
  get_elem?-snoc [] (suc i) v x h = cc
  get_elem?-snoc (y ∷ ys) zero v x h = inr h
  get_elem?-snoc (y ∷ ys) (suc i) v x h = elim (get_elem?-snoc ys i v x h) [
    | inl (same, value) ↦ inl (ap suc same, value)
    | inr rest ↦ inr rest
  ]

module _ (H : Host) where
  len-push_nulls : (b : ColumnBuilder) (n : ℕ) → len (push_nulls H b n) ≡ len b + n
  unfolding push_nulls
  len-push_nulls b zero = omega arith
  len-push_nulls b (suc n) =
      len-push_nulls (push_str H b none) n ∙ omega (arith, len-push_str H b none)

  one_if_le : (d : Bool) → one_if d ≤ 1
  one_if_le true = omega arith
  one_if_le false = omega arith

  len-replaced :
      (b : ColumnBuilder) (rows : ℕ) (v : Value) (d : Bool)
      → len b ≡ rows + one_if d
      → len (replaced H b rows v) ≡ rows + 1
  unfolding replaced
  len-replaced b rows v d h = elim (Bool-cases (ltb rows (len b))) [
    | inl longer ↦
        rw longer (len-push_value H (pop b) v ∙ ground (arith, len-pop b, one_if_le d, longer, h))
    | inr fits ↦ rw fits (len-push_value H b v ∙ ground (arith, one_if_le d, fits, h))
  ]

  -- A value in the column `i`.
  stored-Aligned :
      (cs : List ColumnBuilder) (ix : List (Str × ℕ)) (dirty : List ℕ) (rows i : ℕ)
      (b : ColumnBuilder) (v : Value)
      → Aligned cs ix dirty rows
      → get_elem? cs i ≡ some b
      → Aligned (set cs i (replaced H b rows v)) ix (mark dirty i) rows
  stored-Aligned cs ix dirty rows i b v s at =
      let size = length-set cs i (replaced H b rows v) in
      let within = get_elem?-lt cs i b at in
      let word : i / 64 < length dirty = omega (arith, s.words, within) in
      record {
        lens = λ j c h. elim (get_elem?-set cs i j (replaced H b rows v) c h) [
          | inl (same, value) ↦
              let mine : (i == j) ≡ true = ground (arith, same) in
              rw (is_dirty-mark dirty i j word, mine)
                (ap len (sym value) ∙ len-replaced b rows v (is_dirty dirty i) (s.lens i b at))
          | inr (other, rest) ↦
              let differs : (i == j) ≡ false = ground (arith, other) in
              rw (is_dirty-mark dirty i j word, differs) (s.lens j c rest)
        ];
        clear = λ j h.
            let differs : (i == j) ≡ false = ground (arith, within, size, h) in
            rw (is_dirty-mark dirty i j word, differs) (s.clear j (omega (arith, size, h)));
        slots = λ name j h. omega (arith, size, s.slots name j h);
        words = omega (arith, size, length-mark dirty i, s.words);
      }

  store-some :
      (t : TableBuilder) (i : ℕ) (v : Value) (b : ColumnBuilder)
      → get_elem? t.columns i ≡ some b
      → store H t i v ≡ record t {
        row_dirty = mark t.row_dirty i;
        columns = set t.columns i (replaced H b t.row_count v);
      }
  unfolding store
  store-some t i v b h = rw (h, store) refl

  pub store-IsAligned :
      (t : TableBuilder) (i : ℕ) (v : Value)
      → IsAligned t
      → i < length t.columns
      → IsAligned (store H t i v)
  store-IsAligned t i v s lt =
      let b = get_or t.columns i (new FieldType.string) in
      let there = get_elem?-get_or t.columns i (new FieldType.string) lt in
      rw (store-some t i v b there) (record {
        between = s.between;
        aligned =
            stored-Aligned t.columns t.field_index t.row_dirty t.row_count i b v s.aligned there;
      })

  slots_more :
      (ix : List (Str × ℕ)) (name : Str) (n : ℕ)
      → ((other : Str) (i : ℕ) → lookup other ix ≡ some i → i < n)
      → (other : Str) (i : ℕ) → lookup other ((name, n) ∷ ix) ≡ some i
      → i < n + 1
  unfolding lookup
  slots_more ix name n s other i h = elim (Bool-cases (str_eq name other)) [
    | inl same ↦
        let e : some n ≡ some i = rw same at h in let here : n ≡ i = cc in omega (arith, here)
    | inr differs ↦ let e : lookup other ix ≡ some i = rw differs at h in omega (arith, s other i e)
  ]

  -- One column more, with a null for each row.
  pub with_column-IsAligned :
      (t : TableBuilder) (name : Str) → IsAligned t → IsAligned (with_column H t name)
  unfolding with_column lookup
  with_column-IsAligned t name s =
      let b : ColumnBuilder = push_nulls H (new (column_type t.plan name)) t.row_count in
      let rows : len b ≡ t.row_count =
        len-push_nulls (new (column_type t.plan name)) t.row_count
        ∙ omega (arith, len-new (column_type t.plan name)) in
      let size : length (t.columns ++ (b ∷ [])) ≡ length t.columns + 1 =
        length-append t.columns (b ∷ []) in
      let n : ℕ = div_ceil (length (t.columns ++ (b ∷ []))) 64 in
      let a = s.aligned in
      record {
        between = s.between;
        aligned = rw (s.between) (record {
          lens = λ i c h.
              rw (is_dirty-padded t.row_dirty n i) (elim (get_elem?-snoc t.columns i b c h) [
                | inl (last, value) ↦
                    let fresh = a.clear i (omega (arith, last)) in
                    rw fresh (ap len (sym value) ∙ rows ∙ omega arith)
                | inr before ↦ a.lens i c before
              ]);
          clear = λ i h. rw (is_dirty-padded t.row_dirty n i) (a.clear i (omega (arith, size, h)));
          slots = λ other i h.
              omega
                (arith, size, slots_more t.field_index name (length t.columns) a.slots other i h);
          words = omega (arith, length-padded t.row_dirty n, size);
        });
      }
