-- ===== src/Filter/Accept.antt =====
-- Reading a row with early decisions accepts it exactly when the whole row passes.
use rypipe.Prelude.{
  ℕ, Option, none, some, Bool, true, false, ◌&&◌, List, [], ◌∷◌, ◌++◌, Str, lookup, ◌≡◌, refl, sym,
  ◌==◌, ==_iff, if◌then◌else◌, arith, Bool-cases, inl, inr, ap,
}
use rypipe.Value.{Host, Value}
use rypipe.Plan.{FilterPredicate, resolve_field}
use rypipe.Filter.Row.{
  PredicateState, undecided, pass, fail, RowScope, last_of, slot_of, slot_in, value_at,
  get_buffered_value,
}
use rypipe.Filter.Eval.{eval_predicate, eval_predicate_with_null}
use rypipe.Filter.Settle.{Settles, Settles-refl, Settles-trans}
use rypipe.Filter.AtEnd.{at_end-Settles}
use rypipe.Filter.Early.{Waits, Keeps, eval-Settles}
use rypipe.Filter.Buffer.{
  Arrival, buffer, receive, receive_all, is_pass, is_fail, end_row, read_row,
}

-- No field arrives twice in the row.
abbrev pub Fresh : RowScope → List Arrival → Type 0
Fresh r [] = Unit
Fresh r (a ∷ rest) = (last_of a.slot r.fields ≡ none) × Fresh (receive r a) rest

last_of-fresh_tail :
    (slot s : ℕ) (x : Value) (rest : List (ℕ × Value))
    → last_of slot ((s, x) ∷ rest) ≡ none
    → (last_of slot rest ≡ none) × ((s == slot) ≡ false)
unfolding last_of
last_of-fresh_tail slot s x rest h = ground arith

if_over-cons :
    (b : Bool) (j slot s : ℕ) (v x : Value) (fs gs : List (ℕ × Value))
    → b ≡ false
    → last_of j (if b then (s, v) ∷ fs else (s, x) ∷ gs) ≡ last_of j ((s, x) ∷ gs)
if_over-cons b j slot s v x fs gs h = rw h

last_of-buffer :
    (slot : ℕ) (v : Value) (fs : List (ℕ × Value)) (j : ℕ)
    → last_of slot fs ≡ none
    → last_of j (buffer slot v fs) ≡ (if slot == j then some v else last_of j fs)
unfolding buffer last_of
last_of-buffer slot v [] j h = ground arith
last_of-buffer slot v ((s, x) ∷ rest) j h =
    let (tail, ne) = last_of-fresh_tail slot s x rest h in
    rw ne (ground (arith, last_of-buffer slot v rest j tail))

buffer-Keeps :
    (slot : ℕ) (v : Value) (fs : List (ℕ × Value)) (j : ℕ)
    → last_of slot fs ≡ none
    → Keeps (last_of j fs) (last_of j (buffer slot v fs))
buffer-Keeps slot v fs j h w e = rw (last_of-buffer slot v fs j h) (elim (Bool-cases (slot == j)) [
  | inl same ↦ let there : last_of slot fs ≡ some w = rw ((==_iff slot j).0 same) e in cc
  | inr other ↦ rw other e
])

lookup-append : (k : Str) (m extra : List (Str × ℕ)) → Keeps (lookup k m) (lookup k (m ++ extra))
unfolding lookup
lookup-append k [] extra i e = cc
lookup-append k ((j, v) ∷ m) extra i e = ground (arith, lookup-append k m extra i)

slot_in-Keeps :
    (o : Option Str) (m extra : List (Str × ℕ)) → Keeps (slot_in o m) (slot_in o (m ++ extra))
unfolding slot_in
slot_in-Keeps none m extra i e = cc
slot_in-Keeps (some k) m extra i e = lookup-append k m extra i e

value_at-Keeps :
    (o o' : Option ℕ) (fs gs : List (ℕ × Value))
    → Keeps o o'
    → ((j : ℕ) → Keeps (last_of j fs) (last_of j gs))
    → Keeps (value_at o fs) (value_at o' gs)
unfolding value_at
value_at-Keeps none o' fs gs ko kf v e = cc
value_at-Keeps (some j) o' fs gs ko kf v e = rw (ko j refl) (kf j v e)

receive-Keeps :
    (r : RowScope) (a : Arrival)
    → last_of a.slot r.fields ≡ none
    → (f : Str) → Keeps (get_buffered_value r f) (get_buffered_value (receive r a) f)
unfolding get_buffered_value receive slot_of
receive-Keeps r a fresh f =
    value_at-Keeps _ _ r.fields (buffer a.slot a.value r.fields)
      (slot_in-Keeps (resolve_field r.plan f) r.field_index a.columns)
      (λ j. buffer-Keeps a.slot a.value r.fields j fresh)

both_true : (a b : Bool) → (a && b) ≡ true → b ≡ true
both_true a b h = ground arith

module _ (h : Host) (p : FilterPredicate) (w : Waits p) where
  receive-Settles :
      (r : RowScope) (a : Arrival)
      → last_of a.slot r.fields ≡ none
      → Settles (eval_predicate h r p) (eval_predicate h (receive r a) p)
  unfolding receive
  receive-Settles r a fresh =
      eval-Settles h r (r.field_index ++ a.columns) (buffer a.slot a.value r.fields)
        (unfold receive in receive-Keeps r a fresh) p w

  -- For a filter none of whose leaves asks for absence and a rest of the row in which no field
  -- comes twice, what the filter decides on the fields read so far is its verdict on the whole
  -- row.
  pub early-Settles :
      (r : RowScope) (rest : List Arrival)
      → Fresh r rest
      → Settles (eval_predicate h r p) (eval_predicate_with_null h (receive_all r rest) p)
  unfolding receive_all
  early-Settles r [] fresh = at_end-Settles h r p
  early-Settles r (a ∷ rest) fresh =
      Settles-trans _ _ _ (receive-Settles r a fresh.0) (early-Settles (receive r a) rest fresh.1)

  settled_row :
      (r : RowScope) (s : PredicateState)
      → Settles s (eval_predicate h r p)
      → end_row h p r s ≡ is_pass (eval_predicate_with_null h r p)
  unfolding end_row
  settled_row r undecided k = refl
  settled_row r pass k = ap is_pass (sym (rw k at (at_end-Settles h r p)))
  settled_row r fail k = ap is_pass (sym (rw k at (at_end-Settles h r p)))

  fail_row :
      (r : RowScope) (s t : PredicateState)
      → Settles s t
      → is_fail s ≡ true
      → end_row h p r s ≡ is_pass t
  unfolding end_row
  fail_row r fail t k e = ap is_pass (sym k)
  fail_row r s t k e = cc

  pass_row : (s t : PredicateState) → Settles s t → is_pass s ≡ true → true ≡ is_pass t
  pass_row pass t k e = ap is_pass (sym k)
  pass_row s t k e = cc

  -- For a filter none of whose leaves asks for absence, a row in which no field comes twice, and a
  -- state that the fields read so far settle, reading the row accepts it exactly when the filter
  -- passes the whole row, whether or not the plan lets a passing row drain early, the adapter
  -- skips rejected rows, and whichever slots the mask holds.
  pub accept_row :
      (predicate_slot : ℕ → Bool) (drains skips : Bool) (r : RowScope) (s : PredicateState)
      (rest : List Arrival)
      → Fresh r rest
      → Settles s (eval_predicate h r p)
      → read_row h predicate_slot drains skips p r s rest
        ≡ is_pass (eval_predicate_with_null h (receive_all r rest) p)
  unfolding read_row receive_all
  accept_row mask drains skips r s [] fresh k = settled_row r s k
  accept_row mask drains skips r s (a ∷ rest) fresh k =
      let r' = receive r a in
      elim (Bool-cases (skips && is_fail s)) [
        | inl stop ↦ rw stop (
            fail_row r s _ (Settles-trans s _ _ k (early-Settles r (a ∷ rest) fresh))
              (both_true skips (is_fail s) stop))
        | inr go ↦ rw go (elim (Bool-cases (mask a.slot)) [
          | inl marked ↦ rw marked (elim (Bool-cases (drains && is_pass (eval_predicate h r' p))) [
            | inl passed ↦ rw passed (
                pass_row _ _ (early-Settles r' rest fresh.1)
                  (both_true drains (is_pass (eval_predicate h r' p)) passed))
            | inr other ↦ rw other (
                accept_row mask drains skips r' (eval_predicate h r' p) rest fresh.1
                  (Settles-refl _))
          ])
          | inr unmarked ↦ rw unmarked (
              accept_row mask drains skips r' s rest fresh.1
                (Settles-trans s _ _ k (receive-Settles r a fresh.0)))
        ])
      ]
