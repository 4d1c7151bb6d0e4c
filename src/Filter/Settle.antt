-- ===== src/Filter/Settle.antt =====
-- What a decision made early in a row is worth: the verdict at the end of the row.
use rypipe.Prelude.{◌≡◌, refl, arith}
use rypipe.Filter.Row.{PredicateState, undecided, pass, fail}
use rypipe.Filter.Eval.{and_state, or_state, not_state}

-- `t` keeps the decision of `s`, if `s` made one.
abbrev pub Settles : PredicateState → PredicateState → Type 0
Settles undecided t = Unit
Settles pass t = t ≡ pass
Settles fail t = t ≡ fail

pub Settles-refl : (s : PredicateState) → Settles s s
Settles-refl undecided = tt
Settles-refl pass = refl
Settles-refl fail = refl

pub Settles-trans : (s t u : PredicateState) → Settles s t → Settles t u → Settles s u
Settles-trans undecided t u a b = tt
Settles-trans pass t u a b = ground arith
Settles-trans fail t u a b = ground arith

pub and-Settles :
    (a b a' b' : PredicateState)
    → Settles a a'
    → Settles b b'
    → Settles (and_state a b) (and_state a' b')
unfolding and_state
and-Settles fail b a' b' h k = ground arith
and-Settles pass undecided a' b' h k = tt
and-Settles pass pass a' b' h k = ground arith
and-Settles pass fail a' b' h k = ground arith
and-Settles undecided undecided a' b' h k = tt
and-Settles undecided pass a' b' h k = tt
and-Settles undecided fail undecided b' h k = ground arith
and-Settles undecided fail pass b' h k = ground arith
and-Settles undecided fail fail b' h k = refl

pub or-Settles :
    (a b a' b' : PredicateState)
    → Settles a a'
    → Settles b b'
    → Settles (or_state a b) (or_state a' b')
unfolding or_state
or-Settles pass b a' b' h k = ground arith
or-Settles fail undecided a' b' h k = tt
or-Settles fail pass a' b' h k = ground arith
or-Settles fail fail a' b' h k = ground arith
or-Settles undecided undecided a' b' h k = tt
or-Settles undecided fail a' b' h k = tt
or-Settles undecided pass undecided b' h k = ground arith
or-Settles undecided pass pass b' h k = refl
or-Settles undecided pass fail b' h k = ground arith

pub not-Settles : (a a' : PredicateState) → Settles a a' → Settles (not_state a) (not_state a')
unfolding not_state
not-Settles undecided a' h = tt
not-Settles pass a' h = ground arith
not-Settles fail a' h = ground arith
