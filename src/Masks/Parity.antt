-- ===== src/Masks/Parity.antt =====
-- `prefix_xor` gives the parities of all prefixes of a mask.
use rypipe.Prelude.{
  ℕ, suc, ◌+◌, ◌-◌, ◌<◌, ◌≡◌, sym, ◌∙◌, Bool, false, leb, arith, Bool-cases, inl, inr,
}
use rypipe.Masks.{Mask, xor, doubled, prefix_xor, parity}

xor_middle : (a b c : Bool) → xor (xor a b) (xor b c) ≡ xor a c
xor_middle a b c = ground arith

xor_last : (a b : Bool) → xor (xor a b) a ≡ b
xor_last a b = ground arith

xor_nothing : (a : Bool) → xor a false ≡ a
xor_nothing a = ground arith

module _ (m : Mask) where
  -- Bit `i` is the parity of the `k` bits up to it.
  abbrev IsWindow : ℕ → Mask → Type 0
  IsWindow k w = (i : ℕ) → w i ≡ xor (parity m (suc i)) (parity m (suc i - k))

  IsWindow-one : IsWindow 1 m
  unfolding parity
  IsWindow-one i =
      let before : suc i - 1 ≡ i = omega arith in rw before (sym (xor_last (parity m i) (m i)))

  IsWindow-doubled : (k : ℕ) (w : Mask) → IsWindow k w → IsWindow (k + k) (doubled k w)
  unfolding doubled
  IsWindow-doubled k w h i = elim (Bool-cases (leb k i)) [
    | inl far ↦
        let from : suc (i - k) ≡ suc i - k = ground arith in
        let before : suc i - (k + k) ≡ suc (i - k) - k = ground arith in
        rw (far, h i, h (i - k), before, ← from)
          (xor_middle (parity m (suc i)) (parity m (suc (i - k))) (parity m (suc (i - k) - k)))
    | inr near ↦
        let all : suc i - k ≡ 0 = ground arith in
        let all' : suc i - (k + k) ≡ 0 = ground arith in rw (near, h i, all, all') (xor_nothing _)
  ]

  -- Each of the 64 bits that `prefix_xor` gives is the parity of the bits of the mask up to it.
  pub prefix_xor-parity : (i : ℕ) → i < 64 → prefix_xor m i ≡ parity m (suc i)
  unfolding prefix_xor parity
  prefix_xor-parity i small =
      let w2 : IsWindow 2 (doubled 1 m) = IsWindow-doubled 1 m IsWindow-one in
      let w4 : IsWindow 4 (doubled 2 (doubled 1 m)) = IsWindow-doubled 2 _ w2 in
      let w8 : IsWindow 8 (doubled 4 (doubled 2 (doubled 1 m))) = IsWindow-doubled 4 _ w4 in
      let w16 : IsWindow 16 (doubled 8 (doubled 4 (doubled 2 (doubled 1 m)))) =
        IsWindow-doubled 8 _ w8 in
      let w32 : IsWindow 32 (doubled 16 (doubled 8 (doubled 4 (doubled 2 (doubled 1 m))))) =
        IsWindow-doubled 16 _ w16 in
      let all : suc i - 64 ≡ 0 = omega arith in IsWindow-doubled 32 _ w32 i ∙ rw all (xor_nothing _)
