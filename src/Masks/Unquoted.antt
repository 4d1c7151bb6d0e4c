-- ===== src/Masks/Unquoted.antt =====
-- `next_unquoted` finds the first delimiter outside of quotes, and keeps the open quote.
use rypipe.Prelude.{
  ℕ, ◌+◌, ◌*◌, ◌/◌, ◌^◌, ◌≤◌, ◌<◌, ◌≡◌, refl, sym, ap, ◌∙◌, true, false, ◌||◌, not, [], ◌∷◌, Str,
  get_or, length, leb, ◌==◌, if◌then◌else◌, arith, Bool-cases, inl, inr,
}
use rypipe.Masks.{BlockMasks, position, load_at, with_quotes}
use rypipe.Masks.Quotes.{resumed, next_unquoted}
use rypipe.Masks.Cache.{hit, IsDelim, IsCache}
use rypipe.Masks.Steps.{load_at-IsCache, with_quotes-IsCache}
use rypipe.Masks.Any.{hits, hit_byte, AreDelims}
use rypipe.Masks.Shown.{IsActive}
use rypipe.Masks.Block.{AreQuotes}
use rypipe.Masks.Cursor.{IsCursor, FindsFrom, set_quote-IsCache}
use rypipe.Masks.Loop.{transfer, next_unquoted_loop-unquoted}

pub with_quotes-IsCursor :
    (buf delims quotes : Str) → IsCursor buf delims quotes (with_quotes buf delims quotes)
unfolding with_quotes
with_quotes-IsCursor buf delims quotes = record {
  cache = with_quotes-IsCache buf delims quotes;
  active = λ h. cc;
  at_block = λ l. cc;
}

-- A byte that is none of the quotes.
abbrev pub IsNoQuote : ℕ → Str → Type 0
IsNoQuote d [] = Unit {0}
IsNoQuote d (q ∷ qs) = ((d == q) ≡ false) × IsNoQuote d qs

no_quote_there :
    (buf : Str) (d i : ℕ) (qs : Str) → IsNoQuote d qs → hit buf d i ≡ true → hits buf qs i ≡ false
unfolding hits
no_quote_there buf d i [] h e = refl
no_quote_there buf d i (q ∷ qs) h e = elim (Bool-cases (hit buf q i)) [
  | inl both_there ↦
      let x : get_or buf i 0 ≡ d = hit_byte buf d i e in
      let y : get_or buf i 0 ≡ q = hit_byte buf q i both_there in
      let same : d ≡ q = sym x ∙ y in let bad : false ≡ true = ground arith in cc
  | inr other ↦ rw other (no_quote_there buf d i qs h.1 e)
]

-- The quote that a call takes to be open.
abbrev pub open_quote : BlockMasks → ℕ → ℕ
open_quote b from = if not b.loaded || not (from == b.quote_pos) then 0 else b.in_quote

module _ (buf delims quotes : Str) where
  resumed_frame :
      (b : BlockMasks) (from : ℕ)
      → IsCursor buf delims quotes b
      → from < length buf
      → IsCache buf delims quotes (resumed b from)
        × ((resumed b from).in_quote ≡ open_quote b from)
        × ((resumed b from).loaded ≡ true)
        × ((resumed b from).base ≤ from)
        × (from ≤ (resumed b from).base + 64)
        × ((resumed b from).base < length buf)
  unfolding resumed load_at
  resumed_frame b from c inside = elim (Bool-cases (not b.loaded || not (from == b.quote_pos))) [
    | inl fresh ↦
        let k : IsCache buf delims quotes (record b { in_quote = 0; quote_pos = from }) =
          set_quote-IsCache buf delims quotes b 0 from c.cache in
        rw fresh (
          load_at-IsCache buf delims quotes (record b { in_quote = 0; quote_pos = from }) k
              (from / 64 * 64),
          refl,
          refl,
          omega arith,
          omega arith,
          omega arith,
        )
    | inr on ↦
        let loaded : b.loaded ≡ true = ground arith in
        let at : from ≡ b.quote_pos = ground arith in
        let (low, high, within) = c.at_block loaded in
        rw on (c.cache, refl, loaded, omega arith, omega arith, within)
  ]

  open_quote-IsActive :
      (b : BlockMasks) (from : ℕ)
      → IsCursor buf delims quotes b
      → IsActive delims (open_quote b from)
  open_quote-IsActive b from c = elim (Bool-cases (not b.loaded || not (from == b.quote_pos))) [
    | inl fresh ↦ rw fresh (λ h. cc)
    | inr on ↦ rw on c.active
  ]

module _ (buf delims quotes : Str) (d : ℕ) (fits : length buf ≤ 2 ^ 63) (few : length delims ≤ 8)
    (known : IsDelim delims d) (known_quotes : AreDelims delims quotes)
    (are_quotes : AreQuotes quotes) (no_quote : IsNoQuote d quotes) where
  apart : (i : ℕ) → hit buf d i ≡ true → hits buf quotes i ≡ false
  apart i e = no_quote_there buf d i quotes no_quote e

  -- For a buffer below 2^63 bytes, at most 8 delimiters with `d` and the quotes among them, `d`
  -- not a quote and no quote the byte 0, and a state that earlier calls of `next_unquoted` left or
  -- that is new, `next_unquoted` ends and gives what a scan byte by byte gives that starts at
  -- `from`, outside of quotes unless the cursor is there, and with the quote that was open if it
  -- is; and it leaves such a state, with the quote that the scan leaves open and the cursor behind
  -- what it found.
  pub next_unquoted-unquoted :
      (b : BlockMasks) (from : ℕ)
      → IsCursor buf delims quotes b
      → (length quotes == 0) ≡ false
      → from < length buf
      → FindsFrom buf delims quotes d (open_quote b from) from (next_unquoted b from d)
  unfolding next_unquoted
  next_unquoted-unquoted b from c some_quotes inside =
      let (cache, quote, loaded, low, high, within) =
        resumed_frame buf delims quotes b from c inside in
      let active : IsActive delims (resumed b from).in_quote =
        rw quote (open_quote-IsActive buf delims quotes b from c) in
      let on : (length b.quotes == 0) ≡ false =
        ap (λ q. length q == 0) c.cache.quoting ∙ some_quotes in
      let size : length b.buf ≡ length buf = ap length c.cache.buffer in
      let not_past : leb (length b.buf) from ≡ false = ground arith in
      let pos : position b.delims d ≡ position delims d =
        ap (λ ds. position ds d) c.cache.delimiters in
      let found =
        next_unquoted_loop-unquoted buf delims quotes d fits few known known_quotes are_quotes apart
          (length buf) (resumed b from) from cache active loaded low high within (omega arith) in
      rw (on, not_past, size, pos)
        (transfer buf delims quotes d fits few known known_quotes are_quotes apart _ _ from _ _
          quote refl found)
