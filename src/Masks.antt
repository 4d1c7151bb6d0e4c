-- ===== src/Masks.antt =====
-- Delimiter search by the masks of 64-byte blocks (block_masks.rs): `BlockMasks`, its cache, and the
-- searches `next`, `next_any` and `next_far`. The searches by quotes are in Masks.Quotes.
mod Bits
pub mod Scan
pub mod Cache
pub mod Steps
pub mod Next
pub mod Far
pub mod Any
pub mod Quotes
pub mod Parity
pub mod Quoted
pub mod Shown
pub mod Events
pub mod Walk
pub mod Fast
pub mod Block
pub mod Window
pub mod Cursor
pub mod Loop
pub mod Unquoted
mod Tests
unfoldable pub use Bits.*
use rypipe.Prelude.{
  ℕ, zero, suc, ◌+◌, ◌-◌, ◌*◌, ◌/◌, Bool, true, false, ◌&&◌, ◌||◌, not, Option, none, some, List,
  [], ◌∷◌, Str, get_or, length, drop, take, leb, ltb, ◌==◌, if◌then◌else◌, max_word, wadd,
}
use rypipe.Split.Boundaries.{Memchr}

-- `computed` and `masks` are indexed by the delimiters; a set bit of `computed` says that the mask
-- is that of the block at `base`.
pub record BlockMasks : Type 0 where
  pub buf : Str
  pub base : ℕ
  pub loaded : Bool
  pub computed : Mask
  pub masks : ℕ → Mask
  pub in_quote : ℕ
  pub quote_pos : ℕ
  pub delims : Str
  pub quotes : Str

-- `build`, with at most 8 delimiters and each quote among them: else the code panics.
unfoldable pub with_quotes : Str → Str → Str → BlockMasks
with_quotes buf delims quotes = record {
  buf = buf;
  base = max_word;
  loaded = false;
  computed = no_bits;
  masks = λ i. no_bits;
  in_quote = 0;
  quote_pos = 0;
  delims = delims;
  quotes = quotes;
}

unfoldable pub new : Str → Str → BlockMasks
unfolding with_quotes
new buf delims = with_quotes buf delims []

-- The index of a byte, the length of the list if it is not there, where the code panics.
unfoldable pub position : Str → ℕ → ℕ
position [] d = 0
position (c ∷ s) d = let later = suc (position s d) in if c == d then 0 else later

abbrev pub delim_index : BlockMasks → ℕ → ℕ
delim_index b d = position b.delims d

abbrev pub full_mask : BlockMasks → Mask
full_mask b = low_bits (length b.delims)

-- Whether the first `n` bits of two masks are the same.
unfoldable pub same_bits : Mask → Mask → ℕ → Bool
same_bits a c zero = true
same_bits a c (suc n) = same_bits a c n && not (xor (a n) (c n))

unfoldable pub load_at : BlockMasks → ℕ → BlockMasks
load_at b base = record b { base = base; loaded = true; computed = no_bits }

unfoldable pub select_block : BlockMasks → ℕ → BlockMasks
unfolding load_at
select_block b from =
    let new_base = from / 64 * 64 in
    if not (new_base == b.base) || not b.loaded then load_at b new_base else b

unfoldable pub advance_block : BlockMasks → BlockMasks × Bool
unfolding load_at
advance_block b =
    let nb = wadd b.base 64 in if leb (length b.buf) nb then (b, false) else (load_at b nb, true)

-- The mask of one delimiter for the current block; a tail is padded, and its mask trimmed.
unfoldable pub compute_one : BlockMasks → ℕ → Mask
unfolding mask64
compute_one b d =
    if leb (b.base + 64) (length b.buf)
    then mask64 (drop b.base b.buf) d
    else (let rem = length b.buf - b.base in
        if rem == 0
        then no_bits
        else mask_and (mask64 (take rem (drop b.base b.buf)) d) (low_bits rem))

unfoldable pub mask_for : BlockMasks → ℕ → Mask × BlockMasks
unfolding compute_one
mask_for b d =
    let idx = delim_index b d in
    let m = compute_one b d in
    if b.computed idx then (b.masks idx, b) else (
      m,
      record b {
        masks = λ i. if i == idx then m else b.masks i;
        computed = λ i. if i == idx then true else b.computed i;
      },
    )

-- `fill`: the masks of all delimiters for the block at `base`, from one load.
unfoldable pub fill : BlockMasks → ℕ → Mask
unfolding compute_one
fill b i = if ltb i (length b.delims) then compute_one b (get_or b.delims i 0) else no_bits

unfoldable pub ensure_all : BlockMasks → BlockMasks
unfolding fill same_bits
ensure_all b =
    if same_bits b.computed (full_mask b) 8
    then b
    else record b { masks = fill b; computed = full_mask b }

-- `!0 << pos`, and no bit from 64 on.
abbrev pub from_mask : ℕ → Mask
from_mask pos = if leb 64 pos then no_bits else (λ i. leb pos i)

-- The block that holds `cur`.
unfoldable pub seek : BlockMasks → ℕ → BlockMasks
unfolding select_block
seek b cur = if ltb cur b.base || leb (b.base + 64) cur then select_block b cur else b

-- The loop of `next`, on fuel: `none` means that the fuel ran out.
unfoldable pub next_loop : ℕ → BlockMasks → ℕ → ℕ → Option (Option ℕ × BlockMasks)
unfolding seek mask_for advance_block any_set first_set
next_loop zero b cur d = none
next_loop (suc fuel) b cur d =
    let (m', b') = mask_for (seek b cur) d in
    let m = mask_and m' (from_mask (cur - b'.base)) in
    let (c, more) = advance_block b' in
    let rest = next_loop fuel c c.base d in
    if nonzero m
    then some (some (b'.base + trailing_zeros m), b')
    else if more
    then rest
    else some (none, c)

unfoldable pub next : BlockMasks → ℕ → ℕ → Option (Option ℕ × BlockMasks)
unfolding next_loop
next b from d =
    if leb (length b.buf) from then some (none, b) else next_loop (length b.buf) b from d

-- The union of the masks of some delimiters.
unfoldable pub combined : BlockMasks → Str → Mask
combined b [] = no_bits
combined b (d ∷ ds) = mask_or (b.masks (delim_index b d)) (combined b ds)

-- The first of the delimiters whose mask has the bit, else `fallback`.
unfoldable pub delim_at : BlockMasks → ℕ → Str → ℕ → ℕ
delim_at b i [] fallback = fallback
delim_at b i (d ∷ ds) fallback =
    let later = delim_at b i ds fallback in if b.masks (delim_index b d) i then d else later

unfoldable pub next_any_loop : ℕ → BlockMasks → ℕ → Str → Option (Option (ℕ × ℕ) × BlockMasks)
unfolding seek ensure_all combined delim_at advance_block any_set first_set
next_any_loop zero b cur ds = none
next_any_loop (suc fuel) b cur ds =
    let b' = ensure_all (seek b cur) in
    let masked = mask_and (combined b' ds) (from_mask (cur - b'.base)) in
    let i = trailing_zeros masked in
    let (c, more) = advance_block b' in
    let rest = next_any_loop fuel c c.base ds in
    if nonzero masked
    then some (some (b'.base + i, delim_at b' i ds (get_or ds 0 0)), b')
    else if more
    then rest
    else some (none, c)

unfoldable pub next_any : BlockMasks → ℕ → Str → Option (Option (ℕ × ℕ) × BlockMasks)
unfolding next_any_loop
next_any b from ds =
    if leb (length b.buf) from then some (none, b) else next_any_loop (length b.buf) b from ds

-- A long span is left to `memchr`. The source slices the buffer at `from`, which panics past its end:
-- that is nothing here, as is a search that does not end.
unfoldable pub next_far : Memchr → BlockMasks → ℕ → ℕ → ℕ → Option (Option ℕ × BlockMasks)
unfolding next
next_far m b from d hint =
    if ltb 256 hint
    then (if ltb (length b.buf) from
        then none
        else some
            (elim (m.memchr d (drop from b.buf)) [ none ↦ none | some i ↦ some (from + i) ], b))
    else next b from d
