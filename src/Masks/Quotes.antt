-- ===== src/Masks/Quotes.antt =====
-- `next_unquoted` of block_masks.rs: delimiters outside of quoted regions.
use rypipe.Prelude.{
  ℕ, zero, suc, ◌+◌, ◌*◌, ◌/◌, ◌&&◌, ◌||◌, not, Option, none, some, [], ◌∷◌, Str, get_or, length,
  leb, ltb, ◌==◌, if◌then◌else◌, wadd, wsub,
}
use rypipe.Masks.{
  BlockMasks, complement, mask_and, from_mask, nonzero, trailing_zeros, odd_ones, any_set,
  first_set, parity, prefix_xor, delim_index, combined, load_at, ensure_all, advance_block, next,
}

-- If exactly one quote type occurs at or after `pos`, its index.
unfoldable pub single_quote_remaining : BlockMasks → ℕ → Str → Option ℕ → Option ℕ
unfolding any_set
single_quote_remaining b pos [] found = found
single_quote_remaining b pos (q ∷ qs) found =
    let qi = delim_index b q in
    let next_found : Option ℕ = elim found [
      | none ↦ single_quote_remaining b pos qs (some qi)
      | some _ ↦ none
    ] in
    let skipped = single_quote_remaining b pos qs found in
    if nonzero (mask_and (b.masks qi) (from_mask pos)) then next_found else skipped

-- The index of the quote at `pos`; without one the code panics.
unfoldable pub quote_index_at : BlockMasks → ℕ → Str → ℕ
quote_index_at b pos [] = 0
quote_index_at b pos (q ∷ qs) =
    let later = quote_index_at b pos qs in
    if b.masks (delim_index b q) pos then delim_index b q else later

-- The loop over the quotes, on fuel, with the new `in_quote`: only the active type closes.
unfoldable pub walk_events : ℕ → BlockMasks → ℕ → ℕ → ℕ → Option (Option ℕ × ℕ)
unfolding any_set first_set combined quote_index_at
walk_events zero b in_quote pos di = none
walk_events (suc fuel) b in_quote pos di =
    let g = mask_and (b.masks di) (from_mask pos) in
    let q = mask_and (combined b b.quotes) (from_mask pos) in
    let c = mask_and (b.masks (delim_index b in_quote)) (from_mask pos) in
    let gpos = trailing_zeros g in
    let qpos = trailing_zeros q in
    let opened =
      walk_events fuel b (get_or b.delims (quote_index_at b qpos b.quotes) 0) (suc qpos) di in
    let closed = walk_events fuel b 0 (suc (trailing_zeros c)) di in
    if in_quote == 0
    then (if nonzero g && (not (nonzero q) || ltb gpos qpos)
        then some (some gpos, in_quote)
        else if not (nonzero q)
        then some (none, in_quote)
        else opened)
    else if nonzero c
    then closed
    else some (none, in_quote)

-- The fast path: with one quote type left, "inside" is the prefix parity of its bits.
unfoldable pub scan_parity : BlockMasks → ℕ → ℕ → ℕ → Option ℕ × ℕ
unfolding any_set first_set parity prefix_xor
scan_parity b offset di qi =
    let qmask = mask_and (b.masks qi) (from_mask offset) in
    let inside = prefix_xor qmask in
    let hits = mask_and (mask_and (b.masks di) (from_mask offset)) (complement inside) in
    if nonzero hits
    then (some (trailing_zeros hits), b.in_quote)
    else if odd_ones qmask
    then (none, get_or b.delims qi 0)
    else (none, b.in_quote)

-- With the new `in_quote`. A block has at most 64 quotes.
unfoldable pub scan_block_unquoted : BlockMasks → ℕ → ℕ → Option (Option ℕ × ℕ)
scan_block_unquoted b offset di =
    let walked = walk_events 66 b b.in_quote offset di in
    if b.in_quote == 0
    then elim (single_quote_remaining b offset b.quotes none) [
      | some qi ↦ some (scan_parity b offset di qi)
      | none ↦ walked
    ]
    else walked

unfoldable pub next_unquoted_loop : ℕ → BlockMasks → ℕ → ℕ → Option (Option ℕ × BlockMasks)
next_unquoted_loop zero b cur di = none
next_unquoted_loop (suc fuel) b cur di =
    let b' = ensure_all b in
    elim (scan_block_unquoted b' (wsub cur b'.base) di) [
      | none ↦ none
      | some (some p, q) ↦
          some (some (b'.base + p), record b' { in_quote = q; quote_pos = b'.base + p + 1 })
      | some (none, q) ↦
          let (c, more) = advance_block (record b' { in_quote = q }) in
          let rest = next_unquoted_loop fuel (record c { quote_pos = c.base }) c.base di in
          if more then rest else some (none, record c { quote_pos = wadd c.base 64 })
    ]

-- A scan goes on only where the last one ended; any other position starts outside of quotes.
unfoldable pub resumed : BlockMasks → ℕ → BlockMasks
unfolding load_at
resumed b from =
    if not b.loaded || not (from == b.quote_pos)
    then load_at (record b { in_quote = 0; quote_pos = from }) (from / 64 * 64)
    else b

unfoldable pub next_unquoted : BlockMasks → ℕ → ℕ → Option (Option ℕ × BlockMasks)
next_unquoted b from d =
    if length b.quotes == 0
    then next b from d
    else if leb (length b.buf) from
    then some (none, b)
    else next_unquoted_loop (length b.buf) (resumed b from) from (delim_index b d)
