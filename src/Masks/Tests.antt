-- ===== src/Masks/Tests.antt =====
-- The searches on small inputs, and the theorems at them.
use rypipe.Prelude.{ℕ, ◌-◌, ◌≡◌, refl, Option, none, some, Str, bytes, length, ◌==◌, arith}
use rypipe.Split.Boundaries.{Memchr}
use rypipe.Split.Boundaries.Scan.{index_of}
use rypipe.Masks.{
  BlockMasks, with_quotes, next, next_any, next_far, prefix_xor, parity, position, load_at,
  select_block, advance_block, mask64, compute_one, mask_for, seek, ensure_all, fill, same_bits,
  combined, next_loop, any_set, first_set,
}
use rypipe.Masks.Scan.{scan}
use rypipe.Masks.Cache.{hit, IsDelim, IsCache}
use rypipe.Masks.Steps.{with_quotes-IsCache}
use rypipe.Masks.Far.{next_far-scan}
use rypipe.Masks.Any.{hits, AreDelims, with_byte, next_any-scan}
use rypipe.Masks.Quotes.{
  next_unquoted, resumed, next_unquoted_loop, scan_block_unquoted, single_quote_remaining,
  scan_parity, walk_events, quote_index_at,
}
use rypipe.Masks.Cursor.{FindsFrom}
use rypipe.Masks.Parity.{prefix_xor-parity}
use rypipe.Masks.Unquoted.{open_quote, with_quotes-IsCursor, next_unquoted-unquoted}

abbrev tag : Str
tag = bytes "a b='>' c=\"'>\">x"

abbrev delims : Str
delims = bytes "<>\"'="

abbrev quotes : Str
quotes = bytes "\"'"

abbrev fresh : BlockMasks
fresh = with_quotes tag delims quotes

tag_known : IsDelim delims b'>'
unfolding position
tag_known = omega arith

quotes_known : AreDelims delims quotes
unfolding position
quotes_known = (omega arith, (omega arith, tt))

-- What a search finds.
abbrev found {ℓ} : {A : Type ℓ} → Option (A × BlockMasks) → Option A
found none = none
found (some (a, b)) = some a

next_at : found (next fresh 0 b'>') ≡ some (some 5)
unfolding with_quotes position load_at select_block advance_block mask64 compute_one mask_for seek
    next_loop next any_set first_set
next_at = refl

unquoted_at : found (next_unquoted fresh 0 b'>') ≡ some (some 14)
unfolding with_quotes position load_at advance_block mask64 compute_one ensure_all fill same_bits
    combined any_set first_set next_unquoted resumed next_unquoted_loop scan_block_unquoted
    single_quote_remaining scan_parity walk_events quote_index_at parity prefix_xor
unquoted_at = refl

-- A search by `next` moves the block, and the next call of `next_unquoted` passes over what lies
-- before it: the `>` at 2 is not found.
abbrev filler : Str
filler = bytes "<a>0123456789012345678901234567890123456789012345678901234567890123<"

abbrev state_after : Option (Option ℕ × BlockMasks) → BlockMasks
state_after none = fresh
state_after (some (p, b)) = b

moved_block :
    found (
      next_unquoted
        (state_after
          (next (state_after (next_unquoted (with_quotes filler delims quotes) 0 b'<')) 64 b'<'))
        1
        b'>')
    ≡ some none
unfolding with_quotes position load_at select_block advance_block mask64 compute_one mask_for seek
    next_loop next any_set first_set ensure_all fill same_bits combined next_unquoted resumed
    next_unquoted_loop scan_block_unquoted single_quote_remaining scan_parity walk_events
    quote_index_at parity prefix_xor
moved_block = refl

abbrev finder : Memchr
finder = record { memchr = index_of; memrchr = λ d s. none }

next_unquoted-unquoted_example :
    FindsFrom tag delims quotes b'>' (open_quote fresh 0) 0 (next_unquoted fresh 0 b'>')
next_unquoted-unquoted_example =
    next_unquoted-unquoted tag delims quotes b'>' (omega arith) (omega arith) tag_known quotes_known
      (refl, (refl, tt)) (refl, (refl, tt)) fresh 0 (with_quotes-IsCursor tag delims quotes) refl
      (omega arith)

next_any-scan_example :
    (b' : BlockMasks) × (next_any fresh 3 quotes
      ≡ some (with_byte tag (scan (hits tag quotes) 3 (length tag - 3)), b'))
    × IsCache tag delims quotes b'
next_any-scan_example =
    next_any-scan tag delims quotes (omega arith) (omega arith) fresh 3 quotes quotes_known
      (with_quotes-IsCache tag delims quotes)

next_far-scan_example :
    (b' : BlockMasks) × (next_far finder fresh 6 b'>' 300
      ≡ some (scan (hit tag b'>') 6 (length tag - 6), b'))
    × IsCache tag delims quotes b'
next_far-scan_example =
    next_far-scan tag delims quotes (omega arith) finder fresh 6 b'>' 300 (omega arith) (λ s. refl)
      tag_known (with_quotes-IsCache tag delims quotes)

prefix_xor-parity_example : prefix_xor (λ i. i == 3) 9 ≡ parity (λ i. i == 3) 10
prefix_xor-parity_example = prefix_xor-parity (λ i. i == 3) 9 (omega arith)
