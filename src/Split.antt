-- ===== src/Split.antt =====
-- The `Splitter` of crates/rypipe-core/src/decoder.rs: what an adapter provides, the planned number
-- of chunks, and the test for skip regions.
pub mod Points
pub mod Order
pub mod Regions
pub mod Starts
pub mod Planned
pub mod Counts
pub mod Cover
pub mod Boundaries
mod Tests
use rypipe.Prelude.{
  ℕ, zero, suc, ◌+◌, ◌-◌, ◌/◌, min, max, Bool, true, false, ◌||◌, Option, none, some, List, [], ◌∷◌,
  Str, length, take, drop, ltb, leb, if◌then◌else◌, saturating_mul,
}

abbrev pub max_split_chunks : ℕ
max_split_chunks = 1024

pub data SplitMode : Type 0 where
  parallel streaming : SplitMode

unfoldable pub plan_chunk_count_with : (bytes threads : ℕ) → SplitMode → (min_chunk_bytes : ℕ) → ℕ
plan_chunk_count_with bytes threads mode min_chunk_bytes =
    let by_size = bytes / max min_chunk_bytes 1 in
    let cap : ℕ = elim mode [
      | parallel ↦ saturating_mul 16 threads
      | streaming ↦ saturating_mul 8 threads
    ] in
    min (max (min by_size cap) threads) max_split_chunks

-- The trait `SkipRegionFinder`.
pub record SkipRegionFinder : Type 0 where
  pub openers : List Str
  pub closer_for : Str → Str
  pub window : ℕ

-- The methods of the trait `Splitter` that planning calls, and `memchr::memmem::find`.
pub record Splitter : Type 0 where
  pub next_record_start : Str → ℕ → Option ℕ
  pub skip_regions : Option SkipRegionFinder
  pub find : (haystack needle : Str) → Option ℕ

-- Whether an occurrence of the opener in `scan`, from `search` on, has no closer after it. Each
-- round starts behind the last occurrence, so one round for each byte and one more are enough.
unfoldable pub unclosed : Splitter → (scan opener closer : Str) → (fuel search : ℕ) → Bool
unclosed s scan opener closer zero search = false
unclosed s scan opener closer (suc fuel) search = elim (s.find (drop search scan) opener) [
  | none ↦ false
  | some rel ↦
      let rest = unclosed s scan opener closer fuel (search + (rel + 1)) in
      let closer_start = search + rel + length opener in
      if leb (length scan) closer_start
      then true
      else elim (s.find (drop closer_start scan) closer) [ none ↦ true | some p ↦ rest ]
]

unfoldable pub any_unclosed : Splitter → SkipRegionFinder → Str → List Str → Bool
unfolding unclosed
any_unclosed s finder scan [] = false
any_unclosed s finder scan (opener ∷ openers) =
    unclosed s scan opener (finder.closer_for opener) (length scan + 1) 0
    || any_unclosed s finder scan openers

-- Positions in `scan` stand for positions in `bytes` less the start of the window.
unfoldable pub in_skip_region : Splitter → Str → ℕ → SkipRegionFinder → Bool
unfolding any_unclosed
in_skip_region s bytes at finder =
    let scan_start = at - finder.window in
    if ltb (length bytes) at
    then false
    else any_unclosed s finder (take (at - scan_start) (drop scan_start bytes)) finder.openers
