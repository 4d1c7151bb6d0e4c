-- ===== src/Split/Tests.antt =====
-- Tests of split planning, and its theorems at concrete inputs.
use rypipe.Prelude.{
  ℕ, ◌≤◌, ◌≡◌, ◌⊎◌, refl, false, none, some, [], ◌∷◌, Str, bytes, length, leb, leb→le,
  if◌then◌else◌, arith, Bool-cases, inl, inr,
}
use rypipe.Split.{Splitter, parallel, plan_chunk_count_with}
use rypipe.Split.Points.{
  default_find_split_points, split_points_to_ranges, candidates, candidate, sort, insert, dedup,
  dedup_after, retain_positive, close_at,
}
use rypipe.Split.Order.{All}
use rypipe.Split.Counts.{plan_chunk_count_with_bounds}
use rypipe.Prelude.{◌*◌, min, max}
use rypipe.Prelude.{◌<◌, true, starts_with}
use rypipe.Split.{in_skip_region}
use rypipe.Split.Points.{outside_skips}
use rypipe.Split.Regions.{find_first}
use rypipe.Split.Planned.{IsPlanned, Has, find_split_points-IsPlanned}
use rypipe.Split.Boundaries.Back.{last_index_of, goes_on}
use rypipe.Split.Boundaries.Lines.{by_lines, closes, is_comment, is_blank}
use rypipe.Split.Boundaries.Records.{find_next_record_boundary-by_lines}
use rypipe.Split.Cover.{chunks, NoneEmpty, find_split_points-chunks}
use rypipe.Split.Boundaries.{
  Memchr, Separation, find_next_record_boundary, is_boundary, next_boundary, is_continued_newline,
  backslashes, continued,
}
use rypipe.Split.Boundaries.Scan.{index_of}

-- Every byte is a record.
abbrev every_byte : Splitter
every_byte = record {
  next_record_start = λ input from. if leb from (length input) then some from else none;
  skip_regions = none;
  find = λ haystack needle. none;
}

within :
    (input : Str) (from pos : ℕ)
    → every_byte.next_record_start input from ≡ some pos
    → pos ≤ length input
within input from pos e = elim (Bool-cases (leb from (length input))) [
  | inl le ↦
      let same : some from ≡ some pos = rw le at e in
      let here : from ≡ pos = cc in rw here at (leb→le from (length input) le)
  | inr past ↦ let impossible : none ≡ some pos = rw past at e in cc
]

abbrev input : Str
input = bytes "abcdefg"

points_of_input : default_find_split_points every_byte input 3 2 ≡ 0 ∷ 2 ∷ 4 ∷ 7 ∷ []
unfolding default_find_split_points candidates sort insert dedup dedup_after retain_positive
    close_at plan_chunk_count_with candidate
points_of_input = refl

find_split_points-chunks_example :
    (chunks input (split_points_to_ranges (default_find_split_points every_byte input 3 2) 7)
      ≡ input)
    × NoneEmpty (split_points_to_ranges (default_find_split_points every_byte input 3 2) 7)
find_split_points-chunks_example =
    find_split_points-chunks every_byte input 3 2 (omega arith) (within input)

abbrev search : Memchr
search = record { memchr = index_of; memrchr = last_index_of }

abbrev continued_lines : Separation
continued_lines = record {
  continuation = some b'\\';
  comment_prefixes = [];
  blank_line_mode = false;
}

-- `k=v\`, its continuation, and a second record.
abbrev two_records : Str
two_records = b'k' ∷ b'=' ∷ b'\\' ∷ b'\n' ∷ b'v' ∷ b'\n' ∷ b'x' ∷ b'\n' ∷ []

first_boundary : find_next_record_boundary search continued_lines two_records 0 ≡ some 6
unfolding find_next_record_boundary next_boundary index_of is_boundary continued
    is_continued_newline backslashes
first_boundary = refl

find_next_record_boundary-by_lines_example :
    find_next_record_boundary search continued_lines two_records 0
    ≡ by_lines continued_lines 0 none [] two_records 0
find_next_record_boundary-by_lines_example =
    find_next_record_boundary-by_lines search continued_lines two_records 0 (λ s. refl) refl
      (λ s. refl)

-- In blank-line mode a blank line after a comment ends no record, the next one does.
abbrev paragraphs : Separation
paragraphs = record {
  continuation = none;
  comment_prefixes = bytes "#" ∷ [];
  blank_line_mode = true;
}

second_blank :
    by_lines paragraphs 0 none []
      (b'#' ∷ b'\n' ∷ b'\n' ∷ b'x' ∷ b'\n' ∷ b'\r' ∷ b'\n' ∷ b'y' ∷ b'\n' ∷ [])
      0
    ≡ some 7
unfolding by_lines closes is_comment is_blank goes_on starts_with
second_blank = refl

-- Every byte is a record, unless it is in a tag.
abbrev outside_tags : Splitter
outside_tags = record {
  next_record_start = λ input from. some from;
  skip_regions =
      some (record { openers = bytes "<" ∷ []; closer_for = λ opener. bytes ">"; window = 8 });
  find = find_first;
}

abbrev tagged : Str
tagged = bytes "ab<de>gh"

points_outside : default_find_split_points outside_tags tagged 4 2 ≡ 0 ∷ 2 ∷ 6 ∷ 8 ∷ []
unfolding default_find_split_points candidates sort insert dedup dedup_after retain_positive
    close_at plan_chunk_count_with candidate outside_skips in_skip_region find_first starts_with
points_outside = refl

find_split_points-IsPlanned_example :
    All
      (λ p.
        (p ≡ 0)
        ⊎ ((p ≡ 8) ⊎ IsPlanned outside_tags tagged (plan_chunk_count_with 8 4 parallel 2) p))
      (default_find_split_points outside_tags tagged 4 2)
    × ((pos : ℕ)
        → 0 < pos
        → IsPlanned outside_tags tagged (plan_chunk_count_with 8 4 parallel 2) pos
        → Has pos (default_find_split_points outside_tags tagged 4 2))
unfolding starts_with
find_split_points-IsPlanned_example =
    find_split_points-IsPlanned outside_tags tagged 4 2 (λ text needle. refl) (λ opener. refl)
      (omega arith) (omega arith)

plan_chunk_count_with_bounds_example :
    let n = plan_chunk_count_with 100 4 parallel 10 in
    (min 4 1024 ≤ n) × (n ≤ 1024) × ((n ≤ 4) ⊎ (n * max 10 1 ≤ 100))
plan_chunk_count_with_bounds_example = plan_chunk_count_with_bounds 100 4 parallel 10

-- More threads than chunks are allowed: fewer chunks than threads.
too_many_threads : plan_chunk_count_with 100000 2000 parallel 10 ≡ 1024
unfolding plan_chunk_count_with
too_many_threads = refl
