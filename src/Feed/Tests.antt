-- ===== src/Feed/Tests.antt =====
-- Tests of `RecordStream`, with a parser whose records are bytes, and its theorem at a run.
use rypipe.Prelude.{
  ℕ, ◌≤◌, ◌≡◌, refl, Bool, List, [], ◌∷◌, Str, bytes, length, take, arith, min, ok,
}
use rypipe.Feed.{StreamingRecordParser, new, feed, parse, finish, advance, compact}
use rypipe.Feed.Calls.{
  Call, feed_chunk, finish_input, parse_more, Run, Kept, calls, call, unconsumed, after_feed,
  consumed_by, calls-Kept,
}

-- Two bytes at a time.
abbrev two_bytes : StreamingRecordParser ℕ ℕ
two_bytes = record {
  validate = λ count input. ok tt;
  parse_available = λ count input eof. record {
    parser = count;
    records = take 2 input;
    consumed = ok (min 2 (length input));
  };
}

abbrev start : Run ℕ
start = record { stream = new 0; fed = []; taken = [] }

abbrev some_calls : List Call
some_calls = feed_chunk (bytes "abc") ∷ parse_more ∷ feed_chunk (bytes "d") ∷ finish_input ∷ []

start-Kept : Kept two_bytes start
unfolding new
start-Kept = record { whole = refl; within = omega arith }

takes_prefix :
    (count : ℕ) (input : Str) (eof : Bool) (n : ℕ)
    → (two_bytes.parse_available count input eof).consumed ≡ ok n
    → n ≤ length input
takes_prefix count input eof n e = let same : min 2 (length input) ≡ n = cc in omega (arith, same)

calls-Kept_example : Kept two_bytes (calls two_bytes start some_calls)
calls-Kept_example = calls-Kept two_bytes start some_calls takes_prefix start-Kept

consumed_and_left :
    ((calls two_bytes start some_calls).taken ≡ bytes "ab")
    × (unconsumed (calls two_bytes start some_calls).stream ≡ bytes "cd")
unfolding new calls call after_feed consumed_by feed parse finish advance compact
consumed_and_left = (refl, refl)
