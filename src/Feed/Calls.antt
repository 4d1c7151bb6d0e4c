-- ===== src/Feed/Calls.antt =====
-- No byte of a `RecordStream` is lost or seen twice, whatever the calls.
use mathlib.Core.List.{append_assoc, append-nil}
use rypipe.Prelude.{
  drop_again, ℕ, zero, suc, ◌+◌, ◌≤◌, ◌≡◌, refl, sym, ap, ◌∙◌, Bool, ◌||◌, List, [], ◌∷◌, ◌++◌, Str,
  length, take, drop, leb, arith, Bool-cases, inl, inr, Result, ok, err, Result-cases,
  take-append-drop, length-append, length-drop,
}
use rypipe.Feed.{StreamingRecordParser, RecordStream, finish, compact, feed, advance, parse}

-- The bytes that the parser has not consumed.
abbrev pub unconsumed : {P : Type 0} → RecordStream P → Str
unconsumed s = drop s.start s.buffer

pub data Call : Type 0 where
  feed_chunk : Str → Call
  finish_input parse_more : Call

-- A run of calls, with the bytes that were fed and those that were consumed, in order.
pub record Run (P : Type 0) : Type 0 where
  pub stream : RecordStream P
  pub fed : Str
  pub taken : Str

module _ {P R : Type 0} (p : StreamingRecordParser P R) where
  -- A chunk that the parser does not validate is refused whole; what a failing parse saw stays.
  unfoldable pub after_feed : Run P → Str → Result (RecordStream P) → Run P
  after_feed r chunk (ok s) = record { stream = s; fed = r.fed ++ chunk; taken = r.taken }
  after_feed r chunk (err e) = r

  unfoldable pub consumed_by : Str → Result ℕ → Str
  consumed_by bytes (ok n) = take n bytes
  consumed_by bytes (err e) = []

  unfoldable pub call : Run P → Call → Run P
  unfolding after_feed consumed_by feed parse finish
  call r (feed_chunk chunk) = after_feed r chunk (feed p r.stream chunk)
  call r finish_input = record r { stream = finish r.stream }
  call r parse_more =
      let a = p.parse_available r.stream.parser (unconsumed r.stream) r.stream.eof in
      record {
        stream = (parse p r.stream).stream;
        fed = r.fed;
        taken = r.taken ++ consumed_by (unconsumed r.stream) a.consumed;
      }

  unfoldable pub calls : Run P → List Call → Run P
  unfolding call
  calls r [] = r
  calls r (c ∷ cs) = calls (call r c) cs

  -- The parser consumes a prefix of the bytes that it is given.
  abbrev pub TakesPrefix : Type 0
  TakesPrefix =
      (parser : P) (bytes : Str) (eof : Bool) (n : ℕ)
      → (p.parse_available parser bytes eof).consumed ≡ ok n
      → n ≤ length bytes

  -- What was consumed and what is left are what was fed.
  pub record Kept (r : Run P) : Type 0 where
    pub whole : r.taken ++ unconsumed r.stream ≡ r.fed
    pub within : r.stream.start ≤ length r.stream.buffer

  drop-append : (n : ℕ) (xs ys : Str) → n ≤ length xs → drop n (xs ++ ys) ≡ drop n xs ++ ys
  drop-append zero xs ys h = refl
  drop-append (suc n) [] ys h = ground arith
  drop-append (suc n) (x ∷ xs) ys h = drop-append n xs ys (omega arith)

  compact-unconsumed : (s : RecordStream P) → unconsumed (compact s) ≡ unconsumed s
  unfolding compact
  compact-unconsumed s = elim (Bool-cases (leb (length s.buffer) s.start || leb 65536 s.start)) [
    | inl goes ↦ rw goes refl
    | inr stays ↦ rw stays refl
  ]

  compact-within :
      (s : RecordStream P)
      → s.start ≤ length s.buffer
      → (compact s).start ≤ length (compact s).buffer
  unfolding compact
  compact-within s h = elim (Bool-cases (leb (length s.buffer) s.start || leb 65536 s.start)) [
    | inl goes ↦ rw goes (omega arith)
    | inr stays ↦ rw stays h
  ]

  after_feed-Kept :
      (r : Run P) (chunk : Str) → Kept r → Kept (after_feed r chunk (feed p r.stream chunk))
  unfolding after_feed feed
  after_feed-Kept r chunk k = elim (Result-cases (p.validate r.stream.parser chunk)) [
    | inl (valid, accepted) ↦
        rw (accepted, after_feed)
          (record {
            whole = rw (drop-append r.stream.start r.stream.buffer chunk k.within) (
                sym (append_assoc r.taken (unconsumed r.stream) chunk)
                ∙ ap (λ t. t ++ chunk) k.whole);
            within = omega (arith, k.within, length-append r.stream.buffer chunk);
          })
    | inr (e, refused) ↦ rw (refused, after_feed) k
  ]

  advance-Kept :
      (r : Run P) (parser : P) (records : List R) (consumed : Result ℕ)
      → ((n : ℕ) → consumed ≡ ok n → n ≤ length (unconsumed r.stream))
      → Kept r
      → Kept (record {
        stream = (advance p r.stream parser records consumed).stream;
        fed = r.fed;
        taken = r.taken ++ consumed_by (unconsumed r.stream) consumed;
      })
  unfolding advance consumed_by
  advance-Kept r parser records (err e) takes k = record {
    whole = ap (λ t. t ++ unconsumed r.stream) (append-nil r.taken) ∙ k.whole;
    within = k.within;
  }
  advance-Kept r parser records (ok n) takes k =
      let bytes = unconsumed r.stream in
      let s = record r.stream { parser = parser; start = r.stream.start + n } in
      let left : unconsumed (compact s) ≡ drop n bytes =
        compact-unconsumed s ∙ sym (drop_again r.stream.start n r.stream.buffer) in
      record {
        whole = rw left (
            append_assoc r.taken (take n bytes) (drop n bytes)
            ∙ ap (λ t. r.taken ++ t) (take-append-drop n bytes)
            ∙ k.whole);
        within =
            compact-within s
              (omega (arith, takes n refl, length-drop r.stream.start r.stream.buffer, k.within));
      }

  parse-Kept : (r : Run P) → TakesPrefix → Kept r → Kept (call r parse_more)
  unfolding call parse
  parse-Kept r takes k =
      let a = p.parse_available r.stream.parser (unconsumed r.stream) r.stream.eof in
      advance-Kept r a.parser a.records a.consumed
        (takes r.stream.parser (unconsumed r.stream) r.stream.eof) k

  finish-Kept : (r : Run P) → Kept r → Kept (call r finish_input)
  unfolding call finish
  finish-Kept r k = record { whole = k.whole; within = k.within }

  -- If the parser consumes prefixes of what it is given, and before some calls of `feed`, `finish`
  -- and `parse` the bytes consumed and those left in the buffer, in order, are the bytes fed, then
  -- they are so after the calls, whatever fails and whenever the buffer is compacted.
  pub calls-Kept : (r : Run P) (cs : List Call) → TakesPrefix → Kept r → Kept (calls r cs)
  unfolding calls
  calls-Kept r [] takes k = k
  calls-Kept r (feed_chunk chunk ∷ cs) takes k =
      calls-Kept (call r (feed_chunk chunk)) cs takes (unfold call in after_feed-Kept r chunk k)
  calls-Kept r (finish_input ∷ cs) takes k =
      calls-Kept (call r finish_input) cs takes (finish-Kept r k)
  calls-Kept r (parse_more ∷ cs) takes k =
      calls-Kept (call r parse_more) cs takes (parse-Kept r takes k)
