-- ===== src/Feed.antt =====
-- `RecordStream` of crates/rypipe-core/src/streaming_parser.rs: the buffer around an incremental
-- parser, which consumes records from its front.
pub mod Calls
mod Tests
use rypipe.Prelude.{
  ℕ, ◌+◌, ◌-◌, Bool, true, false, ◌||◌, List, ◌++◌, [], Str, length, drop, leb, ◌==◌, if◌then◌else◌,
  Result, ok, err, ◌>>=◌,
}

pub data StreamState : Type 0 where
  rows need_more eof : StreamState

-- What `parse_available` does: the parser after it, the records it emitted, and the bytes consumed.
pub record Available (P R : Type 0) : Type 0 where
  pub parser : P
  pub records : List R
  pub consumed : Result ℕ

-- The trait `StreamingRecordParser`, for a parser with states in `P` and records in `R`.
pub record StreamingRecordParser (P R : Type 0) : Type 0 where
  pub validate : P → Str → Result (Unit {0})
  pub parse_available : P → Str → (eof : Bool) → Available P R

pub record RecordStream (P : Type 0) : Type 0 where
  pub parser : P
  pub buffer : Str
  pub start : ℕ
  pub eof : Bool

-- The outcome of `parse`: the stream after it, and the records it emitted.
pub record Parsed (P R : Type 0) : Type 0 where
  pub stream : RecordStream P
  pub records : List R
  pub state : Result StreamState

abbrev pub compact_after : ℕ
compact_after = 65536

module _ {P : Type 0} where
  unfoldable pub new : P → RecordStream P
  new parser = record { parser = parser; buffer = []; start = 0; eof = false }

  unfoldable pub finish : RecordStream P → RecordStream P
  finish s = record s { eof = true }

  unfoldable pub pending : RecordStream P → ℕ
  pending s = length s.buffer - s.start

  -- Drop the consumed bytes when they are all, or many.
  unfoldable pub compact : RecordStream P → RecordStream P
  compact s =
      if leb (length s.buffer) s.start || leb compact_after s.start
      then record s { buffer = drop s.start s.buffer; start = 0 }
      else s

module _ {P R : Type 0} (p : StreamingRecordParser P R) where
  unfoldable pub feed : RecordStream P → Str → Result (RecordStream P)
  feed s chunk =
      p.validate s.parser chunk >>= (λ valid. ok (record s { buffer = s.buffer ++ chunk }))

  unfoldable pub state_after : (eof : Bool) → (consumed : ℕ) → StreamState
  state_after true consumed = eof
  state_after false consumed = if consumed == 0 then need_more else rows

  -- What `parse` does with the outcome of the parser; an error leaves the buffer as it was.
  unfoldable pub advance : RecordStream P → P → List R → Result ℕ → Parsed P R
  unfolding compact state_after
  advance s parser records (err e) = record {
    stream = record s { parser = parser };
    records = records;
    state = err e;
  }
  advance s parser records (ok consumed) = record {
    stream = compact (record s { parser = parser; start = s.start + consumed });
    records = records;
    state = ok (state_after s.eof consumed);
  }

  unfoldable pub parse : RecordStream P → Parsed P R
  unfolding advance
  parse s =
      let a = p.parse_available s.parser (drop s.start s.buffer) s.eof in
      advance s a.parser a.records a.consumed
