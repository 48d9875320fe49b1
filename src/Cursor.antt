-- ===== src/Cursor.antt =====
-- crates/ruststream-kinesis/src/cursor.rs: the cursors a shard's reader opens at, the iterator
-- request each one becomes, and the choice of a cursor for a reader that starts or starts again.
pub mod Reopen
use ruststream_kinesis.Prelude.{ℕ, ◌-◌, ◌^◌, Bool, Option, none, some, Text, ltb, if◌then◌else◌}

pub data StreamStart : Type 0 where
  horizon latest : StreamStart
  timestamp : ℕ → StreamStart  -- u64, milliseconds

pub data ShardStart : Type 0 where
  stream : StreamStart → ShardStart
  at : Text → ShardStart
  after : Text → ShardStart

pub data Lineage : Type 0 where
  opens continues : Lineage

pub record Reading : Type 0 where
  pub rewind : Option ShardStart
  pub unrecorded : Bool

-- The iterator types of the service, with the fields of the request that each one reads.
pub data IteratorRequest : Type 0 where
  latest trim_horizon : IteratorRequest
  at_timestamp : ℕ → IteratorRequest  -- i64, milliseconds
  at_sequence_number after_sequence_number : Text → IteratorRequest

abbrev pub i64_max : ℕ
i64_max = 2 ^ 63 - 1

-- `i64::try_from(*millis).unwrap_or(i64::MAX)`
abbrev to_i64 : ℕ → ℕ
to_i64 millis = if ltb i64_max millis then i64_max else millis

unfoldable pub iterator_at : ShardStart → IteratorRequest
iterator_at (stream StreamStart.latest) = IteratorRequest.latest
iterator_at (stream horizon) = trim_horizon
iterator_at (stream (timestamp millis)) = at_timestamp (to_i64 millis)
iterator_at (at sequence) = at_sequence_number sequence
iterator_at (after sequence) = after_sequence_number sequence

-- `installed.unwrap_or(StreamStart::Latest)`
abbrev or_latest : Option StreamStart → StreamStart
or_latest none = StreamStart.latest
or_latest (some installed) = installed

-- The arms of the `match` for a shard that nobody read.
abbrev by_lineage : Lineage → Option StreamStart → ShardStart
by_lineage continues (some (timestamp millis)) = stream (timestamp millis)
by_lineage continues _ = stream horizon
by_lineage opens installed = stream (or_latest installed)

unfoldable pub reopen_at :
    Option Text → Option Text → Option ShardStart → Lineage → Option StreamStart → ShardStart
reopen_at (some sequence) opened_at rewind lineage installed = after sequence
reopen_at none (some sequence) rewind lineage installed = at sequence
reopen_at none none (some rewind) lineage installed = rewind
reopen_at none none none lineage installed = by_lineage lineage installed

unfoldable pub rewind_to : ShardStart → Option ShardStart
rewind_to (stream StreamStart.latest) = none
rewind_to start = some start
