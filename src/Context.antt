-- ===== src/Context.antt =====
-- crates/ruststream-kinesis/src/context.rs: what a handler reads of the context of its delivery, and the
-- handle of subscriber.rs that repositions its subscription on either transport.
pub mod Redelivers
use ruststream_kinesis.Prelude.{ℕ, Bool, List, [], Text, Result, ok, err}
use ruststream_kinesis.Error.{KinesisError}
use ruststream_kinesis.Envelope.Headers.{HeaderMap}
use ruststream_kinesis.Message.{KinesisMessage, KinesisPosition, sequence, shard}
use ruststream_kinesis.Subscriber.Seek
use ruststream_kinesis.Subscriber.Seek.{Hub}
use ruststream_kinesis.InProcess.Streams
use ruststream_kinesis.InProcess.Streams.{Transport}

-- `KinesisSeeker`: the readers of the shards, or the log of a stream.
pub data KinesisSeeker : Type 0 where
  shards : KinesisSeeker
  log : Text → KinesisSeeker

pub record KinesisContext : Type 0 where
  pub shard : Text
  pub sequence : Text
  pub seeker : KinesisSeeker

pub record KinesisBatchContext : Type 0 where
  pub seeker : KinesisSeeker

-- `BuildContext::build`; the message's own handle is an argument.
unfoldable pub build : KinesisSeeker → KinesisMessage → KinesisContext
unfolding shard
build seeker m = record {
  shard = shard m.received.settlement;
  sequence = m.received.sequence;
  seeker = seeker;
}

-- `BuildBatchContext::build`, of the first message.
abbrev pub build_batch : KinesisSeeker → KinesisMessage → KinesisBatchContext
build_batch seeker first = record { seeker = seeker }

-- The key `Position`.
unfoldable pub read_position : KinesisContext → KinesisPosition
read_position src = sequence src.shard src.sequence

-- The key `SeekHandle`.
abbrev pub read_seeker : KinesisContext → KinesisSeeker
read_seeker src = src.seeker

-- What a handle may reposition: the seek surface of the shards, while its broker is open, or the logs.
pub record Surfaces (h : HeaderMap) : Type 0 where
  pub is_open : Bool
  pub hub : Hub
  pub transport : Transport h

-- A seek on a log is answered at once: it waits for no reader.
abbrev awaits_none : Result KinesisError Unit → Result KinesisError (List ℕ)
awaits_none (ok _) = ok []
awaits_none (err e) = err e

-- `KinesisSeeker::seek`, until it waits.
unfoldable pub seek :
    {h : HeaderMap}
    → KinesisSeeker
    → KinesisPosition
    → Surfaces h
    → Result KinesisError (List ℕ) × Surfaces h
seek shards to s =
    let (answer, hub) = Seek.seek s.is_open to s.hub in (answer, record s { hub = hub })
seek {h = h} (log stream) to s =
    let (answer, transport) = Streams.seek h stream to s.transport in
    (awaits_none answer, record s { transport = transport })
