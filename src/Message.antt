-- ===== src/Message.antt =====
-- crates/ruststream-kinesis/src/message.rs: a delivered record, its headers, and its acknowledgement,
-- which is a checkpoint. What the settlements of a process share is the `World`: the trackers and the
-- gates behind their `Arc`s, each named by its place, and the lease store.
pub mod Delivery
pub mod Run
pub mod AtLeastOnce
use ruststream_kinesis.Prelude.{
  ℕ, ◌+◌, ◌%◌, Bool, true, false, Option, none, some, List, [], ◌∷◌, Text, ◌==◌, if◌then◌else◌,
  get_or, set, Result, ok, err, length,
}
use ruststream_kinesis.Error.{LeaseError}
use ruststream_kinesis.Track
use ruststream_kinesis.Track.{Watermark}
use ruststream_kinesis.Lease.{LeaseKey, LeaseStore}
use ruststream_kinesis.Envelope.{Envelope, MalformedHeaders}
use ruststream_kinesis.Envelope.Payload
use ruststream_kinesis.Envelope.Payload.{Body, fit}
use ruststream_kinesis.Envelope.Headers.{
  Header, HeaderMap, partition_key_header, sequence_header, shard_header,
}
use ruststream_kinesis.Envelope.Headers.Laws.{insert_all}

-- The framework's `AckError`, with the variants that the crate answers.
pub data AckError : Type 0 where
  unsupported : AckError
  broker : LeaseError → AckError

pub data KinesisPosition : Type 0 where
  horizon latest : KinesisPosition
  timestamp : ℕ → KinesisPosition
  sequence : Text → Text → KinesisPosition  -- shard, sequence

-- `KPL_MAGIC`
abbrev pub kpl_magic : Text
kpl_magic = 0xF3 ∷ 0x89 ∷ 0x9A ∷ 0xC2 ∷ []

pub record Settlement : Type 0 where
  pub tracker : ℕ  -- the place of the tracker
  pub index : ℕ
  pub lease : LeaseKey
  pub owner : Text
  pub epoch : ℕ
  pub gate : ℕ  -- the place of the gate

-- How a delivery settles; `in_process` names its stream and its shard.
pub data Settle : Type 0 where
  checkpoint : Settlement → Settle
  in_process : Text → Text → Settle

unfoldable pub stream : Settle → Text
stream (checkpoint settlement) = settlement.lease.stream
stream (in_process of_stream of_shard) = of_stream

unfoldable pub shard : Settle → Text
shard (checkpoint settlement) = settlement.lease.shard
shard (in_process of_stream of_shard) = of_shard

pub record Received : Type 0 where
  pub content : Text
  pub partition_key : Text
  pub sequence : Text
  pub settlement : Settle

pub record KinesisMessage : Type 0 where
  pub received : Received
  pub body : Body

-- `KinesisMessage::open`
unfoldable pub open_message : Envelope → Received → KinesisMessage
open_message envelope received = record {
  received = received;
  body = fit (envelope.body received.content) (length received.content);
}

-- `IncomingMessage::payload`
unfoldable pub payload : KinesisMessage → Text
payload m = Payload.payload m.body m.received.content

-- A header block that does not parse costs the delivery its envelope headers.
abbrev pub envelope_headers : Result MalformedHeaders (List Header) → List Header
envelope_headers (ok headers) = headers
envelope_headers (err _) = []

-- `KinesisMessage::read_headers`
unfoldable pub read_headers : (h : HeaderMap) → Envelope → KinesisMessage → h.Map
unfolding shard
read_headers h envelope m =
    let read =
      insert_all h (envelope_headers (envelope.read_headers m.received.content m.body)) h.new in
    h.insert shard_header (shard m.received.settlement) (
      h.insert sequence_header m.received.sequence
        (h.insert partition_key_header m.received.partition_key read))

-- `Positioned::position`
unfoldable pub position : KinesisMessage → KinesisPosition
unfolding shard
position m = sequence (shard m.received.settlement) m.received.sequence

pub record World (S : Type 0) : Type 0 where
  pub trackers : List Watermark
  pub gates : List ℕ  -- u64
  pub store : S

abbrev pub tracker_at : {S : Type 0} → World S → ℕ → Watermark
tracker_at w i = get_or w.trackers i Track.default

abbrev pub gate_at : {S : Type 0} → World S → ℕ → ℕ
gate_at w i = get_or w.gates i 0

-- A fenced checkpoint is fine, a store that fails is the broker's error.
abbrev acknowledged : Result LeaseError Bool → Result AckError Unit
acknowledged (ok _) = ok tt
acknowledged (err e) = err (broker e)

module _ {S : Type 0} (store : LeaseStore S) where
  -- The end of `settle`: the watermark has moved to a sequence number, or it waits.
  unfoldable pub persist : Settlement → Option Text → World S → Result AckError Unit × World S
  persist settlement none w = (ok tt, w)
  persist settlement (some seq) w =
      let (r, s') = store.checkpoint settlement.lease settlement.owner seq w.store in
      (acknowledged r, record w { store = s' })

  unfoldable pub settle : Settle → World S → Result AckError Unit × World S
  unfolding persist
  settle (in_process stream shard) w = (ok tt, w)
  settle (checkpoint settlement) w =
      if gate_at w settlement.gate == settlement.epoch
      then (let (advanced, tracker') =
            Track.settle settlement.index (tracker_at w settlement.tracker) in
          persist settlement advanced
            (record w { trackers = set w.trackers settlement.tracker tracker' }))
      else (ok tt, w)

  -- `IncomingMessage::ack`
  unfoldable pub ack : KinesisMessage → World S → Result AckError Unit × World S
  unfolding settle
  ack m w = settle m.received.settlement w

  -- `IncomingMessage::nack`
  unfoldable pub nack : KinesisMessage → Bool → World S → Result AckError Unit × World S
  unfolding settle
  nack m true w = (err unsupported, w)
  nack m false w = settle m.received.settlement w
