-- ===== src/Publisher.antt =====
-- crates/ruststream-kinesis/src/publisher.rs: the partition key of a record, and the one `PutRecord` call
-- that a publish makes. The call is the SDK's, an operation on the service's state.
pub mod Delivers
pub mod Spread
use ruststream_kinesis.Prelude.{
  Bool, true, false, Option, none, some, Text, if◌then◌else◌, Result, ok, err,
}
use ruststream_kinesis.Error.{KinesisError, EnvelopeError, envelope, not_connected, publish}
use ruststream_kinesis.Envelope.{Envelope}
use ruststream_kinesis.Envelope.Headers.{HeaderMap, written, partition_key_header}
use ruststream_kinesis.Envelope.Utf8.{from_utf8_lossy}

pub record KinesisPublishOptions : Type 0 where
  pub partition_key : Option Text

-- What the record's key is when the call's step names none: the header, the policy's, a fresh one.
unfoldable pub key_without_step : Option Text → Option Text → Text → Text
unfolding from_utf8_lossy
key_without_step (some named) from_policy fresh = from_utf8_lossy named
key_without_step none (some key) fresh = key
key_without_step none none fresh = fresh

-- `options.and_then(|options| options.partition_key.as_deref())`
abbrev pub named_by_step : Option KinesisPublishOptions → Option Text
named_by_step none = none
named_by_step (some options) = options.partition_key

-- `resolve_partition_key`; the process-unique key that `spread_key` makes is the last argument.
unfoldable pub resolve_partition_key :
    (h : HeaderMap) → Option KinesisPublishOptions → h.Map → Option Text → Text → Text
unfolding key_without_step
resolve_partition_key h options headers from_policy fresh = elim (named_by_step options) [
  | some key ↦ key
  | none ↦ key_without_step (h.get partition_key_header headers) from_policy fresh
]

-- `KinesisPublisher`: what it is on, once connected, and what the policy named.
pub record KinesisPublisher : Type 0 where
  pub connected : Bool
  pub is_open : Bool
  pub partition_key : Option Text
  pub envelope : Envelope

abbrev pub Put : Type 0 → Type 0
Put V = Text → Text → Text → V → Result Text Unit × V  -- stream, partition key, data

abbrev pub sent : Text → Result Text Unit → Result KinesisError Unit
sent stream (ok _) = ok tt
sent stream (err e) = err (publish stream e)

-- `put_record`, for a record that could be sealed.
unfoldable pub put_sealed :
    {V : Type 0}
    → Put V
    → Text
    → Text
    → Result EnvelopeError Text
    → V
    → Result KinesisError Unit × V
put_sealed put_record stream key (err e) v = (err (envelope stream e), v)
put_sealed put_record stream key (ok content) v =
    let (answer, v') = put_record stream key content v in (sent stream answer, v')

-- `Publisher::publish`, on the service.
unfoldable pub publish_record :
    {V : Type 0}
    → Put V
    → (h : HeaderMap) → KinesisPublisher
    → Option KinesisPublishOptions
    → Text
    → Text
    → h.Map
    → Text
    → V
    → Result KinesisError Unit × V
unfolding resolve_partition_key put_sealed
publish_record put_record h publisher options stream payload headers fresh v =
    let key = resolve_partition_key h options headers publisher.partition_key fresh in
    let sealed = publisher.envelope.seal (written (h.iter headers)) payload in
    if publisher.connected
    then (if publisher.is_open
        then put_sealed put_record stream key sealed v
        else (err not_connected, v))
    else (err not_connected, v)
