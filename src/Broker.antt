-- ===== src/Broker.antt =====
-- crates/ruststream-kinesis/src/broker.rs: a connected broker, its subscriptions and its shutdown. The calls
-- that it makes of the service are a parameter; the transport of the harness is that of InProcess.
pub mod Subscribing
pub mod Connecting
pub mod Existing
pub mod Owner
use ruststream_kinesis.Prelude.{
  ℕ, Bool, true, false, ◌||◌, ◌&&◌, ◌==◌, Option, none, some, List, [], ◌∷◌, Text, codes, Result,
  ok, err, map_err, if◌then◌else◌,
}
use ruststream_kinesis.Prelude.Int.{ℤ}
use ruststream_kinesis.Error.{KinesisError, not_connected}
use ruststream_kinesis.Claim.{ReadStreams, claim, drop}
use ruststream_kinesis.Envelope.{Envelope}
use ruststream_kinesis.Envelope.Choose.{choose}
use ruststream_kinesis.Stream.{KinesisStream, split, validate}

-- Why a `create_stream` failed: the text of the service's error, when there is one, and the cause chain
-- that `sdk_err` keeps.
pub record CreateFailure : Type 0 where
  pub service : Option Text
  pub source : Text

-- The calls of the SDK's client, on the service's state: an error is its cause chain.
pub record Control (S : Type 0) : Type 0 where
  pub describe_stream_summary : Text → S → Result Text Unit × S
  pub create_stream : Text → ℤ → S → Result CreateFailure Unit × S
  pub wait_until_stream_exists : Text → ℕ → S → Result Text Unit × S

abbrev is_prefix : Text → Text → Bool
is_prefix [] text = true
is_prefix (c ∷ part) [] = false
is_prefix (c ∷ part) (d ∷ text) = c == d && is_prefix part text

-- `str::contains`
unfoldable pub contains_text : Text → Text → Bool
contains_text part [] = is_prefix part []
contains_text part (c ∷ text) = is_prefix part (c ∷ text) || contains_text part text

-- A lost creation race.
unfoldable pub raced : CreateFailure → Bool
raced failure = elim failure.service [
  | none ↦ false
  | some text ↦ contains_text (codes "ResourceInUse") text
]

-- A minute, in milliseconds.
abbrev wait_at_most : ℕ
wait_at_most = 60000

-- A subscription that was opened, which holds the claim of its stream.
pub record Opened : Type 0 where
  pub descriptor : KinesisStream
  pub envelope : Envelope

-- `ConnectedKinesisBroker` over the service: the streams it reads, its envelope, and of its core the
-- flag that `shutdown` sets, beside the service's state.
pub record Connected (S : Type 0) : Type 0 where
  pub streams : ReadStreams
  pub envelope : Envelope
  pub closed : Bool
  pub kinesis : S

-- `shutdown`
abbrev pub shutdown : {S : Type 0} → Connected S → Connected S
shutdown b = record b { closed = true }

-- The drop of a subscriber drops its claim.
unfoldable pub close : {S : Type 0} → Opened → Connected S → Connected S
close opened b = record b { streams = drop opened.descriptor.stream b.streams }

module _ {S : Type 0} (control : Control S) where
  unfoldable pub require_stream : Text → S → Result KinesisError Unit × S
  require_stream stream s =
      let (answer, s') = control.describe_stream_summary stream s in
      (map_err (KinesisError.stream stream) answer, s')

  -- The end of `ensure_stream`.
  unfoldable pub wait_for_stream : Text → S → Result KinesisError Unit × S
  wait_for_stream stream s =
      let (answer, s') = control.wait_until_stream_exists stream wait_at_most s in
      (map_err (KinesisError.stream stream) answer, s')

  unfoldable pub create : Text → ℤ → S → Result KinesisError Unit × S
  create stream shards s =
      let (created, s1) = control.create_stream stream shards s in
      elim created [
        | ok _ ↦ wait_for_stream stream s1
        | err failure ↦
            if raced failure
            then wait_for_stream stream s1
            else (err (KinesisError.stream stream failure.source), s1)
      ]

  unfoldable pub ensure_stream : Text → ℤ → S → Result KinesisError Unit × S
  ensure_stream stream shards s =
      let (found, s1) = control.describe_stream_summary stream s in
      elim found [ ok _ ↦ wait_for_stream stream s1 | err _ ↦ create stream shards s1 ]

  -- What `subscribe_stream` asks of the service once the stream is claimed.
  unfoldable pub prepare : Option ℤ → Text → S → Result KinesisError Unit × S
  prepare (some shards) stream s = ensure_stream stream shards s
  prepare none stream s = require_stream stream s

  -- `Core::ensure_open`, then the service.
  unfoldable pub open_stream : KinesisStream → Connected S → Result KinesisError Unit × S
  open_stream descriptor b =
      if b.closed
      then (err not_connected, b.kinesis)
      else prepare descriptor.create_shards descriptor.stream b.kinesis

  -- `subscribe_stream`; a claim that is not handed on is dropped with the call.
  unfoldable pub subscribe_stream :
      KinesisStream → Connected S → Result KinesisError Opened × Connected S
  unfolding split
  subscribe_stream mounted b =
      let (descriptor, choice) = split mounted in
      elim (validate descriptor) [
        | err e ↦ (err e, b)
        | ok _ ↦
            let (claimed, streams) = claim descriptor.stream b.streams in
            elim claimed [
              | err e ↦ (err e, b)
              | ok held ↦
                  let (answer, kinesis) = open_stream descriptor b in
                  elim answer [
                    | err e ↦ (err e, record b { streams = drop held streams; kinesis = kinesis })
                    | ok _ ↦ (
                      ok (record { descriptor = descriptor; envelope = choose choice b.envelope }),
                      record b { streams = streams; kinesis = kinesis },
                    )
                  ]
            ]
      ]
