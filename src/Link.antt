-- ===== src/Link.antt =====
-- crates/ruststream-kinesis/src/broker.rs: the link of a connected broker, which is the service or the
-- transport of the harness, and what publisher.rs, the broker and the harness do over either. A panic
-- of the harness is `none`.
pub mod Alike
pub mod Deliveries
pub mod Polled
pub mod Routes
pub mod Shut
pub mod Subscribing
use ruststream_kinesis.Prelude.{
  ℕ, suc, Bool, true, false, not, Option, none, some, List, [], ◌∷◌, Text, str_eq, if◌then◌else◌,
  Result, ok, err, map_err,
}
use ruststream_kinesis.Error.{not_connected}
use ruststream_kinesis.Envelope.{Envelope}
use ruststream_kinesis.Envelope.Headers.{HeaderMap}
use ruststream_kinesis.Publisher.{KinesisPublishOptions, Put, publish_record}
use ruststream_kinesis.InProcess.Bus.{PutError, failed}
use ruststream_kinesis.InProcess.Streams
use ruststream_kinesis.InProcess.Streams.{Transport, Published}

-- `Link`: of the core, whether it is closed, beside the service's state; or the bus.
pub data Link (S : Type 0) (h : HeaderMap) : Type 0 where
  aws : Bool → S → Link S h
  in_process : Transport h → Link S h

-- `KinesisPublisher`, whose cell is looked up apart.
pub record LinkPublisher : Type 0 where
  pub partition_key : Option Text
  pub envelope : Envelope

-- `KinesisPublishSteps::partition_key`
abbrev pub with_step : Text → Option KinesisPublishOptions → Option KinesisPublishOptions
with_step key options = some (record { partition_key = some key })

-- The places of the subscriptions that a record to the destination reaches, the first of which is place `n`.
unfoldable pub routes_from : ℕ → Text → List Text → List ℕ
routes_from n destination [] = []
routes_from n destination (stream ∷ subscriptions) =
    let rest = routes_from (suc n) destination subscriptions in
    if str_eq stream destination then n ∷ rest else rest

-- `TestableBroker::routes`
abbrev pub routes : Text → List Text → List ℕ
routes destination subscriptions = routes_from 0 destination subscriptions

module _ {S : Type 0} (h : HeaderMap) where
  -- `connect_in_process`: a cell is filled once.
  abbrev pub connect_in_process : Option (Link S h) → Option (Link S h)
  connect_in_process none = some (in_process (Streams.new h))
  connect_in_process (some link) = some link

  -- `ConnectedBroker::shutdown`
  unfoldable pub shutdown : Link S h → Link S h
  shutdown (aws closed s) = aws true s
  shutdown (in_process bus) = in_process (Streams.close h bus)

  -- `Publisher::publish`, over what the publisher's cell holds.
  unfoldable pub publish :
      Put S
      → LinkPublisher
      → Option KinesisPublishOptions
      → Text
      → Text
      → h.Map
      → Text
      → ℕ
      → Option (Link S h)
      → Result PutError Unit × Option (Link S h)
  publish put_record p options stream payload headers fresh now none =
      (err (failed not_connected), none)
  publish put_record p options stream payload headers fresh now (some (in_process bus)) =
      let (answer, bus') =
        Streams.put h p.envelope options p.partition_key stream headers payload fresh now bus in
      (answer, some (in_process bus'))
  publish put_record p options stream payload headers fresh now (some (aws closed s)) =
      let (answer, s') =
        publish_record put_record h
          (record {
            connected = true;
            is_open = not closed;
            partition_key = p.partition_key;
            envelope = p.envelope;
          })
          options stream payload headers fresh s in
      (map_err failed answer, some (aws closed s'))

  -- `TestableBroker::inject`, under the broker's envelope.
  unfoldable pub inject : Envelope → Text → h.Map → Text → Text → ℕ → Link S h → Option (Link S h)
  inject broker stream headers payload fresh now (aws closed s) = none
  inject broker stream headers payload fresh now (in_process bus) =
      let (answer, bus') = Streams.inject h broker stream headers payload fresh now bus in
      elim answer [ ok _ ↦ some (in_process bus') | err _ ↦ none ]

  -- `TestableBroker::published`
  unfoldable pub published : Text → Link S h → Option (List (Published h))
  published stream (aws closed s) = none
  published stream (in_process bus) = some (Streams.published h stream bus)
