-- ===== src/Tests/Brokers.antt =====
-- A broker over a service that is the list of its streams, and the clients of a thread.
use ruststream_kinesis.Prelude.{
  ℕ, Bool, Option, ◌≡◌, ◌⊎◌, refl, true, false, none, some, List, [], ◌∷◌, Text, codes, str_eq, ok,
  err, if◌then◌else◌, arith,
}
use ruststream_kinesis.Prelude.Int.{pos}
use ruststream_kinesis.Claim.{contains}
use ruststream_kinesis.Envelope.NoOp.{no_op}
use ruststream_kinesis.Envelope.Rsk.{rsk}
use ruststream_kinesis.Stream.{
  KinesisStream, split, validate, new, create_if_missing, with_envelope,
}
use ruststream_kinesis.Broker.{
  Control, Connected, subscribe_stream, Opened, prepare, require_stream,
}
use ruststream_kinesis.Broker.Connecting.{
  KinesisBroker, Core, ConnectedBroker, CellPublisher, Cells, owner_id, with_region, publisher,
  link, connect, core_of,
}
use ruststream_kinesis.Broker.Connecting
use ruststream_kinesis.Broker.Connecting.Clones.{on, opened_in, connect-clones}
use ruststream_kinesis.Broker.Connecting.Shared.{Event, connects, shuts, shut, run, run-shared}
use ruststream_kinesis.Broker.Existing.{Documented, subscribe_stream-exists}
use ruststream_kinesis.Error.{KinesisError, already_subscribed, not_connected}
use ruststream_kinesis.Clients.{Thread, find, with_client, own_client}
use ruststream_kinesis.Clients.Own.{serve, with_client-once}

abbrev pub service : Control (List Text)
service = record {
  describe_stream_summary =
      λ stream streams. (if contains stream streams then ok tt else err [], streams);
  create_stream = λ stream shards streams. (ok tt, stream ∷ streams);
  wait_until_stream_exists =
      λ stream most streams. (if contains stream streams then ok tt else err [], streams);
}

service-Documented : Documented service contains
unfolding contains
service-Documented = record {
  describe_keeps = λ stream t streams. refl;
  describe_found = λ stream streams u h. ground arith;
  create_others = λ stream t shards streams other. ground arith;
  wait_others = λ stream t most streams other. refl;
  wait_found = λ stream most streams u h. ground arith;
}

abbrev connected : Connected (List Text)
connected = record { streams = []; envelope = rsk; closed = false; kinesis = [] }

-- A stream that is made on the way, read without an envelope.
abbrev mounted : KinesisStream
mounted = with_envelope no_op (create_if_missing (pos 2) (new (codes "orders")))

apart : str_eq (codes "orders") (codes "refunds") ≡ false
unfolding str_eq
apart = refl

subscribe_stream-exists_example :
    (((o : Opened) × ((subscribe_stream service mounted connected).0 ≡ ok o)
        × (contains mounted.stream (subscribe_stream service mounted connected).1.kinesis ≡ true))
      ⊎ ((e : KinesisError) × ((subscribe_stream service mounted connected).0 ≡ err e)))
    × (contains (codes "refunds") (subscribe_stream service mounted connected).1.kinesis
        ≡ contains (codes "refunds") connected.kinesis)
subscribe_stream-exists_example =
    subscribe_stream-exists service contains mounted connected (codes "refunds") service-Documented
      apart

abbrev thread : Thread
thread = record { home = λ token. some 7; slots = []; built = 0 }

with_client-once_example :
    (with_client 1 none
        (λ token. true)
        (serve
          (λ token. true)
          ((2, some 7) ∷ (3, none) ∷ [])
          (with_client 1 (some 8) (λ token. true) thread).1)
      ≡ (
        (with_client 1 (some 8) (λ token. true) thread).0,
        serve
            (λ token. true)
            ((2, some 7) ∷ (3, none) ∷ [])
            (with_client 1 (some 8) (λ token. true) thread).1,
      ))
    × ((with_client 1 (some 8) (λ token. true) thread).0 ≡ own_client 0)
unfolding find
with_client-once_example =
    with_client-once 1 8 (λ token. true) thread ((2, some 7) ∷ (3, none) ∷ []) none refl refl

-- The configuration that is loaded is the region.
abbrev load : Option Text → Option Text → Bool → Text
load endpoint none test_credentials = []
load endpoint (some region) test_credentials = region

abbrev builder : KinesisBroker Text ℕ
builder = owner_id (codes "a") (Connecting.new 0)

abbrev unconnected : Cells Text ℕ
unconnected = λ cell. none

-- A clone with another region connects too, and another broker is shut down.
abbrev elsewhere : List (Event Text ℕ)
elsewhere =
    connects (with_region (codes "eu-west-1") builder) 2 8 (codes "b")
    ∷ shuts (record { cell = 5; streams = []; envelope = rsk })
    ∷ []

run-shared_example :
    (link (publisher builder) unconnected ≡ err not_connected)
    × (link
          (publisher builder)
          (run load elsewhere (connect load builder 1 7 (codes "drawn") unconnected).1)
        ≡ (if shut builder.cell elsewhere
            then err not_connected
            else ok (core_of load builder 1 7 (codes "drawn"))))
run-shared_example =
    run-shared load builder 1 7 (codes "drawn") (publisher builder) elsewhere unconnected refl refl

-- Another builder on the same cell.
abbrev the_clone : KinesisBroker Text ℕ
the_clone = with_region (codes "eu-west-1") builder

abbrev bare : KinesisStream
bare = new (codes "orders")

abbrev holding : List Text
holding = codes "orders" ∷ []

abbrev once : ConnectedBroker × Cells Text ℕ
once = connect load builder 1 7 (codes "drawn") unconnected

abbrev twice : ConnectedBroker × Cells Text ℕ
twice = connect load the_clone 2 8 (codes "next") once.1

connect-clones_example :
    (twice.1 once.0.cell ≡ some (core_of load builder 1 7 (codes "drawn")))
    × (twice.1 twice.0.cell ≡ some (core_of load builder 1 7 (codes "drawn")))
    × ((subscribe_stream service bare (on once.0 twice.1 holding)).0
        ≡ ok (opened_in service bare rsk))
    × ((subscribe_stream service bare (
          on twice.0 twice.1
            (subscribe_stream service bare (on once.0 twice.1 holding)).1.kinesis)).0
        ≡ ok (opened_in service bare rsk))
    × ((subscribe_stream service bare
          (subscribe_stream service bare (on once.0 twice.1 holding)).1).0
        ≡ err (already_subscribed (codes "orders")))
unfolding validate split prepare require_stream contains str_eq
connect-clones_example =
    connect-clones service bare load builder the_clone 1 2 7 8 (codes "drawn") (codes "next")
      unconnected holding refl refl refl refl refl
