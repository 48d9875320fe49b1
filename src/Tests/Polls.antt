-- ===== src/Tests/Polls.antt =====
-- Subscribing, publishing and polling on the transport of the harness.
use ruststream_kinesis.Prelude.{
  ◌≡◌, ◌==◌, ◌&&◌, refl, All, List, Option, Text, none, some, [], ◌∷◌, codes, str_eq, if◌then◌else◌,
  ok, err, arith,
}
use ruststream_kinesis.Error.{aggregated_record}
use ruststream_kinesis.Claim.{contains, claim}
use ruststream_kinesis.Envelope.Headers.{find, written, is_native}
use ruststream_kinesis.Envelope.Headers.Assoc.{assoc}
use ruststream_kinesis.Envelope.Choose.{choose}
use ruststream_kinesis.Envelope.Rsk.{rsk, seal, looks_enveloped}
use ruststream_kinesis.Envelope.Rsk.Wire.{block_len, encode_fields, field_len}
use ruststream_kinesis.Envelope.Utf8.{is_utf8}
use ruststream_kinesis.Message.{Received, open_message, read_headers}
use ruststream_kinesis.Message
use ruststream_kinesis.Message.Delivery.{expected}
use ruststream_kinesis.Publisher.{key_without_step, resolve_partition_key}
use ruststream_kinesis.Stream.{KinesisStream, new, split, validate}
use ruststream_kinesis.Broker.{Opened}
use ruststream_kinesis.InProcess.Log.{in_process_shard}
use ruststream_kinesis.InProcess.Bus
use ruststream_kinesis.InProcess.Bus.{
  check_stream, check_record, refused, is_allowed, chars, write, append_checked,
}
use ruststream_kinesis.InProcess.Streams
use ruststream_kinesis.InProcess.Streams.{Transport}
use ruststream_kinesis.Subscriber.Reader.{is_aggregated}
use ruststream_kinesis.Link.{Link, in_process, LinkPublisher, publish, shutdown}
use ruststream_kinesis.Link.Subscribing.{
  ConnectedBroker, Claims, open_link, subscribe_stream, subscribe_stream-Claims,
}
use ruststream_kinesis.Link.Polled.{log, stream, harnessed, after_publish, publish-polled}
use ruststream_kinesis.Link.Shut.{Event, publishes, subscribes, IsErr, Shut, run, run-Shut}
use ruststream_kinesis.Tests.Brokers.{service}
use ruststream_kinesis.Tests.Links.{recorded}

abbrev mounted : KinesisStream
mounted = new (codes "orders")

abbrev opened : Opened
opened = record { descriptor = mounted; envelope = rsk }

abbrev publisher : LinkPublisher
publisher = record { partition_key = none; envelope = rsk }

abbrev headers : assoc.Map
unfolding assoc find str_eq
headers = ((codes "x-tenant", codes "acme") ∷ [], (refl, tt))

-- The transport that the publish leaves.
abbrev bus_in : Option (Link (List Text) assoc) → Transport assoc
bus_in (some (in_process bus)) = bus
bus_in _ = Streams.new assoc

abbrev left : Transport assoc
left =
    bus_in
      (after_publish assoc service mounted [] rsk (Streams.new assoc) recorded publisher none
        (codes "raw") headers (codes "rs-1-0") 5).1

publish-polled_example :
    (received : Received) × ((stream (log mounted.stream left)).0
      ≡ some (
          if block_len (written (assoc.iter headers)) == 0 && is_aggregated (codes "raw")
          then err (aggregated_record in_process_shard)
          else ok received))
    × (Message.payload (open_message rsk received) ≡ codes "raw")
    × (assoc.get (codes "x-tenant") (read_headers assoc rsk (open_message rsk received))
        ≡ expected assoc headers received (codes "x-tenant"))
unfolding headers assoc find str_eq written is_native is_utf8 block_len subscribe_stream split
    validate claim contains open_link Streams.subscribe check_stream refused is_allowed publish
    Streams.put resolve_partition_key key_without_step Bus.put write append_checked check_record
    chars seal looks_enveloped encode_fields field_len choose
publish-polled_example =
    publish-polled assoc service mounted [] rsk (Streams.new assoc) recorded publisher none
      (codes "raw") headers (codes "rs-1-0") 5 opened (codes "x-tenant") left refl refl (refl, tt)
      (omega arith) refl

-- The subscription to a stream that the broker reads already is refused.
subscribe_stream-Claims_example :
    Claims assoc service mounted
      (harnessed assoc service mounted (codes "orders" ∷ []) rsk (Streams.new assoc))
      (codes "refunds")
      (subscribe_stream assoc service mounted
        (harnessed assoc service mounted (codes "orders" ∷ []) rsk (Streams.new assoc)))
subscribe_stream-Claims_example =
    subscribe_stream-Claims assoc service mounted
      (harnessed assoc service mounted (codes "orders" ∷ []) rsk (Streams.new assoc))
      (codes "refunds")

-- A broker over the harness that reads one stream, and what is tried once it is shut down.
abbrev running : ConnectedBroker (List Text) assoc
running = record {
  streams = codes "refunds" ∷ [];
  envelope = rsk;
  link = in_process (Streams.new assoc);
}

abbrev tried : List (Event assoc)
tried =
    publishes publisher none (codes "orders") (codes "raw") assoc.new (codes "rs-1-0") 5
    ∷ subscribes mounted
    ∷ subscribes (new (codes "refunds"))
    ∷ []

run-Shut_example :
    All
      (IsErr assoc service recorded)
      (run assoc service recorded tried (record running { link = shutdown assoc running.link })).0
    × Shut running.link
        (run assoc service recorded tried
          (record running { link = shutdown assoc running.link })).1.link
run-Shut_example = run-Shut assoc service recorded tried running
