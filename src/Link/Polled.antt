-- ===== src/Link/Polled.antt =====
-- A subscription, a publish and a poll on the transport of the harness, one after another.
use ruststream_kinesis.Prelude.{
  ℕ, List, ◌<◌, ◌==◌, ◌&&◌, ◌∙◌, sym, Bool, not, ℕ, ◌≡◌, refl, ap, inl, inr, Option, none, some,
  Text, str_eq_refl, if◌then◌else◌, length, Result, ok, err, Bool-cases, Result-cases, arith,
}
use ruststream_kinesis.Error.{KinesisError, aggregated_record}
use ruststream_kinesis.Claim.{ReadStreams, contains, claim}
use ruststream_kinesis.Envelope.{Envelope}
use ruststream_kinesis.Envelope.Headers.{HeaderMap}
use ruststream_kinesis.Message.{Received}
use ruststream_kinesis.Stream.{KinesisStream, split, validate}
use ruststream_kinesis.Broker.{Control, Opened}
use ruststream_kinesis.InProcess.Log.{
  Feed, append, deliver, receive, apply_pending, in_process_shard,
}
use ruststream_kinesis.InProcess.Log
use ruststream_kinesis.InProcess.Bus.{PutError, check_stream}
use ruststream_kinesis.InProcess.Bus.ReadsBack.{message_of}
use ruststream_kinesis.InProcess.Streams
use ruststream_kinesis.InProcess.Streams.{Transport}
use ruststream_kinesis.InProcess.Streams.Follows.{deliver-alike}
use ruststream_kinesis.Subscriber.{Stamped, poll}
use ruststream_kinesis.Subscriber.Reader.{is_aggregated}
use ruststream_kinesis.Envelope.Rsk.{rsk}
use ruststream_kinesis.Envelope.Headers.{written}
use ruststream_kinesis.Envelope.Rsk.Wire.{block_len, u32_mod}
use ruststream_kinesis.Envelope.Rsk.Fields.{AreTexts}
use ruststream_kinesis.Message.{open_message, read_headers}
use ruststream_kinesis.Message
use ruststream_kinesis.Message.Delivery.{expected, delivered_as_published}
use ruststream_kinesis.Publisher.{KinesisPublishOptions, Put, resolve_partition_key}
use ruststream_kinesis.InProcess.Bus
use ruststream_kinesis.InProcess.Bus.Appends.{put-appends}
use ruststream_kinesis.Subscriber.Reader.Aggregated.{seal-aggregated}
use ruststream_kinesis.Link.{LinkPublisher, publish, Link, aws, in_process}
use ruststream_kinesis.Link.Subscribing.{ConnectedBroker, open_link, subscribe_stream}

-- `Deliveries`: the channel of the shard readers, with the gates that the records are stamped by, or the
-- subscription to a stream of the bus.
pub data Deliveries (h : HeaderMap) : Type 0 where
  shards : List ℕ → List Stamped → Deliveries h
  log : Text → Transport h → Deliveries h

-- `Deliveries::stream`, one poll of it.
unfoldable pub stream :
    {h : HeaderMap} → Deliveries h → Option (Result KinesisError Received) × Deliveries h
stream (shards gates rx) = let (answer, rx') = poll gates rx in (answer, shards gates rx')
stream {h = h} (log name bus) =
    let (answer, bus') = Streams.poll h name bus in (answer, log name bus')

-- What the subscription to a stream yields next on a link that is a bus.
polled :
    {S : Type 0} {h : HeaderMap} → Text → Option (Link S h) → Option (Result KinesisError Received)
polled name none = none
polled name (some (aws closed s)) = none
polled {h = h} name (some (in_process bus)) = (stream {h = h} (log name bus)).0

subscribe-feed :
    (h : HeaderMap) (stream : Text) (bus : Transport h) {u : Unit {0}}
    → (Streams.subscribe h stream bus).0 ≡ ok u
    → (Streams.subscribe h stream bus).1.feeds stream ≡ Log.subscribe (bus.feeds stream)
unfolding Streams.subscribe
subscribe-feed h stream bus e = elim (Bool-cases bus.is_closed) [
  | inl closed ↦ ground (arith, e, closed)
  | inr alive ↦ elim (Result-cases (check_stream stream)) [
    | inr (reason, refusal) ↦ ground (arith, e, alive, refusal)
    | inl (_, named) ↦
        rw (alive, Streams.subscribe)
          (rw (named, Streams.subscribe) (rw (str_eq_refl stream, Streams.subscribe) refl))
  ]
]

-- The delivery of a record that is put after the others.
abbrev next : {B : Type 0} → Text → Text → B → ℕ → Feed B → Log.Delivery B
next key content back now f = record {
  kept = record { partition_key = key; content = content; read_back = back; at_millis = now };
  index = length f.records;
}

-- A poll of a subscription that waits at the tip, after a publish.
append-polled :
    {B : Type 0} (stream key content : Text) (back : B) (now : ℕ) (f : Feed B)
    → (Log.poll stream (append key content back now (Log.subscribe f))).0
      ≡ some ((deliver stream (next key content back now f) f).0)
unfolding Log.poll append Log.subscribe apply_pending receive
append-polled stream key content back now f =
    ap some (deliver-alike stream (next key content back now f) _ f)

deliver_lem :
    {B : Type 0} (stream : Text) (d : Log.Delivery B) (f : Feed B)
    → (deliver stream d f).0 ≡ (
        if is_aggregated d.kept.content
        then err (aggregated_record in_process_shard)
        else ok (message_of stream d))
unfolding deliver is_aggregated
deliver_lem stream d f = elim (Bool-cases (is_aggregated d.kept.content)) [
  | inl aggregated ↦ rw (aggregated, deliver) refl
  | inr plain ↦ rw (plain, deliver) refl
]

module _ {S : Type 0} (h : HeaderMap) (control : Control S) (mounted : KinesisStream)
    (streams : ReadStreams) (envelope : Envelope) (bus : Transport h) where
  abbrev pub harnessed : ConnectedBroker S h
  harnessed = record { streams = streams; envelope = envelope; link = in_process bus }

  abbrev pub subscribed : Result PutError Opened × ConnectedBroker S h
  subscribed = subscribe_stream h control mounted harnessed

  -- An opened subscription waits at the tip of its stream.
  subscribed_lem :
      (o : Opened)
      → subscribed.0 ≡ ok o
      → (bus1 : Transport h) × (subscribed.1.link ≡ in_process bus1)
        × (bus1.feeds mounted.stream ≡ Log.subscribe (bus.feeds mounted.stream))
  unfolding subscribe_stream split claim open_link
  subscribed_lem o e = elim (Result-cases (validate (split mounted).0)) [
    | inr (x, refused) ↦ ground (arith, e, refused)
    | inl (_, valid) ↦ elim (Bool-cases (contains mounted.stream streams)) [
      | inl taken ↦ ground (arith, e, valid, taken)
      | inr free ↦ elim (Result-cases (Streams.subscribe h mounted.stream bus).0) [
        | inr (x, failure) ↦ ground (arith, e, valid, free, failure)
        | inl (_, opened) ↦ (
          (Streams.subscribe h mounted.stream bus).1,
          rw (valid, subscribe_stream) (rw (free, claim) (rw (opened, open_link) refl)),
          subscribe-feed h mounted.stream bus opened,
        )
      ]
    ]
  ]

  module _ (put_record : Put S) (p : LinkPublisher) (options : Option KinesisPublishOptions)
      (payload : Text) (headers : h.Map) (fresh : Text) (now : ℕ) where
    abbrev pub after_publish : Result PutError Unit × Option (Link S h)
    after_publish =
        publish h put_record p options mounted.stream payload headers fresh now
          (some subscribed.1.link)

    abbrev key : Text
    key = resolve_partition_key h options headers p.partition_key fresh

    -- The publish on the transport that the subscription left.
    on_bus_lem :
        (bus1 : Transport h)
        → bus1.feeds mounted.stream ≡ Log.subscribe (bus.feeds mounted.stream)
        → (publish h put_record p options mounted.stream payload headers fresh now
            (some (in_process bus1))).0
          ≡ ok tt
        → (content : Text) × (p.envelope.seal (written (h.iter headers)) payload ≡ ok content)
          × (polled mounted.stream
                (publish h put_record p options mounted.stream payload headers fresh now
                  (some (in_process bus1))).1
              ≡ some (
                  (deliver mounted.stream
                    (next key content
                      (Bus.read_back h p.envelope content)
                      now
                      (bus.feeds mounted.stream))
                    (bus.feeds mounted.stream)).0))
    unfolding publish Streams.put polled stream Streams.poll
    on_bus_lem bus1 waits done =
        let put_of =
          Bus.put h p.envelope (not bus1.is_closed) mounted.stream key headers payload now in
        let (content, sealed, _, appended) =
          put-appends h p.envelope (not bus1.is_closed) mounted.stream key headers payload now
            (bus1.feeds mounted.stream) done in
        let back = Bus.read_back h p.envelope content in
        (
          content,
          sealed,
          ap
                (λ here.
                  (Log.poll mounted.stream (
                    if here
                    then (put_of (bus1.feeds mounted.stream)).1
                    else bus1.feeds mounted.stream)).0)
                (str_eq_refl mounted.stream)
              ∙ ap (λ f. (Log.poll mounted.stream f).0)
                  (appended ∙ ap (append key content back now) waits)
              ∙ append-polled mounted.stream key content back now (bus.feeds mounted.stream),
        )

    -- On the transport of the harness, a record in the default envelope that is published right after its
    -- stream was subscribed to, with header names that are texts and a header block shorter than 2^32
    -- bytes, is what the subscription yields next: with its payload and, name by name, the published
    -- headers, but for the three names of the record's own fields; or as an aggregated record, when no
    -- header is written and the payload begins as such a record does.
    pub publish-polled :
        (o : Opened) (name : Text) (bus2 : Transport h)
        → subscribed.0 ≡ ok o
        → p.envelope ≡ rsk
        → AreTexts (written (h.iter headers))
        → block_len (written (h.iter headers)) < u32_mod
        → after_publish ≡ (ok tt, some (in_process bus2))
        → (received : Received) × ((stream (log mounted.stream bus2)).0
            ≡ some (
                if block_len (written (h.iter headers)) == 0 && is_aggregated payload
                then err (aggregated_record in_process_shard)
                else ok received))
          × (Message.payload (open_message rsk received) ≡ payload)
          × (h.get name (read_headers h rsk (open_message rsk received))
              ≡ expected h headers received name)
    unfolding polled
    publish-polled o name bus2 opened default texts fits sent =
        let (bus1, same, waits) = subscribed_lem o opened in
        let run : Link S h → Result PutError Unit × Option (Link S h) = λ link.
          publish h put_record p options mounted.stream payload headers fresh now (some link) in
        let done1 : (run (in_process bus1)).0 ≡ ok tt =
          sym (ap (λ l. (run l).0) same) ∙ ap (λ r. r.0) sent in
        let (content, sealed, yields) = on_bus_lem bus1 waits done1 in
        let d =
          next key content (Bus.read_back h p.envelope content) now (bus.feeds mounted.stream) in
        let received = message_of mounted.stream d in
        let default_sealed : rsk.seal (written (h.iter headers)) payload ≡ ok content =
          ap (λ e. e.seal (written (h.iter headers)) payload) (sym default) ∙ sealed in
        let (whole_payload, read) =
          delivered_as_published h headers payload received name texts fits default_sealed in
        (
          received,
          sym (ap (λ r. polled mounted.stream r.1) sent)
              ∙ ap (λ l. polled mounted.stream (run l).1) same
              ∙ yields
              ∙ ap some (deliver_lem mounted.stream d (bus.feeds mounted.stream))
              ∙ ap
                  (λ (refuses : Bool).
                    some
                      (if refuses then err (aggregated_record in_process_shard) else ok received))
                  (seal-aggregated (written (h.iter headers)) payload content default_sealed),
          whole_payload,
          read,
        )
