-- ===== src/Link/Subscribing.antt =====
-- Subscribing through broker.rs on either link, and what the transport of the harness then yields.
use ruststream_kinesis.Prelude.{
  ◌≡◌, ◌⊎◌, refl, inl, inr, Bool, true, false, not, Text, str_eq, if◌then◌else◌, Result, ok, err,
  map_err, Bool-cases, Result-cases, arith,
}
use ruststream_kinesis.Error.{not_connected, already_subscribed}
use ruststream_kinesis.Claim.{ReadStreams, contains, claim, drop}
use ruststream_kinesis.Envelope.{Envelope}
use ruststream_kinesis.Envelope.Choose.{choose}
use ruststream_kinesis.Envelope.Headers.{HeaderMap}
use ruststream_kinesis.Stream.{KinesisStream, split, validate}
use ruststream_kinesis.Broker
use ruststream_kinesis.Broker.{Control, Connected, Opened, prepare}
use ruststream_kinesis.Broker.Subscribing.{contains-claimed, contains-dropped}
use ruststream_kinesis.InProcess.Bus.{PutError, failed}
use ruststream_kinesis.InProcess.Streams
use ruststream_kinesis.Link.{Link, aws, in_process}

-- `ConnectedKinesisBroker`
pub record ConnectedBroker (S : Type 0) (h : HeaderMap) : Type 0 where
  pub streams : ReadStreams
  pub envelope : Envelope
  pub link : Link S h

-- Whether a link is not shut down.
unfoldable pub is_live : {S : Type 0} {h : HeaderMap} → Link S h → Bool
is_live (aws closed s) = not closed
is_live (in_process bus) = not bus.is_closed

module _ {S : Type 0} (h : HeaderMap) (control : Control S) where
  -- What `subscribe_stream` does on the link once the stream is claimed.
  unfoldable pub open_link : KinesisStream → Link S h → Result PutError Unit × Link S h
  open_link descriptor (in_process bus) =
      let (answer, bus') = Streams.subscribe h descriptor.stream bus in (answer, in_process bus')
  open_link descriptor (aws true s) = (err (failed not_connected), aws true s)
  open_link descriptor (aws false s) =
      let (answer, s') = prepare control descriptor.create_shards descriptor.stream s in
      (map_err failed answer, aws false s')

  -- `subscribe_stream`; a claim that is not handed on is dropped with the call.
  unfoldable pub subscribe_stream :
      KinesisStream → ConnectedBroker S h → Result PutError Opened × ConnectedBroker S h
  unfolding split
  subscribe_stream mounted b =
      let (descriptor, choice) = split mounted in
      elim (validate descriptor) [
        | err e ↦ (err (failed e), b)
        | ok _ ↦
            let (claimed, streams) = claim descriptor.stream b.streams in
            elim claimed [
              | err e ↦ (err (failed e), b)
              | ok held ↦
                  let (answer, link) = open_link descriptor b.link in
                  elim answer [
                    | err e ↦ (err e, record b { streams = drop held streams; link = link })
                    | ok _ ↦ (
                      ok (record { descriptor = descriptor; envelope = choose choice b.envelope }),
                      record b { streams = streams; link = link },
                    )
                  ]
            ]
      ]

  open_link-live :
      (d : KinesisStream) (link : Link S h) {u : Unit {0}}
      → (open_link d link).0 ≡ ok u
      → is_live link ≡ true
  unfolding open_link is_live Streams.subscribe
  open_link-live d (in_process bus) e = ground (arith, e)
  open_link-live d (aws true s) e = cc e
  open_link-live d (aws false s) e = refl

  module _ (mounted : KinesisStream) (b : ConnectedBroker S h) where
    -- An opened subscription, or a refusal, as far as stream `t` sees it.
    abbrev pub Claims : Text → Result PutError Opened × ConnectedBroker S h → Type 0
    Claims t r =
        ((o : Opened) × (r.0 ≡ ok o)
          × (is_live b.link ≡ true)
          × (contains mounted.stream b.streams ≡ false)
          × (o.envelope ≡ choose mounted.envelope b.envelope)
          × (contains t r.1.streams
              ≡ (if str_eq mounted.stream t then true else contains t b.streams)))
        ⊎ ((e : PutError) × (r.0 ≡ err e) × (contains t r.1.streams ≡ contains t b.streams))

    -- Over the service and over the transport of the harness alike: a subscription is opened only on a
    -- link that is not shut down and of a stream that nobody holds; it reads in the envelope that the
    -- descriptor names, or else in the broker's, and from then on its stream is claimed, the others
    -- being claimed or free as before. A refused one, for whatever reason, leaves every stream claimed
    -- or free as it was.
    pub subscribe_stream-Claims : (t : Text) → Claims t (subscribe_stream mounted b)
    unfolding subscribe_stream split claim
    subscribe_stream-Claims t =
        let d : KinesisStream = (split mounted).0 in
        elim (Result-cases (validate d)) [
          | inr (e, refused) ↦ rw (refused, subscribe_stream) (inr (failed e, refl, refl))
          | inl (_, valid) ↦ elim (Bool-cases (contains mounted.stream b.streams)) [
            | inl taken ↦
                rw (valid, subscribe_stream)
                  (rw (taken, claim) (inr (failed (already_subscribed mounted.stream), refl, refl)))
            | inr free ↦ elim (Result-cases (open_link d b.link).0) [
              | inr (e, failure) ↦
                  rw (valid, subscribe_stream)
                    (rw (free, claim)
                      (rw failure (
                        rw free (inr (e, refl, contains-dropped mounted.stream t b.streams free)))))
              | inl (_, opened) ↦
                  rw (valid, subscribe_stream)
                    (rw (free, claim)
                      (rw opened (
                        rw free (
                          inl (
                            _,
                            refl,
                            open_link-live d b.link opened,
                            refl,
                            refl,
                            contains-claimed mounted.stream t b.streams,
                          )))))
            ]
          ]
        ]

  -- A connected broker over the service, as Broker has it.
  abbrev over : Bool → Connected S → ConnectedBroker S h
  over closed b = record { streams = b.streams; envelope = b.envelope; link = aws closed b.kinesis }

  open_link-aws :
      (d : KinesisStream) (b : Connected S)
      → open_link d (aws b.closed b.kinesis) ≡ (
        map_err failed (Broker.open_stream control d b).0,
        aws b.closed (Broker.open_stream control d b).1,
      )
  unfolding open_link Broker.open_stream
  open_link-aws d b = elim (Bool-cases b.closed) [
    | inl closed ↦ rw (closed, open_link, Broker.open_stream) refl
    | inr alive ↦ rw (alive, open_link, Broker.open_stream) refl
  ]

  -- Over the service, subscribing is that of Broker.
  subscribe_stream-aws :
      (mounted : KinesisStream) (b : Connected S)
      → subscribe_stream mounted (over b.closed b) ≡ (
        map_err failed (Broker.subscribe_stream control mounted b).0,
        over b.closed (Broker.subscribe_stream control mounted b).1,
      )
  unfolding subscribe_stream Broker.subscribe_stream split claim
  subscribe_stream-aws mounted b = elim (Result-cases (validate (split mounted).0)) [
    | inr (e, refused) ↦ rw (refused, subscribe_stream, Broker.subscribe_stream) refl
    | inl (_, valid) ↦
        rw (valid, subscribe_stream, Broker.subscribe_stream)
          (elim (Bool-cases (contains mounted.stream b.streams)) [
            | inl taken ↦ rw (taken, claim) refl
            | inr free ↦
                let d : KinesisStream = (split mounted).0 in
                rw (free, claim)
                  (rw (open_link-aws d b) (elim (Result-cases (Broker.open_stream control d b).0) [
                    | inr (e, failure) ↦ rw failure (rw (open_link-aws d b) refl)
                    | inl (_, opened) ↦ rw opened (rw (open_link-aws d b) refl)
                  ]))
          ])
  ]
