-- ===== src/Link/Shut.antt =====
-- What is left to do on a link that was shut down.
use ruststream_kinesis.Prelude.{
  ℕ, ◌≡◌, refl, ap, ◌∙◌, inl, inr, Bool, true, false, not, Option, none, some, List, [], ◌∷◌, Text,
  str_eq, All, if◌then◌else◌, Result, ok, err, Bool-cases, Result-cases,
}
use ruststream_kinesis.Error.{not_connected, already_subscribed}
use ruststream_kinesis.Claim.{contains, claim}
use ruststream_kinesis.Envelope.Headers.{HeaderMap}
use ruststream_kinesis.Publisher.{KinesisPublishOptions, Put, publish_record, resolve_partition_key}
use ruststream_kinesis.Stream.{KinesisStream, split, validate}
use ruststream_kinesis.Broker.{Control, Opened}
use ruststream_kinesis.InProcess.Bus.{PutError, ReadBack, failed}
use ruststream_kinesis.InProcess.Bus
use ruststream_kinesis.InProcess.Log.{Feed}
use ruststream_kinesis.InProcess.Streams
use ruststream_kinesis.InProcess.Streams.{Transport}
use ruststream_kinesis.Envelope.{Envelope}
use ruststream_kinesis.Link.{Link, aws, in_process, LinkPublisher, publish, shutdown}
use ruststream_kinesis.Link.Subscribing.{ConnectedBroker, open_link, subscribe_stream}

-- A publisher of the broker publishes, or a subscription is asked for.
pub data Event (h : HeaderMap) : Type 0 where
  publishes :
      LinkPublisher → Option KinesisPublishOptions → Text → Text → h.Map → Text → ℕ → Event h
  subscribes : KinesisStream → Event h

abbrev pub link_or : {S : Type 0} {h : HeaderMap} → Option (Link S h) → Link S h → Link S h
link_or none link = link
link_or (some link) _ = link

abbrev pub answer_of : Result PutError Opened → Result PutError Unit
answer_of (ok _) = ok tt
answer_of (err e) = err e

-- From a link to a later one that is shut down, with the service as it was, or no record retained.
abbrev pub Shut : {S : Type 0} {h : HeaderMap} → Link S h → Link S h → Type 0
Shut (aws closed s) (aws later s') = (later ≡ true) × (s' ≡ s)
Shut (aws closed s) (in_process bus') = false ≡ true
Shut (in_process bus) (aws later s') = false ≡ true
Shut (in_process bus) (in_process bus') =
    (bus'.is_closed ≡ true) × ((t : Text) → (bus'.feeds t).records ≡ [])

absurd : {A : Type 0} → false ≡ true → A
absurd e = cc e

module _ {S : Type 0} (h : HeaderMap) (control : Control S) (put_record : Put S) where
  unfoldable pub step : Event h → ConnectedBroker S h → Result PutError Unit × ConnectedBroker S h
  step (publishes p options stream payload headers fresh now) b =
      let (answer, link) =
        publish h put_record p options stream payload headers fresh now (some b.link) in
      (answer, record b { link = link_or link b.link })
  step (subscribes mounted) b =
      let (answer, b') = subscribe_stream h control mounted b in (answer_of answer, b')

  unfoldable pub run :
      List (Event h) → ConnectedBroker S h → List (Result PutError Unit) × ConnectedBroker S h
  run [] b = ([], b)
  run (e ∷ es) b =
      let (answer, b1) = step e b in let (answers, b2) = run es b1 in (answer ∷ answers, b2)

  abbrev pub IsErr : Result PutError Unit → Type 0
  IsErr r = (e : PutError) × (r ≡ err e)

  shutdown-Shut : (l : Link S h) → Shut l (shutdown h l)
  unfolding shutdown Streams.close
  shutdown-Shut (aws closed s) = (refl, refl)
  shutdown-Shut (in_process bus) = (refl, λ t. refl)

  subscribe-closed :
      (stream : Text) (bus : Transport h)
      → bus.is_closed ≡ true
      → Streams.subscribe h stream bus ≡ (err (failed not_connected), bus)
  unfolding Streams.subscribe
  subscribe-closed stream bus closed = rw (closed, Streams.subscribe) refl

  open-Shut :
      (d : KinesisStream) (l k : Link S h)
      → Shut l k
      → ((open_link h control d k).0 ≡ err (failed not_connected))
        × Shut l (open_link h control d k).1
  unfolding open_link
  open-Shut d (aws c s) (aws true s') shut = (refl, shut)
  open-Shut d (aws c s) (aws false s') shut = absurd shut.0
  open-Shut d (aws c s) (in_process bus') shut = absurd shut
  open-Shut d (in_process bus) (aws c s') shut = absurd shut
  open-Shut d (in_process bus) (in_process bus') shut =
      let e = subscribe-closed d.stream bus' shut.0 in (ap (λ r. r.0) e, rw e shut)

  put-closed :
      (e : Envelope) (options : Option KinesisPublishOptions) (from_policy : Option Text)
      (stream : Text) (headers : h.Map) (payload fresh : Text) (now : ℕ) (bus : Transport h)
      (t : Text)
      → bus.is_closed ≡ true
      → ((s : Text) → (bus.feeds s).records ≡ [])
      → ((Streams.put h e options from_policy stream headers payload fresh now bus).0
          ≡ err (failed not_connected))
        × (((Streams.put h e options from_policy stream headers payload fresh now bus).1.feeds
              t).records
            ≡ [])
  unfolding Streams.put Bus.put
  put-closed e options from_policy stream headers payload fresh now bus t closed empties =
      let key = resolve_partition_key h options headers from_policy fresh in
      let put_when : Bool → Result PutError Unit × Feed (ReadBack h) =
        λ c. Bus.put h e (not c) stream key headers payload now (bus.feeds stream) in
      (
        ap (λ c. (put_when c).0) closed,
        elim (Bool-cases (str_eq t stream)) [
          | inl here ↦
              ap (λ same. (if same then (put_when bus.is_closed).1 else bus.feeds t).records) here
              ∙ ap (λ c. (put_when c).1.records) closed
              ∙ empties stream
          | inr other ↦
              ap (λ same. (if same then (put_when bus.is_closed).1 else bus.feeds t).records) other
              ∙ empties t
        ],
      )

  publish-Shut :
      (p : LinkPublisher) (options : Option KinesisPublishOptions) (stream payload : Text)
      (headers : h.Map) (fresh : Text) (now : ℕ) (l k : Link S h)
      → Shut l k
      → ((publish h put_record p options stream payload headers fresh now (some k)).0
          ≡ err (failed not_connected))
        × Shut l
            (link_or (publish h put_record p options stream payload headers fresh now (some k)).1 k)
  unfolding publish publish_record Streams.put
  publish-Shut p options stream payload headers fresh now (aws c s) (aws true s') shut =
      (refl, shut)
  publish-Shut p options stream payload headers fresh now (aws c s) (aws false s') shut =
      absurd shut.0
  publish-Shut p options stream payload headers fresh now (aws c s) (in_process bus') shut =
      absurd shut
  publish-Shut p options stream payload headers fresh now (in_process bus) (aws c s') shut =
      absurd shut
  publish-Shut p options stream payload headers fresh now (in_process bus) (in_process bus') shut =
      let put = λ (t : Text).
        put-closed p.envelope options p.partition_key stream headers payload fresh now bus' t shut.0
          shut.1 in
      ((put []).0, (shut.0, λ t. (put t).1))

  subscribe-Shut :
      (mounted : KinesisStream) (l : Link S h) (b : ConnectedBroker S h)
      → Shut l b.link
      → IsErr (answer_of (subscribe_stream h control mounted b).0)
        × Shut l (subscribe_stream h control mounted b).1.link
  unfolding subscribe_stream split claim
  subscribe-Shut mounted l b shut = elim (Result-cases (validate (split mounted).0)) [
    | inr (e, refused) ↦ rw (refused, subscribe_stream) ((failed e, refl), shut)
    | inl (_, valid) ↦ elim (Bool-cases (contains mounted.stream b.streams)) [
      | inl taken ↦
          rw (valid, subscribe_stream)
            (rw (taken, claim) ((failed (already_subscribed mounted.stream), refl), shut))
      | inr free ↦
          let (refuses, still) = open-Shut (split mounted).0 l b.link shut in
          rw (valid, subscribe_stream)
            (rw (free, claim) (rw refuses ((failed not_connected, refl), still)))
    ]
  ]

  step-Shut :
      (e : Event h) (l : Link S h) (b : ConnectedBroker S h)
      → Shut l b.link
      → IsErr (step e b).0 × Shut l (step e b).1.link
  unfolding step
  step-Shut (publishes p options stream payload headers fresh now) l b shut =
      let (refuses, still) =
        publish-Shut p options stream payload headers fresh now l b.link shut in
      ((failed not_connected, refuses), still)
  step-Shut (subscribes mounted) l b shut = subscribe-Shut mounted l b shut

  from-Shut :
      (es : List (Event h)) (l : Link S h) (b : ConnectedBroker S h)
      → Shut l b.link
      → All IsErr (run es b).0 × Shut l (run es b).1.link
  unfolding run
  from-Shut [] l b shut = (tt, shut)
  from-Shut (e ∷ es) l b shut =
      let (refuses, still) = step-Shut e l b shut in
      let (rest, last) = from-Shut es l (step e b).1 still in ((refuses, rest), last)

  -- Once a connected broker is shut down, over either link: whatever its publishers publish and whatever
  -- subscriptions are asked for after that, every one of them answers an error, the service's state is
  -- as it was, and the transport of the harness retains no record.
  pub run-Shut :
      (es : List (Event h)) (b : ConnectedBroker S h)
      → All IsErr (run es (record b { link = shutdown h b.link })).0
        × Shut b.link (run es (record b { link = shutdown h b.link })).1.link
  run-Shut es b = from-Shut es b.link (record b { link = shutdown h b.link }) (shutdown-Shut b.link)
