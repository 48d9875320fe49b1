-- ===== src/InProcess/Streams/InOrder.antt =====
-- What a subscription of the in-process transport yields, beside what is published to its stream.
use ruststream_kinesis.Prelude.{
  ℕ, ◌≡◌, refl, ap, subst, ◌∙◌, inl, inr, true, false, Option, List, [], ◌∷◌, ◌++◌, Text, str_eq,
  str_eq_iff, str_eq_refl, if◌then◌else◌, length, Result, ok, err, sym, Bool-cases, Result-cases,
  arith,
}
use ruststream_kinesis.Error.{KinesisError}
use ruststream_kinesis.Envelope.{Envelope}
use ruststream_kinesis.Envelope.Headers.{HeaderMap, written}
use ruststream_kinesis.Message.{Received}
use ruststream_kinesis.Publisher.{KinesisPublishOptions, resolve_partition_key}
use ruststream_kinesis.InProcess.Log
use ruststream_kinesis.InProcess.Log.{
  Record, Delivery, Feed, deliveries, deliver, receive, apply_pending, append,
}
use ruststream_kinesis.InProcess.Bus
use ruststream_kinesis.InProcess.Bus.{ReadBack, read_back, write, append_checked, check_record}
use ruststream_kinesis.InProcess.Streams.{
  Transport, put, poll, subscribe, published, report, reports,
}
use ruststream_kinesis.InProcess.Streams.Follows.{
  answers, yielded, Reading, Follows, stays, then-Follows, append-Follows, poll-Follows,
}

-- A publish, with everything that a publisher puts into it.
pub record Publish (h : HeaderMap) : Type 0 where
  pub envelope : Envelope
  pub options : Option KinesisPublishOptions
  pub from_policy : Option Text
  pub stream : Text
  pub headers : h.Map
  pub payload : Text
  pub fresh : Text
  pub now : ℕ

-- A publish to any stream, or a poll of any stream's subscription.
pub data Event (h : HeaderMap) : Type 0 where
  puts : Publish h → Event h
  polls : Text → Event h

module _ (h : HeaderMap) (stream : Text) where
  abbrev of_stream :
      Text → Option (Result KinesisError Received) → List (Result KinesisError Received)
  of_stream other answer = if str_eq stream other then yielded answer else []

  -- What the stream's own polls yield, over a run of publishes and polls.
  unfoldable pub step : Event h → Transport h → List (Result KinesisError Received) × Transport h
  step (puts p) b = (
    [],
    (put h p.envelope p.options p.from_policy p.stream p.headers p.payload p.fresh p.now b).1,
  )
  step (polls other) b = let (answer, b') = poll h other b in (of_stream other answer, b')

  unfoldable pub run :
      List (Event h) → Transport h → List (Result KinesisError Received) × Transport h
  run [] b = ([], b)
  run (e ∷ es) b = let (ys, b1) = step e b in let (zs, b2) = run es b1 in (ys ++ zs, b2)

  -- The record that an accepted publish to the stream leaves: the data that its envelope seals, where
  -- that passes the check of a record.
  unfoldable pub accepted : Publish h → List (Record (ReadBack h))
  accepted p =
      let key = resolve_partition_key h p.options p.headers p.from_policy p.fresh in
      elim (p.envelope.seal (written (h.iter p.headers)) p.payload) [
        | err x ↦ []
        | ok content ↦ elim (check_record stream key (length content)) [
          | err reason ↦ []
          | ok _ ↦
              record {
                partition_key = key;
                content = content;
                read_back = read_back h p.envelope content;
                at_millis = p.now;
              }
              ∷ []
        ]
      ]

  -- The records that a run's publishes to the stream leave, in their order.
  unfoldable pub all_accepted : List (Event h) → List (Record (ReadBack h))
  unfolding accepted
  all_accepted [] = []
  all_accepted (puts p ∷ es) =
      let rest = all_accepted es in
      let own = accepted p in if str_eq stream p.stream then own ++ rest else rest
  all_accepted (polls other ∷ es) = all_accepted es

  put-Follows :
      (p : Publish h) (f : Feed (ReadBack h))
      → Reading stream f
      → Follows stream f
          (accepted p)
          []
          (Bus.put h p.envelope true stream
            (resolve_partition_key h p.options p.headers p.from_policy p.fresh)
            p.headers
            p.payload
            p.now
            f).1
  unfolding Bus.put write append_checked accepted
  put-Follows p f reads =
      let key = resolve_partition_key h p.options p.headers p.from_policy p.fresh in
      elim (Result-cases (p.envelope.seal (written (h.iter p.headers)) p.payload)) [
        | inr (x, unsealed) ↦ rw (unsealed, accepted, Bus.put) (stays stream f reads)
        | inl (content, sealed) ↦ elim (Result-cases (check_record stream key (length content))) [
          | inr (reason, refused) ↦
              rw (sealed, accepted, Bus.put)
                (rw (refused, accepted, append_checked) (stays stream f reads))
          | inl (_, passed) ↦
              rw (sealed, accepted, Bus.put)
                (rw (passed, accepted, append_checked)
                  (append-Follows stream key content (read_back h p.envelope content) p.now f
                    reads))
        ]
      ]

  -- What one event publishes to the stream.
  abbrev fresh_of : Event h → List (Record (ReadBack h))
  fresh_of (puts p) = if str_eq stream p.stream then accepted p else []
  fresh_of (polls other) = []

  all_accepted-cons :
      (e : Event h) (es : List (Event h)) → all_accepted (e ∷ es) ≡ fresh_of e ++ all_accepted es
  unfolding all_accepted
  all_accepted-cons (puts p) es = elim (Bool-cases (str_eq stream p.stream)) [
    | inl here ↦ rw here refl
    | inr apart ↦ rw apart refl
  ]
  all_accepted-cons (polls other) es = refl

  event-Follows :
      (e : Event h) (b : Transport h)
      → b.is_closed ≡ false
      → Reading stream (b.feeds stream)
      → Follows stream (b.feeds stream) (fresh_of e) (step e b).0 ((step e b).1.feeds stream)
  unfolding step put poll
  event-Follows (puts p) b alive reads = elim (Bool-cases (str_eq stream p.stream)) [
    | inr apart ↦ rw (apart, step) (stays stream (b.feeds stream) reads)
    | inl here ↦
        let key = resolve_partition_key h p.options p.headers p.from_policy p.fresh in
        rw (here, step)
          (rw alive (
            subst
              (λ name.
                Follows stream (b.feeds stream) (accepted p) []
                  (Bus.put h p.envelope true name key p.headers p.payload p.now (b.feeds name)).1)
              ((str_eq_iff stream p.stream).0 here) (put-Follows p (b.feeds stream) reads)))
  ]
  event-Follows (polls other) b alive reads = elim (Bool-cases (str_eq stream other)) [
    | inr apart ↦ rw (apart, step) (stays stream (b.feeds stream) reads)
    | inl here ↦
        rw (here, step)
          (subst
            (λ name.
              Follows stream (b.feeds stream) [] (yielded (Log.poll name (b.feeds name)).0)
                (Log.poll name (b.feeds name)).1)
            ((str_eq_iff stream other).0 here) (poll-Follows stream (b.feeds stream) reads))
  ]

  is_closed-step : (e : Event h) (b : Transport h) → (step e b).1.is_closed ≡ b.is_closed
  unfolding step put poll
  is_closed-step (puts p) b = refl
  is_closed-step (polls other) b = refl

  run-Follows :
      (es : List (Event h)) (b : Transport h)
      → b.is_closed ≡ false
      → Reading stream (b.feeds stream)
      → Follows stream (b.feeds stream) (all_accepted es) (run es b).0 ((run es b).1.feeds stream)
  unfolding run all_accepted
  run-Follows [] b alive reads = stays stream (b.feeds stream) reads
  run-Follows (e ∷ es) b alive reads =
      let first = event-Follows e b alive reads in
      let b1 = (step e b).1 in
      subst
        (λ xs.
          Follows stream (b.feeds stream) xs (run (e ∷ es) b).0 ((run (e ∷ es) b).1.feeds stream))
        (sym (all_accepted-cons e es))
        (then-Follows stream (b.feeds stream) (b1.feeds stream) ((run es b1).1.feeds stream)
          (fresh_of e) (all_accepted es) (step e b).0 (run es b1).0 first
          (run-Follows es b1 (is_closed-step e b ∙ alive) first.2))

  reports-append :
      (xs ys : List (Record (ReadBack h))) → reports h (xs ++ ys) ≡ reports h xs ++ reports h ys
  reports-append [] ys = refl
  reports-append (x ∷ xs) ys = ap (λ rest. report h x ∷ rest) (reports-append xs ys)

  subscribe-opened :
      (b : Transport h)
      → (subscribe h stream b).0 ≡ ok tt
      → ((subscribe h stream b).1.feeds stream ≡ Log.subscribe (b.feeds stream))
        × ((subscribe h stream b).1.is_closed ≡ false)
  unfolding subscribe
  subscribe-opened b opened = elim (Bool-cases b.is_closed) [
    | inl closed ↦ ground (arith, opened, closed)
    | inr alive ↦ elim (Result-cases (Bus.check_stream stream)) [
      | inr (reason, refused) ↦ ground (arith, opened, alive, refused)
      | inl (_, named) ↦
          rw (alive, subscribe) (rw (named, subscribe) (rw (str_eq_refl stream) (refl, alive)))
    ]
  ]

  -- A subscription that was opened yields, over any run of publishes and of polls on any streams, the
  -- records of the publishes to its stream that seal their data and pass the check of a record, each
  -- once and in the order of the publishes, up to those that still wait in its queue; and the harness
  -- reports exactly these records as published since, under their keys and with their data. Publishes
  -- that are refused and those to other streams change nothing of it.
  pub run-in_order :
      (es : List (Event h)) (b : Transport h)
      → (subscribe h stream b).0 ≡ ok tt
      → let b1 = (subscribe h stream b).1 in
        let (ys, b2) = run es b1 in
        (published h stream b2 ≡ published h stream b ++ reports h (all_accepted es))
        × (ys ++ answers stream (b2.feeds stream).queue
            ≡ answers stream (deliveries (length (b.feeds stream).records) (all_accepted es)))
  unfolding published answers Log.subscribe
  run-in_order es b opened =
      let b1 = (subscribe h stream b).1 in
      let (same, alive) = subscribe-opened b opened in
      let since = all_accepted es in
      let (stored, read, _) =
        run-Follows es b1 alive (ap (λ f. f.subscribed) same, ap (λ f. f.pending) same) in
      let from : (b1.feeds stream).records ≡ (b.feeds stream).records = ap (λ f. f.records) same in
      (
        ap (reports h) (stored ∙ ap (λ l. l ++ since) from)
            ∙ reports-append (b.feeds stream).records since,
        read
            ∙ ap
                (λ q.
                  answers stream q
                  ++ answers stream (deliveries (length (b1.feeds stream).records) since))
                (ap (λ f. f.queue) same)
            ∙ ap (λ l. answers stream (deliveries (length l) since)) from,
      )
