-- ===== src/Broker/Connecting/Clones.antt =====
-- Two clones of a broker of broker.rs that both connect, and the streams that each of them subscribes to.
use ruststream_kinesis.Prelude.{
  ℕ, ◌≡◌, refl, ap, ◌∙◌, Result, Bool, true, false, Option, none, some, [], ◌∷◌, Text, ok, err,
  str_eq_refl, arith,
}
use ruststream_kinesis.Error.{KinesisError, already_subscribed}
use ruststream_kinesis.Claim.{ReadStreams, contains, claim}
use ruststream_kinesis.Envelope.{Envelope}
use ruststream_kinesis.Envelope.Choose.{choose}
use ruststream_kinesis.Stream.{KinesisStream, split, validate}
use ruststream_kinesis.Broker.{Control, Opened, Connected, prepare, open_stream, subscribe_stream}
use ruststream_kinesis.Broker.Connecting.{
  KinesisBroker, Core, ConnectedBroker, Cells, connect, core_of,
}
use ruststream_kinesis.Broker.Connecting.Shared.{connect-filled, fill-same}

-- A connected broker as `subscribe_stream` finds it: its core is looked up in the cell.
unfoldable pub on : {C L S : Type 0} → ConnectedBroker → Cells C L → S → Connected S
on connected cells s = record {
  streams = connected.streams;
  envelope = connected.envelope;
  closed = elim (cells connected.cell) [ none ↦ true | some core ↦ core.closed ];
  kinesis = s;
}

module _ {S : Type 0} (control : Control S) (mounted : KinesisStream) where
  -- What is asked of the service for the descriptor.
  abbrev pub asked : S → Result KinesisError Unit × S
  asked s = prepare control mounted.create_shards mounted.stream s

  abbrev pub opened_in : Envelope → Opened
  opened_in e = record { descriptor = (split mounted).0; envelope = choose mounted.envelope e }

  -- A broker over the service that reads the streams.
  abbrev reading : ReadStreams → Envelope → S → Connected S
  reading streams e s = record { streams = streams; envelope = e; closed = false; kinesis = s }

  opens :
      (e : Envelope) (s : S)
      → validate (split mounted).0 ≡ ok tt
      → (asked s).0 ≡ ok tt
      → subscribe_stream control mounted (reading [] e s)
        ≡ (ok (opened_in e), reading (mounted.stream ∷ []) e (asked s).1)
  unfolding subscribe_stream split claim contains open_stream
  opens e s valid found = rw (valid, subscribe_stream) (rw (found, subscribe_stream) refl)

  refuses :
      (e : Envelope) (s : S)
      → validate (split mounted).0 ≡ ok tt
      → subscribe_stream control mounted (reading (mounted.stream ∷ []) e s)
        ≡ (err (already_subscribed mounted.stream), reading (mounted.stream ∷ []) e s)
  unfolding subscribe_stream split claim contains
  refuses e s valid =
      rw (valid, subscribe_stream) (rw (str_eq_refl mounted.stream, subscribe_stream) refl)

  on_filled :
      {C L : Type 0} (connected : ConnectedBroker) (core : Core C L) (cells : Cells C L) (s : S)
      → connected.streams ≡ []
      → core.closed ≡ false
      → cells connected.cell ≡ some core
      → on connected cells s ≡ reading [] connected.envelope s
  unfolding on
  on_filled connected core cells s unread alive filled =
      rw (unread, on) (rw (filled, on) (rw alive refl))

  module _ {C L : Type 0} (load : Option Text → Option Text → Bool → C)
      (b clone : KinesisBroker C L) (runtime other : ℕ) (memory fresh : L) (drawn next : Text)
      (cells : Cells C L) (s : S) where
    abbrev pub first : ConnectedBroker × Cells C L
    first = connect load b runtime memory drawn cells

    abbrev pub second : ConnectedBroker × Cells C L
    second = connect load clone other fresh next first.1

    -- What the first broker's subscription leaves, and what the clone's then comes to.
    abbrev pub by_first : Result KinesisError Opened × Connected S
    by_first = subscribe_stream control mounted (on first.0 second.1 s)

    abbrev pub by_second : Result KinesisError Opened × Connected S
    by_second = subscribe_stream control mounted (on second.0 second.1 by_first.1.kinesis)

    -- A broker and its clone that both connect are on one core, with one lease store and one owner id; and
    -- on a service that answers for the stream of a valid descriptor, each opens a subscription to it:
    -- the broker refuses a second one of its own, and its clone does not.
    pub connect-clones :
        clone.cell ≡ b.cell
        → cells b.cell ≡ none
        → validate (split mounted).0 ≡ ok tt
        → (asked s).0 ≡ ok tt
        → (asked (asked s).1).0 ≡ ok tt
        → (second.1 first.0.cell ≡ some (core_of load b runtime memory drawn))
          × (second.1 second.0.cell ≡ some (core_of load b runtime memory drawn))
          × (by_first.0 ≡ ok (opened_in b.envelope))
          × (by_second.0 ≡ ok (opened_in clone.envelope))
          × ((subscribe_stream control mounted by_first.1).0
              ≡ err (already_subscribed mounted.stream))
    unfolding connect core_of
    connect-clones same free valid found again =
        let core = core_of load b runtime memory drawn in
        let one : first.1 b.cell ≡ some core =
          rw (free, connect) (fill-same load b.cell b.cell core cells (ground arith)) in
        let two : second.1 b.cell ≡ some core =
          connect-filled load clone other fresh next b.cell core first.1 one in
        let here : second.1 clone.cell ≡ some core = ap second.1 same ∙ two in
        let o1 : by_first
            ≡ (ok (opened_in b.envelope), reading (mounted.stream ∷ []) b.envelope (asked s).1) =
          ap (subscribe_stream control mounted) (on_filled first.0 core second.1 s refl refl two)
          ∙ opens b.envelope s valid found in
        let o2 : by_second ≡ (
          ok (opened_in clone.envelope),
          reading (mounted.stream ∷ []) clone.envelope (asked (asked s).1).1,
        ) =
          ap (λ r. subscribe_stream control mounted (on second.0 second.1 r.1.kinesis)) o1
          ∙ ap (subscribe_stream control mounted)
              (on_filled second.0 core second.1 (asked s).1 refl refl here)
          ∙ opens clone.envelope (asked s).1 valid again in
        (
          two,
          here,
          ap (λ r. r.0) o1,
          ap (λ r. r.0) o2,
          ap (λ r. (subscribe_stream control mounted r.1).0) o1
              ∙ ap (λ r. r.0) (refuses b.envelope (asked s).1 valid),
        )
