-- ===== src/Link/Alike.antt =====
-- A publish and a delivery over the service beside the same over the transport of the harness.
use ruststream_kinesis.Prelude.{
  ℕ, ◌≡◌, ◌⊎◌, refl, ap, inl, inr, Bool, false, not, if◌then◌else◌, Option, none, some, List, [],
  ◌∷◌, ◌++◌, Text, str_eq_refl, ◌∙◌, length, Result, ok, err, map_err, Result-cases,
}
use ruststream_kinesis.Error.{EnvelopeError, envelope}
use ruststream_kinesis.Envelope.Headers.{HeaderMap, written}
use ruststream_kinesis.Publisher.{
  KinesisPublishOptions, Put, resolve_partition_key, publish_record, put_sealed, sent,
}
use ruststream_kinesis.InProcess.Log.{Record, Feed, append}
use ruststream_kinesis.InProcess.Bus.{
  ReadBack, PutError, Reason, failed, refuses, check_record, write, read_back, append_checked,
}
use ruststream_kinesis.InProcess.Bus
use ruststream_kinesis.InProcess.Bus.ReadsBack.{append-records}
use ruststream_kinesis.InProcess.Streams.{Transport}
use ruststream_kinesis.InProcess.Streams
use ruststream_kinesis.Link.{Link, aws, in_process, LinkPublisher, publish}

-- The records that a link's transport retains of a stream.
unfoldable pub retained :
    {S : Type 0} {h : HeaderMap} → Text → Option (Link S h) → List (Record (ReadBack h))
retained stream none = []
retained stream (some (aws closed s)) = []
retained stream (some (in_process bus)) = (bus.feeds stream).records

module _ {S : Type 0} (put_record : Put S) (h : HeaderMap) (p : LinkPublisher)
    (options : Option KinesisPublishOptions) (stream payload : Text) (headers : h.Map)
    (fresh : Text) (now : ℕ) (bus : Transport h) (s : S) where
  abbrev pub key : Text
  key = resolve_partition_key h options headers p.partition_key fresh

  abbrev pub on_service : Result PutError Unit × Option (Link S h)
  on_service = publish h put_record p options stream payload headers fresh now (some (aws false s))

  abbrev pub on_bus : Result PutError Unit × Option (Link S h)
  on_bus = publish h put_record p options stream payload headers fresh now (some (in_process bus))

  -- The record of a call of `PutRecord`, as the bus keeps it.
  abbrev pub as_kept : Text → Record (ReadBack h)
  as_kept content = record {
    partition_key = key;
    content = content;
    read_back = read_back h p.envelope content;
    at_millis = now;
  }

  -- The call made of the service, beside what the bus does with the same record.
  abbrev pub Alike : Type 0
  Alike =
      ((x : EnvelopeError) × (on_service ≡ (err (failed (envelope stream x)), some (aws false s)))
        × (on_bus.0 ≡ err (failed (envelope stream x)))
        × (retained stream on_bus.1 ≡ (bus.feeds stream).records))
      ⊎ ((content : Text) × (on_service ≡ (
        map_err failed (sent stream (put_record stream key content s).0),
        some (aws false (put_record stream key content s).1),
      ))
          × (((reason : Reason) × (check_record stream key (length content) ≡ err reason)
                × (on_bus.0 ≡ err (refuses stream reason))
                × (retained stream on_bus.1 ≡ (bus.feeds stream).records))
              ⊎ ((on_bus.0 ≡ ok tt)
                  × (retained stream on_bus.1
                      ≡ (bus.feeds stream).records ++ as_kept content ∷ []))))

  abbrev feed : Feed (ReadBack h)
  feed = bus.feeds stream

  abbrev put_when : Bool → Result PutError Unit × Feed (ReadBack h)
  put_when closed = Bus.put h p.envelope (not closed) stream key headers payload now feed

  abbrev on_feed : Result PutError Unit × Feed (ReadBack h)
  on_feed = put_when false

  service_lem :
      (r : Result EnvelopeError Text)
      → p.envelope.seal (written (h.iter headers)) payload ≡ r
      → on_service ≡ (
        map_err failed (put_sealed put_record stream key r s).0,
        some (aws false (put_sealed put_record stream key r s).1),
      )
  unfolding publish publish_record
  service_lem r e = rw e refl

  bus_lem :
      bus.is_closed ≡ false
      → (on_bus.0 ≡ on_feed.0) × (retained stream on_bus.1 ≡ on_feed.1.records)
  unfolding publish Streams.put retained
  bus_lem alive = (
    ap (λ closed. (put_when closed).0) alive,
    ap (λ same. (if same then (put_when bus.is_closed).1 else feed).records) (str_eq_refl stream)
        ∙ ap (λ closed. (put_when closed).1.records) alive,
  )

  unsealed_lem :
      (x : EnvelopeError)
      → p.envelope.seal (written (h.iter headers)) payload ≡ err x
      → on_feed ≡ (err (failed (envelope stream x)), feed)
  unfolding Bus.put write
  unsealed_lem x e = rw (e, Bus.put) refl

  sealed_lem :
      (content : Text)
      → p.envelope.seal (written (h.iter headers)) payload ≡ ok content
      → on_feed ≡ append_checked stream key (content, read_back h p.envelope content) now feed
  unfolding Bus.put write
  sealed_lem content e = rw (e, Bus.put) refl

  -- A publish while neither the core nor the transport is closed, over the one and over the other. Either
  -- the envelope refuses the record, both answer its error, no call is made of the service and no
  -- record is kept. Or there is one record, under one key, with which the service is called, and its
  -- answer is the publish's; and with the same record and key the transport refuses what its check
  -- refuses, keeping what it had, or succeeds with that record put at the end of the stream's log.
  pub publish-Alike : bus.is_closed ≡ false → Alike
  unfolding put_sealed append_checked
  publish-Alike alive =
      let (answers, keeps) = bus_lem alive in
      elim (Result-cases (p.envelope.seal (written (h.iter headers)) payload)) [
        | inr (x, unsealed) ↦
            let e = unsealed_lem x unsealed in
            inl (
              x,
              service_lem (err x) unsealed,
              answers ∙ ap (λ r. r.0) e,
              keeps ∙ ap (λ r. r.1.records) e,
            )
        | inl (content, sealed) ↦
            let e = sealed_lem content sealed in
            inr (
              content,
              service_lem (ok content) sealed,
              elim (Result-cases (check_record stream key (length content))) [
                | inr (reason, refusal) ↦
                    let r : append_checked stream key (content, read_back h p.envelope content) now
                          feed
                        ≡ (err (refuses stream reason), feed) =
                      rw (refusal, append_checked) refl in
                    inl (
                      reason,
                      refusal,
                      answers ∙ ap (λ r. r.0) (e ∙ r),
                      keeps ∙ ap (λ r. r.1.records) (e ∙ r),
                    )
                | inl (_, accepted) ↦
                    let back = read_back h p.envelope content in
                    let r : append_checked stream key (content, back) now feed
                        ≡ (ok tt, append key content back now feed) =
                      rw (accepted, append_checked) refl in
                    inr (
                      answers ∙ ap (λ r. r.0) (e ∙ r),
                      keeps
                          ∙ ap (λ r. r.1.records) (e ∙ r)
                          ∙ append-records key content back now feed,
                    )
              ],
            )
      ]
