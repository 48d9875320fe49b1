-- ===== src/Publisher/Delivers.antt =====
-- A publish that succeeded, read back by a subscription.
use ruststream_kinesis.Prelude.{
  ◌<◌, ◌≡◌, refl, sym, ap, ◌∙◌, Option, Text, ok, Bool-cases, Result-cases, inl, inr, arith,
}
use ruststream_kinesis.Envelope.Headers.{HeaderMap, written}
use ruststream_kinesis.Envelope.Rsk.{rsk}
use ruststream_kinesis.Envelope.Rsk.Wire.{u32_mod, block_len}
use ruststream_kinesis.Envelope.Rsk.Fields.{AreTexts}
use ruststream_kinesis.Message.{Received, open_message, read_headers}
use ruststream_kinesis.Message
use ruststream_kinesis.Message.Delivery.{delivered_as_published, expected}
use ruststream_kinesis.Publisher.{
  KinesisPublishOptions, KinesisPublisher, Put, resolve_partition_key, put_sealed, publish_record,
}

module _ {V : Type 0} (put_record : Put V) (h : HeaderMap) (publisher : KinesisPublisher)
    (options : Option KinesisPublishOptions) (stream payload : Text) (headers : h.Map)
    (fresh : Text) (v : V) where
  abbrev key : Text
  key = resolve_partition_key h options headers publisher.partition_key fresh

  sealed_lem :
      (publish_record put_record h publisher options stream payload headers fresh v).0 ≡ ok tt
      → (content : Text) × (publisher.envelope.seal (written (h.iter headers)) payload ≡ ok content)
        × ((publish_record put_record h publisher options stream payload headers fresh v).1
            ≡ (put_record stream key content v).1)
  unfolding publish_record put_sealed
  sealed_lem e = elim (Bool-cases publisher.connected) [
    | inr missing ↦ ground (arith, e)
    | inl linked ↦ elim (Bool-cases publisher.is_open) [
      | inr closed ↦ ground (arith, e)
      | inl alive ↦
          elim (Result-cases (publisher.envelope.seal (written (h.iter headers)) payload)) [
            | inl (content, sealed) ↦ (
              content,
              sealed,
              rw (linked, publish_record)
                  (rw (alive, publish_record) (rw (sealed, publish_record) refl)),
            )
            | inr (x, refused) ↦ ground (arith, e, refused)
          ]
    ]
  ]

-- A publish in the default envelope that succeeded, whose header names are texts and whose header block
-- is shorter than 2^32 bytes, leaves the service as a `PutRecord` call under the resolved partition
-- key does; and the record of that call, however it is delivered, opens to the payload and, name by
-- name, to the published headers, but for the three names of the record's own fields.
pub publish-delivers :
    {V : Type 0} (put_record : Put V) (h : HeaderMap) (publisher : KinesisPublisher)
    (options : Option KinesisPublishOptions) (stream payload : Text) (headers : h.Map)
    (fresh : Text) (v : V)
    → publisher.envelope ≡ rsk
    → AreTexts (written (h.iter headers))
    → block_len (written (h.iter headers)) < u32_mod
    → (publish_record put_record h publisher options stream payload headers fresh v).0 ≡ ok tt
    → (content : Text) × ((publish_record put_record h publisher options stream payload headers
          fresh v).1
        ≡ (put_record stream
            (resolve_partition_key h options headers publisher.partition_key fresh)
            content
            v).1)
      × ((received : Received) (name : Text)
          → received.content ≡ content
          → (Message.payload (open_message rsk received) ≡ payload)
            × (h.get name (read_headers h rsk (open_message rsk received))
                ≡ expected h headers received name))
publish-delivers put_record h publisher options stream payload headers fresh v default texts fits
      e =
    let (content, sealed, put) =
      sealed_lem put_record h publisher options stream payload headers fresh v e in
    (
      content,
      put,
      λ received name same. delivered_as_published h headers payload received name texts fits (
          ap (λ x. x.seal (written (h.iter headers)) payload) (sym default)
          ∙ sealed
          ∙ ap ok (sym same)),
    )
