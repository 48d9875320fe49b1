-- ===== src/Subscriber/Reader/Aggregated.antt =====
-- The records of the crate's own publishers that a reader takes for aggregated ones.
use ruststream_kinesis.Prelude.{
  ℕ, ◌==◌, ◌<◌, ◌≡◌, ap, ◌∙◌, inl, inr, Bool, true, false, not, ◌&&◌, List, [], ◌∷◌, ◌++◌, Text,
  str_eq, if◌then◌else◌, Result, ok, err, Bool-cases, arith,
}
use ruststream_kinesis.Error.{EnvelopeError, aggregated_record}
use ruststream_kinesis.Envelope.Headers.{Header}
use ruststream_kinesis.Envelope.Rsk.{rsk, seal, magic, looks_enveloped, first_chunk}
use ruststream_kinesis.Envelope.Rsk.Wire.{block_len, u32_mod, field_len, encode_fields}
use ruststream_kinesis.Envelope.Rsk.Fields.{AreTexts}
use ruststream_kinesis.Envelope.Rsk.RoundTrip.{seal_opens}
use ruststream_kinesis.Message.{open_message}
use ruststream_kinesis.Message
use ruststream_kinesis.Subscriber.{live_item}
use ruststream_kinesis.Subscriber.Service.{Record}
use ruststream_kinesis.Subscriber.Reader.{Post, is_aggregated}
use ruststream_kinesis.Subscriber.Reader.Items.{items, delivery}

looks_enveloped-plain :
    (payload : Text) → looks_enveloped payload ≡ true → is_aggregated payload ≡ false
unfolding looks_enveloped first_chunk is_aggregated str_eq
looks_enveloped-plain [] e = ground arith
looks_enveloped-plain (a ∷ []) e = ground arith
looks_enveloped-plain (a ∷ b ∷ []) e = ground arith
looks_enveloped-plain (a ∷ b ∷ c ∷ []) e = ground arith
looks_enveloped-plain (a ∷ b ∷ c ∷ d ∷ rest) e = ground arith

magic-plain : (rest : Text) → is_aggregated (magic ++ rest) ≡ false
unfolding is_aggregated str_eq
magic-plain rest = ground arith

either_content :
    (bare : Bool) (payload enveloped content : Text)
    → ◌≡◌ {A = Result EnvelopeError Text} (if bare then ok payload else ok enveloped) (ok content)
    → content ≡ (if bare then payload else enveloped)
either_content true payload enveloped content e = cc
either_content false payload enveloped content e = cc

-- What is sealed looks aggregated just when it is a payload that does, with no header before it.
pub seal-aggregated :
    (headers : List Header) (payload content : Text)
    → seal headers payload ≡ ok content
    → is_aggregated content ≡ (block_len headers == 0 && is_aggregated payload)
unfolding seal
seal-aggregated headers payload content e =
    let enveloped : Text =
      magic ++ (field_len (block_len headers) ++ (encode_fields headers ++ payload)) in
    let bare : Bool = block_len headers == 0 && not (looks_enveloped payload) in
    let same : content ≡ (if bare then payload else enveloped) =
      either_content bare payload enveloped content e in
    let past : is_aggregated enveloped ≡ false = magic-plain _ in
    elim (Bool-cases (looks_enveloped payload)) [
      | inl looks ↦
          let plain = looks_enveloped-plain payload looks in
          ap is_aggregated same ∙ ground (arith, past, plain, looks)
      | inr looks ↦ ap is_aggregated same ∙ ground (arith, past, looks)
    ]

module _ (post : Post) (epoch place n : ℕ) (headers : List Header) (payload : Text)
    (rec : Record) where
  -- A record sealed in the default envelope, whose header names are texts and whose header block is shorter
  -- than 2^32 bytes, comes to the subscription as an aggregated one, which no handler gets, just when
  -- it carries no header and its payload begins with the four bytes that an aggregated record begins
  -- with, and has more. Any other is delivered, and its handler reads the payload.
  pub items-sealed :
      AreTexts headers
      → block_len headers < u32_mod
      → rsk.seal headers payload ≡ ok rec.content
      → (items post epoch place n (rec ∷ []) ≡ (
          if block_len headers == 0 && is_aggregated payload
          then live_item epoch post.gate (err (aggregated_record post.lease.shard)) ∷ []
          else live_item epoch post.gate (ok (delivery post epoch place n rec)) ∷ []))
        × (Message.payload (open_message rsk (delivery post epoch place n rec)) ≡ payload)
  unfolding items Message.payload open_message
  items-sealed texts fits sealed = (
    ap
        (λ refuses.
          if refuses
          then live_item epoch post.gate (err (aggregated_record post.lease.shard)) ∷ []
          else live_item epoch post.gate (ok (delivery post epoch place n rec)) ∷ [])
        (seal-aggregated headers payload rec.content sealed),
    (seal_opens headers payload rec.content texts fits sealed).0,
  )
