-- ===== src/Tests/Envelopes.antt =====
-- The envelopes on the records of their own tests.
use ruststream_kinesis.Prelude.{
  str_eq, ◌≡◌, refl, List, [], ◌∷◌, ◌++◌, Text, codes, length, ok, arith,
}
use ruststream_kinesis.Envelope.Payload.{fit, payload}
use ruststream_kinesis.Envelope.Headers.{Header, find, written, is_native}
use ruststream_kinesis.Envelope.Headers.Assoc.{assoc}
use ruststream_kinesis.Envelope.Utf8.{is_utf8}
use ruststream_kinesis.Envelope.Rsk.{rsk, seal, body, read_headers, looks_enveloped}
use ruststream_kinesis.Envelope.Rsk.Wire.{block_len, encode_fields, field_len}
use ruststream_kinesis.Envelope.Rsk.TextBlock.{decode_text}
use ruststream_kinesis.Envelope.Rsk.RoundTrip.{seal_opens}
use ruststream_kinesis.Message.{Received, open_message, in_process, shard}
use ruststream_kinesis.Message
use ruststream_kinesis.Message.Delivery.{delivered_as_published, expected}

abbrev tenant : List Header
tenant = (codes "x-tenant", codes "acme") ∷ []

abbrev sealed : Text
sealed =
    codes "RSK2"
    ++ (0 ∷ 0 ∷ 0 ∷ 20 ∷ 0 ∷ 0 ∷ 0 ∷ 8 ∷ codes "x-tenant" ++ (0 ∷ 0 ∷ 0 ∷ 4 ∷ codes "acmeraw"))

sealed_lem : seal tenant (codes "raw") ≡ ok sealed
unfolding seal looks_enveloped block_len encode_fields field_len
sealed_lem = refl

seal_opens_example :
    (payload (fit (body sealed) (length sealed)) sealed ≡ codes "raw")
    × (read_headers sealed (fit (body sealed) (length sealed)) ≡ ok tenant)
unfolding is_utf8 block_len
seal_opens_example = seal_opens tenant (codes "raw") sealed (refl, tt) (omega arith) sealed_lem

-- The text envelope of earlier releases reads back with its headers.
text_block : decode_text (codes "x-tenant: acme\n") ≡ tenant
unfolding decode_text
text_block = refl

abbrev received : Received
received = record {
  content = sealed;
  partition_key = codes "k";
  sequence = codes "49";
  settlement = in_process (codes "orders") (codes "shardId-0");
}

abbrev published : assoc.Map
unfolding assoc find str_eq
published = ((codes "partition-key", codes "user-42") ∷ tenant, (refl, (refl, tt)))

delivered_as_published_example :
    (Message.payload (open_message rsk received) ≡ codes "raw")
    × (assoc.get (codes "x-tenant") (Message.read_headers assoc rsk (open_message rsk received))
        ≡ expected assoc published received (codes "x-tenant"))
unfolding assoc written is_native find is_utf8 block_len published
delivered_as_published_example =
    delivered_as_published assoc published (codes "raw") received (codes "x-tenant") (refl, tt)
      (omega arith) sealed_lem
