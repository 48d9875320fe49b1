-- ===== src/Message/Delivery.antt =====
-- What a handler reads of a record that was published in the default envelope.
use ruststream_kinesis.Prelude.{
  ◌<◌, ◌≡◌, Option, some, List, Text, str_eq, str_eq_comm, ◌∙◌, if◌then◌else◌, ok, arith,
}
use ruststream_kinesis.Envelope.{Envelope}
use ruststream_kinesis.Envelope.Framed
use ruststream_kinesis.Envelope.Framed.{FrameCodec, framed, ReadsBack, framed-opens}
use ruststream_kinesis.Envelope.Headers.{
  HeaderMap, Header, Distinct, is_native, written, find, partition_key_header, sequence_header,
  shard_header,
}
use ruststream_kinesis.Envelope.Headers.Laws.{
  insert_all, get-insert_all, find-written, written-Distinct,
}
use ruststream_kinesis.Envelope.Rsk.{rsk}
use ruststream_kinesis.Envelope.Rsk.Wire.{u32_mod, block_len}
use ruststream_kinesis.Envelope.Rsk.Fields.{AreTexts}
use ruststream_kinesis.Envelope.Rsk.RoundTrip.{seal_opens}
use ruststream_kinesis.Message.{Received, open_message, payload, read_headers, shard}

-- The headers of a delivery: the three that the record carries, then those of the publish.
abbrev pub expected : (h : HeaderMap) → h.Map → Received → Text → Option Text
expected h published received name =
    if str_eq shard_header name
    then some (shard received.settlement)
    else if str_eq sequence_header name
    then some received.sequence
    else if str_eq partition_key_header name
    then some received.partition_key
    else h.get name published

-- Three inserts over the listed headers.
layered :
    (h : HeaderMap) (a b c x y z name : Text) (headers : List Header)
    → Distinct headers
    → h.get name (h.insert c z (h.insert b y (h.insert a x (insert_all h headers h.new)))) ≡ (
        if str_eq c name
        then some z
        else if str_eq b name
        then some y
        else if str_eq a name
        then some x
        else find name headers)
layered h a b c x y z name headers d =
    let m : h.Map = insert_all h headers h.new in
    ground (
      arith,
      h.get-insert c name z (h.insert b y (h.insert a x m)),
      h.get-insert b name y (h.insert a x m),
      h.get-insert a name x m,
      get-insert_all h name headers h.new d,
      h.get-new name,
    )

-- Past the three names, what was written is what was published.
published_past_native :
    (h : HeaderMap) (published : h.Map) (x y z : Option Text) (name : Text)
    → (if str_eq shard_header name
        then z
        else if str_eq sequence_header name
        then y
        else if str_eq partition_key_header name
        then x
        else find name (written (h.iter published)))
      ≡ (if str_eq shard_header name
          then z
          else if str_eq sequence_header name
          then y
          else if str_eq partition_key_header name
          then x
          else h.get name published)
unfolding is_native
published_past_native h published x y z name = ground (
  arith,
  find-written name (h.iter published),
  h.get-iter name published,
  str_eq_comm shard_header name,
  str_eq_comm sequence_header name,
  str_eq_comm partition_key_header name,
)

-- Where a record's envelope finds the payload and the headers that were written, a delivery has them.
pub opened-delivers :
    (h : HeaderMap) (e : Envelope) (published : h.Map) (content : Text) (received : Received)
    (name : Text)
    → payload (open_message e received) ≡ content
    → e.read_headers received.content (open_message e received).body
      ≡ ok (written (h.iter published))
    → (payload (open_message e received) ≡ content)
      × (h.get name (read_headers h e (open_message e received))
          ≡ expected h published received name)
unfolding read_headers open_message
opened-delivers h e published content received name whole_payload headers = (
  whole_payload,
  rw (headers, read_headers)
      (layered h partition_key_header sequence_header shard_header received.partition_key
          received.sequence (shard received.settlement) name (written (h.iter published))
          (written-Distinct (h.iter published) (h.iter_once published))
        ∙ published_past_native h published (some received.partition_key) (some received.sequence)
            (some (shard received.settlement)) name),
)

-- A record sealed in the default envelope from a published map, whose header names are texts and whose
-- header block is shorter than 2^32 bytes, is delivered with its payload and, name by name, with the
-- published headers, but for the three names of the record's own fields, which read as the partition
-- key, the sequence number and the shard of the record.
pub delivered_as_published :
    (h : HeaderMap) (published : h.Map) (content : Text) (received : Received) (name : Text)
    → AreTexts (written (h.iter published))
    → block_len (written (h.iter published)) < u32_mod
    → rsk.seal (written (h.iter published)) content ≡ ok received.content
    → (payload (open_message rsk received) ≡ content)
      × (h.get name (read_headers h rsk (open_message rsk received))
          ≡ expected h published received name)
unfolding payload open_message
delivered_as_published h published content received name t fits sealed =
    let (whole_payload, headers) =
      seal_opens (written (h.iter published)) content received.content t fits sealed in
    opened-delivers h rsk published content received name whole_payload headers

-- A record sealed from a published map in the framed envelope of a codec whose frames read back is
-- delivered with its payload and, name by name, with the published headers, but for the three names of
-- the record's own fields, which read as the partition key, the sequence number and the shard of the
-- record.
pub framed-delivers :
    (h : HeaderMap) (codec : FrameCodec) (published : h.Map) (content : Text) (received : Received)
    (name : Text)
    → ReadsBack codec
    → Framed.seal codec (written (h.iter published)) content ≡ ok received.content
    → (payload (open_message (framed codec) received) ≡ content)
      × (h.get name (read_headers h (framed codec) (open_message (framed codec) received))
          ≡ expected h published received name)
unfolding payload open_message
framed-delivers h codec published content received name back sealed =
    let (_, whole_payload, headers) =
      framed-opens codec (written (h.iter published)) content received.content back sealed in
    opened-delivers h (framed codec) published content received name whole_payload headers
