-- ===== src/Tests/Frames.antt =====
-- The framed envelope over small codecs of their own.
use native.Mathlib.Decide.{ℕ_discrete}
use ruststream_kinesis.Prelude.{
  ◌≡◌, refl, Option, none, some, List, [], ◌∷◌, Text, codes, str_eq, Result, ok, err, arith, suc,
  zero,
}
use ruststream_kinesis.Envelope.Headers.{Header, written, find, is_native}
use ruststream_kinesis.Envelope.Headers.Assoc.{assoc}
use ruststream_kinesis.Envelope.Utf8.{is_utf8}
use ruststream_kinesis.Envelope.Framed
use ruststream_kinesis.Envelope.Framed.{framed, ReadsBack, first_not_text}
use ruststream_kinesis.Envelope.Framed.Binary.{
  Value, text, bytes, table, Fields, end, field, Codec, IsLossless, headers_name, payload_name,
  binary, binary-ReadsBack, frame, frame_out, text_headers, utf8_or_default,
}
use ruststream_kinesis.Message
use ruststream_kinesis.Message.{Received, open_message, in_process}
use ruststream_kinesis.Message.Delivery.{framed-delivers, expected}

-- A document of one byte of header: the headers are `event: created` or none.
abbrev created : Fields
created = field (codes "event") (text (codes "created")) end

abbrev document : Fields → Text → Fields
document headers content =
    field headers_name (table headers) (field payload_name (bytes content) end)

Fields-discrete : Discrete Fields
Fields-discrete = hlevel ℕ_discrete

fields_small : Text → Option Fields
fields_small (zero ∷ content) = some (document end content)
fields_small (suc zero ∷ content) = some (document created content)
fields_small _ = none

string_small : Value → Option Text
string_small (text t) = some t
string_small _ = none

byte_buf_small : Value → Option Text
byte_buf_small (bytes t) = some t
byte_buf_small _ = none

entries_small : Value → Option Fields
entries_small (table f) = some f
entries_small _ = none

abbrev content_of : Fields → Text
content_of (field name headers (field other_name (bytes content) rest)) = content
content_of _ = []

-- Only the two documents are encoded.
encode_small : Fields → Result Text Text
unfolding Fields-discrete
encode_small d = elim (Fields-discrete d (document end (content_of d))) [
  | yes plain ↦ ok (0 ∷ content_of d)
  | no _ ↦ elim (Fields-discrete d (document created (content_of d))) [
    | yes one ↦ ok (1 ∷ content_of d)
    | no _ ↦ err []
  ]
]

abbrev small : Codec
small = record {
  encode = encode_small;
  fields = fields_small;
  string_of = string_small;
  byte_buf_of = byte_buf_small;
  entries_of = entries_small;
}

fields-encode_small :
    (d : Fields) (encoded : Text) → encode_small d ≡ ok encoded → fields_small encoded ≡ some d
unfolding encode_small fields_small
fields-encode_small d encoded h = elim (Fields-discrete d (document end (content_of d))) [
  | yes plain ↦ ground arith
  | no _ ↦ elim (Fields-discrete d (document created (content_of d))) [
    | yes one ↦ ground arith
    | no _ ↦ ground arith
  ]
]

small-IsLossless : IsLossless small
unfolding string_small byte_buf_small entries_small
small-IsLossless = record {
  fields-encode = fields-encode_small;
  string_of-text = λ t h. refl;
  byte_buf_of-bytes = λ t. refl;
  entries_of-table = λ f. refl;
}

small-ReadsBack : ReadsBack (binary small)
small-ReadsBack = binary-ReadsBack small small-IsLossless

abbrev event : List Header
event = (codes "event", codes "created") ∷ []

abbrev published : assoc.Map
unfolding assoc find str_eq
published = ((codes "partition-key", codes "user-42") ∷ event, (refl, (refl, tt)))

abbrev received : Received
received = record {
  content = 1 ∷ codes "hi";
  partition_key = codes "user-42";
  sequence = codes "49";
  settlement = in_process (codes "orders") (codes "shardId-0");
}

framed-delivers_example :
    (Message.payload (open_message (framed (binary small)) received) ≡ codes "hi")
    × (assoc.get (codes "event") (
          Message.read_headers assoc
            (framed (binary small))
            (open_message (framed (binary small)) received))
        ≡ expected assoc published received (codes "event"))
unfolding assoc written is_native find str_eq is_utf8 published Framed.seal first_not_text frame
    frame_out text_headers utf8_or_default encode_small Fields-discrete ℕ_discrete
framed-delivers_example =
    framed-delivers assoc (binary small) published (codes "hi") received (codes "event")
      small-ReadsBack refl
