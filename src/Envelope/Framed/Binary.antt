-- ===== src/Envelope/Framed/Binary.antt =====
-- crates/ruststream-kinesis/src/envelope/framed/binary.rs: the document of a binary codec. The codec is the
-- framework's: it encodes and decodes the values that serde hands it and asks of it.
use ruststream_kinesis.Prelude.{
  ◌≡◌, refl, Bool, true, false, Option, none, some, List, [], ◌∷◌, Text, codes, str_eq, Result, ok,
  err, map_err, if◌then◌else◌, arith,
}
use ruststream_kinesis.Error.{EnvelopeError}
use ruststream_kinesis.Envelope.{MalformedHeaders, malformed_headers}
use ruststream_kinesis.Envelope.Headers.{Header}
use ruststream_kinesis.Envelope.Payload.{Body, whole, decoded, fit, payload}
use ruststream_kinesis.Envelope.Utf8.{is_utf8}
use ruststream_kinesis.Envelope.Framed.{FrameCodec, HasTextValues, ReadsBack}

-- The values of a document; `other` stands for all that no frame holds.
mutual
  pub data Value : Type 0 where
    text : Text → Value
    bytes : Text → Value
    table : Fields → Value
    other : Text → Value

  pub data Fields : Type 0 where
    end : Fields
    field : Text → Value → Fields → Fields

-- What a codec does: `encode` of a struct, the fields that a struct is given when a document decodes,
-- and the values that `String`, `ByteBuf` and a map accept.
pub record Codec : Type 0 where
  pub encode : Fields → Result Text Text
  pub fields : Text → Option Fields
  pub string_of : Value → Option Text
  pub byte_buf_of : Value → Option Text
  pub entries_of : Value → Option Fields

-- A document that was encoded decodes to its fields, and each kind of value is accepted as itself.
pub record IsLossless (codec : Codec) : Type 0 where
  pub fields-encode :
      (document : Fields) (encoded : Text)
      → codec.encode document ≡ ok encoded
      → codec.fields encoded ≡ some document
  pub string_of-text : (t : Text) → is_utf8 t ≡ true → codec.string_of (text t) ≡ some t
  pub byte_buf_of-bytes : (t : Text) → codec.byte_buf_of (bytes t) ≡ some t
  pub entries_of-table : (f : Fields) → codec.entries_of (table f) ≡ some f

abbrev pub headers_name : Text
headers_name = codes "headers"

abbrev pub payload_name : Text
payload_name = codes "payload"

-- `str::from_utf8(value).unwrap_or_default()`
unfoldable pub utf8_or_default : Text → Text
utf8_or_default value = if is_utf8 value then value else []

-- `TextHeaders::serialize`
unfoldable pub text_headers : List Header → Fields
unfolding utf8_or_default
text_headers [] = end
text_headers ((name, value) ∷ headers) =
    field name (text (utf8_or_default value)) (text_headers headers)

-- `FrameOut`
unfoldable pub frame_out : List Header → Text → Fields
frame_out headers content =
    field headers_name (table (text_headers headers)) (field payload_name (bytes content) end)

module _ (codec : Codec) where
  unfoldable pub frame : List Header → Text → Result EnvelopeError Text
  frame headers content = map_err EnvelopeError.codec (codec.encode (frame_out headers content))

  -- `FramePayload`: the fields `headers` and `payload`, each once and no other, from those already read.
  unfoldable pub frame_payload : Bool → Option Text → Fields → Option Text
  frame_payload true found end = found
  frame_payload false found end = none
  frame_payload seen found (field name value rest) =
      let after_headers = frame_payload true found rest in
      let after_payload = λ (b : Text). frame_payload seen (some b) rest in
      if str_eq name headers_name
      then (if seen then none else after_headers)
      else if str_eq name payload_name
      then elim found [
        | some b ↦ none
        | none ↦ elim (codec.byte_buf_of value) [ none ↦ none | some b ↦ after_payload b ]
      ]
      else none

  unfoldable pub body : Text → Body
  body record_data = elim (codec.fields record_data) [
    | none ↦ whole
    | some document ↦ elim (frame_payload false none document) [ none ↦ whole | some b ↦ decoded b ]
  ]

  -- `ReadHeaders`: the entries of a map of names to texts.
  unfoldable pub read_entries : Fields → Option (List Header)
  read_entries end = some []
  read_entries (field name value rest) = elim (codec.string_of value) [
    | none ↦ none
    | some t ↦ elim (read_entries rest) [ none ↦ none | some headers ↦ some ((name, t) ∷ headers) ]
  ]

  unfoldable pub header_map : Value → Option (List Header)
  unfolding read_entries
  header_map value = elim (codec.entries_of value) [ none ↦ none | some f ↦ read_entries f ]

  -- `FrameHeaders`: the same two fields, the payload skipped over.
  unfoldable pub frame_headers : Option (List Header) → Bool → Fields → Option (List Header)
  frame_headers found true end = found
  frame_headers found false end = none
  frame_headers found seen (field name value rest) =
      let after_payload = frame_headers found true rest in
      let after_headers = λ (hs : List Header). frame_headers (some hs) seen rest in
      if str_eq name headers_name
      then elim found [
        | some hs ↦ none
        | none ↦ elim (header_map value) [ none ↦ none | some hs ↦ after_headers hs ]
      ]
      else if str_eq name payload_name
      then (if seen then none else after_payload)
      else none

  unfoldable pub headers : Text → Result MalformedHeaders (List Header)
  headers record_data = elim (codec.fields record_data) [
    | none ↦ err malformed_headers
    | some document ↦ elim (frame_headers none false document) [
      | none ↦ err malformed_headers
      | some hs ↦ ok hs
    ]
  ]

  -- The provided methods of `FrameCodec`.
  abbrev pub binary : FrameCodec
  binary = record { frame = frame; frame_body = body; frame_headers = headers }

  module _ (lossless : IsLossless codec) where
    read_entries-text_headers :
        (hs : List Header) → HasTextValues hs → read_entries (text_headers hs) ≡ some hs
    unfolding read_entries text_headers
    read_entries-text_headers [] t = refl
    read_entries-text_headers ((name, value) ∷ hs) t =
        ground (arith, lossless.string_of-text value t.0, read_entries-text_headers hs t.1)

    encoded :
        (hs : List Header) (content record_data : Text)
        → frame hs content ≡ ok record_data
        → codec.fields record_data ≡ some (frame_out hs content)
    unfolding frame
    encoded hs content record_data h =
        lossless.fields-encode (frame_out hs content) record_data (ground arith)

    body-frame_out :
        (hs : List Header) (content : Text)
        → frame_payload false none (frame_out hs content) ≡ some content
    unfolding frame_out frame_payload str_eq
    body-frame_out hs content = rw (lossless.byte_buf_of-bytes content)

    headers-frame_out :
        (hs : List Header) (content : Text)
        → HasTextValues hs
        → frame_headers none false (frame_out hs content) ≡ some hs
    unfolding frame_out frame_headers header_map str_eq
    headers-frame_out hs content t =
        rw (lossless.entries_of-table (text_headers hs)) (rw (read_entries-text_headers hs t))

    body-frame :
        (hs : List Header) (content record_data : Text)
        → frame hs content ≡ ok record_data
        → body record_data ≡ decoded content
    unfolding body
    body-frame hs content record_data h =
        rw (encoded hs content record_data h, body) (rw (body-frame_out hs content))

    headers-frame :
        (hs : List Header) (content record_data : Text)
        → HasTextValues hs
        → frame hs content ≡ ok record_data
        → headers record_data ≡ ok hs
    unfolding headers
    headers-frame hs content record_data t h =
        rw (encoded hs content record_data h, headers) (rw (headers-frame_out hs content t))

    -- The frames of a binary codec that loses nothing read back.
    pub binary-ReadsBack : ReadsBack binary
    unfolding fit payload
    binary-ReadsBack hs content record_data t h =
        rw (body-frame hs content record_data h)
          (λ e. cc, refl, headers-frame hs content record_data t h)
