-- ===== src/Envelope/Framed.antt =====
-- crates/ruststream-kinesis/src/envelope/framed/mod.rs: headers and payload as one document of a codec.
pub mod Binary
pub mod Json
use ruststream_kinesis.Prelude.{
  ◌≡◌, ◌≢◌, refl, ap, sym, ◌∙◌, Bool, true, false, Option, none, some, List, [], ◌∷◌, Text, Result,
  ok, err, length, All, inl, inr, if◌then◌else◌, Option-cases, arith,
}
use ruststream_kinesis.Error.{EnvelopeError, header_not_text}
use ruststream_kinesis.Envelope.{Envelope, MalformedHeaders}
use ruststream_kinesis.Envelope.Headers.{Header}
use ruststream_kinesis.Envelope.Payload.{Body, whole, within, decoded, fit, payload}
use ruststream_kinesis.Envelope.Utf8.{is_utf8}

-- `trait FrameCodec`
pub record FrameCodec : Type 0 where
  pub frame : List Header → Text → Result EnvelopeError Text
  pub frame_body : Text → Body
  pub frame_headers : Text → Result MalformedHeaders (List Header)

-- The name of the first header whose value is not UTF-8.
unfoldable pub first_not_text : List Header → Option Text
first_not_text [] = none
first_not_text ((name, value) ∷ headers) =
    if is_utf8 value then first_not_text headers else some name

unfoldable pub seal : FrameCodec → List Header → Text → Result EnvelopeError Text
seal codec headers content = elim (first_not_text headers) [
  | some name ↦ err (header_not_text name)
  | none ↦ codec.frame headers content
]

unfoldable pub read_headers : FrameCodec → Text → Body → Result MalformedHeaders (List Header)
read_headers codec record_data whole = ok []
read_headers codec record_data (within start end) = codec.frame_headers record_data
read_headers codec record_data (decoded bytes) = codec.frame_headers record_data

-- `impl Envelope for Framed`
abbrev pub framed : FrameCodec → Envelope
framed codec = record {
  seal = seal codec;
  body = codec.frame_body;
  read_headers = read_headers codec;
}

-- Every value is a text.
abbrev pub HasTextValues : List Header → Type 0
HasTextValues = All (λ header. is_utf8 header.1 ≡ true)

-- A frame of headers with text values opens to a payload of its own and to its headers.
abbrev pub ReadsBack : FrameCodec → Type 0
ReadsBack codec =
    (headers : List Header) (content record_data : Text)
    → HasTextValues headers
    → codec.frame headers content ≡ ok record_data
    → let b = fit (codec.frame_body record_data) (length record_data) in
      (b ≢ whole)
      × (payload b record_data ≡ content)
      × (codec.frame_headers record_data ≡ ok headers)

none-HasTextValues : (headers : List Header) → first_not_text headers ≡ none → HasTextValues headers
unfolding first_not_text
none-HasTextValues [] h = tt
none-HasTextValues ((name, value) ∷ headers) h = ground (arith, none-HasTextValues headers)

read_past_whole :
    (codec : FrameCodec) (record_data : Text) (b : Body)
    → b ≢ whole
    → read_headers codec record_data b ≡ codec.frame_headers record_data
unfolding read_headers
read_past_whole codec record_data whole ne = absurd (ne refl)
read_past_whole codec record_data (within start end) ne = refl
read_past_whole codec record_data (decoded bytes) ne = refl

-- A codec whose frames read back makes an envelope whose records do: a record that was sealed has
-- only text values, and opens to its payload and its headers, in order.
pub framed-opens :
    (codec : FrameCodec) (headers : List Header) (content record_data : Text)
    → ReadsBack codec
    → seal codec headers content ≡ ok record_data
    → let b = fit (codec.frame_body record_data) (length record_data) in
      HasTextValues headers
      × (payload b record_data ≡ content)
      × (read_headers codec record_data b ≡ ok headers)
unfolding seal
framed-opens codec headers content record_data back h =
    elim (Option-cases (first_not_text headers)) [
      | inr (name, refused) ↦ ground arith
      | inl texts ↦
          let t = none-HasTextValues headers texts in
          let (body, content_back, headers_back) =
            back headers content record_data t (ground arith) in
          (t, content_back, read_past_whole codec record_data _ body ∙ headers_back)
    ]
