-- ===== src/Envelope/Framed/Json.antt =====
-- crates/ruststream-kinesis/src/envelope/framed/json.rs: the JSON document. The parser and the writer of
-- serde_json and the base64 engine are parameters; a field that was read is a place in the record.
pub mod Frames
use ruststream_kinesis.Prelude.{
  ℕ, ◌+◌, ◌-◌, ◌≤◌, ◌≡◌, ◌==◌, Bool, true, false, Option, none, some, List, [], ◌∷◌, ◌++◌, Text,
  codes, str_eq, Result, ok, err, map_err, length, take, drop, if◌then◌else◌,
}
use ruststream_kinesis.Error.{EnvelopeError}
use ruststream_kinesis.Envelope.{MalformedHeaders, malformed_headers}
use ruststream_kinesis.Envelope.Headers.{Header}
use ruststream_kinesis.Envelope.Payload.{Body, whole, within, decoded}
use ruststream_kinesis.Envelope.Framed.{FrameCodec}
use ruststream_kinesis.Envelope.Framed.Binary.{headers_name, payload_name, utf8_or_default}

-- What a document is written from: a map of texts, a JSON text as it stands, or a string.
pub data Value : Type 0 where
  table : List Header → Value
  raw : Text → Value
  string : Text → Value

-- A field of a record that parses: its name, and where its value lies.
pub record Slot : Type 0 where
  pub name : Text
  pub start : ℕ
  pub stop : ℕ

abbrev pub slice : Text → Slot → Text
slice record_data slot = take (slot.stop - slot.start) (drop slot.start record_data)

-- serde_json and base64: the JSON text that a text is, without what surrounds it; the writer of a struct;
-- the fields that a struct is given; a value read as an optional string (`null` is none) and as a map
-- of texts; and the standard alphabet's encoder and decoder.
pub record Json : Type 0 where
  pub raw_value : Text → Option Text
  pub to_writer : List (Text × Value) → Result Text Text
  pub fields : Text → Option (List Slot)
  pub string_at : Text → Option (Option Text)
  pub table_at : Text → Option (List Header)
  pub base64 : Text → Text
  pub decode_base64 : Text → Option Text

abbrev pub base64_name : Text
base64_name = codes "payload_base64"

-- `TextHeaders::serialize`
unfoldable pub texts : List Header → List Header
texts [] = []
texts ((name, value) ∷ headers) = (name, utf8_or_default value) ∷ texts headers

-- The two payload fields of a `Frame`.
pub record Found : Type 0 where
  pub payload : Option Slot
  pub payload_base64 : Option (Option Text)

abbrev pub nothing : Found
nothing = record { payload = none; payload_base64 = none }

module _ (json : Json) where
  -- Whether the payload is a JSON text with nothing around it.
  unfoldable pub embedded : Text → Option Text
  embedded content = elim (json.raw_value content) [
    | none ↦ none
    | some value ↦ if length value == length content then some value else none
  ]

  -- `Embedded` or `Encoded`
  unfoldable pub document : List Header → Text → List (Text × Value)
  document headers content = elim (embedded content) [
    | some value ↦ (headers_name, table (texts headers)) ∷ (payload_name, raw value) ∷ []
    | none ↦
        (headers_name, table (texts headers)) ∷ (base64_name, string (json.base64 content)) ∷ []
  ]

  unfoldable pub frame : List Header → Text → Result EnvelopeError Text
  frame headers content = map_err EnvelopeError.codec (json.to_writer (document headers content))

  -- `Frame`: `headers`, and each of the payload fields at most once, and no other.
  unfoldable pub read_frame : Text → Bool → Found → List Slot → Option Found
  read_frame record_data true found [] = some found
  read_frame record_data false found [] = none
  read_frame record_data seen found (slot ∷ slots) =
      let after_headers = read_frame record_data true found slots in
      let after_payload =
        read_frame record_data seen (record found { payload = some slot }) slots in
      let after_base64 = λ (o : Option Text).
        read_frame record_data seen (record found { payload_base64 = some o }) slots in
      if str_eq slot.name headers_name
      then (if seen then none else after_headers)
      else if str_eq slot.name payload_name
      then elim found.payload [ some s ↦ none | none ↦ after_payload ]
      else if str_eq slot.name base64_name
      then elim found.payload_base64 [
        | some o ↦ none
        | none ↦ elim (json.string_at (slice record_data slot)) [
          | none ↦ none
          | some o ↦ after_base64 o
        ]
      ]
      else none

  -- `decode_base64(&encoded).map_or(Body::Whole, Body::Decoded)`
  abbrev decoded_or_whole : Text → Body
  decoded_or_whole encoded = elim (json.decode_base64 encoded) [ none ↦ whole | some b ↦ decoded b ]

  -- Exactly one of the two payload fields makes a frame.
  unfoldable pub body_of : Option Slot → Option (Option Text) → Body
  body_of (some slot) none = within slot.start slot.stop
  body_of (some slot) (some none) = within slot.start slot.stop
  body_of (some slot) (some (some encoded)) = whole
  body_of none none = whole
  body_of none (some none) = whole
  body_of none (some (some encoded)) = decoded_or_whole encoded

  unfoldable pub frame_body : Text → Body
  frame_body record_data = elim (json.fields record_data) [
    | none ↦ whole
    | some slots ↦ elim (read_frame record_data false nothing slots) [
      | none ↦ whole
      | some found ↦ body_of found.payload found.payload_base64
    ]
  ]

  -- `FrameHeaders`: the payload fields are skipped over.
  unfoldable pub read_map :
      Text → Option (List Header) → Bool → Bool → List Slot → Option (List Header)
  read_map record_data found payload base64 [] = found
  read_map record_data found payload base64 (slot ∷ slots) =
      let after_headers =
        λ (hs : List Header). read_map record_data (some hs) payload base64 slots in
      let after_payload = read_map record_data found true base64 slots in
      let after_base64 = read_map record_data found payload true slots in
      if str_eq slot.name headers_name
      then elim found [
        | some hs ↦ none
        | none ↦ elim (json.table_at (slice record_data slot)) [
          | none ↦ none
          | some hs ↦ after_headers hs
        ]
      ]
      else if str_eq slot.name payload_name
      then (if payload then none else after_payload)
      else if str_eq slot.name base64_name
      then (if base64 then none else after_base64)
      else none

  unfoldable pub frame_headers : Text → Result MalformedHeaders (List Header)
  frame_headers record_data = elim (json.fields record_data) [
    | none ↦ err malformed_headers
    | some slots ↦ elim (read_map record_data none false false slots) [
      | none ↦ err malformed_headers
      | some hs ↦ ok hs
    ]
  ]

  -- `impl FrameCodec for JsonCodec`
  abbrev pub json_codec : FrameCodec
  json_codec = record { frame = frame; frame_body = frame_body; frame_headers = frame_headers }
