-- ===== src/Envelope/Framed/Json/Frames.antt =====
-- The frames of json.rs, over a JSON library that reads back what it writes.
use ruststream_kinesis.Prelude.{
  ◌≤◌, ◌≡◌, ◌≢◌, refl, ap, sym, ◌∙◌, false, none, some, List, [], ◌∷◌, ◌++◌, append-nil, Text,
  str_eq, ok, length, length-append, arith, Option-cases, inl, inr,
}
use ruststream_kinesis.Envelope.Headers.{Header}
use ruststream_kinesis.Envelope.Payload.{whole, within, decoded, fit, payload}
use ruststream_kinesis.Envelope.Framed.{HasTextValues, ReadsBack}
use ruststream_kinesis.Envelope.Framed.Binary.{headers_name, payload_name, utf8_or_default}
use ruststream_kinesis.Envelope.Framed.Json.{
  table, raw, string, Slot, slice, Json, base64_name, texts, embedded, document, frame, Found,
  nothing, read_frame, body_of, frame_body, read_map, frame_headers, json_codec,
}

-- A slot inside a record, under a name.
abbrev Lies : Text → Text → Slot → Type 0
Lies record_data name slot =
    (slot.name ≡ name) × (slot.start ≤ slot.stop) × (slot.stop ≤ length record_data)

-- What the documentation of the two libraries says: a JSON text is found inside the text that it is read
-- from; the fields of a struct that was written are read in order, each value as it was written; and
-- base64 that was encoded decodes.
pub record IsFaithful (json : Json) : Type 0 where
  pub raw_value_inside :
      (content value : Text)
      → json.raw_value content ≡ some value
      → (before after : Text) × (content ≡ before ++ (value ++ after))
  pub embedded_fields :
      (hs : List Header) (value record_data : Text)
      → json.to_writer ((headers_name, table hs) ∷ (payload_name, raw value) ∷ []) ≡ ok record_data
      → (s t : Slot) × (json.fields record_data ≡ some (s ∷ t ∷ []))
        × Lies record_data headers_name s
        × Lies record_data payload_name t
        × (json.table_at (slice record_data s) ≡ some hs)
        × (slice record_data t ≡ value)
  pub encoded_fields :
      (hs : List Header) (value record_data : Text)
      → json.to_writer ((headers_name, table hs) ∷ (base64_name, string value) ∷ [])
        ≡ ok record_data
      → (s t : Slot) × (json.fields record_data ≡ some (s ∷ t ∷ []))
        × Lies record_data headers_name s
        × Lies record_data base64_name t
        × (json.table_at (slice record_data s) ≡ some hs)
        × (json.string_at (slice record_data t) ≡ some (some value))
  pub decode_base64-base64 : (t : Text) → json.decode_base64 (json.base64 t) ≡ some t

texts_lem : (hs : List Header) → HasTextValues hs → texts hs ≡ hs
unfolding texts utf8_or_default
texts_lem [] t = refl
texts_lem ((name, value) ∷ hs) t = ground (arith, texts_lem hs t.1)

-- A part of a text that is as long is the text.
nothing_around :
    (before value after : Text)
    → length value ≡ length (before ++ (value ++ after))
    → before ++ (value ++ after) ≡ value
nothing_around [] value [] h = append-nil value
nothing_around [] value (x ∷ after) h = absurd (omega (arith, length-append value (x ∷ after)))
nothing_around (x ∷ before) value after h =
    absurd (omega (arith, length-append before (value ++ after), length-append value after))

module _ (json : Json) (laws : IsFaithful json) where
  embedded_whole : (content value : Text) → embedded json content ≡ some value → value ≡ content
  unfolding embedded
  embedded_whole content value h = elim (Option-cases (json.raw_value content)) [
    | inl gone ↦ ground arith
    | inr (v, there) ↦
        let (before, after, around) = laws.raw_value_inside content v there in
        let as_long : length v ≡ length content = ground arith in
        let same : v ≡ value = ground arith in
        sym same ∙ sym (nothing_around before v after (as_long ∙ ap length around)) ∙ sym around
  ]

  payload-slot :
      (record_data : Text) (slot : Slot)
      → slot.start ≤ slot.stop
      → slot.stop ≤ length record_data
      → (fit (within slot.start slot.stop) (length record_data) ≢ whole)
        × (payload (fit (within slot.start slot.stop) (length record_data)) record_data
            ≡ slice record_data slot)
  unfolding fit payload
  payload-slot record_data slot h h' = (ground arith, ground arith)

  embedded-found :
      (record_data : Text) (s t : Slot)
      → s.name ≡ headers_name
      → t.name ≡ payload_name
      → read_frame json record_data false nothing (s ∷ t ∷ [])
        ≡ some (record { payload = some t; payload_base64 = none })
  unfolding read_frame str_eq
  embedded-found record_data s t e f = ground arith

  encoded-found :
      (record_data : Text) (s t : Slot) (value : Text)
      → s.name ≡ headers_name
      → t.name ≡ base64_name
      → json.string_at (slice record_data t) ≡ some (some value)
      → read_frame json record_data false nothing (s ∷ t ∷ [])
        ≡ some (record { payload = none; payload_base64 = some (some value) })
  unfolding read_frame str_eq
  encoded-found record_data s t value e f g = ground arith

  embedded-map :
      (record_data : Text) (s t : Slot) (hs : List Header)
      → s.name ≡ headers_name
      → t.name ≡ payload_name
      → json.table_at (slice record_data s) ≡ some hs
      → read_map json record_data none false false (s ∷ t ∷ []) ≡ some hs
  unfolding read_map str_eq
  embedded-map record_data s t hs e f g = ground arith

  encoded-map :
      (record_data : Text) (s t : Slot) (hs : List Header)
      → s.name ≡ headers_name
      → t.name ≡ base64_name
      → json.table_at (slice record_data s) ≡ some hs
      → read_map json record_data none false false (s ∷ t ∷ []) ≡ some hs
  unfolding read_map str_eq
  encoded-map record_data s t hs e f g = ground arith

  headers-frame :
      (record_data : Text) (slots : List Slot) (hs : List Header)
      → json.fields record_data ≡ some slots
      → read_map json record_data none false false slots ≡ some hs
      → frame_headers json record_data ≡ ok hs
  unfolding frame_headers
  headers-frame record_data slots hs e f = rw (e, frame_headers) (rw f)

  body-frame :
      (record_data : Text) (slots : List Slot) (found : Found)
      → json.fields record_data ≡ some slots
      → read_frame json record_data false nothing slots ≡ some found
      → frame_body json record_data ≡ body_of json found.payload found.payload_base64
  unfolding frame_body
  body-frame record_data slots found e f = rw (e, frame_body) (rw f)

  embedded-ReadsBack :
      (hs : List Header) (content value record_data : Text)
      → HasTextValues hs
      → embedded json content ≡ some value
      → frame json hs content ≡ ok record_data
      → let b = fit (frame_body json record_data) (length record_data) in
        (b ≢ whole) × (payload b record_data ≡ content) × (frame_headers json record_data ≡ ok hs)
  unfolding frame document body_of
  embedded-ReadsBack hs content value record_data t e h =
      let (s, u, fs, ls, lu, m, p) =
        laws.embedded_fields (texts hs) value record_data (ground arith) in
      let (fits, opens) = payload-slot record_data u lu.1 lu.2 in
      rw (body-frame record_data _ _ fs (embedded-found record_data s u ls.0 lu.0)) (
        fits,
        opens ∙ p ∙ embedded_whole content value e,
        headers-frame record_data _ _ fs (embedded-map record_data s u (texts hs) ls.0 lu.0 m)
            ∙ ap ok (texts_lem hs t),
      )

  decoded_back :
      (content : Text) → body_of json none (some (some (json.base64 content))) ≡ decoded content
  unfolding body_of
  decoded_back content = ground (arith, laws.decode_base64-base64 content)

  encoded-ReadsBack :
      (hs : List Header) (content record_data : Text)
      → HasTextValues hs
      → embedded json content ≡ none
      → frame json hs content ≡ ok record_data
      → let b = fit (frame_body json record_data) (length record_data) in
        (b ≢ whole) × (payload b record_data ≡ content) × (frame_headers json record_data ≡ ok hs)
  unfolding frame document body_of fit payload
  encoded-ReadsBack hs content record_data t e h =
      let (s, u, fs, ls, lu, m, p) =
        laws.encoded_fields (texts hs) (json.base64 content) record_data (ground arith) in
      let found : frame_body json record_data ≡ decoded content =
        body-frame record_data _ _ fs (encoded-found record_data s u _ ls.0 lu.0 p)
        ∙ decoded_back content in
      rw found (
        λ e. cc,
        refl,
        headers-frame record_data _ _ fs (encoded-map record_data s u (texts hs) ls.0 lu.0 m)
            ∙ ap ok (texts_lem hs t),
      )

  -- The JSON frames, of a payload that is a JSON text and of any other, read back.
  pub json-ReadsBack : ReadsBack (json_codec json)
  json-ReadsBack hs content record_data t h = elim (Option-cases (embedded json content)) [
    | inr (value, e) ↦ embedded-ReadsBack hs content value record_data t e h
    | inl e ↦ encoded-ReadsBack hs content record_data t e h
  ]
