-- ===== src/Envelope/Rsk/RoundTrip.antt =====
-- A record of rsk.rs, sealed and opened again.
use ruststream_kinesis.Prelude.{
  ℕ, ◌+◌, ◌<◌, ◌≡◌, refl, sym, ap, ◌∙◌, subst, false, ◌&&◌, not, none, some, List, [], ◌∷◌, ◌++◌,
  Text, length, length-append, take, drop, take-length-append, drop-length-append, Bool-cases, inl,
  inr, str_eq, str_eq_refl, ◌==◌, ok, arith,
}
use ruststream_kinesis.Envelope.Payload.{Body, fit, payload, payload_to_end}
use ruststream_kinesis.Envelope.Headers.{Header}
use ruststream_kinesis.Envelope.Rsk.{
  fields, magic, text_magic, looks_enveloped, block_of, split, seal, body, read_headers, prefix,
}
use ruststream_kinesis.Envelope.Rsk.Wire.{u32_mod, field_len, encode_fields, block_len}
use ruststream_kinesis.Envelope.Rsk.Fields.{
  AreTexts, read_len-field_len, length-encode_fields, fields_parse-encode, decode_fields-encode,
}

-- The record of an envelope.
abbrev enveloped : List Header → Text → Text
enveloped headers content =
    magic ++ (field_len (block_len headers) ++ (encode_fields headers ++ content))

-- What the record of an envelope opens to.
module _ (headers : List Header) (content : Text) (t : AreTexts headers)
    (fits : block_len headers < u32_mod) where
  block_of-enveloped :
      block_of magic (block_len headers) (encode_fields headers ++ content)
      ≡ some (fields (encode_fields headers), prefix + block_len headers)
  unfolding block_of
  block_of-enveloped = ground (
    arith,
    length-append (encode_fields headers) content,
    length-encode_fields headers,
    str_eq_refl magic,
    fields_parse-encode headers t fits,
    cut,
  )
    where
      cut : take (block_len headers) (encode_fields headers ++ content) ≡ encode_fields headers
      cut =
          subst (λ n. take n (encode_fields headers ++ content) ≡ encode_fields headers)
            (length-encode_fields headers) (take-length-append (encode_fields headers) content)

  split-enveloped :
      split (enveloped headers content)
      ≡ some (fields (encode_fields headers), prefix + block_len headers)
  unfolding split
  split-enveloped =
      rw (read_len-field_len (block_len headers) (encode_fields headers ++ content) fits)
        block_of-enveloped

  length-enveloped :
      length (enveloped headers content) ≡ prefix + block_len headers + length content
  unfolding field_len
  length-enveloped =
      omega (arith, length-append (encode_fields headers) content, length-encode_fields headers)

  rest-enveloped : drop (prefix + block_len headers) (enveloped headers content) ≡ content
  unfolding field_len
  rest-enveloped =
      let front : Text = magic ++ (field_len (block_len headers) ++ encode_fields headers) in
      subst (λ n. drop n (enveloped headers content) ≡ content) {x = length front}
        (omega (arith, length-encode_fields headers)) (drop-length-append front content)

  payload-enveloped :
      payload
        (fit (body (enveloped headers content)) (length (enveloped headers content)))
        (enveloped headers content)
      ≡ content
  unfolding body
  payload-enveloped =
      rw (split-enveloped, body)
        (payload_to_end (enveloped headers content) (prefix + block_len headers)
            (omega (arith, length-enveloped))
          ∙ rest-enveloped)

  headers-enveloped : (b : Body) → read_headers (enveloped headers content) b ≡ ok headers
  unfolding read_headers
  headers-enveloped b =
      rw (split-enveloped, read_headers) (ap ok (decode_fields-encode headers t fits))

-- A payload that begins with neither magic is no envelope.
block_of-other :
    (chunk : Text) (len : ℕ) (rest : Text)
    → str_eq chunk magic ≡ false
    → str_eq chunk text_magic ≡ false
    → block_of chunk len rest ≡ none
unfolding block_of
block_of-other chunk len rest a b = ground arith

split-plain : (content : Text) → looks_enveloped content ≡ false → split content ≡ none
unfolding split looks_enveloped
split-plain content h = grind (arith, block_of-other)

no_headers : (headers : List Header) → block_len headers ≡ 0 → headers ≡ []
unfolding block_len
no_headers [] h = refl
no_headers ((name, value) ∷ headers) h = absurd (omega arith)

abbrev OpensTo : Text → List Header → Text → Type 0
OpensTo content headers record_data =
    let b = fit (body record_data) (length record_data) in
    (payload b record_data ≡ content) × (read_headers record_data b ≡ ok headers)

plain_opens : (content : Text) → looks_enveloped content ≡ false → OpensTo content [] content
unfolding body read_headers fit payload
plain_opens content h = ground (arith, split-plain content h)

-- A record sealed from headers whose names are texts, and whose block length fits its field, opens to
-- its payload and its headers, in order and byte for byte; whatever the payload begins with.
pub seal_opens :
    (headers : List Header) (content record_data : Text)
    → AreTexts headers
    → block_len headers < u32_mod
    → seal headers content ≡ ok record_data
    → let b = fit (body record_data) (length record_data) in
      (payload b record_data ≡ content) × (read_headers record_data b ≡ ok headers)
unfolding seal
seal_opens headers content record_data t fits h =
    elim (Bool-cases (block_len headers == 0 && not (looks_enveloped content))) [
      | inl plain ↦
          let none_written : headers ≡ [] = no_headers headers (ground arith) in
          subst (OpensTo content headers) (ground arith) (
            subst (λ hs. OpensTo content hs content) (sym none_written)
              (plain_opens content (ground arith)))
      | inr sealed ↦
          subst (OpensTo content headers) {x = enveloped headers content} (ground arith)
            (payload-enveloped headers content t fits, headers-enveloped headers content t fits _)
    ]

-- A record without headers whose payload begins with neither magic is the payload itself.
pub seal_plain : (content : Text) → looks_enveloped content ≡ false → seal [] content ≡ ok content
unfolding seal block_len
seal_plain content h = rw h
