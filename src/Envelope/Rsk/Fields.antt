-- ===== src/Envelope/Rsk/Fields.antt =====
-- The header block of rsk.rs, written and read back.
use ruststream_kinesis.Prelude.{
  ℕ, zero, suc, ◌≤◌, ◌<◌, ◌≡◌, refl, ap, ◌∙◌, true, some, List, [], ◌∷◌, ◌++◌, Text, All, length,
  length-append, take-length-append, drop-length-append, arith,
}
use ruststream_kinesis.Envelope.Headers.{Header}
use ruststream_kinesis.Envelope.Utf8.{is_utf8}
use ruststream_kinesis.Envelope.Rsk.Wire.{
  u32_mod, field_len, read_len, split_at_checked, read_field, read_header, fields_parse_rounds,
  fields_parse, decode_fields_rounds, decode_fields, encode_fields, block_len,
}

-- The names of a header map are texts.
abbrev pub AreTexts : List Header → Type 0
AreTexts = All (λ h. is_utf8 h.0 ≡ true)

pub read_len-field_len :
    (n : ℕ) (rest : Text) → n < u32_mod → read_len (field_len n ++ rest) ≡ some (n, rest)
unfolding read_len field_len
read_len-field_len n rest h = ground arith

split_at_checked-append : (x rest : Text) → split_at_checked (length x) (x ++ rest) ≡ some (x, rest)
unfolding split_at_checked
split_at_checked-append x rest =
    ground (arith, length-append x rest, take-length-append x rest, drop-length-append x rest)

read_field-append :
    (x rest : Text)
    → length x < u32_mod
    → read_field (field_len (length x) ++ (x ++ rest)) ≡ some (x, rest)
unfolding read_field
read_field-append x rest h =
    rw (read_len-field_len (length x) (x ++ rest) h) (split_at_checked-append x rest)

read_header-encode :
    (name value rest : Text)
    → is_utf8 name ≡ true
    → length name < u32_mod
    → length value < u32_mod
    → read_header
        (field_len (length name) ++ (name ++ (field_len (length value) ++ (value ++ rest))))
      ≡ some (name, value, rest)
unfolding read_header
read_header-encode name value rest t hn hv =
    rw (read_field-append name (field_len (length value) ++ (value ++ rest)) hn)
      (rw (read_field-append value rest hv) (rw t))

length-field_len : (n : ℕ) → length (field_len n) ≡ 4
unfolding field_len
length-field_len n = refl

pub length-encode_fields :
    (headers : List Header) → length (encode_fields headers) ≡ block_len headers
unfolding encode_fields block_len
length-encode_fields [] = refl
length-encode_fields ((name, value) ∷ headers) = omega (
  arith,
  length-append (field_len (length name))
      (name ++ (field_len (length value) ++ (value ++ encode_fields headers))),
  length-append name (field_len (length value) ++ (value ++ encode_fields headers)),
  length-append (field_len (length value)) (value ++ encode_fields headers),
  length-append value (encode_fields headers),
  length-field_len (length name),
  length-field_len (length value),
  length-encode_fields headers,
)

-- One round of the two loops reads one header.
module _ (name value : Text) (headers : List Header) (t : is_utf8 name ≡ true)
    (fits : block_len ((name, value) ∷ headers) < u32_mod) where
  read_first :
      read_header (encode_fields ((name, value) ∷ headers))
      ≡ some (name, value, encode_fields headers)
  unfolding encode_fields
  read_first =
      unfold block_len in
      read_header-encode name value (encode_fields headers) t (omega arith) (omega arith)

fields_parse_step :
    (n : ℕ) (block name value rest : Text)
    → read_header block ≡ some (name, value, rest)
    → fields_parse_rounds (suc n) block ≡ fields_parse_rounds n rest
unfolding fields_parse_rounds
fields_parse_step n [] name value rest h = unfold read_header read_field read_len in cc h
fields_parse_step n (b ∷ block) name value rest h = rw (h, fields_parse_rounds)

decode_fields_step :
    (n : ℕ) (block name value rest : Text)
    → read_header block ≡ some (name, value, rest)
    → decode_fields_rounds (suc n) block ≡ (name, value) ∷ decode_fields_rounds n rest
unfolding decode_fields_rounds
decode_fields_step n block name value rest h = rw (h, decode_fields_rounds)

fields_parse_rounds-encode :
    (n : ℕ) (headers : List Header)
    → AreTexts headers
    → block_len headers < u32_mod
    → block_len headers ≤ n
    → fields_parse_rounds n (encode_fields headers) ≡ true
unfolding block_len
fields_parse_rounds-encode n [] t fits enough =
    unfold fields_parse_rounds encode_fields in nothing n
  where
    nothing : (k : ℕ) → fields_parse_rounds k (encode_fields []) ≡ true
    nothing zero = unfold fields_parse_rounds encode_fields in refl
    nothing (suc k) = unfold fields_parse_rounds encode_fields in refl
fields_parse_rounds-encode zero ((name, value) ∷ headers) t fits enough = absurd (omega arith)
fields_parse_rounds-encode (suc n) ((name, value) ∷ headers) t fits enough =
    fields_parse_step n _ name value _ (read_first name value headers t.0 fits)
    ∙ fields_parse_rounds-encode n headers t.1 (omega arith) (omega arith)

decode_fields_rounds-encode :
    (n : ℕ) (headers : List Header)
    → AreTexts headers
    → block_len headers < u32_mod
    → block_len headers ≤ n
    → decode_fields_rounds n (encode_fields headers) ≡ headers
unfolding block_len
decode_fields_rounds-encode n [] t fits enough = nothing n
  where
    nothing : (k : ℕ) → decode_fields_rounds k (encode_fields []) ≡ []
    nothing zero = unfold decode_fields_rounds in refl
    nothing (suc k) =
        unfold decode_fields_rounds read_header read_field read_len encode_fields in refl
decode_fields_rounds-encode zero ((name, value) ∷ headers) t fits enough = absurd (omega arith)
decode_fields_rounds-encode (suc n) ((name, value) ∷ headers) t fits enough =
    decode_fields_step n _ name value _ (read_first name value headers t.0 fits)
    ∙ ap (◌∷◌ (name, value)) (decode_fields_rounds-encode n headers t.1 (omega arith) (omega arith))

-- The check accepts a block that was written.
pub fields_parse-encode :
    (headers : List Header)
    → AreTexts headers
    → block_len headers < u32_mod
    → fields_parse (encode_fields headers) ≡ true
unfolding fields_parse
fields_parse-encode headers t fits =
    fields_parse_rounds-encode _ headers t fits (omega (arith, length-encode_fields headers))

-- The headers of a block that was written come back, in order.
pub decode_fields-encode :
    (headers : List Header)
    → AreTexts headers
    → block_len headers < u32_mod
    → decode_fields (encode_fields headers) ≡ headers
unfolding decode_fields
decode_fields-encode headers t fits =
    decode_fields_rounds-encode _ headers t fits (omega (arith, length-encode_fields headers))
