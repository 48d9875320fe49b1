-- ===== src/Envelope/NoOp.antt =====
-- crates/ruststream-kinesis/src/envelope/noop.rs: the record's data is the payload and nothing else.
use ruststream_kinesis.Prelude.{
  ◌≡◌, refl, ◌⊎◌, inl, inr, List, [], ◌∷◌, Text, Result, ok, err, length,
}
use ruststream_kinesis.Error.{EnvelopeError, unsupported_header}
use ruststream_kinesis.Envelope.{Envelope, MalformedHeaders}
use ruststream_kinesis.Envelope.Payload.{Body, whole, fit, payload}
use ruststream_kinesis.Envelope.Headers.{Header}

unfoldable pub seal : List Header → Text → Result EnvelopeError Text
seal [] content = ok content
seal ((name, value) ∷ headers) content = err (unsupported_header name)

unfoldable pub body : Text → Body
body record_data = whole

unfoldable pub read_headers : Text → Body → Result MalformedHeaders (List Header)
read_headers record_data b = ok []

-- `impl Envelope for NoOp`
abbrev pub no_op : Envelope
no_op = record { seal = seal; body = body; read_headers = read_headers }

-- A record is sealed only if it carries no header, and opens to its payload and no header; else the
-- publish fails and names the first header.
pub seal_refuses_or_opens :
    (headers : List Header) (content : Text)
    → ((headers ≡ [])
        × (seal headers content ≡ ok content)
        × (payload (fit (body content) (length content)) content ≡ content)
        × (read_headers content (body content) ≡ ok []))
      ⊎ ((name value : Text) × (rest : List Header) × (headers ≡ (name, value) ∷ rest)
          × (seal headers content ≡ err (unsupported_header name)))
unfolding seal body read_headers fit payload
seal_refuses_or_opens [] content = inl (refl, refl, refl, refl)
seal_refuses_or_opens ((name, value) ∷ headers) content = inr (name, value, headers, refl, refl)
