-- ===== src/Envelope.antt =====
-- crates/ruststream-kinesis/src/envelope/mod.rs: how a record's data carries the headers beside the
-- payload. The framework's `HeaderMap` is not this crate's code: it is a parameter, with the laws that
-- the code relies on.
pub mod Headers
pub mod Payload
pub mod Utf8
pub mod Rsk
pub mod NoOp
pub mod Framed
pub mod Choose
use ruststream_kinesis.Prelude.{
  ◌≡◌, Bool, Option, none, List, [], ◌∷◌, ◌++◌, Text, Result, str_eq, ◌||◌, not, if◌then◌else◌,
}
use ruststream_kinesis.Error.{EnvelopeError}
use Headers.{Header}
use Payload.{Body}

-- `MalformedHeaders`
pub data MalformedHeaders : Type 0 where
  malformed_headers : MalformedHeaders

-- `trait Envelope`. `seal` takes the headers that `EnvelopeHeaders` hands it; the headers that
-- `read_headers` adds come back in the order in which it inserts them.
pub record Envelope : Type 0 where
  pub seal : List Header → Text → Result EnvelopeError Text
  pub body : Text → Body
  pub read_headers : Text → Body → Result MalformedHeaders (List Header)
