-- ===== src/Envelope/Rsk.antt =====
-- crates/ruststream-kinesis/src/envelope/rsk.rs: the default envelope, a binary header block in front
-- of the payload when a record carries headers, and the text block of earlier releases.
pub mod Wire
pub mod TextBlock
pub mod Fields
pub mod RoundTrip
use ruststream_kinesis.Prelude.{
  ℕ, ◌+◌, Bool, true, false, ◌&&◌, ◌||◌, not, Option, none, some, List, [], ◌∷◌, ◌++◌, Text, codes,
  length, take, drop, str_eq, ltb, ◌==◌, if◌then◌else◌, Result, ok,
}
use ruststream_kinesis.Error.{EnvelopeError}
use ruststream_kinesis.Envelope.{Envelope, MalformedHeaders}
use ruststream_kinesis.Envelope.Payload.{Body, whole, within}
use ruststream_kinesis.Envelope.Headers.{Header}
use Wire.{◌>>=◌, field_len, read_len, fields_parse, decode_fields, encode_fields, block_len}
use TextBlock.{decode_text}

abbrev pub magic : Text
magic = codes "RSK2"

abbrev pub text_magic : Text
text_magic = codes "RSK1"

-- The magic and the block length.
abbrev pub prefix : ℕ
prefix = 8

-- `first_chunk::<4>()`
unfoldable pub first_chunk : Text → Option Text
first_chunk (a ∷ b ∷ c ∷ d ∷ rest) = some (a ∷ b ∷ c ∷ d ∷ [])
first_chunk _ = none

unfoldable pub looks_enveloped : Text → Bool
unfolding first_chunk
looks_enveloped payload = elim (first_chunk payload) [
  | none ↦ false
  | some chunk ↦ str_eq chunk magic || str_eq chunk text_magic
]

pub data Block : Type 0 where
  fields : Text → Block
  text : Text → Block

-- The header block and where the payload starts, by the magic; `rest` follows the block length.
unfoldable pub block_of : Text → ℕ → Text → Option (Block × ℕ)
block_of chunk len rest =
    if ltb (length rest) len
    then none
    else if str_eq chunk magic
    then (if fields_parse (take len rest)
        then some (fields (take len rest), prefix + len)
        else none)
    else if str_eq chunk text_magic
    then some (text (take len rest), prefix + len)
    else none

unfoldable pub split : Text → Option (Block × ℕ)
unfolding first_chunk
split data_ = do
  chunk ← first_chunk data_
  (len, rest) ← read_len (drop 4 data_)
  block_of chunk len rest

unfoldable pub seal : List Header → Text → Result EnvelopeError Text
seal headers payload =
    if block_len headers == 0 && not (looks_enveloped payload)
    then ok payload
    else ok (magic ++ (field_len (block_len headers) ++ (encode_fields headers ++ payload)))

unfoldable pub body : Text → Body
body data_ = elim (split data_) [ none ↦ whole | some (block, start) ↦ within start (length data_) ]

unfoldable pub decode_block : Block → List Header
decode_block (fields block) = decode_fields block
decode_block (text block) = decode_text block

unfoldable pub read_headers : Text → Body → Result MalformedHeaders (List Header)
unfolding decode_block
read_headers data_ _ = elim (split data_) [
  | none ↦ ok []
  | some (block, start) ↦ ok (decode_block block)
]

-- `impl Envelope for Rsk`
abbrev pub rsk : Envelope
rsk = record { seal = seal; body = body; read_headers = read_headers }
