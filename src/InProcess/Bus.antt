-- ===== src/InProcess/Bus.antt =====
-- crates/ruststream-kinesis/src/in_process/mod.rs: what the in-process transport refuses, and a publish
-- onto one stream's log. A reason is data in place of its sentence.
pub mod Appends
pub mod ReadsBack
use ruststream_kinesis.Prelude.{
  ℕ, suc, ◌+◌, ◌*◌, ◌==◌, Bool, true, false, ◌&&◌, ◌||◌, Option, none, some, List, [], ◌∷◌, Text,
  ltb, leb, if◌then◌else◌, length, Result, ok, err,
}
use ruststream_kinesis.Error.{KinesisError, EnvelopeError, not_connected, envelope}
use ruststream_kinesis.Envelope.{Envelope, MalformedHeaders}
use ruststream_kinesis.Envelope.Headers.{Header, HeaderMap, written}
use ruststream_kinesis.Envelope.Headers.Laws.{insert_all}
use ruststream_kinesis.Envelope.Payload
use ruststream_kinesis.Envelope.Payload.{fit}
use ruststream_kinesis.InProcess.Log.{Feed, append}

abbrev pub max_stream_name : ℕ
max_stream_name = 128

abbrev pub max_partition_key : ℕ
max_partition_key = 256

abbrev pub max_record : ℕ
max_record = 10 * 1024 * 1024

pub data Reason : Type 0 where
  name_length name_character key_length record_size : ℕ → Reason

-- `c.is_ascii_alphanumeric() || matches!(c, '_' | '.' | '-')`, on a byte.
unfoldable pub is_allowed : ℕ → Bool
is_allowed c =
    (leb b'0' c && leb c b'9')
    || (leb b'A' c && leb c b'Z')
    || (leb b'a' c && leb c b'z')
    || c == b'_'
    || c == b'.'
    || c == b'-'

-- The first byte of the first refused character.
unfoldable pub refused : Text → Option ℕ
unfolding is_allowed
refused [] = none
refused (c ∷ text) = let rest = refused text in if is_allowed c then rest else some c

-- `chars().count()`: every byte but the continuation bytes begins a character.
unfoldable pub chars : Text → ℕ
chars [] = 0
chars (c ∷ text) = let rest = chars text in if leb 128 c && leb c 191 then rest else suc rest

unfoldable pub check_stream : Text → Result Reason Unit
unfolding refused
check_stream stream =
    if length stream == 0 || ltb max_stream_name (length stream)
    then err (name_length (length stream))
    else elim (refused stream) [ some c ↦ err (name_character c) | none ↦ ok tt ]

unfoldable pub check_record : Text → Text → ℕ → Result Reason Unit
unfolding check_stream chars
check_record stream partition_key size = elim (check_stream stream) [
  | err reason ↦ err reason
  | ok _ ↦
      if chars partition_key == 0 || ltb max_partition_key (chars partition_key)
      then err (key_length (chars partition_key))
      else if ltb max_record (size + length partition_key)
      then err (record_size (size + length partition_key))
      else ok tt
]

pub record ReadBack (h : HeaderMap) : Type 0 where
  pub headers : h.Map
  pub payload : Text

abbrev pub read_or_new : (h : HeaderMap) → Result MalformedHeaders (List Header) → h.Map
read_or_new h (ok headers) = insert_all h headers h.new
read_or_new h (err _) = h.new

-- What the envelope reads back from a record's data.
unfoldable pub read_back : (h : HeaderMap) → Envelope → Text → ReadBack h
read_back h e content =
    let body = fit (e.body content) (length content) in
    record {
      headers = read_or_new h (e.read_headers content body);
      payload = Payload.payload body content;
    }

unfoldable pub write :
    (h : HeaderMap) → Envelope → h.Map → Text → Result EnvelopeError (Text × ReadBack h)
unfolding read_back
write h e headers payload = elim (e.seal (written (h.iter headers)) payload) [
  | err x ↦ err x
  | ok content ↦ ok (content, read_back h e content)
]

-- Why a publish failed: the transport's error, or the reason of `KinesisError::Publish`.
pub data PutError : Type 0 where
  failed : KinesisError → PutError
  refuses : Text → Reason → PutError

-- `Bus::append`
unfoldable pub append_checked :
    {h : HeaderMap}
    → Text
    → Text
    → Text × ReadBack h
    → ℕ
    → Feed (ReadBack h)
    → Result PutError Unit × Feed (ReadBack h)
unfolding check_record append
append_checked stream key (content, back) now f = elim (check_record stream key (length content)) [
  | err reason ↦ (err (refuses stream reason), f)
  | ok _ ↦ (ok tt, append key content back now f)
]

-- `Bus::put`, under the resolved partition key.
unfoldable pub put :
    (h : HeaderMap)
    → Envelope
    → Bool
    → Text
    → Text
    → h.Map
    → Text
    → ℕ
    → Feed (ReadBack h)
    → Result PutError Unit × Feed (ReadBack h)
unfolding write append_checked
put h e false stream key headers payload now f = (err (failed not_connected), f)
put h e true stream key headers payload now f = elim (write h e headers payload) [
  | err x ↦ (err (failed (envelope stream x)), f)
  | ok back ↦ append_checked stream key back now f
]
