-- ===== src/Stream.antt =====
-- crates/ruststream-kinesis/src/stream.rs: the subscription descriptor. A duration is in milliseconds.
use ruststream_kinesis.Prelude.{
  ℕ, Option, none, some, Text, codes, [], ◌∷◌, Result, ok, err, if◌then◌else◌,
}
use ruststream_kinesis.Prelude.Int.{ℤ, pos, ltb_ℤ}
use ruststream_kinesis.Error.{KinesisError, invalid}
use ruststream_kinesis.Envelope.{Envelope}
use ruststream_kinesis.Envelope.Choose.{Choice, inherit, named}

pub record KinesisStream : Type 0 where
  pub stream : Text
  pub poll_interval : ℕ
  pub create_shards : Option ℤ  -- i32
  pub envelope : Choice

-- `KinesisStream::new`
abbrev pub new : Text → KinesisStream
new stream = record {
  stream = stream;
  poll_interval = 1000;
  create_shards = none;
  envelope = inherit;
}

-- `KinesisStream::envelope`
abbrev pub with_envelope : Envelope → KinesisStream → KinesisStream
with_envelope e descriptor = record descriptor { envelope = named e }

unfoldable pub split : KinesisStream → KinesisStream × Choice
split descriptor = (record descriptor { envelope = inherit }, descriptor.envelope)

-- `KinesisStream::poll_interval`
abbrev pub poll_every : ℕ → KinesisStream → KinesisStream
poll_every interval descriptor = record descriptor { poll_interval = interval }

abbrev pub create_if_missing : ℤ → KinesisStream → KinesisStream
create_if_missing shards descriptor = record descriptor { create_shards = some shards }

unfoldable pub validate : KinesisStream → Result KinesisError Unit
validate descriptor = elim descriptor.stream [
  | [] ↦ err (invalid (codes "stream must be non-empty"))
  | c ∷ rest ↦ elim descriptor.create_shards [
    | none ↦ ok tt
    | some shards ↦
        if ltb_ℤ shards (pos 1)
        then err (invalid (codes "create_if_missing needs at least one shard"))
        else ok tt
  ]
]
