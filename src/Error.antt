-- ===== src/Error.antt =====
-- crates/ruststream-kinesis/src/error.rs: the crate's error type. A boxed source is the text of its
-- cause chain, which is what the code keeps of it.
use ruststream_kinesis.Prelude.{Text}

-- What lease stores report: the failure of a store, or dynamo.rs's `UnattributedLegacyRow`.
pub data LeaseError : Type 0 where
  store_failure : Text → LeaseError
  unattributed_legacy_row : Text → Text → Text → LeaseError  -- table, shard, stream

-- envelope/mod.rs: why an envelope could not write a record.
pub data EnvelopeError : Type 0 where
  unsupported_header : Text → EnvelopeError
  header_not_text : Text → EnvelopeError
  codec : Text → EnvelopeError
  other : Text → EnvelopeError

pub data KinesisError : Type 0 where
  stream : Text → Text → KinesisError  -- stream, source
  read : Text → Text → Text → KinesisError  -- stream, shard, source
  aggregated_record : Text → KinesisError  -- shard
  publish : Text → Text → KinesisError  -- stream, source
  lease : Text → Text → LeaseError → KinesisError  -- stream, shard, source
  envelope : Text → EnvelopeError → KinesisError  -- stream, source
  not_connected : KinesisError
  already_subscribed : Text → KinesisError  -- stream
  invalid : Text → KinesisError
