-- ===== src/Subscriber/Service.antt =====
-- The calls of the AWS SDK that subscriber.rs makes of Kinesis, as operations on the service's state.
-- A failed call is the text of its error, or its kind where the code looks at it.
use ruststream_kinesis.Prelude.{ℕ, Option, List, Text, Result}
use ruststream_kinesis.Cursor.{IteratorRequest}

pub record Shard : Type 0 where
  pub shard_id : Text
  pub parent_shard_id : Option Text
  pub adjacent_parent_shard_id : Option Text
  pub ending_sequence_number : Option Text

-- The blob of a record is its `content`.
pub record Record : Type 0 where
  pub sequence_number : Text
  pub partition_key : Option Text
  pub content : Text

-- A `ListShards` request carries the stream's name, or only the token of the page before.
pub data ListRequest : Type 0 where
  stream_name next_token : Text → ListRequest

pub record Output : Type 0 where
  pub records : List Record
  pub next_shard_iterator : Option Text

pub data GetRecordsError : Type 0 where
  expired_iterator resource_not_found provisioned_throughput_exceeded other : Text → GetRecordsError

pub record Service (V : Type 0) : Type 0 where
  pub list_shards : ListRequest → V → Result Text (List Shard × Option Text) × V
  pub get_shard_iterator : Text → Text → IteratorRequest → V → Result Text (Option Text) × V
  pub get_records : Text → ℕ → V → Result GetRecordsError Output × V
