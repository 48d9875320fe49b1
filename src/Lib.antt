-- ===== src/Lib.antt =====
-- ruststream-kinesis is a message broker over AWS Kinesis for the ruststream framework. Its crate is
-- crates/ruststream-kinesis/src (R below). A publisher seals a message's headers and payload into a
-- record (R/publisher.rs, R/envelope) and puts it under a partition key. A subscription (R/subscriber.rs)
-- leases the shards of a stream through a lease store (R/lease.rs), reads each leased shard with a
-- reader, and hands its records to handlers as deliveries (R/message.rs). An acknowledgement is a
-- checkpoint: each reader's watermark (R/track.rs) turns settlements in any order into the sequence
-- number of a handled run of deliveries, which is stored in the shard's lease row. A reader that starts
-- opens at the checkpoint, or at a place chosen in R/cursor.rs. A seek retires the deliveries before it
-- by raising the shard's gate. For tests, R/in_process keeps a log per stream in place of the service.
--
-- Which file models which part:
--   Prelude: the shared names, Rust's Result, texts as lists of bytes, lists measured by native numbers
--   Error: R/error.rs, and the error types of R/envelope/mod.rs and R/lease.rs
--   Track: R/track.rs; Track/Refinement and Track/Checkpoint relate it to a log of all deliveries
--   Cursor: R/cursor.rs
--   Lease: the keys and the trait LeaseStore of R/lease.rs as a record of operations on a state;
--     Lease/Contract is what the trait promises of its writes and Lease/Promises all that it
--     promises, Lease/Calls is calls of any callers in order,
--     Lease/Memory is MemoryLeaseStore
--   Envelope: R/envelope/mod.rs; Envelope/Rsk is rsk.rs with its wire form and the text form of
--     earlier releases, Envelope/NoOp is noop.rs, Envelope/Framed is framed/mod.rs with its
--     children Binary and Json
--   Message: R/message.rs; Message/Run is settlements, deliveries and seeks of one shard in any order
--   Subscriber: R/subscriber.rs; Seek is ShardSeeker, Listing is list_all_shards, Parents is parents,
--     Reader and Turn are read_shard with initial_iterator and apply_shard_seek, Coordinator is a pass
--     of coordinate, Coordinator/Held is its loop, Coordinator/Outstanding is passes and returns of
--     readers in any order
--   InProcess: R/in_process: Sequence is the sequence numbers, Log one stream's log with its seeks and
--     deliveries, Bus the checks and the publish of mod.rs on one stream, Streams the transport over all
--     of them
--   Claim: R/claim.rs
--   Context: R/context.rs, and KinesisSeeker of R/subscriber.rs
--   Stream: the descriptors of R/stream.rs; Envelope/Choose is ChooseEnvelope of R/envelope/mod.rs
--   Broker: subscribe_stream and shutdown of R/broker.rs; Subscribing and Existing are about it; Connecting
--     is its builder and connect, with the publish policy of R/publisher.rs, and Connecting/Clones two
--     clones that both connect; Owner is owner_on
--   Link: the two transports of R/broker.rs side by side: publish of R/publisher.rs over either, and the
--     hooks of the harness; Alike, Deliveries and Routes compare them. Subscribing is subscribe_stream on
--     either, Polled has Deliveries of R/subscriber.rs, Shut is about the shutdown
--   Clients: RuntimeClients::with of R/clients.rs, on one thread
--   Describe: the host of R/broker/describe.rs and SdkClient::build of R/clients.rs
--   Dynamo: R/dynamo.rs; Dynamo/Documented is what the documentation of DynamoDB says of the two calls made
--   Publisher: resolve_partition_key and publish of R/publisher.rs; Spread is spread_key
--   Tests: runs on small inputs, and an instance of each result that has hypotheses
--
-- How state and operations correspond: a method on shared state is a function from the state to its
-- answer and the next state; what a mutex guards is one step. The trackers and gates behind an Arc are
-- places in the lists of a World, so that settlements and readers share them. An await is the end of a
-- step: a reader's turn is one step from its first check to its last, and what other tasks do meanwhile
-- stands between the turns, or in the order of the events of a run. A closed channel stays as it is
-- for a turn. Time is an argument, in milliseconds. Counters of 64 bits wrap around.
--
-- Parameters: the SDK's calls (Subscriber/Service, the PutRecord of Publisher, the service of Dynamo,
-- the Control of Broker, the loading of a configuration, the endpoint rules of Describe), the codecs,
-- serde_json and base64 (Envelope/Framed), the framework's header map with its laws
-- (Envelope/Headers), and the reading of a host from a URL. The coordinator of the test harness is the
-- number of the calls made of it.
--
-- Bounds and fuel: the listing of shards runs on fuel, and as many rounds as there are pages are
-- enough. The loops over a header block run on the block's length, and every round consumes at least
-- one byte of it. A tracker's results hold for fewer than 2^64 calls, those of the drawn partition keys for
-- fewer than 2^64 records, a sealed header block for fewer than 2^32 bytes.
--
-- Not modelled: the spawning of tasks and the waits between the coordinator's passes; the construction
-- of SDK clients (R/clients.rs) beyond their endpoint and region; the wakers of R/in_process; and, as
-- they hold no logic of their own, the AsyncAPI bindings and the re-exports.
pub mod Prelude
pub mod Error
pub mod Track
pub mod Cursor
pub mod Lease
pub mod Envelope
pub mod Message
pub mod Subscriber
pub mod InProcess
pub mod Dynamo
pub mod Stream
pub mod Broker
pub mod Clients
pub mod Describe
pub mod Link
pub mod Context
pub mod Claim
pub mod Publisher
mod Tests
