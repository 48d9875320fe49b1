-- ===== src/InProcess/Streams.antt =====
-- crates/ruststream-kinesis/src/in_process/mod.rs: the transport of one broker, which is a log for each
-- stream and the flag that its shutdown sets. The calls made of the harness coordinator are counted for
-- each stream by itself.
pub mod Follows
pub mod InOrder
use ruststream_kinesis.Prelude.{
  ℕ, Bool, true, false, not, Option, none, some, List, [], ◌∷◌, Text, str_eq, if◌then◌else◌, Result,
  ok, err,
}
use ruststream_kinesis.Error.{not_connected, KinesisError}
use ruststream_kinesis.Envelope.{Envelope}
use ruststream_kinesis.Envelope.Headers.{HeaderMap, partition_key_header}
use ruststream_kinesis.Message.{KinesisPosition, Received}
use ruststream_kinesis.Publisher.{KinesisPublishOptions, resolve_partition_key}
use ruststream_kinesis.InProcess.Log
use ruststream_kinesis.InProcess.Log.{Record, Feed}
use ruststream_kinesis.InProcess.Bus
use ruststream_kinesis.InProcess.Bus.{ReadBack, PutError, failed, refuses, check_stream}

-- `Bus`, with the maps of its `StreamLog`: a stream that they do not hold has an empty feed.
pub record Transport (h : HeaderMap) : Type 0 where
  pub is_closed : Bool
  pub feeds : Text → Feed (ReadBack h)

abbrev pub empty : {B : Type 0} → Feed B
empty = record {
  records = [];
  subscribed = false;
  queue = [];
  pending = none;
  enqueued = 0;
  consumed = 0;
}

-- `StreamLog::clear`, for one stream; its subscription keeps both ends of its queue.
abbrev clear : {B : Type 0} → Feed B → Feed B
clear f = record f { records = []; subscribed = false }

-- A record as the harness reports it.
pub record Published (h : HeaderMap) : Type 0 where
  pub payload : Text
  pub headers : h.Map

abbrev pub report : (h : HeaderMap) → Record (ReadBack h) → Published h
report h rec = record {
  payload = rec.read_back.payload;
  headers = h.insert partition_key_header rec.partition_key rec.read_back.headers;
}

abbrev pub reports : (h : HeaderMap) → List (Record (ReadBack h)) → List (Published h)
reports h [] = []
reports h (rec ∷ log) = report h rec ∷ reports h log

module _ (h : HeaderMap) where
  -- `Bus::new`
  abbrev pub new : Transport h
  new = record { is_closed = false; feeds = λ stream. empty }

  abbrev pub at : Text → Feed (ReadBack h) → Transport h → Transport h
  at stream f b = record b { feeds = λ other. if str_eq other stream then f else b.feeds other }

  unfoldable pub close : Transport h → Transport h
  close b = record { is_closed = true; feeds = λ stream. clear (b.feeds stream) }

  -- `Bus::subscribe`; the reason of `KinesisError::Stream` is data.
  unfoldable pub subscribe : Text → Transport h → Result PutError Unit × Transport h
  subscribe stream b =
      if b.is_closed then (err (failed not_connected), b) else elim (check_stream stream) [
        | err reason ↦ (err (refuses stream reason), b)
        | ok _ ↦ (ok tt, at stream (Log.subscribe (b.feeds stream)) b)
      ]

  -- The drop of `LogDeliveries`.
  unfoldable pub unsubscribe : Text → Transport h → Transport h
  unsubscribe stream b = at stream (record (b.feeds stream) { subscribed = false }) b

  -- `Bus::put`
  unfoldable pub put :
      Envelope
      → Option KinesisPublishOptions
      → Option Text
      → Text
      → h.Map
      → Text
      → Text
      → ℕ
      → Transport h
      → Result PutError Unit × Transport h
  put e options from_policy stream headers payload fresh now b =
      let key = resolve_partition_key h options headers from_policy fresh in
      let (answer, f) =
        Bus.put h e (not b.is_closed) stream key headers payload now (b.feeds stream) in
      (answer, at stream f b)

  -- `Bus::inject`
  unfoldable pub inject :
      Envelope → Text → h.Map → Text → Text → ℕ → Transport h → Result PutError Unit × Transport h
  inject broker stream headers payload fresh now b =
      put broker none none stream headers payload fresh now b

  -- `Bus::published`
  unfoldable pub published : Text → Transport h → List (Published h)
  published stream b = reports h (b.feeds stream).records

  -- `LogSeeker::seek`
  unfoldable pub seek :
      Text → KinesisPosition → Transport h → Result KinesisError Unit × Transport h
  seek stream to b =
      let (answer, f) = Log.seek (not b.is_closed) stream to (b.feeds stream) in
      (answer, at stream f b)

  -- A poll of the stream's subscription.
  unfoldable pub poll : Text → Transport h → Option (Result KinesisError Received) × Transport h
  poll stream b = let (answer, f) = Log.poll stream (b.feeds stream) in (answer, at stream f b)
