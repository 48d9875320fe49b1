-- ===== src/InProcess/Log.antt =====
-- One stream of in_process/log.rs with the one subscription that may read it, of in_process/deliveries.rs
-- and in_process/seek.rs: the retained records, the queue, the reposition not yet applied, and the
-- calls made of the harness coordinator.
pub mod Replay
pub mod Balance
use ruststream_kinesis.Prelude.{
  ℕ, suc, ◌+◌, ◌-◌, Bool, true, false, ◌&&◌, Option, none, some, List, [], ◌∷◌, ◌++◌, Text, codes,
  str_eq, ltb, if◌then◌else◌, length, drop, take, min, Result, ok, err,
}
use ruststream_kinesis.Error.{KinesisError, read, aggregated_record, not_connected}
use ruststream_kinesis.Message.{
  KinesisPosition, horizon, latest, timestamp, sequence, Received, in_process, kpl_magic,
}
use ruststream_kinesis.InProcess.Sequence.{sequence_of, index_of}

-- `IN_PROCESS_SHARD`
abbrev pub in_process_shard : Text
in_process_shard = codes "shardId-000000000000"

-- `Record`; `B` is what its envelope reads back.
pub record Record (B : Type 0) : Type 0 where
  pub partition_key : Text
  pub content : Text
  pub read_back : B
  pub at_millis : ℕ

pub record Delivery (B : Type 0) : Type 0 where
  pub kept : Record B
  pub index : ℕ

pub record Plan : Type 0 where
  pub target : ℕ
  pub count : ℕ

pub record Feed (B : Type 0) : Type 0 where
  pub records : List (Record B)
  pub subscribed : Bool
  pub queue : List (Delivery B)
  pub pending : Option Plan
  pub enqueued : ℕ
  pub consumed : ℕ

abbrev pub count_of : Option Plan → ℕ
count_of none = 0
count_of (some plan) = plan.count

module _ {B : Type 0} where
  -- A stream without records, as `subscribe` finds and leaves it: the subscription starts at the tip.
  unfoldable pub subscribe : Feed B → Feed B
  subscribe f = record f { subscribed = true; queue = []; pending = none }

  -- `StreamLog::append`
  unfoldable pub append : Text → Text → B → ℕ → Feed B → Feed B
  append partition_key content read_back now f =
      let kept : Record B = record {
        partition_key = partition_key;
        content = content;
        read_back = read_back;
        at_millis = now;
      } in
      let delivery : Delivery B = record { kept = kept; index = length f.records } in
      if f.subscribed
      then record f {
        records = f.records ++ kept ∷ [];
        queue = f.queue ++ delivery ∷ [];
        enqueued = f.enqueued + 1;
      }
      else record f { records = f.records ++ kept ∷ [] }

  -- `partition_point(|record| record.at_millis < millis)`: the log's stamps do not decrease, so that is
  -- the length of its front before the instant.
  unfoldable pub partition_point : ℕ → List (Record B) → ℕ
  partition_point millis [] = 0
  partition_point millis (rec ∷ log) =
      let rest = partition_point millis log in if ltb rec.at_millis millis then suc rest else 0

  -- `target` of `StreamLog::plan_over`
  unfoldable pub target_of : Text → KinesisPosition → List (Record B) → Result KinesisError ℕ
  unfolding partition_point
  target_of stream horizon log = ok 0
  target_of stream latest log = ok (length log)
  target_of stream (timestamp millis) log = ok (partition_point millis log)
  target_of stream (sequence shard seq) log =
      if str_eq shard in_process_shard
      then (elim (index_of seq) [
        | none ↦ err (read stream shard (codes "the sequence number is not one this stream issued"))
        | some index ↦ ok (min index (length log))
      ])
      else err (read stream shard (codes "no live reader for this shard (not owned, or finished)"))

  unfoldable pub plan_over : Text → KinesisPosition → List (Record B) → Result KinesisError Plan
  unfolding target_of
  plan_over stream to log = elim (target_of stream to log) [
    | err e ↦ err e
    | ok target ↦ ok (record { target = target; count = length log - target })
  ]

  -- `SeekControl::install_seek`
  unfoldable pub install_seek : Plan → Feed B → Feed B
  install_seek plan f = record f {
    pending = some plan;
    enqueued = f.enqueued + plan.count;
    consumed = f.consumed + count_of f.pending;
  }

  -- `LogSeeker::seek`; `open` is the answer of `Bus::ensure_open`.
  unfoldable pub seek : Bool → Text → KinesisPosition → Feed B → Result KinesisError Unit × Feed B
  unfolding plan_over install_seek
  seek false stream to f = (err not_connected, f)
  seek true stream to f = elim (plan_over stream to f.records) [
    | err e ↦ (err e, f)
    | ok plan ↦ (ok tt, install_seek plan f)
  ]

  -- The deliveries of records, the first of which is number `n`.
  unfoldable pub deliveries : ℕ → List (Record B) → List (Delivery B)
  deliveries n [] = []
  deliveries n (rec ∷ log) = record { kept = rec; index = n } ∷ deliveries (suc n) log

  -- `StreamLog::reposition`
  unfoldable pub reposition : Plan → Feed B → Feed B
  unfolding deliveries
  reposition plan f =
      let suffix = deliveries plan.target (drop plan.target f.records) in
      record f {
        queue = suffix;
        enqueued = f.enqueued + (length suffix - plan.count);
        consumed = f.consumed + length f.queue;
      }

  -- `LogDeliveries::apply_pending`
  unfoldable pub apply_pending : Feed B → Feed B
  unfolding reposition
  apply_pending f = elim f.pending [
    | none ↦ f
    | some plan ↦ reposition plan (record f { pending = none })
  ]

  -- `LogDeliveries::deliver`; a refused record is released here, a delivered one when it is dropped.
  unfoldable pub deliver : Text → Delivery B → Feed B → Result KinesisError Received × Feed B
  deliver stream d f =
      if ltb 4 (length d.kept.content) && str_eq (take 4 d.kept.content) kpl_magic
      then (err (aggregated_record in_process_shard), record f { consumed = f.consumed + 1 })
      else (
        ok (record {
          content = d.kept.content;
          partition_key = d.kept.partition_key;
          sequence = sequence_of d.index;
          settlement = in_process stream in_process_shard;
        }),
        f,
      )

  -- `Release::drop`
  unfoldable pub release : Feed B → Feed B
  release f = record f { consumed = f.consumed + 1 }

  -- `poll_recv`, and the delivery it yields.
  unfoldable pub receive :
      Text → List (Delivery B) → Feed B → Option (Result KinesisError Received) × Feed B
  unfolding deliver
  receive stream [] f = (none, f)
  receive stream (d ∷ queue) f =
      let (answer, f') = deliver stream d (record f { queue = queue }) in (some answer, f')

  -- One poll of `LogDeliveries::stream`.
  unfoldable pub poll : Text → Feed B → Option (Result KinesisError Received) × Feed B
  unfolding apply_pending receive
  poll stream f = let f' = apply_pending f in receive stream f'.queue f'
