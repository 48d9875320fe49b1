-- ===== src/Tests/Seeks.antt =====
-- A seek at a reader of subscriber.rs that waits at the end of its shard, and at one that reads on.
use ruststream_kinesis.Prelude.{
  ◌⊎◌, ◌≢◌, ◌≤◌, zero, Text, ℕ, suc, err, ◌≡◌, refl, inr, true, false, none, some, List, [], ◌∷◌,
  ◌++◌, codes, All, str_eq, arith,
}
use ruststream_kinesis.Track.{drained}
use ruststream_kinesis.Track.Refinement.{tracker, outstanding}
use ruststream_kinesis.Lease.{key_eq}
use ruststream_kinesis.Lease.Memory.{
  MemoryLeaseStore, memory, with_lease, get, put, acquire_lease, record_opened_at_lease,
  held_by_other,
}
use ruststream_kinesis.Lease.Contract.{holds}
use ruststream_kinesis.Message.{KinesisMessage, checkpoint, gate_at}
use ruststream_kinesis.Message.Run.{Event, acks, bumps}
use ruststream_kinesis.Cursor.{at}
use ruststream_kinesis.Envelope.Payload.{whole}
use ruststream_kinesis.Subscriber.Seek.{bump}
use ruststream_kinesis.Subscriber.{current}
use ruststream_kinesis.Subscriber.Service.{Output}
use ruststream_kinesis.Subscriber.Reader.{
  Scene, Reader, drains, hand_out, hand_out_all, open_reading, forward, first_read, is_aggregated,
  send,
}
use ruststream_kinesis.Subscriber.Reader.Items.{items}
use ruststream_kinesis.Subscriber.Turn.{Input, wait, read_batch, turn}
use ruststream_kinesis.Subscriber.Turn.{prepare, recover, failed, refetch}
use ruststream_kinesis.Subscriber.Turn.Retries.{begins, goes_on, in_succession, Run-failures}
use ruststream_kinesis.Subscriber.Reader.{goes, renew, apply_all}
use ruststream_kinesis.Subscriber.{Stamped, unstamped}
use ruststream_kinesis.Subscriber.Service.{other}
use ruststream_kinesis.Error.{KinesisError}
use ruststream_kinesis.Subscriber.Turn.Ends.{scene_of}
use ruststream_kinesis.Subscriber.Turn.Stuck.{passed, after_seek, wait-stays}
use ruststream_kinesis.Subscriber.Turn.Gap.{sought, read_on, read_batch-sought}
use ruststream_kinesis.Cursor.{ShardStart, iterator_at}
use ruststream_kinesis.Cursor.Reopen.{tip}
use ruststream_kinesis.Lease.Memory.Rows.{row}
use ruststream_kinesis.Lease.Memory.Laws.{memory-Contract}
use ruststream_kinesis.Subscriber.Reader.{initial_iterator}
use ruststream_kinesis.Subscriber.Reader.Reopens.{hand_out-initial_iterator}
use ruststream_kinesis.Tests.Readers.{script, key, post, first, scene, reader}

-- A shard that is read to its end, with one delivery outstanding.
abbrev waiting : Scene (List Output) MemoryLeaseStore
waiting = record scene {
  world = record scene.world { trackers = tracker ((codes "49", false) ∷ []) ∷ [] };
}

-- The delivery, which is acknowledged after the seek.
abbrev delivered : KinesisMessage
delivered = record {
  received = record {
    content = codes "raw";
    partition_key = codes "k";
    sequence = codes "49";
    settlement =
        checkpoint
          (record { tracker = 0; index = 0; lease = key; owner = codes "a"; epoch = 0; gate = 0 });
  };
  body = whole;
}

abbrev meanwhile : List Event
meanwhile = acks delivered ∷ bumps 0 ∷ []

wait-stays_example :
    wait script memory post reader (after_seek script memory post meanwhile waiting)
    ≡ drains reader (after_seek script memory post meanwhile waiting)
unfolding passed drained tracker outstanding
wait-stays_example =
    wait-stays script memory post reader waiting meanwhile refl refl (omega arith) (omega arith)
      (omega arith) (inr (refl, refl), (tt, tt)) (omega arith)

abbrev one_batch : Output
one_batch = record { records = first ∷ []; next_shard_iterator = some (codes "next") }

abbrev reads_on : Scene (List Output) MemoryLeaseStore
reads_on = record scene { service = one_batch ∷ [] }

abbrev input : Input
input = record { seeks = []; idle_seek = none; limit = 100; now = 0 }

abbrev opened : Reader
opened = record reader { reading = record { rewind = some (at (codes "49")); unrecorded = false } }

abbrev handed : Scene (List Output) MemoryLeaseStore
handed = scene_of (
    hand_out_all script memory post 1 (first ∷ []) reader
      (read_on script memory post input reader (sought script memory post reads_on)))

read_batch-sought_example :
    let after = sought script memory post reads_on in
    let early = items post (gate_at after.world 0) 0 0 (first ∷ []) in
    let late = items post (gate_at reads_on.world 0) 0 0 (first ∷ []) in
    ((scene_of (read_batch script memory post input reader after)).out ≡ [] ++ early)
    × All (λ item. current item after.world.gates ≡ true) early
    × All (λ item. current item after.world.gates ≡ false) late
unfolding hand_out_all hand_out open_reading forward first_read is_aggregated send with_lease get
    put acquire_lease record_opened_at_lease key_eq str_eq holds held_by_other bump tracker
    outstanding
read_batch-sought_example =
    read_batch-sought script memory post input one_batch reader opened reads_on handed []
      (omega arith, refl) (omega arith) (omega arith) (omega arith) refl refl

abbrev reported : Text → ℕ → List Stamped
reported e zero = []
reported e (suc n) = unstamped (err (KinesisError.read key.stream key.shard e)) ∷ reported e n

-- The reader and its scene after as many failed reads.
abbrev failing : ℕ → Reader
failing n = record reader { failures = n }

abbrev failed_scene : ℕ → Scene (List Output) MemoryLeaseStore
failed_scene n = record scene { out = reported (codes "nothing left") n }

goes_on_first :
    turn script memory post input (failing 0) (failed_scene 0) ≡ goes (failing 1) (failed_scene 1)
unfolding turn prepare renew apply_all read_batch failed recover send refetch with_lease get put
    acquire_lease key_eq str_eq
goes_on_first = refl

goes_on_second :
    turn script memory post input (failing 1) (failed_scene 1) ≡ goes (failing 2) (failed_scene 2)
unfolding turn prepare renew apply_all read_batch failed recover send refetch with_lease get put
    acquire_lease key_eq str_eq
goes_on_second = refl

Run-failures_example :
    let e = err (other (codes "nothing left")) in
    (2 ≡ in_succession (e ∷ e ∷ [])) × (in_succession (e ∷ e ∷ []) ≤ 10)
unfolding prepare renew apply_all
Run-failures_example =
    Run-failures script memory post (failing 0) (failed_scene 0) _ (failing 2) (failed_scene 2) refl
      (goes_on _ input (failing 1) (failed_scene 1) (failing 2) (failed_scene 2)
        (goes_on [] input (failing 0) (failed_scene 0) (failing 1) (failed_scene 1) begins
          goes_on_first)
        goes_on_second)

-- The scene once the first record is handed out.
abbrev one_out : Scene (List Output) MemoryLeaseStore
one_out = scene_of (hand_out script memory post 0 first reader scene)

hands_out : hand_out script memory post 0 first reader scene ≡ goes opened one_out
unfolding hand_out open_reading forward first_read is_aggregated send with_lease get put
    acquire_lease record_opened_at_lease key_eq str_eq holds held_by_other
hands_out = refl

hand_out-initial_iterator_example :
    let later = one_out in
    ((initial_iterator script memory post opened.reading later).1.service ≡ later.service)
    ⊎ ((start : ShardStart) × (start ≢ tip)
        × ((initial_iterator script memory post opened.reading later).1.service
            ≡ (script.get_shard_iterator key.stream key.shard (iterator_at start) later.service).1))
hand_out-initial_iterator_example =
    hand_out-initial_iterator script memory post row memory-Contract 0 first reader opened scene
      one_out one_out hands_out (λ e. cc e)
