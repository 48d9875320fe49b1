-- ===== src/Tests/Readers.antt =====
-- The readers of subscriber.rs over a service that answers from a script.
use ruststream_kinesis.Prelude.{
  ◌≡◌, ◌≢◌, refl, Bool, true, false, none, some, List, [], ◌∷◌, Text, codes, ok, err, str_eq, All,
  arith,
}
use ruststream_kinesis.Track
use ruststream_kinesis.Track.Refinement.{tracker, outstanding, Log}
use ruststream_kinesis.Cursor.{StreamStart, opens}
use ruststream_kinesis.Lease.{LeaseKey, key_eq, shard_end}
use ruststream_kinesis.Lease.Contract.{holds}
use ruststream_kinesis.Lease.Memory.{
  MemoryLeaseStore, memory, new, with_lease, get, put, acquire_lease, renew_lease, read_lease,
  checkpoint_lease, held_by_other,
}
use ruststream_kinesis.Lease.Memory.Rows.{row}
use ruststream_kinesis.Lease.Memory.Laws.{memory-Contract}
use ruststream_kinesis.Message.{tracker_at}
use ruststream_kinesis.Subscriber
use ruststream_kinesis.Subscriber.{ShardHandle, SeekState, live, install, is_current}
use ruststream_kinesis.Subscriber.Seek.{Hub, seek_stream}
use ruststream_kinesis.Subscriber.Seek.Retire.{seek_stream-retires}
use ruststream_kinesis.Subscriber.Service.{
  Service, Shard, Record, Output, stream_name, next_token, other,
}
use ruststream_kinesis.Subscriber.Listing.{
  last, more, list_all_shards, list_all_shards-Pages, is_closed,
}
use ruststream_kinesis.Subscriber.Parents.{
  pending, parents, parents_from, parent_ids, by_id, weigh, at_tip, AllFree, parents-AllFree,
}
use ruststream_kinesis.Subscriber.Reader.{Scene, Reader, Post, hand_out, hand_out_all, apply_all}
use ruststream_kinesis.Subscriber.Reader.Opening.{HandedOut, hand_out-opened}
use ruststream_kinesis.Subscriber.Reader.Items.{Batch}
use ruststream_kinesis.Subscriber.Reader.Batch.{hand_out_all-Batch}
use ruststream_kinesis.Subscriber.Turn.{Input, turn}
use ruststream_kinesis.Subscriber.Turn.Ends.{
  scene_of, checkpoint_in, wait-consumed, wait-closes, turn-fenced,
}

abbrev parent : Shard
parent = record {
  shard_id = codes "p";
  parent_shard_id = none;
  adjacent_parent_shard_id = none;
  ending_sequence_number = some (codes "9");
}

abbrev child : Shard
child = record {
  shard_id = codes "c";
  parent_shard_id = some (codes "p");
  adjacent_parent_shard_id = none;
  ending_sequence_number = none;
}

-- The state is the reads to come.
abbrev pub script : Service (List Output)
script = record {
  list_shards = λ request v. (
    elim request [
      | stream_name _ ↦ ok (parent ∷ [], some (codes "t"))
      | next_token _ ↦ ok (child ∷ [], none)
    ],
    v,
  );
  get_shard_iterator = λ stream shard request v. (ok (some (codes "it")), v);
  get_records = λ iterator limit v. elim v [
    | [] ↦ (err (other (codes "nothing left")), [])
    | output ∷ rest ↦ (ok output, rest)
  ];
}

list_all_shards-Pages_example :
    list_all_shards script (codes "orders") 2 [] ≡ (some (ok (parent ∷ child ∷ [])), [])
list_all_shards-Pages_example =
    list_all_shards-Pages script (codes "orders") [] [] ((parent ∷ []) ∷ (child ∷ []) ∷ []) 2
      (more (stream_name (codes "orders")) [] [] [] (parent ∷ []) (codes "t") ((child ∷ []) ∷ [])
        refl (last (next_token (codes "t")) [] [] (child ∷ []) refl))
      (omega arith)

skips : (parents memory none (codes "orders") (parent ∷ child ∷ []) child new).0 ≢ pending
unfolding parents parents_from parent_ids by_id weigh at_tip is_closed str_eq with_lease get
    read_lease
skips e = cc e

parents-AllFree_example :
    AllFree memory none (codes "orders") (parent ∷ child ∷ []) (parent_ids child) new
parents-AllFree_example =
    parents-AllFree memory none (codes "orders") (parent ∷ child ∷ []) child new skips

abbrev pub key : LeaseKey
key = record { stream = codes "orders"; shard = codes "c" }

abbrev pub post : Post
post = record { lease = key; owner = codes "a"; gate = 0; lineage = opens }

abbrev pub first : Record
first = record {
  sequence_number = codes "49";
  partition_key = some (codes "k");
  content = codes "raw";
}

abbrev aggregated : Record
aggregated = record {
  sequence_number = codes "50";
  partition_key = none;
  content = 0xF3 ∷ 0x89 ∷ 0x9A ∷ 0xC2 ∷ 1 ∷ [];
}

abbrev pub scene : Scene (List Output) MemoryLeaseStore
scene = record {
  service = [];
  world = record {
    trackers = Track.default ∷ [];
    gates = 0 ∷ [];
    store = (memory.acquire key (codes "a") 10000 0 new).1;
  };
  bus = Subscriber.new;
  out = [];
  closed = false;
  answers = [];
}

abbrev pub reader : Reader
reader = record {
  iterator = codes "it";
  tracker = 0;
  reading = record { rewind = none; unrecorded = true };
  last_renew = 0;
  failures = 0;
}

hand_out-opened_example :
    HandedOut post row (codes "49") reader scene (hand_out script memory post 0 first reader scene)
hand_out-opened_example =
    hand_out-opened script memory post row memory-Contract 0 first reader scene

hand_out_all-Batch_example :
    Batch script memory post 0
      (first ∷ aggregated ∷ [])
      0
      []
      []
      (hand_out_all script memory post 0 (first ∷ aggregated ∷ []) reader scene)
unfolding tracker outstanding
hand_out_all-Batch_example =
    hand_out_all-Batch script memory post 0 (first ∷ aggregated ∷ []) reader scene []
      (omega arith, refl) (omega arith)

-- A tracker whose one delivery is settled.
abbrev settled : Log
settled = (codes "49", true) ∷ []

abbrev ending : Scene (List Output) MemoryLeaseStore
unfolding tracker outstanding
ending = record scene { world = record scene.world { trackers = tracker settled ∷ [] } }

stands : tracker_at ending.world reader.tracker ≡ tracker settled
unfolding ending
stands = refl

fresh : checkpoint_in script memory post row memory-Contract ending ≢ some shard_end
unfolding ending row with_lease get put acquire_lease key_eq str_eq holds held_by_other
fresh e = cc e

takes : (memory.checkpoint key (codes "a") shard_end ending.world.store).0 ≡ ok true
unfolding ending with_lease get put acquire_lease checkpoint_lease key_eq str_eq holds held_by_other
takes = refl

wait-consumed_example : All (λ (x : Text × Bool). x.1 ≡ true) settled
wait-consumed_example =
    wait-consumed script memory post row memory-Contract reader ending settled stands fresh
      (wait-closes script memory post row memory-Contract reader ending settled stands (refl, tt)
        takes).0

abbrev late : Input
late = record { seeks = []; idle_seek = none; limit = 1000; now = 20000 }

-- Another instance has taken the lease over.
abbrev taken_over : Scene (List Output) MemoryLeaseStore
taken_over = record scene {
  world = record scene.world {
    store = (memory.acquire key (codes "b") 10000 15000 scene.world.store).1;
  };
}

turn-fenced_example : (scene_of (turn script memory post late reader taken_over)).out ≡ []
unfolding apply_all with_lease get put acquire_lease renew_lease key_eq str_eq holds held_by_other
turn-fenced_example = turn-fenced script memory post late reader taken_over refl refl

abbrev hub : Hub
hub = record {
  bus = record { shards = (codes "c", record { gate = 1; tx = 0 }) ∷ []; start = none };
  gates = 7 ∷ 3 ∷ [];
  queues = some [] ∷ [];
  asked = 0;
}

seek_stream-retires_example :
    ((seek_stream StreamStart.horizon hub).1.bus ≡ install StreamStart.horizon hub.bus)
    × (is_current (some (3, 1)) (seek_stream StreamStart.horizon hub).1.gates ≡ false)
unfolding live
seek_stream-retires_example =
    seek_stream-retires StreamStart.horizon hub 0 (record { gate = 1; tx = 0 }) refl (omega arith)
      (omega arith) (omega arith)
