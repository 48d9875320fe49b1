-- ===== src/Tests/Coordinators.antt =====
-- The coordinator of subscriber.rs on a shard whose parent is closed and was never read.
use ruststream_kinesis.Prelude.{
  ◌≤◌, ◌≡◌, ◌⊎◌, refl, true, false, none, some, List, Result, ok, err, ℕ, [], ◌∷◌, ◌++◌, codes,
  str_eq,
}
use ruststream_kinesis.Error.{KinesisError, not_connected}
use ruststream_kinesis.Cursor.{Lineage, opens}
use ruststream_kinesis.Lease.{key_eq}
use ruststream_kinesis.Lease.Contract.{holds}
use ruststream_kinesis.Lease.Memory.{
  MemoryLeaseStore, memory, new, with_lease, get, put, acquire_lease, read_lease, held_by_other,
}
use ruststream_kinesis.Lease.Memory.Rows.{row}
use ruststream_kinesis.Lease.Memory.Laws.{memory-Contract}
use ruststream_kinesis.Subscriber
use ruststream_kinesis.Subscriber.{installed}
use ruststream_kinesis.Subscriber.Service.{Shard}
use ruststream_kinesis.Subscriber.Listing.{is_closed}
use ruststream_kinesis.Subscriber.Parents.{
  parents, parents_from, parent_ids, by_id, weigh, at_tip, AllFree,
}
use ruststream_kinesis.Subscriber.Coordinator.{
  Coordinator, contains_key, consider, open_shard, acquire_shard, start_reader, rewind_of,
}
use ruststream_kinesis.Subscriber.Coordinator.OneReader.{Round, passes, ends, rounds, Distinct}
use ruststream_kinesis.Subscriber.Coordinator.Counts.{run_for}
use ruststream_kinesis.Subscriber.Coordinator.Outstanding.{outstanding, rounds-outstanding}
use ruststream_kinesis.Subscriber.Coordinator.Held.{coordinate, later_passes, coordinate-passes}
use ruststream_kinesis.Subscriber.Coordinator.Starts.{consider-starts, start_of, Unfinished}

abbrev listed : List Shard
listed =
    record {
      shard_id = codes "p";
      parent_shard_id = none;
      adjacent_parent_shard_id = none;
      ending_sequence_number = some (codes "9");
    }
    ∷ record {
      shard_id = codes "c";
      parent_shard_id = some (codes "p");
      adjacent_parent_shard_id = none;
      ending_sequence_number = none;
    }
    ∷ []

abbrev child : Shard
child = record {
  shard_id = codes "c";
  parent_shard_id = some (codes "p");
  adjacent_parent_shard_id = none;
  ending_sequence_number = none;
}

abbrev idle : Coordinator MemoryLeaseStore
idle = record {
  readers = [];
  rewinds = [];
  bus = Subscriber.new;
  gates = [];
  channels = 0;
  store = new;
  held = [];
  out = [];
  started = [];
}

-- The child's reader is started, at the tip.
child_starts :
    (consider memory (codes "orders") (codes "a") listed false 0 child idle).started
    ≡ record { shard = codes "c"; gate = 0; lineage = opens; rewind = none } ∷ []
unfolding consider open_shard acquire_shard start_reader rewind_of contains_key parents parents_from
    parent_ids by_id weigh at_tip is_closed with_lease get put read_lease acquire_lease
    held_by_other holds key_eq str_eq
child_starts = refl

consider-starts_example :
    let c' = consider memory (codes "orders") (codes "a") listed false 0 child idle in
    let s' = (parents memory (installed idle.bus) (codes "orders") listed child new).1 in
    (c'.started ≡ [])
    ⊎ ((lineage : Lineage) × (c'.started ≡ [] ++ start_of lineage (codes "c") idle ∷ [])
        × (c'.gates ≡ [] ++ 0 ∷ [])
        × ((row (record { stream = codes "orders"; shard = codes "c" }) c'.store).owner
            ≡ some (codes "a"))
        × Unfinished memory row memory-Contract
            (codes "orders")
            (codes "a")
            listed
            false
            0
            (codes "c")
            s'
        × (contains_key (codes "c") [] ≡ false)
        × AllFree memory (installed idle.bus) (codes "orders") listed (parent_ids child) new)
consider-starts_example =
    consider-starts memory row memory-Contract (codes "orders") (codes "a") listed false 0 child
      idle

-- A reader starts and returns between two passes, and the second starts it anew.
abbrev returns_between : List Round
returns_between =
    passes (ok listed) true 0 ∷ ends (codes "c") none ∷ passes (ok listed) false 1 ∷ []

-- A third pass finds the reader running, and starts no other.
abbrev runs_on : List Round
runs_on = returns_between ++ passes (ok listed) false 2 ∷ []

rounds-outstanding_example :
    let n = outstanding memory (codes "orders") (codes "a") (codes "c") runs_on idle 0 in
    let last = rounds memory (codes "orders") (codes "a") runs_on idle in
    (n ≤ 1) × (n ≡ run_for (codes "c") last.readers) × Distinct last.readers
unfolding run_for
rounds-outstanding_example =
    rounds-outstanding memory (codes "orders") (codes "a") (codes "c") runs_on idle tt

-- The first listing fails.
abbrev fails_first : List (Result KinesisError (List Shard) × ℕ)
fails_first = (err not_connected, 0) ∷ (ok listed, 1) ∷ []

coordinate-passes_example :
    coordinate memory (codes "orders") (codes "a") fails_first idle
    ≡ later_passes memory (codes "orders") (codes "a") fails_first idle
coordinate-passes_example =
    coordinate-passes memory (codes "orders") (codes "a") fails_first idle refl
