-- ===== src/Tests/Leases.antt =====
-- The in-process lease store of lease.rs on the calls of its own tests.
use ruststream_kinesis.Prelude.{
  ◌≡◌, ◌≢◌, refl, List, [], ◌∷◌, Text, codes, str_eq, str_eq_iff, arith,
}
use ruststream_kinesis.Lease.{LeaseKey, key_eq}
use ruststream_kinesis.Lease.Key.{key_eq_iff}
use ruststream_kinesis.Lease.Memory.{memory, new, with_lease, get, put, acquire_lease}
use ruststream_kinesis.Lease.Memory.Rows.{row}
use ruststream_kinesis.Lease.Calls.{Event, acquires, checkpoints}
use ruststream_kinesis.Lease.Memory.Exclusive.{NoneAccepted, replay, acquired_is_exclusive}

abbrev orders : LeaseKey
orders = record { stream = codes "orders"; shard = codes "shardId-0" }

abbrev refunds : LeaseKey
refunds = record { stream = codes "refunds"; shard = codes "shardId-0" }

abbrev alice : Text
alice = codes "a"

abbrev bob : Text
bob = codes "b"

bob-ne-alice : bob ≢ alice
unfolding str_eq
bob-ne-alice e = cc ((str_eq_iff bob alice).1 e)

orders-ne-refunds : orders ≢ refunds
unfolding key_eq str_eq
orders-ne-refunds e = cc ((key_eq_iff orders refunds).1 e)

-- A lease on one stream does not hold the same shard id on another.
abbrev intruder : List Event
intruder =
    record { key = orders; owner = bob; now = 10; request = acquires 60 }
    ∷ record { key = orders; owner = bob; now = 59; request = checkpoints (codes "42") }
    ∷ []

acquired_is_exclusive_example :
    (row orders (replay intruder (memory.acquire orders alice 60 0 new).1).1
      ≡ row orders (memory.acquire orders alice 60 0 new).1)
    × NoneAccepted orders intruder (replay intruder (memory.acquire orders alice 60 0 new).1).0
unfolding with_lease get put acquire_lease
acquired_is_exclusive_example =
    acquired_is_exclusive orders alice 60 0 new intruder refl
      ((bob-ne-alice, omega arith), ((bob-ne-alice, omega arith), tt))
