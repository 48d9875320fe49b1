-- ===== src/Tests/Settles.antt =====
-- Settlements of message.rs over the in-process lease store.
use ruststream_kinesis.Prelude.{
  ℕ, ◌≡◌, refl, ◌⊎◌, true, false, some, List, [], ◌∷◌, Text, codes, str_eq, arith,
}
use ruststream_kinesis.Track
use ruststream_kinesis.Lease.{LeaseKey, key_eq}
use ruststream_kinesis.Lease.Memory.{
  MemoryLeaseStore, memory, new, with_lease, get, put, acquire_lease, checkpoint_lease,
}
use ruststream_kinesis.Lease.Contract.{holds}
use ruststream_kinesis.Lease.Memory.Rows.{row}
use ruststream_kinesis.Lease.Memory.Laws.{memory-Contract}
use ruststream_kinesis.Envelope.NoOp.{no_op}
use ruststream_kinesis.Message.{
  KinesisMessage, World, checkpoint, open_message, ack, nack, settle, persist,
}
use ruststream_kinesis.Message.Run.{
  Event, delivers, acks, nacks, bumps, resets, run, step, log_step, settled,
}
use ruststream_kinesis.Message.Run.Settles.{Covered}
use ruststream_kinesis.Message.AtLeastOnce.{at_least_once}

abbrev orders : LeaseKey
orders = record { stream = codes "orders"; shard = codes "shardId-0" }

abbrev alice : Text
alice = codes "a"

-- The delivery with an index, of the generation `epoch`.
abbrev delivery : ℕ → ℕ → Text → KinesisMessage
delivery epoch index seq = open_message no_op (record {
  content = codes "raw";
  partition_key = codes "k";
  sequence = seq;
  settlement = checkpoint (record {
    tracker = epoch;
    index = index;
    lease = orders;
    owner = alice;
    epoch = epoch;
    gate = 0;
  });
})

abbrev opened : World MemoryLeaseStore
opened = record {
  trackers = Track.default ∷ [];
  gates = 0 ∷ [];
  store = (memory.acquire orders alice 60 0 new).1;
}

-- The second delivery settles first; a seek retires the generation, and a late ack of it is ignored.
abbrev day : List Event
day =
    delivers 0 (codes "49")
    ∷ delivers 0 (codes "50")
    ∷ acks (delivery 0 1 (codes "50"))
    ∷ nacks (delivery 0 0 (codes "49")) true
    ∷ nacks (delivery 0 0 (codes "49")) false
    ∷ delivers 0 (codes "51")
    ∷ bumps 0
    ∷ resets
    ∷ acks (delivery 0 2 (codes "51"))
    ∷ delivers 1 (codes "49")
    ∷ []

day_checkpoint :
    (row orders (run memory day opened ([] ∷ [])).1.store).checkpoint ≡ some (codes "50")
unfolding run step log_step settled ack nack settle persist row open_message Track.deliver
    Track.settle with_lease get put acquire_lease checkpoint_lease key_eq str_eq holds
day_checkpoint = refl

at_least_once_example :
    let (logs, w') = run memory day opened ([] ∷ []) in
    ((row orders w'.store).checkpoint ≡ (row orders opened.store).checkpoint)
    ⊎ ((s : Text) × ((row orders w'.store).checkpoint ≡ some s) × Covered s logs)
unfolding open_message
at_least_once_example =
    at_least_once memory row memory-Contract orders alice day opened refl (omega arith) (
      tt,
      (
        tt,
        ((refl, refl), ((refl, refl), ((refl, refl), (tt, (tt, (tt, ((refl, refl), (tt, tt)))))))),
      ),
    )
