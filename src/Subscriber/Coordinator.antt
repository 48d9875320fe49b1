-- ===== src/Subscriber/Coordinator.antt =====
-- `coordinate` of subscriber.rs: one pass over the listing, which takes leases and starts readers.
pub mod Starts
pub mod OneReader
pub mod Counts
pub mod Outstanding
pub mod Held
use ruststream_kinesis.Prelude.{
  ℕ, ◌+◌, Bool, true, false, Option, none, some, List, [], ◌∷◌, ◌++◌, Text, str_eq, if◌then◌else◌,
  length, Result, ok, err,
}
use ruststream_kinesis.Error.{KinesisError, LeaseError, lease}
use ruststream_kinesis.Cursor.{ShardStart, Lineage, opens, continues}
use ruststream_kinesis.Lease.{LeaseKey, LeaseStore, shard_end}
use ruststream_kinesis.Subscriber.{SeekState, ShardHandle, Stamped, unstamped, installed, register}
use ruststream_kinesis.Subscriber.Service.{Shard}
use ruststream_kinesis.Subscriber.Parents.{Parents, pending, consumed, skipped, parents}
use ruststream_kinesis.Subscriber.Reader.{lease_ttl, unwrap_or_default}

-- A reader's task: running, or returned with the place it hands over.
pub data Task : Type 0 where
  running : Task
  returned : Option ShardStart → Task

-- What a reader is started with.
pub record Started : Type 0 where
  pub shard : Text
  pub gate : ℕ
  pub lineage : Lineage
  pub rewind : Option ShardStart

-- The variables of the coordinator, what it shares, and the readers it has started.
pub record Coordinator (S : Type 0) : Type 0 where
  pub readers : List (Text × Task)
  pub rewinds : List (Text × ShardStart)
  pub bus : SeekState
  pub gates : List ℕ
  pub channels : ℕ  -- how many command channels there are
  pub store : S
  pub held : List KinesisError
  pub out : List Stamped
  pub started : List Started

-- `readers.contains_key(..)`
unfoldable pub contains_key : Text → List (Text × Task) → Bool
contains_key id [] = false
contains_key id ((shard, task) ∷ readers) =
    let rest = contains_key id readers in if str_eq shard id then true else rest

unfoldable pub remove : Text → List (Text × ShardStart) → List (Text × ShardStart)
remove id [] = []
remove id ((shard, start) ∷ rewinds) =
    let rest = remove id rewinds in if str_eq shard id then rest else (shard, start) ∷ rest

unfoldable pub rewind_of : Text → List (Text × ShardStart) → Option ShardStart
rewind_of id [] = none
rewind_of id ((shard, start) ∷ rewinds) =
    let rest = rewind_of id rewinds in if str_eq shard id then some start else rest

-- `forget_finished`
unfoldable pub forget_finished :
    List (Text × Task) → List (Text × ShardStart) → List (Text × Task) × List (Text × ShardStart)
unfolding remove
forget_finished [] rewinds = ([], rewinds)
forget_finished ((shard, running) ∷ readers) rewinds =
    let (readers', rewinds') = forget_finished readers rewinds in
    ((shard, running) ∷ readers', rewinds')
forget_finished ((shard, returned none) ∷ readers) rewinds = forget_finished readers rewinds
forget_finished ((shard, returned (some start)) ∷ readers) rewinds =
    forget_finished readers ((shard, start) ∷ remove shard rewinds)

-- `report`: the errors of the first pass are held back.
unfoldable pub report : {S : Type 0} → Bool → KinesisError → Coordinator S → Coordinator S
report true e c = record c { held = c.held ++ e ∷ [] }
report false e c = record c { out = c.out ++ unstamped (err e) ∷ [] }

-- A reader is started: its gate is a fresh zero, and the place that its predecessor left is taken.
unfoldable pub start_reader : {S : Type 0} → Lineage → Text → Coordinator S → Coordinator S
unfolding remove rewind_of
start_reader lineage id c =
    let handle : ShardHandle = record { gate = length c.gates; tx = c.channels } in
    record c {
      readers = c.readers ++ (id, running) ∷ [];
      rewinds = remove id c.rewinds;
      bus = register id handle c.bus;
      gates = c.gates ++ 0 ∷ [];
      channels = c.channels + 1;
      started =
          c.started
          ++ (record {
            shard = id;
            gate = handle.gate;
            lineage = lineage;
            rewind = rewind_of id c.rewinds;
          })
            ∷ [];
    }

module _ {S : Type 0} (store : LeaseStore S) (stream owner : Text) (shards : List Shard)
    (first : Bool) (now : ℕ) where
  abbrev pub key_of : Text → LeaseKey
  key_of id = record { stream = stream; shard = id }

  -- `lease_error`
  abbrev pub lease_error : Text → LeaseError → KinesisError
  lease_error id e = lease stream id e

  -- The lease is asked for.
  unfoldable pub acquire_shard : Lineage → Text → Coordinator S → Coordinator S
  unfolding report start_reader
  acquire_shard lineage id c =
      let (answer, s') = store.acquire (key_of id) owner lease_ttl now c.store in
      let c' : Coordinator S = record c { store = s' } in
      elim answer [
        | err e ↦ report first (lease_error id e) c'
        | ok false ↦ c'
        | ok true ↦ start_reader lineage id c'
      ]

  -- A shard whose parents leave it free, unless it is consumed.
  unfoldable pub open_shard : Lineage → Text → Coordinator S → Coordinator S
  unfolding acquire_shard
  open_shard lineage id c =
      let (answer, s') = store.read (key_of id) c.store in
      let c' : Coordinator S = record c { store = s' } in
      elim answer [
        | err e ↦ report first (lease_error id e) c'
        | ok state ↦
            if str_eq (unwrap_or_default state.checkpoint) shard_end
            then c'
            else acquire_shard lineage id c'
      ]

  -- The outcome of `parents` as a lineage; `none` is a shard that waits.
  abbrev pub lineage_of : Parents → Option Lineage
  lineage_of pending = none
  lineage_of consumed = some continues
  lineage_of skipped = some opens

  -- The body of the loop over the shards.
  unfoldable pub consider : Shard → Coordinator S → Coordinator S
  unfolding contains_key open_shard
  consider shard c =
      let (outcome, s') = parents store (installed c.bus) stream shards shard c.store in
      let c' : Coordinator S = record c { store = s' } in
      let considered : Coordinator S = elim (lineage_of outcome) [
        | none ↦ c'
        | some lineage ↦ open_shard lineage shard.shard_id c'
      ] in
      if contains_key shard.shard_id c.readers then c else considered

  -- The loop over the shards of a listing.
  unfoldable pub consider_all : List Shard → Coordinator S → Coordinator S
  unfolding consider
  consider_all [] c = c
  consider_all (shard ∷ rest) c = consider_all rest (consider shard c)

-- A pass: finished readers are forgotten, and the listing is gone through or its error reported.
unfoldable pub pass :
    {S : Type 0}
    → LeaseStore S
    → Text
    → Text
    → Result KinesisError (List Shard)
    → Bool
    → ℕ
    → Coordinator S
    → Coordinator S
unfolding consider_all forget_finished report
pass store stream owner listing first now c =
    let (readers', rewinds') = forget_finished c.readers c.rewinds in
    let c' : Coordinator _ = record c { readers = readers'; rewinds = rewinds' } in
    elim listing [
      | ok shards ↦ consider_all store stream owner shards first now shards c'
      | err e ↦ report first e c'
    ]
