-- ===== src/Subscriber/Reader.antt =====
-- `read_shard` of subscriber.rs: the loop that reads one shard. A turn of the loop is a step; what other
-- tasks do between two turns, a closed channel and the clock among it, is in the arguments.
pub mod Opening
pub mod Reopens
pub mod Items
pub mod Batch
pub mod Aggregated
use ruststream_kinesis.Prelude.{
  ℕ, ◌+◌, ◌-◌, Bool, true, false, not, ◌&&◌, ◌||◌, Option, none, some, List, [], ◌∷◌, ◌++◌, Text,
  codes, str_eq, ltb, leb, if◌then◌else◌, length, take, set, Result, ok, err,
}
use ruststream_kinesis.Error.{LeaseError, KinesisError, read, lease, aggregated_record}
use ruststream_kinesis.Track
use ruststream_kinesis.Track.{Watermark, drained}
use ruststream_kinesis.Cursor.{ShardStart, at, Lineage, Reading, iterator_at, reopen_at, rewind_to}
use ruststream_kinesis.Lease.{LeaseKey, LeaseState, LeaseStore, shard_end}
use ruststream_kinesis.Message.{World, tracker_at, gate_at, Received, checkpoint, kpl_magic}
use ruststream_kinesis.Subscriber.{SeekState, installed, Stamped, live_item, unstamped, deregister}
use ruststream_kinesis.Subscriber.Seek.{ShardSeek}
use ruststream_kinesis.Subscriber.Service.{
  Service, Record, Output, GetRecordsError, expired_iterator, resource_not_found,
  provisioned_throughput_exceeded, other,
}

-- What the reader works on: the service, what the tasks share, the delivery channel, and the answers
-- that seeks wait for.
pub record Scene (V S : Type 0) : Type 0 where
  pub service : V
  pub world : World S
  pub bus : SeekState
  pub out : List Stamped
  pub closed : Bool
  pub answers : List (ℕ × Result KinesisError Unit)

-- The variables of the loop.
pub record Reader : Type 0 where
  pub iterator : Text
  pub tracker : ℕ
  pub reading : Reading
  pub last_renew : ℕ  -- milliseconds
  pub failures : ℕ  -- u32

-- What the loop never changes.
pub record Post : Type 0 where
  pub lease : LeaseKey
  pub owner : Text
  pub gate : ℕ
  pub lineage : Lineage

-- After a turn: the loop goes on, waits for the last settlements of a finished shard, or has returned.
pub data Step (V S : Type 0) : Type 0 where
  goes drains : Reader → Scene V S → Step V S
  stops : Option ShardStart → Scene V S → Step V S

infixl 5 ◌>>=◌
abbrev pub ◌>>=◌ : {V S : Type 0} → Step V S → (Reader → Scene V S → Step V S) → Step V S
goes r w >>= f = f r w
drains r w >>= f = drains r w
stops rewind w >>= f = stops rewind w

-- `Ok(true)`
abbrev pub taken : Result LeaseError Bool → Bool
taken (ok b) = b
taken (err _) = false

-- `data.len() > 4 && data[0..4] == KPL_MAGIC`
unfoldable pub is_aggregated : Text → Bool
is_aggregated content = ltb 4 (length content) && str_eq (take 4 content) kpl_magic

-- The kinds of failure that the loop tells apart.
abbrev pub is_expired : GetRecordsError → Bool
is_expired (expired_iterator _) = true
is_expired _ = false

abbrev pub is_fatal : GetRecordsError → Bool
is_fatal (resource_not_found _) = true
is_fatal _ = false

abbrev pub unwrap_or_default : Option Text → Text
unwrap_or_default none = []
unwrap_or_default (some key) = key

-- `RENEW_EVERY` and `LEASE_TTL`
abbrev pub renew_every : ℕ
renew_every = 3000

abbrev pub lease_ttl : ℕ
lease_ttl = 10000

-- `out.send(..)`: it fails once the subscriber is gone.
unfoldable pub send : {V S : Type 0} → Stamped → Scene V S → Option (Scene V S)
send item w = if w.closed then none else some (record w { out = w.out ++ item ∷ [] })

-- Where the first record read opens a reading that has no place yet.
unfoldable pub first_read : Text → Reading → Reading
first_read seq reading = elim reading.rewind [
  | none ↦ record reading { rewind = some (at seq) }
  | some _ ↦ reading
]

module _ {V S : Type 0} (service : Service V) (store : LeaseStore S) (post : Post) where
  abbrev pub with_store : S → Scene V S → Scene V S
  with_store s w = record w { world = record w.world { store = s } }

  abbrev pub release : Scene V S → Scene V S
  release w = with_store (store.release post.lease post.owner w.world.store).1 w

  abbrev fetched :
      Reading
      → ShardStart
      → Bool
      → Result Text (Option Text)
      → Result KinesisError (Option Text) × Reading
  fetched reading start recorded (ok iterator) =
      (ok iterator, record { rewind = rewind_to start; unrecorded = not recorded })
  fetched reading start recorded (err e) =
      (err (read post.lease.stream post.lease.shard e), reading)

  abbrev is_some : Option Text → Bool
  is_some none = false
  is_some (some _) = true

  -- `initial_iterator`, once the row is read.
  unfoldable pub iterator_for :
      LeaseState → Reading → Scene V S → (Result KinesisError (Option Text) × Reading) × Scene V S
  iterator_for state reading w =
      if str_eq (unwrap_or_default state.checkpoint) shard_end
      then ((ok none, reading), w)
      else (let recorded = is_some state.checkpoint || is_some state.opened_at in
          let start =
            reopen_at state.checkpoint state.opened_at reading.rewind post.lineage
              (installed w.bus) in
          let (answer, v') =
            service.get_shard_iterator post.lease.stream post.lease.shard (iterator_at start)
              w.service in
          (fetched reading start recorded answer, record w { service = v' }))

  unfoldable pub initial_iterator :
      Reading → Scene V S → (Result KinesisError (Option Text) × Reading) × Scene V S
  unfolding iterator_for
  initial_iterator reading w =
      let (answer, s') = store.read post.lease w.world.store in
      elim answer [
        | err e ↦ ((err (lease post.lease.stream post.lease.shard e), reading), with_store s' w)
        | ok state ↦ iterator_for state reading (with_store s' w)
      ]

  -- `apply_shard_seek`
  unfoldable pub apply_shard_seek : ShardSeek → Reader → Scene V S → Reader × Scene V S
  apply_shard_seek seek r w =
      let (answer, v') =
        service.get_shard_iterator post.lease.stream post.lease.shard (iterator_at seek.start)
          w.service in
      let answered : Result KinesisError Unit → Scene V S =
        λ outcome. record w { service = v'; answers = w.answers ++ (seek.done, outcome) ∷ [] } in
      elim answer [
        | err e ↦ (r, answered (err (read post.lease.stream post.lease.shard e)))
        | ok none ↦ (
          r,
          answered (
              err (
                read post.lease.stream post.lease.shard
                  (codes "the service returned no iterator for the position"))),
        )
        | ok (some iterator) ↦ (
          record r {
            iterator = iterator;
            tracker = length w.world.trackers;
            reading = record { rewind = rewind_to seek.start; unrecorded = true };
          },
          record w {
            service = v';
            answers = w.answers ++ (seek.done, ok tt) ∷ [];
            world = record w.world { trackers = w.world.trackers ++ Track.default ∷ [] };
          },
        )
      ]

  unfoldable pub apply_all : List ShardSeek → Reader → Scene V S → Reader × Scene V S
  unfolding apply_shard_seek
  apply_all [] r w = (r, w)
  apply_all (seek ∷ seeks) r w = let (r', w') = apply_shard_seek seek r w in apply_all seeks r' w'

  -- The renewal of a lease that is due.
  unfoldable pub renew : ℕ → Reader → Scene V S → Step V S
  renew now r w =
      let (answer, s') = store.renew post.lease post.owner lease_ttl now w.world.store in
      let w' = with_store s' w in
      if leb renew_every (now - r.last_renew)
      then (if taken answer
          then goes (record r { last_renew = now }) w'
          else stops r.reading.rewind w')
      else goes r w

  -- `record_opened_at`, before the first record of a reading is handed out.
  unfoldable pub open_reading : Text → Reader → Scene V S → Step V S
  open_reading seq r w =
      let (answer, s') = store.record_opened_at post.lease post.owner seq w.world.store in
      let w' = with_store s' w in
      if r.reading.unrecorded
      then (if taken answer
          then goes (record r { reading = record r.reading { unrecorded = false } }) w'
          else stops r.reading.rewind w')
      else goes r w

  -- The end of the loop over the records: the error of an aggregated record, or the delivery.
  unfoldable pub forward : ℕ → Record → Reader → Scene V S → Step V S
  unfolding is_aggregated send
  forward epoch rec r w =
      if is_aggregated rec.content
      then (elim (send (live_item epoch post.gate (err (aggregated_record post.lease.shard))) w) [
        | none ↦ stops none w
        | some w' ↦ goes r w'
      ])
      else (let (index, tracker') =
            Track.deliver rec.sequence_number (tracker_at w.world r.tracker) in
          let w1 = record w {
            world = record w.world { trackers = set w.world.trackers r.tracker tracker' };
          } in
          let message : Received = record {
            content = rec.content;
            partition_key = unwrap_or_default rec.partition_key;
            sequence = rec.sequence_number;
            settlement = checkpoint (record {
              tracker = r.tracker;
              index = index;
              lease = post.lease;
              owner = post.owner;
              epoch = epoch;
              gate = post.gate;
            });
          } in
          elim (send (live_item epoch post.gate (ok message)) w1) [
            | none ↦ stops none (release w1)
            | some w' ↦ goes r w'
          ])

  -- One record of a batch.
  unfoldable pub hand_out : ℕ → Record → Reader → Scene V S → Step V S
  unfolding first_read open_reading forward
  hand_out epoch rec r w =
      open_reading rec.sequence_number
        (record r { reading = first_read rec.sequence_number r.reading }) w
      >>= forward epoch rec

  unfoldable pub hand_out_all : ℕ → List Record → Reader → Scene V S → Step V S
  unfolding hand_out
  hand_out_all epoch [] r w = goes r w
  hand_out_all epoch (rec ∷ records) r w = hand_out epoch rec r w >>= hand_out_all epoch records
