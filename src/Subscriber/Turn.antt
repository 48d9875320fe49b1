-- ===== src/Subscriber/Turn.antt =====
-- `read_shard` of subscriber.rs, from the start of the reader to its return: a turn of the loop, and the
-- wait for the last settlements of a finished shard.
pub mod Ends
pub mod Failures
pub mod Retries
pub mod Gap
pub mod Stuck
use ruststream_kinesis.Prelude.{
  ℕ, ◌+◌, Bool, true, false, not, ◌&&◌, ◌||◌, Option, none, some, List, [], ◌∷◌, ◌++◌, Text, ltb,
  if◌then◌else◌, length, ok, err,
}
use ruststream_kinesis.Error.{read}
use ruststream_kinesis.Track
use ruststream_kinesis.Track.{drained}
use ruststream_kinesis.Cursor.{ShardStart}
use ruststream_kinesis.Lease.{LeaseStore, shard_end}
use ruststream_kinesis.Message.{tracker_at, gate_at}
use ruststream_kinesis.Subscriber.{unstamped, deregister}
use ruststream_kinesis.Subscriber.Seek.{ShardSeek}
use ruststream_kinesis.Subscriber.Service.{
  Service, GetRecordsError, expired_iterator, resource_not_found, provisioned_throughput_exceeded,
  other,
}
use ruststream_kinesis.Subscriber.Reader.{
  Scene, Reader, Post, Step, goes, drains, stops, ◌>>=◌, with_store, release, is_expired, is_fatal,
  send, initial_iterator, apply_shard_seek, apply_all, renew, hand_out_all,
}

-- What the turn finds: the commands in the channel, the one that comes while the shard is idle, the
-- limit of a read, and the time.
pub record Input : Type 0 where
  pub seeks : List ShardSeek
  pub idle_seek : Option ShardSeek
  pub limit : ℕ
  pub now : ℕ

module _ {V S : Type 0} (service : Service V) (store : LeaseStore S) (post : Post) where
  -- The end of the wait at `SHARD_END`.
  unfoldable pub finish : Reader → Scene V S → Step V S
  finish r w =
      let (_, s') = store.checkpoint post.lease post.owner shard_end w.world.store in
      if drained (tracker_at w.world r.tracker)
      then stops none (release service store post (with_store service store post s' w))
      else stops none (release service store post w)

  -- The wait, looked at once.
  unfoldable pub wait : Reader → Scene V S → Step V S
  unfolding finish
  wait r w = if drained (tracker_at w.world r.tracker) || w.closed then finish r w else drains r w

  -- The idle wait.
  abbrev idle : Option ShardSeek → Reader → Scene V S → Step V S
  unfolding apply_shard_seek
  idle none r w = goes r w
  idle (some seek) r w = let (r', w') = apply_shard_seek service store post seek r w in goes r' w'

  abbrev is_empty : {A : Type 0} → List A → Bool
  is_empty [] = true
  is_empty (_ ∷ _) = false

  -- After the records: the next iterator, or the end of the shard.
  unfoldable pub advance : Input → Bool → Option Text → Reader → Scene V S → Step V S
  unfolding wait idle
  advance input was_idle none r w = wait r w
  advance input was_idle (some next) r w =
      if was_idle && not w.closed
      then idle input.idle_seek (record r { iterator = next }) w
      else goes (record r { iterator = next }) w

  -- The iterator is fetched again, if it expired.
  unfoldable pub refetch : Bool → Reader → Scene V S → Step V S
  unfolding initial_iterator
  refetch false r w = goes r w
  refetch true r w =
      let ((answer, reading), w') = initial_iterator service store post r.reading w in
      elim answer [
        | err _ ↦ goes (record r { reading = reading }) w'
        | ok none ↦ stops none w'
        | ok (some fresh) ↦ goes (record r { iterator = fresh; reading = reading }) w'
      ]

  -- A failed read that was not throttled, once it is reported.
  unfoldable pub recover : GetRecordsError → Reader → Scene V S → Step V S
  unfolding refetch
  recover e r w =
      let r' = record r { failures = r.failures + 1 } in
      let retried = refetch (is_expired e) r' w in
      if is_fatal e
      then stops none (release service store post w)
      else if ltb 10 r'.failures
      then stops r.reading.rewind (release service store post w)
      else retried

  unfoldable pub failed : GetRecordsError → Reader → Scene V S → Step V S
  unfolding recover send
  failed (provisioned_throughput_exceeded e) r w = goes r w
  failed (expired_iterator e) r w = recover (expired_iterator e) r w
  failed (resource_not_found e) r w =
      elim (send (unstamped (err (read post.lease.stream post.lease.shard e))) w) [
        | none ↦ stops none w
        | some w' ↦ recover (resource_not_found e) r w'
      ]
  failed (other e) r w =
      elim (send (unstamped (err (read post.lease.stream post.lease.shard e))) w) [
        | none ↦ stops none w
        | some w' ↦ recover (other e) r w'
      ]

  -- The read, and what becomes of its answer. The epoch is loaded before the call.
  unfoldable pub read_batch : Input → Reader → Scene V S → Step V S
  unfolding failed hand_out_all advance
  read_batch input r w =
      let epoch = gate_at w.world post.gate in
      let (answer, v') = service.get_records r.iterator input.limit w.service in
      let w' = record w { service = v' } in
      elim answer [
        | err e ↦ failed e r w'
        | ok output ↦
            hand_out_all service store post epoch output.records (record r { failures = 0 }) w'
            >>= advance input (is_empty output.records) output.next_shard_iterator
      ]

  -- Up to the read: a closed channel, the commands of seeks, and the renewal.
  unfoldable pub prepare : Input → Reader → Scene V S → Step V S
  unfolding renew apply_all
  prepare input r w =
      let (r', w') = apply_all service store post input.seeks r w in
      let renewed = renew service store post input.now r' w' in
      if w.closed then stops none (release service store post w) else renewed

  -- One turn of the loop.
  unfoldable pub turn : Input → Reader → Scene V S → Step V S
  unfolding prepare read_batch
  turn input r w = prepare input r w >>= read_batch input

  -- The start of `read_shard`, with the place that its predecessor handed over.
  unfoldable pub start : Option ShardStart → ℕ → Scene V S → Step V S
  unfolding initial_iterator send
  start rewind now w =
      let tracker = length w.world.trackers in
      let w1 = record w {
        world = record w.world { trackers = w.world.trackers ++ Track.default ∷ [] };
      } in
      let ((answer, reading), w2) =
        initial_iterator service store post (record { rewind = rewind; unrecorded = false }) w1 in
      elim answer [
        | err e ↦ elim (send (unstamped (err e)) w2) [
          | none ↦ stops reading.rewind w2
          | some w3 ↦ stops reading.rewind w3
        ]
        | ok none ↦ stops none w2
        | ok (some iterator) ↦
            goes
              (record {
                iterator = iterator;
                tracker = tracker;
                reading = reading;
                last_renew = now;
                failures = 0;
              })
              w2
      ]

  -- Every return of `read_shard` takes the shard off the seek surface.
  unfoldable pub returned : Step V S → Step V S
  returned (goes r w) = goes r w
  returned (drains r w) = drains r w
  returned (stops rewind w) = stops rewind (record w { bus = deregister post.lease.shard w.bus })
