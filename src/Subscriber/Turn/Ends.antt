-- ===== src/Subscriber/Turn/Ends.antt =====
-- How the turns of a reader of subscriber.rs end: a consumed shard, and a lost lease.
use ruststream_kinesis.Prelude.{
  ◌-◌, ◌≡◌, ◌≢◌, refl, sym, ap, ◌∙◌, inl, inr, Bool, true, false, Option, none, some, List, [], ◌∷◌,
  Text, leb, if◌then◌else◌, ok, Bool-cases, Result-cases, Option-cases, All,
}
use ruststream_kinesis.Track.{drained}
use ruststream_kinesis.Track.Refinement.{Log, tracker}
use ruststream_kinesis.Track.Checkpoint.{drained_iff}
use ruststream_kinesis.Cursor.{ShardStart, iterator_at}
use ruststream_kinesis.Lease.{LeaseKey, LeaseStore, shard_end}
use ruststream_kinesis.Lease.Contract.{Row, Contract}
use ruststream_kinesis.Message.{tracker_at}
use ruststream_kinesis.Subscriber.{Stamped}
use ruststream_kinesis.Subscriber.Seek.{ShardSeek}
use ruststream_kinesis.Subscriber.Service.{Service}
use ruststream_kinesis.Subscriber.Reader.{
  Scene, Reader, Post, Step, goes, drains, stops, ◌>>=◌, taken, renew, renew_every, lease_ttl,
  apply_shard_seek, apply_all,
}
use ruststream_kinesis.Subscriber.Turn.{Input, finish, wait, prepare, turn, read_batch}

abbrev pub scene_of : {V S : Type 0} → Step V S → Scene V S
scene_of (goes r w) = w
scene_of (drains r w) = w
scene_of (stops rewind w) = w

module _ {V S : Type 0} (service : Service V) (store : LeaseStore S) (post : Post)
    (row : LeaseKey → S → Row) (c : Contract store row) where
  abbrev pub checkpoint_in : Scene V S → Option Text
  checkpoint_in w = (row post.lease w.world.store).checkpoint

  outstanding_keeps :
      (r : Reader) (w : Scene V S)
      → drained (tracker_at w.world r.tracker) ≡ false
      → checkpoint_in (scene_of (wait service store post r w)) ≡ checkpoint_in w
  unfolding wait finish
  outstanding_keeps r w unsettled = elim (Bool-cases w.closed) [
    | inl gone ↦
        rw (unsettled, wait) (rw (gone, wait) (c.release_keeps post.lease post.owner w.world.store))
    | inr there ↦ rw (unsettled, wait) (rw (there, wait) refl)
  ]

  -- A reader at the end of its shard marks the shard as consumed only if every delivery on its tracker is
  -- handled, whatever the store answers to the release, also when the subscriber is gone.
  pub wait-consumed :
      (r : Reader) (w : Scene V S) (l : Log)
      → tracker_at w.world r.tracker ≡ tracker l
      → checkpoint_in w ≢ some shard_end
      → checkpoint_in (scene_of (wait service store post r w)) ≡ some shard_end
      → All (λ x. x.1 ≡ true) l
  wait-consumed r w l follows before after =
      elim (Bool-cases (drained (tracker_at w.world r.tracker))) [
        | inl settled ↦ (drained_iff l).0 (ap drained (sym follows) ∙ settled)
        | inr unsettled ↦ absurd (before (sym (outstanding_keeps r w unsettled) ∙ after))
      ]

  -- Once every delivery is handled, and while the store accepts the checkpoint, the shard is marked as
  -- consumed and the reader returns with nothing to read again.
  pub wait-closes :
      (r : Reader) (w : Scene V S) (l : Log)
      → tracker_at w.world r.tracker ≡ tracker l
      → All (λ x. x.1 ≡ true) l
      → (store.checkpoint post.lease post.owner shard_end w.world.store).0 ≡ ok true
      → (checkpoint_in (scene_of (wait service store post r w)) ≡ some shard_end)
        × (wait service store post r w ≡ stops none (scene_of (wait service store post r w)))
  unfolding wait finish
  wait-closes r w l follows handled accepted =
      let settled : drained (tracker_at w.world r.tracker) ≡ true =
        ap drained follows ∙ (drained_iff l).1 handled in
      let s' : S = (store.checkpoint post.lease post.owner shard_end w.world.store).1 in
      rw (settled, wait)
        (
          c.release_keeps post.lease post.owner s'
              ∙ ap (λ x. x.checkpoint)
                  (c.checkpoint_taken post.lease post.owner shard_end w.world.store accepted).1,
          refl,
        )

module _ {V S : Type 0} (service : Service V) (store : LeaseStore S) (post : Post) where
  pub apply_shard_seek-out :
      (seek : ShardSeek) (r : Reader) (w : Scene V S)
      → (apply_shard_seek service store post seek r w).1.out ≡ w.out
  unfolding apply_shard_seek
  apply_shard_seek-out seek r w =
      elim (Result-cases
        (service.get_shard_iterator post.lease.stream post.lease.shard (iterator_at seek.start)
          w.service).0) [
            | inr (e, failed) ↦ rw (failed, apply_shard_seek) refl
            | inl (answer, answered) ↦ elim (Option-cases answer) [
              | inl nothing ↦ rw (answered, apply_shard_seek) (rw (nothing, apply_shard_seek) refl)
              | inr (iterator, fresh) ↦
                  rw (answered, apply_shard_seek) (rw (fresh, apply_shard_seek) refl)
            ]
          ]

  apply_all-out :
      (seeks : List ShardSeek) (r : Reader) (w : Scene V S)
      → (apply_all service store post seeks r w).1.out ≡ w.out
  unfolding apply_all
  apply_all-out [] r w = refl
  apply_all-out (seek ∷ seeks) r w =
      let (r', w') = apply_shard_seek service store post seek r w in
      apply_all-out seeks r' w' ∙ apply_shard_seek-out seek r w

  -- Two ways to stop with the same channel.
  stopped :
      (b : Bool) (p q : Option ShardStart) (v w : Scene V S) (f : Reader → Scene V S → Step V S)
      (out : List Stamped)
      → v.out ≡ out
      → w.out ≡ out
      → (scene_of ((if b then stops p v else stops q w) >>= f)).out ≡ out
  stopped true p q v w f out h k = h
  stopped false p q v w f out h k = k

  -- A turn that finds its lease due and cannot renew it, fenced by another owner or refused by a failing
  -- store, hands out nothing, whatever seeks it applied before.
  pub turn-fenced :
      (input : Input) (r : Reader) (w : Scene V S)
      → leb renew_every (input.now - (apply_all service store post input.seeks r w).0.last_renew)
        ≡ true
      → taken
          (store.renew post.lease post.owner lease_ttl input.now
            (apply_all service store post input.seeks r w).1.world.store).0
        ≡ false
      → (scene_of (turn service store post input r w)).out ≡ w.out
  unfolding turn prepare renew
  turn-fenced input r w due refused =
      rw (due, turn)
        (rw (refused, turn)
          (stopped w.closed none _ _ _ (read_batch service store post input) w.out refl
            (apply_all-out input.seeks r w)))
