-- ===== src/Subscriber/Reader/Reopens.antt =====
-- Where a reader of subscriber.rs that has handed a record out fetches its next iterator.
use ruststream_kinesis.Prelude.{
  ℕ, ◌≡◌, ◌≢◌, ◌⊎◌, refl, inl, inr, some, str_eq, Bool-cases, Result-cases,
}
use ruststream_kinesis.Cursor.{ShardStart, iterator_at, reopen_at}
use ruststream_kinesis.Cursor.Reopen.{tip}
use ruststream_kinesis.Lease.{LeaseKey, LeaseStore, shard_end}
use ruststream_kinesis.Lease.Contract.{Row, Contract}
use ruststream_kinesis.Subscriber.{installed}
use ruststream_kinesis.Subscriber.Service.{Service, Record}
use ruststream_kinesis.Subscriber.Reader.{
  Scene, Reader, Post, goes, hand_out, initial_iterator, iterator_for, unwrap_or_default,
}
use ruststream_kinesis.Subscriber.Reader.Opening.{hand_out-not_tip}

module _ {V S : Type 0} (service : Service V) (store : LeaseStore S) (post : Post)
    (row : LeaseKey → S → Row) (c : Contract store row) where
  -- The iterator that a reader fetches anew after it has handed a record out is not asked for at the
  -- tip, when the reading did not begin there and no seek command is applied to the reader in
  -- between: whatever the scene is by then, with its row and the start that a seek has installed
  -- for the stream, the service is asked for an iterator at another place, or not at all.
  pub hand_out-initial_iterator :
      (epoch : ℕ) (rec : Record) (r r' : Reader) (w w' later : Scene V S)
      → hand_out service store post epoch rec r w ≡ goes r' w'
      → r.reading.rewind ≢ some tip
      → ((initial_iterator service store post r'.reading later).1.service ≡ later.service)
        ⊎ ((start : ShardStart) × (start ≢ tip)
            × ((initial_iterator service store post r'.reading later).1.service
                ≡ (service.get_shard_iterator post.lease.stream post.lease.shard
                    (iterator_at start)
                    later.service).1))
  unfolding initial_iterator iterator_for
  hand_out-initial_iterator epoch rec r r' w w' later went begun =
      elim (Result-cases (store.read post.lease later.world.store).0) [
        | inr (e, failed) ↦ rw (failed, initial_iterator) (inl refl)
        | inl (state, answered) ↦
            elim (Bool-cases (str_eq (unwrap_or_default state.checkpoint) shard_end)) [
              | inl consumed ↦
                  rw (answered, initial_iterator) (rw (consumed, iterator_for) (inl refl))
              | inr live ↦
                  rw (answered, initial_iterator)
                    (rw (live, iterator_for)
                      (inr (
                        reopen_at state.checkpoint state.opened_at r'.reading.rewind post.lineage
                            (installed later.bus),
                        hand_out-not_tip service store post row c epoch rec r r' w w' state
                            post.lineage (installed later.bus) went begun,
                        refl,
                      )))
            ]
      ]
