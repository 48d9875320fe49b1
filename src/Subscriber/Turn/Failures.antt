-- ===== src/Subscriber/Turn/Failures.antt =====
-- The counter of failed reads of a reader of subscriber.rs, over the parts of a turn.
use ruststream_kinesis.Prelude.{
  ℕ, ◌+◌, ◌≤◌, ◌≡◌, refl, inl, inr, Result, ok, Bool, true, false, Option, none, some, List, [],
  ◌∷◌, Text, ltb, Result, ok, leb, not, ◌-◌, ◌||◌, ◌++◌, ◌&&◌, if◌then◌else◌, err, Bool-cases,
  Option-cases, Result-cases, arith, ◌∙◌,
}
use ruststream_kinesis.Track.{drained}
use ruststream_kinesis.Message.{tracker_at, gate_at}
use ruststream_kinesis.Error.{read}
use ruststream_kinesis.Subscriber.{unstamped}
use ruststream_kinesis.Lease.{LeaseStore}
use ruststream_kinesis.Subscriber.Seek.{ShardSeek}
use ruststream_kinesis.Subscriber.Service.{
  Service, Record, GetRecordsError, Output, expired_iterator, resource_not_found,
  provisioned_throughput_exceeded, other,
}
use ruststream_kinesis.Subscriber.Reader.{
  Scene, Reader, Post, Step, goes, drains, stops, ◌>>=◌, apply_shard_seek, apply_all, renew,
  open_reading, forward, hand_out, hand_out_all, initial_iterator, is_expired, is_fatal, send,
  taken, lease_ttl, renew_every, is_aggregated,
}
use ruststream_kinesis.Subscriber.Turn.{
  Input, idle, is_empty, finish, wait, advance, refetch, recover, failed, read_batch, prepare,
}

-- The counter of a reader shows `n`, which is within the limit.
abbrev pub Counted : ℕ → Reader → Type 0
Counted n r = (r.failures ≡ n) × (n ≤ 10)

-- The reader that goes on, or waits, has counted `n` failures.
abbrev pub Fails : {V S : Type 0} → ℕ → Step V S → Type 0
Fails n (goes r w) = Counted n r
Fails n (drains r w) = Counted n r
Fails n (stops rewind w) = Unit

then_Fails :
    {V S : Type 0} (n : ℕ) (step : Step V S) (f : Reader → Scene V S → Step V S)
    → Fails n step
    → ((r : Reader) (w : Scene V S) → Counted n r → Fails n (f r w))
    → Fails n (step >>= f)
then_Fails n (goes r w) f h next = next r w h
then_Fails n (drains r w) f h next = h
then_Fails n (stops rewind w) f h next = tt

either_Fails :
    {V S : Type 0} (n : ℕ) (b : Bool) (s t : Step V S)
    → Fails n s
    → Fails n t
    → Fails n (if b then s else t)
either_Fails n true s t h k = h
either_Fails n false s t h k = k

-- The count of failed reads after an answer: a read that is answered starts it afresh, and one that the
-- service throttles leaves it.
abbrev pub counted : Result GetRecordsError Output → ℕ → ℕ
counted (ok output) n = 0
counted (err (provisioned_throughput_exceeded e)) n = n
counted (err (expired_iterator e)) n = n + 1
counted (err (resource_not_found e)) n = n + 1
counted (err (other e)) n = n + 1

module _ {V S : Type 0} (service : Service V) (store : LeaseStore S) (post : Post) where
  apply_shard_seek-failures :
      (seek : ShardSeek) (r : Reader) (w : Scene V S)
      → (apply_shard_seek service store post seek r w).0.failures ≡ r.failures
  unfolding apply_shard_seek
  apply_shard_seek-failures seek r w = ground arith

  apply_all-failures :
      (seeks : List ShardSeek) (r : Reader) (w : Scene V S)
      → (apply_all service store post seeks r w).0.failures ≡ r.failures
  unfolding apply_all
  apply_all-failures [] r w = refl
  apply_all-failures (seek ∷ seeks) r w =
      let (r', w') = apply_shard_seek service store post seek r w in
      apply_all-failures seeks r' w' ∙ apply_shard_seek-failures seek r w

  open_reading-Fails :
      (n : ℕ) (seq : Text) (r : Reader) (w : Scene V S)
      → Counted n r
      → Fails n (open_reading service store post seq r w)
  unfolding open_reading
  open_reading-Fails n seq r w h =
      either_Fails n r.reading.unrecorded _ _
        (either_Fails n (taken (store.record_opened_at post.lease post.owner seq w.world.store).0) _
          _ h tt)
        h

  forward-Fails :
      (n epoch : ℕ) (rec : Record) (r : Reader) (w : Scene V S)
      → Counted n r
      → Fails n (forward service store post epoch rec r w)
  unfolding forward send
  forward-Fails n epoch rec r w h = elim (Bool-cases w.closed) [
    | inl gone ↦ rw (gone, forward) (either_Fails n (is_aggregated rec.content) _ _ tt tt)
    | inr there ↦ rw (there, forward) (either_Fails n (is_aggregated rec.content) _ _ h h)
  ]

  hand_out_all-Fails :
      (n epoch : ℕ) (records : List Record) (r : Reader) (w : Scene V S)
      → Counted n r
      → Fails n (hand_out_all service store post epoch records r w)
  unfolding hand_out_all hand_out
  hand_out_all-Fails n epoch [] r w h = h
  hand_out_all-Fails n epoch (rec ∷ records) r w h =
      then_Fails n (hand_out service store post epoch rec r w) _
        (then_Fails n _ (forward service store post epoch rec)
          (open_reading-Fails n rec.sequence_number _ w h)
          (λ r1 w1 h1. forward-Fails n epoch rec r1 w1 h1))
        (λ r1 w1 h1. hand_out_all-Fails n epoch records r1 w1 h1)

  wait-Fails :
      (n : ℕ) (r : Reader) (w : Scene V S) → Counted n r → Fails n (wait service store post r w)
  unfolding wait finish
  wait-Fails n r w h = elim (Bool-cases (drained (tracker_at w.world r.tracker) || w.closed)) [
    | inr waits ↦ rw (waits, wait) h
    | inl ends ↦
        rw (ends, wait)
          (elim (Bool-cases (drained (tracker_at w.world r.tracker))) [
            | inl settled ↦ rw (settled, finish) tt
            | inr open_still ↦ rw (open_still, finish) tt
          ])
  ]

  idle-Fails :
      (n : ℕ) (seek : Option ShardSeek) (r : Reader) (w : Scene V S)
      → Counted n r
      → Fails n (idle service store post seek r w)
  unfolding idle
  idle-Fails n none r w h = h
  idle-Fails n (some seek) r w h = (apply_shard_seek-failures seek r w ∙ h.0, h.1)

  advance-Fails :
      (n : ℕ) (input : Input) (empty : Bool) (next : Option Text) (r : Reader) (w : Scene V S)
      → Counted n r
      → Fails n (advance service store post input empty next r w)
  unfolding advance
  advance-Fails n input empty none r w h = wait-Fails n r w h
  advance-Fails n input empty (some next) r w h =
      either_Fails n (empty && not w.closed) _ _ (idle-Fails n input.idle_seek _ w h) h

  refetch-Fails :
      (n : ℕ) (expired : Bool) (r : Reader) (w : Scene V S)
      → Counted n r
      → Fails n (refetch service store post expired r w)
  unfolding refetch
  refetch-Fails n false r w h = h
  refetch-Fails n true r w h =
      let answer = (initial_iterator service store post r.reading w).0.0 in
      elim (Result-cases answer) [
        | inr (e, refused) ↦ rw (refused, refetch) h
        | inl (found, answered) ↦ elim (Option-cases found) [
          | inl nothing ↦ rw (answered, refetch) (rw (nothing, refetch) tt)
          | inr (fresh, there) ↦ rw (answered, refetch) (rw (there, refetch) h)
        ]
      ]

  recover-Fails :
      (e : GetRecordsError) (r : Reader) (w : Scene V S)
      → Fails (r.failures + 1) (recover service store post e r w)
  unfolding recover
  recover-Fails e r w = elim (Bool-cases (ltb 10 (r.failures + 1))) [
    | inl many ↦ rw many (either_Fails (r.failures + 1) (is_fatal e) _ _ tt tt)
    | inr few ↦ rw few (
        either_Fails (r.failures + 1) (is_fatal e) _ _ tt
          (refetch-Fails (r.failures + 1) (is_expired e) _ w (refl, ground arith)))
  ]

  -- The scene once a failed read is reported to a subscriber that is there.
  abbrev reported : Text → Scene V S → Scene V S
  reported e w = record w {
    out = w.out ++ unstamped (err (read post.lease.stream post.lease.shard e)) ∷ [];
    closed = false;
  }

  failed-Fails :
      (e : GetRecordsError) (r : Reader) (w : Scene V S)
      → r.failures ≤ 10
      → Fails (counted (err e) r.failures) (failed service store post e r w)
  unfolding failed send
  failed-Fails (provisioned_throughput_exceeded e) r w h = (refl, h)
  failed-Fails (expired_iterator e) r w h = recover-Fails (expired_iterator e) r w
  failed-Fails (resource_not_found e) r w h = elim (Bool-cases w.closed) [
    | inl gone ↦ rw (gone, failed) tt
    | inr there ↦ rw (there, failed) (recover-Fails (resource_not_found e) r (reported e w))
  ]
  failed-Fails (other e) r w h = elim (Bool-cases w.closed) [
    | inl gone ↦ rw (gone, failed) tt
    | inr there ↦ rw (there, failed) (recover-Fails (other e) r (reported e w))
  ]

  pub read_batch-Fails :
      (input : Input) (r : Reader) (w : Scene V S)
      → r.failures ≤ 10
      → Fails
          (counted (service.get_records r.iterator input.limit w.service).0 r.failures)
          (read_batch service store post input r w)
  unfolding read_batch
  read_batch-Fails input r w h =
      let epoch = gate_at w.world post.gate in
      let (answer, v') = service.get_records r.iterator input.limit w.service in
      elim (Result-cases answer) [
        | inr (e, refused) ↦
            rw (refused, read_batch) (failed-Fails e r (record w { service = v' }) h)
        | inl (output, answered) ↦
            rw (answered, read_batch)
              (then_Fails 0
                (hand_out_all service store post epoch output.records (record r { failures = 0 })
                  (record w { service = v' }))
                (advance service store post input (is_empty service store post output.records)
                  output.next_shard_iterator)
                (hand_out_all-Fails 0 epoch output.records (record r { failures = 0 })
                  (record w { service = v' }) (refl, omega arith))
                (λ r1 w1 h1.
                  advance-Fails 0 input (is_empty service store post output.records)
                    output.next_shard_iterator r1 w1 h1))
      ]

  renew-Fails :
      (n now : ℕ) (r : Reader) (w : Scene V S)
      → Counted n r
      → Fails n (renew service store post now r w)
  unfolding renew
  renew-Fails n now r w h =
      either_Fails n (leb renew_every (now - r.last_renew)) _ (goes r w)
        (either_Fails n (taken (store.renew post.lease post.owner lease_ttl now w.world.store).0) _
          _ h tt)
        h

  pub prepare-Fails :
      (n : ℕ) (input : Input) (r : Reader) (w : Scene V S)
      → Counted n r
      → Fails n (prepare service store post input r w)
  unfolding prepare
  prepare-Fails n input r w h =
      let (r', w') = apply_all service store post input.seeks r w in
      either_Fails n w.closed _ _ tt
        (renew-Fails n input.now r' w' (apply_all-failures input.seeks r w ∙ h.0, h.1))
