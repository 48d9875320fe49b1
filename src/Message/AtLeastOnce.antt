-- ===== src/Message/AtLeastOnce.antt =====
-- What the checkpoint of a shard's lease row stands for, after settlements and seeks in any order and
-- over any store that keeps the contract.
use ruststream_kinesis.Prelude.{
  ℕ, zero, suc, ◌+◌, ◌<◌, ◌≡◌, refl, sym, ap, ◌∙◌, ◌⊎◌, inl, inr, true, false, Option, some, List,
  [], ◌∷◌, ◌++◌, map-snoc, Text, length, All, arith,
}
use ruststream_kinesis.Lease.{LeaseKey, LeaseStore}
use ruststream_kinesis.Lease.Contract.{Row, Contract}
use ruststream_kinesis.Track
use ruststream_kinesis.Track.{u64_mod}
use ruststream_kinesis.Track.Refinement.{Log, tracker, outstanding, deliver-tracker}
use ruststream_kinesis.Message.{World, tracker_at, ack, nack}
use ruststream_kinesis.Message.Run.{
  Event, delivers, acks, nacks, bumps, resets, step, log_step, log_at, run,
}
use ruststream_kinesis.Message.Run.Logs.{
  Tracks, Short, settled-Extends, log_step-Extends, tracker_at-Tracks, set-Tracks, log_step-Short,
}
use ruststream_kinesis.Message.Run.Settles.{Covered, Covered-grows, OwnEvent, Sound, settle-keeps}

module _ {S : Type 0} (store : LeaseStore S) (row : LeaseKey → S → Row) (c : Contract store row)
    (k : LeaseKey) (o : Text) (first : Option Text) where
  Sound-grows :
      (e : Event) (w : World S) (logs : List Log)
      → Sound store row c k first w logs
      → Sound store row c k first w (log_step e w logs)
  Sound-grows e w logs (inl still) = inl still
  Sound-grows e w logs (inr (s, at, covered)) =
      inr (s, at, Covered-grows s logs (log_step e w logs) (log_step-Extends e w logs) covered)

  step-keeps :
      (e : Event) (w : World S) (logs : List Log) (n : ℕ)
      → OwnEvent k o e
      → Short n logs
      → n + 1 < u64_mod
      → Tracks w logs
      → Sound store row c k first w logs
      → Tracks (step store e w) (log_step e w logs)
        × Sound store row c k first (step store e w) (log_step e w logs)
  unfolding step log_step ack nack
  step-keeps (delivers i seq) w logs n own short fits t sound =
      let l : Log = log_at logs i in
      (
        set-Tracks w logs i (l ++ (seq, false) ∷ []) (Track.deliver seq (tracker_at w i)).1 t (
            ap (λ x. (Track.deliver seq x).1) (tracker_at-Tracks w logs i t)
            ∙ ap (λ r. r.1) (deliver-tracker seq l (omega (arith, short i)))),
        Sound-grows (delivers i seq) w logs sound,
      )
  step-keeps (acks m) w logs n own short fits t sound =
      settle-keeps store row c m.received.settlement k o first w logs own t sound
        (settled-Extends m.received.settlement w logs)
  step-keeps (nacks m true) w logs n own short fits t sound = (t, sound)
  step-keeps (nacks m false) w logs n own short fits t sound =
      settle-keeps store row c m.received.settlement k o first w logs own t sound
        (settled-Extends m.received.settlement w logs)
  step-keeps (bumps g) w logs n own short fits t sound = (t, sound)
  step-keeps resets w logs n own short fits t sound = (
    unfold tracker outstanding in
        (ap (λ ts. ts ++ Track.default ∷ []) t ∙ sym (map-snoc tracker logs [])),
    Sound-grows resets w logs sound,
  )

  run-keeps :
      (es : List Event) (w : World S) (logs : List Log) (n : ℕ)
      → All (OwnEvent k o) es
      → Short n logs
      → n + length es < u64_mod
      → Tracks w logs
      → Sound store row c k first w logs
      → let (logs', w') = run store es w logs in Sound store row c k first w' logs'
  unfolding run
  run-keeps [] w logs n own short fits t sound = sound
  run-keeps (e ∷ es) w logs n own short fits t sound =
      let (t', sound') = step-keeps e w logs n own.0 short (omega arith) t sound in
      run-keeps es (step store e w) (log_step e w logs) (suc n) own.1
        (log_step-Short e w logs n short) (omega arith) t' sound'

fresh_Short : Short 0 ([] ∷ [])
fresh_Short zero = omega arith
fresh_Short (suc i) = omega arith

-- Over any store that keeps the contract, and from a fresh tracker: however one owner's deliveries,
-- acknowledgements, seeks and resets on a shard follow one another, fewer than 2^64 of them, the
-- checkpoint in the shard's lease row is the one that was there, or the sequence number of a
-- delivery that was handled under a live generation, as was every delivery before it on its tracker.
pub at_least_once :
    {S : Type 0} (store : LeaseStore S) (row : LeaseKey → S → Row) (c : Contract store row)
    (k : LeaseKey) (o : Text) (es : List Event) (w : World S)
    → w.trackers ≡ Track.default ∷ []
    → length es < u64_mod
    → All (OwnEvent k o) es
    → let (logs, w') = run store es w ([] ∷ []) in
      ((row k w'.store).checkpoint ≡ (row k w.store).checkpoint)
      ⊎ ((s : Text) × ((row k w'.store).checkpoint ≡ some s) × Covered s logs)
at_least_once store row c k o es w fresh fits own =
    run-keeps store row c k o (row k w.store).checkpoint es w ([] ∷ []) 0 own fresh_Short
      (omega arith) (unfold tracker outstanding in fresh) (inl refl)
