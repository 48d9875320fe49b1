-- ===== src/Message/Run.antt =====
-- Settlements and seeks on one shard of message.rs, in any order, beside a log of what the readers
-- forwarded and what handlers settled.
pub mod Logs
pub mod Settles
use ruststream_kinesis.Prelude.{
  ℕ, ◌+◌, ◌%◌, Bool, true, false, List, [], ◌∷◌, ◌++◌, Text, ◌==◌, if◌then◌else◌, get_or, set,
}
use ruststream_kinesis.Lease.{LeaseStore}
use ruststream_kinesis.Track
use ruststream_kinesis.Track.{u64_mod}
use ruststream_kinesis.Track.Refinement.{Log, handle}
use ruststream_kinesis.Message.{
  KinesisMessage, Settle, checkpoint, in_process, World, tracker_at, gate_at, ack, nack,
}

-- What happens to the trackers and the gates of one shard, in the order it happens: the reader
-- forwards a record, a handler settles a message, a seek retires the generation and then gets its
-- reader a fresh tracker.
pub data Event : Type 0 where
  delivers : ℕ → Text → Event
  acks : KinesisMessage → Event
  nacks : KinesisMessage → Bool → Event
  bumps : ℕ → Event
  resets : Event

-- The deliveries of each tracker, with what handlers settled under a live generation.
abbrev pub log_at : List Log → ℕ → Log
log_at logs i = get_or logs i []

unfoldable pub settled : {S : Type 0} → Settle → World S → List Log → List Log
settled (in_process stream shard) w logs = logs
settled (checkpoint s) w logs =
    if gate_at w s.gate == s.epoch
    then set logs s.tracker (handle s.index (log_at logs s.tracker))
    else logs

unfoldable pub log_step : {S : Type 0} → Event → World S → List Log → List Log
unfolding settled
log_step (delivers i seq) w logs = set logs i (log_at logs i ++ (seq, false) ∷ [])
log_step (acks m) w logs = settled m.received.settlement w logs
log_step (nacks m true) w logs = logs
log_step (nacks m false) w logs = settled m.received.settlement w logs
log_step (bumps g) w logs = logs
log_step resets w logs = logs ++ [] ∷ []

module _ {S : Type 0} (store : LeaseStore S) where
  unfoldable pub step : Event → World S → World S
  step (delivers i seq) w = record w {
    trackers = set w.trackers i (Track.deliver seq (tracker_at w i)).1;
  }
  step (acks m) w = (ack store m w).1
  step (nacks m requeue) w = (nack store m requeue w).1
  step (bumps g) w = record w { gates = set w.gates g ((gate_at w g + 1) % u64_mod) }
  step resets w = record w { trackers = w.trackers ++ Track.default ∷ [] }

  unfoldable pub run : List Event → World S → List Log → List Log × World S
  unfolding step log_step
  run [] w logs = (logs, w)
  run (e ∷ es) w logs = run es (step e w) (log_step e w logs)
