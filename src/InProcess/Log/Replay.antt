-- ===== src/InProcess/Log/Replay.antt =====
-- A seek of the in-process transport to the position of a delivery.
use ruststream_kinesis.Prelude.{
  ℕ, zero, suc, ◌-◌, ◌<◌, ◌≡◌, refl, ap, ◌∙◌, true, some, List, [], ◌∷◌, Text, length, drop,
  get_elem?, ok, str_eq_refl, arith,
}
use ruststream_kinesis.Message.{shard, sequence, Received, open_message, position}
use ruststream_kinesis.Envelope.{Envelope}
use ruststream_kinesis.InProcess.Sequence.{sequence_of, usize_mod}
use ruststream_kinesis.InProcess.Sequence.RoundTrip.{index_of-sequence_of}
use ruststream_kinesis.InProcess.Log.{
  Record, Delivery, Feed, in_process_shard, target_of, plan_over, install_seek, seek, deliveries,
  reposition, apply_pending, deliver, receive, poll,
}

module _ {B : Type 0} where
  drop-get :
      (log : List (Record B)) (i : ℕ) (rec : Record B)
      → get_elem? log i ≡ some rec
      → drop i log ≡ rec ∷ drop (suc i) log
  drop-get [] i rec e = cc e
  drop-get (x ∷ log) zero rec e = ground arith
  drop-get (x ∷ log) (suc i) rec e = drop-get log i rec e

  get-lt :
      (log : List (Record B)) (i : ℕ) (rec : Record B) → get_elem? log i ≡ some rec → i < length log
  get-lt [] i rec e = cc e
  get-lt (x ∷ log) zero rec e = omega arith
  get-lt (x ∷ log) (suc i) rec e = omega (arith, get-lt log i rec e)

  -- The plan of a seek to the sequence number of a retained record.
  plan_of_index :
      (stream : Text) (i : ℕ) (rec : Record B) (log : List (Record B))
      → get_elem? log i ≡ some rec
      → i < usize_mod
      → plan_over stream (sequence in_process_shard (sequence_of i)) log
        ≡ ok (record { target = i; count = length log - i })
  unfolding plan_over target_of
  plan_of_index stream i rec log e fits =
      let target : target_of stream (sequence in_process_shard (sequence_of i)) log ≡ ok i =
        rw (str_eq_refl in_process_shard, target_of)
          (rw ((index_of-sequence_of i fits).1, target_of)
            (ap ok (omega (arith, get-lt log i rec e)))) in
      rw (target, plan_over) refl

  -- The item that a delivery is given to the handler as.
  deliver-state :
      (stream : Text) (d : Delivery B) (f g : Feed B)
      → (deliver stream d f).0 ≡ (deliver stream d g).0
  unfolding deliver
  deliver-state stream d f g = ground arith

  deliver-position :
      (envelope : Envelope) (stream : Text) (d : Delivery B) (f : Feed B) (received : Received)
      → (deliver stream d f).0 ≡ ok received
      → position (open_message envelope received) ≡ sequence in_process_shard (sequence_of d.index)
  unfolding deliver position open_message shard
  deliver-position envelope stream d f received e = ground arith

  poll_sought :
      (stream : Text) (i : ℕ) (rec : Record B) (f : Feed B)
      → get_elem? f.records i ≡ some rec
      → i < usize_mod
      → (poll stream (seek true stream (sequence in_process_shard (sequence_of i)) f).1).0
        ≡ some (deliver stream (record { kept = rec; index = i }) f).0
  unfolding poll receive seek install_seek apply_pending reposition deliveries
  poll_sought stream i rec f e fits =
      rw (plan_of_index stream i rec f.records e fits, seek)
        (rw (drop-get f.records i rec e, poll)
          (ap some (deliver-state stream (record { kept = rec; index = i }) _ f)))

  -- A seek to the position of a delivered message, on an open stream whose log holds the record at that
  -- place, a place below 2^64, makes the same message the next one that the subscription yields.
  pub seek-redelivers :
      (envelope : Envelope) (stream : Text) (d : Delivery B) (f g : Feed B) (received : Received)
      → (deliver stream d f).0 ≡ ok received
      → get_elem? g.records d.index ≡ some d.kept
      → d.index < usize_mod
      → (poll stream (seek true stream (position (open_message envelope received)) g).1).0
        ≡ some (ok received)
  seek-redelivers envelope stream d f g received e kept fits =
      rw (deliver-position envelope stream d f received e)
        (poll_sought stream d.index d.kept g kept fits ∙ ap some (deliver-state stream d g f ∙ e))
