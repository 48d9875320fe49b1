-- ===== src/Subscriber/Reader/Batch.antt =====
-- What a batch of records becomes: the items in the channel, and the deliveries on the tracker.
use ruststream_kinesis.Prelude.{
  sym, append_assoc, length-append, ℕ, ◌+◌, ◌<◌, ◌≡◌, refl, ap, ◌∙◌, List, [], ◌∷◌, ◌++◌,
  append-nil, length, arith,
}
use ruststream_kinesis.Lease.{LeaseStore}
use ruststream_kinesis.Track.{u64_mod}
use ruststream_kinesis.Track.Refinement.{Log, tracker}
use ruststream_kinesis.Subscriber.{Stamped}
use ruststream_kinesis.Subscriber.Service.{Service, Record}
use ruststream_kinesis.Subscriber.Reader.{
  Scene, Reader, Post, Step, drains, stops, ◌>>=◌, hand_out, hand_out_all, goes,
}
use ruststream_kinesis.Subscriber.Reader.Items.{
  items, logged, Follows, Batch, hand_out-Batch, items-cons, logged-cons, length-logged,
}

module _ {V S : Type 0} (service : Service V) (store : LeaseStore S) (post : Post) where
  chain :
      (epoch : ℕ) (rec : Record) (records : List Record) (place : ℕ) (out : List Stamped) (l : Log)
      (r1 : Reader) (w1 : Scene V S) (last : Step V S)
      → Batch service store post epoch (rec ∷ []) place out l (goes r1 w1)
      → Batch service store post epoch records r1.tracker w1.out (l ++ logged (rec ∷ [])) last
      → Batch service store post epoch (rec ∷ records) place out l last
  chain epoch rec records place out l r1 w1 (goes r' w') (at, sent, _)
        (at', sent', (here, follows)) =
      let l1 : Log = l ++ logged (rec ∷ []) in
      let n1 : length l1 ≡ length l + length (logged (rec ∷ [])) =
        length-append l (logged (rec ∷ [])) in
      (
        at' ∙ at,
        rw (items-cons service store post epoch place (length l) rec records) (
            sent'
            ∙ rw (sent, at, n1)
                (append_assoc out (items post epoch place (length l) (rec ∷ []))
                  (items post epoch place (length l + length (logged (rec ∷ []))) records))),
        (
          here,
          rw (logged-cons service store post rec records)
              (follows ∙ ap tracker (append_assoc l (logged (rec ∷ [])) (logged records))),
        ),
      )
  chain epoch rec records place out l r1 w1 (drains r' w') h h' = tt
  chain epoch rec records place out l r1 w1 (stops rewind w') h h' = tt

  then_all :
      (epoch : ℕ) (rec : Record) (records : List Record) (place : ℕ) (out : List Stamped) (l : Log)
      (step : Step V S)
      → Batch service store post epoch (rec ∷ []) place out l step
      → ((r1 : Reader) (w1 : Scene V S)
          → Follows service store post r1 w1 (l ++ logged (rec ∷ []))
          → Batch service store post epoch records r1.tracker w1.out
              (l ++ logged (rec ∷ []))
              (hand_out_all service store post epoch records r1 w1))
      → Batch service store post epoch
          (rec ∷ records)
          place
          out
          l
          (step >>= hand_out_all service store post epoch records)
  then_all epoch rec records place out l (goes r1 w1) (at, sent, follows) rest =
      chain epoch rec records place out l r1 w1
        (hand_out_all service store post epoch records r1 w1) (at, sent, follows)
        (rest r1 w1 follows)
  then_all epoch rec records place out l (drains r1 w1) h rest = tt
  then_all epoch rec records place out l (stops rewind w1) h rest = tt

  -- A reader that gets through a batch has put one item for each record into the channel, in the order
  -- of the batch and under the epoch of the read: the refusal of an aggregated record, or the
  -- delivery, whose settlement names its place on the tracker. The tracker then stands for the log
  -- before it and, unhandled, exactly these deliveries.
  pub hand_out_all-Batch :
      (epoch : ℕ) (records : List Record) (r : Reader) (w : Scene V S) (l : Log)
      → Follows service store post r w l
      → length l + length records < u64_mod
      → Batch service store post epoch records r.tracker w.out l
          (hand_out_all service store post epoch records r w)
  unfolding hand_out_all
  hand_out_all-Batch epoch [] r w l follows fits =
      unfold items logged in (refl, sym (append-nil w.out), rw (append-nil l) follows)
  hand_out_all-Batch epoch (rec ∷ records) r w l follows fits =
      then_all epoch rec records r.tracker w.out l (hand_out service store post epoch rec r w)
        (hand_out-Batch service store post epoch rec r w l follows (omega arith))
        (λ r1 w1 f. hand_out_all-Batch epoch records r1 w1 (l ++ logged (rec ∷ [])) f (
          omega (arith, length-append l (logged (rec ∷ [])), length-logged service store post rec)))
