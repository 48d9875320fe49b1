-- ===== src/Subscriber/Reader/Items.antt =====
-- One record of a batch: the item in the channel, and the delivery on the tracker.
use ruststream_kinesis.Prelude.{
  Text, subst, ◌≤◌, ℕ, suc, ◌+◌, ◌<◌, ◌≡◌, refl, ap, ◌∙◌, inl, inr, false, List, [], ◌∷◌, ◌++◌,
  append-nil, length, ok, err, Bool-cases, arith, if◌then◌else◌, get_or-set, length-set,
}
use ruststream_kinesis.Error.{aggregated_record}
use ruststream_kinesis.Lease.{LeaseStore}
use ruststream_kinesis.Message.{tracker_at, Received, checkpoint}
use ruststream_kinesis.Track
use ruststream_kinesis.Track.{Watermark, u64_mod}
use ruststream_kinesis.Track.Refinement.{Log, tracker, deliver-tracker}
use ruststream_kinesis.Subscriber.{Stamped, live_item}
use ruststream_kinesis.Subscriber.Service.{Service, Record}
use ruststream_kinesis.Subscriber.Reader.{
  Scene, Reader, Post, Step, drains, stops, ◌>>=◌, taken, first_read, open_reading, hand_out, goes,
  forward, send, is_aggregated, unwrap_or_default,
}

-- The delivery of a record: its settlement names the tracker, and its place there.
abbrev pub delivery : Post → ℕ → ℕ → ℕ → Record → Received
delivery post epoch place index rec = record {
  content = rec.content;
  partition_key = unwrap_or_default rec.partition_key;
  sequence = rec.sequence_number;
  settlement = checkpoint (record {
    tracker = place;
    index = index;
    lease = post.lease;
    owner = post.owner;
    epoch = epoch;
    gate = post.gate;
  });
}

-- The items that records become, the next delivery being number `n` of its tracker.
unfoldable pub items : Post → ℕ → ℕ → ℕ → List Record → List Stamped
unfolding is_aggregated
items post epoch place n [] = []
items post epoch place n (rec ∷ records) =
    let refused = items post epoch place n records in
    let delivered = items post epoch place (suc n) records in
    if is_aggregated rec.content
    then live_item epoch post.gate (err (aggregated_record post.lease.shard)) ∷ refused
    else live_item epoch post.gate (ok (delivery post epoch place n rec)) ∷ delivered

unfoldable pub logged : List Record → Log
unfolding is_aggregated
logged [] = []
logged (rec ∷ records) =
    let rest = logged records in
    if is_aggregated rec.content then rest else (rec.sequence_number, false) ∷ rest

module _ {V S : Type 0} (service : Service V) (store : LeaseStore S) (post : Post) where
  -- The tracker of the reader is in place and stands for a log.
  abbrev pub Follows : Reader → Scene V S → Log → Type 0
  Follows r w l = (r.tracker < length w.world.trackers) × (tracker_at w.world r.tracker ≡ tracker l)

  -- What a loop over records leaves, from the items and the log before it: the items and the
  -- deliveries of all of them, unless the reader has stopped.
  abbrev pub Batch : ℕ → List Record → ℕ → List Stamped → Log → Step V S → Type 0
  Batch epoch records place out l (goes r' w') =
      (r'.tracker ≡ place)
      × (w'.out ≡ out ++ items post epoch place (length l) records)
      × Follows r' w' (l ++ logged records)
  Batch epoch records place out l _ = Unit

  forward-One :
      (epoch : ℕ) (rec : Record) (r : Reader) (w : Scene V S) (l : Log)
      → Follows r w l
      → length l + 1 < u64_mod
      → Batch epoch (rec ∷ []) r.tracker w.out l (forward service store post epoch rec r w)
  unfolding forward send items logged
  forward-One epoch rec r w l (here, follows) fits = elim (Bool-cases (is_aggregated rec.content)) [
    | inl aggregated ↦ elim (Bool-cases w.closed) [
      | inl gone ↦ rw (aggregated, forward) (rw (gone, forward) tt)
      | inr there ↦
          rw (aggregated, forward)
            (rw (there, forward) (rw aggregated (refl, refl, (here, rw (append-nil l) follows))))
    ]
    | inr plain ↦
        let delivered : Track.deliver rec.sequence_number (tracker_at w.world r.tracker)
            ≡ (length l, tracker (l ++ (rec.sequence_number, false) ∷ [])) =
          ap (Track.deliver rec.sequence_number) follows
          ∙ deliver-tracker rec.sequence_number l fits in
        let t' : Watermark = (Track.deliver rec.sequence_number (tracker_at w.world r.tracker)).1 in
        elim (Bool-cases w.closed) [
          | inl gone ↦ rw (plain, forward) (rw (gone, forward) tt)
          | inr there ↦
              rw (plain, forward)
                (rw (there, forward)
                  (rw plain (
                    refl,
                    ap
                        (λ n.
                          w.out
                          ++ live_item epoch post.gate (ok (delivery post epoch r.tracker n rec))
                            ∷ [])
                        (ap (λ d. d.0) delivered),
                    (
                      omega (arith, here, length-set w.world.trackers r.tracker t'),
                      ground (
                        arith,
                        here,
                        get_or-set w.world.trackers r.tracker r.tracker t' Track.default,
                      )
                          ∙ ap (λ d. d.1) delivered,
                    ),
                  )))
        ]
  ]

  -- Recording where a reading opened touches neither the channel nor the trackers.
  abbrev Same : Reader → Scene V S → Step V S → Type 0
  Same r w (goes r' w') =
      (r'.tracker ≡ r.tracker) × (w'.out ≡ w.out) × (w'.world.trackers ≡ w.world.trackers)
  Same r w _ = Unit

  open_reading-Same :
      (seq : Text) (r : Reader) (w : Scene V S) → Same r w (open_reading service store post seq r w)
  unfolding open_reading
  open_reading-Same seq r w = elim (Bool-cases r.reading.unrecorded) [
    | inr known ↦ rw (known, open_reading) (refl, refl, refl)
    | inl new ↦
        elim (Bool-cases
          (taken (store.record_opened_at post.lease post.owner seq w.world.store).0)) [
            | inl accepted ↦ rw (new, open_reading) (rw (accepted, open_reading) (refl, refl, refl))
            | inr refused ↦ rw (new, open_reading) (rw (refused, open_reading) tt)
          ]
  ]

  then_forward :
      (epoch : ℕ) (rec : Record) (r : Reader) (w : Scene V S) (l : Log) (step : Step V S)
      → Follows r w l
      → length l + 1 < u64_mod
      → Same r w step
      → Batch epoch (rec ∷ []) r.tracker w.out l (step >>= forward service store post epoch rec)
  then_forward epoch rec r w l (goes r1 w1) (here, follows) fits (place, out, trackers) =
      subst (λ p. Batch epoch (rec ∷ []) p w.out l (forward service store post epoch rec r1 w1))
        place
        (subst
          (λ o. Batch epoch (rec ∷ []) r1.tracker o l (forward service store post epoch rec r1 w1))
          out
          (forward-One epoch rec r1 w1 l (rw (place, trackers) here, rw (place, trackers) follows)
            fits))
  then_forward epoch rec r w l (drains r1 w1) f fits h = tt
  then_forward epoch rec r w l (stops rewind w1) f fits h = tt

  pub hand_out-Batch :
      (epoch : ℕ) (rec : Record) (r : Reader) (w : Scene V S) (l : Log)
      → Follows r w l
      → length l + 1 < u64_mod
      → Batch epoch (rec ∷ []) r.tracker w.out l (hand_out service store post epoch rec r w)
  unfolding hand_out
  hand_out-Batch epoch rec r w l follows fits =
      let r1 : Reader = record r { reading = first_read rec.sequence_number r.reading } in
      then_forward epoch rec r1 w l (open_reading service store post rec.sequence_number r1 w)
        follows fits (open_reading-Same rec.sequence_number r1 w)

  pub items-cons :
      (epoch place n : ℕ) (rec : Record) (records : List Record)
      → items post epoch place n (rec ∷ records)
        ≡ items post epoch place n (rec ∷ [])
          ++ items post epoch place (n + length (logged (rec ∷ []))) records
  unfolding items logged
  items-cons epoch place n rec records = elim (Bool-cases (is_aggregated rec.content)) [
    | inl aggregated ↦
        let same : n ≡ n + 0 = omega arith in
        rw aggregated (
          ap
            (λ m.
              live_item epoch post.gate (err (aggregated_record post.lease.shard))
              ∷ items post epoch place m records)
            same)
    | inr plain ↦
        let same : suc n ≡ n + 1 = omega arith in
        rw plain (
          ap
            (λ m.
              live_item epoch post.gate (ok (delivery post epoch place n rec))
              ∷ items post epoch place m records)
            same)
  ]

  pub logged-cons :
      (rec : Record) (records : List Record)
      → logged (rec ∷ records) ≡ logged (rec ∷ []) ++ logged records
  unfolding logged
  logged-cons rec records = elim (Bool-cases (is_aggregated rec.content)) [
    | inl aggregated ↦ rw aggregated refl
    | inr plain ↦ rw plain refl
  ]

  pub length-logged : (rec : Record) → length (logged (rec ∷ [])) ≤ 1
  unfolding logged
  length-logged rec = ground arith
