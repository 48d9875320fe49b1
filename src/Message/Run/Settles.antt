-- ===== src/Message/Run/Settles.antt =====
-- One settlement of a run on message.rs: the trackers, the logs and the row's checkpoint.
use ruststream_kinesis.Prelude.{
  ℕ, zero, suc, ◌≤◌, ◌≡◌, refl, sym, ap, ◌∙◌, subst, ◌⊎◌, inl, inr, Bool, true, false, Option, none,
  some, Bool-cases, List, [], ◌∷◌, Text, ◌==◌, set, ok, err, arith, Result,
}
use ruststream_kinesis.Error.{LeaseError}
use ruststream_kinesis.Lease.{LeaseKey, LeaseStore}
use ruststream_kinesis.Lease.Contract.{Row, Contract}
use ruststream_kinesis.Track
use ruststream_kinesis.Track.{Watermark, u64_mod}
use ruststream_kinesis.Track.Refinement.{Log, handle, tracker, answer, sequence_at, settle-tracker}
use ruststream_kinesis.Track.Checkpoint.{handled_at, settle_covers}
use ruststream_kinesis.Message.{
  Settle, Settlement, checkpoint, in_process, World, tracker_at, gate_at, persist, settle,
}
use ruststream_kinesis.Message.Run.{Event, acks, nacks, log_at, settled}
use ruststream_kinesis.Message.Run.Logs.{Extends, Tracks, tracker_at-Tracks, set-Tracks}

-- `s` is the sequence number of a delivery that was handled, as was every one before it.
abbrev pub Covered : Text → List Log → Type 0
Covered s logs =
    (i n : ℕ) × (sequence_at n (log_at logs i) ≡ some s)
    × ((m : ℕ) → m ≤ n → handled_at m (log_at logs i) ≡ true)

pub Covered-grows :
    (s : Text) (logs logs' : List Log)
    → ((i : ℕ) → Extends (log_at logs i) (log_at logs' i))
    → Covered s logs
    → Covered s logs'
Covered-grows s logs logs' h (i, n, at, marks) =
    (i, n, (h i).0 n s at, λ m le. (h i).1 m (marks m le))

set_handled :
    (logs : List Log) (i n : ℕ)
    → log_at (set logs i (handle n (log_at logs i))) i ≡ handle n (log_at logs i)
unfolding handle
set_handled [] i n = refl
set_handled (l ∷ logs) zero n = refl
set_handled (l ∷ logs) (suc i) n = set_handled logs i n

-- The settlement is of shard `k`, under the lease of owner `o`.
abbrev pub Owned : LeaseKey → Text → Settle → Type 0
Owned k o (in_process stream shard) = Unit
Owned k o (checkpoint s) = (s.lease ≡ k) × (s.owner ≡ o)

abbrev pub OwnEvent : LeaseKey → Text → Event → Type 0
OwnEvent k o (acks m) = Owned k o m.received.settlement
OwnEvent k o (nacks m requeue) = Owned k o m.received.settlement
OwnEvent k o _ = Unit

module _ {S : Type 0} (store : LeaseStore S) (row : LeaseKey → S → Row)
    (c : Contract store row) where
  -- A checkpoint call leaves the row's checkpoint, or makes it the one that was asked for.
  checkpoint_or_same :
      (k : LeaseKey) (o s : Text) (w : S)
      → ((row k (store.checkpoint k o s w).1).checkpoint ≡ (row k w).checkpoint)
        ⊎ ((row k (store.checkpoint k o s w).1).checkpoint ≡ some s)
  checkpoint_or_same k o s w = elim (cases (store.checkpoint k o s w).0) [
    | inl (inl t) ↦ inr (ap (λ r. r.checkpoint) (c.checkpoint_taken k o s w t).1)
    | inl (inr f) ↦ inl (ap (λ r. r.checkpoint) (c.checkpoint_refused k o s w f))
    | inr (e, failed) ↦ elim (c.checkpoint_failed k o s w e failed) [
      | inl same ↦ inl (ap (λ r. r.checkpoint) same)
      | inr wrote ↦ inr (ap (λ r. r.checkpoint) wrote)
    ]
  ]
    where
      cases :
          (r : Result LeaseError Bool)
          → ((r ≡ ok true) ⊎ (r ≡ ok false)) ⊎ ((e : LeaseError) × (r ≡ err e))
      cases (ok true) = inl (inl refl)
      cases (ok false) = inl (inr refl)
      cases (err e) = inr (e, refl)

  -- What a persist of a checkpoint does to the row.
  row-persist :
      (s : Settlement) (advanced : Option Text) (w : World S)
      → ((row s.lease (persist store s advanced w).1.store).checkpoint
          ≡ (row s.lease w.store).checkpoint)
        ⊎ ((seq : Text) × (advanced ≡ some seq)
            × ((row s.lease (persist store s advanced w).1.store).checkpoint ≡ some seq))
  unfolding persist
  row-persist s none w = inl refl
  row-persist s (some seq) w = elim (checkpoint_or_same s.lease s.owner seq w.store) [
    | inl same ↦ inl same
    | inr wrote ↦ inr (seq, refl, wrote)
  ]

  trackers-persist :
      (s : Settlement) (advanced : Option Text) (w : World S)
      → (persist store s advanced w).1.trackers ≡ w.trackers
  unfolding persist
  trackers-persist s none w = refl
  trackers-persist s (some seq) w = refl

  -- The row's checkpoint is the first one, or stands for a handled run.
  abbrev pub Sound : LeaseKey → Option Text → World S → List Log → Type 0
  Sound k first w logs =
      ((row k w.store).checkpoint ≡ first)
      ⊎ ((s : Text) × ((row k w.store).checkpoint ≡ some s) × Covered s logs)

  live_settle :
      (s : Settlement) (k : LeaseKey) (first : Option Text) (w : World S) (logs : List Log)
      → s.lease ≡ k
      → Tracks w logs
      → Sound k first w logs
      → let logs' = set logs s.tracker (handle s.index (log_at logs s.tracker)) in
        let (advanced, t') = Track.settle s.index (tracker_at w s.tracker) in
        let w' =
          (persist store s advanced (record w { trackers = set w.trackers s.tracker t' })).1 in
        ((i : ℕ) → Extends (log_at logs i) (log_at logs' i))
        → Tracks w' logs' × Sound k first w' logs'
  live_settle s k first w logs e t sound grows =
      let l : Log = log_at logs s.tracker in
      let logs' : List Log = set logs s.tracker (handle s.index l) in
      let answered : Track.settle s.index (tracker_at w s.tracker)
          ≡ (answer s.index l, tracker (handle s.index l)) =
        ap (Track.settle s.index) (tracker_at-Tracks w logs s.tracker t)
        ∙ settle-tracker s.index l in
      let (advanced, t') = Track.settle s.index (tracker_at w s.tracker) in
      let w1 : World S = record w { trackers = set w.trackers s.tracker t' } in
      (
        trackers-persist s advanced w1
            ∙ set-Tracks w logs s.tracker (handle s.index l) t' t (ap (λ r. r.1) answered),
        elim (row-persist s advanced w1) [
          | inl same ↦ elim sound [
            | inl still ↦ inl (
                ap (λ j. (row j (persist store s advanced w1).1.store).checkpoint) (sym e)
                ∙ same
                ∙ ap (λ j. (row j w.store).checkpoint) e
                ∙ still)
            | inr (seq, at, covered) ↦ inr (
              seq,
              ap (λ j. (row j (persist store s advanced w1).1.store).checkpoint) (sym e)
                  ∙ same
                  ∙ ap (λ j. (row j w.store).checkpoint) e
                  ∙ at,
              Covered-grows seq logs logs' grows covered,
            )
          ]
          | inr (seq, moved, wrote) ↦
              let (n, at, marks, _, _) = settle_covers s.index l seq (
                ap (λ r. (Track.settle s.index r).0) (sym (tracker_at-Tracks w logs s.tracker t))
                ∙ moved) in
              let here : log_at logs' s.tracker ≡ handle s.index l =
                set_handled logs s.tracker s.index in
              inr (
                seq,
                ap (λ j. (row j (persist store s advanced w1).1.store).checkpoint) (sym e) ∙ wrote,
                (
                  s.tracker,
                  n,
                  ap (sequence_at n) here ∙ at,
                  λ m le. ap (handled_at m) here ∙ marks m le,
                ),
              )
        ],
      )

  pub settle-keeps :
      (how : Settle) (k : LeaseKey) (o : Text) (first : Option Text) (w : World S) (logs : List Log)
      → Owned k o how
      → Tracks w logs
      → Sound k first w logs
      → ((i : ℕ) → Extends (log_at logs i) (log_at (settled how w logs) i))
      → Tracks (settle store how w).1 (settled how w logs)
        × Sound k first (settle store how w).1 (settled how w logs)
  unfolding settle settled
  settle-keeps (in_process stream shard) k o first w logs own t sound grows = (t, sound)
  settle-keeps (checkpoint s) k o first w logs own t sound grows =
      elim (Bool-cases (gate_at w s.gate == s.epoch)) [
        | inl live ↦ rw live (
            live_settle s k first w logs own.0 t sound
              (subst (λ ls. (i : ℕ) → Extends (log_at logs i) (log_at ls i)) (ground arith) grows))
        | inr stale ↦ rw stale (t, sound)
      ]
