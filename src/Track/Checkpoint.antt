-- ===== src/Track/Checkpoint.antt =====
-- What the checkpoints that track.rs answers stand for, over any sequence of calls on one tracker.
use ruststream_kinesis.Prelude.{
  ℕ, zero, suc, ◌+◌, ◌-◌, ◌≤◌, ◌<◌, ◌≡◌, refl, sym, ap, ◌∙◌, subst, ◌↔◌, Bool, true, false, Option,
  some, List, [], ◌∷◌, ◌++◌, Text, length, length-append, All, arith,
}
use ruststream_kinesis.Track.{Watermark, u64_mod, default, deliver, settle, drained}
use ruststream_kinesis.Track.Refinement.{
  Log, run, handle, length-handle, answer, sequence_at, tracker, outstanding, deliver-tracker,
  settle-tracker,
}

-- The calls of the reader and of the settlements, in the order the mutex admits them.
pub data Call : Type 0 where
  delivers : Text → Call
  settles : ℕ → Call

-- The tracker after the calls, and what the settlements answered.
unfoldable pub replay : List Call → Watermark → List (Option Text) × Watermark
replay [] w = ([], w)
replay (delivers s ∷ calls) w = replay calls (deliver s w).1
replay (settles i ∷ calls) w =
    let (answered, w') = settle i w in
    let (answers, last) = replay calls w' in (answered ∷ answers, last)

unfoldable pub log_after : List Call → Log → Log
log_after [] l = l
log_after (delivers s ∷ calls) l = log_after calls (l ++ (s, false) ∷ [])
log_after (settles i ∷ calls) l = log_after calls (handle i l)

unfoldable pub answers : List Call → Log → List (Option Text)
answers [] l = []
answers (delivers s ∷ calls) l = answers calls (l ++ (s, false) ∷ [])
answers (settles i ∷ calls) l = answer i l ∷ answers calls (handle i l)

replay-from :
    (calls : List Call) (l : Log)
    → length l + length calls < u64_mod
    → replay calls (tracker l) ≡ (answers calls l, tracker (log_after calls l))
unfolding replay log_after answers
replay-from [] l h = refl
replay-from (delivers s ∷ calls) l h =
    rw (deliver-tracker s l (omega arith))
      (replay-from calls (l ++ (s, false) ∷ []) (omega (arith, length-append l ((s, false) ∷ []))))
replay-from (settles i ∷ calls) l h =
    rw (settle-tracker i l)
      (ground (arith, replay-from calls (handle i l) (omega (arith, length-handle i l))))

-- A fresh tracker answers every sequence of fewer than 2^64 calls as the log of deliveries does, and
-- ends holding exactly the deliveries behind the log's longest handled run.
pub replay-refines :
    (calls : List Call)
    → length calls < u64_mod
    → replay calls default ≡ (answers calls [], tracker (log_after calls []))
replay-refines calls h = unfold tracker in replay-from calls [] (omega arith)

unfoldable pub handled_at : ℕ → Log → Bool
handled_at n [] = false
handled_at zero ((s, d) ∷ l) = d
handled_at (suc n) (x ∷ l) = handled_at n l

handled_at-run : (l : Log) (n : ℕ) → n < run l → handled_at n l ≡ true
unfolding handled_at run
handled_at-run [] n h = elim h [ ]
handled_at-run ((s, true) ∷ l) zero h = refl
handled_at-run ((s, true) ∷ l) (suc n) h = handled_at-run l n (omega arith)
handled_at-run ((s, false) ∷ l) n h = elim h [ ]

run_stops : (l : Log) → handled_at (run l) l ≡ false
unfolding handled_at run
run_stops [] = refl
run_stops ((s, true) ∷ l) = run_stops l
run_stops ((s, false) ∷ l) = refl

-- A checkpoint answered by a settlement is the sequence number of a delivery such that it and every
-- delivery before it is handled, the delivery after it is not, and it lies past the run that was
-- handled before the call.
pub settle_covers :
    (i : ℕ) (l : Log) (s : Text)
    → (settle i (tracker l)).0 ≡ some s
    → (n : ℕ) × (sequence_at n (handle i l) ≡ some s)
      × ((m : ℕ) → m ≤ n → handled_at m (handle i l) ≡ true)
      × (handled_at (suc n) (handle i l) ≡ false)
      × (run l ≤ n)
unfolding answer
settle_covers i l s h =
    let l' : Log = handle i l in
    let e : answer i l ≡ some s = ap (λ r. r.0) (sym (settle-tracker i l)) ∙ h in
    let grew : run l < run l' = ground arith in
    (
      run l' - 1,
      ground arith,
      λ m le. handled_at-run l' m (omega arith),
      subst (λ k. handled_at k l' ≡ false) (omega arith) (run_stops l'),
      omega arith,
    )

outstanding_iff :
    (k i : ℕ) (l : Log)
    → (drained (record { pending = outstanding i l; next_index = k }) ≡ true)
      ↔ All (λ x. x.1 ≡ true) l
unfolding drained outstanding
outstanding_iff k i [] = (λ _. tt, λ _. refl)
outstanding_iff k i ((s, true) ∷ l) =
    let rest = outstanding_iff k (suc i) l in (λ h. (refl, rest.0 h), λ h. rest.1 h.1)
outstanding_iff k i ((s, false) ∷ l) = (λ h. cc, λ h. cc h.0)

-- A shard is drained exactly when every delivery of it is handled.
pub drained_iff : (l : Log) → (drained (tracker l) ≡ true) ↔ All (λ x. x.1 ≡ true) l
unfolding drained tracker
drained_iff l = outstanding_iff (length l) 0 l
