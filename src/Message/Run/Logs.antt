-- ===== src/Message/Run/Logs.antt =====
-- The logs of a run on message.rs, and the trackers beside them.
use ruststream_kinesis.Prelude.{
  ℕ, zero, suc, ◌≤◌, ◌≡◌, refl, sym, ap, ◌∙◌, subst, inl, inr, Bool, true, false, some, Bool-cases,
  List, [], ◌∷◌, ◌++◌, map, Text, ◌==◌, ◌&&◌, ltb, get_or, set, get_or-set, get_or-append,
  get_or-map, set-map, length, length-append, arith,
}
use ruststream_kinesis.Track
use ruststream_kinesis.Track.{Watermark, u64_mod}
use ruststream_kinesis.Track.Refinement.{
  Log, handle, tracker, outstanding, sequence_at, length-handle,
}
use ruststream_kinesis.Track.Checkpoint.{handled_at}
use ruststream_kinesis.Message.{Settle, checkpoint, in_process, World, tracker_at, gate_at}
use ruststream_kinesis.Message.Run.{
  Event, delivers, acks, nacks, bumps, resets, log_step, log_at, settled,
}

-- A log that only grows: what was delivered and handled stays so.
abbrev pub Extends : Log → Log → Type 0
Extends l l' =
    ((n : ℕ) (s : Text) → sequence_at n l ≡ some s → sequence_at n l' ≡ some s)
    × ((m : ℕ) → handled_at m l ≡ true → handled_at m l' ≡ true)

same-Extends : (l l' : Log) → l' ≡ l → Extends l l'
same-Extends l l' e = (λ n s h. ap (sequence_at n) e ∙ h, λ m h. ap (handled_at m) e ∙ h)

cons-Extends :
    (s : Text) (d d' : Bool) (l l' : Log)
    → (d ≡ true → d' ≡ true)
    → Extends l l'
    → Extends ((s, d) ∷ l) ((s, d') ∷ l')
unfolding handled_at
cons-Extends s d d' l l' h (sequences, marks) = (sequences', marks')
  where
    sequences' :
        (n : ℕ) (t : Text)
        → sequence_at n ((s, d) ∷ l) ≡ some t
        → sequence_at n ((s, d') ∷ l') ≡ some t
    sequences' zero t e = e
    sequences' (suc n) t e = sequences n t e

    marks' : (m : ℕ) → handled_at m ((s, d) ∷ l) ≡ true → handled_at m ((s, d') ∷ l') ≡ true
    marks' zero e = h e
    marks' (suc m) e = marks m e

handle-Extends : (i : ℕ) (l : Log) → Extends l (handle i l)
unfolding handle
handle-Extends i [] = (λ n s h. h, λ m h. h)
handle-Extends zero ((t, d) ∷ l) = cons-Extends t d true l l (λ _. refl) (λ n s h. h, λ m h. h)
handle-Extends (suc i) ((t, d) ∷ l) =
    cons-Extends t d d l (handle i l) (λ h. h) (handle-Extends i l)

append-Extends : (l : Log) (x : Text × Bool) → Extends l (l ++ x ∷ [])
unfolding handled_at
append-Extends [] x = (λ n s h. cc h, λ m h. cc h)
append-Extends ((t, d) ∷ l) x = cons-Extends t d d l (l ++ x ∷ []) (λ h. h) (append-Extends l x)

-- A write of a longer log in the place of a log.
set-Extends :
    (logs : List Log) (i : ℕ) (l : Log)
    → Extends (log_at logs i) l
    → (j : ℕ) → Extends (log_at logs j) (log_at (set logs i l) j)
set-Extends logs i l h j = elim (Bool-cases ((i == j) && ltb i (length logs))) [
  | inl here ↦
      let same : i ≡ j = ground arith in
      let wrote : log_at (set logs i l) j ≡ l = ground (arith, get_or-set logs i j l []) in
      subst (λ l'. Extends (log_at logs j) l') (sym wrote)
        (subst (λ k. Extends (log_at logs k) l) same h)
  | inr elsewhere ↦
      same-Extends (log_at logs j) (log_at (set logs i l) j)
        (ground (arith, get_or-set logs i j l []))
]

pub settled-Extends :
    {S : Type 0} (how : Settle) (w : World S) (logs : List Log) (j : ℕ)
    → Extends (log_at logs j) (log_at (settled how w logs) j)
unfolding settled
settled-Extends (in_process stream shard) w logs j = (λ n s h. h, λ m h. h)
settled-Extends (checkpoint s) w logs j = elim (Bool-cases (gate_at w s.gate == s.epoch)) [
  | inl live ↦ rw live (
      set-Extends logs s.tracker (handle s.index (log_at logs s.tracker))
        (handle-Extends s.index (log_at logs s.tracker)) j)
  | inr stale ↦ rw stale (λ n s h. h, λ m h. h)
]

pub log_step-Extends :
    {S : Type 0} (e : Event) (w : World S) (logs : List Log) (j : ℕ)
    → Extends (log_at logs j) (log_at (log_step e w logs) j)
unfolding log_step
log_step-Extends (delivers i seq) w logs j =
    set-Extends logs i (log_at logs i ++ (seq, false) ∷ [])
      (append-Extends (log_at logs i) (seq, false)) j
log_step-Extends (acks m) w logs j = settled-Extends m.received.settlement w logs j
log_step-Extends (nacks m true) w logs j = (λ n s h. h, λ m h. h)
log_step-Extends (nacks m false) w logs j = settled-Extends m.received.settlement w logs j
log_step-Extends (bumps g) w logs j = (λ n s h. h, λ m h. h)
log_step-Extends resets w logs j =
    same-Extends (log_at logs j) (log_at (logs ++ [] ∷ []) j) (get_or-append logs j [])

-- The trackers of a world stand for the logs.
abbrev pub Tracks : {S : Type 0} → World S → List Log → Type 0
Tracks w logs = w.trackers ≡ map tracker logs

-- No log is longer than `n`.
abbrev pub Short : ℕ → List Log → Type 0
Short n logs = (i : ℕ) → length (log_at logs i) ≤ n

pub tracker_at-Tracks :
    {S : Type 0} (w : World S) (logs : List Log) (i : ℕ)
    → Tracks w logs
    → tracker_at w i ≡ tracker (log_at logs i)
tracker_at-Tracks w logs i e =
    unfold tracker outstanding in
    ap (λ ts. get_or ts i Track.default) e ∙ get_or-map tracker logs i []

pub set-Tracks :
    {S : Type 0} (w : World S) (logs : List Log) (i : ℕ) (l : Log) (t : Watermark)
    → Tracks w logs
    → t ≡ tracker l
    → set w.trackers i t ≡ map tracker (set logs i l)
set-Tracks w logs i l t e f = rw (e, f) (set-map tracker logs i l)

pub settled-Short :
    {S : Type 0} (how : Settle) (w : World S) (logs : List Log) (n : ℕ)
    → Short n logs
    → Short n (settled how w logs)
unfolding settled
settled-Short (in_process stream shard) w logs n h j = h j
settled-Short (checkpoint s) w logs n h j =
    let l : Log = handle s.index (log_at logs s.tracker) in
    ground (
      arith,
      get_or-set logs s.tracker j l [],
      length-handle s.index (log_at logs s.tracker),
      h s.tracker,
      h j,
    )

pub log_step-Short :
    {S : Type 0} (e : Event) (w : World S) (logs : List Log) (n : ℕ)
    → Short n logs
    → Short (suc n) (log_step e w logs)
unfolding log_step
log_step-Short (delivers i seq) w logs n h j =
    let l : Log = log_at logs i ++ (seq, false) ∷ [] in
    ground
      (arith, get_or-set logs i j l [], length-append (log_at logs i) ((seq, false) ∷ []), h i, h j)
log_step-Short (acks m) w logs n h j =
    omega (arith, settled-Short m.received.settlement w logs n h j)
log_step-Short (nacks m true) w logs n h j = omega (arith, h j)
log_step-Short (nacks m false) w logs n h j =
    omega (arith, settled-Short m.received.settlement w logs n h j)
log_step-Short (bumps g) w logs n h j = omega (arith, h j)
log_step-Short resets w logs n h j = ground (arith, get_or-append logs j [], h j)
