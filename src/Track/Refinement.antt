-- ===== src/Track/Refinement.antt =====
-- The watermark of track.rs beside the log of everything ever delivered, with what was handled.
use mathlib.Core.Option
use ruststream_kinesis.Prelude.{
  ℕ, zero, suc, ◌+◌, ◌-◌, ◌<◌, ◌≡◌, refl, ap, Bool, true, false, Option, none, some, List, [], ◌∷◌,
  ◌++◌, Text, ltb, if◌then◌else◌, length, length-append, get_elem?, arith,
}
use ruststream_kinesis.Track.{Entry, Watermark, u64_mod, insert, deliver, mark, advance, settle}

-- Everything delivered so far, in order: the sequence number, and whether it is handled.
abbrev pub Log : Type 0
Log = List (Text × Bool)

-- How long the run of handled deliveries at the front is.
unfoldable pub run : Log → ℕ
run [] = 0
run ((s, true) ∷ l) = suc (run l)
run ((s, false) ∷ l) = 0

unfoldable pub handle : ℕ → Log → Log
handle i [] = []
handle zero ((s, d) ∷ l) = (s, true) ∷ l
handle (suc i) (x ∷ l) = x ∷ handle i l

abbrev pub sequence_at : ℕ → Log → Option Text
sequence_at i l = Option.map (λ x. x.0) (get_elem? l i)

pub length-handle : (i : ℕ) (l : Log) → length (handle i l) ≡ length l
unfolding handle
length-handle i [] = refl
length-handle zero ((s, d) ∷ l) = refl
length-handle (suc i) (x ∷ l) = ap suc (length-handle i l)

-- The answer of a settlement: the last sequence number of the handled run, if the run grew.
unfoldable pub answer : ℕ → Log → Option Text
unfolding run handle
answer i l =
    if ltb (run l) (run (handle i l)) then sequence_at (run (handle i l) - 1) (handle i l) else none

unfoldable pub number : ℕ → Log → List Entry
number i [] = []
number i ((s, d) ∷ l) = record { index = i; sequence = s; done = d } ∷ number (suc i) l

-- The entries from `i` on that are not behind the run.
unfoldable pub outstanding : ℕ → Log → List Entry
unfolding number
outstanding i [] = []
outstanding i ((s, true) ∷ l) = outstanding (suc i) l
outstanding i ((s, false) ∷ l) = number i ((s, false) ∷ l)

-- The tracker that stands for a log.
unfoldable pub tracker : Log → Watermark
unfolding outstanding
tracker l = record { pending = outstanding 0 l; next_index = length l }

insert-number :
    (i k : ℕ) (s : Text) (l : Log)
    → k ≡ i + length l
    → insert (record { index = k; sequence = s; done = false }) (number i l)
      ≡ number i (l ++ (s, false) ∷ [])
unfolding insert number
insert-number i k s [] e = ground arith
insert-number i k s ((t, d) ∷ l) e = ground (arith, insert-number (suc i) k s l (omega arith))

insert-outstanding :
    (i k : ℕ) (s : Text) (l : Log)
    → k ≡ i + length l
    → insert (record { index = k; sequence = s; done = false }) (outstanding i l)
      ≡ outstanding i (l ++ (s, false) ∷ [])
unfolding outstanding
insert-outstanding i k s [] e = insert-number i k s [] e
insert-outstanding i k s ((t, true) ∷ l) e = insert-outstanding (suc i) k s l (omega arith)
insert-outstanding i k s ((t, false) ∷ l) e = insert-number i k s ((t, false) ∷ l) e

-- A delivery is the next index, and joins the log unhandled.
pub deliver-tracker :
    (s : Text) (l : Log)
    → length l + 1 < u64_mod
    → deliver s (tracker l) ≡ (length l, tracker (l ++ (s, false) ∷ []))
unfolding deliver tracker
deliver-tracker s l h =
    ground
      (arith, insert-outstanding 0 (length l) s l (omega arith), length-append l ((s, false) ∷ []))

-- Marking below the first index changes nothing.
mark_below-number : (j i : ℕ) (l : Log) → j < i → mark j (number i l) ≡ number i l
unfolding mark number
mark_below-number j i [] h = refl
mark_below-number j i ((s, d) ∷ l) h = ground (arith, mark_below-number j (suc i) l)

mark_below-outstanding : (j i : ℕ) (l : Log) → j < i → mark j (outstanding i l) ≡ outstanding i l
unfolding outstanding
mark_below-outstanding j i [] h = mark_below-number j i [] h
mark_below-outstanding j i ((s, true) ∷ l) h = mark_below-outstanding j (suc i) l (omega arith)
mark_below-outstanding j i ((s, false) ∷ l) h = mark_below-number j i ((s, false) ∷ l) h

mark-number : (k j i : ℕ) (l : Log) → j ≡ i + k → mark j (number i l) ≡ number i (handle k l)
unfolding mark number handle
mark-number zero j i [] e = refl
mark-number (suc k) j i [] e = refl
mark-number zero j i ((s, d) ∷ l) e = ground arith
mark-number (suc k) j i (x ∷ l) e = ground (arith, mark-number k j (suc i) l (omega arith))

-- The last sequence number of the handled run, or `acc` if there is none.
last_of_run : Option Text → Log → Option Text
last_of_run acc [] = acc
last_of_run acc ((s, true) ∷ l) = last_of_run (some s) l
last_of_run acc ((s, false) ∷ l) = acc

advance-number :
    (acc : Option Text) (i : ℕ) (l : Log)
    → advance acc (number i l) ≡ (last_of_run acc l, outstanding i l)
unfolding advance number outstanding last_of_run
advance-number acc i [] = refl
advance-number acc i ((s, true) ∷ l) = advance-number (some s) (suc i) l
advance-number acc i ((s, false) ∷ l) = refl

advance-outstanding : (i : ℕ) (l : Log) → advance none (outstanding i l) ≡ (none, outstanding i l)
unfolding advance outstanding
advance-outstanding i [] = refl
advance-outstanding i ((s, true) ∷ l) = advance-outstanding (suc i) l
advance-outstanding i ((s, false) ∷ l) = refl

last_of_run-sequence_at :
    (s : Text) (d : Bool) (l : Log) → last_of_run (some s) l ≡ sequence_at (run l) ((s, d) ∷ l)
unfolding last_of_run run
last_of_run-sequence_at s d [] = refl
last_of_run-sequence_at s d ((t, true) ∷ l) = last_of_run-sequence_at t true l
last_of_run-sequence_at s d ((t, false) ∷ l) = refl

answer-handled : (k : ℕ) (s : Text) (l : Log) → answer (suc k) ((s, true) ∷ l) ≡ answer k l
unfolding answer run handle
answer-handled k s l = ground (arith, sequence_at-suc (run (handle k l)))
  where
    sequence_at-suc :
        (n : ℕ) → 0 < n → get_elem? ((s, true) ∷ handle k l) n ≡ get_elem? (handle k l) (n - 1)
    sequence_at-suc zero h = elim h [ ]
    sequence_at-suc (suc n) h = ground arith

advance-mark :
    (k j i : ℕ) (l : Log)
    → j ≡ i + k
    → advance none (mark j (outstanding i l)) ≡ (answer k l, outstanding i (handle k l))
unfolding outstanding handle answer run
advance-mark k j i [] e = handle_none k
  where
    handle_none : (n : ℕ) → advance none (mark j []) ≡ (answer n [], outstanding i (handle n []))
    handle_none zero = unfold mark advance in refl
    handle_none (suc n) = unfold mark advance in refl
advance-mark zero j i ((s, true) ∷ l) e =
    rw (mark_below-outstanding j (suc i) l (omega arith))
      (ground (arith, advance-outstanding (suc i) l))
advance-mark (suc k) j i ((s, true) ∷ l) e =
    rw (answer-handled k s l) (advance-mark k j (suc i) l (omega arith))
advance-mark zero j i ((s, false) ∷ l) e =
    unfold mark advance in
    ground (arith, advance-number (some s) (suc i) l, last_of_run-sequence_at s true l)
advance-mark (suc k) j i ((s, false) ∷ l) e =
    unfold mark advance in ground (arith, mark-number k j (suc i) l)

-- A settlement answers what the log says, and marks the delivery in it.
pub settle-tracker : (i : ℕ) (l : Log) → settle i (tracker l) ≡ (answer i l, tracker (handle i l))
unfolding settle tracker
settle-tracker i l = ground (arith, advance-mark i i 0 l (omega arith), length-handle i l)
