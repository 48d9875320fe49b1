-- ===== src/Subscriber/Seek/Retire.antt =====
-- What a seek of subscriber.rs leaves of the generations before it.
use ruststream_kinesis.Prelude.{
  ℕ, zero, suc, ◌+◌, ◌%◌, ◌≤◌, ◌<◌, ◌≡◌, refl, ◌==◌, false, some, List, [], ◌∷◌, get_or, get_elem?,
  get_or-set, length-set, length, if◌then◌else◌, arith, inl, inr, Bool-cases, Option-cases,
}
use ruststream_kinesis.Track.{u64_mod}
use ruststream_kinesis.Cursor.{StreamStart, ShardStart}
use ruststream_kinesis.Subscriber.{ShardHandle, live, install, is_current}
use ruststream_kinesis.Subscriber.Seek.{Hub, bump, bump_all, send, send_all, seek_stream}

-- How many of the handles have the gate.
count : List ShardHandle → ℕ → ℕ
count [] p = 0
count (h ∷ handles) p = let rest = count handles p in if h.gate == p then suc rest else rest

count-le : (handles : List ShardHandle) (p : ℕ) → count handles p ≤ length handles
unfolding count
count-le [] p = omega arith
count-le (h ∷ handles) p = ground (arith, count-le handles p)

count_pos :
    (handles : List ShardHandle) (i : ℕ) (h : ShardHandle)
    → get_elem? handles i ≡ some h
    → 0 < count handles h.gate
unfolding count
count_pos [] i h e = cc
count_pos (x ∷ handles) zero h e = ground arith
count_pos (x ∷ handles) (suc i) h e = ground (arith, count_pos handles i h e)

bump-gate :
    (gates : List ℕ) (g p : ℕ)
    → p < length gates
    → get_or (bump g gates) p 0
      ≡ (if g == p then (get_or gates p 0 + 1) % u64_mod else get_or gates p 0)
unfolding bump
bump-gate gates g p here = ground (arith, get_or-set gates g p ((get_or gates g 0 + 1) % u64_mod) 0)

length-bump : (gates : List ℕ) (g : ℕ) → length (bump g gates) ≡ length gates
unfolding bump
length-bump gates g = length-set gates g ((get_or gates g 0 + 1) % u64_mod)

-- A gate counts the bumps, modulo its width.
bump_all-gate :
    (handles : List ShardHandle) (gates : List ℕ) (p : ℕ)
    → p < length gates
    → get_or gates p 0 < u64_mod
    → get_or (bump_all handles gates) p 0 ≡ (get_or gates p 0 + count handles p) % u64_mod
unfolding bump_all count
bump_all-gate [] gates p here small = omega arith
bump_all-gate (h ∷ handles) gates p here small = elim (Bool-cases (h.gate == p)) [
  | inl same ↦
      let once : get_or (bump h.gate gates) p 0 ≡ (get_or gates p 0 + 1) % u64_mod =
        ground (arith, bump-gate gates h.gate p here) in
      let rest =
        bump_all-gate handles (bump h.gate gates) p (omega (arith, length-bump gates h.gate))
          (omega (arith, once)) in
      ground arith
  | inr other ↦
      let kept : get_or (bump h.gate gates) p 0 ≡ get_or gates p 0 =
        ground (arith, bump-gate gates h.gate p here) in
      let rest =
        bump_all-gate handles (bump h.gate gates) p (omega (arith, length-bump gates h.gate))
          (omega (arith, kept)) in
      ground arith
]

send_all-gates :
    (handles : List ShardHandle) (start : StreamStart) (hub : Hub)
    → ((send_all handles start hub).1.gates ≡ hub.gates)
      × ((send_all handles start hub).1.bus ≡ hub.bus)
unfolding send_all
send_all-gates [] start hub = (refl, refl)
send_all-gates (h ∷ handles) start hub =
    elim (Option-cases
      (send h.tx (record { start = ShardStart.stream start; done = hub.asked }) hub.queues)) [
        | inl gone ↦ rw (gone, send_all) (send_all-gates handles start hub)
        | inr (queues', sent) ↦
            rw (sent, send_all)
              (send_all-gates handles start
                (record hub { queues = queues'; asked = hub.asked + 1 }))
      ]

-- After a seek to a stream-wide position, that position is installed for the readers that start later,
-- and whatever any registered reader delivered before it is no longer current, on a subscription
-- of fewer than 2^64 readers whose gates are in place.
pub seek_stream-retires :
    (start : StreamStart) (hub : Hub) (i : ℕ) (h : ShardHandle)
    → get_elem? (live hub.bus) i ≡ some h
    → h.gate < length hub.gates
    → length (live hub.bus) < u64_mod
    → get_or hub.gates h.gate 0 < u64_mod
    → ((seek_stream start hub).1.bus ≡ install start hub.bus)
      × (is_current (some (get_or hub.gates h.gate 0, h.gate)) (seek_stream start hub).1.gates
          ≡ false)
unfolding seek_stream is_current live install
seek_stream-retires start hub i h at here few small =
    let handles : List ShardHandle = live hub.bus in
    let sent =
      send_all-gates handles start
        (record hub { bus = install start hub.bus; gates = bump_all handles hub.gates }) in
    (
      sent.1,
      ground (
        arith,
        sent.0,
        bump_all-gate handles hub.gates h.gate here small,
        count-le handles h.gate,
        count_pos handles i h at,
      ),
    )
