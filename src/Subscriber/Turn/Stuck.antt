-- ===== src/Subscriber/Turn/Stuck.antt =====
-- The wait of `read_shard` of subscriber.rs at the end of a shard, beside what the other tasks do between
-- its looks: handlers settle, other readers deliver, and seeks raise gates.
use ruststream_kinesis.Prelude.{
  ℕ, suc, ◌+◌, ◌%◌, ◌<◌, ◌≤◌, ◌≡◌, ◌≢◌, ◌⊎◌, refl, ap, ◌∙◌, inl, inr, Bool, true, false, Option,
  none, some, List, [], ◌∷◌, ◌==◌, ◌&&◌, ltb, if◌then◌else◌, length, length-append, get_or,
  get_or-set, get_or-append, length-set, set, Bool-cases, arith, Text,
}
use ruststream_kinesis.Lease.{LeaseStore}
use ruststream_kinesis.Track
use ruststream_kinesis.Track.{u64_mod, drained, Watermark}
use ruststream_kinesis.Track.Refinement.{Log}
use ruststream_kinesis.Message.{
  Settle, Settlement, checkpoint, in_process, World, tracker_at, gate_at, persist, settle, ack,
  nack,
}
use ruststream_kinesis.Subscriber.Service.{Service}
use ruststream_kinesis.Subscriber.Reader.{Scene, Reader, Post, drains}
use ruststream_kinesis.Subscriber.Turn.{wait}
use ruststream_kinesis.Message.Run.{Event, delivers, acks, nacks, bumps, resets, step, run}

-- How often the gate is raised.
unfoldable pub passed : ℕ → List Event → ℕ
passed gate [] = 0
passed gate (bumps g ∷ es) = let rest = passed gate es in if g == gate then suc rest else rest
passed gate (e ∷ es) = passed gate es

module _ (place gate epoch : ℕ) where
  -- A settlement of another tracker, or of a delivery of the generation `epoch`.
  abbrev pub Earlier : Settle → Type 0
  Earlier (in_process stream shard) = Unit
  Earlier (checkpoint s) = (s.tracker ≢ place) ⊎ ((s.gate ≡ gate) × (s.epoch ≡ epoch))

  -- The waiting reader delivers nothing, so no delivery is on its tracker.
  abbrev pub IsEarlier : Event → Type 0
  IsEarlier (delivers i seq) = i ≢ place
  IsEarlier (acks m) = Earlier m.received.settlement
  IsEarlier (nacks m requeue) = Earlier m.received.settlement
  IsEarlier (bumps g) = Unit
  IsEarlier resets = Unit

  abbrev pub AllEarlier : List Event → Type 0
  AllEarlier [] = Unit
  AllEarlier (e ∷ es) = IsEarlier e × AllEarlier es

module _ {S : Type 0} (store : LeaseStore S) where
  -- From one world to a later one: the tracker is as it was, and the gate has gone up.
  abbrev pub Waits : ℕ → ℕ → ℕ → World S → World S → Type 0
  Waits place gate ups w w' =
      (tracker_at w' place ≡ tracker_at w place)
      × (length w.trackers ≤ length w'.trackers)
      × (length w'.gates ≡ length w.gates)
      × (gate_at w' gate ≡ (gate_at w gate + ups) % u64_mod)

  persist-world :
      (s : Settlement) (advanced : Option Text) (w : World S)
      → ((persist store s advanced w).1.trackers ≡ w.trackers)
        × ((persist store s advanced w).1.gates ≡ w.gates)
  unfolding persist
  persist-world s none w = (refl, refl)
  persist-world s (some seq) w = (refl, refl)

  other_tracker :
      {place gate epoch : ℕ} (s : Settlement) (w : World S)
      → Earlier place gate epoch (checkpoint s)
      → (gate_at w s.gate == s.epoch) ≡ true
      → gate_at w gate ≢ epoch
      → (s.tracker == place) ≡ false
  other_tracker s w (inl other) live over = ground arith
  other_tracker s w (inr (g, e)) live over = absurd (over (ground (arith, ap (gate_at w) g)))

  settle-Waits :
      (place gate epoch : ℕ) (s : Settle) (w : World S)
      → Earlier place gate epoch s
      → gate_at w gate < u64_mod
      → gate_at w gate ≢ epoch
      → Waits place gate 0 w (settle store s w).1
  unfolding settle
  settle-Waits place gate epoch (in_process stream shard) w h small over =
      (refl, omega arith, refl, omega arith)
  settle-Waits place gate epoch (checkpoint s) w h small over =
      elim (Bool-cases (gate_at w s.gate == s.epoch)) [
        | inr stale ↦ rw stale (refl, omega arith, refl, omega arith)
        | inl live ↦
            let (advanced, tracker') = Track.settle s.index (tracker_at w s.tracker) in
            let w1 : World S = record w { trackers = set w.trackers s.tracker tracker' } in
            let (same, gates) = persist-world s advanced w1 in
            rw live (
              ap (λ (l : List Watermark). get_or l place Track.default) same
                  ∙ get_or-set w.trackers s.tracker place tracker' Track.default
                  ∙ ap
                      (λ (b : Bool).
                        if b && ltb s.tracker (length w.trackers)
                        then tracker'
                        else tracker_at w place)
                      (other_tracker s w h live over),
              omega (
                arith,
                ap (λ (l : List Watermark). length l) same,
                length-set w.trackers s.tracker tracker',
              ),
              ap (λ (l : List ℕ). length l) gates,
              ap (λ (l : List ℕ). get_or l gate 0) gates ∙ omega arith,
            )
      ]

  step-Waits :
      (place gate epoch : ℕ) (e : Event) (w : World S)
      → IsEarlier place gate epoch e
      → place < length w.trackers
      → gate < length w.gates
      → gate_at w gate < u64_mod
      → gate_at w gate ≢ epoch
      → Waits place gate (passed gate (e ∷ [])) w (step store e w)
  unfolding step ack nack passed
  step-Waits place gate epoch (delivers i seq) w h here there small over =
      let tracker' = (Track.deliver seq (tracker_at w i)).1 in
      (
        ground (arith, get_or-set w.trackers i place tracker' Track.default),
        omega (arith, length-set w.trackers i tracker'),
        refl,
        omega arith,
      )
  step-Waits place gate epoch (acks m) w h here there small over =
      settle-Waits place gate epoch m.received.settlement w h small over
  step-Waits place gate epoch (nacks m true) w h here there small over =
      (refl, omega arith, refl, omega arith)
  step-Waits place gate epoch (nacks m false) w h here there small over =
      settle-Waits place gate epoch m.received.settlement w h small over
  step-Waits place gate epoch (bumps g) w h here there small over = (
    refl,
    omega arith,
    length-set w.gates g _,
    ground (arith, get_or-set w.gates g gate ((gate_at w g + 1) % u64_mod) 0),
  )
  step-Waits place gate epoch resets w h here there small over = (
    get_or-append w.trackers place Track.default,
    omega (arith, length-append w.trackers (Track.default ∷ [])),
    refl,
    omega arith,
  )

  passed-cons :
      (gate : ℕ) (e : Event) (es : List Event)
      → passed gate (e ∷ es) ≡ passed gate (e ∷ []) + passed gate es
  unfolding passed
  passed-cons gate (bumps g) es = ground arith
  passed-cons gate (delivers i seq) es = omega arith
  passed-cons gate (acks m) es = omega arith
  passed-cons gate (nacks m requeue) es = omega arith
  passed-cons gate resets es = omega arith

  -- Once the gate has left the generation, it does not come back to it within a turn of the counter.
  run_keeps :
      (place gate epoch ups : ℕ) (es : List Event) (w : World S) (logs : List Log)
      → AllEarlier place gate epoch es
      → place < length w.trackers
      → gate < length w.gates
      → epoch < u64_mod
      → gate_at w gate ≡ (epoch + suc ups) % u64_mod
      → suc ups + passed gate es < u64_mod
      → tracker_at (run store es w logs).1 place ≡ tracker_at w place
  unfolding run
  run_keeps place gate epoch ups [] w logs h here there small at few = refl
  run_keeps place gate epoch ups (e ∷ es) w logs (h, hs) here there small at few =
      let (same, grown, wide, raised) =
        step-Waits place gate epoch e w h here there (omega (arith, at))
          (λ back. omega (arith, at, back, few)) in
      let once = passed gate (e ∷ []) in
      let split = passed-cons gate e es in
      run_keeps place gate epoch (ups + once) es (step store e w) _ hs (omega (arith, here, grown))
        (omega (arith, there, wide)) small (omega (arith, raised, at)) (omega (arith, split, few))
      ∙ same

module _ {V S : Type 0} (service : Service V) (store : LeaseStore S) (post : Post) where
  -- The world of the scene, once a seek has raised the reader's gate and `es` has happened.
  abbrev pub after_seek : List Event → Scene V S → Scene V S
  after_seek es w = record w { world = (run store (bumps post.gate ∷ es) w.world []).1 }

  -- A seek that raises the gate while a reader waits at the end of its shard for outstanding deliveries
  -- leaves it waiting for good: whatever is settled, delivered or sought meanwhile, so long as the
  -- deliveries on its tracker are of the generation before the seek, its gate goes up fewer than
  -- 2^64 times and the subscriber is there, every look finds it waiting and leaves
  -- the scene as it is: the seek has no answer, and the lease row no mark of the shard's end.
  pub wait-stays :
      (r : Reader) (w : Scene V S) (es : List Event)
      → drained (tracker_at w.world r.tracker) ≡ false
      → w.closed ≡ false
      → r.tracker < length w.world.trackers
      → post.gate < length w.world.gates
      → gate_at w.world post.gate < u64_mod
      → AllEarlier r.tracker post.gate (gate_at w.world post.gate) es
      → suc (passed post.gate es) < u64_mod
      → wait service store post r (after_seek es w) ≡ drains r (after_seek es w)
  unfolding wait run step
  wait-stays r w es unsettled there here gated small earlier few =
      let epoch = gate_at w.world post.gate in
      let w1 : World S = record w.world {
        gates = set w.world.gates post.gate ((epoch + 1) % u64_mod);
      } in
      let raised : gate_at w1 post.gate ≡ (epoch + 1) % u64_mod =
        ground (arith, get_or-set w.world.gates post.gate post.gate ((epoch + 1) % u64_mod) 0) in
      let same : tracker_at (run store es w1 []).1 r.tracker ≡ tracker_at w.world r.tracker =
        run_keeps store r.tracker post.gate epoch 0 es w1 [] earlier here
          (omega (arith, gated, length-set w.world.gates post.gate ((epoch + 1) % u64_mod))) small
          raised (omega arith) in
      rw (ap drained same ∙ unsettled, wait) (rw (there, wait) refl)
