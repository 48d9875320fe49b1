-- ===== src/InProcess/Log/Balance.antt =====
-- What the in-process transport tells the harness coordinator, beside what is in flight.
use ruststream_kinesis.Prelude.{
  ltb, take, str_eq, ◌&&◌, ℕ, zero, suc, ◌+◌, ◌≤◌, ◌≡◌, refl, ap, subst, inl, inr, Bool, true,
  false, Option, none, some, List, [], ◌∷◌, ◌++◌, Text, length, length-append, length-drop, drop,
  Result, ok, Option-cases, Result-cases, Bool-cases, arith,
}
use ruststream_kinesis.Error.{KinesisError}
use ruststream_kinesis.Message.{
  kpl_magic, KinesisPosition, horizon, latest, timestamp, sequence, Received,
}
use ruststream_kinesis.InProcess.Log.{
  Record, Delivery, Plan, Feed, count_of, subscribe, append, plan_over, target_of, partition_point,
  install_seek, seek, deliveries, reposition, apply_pending, deliver, release, receive, poll,
}

-- A publish, a seek while the transport is open or closed, a poll, and the end of a delivery.
pub data Event (B : Type 0) : Type 0 where
  publishes : Text → Text → B → ℕ → Event B
  seeks : Bool → KinesisPosition → Event B
  polls settles : Event B

abbrev yielded : Option (Result KinesisError Received) → ℕ
yielded (some (ok _)) = 1
yielded _ = 0

module _ {B : Type 0} (stream : Text) where
  -- The feed, and how many deliveries handlers hold; only a held one can end.
  unfoldable pub step : Event B → Feed B × ℕ → Feed B × ℕ
  step (publishes key content back now) (f, held) = (append key content back now f, held)
  step (seeks alive to) (f, held) = ((seek alive stream to f).1, held)
  step polls (f, held) = let (answer, f') = poll stream f in (f', held + yielded answer)
  step settles (f, zero) = (f, 0)
  step settles (f, suc held) = (release f, held)

  unfoldable pub run : List (Event B) → Feed B × ℕ → Feed B × ℕ
  unfolding step
  run [] x = x
  run (e ∷ es) x = run es (step e x)

  abbrev Within : Option Plan → List (Record B) → Type 0
  Within none records = Unit
  Within (some plan) records = plan.target + plan.count ≤ length records

  abbrev Balanced : Feed B × ℕ → Type 0
  Balanced (f, held) =
      (f.subscribed ≡ true)
      × (f.enqueued ≡ f.consumed + length f.queue + count_of f.pending + held)
      × Within f.pending f.records

  partition_point-le :
      (millis : ℕ) (log : List (Record B)) → partition_point millis log ≤ length log
  unfolding partition_point
  partition_point-le millis [] = omega arith
  partition_point-le millis (rec ∷ log) = ground (arith, partition_point-le millis log)

  target_of-le :
      (to : KinesisPosition) (log : List (Record B)) (target : ℕ)
      → target_of stream to log ≡ ok target
      → target ≤ length log
  unfolding target_of
  target_of-le horizon log target e = ground arith
  target_of-le latest log target e = ground arith
  target_of-le (timestamp millis) log target e = ground (arith, partition_point-le millis log)
  target_of-le (sequence shard seq) log target e = ground arith

  -- A plan lies within the log it was made over.
  plan_within :
      (to : KinesisPosition) (log : List (Record B)) (plan : Plan)
      → plan_over stream to log ≡ ok plan
      → plan.target + plan.count ≤ length log
  unfolding plan_over
  plan_within to log plan e = elim (Result-cases (target_of stream to log)) [
    | inl (target, at) ↦ ground (arith, e, at, target_of-le to log target at)
    | inr (x, failed) ↦ ground (arith, e, failed)
  ]

  length-deliveries : (n : ℕ) (log : List (Record B)) → length (deliveries n log) ≡ length log
  unfolding deliveries
  length-deliveries n [] = refl
  length-deliveries n (rec ∷ log) = omega (arith, length-deliveries (suc n) log)

  Within-grows :
      (p : Option Plan) (log : List (Record B)) (rec : Record B)
      → Within p log
      → Within p (log ++ rec ∷ [])
  Within-grows none log rec h = tt
  Within-grows (some plan) log rec h = omega (arith, h, length-append log (rec ∷ []))

  publish-Balanced :
      (key content : Text) (back : B) (now : ℕ) (f : Feed B) (held : ℕ)
      → Balanced (f, held)
      → Balanced (append key content back now f, held)
  unfolding append
  publish-Balanced key content back now f held (live, even, inside) =
      rw (live, append)
        (
          refl,
          omega (arith, even, length-append f.queue (_ ∷ [])),
          Within-grows f.pending f.records _ inside,
        )

  seek-Balanced :
      (alive : Bool) (to : KinesisPosition) (f : Feed B) (held : ℕ)
      → Balanced (f, held)
      → Balanced ((seek alive stream to f).1, held)
  unfolding seek install_seek
  seek-Balanced false to f held h = h
  seek-Balanced true to f held (live, even, inside) =
      elim (Result-cases (plan_over stream to f.records)) [
        | inr (e, failed) ↦ rw (failed, seek) (live, even, inside)
        | inl (plan, planned) ↦
            rw (planned, seek) (live, omega (arith, even), plan_within to f.records plan planned)
      ]

  apply-Balanced : (f : Feed B) (held : ℕ) → Balanced (f, held) → Balanced (apply_pending f, held)
  unfolding apply_pending reposition
  apply-Balanced f held (live, even, inside) = elim (Option-cases f.pending) [
    | inl nothing ↦ rw (nothing, apply_pending) (live, even, inside)
    | inr (plan, waiting) ↦
        let fits : plan.target + plan.count ≤ length f.records =
          subst (λ p. Within p f.records) waiting inside in
        let suffix : List (Record B) = drop plan.target f.records in
        rw (waiting, apply_pending)
          (
            live,
            omega (
              arith,
              even,
              fits,
              ap count_of waiting,
              length-drop plan.target f.records,
              length-deliveries plan.target suffix,
            ),
            tt,
          )
  ]

  deliver-Balanced :
      (d : Delivery B) (queue : List (Delivery B)) (f : Feed B) (held : ℕ)
      → f.queue ≡ d ∷ queue
      → Balanced (f, held)
      → let (answer, f') = deliver stream d (record f { queue = queue }) in
        Balanced (f', held + yielded (some answer))
  unfolding deliver
  deliver-Balanced d queue f held front (live, even, inside) =
      let one : length f.queue ≡ length queue + 1 = omega (arith, ap length front) in
      elim (Bool-cases
        (ltb 4 (length d.kept.content) && str_eq (take 4 d.kept.content) kpl_magic)) [
          | inl aggregated ↦ rw (aggregated, deliver) (live, omega (arith, even, one), inside)
          | inr plain ↦ rw (plain, deliver) (live, omega (arith, even, one), inside)
        ]

  poll-Balanced :
      (f : Feed B) (held : ℕ)
      → Balanced (f, held)
      → Balanced ((poll stream f).1, held + yielded (poll stream f).0)
  unfolding poll receive
  poll-Balanced f held h =
      front (apply_pending f) (apply_pending f).queue refl (apply-Balanced f held h)
    where
      front :
          (f' : Feed B) (queue : List (Delivery B))
          → f'.queue ≡ queue
          → Balanced (f', held)
          → Balanced ((receive stream queue f').1, held + yielded (receive stream queue f').0)
      front f' [] e (live, even, inside) = (live, omega (arith, even), inside)
      front f' (d ∷ rest) e balanced = deliver-Balanced d rest f' held e balanced

  step-Balanced : (e : Event B) (x : Feed B × ℕ) → Balanced x → Balanced (step e x)
  unfolding step release
  step-Balanced (publishes key content back now) (f, held) h =
      publish-Balanced key content back now f held h
  step-Balanced (seeks alive to) (f, held) h = seek-Balanced alive to f held h
  step-Balanced polls (f, held) h = poll-Balanced f held h
  step-Balanced settles (f, zero) h = h
  step-Balanced settles (f, suc held) (live, even, inside) = (live, omega (arith, even), inside)

  run-Balanced : (es : List (Event B)) (x : Feed B × ℕ) → Balanced x → Balanced (run es x)
  unfolding run
  run-Balanced [] x h = h
  run-Balanced (e ∷ es) x h = run-Balanced es (step e x) (step-Balanced e x h)

  -- From a subscription that opens with nothing in flight, and through any publishes, seeks, polls and ends
  -- of deliveries: what was counted as enqueued is what was counted as consumed, and the queue, the
  -- replay of a seek not yet applied, and the deliveries that handlers hold.
  pub run-in_flight :
      (es : List (Event B)) (f : Feed B)
      → f.enqueued ≡ f.consumed
      → let (last, held) = run es (subscribe f, 0) in
        last.enqueued ≡ last.consumed + length last.queue + count_of last.pending + held
  unfolding subscribe
  run-in_flight es f even =
      let (_, balanced, _) = run-Balanced es (subscribe f, 0) (refl, omega (arith, even), tt) in
      balanced
