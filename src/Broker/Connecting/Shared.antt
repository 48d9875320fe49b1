-- ===== src/Broker/Connecting/Shared.antt =====
-- The connection that the publishers and the clones of a broker of broker.rs share, over any further
-- connects and shutdowns.
use ruststream_kinesis.Prelude.{
  ℕ, ◌≡◌, refl, ap, ◌∙◌, ◌==◌, inl, inr, Bool, true, false, ◌||◌, Option, none, some, List, [], ◌∷◌,
  Text, if◌then◌else◌, ok, err, Bool-cases, Option-cases, arith,
}
use ruststream_kinesis.Error.{not_connected}
use ruststream_kinesis.Broker.Connecting.{
  KinesisBroker, Core, ConnectedBroker, CellPublisher, Cells, connect, core_of, fill, link,
  shutdown,
}

-- A builder connects on a runtime, or a connected broker is shut down.
pub data Event (C L : Type 0) : Type 0 where
  connects : KinesisBroker C L → ℕ → L → Text → Event C L
  shuts : ConnectedBroker → Event C L

-- Whether the broker of the cell is shut down in the run.
unfoldable pub shut : {C L : Type 0} → ℕ → List (Event C L) → Bool
shut cell [] = false
shut cell (connects b runtime memory drawn ∷ es) = shut cell es
shut cell (shuts connected ∷ es) = connected.cell == cell || shut cell es

or-swap : (x y z : Bool) → (x || (y || z)) ≡ ((y || x) || z)
or-swap x y z = ground arith

module _ {C L : Type 0} (load : Option Text → Option Text → Bool → C) where
  unfoldable pub step : Event C L → Cells C L → Cells C L
  step (connects b runtime memory drawn) cells = (connect load b runtime memory drawn cells).1
  step (shuts connected) cells = shutdown connected cells

  unfoldable pub run : List (Event C L) → Cells C L → Cells C L
  run [] cells = cells
  run (e ∷ es) cells = run es (step e cells)

  fill-other :
      (cell other : ℕ) (core : Core C L) (cells : Cells C L)
      → (other == cell) ≡ false
      → fill cell core cells other ≡ cells other
  unfolding fill
  fill-other cell other core cells apart = rw apart refl

  pub fill-same :
      (cell other : ℕ) (core : Core C L) (cells : Cells C L)
      → (other == cell) ≡ true
      → fill cell core cells other ≡ some core
  unfolding fill
  fill-same cell other core cells same = rw same refl

  pub connect-filled :
      (b : KinesisBroker C L) (runtime : ℕ) (memory : L) (drawn : Text) (cell : ℕ) (core : Core C L)
      (cells : Cells C L)
      → cells cell ≡ some core
      → (connect load b runtime memory drawn cells).1 cell ≡ some core
  unfolding connect
  connect-filled b runtime memory drawn cell core cells filled =
      elim (Option-cases (cells b.cell)) [
        | inr (other, there) ↦ rw (there, connect) filled
        | inl free ↦ elim (Bool-cases (cell == b.cell)) [
          | inr apart ↦ rw (free, connect) (fill-other b.cell cell _ cells apart ∙ filled)
          | inl same ↦ ground (arith, filled, free, same)
        ]
      ]

  shutdown-filled :
      (connected : ConnectedBroker) (cell : ℕ) (core : Core C L) (cells : Cells C L)
      → cells cell ≡ some core
      → shutdown connected cells cell
        ≡ some (record core { closed = connected.cell == cell || core.closed })
  unfolding shutdown
  shutdown-filled connected cell core cells filled = elim (Bool-cases (connected.cell == cell)) [
    | inr apart ↦
        let other : (cell == connected.cell) ≡ false = ground (arith, apart) in
        elim (Option-cases (cells connected.cell)) [
          | inl free ↦ rw (free, shutdown) (rw apart filled)
          | inr (core', there) ↦
              rw (there, shutdown)
                (fill-other connected.cell cell _ cells other ∙ filled ∙ rw apart refl)
        ]
    | inl same ↦
        let here : (cell == connected.cell) ≡ true = ground (arith, same) in
        let there : cells connected.cell ≡ some core = ground (arith, same, filled) in
        rw (there, shutdown) (fill-same connected.cell cell _ cells here ∙ rw same refl)
  ]

  run-filled :
      (es : List (Event C L)) (cell : ℕ) (core : Core C L) (cells : Cells C L)
      → cells cell ≡ some core
      → run es cells cell ≡ some (record core { closed = shut cell es || core.closed })
  unfolding run step shut
  run-filled [] cell core cells filled = filled
  run-filled (connects b runtime memory drawn ∷ es) cell core cells filled =
      run-filled es cell core _ (connect-filled b runtime memory drawn cell core cells filled)
  run-filled (shuts connected ∷ es) cell core cells filled =
      run-filled es cell _ _ (shutdown-filled connected cell core cells filled)
      ∙ ap (λ closed. some (record core { closed = closed }))
          (or-swap (shut cell es) (connected.cell == cell) core.closed)

  -- A publisher on a broker's cell, whether it was handed out before the broker connected, by a clone of
  -- the builder or by a connected broker, finds no connection before the first connect. From then on,
  -- whatever builders connect and whatever brokers are shut down, it finds the core of that first
  -- connect, with its configuration, store and owner, until a broker of the cell is shut down, and
  -- from the shutdown on none, a later connect notwithstanding.
  pub run-shared :
      (b : KinesisBroker C L) (runtime : ℕ) (memory : L) (drawn : Text) (p : CellPublisher)
      (es : List (Event C L)) (cells : Cells C L)
      → cells b.cell ≡ none
      → p.cell ≡ b.cell
      → (link p cells ≡ err not_connected)
        × (link p (run es (connect load b runtime memory drawn cells).1) ≡ (
            if shut b.cell es then err not_connected else ok (core_of load b runtime memory drawn)))
  unfolding link connect core_of
  run-shared b runtime memory drawn p es cells free same =
      let core = core_of load b runtime memory drawn in
      let filled : (connect load b runtime memory drawn cells).1 b.cell ≡ some core =
        rw (free, connect) (fill-same b.cell b.cell core cells (ground arith)) in
      let later = run-filled es b.cell core (connect load b runtime memory drawn cells).1 filled in
      (
        rw same (rw (free, link) refl),
        rw same (
            rw (later, link)
              (elim (Bool-cases (shut b.cell es)) [
                | inl closed ↦ rw closed refl
                | inr open_still ↦ rw open_still (rw open_still refl)
              ])),
      )
