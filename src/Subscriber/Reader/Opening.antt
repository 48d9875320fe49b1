-- ===== src/Subscriber/Reader/Opening.antt =====
-- The place of a reader of subscriber.rs in its shard, across the records it hands out.
use ruststream_kinesis.Prelude.{
  ℕ, ◌≡◌, ◌≢◌, refl, ap, sym, ◌∙◌, subst, inl, inr, Bool, true, false, Option, none, some, [], ◌∷◌,
  ◌++◌, Text, Result, ok, err, Bool-cases, Option-cases,
}
use ruststream_kinesis.Cursor.{StreamStart, Reading, Lineage, reopen_at}
use ruststream_kinesis.Cursor.Reopen.{tip, reopen_at-tip}
use ruststream_kinesis.Error.{LeaseError}
use ruststream_kinesis.Lease.{LeaseKey, LeaseState, LeaseStore}
use ruststream_kinesis.Lease.Contract.{Row, Contract}
use ruststream_kinesis.Subscriber.{Stamped}
use ruststream_kinesis.Subscriber.Service.{Service, Record}
use ruststream_kinesis.Subscriber.Reader.{
  Scene, Reader, Post, Step, goes, drains, stops, taken, first_read, open_reading, forward,
  hand_out, send, is_aggregated,
}

-- What one record's step leaves, from the row of the shard before: handed out, it has added one item
-- to the channel under a reading that is recorded and has a place; otherwise it has added none.
abbrev pub HandedOut :
    {V S : Type 0} → Post → (LeaseKey → S → Row) → Text → Reader → Scene V S → Step V S → Type 0
HandedOut post row seq r w (goes r' w') =
    (r'.reading.unrecorded ≡ false)
    × (r'.reading.rewind ≡ (first_read seq r.reading).rewind)
    × (r.reading.unrecorded ≡ true → (row post.lease w'.world.store).opened_at ≡ some seq)
    × ((item : Stamped) × (w'.out ≡ w.out ++ item ∷ []))
HandedOut post row seq r w (drains r' w') = ⊥
HandedOut post row seq r w (stops rewind w') = w'.out ≡ w.out

taken_ok : (r : Result LeaseError Bool) → taken r ≡ true → r ≡ ok true
taken_ok (ok b) h = ap ok h
taken_ok (err e) h = cc h

module _ {V S : Type 0} (service : Service V) (store : LeaseStore S) (post : Post) where
  -- A record that is forwarded, or not: the store is left as it is if it is.
  abbrev Forwarded : Reader → Scene V S → Step V S → Type 0
  Forwarded r w (goes r' w') =
      (r' ≡ r)
      × (w'.world.store ≡ w.world.store)
      × ((item : Stamped) × (w'.out ≡ w.out ++ item ∷ []))
  Forwarded r w (drains r' w') = ⊥
  Forwarded r w (stops rewind w') = w'.out ≡ w.out

  forward_lem :
      (epoch : ℕ) (rec : Record) (r : Reader) (w : Scene V S)
      → Forwarded r w (forward service store post epoch rec r w)
  unfolding forward send
  forward_lem epoch rec r w = elim (Bool-cases (is_aggregated rec.content)) [
    | inl aggregated ↦ elim (Bool-cases w.closed) [
      | inl gone ↦ rw (aggregated, forward) (rw (gone, forward) refl)
      | inr there ↦ rw (aggregated, forward) (rw (there, forward) (refl, refl, (_, refl)))
    ]
    | inr plain ↦ elim (Bool-cases w.closed) [
      | inl gone ↦ rw (plain, forward) (rw (gone, forward) refl)
      | inr there ↦ rw (plain, forward) (rw (there, forward) (refl, refl, (_, refl)))
    ]
  ]

module _ {V S : Type 0} (service : Service V) (store : LeaseStore S) (post : Post)
    (row : LeaseKey → S → Row) (c : Contract store row) where
  forwarded :
      (seq : Text) (r r1 : Reader) (w w1 : Scene V S) (step : Step V S)
      → r1.reading.unrecorded ≡ false
      → r1.reading.rewind ≡ (first_read seq r.reading).rewind
      → w1.out ≡ w.out
      → (r.reading.unrecorded ≡ true → (row post.lease w1.world.store).opened_at ≡ some seq)
      → Forwarded service store post r1 w1 step
      → HandedOut post row seq r w step
  forwarded seq r r1 w w1 (goes r' w') known place same opened (r_same, s_same, (item, added)) = (
    ap (λ x. x.reading.unrecorded) r_same ∙ known,
    ap (λ x. x.reading.rewind) r_same ∙ place,
    λ h. ap (λ s. (row post.lease s).opened_at) s_same ∙ opened h,
    (item, added ∙ ap (λ o. o ++ item ∷ []) same),
  )
  forwarded seq r r1 w w1 (drains r' w') known place same opened h = h
  forwarded seq r r1 w w1 (stops rewind w') known place same opened h = h ∙ same

  first_read_keeps :
      (seq : Text) (reading : Reading) → (first_read seq reading).unrecorded ≡ reading.unrecorded
  unfolding first_read
  first_read_keeps seq reading = elim (Option-cases reading.rewind) [
    | inl fresh ↦ rw (fresh, first_read) refl
    | inr (_, placed) ↦ rw (placed, first_read) refl
  ]

  -- Handing a record out, a reading that is not recorded yet records its opening first: the row then
  -- names this record, and only then the channel gets it; a reader that cannot record the opening
  -- hands out nothing. Any record handed out leaves a reading that is recorded and has a place.
  pub hand_out-opened :
      (epoch : ℕ) (rec : Record) (r : Reader) (w : Scene V S)
      → HandedOut post row rec.sequence_number r w (hand_out service store post epoch rec r w)
  unfolding hand_out open_reading
  hand_out-opened epoch rec r w =
      let seq : Text = rec.sequence_number in
      let r1 : Reader = record r { reading = first_read seq r.reading } in
      let (answer, s') = store.record_opened_at post.lease post.owner seq w.world.store in
      let w1 : Scene V S = record w { world = record w.world { store = s' } } in
      let same : r1.reading.unrecorded ≡ r.reading.unrecorded = first_read_keeps seq r.reading in
      elim (Bool-cases r1.reading.unrecorded) [
        | inr known ↦
            rw (known, hand_out)
              (forwarded seq r r1 w w (forward service store post epoch rec r1 w) known refl refl
                (λ h. cc h) (forward_lem service store post epoch rec r1 w))
        | inl new ↦ elim (Bool-cases (taken answer)) [
          | inr refused ↦ rw (new, hand_out) (rw (refused, hand_out) refl)
          | inl accepted ↦
              let r2 : Reader = record r1 { reading = record r1.reading { unrecorded = false } } in
              let opened : (row post.lease s').opened_at ≡ some seq =
                ap (λ x. x.opened_at)
                  (c.record_opened_at_taken post.lease post.owner seq w.world.store
                    (taken_ok answer accepted)).1 in
              rw (new, hand_out)
                (rw (accepted, hand_out)
                  (forwarded seq r r2 w w1 (forward service store post epoch rec r2 w1) refl refl
                    refl (λ _. opened) (forward_lem service store post epoch rec r2 w1)))
        ]
      ]

  first_read_placed :
      (seq : Text) (reading : Reading)
      → reading.rewind ≢ some tip
      → ((first_read seq reading).rewind ≢ none) × ((first_read seq reading).rewind ≢ some tip)
  unfolding first_read
  first_read_placed seq reading h = elim (Option-cases reading.rewind) [
    | inl fresh ↦ rw (fresh, first_read) (λ e. cc e, λ e. cc e)
    | inr (place, placed) ↦ rw (placed, first_read) (λ e. cc e, h)
  ]

  -- The reading that handing a record out leaves, when it did not begin at the tip, reopens elsewhere
  -- than at the tip: whatever the row holds by then and whatever start a seek has installed for the
  -- stream, short of a seek command that is applied to the reader itself.
  pub hand_out-not_tip :
      (epoch : ℕ) (rec : Record) (r r' : Reader) (w w' : Scene V S) (state : LeaseState)
      (lineage : Lineage) (start : Option StreamStart)
      → hand_out service store post epoch rec r w ≡ goes r' w'
      → r.reading.rewind ≢ some tip
      → reopen_at state.checkpoint state.opened_at r'.reading.rewind lineage start ≢ tip
  hand_out-not_tip epoch rec r r' w w' state lineage start e h at_tip =
      let handed : HandedOut post row rec.sequence_number r w (goes r' w') =
        subst (HandedOut post row rec.sequence_number r w) e (hand_out-opened epoch rec r w) in
      let (some_place, not_tip) = first_read_placed rec.sequence_number r.reading h in
      let (_, _, rest) =
        reopen_at-tip state.checkpoint state.opened_at r'.reading.rewind lineage start at_tip in
      elim rest [
        | inl kept ↦ not_tip (sym handed.1 ∙ kept)
        | inr (lost, _, _) ↦ some_place (sym handed.1 ∙ lost)
      ]
