-- ===== src/Subscriber/Coordinator/Held.antt =====
-- The errors that `coordinate` of subscriber.rs holds back on its first pass.
use ruststream_kinesis.Prelude.{
  ℕ, ◌≡◌, refl, sym, ap, ◌∙◌, inl, inr, true, false, List, [], ◌∷◌, ◌++◌, Text, map, map-snoc,
  append_assoc, append-nil, str_eq, Result, ok, err, Bool-cases, Option-cases, Result-cases,
}
use ruststream_kinesis.Error.{KinesisError}
use ruststream_kinesis.Cursor.{Lineage}
use ruststream_kinesis.Lease.{LeaseStore, shard_end}
use ruststream_kinesis.Subscriber.{Stamped, unstamped, installed}
use ruststream_kinesis.Subscriber.Service.{Shard}
use ruststream_kinesis.Subscriber.Parents.{parents}
use ruststream_kinesis.Subscriber.Reader.{lease_ttl, unwrap_or_default}
use ruststream_kinesis.Subscriber.Coordinator.{
  Coordinator, contains_key, report, start_reader, key_of, acquire_shard, open_shard, lineage_of,
  consider, consider_all, pass,
}

abbrev reported : KinesisError → Stamped
reported e = unstamped (err e)

-- The end of the first pass: what was held back goes into the channel.
unfoldable pub flush : {S : Type 0} → Coordinator S → Coordinator S
flush c = record c { held = []; out = c.out ++ map reported c.held }

-- The passes of a coordinator, each with its listing and its time.
unfoldable pub later_passes :
    {S : Type 0}
    → LeaseStore S
    → Text
    → Text
    → List (Result KinesisError (List Shard) × ℕ)
    → Coordinator S
    → Coordinator S
later_passes store stream owner [] c = c
later_passes store stream owner ((listing, now) ∷ passes) c =
    later_passes store stream owner passes (pass store stream owner listing false now c)

unfoldable pub coordinate :
    {S : Type 0}
    → LeaseStore S
    → Text
    → Text
    → List (Result KinesisError (List Shard) × ℕ)
    → Coordinator S
    → Coordinator S
coordinate store stream owner [] c = c
coordinate store stream owner ((listing, now) ∷ passes) c =
    later_passes store stream owner passes (flush (pass store stream owner listing true now c))

report-flush :
    {S : Type 0} (e : KinesisError) (c : Coordinator S)
    → flush (report true e c) ≡ report false e (flush c)
unfolding flush report
report-flush e c =
    ap (λ (out : List Stamped). record c { held = []; out = out })
      (ap (λ l. c.out ++ l) (map-snoc reported c.held e)
        ∙ sym (append_assoc c.out (map reported c.held) (reported e ∷ [])))

flush-none : {S : Type 0} (c : Coordinator S) → c.held ≡ [] → flush c ≡ c
unfolding flush
flush-none c e =
    ap (λ (held : List KinesisError). record c { held = []; out = c.out ++ map reported held }) e
    ∙ ap (λ (out : List Stamped). record c { held = []; out = out }) (append-nil c.out)
    ∙ ap (λ (held : List KinesisError). record c { held = held }) (sym e)

module _ {S : Type 0} (store : LeaseStore S) (stream owner : Text) (shards : List Shard)
    (now : ℕ) where
  acquire_shard-flush :
      (lineage : Lineage) (id : Text) (c : Coordinator S)
      → flush (acquire_shard store stream owner shards true now lineage id c)
        ≡ acquire_shard store stream owner shards false now lineage id (flush c)
  unfolding acquire_shard flush start_reader
  acquire_shard-flush lineage id c =
      let (answer, s') =
        store.acquire (key_of store stream owner shards true now id) owner lease_ttl now c.store in
      let c' : Coordinator S = record c { store = s' } in
      elim (Result-cases answer) [
        | inr (e, failed) ↦ rw (failed, acquire_shard) (report-flush _ c')
        | inl (b, answered) ↦ elim (Bool-cases b) [
          | inr other ↦ rw (answered, acquire_shard) (rw (other, acquire_shard) refl)
          | inl mine ↦ rw (answered, acquire_shard) (rw (mine, acquire_shard) refl)
        ]
      ]

  open_shard-flush :
      (lineage : Lineage) (id : Text) (c : Coordinator S)
      → flush (open_shard store stream owner shards true now lineage id c)
        ≡ open_shard store stream owner shards false now lineage id (flush c)
  unfolding open_shard flush
  open_shard-flush lineage id c =
      let (answer, s') = store.read (key_of store stream owner shards true now id) c.store in
      let c' : Coordinator S = record c { store = s' } in
      elim (Result-cases answer) [
        | inr (e, failed) ↦ rw (failed, open_shard) (report-flush _ c')
        | inl (state, answered) ↦
            elim (Bool-cases (str_eq (unwrap_or_default state.checkpoint) shard_end)) [
              | inl finished ↦ rw (answered, open_shard) (rw (finished, open_shard) refl)
              | inr unfinished ↦
                  rw (answered, open_shard)
                    (rw (unfinished, open_shard) (acquire_shard-flush lineage id c'))
            ]
      ]

  consider-flush :
      (shard : Shard) (c : Coordinator S)
      → flush (consider store stream owner shards true now shard c)
        ≡ consider store stream owner shards false now shard (flush c)
  unfolding consider flush
  consider-flush shard c =
      let (outcome, s') = parents store (installed c.bus) stream shards shard c.store in
      let c1 : Coordinator S = record c { store = s' } in
      elim (Bool-cases (contains_key shard.shard_id c.readers)) [
        | inl there ↦ rw (there, consider) refl
        | inr absent ↦ elim (Option-cases (lineage_of store stream owner shards true now outcome)) [
          | inl waits ↦ rw (absent, consider) (rw (waits, consider) refl)
          | inr (lineage, free) ↦
              rw (absent, consider)
                (rw (free, consider) (open_shard-flush lineage shard.shard_id c1))
        ]
      ]

  consider_all-flush :
      (rest : List Shard) (c : Coordinator S)
      → flush (consider_all store stream owner shards true now rest c)
        ≡ consider_all store stream owner shards false now rest (flush c)
  unfolding consider_all
  consider_all-flush [] c = refl
  consider_all-flush (shard ∷ rest) c =
      consider_all-flush rest (consider store stream owner shards true now shard c)
      ∙ ap (consider_all store stream owner shards false now rest) (consider-flush shard c)

module _ {S : Type 0} (store : LeaseStore S) (stream owner : Text) where
  pass-flush :
      (listing : Result KinesisError (List Shard)) (now : ℕ) (c : Coordinator S)
      → flush (pass store stream owner listing true now c)
        ≡ pass store stream owner listing false now (flush c)
  unfolding pass flush
  pass-flush (ok shards) now c = consider_all-flush store stream owner shards now shards _
  pass-flush (err e) now c = report-flush e _

  -- To hold the errors of the first pass back until `subscribe` has returned changes nothing but when they
  -- are sent: with nothing held before, the coordinator ends with the readers, the leases and the
  -- channel, its errors in their order and each once, that it would have if every pass reported at once.
  pub coordinate-passes :
      (passes : List (Result KinesisError (List Shard) × ℕ)) (c : Coordinator S)
      → c.held ≡ []
      → coordinate store stream owner passes c ≡ later_passes store stream owner passes c
  unfolding coordinate later_passes
  coordinate-passes [] c none_held = refl
  coordinate-passes ((listing, now) ∷ passes) c none_held =
      ap (later_passes store stream owner passes) (
        pass-flush listing now c
        ∙ ap (pass store stream owner listing false now) (flush-none c none_held))
