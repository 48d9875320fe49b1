-- ===== src/Subscriber/Coordinator/Starts.antt =====
-- When the coordinator starts a reader.
use ruststream_kinesis.Prelude.{
  ℕ, ◌≡◌, ◌≢◌, refl, ap, ◌∙◌, ◌⊎◌, inl, inr, Bool, false, Option, none, some, List, [], ◌∷◌, ◌++◌,
  Text, str_eq, str_eq_iff, length, ok, Bool-cases, Option-cases, Result-cases, arith,
}
use ruststream_kinesis.Cursor.{Lineage}
use ruststream_kinesis.Lease.{LeaseKey, LeaseState, LeaseStore, shard_end}
use ruststream_kinesis.Lease.Contract.{Row, Contract}
use ruststream_kinesis.Subscriber.{installed}
use ruststream_kinesis.Subscriber.Service.{Shard}
use ruststream_kinesis.Subscriber.Parents.{
  Parents, pending, consumed, skipped, parents, parent_ids, AllFree, parents-AllFree,
}
use ruststream_kinesis.Subscriber.Reader.{lease_ttl, unwrap_or_default}
use ruststream_kinesis.Subscriber.Coordinator.OneReader.{report-started}
use ruststream_kinesis.Subscriber.Coordinator.{
  Coordinator, Started, contains_key, rewind_of, start_reader, lease_error, acquire_shard,
  open_shard, consider, lineage_of,
}

-- What a reader of the shard is started with.
abbrev pub start_of : {S : Type 0} → Lineage → Text → Coordinator S → Started
start_of lineage id c = record {
  shard = id;
  gate = length c.gates;
  lineage = lineage;
  rewind = rewind_of id c.rewinds;
}

module _ {S : Type 0} (store : LeaseStore S) (row : LeaseKey → S → Row) (laws : Contract store row)
    (stream owner : Text) (shards : List Shard) (first : Bool) (now : ℕ) where
  abbrev pub key : Text → LeaseKey
  key id = record { stream = stream; shard = id }

  -- No reader is started, or one under the owner's lease.
  abbrev UnderLease : Lineage → Text → Coordinator S → Coordinator S → Type 0
  UnderLease lineage id c c' =
      (c'.started ≡ c.started)
      ⊎ ((c'.started ≡ c.started ++ start_of lineage id c ∷ [])
          × (c'.gates ≡ c.gates ++ 0 ∷ [])
          × ((row (key id) c'.store).owner ≡ some owner))

  acquire_shard-UnderLease :
      (lineage : Lineage) (id : Text) (c : Coordinator S)
      → UnderLease lineage id c (acquire_shard store stream owner shards first now lineage id c)
  unfolding acquire_shard start_reader
  acquire_shard-UnderLease lineage id c =
      let (answer, s') = store.acquire (key id) owner lease_ttl now c.store in
      elim (Result-cases answer) [
        | inr (e, failed) ↦
            rw (failed, acquire_shard)
              (inl (
                report-started first (lease_error store stream owner shards first now id e)
                  (record c { store = s' })))
        | inl (b, answered) ↦ elim (Bool-cases b) [
          | inr other ↦ rw (answered, acquire_shard) (rw (other, acquire_shard) (inl refl))
          | inl mine ↦
              rw (answered, acquire_shard)
                (rw (mine, acquire_shard)
                  (inr (
                    refl,
                    refl,
                    ap (λ r. r.owner)
                        (laws.acquire_taken (key id) owner lease_ttl now c.store
                          (answered ∙ ap ok mine)).1,
                  )))
        ]
      ]

  -- The shard is not read to its end yet, as the store answers in a state.
  abbrev pub Unfinished : Text → S → Type 0
  Unfinished id s =
      (state : LeaseState) × ((store.read (key id) s).0 ≡ ok state)
      × (state.checkpoint ≢ some shard_end)

  abbrev Opens : Lineage → Text → Coordinator S → Coordinator S → Type 0
  Opens lineage id c c' =
      (c'.started ≡ c.started)
      ⊎ ((c'.started ≡ c.started ++ start_of lineage id c ∷ [])
          × (c'.gates ≡ c.gates ++ 0 ∷ [])
          × ((row (key id) c'.store).owner ≡ some owner)
          × Unfinished id c.store)

  not_end : (o : Option Text) → str_eq (unwrap_or_default o) shard_end ≡ false → o ≢ some shard_end
  not_end none h e = cc e
  not_end (some c) h e = ground (arith, str_eq_iff c shard_end)

  open_shard-Opens :
      (lineage : Lineage) (id : Text) (c : Coordinator S)
      → Opens lineage id c (open_shard store stream owner shards first now lineage id c)
  unfolding open_shard
  open_shard-Opens lineage id c =
      let (answer, s') = store.read (key id) c.store in
      let c' : Coordinator S = record c { store = s' } in
      elim (Result-cases answer) [
        | inr (e, failed) ↦
            rw (failed, open_shard)
              (inl (report-started first (lease_error store stream owner shards first now id e) c'))
        | inl (state, answered) ↦
            elim (Bool-cases (str_eq (unwrap_or_default state.checkpoint) shard_end)) [
              | inl finished ↦ rw (answered, open_shard) (rw (finished, open_shard) (inl refl))
              | inr unfinished ↦ elim (acquire_shard-UnderLease lineage id c') [
                | inl same ↦ rw (answered, open_shard) (rw (unfinished, open_shard) (inl same))
                | inr (one, gate, lease) ↦
                    rw (answered, open_shard)
                      (rw (unfinished, open_shard)
                        (inr
                          (one, gate, lease, (state, refl, not_end state.checkpoint unfinished))))
              ]
            ]
      ]

  -- The coordinator starts no reader for a shard, or exactly one, with a fresh gate at zero and the place
  -- that the shard's last reader handed over; and then no reader of the shard was running, every listed
  -- parent had freed it, it was not read to its end, and its lease row names this owner.
  pub consider-starts :
      (shard : Shard) (c : Coordinator S)
      → let c' = consider store stream owner shards first now shard c in
        let s' = (parents store (installed c.bus) stream shards shard c.store).1 in
        (c'.started ≡ c.started)
        ⊎ ((lineage : Lineage) × (c'.started ≡ c.started ++ start_of lineage shard.shard_id c ∷ [])
            × (c'.gates ≡ c.gates ++ 0 ∷ [])
            × ((row (key shard.shard_id) c'.store).owner ≡ some owner)
            × Unfinished shard.shard_id s'
            × (contains_key shard.shard_id c.readers ≡ false)
            × AllFree store (installed c.bus) stream shards (parent_ids shard) c.store)
  unfolding consider
  consider-starts shard c =
      let (outcome, s') = parents store (installed c.bus) stream shards shard c.store in
      let c1 : Coordinator S = record c { store = s' } in
      elim (Bool-cases (contains_key shard.shard_id c.readers)) [
        | inl there ↦ rw (there, consider) (inl refl)
        | inr absent ↦
            elim (Option-cases (lineage_of store stream owner shards first now outcome)) [
              | inl waits ↦ rw (absent, consider) (rw (waits, consider) (inl refl))
              | inr (lineage, free) ↦ elim (open_shard-Opens lineage shard.shard_id c1) [
                | inl same ↦ rw (absent, consider) (rw (free, consider) (inl same))
                | inr (one, gate, lease, unfinished) ↦
                    rw (absent, consider)
                      (rw (free, consider)
                        (inr (
                          lineage,
                          one,
                          gate,
                          lease,
                          unfinished,
                          refl,
                          parents-AllFree store (installed c.bus) stream shards shard c.store
                              (freed outcome lineage free),
                        )))
              ]
            ]
      ]
    where
      freed :
          (outcome : Parents) (lineage : Lineage)
          → lineage_of store stream owner shards first now outcome ≡ some lineage
          → outcome ≢ pending
      freed pending lineage e = cc e
      freed consumed lineage e = λ p. cc p
      freed skipped lineage e = λ p. cc p
