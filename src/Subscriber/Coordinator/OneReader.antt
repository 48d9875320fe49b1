-- ===== src/Subscriber/Coordinator/OneReader.antt =====
-- The readers that the coordinator keeps, over its passes and the readers' ends between them.
use ruststream_kinesis.Prelude.{
  ℕ, ◌≡◌, refl, sym, subst, ◌∙◌, inl, inr, Bool, true, false, Option, none, some, List, [], ◌∷◌,
  ◌++◌, Text, str_eq, str_eq_iff, if◌then◌else◌, Result, ok, err, Bool-cases, Option-cases,
  Result-cases, arith,
}
use ruststream_kinesis.Error.{KinesisError}
use ruststream_kinesis.Cursor.{ShardStart, Lineage}
use ruststream_kinesis.Lease.{LeaseStore, shard_end}
use ruststream_kinesis.Subscriber.{installed}
use ruststream_kinesis.Subscriber.Service.{Shard}
use ruststream_kinesis.Subscriber.Parents.{parents}
use ruststream_kinesis.Subscriber.Reader.{lease_ttl, unwrap_or_default}
use ruststream_kinesis.Subscriber.Coordinator.{
  Task, running, returned, Coordinator, contains_key, forget_finished, report, start_reader,
  acquire_shard, open_shard, lineage_of, consider, consider_all, pass, key_of,
}

abbrev Readers : Type 0
Readers = List (Text × Task)

-- No shard stands twice.
abbrev pub Distinct : List (Text × Task) → Type 0
Distinct [] = Unit
Distinct ((shard, task) ∷ readers) = (contains_key shard readers ≡ false) × Distinct readers

-- What may happen to a subscription: a pass of its coordinator, or the return of a reader.
pub data Round : Type 0 where
  passes : Result KinesisError (List Shard) → Bool → ℕ → Round
  ends : Text → Option ShardStart → Round

unfoldable pub finish : Text → Option ShardStart → List (Text × Task) → List (Text × Task)
finish id start [] = []
finish id start ((shard, task) ∷ readers) =
    (shard, if str_eq shard id then returned start else task) ∷ finish id start readers

module _ {S : Type 0} (store : LeaseStore S) (stream owner : Text) where
  unfoldable pub round : Round → Coordinator S → Coordinator S
  round (passes listing first now) c = pass store stream owner listing first now c
  round (ends id start) c = record c { readers = finish id start c.readers }

  unfoldable pub rounds : List Round → Coordinator S → Coordinator S
  rounds [] c = c
  rounds (r ∷ rs) c = rounds rs (round r c)

contains-append :
    (id added : Text) (task : Task) (readers : Readers)
    → contains_key id (readers ++ (added, task) ∷ [])
      ≡ (if contains_key id readers then true else str_eq added id)
unfolding contains_key
contains-append id added task [] = ground arith
contains-append id added task ((shard, t) ∷ readers) =
    ground (arith, contains-append id added task readers)

append-Distinct :
    (added : Text) (task : Task) (readers : Readers)
    → Distinct readers
    → contains_key added readers ≡ false
    → Distinct (readers ++ (added, task) ∷ [])
unfolding contains_key
append-Distinct added task [] d new = (refl, tt)
append-Distinct added task ((shard, t) ∷ readers) d new = ground (
  arith,
  append-Distinct added task readers d.1,
  contains-append shard added task readers,
  str_eq_iff added shard,
  str_eq_iff shard added,
)

contains-finish :
    (id other : Text) (start : Option ShardStart) (readers : Readers)
    → contains_key id (finish other start readers) ≡ contains_key id readers
unfolding contains_key finish
contains-finish id other start [] = refl
contains-finish id other start ((shard, t) ∷ readers) =
    ground (arith, contains-finish id other start readers)

finish-Distinct :
    (id : Text) (start : Option ShardStart) (readers : Readers)
    → Distinct readers
    → Distinct (finish id start readers)
unfolding finish
finish-Distinct id start [] d = tt
finish-Distinct id start ((shard, t) ∷ readers) d =
    (contains-finish shard id start readers ∙ d.0, finish-Distinct id start readers d.1)

-- Forgetting adds no reader.
forget-absent :
    (id : Text) (readers : Readers) (rewinds : List (Text × ShardStart))
    → contains_key id readers ≡ false
    → contains_key id (forget_finished readers rewinds).0 ≡ false
unfolding contains_key forget_finished
forget-absent id [] rewinds h = refl
forget-absent id ((shard, running) ∷ readers) rewinds h =
    ground (arith, forget-absent id readers rewinds)
forget-absent id ((shard, returned none) ∷ readers) rewinds h =
    ground (arith, forget-absent id readers rewinds)
forget-absent id ((shard, returned (some start)) ∷ readers) rewinds h =
    forget-absent id readers _ (ground arith)

forget-Distinct :
    (readers : Readers) (rewinds : List (Text × ShardStart))
    → Distinct readers
    → Distinct (forget_finished readers rewinds).0
unfolding forget_finished
forget-Distinct [] rewinds d = tt
forget-Distinct ((shard, running) ∷ readers) rewinds d =
    (forget-absent shard readers rewinds d.0, forget-Distinct readers rewinds d.1)
forget-Distinct ((shard, returned none) ∷ readers) rewinds d = forget-Distinct readers rewinds d.1
forget-Distinct ((shard, returned (some start)) ∷ readers) rewinds d = forget-Distinct readers _ d.1

pub report-started :
    {S : Type 0} (first : Bool) (e : KinesisError) (c : Coordinator S)
    → (report first e c).started ≡ c.started
unfolding report
report-started true e c = refl
report-started false e c = refl

pub report-readers :
    {S : Type 0} (first : Bool) (e : KinesisError) (c : Coordinator S)
    → (report first e c).readers ≡ c.readers
unfolding report
report-readers true e c = refl
report-readers false e c = refl

module _ {S : Type 0} (store : LeaseStore S) (stream owner : Text) (shards : List Shard)
    (first : Bool) (now : ℕ) where
  acquire_shard-Distinct :
      (lineage : Lineage) (id : Text) (c : Coordinator S)
      → Distinct c.readers
      → contains_key id c.readers ≡ false
      → Distinct (acquire_shard store stream owner shards first now lineage id c).readers
  unfolding acquire_shard start_reader
  acquire_shard-Distinct lineage id c d new =
      let (answer, s') =
        store.acquire (key_of store stream owner shards first now id) owner lease_ttl now c.store in
      elim (Result-cases answer) [
        | inr (e, failed) ↦
            rw (failed, acquire_shard)
              (subst Distinct (sym (report-readers first _ (record c { store = s' }))) d)
        | inl (b, answered) ↦ elim (Bool-cases b) [
          | inr other ↦ rw (answered, acquire_shard) (rw (other, acquire_shard) d)
          | inl mine ↦
              rw (answered, acquire_shard)
                (rw (mine, acquire_shard) (append-Distinct id running c.readers d new))
        ]
      ]

  open_shard-Distinct :
      (lineage : Lineage) (id : Text) (c : Coordinator S)
      → Distinct c.readers
      → contains_key id c.readers ≡ false
      → Distinct (open_shard store stream owner shards first now lineage id c).readers
  unfolding open_shard
  open_shard-Distinct lineage id c d new =
      let (answer, s') = store.read (key_of store stream owner shards first now id) c.store in
      let c' : Coordinator S = record c { store = s' } in
      elim (Result-cases answer) [
        | inr (e, failed) ↦
            rw (failed, open_shard) (subst Distinct (sym (report-readers first _ c')) d)
        | inl (state, answered) ↦
            elim (Bool-cases (str_eq (unwrap_or_default state.checkpoint) shard_end)) [
              | inl finished ↦ rw (answered, open_shard) (rw (finished, open_shard) d)
              | inr unfinished ↦
                  rw (answered, open_shard)
                    (rw (unfinished, open_shard) (acquire_shard-Distinct lineage id c' d new))
            ]
      ]

  consider-Distinct :
      (shard : Shard) (c : Coordinator S)
      → Distinct c.readers
      → Distinct (consider store stream owner shards first now shard c).readers
  unfolding consider
  consider-Distinct shard c d =
      let (outcome, s') = parents store (installed c.bus) stream shards shard c.store in
      let c1 : Coordinator S = record c { store = s' } in
      elim (Bool-cases (contains_key shard.shard_id c.readers)) [
        | inl there ↦ rw (there, consider) d
        | inr absent ↦
            elim (Option-cases (lineage_of store stream owner shards first now outcome)) [
              | inl waits ↦ rw (absent, consider) (rw (waits, consider) d)
              | inr (lineage, free) ↦
                  rw (absent, consider)
                    (rw (free, consider) (open_shard-Distinct lineage shard.shard_id c1 d absent))
            ]
      ]

  consider_all-Distinct :
      (rest : List Shard) (c : Coordinator S)
      → Distinct c.readers
      → Distinct (consider_all store stream owner shards first now rest c).readers
  unfolding consider_all
  consider_all-Distinct [] c d = d
  consider_all-Distinct (shard ∷ rest) c d =
      consider_all-Distinct rest (consider store stream owner shards first now shard c)
        (consider-Distinct shard c d)

module _ {S : Type 0} (store : LeaseStore S) (stream owner : Text) where
  pass-Distinct :
      (listing : Result KinesisError (List Shard)) (first : Bool) (now : ℕ) (c : Coordinator S)
      → Distinct c.readers
      → Distinct (pass store stream owner listing first now c).readers
  unfolding pass
  pass-Distinct (ok shards) first now c d =
      consider_all-Distinct store stream owner shards first now shards _
        (forget-Distinct c.readers c.rewinds d)
  pass-Distinct (err e) first now c d =
      subst Distinct (sym (report-readers first e _)) (forget-Distinct c.readers c.rewinds d)

  pub round-Distinct :
      (r : Round) (c : Coordinator S)
      → Distinct c.readers
      → Distinct (round store stream owner r c).readers
  unfolding round
  round-Distinct (passes listing first now) c d = pass-Distinct listing first now c d
  round-Distinct (ends id start) c d = finish-Distinct id start c.readers d

  pub rounds-Distinct :
      (rs : List Round) (c : Coordinator S)
      → Distinct c.readers
      → Distinct (rounds store stream owner rs c).readers
  unfolding rounds
  rounds-Distinct [] c d = d
  rounds-Distinct (r ∷ rs) c d =
      rounds-Distinct rs (round store stream owner r c) (round-Distinct r c d)
