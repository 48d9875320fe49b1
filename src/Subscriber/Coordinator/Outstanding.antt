-- ===== src/Subscriber/Coordinator/Outstanding.antt =====
-- The readers that the coordinator of subscriber.rs has started and that have not returned, beside those
-- that it knows to be running.
use ruststream_kinesis.Prelude.{
  ℕ, ◌+◌, ◌-◌, ◌≤◌, ◌≡◌, refl, ap, ◌∙◌, inl, inr, Bool, List, [], ◌∷◌, Text, str_eq, if◌then◌else◌,
  Result, Bool-cases, Option-cases, Result-cases, arith,
}
use ruststream_kinesis.Error.{KinesisError}
use ruststream_kinesis.Cursor.{Lineage}
use ruststream_kinesis.Lease.{LeaseStore, shard_end}
use ruststream_kinesis.Subscriber.{installed}
use ruststream_kinesis.Subscriber.Service.{Shard}
use ruststream_kinesis.Subscriber.Parents.{parents}
use ruststream_kinesis.Subscriber.Reader.{lease_ttl, unwrap_or_default}
use ruststream_kinesis.Subscriber.Coordinator.{
  Coordinator, contains_key, forget_finished, report, start_reader, acquire_shard, open_shard,
  lineage_of, consider, consider_all, pass, key_of,
}
use ruststream_kinesis.Subscriber.Coordinator.Counts.{
  starts, run_for, starts-append, run_for-append, Distinct-run_for, forget-run_for, finish-run_for,
}
use ruststream_kinesis.Subscriber.Coordinator.OneReader.{
  report-started, Distinct, Round, passes, ends, round, rounds, round-Distinct, rounds-Distinct,
  report-readers,
}

-- As many readers of the shard run more as were started.
abbrev Grows : {S : Type 0} → Text → Coordinator S → Coordinator S → Type 0
Grows id c c' =
    (n : ℕ) × (starts id c'.started ≡ starts id c.started + n)
    × (run_for id c'.readers ≡ run_for id c.readers + n)

keeps :
    {S : Type 0} (id : Text) (c c' : Coordinator S)
    → c'.started ≡ c.started
    → run_for id c'.readers ≡ run_for id c.readers
    → Grows id c c'
keeps id c c' same runs = (0, ap (starts id) same ∙ omega arith, runs ∙ omega arith)

then-Grows :
    {S : Type 0} (id : Text) (c c1 c2 : Coordinator S)
    → Grows id c c1
    → Grows id c1 c2
    → Grows id c c2
then-Grows id c c1 c2 (m, a, b) (n, a', b') = (m + n, omega (arith, a, a'), omega (arith, b, b'))

report-Grows :
    {S : Type 0} (id : Text) (first : Bool) (e : KinesisError) (c : Coordinator S)
    → Grows id c (report first e c)
report-Grows id first e c =
    keeps id c (report first e c) (report-started first e c)
      (ap (run_for id) (report-readers first e c))

module _ {S : Type 0} (store : LeaseStore S) (stream owner : Text) (shards : List Shard)
    (first : Bool) (now : ℕ) (id : Text) where
  acquire_shard-Grows :
      (lineage : Lineage) (added : Text) (c : Coordinator S)
      → Grows id c (acquire_shard store stream owner shards first now lineage added c)
  unfolding acquire_shard start_reader
  acquire_shard-Grows lineage added c =
      let (answer, s') =
        store.acquire (key_of store stream owner shards first now added) owner lease_ttl now
          c.store in
      let c' : Coordinator S = record c { store = s' } in
      elim (Result-cases answer) [
        | inr (e, failed) ↦ rw (failed, acquire_shard) (report-Grows id first _ c')
        | inl (b, answered) ↦ elim (Bool-cases b) [
          | inr other ↦
              rw (answered, acquire_shard) (rw (other, acquire_shard) (keeps id c c' refl refl))
          | inl mine ↦
              rw (answered, acquire_shard)
                (rw (mine, acquire_shard)
                  (_, starts-append id c.started _, run_for-append id added c.readers))
        ]
      ]

  open_shard-Grows :
      (lineage : Lineage) (added : Text) (c : Coordinator S)
      → Grows id c (open_shard store stream owner shards first now lineage added c)
  unfolding open_shard
  open_shard-Grows lineage added c =
      let (answer, s') = store.read (key_of store stream owner shards first now added) c.store in
      let c' : Coordinator S = record c { store = s' } in
      elim (Result-cases answer) [
        | inr (e, failed) ↦ rw (failed, open_shard) (report-Grows id first _ c')
        | inl (state, answered) ↦
            elim (Bool-cases (str_eq (unwrap_or_default state.checkpoint) shard_end)) [
              | inl finished ↦
                  rw (answered, open_shard) (rw (finished, open_shard) (keeps id c c' refl refl))
              | inr unfinished ↦
                  rw (answered, open_shard)
                    (rw (unfinished, open_shard) (acquire_shard-Grows lineage added c'))
            ]
      ]

  consider-Grows :
      (shard : Shard) (c : Coordinator S)
      → Grows id c (consider store stream owner shards first now shard c)
  unfolding consider
  consider-Grows shard c =
      let (outcome, s') = parents store (installed c.bus) stream shards shard c.store in
      let c1 : Coordinator S = record c { store = s' } in
      elim (Bool-cases (contains_key shard.shard_id c.readers)) [
        | inl there ↦ rw (there, consider) (keeps id c c refl refl)
        | inr absent ↦
            elim (Option-cases (lineage_of store stream owner shards first now outcome)) [
              | inl waits ↦ rw (absent, consider) (rw (waits, consider) (keeps id c c1 refl refl))
              | inr (lineage, free) ↦
                  rw (absent, consider)
                    (rw (free, consider) (open_shard-Grows lineage shard.shard_id c1))
            ]
      ]

  consider_all-Grows :
      (rest : List Shard) (c : Coordinator S)
      → Grows id c (consider_all store stream owner shards first now rest c)
  unfolding consider_all
  consider_all-Grows [] c = keeps id c c refl refl
  consider_all-Grows (shard ∷ rest) c =
      let c1 : Coordinator S = consider store stream owner shards first now shard c in
      then-Grows id c c1 (consider_all store stream owner shards first now rest c1)
        (consider-Grows shard c) (consider_all-Grows rest c1)

module _ {S : Type 0} (store : LeaseStore S) (stream owner id : Text) where
  pass-Grows :
      (listing : Result KinesisError (List Shard)) (first : Bool) (now : ℕ) (c : Coordinator S)
      → Grows id c (pass store stream owner listing first now c)
  unfolding pass
  pass-Grows listing first now c =
      let (readers', rewinds') = forget_finished c.readers c.rewinds in
      let c1 : Coordinator S = record c { readers = readers'; rewinds = rewinds' } in
      let forgotten = keeps id c c1 refl (forget-run_for id c.readers c.rewinds) in
      elim (Result-cases listing) [
        | inl (shards, listed) ↦
            rw (listed, pass)
              (then-Grows id c c1 (consider_all store stream owner shards first now shards c1)
                forgotten (consider_all-Grows store stream owner shards first now id shards c1))
        | inr (e, failed) ↦
            rw (failed, pass)
              (then-Grows id c c1 (report first e c1) forgotten (report-Grows id first e c1))
      ]

  -- Of `n` readers of the shard outstanding before a round, how many are after it: a pass adds those
  -- that it starts, and one that returns is one less.
  abbrev after_round : Round → Coordinator S → ℕ → ℕ
  after_round (passes listing first now) c n =
      n + (starts id (pass store stream owner listing first now c).started - starts id c.started)
  after_round (ends other start) c n = if str_eq other id then n - 1 else n

  unfoldable pub outstanding : List Round → Coordinator S → ℕ → ℕ
  outstanding [] c n = n
  outstanding (r ∷ rs) c n = outstanding rs (round store stream owner r c) (after_round r c n)

  round-run_for :
      (r : Round) (c : Coordinator S)
      → Distinct c.readers
      → after_round r c (run_for id c.readers) ≡ run_for id (round store stream owner r c).readers
  unfolding round
  round-run_for (passes listing first now) c d =
      let (n, more, runs) = pass-Grows listing first now c in omega (arith, more, runs)
  round-run_for (ends other start) c d =
      ground (arith, finish-run_for id other start c.readers, Distinct-run_for id c.readers d)

  rounds-run_for :
      (rs : List Round) (c : Coordinator S)
      → Distinct c.readers
      → outstanding rs c (run_for id c.readers)
        ≡ run_for id (rounds store stream owner rs c).readers
  unfolding outstanding rounds
  rounds-run_for [] c d = refl
  rounds-run_for (r ∷ rs) c d =
      let c1 : Coordinator S = round store stream owner r c in
      ap (outstanding rs c1) (round-run_for r c d)
      ∙ rounds-run_for rs c1 (round-Distinct store stream owner r c d)

  -- Whatever listings the passes of a coordinator find, with a shard listed twice or failing
  -- altogether, and whichever readers return between them, at most one reader of a shard is
  -- outstanding, counted from the readers that the passes start and those that return: from any
  -- coordinator with one entry for a shard at most, the count beginning with the readers that it knows
  -- to be running. The coordinator then knows just the outstanding one to be running.
  pub rounds-outstanding :
      (rs : List Round) (c : Coordinator S)
      → Distinct c.readers
      → let n = outstanding rs c (run_for id c.readers) in
        (n ≤ 1)
        × (n ≡ run_for id (rounds store stream owner rs c).readers)
        × Distinct (rounds store stream owner rs c).readers
  rounds-outstanding rs c d =
      let runs = rounds-run_for rs c d in
      let distinct = rounds-Distinct store stream owner rs c d in
      (
        omega (arith, runs, Distinct-run_for id (rounds store stream owner rs c).readers distinct),
        runs,
        distinct,
      )
