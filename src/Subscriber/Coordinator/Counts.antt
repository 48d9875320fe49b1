-- ===== src/Subscriber/Coordinator/Counts.antt =====
-- How many readers of a shard the coordinator of subscriber.rs has started, and how many it knows to be
-- running.
use ruststream_kinesis.Prelude.{
  ℕ, suc, ◌+◌, ◌≤◌, ◌≡◌, refl, false, Option, none, some, List, [], ◌∷◌, ◌++◌, Text, str_eq,
  str_eq_iff, if◌then◌else◌, arith,
}
use ruststream_kinesis.Cursor.{ShardStart}
use ruststream_kinesis.Subscriber.Coordinator.{
  Task, running, returned, Started, contains_key, forget_finished,
}
use ruststream_kinesis.Subscriber.Coordinator.OneReader.{Distinct, finish}

-- How many readers of a shard were started.
unfoldable pub starts : Text → List Started → ℕ
starts id [] = 0
starts id (s ∷ started) =
    let rest = starts id started in if str_eq s.shard id then suc rest else rest

-- How many readers of a shard the coordinator knows to be running.
unfoldable pub run_for : Text → List (Text × Task) → ℕ
run_for id [] = 0
run_for id ((shard, running) ∷ readers) =
    let rest = run_for id readers in if str_eq shard id then suc rest else rest
run_for id ((shard, returned start) ∷ readers) = run_for id readers

pub starts-append :
    (id : Text) (xs : List Started) (s : Started)
    → starts id (xs ++ s ∷ []) ≡ starts id xs + (if str_eq s.shard id then 1 else 0)
unfolding starts
starts-append id [] s = ground arith
starts-append id (x ∷ xs) s = ground (arith, starts-append id xs s)

pub run_for-append :
    (id added : Text) (readers : List (Text × Task))
    → run_for id (readers ++ (added, running) ∷ [])
      ≡ run_for id readers + (if str_eq added id then 1 else 0)
unfolding run_for
run_for-append id added [] = ground arith
run_for-append id added ((shard, running) ∷ readers) =
    ground (arith, run_for-append id added readers)
run_for-append id added ((shard, returned start) ∷ readers) = run_for-append id added readers

absent-run_for :
    (id : Text) (readers : List (Text × Task))
    → contains_key id readers ≡ false
    → run_for id readers ≡ 0
unfolding contains_key run_for
absent-run_for id [] h = refl
absent-run_for id ((shard, running) ∷ readers) h = ground (arith, absent-run_for id readers)
absent-run_for id ((shard, returned start) ∷ readers) h =
    absent-run_for id readers (ground (arith, h))

pub Distinct-run_for :
    (id : Text) (readers : List (Text × Task)) → Distinct readers → run_for id readers ≤ 1
unfolding run_for
Distinct-run_for id [] d = omega arith
Distinct-run_for id ((shard, returned start) ∷ readers) d = Distinct-run_for id readers d.1
Distinct-run_for id ((shard, running) ∷ readers) d =
    ground (
      arith,
      str_eq_iff shard id,
      absent-run_for shard readers d.0,
      Distinct-run_for id readers d.1,
    )

-- Readers that have not finished are not forgotten.
pub forget-run_for :
    (id : Text) (readers : List (Text × Task)) (rewinds : List (Text × ShardStart))
    → run_for id (forget_finished readers rewinds).0 ≡ run_for id readers
unfolding run_for forget_finished
forget-run_for id [] rewinds = refl
forget-run_for id ((shard, running) ∷ readers) rewinds =
    ground (arith, forget-run_for id readers rewinds)
forget-run_for id ((shard, returned none) ∷ readers) rewinds = forget-run_for id readers rewinds
forget-run_for id ((shard, returned (some start)) ∷ readers) rewinds = forget-run_for id readers _

pub finish-run_for :
    (id other : Text) (start : Option ShardStart) (readers : List (Text × Task))
    → run_for id (finish other start readers) ≡ (if str_eq other id then 0 else run_for id readers)
unfolding run_for finish
finish-run_for id other start [] = ground arith
finish-run_for id other start ((shard, running) ∷ readers) = ground (
  arith,
  finish-run_for id other start readers,
  str_eq_iff shard other,
  str_eq_iff other id,
  str_eq_iff shard id,
)
finish-run_for id other start ((shard, returned s) ∷ readers) =
    ground (arith, finish-run_for id other start readers)
