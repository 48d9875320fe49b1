-- ===== src/Subscriber/Turn/Retries.antt =====
-- How often the reads of a reader of subscriber.rs fail in succession, over the turns of its loop.
use ruststream_kinesis.Prelude.{
  ℕ, ◌+◌, ◌≤◌, ◌≡◌, refl, List, [], ◌∷◌, ◌++◌, Result, ok, err, arith, subst,
}
use ruststream_kinesis.Lease.{LeaseStore}
use ruststream_kinesis.Subscriber.Service.{
  Service, GetRecordsError, Output, expired_iterator, resource_not_found,
  provisioned_throughput_exceeded, other,
}
use ruststream_kinesis.Subscriber.Reader.{Scene, Reader, Post, Step, goes, drains, stops, ◌>>=◌}
use ruststream_kinesis.Subscriber.Turn.{Input, prepare, read_batch, turn}
use ruststream_kinesis.Subscriber.Turn.Failures.{
  Fails, Counted, counted, read_batch-Fails, prepare-Fails,
}

-- Of answers, the latest first, how many failed since the last read that was answered, those that the
-- service throttled aside.
unfoldable pub in_succession : List (Result GetRecordsError Output) → ℕ
in_succession [] = 0
in_succession (ok output ∷ answers) = 0
in_succession (err (provisioned_throughput_exceeded e) ∷ answers) = in_succession answers
in_succession (err (expired_iterator e) ∷ answers) = in_succession answers + 1
in_succession (err (resource_not_found e) ∷ answers) = in_succession answers + 1
in_succession (err (other e) ∷ answers) = in_succession answers + 1

in_succession-cons :
    (answer : Result GetRecordsError Output) (answers : List (Result GetRecordsError Output))
    → in_succession (answer ∷ answers) ≡ counted answer (in_succession answers)
unfolding in_succession
in_succession-cons (ok output) answers = refl
in_succession-cons (err (provisioned_throughput_exceeded e)) answers = refl
in_succession-cons (err (expired_iterator e)) answers = refl
in_succession-cons (err (resource_not_found e)) answers = refl
in_succession-cons (err (other e)) answers = refl

module _ {V S : Type 0} (service : Service V) (store : LeaseStore S) (post : Post) where
  -- What the service answers to the read of a turn, when the turn comes to it.
  abbrev pub answer_to : Input → Step V S → List (Result GetRecordsError Output)
  answer_to input (goes r w) = (service.get_records r.iterator input.limit w.service).0 ∷ []
  answer_to input (drains r w) = []
  answer_to input (stops rewind w) = []

  -- A run of turns after each of which the reader goes on, with the answers to its reads, the latest
  -- first.
  pub data Run (r : Reader) (w : Scene V S)
      : List (Result GetRecordsError Output) → Reader → Scene V S → Type 0 where
    begins : Run r w [] r w
    goes_on :
        (answers : List (Result GetRecordsError Output)) (input : Input) (r1 : Reader)
        (w1 : Scene V S) (r2 : Reader) (w2 : Scene V S)
        → Run r w answers r1 w1
        → turn service store post input r1 w1 ≡ goes r2 w2
        → Run r w (answer_to input (prepare service store post input r1 w1) ++ answers) r2 w2

  then_read :
      (input : Input) (answers : List (Result GetRecordsError Output)) (step : Step V S)
      → Fails (in_succession answers) step
      → Fails
          (in_succession (answer_to input step ++ answers))
          (step >>= read_batch service store post input)
  then_read input answers (goes r w) h =
      let answer = (service.get_records r.iterator input.limit w.service).0 in
      rw (in_succession-cons answer answers) (
        subst (λ n. Fails (counted answer n) (read_batch service store post input r w)) h.0
          (read_batch-Fails service store post input r w (omega (arith, h))))
  then_read input answers (drains r w) h = h
  then_read input answers (stops rewind w) h = tt

  Run-Counted :
      (r : Reader) (w : Scene V S) (answers : List (Result GetRecordsError Output)) (r' : Reader)
      (w' : Scene V S)
      → r.failures ≡ 0
      → Run r w answers r' w'
      → Counted (in_succession answers) r'
  unfolding in_succession turn
  Run-Counted r w _ _ _ fresh begins = (fresh, omega arith)
  Run-Counted r w _ _ _ fresh (goes_on answers input r1 w1 r2 w2 before went) =
      let h = Run-Counted r w answers r1 w1 fresh before in
      subst
        (Fails
          (in_succession (answer_to input (prepare service store post input r1 w1) ++ answers)))
        went
        (then_read input answers (prepare service store post input r1 w1)
          (prepare-Fails service store post (in_succession answers) input r1 w1 h))

  -- Of a reader that began with no failures counted, and goes on after a run of turns, the counter shows
  -- how many reads have failed since the last one that was answered, those that the service throttled
  -- aside, and these are ten at most: at the eleventh the reader has returned.
  pub Run-failures :
      (r : Reader) (w : Scene V S) (answers : List (Result GetRecordsError Output)) (r' : Reader)
      (w' : Scene V S)
      → r.failures ≡ 0
      → Run r w answers r' w'
      → (r'.failures ≡ in_succession answers) × (in_succession answers ≤ 10)
  Run-failures r w answers r' w' fresh run = Run-Counted r w answers r' w' fresh run
