-- ===== src/Broker/Existing.antt =====
-- The streams that the service has, across a subscription through broker.rs.
use ruststream_kinesis.Prelude.{
  ℕ, ◌⊎◌, ◌≡◌, refl, ◌∙◌, Bool, true, false, Option, none, some, Text, str_eq, Result, ok, err,
  Result-cases, Bool-cases, inl, inr, if◌then◌else◌, arith,
}
use ruststream_kinesis.Prelude.Int.{ℤ}
use ruststream_kinesis.Error.{KinesisError, not_connected, already_subscribed}
use ruststream_kinesis.Claim.{contains, claim}
use ruststream_kinesis.Stream.{KinesisStream, split, validate}
use ruststream_kinesis.Broker.{
  Control, Opened, Connected, raced, require_stream, wait_for_stream, create, ensure_stream,
  prepare, open_stream, subscribe_stream,
}

-- What the service's documentation says of the three calls, by whether it has a stream: a description is
-- of a stream that there is, a wait that succeeds ends with the stream there, and no call adds or
-- removes another stream.
pub record Documented {S : Type 0} (control : Control S) (exists : Text → S → Bool) : Type 0 where
  pub describe_keeps :
      (stream t : Text) (s : S) → exists t (control.describe_stream_summary stream s).1 ≡ exists t s
  pub describe_found :
      (stream : Text) (s : S) (u : Unit {0})
      → (control.describe_stream_summary stream s).0 ≡ ok u
      → exists stream s ≡ true
  pub create_others :
      (stream t : Text) (shards : ℤ) (s : S)
      → str_eq stream t ≡ false
      → exists t (control.create_stream stream shards s).1 ≡ exists t s
  pub wait_others :
      (stream t : Text) (most : ℕ) (s : S)
      → str_eq stream t ≡ false
      → exists t (control.wait_until_stream_exists stream most s).1 ≡ exists t s
  pub wait_found :
      (stream : Text) (most : ℕ) (s : S) (u : Unit {0})
      → (control.wait_until_stream_exists stream most s).0 ≡ ok u
      → exists stream (control.wait_until_stream_exists stream most s).1 ≡ true

module _ {S : Type 0} (control : Control S) (exists : Text → S → Bool)
    (laws : Documented control exists) (stream t : Text) (other : str_eq stream t ≡ false) where
  -- A step ends with the stream there, if it succeeds, and leaves the other stream.
  abbrev Prepared : S → Result KinesisError (Unit {0}) × S → Type 0
  Prepared s (answer, s') =
      ((u : Unit {0}) → answer ≡ ok u → exists stream s' ≡ true) × (exists t s' ≡ exists t s)

  wait-Prepared : (s : S) → Prepared s (wait_for_stream control stream s)
  unfolding wait_for_stream
  wait-Prepared s = (
    λ u h. laws.wait_found stream 60000 s u (ground arith),
    laws.wait_others stream t 60000 s other,
  )

  require-Prepared : (s : S) → Prepared s (require_stream control stream s)
  unfolding require_stream
  require-Prepared s = (
    λ u h. laws.describe_keeps stream stream s ∙ laws.describe_found stream s u (ground arith),
    laws.describe_keeps stream t s,
  )

  -- What follows a step that leaves the other stream.
  after :
      (s s1 : S) (out : Result KinesisError (Unit {0}) × S)
      → exists t s1 ≡ exists t s
      → Prepared s1 out
      → Prepared s out
  after s s1 out kept (found, rest) = (found, rest ∙ kept)

  create-Prepared : (shards : ℤ) (s : S) → Prepared s (create control stream shards s)
  unfolding create
  create-Prepared shards s =
      let s1 : S = (control.create_stream stream shards s).1 in
      let kept = laws.create_others stream t shards s other in
      elim (Result-cases (control.create_stream stream shards s).0) [
        | inl (u, made) ↦ rw (made, create) (after s s1 _ kept (wait-Prepared s1))
        | inr (failure, failed) ↦ elim (Bool-cases (raced failure)) [
          | inl lost ↦ rw (failed, create) (rw lost (after s s1 _ kept (wait-Prepared s1)))
          | inr serious ↦ rw (failed, create) (rw serious (λ u h. cc, kept))
        ]
      ]

  ensure-Prepared : (shards : ℤ) (s : S) → Prepared s (ensure_stream control stream shards s)
  unfolding ensure_stream
  ensure-Prepared shards s =
      let s1 : S = (control.describe_stream_summary stream s).1 in
      let kept = laws.describe_keeps stream t s in
      elim (Result-cases (control.describe_stream_summary stream s).0) [
        | inl (u, found) ↦ rw (found, ensure_stream) (after s s1 _ kept (wait-Prepared s1))
        | inr (e, missing) ↦
            rw (missing, ensure_stream) (after s s1 _ kept (create-Prepared shards s1))
      ]

  prepare-Prepared : (shards : Option ℤ) (s : S) → Prepared s (prepare control shards stream s)
  unfolding prepare
  prepare-Prepared none s = require-Prepared s
  prepare-Prepared (some shards) s = ensure-Prepared shards s

  -- The closed flag, then the service.
  open-Prepared :
      (closed : Bool) (shards : Option ℤ) (s : S)
      → Prepared s (if closed then (err not_connected, s) else prepare control shards stream s)
  open-Prepared true shards s = (λ u h. cc, refl)
  open-Prepared false shards s = prepare-Prepared shards s

-- On a service that does what its documentation says, a subscription that is opened reads a stream that
-- there is, and subscribing, whether it succeeds or not, adds and removes no other stream.
pub subscribe_stream-exists :
    {S : Type 0} (control : Control S) (exists : Text → S → Bool) (mounted : KinesisStream)
    (b : Connected S) (t : Text)
    → Documented control exists
    → str_eq mounted.stream t ≡ false
    → let (answer, b') = subscribe_stream control mounted b in
      (((o : Opened) × (answer ≡ ok o) × (exists mounted.stream b'.kinesis ≡ true))
        ⊎ ((e : KinesisError) × (answer ≡ err e)))
      × (exists t b'.kinesis ≡ exists t b.kinesis)
unfolding subscribe_stream split claim open_stream
subscribe_stream-exists {S} control exists mounted b t laws other =
    let d : KinesisStream = (split mounted).0 in
    let (found, kept) =
      open-Prepared control exists laws mounted.stream t other b.closed mounted.create_shards
        b.kinesis in
    elim (Result-cases (validate d)) [
      | inr (e, refused) ↦ rw (refused, subscribe_stream) (inr (e, refl), refl)
      | inl (_, valid) ↦ elim (Bool-cases (contains mounted.stream b.streams)) [
        | inl taken ↦
            rw (valid, subscribe_stream)
              (rw (taken, claim) (inr (already_subscribed mounted.stream, refl), refl))
        | inr free ↦ elim (Result-cases (open_stream control d b).0) [
          | inr (e, failed) ↦
              rw (valid, subscribe_stream) (rw (free, claim) (rw failed (inr (e, refl), kept)))
          | inl (u, opened) ↦
              rw (valid, subscribe_stream)
                (rw (free, claim) (rw opened (inl (_, refl, found u opened), kept)))
        ]
      ]
    ]
