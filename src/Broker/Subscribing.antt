-- ===== src/Broker/Subscribing.antt =====
-- Subscribing through broker.rs: the claims that a broker holds, and the streams that the service has.
use ruststream_kinesis.Prelude.{
  ◌≡◌, ◌⊎◌, inl, inr, refl, true, false, ◌∷◌, Text, str_eq, str_eq_iff, Result, ok, err,
  Result-cases, Bool-cases, if◌then◌else◌, arith,
}
use ruststream_kinesis.Error.{KinesisError, already_subscribed}
use ruststream_kinesis.Claim.{ReadStreams, contains, claim, drop, contains-drop}
use ruststream_kinesis.Envelope.Choose.{choose}
use ruststream_kinesis.Stream.{KinesisStream, split, validate}
use ruststream_kinesis.Broker.{Control, Opened, Connected, open_stream, subscribe_stream}

-- The set with one more member.
pub contains-claimed :
    (s t : Text) (streams : ReadStreams)
    → contains t (s ∷ streams) ≡ (if str_eq s t then true else contains t streams)
unfolding contains
contains-claimed s t streams = refl

-- A free stream that was claimed and dropped is free again, and the others are as they were.
pub contains-dropped :
    (s t : Text) (streams : ReadStreams)
    → contains s streams ≡ false
    → contains t (drop s (s ∷ streams)) ≡ contains t streams
contains-dropped s t streams free =
    ground (arith, contains-drop s t (s ∷ streams), contains-claimed s t streams, str_eq_iff s t)

module _ {S : Type 0} (control : Control S) (mounted : KinesisStream) (b : Connected S) where
  -- An opened subscription, or a refusal, as far as stream `t` sees it.
  abbrev pub Claims : Text → Result KinesisError Opened × Connected S → Type 0
  Claims t r =
      ((o : Opened) × (r.0 ≡ ok o)
        × (b.closed ≡ false)
        × (contains mounted.stream b.streams ≡ false)
        × (o.envelope ≡ choose mounted.envelope b.envelope)
        × (contains t r.1.streams
            ≡ (if str_eq mounted.stream t then true else contains t b.streams)))
      ⊎ ((e : KinesisError) × (r.0 ≡ err e) × (contains t r.1.streams ≡ contains t b.streams))

  opened-open :
      (d : KinesisStream) {u : Unit {0}} → (open_stream control d b).0 ≡ ok u → b.closed ≡ false
  unfolding open_stream
  opened-open d h = ground arith

  -- A subscription is opened only on a broker that is not shut down and whose stream nobody holds; it
  -- reads in the envelope that the descriptor names, or else in the broker's, and from then on its
  -- stream is claimed, the others being claimed or free as before. A subscription that is refused, for
  -- whatever reason, leaves every stream claimed or free as it was.
  pub subscribe_stream-Claims : (t : Text) → Claims t (subscribe_stream control mounted b)
  unfolding subscribe_stream split claim
  subscribe_stream-Claims t =
      let d : KinesisStream = (split mounted).0 in
      elim (Result-cases (validate d)) [
        | inr (e, refused) ↦ rw (refused, subscribe_stream) (inr (e, refl, refl))
        | inl (_, valid) ↦ elim (Bool-cases (contains mounted.stream b.streams)) [
          | inl taken ↦
              rw (valid, subscribe_stream)
                (rw (taken, claim) (inr (already_subscribed mounted.stream, refl, refl)))
          | inr free ↦ elim (Result-cases (open_stream control d b).0) [
            | inr (e, failed) ↦
                rw (valid, subscribe_stream)
                  (rw (free, claim)
                    (rw failed
                      (rw free (inr (e, refl, contains-dropped mounted.stream t b.streams free)))))
            | inl (_, opened) ↦
                rw (valid, subscribe_stream)
                  (rw (free, claim)
                    (rw opened (
                      rw free (
                        inl (
                          _,
                          refl,
                          opened-open d opened,
                          refl,
                          refl,
                          contains-claimed mounted.stream t b.streams,
                        )))))
          ]
        ]
      ]
