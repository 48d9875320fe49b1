-- ===== src/Claim.antt =====
-- crates/ruststream-kinesis/src/claim.rs: the streams that a broker has an open subscription to. The set
-- is the list of its members.
use ruststream_kinesis.Prelude.{
  ◌≡◌, Bool, true, false, List, [], ◌∷◌, Text, str_eq, str_eq_iff, if◌then◌else◌, Result, ok, err,
  Bool-cases, inl, inr, arith,
}
use ruststream_kinesis.Error.{KinesisError, already_subscribed}

-- `ReadStreams::streams`
abbrev pub ReadStreams : Type 0
ReadStreams = List Text

unfoldable pub contains : Text → ReadStreams → Bool
contains stream [] = false
contains stream (s ∷ streams) =
    let rest = contains stream streams in if str_eq s stream then true else rest

-- `ReadStreams::claim`; the claim is the stream it names.
unfoldable pub claim : Text → ReadStreams → Result KinesisError Text × ReadStreams
unfolding contains
claim stream streams =
    if contains stream streams
    then (err (already_subscribed stream), streams)
    else (ok stream, stream ∷ streams)

-- `StreamClaim::drop`
unfoldable pub drop : Text → ReadStreams → ReadStreams
drop stream [] = []
drop stream (s ∷ streams) =
    let rest = drop stream streams in if str_eq s stream then rest else s ∷ rest

pub contains-drop :
    (s t : Text) (streams : ReadStreams)
    → contains t (drop s streams) ≡ (if str_eq s t then false else contains t streams)
unfolding contains drop
contains-drop s t [] = ground arith
contains-drop s t (x ∷ streams) =
    ground (arith, contains-drop s t streams, str_eq_iff x s, str_eq_iff x t, str_eq_iff s t)

-- While a claim of a stream is held, a second claim of it is refused naming the stream, and claims of
-- other streams are answered as if it were not there; once it is dropped, the stream can be claimed
-- again, and other streams are still as they were.
pub claim_is_exclusive :
    (s t : Text) (streams : ReadStreams)
    → (claim s streams).0 ≡ ok s
    → ((claim t (claim s streams).1).0
        ≡ (if str_eq s t then err (already_subscribed t) else (claim t streams).0))
      × ((claim t (drop s (claim s streams).1)).0 ≡ (claim t streams).0)
unfolding claim contains
claim_is_exclusive s t streams h = elim (Bool-cases (contains s streams)) [
  | inl there ↦ ground (arith, there, h)
  | inr free ↦
      rw (free, claim)
        (
          ground (arith, free, str_eq_iff s t),
          ground (arith, free, contains-drop s t (s ∷ streams), str_eq_iff s t),
        )
]
