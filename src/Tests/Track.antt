-- ===== src/Tests/Track.antt =====
-- The watermark of track.rs on the calls of its own tests.
use ruststream_kinesis.Prelude.{◌≡◌, refl, none, some, List, [], ◌∷◌, Text, codes, arith}
use ruststream_kinesis.Track.{default, deliver, settle}
use ruststream_kinesis.Track.Refinement.{tracker}
use ruststream_kinesis.Track.Checkpoint.{
  Call, delivers, settles, replay, log_after, answers, replay-refines,
}

abbrev a : Text
a = codes "100"

abbrev b : Text
b = codes "101"

abbrev c : Text
c = codes "102"

abbrev out_of_order : List Call
out_of_order = delivers a ∷ delivers b ∷ delivers c ∷ settles 1 ∷ settles 2 ∷ settles 0 ∷ []

-- Settling out of order does not advance past the gap; settling the front releases the run.
advances_contiguously : (replay out_of_order default).0 ≡ none ∷ none ∷ some c ∷ []
unfolding replay deliver settle
advances_contiguously = refl

replay-refines_example :
    replay out_of_order default ≡ (answers out_of_order [], tracker (log_after out_of_order []))
replay-refines_example = replay-refines out_of_order (omega arith)
