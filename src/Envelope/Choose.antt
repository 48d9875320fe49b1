-- ===== src/Envelope/Choose.antt =====
-- `Inherit` and `ChooseEnvelope` of envelope/mod.rs: the envelope that a mount site names.
use ruststream_kinesis.Envelope.{Envelope}

pub data Choice : Type 0 where
  inherit : Choice
  named : Envelope → Choice

-- `choose`, against the broker's default
unfoldable pub choose : Choice → Envelope → Envelope
choose inherit default = default
choose (named e) default = e
