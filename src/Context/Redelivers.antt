-- ===== src/Context/Redelivers.antt =====
-- A handler that repositions its subscription through its context.
use ruststream_kinesis.Prelude.{
  ◌≡◌, ◌<◌, ◌∙◌, refl, ap, false, not, some, Text, str_eq, str_eq_refl, if◌then◌else◌, get_elem?,
  ok,
}
use ruststream_kinesis.Envelope.{Envelope}
use ruststream_kinesis.Envelope.Headers.{HeaderMap}
use ruststream_kinesis.Message.{Received, open_message, position}
use ruststream_kinesis.InProcess.Log
use ruststream_kinesis.InProcess.Log.{Delivery, Feed, deliver}
use ruststream_kinesis.InProcess.Log.Replay.{seek-redelivers}
use ruststream_kinesis.InProcess.Bus.{ReadBack}
use ruststream_kinesis.InProcess.Sequence.{usize_mod}
use ruststream_kinesis.InProcess.Streams
use ruststream_kinesis.Context.{
  KinesisContext, Surfaces, log, build, read_position, read_seeker, seek,
}

module _ (h : HeaderMap) (envelope : Envelope) (name : Text) (d : Delivery (ReadBack h))
    (f : Feed (ReadBack h)) (received : Received) (s : Surfaces h) where
  abbrev pub context : KinesisContext
  context = build (log name) (open_message envelope received)

  -- What the handler's seek leaves.
  abbrev pub sought : Surfaces h
  sought = (seek (read_seeker context) (read_position context) s).1

  -- A handler on the transport of the harness, while that is open, of a delivery that the log still holds
  -- at its place, which is below 2^64: when it seeks by the handle of its context to the position of
  -- its context, its subscription yields the same delivery next, and what another stream has is as it
  -- was.
  pub seek-context :
      (other : Text)
      → s.transport.is_closed ≡ false
      → (deliver name d f).0 ≡ ok received
      → get_elem? (s.transport.feeds name).records d.index ≡ some d.kept
      → d.index < usize_mod
      → str_eq other name ≡ false
      → ((Streams.poll h name sought.transport).0 ≡ some (ok received))
        × (sought.transport.feeds other ≡ s.transport.feeds other)
  unfolding seek build read_position position Streams.seek Streams.poll
  seek-context other alive e kept fits apart = (
    ap
          (λ here.
            (Log.poll name (
              if here
              then (Log.seek (not s.transport.is_closed) name (read_position context)
                  (s.transport.feeds name)).1
              else s.transport.feeds name)).0)
          (str_eq_refl name)
        ∙ ap
            (λ closed.
              (Log.poll name
                (Log.seek (not closed) name (read_position context) (s.transport.feeds name)).1).0)
            alive
        ∙ seek-redelivers envelope name d f (s.transport.feeds name) received e kept fits,
    rw apart refl,
  )
