-- ===== src/InProcess/Bus/Appends.antt =====
-- What a publish of in_process/mod.rs that succeeded has done to the stream's feed.
use ruststream_kinesis.Prelude.{
  ℕ, ◌≡◌, refl, inl, inr, Bool, true, false, Text, length, ok, Result-cases, arith,
}
use ruststream_kinesis.Envelope.{Envelope}
use ruststream_kinesis.Envelope.Headers.{HeaderMap, written}
use ruststream_kinesis.InProcess.Log.{Feed, append}
use ruststream_kinesis.InProcess.Bus.{ReadBack, read_back, write, check_record, append_checked, put}

-- It has sealed one record, which passed the check, and appended it.
pub put-appends :
    (h : HeaderMap) (e : Envelope) (is_open : Bool) (stream key : Text) (headers : h.Map)
    (payload : Text) (now : ℕ) (f : Feed (ReadBack h))
    → (put h e is_open stream key headers payload now f).0 ≡ ok tt
    → (content : Text) × (e.seal (written (h.iter headers)) payload ≡ ok content)
      × (check_record stream key (length content) ≡ ok tt)
      × ((put h e is_open stream key headers payload now f).1
          ≡ append key content (read_back h e content) now f)
unfolding put write append_checked
put-appends h e false stream key headers payload now f done = cc done
put-appends h e true stream key headers payload now f done =
    elim (Result-cases (e.seal (written (h.iter headers)) payload)) [
      | inr (x, unsealed) ↦ ground (arith, done, unsealed)
      | inl (content, sealed) ↦ elim (Result-cases (check_record stream key (length content))) [
        | inr (reason, refusal) ↦ ground (arith, done, sealed, refusal)
        | inl (_, accepted) ↦
            (content, sealed, accepted, rw (sealed, put) (rw (accepted, append_checked) refl))
      ]
    ]
