-- ===== src/InProcess/Bus/ReadsBack.antt =====
-- A publish of in_process/mod.rs: what the harness reports of it, beside what a handler reads.
use ruststream_kinesis.Prelude.{
  ℕ, ◌+◌, ◌≤◌, ◌<◌, ◌≡◌, refl, ap, ◌∙◌, subst, inl, inr, Bool, List, [], ◌∷◌, ◌++◌, Text, length,
  Result, ok, err, Bool-cases, Result-cases, arith,
}
use ruststream_kinesis.Envelope.{Envelope, MalformedHeaders}
use ruststream_kinesis.Envelope.Headers.Laws.{insert_all}
use ruststream_kinesis.Envelope.Headers.{
  Header, HeaderMap, partition_key_header, sequence_header, shard_header,
}
use ruststream_kinesis.Envelope.Payload.{fit}
use ruststream_kinesis.Message.{
  envelope_headers, in_process, Received, open_message, read_headers, shard,
}
use ruststream_kinesis.Message
use ruststream_kinesis.InProcess.Sequence.{sequence_of}
use ruststream_kinesis.InProcess.Log.{Record, Delivery, Feed, append, deliver, in_process_shard}
use ruststream_kinesis.InProcess.Bus.Appends.{put-appends}
use ruststream_kinesis.InProcess.Bus.{
  ReadBack, read_back, read_or_new, check_record, check_stream, chars, max_record,
  max_partition_key, put,
}

-- A record whose envelope reads it back as its handler does.
abbrev pub ReadsBack : (h : HeaderMap) → Envelope → Record (ReadBack h) → Type 0
ReadsBack h e rec =
    (stream : Text) (index : ℕ) (f : Feed (ReadBack h)) (received : Received)
    → (deliver stream (record { kept = rec; index = index }) f).0 ≡ ok received
    → (Message.payload (open_message e received) ≡ rec.read_back.payload)
      × (read_headers h e (open_message e received)
          ≡ h.insert shard_header in_process_shard (
              h.insert sequence_header (sequence_of index)
                (h.insert partition_key_header rec.partition_key rec.read_back.headers)))

-- The message of a delivery that is no aggregated record.
abbrev pub message_of : {B : Type 0} → Text → Delivery B → Received
message_of stream d = record {
  content = d.kept.content;
  partition_key = d.kept.partition_key;
  sequence = sequence_of d.index;
  settlement = in_process stream in_process_shard;
}

deliver_ok :
    {B : Type 0} (stream : Text) (d : Delivery B) (f : Feed B) (received : Received)
    → (deliver stream d f).0 ≡ ok received
    → message_of stream d ≡ received
unfolding deliver
deliver_ok stream d f received e = ground arith

read_or_new_lem :
    (h : HeaderMap) (r : Result MalformedHeaders (List Header))
    → insert_all h (envelope_headers r) h.new ≡ read_or_new h r
unfolding insert_all
read_or_new_lem h (ok headers) = refl
read_or_new_lem h (err e) = refl

read_back-ReadsBack :
    (h : HeaderMap) (e : Envelope) (key content : Text) (now : ℕ)
    → ReadsBack h e (record {
      partition_key = key;
      content = content;
      read_back = read_back h e content;
      at_millis = now;
    })
unfolding read_back open_message Message.payload read_headers shard
read_back-ReadsBack h e key content now stream index f received same =
    let rec : Record (ReadBack h) = record {
      partition_key = key;
      content = content;
      read_back = read_back h e content;
      at_millis = now;
    } in
    let d : Delivery (ReadBack h) = record { kept = rec; index = index } in
    subst
      (λ r.
        (Message.payload (open_message e r) ≡ rec.read_back.payload)
        × (read_headers h e (open_message e r)
            ≡ h.insert shard_header in_process_shard (
                h.insert sequence_header (sequence_of index)
                  (h.insert partition_key_header key rec.read_back.headers))))
      (deliver_ok stream d f received same)
      (
        refl,
        ap
            (λ m.
              h.insert shard_header in_process_shard (
                h.insert sequence_header (sequence_of index) (h.insert partition_key_header key m)))
            (read_or_new_lem h (e.read_headers content (fit (e.body content) (length content)))),
      )

pub append-records :
    {B : Type 0} (key content : Text) (back : B) (now : ℕ) (f : Feed B)
    → (append key content back now f).records
      ≡ f.records
        ++ record { partition_key = key; content = content; read_back = back; at_millis = now } ∷ []
unfolding append
append-records key content back now f = elim (Bool-cases f.subscribed) [
  | inl reads ↦ rw (reads, append) refl
  | inr unread ↦ rw (unread, append) refl
]

check_record_lem :
    (stream key : Text) (size : ℕ)
    → check_record stream key size ≡ ok tt
    → (0 < chars key) × (chars key ≤ max_partition_key) × (size + length key ≤ max_record)
unfolding check_record
check_record_lem stream key size e = elim (Result-cases (check_stream stream)) [
  | inr (reason, refusal) ↦ ground (arith, e, refusal)
  | inl (_, named) ↦ ground (arith, e, named)
]

-- A publish on the in-process transport that succeeded has put one record at the end of the stream's log,
-- with a key and a size that the service takes; and whenever that record is delivered, its handler
-- reads the payload and the headers that the harness reports for it, with the record's own fields.
pub put-ReadsBack :
    (h : HeaderMap) (e : Envelope) (is_open : Bool) (stream key : Text) (headers : h.Map)
    (payload : Text) (now : ℕ) (f : Feed (ReadBack h))
    → (put h e is_open stream key headers payload now f).0 ≡ ok tt
    → (rec : Record (ReadBack h)) × ((put h e is_open stream key headers payload now f).1.records
        ≡ f.records ++ rec ∷ [])
      × (0 < chars rec.partition_key)
      × (chars rec.partition_key ≤ max_partition_key)
      × (length rec.content + length rec.partition_key ≤ max_record)
      × ReadsBack h e rec
put-ReadsBack h e is_open stream key headers payload now f done =
    let (content, sealed, accepted, appended) =
      put-appends h e is_open stream key headers payload now f done in
    let (some_key, short_key, fits) = check_record_lem stream key (length content) accepted in
    (
      record {
        partition_key = key;
        content = content;
        read_back = read_back h e content;
        at_millis = now;
      },
      ap (λ (g : Feed (ReadBack h)). g.records) appended
          ∙ append-records key content (read_back h e content) now f,
      some_key,
      short_key,
      fits,
      read_back-ReadsBack h e key content now,
    )
