-- ===== src/Tests/Streams.antt =====
-- The publisher, the claims and the in-process streams.
use ruststream_kinesis.Prelude.{
  ◌+◌, ◌≡◌, refl, true, none, List, [], ◌∷◌, ◌++◌, Text, codes, ok, str_eq, length, arith,
}
use ruststream_kinesis.Envelope.Headers.{find}
use ruststream_kinesis.Envelope.Headers.Assoc.{assoc}
use ruststream_kinesis.Envelope.Rsk.{rsk}
use ruststream_kinesis.Message.{Received, open_message, position, latest, horizon, in_process}
use ruststream_kinesis.Envelope.Headers.{written, is_native}
use ruststream_kinesis.Envelope.Utf8.{is_utf8}
use ruststream_kinesis.Envelope.Rsk.{seal, looks_enveloped}
use ruststream_kinesis.Envelope.Rsk.Wire.{block_len, encode_fields, field_len}
use ruststream_kinesis.Message
use ruststream_kinesis.Message.{read_headers}
use ruststream_kinesis.Message.Delivery.{expected}
use ruststream_kinesis.Publisher.{resolve_partition_key, publish_record, put_sealed}
use ruststream_kinesis.Publisher.Delivers.{publish-delivers}
use ruststream_kinesis.Publisher.{KinesisPublisher, Put}
use ruststream_kinesis.InProcess.Log.{Record, Feed, count_of, subscribe}
use ruststream_kinesis.InProcess.Log.Balance.{
  Event, publishes, seeks, polls, settles, run, run-in_flight,
}

abbrev kept : Record Unit
kept = record { partition_key = codes "k"; content = codes "raw"; read_back = tt; at_millis = 5 }

abbrev idle : Feed Unit
idle = record {
  records = kept ∷ kept ∷ [];
  subscribed = true;
  queue = [];
  pending = none;
  enqueued = 0;
  consumed = 0;
}

abbrev busy : List (Event Unit)
busy =
    publishes (codes "k") (codes "raw") tt 6
    ∷ polls
    ∷ seeks true horizon
    ∷ seeks true latest
    ∷ publishes (codes "k") (codes "raw") tt 7
    ∷ polls
    ∷ settles
    ∷ []

run-in_flight_example :
    let (last, held) = run (codes "orders") busy (subscribe idle, 0) in
    last.enqueued ≡ last.consumed + length last.queue + count_of last.pending + held
run-in_flight_example = run-in_flight (codes "orders") busy idle refl

-- The state is the data of the records put so far.
abbrev recorded : Put (List Text)
recorded = λ stream key content v. (ok tt, v ++ content ∷ [])

abbrev publisher : KinesisPublisher
publisher = record { connected = true; is_open = true; partition_key = none; envelope = rsk }

abbrev headers : assoc.Map
unfolding assoc find str_eq
headers = ((codes "x-tenant", codes "acme") ∷ [], (refl, tt))

publish-delivers_example :
    (content : Text) × ((publish_record recorded assoc publisher none
        (codes "orders")
        (codes "raw")
        headers
        (codes "f")
        []).1
      ≡ (recorded
          (codes "orders")
          (resolve_partition_key assoc none headers none (codes "f"))
          content
          []).1)
    × ((received : Received) (name : Text)
        → received.content ≡ content
        → (Message.payload (open_message rsk received) ≡ codes "raw")
          × (assoc.get name (read_headers assoc rsk (open_message rsk received))
              ≡ expected assoc headers received name))
unfolding headers assoc find str_eq written is_native is_utf8 block_len publish_record put_sealed
    seal looks_enveloped encode_fields field_len
publish-delivers_example =
    publish-delivers recorded assoc publisher none (codes "orders") (codes "raw") headers
      (codes "f") [] refl (refl, tt) (omega arith) refl
