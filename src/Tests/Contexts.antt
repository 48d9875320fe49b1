-- ===== src/Tests/Contexts.antt =====
-- A handler that seeks back to its own record.
use ruststream_kinesis.Prelude.{
  ◌≡◌, refl, true, false, some, [], ◌∷◌, Text, codes, str_eq, ok, arith,
}
use ruststream_kinesis.Envelope.Headers.Assoc.{assoc}
use ruststream_kinesis.Envelope.NoOp.{no_op}
use ruststream_kinesis.Message.{Received, in_process}
use ruststream_kinesis.InProcess.Log.{Record, Feed, deliver, in_process_shard}
use ruststream_kinesis.InProcess.Sequence.{sequence_of}
use ruststream_kinesis.InProcess.Bus.{ReadBack}
use ruststream_kinesis.InProcess.Streams
use ruststream_kinesis.InProcess.Streams.{empty}
use ruststream_kinesis.Subscriber
use ruststream_kinesis.Context.{Surfaces}
use ruststream_kinesis.Context.Redelivers.{sought, seek-context}

abbrev orders : Text
orders = codes "orders"

abbrev kept : Record (ReadBack assoc)
kept = record {
  partition_key = codes "k";
  content = codes "raw";
  read_back = record { headers = assoc.new; payload = codes "raw" };
  at_millis = 5;
}

abbrev idle : Feed (ReadBack assoc)
idle = record empty { records = kept ∷ kept ∷ []; subscribed = true }

abbrev surfaces : Surfaces assoc
surfaces = record {
  is_open = true;
  hub = record { bus = Subscriber.new; gates = []; queues = []; asked = 0 };
  transport = record { is_closed = false; feeds = λ stream. idle };
}

abbrev handed : Received
handed = record {
  content = codes "raw";
  partition_key = codes "k";
  sequence = sequence_of 1;
  settlement = in_process orders in_process_shard;
}

seek-context_example :
    ((Streams.poll assoc orders
        (sought assoc no_op orders
          (record { kept = kept; index = 1 })
          idle
          handed
          surfaces).transport).0
      ≡ some (ok handed))
    × ((sought assoc no_op orders
            (record { kept = kept; index = 1 })
            idle
            handed
            surfaces).transport.feeds
          (codes "refunds")
        ≡ surfaces.transport.feeds (codes "refunds"))
unfolding deliver str_eq
seek-context_example =
    seek-context assoc no_op orders (record { kept = kept; index = 1 }) idle handed surfaces
      (codes "refunds") refl refl refl (omega arith) refl
