-- ===== src/Tests/Bus.antt =====
-- A publish on the in-process transport, in the envelope without headers.
use ruststream_kinesis.Prelude.{
  ◌≡◌, ◌+◌, refl, none, some, List, [], ◌∷◌, Text, ◌++◌, codes, length, ok, err,
}
use ruststream_kinesis.Envelope.Headers.Assoc.{assoc}
use ruststream_kinesis.Envelope.NoOp.{no_op}
use ruststream_kinesis.InProcess.Log.{deliveries}
use ruststream_kinesis.InProcess.Bus.{
  name_length, name_character, record_size, check_stream, check_record, refused, is_allowed, chars,
  max_record,
}
use ruststream_kinesis.InProcess.Streams
use ruststream_kinesis.InProcess.Streams.{published, reports}
use ruststream_kinesis.InProcess.Streams.Follows.{answers}
use ruststream_kinesis.InProcess.Streams.InOrder.{
  Publish, Event, puts, polls, run, all_accepted, run-in_order,
}

-- The names of the source's own tests.
accepts_name : check_stream (codes "orders.dead-letter_v2") ≡ ok tt
unfolding check_stream refused is_allowed
accepts_name = refl

refuses_empty : check_stream [] ≡ err (name_length 0)
unfolding check_stream refused
refuses_empty = refl

refuses_slash : check_stream (codes "orders/dead") ≡ err (name_character b'/')
unfolding check_stream refused is_allowed
refuses_slash = refl

refuses_large :
    check_record (codes "orders") (codes "k") max_record ≡ err (record_size (max_record + 1))
unfolding check_record check_stream refused is_allowed chars
refuses_large = refl

abbrev a_record : Text → Text → Publish assoc
a_record stream payload = record {
  envelope = no_op;
  options = none;
  from_policy = some (codes "k");
  stream = stream;
  headers = assoc.new;
  payload = payload;
  fresh = codes "rs-1-0";
  now = 5;
}

-- Its partition key is empty, so it is refused.
abbrev a_refused : Publish assoc
a_refused = record (a_record (codes "orders") (codes "kept out")) { from_policy = some [] }

abbrev a_run : List (Event assoc)
a_run =
    puts (a_record (codes "orders") (codes "first"))
    ∷ puts a_refused
    ∷ puts (a_record (codes "refunds") (codes "other"))
    ∷ polls (codes "orders")
    ∷ puts (a_record (codes "orders") (codes "second"))
    ∷ []

run-in_order_example :
    let b1 = (Streams.subscribe assoc (codes "orders") (Streams.new assoc)).1 in
    let (ys, b2) = run assoc (codes "orders") a_run b1 in
    let since = all_accepted assoc (codes "orders") a_run in
    (published assoc (codes "orders") b2
      ≡ published assoc (codes "orders") (Streams.new assoc) ++ reports assoc since)
    × (ys ++ answers (codes "orders") (b2.feeds (codes "orders")).queue
        ≡ answers
            (codes "orders")
            (deliveries (length ((Streams.new assoc).feeds (codes "orders")).records) since))
unfolding Streams.subscribe check_stream refused is_allowed
run-in_order_example = run-in_order assoc (codes "orders") a_run (Streams.new assoc) refl
