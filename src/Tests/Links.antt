-- ===== src/Tests/Links.antt =====
-- The service and the transport of the harness, side by side.
use ruststream_kinesis.Prelude.{
  ◌≡◌, refl, true, false, none, some, List, [], ◌∷◌, ◌++◌, Text, codes, ok, err, str_eq, arith,
  ◌==◌, ◌&&◌, if◌then◌else◌,
}
use ruststream_kinesis.Error.{aggregated_record}
use ruststream_kinesis.Envelope.Headers.{find, written}
use ruststream_kinesis.Envelope.Headers.Assoc.{assoc}
use ruststream_kinesis.Envelope.NoOp
use ruststream_kinesis.Envelope.NoOp.{no_op}
use ruststream_kinesis.Message.{Received, open_message}
use ruststream_kinesis.Publisher.{Put, key_without_step, resolve_partition_key}
use ruststream_kinesis.InProcess.Log.{Delivery}
use ruststream_kinesis.InProcess.Bus
use ruststream_kinesis.InProcess.Bus.{
  check_stream, check_record, refused, is_allowed, chars, write, append_checked,
}
use ruststream_kinesis.InProcess.Streams
use ruststream_kinesis.InProcess.Streams.{Transport, empty}
use ruststream_kinesis.Subscriber.{live_item}
use ruststream_kinesis.Subscriber.Service.{Record}
use ruststream_kinesis.Lease.Memory.{memory}
use ruststream_kinesis.Subscriber.Reader.Items.{items, delivery}
use ruststream_kinesis.Link.{Link, LinkPublisher, in_process, inject, routes, routes_from}
use ruststream_kinesis.Link.Alike.{Alike, publish-Alike}
use ruststream_kinesis.Link.Deliveries.{Agree, deliver-forward}
use ruststream_kinesis.Link.Routes.{places, grew, feed_of, inject-routes}
use ruststream_kinesis.Publisher.Spread.{
  Call, Distinct, drawn, resolve, is_unnamed, spread_key, drawn-Distinct,
}
use ruststream_kinesis.Broker.Owner.{decimal}
use ruststream_kinesis.Envelope.Rsk.{rsk, seal, looks_enveloped, first_chunk}
use ruststream_kinesis.Envelope.Rsk.Wire.{block_len}
use ruststream_kinesis.Message
use ruststream_kinesis.Subscriber.Reader.{is_aggregated, forward}
use ruststream_kinesis.Subscriber.Reader.Aggregated.{items-sealed}
use ruststream_kinesis.Tests.Readers.{script, post, reader, scene}

abbrev orders : Text
orders = codes "orders"

-- The state is the data of the records put so far.
abbrev pub recorded : Put (List Text)
recorded = λ stream key content v. (ok tt, v ++ content ∷ [])

abbrev publisher : LinkPublisher
publisher = record { partition_key = some (codes "tenant"); envelope = no_op }

publish-Alike_example :
    Alike recorded assoc publisher none orders
      (codes "raw")
      assoc.new
      (codes "rs-1-0")
      5
      (Streams.new assoc)
      []
publish-Alike_example =
    publish-Alike recorded assoc publisher none orders (codes "raw") assoc.new (codes "rs-1-0") 5
      (Streams.new assoc) [] refl

abbrev held : Record
held = record {
  sequence_number = codes "49";
  partition_key = some (codes "tenant");
  content = codes "raw";
}

abbrev logged : Delivery Unit
logged = record {
  kept = record {
    partition_key = codes "tenant";
    content = codes "raw";
    read_back = tt;
    at_millis = 5;
  };
  index = 2;
}

deliver-forward_example :
    Agree assoc no_op
      (codes "x-tenant")
      post
      3
      scene.out
      orders
      logged
      empty
      (forward script memory post 3 held reader scene)
unfolding str_eq
deliver-forward_example =
    deliver-forward assoc no_op (codes "x-tenant") script memory post 3 held reader scene orders
      logged empty refl refl refl refl refl

-- Two subscriptions, on two streams.
abbrev two : Transport assoc
two = record { is_closed = false; feeds = λ stream. record empty { subscribed = true } }

abbrev injected : Link Unit assoc
unfolding Streams.inject
injected =
    in_process (Streams.inject assoc no_op orders assoc.new (codes "raw") (codes "rs-1-0") 5 two).1

inject-routes_example :
    routes orders (codes "refunds" ∷ orders ∷ [])
    ≡ places 0 (λ s. grew (two.feeds s) (feed_of injected s)) (codes "refunds" ∷ orders ∷ [])
unfolding inject Streams.inject Streams.put Bus.put write append_checked check_record check_stream
    refused is_allowed chars assoc written NoOp.seal resolve_partition_key
inject-routes_example =
    inject-routes assoc no_op orders assoc.new (codes "raw") (codes "rs-1-0") 5 two
      (codes "refunds" ∷ orders ∷ []) injected (refl, (refl, tt)) refl

-- The second of them is the one that is reached.
routes_second : routes orders (codes "refunds" ∷ orders ∷ []) ≡ 1 ∷ []
unfolding routes_from str_eq
routes_second = refl

-- Two records without a key about one that the policy names a key for.
abbrev calls : List (Call assoc)
calls =
    record { options = none; headers = assoc.new; from_policy = none }
    ∷ record { options = none; headers = assoc.new; from_policy = some (codes "tenant") }
    ∷ record { options = none; headers = assoc.new; from_policy = none }
    ∷ []

drawn_twice : drawn assoc 7 calls 9 ≡ codes "rs-7-9" ∷ codes "rs-7-10" ∷ []
unfolding drawn resolve is_unnamed resolve_partition_key key_without_step spread_key decimal assoc
    find str_eq
drawn_twice = refl

drawn-Distinct_example : Distinct (drawn assoc 7 calls 9)
drawn-Distinct_example = drawn-Distinct assoc 7 calls 9 (omega arith)

-- A payload that happens to begin as an aggregated record does, as it is put without a header.
abbrev unlucky : Record
unlucky = record held { content = 0xF3 ∷ 0x89 ∷ 0x9A ∷ 0xC2 ∷ 1 ∷ [] }

unlucky_is_refused :
    items post 3 0 0 (unlucky ∷ [])
    ≡ live_item 3 post.gate (err (aggregated_record post.lease.shard)) ∷ []
unfolding items is_aggregated str_eq
unlucky_is_refused = refl

items-sealed_example :
    (items post 3 0 0 (unlucky ∷ []) ≡ (
      if block_len [] == 0 && is_aggregated unlucky.content
      then live_item 3 post.gate (err (aggregated_record post.lease.shard)) ∷ []
      else live_item 3 post.gate (ok (delivery post 3 0 0 unlucky)) ∷ []))
    × (Message.payload (open_message rsk (delivery post 3 0 0 unlucky)) ≡ unlucky.content)
unfolding block_len seal looks_enveloped first_chunk str_eq
items-sealed_example = items-sealed post 3 0 0 [] unlucky.content unlucky tt (omega arith) refl
