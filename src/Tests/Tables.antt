-- ===== src/Tests/Tables.antt =====
-- The lease store of dynamo.rs over a table that is a function from keys to items.
use ruststream_kinesis.Prelude.{
  ◌+◌, ◌≤◌, ◌≡◌, refl, none, some, List, [], ◌∷◌, Text, codes, str_eq, str_eq_iff, if◌then◌else◌,
  ok, arith, inl,
}
use ruststream_kinesis.Lease.{LeaseKey, LeaseState, to_string}
use ruststream_kinesis.Lease.Promises.{Promises}
use ruststream_kinesis.Lease.Calls
use ruststream_kinesis.Lease.Calls.{Event, acquires, checkpoints, reads}
use ruststream_kinesis.Dynamo.{
  AttributeValue, Item, written, conditional_check_failed, failed, Service, DynamoLeaseStore, new,
  legacy_stream, dynamo, read, read_bare, claimed, adopt, adopted, update, answer, item, text_of,
  checkpoint_name,
}
use ruststream_kinesis.Dynamo.Documented.{Documented, met, applicable, updated, performed}
use ruststream_kinesis.Dynamo.Views.{view, counter, row}
use ruststream_kinesis.Dynamo.Fencing.{Advances, accepted_about, replay-fenced}
use ruststream_kinesis.Dynamo.Resume.{resume, read-resumes}

abbrev Rows : Type 0
Rows = Text → Item

abbrev table : Service Rows
table = record {
  get_item = λ t k rows. (ok (some (rows k)), rows);
  update_item = λ t k c u rows.
      if met c (rows k)
      then (if applicable u (rows k)
          then (written, λ j. if str_eq k j then updated u (rows k) else rows j)
          else (failed (codes "ValidationException"), rows))
      else (conditional_check_failed, rows);
  meanwhile = λ rows. rows;
}

abbrev item_of : Text → Text → Rows → Item
item_of t k rows = rows k

table-Documented : Documented table item_of
table-Documented = record {
  get_item_answer = λ t k rows found h a ne. ground arith;
  get_item_keeps = λ t k j rows. refl;
  update_item_written = λ t k c u rows h. ground (arith, str_eq_iff k k);
  update_item_refused = λ t k c u rows h. ground (arith, str_eq_iff k k);
  update_item_failed = λ t k c u rows e h. inl (ground (arith, str_eq_iff k k));
  update_item_frame = λ t k j c u rows ne. ground arith;
}

abbrev leases : DynamoLeaseStore
leases = legacy_stream (codes "orders") (new (codes "leases"))

abbrev orders : LeaseKey
orders = record { stream = codes "orders"; shard = codes "shardId-0" }

abbrev nothing : Item
nothing a = none

-- One bare row, with progress.
abbrev before_upgrade : Rows
before_upgrade key =
    if str_eq key (codes "shardId-0")
    then (λ a. if str_eq a checkpoint_name then some (AttributeValue.string (codes "42")) else none)
    else nothing

abbrev two_owners : List Event
two_owners =
    record { key = orders; owner = codes "a"; now = 0; request = acquires 60 }
    ∷ record { key = orders; owner = codes "a"; now = 1; request = reads }
    ∷ record { key = orders; owner = codes "b"; now = 2; request = acquires 60 }
    ∷ record { key = orders; owner = codes "a"; now = 3; request = checkpoints (codes "43") }
    ∷ []

abbrev own_item : Rows → Item
own_item rows = rows (to_string orders)

replay-fenced_example :
    Advances
      (own_item before_upgrade)
      (own_item (Calls.replay (dynamo table leases) two_owners before_upgrade).1)
    × (counter (own_item before_upgrade)
          + accepted_about orders two_owners
              (Calls.replay (dynamo table leases) two_owners before_upgrade).0
        ≤ counter (own_item (Calls.replay (dynamo table leases) two_owners before_upgrade).1))
replay-fenced_example =
    replay-fenced table leases item_of table-Documented orders (λ rows. inl refl) two_owners
      before_upgrade

abbrev resumed : LeaseState
resumed = record { checkpoint = some (codes "42"); opened_at = none }

read-resumes_example :
    (resume leases.legacy orders.stream
        (row leases item_of orders before_upgrade).checkpoint
        (view (before_upgrade orders.shard)).checkpoint
      ≡ some resumed.checkpoint)
    × (resumed.opened_at ≡ (row leases item_of orders before_upgrade).opened_at)
    × (row leases item_of orders (read table leases orders before_upgrade).1
        ≡ record (row leases item_of orders before_upgrade) { checkpoint = resumed.checkpoint })
unfolding to_string str_eq read read_bare claimed adopted adopt update answer item text_of met
    applicable updated performed
read-resumes_example =
    read-resumes table leases item_of table-Documented orders (λ t rows. refl) before_upgrade
      resumed (λ n e. cc e) refl
