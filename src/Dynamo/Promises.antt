-- ===== src/Dynamo/Promises.antt =====
-- The lease store of dynamo.rs beside all that the trait promises.
use ruststream_kinesis.Prelude.{ℕ, ◌≢◌, some, Text}
use ruststream_kinesis.Lease.{LeaseKey}
use ruststream_kinesis.Lease.Promises.{Promises}
use ruststream_kinesis.Dynamo.{AttributeValue, number, Item, Service, DynamoLeaseStore, owner_name}
use ruststream_kinesis.Dynamo.Documented.{Documented}
use ruststream_kinesis.Dynamo.Views.{at_key}
use ruststream_kinesis.Dynamo.Adoption.{IsTextual}

-- The owner and the checkpoint of an item, where there are any, are strings.
abbrev pub IsWritten : Item → Type 0
IsWritten i = ((n : ℕ) → i owner_name ≢ some (AttributeValue.number n)) × IsTextual i

module _ {S : Type 0} (service : Service S) (store : DynamoLeaseStore)
    (item : Text → Text → S → Item) (laws : Documented service item) where
  abbrev pub Typed : LeaseKey → S → Type 0
  Typed k s = IsWritten (at_key store item k s)
