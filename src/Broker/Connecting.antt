-- ===== src/Broker/Connecting.antt =====
-- The builder of broker.rs and its connect, with the publishers that share the broker's cell. A cell is
-- named by a number, and a clone of the builder names the same one; the cell of a connected broker
-- stands for its core too, since a cell is filled once. The SDK's configuration is of a type of its own.
pub mod Clones
pub mod Shared
use ruststream_kinesis.Prelude.{
  ℕ, ◌==◌, Bool, true, false, Option, none, some, List, [], ◌∷◌, Text, if◌then◌else◌, Result, ok,
  err,
}
use ruststream_kinesis.Error.{KinesisError, not_connected}
use ruststream_kinesis.Claim.{ReadStreams}
use ruststream_kinesis.Envelope.{Envelope}
use ruststream_kinesis.Envelope.Rsk.{rsk}
use ruststream_kinesis.Envelope.Choose.{Choice, inherit, named, choose}
use ruststream_kinesis.Publisher.{KinesisPublisher}

-- What a builder records; `C` is the SDK's configuration, `L` the lease stores.
pub record KinesisBroker (C L : Type 0) : Type 0 where
  pub endpoint : Option Text
  pub region : Option Text
  pub test_credentials : Bool
  pub sdk_config : Option C
  pub store : Option L
  pub owner : Option Text
  pub cell : ℕ
  pub envelope : Envelope

pub record Core (C L : Type 0) : Type 0 where
  pub config : C
  pub endpoint : Option Text
  pub region : Option Text
  pub home : ℕ
  pub store : L
  pub owner : Text
  pub closed : Bool

-- A connected broker, and a publisher of it; `KinesisPublisher` of Publisher is one with its cell looked
-- up.
pub record ConnectedBroker : Type 0 where
  pub cell : ℕ
  pub streams : ReadStreams
  pub envelope : Envelope

pub record CellPublisher : Type 0 where
  pub cell : ℕ
  pub partition_key : Option Text
  pub envelope : Envelope

-- `KinesisPublish`
pub record PublishPolicy : Type 0 where
  pub partition_key : Option Text
  pub envelope : Choice

abbrev pub default : PublishPolicy
default = record { partition_key = none; envelope = inherit }

abbrev pub with_key : Text → PublishPolicy → PublishPolicy
with_key key policy = record policy { partition_key = some key }

abbrev pub in_envelope : Envelope → PublishPolicy → PublishPolicy
in_envelope e policy = record policy { envelope = named e }

-- `KinesisPublish::pair`, over `publisher_keyed`
unfoldable pub pair : PublishPolicy → ConnectedBroker → CellPublisher
pair policy connected = record {
  cell = connected.cell;
  partition_key = policy.partition_key;
  envelope = choose policy.envelope connected.envelope;
}

abbrev pub or_else : {A : Type 0} → Option A → A → A
or_else none fallback = fallback
or_else (some x) fallback = x

abbrev pub Cells : Type 0 → Type 0 → Type 0
Cells C L = ℕ → Option (Core C L)

module _ {C L : Type 0} where
  -- `KinesisBroker::new`, on a fresh cell.
  abbrev pub new : ℕ → KinesisBroker C L
  new cell = record {
    endpoint = none;
    region = none;
    test_credentials = false;
    sdk_config = none;
    store = none;
    owner = none;
    cell = cell;
    envelope = rsk;
  }

  abbrev pub from_config : C → ℕ → KinesisBroker C L
  from_config config cell = record (new cell) { sdk_config = some config }

  abbrev pub with_envelope : Envelope → KinesisBroker C L → KinesisBroker C L
  with_envelope e b = record b { envelope = e }

  abbrev pub with_endpoint : Text → KinesisBroker C L → KinesisBroker C L
  with_endpoint endpoint b = record b { endpoint = some endpoint }

  abbrev pub with_region : Text → KinesisBroker C L → KinesisBroker C L
  with_region region b = record b { region = some region }

  abbrev pub with_test_credentials : KinesisBroker C L → KinesisBroker C L
  with_test_credentials b = record b { test_credentials = true }

  abbrev pub with_lease_store : L → KinesisBroker C L → KinesisBroker C L
  with_lease_store store b = record b { store = some store }

  abbrev pub owner_id : Text → KinesisBroker C L → KinesisBroker C L
  owner_id owner b = record b { owner = some owner }

  -- `KinesisBroker::publisher`, before the broker is connected.
  abbrev pub publisher : KinesisBroker C L → CellPublisher
  publisher b = record { cell = b.cell; partition_key = none; envelope = b.envelope }

  unfoldable pub fill : ℕ → Core C L → Cells C L → Cells C L
  fill cell core cells = λ other. if other == cell then some core else cells other

  -- `Core::ensure_open`
  unfoldable pub ensure_open : Core C L → Result KinesisError Unit
  ensure_open core = if core.closed then err not_connected else ok tt

  -- `KinesisPublisher::link`, and the check that the broker it comes to is open.
  unfoldable pub link : CellPublisher → Cells C L → Result KinesisError (Core C L)
  unfolding ensure_open
  link p cells = elim (cells p.cell) [
    | none ↦ err not_connected
    | some core ↦ elim (ensure_open core) [ err e ↦ err e | ok _ ↦ ok core ]
  ]

  -- The publisher that `Publisher::publish` runs on.
  unfoldable pub resolved : CellPublisher → Cells C L → KinesisPublisher
  resolved p cells = elim (cells p.cell) [
    | none ↦ record {
      connected = false;
      is_open = false;
      partition_key = p.partition_key;
      envelope = p.envelope;
    }
    | some core ↦ record {
      connected = true;
      is_open = if core.closed then false else true;
      partition_key = p.partition_key;
      envelope = p.envelope;
    }
  ]

  -- `shutdown`
  unfoldable pub shutdown : ConnectedBroker → Cells C L → Cells C L
  shutdown connected cells = elim (cells connected.cell) [
    | none ↦ cells
    | some core ↦ fill connected.cell (record core { closed = true }) cells
  ]

  -- The SDK loads a configuration from an endpoint, a region and the choice of test credentials.
  module _ (load : Option Text → Option Text → Bool → C) where
    -- What `connect` fills an empty cell with: on the runtime `runtime`, with a new store in memory and
    -- a drawn owner id where the builder names none.
    unfoldable pub core_of : KinesisBroker C L → ℕ → L → Text → Core C L
    core_of b runtime memory drawn = record {
      config = or_else b.sdk_config (load b.endpoint b.region b.test_credentials);
      endpoint = b.endpoint;
      region = b.region;
      home = runtime;
      store = or_else b.store memory;
      owner = or_else b.owner drawn;
      closed = false;
    }

    unfoldable pub connect :
        KinesisBroker C L → ℕ → L → Text → Cells C L → ConnectedBroker × Cells C L
    connect b runtime memory drawn cells = (
      record { cell = b.cell; streams = []; envelope = b.envelope },
      (elim (cells b.cell) [
        | none ↦ fill b.cell (core_of b runtime memory drawn) cells
        | some core ↦ cells
      ]),
    )
