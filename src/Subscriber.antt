-- ===== src/Subscriber.antt =====
-- crates/ruststream-kinesis/src/subscriber.rs: the seek surface that a subscription shares between its
-- seekers, its coordinator and its readers, and the channel the readers feed. Gates and command
-- channels are named by their places; a channel whose reader has gone is `none`.
pub mod Seek
pub mod Service
pub mod Listing
pub mod Parents
pub mod Reader
pub mod Turn
pub mod Coordinator
use ruststream_kinesis.Prelude.{
  ℕ, ◌==◌, Bool, true, false, Option, none, some, List, [], ◌∷◌, Text, str_eq, if◌then◌else◌, ltb,
  Result, ok, err, get_or, min,
}
use ruststream_kinesis.Error.{KinesisError}
use ruststream_kinesis.Cursor.{StreamStart, ShardStart}
use ruststream_kinesis.Message.{Received}

pub record ShardHandle : Type 0 where
  pub gate : ℕ
  pub tx : ℕ

-- `SeekState`; whether the connection is open is asked of the broker.
pub record SeekState : Type 0 where
  pub shards : List (Text × ShardHandle)
  pub start : Option StreamStart

-- `SeekState::new`
abbrev pub new : SeekState
new = record { shards = []; start = none }

without : Text → List (Text × ShardHandle) → List (Text × ShardHandle)
without shard [] = []
without shard ((s, h) ∷ shards) =
    let rest = without shard shards in if str_eq s shard then rest else (s, h) ∷ rest

named : Text → List (Text × ShardHandle) → Option ShardHandle
named shard [] = none
named shard ((s, h) ∷ shards) =
    let rest = named shard shards in if str_eq s shard then some h else rest

handles : List (Text × ShardHandle) → List ShardHandle
handles [] = []
handles ((s, h) ∷ shards) = h ∷ handles shards

-- An entry that is there is replaced.
unfoldable pub register : Text → ShardHandle → SeekState → SeekState
unfolding without
register shard h bus = record bus { shards = (shard, h) ∷ without shard bus.shards }

unfoldable pub deregister : Text → SeekState → SeekState
unfolding without
deregister shard bus = record bus { shards = without shard bus.shards }

unfoldable pub handle : Text → SeekState → Option ShardHandle
unfolding named
handle shard bus = named shard bus.shards

unfoldable pub live : SeekState → List ShardHandle
unfolding handles
live bus = handles bus.shards

unfoldable pub install : StreamStart → SeekState → SeekState
install start bus = record bus { start = some start }

abbrev pub installed : SeekState → Option StreamStart
installed bus = bus.start

pub record Stamped : Type 0 where
  pub stamp : Option (ℕ × ℕ)  -- the epoch, and the place of the gate
  pub item : Result KinesisError Received

-- `Stamped::live`
abbrev pub live_item : ℕ → ℕ → Result KinesisError Received → Stamped
live_item epoch gate item = record { stamp = some (epoch, gate); item = item }

abbrev pub unstamped : Result KinesisError Received → Stamped
unstamped item = record { stamp = none; item = item }

unfoldable pub is_current : Option (ℕ × ℕ) → List ℕ → Bool
is_current none gates = true
is_current (some (epoch, gate)) gates = epoch == get_or gates gate 0

-- `Stamped::current`
abbrev pub current : Stamped → List ℕ → Bool
unfolding is_current
current stamped gates = is_current stamped.stamp gates

-- `ShardDeliveries::stream`, one poll of it: items of an older generation are dropped on the way.
unfoldable pub poll : List ℕ → List Stamped → Option (Result KinesisError Received) × List Stamped
poll gates [] = (none, [])
poll gates (stamped ∷ rx) =
    let rest = poll gates rx in if current stamped gates then (some stamped.item, rx) else rest

abbrev max_read_limit : ℕ
max_read_limit = 10000

-- The largest `i32`.
abbrev i32_max : ℕ
i32_max = 2147483647

-- `read_limit`: a size that is no `i32` becomes the service's cap, and so does a larger one.
unfoldable pub read_limit : ℕ → ℕ
read_limit size = min (if ltb i32_max size then max_read_limit else size) max_read_limit
