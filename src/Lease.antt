-- ===== src/Lease.antt =====
-- crates/ruststream-kinesis/src/lease.rs: the lease keys and the trait that lease stores implement.
-- A store is a record of operations on its state; time is an argument, in milliseconds.
pub mod Key
pub mod Contract
pub mod Calls
pub mod Promises
pub mod Memory
use ruststream_kinesis.Prelude.{
  ℕ, Bool, Option, none, List, [], ◌∷◌, ◌++◌, ◌&&◌, Text, codes, str_eq, Result,
}
use ruststream_kinesis.Error.{LeaseError}

-- The checkpoint value marking a shard fully consumed.
abbrev pub shard_end : Text
shard_end = codes "SHARD_END"

pub record LeaseKey : Type 0 where
  pub stream : Text
  pub shard : Text

-- `impl Display`: `stream:shard`
unfoldable pub to_string : LeaseKey → Text
to_string key = key.stream ++ b':' ∷ key.shard

-- the derived `PartialEq`
unfoldable pub key_eq : LeaseKey → LeaseKey → Bool
key_eq a b = str_eq a.stream b.stream && str_eq a.shard b.shard

pub record LeaseState : Type 0 where
  pub checkpoint : Option Text
  pub opened_at : Option Text

-- `LeaseState::default`
abbrev pub unread : LeaseState
unread = record { checkpoint = none; opened_at = none }

-- A call on a store: it may fail, and whatever it wrote stays written.
abbrev pub Call : Type 0 → Type 0 → Type 0
Call S A = S → Result LeaseError A × S

-- `trait LeaseStore`; after the owner of `acquire` and `renew` come the lease's length and the time.
pub record LeaseStore (S : Type 0) : Type 0 where
  pub acquire : LeaseKey → Text → ℕ → ℕ → Call S Bool
  pub renew : LeaseKey → Text → ℕ → ℕ → Call S Bool
  pub checkpoint : LeaseKey → Text → Text → Call S Bool
  pub record_opened_at : LeaseKey → Text → Text → Call S Bool
  pub read : LeaseKey → Call S LeaseState
  pub release : LeaseKey → Text → Call S Unit
