-- ===== src/Lease/Memory.antt =====
-- `MemoryLeaseStore` of lease.rs: one lease per key, behind a mutex. The map is the list of its
-- entries; its order is never read. No call of this store fails.
pub mod Rows
pub mod Laws
pub mod Promises
pub mod Exclusive
use ruststream_kinesis.Prelude.{
  ℕ, ◌+◌, Bool, true, false, ◌&&◌, not, Option, none, some, List, [], ◌∷◌, Text, str_eq, ltb,
  if◌then◌else◌, Result, ok,
}
use ruststream_kinesis.Error.{LeaseError}
use ruststream_kinesis.Lease.{LeaseKey, LeaseState, LeaseStore, Call, key_eq}
use ruststream_kinesis.Lease.Contract.{Row, holds}

-- `MemoryLease` has the fields of a row; `MemoryLease::default` is the empty one.
abbrev pub MemoryLease : Type 0
MemoryLease = Row

abbrev pub default : MemoryLease
default = record { owner = none; expires = none; checkpoint = none; opened_at = none }

pub record MemoryLeaseStore : Type 0 where
  pub leases : List (LeaseKey × MemoryLease)

-- `MemoryLeaseStore::new`
abbrev pub new : MemoryLeaseStore
new = record { leases = [] }

unfoldable pub get : LeaseKey → List (LeaseKey × MemoryLease) → Option MemoryLease
get key [] = none
get key ((k, lease) ∷ leases) = if key_eq k key then some lease else get key leases

unfoldable pub put :
    LeaseKey → MemoryLease → List (LeaseKey × MemoryLease) → List (LeaseKey × MemoryLease)
put key lease [] = (key, lease) ∷ []
put key lease ((k, old) ∷ leases) =
    if key_eq k key then (k, lease) ∷ leases else (k, old) ∷ put key lease leases

-- The lease that is there, or else the default one, entered under the key.
unfoldable pub with_lease :
    {R : Type 0} → LeaseKey → (MemoryLease → R × MemoryLease) → Call MemoryLeaseStore R
with_lease key f store = elim (get key store.leases) [
  | some lease ↦
      let (r, lease') = f lease in (ok r, record { leases = put key lease' store.leases })
  | none ↦ let (r, lease') = f default in (ok r, record { leases = put key lease' store.leases })
]

-- `is_some_and(|expiry| expiry > now)`
abbrev pub unexpired : ℕ → Option ℕ → Bool
unexpired now none = false
unexpired now (some expiry) = ltb now expiry

-- `is_some_and(|current| current != owner && ...)`
unfoldable pub held_by_other : Text → ℕ → MemoryLease → Bool
held_by_other owner now lease = elim lease.owner [
  | none ↦ false
  | some current ↦ not (str_eq current owner) && unexpired now lease.expires
]

unfoldable pub acquire_lease : Text → ℕ → ℕ → MemoryLease → Bool × MemoryLease
unfolding held_by_other
acquire_lease owner ttl now lease =
    if held_by_other owner now lease
    then (false, lease)
    else (true, record lease { owner = some owner; expires = some (now + ttl) })

unfoldable pub renew_lease : Text → ℕ → ℕ → MemoryLease → Bool × MemoryLease
renew_lease owner ttl now lease =
    if holds owner lease.owner
    then (true, record lease { expires = some (now + ttl) })
    else (false, lease)

unfoldable pub checkpoint_lease : Text → Text → MemoryLease → Bool × MemoryLease
checkpoint_lease owner sequence lease =
    if holds owner lease.owner
    then (true, record lease { checkpoint = some sequence })
    else (false, lease)

unfoldable pub record_opened_at_lease : Text → Text → MemoryLease → Bool × MemoryLease
record_opened_at_lease owner sequence lease =
    if holds owner lease.owner
    then (true, record lease { opened_at = some sequence })
    else (false, lease)

unfoldable pub read_lease : MemoryLease → LeaseState × MemoryLease
read_lease lease = (record { checkpoint = lease.checkpoint; opened_at = lease.opened_at }, lease)

unfoldable pub release_lease : Text → MemoryLease → Unit {0} × MemoryLease
release_lease owner lease =
    (tt, if holds owner lease.owner then record lease { owner = none; expires = none } else lease)

-- `impl LeaseStore for MemoryLeaseStore`
abbrev pub memory : LeaseStore MemoryLeaseStore
memory = record {
  acquire = λ key owner ttl now. with_lease key (acquire_lease owner ttl now);
  renew = λ key owner ttl now. with_lease key (renew_lease owner ttl now);
  checkpoint = λ key owner sequence. with_lease key (checkpoint_lease owner sequence);
  record_opened_at = λ key owner sequence. with_lease key (record_opened_at_lease owner sequence);
  read = λ key. with_lease key read_lease;
  release = λ key owner. with_lease key (release_lease owner);
}
