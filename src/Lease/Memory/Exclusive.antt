-- ===== src/Lease/Memory/Exclusive.antt =====
-- A live lease of `MemoryLeaseStore` of lease.rs, among calls of other owners.
use ruststream_kinesis.Prelude.{
  ℕ, ◌+◌, ◌<◌, ◌≡◌, ◌≢◌, refl, ap, Bool, true, false, some, List, [], ◌∷◌, Text, str_eq_iff, All,
  ok, arith,
}
use ruststream_kinesis.Lease.{LeaseKey}
use ruststream_kinesis.Lease.Key.{key_eq_iff}
use ruststream_kinesis.Lease.Contract.{Row, holds}
use ruststream_kinesis.Lease.Calls
use ruststream_kinesis.Lease.Calls.{
  Request, acquires, renews, checkpoints, opens, reads, releases, Event,
}
use ruststream_kinesis.Lease.Memory.{
  MemoryLeaseStore, memory, acquire_lease, renew_lease, checkpoint_lease, record_opened_at_lease,
  read_lease, release_lease,
}
use ruststream_kinesis.Lease.Memory.Laws.{acquire-row}
use ruststream_kinesis.Lease.Memory.Rows.{row, with_lease-answer, row-with_lease}

-- A call on the in-process store.
abbrev pub call : LeaseKey → Text → ℕ → Request → MemoryLeaseStore → Bool × MemoryLeaseStore
call = Calls.call memory

abbrev pub step : Event → MemoryLeaseStore → Bool × MemoryLeaseStore
step e s = call e.key e.owner e.now e.request s

-- The rule for one call of another owner before the expiry.
module _ (k : LeaseKey) (a : Text) (r : Row) (expiry : ℕ) (own : r.owner ≡ some a)
    (ends : r.expires ≡ some expiry) where
  refuses :
      (j : LeaseKey) (o : Text) (now : ℕ) (q : Request) (s : MemoryLeaseStore)
      → row k s ≡ r
      → o ≢ a
      → now < expiry
      → (row k (call j o now q s).1 ≡ r) × (j ≡ k → (call j o now q s).0 ≡ false)
  unfolding Calls.call acquire_lease renew_lease checkpoint_lease record_opened_at_lease
      release_lease read_lease holds
  refuses j o now (acquires ttl) s e ne early = ground (
    arith,
    row-with_lease j (acquire_lease o ttl now) s k,
    with_lease-answer j (acquire_lease o ttl now) s,
    key_eq_iff j k,
    str_eq_iff a o,
  )
  refuses j o now (renews ttl) s e ne early = ground (
    arith,
    row-with_lease j (renew_lease o ttl now) s k,
    with_lease-answer j (renew_lease o ttl now) s,
    key_eq_iff j k,
    str_eq_iff a o,
  )
  refuses j o now (checkpoints seq) s e ne early = ground (
    arith,
    row-with_lease j (checkpoint_lease o seq) s k,
    with_lease-answer j (checkpoint_lease o seq) s,
    key_eq_iff j k,
    str_eq_iff a o,
  )
  refuses j o now (opens seq) s e ne early = ground (
    arith,
    row-with_lease j (record_opened_at_lease o seq) s k,
    with_lease-answer j (record_opened_at_lease o seq) s,
    key_eq_iff j k,
    str_eq_iff a o,
  )
  refuses j o now reads s e ne early = ground (
    arith,
    row-with_lease j (read_lease) s k,
    with_lease-answer j (read_lease) s,
    key_eq_iff j k,
    str_eq_iff a o,
  )
  refuses j o now releases s e ne early = ground (
    arith,
    row-with_lease j (release_lease o) s k,
    with_lease-answer j (release_lease o) s,
    key_eq_iff j k,
    str_eq_iff a o,
  )

abbrev pub replay : List Event → MemoryLeaseStore → List Bool × MemoryLeaseStore
replay = Calls.replay memory

-- The events are calls of owners other than `a`, before the expiry.
abbrev pub Others : Text → ℕ → List Event → Type 0
Others a expiry = All (λ e. (e.owner ≢ a) × (e.now < expiry))

-- No event about shard `k` was accepted.
abbrev pub NoneAccepted : LeaseKey → List Event → List Bool → Type 0
NoneAccepted k (e ∷ es) (b ∷ bs) = (e.key ≡ k → b ≡ false) × NoneAccepted k es bs
NoneAccepted k _ _ = Unit

stays :
    (k : LeaseKey) (a : Text) (r : Row) (expiry : ℕ)
    → r.owner ≡ some a
    → r.expires ≡ some expiry
    → (es : List Event) (s : MemoryLeaseStore) → row k s ≡ r
    → Others a expiry es
    → (row k (replay es s).1 ≡ r) × NoneAccepted k es (replay es s).0
unfolding Calls.replay
stays k a r expiry own ends [] s e others = (e, tt)
stays k a r expiry own ends (x ∷ es) s e others =
    let (kept, refused) =
      refuses k a r expiry own ends x.key x.owner x.now x.request s e others.0.0 others.0.1 in
    let (last, rest) = stays k a r expiry own ends es (step x s).1 kept others.1 in
    (last, (refused, rest))

-- From a successful `acquire` of one owner until its lease runs out, whatever calls the other owners
-- make on any shards, none about this shard is accepted, and its row stays as the owner left it.
pub acquired_is_exclusive :
    (k : LeaseKey) (a : Text) (ttl now : ℕ) (s : MemoryLeaseStore) (es : List Event)
    → (memory.acquire k a ttl now s).0 ≡ ok true
    → Others a (now + ttl) es
    → let s' = (memory.acquire k a ttl now s).1 in
      (row k (replay es s').1 ≡ row k s') × NoneAccepted k es (replay es s').0
acquired_is_exclusive k a ttl now s es h others =
    let s' : MemoryLeaseStore = (memory.acquire k a ttl now s).1 in
    let taken : row k s' ≡ record (row k s) { owner = some a; expires = some (now + ttl) } =
      acquire-row k a ttl now s h in
    stays k a (row k s') (now + ttl) (ap (λ r. r.owner) taken) (ap (λ r. r.expires) taken) es s'
      refl others
