-- ===== src/Lease/Memory/Laws.antt =====
-- `MemoryLeaseStore` of lease.rs beside the contract of the trait.
use ruststream_kinesis.Prelude.{ℕ, ◌+◌, ◌≡◌, ◌≢◌, refl, some, true, Text, str_eq_iff, ok, arith}
use ruststream_kinesis.Lease.{LeaseKey}
use ruststream_kinesis.Lease.Key.{key_eq_iff, key_eq_refl}
use ruststream_kinesis.Lease.Contract.{Contract, holds}
use ruststream_kinesis.Lease.Memory.{
  MemoryLease, MemoryLeaseStore, memory, with_lease, acquire_lease, renew_lease, checkpoint_lease,
  record_opened_at_lease, release_lease,
}
use ruststream_kinesis.Lease.Memory.Rows.{row, with_lease-answer, row-with_lease}

module _ {R : Type 0} (k : LeaseKey) (f : MemoryLease → R × MemoryLease)
    (s : MemoryLeaseStore) where
  pub own-row : row k (with_lease k f s).1 ≡ (f (row k s)).1
  own-row = rw (row-with_lease k f s k, key_eq_refl k)

  -- A call on one shard's lease leaves the row of every other shard as it was.
  pub with_lease-frame : (j : LeaseKey) → k ≢ j → row j (with_lease k f s).1 ≡ row j s
  with_lease-frame j ne = ground (arith, row-with_lease k f s j, key_eq_iff k j)

  pub answered : {r : R} → (with_lease k f s).0 ≡ ok r → (f (row k s)).0 ≡ r
  answered h = cc (with_lease-answer k f s)

pub acquire-row :
    (k : LeaseKey) (o : Text) (ttl now : ℕ) (s : MemoryLeaseStore)
    → (memory.acquire k o ttl now s).0 ≡ ok true
    → row k (memory.acquire k o ttl now s).1
      ≡ record (row k s) { owner = some o; expires = some (now + ttl) }
unfolding acquire_lease
acquire-row k o ttl now s h =
    ground (
      arith,
      own-row k (acquire_lease o ttl now) s,
      with_lease-answer k (acquire_lease o ttl now) s,
    )

renew-row :
    (k : LeaseKey) (o : Text) (ttl now : ℕ) (s : MemoryLeaseStore)
    → (memory.renew k o ttl now s).0 ≡ ok true
    → (holds o (row k s).owner ≡ true)
      × (row k (memory.renew k o ttl now s).1 ≡ record (row k s) { expires = some (now + ttl) })
unfolding renew_lease
renew-row k o ttl now s h =
    ground
      (arith, own-row k (renew_lease o ttl now) s, with_lease-answer k (renew_lease o ttl now) s)

-- The in-process store keeps the contract of the trait.
pub memory-Contract : Contract memory row
unfolding acquire_lease renew_lease checkpoint_lease record_opened_at_lease release_lease
memory-Contract = record {
  acquire_taken = λ k o ttl now s h. (now + ttl, acquire-row k o ttl now s h, λ _. refl);
  acquire_live = λ k o p ttl now e s own ne live h taken.
      ground (arith, with_lease-answer k (acquire_lease o ttl now) s, str_eq_iff p o);
  renew_taken = λ k o ttl now s h.
      let (held, written) = renew-row k o ttl now s h in (now + ttl, held, written, λ _. refl);
  checkpoint_taken = λ k o seq s h.
      ground (
        arith,
        own-row k (checkpoint_lease o seq) s,
        with_lease-answer k (checkpoint_lease o seq) s,
      );
  record_opened_at_taken = λ k o seq s h. ground (
    arith,
    own-row k (record_opened_at_lease o seq) s,
    with_lease-answer k (record_opened_at_lease o seq) s,
  );
  acquire_refused = λ k o ttl now s h. ground (
    arith,
    own-row k (acquire_lease o ttl now) s,
    with_lease-answer k (acquire_lease o ttl now) s,
  );
  renew_refused = λ k o ttl now s h.
      ground
        (arith, own-row k (renew_lease o ttl now) s, with_lease-answer k (renew_lease o ttl now) s);
  checkpoint_refused = λ k o seq s h.
      ground (
        arith,
        own-row k (checkpoint_lease o seq) s,
        with_lease-answer k (checkpoint_lease o seq) s,
      );
  record_opened_at_refused = λ k o seq s h. ground (
    arith,
    own-row k (record_opened_at_lease o seq) s,
    with_lease-answer k (record_opened_at_lease o seq) s,
  );
  checkpoint_failed = λ k o seq s e h.
      ground (
        arith,
        own-row k (checkpoint_lease o seq) s,
        with_lease-answer k (checkpoint_lease o seq) s,
      );
  release_keeps = λ k o s. ground (arith, own-row k (release_lease o) s);
  release_released = λ k o s h.
      ground (arith, own-row k (release_lease o) s, with_lease-answer k (release_lease o) s);
}
