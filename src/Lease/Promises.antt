-- ===== src/Lease/Promises.antt =====
-- All that the trait `LeaseStore` of lease.rs promises: the contract of its writes, the answers of its
-- reads, and when a call refuses or fails.
use ruststream_kinesis.Prelude.{ℕ, ◌≤◌, ◌≡◌, ◌≢◌, false, some, Text, ok, err}
use ruststream_kinesis.Error.{LeaseError}
use ruststream_kinesis.Lease.{LeaseKey, LeaseState, LeaseStore}
use ruststream_kinesis.Lease.Calls.{Request, call}
use ruststream_kinesis.Lease.Contract.{Row, Contract, holds}

-- `Apart` are the keys of different rows, `Typed` the rows as the store writes them; `Fails` and `Unread` are the states in which a write and
-- a read of a key may fail.
pub record Promises {S : Type 0} (store : LeaseStore S) (row : LeaseKey → S → Row)
    (Apart : LeaseKey → LeaseKey → Type 0) (Typed Fails Unread : LeaseKey → S → Type 0)
    : Type 0 where
  pub contract : Contract store row
  -- No call on a shard's lease touches the row of another shard.
  pub frame :
      (k j : LeaseKey) (o : Text) (now : ℕ) (q : Request) (s : S)
      → Apart k j
      → row j (call store k o now q s).1 ≡ row j s
  -- A lease is refused only to another than its owner, and not once it has expired.
  pub acquire_denied :
      (k : LeaseKey) (o : Text) (ttl now : ℕ) (s : S)
      → Typed k s
      → (store.acquire k o ttl now s).0 ≡ ok false
      → (p : Text) × ((row k s).owner ≡ some p)
        × (p ≢ o)
        × ((e : ℕ) → (row k s).expires ≡ some e → now ≤ e)
  pub renew_denied :
      (k : LeaseKey) (o : Text) (ttl now : ℕ) (s : S)
      → (store.renew k o ttl now s).0 ≡ ok false
      → holds o (row k s).owner ≡ false
  pub checkpoint_denied :
      (k : LeaseKey) (o seq : Text) (s : S)
      → (store.checkpoint k o seq s).0 ≡ ok false
      → holds o (row k s).owner ≡ false
  pub record_opened_at_denied :
      (k : LeaseKey) (o seq : Text) (s : S)
      → (store.record_opened_at k o seq s).0 ≡ ok false
      → holds o (row k s).owner ≡ false
  -- A read answers the row's opening, and the checkpoint that the row has from then on: its own, where
  -- it had one.
  pub read_answered :
      (k : LeaseKey) (s : S) (state : LeaseState)
      → Typed k s
      → (store.read k s).0 ≡ ok state
      → (state.opened_at ≡ (row k s).opened_at)
        × (row k (store.read k s).1 ≡ record (row k s) { checkpoint = state.checkpoint })
        × ((c : Text) → (row k s).checkpoint ≡ some c → state.checkpoint ≡ some c)
  pub acquire_failed :
      (k : LeaseKey) (o : Text) (ttl now : ℕ) (s : S) (e : LeaseError)
      → (store.acquire k o ttl now s).0 ≡ err e
      → Fails k s
  pub renew_failed :
      (k : LeaseKey) (o : Text) (ttl now : ℕ) (s : S) (e : LeaseError)
      → (store.renew k o ttl now s).0 ≡ err e
      → Fails k s
  pub checkpoint_failed :
      (k : LeaseKey) (o seq : Text) (s : S) (e : LeaseError)
      → (store.checkpoint k o seq s).0 ≡ err e
      → Fails k s
  pub record_opened_at_failed :
      (k : LeaseKey) (o seq : Text) (s : S) (e : LeaseError)
      → (store.record_opened_at k o seq s).0 ≡ err e
      → Fails k s
  pub release_failed :
      (k : LeaseKey) (o : Text) (s : S) (e : LeaseError)
      → (store.release k o s).0 ≡ err e
      → Fails k s
  pub read_failed :
      (k : LeaseKey) (s : S) (e : LeaseError) → (store.read k s).0 ≡ err e → Unread k s
