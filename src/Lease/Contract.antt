-- ===== src/Lease/Contract.antt =====
-- What the trait `LeaseStore` of lease.rs promises of its writes, over a view of each shard's lease row.
-- The settlements and the readers use no more of a store than this.
use ruststream_kinesis.Prelude.{
  ℕ, ◌+◌, ◌<◌, ◌^◌, ◌≡◌, ◌≢◌, ◌⊎◌, Bool, true, false, Option, none, some, Text, str_eq,
  if◌then◌else◌, ok, err,
}
use ruststream_kinesis.Error.{LeaseError}
use ruststream_kinesis.Lease.{LeaseKey, LeaseStore}

pub record Row : Type 0 where
  pub owner : Option Text
  pub expires : Option ℕ
  pub checkpoint : Option Text
  pub opened_at : Option Text

-- `row.owner == Some(owner)`
unfoldable pub holds : Text → Option Text → Bool
holds owner none = false
holds owner (some current) = str_eq current owner

-- An expiry is a 64-bit number of milliseconds.
pub record Contract {S : Type 0} (store : LeaseStore S) (row : LeaseKey → S → Row) : Type 0 where
  pub acquire_taken :
      (k : LeaseKey) (o : Text) (ttl now : ℕ) (s : S)
      → (store.acquire k o ttl now s).0 ≡ ok true
      → (e : ℕ) × (row k (store.acquire k o ttl now s).1
          ≡ record (row k s) { owner = some o; expires = some e })
        × (now + ttl < 2 ^ 64 → e ≡ now + ttl)
  pub acquire_live :
      (k : LeaseKey) (o p : Text) (ttl now e : ℕ) (s : S)
      → (row k s).owner ≡ some p
      → p ≢ o
      → (row k s).expires ≡ some e
      → now < e
      → (store.acquire k o ttl now s).0 ≢ ok true
  pub renew_taken :
      (k : LeaseKey) (o : Text) (ttl now : ℕ) (s : S)
      → (store.renew k o ttl now s).0 ≡ ok true
      → (e : ℕ) × (holds o (row k s).owner ≡ true)
        × (row k (store.renew k o ttl now s).1 ≡ record (row k s) { expires = some e })
        × (now + ttl < 2 ^ 64 → e ≡ now + ttl)
  pub checkpoint_taken :
      (k : LeaseKey) (o seq : Text) (s : S)
      → (store.checkpoint k o seq s).0 ≡ ok true
      → (holds o (row k s).owner ≡ true)
        × (row k (store.checkpoint k o seq s).1 ≡ record (row k s) { checkpoint = some seq })
  pub record_opened_at_taken :
      (k : LeaseKey) (o seq : Text) (s : S)
      → (store.record_opened_at k o seq s).0 ≡ ok true
      → (holds o (row k s).owner ≡ true)
        × (row k (store.record_opened_at k o seq s).1 ≡ record (row k s) { opened_at = some seq })
  pub acquire_refused :
      (k : LeaseKey) (o : Text) (ttl now : ℕ) (s : S)
      → (store.acquire k o ttl now s).0 ≡ ok false
      → row k (store.acquire k o ttl now s).1 ≡ row k s
  pub renew_refused :
      (k : LeaseKey) (o : Text) (ttl now : ℕ) (s : S)
      → (store.renew k o ttl now s).0 ≡ ok false
      → row k (store.renew k o ttl now s).1 ≡ row k s
  pub checkpoint_refused :
      (k : LeaseKey) (o seq : Text) (s : S)
      → (store.checkpoint k o seq s).0 ≡ ok false
      → row k (store.checkpoint k o seq s).1 ≡ row k s
  pub record_opened_at_refused :
      (k : LeaseKey) (o seq : Text) (s : S)
      → (store.record_opened_at k o seq s).0 ≡ ok false
      → row k (store.record_opened_at k o seq s).1 ≡ row k s
  -- A checkpoint that failed may still have been written.
  pub checkpoint_failed :
      (k : LeaseKey) (o seq : Text) (s : S) (e : LeaseError)
      → (store.checkpoint k o seq s).0 ≡ err e
      → (row k (store.checkpoint k o seq s).1 ≡ row k s)
        ⊎ (row k (store.checkpoint k o seq s).1 ≡ record (row k s) { checkpoint = some seq })
  pub release_released :
      (k : LeaseKey) (o : Text) (s : S)
      → (store.release k o s).0 ≡ ok tt
      → row k (store.release k o s).1 ≡ (
          if holds o (row k s).owner
          then record (row k s) { owner = none; expires = none }
          else row k s)
  pub release_keeps :
      (k : LeaseKey) (o : Text) (s : S)
      → (row k (store.release k o s).1).checkpoint ≡ (row k s).checkpoint
