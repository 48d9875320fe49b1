-- ===== src/Lease/Calls.antt =====
-- Calls of any callers on a lease store of lease.rs, in order.
use ruststream_kinesis.Prelude.{ℕ, Bool, false, List, [], ◌∷◌, Text, Result, ok, err}
use ruststream_kinesis.Error.{LeaseError}
use ruststream_kinesis.Lease.{LeaseKey, LeaseStore}

pub data Request : Type 0 where
  acquires renews : ℕ → Request  -- the lease's length
  checkpoints opens : Text → Request
  reads releases : Request

-- One call on the store: who calls, about which shard, and when.
pub record Event : Type 0 where
  pub key : LeaseKey
  pub owner : Text
  pub now : ℕ
  pub request : Request

-- What the caller learns: whether its claim to the lease was accepted. `read` and `release` claim
-- nothing.
abbrev pub accepted : Result LeaseError Bool → Bool
accepted (ok b) = b
accepted (err e) = false

module _ {S : Type 0} (store : LeaseStore S) where
  unfoldable pub call : LeaseKey → Text → ℕ → Request → S → Bool × S
  call k o now (acquires ttl) s = let (r, s') = store.acquire k o ttl now s in (accepted r, s')
  call k o now (renews ttl) s = let (r, s') = store.renew k o ttl now s in (accepted r, s')
  call k o now (checkpoints seq) s = let (r, s') = store.checkpoint k o seq s in (accepted r, s')
  call k o now (opens seq) s = let (r, s') = store.record_opened_at k o seq s in (accepted r, s')
  call k o now reads s = (false, (store.read k s).1)
  call k o now releases s = (false, (store.release k o s).1)

  unfoldable pub replay : List Event → S → List Bool × S
  replay [] s = ([], s)
  replay (e ∷ es) s =
      let (b, s') = call e.key e.owner e.now e.request s in
      let (bs, last) = replay es s' in (b ∷ bs, last)
