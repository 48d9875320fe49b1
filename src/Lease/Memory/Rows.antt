-- ===== src/Lease/Memory/Rows.antt =====
-- The row of a key in `MemoryLeaseStore` of lease.rs, across a call of `with_lease`.
use mathlib.Core.Option
use ruststream_kinesis.Prelude.{
  ◌≡◌, refl, some, List, [], ◌∷◌, if◌then◌else◌, Option-cases, inl, inr, arith, ok,
}
use ruststream_kinesis.Lease.{LeaseKey, key_eq}
use ruststream_kinesis.Lease.Key.{key_eq_iff}
use ruststream_kinesis.Lease.Memory.{MemoryLease, MemoryLeaseStore, default, get, put, with_lease}

get-put :
    (k j : LeaseKey) (lease : MemoryLease) (leases : List (LeaseKey × MemoryLease))
    → get j (put k lease leases) ≡ (if key_eq k j then some lease else get j leases)
unfolding get put
get-put k j lease [] = refl
get-put k j lease ((i, old) ∷ leases) =
    ground (arith, key_eq_iff i k, key_eq_iff i j, key_eq_iff k j, get-put k j lease leases)

-- The row of a key: a key that is not there reads as the default lease.
unfoldable pub row : LeaseKey → MemoryLeaseStore → MemoryLease
row k s = Option.get_or (get k s.leases) default

module _ {R : Type 0} (k : LeaseKey) (f : MemoryLease → R × MemoryLease)
    (s : MemoryLeaseStore) where
  pub with_lease-answer : (with_lease k f s).0 ≡ ok (f (row k s)).0
  unfolding with_lease row
  with_lease-answer = ground arith

  pub row-with_lease :
      (j : LeaseKey)
      → row j (with_lease k f s).1 ≡ (if key_eq k j then (f (row k s)).1 else row j s)
  unfolding with_lease row
  row-with_lease j = elim (Option-cases (get k s.leases)) [
    | inl absent ↦ rw (absent, with_lease) (ground (arith, get-put k j (f default).1 s.leases))
    | inr (lease, present) ↦
        rw (present, with_lease) (ground (arith, get-put k j (f lease).1 s.leases))
  ]
