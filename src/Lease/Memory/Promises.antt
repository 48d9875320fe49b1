-- ===== src/Lease/Memory/Promises.antt =====
-- `MemoryLeaseStore` of lease.rs beside all that the trait promises.
use ruststream_kinesis.Prelude.{◌≡◌, true, false}
use ruststream_kinesis.Lease.{LeaseKey}
use ruststream_kinesis.Lease.Promises.{Promises}
use ruststream_kinesis.Lease.Memory.{MemoryLeaseStore}

abbrev pub Always : LeaseKey → MemoryLeaseStore → Type 0
Always k s = true ≡ true

abbrev pub Never : LeaseKey → MemoryLeaseStore → Type 0
Never k s = true ≡ false
