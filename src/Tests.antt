-- ===== src/Tests.antt =====
-- Runs of the definitions, and the results at concrete inputs.
mod Track
mod Cursor
mod Leases
mod Links
mod Polls
mod Tables
mod Frames
mod Json
mod Brokers
mod Hosts
mod Envelopes
mod Settles
mod Streams
mod Readers
mod Seeks
mod Bus
mod Coordinators
mod Contexts
