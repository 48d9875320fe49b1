-- ===== src/Cursor/Reopen.antt =====
-- Where the cursors of cursor.rs let a reader open, and what the service is asked for.
use ruststream_kinesis.Prelude.{
  ℕ, ◌≤◌, ◌≡◌, refl, ap, Bool-cases, ◌≢◌, ◌⊎◌, inl, inr, Option, none, some, Text, ltb, arith,
}
use ruststream_kinesis.Cursor.{
  StreamStart, horizon, timestamp, ShardStart, stream, at, after, Lineage, opens, iterator_at,
  to_i64, reopen_at, rewind_to, i64_max,
}

-- The one cursor that names another place each time it is fetched.
abbrev pub tip : ShardStart
tip = stream StreamStart.latest

-- A reader opens at the tip only on a shard with neither a checkpoint nor a recorded opening, whose
-- reader had not started anywhere but the tip, which does not continue a consumed parent, and
-- whose subscription asked for no other position.
pub reopen_at-tip :
    (checkpoint opened_at : Option Text) (rewind : Option ShardStart) (lineage : Lineage)
    (installed : Option StreamStart)
    → reopen_at checkpoint opened_at rewind lineage installed ≡ tip
    → (checkpoint ≡ none)
      × (opened_at ≡ none)
      × ((rewind ≡ some tip)
          ⊎ ((rewind ≡ none)
              × (lineage ≡ opens)
              × ((installed ≡ none) ⊎ (installed ≡ some StreamStart.latest))))
unfolding reopen_at
reopen_at-tip checkpoint opened_at rewind lineage installed h = ground arith

-- The place to read again from is the cursor itself, but for the tip, which has none; so a reader
-- that goes back to the place it kept never opens at the tip.
pub rewind_to-reopen_at :
    (start kept : ShardStart) (lineage : Lineage) (installed : Option StreamStart)
    → rewind_to start ≡ some kept
    → (kept ≡ start)
      × (kept ≢ tip)
      × (reopen_at none none (rewind_to start) lineage installed ≡ start)
unfolding rewind_to reopen_at
rewind_to-reopen_at (stream horizon) kept lineage installed h = (ground arith, ground arith, refl)
rewind_to-reopen_at (stream StreamStart.latest) kept lineage installed h = cc
rewind_to-reopen_at _ kept lineage installed h = (ground arith, ground arith, refl)

timestamps :
    (m n : ℕ)
    → to_i64 m ≡ to_i64 n
    → (stream (timestamp m) ≡ stream (timestamp n))
      ⊎ ((x y : ℕ) × (stream (timestamp m) ≡ stream (timestamp x))
          × (stream (timestamp n) ≡ stream (timestamp y))
          × (i64_max ≤ x)
          × (i64_max ≤ y))
timestamps m n h = elim (Bool-cases (ltb m i64_max)) [
  | inl small ↦ inl (ap (λ k. stream (timestamp k)) (ground arith))
  | inr large ↦ inr (m, n, refl, refl, ground arith, ground arith)
]

-- Two cursors ask the service for the same iterator only if they are one, or are two timestamps that
-- both lie at or past the largest instant of the request.
pub iterator_at-injective :
    (a b : ShardStart)
    → iterator_at a ≡ iterator_at b
    → (a ≡ b)
      ⊎ ((m n : ℕ) × (a ≡ stream (timestamp m))
          × (b ≡ stream (timestamp n))
          × (i64_max ≤ m)
          × (i64_max ≤ n))
unfolding iterator_at
iterator_at-injective (stream (timestamp m)) (stream (timestamp n)) h =
    timestamps m n (ground arith)
iterator_at-injective (stream StreamStart.latest) b h = inl (ground arith)
iterator_at-injective (stream horizon) b h = inl (ground arith)
iterator_at-injective (at s) b h = inl (ground arith)
iterator_at-injective (after s) b h = inl (ground arith)
iterator_at-injective (stream (timestamp m)) (stream StreamStart.latest) h = cc
iterator_at-injective (stream (timestamp m)) _ h = cc
