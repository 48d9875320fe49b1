-- ===== src/Tests/Cursor.antt =====
-- The cursors of cursor.rs at concrete positions.
use ruststream_kinesis.Prelude.{◌-◌, ◌^◌, ◌≡◌, refl, none, some, codes}
use ruststream_kinesis.Cursor.{
  timestamp, ShardStart, stream, at, after, opens, iterator_at, reopen_at,
}

-- The checkpoint wins over where the reader started.
checkpoint_wins :
    reopen_at (some (codes "7")) (some (codes "3")) (some (at (codes "1"))) opens none
    ≡ after (codes "7")
unfolding reopen_at
checkpoint_wins = refl

abbrev late : ShardStart
late = stream (timestamp (2 ^ 63))

abbrev later : ShardStart
later = stream (timestamp (2 ^ 64 - 1))

-- An instant past the largest `i64` is asked for as that one.
saturates : iterator_at late ≡ iterator_at later
unfolding iterator_at
saturates = refl
