-- ===== src/Subscriber/Seek.antt =====
-- `ShardSeeker` of subscriber.rs: a seek retires the generation of the shards it moves, and hands each
-- of their readers a command. The answer of a command comes later, at the place that it names.
pub mod Retire
use ruststream_kinesis.Prelude.{
  ℕ, ◌+◌, ◌%◌, Bool, true, false, Option, none, some, List, [], ◌∷◌, ◌++◌, Text, codes, get_or,
  get_elem?, set, if◌then◌else◌, Result, ok, err,
}
use ruststream_kinesis.Error.{KinesisError, read, not_connected}
use ruststream_kinesis.Track.{u64_mod}
use ruststream_kinesis.Cursor.{StreamStart, ShardStart, at}
use ruststream_kinesis.Message.{KinesisPosition, horizon, latest, timestamp, sequence}
use ruststream_kinesis.Subscriber.{ShardHandle, SeekState, handle, live, install}

pub record ShardSeek : Type 0 where
  pub start : ShardStart
  pub done : ℕ

pub record Hub : Type 0 where
  pub bus : SeekState
  pub gates : List ℕ  -- u64
  pub queues : List (Option (List ShardSeek))
  pub asked : ℕ  -- how many commands were ever made

-- `gate.fetch_add(1, ..)`
unfoldable pub bump : ℕ → List ℕ → List ℕ
bump gate gates = set gates gate ((get_or gates gate 0 + 1) % u64_mod)

-- `tx.send(..)`: `none` when the reader has dropped its end.
unfoldable pub send :
    ℕ → ShardSeek → List (Option (List ShardSeek)) → Option (List (Option (List ShardSeek)))
send tx seek queues = elim (get_or queues tx none) [
  | none ↦ none
  | some queue ↦ some (set queues tx (some (queue ++ seek ∷ [])))
]

abbrev shut_down : Text → KinesisError
shut_down shard = read [] shard (codes "the shard reader has shut down")

-- What the call waits for, and the hub after it.
unfoldable pub seek_shard : Text → ShardStart → Hub → Result KinesisError (List ℕ) × Hub
unfolding bump send
seek_shard shard start hub = elim (handle shard hub.bus) [
  | none ↦
      (err (read [] shard (codes "no live reader for this shard (not owned, or finished)")), hub)
  | some h ↦
      let gates' = bump h.gate hub.gates in
      elim (send h.tx (record { start = start; done = hub.asked }) hub.queues) [
        | none ↦ (err (shut_down shard), record hub { gates = gates' })
        | some queues' ↦ (
          ok (hub.asked ∷ []),
          record hub { gates = gates'; queues = queues'; asked = hub.asked + 1 },
        )
      ]
]

unfoldable pub bump_all : List ShardHandle → List ℕ → List ℕ
unfolding bump
bump_all [] gates = gates
bump_all (h ∷ handles) gates = bump_all handles (bump h.gate gates)

-- A reader that has gone needs no command.
unfoldable pub send_all : List ShardHandle → StreamStart → Hub → List ℕ × Hub
unfolding send
send_all [] start hub = ([], hub)
send_all (h ∷ handles) start hub =
    let skipped = send_all handles start hub in
    elim (send h.tx (record { start = ShardStart.stream start; done = hub.asked }) hub.queues) [
      | none ↦ skipped
      | some queues' ↦
          let (pending, hub') =
            send_all handles start (record hub { queues = queues'; asked = hub.asked + 1 }) in
          (hub.asked ∷ pending, hub')
    ]

unfoldable pub seek_stream : StreamStart → Hub → Result KinesisError (List ℕ) × Hub
unfolding bump_all send_all
seek_stream start hub =
    let bus' = install start hub.bus in
    let handles = live bus' in
    let (pending, hub') =
      send_all handles start (record hub { bus = bus'; gates = bump_all handles hub.gates }) in
    (ok pending, hub')

-- `ShardSeeker::seek`, until it waits; `open` is the answer of `ensure_open`.
unfoldable pub seek : Bool → KinesisPosition → Hub → Result KinesisError (List ℕ) × Hub
unfolding seek_shard seek_stream
seek false to hub = (err not_connected, hub)
seek true horizon hub = seek_stream StreamStart.horizon hub
seek true latest hub = seek_stream StreamStart.latest hub
seek true (timestamp millis) hub = seek_stream (StreamStart.timestamp millis) hub
seek true (sequence shard seq) hub = seek_shard shard (at seq) hub

-- The end of `seek_shard`: the reader's answer, or that it dropped the command.
unfoldable pub shard_answer : Text → Option (Result KinesisError Unit) → Result KinesisError Unit
shard_answer shard none = err (shut_down shard)
shard_answer shard (some outcome) = outcome

-- The end of `seek_stream`: the first error, in the order of the commands; a dropped one is none.
unfoldable pub stream_answer : List (Option (Result KinesisError Unit)) → Result KinesisError Unit
stream_answer [] = ok tt
stream_answer (some (err e) ∷ answers) = err e
stream_answer (_ ∷ answers) = stream_answer answers
