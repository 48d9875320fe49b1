-- ===== src/Subscriber/Turn/Gap.antt =====
-- Where a seek may land in a turn of `read_shard` of subscriber.rs: before the epoch of the next batch is
-- loaded, the commands in the channel having been taken already, or after it.
use ruststream_kinesis.Prelude.{
  ℕ, suc, ◌+◌, ◌%◌, ◌<◌, ◌≡◌, refl, subst, Text, ap, ◌∙◌, inl, inr, Bool, true, false, none, some,
  Option, List, [], ◌∷◌, ◌++◌, ◌==◌, ==_iff, length, get_or, get_or-set, ok, Bool-cases, arith, All,
  not, ◌&&◌,
}
use ruststream_kinesis.Lease.{LeaseStore}
use ruststream_kinesis.Track.{u64_mod}
use ruststream_kinesis.Track.Refinement.{Log}
use ruststream_kinesis.Message.{gate_at}
use ruststream_kinesis.Subscriber.{current, is_current}
use ruststream_kinesis.Subscriber.Seek.{bump, ShardSeek}
use ruststream_kinesis.Subscriber.Service.{Service, Record, Output}
use ruststream_kinesis.Subscriber.Reader.{Scene, Reader, Post, goes, is_aggregated, hand_out_all}
use ruststream_kinesis.Subscriber.Reader.Items.{items, Follows, Batch}
use ruststream_kinesis.Subscriber.Reader.Batch.{hand_out_all-Batch}
use ruststream_kinesis.Subscriber.Turn.{Input, idle, finish, wait, advance, read_batch}
use ruststream_kinesis.Subscriber.Turn.Ends.{scene_of, apply_shard_seek-out}

-- An item of a batch is handed on by the subscriber exactly if its epoch is that of the gate.
items-current :
    (post : Post) (epoch place n : ℕ) (records : List Record) (gates : List ℕ) (b : Bool)
    → (epoch == get_or gates post.gate 0) ≡ b
    → All (λ item. current item gates ≡ b) (items post epoch place n records)
unfolding items is_current
items-current post epoch place n [] gates b h = tt
items-current post epoch place n (rec ∷ records) gates b h =
    elim (Bool-cases (is_aggregated rec.content)) [
      | inl refused ↦ rw refused (h, items-current post epoch place n records gates b h)
      | inr plain ↦ rw plain (h, items-current post epoch place (suc n) records gates b h)
    ]

module _ {V S : Type 0} (service : Service V) (store : LeaseStore S) (post : Post) where
  -- A seek raises the reader's gate; its command waits in the channel.
  abbrev pub sought : Scene V S → Scene V S
  sought w = record w { world = record w.world { gates = bump post.gate w.world.gates } }

  -- The service has answered the read.
  abbrev pub read_on : Input → Reader → Scene V S → Scene V S
  read_on input r w = record w {
    service = (service.get_records r.iterator input.limit w.service).1;
  }

  wait-out : (r : Reader) (w : Scene V S) → (scene_of (wait service store post r w)).out ≡ w.out
  unfolding wait finish
  wait-out r w = ground arith

  idle-out :
      (seek : Option ShardSeek) (r : Reader) (w : Scene V S)
      → (scene_of (idle service store post seek r w)).out ≡ w.out
  unfolding idle
  idle-out none r w = refl
  idle-out (some seek) r w = apply_shard_seek-out service store post seek r w

  advance-out :
      (input : Input) (empty : Bool) (next : Option Text) (r : Reader) (w : Scene V S)
      → (scene_of (advance service store post input empty next r w)).out ≡ w.out
  unfolding advance
  advance-out input empty none r w = wait-out r w
  advance-out input empty (some next) r w = elim (Bool-cases (empty && not w.closed)) [
    | inl idles ↦ rw idles (idle-out input.idle_seek (record r { iterator = next }) w)
    | inr goes_on ↦ rw goes_on refl
  ]

  -- The batch that the reader gets through is in the channel, under the epoch that was loaded.
  read_batch-items :
      (input : Input) (output : Output) (r r1 : Reader) (w w1 : Scene V S) (l : Log)
      → Follows service store post r w l
      → length l + length output.records < u64_mod
      → (service.get_records r.iterator input.limit w.service).0 ≡ ok output
      → hand_out_all service store post
          (gate_at w.world post.gate)
          output.records
          (record r { failures = 0 })
          (read_on input r w)
        ≡ goes r1 w1
      → (scene_of (read_batch service store post input r w)).out
        ≡ w.out ++ items post (gate_at w.world post.gate) r.tracker (length l) output.records
  unfolding read_batch
  read_batch-items input output r r1 w w1 l follows fits answered through =
      let epoch = gate_at w.world post.gate in
      let batch = subst (Batch service store post epoch output.records r.tracker w.out l) through (
        hand_out_all-Batch service store post epoch output.records (record r { failures = 0 })
          (read_on input r w) l follows fits) in
      rw (answered, read_batch)
        (rw through (advance-out input _ output.next_shard_iterator r1 w1 ∙ batch.1))

  raised-differs : (e : ℕ) → e < u64_mod → (e == (e + 1) % u64_mod) ≡ false
  raised-differs e h = ground arith

  -- Where a seek lands decides what becomes of a batch that the reader gets through, which it reads with
  -- the iterator from before the seek's command. The load of the epoch is the line: of a seek that
  -- raises the gate before it, though its command waits for the next turn, every item of the batch is
  -- handed on by the subscriber; of one that raises it after the load, none is.
  pub read_batch-sought :
      (input : Input) (output : Output) (r r1 : Reader) (w w1 : Scene V S) (l : Log)
      → Follows service store post r w l
      → length l + length output.records < u64_mod
      → post.gate < length w.world.gates
      → gate_at w.world post.gate < u64_mod
      → (service.get_records r.iterator input.limit w.service).0 ≡ ok output
      → hand_out_all service store post
          (gate_at (sought w).world post.gate)
          output.records
          (record r { failures = 0 })
          (read_on input r (sought w))
        ≡ goes r1 w1
      → let early =
          items post (gate_at (sought w).world post.gate) r.tracker (length l) output.records in
        let late = items post (gate_at w.world post.gate) r.tracker (length l) output.records in
        ((scene_of (read_batch service store post input r (sought w))).out ≡ w.out ++ early)
        × All (λ item. current item (sought w).world.gates ≡ true) early
        × All (λ item. current item (sought w).world.gates ≡ false) late
  unfolding bump
  read_batch-sought input output r r1 w w1 l follows fits gated small answered through =
      let gates' = (sought w).world.gates in
      let epoch = gate_at w.world post.gate in
      let up : get_or gates' post.gate 0 ≡ (epoch + 1) % u64_mod =
        ground (arith, get_or-set w.world.gates post.gate post.gate ((epoch + 1) % u64_mod) 0) in
      (
        read_batch-items input output r r1 (sought w) w1 l follows fits answered through,
        items-current post (get_or gates' post.gate 0) r.tracker (length l) output.records gates'
            true ((==_iff _ _).1 refl),
        items-current post epoch r.tracker (length l) output.records gates' false
            (ap (λ g. epoch == g) up ∙ raised-differs epoch small),
      )
