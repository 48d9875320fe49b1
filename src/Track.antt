-- ===== src/Track.antt =====
-- crates/ruststream-kinesis/src/track.rs: the per-shard watermark, which turns acknowledgements in
-- any order into a checkpoint over a contiguous run of deliveries. The `BTreeMap` is the list of its
-- entries in ascending order of the key; the mutex makes each method one step.
pub mod Refinement
pub mod Checkpoint
use ruststream_kinesis.Prelude.{
  ℕ, ◌+◌, ◌%◌, ◌^◌, Bool, true, false, Option, none, some, List, [], ◌∷◌, Text, ltb, ◌==◌,
  if◌then◌else◌,
}

abbrev pub u64_mod : ℕ
u64_mod = 2 ^ 64

pub record Entry : Type 0 where
  pub index : ℕ
  pub sequence : Text
  pub done : Bool

pub record Watermark : Type 0 where
  pub pending : List Entry
  pub next_index : ℕ  -- u64

-- `Watermark::default`
abbrev pub default : Watermark
default = record { pending = []; next_index = 0 }

-- `BTreeMap::insert`: a key that is there gets the new value.
insert : Entry → List Entry → List Entry
insert e [] = e ∷ []
insert e (x ∷ xs) =
    if ltb x.index e.index
    then x ∷ insert e xs
    else if x.index == e.index
    then e ∷ xs
    else e ∷ x ∷ xs

unfoldable pub deliver : Text → Watermark → ℕ × Watermark
unfolding insert
deliver sequence w = (
  w.next_index,
  record {
    pending = insert (record { index = w.next_index; sequence = sequence; done = false }) w.pending;
    next_index = (w.next_index + 1) % u64_mod;
  },
)

-- `get_mut(&index)`, and `entry.1 = true`
mark : ℕ → List Entry → List Entry
mark i [] = []
mark i (x ∷ xs) = if x.index == i then record x { done = true } ∷ xs else x ∷ mark i xs

-- The `while` over `first_key_value`: done entries leave from the front, the last one is kept.
advance : Option Text → List Entry → Option Text × List Entry
advance advanced [] = (advanced, [])
advance advanced (x ∷ xs) =
    let rest = advance (some x.sequence) xs in if x.done then rest else (advanced, x ∷ xs)

unfoldable pub settle : ℕ → Watermark → Option Text × Watermark
unfolding mark advance
settle index w =
    let (advanced, rest) = advance none (mark index w.pending) in
    (advanced, record w { pending = rest })

unfoldable pub drained : Watermark → Bool
drained w = elim w.pending [ [] ↦ true | _ ∷ _ ↦ false ]
