-- ===== src/Subscriber/Parents.antt =====
-- `parents` of subscriber.rs: whether a shard's reader may start, from the checkpoints of its parents.
use ruststream_kinesis.Prelude.{
  ◌≡◌, refl, ◌≢◌, ◌⊎◌, inl, inr, Option, none, some, List, [], ◌∷◌, Text, str_eq, str_eq_iff,
  if◌then◌else◌, ok, err, Bool, true, false, ◌&&◌, Option-cases, Result-cases, ◌∙◌, arith,
}
use ruststream_kinesis.Cursor.{StreamStart}
use ruststream_kinesis.Lease.{LeaseKey, LeaseState, LeaseStore, shard_end}
use ruststream_kinesis.Subscriber.Service.{Shard}
use ruststream_kinesis.Subscriber.Listing.{is_closed}

pub data Parents : Type 0 where
  pending consumed skipped : Parents

-- `by_id`: the map of the listing by shard id, where a later shard replaces an earlier one.
unfoldable pub by_id : Text → List Shard → Option Shard
by_id id [] = none
by_id id (shard ∷ shards) = elim (by_id id shards) [
  | some later ↦ some later
  | none ↦ if str_eq shard.shard_id id then some shard else none
]

-- `matches!(bus.installed(), None | Some(StreamStart::Latest))`
unfoldable pub at_tip : Option StreamStart → Bool
at_tip none = true
at_tip (some StreamStart.latest) = true
at_tip (some _) = false

-- What one parent's checkpoint makes of the outcome so far; `none` is the early `Pending`.
unfoldable pub weigh : Option StreamStart → Shard → Parents → Option Text → Option Parents
unfolding is_closed at_tip
weigh start parent outcome none = if is_closed parent && at_tip start then some outcome else none
weigh start parent outcome (some checkpoint) =
    if str_eq checkpoint shard_end then some consumed else none

-- `into_iter().flatten()`
unfoldable pub parent_ids : Shard → List Text
parent_ids shard = elim shard.parent_shard_id [
  | none ↦ elim shard.adjacent_parent_shard_id [ none ↦ [] | some b ↦ b ∷ [] ]
  | some a ↦ elim shard.adjacent_parent_shard_id [ none ↦ a ∷ [] | some b ↦ a ∷ b ∷ [] ]
]

module _ {S : Type 0} (store : LeaseStore S) (start : Option StreamStart) (stream : Text)
    (shards : List Shard) where
  -- The loop over the parents.
  unfoldable pub parents_from : Parents → List Text → S → Parents × S
  unfolding by_id weigh
  parents_from outcome [] s = (outcome, s)
  parents_from outcome (id ∷ ids) s = elim (by_id id shards) [
    | none ↦ parents_from outcome ids s
    | some parent ↦
        let (answer, s') = store.read (record { stream = stream; shard = id }) s in
        elim answer [
          | err _ ↦ (pending, s')
          | ok state ↦ elim (weigh start parent outcome state.checkpoint) [
            | none ↦ (pending, s')
            | some outcome' ↦ parents_from outcome' ids s'
          ]
        ]
  ]

  unfoldable pub parents : Shard → S → Parents × S
  unfolding parents_from parent_ids
  parents shard s = parents_from skipped (parent_ids shard) s

  -- A parent leaves its child free to start: it was read to its end, or it is closed with no
  -- checkpoint while the subscription starts at the tip.
  abbrev pub Frees : Shard → LeaseState → Type 0
  Frees parent state =
      (state.checkpoint ≡ some shard_end)
      ⊎ ((state.checkpoint ≡ none) × (is_closed parent ≡ true) × (at_tip start ≡ true))

  -- Every parent that is still listed frees the child, as the store answers one read after the other.
  abbrev pub AllFree : List Text → S → Type 0
  AllFree [] s = Unit
  AllFree (id ∷ ids) s =
      ((by_id id shards ≡ none) × AllFree ids s)
      ⊎ ((parent : Shard) × (state : LeaseState) × (by_id id shards ≡ some parent)
          × ((store.read (record { stream = stream; shard = id }) s).0 ≡ ok state)
          × Frees parent state
          × AllFree ids (store.read (record { stream = stream; shard = id }) s).1)

  weigh-Frees :
      (parent : Shard) (outcome outcome' : Parents) (state : LeaseState)
      → weigh start parent outcome state.checkpoint ≡ some outcome'
      → Frees parent state
  unfolding weigh
  weigh-Frees parent outcome outcome' state e = elim (Option-cases state.checkpoint) [
    | inl unread ↦ inr (unread, ground arith, ground arith)
    | inr (checkpoint, at) ↦ inl (ground (arith, str_eq_iff checkpoint shard_end))
  ]

  -- A parent that passes.
  passes :
      (id : Text) (ids : List Text) (s : S) (outcome outcome' : Parents) (parent : Shard)
      (state : LeaseState)
      → by_id id shards ≡ some parent
      → (store.read (record { stream = stream; shard = id }) s).0 ≡ ok state
      → weigh start parent outcome state.checkpoint ≡ some outcome'
      → (parents_from outcome (id ∷ ids) s).0
        ≡ (parents_from outcome' ids (store.read (record { stream = stream; shard = id }) s).1).0
  unfolding parents_from
  passes id ids s outcome outcome' parent state listed answered passed =
      rw (listed, parents_from) (rw (answered, parents_from) (rw (passed, parents_from) refl))

  parents_from-free :
      (outcome : Parents) (ids : List Text) (s : S)
      → (parents_from outcome ids s).0 ≢ pending
      → AllFree ids s
  unfolding parents_from
  parents_from-free outcome [] s h = tt
  parents_from-free outcome (id ∷ ids) s h = elim (Option-cases (by_id id shards)) [
    | inl trimmed ↦
        inl (trimmed, parents_from-free outcome ids s (λ e. h (rw (trimmed, parents_from) e)))
    | inr (parent, listed) ↦
        let key : LeaseKey = record { stream = stream; shard = id } in
        elim (Result-cases (store.read key s).0) [
          | inl (state, answered) ↦
              elim (Option-cases (weigh start parent outcome state.checkpoint)) [
                | inl waits ↦ absurd (
                    h (
                      rw (listed, parents_from)
                        (rw (answered, parents_from) (rw (waits, parents_from) refl))))
                | inr (outcome', passed) ↦ inr (
                  parent,
                  state,
                  listed,
                  answered,
                  weigh-Frees parent outcome outcome' state passed,
                  parents_from-free outcome' ids (store.read key s).1 (λ e.
                      h (passes id ids s outcome outcome' parent state listed answered passed ∙ e)),
                )
              ]
          | inr (e, failed) ↦
              absurd (h (rw (listed, parents_from) (rw (failed, parents_from) refl)))
        ]
  ]

  -- A shard's reader may start only once every parent that the listing still has frees it, as the
  -- store answers for each: it was read to its end, or it is closed without a checkpoint on a
  -- subscription that starts at the tip.
  pub parents-AllFree :
      (shard : Shard) (s : S) → (parents shard s).0 ≢ pending → AllFree (parent_ids shard) s
  unfolding parents
  parents-AllFree shard s h = parents_from-free skipped (parent_ids shard) s h
