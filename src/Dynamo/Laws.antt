-- ===== src/Dynamo/Laws.antt =====
-- The lease store of dynamo.rs beside the contract of the trait, over a table that does what the
-- documentation of DynamoDB says.
use ruststream_kinesis.Prelude.{
  ℕ, ◌+◌, ◌<◌, ◌^◌, ◌≡◌, ◌≢◌, ◌⊎◌, inl, inr, refl, ap, sym, ◌∙◌, true, false, none, some, List, [],
  ◌∷◌, Text, str_eq, Bool-cases, Result-cases, if◌then◌else◌, ok, arith,
}
use ruststream_kinesis.Lease.{LeaseKey}
use ruststream_kinesis.Lease.Contract.{Row, Contract, holds}
use ruststream_kinesis.Dynamo.{
  AttributeValue, Item, Condition, Clause, assign, remove, Service, DynamoLeaseStore, owner_name,
  expiry_name, checkpoint_name, opened_at_name, bump, text_of, owned, acquirable, expiry_at, update,
  acquire, renew, checkpoint, record_opened_at, release, dynamo,
}
use ruststream_kinesis.Dynamo.Documented.{performed, updated, Documented}
use ruststream_kinesis.Dynamo.Views.{
  view, at_key, row, met-owned, acquirable-live, update-accepted, update-refused, update_either,
}

-- The rows that the five updates make.
module _ (i : Item) where
  view-acquire :
      (o : Text) (e : ℕ)
      → view (
          updated
            (assign owner_name (AttributeValue.string o)
              ∷ assign expiry_name (AttributeValue.number e)
              ∷ bump
              ∷ [])
            i)
        ≡ record (view i) { owner = some o; expires = some e }
  unfolding view updated performed str_eq text_of
  view-acquire o e = refl

  view-renew :
      (e : ℕ)
      → view (updated (assign expiry_name (AttributeValue.number e) ∷ bump ∷ []) i)
        ≡ record (view i) { expires = some e }
  unfolding view updated performed str_eq text_of
  view-renew e = refl

  pub view-checkpoint :
      (seq : Text)
      → view (updated (assign checkpoint_name (AttributeValue.string seq) ∷ bump ∷ []) i)
        ≡ record (view i) { checkpoint = some seq }
  unfolding view updated performed str_eq text_of
  view-checkpoint seq = refl

  view-record_opened_at :
      (seq : Text)
      → view (updated (assign opened_at_name (AttributeValue.string seq) ∷ bump ∷ []) i)
        ≡ record (view i) { opened_at = some seq }
  unfolding view updated performed str_eq text_of
  view-record_opened_at seq = refl

  view-release :
      view (updated (remove owner_name ∷ remove expiry_name ∷ bump ∷ []) i)
      ≡ record (view i) { owner = none; expires = none }
  unfolding view updated performed str_eq text_of
  view-release = refl

expiry_at_lem : (ttl now : ℕ) → now + ttl < 2 ^ 64 → expiry_at ttl now ≡ now + ttl
unfolding expiry_at
expiry_at_lem ttl now h = omega arith

module _ {S : Type 0} (service : Service S) (store : DynamoLeaseStore)
    (item : Text → Text → S → Item) (laws : Documented service item) where
  -- An accepted update of the owner's: the owner held the lease, and the row is the updated one.
  module _ (k : LeaseKey) (o : Text) (u : List Clause) (s : S) (after : Row)
      (updates : view (updated u (at_key store item k s)) ≡ after) where
    owned-accepted :
        (update service store k (owned o) u s).0 ≡ ok true
        → (holds o (row store item k s).owner ≡ true)
          × (row store item k (update service store k (owned o) u s).1 ≡ after)
    unfolding row
    owned-accepted h =
        let (held, _, w) = update-accepted service store item laws k (owned o) u s h in
        (sym (met-owned (at_key store item k s) o) ∙ held, ap view w ∙ updates)

    owned_either :
        (row store item k (update service store k (owned o) u s).1 ≡ row store item k s)
        ⊎ (row store item k (update service store k (owned o) u s).1 ≡ after)
    unfolding row
    owned_either = elim (update_either service store item laws k (owned o) u s) [
      | inl same ↦ inl (ap view same)
      | inr (_, _, w) ↦ inr (ap view w ∙ updates)
    ]

  row-refused :
      (k : LeaseKey) (c : Condition) (u : List Clause) (s : S)
      → (update service store k c u s).0 ≡ ok false
      → row store item k (update service store k c u s).1 ≡ row store item k s
  unfolding row
  row-refused k c u s h = ap view (update-refused service store item laws k c u s h).1

  release-row :
      (k : LeaseKey) (o : Text) (s : S)
      → (release service store k o s).0 ≡ ok tt
      → row store item k (release service store k o s).1 ≡ (
          if holds o (row store item k s).owner
          then record (row store item k s) { owner = none; expires = none }
          else row store item k s)
  unfolding release row view
  release-row k o s h =
      let u : List Clause = remove owner_name ∷ remove expiry_name ∷ bump ∷ [] in
      elim (Result-cases (update service store k (owned o) u s).0) [
        | inr (e, failed) ↦ ground arith
        | inl (b, answered) ↦ elim (Bool-cases b) [
          | inl t ↦
              let (held, new) =
                owned-accepted k o u s _ (view-release (at_key store item k s))
                  (answered ∙ ap ok t) in
              rw held new
          | inr f ↦
              let lost =
                sym (met-owned (at_key store item k s) o)
                ∙ (update-refused service store item laws k (owned o) u s (answered ∙ ap ok f)).0 in
              rw lost (row-refused k (owned o) u s (answered ∙ ap ok f))
        ]
      ]

  release-checkpoint :
      (k : LeaseKey) (o : Text) (s : S)
      → (row store item k (release service store k o s).1).checkpoint
        ≡ (row store item k s).checkpoint
  unfolding release row view
  release-checkpoint k o s =
      elim (owned_either k o (remove owner_name ∷ remove expiry_name ∷ bump ∷ []) s _
        (view-release (at_key store item k s))) [
          | inl same ↦ ap (λ r. r.checkpoint) same
          | inr new ↦ ap (λ r. r.checkpoint) new
        ]

  acquire_taken_lem :
      (k : LeaseKey) (o : Text) (ttl now : ℕ) (s : S)
      → (acquire service store k o ttl now s).0 ≡ ok true
      → row store item k (acquire service store k o ttl now s).1
        ≡ record (row store item k s) { owner = some o; expires = some (expiry_at ttl now) }
  unfolding acquire row
  acquire_taken_lem k o ttl now s h =
      ap view (update-accepted service store item laws k (acquirable o now) _ s h).2
      ∙ view-acquire (at_key store item k s) o (expiry_at ttl now)

  acquire_live_lem :
      (k : LeaseKey) (o p : Text) (ttl now e : ℕ) (s : S)
      → (row store item k s).owner ≡ some p
      → p ≢ o
      → (row store item k s).expires ≡ some e
      → now < e
      → (acquire service store k o ttl now s).0 ≢ ok true
  unfolding acquire row
  acquire_live_lem k o p ttl now e s own ne live h taken =
      let can = (update-accepted service store item laws k (acquirable o now) _ s taken).0 in
      let cannot = acquirable-live (at_key store item k s) o p now e own ne live h in cc

  -- Over a service that does what the documentation of DynamoDB says, the store keeps the contract
  -- of the trait.
  pub dynamo-Contract : Contract (dynamo service store) (row store item)
  unfolding acquire renew checkpoint record_opened_at row view
  dynamo-Contract = record {
    acquire_taken = λ k o ttl now s h.
        (expiry_at ttl now, acquire_taken_lem k o ttl now s h, expiry_at_lem ttl now);
    acquire_live = acquire_live_lem;
    renew_taken = λ k o ttl now s h.
        let (held, w) =
          owned-accepted k o _ s _ (view-renew (at_key store item k s) (expiry_at ttl now)) h in
        (expiry_at ttl now, held, w, expiry_at_lem ttl now);
    checkpoint_taken =
        λ k o seq s h. owned-accepted k o _ s _ (view-checkpoint (at_key store item k s) seq) h;
    record_opened_at_taken = λ k o seq s h.
        owned-accepted k o _ s _ (view-record_opened_at (at_key store item k s) seq) h;
    acquire_refused = λ k o ttl now s h. row-refused k (acquirable o now) _ s h;
    renew_refused = λ k o ttl now s h. row-refused k (owned o) _ s h;
    checkpoint_refused = λ k o seq s h. row-refused k (owned o) _ s h;
    record_opened_at_refused = λ k o seq s h. row-refused k (owned o) _ s h;
    checkpoint_failed =
        λ k o seq s e h. owned_either k o _ s _ (view-checkpoint (at_key store item k s) seq);
    release_released = release-row;
    release_keeps = release-checkpoint;
  }
