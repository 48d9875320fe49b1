-- ===== src/Dynamo/Failures.antt =====
-- When a call of the lease store of dynamo.rs fails.
use ruststream_kinesis.Prelude.{
  ◌≡◌, ◌⊎◌, inl, inr, refl, ap, sym, ◌∙◌, true, false, Option, none, some, List, [], ◌∷◌, Text,
  Bool-cases, Option-cases, Result-cases, err, arith,
}
use ruststream_kinesis.Error.{LeaseError}
use ruststream_kinesis.Lease.{LeaseKey}
use ruststream_kinesis.Dynamo.{
  Item, Condition, Clause, failed, Service, DynamoLeaseStore, row_key, checkpoint_name, item,
  read_bare, claimed, read, foreign, checkpoint_of, text_of, opened_at_name, remove, owner_name,
  expiry_name, bump, owned, update, answer, release, adopt, adopted,
}
use ruststream_kinesis.Dynamo.Documented.{Documented}
use ruststream_kinesis.Dynamo.Views.{view, row, Outcome-cases}
use ruststream_kinesis.Dynamo.Adoption.{checkpoint_not_key, item-text, own-text}
use ruststream_kinesis.Dynamo.Resume.{resume, settled-bare}

module _ {S : Type 0} (service : Service S) (store : DynamoLeaseStore) where
  -- A write of the row of a key fails.
  abbrev pub Fails : LeaseKey → S → Type 0
  Fails k s =
      (c : Condition) × (u : List Clause) × (text : Text) × ((service.update_item store.table
          (row_key k) c u s).0
        ≡ failed text)

  -- A read of an item fails in some state, or a write of a row.
  abbrev pub Interrupted : Type 0
  Interrupted =
      ((t : Text) × (s : S) × (text : Text) × ((service.get_item store.table t s).0 ≡ err text))
      ⊎ ((k : LeaseKey) × (s : S) × Fails k s)

  -- The only checkpoint is that of a bare row, in a table that names no stream for its bare rows;
  -- otherwise a call of the service has failed.
  abbrev pub Unread : (Text → Text → S → Item) → LeaseKey → S → Type 0
  Unread item_at k s =
      (resume store.legacy k.stream (row store item_at k s).checkpoint
          (view (item_at store.table k.shard s)).checkpoint
        ≡ none)
      ⊎ Interrupted

  pub update-Fails :
      (k : LeaseKey) (c : Condition) (u : List Clause) (s : S) (e : LeaseError)
      → (update service store k c u s).0 ≡ err e
      → Fails k s
  unfolding update answer
  update-Fails k c u s e h =
      elim (Outcome-cases (service.update_item store.table (row_key k) c u s).0) [
        | inl w ↦ ground (arith, h, w)
        | inr (inl r) ↦ ground (arith, h, r)
        | inr (inr (text, f)) ↦ (c, u, text, f)
      ]

  pub release-Fails :
      (k : LeaseKey) (o : Text) (s : S) (e : LeaseError)
      → (release service store k o s).0 ≡ err e
      → Fails k s
  unfolding release
  release-Fails k o s e h =
      let u : List Clause = remove owner_name ∷ remove expiry_name ∷ bump ∷ [] in
      elim (Result-cases (update service store k (owned o) u s).0) [
        | inl (b, a) ↦ ground (arith, h, a)
        | inr (e1, f) ↦ update-Fails k (owned o) u s e1 f
      ]

  item-Interrupted :
      (t : Text) (s : S) (e : LeaseError) → (item service store t s).0 ≡ err e → Interrupted
  unfolding item
  item-Interrupted t s e h = elim (Result-cases (service.get_item store.table t s).0) [
    | inl (found, a) ↦ ground (arith, h, a)
    | inr (text, f) ↦ inl (t, s, text, f)
  ]

  adopted-Interrupted :
      (k : LeaseKey) (c : Text) (opened_at : Option Text) (s : S) (e : LeaseError)
      → (adopted service store k c opened_at s).0 ≡ err e
      → Interrupted
  unfolding adopted adopt
  adopted-Interrupted k c opened_at s e h =
      let s1 : S = (adopt service store k c s).1 in
      elim (Result-cases (adopt service store k c s).0) [
        | inr (e1, f) ↦ inr (k, s, update-Fails k _ _ s e1 f)
        | inl (true, a) ↦ ground (arith, h, a)
        | inl (false, a) ↦
            elim (Result-cases (item service store (row_key k) (service.meanwhile s1)).0) [
              | inr (e1, f) ↦ item-Interrupted (row_key k) (service.meanwhile s1) e1 f
              | inl (found, b) ↦ ground (arith, h, a, b)
            ]
      ]

  claimed-Interrupted :
      (l : Option Text) (k : LeaseKey) (c : Text) (opened_at : Option Text) (s : S) (e : LeaseError)
      → (claimed service store l k c opened_at s).0 ≡ err e
      → (l ≡ none) ⊎ Interrupted
  unfolding claimed
  claimed-Interrupted none k c opened_at s e h = inl refl
  claimed-Interrupted (some l) k c opened_at s e h =
      inr (adopted-Interrupted k c opened_at (service.meanwhile s) e h)

module _ {S : Type 0} (service : Service S) (store : DynamoLeaseStore)
    (item_at : Text → Text → S → Item) (laws : Documented service item_at) (k : LeaseKey)
    (quiet : (t : Text) (s : S)
      → item_at store.table t (service.meanwhile s) ≡ item_at store.table t s) where
  read_bare-failed :
      (opened_at : Option Text) (s : S) (e : LeaseError)
      → (read_bare service store k opened_at s).0 ≡ err e
      → ((c : Text) × (store.legacy ≡ none)
          × ((view (item_at store.table k.shard s)).checkpoint ≡ some c))
        ⊎ Interrupted service store
  unfolding read_bare view
  read_bare-failed opened_at s e h = elim (Result-cases (item service store k.shard s).0) [
    | inr (e1, f) ↦ inr (item-Interrupted service store k.shard s e1 f)
    | inl (found, a) ↦ elim (Option-cases (checkpoint_of found)) [
      | inl gone ↦ ground (arith, h, a, gone)
      | inr (c, got) ↦
          let bare =
            item-text service store item_at laws k k.shard s found checkpoint_name a
              checkpoint_not_key in
          elim (claimed-Interrupted service store store.legacy k c opened_at
            (item service store k.shard s).1 e (ground (arith, h, a, got))) [
              | inl unnamed ↦ inl (c, unnamed, sym bare ∙ got)
              | inr i ↦ inr i
            ]
    ]
  ]

  pub read-Unread :
      (s : S) (e : LeaseError)
      → (read service store k s).0 ≡ err e
      → Unread service store item_at k s
  unfolding read row view
  read-Unread s e h =
      let s2 : S = service.meanwhile (item service store (row_key k) s).1 in
      elim (Result-cases (item service store (row_key k) s).0) [
        | inr (e1, f) ↦ inr (item-Interrupted service store (row_key k) s e1 f)
        | inl (found, a) ↦
            let own =
              own-text service store item_at laws k s found checkpoint_name a checkpoint_not_key in
            elim (Option-cases (checkpoint_of found)) [
              | inr (c, got) ↦ ground (arith, h, a, got)
              | inl gone ↦ elim (Bool-cases (foreign service store k)) [
                | inl other ↦ ground (arith, h, a, gone, other)
                | inr mine ↦
                    elim (read_bare-failed (text_of found opened_at_name) s2 e
                      (ground (arith, h, a, gone, mine))) [
                        | inr i ↦ inr i
                        | inl (c, unnamed, bare) ↦ inl (
                            rw (
                              unnamed,
                              sym own ∙ gone,
                              sym (
                                    ap (λ i. (view i).checkpoint)
                                      (settled-bare service store item_at laws k quiet (row_key k)
                                        s))
                                  ∙ bare,
                            ))
                      ]
              ]
            ]
      ]
