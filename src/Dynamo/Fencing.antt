-- ===== src/Dynamo/Fencing.antt =====
-- The fencing counter of dynamo.rs's rows, over the store's calls and what other clients do meanwhile.
use ruststream_kinesis.Prelude.{
  ℕ, ◌+◌, ◌<◌, ◌≤◌, ◌≡◌, ◌⊎◌, inl, inr, ap, sym, refl, subst, ◌∙◌, Bool, true, Option, none, some,
  List, [], ◌∷◌, Text, str_eq, str_eq_iff, Bool-cases, Option-cases, Result-cases, Result, ok, err,
  arith, if◌then◌else◌, ◌&&◌,
}
use ruststream_kinesis.Error.{LeaseError}
use ruststream_kinesis.Lease.{LeaseKey, key_eq}
use ruststream_kinesis.Lease.Key.{key_eq_iff}
use ruststream_kinesis.Lease.Calls
use ruststream_kinesis.Lease.Calls.{
  accepted, Request, acquires, renews, checkpoints, opens, reads, releases, Event,
}
use ruststream_kinesis.Dynamo.{
  AttributeValue, Item, Condition, Clause, assign, remove, Service, DynamoLeaseStore, row_key,
  owner_name, expiry_name, checkpoint_name, opened_at_name, bump, update, adopt, adopted, claimed,
  item, read_bare, read, checkpoint_of, text_of, foreign, acquire, renew, checkpoint,
  record_opened_at, release, dynamo,
}
use ruststream_kinesis.Dynamo.Documented.{performed, updated, applicable, Documented}
use ruststream_kinesis.Dynamo.Views.{counter, at_key, update-accepted, update_either, update-frame}

-- An item is as it was, or its counter has grown.
abbrev pub Advances : Item → Item → Type 0
Advances before after = (after ≡ before) ⊎ (counter before < counter after)

Advances-trans : (a b c : Item) → Advances a b → Advances b c → Advances a c
Advances-trans a b c (inl e) (inl e') = inl (e' ∙ e)
Advances-trans a b c (inl e) (inr h) = inr (subst (λ i. counter i < counter c) e h)
Advances-trans a b c (inr h) (inl e) = inr (subst (λ i. counter a < counter i) (sym e) h)
Advances-trans a b c (inr h) (inr h') = inr (omega arith)

-- Clauses that add one to the counter.
abbrev Bumps : List Clause → Type 0
Bumps u = (i : Item) → applicable u i ≡ true → counter (updated u i) ≡ counter i + 1

acquire-Bumps :
    (o : Text) (e : ℕ)
    → Bumps (
        assign owner_name (AttributeValue.string o)
        ∷ assign expiry_name (AttributeValue.number e)
        ∷ bump
        ∷ [])
unfolding counter updated performed applicable str_eq
acquire-Bumps o e i h = ground arith

renew-Bumps : (e : ℕ) → Bumps (assign expiry_name (AttributeValue.number e) ∷ bump ∷ [])
unfolding counter updated performed applicable str_eq
renew-Bumps e i h = ground arith

checkpoint-Bumps :
    (seq : Text) → Bumps (assign checkpoint_name (AttributeValue.string seq) ∷ bump ∷ [])
unfolding counter updated performed applicable str_eq
checkpoint-Bumps seq i h = ground arith

opened_at-Bumps :
    (seq : Text) → Bumps (assign opened_at_name (AttributeValue.string seq) ∷ bump ∷ [])
unfolding counter updated performed applicable str_eq
opened_at-Bumps seq i h = ground arith

release-Bumps : Bumps (remove owner_name ∷ remove expiry_name ∷ bump ∷ [])
unfolding counter updated performed applicable str_eq
release-Bumps i h = ground arith

accepted-ok : (r : Result LeaseError Bool) → accepted r ≡ true → r ≡ ok true
accepted-ok (ok b) h = ap ok h
accepted-ok (err e) h = cc

-- How many of the events about a shard were accepted.
abbrev pub accepted_about : LeaseKey → List Event → List Bool → ℕ
accepted_about k (e ∷ es) (b ∷ bs) = (if key_eq e.key k && b then 1 else 0) + accepted_about k es bs
accepted_about k _ _ = 0

module _ {S : Type 0} (service : Service S) (store : DynamoLeaseStore)
    (item_at : Text → Text → S → Item) (laws : Documented service item_at) (k : LeaseKey)
    (others : (s : S)
      → Advances (at_key store item_at k s) (at_key store item_at k (service.meanwhile s))) where
  abbrev here : S → Item
  here s = at_key store item_at k s

  update-Advances :
      (j : LeaseKey) (c : Condition) (u : List Clause) (s : S)
      → Bumps u
      → Advances (here s) (here (update service store j c u s).1)
  update-Advances j c u s bumps = elim (Bool-cases (str_eq (row_key j) (row_key k))) [
    | inr apart ↦ inl (update-frame service store item_at laws j c u s (row_key k) apart)
    | inl same ↦
        let s' : S = (update service store j c u s).1 in
        let own : Advances (at_key store item_at j s) (at_key store item_at j s') =
          elim (update_either service store item_at laws j c u s) [
            | inl kept ↦ inl kept
            | inr (_, can, w) ↦
                inr (omega (arith, bumps (at_key store item_at j s) can, ap counter w))
          ] in
        subst (λ t. Advances (item_at store.table t s) (item_at store.table t s'))
          ((str_eq_iff (row_key j) (row_key k)).0 same) own
  ]

  update-by_one :
      (c : Condition) (u : List Clause) (s : S)
      → Bumps u
      → (update service store k c u s).0 ≡ ok true
      → counter (here (update service store k c u s).1) ≡ counter (here s) + 1
  update-by_one c u s bumps h =
      let (_, can, w) = update-accepted service store item_at laws k c u s h in
      ap counter w ∙ bumps (here s) can

  item-Advances : (t : Text) (s : S) → here (item service store t s).1 ≡ here s
  unfolding item
  item-Advances t s = laws.get_item_keeps store.table t (row_key k) s

  adopted-Advances :
      (j : LeaseKey) (c : Text) (o : Option Text) (s : S)
      → Advances (here s) (here (adopted service store j c o s).1)
  unfolding adopt adopted
  adopted-Advances j c o s =
      let s1 : S = (adopt service store j c s).1 in
      let first : Advances (here s) (here s1) = update-Advances j _ _ s (checkpoint-Bumps c) in
      elim (Result-cases (adopt service store j c s).0) [
        | inr (e, f) ↦ rw (f, adopted) first
        | inl (b, a) ↦ elim (Bool-cases b) [
          | inl t ↦ rw (a ∙ ap ok t, adopted) first
          | inr f ↦
              rw (a ∙ ap ok f, adopted)
                (Advances-trans _ _ _ first (
                  Advances-trans _ _ _ (others s1)
                    (inl (item-Advances (row_key j) (service.meanwhile s1)))))
        ]
      ]

  claimed-Advances :
      (l : Option Text) (j : LeaseKey) (c : Text) (o : Option Text) (s : S)
      → Advances (here s) (here (claimed service store l j c o s).1)
  unfolding claimed
  claimed-Advances none j c o s = inl refl
  claimed-Advances (some l) j c o s =
      Advances-trans _ _ _ (others s) (adopted-Advances j c o (service.meanwhile s))

  read_bare-Advances :
      (j : LeaseKey) (o : Option Text) (s : S)
      → Advances (here s) (here (read_bare service store j o s).1)
  unfolding read_bare
  read_bare-Advances j o s =
      let s1 : S = (item service store j.shard s).1 in
      let first : Advances (here s) (here s1) = inl (item-Advances j.shard s) in
      elim (Result-cases (item service store j.shard s).0) [
        | inr (e, f) ↦ rw (f, read_bare) first
        | inl (found, a) ↦ elim (Option-cases (checkpoint_of found)) [
          | inl gone ↦ rw (a, read_bare) (rw gone first)
          | inr (c, got) ↦
              rw (a, read_bare)
                (rw got (Advances-trans _ _ _ first (claimed-Advances store.legacy j c o s1)))
        ]
      ]

  read-Advances : (j : LeaseKey) (s : S) → Advances (here s) (here (read service store j s).1)
  unfolding read
  read-Advances j s =
      let s1 : S = (item service store (row_key j) s).1 in
      let first : Advances (here s) (here s1) = inl (item-Advances (row_key j) s) in
      elim (Result-cases (item service store (row_key j) s).0) [
        | inr (e, f) ↦ rw (f, read) first
        | inl (found, a) ↦ elim (Option-cases (checkpoint_of found)) [
          | inr (c, got) ↦ rw (a, read) (rw got first)
          | inl gone ↦ elim (Bool-cases (foreign service store j)) [
            | inl other ↦ rw (a, read) (rw (gone, other) first)
            | inr mine ↦
                rw (a, read)
                  (rw (gone, mine)
                    (Advances-trans _ _ _ first (
                      Advances-trans _ _ _ (others s1) (
                        read_bare-Advances j (text_of found opened_at_name)
                          (service.meanwhile s1)))))
          ]
        ]
      ]

  -- One call about `j`: the item advances, and by a bump if it is the shard's and was accepted.
  abbrev Fenced : LeaseKey → Bool × S → S → Type 0
  Fenced j (b, s') s =
      Advances (here s) (here s') × (b ≡ true → j ≡ k → counter (here s) < counter (here s'))

  update-Fenced :
      (j : LeaseKey) (c : Condition) (u : List Clause) (s : S)
      → Bumps u
      → Fenced j (accepted (update service store j c u s).0, (update service store j c u s).1) s
  update-Fenced j c u s bumps = (
    update-Advances j c u s bumps,
    λ h e.
        let yes' : (update service store k c u s).0 ≡ ok true =
          subst (λ x. (update service store x c u s).0 ≡ ok true) e (accepted-ok _ h) in
        subst (λ x. counter (here s) < counter (here (update service store x c u s).1)) (sym e)
          (omega (arith, update-by_one c u s bumps yes')),
  )

  call-Fenced :
      (j : LeaseKey) (o : Text) (now : ℕ) (q : Request) (s : S)
      → Fenced j (Calls.call (dynamo service store) j o now q s) s
  unfolding Calls.call acquire renew checkpoint record_opened_at release
  call-Fenced j o now (acquires ttl) s = update-Fenced j _ _ s (acquire-Bumps o _)
  call-Fenced j o now (renews ttl) s = update-Fenced j _ _ s (renew-Bumps _)
  call-Fenced j o now (checkpoints seq) s = update-Fenced j _ _ s (checkpoint-Bumps seq)
  call-Fenced j o now (opens seq) s = update-Fenced j _ _ s (opened_at-Bumps seq)
  call-Fenced j o now reads s = (read-Advances j s, λ h e. cc)
  call-Fenced j o now releases s = (update-Advances j _ _ s release-Bumps, λ h e. cc)

  advanced : (a b : Item) → Advances a b → counter a ≤ counter b
  advanced a b (inl e) = rw e (omega arith)
  advanced a b (inr h) = omega arith

  -- Over any calls of any clients on any shards, where whatever other clients do meanwhile to the row
  -- of this shard also leaves it or raises its counter: the row's item is as it was at the start or
  -- its counter is greater, and the counter has risen at least once for each accepted call about
  -- this shard.
  pub replay-fenced :
      (es : List Event) (s : S)
      → let (bs, s') = Calls.replay (dynamo service store) es s in
        Advances (here s) (here s')
        × (counter (here s) + accepted_about k es bs ≤ counter (here s'))
  unfolding Calls.replay
  replay-fenced [] s = (inl refl, omega arith)
  replay-fenced (x ∷ es) s =
      let (b, s') = Calls.call (dynamo service store) x.key x.owner x.now x.request s in
      let (first, bump) = call-Fenced x.key x.owner x.now x.request s in
      let (rest, count) = replay-fenced es s' in
      (Advances-trans _ _ _ first rest, ground (arith, key_eq_iff x.key k, advanced _ _ first))
