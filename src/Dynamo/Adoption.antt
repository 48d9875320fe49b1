-- ===== src/Dynamo/Adoption.antt =====
-- The copy of a bare row's checkpoint onto the row of its shard, in dynamo.rs.
use ruststream_kinesis.Prelude.{
  ◌≡◌, ◌≢◌, inl, inr, refl, ap, sym, ◌∙◌, true, false, Option, none, some, Text, str_eq, Bool-cases,
  Option-cases, Result-cases, ok, err, arith, ℕ,
}
use ruststream_kinesis.Error.{LeaseError}
use ruststream_kinesis.Lease.{LeaseKey, LeaseState}
use ruststream_kinesis.Dynamo.{
  AttributeValue, string, number, Item, attribute_not_exists, Service, DynamoLeaseStore, row_key,
  key_name, checkpoint_name, opened_at_name, text_of, adopt, adopted, item, newer,
}
use ruststream_kinesis.Dynamo.Documented.{Documented, attributes, met}
use ruststream_kinesis.Dynamo.Views.{view, at_key, row, update-accepted, update-refused, met-absent}
use ruststream_kinesis.Dynamo.Laws.{view-checkpoint}

same_text :
    (found : Option Item) (i : Item) (a : Text)
    → attributes found a ≡ i a
    → text_of found a ≡ text_of (some i) a
unfolding text_of
same_text none i a e = ground arith
same_text (some j) i a e = ground arith

pub checkpoint_not_key : str_eq checkpoint_name key_name ≡ false
unfolding str_eq
checkpoint_not_key = refl

pub opened_at_not_key : str_eq opened_at_name key_name ≡ false
unfolding str_eq
opened_at_not_key = refl

-- A checkpoint attribute, where there is one, is a string.
abbrev pub IsTextual : Item → Type 0
IsTextual i = (n : ℕ) → i checkpoint_name ≢ some (AttributeValue.number n)

absent :
    (i : Item)
    → IsTextual i
    → (view i).checkpoint ≡ none
    → met (attribute_not_exists checkpoint_name) i ≡ true
unfolding view text_of met
absent i text gone = elim (Option-cases (i checkpoint_name)) [
  | inl e ↦ rw (e, met)
  | inr (string t, e) ↦ ground arith
  | inr (number n, e) ↦ absurd (text n e)
]

module _ {S : Type 0} (service : Service S) (store : DynamoLeaseStore)
    (item_at : Text → Text → S → Item) (laws : Documented service item_at) (k : LeaseKey) where
  pub item-text :
      (t : Text) (s : S) (found : Option Item) (a : Text)
      → (item service store t s).0 ≡ ok found
      → str_eq a key_name ≡ false
      → text_of found a ≡ text_of (some (item_at store.table t s)) a
  unfolding item
  item-text t s found a h ne =
      same_text found _ a (laws.get_item_answer store.table t s found (ground arith) a ne)

  -- A copy that is accepted: the row had no checkpoint, and now has the copied one.
  adopt-accepted :
      (c : Text) (s : S)
      → (adopt service store k c s).0 ≡ ok true
      → ((row store item_at k s).checkpoint ≡ none)
        × (row store item_at k (adopt service store k c s).1
            ≡ record (row store item_at k s) { checkpoint = some c })
  unfolding adopt row
  adopt-accepted c s h =
      let (can, _, w) = update-accepted service store item_at laws k _ _ s h in
      (
        met-absent (at_key store item_at k s) can,
        ap view w ∙ view-checkpoint (at_key store item_at k s) c,
      )

  adopt-refused :
      (c : Text) (s : S)
      → (adopt service store k c s).0 ≡ ok false
      → row store item_at k (adopt service store k c s).1 ≡ row store item_at k s
  unfolding adopt row
  adopt-refused c s h = ap view (update-refused service store item_at laws k _ _ s h).1

  -- The row is read as it stands, and a read leaves it.
  pub own-text :
      (s : S) (found : Option Item) (a : Text)
      → (item service store (row_key k) s).0 ≡ ok found
      → str_eq a key_name ≡ false
      → text_of found a ≡ text_of (some (at_key store item_at k s)) a
  own-text s found a = item-text (row_key k) s found a

  pub item-row :
      (t : Text) (s : S) → row store item_at k (item service store t s).1 ≡ row store item_at k s
  unfolding item row
  item-row t s = ap view (laws.get_item_keeps store.table t (row_key k) s)

  newer-row :
      (bare : Text) (t : S) (found : Option Item)
      → (item service store (row_key k) t).0 ≡ ok found
      → (row store item_at k t).checkpoint ≢ none
      → (newer service store bare found).checkpoint ≡ (row store item_at k t).checkpoint
  unfolding newer row view
  newer-row bare t found h some_c =
      ground (arith, own-text t found checkpoint_name h checkpoint_not_key)

  adopted-err :
      (bare : Text) (opened_at : Option Text) (s : S) (state : LeaseState) {e : LeaseError}
      → (adopt service store k bare s).0 ≡ err e
      → (adopted service store k bare opened_at s).0 ≢ ok state
  unfolding adopted
  adopted-err bare opened_at s state failed h = ground arith

  -- After a refused copy the row is read again.
  adopted-again :
      (bare : Text) (opened_at : Option Text) (s : S) (state : LeaseState)
      → (adopt service store k bare s).0 ≡ ok false
      → (adopted service store k bare opened_at s).0 ≡ ok state
      → (row store item_at k (service.meanwhile (adopt service store k bare s).1)).checkpoint ≢ none
      → state.checkpoint
        ≡ (row store item_at k (adopted service store k bare opened_at s).1).checkpoint
  unfolding adopted
  adopted-again bare opened_at s state refused h some_c =
      let t : S = service.meanwhile (adopt service store k bare s).1 in
      elim (Result-cases (item service store (row_key k) t).0) [
        | inr (e, failed) ↦ ground arith
        | inl (found, a) ↦
            let same = newer-row bare t found a some_c in
            let kept = item-row (row_key k) t in
            let answered : newer service store bare found ≡ state = ground arith in
            rw (refused, adopted)
              (ap (λ x. x.checkpoint) (sym answered) ∙ same ∙ ap (λ r. r.checkpoint) (sym kept))
      ]

  -- When the copy of a bare row's checkpoint reaches a row that another client has given a checkpoint
  -- by then, the copy leaves the row, and an answer is the checkpoint that the row has when it is read
  -- again, as long as a row with a checkpoint keeps having one meanwhile.
  pub adopted_newer :
      (bare c : Text) (opened_at : Option Text) (s : S) (state : LeaseState)
      → (row store item_at k s).checkpoint ≡ some c
      → ((t : S)
          → (row store item_at k t).checkpoint ≢ none
          → (row store item_at k (service.meanwhile t)).checkpoint ≢ none)
      → (adopted service store k bare opened_at s).0 ≡ ok state
      → (row store item_at k (adopt service store k bare s).1 ≡ row store item_at k s)
        × (state.checkpoint
            ≡ (row store item_at k (adopted service store k bare opened_at s).1).checkpoint)
  adopted_newer bare c opened_at s state own keeps h =
      let s1 : S = (adopt service store k bare s).1 in
      let t : S = service.meanwhile s1 in
      elim (Result-cases (adopt service store k bare s).0) [
        | inr (e, failed) ↦ absurd (adopted-err bare opened_at s state failed h)
        | inl (b, a) ↦ elim (Bool-cases b) [
          | inl wrote ↦ cc (own, (adopt-accepted bare s (a ∙ ap ok wrote)).0)
          | inr refused ↦
              let kept : row store item_at k s1 ≡ row store item_at k s =
                adopt-refused bare s (a ∙ ap ok refused) in
              (
                kept,
                adopted-again bare opened_at s state (a ∙ ap ok refused) h
                    (keeps s1 (rw kept (rw own (λ e. cc)))),
              )
        ]
      ]

  no_refusal :
      (bare : Text) (s : S)
      → IsTextual (at_key store item_at k s)
      → (row store item_at k s).checkpoint ≡ none
      → (adopt service store k bare s).0 ≢ ok false
  unfolding adopt row
  no_refusal bare s text gone h =
      let unmet = (update-refused service store item_at laws k _ _ s h).0 in
      let fits = absent (at_key store item_at k s) text gone in cc

  -- A copy onto a row without a checkpoint.
  pub adopted_copies :
      (bare : Text) (opened_at : Option Text) (s : S) (state : LeaseState)
      → IsTextual (at_key store item_at k s)
      → (row store item_at k s).checkpoint ≡ none
      → (adopted service store k bare opened_at s).0 ≡ ok state
      → (state ≡ record { checkpoint = some bare; opened_at = opened_at })
        × (row store item_at k (adopted service store k bare opened_at s).1
            ≡ record (row store item_at k s) { checkpoint = some bare })
  unfolding adopted
  adopted_copies bare opened_at s state text gone h =
      elim (Result-cases (adopt service store k bare s).0) [
        | inr (e, failed) ↦ ground arith
        | inl (b, a) ↦ elim (Bool-cases b) [
          | inl wrote ↦
              let (_, new) = adopt-accepted bare s (a ∙ ap ok wrote) in
              let copied : LeaseState = record { checkpoint = some bare; opened_at = opened_at } in
              let answered : copied ≡ state = ground arith in
              (sym answered, rw (a ∙ ap ok wrote, adopted) new)
          | inr refused ↦ absurd (no_refusal bare s text gone (a ∙ ap ok refused))
        ]
      ]
