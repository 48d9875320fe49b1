-- ===== src/Dynamo/Frames.antt =====
-- What a call of the lease store of dynamo.rs leaves of the rows of the other shards.
use ruststream_kinesis.Prelude.{
  ◌≡◌, inl, inr, refl, ◌∙◌, true, false, Option, none, some, Text, str_eq, Bool-cases, Option-cases,
  Result-cases,
}
use ruststream_kinesis.Lease.{LeaseKey}
use ruststream_kinesis.Dynamo.{
  Item, Service, DynamoLeaseStore, row_key, item, text_of, opened_at_name, read_bare, claimed, read,
  foreign, checkpoint_of, adopt, adopted,
}
use ruststream_kinesis.Dynamo.Documented.{Documented}
use ruststream_kinesis.Dynamo.Views.{update-frame}

abbrev pub Apart : LeaseKey → LeaseKey → Type 0
Apart k j = str_eq (row_key k) (row_key j) ≡ false

module _ {S : Type 0} (service : Service S) (store : DynamoLeaseStore)
    (item_at : Text → Text → S → Item) (laws : Documented service item_at) (k : LeaseKey)
    (quiet : (t : Text) (s : S)
      → item_at store.table t (service.meanwhile s) ≡ item_at store.table t s)
    (u : Text) (apart : str_eq (row_key k) u ≡ false) where
  abbrev at : S → Item
  at s = item_at store.table u s

  item-frame : (t : Text) (s : S) → at (item service store t s).1 ≡ at s
  unfolding item
  item-frame t s = laws.get_item_keeps store.table t u s

  adopted-frame :
      (c : Text) (opened_at : Option Text) (s : S)
      → at (adopted service store k c opened_at s).1 ≡ at s
  unfolding adopted adopt
  adopted-frame c opened_at s =
      let s1 : S = (adopt service store k c s).1 in
      let same : at s1 ≡ at s = update-frame service store item_at laws k _ _ s u apart in
      elim (Result-cases (adopt service store k c s).0) [
        | inr (e, f) ↦ rw (f, adopted) same
        | inl (true, a) ↦ rw (a, adopted) same
        | inl (false, a) ↦
            rw (a, adopted) (item-frame (row_key k) (service.meanwhile s1) ∙ quiet u s1 ∙ same)
      ]

  claimed-frame :
      (l : Option Text) (c : Text) (opened_at : Option Text) (s : S)
      → at (claimed service store l k c opened_at s).1 ≡ at s
  unfolding claimed
  claimed-frame none c opened_at s = refl
  claimed-frame (some l) c opened_at s = adopted-frame c opened_at (service.meanwhile s) ∙ quiet u s

  read_bare-frame :
      (opened_at : Option Text) (s : S) → at (read_bare service store k opened_at s).1 ≡ at s
  unfolding read_bare
  read_bare-frame opened_at s =
      let s1 : S = (item service store k.shard s).1 in
      let same = item-frame k.shard s in
      elim (Result-cases (item service store k.shard s).0) [
        | inr (e, f) ↦ rw (f, read_bare) same
        | inl (found, a) ↦ elim (Option-cases (checkpoint_of found)) [
          | inl gone ↦ rw (a, read_bare) (rw gone same)
          | inr (c, got) ↦
              rw (a, read_bare) (rw got (claimed-frame store.legacy c opened_at s1 ∙ same))
        ]
      ]

  pub read-frame : (s : S) → at (read service store k s).1 ≡ at s
  unfolding read
  read-frame s =
      let s1 : S = (item service store (row_key k) s).1 in
      let same = item-frame (row_key k) s in
      elim (Result-cases (item service store (row_key k) s).0) [
        | inr (e, f) ↦ rw (f, read) same
        | inl (found, a) ↦ elim (Option-cases (checkpoint_of found)) [
          | inr (c, got) ↦ rw (a, read) (rw got same)
          | inl gone ↦ elim (Bool-cases (foreign service store k)) [
            | inl other ↦ rw (a, read) (rw (gone, other) same)
            | inr mine ↦
                rw (a, read)
                  (rw (gone, mine)
                    (read_bare-frame (text_of found opened_at_name) (service.meanwhile s1)
                      ∙ quiet u s1
                      ∙ same))
          ]
        ]
      ]
