-- ===== src/Dynamo/Resume.antt =====
-- Where `read` of dynamo.rs resumes a shard, with the rows that earlier versions wrote.
use ruststream_kinesis.Prelude.{
  ◌≡◌, inl, inr, refl, ap, sym, subst, ◌∙◌, true, false, Option, none, some, Text, str_eq,
  Bool-cases, Option-cases, Result-cases, if◌then◌else◌, ok, Result, arith, not,
}
use ruststream_kinesis.Error.{LeaseError}
use ruststream_kinesis.Lease.{LeaseKey, LeaseState}
use ruststream_kinesis.Lease.Contract.{Row}
use ruststream_kinesis.Dynamo.{
  Item, Service, DynamoLeaseStore, row_key, checkpoint_name, opened_at_name, item, read_bare,
  claimed, read, foreign, checkpoint_of,
}
use ruststream_kinesis.Dynamo.Documented.{Documented}
use ruststream_kinesis.Dynamo.Views.{view, at_key, row}
use ruststream_kinesis.Dynamo.Adoption.{
  IsTextual, checkpoint_not_key, opened_at_not_key, item-text, own-text, item-row, adopted_copies,
}

-- Where a reading of a shard of `stream` resumes, from the checkpoint of its own row and that of the
-- bare row; `none` is a refusal.
abbrev pub resume : Option Text → Text → Option Text → Option Text → Option (Option Text)
resume legacy stream (some c) bare = some (some c)
resume (some l) stream none bare = some (if str_eq l stream then bare else none)
resume none stream none none = some none
resume none stream none (some c) = none

resume_nothing :
    (stream : Text) (l : Option Text) {bare : Option Text}
    → bare ≡ none
    → resume l stream none bare ≡ some none
resume_nothing stream none e = rw e
resume_nothing stream (some l) e = rw e (ground arith)

resume_foreign :
    (stream : Text) (l bare : Option Text)
    → elim l [ none ↦ false | some t ↦ not (str_eq t stream) ] ≡ true
    → resume l stream none bare ≡ some none
resume_foreign stream none bare h = cc
resume_foreign stream (some l) bare h = ground arith

module _ {S : Type 0} (service : Service S) (store : DynamoLeaseStore)
    (item_at : Text → Text → S → Item) (laws : Documented service item_at) (k : LeaseKey)
    (quiet : (t : Text) (s : S)
      → item_at store.table t (service.meanwhile s) ≡ item_at store.table t s) where
  quiet-row : (s : S) → row store item_at k (service.meanwhile s) ≡ row store item_at k s
  unfolding row
  quiet-row s = ap view (quiet (row_key k) s)

  settled :
      (t : Text) (s : S)
      → at_key store item_at k (service.meanwhile (item service store t s).1)
        ≡ at_key store item_at k s
  unfolding item
  settled t s = quiet (row_key k) _ ∙ laws.get_item_keeps store.table t (row_key k) s

  pub settled-bare :
      (t : Text) (s : S)
      → item_at store.table k.shard (service.meanwhile (item service store t s).1)
        ≡ item_at store.table k.shard s
  unfolding item
  settled-bare t s = quiet k.shard _ ∙ laws.get_item_keeps store.table t k.shard s

  -- The checkpoint that the bare row of the shard holds.
  abbrev pub bare_checkpoint : S → Option Text
  bare_checkpoint s = (view (item_at store.table k.shard s)).checkpoint

  -- What an answer says, and what the row then is, for a row that was `r` before.
  abbrev Resumed : Row → Option Text → Option Text → Result LeaseError LeaseState × S → Type 0
  Resumed r bare opened_at out =
      (state : LeaseState)
      → out.0 ≡ ok state
      → (resume store.legacy k.stream r.checkpoint bare ≡ some state.checkpoint)
        × (state.opened_at ≡ opened_at)
        × (row store item_at k out.1 ≡ record r { checkpoint = state.checkpoint })

  moved-Resumed :
      (s t : S) (opened_at : Option Text) (out : Result LeaseError LeaseState × S)
      → at_key store item_at k t ≡ at_key store item_at k s
      → item_at store.table k.shard t ≡ item_at store.table k.shard s
      → Resumed (row store item_at k t) (bare_checkpoint t) opened_at out
      → Resumed (row store item_at k s) (bare_checkpoint s) opened_at out
  unfolding row
  moved-Resumed s t opened_at out own bare done =
      subst (λ i. Resumed (view i) (bare_checkpoint s) opened_at out) own
        (subst (λ i. Resumed (row store item_at k t) (view i).checkpoint opened_at out) bare done)

  unread-Resumed :
      (r : Row) (bare opened_at : Option Text) (s : S)
      → r.checkpoint ≡ none
      → resume store.legacy k.stream none bare ≡ some none
      → row store item_at k s ≡ r
      → Resumed r bare opened_at (ok (record { checkpoint = none; opened_at = opened_at }), s)
  unread-Resumed r bare opened_at s gone plan kept state h = ground arith

  own-Resumed :
      (r : Row) (c : Text) (opened_at bare : Option Text) (s : S)
      → r.checkpoint ≡ some c
      → opened_at ≡ r.opened_at
      → row store item_at k s ≡ r
      → Resumed r bare r.opened_at (ok (record { checkpoint = some c; opened_at = opened_at }), s)
  own-Resumed r c opened_at bare s own opened kept state h = ground arith

  claimed-Resumed :
      (l : Option Text) (c : Text) (opened_at : Option Text) (s : S)
      → IsTextual (at_key store item_at k s)
      → (row store item_at k s).checkpoint ≡ none
      → store.legacy ≡ l
      → foreign service store k ≡ false
      → bare_checkpoint s ≡ some c
      → Resumed
          (row store item_at k s)
          (bare_checkpoint s)
          opened_at
          (claimed service store l k c opened_at (item service store k.shard s).1)
  unfolding claimed
  claimed-Resumed none c opened_at s text gone named mine bare state h = cc
  claimed-Resumed (some l) c opened_at s text gone named mine bare state h =
      let s2 : S = service.meanwhile (item service store k.shard s).1 in
      let same = settled k.shard s in
      let kept : row store item_at k s2 ≡ row store item_at k s =
        quiet-row (item service store k.shard s).1
        ∙ item-row service store item_at laws k k.shard s in
      let (answered, new) =
        adopted_copies service store item_at laws k c opened_at s2 state
          (subst IsTextual (sym same) text) (ap (λ r. r.checkpoint) kept ∙ gone) h in
      (ground arith, ap (λ t. t.opened_at) answered, ground arith)

  read_bare-Resumed :
      (opened_at : Option Text) (s : S)
      → IsTextual (at_key store item_at k s)
      → (row store item_at k s).checkpoint ≡ none
      → foreign service store k ≡ false
      → Resumed
          (row store item_at k s)
          (bare_checkpoint s)
          opened_at
          (read_bare service store k opened_at s)
  unfolding read_bare view
  read_bare-Resumed opened_at s text gone mine =
      let r : Row = row store item_at k s in
      elim (Result-cases (item service store k.shard s).0) [
        | inr (e, failed) ↦ rw (failed, read_bare) (λ state h. cc)
        | inl (found, a) ↦
            let bare =
              item-text service store item_at laws k k.shard s found checkpoint_name a
                checkpoint_not_key in
            elim (Option-cases (checkpoint_of found)) [
              | inl gone_too ↦
                  rw (a, read_bare)
                    (rw gone_too (
                      unread-Resumed r (bare_checkpoint s) opened_at _ gone
                        (resume_nothing k.stream store.legacy (sym bare ∙ gone_too))
                        (item-row service store item_at laws k k.shard s)))
              | inr (c, got) ↦
                  rw (a, read_bare)
                    (rw got (
                      claimed-Resumed store.legacy c opened_at s text gone refl mine
                        (sym bare ∙ got)))
            ]
      ]

  read-Resumed :
      (s : S)
      → IsTextual (at_key store item_at k s)
      → Resumed
          (row store item_at k s)
          (bare_checkpoint s)
          (row store item_at k s).opened_at
          (read service store k s)
  unfolding read row view
  read-Resumed s text =
      let r : Row = row store item_at k s in
      let s1 : S = (item service store (row_key k) s).1 in
      let s2 : S = service.meanwhile s1 in
      let kept = item-row service store item_at laws k (row_key k) s in
      elim (Result-cases (item service store (row_key k) s).0) [
        | inr (e, failed) ↦ rw (failed, read) (λ state h. cc)
        | inl (found, a) ↦
            let own =
              own-text service store item_at laws k s found checkpoint_name a checkpoint_not_key in
            let opened =
              own-text service store item_at laws k s found opened_at_name a opened_at_not_key in
            elim (Option-cases (checkpoint_of found)) [
              | inr (c, got) ↦
                  rw (a, read) (rw got (own-Resumed r c _ _ s1 (sym own ∙ got) opened kept))
              | inl gone ↦ elim (Bool-cases (foreign service store k)) [
                | inl other ↦
                    rw (a, read)
                      (rw (gone, other)
                        (rw opened (
                          unread-Resumed r (bare_checkpoint s) r.opened_at s1 (sym own ∙ gone)
                            (resume_foreign k.stream store.legacy (bare_checkpoint s) other) kept)))
                | inr mine ↦
                    rw (a, read)
                      (rw (gone, mine)
                        (rw opened (
                          moved-Resumed s s2 _ _ (settled (row_key k) s)
                            (settled-bare (row_key k) s)
                            (read_bare-Resumed r.opened_at s2
                              (subst IsTextual (sym (settled (row_key k) s)) text)
                              (rw (settled (row_key k) s) (sym own ∙ gone)) mine))))
              ]
            ]
      ]

  -- With no other client at work meanwhile, and where the checkpoint attribute of the shard's own row is
  -- no number (no write of the store makes it one), an answer of `read` resumes the shard at its own
  -- checkpoint, or else, in a table whose bare rows belong to the shard's stream, at that of the
  -- bare row, and otherwise at none; where the table names no stream for its bare rows and the
  -- bare row has the only checkpoint, there is no answer. The answer's opening is the row's, and
  -- the row then has the answer's checkpoint and is otherwise as before.
  pub read-resumes :
      (s : S) (state : LeaseState)
      → IsTextual (at_key store item_at k s)
      → (read service store k s).0 ≡ ok state
      → (resume store.legacy k.stream (row store item_at k s).checkpoint (bare_checkpoint s)
          ≡ some state.checkpoint)
        × (state.opened_at ≡ (row store item_at k s).opened_at)
        × (row store item_at k (read service store k s).1
            ≡ record (row store item_at k s) { checkpoint = state.checkpoint })
  read-resumes s state text = read-Resumed s text state
