-- ===== src/Dynamo/Views.antt =====
-- The lease row that an item of dynamo.rs's table stands for, under the updates that the store makes.
use ruststream_kinesis.Prelude.{
  ℕ, ◌<◌, ◌≡◌, ◌≢◌, ◌⊎◌, inl, inr, refl, true, false, Option, none, some, List, Text, str_eq,
  str_eq_iff, ok, arith,
}
use ruststream_kinesis.Lease.{LeaseKey}
use ruststream_kinesis.Lease.Contract.{Row, holds}
use ruststream_kinesis.Dynamo.{
  AttributeValue, number, Item, Condition, attribute_not_exists, Clause, Outcome, written,
  conditional_check_failed, failed, Service, DynamoLeaseStore, row_key, owner_name, expiry_name,
  checkpoint_name, opened_at_name, counter_name, text_of, owned, acquirable, answer, update,
}
use ruststream_kinesis.Dynamo.Documented.{met, same_value, Written, Documented}

abbrev pub number_of : Option AttributeValue → Option ℕ
number_of (some (number n)) = some n
number_of _ = none

-- What the store's expressions see of an item.
unfoldable pub view : Item → Row
view item = record {
  owner = text_of (some item) owner_name;
  expires = number_of (item expiry_name);
  checkpoint = text_of (some item) checkpoint_name;
  opened_at = text_of (some item) opened_at_name;
}

-- The fencing counter; a row without one counts 0.
unfoldable pub counter : Item → ℕ
counter item = elim (number_of (item counter_name)) [ none ↦ 0 | some n ↦ n ]

module _ (i : Item) where
  pub met-owned : (o : Text) → met (owned o) i ≡ holds o (view i).owner
  unfolding met same_value holds view text_of
  met-owned o = ground arith

  pub acquirable-live :
      (o p : Text) (now e : ℕ)
      → (view i).owner ≡ some p
      → p ≢ o
      → (view i).expires ≡ some e
      → now < e
      → met (acquirable o now) i ≡ false
  unfolding met same_value holds view text_of
  acquirable-live o p now e own ne live h = ground (arith, str_eq_iff p o)

  pub met-absent : met (attribute_not_exists checkpoint_name) i ≡ true → (view i).checkpoint ≡ none
  unfolding met view text_of
  met-absent h = ground arith

module _ {S : Type 0} (store : DynamoLeaseStore) (item : Text → Text → S → Item) where
  abbrev pub at_key : LeaseKey → S → Item
  at_key k s = item store.table (row_key k) s

  -- The row of a key.
  unfoldable pub row : LeaseKey → S → Row
  row k s = view (at_key k s)

pub Outcome-cases :
    (o : Outcome) → (o ≡ written) ⊎ ((o ≡ conditional_check_failed) ⊎ ((e : Text) × (o ≡ failed e)))
Outcome-cases written = inl refl
Outcome-cases conditional_check_failed = inr (inl refl)
Outcome-cases (failed e) = inr (inr (e, refl))

module _ {S : Type 0} (service : Service S) (store : DynamoLeaseStore)
    (item : Text → Text → S → Item) (laws : Documented service item) where
  module _ (k : LeaseKey) (c : Condition) (u : List Clause) (s : S) where
    pub update-accepted :
        (update service store k c u s).0 ≡ ok true
        → Written c u (at_key store item k s) (at_key store item k (update service store k c u s).1)
    unfolding update answer
    update-accepted h = laws.update_item_written store.table (row_key k) c u s (ground arith)

    pub update-refused :
        (update service store k c u s).0 ≡ ok false
        → (met c (at_key store item k s) ≡ false)
          × (at_key store item k (update service store k c u s).1 ≡ at_key store item k s)
    unfolding update answer
    update-refused h = laws.update_item_refused store.table (row_key k) c u s (ground arith)

    -- Whatever the answer, the item is as before, or the condition held and the update was made.
    pub update_either :
        (at_key store item k (update service store k c u s).1 ≡ at_key store item k s)
        ⊎ Written c u (at_key store item k s) (at_key store item k (update service store k c u s).1)
    unfolding update
    update_either = elim (Outcome-cases (service.update_item store.table (row_key k) c u s).0) [
      | inl w ↦ inr (laws.update_item_written store.table (row_key k) c u s w)
      | inr (inl r) ↦ inl (laws.update_item_refused store.table (row_key k) c u s r).1
      | inr (inr (e, f)) ↦ laws.update_item_failed store.table (row_key k) c u s e f
    ]

  -- An update of one key leaves the items of the others.
  pub update-frame :
      (k : LeaseKey) (c : Condition) (u : List Clause) (s : S) (t : Text)
      → str_eq (row_key k) t ≡ false
      → item store.table t (update service store k c u s).1 ≡ item store.table t s
  unfolding update
  update-frame k c u s t ne = laws.update_item_frame store.table (row_key k) t c u s ne
