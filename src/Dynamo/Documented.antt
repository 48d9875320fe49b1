-- ===== src/Dynamo/Documented.antt =====
-- What the documentation of DynamoDB says of the two calls that dynamo.rs makes: how conditions and
-- update clauses read an item, and when a call writes. The results on the store take these as hypotheses.
use ruststream_kinesis.Prelude.{
  ◌+◌, ◌≡◌, ◌⊎◌, Bool, true, false, ◌&&◌, ◌||◌, Option, none, some, List, [], ◌∷◌, Text, str_eq,
  ltb, ◌==◌, if◌then◌else◌, ok,
}
use ruststream_kinesis.Dynamo.{
  AttributeValue, string, number, Item, Condition, attribute_not_exists, equals, less, either,
  Clause, assign, remove, add, written, conditional_check_failed, failed, Service, key_name,
}

unfoldable pub same_value : AttributeValue → AttributeValue → Bool
same_value (string a) (string b) = str_eq a b
same_value (number m) (number n) = m == n
same_value _ _ = false

-- Whether an item meets a condition.
unfoldable pub met : Condition → Item → Bool
unfolding same_value
met (attribute_not_exists a) item = elim (item a) [ none ↦ true | some v ↦ false ]
met (equals a v) item = elim (item a) [ none ↦ false | some w ↦ same_value w v ]
met (less a n) item = elim (item a) [
  | none ↦ false
  | some (string t) ↦ false
  | some (number m) ↦ ltb m n
]
met (either c d) item = met c item || met d item

-- An item after one clause; a number is added to an absent attribute as to 0.
unfoldable pub performed : Clause → Item → Item
performed (assign a v) item b = if str_eq a b then some v else item b
performed (remove a) item b = if str_eq a b then none else item b
performed (add a n) item b =
    if str_eq a b
    then (elim (item b) [
      | none ↦ some (number n)
      | some (string t) ↦ some (string t)
      | some (number m) ↦ some (number (m + n))
    ])
    else item b

-- The clauses of the store's expressions name different attributes, so their order does not matter.
unfoldable pub updated : List Clause → Item → Item
updated [] item = item
updated (c ∷ cs) item = updated cs (performed c item)

-- An addition is to a number or to nothing.
abbrev pub addable : Item → Clause → Bool
addable item (add a n) = elim (item a) [
  | none ↦ true
  | some (string t) ↦ false
  | some (number m) ↦ true
]
addable item _ = true

unfoldable pub applicable : List Clause → Item → Bool
applicable [] item = true
applicable (c ∷ cs) item = addable item c && applicable cs item

-- A condition holds and the clauses can be applied: the write takes place.
abbrev pub Written : Condition → List Clause → Item → Item → Type 0
Written c u before after =
    (met c before ≡ true) × (applicable u before ≡ true) × (after ≡ updated u before)

abbrev pub attributes : Option Item → Item
attributes none a = none
attributes (some item) a = item a

pub record Documented {S : Type 0} (d : Service S) (item : Text → Text → S → Item) : Type 0 where
  -- A consistent read answers the item, its key beside the attributes.
  pub get_item_answer :
      (t k : Text) (s : S) (found : Option Item)
      → (d.get_item t k s).0 ≡ ok found
      → (a : Text) → str_eq a key_name ≡ false
      → attributes found a ≡ item t k s a
  pub get_item_keeps : (t k j : Text) (s : S) → item t j (d.get_item t k s).1 ≡ item t j s
  pub update_item_written :
      (t k : Text) (c : Condition) (u : List Clause) (s : S)
      → (d.update_item t k c u s).0 ≡ written
      → Written c u (item t k s) (item t k (d.update_item t k c u s).1)
  pub update_item_refused :
      (t k : Text) (c : Condition) (u : List Clause) (s : S)
      → (d.update_item t k c u s).0 ≡ conditional_check_failed
      → (met c (item t k s) ≡ false) × (item t k (d.update_item t k c u s).1 ≡ item t k s)
  -- An error such as a lost connection does not say whether the write took place.
  pub update_item_failed :
      (t k : Text) (c : Condition) (u : List Clause) (s : S) (e : Text)
      → (d.update_item t k c u s).0 ≡ failed e
      → (item t k (d.update_item t k c u s).1 ≡ item t k s)
        ⊎ Written c u (item t k s) (item t k (d.update_item t k c u s).1)
  pub update_item_frame :
      (t k j : Text) (c : Condition) (u : List Clause) (s : S)
      → str_eq k j ≡ false
      → item t j (d.update_item t k c u s).1 ≡ item t j s
