-- ===== src/Dynamo.antt =====
-- crates/ruststream-kinesis/src/dynamo.rs: the lease store over conditional writes of a DynamoDB table.
-- The table's service is a parameter: its two calls on a state, and `meanwhile`, what other clients do
-- to the table while a call is awaited. An expression string is the tree that it spells.
pub mod Documented
pub mod Views
pub mod Laws
pub mod Failures
pub mod Frames
pub mod Promises
pub mod Fencing
pub mod Adoption
pub mod Resume
use ruststream_kinesis.Prelude.{
  ℕ, ◌+◌, ◌-◌, ◌%◌, ◌^◌, min, Bool, true, false, not, Option, none, some, List, [], ◌∷◌, Text,
  codes, str_eq, if◌then◌else◌, Result, ok, err,
}
use ruststream_kinesis.Error.{LeaseError, store_failure, unattributed_legacy_row}
use ruststream_kinesis.Lease.{LeaseKey, LeaseState, LeaseStore, Call, to_string}

-- The table's partition key attribute.
abbrev pub key_name : Text
key_name = codes "lease_key"

abbrev pub checkpoint_name : Text
checkpoint_name = codes "checkpoint"

abbrev pub opened_at_name : Text
opened_at_name = codes "opened_at"

-- The attributes that stand only inside the expressions.
abbrev pub owner_name : Text
owner_name = codes "lease_owner"

abbrev pub expiry_name : Text
expiry_name = codes "lease_expiry"

abbrev pub counter_name : Text
counter_name = codes "lease_counter"

-- The two kinds of `AttributeValue` in use, `S` and `N`; the decimal text of an `N` is its number.
pub data AttributeValue : Type 0 where
  string : Text → AttributeValue
  number : ℕ → AttributeValue

-- An item, as the map from its attributes' names.
abbrev pub Item : Type 0
Item = Text → Option AttributeValue

pub data Condition : Type 0 where
  attribute_not_exists : Text → Condition
  equals : Text → AttributeValue → Condition
  less : Text → ℕ → Condition
  either : Condition → Condition → Condition

-- The clauses of an update expression.
pub data Clause : Type 0 where
  assign : Text → AttributeValue → Clause  -- SET
  remove : Text → Clause  -- REMOVE
  add : Text → ℕ → Clause  -- ADD

-- How `send` of an `update_item` ends: `Ok(_)`, a failed condition, or any other error with its text.
pub data Outcome : Type 0 where
  written : Outcome
  conditional_check_failed : Outcome
  failed : Text → Outcome

-- What the SDK's client does, by table and key.
pub record Service (S : Type 0) : Type 0 where
  pub get_item : Text → Text → S → Result Text (Option Item) × S
  pub update_item : Text → Text → Condition → List Clause → S → Outcome × S
  pub meanwhile : S → S

pub record DynamoLeaseStore : Type 0 where
  pub table : Text
  pub legacy : Option Text

-- `DynamoLeaseStore::new`
abbrev pub new : Text → DynamoLeaseStore
new table = record { table = table; legacy = none }

abbrev pub legacy_stream : Text → DynamoLeaseStore → DynamoLeaseStore
legacy_stream stream store = record store { legacy = some stream }

-- `text_of`: an attribute counts only as a string.
unfoldable pub text_of : Option Item → Text → Option Text
text_of none name = none
text_of (some item) name = elim (item name) [
  | some (AttributeValue.string text) ↦ some text
  | some (AttributeValue.number n) ↦ none
  | none ↦ none
]

abbrev pub checkpoint_of : Option Item → Option Text
checkpoint_of item = text_of item checkpoint_name

-- `row_key`
abbrev pub row_key : LeaseKey → Text
row_key key = to_string key

-- `u64::try_from(ttl.as_millis()).unwrap_or(u64::MAX)` after `now`, in 64 bits
unfoldable pub expiry_at : ℕ → ℕ → ℕ
expiry_at ttl now = (now + min ttl (2 ^ 64 - 1)) % 2 ^ 64

-- The answer to a conditional write: a failed condition is a plain `false`.
unfoldable pub answer : Outcome → Result LeaseError Bool
answer written = ok true
answer conditional_check_failed = ok false
answer (failed text) = err (store_failure text)

abbrev pub owned : Text → Condition
owned owner = equals owner_name (AttributeValue.string owner)

-- `lease_counter :one`
abbrev pub bump : Clause
bump = add counter_name 1

-- `attribute_not_exists(lease_owner) OR lease_owner = :me OR lease_expiry < :now`
abbrev pub acquirable : Text → ℕ → Condition
acquirable owner now =
    either (attribute_not_exists owner_name) (either (owned owner) (less expiry_name now))

module _ {S : Type 0} (service : Service S) (store : DynamoLeaseStore) where
  -- One conditional write of a row.
  unfoldable pub update : LeaseKey → Condition → List Clause → Call S Bool
  update key condition clauses s =
      let (outcome, s') = service.update_item store.table (row_key key) condition clauses s in
      (answer outcome, s')

  unfoldable pub acquire : LeaseKey → Text → ℕ → ℕ → Call S Bool
  acquire key owner ttl now = update key (acquirable owner now) (
      assign owner_name (AttributeValue.string owner)
      ∷ assign expiry_name (AttributeValue.number (expiry_at ttl now))
      ∷ bump
      ∷ [])

  unfoldable pub renew : LeaseKey → Text → ℕ → ℕ → Call S Bool
  renew key owner ttl now =
      update key (owned owner)
        (assign expiry_name (AttributeValue.number (expiry_at ttl now)) ∷ bump ∷ [])

  unfoldable pub checkpoint : LeaseKey → Text → Text → Call S Bool
  checkpoint key owner sequence =
      update key (owned owner) (assign checkpoint_name (AttributeValue.string sequence) ∷ bump ∷ [])

  unfoldable pub record_opened_at : LeaseKey → Text → Text → Call S Bool
  record_opened_at key owner sequence =
      update key (owned owner) (assign opened_at_name (AttributeValue.string sequence) ∷ bump ∷ [])

  -- Releasing a lease that another owner has taken is no error.
  unfoldable pub release : LeaseKey → Text → Call S Unit
  release key owner s =
      let (outcome, s') =
        update key (owned owner) (remove owner_name ∷ remove expiry_name ∷ bump ∷ []) s in
      (elim outcome [ ok b ↦ ok tt | err e ↦ err e ], s')

  -- The item under a key, read consistently.
  unfoldable pub item : Text → Call S (Option Item)
  item key s =
      let (got, s') = service.get_item store.table key s in
      (elim got [ ok found ↦ ok found | err text ↦ err (store_failure text) ], s')

  unfoldable pub adopt : LeaseKey → Text → Call S Bool
  adopt key checkpoint =
      update key (attribute_not_exists checkpoint_name)
        (assign checkpoint_name (AttributeValue.string checkpoint) ∷ bump ∷ [])

  -- `checkpoint_of(own).or(Some(checkpoint))`, with the opening that the row holds now
  unfoldable pub newer : Text → Option Item → LeaseState
  newer checkpoint own = record {
    checkpoint = elim (checkpoint_of own) [ none ↦ some checkpoint | some c ↦ some c ];
    opened_at = text_of own opened_at_name;
  }

  -- The arm of `read` for a table whose bare rows belong to the key's stream.
  unfoldable pub adopted : LeaseKey → Text → Option Text → Call S LeaseState
  adopted key checkpoint opened_at s =
      let (wrote, s1) = adopt key checkpoint s in
      elim wrote [
        | err e ↦ (err e, s1)
        | ok true ↦ (ok (record { checkpoint = some checkpoint; opened_at = opened_at }), s1)
        | ok false ↦
            let (own, s2) = item (row_key key) (service.meanwhile s1) in
            (elim own [ err e ↦ err e | ok found ↦ ok (newer checkpoint found) ], s2)
      ]

  -- `is_some_and(|stream| stream != key.stream())`
  abbrev pub foreign : LeaseKey → Bool
  foreign key = elim store.legacy [ none ↦ false | some stream ↦ not (str_eq stream key.stream) ]

  -- The last `match` of `read`, on the stream that the table names for its bare rows.
  unfoldable pub claimed : Option Text → LeaseKey → Text → Option Text → Call S LeaseState
  claimed (some _) key checkpoint opened_at s =
      adopted key checkpoint opened_at (service.meanwhile s)
  claimed none key checkpoint opened_at s =
      (err (unattributed_legacy_row store.table key.shard key.stream), s)

  -- `read` from the bare row on.
  unfoldable pub read_bare : LeaseKey → Option Text → Call S LeaseState
  read_bare key opened_at s =
      let (bare, s1) = item key.shard s in
      elim bare [
        | err e ↦ (err e, s1)
        | ok found ↦ elim (checkpoint_of found) [
          | none ↦ (ok (record { checkpoint = none; opened_at = opened_at }), s1)
          | some checkpoint ↦ claimed store.legacy key checkpoint opened_at s1
        ]
      ]

  unfoldable pub read : LeaseKey → Call S LeaseState
  read key s =
      let (own, s1) = item (row_key key) s in
      elim own [
        | err e ↦ (err e, s1)
        | ok found ↦ elim (checkpoint_of found) [
          | some c ↦
              (ok (record { checkpoint = some c; opened_at = text_of found opened_at_name }), s1)
          | none ↦
              if foreign key
              then (ok (record { checkpoint = none; opened_at = text_of found opened_at_name }), s1)
              else read_bare key (text_of found opened_at_name) (service.meanwhile s1)
        ]
      ]

  -- `impl LeaseStore for DynamoLeaseStore`
  abbrev pub dynamo : LeaseStore S
  dynamo = record {
    acquire = acquire;
    renew = renew;
    checkpoint = checkpoint;
    record_opened_at = record_opened_at;
    read = read;
    release = release;
  }
