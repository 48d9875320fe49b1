-- ===== src/Envelope/Headers.antt =====
-- The framework's `HeaderMap`, as the crate uses it, and `EnvelopeHeaders` of envelope/mod.rs. A header
-- is a name and a value, both as bytes.
pub mod Laws
pub mod Assoc
use ruststream_kinesis.Prelude.{
  ◌≡◌, Bool, true, false, Option, none, some, List, [], ◌∷◌, Text, codes, str_eq, ◌||◌,
  if◌then◌else◌,
}

abbrev pub Header : Type 0
Header = Text × Text

-- The value of the first header of that name.
unfoldable pub find : Text → List Header → Option Text
find name [] = none
find name ((n, value) ∷ headers) = if str_eq n name then some value else find name headers

-- No name stands twice.
abbrev pub Distinct : List Header → Type 0
Distinct [] = Unit
Distinct ((name, value) ∷ headers) = (find name headers ≡ none) × Distinct headers

-- `new`, `insert`, `get` and `iter` of a `HeaderMap`: `insert` replaces the value of a name that is
-- there, and `iter` lists each name once.
pub record HeaderMap : Type 1 where
  pub Map : Type 0
  pub new : Map
  pub insert : Text → Text → Map → Map
  pub get : Text → Map → Option Text
  pub iter : Map → List Header
  pub get-new : (name : Text) → get name new ≡ none
  pub get-insert :
      (name other value : Text) (m : Map)
      → get other (insert name value m) ≡ (if str_eq name other then some value else get other m)
  pub get-iter : (name : Text) (m : Map) → get name m ≡ find name (iter m)
  pub iter_once : (m : Map) → Distinct (iter m)

abbrev pub partition_key_header : Text
partition_key_header = codes "partition-key"

abbrev pub sequence_header : Text
sequence_header = codes "kinesis-sequence-number"

abbrev pub shard_header : Text
shard_header = codes "kinesis-shard-id"

-- The names that a record carries natively.
unfoldable pub is_native : Text → Bool
is_native name =
    str_eq name partition_key_header || str_eq name sequence_header || str_eq name shard_header

-- `EnvelopeHeaders::iter`, over the listed headers of a map
unfoldable pub written : List Header → List Header
written [] = []
written ((name, value) ∷ headers) =
    if is_native name then written headers else (name, value) ∷ written headers

-- `EnvelopeHeaders::is_empty`
unfoldable pub is_empty : List Header → Bool
is_empty headers = elim (written headers) [ [] ↦ true | _ ∷ _ ↦ false ]
