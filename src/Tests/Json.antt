-- ===== src/Tests/Json.antt =====
-- The JSON frames over a small JSON library of its own.
use native.Mathlib.Decide.{ℕ_discrete}
use ruststream_kinesis.Prelude.{
  ℕ, zero, suc, ◌≡◌, refl, ap, sym, Option, none, some, List, [], ◌∷◌, ◌++◌, append-nil, Text,
  codes, Result, ok, err, length, take_past_end, arith,
}
use ruststream_kinesis.Envelope.Headers.{Header}
use ruststream_kinesis.Envelope.Framed.{ReadsBack}
use ruststream_kinesis.Envelope.Framed.Binary.{headers_name, payload_name}
use ruststream_kinesis.Envelope.Framed.Json.{
  Value, table, raw, string, Slot, slice, Json, base64_name, json_codec,
}
use ruststream_kinesis.Envelope.Framed.Json.Frames.{IsFaithful, json-ReadsBack}

abbrev event : List Header
event = (codes "event", codes "created") ∷ []

Document-discrete : Discrete (List (Text × Value))
Document-discrete = hlevel ℕ_discrete

abbrev with_raw : Text → List (Text × Value)
with_raw content = (headers_name, table event) ∷ (payload_name, raw content) ∷ []

abbrev with_string : Text → List (Text × Value)
with_string content = (headers_name, table event) ∷ (base64_name, string content) ∷ []

abbrev content_of : Value → Text
content_of (raw t) = t
content_of (string t) = t
content_of (table t) = []

abbrev last_content : List (Text × Value) → Text
last_content (x ∷ y ∷ []) = content_of y.1
last_content _ = []

-- Two documents are written, one of each kind.
write_small : List (Text × Value) → Result Text Text
unfolding Document-discrete
write_small d = elim (Document-discrete d (with_raw (last_content d))) [
  | yes e ↦ ok (0 ∷ last_content d)
  | no _ ↦ elim (Document-discrete d (with_string (last_content d))) [
    | yes e ↦ ok (1 ∷ last_content d)
    | no _ ↦ err []
  ]
]

abbrev headers_slot : Slot
headers_slot = record { name = headers_name; start = 0; stop = 0 }

abbrev payload_slot : Text → Text → Slot
payload_slot name content = record { name = name; start = 1; stop = suc (length content) }

fields_small : Text → Option (List Slot)
fields_small (zero ∷ content) = some (headers_slot ∷ payload_slot payload_name content ∷ [])
fields_small (suc zero ∷ content) = some (headers_slot ∷ payload_slot base64_name content ∷ [])
fields_small _ = none

raw_small : Text → Option Text
raw_small [] = none
raw_small (c ∷ content) = some (c ∷ content)

abbrev small : Json
small = record {
  raw_value = raw_small;
  to_writer = write_small;
  fields = fields_small;
  string_at = λ t. some (some t);
  table_at = λ t. some event;
  base64 = λ t. t;
  decode_base64 = λ t. some t;
}

raw-written :
    (hs : List Header) (value record_data : Text)
    → write_small ((headers_name, table hs) ∷ (payload_name, raw value) ∷ []) ≡ ok record_data
    → (hs ≡ event) × (record_data ≡ 0 ∷ value)
unfolding write_small
raw-written hs value record_data h =
    elim (Document-discrete ((headers_name, table hs) ∷ (payload_name, raw value) ∷ [])
      (with_raw value)) [ yes e ↦ ground arith | no _ ↦ ground arith ]

string-written :
    (hs : List Header) (value record_data : Text)
    → write_small ((headers_name, table hs) ∷ (base64_name, string value) ∷ []) ≡ ok record_data
    → (hs ≡ event) × (record_data ≡ 1 ∷ value)
unfolding write_small
string-written hs value record_data h =
    elim (Document-discrete ((headers_name, table hs) ∷ (base64_name, string value) ∷ [])
      (with_raw value)) [ yes e ↦ ground arith | no _ ↦ ground arith ]

raw-inside : (content value : Text) → raw_small content ≡ some value → content ≡ [] ++ (value ++ [])
unfolding raw_small
raw-inside [] value h = cc
raw-inside (c ∷ content) value h = ground (arith, append-nil value)

sliced : (name value : Text) (c : ℕ) → slice (c ∷ value) (payload_slot name value) ≡ value
sliced name value c = ground (arith, take_past_end value (length value))

small-IsFaithful : IsFaithful small
unfolding fields_small
small-IsFaithful = record {
  raw_value_inside = λ content value h. ([], [], raw-inside content value h);
  embedded_fields = λ hs value record_data h.
      let (e, f) = raw-written hs value record_data h in
      (
        headers_slot,
        payload_slot payload_name value,
        ap fields_small f,
        (refl, omega arith, omega arith),
        (refl, omega arith, omega (arith, ap length f)),
        ap some (sym e),
        rw f (sliced payload_name value 0),
      );
  encoded_fields = λ hs value record_data h.
      let (e, f) = string-written hs value record_data h in
      (
        headers_slot,
        payload_slot base64_name value,
        ap fields_small f,
        (refl, omega arith, omega arith),
        (refl, omega arith, omega (arith, ap length f)),
        ap some (sym e),
        rw f (ap (λ (t : Text). some (some t)) (sliced base64_name value 1)),
      );
  decode_base64-base64 = λ t. refl;
}

json-ReadsBack_example : ReadsBack (json_codec small)
json-ReadsBack_example = json-ReadsBack small small-IsFaithful
