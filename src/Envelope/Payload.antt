-- ===== src/Envelope/Payload.antt =====
-- `Body` of envelope/mod.rs: where a record's payload sits.
use ruststream_kinesis.Prelude.{
  ℕ, ◌-◌, ◌≤◌, ◌≡◌, refl, arith, take_past_end, length-drop, ◌||◌, Option, none, some, Text, take,
  drop, length, ltb, if◌then◌else◌,
}

pub data Body : Type 0 where
  whole : Body
  within : ℕ → ℕ → Body  -- from, up to
  decoded : Text → Body

unfoldable pub fit : Body → ℕ → Body
fit (within start end) record_len =
    if ltb end start || ltb record_len end then whole else within start end
fit body record_len = body

-- `record.get(start..end)`
unfoldable pub get_range : Text → ℕ → ℕ → Option Text
get_range record_data start end =
    if ltb end start || ltb (length record_data) end
    then none
    else some (take (end - start) (drop start record_data))

abbrev unwrap_or : Option Text → Text → Text
unwrap_or none t = t
unwrap_or (some s) t = s

unfoldable pub payload : Body → Text → Text
unfolding get_range
payload whole record_data = record_data
payload (within start end) record_data = unwrap_or (get_range record_data start end) record_data
payload (decoded bytes) record_data = bytes

-- A body that runs to the end of the record is the rest of it.
pub payload_to_end :
    (record_data : Text) (start : ℕ)
    → start ≤ length record_data
    → payload (fit (within start (length record_data)) (length record_data)) record_data
      ≡ drop start record_data
unfolding fit payload
payload_to_end record_data start h = ground (
  arith,
  take_past_end (drop start record_data) (length record_data - start)
      (omega (arith, length-drop start record_data)),
)

-- What a body names never goes past the record: a range that does not fit is the whole record.
pub fit-payload :
    (b : Body) (record_data : Text)
    → payload (fit b (length record_data)) record_data ≡ payload b record_data
unfolding fit payload
fit-payload whole record_data = refl
fit-payload (within start end) record_data = ground arith
fit-payload (decoded bytes) record_data = refl
