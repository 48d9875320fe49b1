-- ===== src/Envelope/Rsk/Wire.antt =====
-- The length-prefixed fields of rsk.rs. `usize` has 64 bits, so a length that was read fits it.
use ruststream_kinesis.Prelude.{
  ℕ, zero, suc, ◌+◌, ◌*◌, ◌/◌, ◌%◌, ◌^◌, Bool, true, false, Option, none, some, List, [], ◌∷◌, ◌++◌,
  Text, length, take, drop, ltb, if◌then◌else◌,
}
use ruststream_kinesis.Envelope.Headers.{Header}
use ruststream_kinesis.Envelope.Utf8.{is_utf8}

-- The `?` of a function that returns an `Option`.
infixl 5 ◌>>=◌
abbrev pub ◌>>=◌ : {A B : Type 0} → Option A → (A → Option B) → Option B
none >>= f = none
some a >>= f = f a

abbrev pub u32_mod : ℕ
u32_mod = 2 ^ 32

-- `u32::to_be_bytes`
abbrev be_bytes : ℕ → Text
be_bytes n = n / 2 ^ 24 ∷ n / 2 ^ 16 % 2 ^ 8 ∷ n / 2 ^ 8 % 2 ^ 8 ∷ n % 2 ^ 8 ∷ []

unfoldable pub field_len : ℕ → Text
field_len len = be_bytes (if ltb len u32_mod then len else 0)

unfoldable pub read_len : Text → Option (ℕ × Text)
read_len (a ∷ b ∷ c ∷ d ∷ rest) = some (a * 2 ^ 24 + b * 2 ^ 16 + c * 2 ^ 8 + d, rest)
read_len _ = none

-- `rest.split_at_checked(len)`
unfoldable pub split_at_checked : ℕ → Text → Option (Text × Text)
split_at_checked len rest =
    if ltb (length rest) len then none else some (take len rest, drop len rest)

unfoldable pub read_field : Text → Option (Text × Text)
unfolding split_at_checked
read_field bytes = do (len, rest) ← read_len bytes; split_at_checked len rest

unfoldable pub read_header : Text → Option (Text × Text × Text)
read_header block = do
  (name, rest) ← read_field block
  (value, rest) ← read_field rest
  if is_utf8 name then some (name, value, rest) else none

-- The `while` of `fields_parse`. Each header takes eight bytes at least, so a round for each byte of
-- the block is enough.
unfoldable pub fields_parse_rounds : ℕ → Text → Bool
fields_parse_rounds n [] = true
fields_parse_rounds zero (b ∷ block) = false
fields_parse_rounds (suc n) (b ∷ block) = elim (read_header (b ∷ block)) [
  | none ↦ false
  | some (name, value, rest) ↦ fields_parse_rounds n rest
]

unfoldable pub fields_parse : Text → Bool
unfolding fields_parse_rounds
fields_parse block = fields_parse_rounds (length block) block

-- The `while let` of `decode_fields`, as the headers in the order in which it inserts them.
unfoldable pub decode_fields_rounds : ℕ → Text → List Header
decode_fields_rounds zero block = []
decode_fields_rounds (suc n) block = elim (read_header block) [
  | none ↦ []
  | some (name, value, rest) ↦ (name, value) ∷ decode_fields_rounds n rest
]

unfoldable pub decode_fields : Text → List Header
unfolding decode_fields_rounds
decode_fields block = decode_fields_rounds (length block) block

-- The loop of `seal` over the headers.
unfoldable pub encode_fields : List Header → Text
encode_fields [] = []
encode_fields ((name, value) ∷ headers) =
    field_len (length name)
    ++ (name ++ (field_len (length value) ++ (value ++ encode_fields headers)))

-- The `sum` of `seal`.
unfoldable pub block_len : List Header → ℕ
block_len [] = 0
block_len ((name, value) ∷ headers) = 2 * 4 + length name + length value + block_len headers
