-- ===== src/Envelope/Rsk/TextBlock.antt =====
-- `decode_text` of rsk.rs: one `name: value` line for each header, in the envelope of earlier
-- releases; with the functions of `str` that it calls.
use mathlib.Core.List.{reverse}
use ruststream_kinesis.Prelude.{
  ℕ, zero, suc, Bool, true, Option, none, some, List, [], ◌∷◌, map, Text, length, ◌==◌,
  if◌then◌else◌,
}
use ruststream_kinesis.Envelope.Headers.{Header}
use ruststream_kinesis.Envelope.Utf8.{from_utf8_lossy}

-- Adds a byte to the first line.
push : ℕ → List Text → List Text
push b [] = (b ∷ []) ∷ []
push b (line ∷ lines) = (b ∷ line) ∷ lines

-- The pieces between line feeds; a last piece that is empty is none.
split_lines : Text → List Text
split_lines [] = []
split_lines (b ∷ bytes) = let rest = split_lines bytes in if b == 10 then [] ∷ rest else push b rest

-- A carriage return at the end of a piece, before its line feed, is no part of the line.
strip_cr : Text → Text
strip_cr [] = []
strip_cr (b ∷ []) = if b == 13 then [] else b ∷ []
strip_cr (b ∷ c ∷ line) = b ∷ strip_cr (c ∷ line)

-- Whether the text ends with a line feed.
ends_line : Text → Bool
ends_line [] = true
ends_line (b ∷ []) = b == 10
ends_line (b ∷ c ∷ bytes) = ends_line (c ∷ bytes)

-- The last piece keeps its carriage return if no line feed follows.
strip_all : Bool → List Text → List Text
strip_all ended [] = []
strip_all ended (line ∷ []) = (if ended then strip_cr line else line) ∷ []
strip_all ended (line ∷ next ∷ lines) = strip_cr line ∷ strip_all ended (next ∷ lines)

-- `str::lines`
unfoldable pub lines : Text → List Text
unfolding push split_lines strip_cr ends_line strip_all
lines text = strip_all (ends_line text) (split_lines text)

-- `str::split_once(':')`
unfoldable pub split_colon : Text → Option (Text × Text)
split_colon [] = none
split_colon (b ∷ bytes) =
    if b == b':'
    then some ([], bytes)
    else elim (split_colon bytes) [ none ↦ none | some (name, value) ↦ some (b ∷ name, value) ]

-- The characters of Unicode's White_Space, as bytes.
abbrev spaces : List Text
spaces =
    (9 ∷ [])
    ∷ (10 ∷ [])
    ∷ (11 ∷ [])
    ∷ (12 ∷ [])
    ∷ (13 ∷ [])
    ∷ (32 ∷ [])
    ∷ (0xC2 ∷ 0x85 ∷ [])
    ∷ (0xC2 ∷ 0xA0 ∷ [])
    ∷ (0xE1 ∷ 0x9A ∷ 0x80 ∷ [])
    ∷ (0xE2 ∷ 0x80 ∷ 0x80 ∷ [])
    ∷ (0xE2 ∷ 0x80 ∷ 0x81 ∷ [])
    ∷ (0xE2 ∷ 0x80 ∷ 0x82 ∷ [])
    ∷ (0xE2 ∷ 0x80 ∷ 0x83 ∷ [])
    ∷ (0xE2 ∷ 0x80 ∷ 0x84 ∷ [])
    ∷ (0xE2 ∷ 0x80 ∷ 0x85 ∷ [])
    ∷ (0xE2 ∷ 0x80 ∷ 0x86 ∷ [])
    ∷ (0xE2 ∷ 0x80 ∷ 0x87 ∷ [])
    ∷ (0xE2 ∷ 0x80 ∷ 0x88 ∷ [])
    ∷ (0xE2 ∷ 0x80 ∷ 0x89 ∷ [])
    ∷ (0xE2 ∷ 0x80 ∷ 0x8A ∷ [])
    ∷ (0xE2 ∷ 0x80 ∷ 0xA8 ∷ [])
    ∷ (0xE2 ∷ 0x80 ∷ 0xA9 ∷ [])
    ∷ (0xE2 ∷ 0x80 ∷ 0xAF ∷ [])
    ∷ (0xE2 ∷ 0x81 ∷ 0x9F ∷ [])
    ∷ (0xE3 ∷ 0x80 ∷ 0x80 ∷ [])
    ∷ []

strip_prefix : Text → Text → Option Text
strip_prefix [] text = some text
strip_prefix (a ∷ prefix) [] = none
strip_prefix (a ∷ prefix) (b ∷ text) = if a == b then strip_prefix prefix text else none

strip_any : List Text → Text → Option Text
unfolding strip_prefix
strip_any [] text = none
strip_any (prefix ∷ prefixes) text = elim (strip_prefix prefix text) [
  | some rest ↦ some rest
  | none ↦ strip_any prefixes text
]

-- Strips the characters off the front; a round for each byte is enough.
strip_front : ℕ → List Text → Text → Text
unfolding strip_any
strip_front zero chars text = text
strip_front (suc n) chars text = elim (strip_any chars text) [
  | none ↦ text
  | some rest ↦ strip_front n chars rest
]

-- `str::trim`
unfoldable pub trim : Text → Text
unfolding strip_front
trim text =
    let front = strip_front (length text) spaces text in
    reverse (strip_front (length front) (map reverse spaces) (reverse front))

-- The headers of the lines that have a colon.
fields_of : List Text → List Header
fields_of [] = []
fields_of (line ∷ lines) = elim (split_colon line) [
  | none ↦ fields_of lines
  | some (name, value) ↦ (trim name, trim value) ∷ fields_of lines
]

-- The headers in the order in which `decode_text` inserts them.
unfoldable pub decode_text : Text → List Header
unfolding lines split_colon trim fields_of from_utf8_lossy
decode_text block = fields_of (lines (from_utf8_lossy block))
