-- ===== src/Envelope/Utf8.antt =====
-- Rust's `str::from_utf8` and `String::from_utf8_lossy`: the well-formed byte sequences of UTF-8, the
-- shortest form only, with no surrogate and nothing past U+10FFFF.
use ruststream_kinesis.Prelude.{
  ℕ, zero, suc, Bool, true, false, ◌&&◌, Option, none, some, [], ◌∷◌, ◌++◌, Text, leb, ltb, ◌==◌,
  if◌then◌else◌,
}

between : ℕ → ℕ → ℕ → Bool
between lo hi b = leb lo b && leb b hi

-- What the second byte may be, by the first one of a sequence of three or four.
second : ℕ → ℕ → Bool
unfolding between
second first b =
    if first == 0xE0
    then between 0xA0 0xBF b
    else if first == 0xED
    then between 0x80 0x9F b
    else if first == 0xF0
    then between 0x90 0xBF b
    else if first == 0xF4
    then between 0x80 0x8F b
    else between 0x80 0xBF b

-- Between two bytes: a character begins, or a first byte wants its second and so many more, or so many
-- continuations are due beside the next.
pub data State : Type 0 where
  start : State
  after_first : ℕ → ℕ → State
  due : ℕ → State

step : ℕ → State → Option State
unfolding second
step b start =
    if ltb b 0x80
    then some start
    else if between 0xC2 0xDF b
    then some (due 0)
    else if between 0xE0 0xEF b
    then some (after_first b 0)
    else if between 0xF0 0xF4 b
    then some (after_first b 1)
    else none
step b (after_first first more) = if second first b then some (due more) else none
step b (due zero) = if between 0x80 0xBF b then some start else none
step b (due (suc more)) = if between 0x80 0xBF b then some (due more) else none

check : State → Text → Bool
check start [] = true
check _ [] = false
check state (b ∷ bytes) = elim (step b state) [ none ↦ false | some next ↦ check next bytes ]

-- `str::from_utf8(bytes).is_ok()`
unfoldable pub is_utf8 : Text → Bool
unfolding step check
is_utf8 bytes = check start bytes

-- U+FFFD
abbrev replacement : Text
replacement = 0xEF ∷ 0xBF ∷ 0xBD ∷ []

-- A byte where a character begins; `rest` goes on from the state after it, with the bytes read so far
-- of a character that is not whole.
begin : ℕ → (State → Text → Text) → Text
begin b rest = elim (step b start) [
  | none ↦ replacement ++ rest start []
  | some start ↦ b ∷ rest start []
  | some state ↦ rest state (b ∷ [])
]

-- Each longest prefix of a character that does not go on is one replacement.
lossy : State → Text → Text → Text
lossy start partial [] = []
lossy _ partial [] = replacement
lossy start partial (b ∷ bytes) = begin b (λ state read. lossy state read bytes)
lossy state partial (b ∷ bytes) = elim (step b state) [
  | none ↦ replacement ++ begin b (λ next read. lossy next read bytes)
  | some start ↦ (partial ++ b ∷ []) ++ lossy start [] bytes
  | some next ↦ lossy next (partial ++ b ∷ []) bytes
]

-- `String::from_utf8_lossy(bytes)`
unfoldable pub from_utf8_lossy : Text → Text
unfolding step begin lossy
from_utf8_lossy bytes = lossy start [] bytes
