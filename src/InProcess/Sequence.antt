-- ===== src/InProcess/Sequence.antt =====
-- The sequence numbers of in_process/seek.rs: a record's place in its log, as a 56-digit decimal.
pub mod RoundTrip
use ruststream_kinesis.Prelude.{
  ℕ, zero, suc, ◌+◌, ◌*◌, ◌-◌, ◌/◌, ◌%◌, ◌^◌, Bool, true, false, Option, none, some, List, [], ◌∷◌,
  ◌++◌, ◌&&◌, Text, codes, length, ltb, leb, ◌==◌, if◌then◌else◌,
}

-- `SEQUENCE_PREFIX`
abbrev pub sequence_prefix : Text
sequence_prefix = codes "49"

abbrev pub width : ℕ
width = 54

-- The decimal digits of `n`, the least `count` of them, before `after`. `format!("{index:054}")` is
-- these digits for an index below `10 ^ 54`, and every `usize` is.
unfoldable pub digits : ℕ → ℕ → Text → Text
digits zero n after = after
digits (suc count) n after = digits count (n / 10) ((b'0' + n % 10) ∷ after)

unfoldable pub sequence_of : ℕ → Text
unfolding digits
sequence_of index = sequence_prefix ++ digits width index []

-- `digits.parse()`: `None` for anything but digits, and for a number past the width of `usize`. The
-- sign that `parse` takes before the digits is taken here too.
unfoldable pub parse_digits : ℕ → Text → Option ℕ
parse_digits acc [] = some acc
parse_digits acc (d ∷ text) =
    let rest = parse_digits (acc * 10 + (d - b'0')) text in
    if leb b'0' d && leb d b'9' then rest else none

abbrev pub usize_mod : ℕ
usize_mod = 2 ^ 64

abbrev in_usize : Option ℕ → Option ℕ
in_usize none = none
in_usize (some n) = if ltb n usize_mod then some n else none

unfoldable pub parse : Text → Option ℕ
unfolding parse_digits
parse [] = none
parse (c ∷ []) = in_usize (parse_digits 0 (c ∷ []))
parse (c ∷ d ∷ text) =
    in_usize (if c == b'+' then parse_digits 0 (d ∷ text) else parse_digits 0 (c ∷ d ∷ text))

-- `strip_prefix("49")`
unfoldable pub strip : Text → Option Text
strip (a ∷ b ∷ text) = if (a == b'4') && (b == b'9') then some text else none
strip _ = none

unfoldable pub index_of : Text → Option ℕ
unfolding strip parse
index_of sequence = elim (strip sequence) [
  | none ↦ none
  | some text ↦ if length text == width then parse text else none
]
