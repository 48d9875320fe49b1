-- ===== src/InProcess/Sequence/RoundTrip.antt =====
-- The sequence numbers of in_process/seek.rs, written and read back.
use ruststream_kinesis.Prelude.{
  ℕ, zero, suc, ◌+◌, ◌*◌, ◌-◌, ◌/◌, ◌%◌, ◌<◌, ◌≡◌, refl, sym, ap, subst, none, false, ◌==◌, ◌∙◌,
  some, [], ◌∷◌, Text, length, arith, if◌then◌else◌,
}
use ruststream_kinesis.InProcess.Sequence.{
  sequence_of, index_of, digits, parse_digits, parse, strip, width, usize_mod,
}

-- The powers of ten.
abbrev power : ℕ → ℕ
power zero = 1
power (suc count) = 10 * power count

length-digits : (count n : ℕ) (after : Text) → length (digits count n after) ≡ count + length after
unfolding digits
length-digits zero n after = omega arith
length-digits (suc count) n after =
    omega (arith, length-digits count (n / 10) ((b'0' + n % 10) ∷ after))

-- The last digit, after the others are read.
read_digit :
    (n : ℕ) (after : Text) → parse_digits (n / 10) ((b'0' + n % 10) ∷ after) ≡ parse_digits n after
unfolding parse_digits
read_digit n after =
    let whole : n / 10 * 10 + (b'0' + n % 10 - b'0') ≡ n = omega arith in ground (arith, whole)

-- Digits are read back before what follows them.
parse_digits-digits :
    (count n : ℕ) (after : Text)
    → n < power count
    → parse_digits 0 (digits count n after) ≡ parse_digits n after
unfolding digits parse_digits
parse_digits-digits zero n after small = ap (λ k. parse_digits k after) (omega arith)
parse_digits-digits (suc count) n after small =
    parse_digits-digits count (n / 10) ((b'0' + n % 10) ∷ after) (omega arith) ∙ read_digit n after

-- The first digit stands for a digit.
digits_cons :
    (count n : ℕ) (after : Text)
    → (d : ℕ) × (rest : Text) × (digits (suc count) n after ≡ (b'0' + d) ∷ rest) × (d < 10)
unfolding digits
digits_cons zero n after = (n % 10, after, refl, omega arith)
digits_cons (suc count) n after = digits_cons count (n / 10) ((b'0' + n % 10) ∷ after)

parse_lem :
    (d n : ℕ) (rest : Text)
    → d < 10
    → n < usize_mod
    → parse_digits 0 ((b'0' + d) ∷ rest) ≡ some n
    → parse ((b'0' + d) ∷ rest) ≡ some n
unfolding parse
parse_lem d n [] digit small e = rw e (ground arith)
parse_lem d n (x ∷ rest) digit small e =
    let no_sign : ((b'0' + d) == b'+') ≡ false = ground arith in rw no_sign (rw e (ground arith))

parse_none : (n : ℕ) → parse_digits n [] ≡ some n
unfolding parse_digits
parse_none n = refl

index_of_prefixed :
    (text : Text)
    → index_of (b'4' ∷ b'9' ∷ text) ≡ (if length text == width then parse text else none)
unfolding index_of strip
index_of_prefixed text = refl

-- The sequence number of a place below the width of `usize` is 56 characters long, and reads back as
-- that place.
pub index_of-sequence_of :
    (index : ℕ)
    → index < usize_mod
    → (length (sequence_of index) ≡ 56) × (index_of (sequence_of index) ≡ some index)
unfolding sequence_of
index_of-sequence_of index small =
    let text : Text = digits width index [] in
    let long : length text ≡ width = length-digits width index [] in
    let (d, rest, e, digit) = digits_cons 53 index [] in
    let read : parse text ≡ some index =
      subst (λ t. parse t ≡ some index) (sym e)
        (parse_lem d index rest digit small (
          ap (parse_digits 0) (sym e)
          ∙ parse_digits-digits width index [] (omega arith)
          ∙ parse_none index)) in
    (omega (arith, long), index_of_prefixed text ∙ ground (arith, long, read))
