-- ===== src/Broker/Owner.antt =====
-- `owner_on` of broker.rs: the owner id of a broker that names none. The keyed hash of its sequence
-- number, the nonce, is an argument of 64 bits.
use ruststream_kinesis.Prelude.{
  ℕ, zero, suc, ◌+◌, ◌*◌, ◌-◌, ◌/◌, ◌%◌, ◌^◌, ◌<◌, ◌≡◌, Option, none, some, [], ◌∷◌, ◌++◌, Text,
  codes, ltb, if◌then◌else◌, arith,
}

-- A lower-case hexadecimal digit.
unfoldable pub hex_digit : ℕ → ℕ
hex_digit d = if ltb d 10 then b'0' + d else b'a' + (d - 10)

-- `{nonce:016x}`: the digits of a number below 16 ^ 16, before `after`
unfoldable pub hex : ℕ → ℕ → Text → Text
hex zero n after = after
hex (suc count) n after = hex count (n / 16) (hex_digit (n % 16) ∷ after)

-- The decimal digits, on as many rounds as there may be: a `u32` has ten at most.
unfoldable pub decimal : ℕ → ℕ → Text → Text
decimal zero n after = after
decimal (suc rounds) n after =
    let rest = decimal rounds (n / 10) ((b'0' + n % 10) ∷ after) in
    if ltb n 10 then (b'0' + n) ∷ after else rest

-- `rs-{pid}-{nonce:016x}`, from the pid on
unfoldable pub process : ℕ → ℕ → Text
unfolding hex decimal
process pid nonce = decimal 10 pid [] ++ (b'-' ∷ hex 16 nonce [])

unfoldable pub owner_on : Option Text → ℕ → ℕ → Text
owner_on none pid nonce = codes "rs-" ++ process pid nonce
owner_on (some []) pid nonce = codes "rs-" ++ process pid nonce
owner_on (some (c ∷ host)) pid nonce = codes "rs-" ++ ((c ∷ host) ++ (b'-' ∷ process pid nonce))

abbrev power : ℕ → ℕ
power zero = 1
power (suc count) = 16 * power count

hex_digit-injective : (c d : ℕ) → c < 16 → d < 16 → hex_digit c ≡ hex_digit d → c ≡ d
unfolding hex_digit
hex_digit-injective c d h k e = ground arith

hex-injective :
    (count m n : ℕ) (after later : Text)
    → m < power count
    → n < power count
    → hex count m after ≡ hex count n later
    → (m ≡ n) × (after ≡ later)
unfolding hex
hex-injective zero m n after later h k e = (omega arith, e)
hex-injective (suc count) m n after later h k e =
    let (upper, tails) =
      hex-injective count (m / 16) (n / 16) (hex_digit (m % 16) ∷ after)
        (hex_digit (n % 16) ∷ later) (omega arith) (omega arith) e in
    let digit : hex_digit (m % 16) ≡ hex_digit (n % 16) = cc in
    let lower : m % 16 ≡ n % 16 =
      hex_digit-injective (m % 16) (n % 16) (omega arith) (omega arith) digit in
    (omega arith, cc)

pub ++-cancel : (s x y : Text) → s ++ x ≡ s ++ y → x ≡ y
++-cancel [] x y e = e
++-cancel (c ∷ s) x y e = ++-cancel s x y (cc)

process-injective : (pid m n : ℕ) → m < 2 ^ 64 → n < 2 ^ 64 → process pid m ≡ process pid n → m ≡ n
unfolding process
process-injective pid m n h k e =
    let tails : (b'-' ∷ hex 16 m []) ≡ (b'-' ∷ hex 16 n []) = ++-cancel (decimal 10 pid []) _ _ e in
    (hex-injective 16 m n [] [] (omega arith) (omega arith) (cc)).0

-- Two brokers of one host and one process id whose nonces differ get different owner ids.
pub owner_on-injective :
    (host : Option Text) (pid m n : ℕ)
    → m < 2 ^ 64
    → n < 2 ^ 64
    → owner_on host pid m ≡ owner_on host pid n
    → m ≡ n
unfolding owner_on
owner_on-injective none pid m n h k e =
    process-injective pid m n h k (++-cancel (codes "rs-") _ _ e)
owner_on-injective (some []) pid m n h k e =
    process-injective pid m n h k (++-cancel (codes "rs-") _ _ e)
owner_on-injective (some (c ∷ host)) pid m n h k e =
    let rest : ((c ∷ host) ++ (b'-' ∷ process pid m)) ≡ ((c ∷ host) ++ (b'-' ∷ process pid n)) =
      ++-cancel (codes "rs-") _ _ e in
    let tail : (b'-' ∷ process pid m) ≡ (b'-' ∷ process pid n) = ++-cancel (c ∷ host) _ _ rest in
    process-injective pid m n h k (cc)
