-- ===== src/Publisher/Spread.antt =====
-- The process-unique partition keys of publisher.rs: `spread_key` draws from one counter of the process,
-- for each record that nothing names a key for.
use ruststream_kinesis.Prelude.{
  ℕ, zero, suc, ◌+◌, ◌*◌, ◌/◌, ◌%◌, ◌-◌, ◌^◌, ◌<◌, ◌≡◌, ◌≢◌, sym, ap, ◌∙◌, Bool, true, false,
  Option, none, some, List, [], ◌∷◌, ◌++◌, Text, codes, ltb, if◌then◌else◌, All, Bool-cases,
  Option-cases, length, ◌≤◌, refl, inl, inr, arith,
}
use ruststream_kinesis.Envelope.Headers.{HeaderMap, partition_key_header}
use ruststream_kinesis.Publisher.{
  KinesisPublishOptions, key_without_step, named_by_step, resolve_partition_key,
}
use ruststream_kinesis.Broker.Owner.{decimal, ++-cancel}

-- `rs-{pid}-{seq}`, of a `u32` and a `u64`.
unfoldable pub spread_key : ℕ → ℕ → Text
unfolding decimal
spread_key pid seq = codes "rs-" ++ (decimal 10 pid [] ++ (b'-' ∷ decimal 20 seq []))

-- One call of `resolve_partition_key`.
pub record Call (h : HeaderMap) : Type 0 where
  pub options : Option KinesisPublishOptions
  pub headers : h.Map
  pub from_policy : Option Text

abbrev pub is_none : {A : Type 0} → Option A → Bool
is_none none = true
is_none (some x) = false

-- Neither the step nor the header nor the policy names a key.
unfoldable pub is_unnamed : (h : HeaderMap) → Call h → Bool
is_unnamed h call =
    if is_none (named_by_step call.options)
    then (if is_none (h.get partition_key_header call.headers)
        then is_none call.from_policy
        else false)
    else false

-- The key, and the counter after it, which `fetch_add` raises when a key is drawn.
unfoldable pub resolve : (h : HeaderMap) → ℕ → Call h → ℕ → Text × ℕ
resolve h pid call seq = (
  resolve_partition_key h call.options call.headers call.from_policy (spread_key pid seq),
  if is_unnamed h call then (seq + 1) % 2 ^ 64 else seq,
)

-- The keys that are drawn over a run of calls.
unfoldable pub drawn : (h : HeaderMap) → ℕ → List (Call h) → ℕ → List Text
unfolding resolve
drawn h pid [] seq = []
drawn h pid (call ∷ calls) seq =
    let (key, seq') = resolve h pid call seq in
    let rest = drawn h pid calls seq' in if is_unnamed h call then key ∷ rest else rest

abbrev pub Distinct : List Text → Type 0
Distinct [] = Unit
Distinct (key ∷ keys) = All (λ other. key ≢ other) keys × Distinct keys

-- The number that decimal digits spell, after a number already read.
number : ℕ → Text → ℕ
number acc [] = acc
number acc (c ∷ text) = number (10 * acc + (c - b'0')) text

abbrev power : ℕ → ℕ
power zero = 1
power (suc rounds) = 10 * power rounds

number-decimal :
    (rounds n : ℕ) (after : Text)
    → n < power rounds
    → number 0 (decimal rounds n after) ≡ number n after
unfolding decimal number
number-decimal zero n after fits = ap (λ m. number m after) (omega arith)
number-decimal (suc rounds) n after fits = elim (Bool-cases (ltb n 10)) [
  | inl short ↦ rw (short, decimal) (ap (λ m. number m after) (omega arith))
  | inr long ↦
      rw (long, decimal)
        (number-decimal rounds (n / 10) ((b'0' + n % 10) ∷ after) (omega arith)
          ∙ ap (λ m. number m after) (omega arith))
]

spread_key-injective :
    (pid m n : ℕ) → m < 2 ^ 64 → n < 2 ^ 64 → spread_key pid m ≡ spread_key pid n → m ≡ n
unfolding spread_key number
spread_key-injective pid m n h k e =
    let tails : (b'-' ∷ decimal 20 m []) ≡ (b'-' ∷ decimal 20 n []) =
      ++-cancel (decimal 10 pid []) _ _ (++-cancel (codes "rs-") _ _ e) in
    let digits : decimal 20 m [] ≡ decimal 20 n [] = cc in
    sym (number-decimal 20 m [] (omega arith))
    ∙ ap (number 0) digits
    ∙ number-decimal 20 n [] (omega arith)

unnamed_lem :
    (h : HeaderMap) (call : Call h) (fresh : Text)
    → is_unnamed h call ≡ true
    → resolve_partition_key h call.options call.headers call.from_policy fresh ≡ fresh
unfolding is_unnamed resolve_partition_key key_without_step
unnamed_lem h call fresh unnamed = elim (Option-cases (named_by_step call.options)) [
  | inr (key, named) ↦ ground (arith, unnamed, named)
  | inl no_step ↦ elim (Option-cases (h.get partition_key_header call.headers)) [
    | inr (key, named) ↦ ground (arith, unnamed, no_step, named)
    | inl no_header ↦ elim (Option-cases call.from_policy) [
      | inr (key, named) ↦ ground (arith, unnamed, no_step, no_header, named)
      | inl no_policy ↦
          rw (no_step, resolve_partition_key)
            (rw (no_header, resolve_partition_key) (rw (no_policy, key_without_step) refl))
    ]
  ]
]

module _ (h : HeaderMap) (pid : ℕ) where
  -- A key that the counter gives from some number on.
  abbrev Drawn : ℕ → Text → Type 0
  Drawn low key = (n : ℕ) × (low ≤ n) × (n < 2 ^ 64) × (key ≡ spread_key pid n)

  drawn-Drawn :
      (calls : List (Call h)) (low seq : ℕ)
      → low ≤ seq
      → seq + length calls < 2 ^ 64
      → All (Drawn low) (drawn h pid calls seq)
  unfolding drawn resolve
  drawn-Drawn [] low seq from fits = tt
  drawn-Drawn (call ∷ calls) low seq from fits = elim (Bool-cases (is_unnamed h call)) [
    | inr named ↦ rw (named, drawn) (drawn-Drawn calls low seq from (omega arith))
    | inl unnamed ↦
        rw (unnamed, drawn)
          (
            (seq, from, omega arith, unnamed_lem h call (spread_key pid seq) unnamed),
            drawn-Drawn calls low ((seq + 1) % 2 ^ 64) (omega arith) (omega arith),
          )
  ]

  apart :
      (seq : ℕ) (key : Text) (keys : List Text)
      → seq < 2 ^ 64
      → key ≡ spread_key pid seq
      → All (Drawn (suc seq)) keys
      → All (λ other. key ≢ other) keys
  apart seq key [] fits same rest = tt
  apart seq key (other ∷ keys) fits same ((n, after, short, e), rest) = (
    λ equal.
        let clash = spread_key-injective pid seq n fits short (sym same ∙ equal ∙ e) in
        omega (arith, clash),
    apart seq key keys fits same rest,
  )

  -- Of fewer than 2^64 records that a process publishes, from where its counter has not wrapped around,
  -- whichever of them name a partition key, those for which nothing names one get keys of which no two
  -- are the same.
  pub drawn-Distinct :
      (calls : List (Call h)) (seq : ℕ)
      → seq + length calls < 2 ^ 64
      → Distinct (drawn h pid calls seq)
  unfolding drawn resolve
  drawn-Distinct [] seq fits = tt
  drawn-Distinct (call ∷ calls) seq fits = elim (Bool-cases (is_unnamed h call)) [
    | inr named ↦ rw (named, drawn) (drawn-Distinct calls seq (omega arith))
    | inl unnamed ↦
        rw (unnamed, drawn)
          (
            apart seq _ (drawn h pid calls ((seq + 1) % 2 ^ 64)) (omega arith)
                (unnamed_lem h call (spread_key pid seq) unnamed)
                (drawn-Drawn calls (suc seq) ((seq + 1) % 2 ^ 64) (omega arith) (omega arith)),
            drawn-Distinct calls ((seq + 1) % 2 ^ 64) (omega arith),
          )
  ]
