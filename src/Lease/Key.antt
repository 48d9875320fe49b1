-- ===== src/Lease/Key.antt =====
-- The lease keys of lease.rs: their equality, and the `stream:shard` form of a string key.
use ruststream_kinesis.Prelude.{
  ◌≡◌, ◌≢◌, refl, ◌↔◌, true, [], ◌∷◌, ◌++◌, Text, All, str_eq_iff, arith,
}
use ruststream_kinesis.Lease.{LeaseKey, key_eq, to_string}

pub key_eq_iff : (a b : LeaseKey) → (key_eq a b ≡ true) ↔ (a ≡ b)
unfolding key_eq
key_eq_iff a b = ground (arith, str_eq_iff a.stream b.stream, str_eq_iff a.shard b.shard)

pub key_eq_refl : (a : LeaseKey) → key_eq a a ≡ true
key_eq_refl a = (key_eq_iff a a).1 refl

-- A stream name holds no colon.
abbrev pub HasNoColon : Text → Type 0
HasNoColon = All (λ c. c ≢ b':')

split_unique :
    (s t x y : Text)
    → HasNoColon s
    → HasNoColon t
    → (s ++ b':' ∷ x) ≡ (t ++ b':' ∷ y)
    → (s ≡ t) × (x ≡ y)
split_unique [] [] x y hs ht e = (refl, cc)
split_unique [] (d ∷ t) x y hs ht e = absurd (ht.0 (cc))
split_unique (c ∷ s) [] x y hs ht e = absurd (hs.0 (cc))
split_unique (c ∷ s) (d ∷ t) x y hs ht e =
    let (p, q) = split_unique s t x y hs.1 ht.1 (cc) in (cc, q)

-- Two shards of streams whose names hold no colon have the same row key only if they are one shard of
-- one stream.
pub to_string-injective :
    (a b : LeaseKey) → HasNoColon a.stream → HasNoColon b.stream → to_string a ≡ to_string b → a ≡ b
unfolding to_string
to_string-injective a b ha hb e =
    let (p, q) = split_unique a.stream b.stream a.shard b.shard ha hb e in ground arith
