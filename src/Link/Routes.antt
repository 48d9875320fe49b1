-- ===== src/Link/Routes.antt =====
-- The subscriptions that the harness is told of, and those that an injected record reaches.
use ruststream_kinesis.Prelude.{
  ℕ, suc, ◌+◌, ◌≡◌, refl, sym, ap, ◌∙◌, subst, inl, inr, Bool, true, false, not, ◌&&◌, none, some,
  Result, List, [], ◌∷◌, ◌++◌, Text, ltb, str_eq, str_eq_iff, if◌then◌else◌, length, length-append,
  ok, err, All, Bool-cases, arith,
}
use ruststream_kinesis.Envelope.{Envelope}
use ruststream_kinesis.Envelope.Headers.{HeaderMap}
use ruststream_kinesis.Publisher.{resolve_partition_key}
use ruststream_kinesis.InProcess.Log.{Feed, append}
use ruststream_kinesis.InProcess.Bus
use ruststream_kinesis.InProcess.Bus.{PutError, ReadBack, check_record, write, append_checked}
use ruststream_kinesis.InProcess.Bus.Appends.{put-appends}
use ruststream_kinesis.InProcess.Streams
use ruststream_kinesis.InProcess.Streams.{Transport, empty}
use ruststream_kinesis.Link.{Link, aws, in_process, inject, routes, routes_from}

-- A delivery was enqueued and counted between two feeds.
abbrev pub grew : {B : Type 0} → Feed B → Feed B → Bool
grew f g = ltb (length f.queue) (length g.queue) && ltb f.enqueued g.enqueued

-- The places of the names that pass a test, the first of which is place `n`.
unfoldable pub places : ℕ → (Text → Bool) → List Text → List ℕ
places n p [] = []
places n p (stream ∷ subscriptions) =
    if p stream then n ∷ places (suc n) p subscriptions else places (suc n) p subscriptions

unfoldable pub feed_of : {S : Type 0} {h : HeaderMap} → Link S h → Text → Feed (ReadBack h)
feed_of (aws closed s) stream = empty
feed_of (in_process bus) stream = bus.feeds stream

longer :
    {A : Type 0} (xs : List A) (x : A) (n : ℕ)
    → (ltb (length xs) (length (xs ++ x ∷ [])) && ltb n (n + 1)) ≡ true
longer xs x n = ground (arith, length-append xs (x ∷ []))

same_size : {B : Type 0} (f : Feed B) → grew f f ≡ false
same_size f = ground arith

append-grew :
    {B : Type 0} (key content : Text) (back : B) (now : ℕ) (f : Feed B)
    → f.subscribed ≡ true
    → grew f (append key content back now f) ≡ true
unfolding append
append-grew key content back now f reads = rw (reads, append) (longer f.queue _ f.enqueued)

put-grew :
    (h : HeaderMap) (e : Envelope) (is_open : Bool) (stream key : Text) (headers : h.Map)
    (payload : Text) (now : ℕ) (f : Feed (ReadBack h))
    → f.subscribed ≡ true
    → (Bus.put h e is_open stream key headers payload now f).0 ≡ ok tt
    → grew f (Bus.put h e is_open stream key headers payload now f).1 ≡ true
put-grew h e is_open stream key headers payload now f reads done =
    let (content, sealed, accepted, appended) =
      put-appends h e is_open stream key headers payload now f done in
    ap (grew f) appended ∙ append-grew key content (Bus.read_back h e content) now f reads

routes-places :
    (n : ℕ) (destination : Text) (p : Text → Bool) (subscriptions : List Text)
    → All (λ s. p s ≡ str_eq s destination) subscriptions
    → routes_from n destination subscriptions ≡ places n p subscriptions
unfolding routes_from places
routes-places n destination p [] agree = refl
routes-places n destination p (s ∷ subscriptions) (agrees, agree) =
    rw (agrees, places)
      (ap (λ rest. if str_eq s destination then n ∷ rest else rest)
        (routes-places (suc n) destination p subscriptions agree))

unless_refused :
    {A : Type 0} (answer : Result PutError Unit) (a b : A)
    → (elim answer [ ok _ ↦ some a | err _ ↦ none ]) ≡ some b
    → (answer ≡ ok tt) × (b ≡ a)
unless_refused (ok _) a b e = (refl, cc e)
unless_refused (err x) a b e = cc e

module _ (h : HeaderMap) (broker : Envelope) (stream : Text) (headers : h.Map)
    (payload fresh : Text) (now : ℕ) (bus : Transport h) where
  abbrev put_of : Result PutError Unit × Feed (ReadBack h)
  put_of =
      Bus.put h broker (not bus.is_closed) stream (resolve_partition_key h none headers none fresh)
        headers payload now (bus.feeds stream)

  abbrev after : Transport h
  after = (Streams.inject h broker stream headers payload fresh now bus).1

  grew-after :
      (s : Text)
      → put_of.0 ≡ ok tt
      → (bus.feeds s).subscribed ≡ true
      → grew (bus.feeds s) (after.feeds s) ≡ str_eq s stream
  unfolding Streams.inject Streams.put
  grew-after s done reads = elim (Bool-cases (str_eq s stream)) [
    | inr other ↦ rw (other, Streams.inject) (same_size (bus.feeds s))
    | inl here ↦
        let e : s ≡ stream = (str_eq_iff s stream).0 here in
        let reads_it : (bus.feeds stream).subscribed ≡ true =
          subst (λ t. (bus.feeds t).subscribed ≡ true) e reads in
        rw (here, Streams.inject)
          (subst (λ t. grew (bus.feeds t) put_of.1 ≡ true) (sym e)
            (put-grew h broker (not bus.is_closed) stream
              (resolve_partition_key h none headers none fresh) headers payload now
              (bus.feeds stream) reads_it done))
  ]

  grew_everywhere :
      (subscriptions : List Text)
      → put_of.0 ≡ ok tt
      → All (λ s. (bus.feeds s).subscribed ≡ true) subscriptions
      → All (λ s. grew (bus.feeds s) (after.feeds s) ≡ str_eq s stream) subscriptions
  grew_everywhere [] done reading = tt
  grew_everywhere (s ∷ subscriptions) done (reads, reading) =
      (grew-after s done reads, grew_everywhere subscriptions done reading)

  injected_lem :
      {S : Type 0} (link : Link S h)
      → inject h broker stream headers payload fresh now (in_process bus) ≡ some link
      → (put_of.0 ≡ ok tt) × (link ≡ in_process after)
  unfolding inject Streams.inject Streams.put
  injected_lem link e = unless_refused put_of.0 (in_process after) link e

  -- The subscriptions that the harness is told a record reaches are, of those that are open, just the ones
  -- whose queue and whose count of records in flight grow when the record is injected.
  pub inject-routes :
      {S : Type 0} (subscriptions : List Text) (link : Link S h)
      → All (λ s. (bus.feeds s).subscribed ≡ true) subscriptions
      → inject h broker stream headers payload fresh now (in_process bus) ≡ some link
      → routes stream subscriptions
        ≡ places 0 (λ s. grew (bus.feeds s) (feed_of link s)) subscriptions
  unfolding feed_of
  inject-routes subscriptions link reading e =
      let (done, same) = injected_lem link e in
      subst
        (λ l.
          routes stream subscriptions
          ≡ places 0 (λ s. grew (bus.feeds s) (feed_of l s)) subscriptions)
        (sym same)
        (routes-places 0 stream (λ s. grew (bus.feeds s) (after.feeds s)) subscriptions
          (grew_everywhere subscriptions done reading))
