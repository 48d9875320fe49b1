-- ===== src/Clients/Own.antt =====
-- The client of one selection on one thread, across the thread's requests through clients.rs.
use ruststream_kinesis.Prelude.{
  ℕ, ◌==◌, ◌≡◌, refl, ◌∙◌, ap, Bool, true, Option, none, some, List, [], ◌∷◌, ◌++◌, if◌then◌else◌,
  Option-cases, Bool-cases, inl, inr, arith,
}
use ruststream_kinesis.Clients.{
  Slot, home_client, own_client, Thread, find, retain, chosen, get_or_init, enter, with_client,
}

-- The thread after requests, each of a selection in a runtime or outside any.
unfoldable pub serve : (ℕ → Bool) → List (ℕ × Option ℕ) → Thread → Thread
serve alive [] t = t
serve alive ((token, current) ∷ rest) t = serve alive rest (with_client token current alive t).1

find-retain :
    (alive : ℕ → Bool) (token : ℕ) (slots : List Slot)
    → alive token ≡ true
    → find token (retain alive slots) ≡ find token slots
unfolding find retain
find-retain alive token [] live = refl
find-retain alive token (slot ∷ slots) live = elim (Bool-cases (slot.owner == token)) [
  | inl own ↦
      let e : slot.owner ≡ token = ground arith in
      let kept : alive slot.owner ≡ true = ap alive e ∙ live in rw kept (ground arith)
  | inr other ↦ ground (arith, find-retain alive token slots live)
]

find-append :
    (token : ℕ) (slots : List Slot) (slot : Slot)
    → find token (slots ++ slot ∷ []) ≡ elim (find token slots) [
      | some s ↦ some s
      | none ↦ if slot.owner == token then some slot else none
    ]
unfolding find
find-append token [] slot = refl
find-append token (s ∷ slots) slot = ground (arith, find-append token slots slot)

kept_beside :
    (alive : ℕ → Bool) (token : ℕ) (slot added : Slot) (slots : List Slot)
    → alive token ≡ true
    → find token slots ≡ some slot
    → find token (retain alive slots ++ added ∷ []) ≡ some slot
kept_beside alive token slot added slots live there =
    ground (arith, find-append token (retain alive slots) added, find-retain alive token slots live)

added_last :
    (alive : ℕ → Bool) (token : ℕ) (own : Option ℕ) (slots : List Slot)
    → alive token ≡ true
    → find token slots ≡ none
    → find token (retain alive slots ++ record { owner = token; own = own } ∷ [])
      ≡ some (record { owner = token; own = own })
added_last alive token own slots live new = ground (
  arith,
  find-append token (retain alive slots) (record { owner = token; own = own }),
  find-retain alive token slots live,
)

found-with_client :
    (token : ℕ) (current : Option ℕ) (alive : ℕ → Bool) (t : Thread) (slot : Slot)
    → find token t.slots ≡ some slot
    → with_client token current alive t ≡ (chosen slot.own, t)
unfolding with_client
found-with_client token current alive t slot found = rw (found, with_client)

entered :
    (token runtime : ℕ) (alive : ℕ → Bool) (t : Thread)
    → find token t.slots ≡ none
    → with_client token (some runtime) alive t ≡ enter token runtime alive t
unfolding with_client
entered token runtime alive t new = rw (new, with_client)

-- A slot of a living broker outlasts a request.
with_client-keeps :
    (alive : ℕ → Bool) (token : ℕ) (slot : Slot) (other : ℕ) (current : Option ℕ) (t : Thread)
    → alive token ≡ true
    → find token t.slots ≡ some slot
    → find token (with_client other current alive t).1.slots ≡ some slot
unfolding with_client enter
with_client-keeps alive token slot other none t live there = ground arith
with_client-keeps alive token slot other (some runtime) t live there =
    elim (Option-cases (find other t.slots)) [
      | inr (s, found) ↦ rw (found, with_client) there
      | inl new ↦ rw (new, with_client) (kept_beside alive token slot _ t.slots live there)
    ]

serve-keeps :
    (alive : ℕ → Bool) (token : ℕ) (slot : Slot) (rest : List (ℕ × Option ℕ)) (t : Thread)
    → alive token ≡ true
    → find token t.slots ≡ some slot
    → find token (serve alive rest t).slots ≡ some slot
unfolding serve
serve-keeps alive token slot [] t live there = there
serve-keeps alive token slot ((other, current) ∷ rest) t live there =
    serve-keeps alive token slot rest (with_client other current alive t).1 live
      (with_client-keeps alive token slot other current t live there)

-- Once a selection whose broker is not gone has chosen a client for a thread, by its first request there
-- inside a runtime, each later request of it on that thread, in any runtime or none, uses that client
-- and changes nothing, whatever requests of any selections the thread makes in between; the client
-- is the one that the selection was built with if that runtime is its home, and else the one built for
-- the thread by that request.
pub with_client-once :
    (token runtime : ℕ) (alive : ℕ → Bool) (t : Thread) (rest : List (ℕ × Option ℕ))
    (current : Option ℕ)
    → alive token ≡ true
    → find token t.slots ≡ none
    → let (c, t1) = with_client token (some runtime) alive t in
      let t2 = serve alive rest t1 in
      (with_client token current alive t2 ≡ (c, t2))
      × (c ≡ (
          if get_or_init (t.home token) runtime == runtime
          then home_client
          else own_client t.built))
unfolding enter
with_client-once token runtime alive t rest current live first =
    let home : ℕ = get_or_init (t.home token) runtime in
    let own : Option ℕ = if home == runtime then none else some t.built in
    let t1 : Thread = (enter token runtime alive t).1 in
    let slot : Slot = record { owner = token; own = own } in
    rw (entered token runtime alive t first) (
      found-with_client token current alive (serve alive rest t1) slot (
          serve-keeps alive token slot rest t1 live
            (added_last alive token own t.slots live first)),
      ground arith,
    )
