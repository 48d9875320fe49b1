-- ===== src/InProcess/Streams/Follows.antt =====
-- How one stream's feed comes from an earlier one of it: what was published between, and what was yielded.
use ruststream_kinesis.Prelude.{
  ℕ, suc, ◌+◌, ◌≡◌, refl, sym, ap, subst, ◌∙◌, true, Option, none, some, List, [], ◌∷◌, ◌++◌, Text,
  length, length-append, append-nil, append_assoc, Result, arith,
}
use ruststream_kinesis.Error.{KinesisError}
use ruststream_kinesis.Message.{Received}
use ruststream_kinesis.InProcess.Log
use ruststream_kinesis.InProcess.Log.{
  Record, Delivery, Feed, deliveries, deliver, receive, apply_pending, append,
}
use ruststream_kinesis.InProcess.Streams.{empty}

-- What a poll that comes to a delivery yields.
unfoldable pub answers :
    {B : Type 0} → Text → List (Delivery B) → List (Result KinesisError Received)
answers stream [] = []
answers stream (d ∷ queue) = (deliver stream d empty).0 ∷ answers stream queue

abbrev pub yielded : Option (Result KinesisError Received) → List (Result KinesisError Received)
yielded none = []
yielded (some answer) = answer ∷ []

module _ {B : Type 0} (stream : Text) where
  abbrev pub Reading : Feed B → Type 0
  Reading f = (f.subscribed ≡ true) × (f.pending ≡ none)

  -- From one feed to a later one: `fresh` was published between, and `ys` was yielded.
  abbrev pub Follows :
      Feed B → List (Record B) → List (Result KinesisError Received) → Feed B → Type 0
  Follows f fresh ys g =
      (g.records ≡ f.records ++ fresh)
      × (ys ++ answers stream g.queue
          ≡ answers stream f.queue ++ answers stream (deliveries (length f.records) fresh))
      × Reading g

  answers-append :
      (xs ys : List (Delivery B))
      → answers stream (xs ++ ys) ≡ answers stream xs ++ answers stream ys
  unfolding answers
  answers-append [] ys = refl
  answers-append (d ∷ xs) ys = ap (λ rest. (deliver stream d empty).0 ∷ rest) (answers-append xs ys)

  deliveries-append :
      (n : ℕ) (xs ys : List (Record B))
      → deliveries n (xs ++ ys) ≡ deliveries n xs ++ deliveries (n + length xs) ys
  unfolding deliveries
  deliveries-append n [] ys = ap (λ m. deliveries m ys) (omega arith)
  deliveries-append n (x ∷ xs) ys =
      ap (λ rest. record { kept = x; index = n } ∷ rest)
        (deliveries-append (suc n) xs ys
          ∙ ap (λ m. deliveries (suc n) xs ++ deliveries m ys) (omega arith))

  pub stays : (f : Feed B) → Reading f → Follows f [] [] f
  unfolding answers deliveries
  stays f reads = (sym (append-nil f.records), sym (append-nil _), reads)

  -- One stretch after another.
  pub then-Follows :
      (f g k : Feed B) (xs rest : List (Record B)) (ys zs : List (Result KinesisError Received))
      → Follows f xs ys g
      → Follows g rest zs k
      → Follows f (xs ++ rest) (ys ++ zs) k
  then-Follows f g k xs rest ys zs (e, first, _) (e', second, reads) =
      let stored : k.records ≡ f.records ++ (xs ++ rest) =
        e' ∙ ap (λ l. l ++ rest) e ∙ append_assoc f.records xs rest in
      let starts : length g.records ≡ length f.records + length xs =
        ap length e ∙ length-append f.records xs in
      let later = answers stream (deliveries (length g.records) rest) in
      let both : answers stream (deliveries (length f.records) (xs ++ rest))
          ≡ answers stream (deliveries (length f.records) xs) ++ later =
        ap (answers stream) (deliveries-append (length f.records) xs rest)
        ∙ answers-append (deliveries (length f.records) xs) _
        ∙ ap
            (λ n.
              answers stream (deliveries (length f.records) xs)
              ++ answers stream (deliveries n rest))
            (sym starts) in
      (
        stored,
        append_assoc ys zs _
            ∙ ap (λ l. ys ++ l) second
            ∙ sym (append_assoc ys (answers stream g.queue) later)
            ∙ ap (λ l. l ++ later) first
            ∙ append_assoc (answers stream f.queue) _ later
            ∙ ap (λ l. answers stream f.queue ++ l) (sym both),
        reads,
      )

  pub append-Follows :
      (key content : Text) (back : B) (now : ℕ) (f : Feed B)
      → Reading f
      → Follows f
          (record { partition_key = key; content = content; read_back = back; at_millis = now }
            ∷ [])
          []
          (append key content back now f)
  unfolding append deliveries answers
  append-Follows key content back now f (reads, settled) =
      rw (reads, append) (refl, answers-append f.queue _, (refl, settled))

  pub deliver-alike :
      (d : Delivery B) (f g : Feed B) → (deliver stream d f).0 ≡ (deliver stream d g).0
  unfolding deliver
  deliver-alike d f g = ground arith

  deliver-feed :
      (d : Delivery B) (f : Feed B)
      → ((deliver stream d f).1.records ≡ f.records)
        × ((deliver stream d f).1.queue ≡ f.queue)
        × ((deliver stream d f).1.subscribed ≡ f.subscribed)
        × ((deliver stream d f).1.pending ≡ f.pending)
  unfolding deliver
  deliver-feed d f = ground arith

  receive-Follows :
      (queue : List (Delivery B)) (f : Feed B)
      → f.queue ≡ queue
      → Reading f
      → Follows f [] (yielded (receive stream queue f).0) (receive stream queue f).1
  unfolding receive answers deliveries
  receive-Follows [] f e reads = stays f reads
  receive-Follows (d ∷ queue) f e (reads, settled) =
      let f' : Feed B = record f { queue = queue } in
      let (kept, left, same_reads, same_pending) = deliver-feed d f' in
      (
        kept ∙ sym (append-nil f.records),
        ap (λ x. x ∷ answers stream (deliver stream d f').1.queue) (deliver-alike d f' empty)
            ∙ ap (λ q. (deliver stream d empty).0 ∷ answers stream q) left
            ∙ ap (answers stream) (sym e)
            ∙ sym (append-nil (answers stream f.queue)),
        (same_reads ∙ reads, same_pending ∙ settled),
      )

  nothing_pending : (f : Feed B) → f.pending ≡ none → apply_pending f ≡ f
  unfolding apply_pending
  nothing_pending f settled = ground (arith, settled)

  pub poll-Follows :
      (f : Feed B) → Reading f → Follows f [] (yielded (Log.poll stream f).0) (Log.poll stream f).1
  unfolding Log.poll
  poll-Follows f (reads, settled) =
      subst (λ g. Follows f [] (yielded (receive stream g.queue g).0) (receive stream g.queue g).1)
        (sym (nothing_pending f settled)) (receive-Follows f.queue f refl (reads, settled))
