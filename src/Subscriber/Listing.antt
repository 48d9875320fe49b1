-- ===== src/Subscriber/Listing.antt =====
-- `list_all_shards` of subscriber.rs: the pages of a listing, one request after the other, on fuel.
use ruststream_kinesis.Prelude.{
  ℕ, zero, suc, ◌≤◌, ◌≡◌, Option, none, some, List, [], ◌∷◌, ◌++◌, append-nil, append_assoc, Text,
  length, Result, ok, err, arith, Bool, true, false,
}
use ruststream_kinesis.Error.{KinesisError, stream}
use ruststream_kinesis.Subscriber.Service.{Service, Shard, ListRequest, stream_name, next_token}

-- `is_closed`
unfoldable pub is_closed : Shard → Bool
is_closed shard = elim shard.ending_sequence_number [ none ↦ false | some _ ↦ true ]

module _ {V : Type 0} (service : Service V) (of_stream : Text) where
  -- `none` when the fuel is out.
  unfoldable pub list_pages :
      ℕ → ListRequest → List Shard → V → Option (Result KinesisError (List Shard)) × V
  list_pages zero request shards v = (none, v)
  list_pages (suc fuel) request shards v =
      let (answer, v') = service.list_shards request v in
      elim answer [
        | err e ↦ (some (err (stream of_stream e)), v')
        | ok (page, none) ↦ (some (ok (shards ++ page)), v')
        | ok (page, some token) ↦ list_pages fuel (next_token token) (shards ++ page) v'
      ]

  unfoldable pub list_all_shards : ℕ → V → Option (Result KinesisError (List Shard)) × V
  unfolding list_pages
  list_all_shards fuel v = list_pages fuel (stream_name of_stream) [] v

-- The service answers a request, and the tokens that follow it, with these pages.
pub data Pages {V : Type 0} (service : Service V)
    : ListRequest → V → List (List Shard) → V → Type 0 where
  last :
      (request : ListRequest) (v v' : V) (page : List Shard)
      → service.list_shards request v ≡ (ok (page, none), v')
      → Pages service request v (page ∷ []) v'
  more :
      (request : ListRequest) (v v' v'' : V) (page : List Shard) (token : Text)
      (pages : List (List Shard))
      → service.list_shards request v ≡ (ok (page, some token), v')
      → Pages service (next_token token) v' pages v''
      → Pages service request v (page ∷ pages) v''

abbrev pub concat : List (List Shard) → List Shard
concat [] = []
concat (page ∷ pages) = page ++ concat pages

list_pages-Pages :
    {V : Type 0} (service : Service V) (of_stream : Text) (request : ListRequest) (v v' : V)
    (pages : List (List Shard)) (fuel : ℕ) (shards : List Shard)
    → Pages service request v pages v'
    → length pages ≤ fuel
    → list_pages service of_stream fuel request shards v ≡ (some (ok (shards ++ concat pages)), v')
unfolding list_pages
list_pages-Pages service of_stream request v v' pages zero shards (last r w w' page e) enough =
    elim enough [ ]
list_pages-Pages service of_stream request v v' pages zero shards
      (more r w w' w'' page token rest e p) enough =
    elim enough [ ]
list_pages-Pages service of_stream request v v' pages (suc fuel) shards (last r w w' page e)
      enough =
    ground (arith, e, append-nil page)
list_pages-Pages service of_stream request v v' pages (suc fuel) shards
      (more r w w' w'' page token rest e p) enough =
    ground (
      arith,
      e,
      append_assoc shards page (concat rest),
      list_pages-Pages service of_stream (next_token token) w' w'' rest fuel (shards ++ page) p
          (omega arith),
    )

-- A listing that the service answers in some number of pages is all their shards, in order, once the
-- loop runs that many rounds.
pub list_all_shards-Pages :
    {V : Type 0} (service : Service V) (of_stream : Text) (v v' : V) (pages : List (List Shard))
    (fuel : ℕ)
    → Pages service (stream_name of_stream) v pages v'
    → length pages ≤ fuel
    → list_all_shards service of_stream fuel v ≡ (some (ok (concat pages)), v')
unfolding list_all_shards
list_all_shards-Pages service of_stream v v' pages fuel p enough =
    list_pages-Pages service of_stream (stream_name of_stream) v v' pages fuel [] p enough
