-- ===== src/Envelope/Headers/Laws.antt =====
-- What a map holds once listed headers are inserted, and which headers an envelope is handed.
use ruststream_kinesis.Prelude.{
  ◌≡◌, refl, Option, none, some, List, [], ◌∷◌, Text, str_eq_iff, if◌then◌else◌, arith,
}
use ruststream_kinesis.Envelope.Headers.{Header, HeaderMap, Distinct, find, is_native, written}

-- The inserts of `read_headers` and `insert_into`, in order.
unfoldable pub insert_all : (h : HeaderMap) → List Header → h.Map → h.Map
insert_all h [] m = m
insert_all h ((name, value) ∷ headers) m = insert_all h headers (h.insert name value m)

abbrev pub or_else : Option Text → Option Text → Option Text
or_else none o = o
or_else (some v) o = some v

-- After inserts of distinct names, a name reads as it was listed, or else as before.
pub get-insert_all :
    (h : HeaderMap) (name : Text) (headers : List Header) (m : h.Map)
    → Distinct headers
    → h.get name (insert_all h headers m) ≡ or_else (find name headers) (h.get name m)
unfolding insert_all find
get-insert_all h name [] m d = refl
get-insert_all h name ((n, value) ∷ headers) m d = ground (
  arith,
  get-insert_all h name headers (h.insert n value m) d.1,
  h.get-insert n name value m,
  str_eq_iff n name,
)

pub find-written :
    (name : Text) (headers : List Header)
    → find name (written headers) ≡ (if is_native name then none else find name headers)
unfolding find written
find-written name [] = ground arith
find-written name ((n, value) ∷ headers) =
    ground (arith, find-written name headers, str_eq_iff n name)

pub written-Distinct : (headers : List Header) → Distinct headers → Distinct (written headers)
unfolding written
written-Distinct [] d = tt
written-Distinct ((n, value) ∷ headers) d =
    ground (arith, written-Distinct headers d.1, find-written n headers)
