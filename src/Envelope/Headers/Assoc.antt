-- ===== src/Envelope/Headers/Assoc.antt =====
-- A header map as a list of headers with distinct names.
use ruststream_kinesis.Prelude.{
  ◌≡◌, refl, some, List, [], ◌∷◌, Text, str_eq, str_eq_iff, if◌then◌else◌, arith,
}
use ruststream_kinesis.Envelope.Headers.{Header, HeaderMap, Distinct, find}

unfoldable pub put : Text → Text → List Header → List Header
put name value [] = (name, value) ∷ []
put name value ((n, v) ∷ headers) =
    if str_eq n name then (n, value) ∷ headers else (n, v) ∷ put name value headers

pub find-put :
    (name other value : Text) (headers : List Header)
    → find other (put name value headers)
      ≡ (if str_eq name other then some value else find other headers)
unfolding find put
find-put name other value [] = refl
find-put name other value ((n, v) ∷ headers) = ground (
  arith,
  find-put name other value headers,
  str_eq_iff n name,
  str_eq_iff n other,
  str_eq_iff name other,
)

pub put-Distinct :
    (name value : Text) (headers : List Header)
    → Distinct headers
    → Distinct (put name value headers)
unfolding put find
put-Distinct name value [] d = (refl, tt)
put-Distinct name value ((n, v) ∷ headers) d = ground (
  arith,
  put-Distinct name value headers d.1,
  find-put name n value headers,
  str_eq_iff n name,
  str_eq_iff name n,
)

unfoldable pub assoc : HeaderMap
unfolding put find
assoc = record {
  Map = (headers : List Header) × Distinct headers;
  new = ([], tt);
  insert = λ name value m. (put name value m.0, put-Distinct name value m.0 m.1);
  get = λ name m. find name m.0;
  iter = λ m. m.0;
  get-new = λ name. refl;
  get-insert = λ name other value m. find-put name other value m.0;
  get-iter = λ name m. refl;
  iter_once = λ m. m.1;
}
