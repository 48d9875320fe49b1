-- ===== src/Describe/Hosts.antt =====
-- The host that describe.rs names.
use ruststream_kinesis.Prelude.{
  ◌≡◌, ◌≢◌, ◌⊎◌, refl, inl, inr, ap, ◌∙◌, Option, none, some, [], ◌∷◌, Text,
}
use ruststream_kinesis.Broker.Connecting.{KinesisBroker}
use ruststream_kinesis.Describe.{
  Sdk, Target, and_then, or_else, non_empty, unwrap_or, service_wide, regional_host, endpoint_host,
  describe_server, build,
}

-- A host that was found is that of a URL, and is not empty.
abbrev pub IsHost : {C : Type 0} → Sdk C → Text → Type 0
IsHost sdk host = (url : Text) × (host ≡ sdk.host_from_url url) × (host ≢ [])

non_empty-some : (host : Text) → host ≢ [] → non_empty host ≡ some host
unfolding non_empty
non_empty-some [] h = absurd (h refl)
non_empty-some (c ∷ host) h = refl

module _ {C : Type 0} (sdk : Sdk C) where
  -- The URL that a client of the target sends to: its endpoint, or what the default rules give its region.
  unfoldable pub dialled : Target → Option C → Option Text
  dialled target configured = or_else target.endpoint (
      and_then target.region (λ region.
        sdk.resolve_endpoint region (and_then configured sdk.use_fips)
          (and_then configured sdk.use_dual_stack)))

  -- What the SDK takes over from a prebuilt configuration.
  abbrev pub target_of : C → Target
  target_of c = record { endpoint = sdk.endpoint_url c; region = sdk.region c }

  non_empty-IsHost :
      (url found host : Text)
      → found ≡ sdk.host_from_url url
      → non_empty found ≡ some host
      → IsHost sdk host
  unfolding non_empty
  non_empty-IsHost url [] host same e = cc e
  non_empty-IsHost url (c ∷ found) host same e = (url, cc, λ nothing. cc)

  endpoint-IsHost :
      (endpoint : Option Text) (host : Text)
      → endpoint_host sdk endpoint ≡ some host
      → IsHost sdk host
  unfolding endpoint_host
  endpoint-IsHost none host e = cc e
  endpoint-IsHost (some url) host e = non_empty-IsHost url (sdk.host_from_url url) host refl e

  regional-IsHost :
      (region : Option Text) (configured : Option C) (host : Text)
      → and_then region (λ name. regional_host sdk name configured) ≡ some host
      → IsHost sdk host
  unfolding regional_host
  regional-IsHost none configured host e = cc e
  regional-IsHost (some name) configured host e = endpoint-IsHost _ host e

  -- The first of three that is there, or the service-wide host.
  first-IsHost :
      (named configured regional : Option Text)
      → ((host : Text) → named ≡ some host → IsHost sdk host)
      → ((host : Text) → configured ≡ some host → IsHost sdk host)
      → ((host : Text) → regional ≡ some host → IsHost sdk host)
      → let host = unwrap_or (or_else (or_else named configured) regional) service_wide in
        (host ≡ service_wide) ⊎ IsHost sdk host
  first-IsHost (some host) configured regional f g h = inr (f host refl)
  first-IsHost none (some host) regional f g h = inr (g host refl)
  first-IsHost none none (some host) f g h = inr (h host refl)
  first-IsHost none none none f g h = inl refl

  -- The host of what the target dials.
  dialled_host :
      (named taken region other : Option Text) (configured : Option C) (url : Text)
      → dialled
          (record { endpoint = or_else named taken; region = or_else region other })
          configured
        ≡ some url
      → sdk.host_from_url url ≢ []
      → unwrap_or
          (or_else
            (or_else (endpoint_host sdk named) (endpoint_host sdk taken))
            (and_then (or_else region other) (λ name. regional_host sdk name configured)))
          service_wide
        ≡ sdk.host_from_url url
  unfolding dialled endpoint_host regional_host
  dialled_host (some named) taken region other configured url e h =
      let same : named ≡ url = cc in
      let found : non_empty (sdk.host_from_url named) ≡ some (sdk.host_from_url url) =
        ap (λ u. non_empty (sdk.host_from_url u)) same ∙ non_empty-some _ h in
      rw found refl
  dialled_host none (some taken) region other configured url e h =
      let same : taken ≡ url = cc in
      let found : non_empty (sdk.host_from_url taken) ≡ some (sdk.host_from_url url) =
        ap (λ u. non_empty (sdk.host_from_url u)) same ∙ non_empty-some _ h in
      rw found refl
  dialled_host none none (some region) other configured url e h =
      rw e (rw (non_empty-some _ h) refl)
  dialled_host none none none (some other) configured url e h = rw e (rw (non_empty-some _ h) refl)
  dialled_host none none none none configured url e h = cc e

-- The described host is the service-wide one or the non-empty host of some URL: nothing else of a URL, such
-- as credentials, is in it.
pub describe_server-IsHost :
    {C L : Type 0} (sdk : Sdk C) (b : KinesisBroker C L)
    → (describe_server sdk b ≡ service_wide) ⊎ IsHost sdk (describe_server sdk b)
unfolding describe_server
describe_server-IsHost sdk b =
    first-IsHost sdk (endpoint_host sdk b.endpoint) _ _ (endpoint-IsHost sdk b.endpoint)
      (endpoint-IsHost sdk (and_then b.sdk_config sdk.endpoint_url))
      (regional-IsHost sdk (or_else b.region (and_then b.sdk_config sdk.region)) b.sdk_config)

-- Of a broker with a prebuilt configuration, whose clients take over just what that configuration names,
-- the described host is that of the URL that the clients send to, if that URL has a host.
pub describe_server-dialled :
    {C L : Type 0} (sdk : Sdk C) (b : KinesisBroker C L) (c : C) (url : Text)
    → b.sdk_config ≡ some c
    → dialled sdk (build (target_of sdk c) b) b.sdk_config ≡ some url
    → sdk.host_from_url url ≢ []
    → describe_server sdk b ≡ sdk.host_from_url url
unfolding describe_server build
describe_server-dialled sdk b c url configured sends host =
    ap
      (λ given.
        unwrap_or
          (or_else
            (or_else (endpoint_host sdk b.endpoint)
              (endpoint_host sdk (and_then given sdk.endpoint_url)))
            (and_then (or_else b.region (and_then given sdk.region))
              (λ name. regional_host sdk name b.sdk_config)))
          service_wide)
      configured
    ∙ dialled_host sdk b.endpoint (sdk.endpoint_url c) b.region (sdk.region c) b.sdk_config url
        sends host
