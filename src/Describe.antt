-- ===== src/Describe.antt =====
-- crates/ruststream-kinesis/src/broker/describe.rs: the server that a broker names in the generated
-- document, beside what its clients are built with (clients.rs).
pub mod Hosts
use ruststream_kinesis.Prelude.{Bool, Option, none, some, List, [], ◌∷◌, Text, codes}
use ruststream_kinesis.Broker.Connecting.{KinesisBroker}

-- What is asked of the SDK and of the framework: what a configuration names, the endpoint URL that the
-- SDK's default rules give a region, and the host of a URL.
pub record Sdk (C : Type 0) : Type 0 where
  pub endpoint_url : C → Option Text
  pub region : C → Option Text
  pub use_fips : C → Option Bool
  pub use_dual_stack : C → Option Bool
  pub resolve_endpoint : Text → Option Bool → Option Bool → Option Text
  pub host_from_url : Text → Text

abbrev pub and_then : {A B : Type 0} → Option A → (A → Option B) → Option B
and_then none f = none
and_then (some x) f = f x

abbrev pub or_else : {A : Type 0} → Option A → Option A → Option A
or_else none other = other
or_else (some x) other = some x

-- `.filter(|host| !host.is_empty())`
unfoldable pub non_empty : Text → Option Text
non_empty [] = none
non_empty (c ∷ host) = some (c ∷ host)

abbrev pub unwrap_or : Option Text → Text → Text
unwrap_or none fallback = fallback
unwrap_or (some text) fallback = text

abbrev pub service_wide : Text
service_wide = codes "kinesis.amazonaws.com"

-- What the clients of a broker are built with.
pub record Target : Type 0 where
  pub endpoint : Option Text
  pub region : Option Text

module _ {C : Type 0} (sdk : Sdk C) where
  -- The host of a URL, if there is one.
  unfoldable pub endpoint_host : Option Text → Option Text
  unfolding non_empty
  endpoint_host endpoint = and_then endpoint (λ url. non_empty (sdk.host_from_url url))

  unfoldable pub regional_host : Text → Option C → Option Text
  regional_host region configured = endpoint_host (
      sdk.resolve_endpoint region (and_then configured sdk.use_fips)
        (and_then configured sdk.use_dual_stack))

module _ {C L : Type 0} (sdk : Sdk C) where
  -- `describe_server`, its host; the protocol is `kinesis`.
  unfoldable pub describe_server : KinesisBroker C L → Text
  describe_server b =
      let configured = b.sdk_config in
      let named =
        or_else (endpoint_host sdk b.endpoint)
          (endpoint_host sdk (and_then configured sdk.endpoint_url)) in
      let regional =
        and_then (or_else b.region (and_then configured sdk.region))
          (λ region. regional_host sdk region configured) in
      unwrap_or (or_else named regional) service_wide

-- `SdkClient::build` of clients.rs, on what the SDK's builder takes over from the configuration.
unfoldable pub build : {C L : Type 0} → Target → KinesisBroker C L → Target
build taken b = record {
  endpoint = or_else b.endpoint taken.endpoint;
  region = or_else b.region taken.region;
}
