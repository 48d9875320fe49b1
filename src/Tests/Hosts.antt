-- ===== src/Tests/Hosts.antt =====
-- The described host of a broker with a prebuilt configuration, which is its region here.
use ruststream_kinesis.Prelude.{◌≡◌, refl, ℕ, none, some, [], ◌∷◌, ◌++◌, Text, codes}
use ruststream_kinesis.Broker.Connecting
use ruststream_kinesis.Broker.Connecting.{KinesisBroker, with_endpoint}
use ruststream_kinesis.Describe.{Sdk, describe_server, endpoint_host, regional_host, non_empty}

-- A URL here is the host with its scheme's eight characters before it.
abbrev after_scheme : Text → Text
after_scheme (a ∷ b ∷ c ∷ d ∷ e ∷ f ∷ g ∷ h ∷ host) = host
after_scheme _ = []

abbrev sdk : Sdk Text
sdk = record {
  endpoint_url = λ config. none;
  region = λ config. some config;
  use_fips = λ config. none;
  use_dual_stack = λ config. none;
  resolve_endpoint = λ region fips dual. some (codes "https://kinesis." ++ region);
  host_from_url = after_scheme;
}

abbrev in_region : KinesisBroker Text ℕ
in_region = Connecting.from_config (codes "eu-west-1") 0

describes_region : describe_server sdk in_region ≡ codes "kinesis.eu-west-1"
unfolding describe_server regional_host endpoint_host non_empty
describes_region = refl

-- An endpoint without a host gives way to the region.
describes_next : describe_server sdk (with_endpoint [] in_region) ≡ codes "kinesis.eu-west-1"
unfolding describe_server regional_host endpoint_host non_empty
describes_next = refl
