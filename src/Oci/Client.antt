-- ===== src/Oci/Client.antt =====
-- pkg/oci/client.go, factory.go, static.go and sdk_client.go, and pkg/oci/metricsclient: how the client
-- of the monitoring service is made, and one call of the SDK. The hooks of the SDK, their types and the
-- clock are parameters.
use oci_cpu_shaper.Base.{
  ℕ, if◌then◌else◌, Option, none, some, Result, ok, err, or_else, List, [], ◌∷◌,
}
use oci_cpu_shaper.Base.Text.{Text, trim_space, is_empty}
use oci_cpu_shaper.Oci.Query.{Datapoint, Page, Request, normalize_page_token}

-- `ClientFactory`; any hook may be nil. `P` is a configuration provider, `C` a monitoring client and
-- `K` a clock.
pub record ClientFactory (P C K : Type 0) : Type 0 where
  pub instance_principal_provider : Option (Result Text P)
  pub monitoring_client : Option (P → Result Text C)
  pub clock : Option K

-- The defaults of the SDK, `NewClientFactory`.
pub record SdkDefaults (P C K : Type 0) : Type 0 where
  pub instance_principal_provider : Result Text P
  pub monitoring_client : P → Result Text C
  pub clock : K

pub data ClientError : Type 0 where
  missing_compartment_id : ClientError
  missing_metrics_client : ClientError
  provider_failed : Text → ClientError
  monitoring_client_failed : Text → ClientError

-- `Client`, with the region that its monitoring client is set to, if any.
pub record OciClient (C K : Type 0) : Type 0 where
  pub metrics : C
  pub region : Option Text
  pub compartment_id : Text
  pub now : K

-- `newClient`; the clock is `time.Now` where it is nil.
unfoldable pub new_oci_client :
    {C K : Type 0}
    → Option C
    → Option Text
    → Text
    → Option K
    → K
    → Result ClientError (OciClient C K)
unfolding is_empty
new_oci_client none region compartment_id clock time_now = err missing_metrics_client
new_oci_client (some metrics) region compartment_id clock time_now =
    if is_empty compartment_id
    then err missing_compartment_id
    else ok (record {
      metrics = metrics;
      region = region;
      compartment_id = compartment_id;
      now = or_else clock time_now;
    })

module _ {P C K : Type 0} where
  -- The factory that the options leave: each `WithFactory` replaces the one before, also by nil. A nil
  -- option is skipped.
  unfoldable pub apply_client_options :
      List (Option (Option (ClientFactory P C K)))
      → Option (ClientFactory P C K)
      → Option (ClientFactory P C K)
  apply_client_options [] factory = factory
  apply_client_options (none ∷ rest) factory = apply_client_options rest factory
  apply_client_options (some given ∷ rest) factory = apply_client_options rest given

  unfoldable pub resolve_factory :
      SdkDefaults P C K → List (Option (Option (ClientFactory P C K))) → SdkDefaults P C K
  unfolding apply_client_options
  resolve_factory defaults options = elim (apply_client_options options none) [
    | none ↦ defaults
    | some factory ↦ record {
      instance_principal_provider =
          or_else factory.instance_principal_provider defaults.instance_principal_provider;
      monitoring_client = or_else factory.monitoring_client defaults.monitoring_client;
      clock = or_else factory.clock defaults.clock;
    }
  ]

  -- `NewInstancePrincipalClient`.
  unfoldable pub new_instance_principal_client :
      SdkDefaults P C K
      → List (Option (Option (ClientFactory P C K)))
      → Text
      → Text
      → Result ClientError (OciClient C K)
  unfolding resolve_factory new_oci_client trim_space is_empty
  new_instance_principal_client defaults options compartment_id region =
      let factory = resolve_factory defaults options in
      let trimmed = trim_space region in
      if is_empty compartment_id
      then err missing_compartment_id
      else elim factory.instance_principal_provider [
        | err e ↦ err (provider_failed e)
        | ok provider ↦ elim (factory.monitoring_client provider) [
          | err e ↦ err (monitoring_client_failed e)
          | ok client ↦
              new_oci_client (some client) (if is_empty trimmed then none else some trimmed)
                compartment_id (some factory.clock) defaults.clock
        ]
      ]

-- `NewStaticMetricsClient`: the same value, at the time of the query.
unfoldable pub static_query : {F : Type 0} → F → ℕ → F × ℕ
static_query value now = (value, now)

-- `FromContext`: the builder of the context, else the fallback, else the default; a nil is `none`.
unfoldable pub from_context : {B : Type 0} → Option B → Option B → B → B
from_context (some builder) fallback default = builder
from_context none (some fallback) default = fallback
from_context none none default = default

-- `WithBuilder`: a nil builder leaves the context as it is.
unfoldable pub with_builder : {B : Type 0} → Option B → Option B → Option B
with_builder context none = context
with_builder context (some builder) = some builder

pub data SdkError : Type 0 where
  build_request : Text → SdkError
  execute_request : Text → SdkError
  decode_response : Text → SdkError

-- What the SDK does with an HTTP request `H` and a response `R`.
pub record Sdk (F H R : Type 0) : Type 0 where
  pub http_request : Request → Result Text H
  pub set_page : Text → H → H
  pub call : H → Result Text R
  pub decode : R → Result Text (List (List (Datapoint F)))
  pub next_page_header : R → Text

-- The request for a page.
abbrev addressed : {F H R : Type 0} → Sdk F H R → H → Option Text → H
addressed sdk built none = built
addressed sdk built (some token) = sdk.set_page token built

-- `SummarizeMetricsData`.
unfoldable pub summarize_metrics_data :
    {F H R : Type 0} → Sdk F H R → Request → Option Text → Result SdkError (Page F)
unfolding normalize_page_token
summarize_metrics_data sdk request page = elim (sdk.http_request request) [
  | err e ↦ err (build_request e)
  | ok built ↦ elim (sdk.call (addressed sdk built (normalize_page_token page))) [
    | err e ↦ err (execute_request e)
    | ok response ↦ elim (sdk.decode response) [
      | err e ↦ err (decode_response e)
      | ok items ↦ ok (record {
        items = items;
        next_page = normalize_page_token (some (sdk.next_page_header response));
      })
    ]
  ]
]
