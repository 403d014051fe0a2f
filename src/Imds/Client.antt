-- ===== src/Imds/Client.antt =====
-- pkg/imds/imds.go, client_config.go and operations.go: the interface of the metadata service and the
-- client that fills it. What is fetched of each resource, by attempt, and `json.Unmarshal` are parameters.
use mathlib.Core.List.{reverse}
use oci_cpu_shaper.Base.{
  ℕ, if◌then◌else◌, Option, none, some, Result, ok, err, List, [], ◌∷◌, ◌++◌, ◌==◌,
}
use oci_cpu_shaper.Base.Int.{ℤ, pos, pos_part, ltb_ℤ}
use oci_cpu_shaper.Base.Text.{Text, codes, trim_space, is_empty}
use oci_cpu_shaper.Imds.Transport.{Reply, FetchError, fetch, get_text}

pub record ShapeConfig (F : Type 0) : Type 0 where
  pub ocpus : F
  pub memory_in_gbs : F
  pub baseline_ocpu_utilization : Text
  pub baseline_ocpus : F
  pub threads_per_core : ℤ
  pub networking_bandwidth_in_gbps : F
  pub max_vnic_attachments : ℤ

-- The interface `Client`: what each method returns, a value beside an error.
pub record Client (F E : Type 0) : Type 0 where
  pub region : Text × Option E
  pub canonical_region : Text × Option E
  pub instance_id : Text × Option E
  pub compartment_id : Text × Option E
  pub shape_config : Result E (ShapeConfig F)

abbrev pub default_endpoint : Text
default_endpoint = codes "http://169.254.169.254/opc/v2"

abbrev pub default_max_attempts : ℤ
default_max_attempts = pos 3

abbrev pub default_backoff : ℤ
default_backoff = pos 200_000_000

pub record ClientConfig : Type 0 where
  pub base_url : Text
  pub max_attempt : ℤ
  pub backoff : ℤ

-- The options.
unfoldable pub with_base_url : Text → ClientConfig → ClientConfig
unfolding trim_space is_empty
with_base_url base_url cfg =
    let trimmed = trim_space base_url in
    if is_empty trimmed then cfg else record cfg { base_url = trimmed }

unfoldable pub with_max_attempts : ℤ → ClientConfig → ClientConfig
with_max_attempts attempts cfg =
    if ltb_ℤ (pos 0) attempts then record cfg { max_attempt = attempts } else cfg

unfoldable pub with_backoff : ℤ → ClientConfig → ClientConfig
with_backoff delay cfg = if ltb_ℤ (pos 0) delay then record cfg { backoff = delay } else cfg

-- A nil option is skipped.
unfoldable pub apply_options :
    List (Option (ClientConfig → ClientConfig)) → ClientConfig → ClientConfig
apply_options [] cfg = cfg
apply_options (none ∷ rest) cfg = apply_options rest cfg
apply_options (some option ∷ rest) cfg = apply_options rest (option cfg)

abbrev drop_slashes : Text → Text
drop_slashes [] = []
drop_slashes (c ∷ s) = let rest = drop_slashes s in if c == b'/' then rest else c ∷ s

-- `strings.TrimRight(s, "/")`.
unfoldable pub trim_slashes : Text → Text
trim_slashes s = reverse (drop_slashes (reverse s))

-- `NewClient`, without the HTTP client.
unfoldable pub new_client : List (Option (ClientConfig → ClientConfig)) → ClientConfig
unfolding apply_options trim_slashes
new_client options =
    let cfg = apply_options options (record {
      base_url = default_endpoint;
      max_attempt = default_max_attempts;
      backoff = default_backoff;
    }) in
    record cfg { base_url = trim_slashes cfg.base_url }

-- `strings.TrimPrefix(resource, "/")`.
abbrev without_prefix : Text → Text
without_prefix [] = []
without_prefix (c ∷ s) = if c == b'/' then s else c ∷ s

unfoldable pub resource_url : ClientConfig → Text → Text
unfolding trim_slashes
resource_url cfg resource =
    trim_slashes cfg.base_url ++ (codes "/instance/" ++ without_prefix resource)

pub data OperationError : Type 0 where
  fetch_failed : FetchError → OperationError
  decode_failed : Text → Text → OperationError
  empty_canonical_region : OperationError

-- What the service answers to each URL, and the waits in between.
pub record Service : Type 0 where
  pub reply : Text → ℕ → Reply
  pub wait : Text → ℕ → Option Text

-- `getJSON`, for the decoder of the type that it is called with.
unfoldable pub get_json {ℓ} :
    {A : Type ℓ} → ClientConfig → Service → (Text → Result Text A) → Text → Result OperationError A
unfolding fetch resource_url
get_json cfg service decode resource =
    let url = resource_url cfg resource in
    elim (fetch (pos_part cfg.max_attempt) (service.reply url) (service.wait url)) [
      | err e ↦ err (fetch_failed e)
      | ok payload ↦ elim (decode payload) [ err e ↦ err (decode_failed resource e) | ok a ↦ ok a ]
    ]

-- `Region`, `InstanceID` and `CompartmentID`.
unfoldable pub text_operation : ClientConfig → Service → Text → Text × Option OperationError
unfolding get_text resource_url
text_operation cfg service resource =
    let url = resource_url cfg resource in
    elim (get_text (pos_part cfg.max_attempt) (service.reply url) (service.wait url)) [
      | err e ↦ ([], some (fetch_failed e))
      | ok body ↦ (body, none)
    ]

-- `CanonicalRegion`; the decoder gives the field `regionInfo.canonicalRegionName`.
unfoldable pub canonical_region_operation :
    ClientConfig → Service → (Text → Result Text Text) → Text × Option OperationError
unfolding get_json trim_space is_empty
canonical_region_operation cfg service decode = elim (get_json cfg service decode []) [
  | err e ↦ ([], some e)
  | ok name ↦
      let canonical = trim_space name in
      if is_empty canonical then ([], some empty_canonical_region) else (canonical, none)
]

-- The HTTP client as a `Client`.
unfoldable pub http_client :
    {F : Type 0}
    → ClientConfig
    → Service
    → (Text → Result Text Text)
    → (Text → Result Text (ShapeConfig F))
    → Client F OperationError
unfolding text_operation canonical_region_operation get_json
http_client cfg service decode_region decode_shape = record {
  region = text_operation cfg service (codes "region");
  canonical_region = canonical_region_operation cfg service decode_region;
  instance_id = text_operation cfg service (codes "id");
  compartment_id = text_operation cfg service (codes "compartmentId");
  shape_config = get_json cfg service decode_shape (codes "shapeConfig");
}
