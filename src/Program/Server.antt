-- ===== src/Program/Server.antt =====
-- internal/metricsserver/metricsserver.go: when the endpoint of the metrics is started. Contexts and
-- handlers are there or nil; listening and the server itself are parameters.
use oci_cpu_shaper.Base.{Bool, true, false, Option, none, some, Result, ok, err, if◌then◌else◌}
use oci_cpu_shaper.Base.Text.{Text, trim_space, is_empty}

pub data ServerError : Type 0 where
  context_required : ServerError
  server_disabled : ServerError
  listen_failed : Text → Text → ServerError
  start_failed : Text → ServerError

-- `StartServer` up to the two goroutines: the address that is served.
unfoldable pub start_server : Bool → Text → Bool → (Text → Option Text) → Result ServerError Text
unfolding trim_space is_empty
start_server has_context addr has_handler listen =
    let trimmed = trim_space addr in
    if is_empty trimmed
    then err server_disabled
    else if has_handler
    then (if has_context
        then elim (listen trimmed) [ some e ↦ err (listen_failed trimmed e) | none ↦ ok trimmed ]
        else err context_required)
    else err server_disabled

-- `StartEndpoint`: nothing, or what the start function returns.
unfoldable pub start_endpoint {ℓ} :
    {S : Type ℓ}
    → Bool
    → Option (Text → Result ServerError S)
    → Text
    → Bool
    → Result ServerError (Option S)
unfolding trim_space is_empty
start_endpoint has_context start bind_addr false = ok none
start_endpoint has_context none bind_addr true = ok none
start_endpoint has_context (some start) bind_addr true =
    let trimmed = trim_space bind_addr in
    if is_empty trimmed
    then ok none
    else if has_context
    then elim (start trimmed) [ err e ↦ err e | ok s ↦ ok (some s) ]
    else err context_required
