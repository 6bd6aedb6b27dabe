-- ===== src/RouterHost/Report.antt =====
-- The bodies of the answers to administration commands.
use apm_projectrunner.Base.{
  ℕ, String, Bool, true, false, List, [], ◌∷◌, Option, none, some, Map, decimal, nat_eq, string_eq,
  pair_eq, option_eq, list_eq,
}
use apm_projectrunner.Base.Json.{
  Value, bool, number, text, array, object, Items, nil, cons, Fields, end, field,
}
use apm_projectrunner.RouterConfig.Model.{
  Listener, ListenerDestination, slot_of, TransparentProxy, BrowserRoute, UpstreamEndpoint,
}
use apm_projectrunner.RouterConfig.Equality.{listener_eq, identity_eq}
use apm_projectrunner.RouterCore.Compile.{CompiledSnapshot, RouteTarget}
use apm_projectrunner.RouterCore.Lookup.{lookup_consumer}
use apm_projectrunner.RouterCore.Engine.{
  RouteEngine, ActivationStatus, activated, rejected_stale, version, snapshot,
}
use apm_projectrunner.RouterHost.Observe.{Observability}
use apm_projectrunner.RouterHost.Control.{ControlState, Answer}

-- What the derived encoders of the configuration print, and what the telemetry of the data planes
-- reports.
pub record Reports : Type 0 where
  pub encode_endpoint : UpstreamEndpoint → Value
  pub encode_transparent : Option TransparentProxy → Value
  pub encode_browser_routes : List BrowserRoute → Value
  pub data_plane : Value
  pub control_events : Observability → Value
  pub http_events : Value

abbrev pub u64_value : ℕ → Value
u64_value n = number (decimal n)

abbrev pub failure : String → String → Answer
failure code message = record {
  ok = false;
  body = object (field "code" (text code) (field "message" (text message) end));
  drain = false;
}

abbrev pub success : Value → Answer
success body = record { ok = true; body = body; drain = false }

abbrev pub status_text : ActivationStatus → String
status_text activated = "activated"
status_text rejected_stale = "rejected_stale"

unfoldable pub snapshot_identity : RouteEngine → Value
snapshot_identity e = object (
    field "id" (text (snapshot e).config.spec.snapshot.id) (
      field "version" (u64_value (version (snapshot e)))
        (field "checksum" (text (snapshot e).checksum) end)))

abbrev items : List Value → Items
items [] = nil
items (v ∷ vs) = cons v (items vs)

abbrev found_route : Reports → String → String → Option RouteTarget → List Value → List Value
found_route reports consumer slot none later = later
found_route reports consumer slot (some t) later =
    object (
      field "consumer" (text consumer) (
        field "slot" (text slot) (
          field "provider" (text t.provider)
            (field "endpoint" (reports.encode_endpoint t.endpoint) end))))
    ∷ later

abbrev destination_routes :
    Reports → CompiledSnapshot → String → List ListenerDestination → List Value → List Value
destination_routes reports s consumer [] later = later
destination_routes reports s consumer (d ∷ ds) later =
    found_route reports consumer (slot_of d) (lookup_consumer s consumer (slot_of d))
      (destination_routes reports s consumer ds later)

abbrev consumer_routes :
    Reports → CompiledSnapshot → Option String → List ListenerDestination → List Value → List Value
consumer_routes reports s none ds later = later
consumer_routes reports s (some consumer) ds later = destination_routes reports s consumer ds later

abbrev listener_routes : Reports → CompiledSnapshot → List Listener → List Value
listener_routes reports s [] = []
listener_routes reports s (l ∷ ls) =
    consumer_routes reports s l.consumer l.destinations (listener_routes reports s ls)

unfoldable pub inspect_routes : Reports → RouteEngine → Value
inspect_routes reports e =
    let s = snapshot e in
    object (
      field "version" (u64_value (version s)) (
        field "checksum" (text s.checksum) (
          field "consumerRoutes" (array (items (listener_routes reports s s.config.spec.listeners)))
            (field "transparentProxy" (reports.encode_transparent s.config.spec.transparent_proxy) (
              field "browserRoutes" (reports.encode_browser_routes s.config.spec.browser_routes)
                end)))))

unfoldable pub counters_value : Reports → ControlState → Value
counters_value reports st = object (
    field "dataPlane" reports.data_plane (
      field "activeSnapshotVersion" (u64_value (version (snapshot st.engine))) (
        field "adminRequests" (u64_value st.observations.counters.requests) (
          field "adminConnections" (u64_value st.observations.counters.connections)
            (field "adminErrors" (u64_value st.observations.counters.errors) end)))))

-- The failed checks, as the entries of an object.
unfoldable pub failed_checks : Map String (Option String) → Fields
failed_checks [] = end
failed_checks ((provider, none) ∷ checks) = failed_checks checks
failed_checks ((provider, some message) ∷ checks) =
    field provider (text message) (failed_checks checks)

abbrev check_value : Option String → Value
check_value none = object (field "healthy" (bool true) end)
check_value (some message) =
    object (field "healthy" (bool false) (field "message" (text message) end))

abbrev pub check_values : Map String (Option String) → Fields
check_values [] = end
check_values ((provider, check) ∷ checks) = field provider (check_value check) (check_values checks)

abbrev pub no_fields : Fields → Bool
no_fields end = true
no_fields (field key value fs) = false
