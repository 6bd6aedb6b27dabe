-- ===== src/RouterHost/Examples.antt =====
-- A process with one TCP listener, and the theorems about it at small inputs.
use apm_projectrunner.Base.{
  ℕ, String, ◌≡◌, ◌↔◌, refl, true, false, List, [], ◌∷◌, ◌++◌, none, some, get, insert, collect_by,
  decimal, arith, string_eq, list_eq, nat_eq, ◌==◌, if◌then◌else◌, length,
}
use apm_projectrunner.Base.Json.{null, text, field, end}
use apm_projectrunner.RouterConfig.Model
use apm_projectrunner.RouterConfig.Model.{
  RouterConfig, Listener, Provider, v4, close, loopback_slot, Protocol,
}
use apm_projectrunner.RouterConfig.Identifier.{valid_identifier, valid_header_value}
use apm_projectrunner.RouterConfig.Net.{is_loopback_host, is_local_host}
use apm_projectrunner.RouterConfig.Validate.{
  validate, verdict, validation_errors, schema_errors, exposure_errors,
}
use apm_projectrunner.RouterConfig.Validate.Report.{
  error, with_context, indexed, identifier_errors, header_value_errors,
}
use apm_projectrunner.RouterConfig.Validate.Listeners.{
  tls_errors, authentication_errors, consumer_errors, duplicate_errors, bind_errors,
  conflict_errors, managed_errors, destination_errors, record_destinations, destinations_errors,
  record_slots, listener_errors, ports_errors, member_errors, members_errors, proxy_errors,
}
use apm_projectrunner.RouterConfig.Validate.References.{
  compatibility_errors, resolved_errors, reference_errors, provider_errors, providers_errors_from,
  entries_errors, group_errors, groups_errors_from, selected_errors, bound_errors, binding_errors,
  bindings_errors_from, repeated_route_errors, identity_errors, repeated_browser_errors,
  route_errors, routes_errors_from, browser_route_errors, browser_errors_from,
}
use apm_projectrunner.RouterCore.Compile.{
  CompiledSnapshot, compile, build, add_bindings, add_routes, add_browser_routes, target, target_of,
}
use apm_projectrunner.RouterCore.Engine.{new}
use apm_projectrunner.RouterCore.Lookup.{lookup_consumer}
use apm_projectrunner.RouterHost.Process.{
  Surroundings, ok, http_error, selected, tcp_target, tcp_error, validate_runtime_config,
}
use apm_projectrunner.RouterHost.Observe.{unobserved, max_events, reload}
use apm_projectrunner.Base.Ring.{IsEnd}
use apm_projectrunner.RouterHost.Observe.Log.{
  Emission, emit_all, events_of, IsLog, emit_all-unobserved,
}
use apm_projectrunner.RouterHost.Control.{ControlState, apply_config}
use apm_projectrunner.RouterHost.Report.{Reports}
use apm_projectrunner.RouterHost.Execute.{execute_apply}
use apm_projectrunner.RouterHost.Admin.{
  Request, request, malformed, read_frame, frame, constant_time_eq, serve_connection,
}
use apm_projectrunner.RouterHost.Admin.Token.{constant_time_eq-equal}
use apm_projectrunner.RouterHost.Admin.Framing.{IsFrame, read_frame-frame}
use apm_projectrunner.RouterHost.Sync.{InSync}
use apm_projectrunner.RouterHost.Sync.Effect.{Effect, execute_apply-Effect}
use apm_projectrunner.RouterHost.Sync.Serve.{Serves, serve_connection-Serves}
use apm_projectrunner.RouterHost.Start.{Sockets, start, bind_all, fresh, assembled}
use apm_projectrunner.RouterHost.Start.Running.{
  Connection, start-InSync, serve_all, start-serve_all,
}

abbrev shop : String → Provider
shop host = record {
  id = "shop-db";
  endpoint = record { protocol = Protocol.tcp; host = host; port = 5432 };
  health_check = none;
  receive_identity_header = false;
}

abbrev entry : Listener
entry = record {
  consumer = some "ui";
  bind = record { host = v4 127 0 0 1; port = 8001 };
  protocol = Protocol.tcp;
  tls = none;
  destinations = loopback_slot "db" ∷ [];
  proxy_identity = none;
  proxy_authentication = none;
}

-- Version `n`, with the provider at the host.
abbrev shop_config : String → ℕ → RouterConfig
shop_config host n = record {
  api_version = Model.api_version;
  kind = Model.config_kind;
  deployment = "demo";
  spec = record {
    snapshot = record {
      id = "s";
      version = n;
      transitions = record {
        http = close;
        https = close;
        websocket = close;
        grpc = close;
        tcp = close;
      };
    };
    exposure = none;
    listeners = entry ∷ [];
    providers = shop host ∷ [];
    groups = [];
    bindings = [];
    routes = record { consumer = "ui"; slot = "db"; provider = "shop-db" } ∷ [];
    browser_routes = [];
    transparent_proxy = none;
    identity = record { explicit_header = "X-Apmpr-Route"; strip_before_forwarding = true };
  };
}

abbrev pub no_checksum : RouterConfig → String
no_checksum c = "00"

abbrev shop_snapshot : String → ℕ → CompiledSnapshot
shop_snapshot host n = record {
  config = shop_config host n;
  checksum = "00";
  consumer_routes = (("ui", "db"), target_of (shop host)) ∷ [];
  browser_routes = [];
}

abbrev pub surroundings : Surroundings
surroundings = record {
  show_address = λ a. "127.0.0.1:8001";
  load_proxy_credential = λ a. none;
  probe = λ endpoint check. none;
}

abbrev sockets : Sockets
sockets = record {
  spawn = none;
  bind_forward = λ l. none;
  bind_tcp = λ l. none;
  bind_transparent = λ p. none;
  bind_admin = none;
}

abbrev pub running : ControlState
running =
    assembled (shop_config "127.0.0.1" 1)
      (record {
        snapshots = record { current = shop_snapshot "127.0.0.1" 1; previous = none };
        poisoned = false;
      })
      (fresh entry (record { host = "127.0.0.1"; port = 5432 }) ∷ []) []

start_running :
    start no_checksum surroundings sockets "t0ken" (shop_config "127.0.0.1" 1) ≡ ok running
unfolding start validate_runtime_config new compile build target add_bindings add_routes
    add_browser_routes http_error tcp_error tcp_target selected bind_all lookup_consumer get insert
    collect_by valid_identifier valid_header_value is_loopback_host is_local_host validate
    validation_errors schema_errors exposure_errors identifier_errors header_value_errors tls_errors
    authentication_errors consumer_errors duplicate_errors bind_errors conflict_errors
    managed_errors destination_errors record_destinations destinations_errors record_slots
    listener_errors ports_errors member_errors members_errors proxy_errors compatibility_errors
    resolved_errors reference_errors provider_errors providers_errors_from entries_errors
    group_errors groups_errors_from selected_errors bound_errors binding_errors bindings_errors_from
    repeated_route_errors identity_errors repeated_browser_errors route_errors routes_errors_from
    browser_route_errors browser_errors_from error with_context indexed decimal verdict
start_running = refl

running-InSync : InSync running
running-InSync =
    start-InSync no_checksum surroundings sockets "t0ken" (shop_config "127.0.0.1" 1) running
      start_running

-- The provider has moved.
abbrev moved : RouterConfig
moved = shop_config "127.0.0.2" 2

execute_apply-Effect_example :
    Effect no_checksum surroundings running moved
      (execute_apply no_checksum surroundings 5 running moved)
execute_apply-Effect_example =
    execute_apply-Effect no_checksum surroundings 5 running moved running-InSync

abbrev pub reports : Reports
reports = record {
  encode_endpoint = λ e. null;
  encode_transparent = λ p. null;
  encode_browser_routes = λ rs. null;
  data_plane = null;
  control_events = λ o. null;
  http_events = null;
}

abbrev pub letter : List ℕ
letter = 97 ∷ []

abbrev line : List ℕ
line = letter ++ b'\n' ∷ []

-- The frame "a" stands for the apply, with the token, and any other is malformed.
abbrev decode : List ℕ → Request
decode bs = if bs == letter then request "t0ken" (apply_config moved) else malformed "no request"

serve_connection-Serves_example :
    Serves no_checksum surroundings decode reports 5 "t0ken" line running
      (serve_connection no_checksum surroundings decode reports 5 "t0ken" running line true).0
serve_connection-Serves_example =
    serve_connection-Serves no_checksum surroundings decode reports 5 "t0ken" running line true
      running-InSync

-- The provider does not answer to the first apply, and does to the second.
abbrev unreachable : Surroundings
unreachable = record surroundings { probe = λ endpoint check. some "connection refused" }

abbrev history : List (Connection no_checksum decode "t0ken")
history =
    (unreachable, (5, (reports, (line, true))))
    ∷ (surroundings, (6, (reports, (line, true))))
    ∷ (surroundings, (7, (reports, (98 ∷ line, false))))
    ∷ []

start-serve_all_example : InSync (serve_all no_checksum decode "t0ken" running history)
start-serve_all_example =
    start-serve_all no_checksum decode "t0ken" surroundings sockets "t0ken"
      (shop_config "127.0.0.1" 1) running history start_running

constant_time_eq-equal_example : (constant_time_eq letter line ≡ true) ↔ (letter ≡ line)
constant_time_eq-equal_example = constant_time_eq-equal letter line

read_frame-frame_example :
    (read_frame (98 ∷ line) ≡ frame (98 ∷ 97 ∷ [])) ↔ IsFrame (98 ∷ line) (98 ∷ 97 ∷ [])
read_frame-frame_example = read_frame-frame (98 ∷ line) (98 ∷ 97 ∷ [])

abbrev emissions : List Emission
emissions =
    (7, (reload, ("activated", field "version" null (field "authToken" (text "t0ken") end)))) ∷ []

emit_all-unobserved_example :
    IsLog (emit_all unobserved emissions)
    × IsEnd max_events (events_of 0 emissions) (emit_all unobserved emissions).events
    × ((emit_all unobserved emissions).sequence ≡ length emissions)
emit_all-unobserved_example = emit_all-unobserved emissions (omega arith)
