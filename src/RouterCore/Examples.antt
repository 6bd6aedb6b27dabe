-- ===== src/RouterCore/Examples.antt =====
-- A small configuration with its compiled snapshot, the theorems about compilation, lookups and the
-- engine at it, and tests.
use apm_projectrunner.Base.{
  ℕ, String, ◌≡◌, refl, ◌⊎◌, true, false, [], ◌∷◌, none, some, get, insert, collect_by, decimal,
  string_eq, pair_eq,
}
use apm_projectrunner.RouterConfig.Model
use apm_projectrunner.RouterConfig.Model.{
  RouterConfig, RouterSpec, Listener, Provider, ServiceGroup, Binding, Route, BrowserRoute, v4,
  close, ConnectionTransitionPolicies, loopback_slot, ValidationError,
}
use apm_projectrunner.RouterConfig.Identifier.{valid_identifier, valid_header_value}
use apm_projectrunner.RouterConfig.Net.{is_loopback_host, is_local_host}
use apm_projectrunner.RouterConfig.Validate.{
  Validated, valid, invalid, validate, verdict, validation_errors, schema_errors, exposure_errors,
}
use apm_projectrunner.RouterConfig.Resolve.{IsResolved, validate-IsResolved}
use apm_projectrunner.RouterConfig.Unique.{IsUnique, validate-IsUnique}
use apm_projectrunner.RouterConfig.Validate.Report.{
  error, with_context, indexed, identifier_errors, header_value_errors,
}
use apm_projectrunner.RouterConfig.Validate.Listeners.{
  tls_errors, authentication_errors, consumer_errors, duplicate_errors, bind_errors,
  conflict_errors, managed_errors, destination_errors, record_destinations, destinations_errors,
  record_slots, listener_errors, ports_errors, member_errors, members_errors, proxy_errors,
}
use apm_projectrunner.RouterConfig.Validate.References.{
  compatibility_errors, resolved_errors, reference_errors, provider_errors, providers_errors_from,
  entries_errors, group_errors, groups_errors_from, selected_errors, bound_errors, binding_errors,
  bindings_errors_from, repeated_route_errors, identity_errors, repeated_browser_errors,
  route_errors, routes_errors_from, browser_route_errors, browser_errors_from,
}
use apm_projectrunner.RouterCore.Compile.{
  CompiledSnapshot, compiled, compile, build, add_bindings, add_entries, add_routes,
  add_browser_routes, target, target_of, BrowserKey,
}
use apm_projectrunner.RouterCore.Total.{Rejection, Acceptance, compile_outcome}
use apm_projectrunner.RouterCore.Lookup.{
  lookup_consumer, lookup_browser, failed, conflicting_identity,
}
use apm_projectrunner.RouterCore.Resolution.{lookup_consumer-resolve}
use apm_projectrunner.RouterCore.Browser.{lookup_browser-decide}
use apm_projectrunner.RouterCore.Engine.{RouteEngine, ok, new, apply, run}
use apm_projectrunner.RouterCore.History.{
  Applied, apply-Applied, IsSound, new-run-IsSound, IsNewest, run-IsNewest,
}

-- What evaluating `validate` unfolds.
unfoldable validating : Validated
unfolding get insert collect_by valid_identifier valid_header_value is_loopback_host is_local_host
    validate validation_errors schema_errors exposure_errors identifier_errors header_value_errors
    tls_errors authentication_errors consumer_errors duplicate_errors bind_errors conflict_errors
    managed_errors destination_errors record_destinations destinations_errors record_slots
    listener_errors ports_errors member_errors members_errors proxy_errors compatibility_errors
    resolved_errors reference_errors provider_errors providers_errors_from entries_errors
    group_errors groups_errors_from selected_errors bound_errors binding_errors bindings_errors_from
    repeated_route_errors identity_errors repeated_browser_errors route_errors routes_errors_from
    browser_route_errors browser_errors_from error with_context indexed decimal verdict
validating = valid

abbrev backend : String → Provider
backend id = record {
  id = id;
  endpoint = record { protocol = Model.Protocol.http; host = "127.0.0.1"; port = 9001 };
  health_check = none;
  receive_identity_header = false;
}

abbrev entry : Listener
entry = record {
  consumer = none;
  bind = record { host = v4 127 0 0 1; port = 8001 };
  protocol = Model.Protocol.http;
  tls = none;
  destinations = loopback_slot "api" ∷ [];
  proxy_identity = none;
  proxy_authentication = none;
}

abbrev policies : ConnectionTransitionPolicies
policies = record { http = close; https = close; websocket = close; grpc = close; tcp = close }

-- Version `n` of the sample, whose snapshot is called `id`.
abbrev sample : String → ℕ → RouterConfig
sample id n = record {
  api_version = Model.api_version;
  kind = Model.config_kind;
  deployment = "demo";
  spec = record {
    snapshot = record { id = id; version = n; transitions = policies };
    exposure = none;
    listeners = entry ∷ [];
    providers = backend "backend-1" ∷ backend "backend-2" ∷ [];
    groups = record { id = "feature"; providers = ("api", "backend-1") ∷ [] } ∷ [];
    bindings =
        record { id = "b-1"; consumer = "ui-1"; group = "feature"; required_slots = "api" ∷ [] }
        ∷ [];
    routes = record { consumer = "ui-2"; slot = "api"; provider = "backend-2" } ∷ [];
    browser_routes =
        record {
          identity = Model.explicit_header "tab-1";
          destination = "api";
          provider = "backend-1";
        }
        ∷ record {
          identity = Model.BrowserIdentity.origin "http://ui-2.localhost";
          destination = "api";
          provider = "backend-2";
        }
        ∷ [];
    transparent_proxy = none;
    identity = record { explicit_header = "X-Apmpr-Route"; strip_before_forwarding = true };
  };
}

abbrev named : RouterConfig → String
named c = c.spec.snapshot.id

abbrev sample_snapshot : CompiledSnapshot
sample_snapshot = record {
  config = sample "s-1" 1;
  checksum = "s-1";
  consumer_routes =
      (("ui-1", "api"), target_of (backend "backend-1"))
      ∷ (("ui-2", "api"), target_of (backend "backend-2"))
      ∷ [];
  browser_routes =
      (("api", BrowserKey.header "tab-1"), target_of (backend "backend-1"))
      ∷ (("api", BrowserKey.origin "http://ui-2.localhost"), target_of (backend "backend-2"))
      ∷ [];
}

sample_compiles : compile named (sample "s-1" 1) ≡ compiled sample_snapshot
unfolding validating compile build add_bindings add_entries add_routes add_browser_routes target
sample_compiles = refl

-- A binding to a group that is not declared is reported, and nothing panics.
abbrev unbound : RouterConfig
unbound = record (sample "s-1" 1) { spec = record ((sample "s-1" 1).spec) { groups = [] } }

unbound_rejected :
    validate unbound
    ≡ invalid (
        record {
          code = Model.missing_group;
          path = "spec.bindings[0].group";
          message = "binding refers to an unknown group";
          context = ("group", "feature") ∷ [];
        }
        ∷ [])
unfolding validating
unbound_rejected = refl

compile_outcome_example : Rejection named unbound ⊎ Acceptance named unbound
compile_outcome_example = compile_outcome named unbound

lookup_consumer-resolve_example :
    lookup_consumer sample_snapshot "ui-1" "api" ≡ some (target_of (backend "backend-1"))
unfolding get
lookup_consumer-resolve_example =
    lookup_consumer-resolve named (sample "s-1" 1) sample_snapshot "ui-1" "api" ((tt, tt), tt)
      sample_compiles

lookup_browser-decide_example :
    lookup_browser sample_snapshot (record {
      destination = "api";
      explicit_header = some "tab-1";
      origin = some "http://ui-2.localhost";
      proxy_listener = none;
    })
    ≡ failed conflicting_identity
lookup_browser-decide_example =
    lookup_browser-decide named (sample "s-1" 1) sample_snapshot sample_compiles (record {
      destination = "api";
      explicit_header = some "tab-1";
      origin = some "http://ui-2.localhost";
      proxy_listener = none;
    })

abbrev engine : RouteEngine
engine = record {
  snapshots = record { current = sample_snapshot; previous = none };
  poisoned = false;
}

fresh_engine : new named (sample "s-1" 1) ≡ ok engine
unfolding new
fresh_engine = rw (sample_compiles, new)

apply-Applied_example : Applied named engine (sample "s-2" 2) (apply named engine (sample "s-2" 2))
apply-Applied_example = apply-Applied named engine (sample "s-2" 2)

new-run-IsSound_example : IsSound named (run named engine (sample "s-2" 2 ∷ unbound ∷ []))
new-run-IsSound_example =
    new-run-IsSound named (sample "s-1" 1) engine (sample "s-2" 2 ∷ unbound ∷ []) fresh_engine

run-IsNewest_example :
    IsNewest named engine
      (sample "s-2" 2 ∷ sample "s-1" 1 ∷ [])
      (run named engine (sample "s-2" 2 ∷ sample "s-1" 1 ∷ []))
run-IsNewest_example = run-IsNewest named engine (sample "s-2" 2 ∷ sample "s-1" 1 ∷ []) refl

sample_accepted : validate (sample "s-1" 1) ≡ valid
unfolding validating
sample_accepted = refl

validate-IsResolved_example : IsResolved (sample "s-1" 1)
validate-IsResolved_example = validate-IsResolved (sample "s-1" 1) sample_accepted

validate-IsUnique_example : IsUnique (sample "s-1" 1)
validate-IsUnique_example = validate-IsUnique (sample "s-1" 1) sample_accepted
