-- ===== src/Daemon/Examples.antt =====
-- Two routers of which the second refuses its snapshot.
use apm_projectrunner.Base.{
  String, ◌≡◌, refl, true, false, List, [], ◌∷◌, none, some, pos, decimal, replace, string_eq, ◌==◌,
  if◌then◌else◌, arith,
}
use apm_projectrunner.Base.Json.{Value, null, text, object, field, end}
use apm_projectrunner.RouterConfig.Model
use apm_projectrunner.RouterConfig.Model.{RouterConfig, close}
use apm_projectrunner.State.Error
use apm_projectrunner.State.Error.{invalid_input, display_state}
use apm_projectrunner.State.Context.{
  secret_like, valid_secret_reference, validate_no_secret_values, structured_context,
}
use apm_projectrunner.State.Apply.{RouterApplyRecord, RouterApplyStatus}
use apm_projectrunner.RouterAdmin.Client.{
  AdminEndpoint, unix, ApplyAcknowledgement, activated, AdminResult, ok, err, rejected,
}
use apm_projectrunner.Daemon.Live
use apm_projectrunner.Daemon.Live.{
  RouterTarget, RouterAdmin, Call, router_attempt, rollback_attempt, api_error,
}
use apm_projectrunner.Daemon.Loop.{
  Progress, going, apply_target, apply_targets, candidate_at, rollback_target, rollback_each,
  rollback_applied_targets,
}
use apm_projectrunner.Daemon.Binding
use apm_projectrunner.Daemon.Binding.{undone, begun, live_binding}
use apm_projectrunner.Daemon.Events.{route, log}
use apm_projectrunner.Daemon.Events.Reading.{emits, finishes, Step}
use apm_projectrunner.Daemon.Leaving.{nothing, next, live_binding-unrecorded}
use apm_projectrunner.Daemon.Accounting.Report.{Accounted, live_binding-Accounted}

abbrev empty_config : RouterConfig
empty_config = record {
  api_version = Model.api_version;
  kind = Model.config_kind;
  deployment = "demo";
  spec = record {
    snapshot = record {
      id = "s";
      version = 1;
      transitions = record {
        http = close;
        https = close;
        websocket = close;
        grpc = close;
        tcp = close;
      };
    };
    exposure = none;
    listeners = [];
    providers = [];
    groups = [];
    bindings = [];
    routes = [];
    browser_routes = [];
    transparent_proxy = none;
    identity = record { explicit_header = "X-Apmpr-Route"; strip_before_forwarding = true };
  };
}

abbrev router_at : String → RouterTarget
router_at socket = record {
  id = socket;
  route_instance = none;
  endpoint = unix socket;
  old = empty_config;
  candidate = empty_config;
}

-- The world is the list of the snapshots that were asked for, the last first.
abbrev World : Type 0
World = List String

abbrev asked : RouterConfig → World → World
asked c w = c.spec.snapshot.id ∷ w

abbrev answer_to :
    Value → AdminEndpoint → RouterConfig → World → World × AdminResult ApplyAcknowledgement
answer_to details (unix socket) c w =
    if socket == "ui"
    then (
      asked c w,
      ok (record { version = c.spec.snapshot.version; checksum = "00"; status = activated }),
    )
    else (asked c w, err (rejected "provider_unhealthy" "not ready" details))
answer_to details endpoint c w = (w, err (rejected "unknown" "no router" null))

-- The details of a rejection are an argument.
abbrev routers : Value → RouterAdmin World
routers details = record {
  current_snapshot = λ endpoint w. (w, ok (record { id = "s"; version = 4; checksum = "0" }));
  apply_snapshot = answer_to details;
  now_millis = λ w. pos 9;
  cancelled = λ w. false;
}

abbrev call : Call
call = record {
  deployment = "demo";
  consumer = "ui";
  operation_id = "op-1";
  transition = none;
  transition_context = "{}";
  snapshot_checksum = λ c. "00";
  print = λ v. "{}";
  encode = λ ack. null;
}

-- The provider's identifier reads like a secret.
abbrev unhealthy : Value
unhealthy =
    object
      (field "providers" (object (field "api/token-issuer" (text "connection refused") end)) end)

abbrev plain : Value
plain = object (field "providers" (object (field "api/users" (text "connection refused") end)) end)

abbrev activated_first : Progress World
activated_first = record {
  world = "ui-membership-5" ∷ [];
  attempts =
      record {
        deployment = "demo";
        router = "ui";
        binding = "ui";
        operation_id = "op-1";
        desired_version = pos 5;
        desired_checksum = "00";
        version = pos 5;
        checksum = "00";
        status = RouterApplyStatus.active;
        observed_version = some (pos 4);
        observed_checksum = some "0";
        transition = "{}";
        error_code = none;
        recorded_at = pos 9;
        context = "{}";
      }
      ∷ [];
  applied =
      (candidate_at (router_at "ui") 5, record { id = "s"; version = 4; checksum = "0" }) ∷ [];
  acknowledgements = ("ui", record { version = 5; checksum = "00"; status = activated }) ∷ [];
}

first_activates :
    apply_target (routers unhealthy) call (router_at "ui") (begun (routers unhealthy) call [])
    ≡ going activated_first
unfolding apply_target router_attempt structured_context validate_no_secret_values secret_like
    replace decimal
first_activates = refl

secret_refused :
    structured_context (λ v. "{}") unhealthy
    ≡ Error.err (
        invalid_input "secret_value_forbidden"
          "$.providers.api/token-issuer must contain an environmentVariable or file reference")
unfolding structured_context validate_no_secret_values secret_like valid_secret_reference
secret_refused = refl

-- The first router keeps its new snapshot: the world holds no request to go back.
live_binding-unrecorded_example :
    live_binding (routers unhealthy) call (router_at "ui" ∷ router_at "host" ∷ []) [] ≡ (
      "host-membership-5" ∷ "ui-membership-5" ∷ [],
      Live.err (
          api_error "secret_value_forbidden"
            "secret_value_forbidden: $.providers.api/token-issuer must contain an environmentVariable or file reference"),
    )
unfolding replace decimal Error.code
live_binding-unrecorded_example =
    live_binding-unrecorded (routers unhealthy) call (router_at "ui" ∷ []) (router_at "host") [] []
      ("ui-membership-5" ∷ []) ("host-membership-5" ∷ "ui-membership-5" ∷ []) activated_first
      (record { id = "s"; version = 4; checksum = "0" }) "provider_unhealthy" "not ready" unhealthy
      _ (next first_activates nothing) refl refl (omega arith) refl secret_refused

abbrev attempts_of : World × Live.Tried (Binding.LiveBinding World) → List RouterApplyRecord
attempts_of (w, Live.ok (undone out attempts)) = attempts
attempts_of _ = []

abbrev both : List RouterTarget
both = router_at "ui" ∷ router_at "host" ∷ []

second_fails : live_binding (routers plain) call both [] ≡ (
  "ui-rollback-5" ∷ "host-membership-5" ∷ "ui-membership-5" ∷ [],
  Live.ok (
      undone "apmpr: router rejected provider_unhealthy: not ready\n"
        (attempts_of (live_binding (routers plain) call both []))),
)
unfolding live_binding apply_targets apply_target router_attempt structured_context
    validate_no_secret_values secret_like replace decimal rollback_applied_targets rollback_each
    rollback_target rollback_attempt
second_fails = refl

live_binding-Accounted_example :
    Accounted ("ui" ∷ "host" ∷ []) (attempts_of (live_binding (routers plain) call both []))
live_binding-Accounted_example =
    live_binding-Accounted (routers plain) call both []
      ("ui-rollback-5" ∷ "host-membership-5" ∷ "ui-membership-5" ∷ [])
      "apmpr: router rejected provider_unhealthy: not ready\n"
      (attempts_of (live_binding (routers plain) call both [])) second_fails

abbrev steps : List Step
steps = emits "op-1" (pos 1) route null ∷ emits "op-1" (pos 2) log null ∷ finishes ∷ []
