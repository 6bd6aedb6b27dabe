-- ===== src/RouterHost/Process.antt =====
-- What a router process derives from a configuration: the checks before it starts, the target of each
-- TCP listener and the members of the transparent proxy.
use apm_projectrunner.Base.{
  ◌≡◌, refl, arith, ℕ, String, Bool, true, false, not, ◌&&◌, List, [], ◌∷◌, Option, none, some, map,
  filter, is_some, length, format, decimal, split_once, ◌==◌, ◌!=◌, nat_eq, string_eq,
  if◌then◌else◌, Map, insert,
}
use apm_projectrunner.RouterConfig.Model.{
  RouterConfig, Protocol, protocol_eq, Listener, ListenerDestination, slot_of, SocketAddress,
  ProxyAuthentication, TransparentProxy, TransparentMember, ConnectionTransitionPolicy,
  UpstreamEndpoint, HealthCheck, Provider,
}
use apm_projectrunner.RouterCore.Compile.{CompiledSnapshot, RouteTarget}
use apm_projectrunner.RouterCore.Lookup.{Found, found, failed, lookup_consumer, lookup_browser}
use apm_projectrunner.RouterCore.Engine.{
  RouteEngine, ApplyError, decode, invalid, lock_poisoned, Outcome, snapshot, new,
}
use apm_projectrunner.RouterTcp.Transparent.{TransparentTarget, with_declared_ports}

-- `router_pingora::BuildError`.
pub data BuildErrorCode : Type 0 where
  unsupported_listener missing_destination invalid_tls_identity : BuildErrorCode
  invalid_proxy_authentication server_initialization : BuildErrorCode

pub record BuildError : Type 0 where
  pub code : BuildErrorCode
  pub message : String

pub data ProcessError : Type 0 where
  io : String → ProcessError
  configuration : String → ProcessError
  http : BuildError → ProcessError

-- The result of a check, its error, or a panic.
pub data Checked {ℓ} (A : Type ℓ) : Type ℓ where
  ok : A → Checked A
  err : ProcessError → Checked A
  panic : Checked A

infixl 5 ◌>>=◌
abbrev pub ◌>>=◌ {ℓ κ} : {A : Type ℓ} {B : Type κ} → Checked A → (A → Checked B) → Checked B
ok a >>= continue = continue a
err why >>= continue = err why
panic >>= continue = panic

-- The parts of a chain that succeeds.
pub bind-eq-ok {ℓ κ} :
    {A : Type ℓ} {B : Type κ} (r : Checked A) (continue : A → Checked B) {b : B}
    → (r >>= continue) ≡ ok b
    → (a : A) × (r ≡ ok a) × (continue a ≡ ok b)
bind-eq-ok (ok a) continue h = (a, refl, h)
bind-eq-ok (err why) continue h = absurd (ground arith)
bind-eq-ok panic continue h = absurd (ground arith)

-- What the process asks of its surroundings during a call: the printing of an address, the credential
-- file of a listener (its error, if it cannot be used) and the probe of an upstream.
pub record Surroundings : Type 0 where
  pub show_address : SocketAddress → String
  pub load_proxy_credential : ProxyAuthentication → Option BuildError
  pub probe : UpstreamEndpoint → HealthCheck → Option String

-- `{:?}` of the code, and the three displays.
abbrev debug_code : BuildErrorCode → String
debug_code unsupported_listener = "UnsupportedListener"
debug_code missing_destination = "MissingDestination"
debug_code invalid_tls_identity = "InvalidTlsIdentity"
debug_code invalid_proxy_authentication = "InvalidProxyAuthentication"
debug_code server_initialization = "ServerInitialization"

abbrev pub display_build : BuildError → String
display_build e = format (debug_code e.code ∷ ": " ∷ e.message ∷ [])

abbrev pub display_process : ProcessError → String
display_process (io why) = format ("router I/O failed: " ∷ why ∷ [])
display_process (configuration why) = format ("router configuration failed: " ∷ why ∷ [])
display_process (http e) = format ("HTTP data plane failed: " ∷ display_build e ∷ [])

abbrev pub display_apply : ApplyError → String
display_apply (decode why) = format ("configuration could not be decoded: " ∷ why ∷ [])
display_apply (invalid errors) =
    format ("configuration is invalid (" ∷ decimal (length errors) ∷ " error(s))" ∷ [])
display_apply lock_poisoned = "route snapshot lock is poisoned"

abbrev pub engine_checked : Outcome RouteEngine → Checked RouteEngine
engine_checked (Outcome.ok e) = ok e
engine_checked (Outcome.err why) = err (configuration (display_apply why))
engine_checked Outcome.panic = panic

-- `HttpDataPlane::new`, of which only the error matters here.
abbrev is_https : Protocol → Bool
is_https p = p == Protocol.https

abbrev credential_error : Surroundings → Option ProxyAuthentication → Option BuildError
credential_error env none = none
credential_error env (some authentication) = env.load_proxy_credential authentication

abbrev or_error : Option BuildError → Option BuildError → Option BuildError
or_error (some e) later = some e
or_error none later = later

abbrev no_destinations : Listener → Bool
no_destinations l = elim l.destinations [ [] ↦ true | _ ∷ _ ↦ false ]

abbrev misplaced_tls : Listener → Bool
misplaced_tls l = if is_https l.protocol then not (is_some l.tls) else is_some l.tls

unfoldable pub http_error : Surroundings → List Listener → Option BuildError
http_error env [] = none
http_error env (l ∷ ls) =
    let later = http_error env ls in
    if l.protocol == Protocol.tcp
    then some (record {
      code = unsupported_listener;
      message = format (env.show_address l.bind ∷ " is not an HTTP-family listener" ∷ []);
    })
    else if no_destinations l
    then some (record {
      code = missing_destination;
      message = format (env.show_address l.bind ∷ " has no destinations" ∷ []);
    })
    else if misplaced_tls l
    then some (record {
      code = unsupported_listener;
      message =
          "HTTPS listeners require a TLS identity and non-HTTPS listeners must not declare one";
    })
    else or_error (credential_error env l.proxy_authentication) later

pub record TcpTarget : Type 0 where
  pub host : String
  pub port : ℕ

abbrev found? : Found → Option RouteTarget
found? (found t) = some t
found? (failed why) = none

-- The route that a TCP listener selects.
unfoldable pub selected : CompiledSnapshot → Listener → String → Option RouteTarget
selected s l slot = elim l.consumer [
  | some consumer ↦ lookup_consumer s consumer slot
  | none ↦ found? (
      lookup_browser s (record {
        destination = slot;
        explicit_header = none;
        origin = none;
        proxy_listener = l.proxy_identity;
      }))
]

abbrev pub endpoint_target : String → RouteTarget → Checked TcpTarget
endpoint_target slot t =
    if t.endpoint.protocol != Protocol.tcp
    then err (configuration (format ("TCP slot " ∷ slot ∷ " selected a non-TCP provider" ∷ [])))
    else ok (record { host = t.endpoint.host; port = t.endpoint.port })

abbrev pub routed : String → Option RouteTarget → Checked TcpTarget
routed slot none =
    err (configuration (format ("TCP listener route for slot " ∷ slot ∷ " is unresolved" ∷ [])))
routed slot (some t) = endpoint_target slot t

abbrev pub target_at : CompiledSnapshot → Listener → List ListenerDestination → Checked TcpTarget
target_at s l (d ∷ []) = routed (slot_of d) (selected s l (slot_of d))
target_at s l ds = err (configuration "a TCP listener must declare exactly one destination")

unfoldable pub tcp_target : CompiledSnapshot → Listener → Checked TcpTarget
tcp_target s l = target_at s l l.destinations

pub data TransitionPolicy : Type 0 where
  close : TransitionPolicy
  drain : ℕ → TransitionPolicy
  pin : TransitionPolicy

-- A timeout in milliseconds.
abbrev pub transition_policy : ConnectionTransitionPolicy → TransitionPolicy
transition_policy ConnectionTransitionPolicy.close = close
transition_policy (ConnectionTransitionPolicy.drain timeout) = drain timeout
transition_policy ConnectionTransitionPolicy.pin = pin

abbrev instance_of : String → Option (String × String) → String
instance_of component none = component
instance_of component (some (first, rest)) = first

abbrev declared : TransparentTarget → Option (List ℕ) → TransparentTarget
declared target none = target
declared target (some ports) = with_declared_ports target ports

-- 47 is the code of '/'.
abbrev member_target : TransparentProxy → TransparentMember → TransparentTarget
member_target proxy m =
    declared
      (record {
        component = m.component;
        host = m.host;
        local = instance_of m.component (split_once 47 m.component) == proxy.consumer;
        declared_ports = none;
      })
      m.ports

unfoldable pub transparent_targets : TransparentProxy → List TransparentTarget
transparent_targets proxy = map (member_target proxy) proxy.members

abbrev pub is_tcp : Listener → Bool
is_tcp l = l.protocol == Protocol.tcp

abbrev pub serves_http : Listener → Bool
serves_http l = l.protocol != Protocol.tcp && not (is_some l.proxy_identity)

-- The loop of `tcp_target(&engine, listener)?`.
unfoldable pub tcp_error : CompiledSnapshot → List Listener → Checked (Unit {0})
tcp_error s [] = ok tt
tcp_error s (l ∷ ls) = tcp_target s l >>= λ _. tcp_error s ls

abbrev pub http_checked : Option BuildError → Checked (Unit {0})
http_checked none = ok tt
http_checked (some e) = err (http e)

module _ (checksum : RouterConfig → String) (env : Surroundings) where
  -- Without an HTTP listener no data plane is built, which `http_error` of no listener gives too.
  unfoldable pub validate_runtime_config : RouterConfig → Checked (Unit {0})
  validate_runtime_config c = do
    engine ← engine_checked (new checksum c)
    _ ← http_checked (http_error env (filter serves_http c.spec.listeners))
    tcp_error (snapshot engine) (filter is_tcp c.spec.listeners)

abbrev checked : Surroundings → UpstreamEndpoint → Option HealthCheck → Option String
checked env endpoint none = none
checked env endpoint (some check) = env.probe endpoint check

-- `readiness`: the outcome of each provider's check, by its identifier.
unfoldable pub readiness :
    Surroundings → Map String (Option String) → List Provider → Map String (Option String)
readiness env known [] = known
readiness env known (p ∷ ps) =
    readiness env (insert p.id (checked env p.endpoint p.health_check) known) ps
