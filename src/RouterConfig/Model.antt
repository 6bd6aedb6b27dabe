-- ===== src/RouterConfig/Model.antt =====
-- The types of the router configuration. Identifiers (`InstanceId`, `ComponentId`, ...) are
-- transparent wrappers of a text, and paths are texts; ports, versions and milliseconds are
-- natural numbers, since nothing here computes with them. A `BTreeMap` read from a
-- configuration is the list of its entries in key order.
use apm_projectrunner.Base.{
  ℕ, String, ◌≡◌, ◌↔◌, Bool, true, false, List, Option, Eq, ◌==◌, nat_eq, string_eq, list_eq,
  list_beq_correct, pair_eq, Map, arith, ◌&&◌,
}

pub data Protocol : Type 0 where
  http https websocket grpc tcp : Protocol

abbrev pub protocol_beq : Protocol → Protocol → Bool
protocol_beq http http = true
protocol_beq https https = true
protocol_beq websocket websocket = true
protocol_beq grpc grpc = true
protocol_beq tcp tcp = true
protocol_beq _ _ = false

pub protocol_beq_correct : (p q : Protocol) → (protocol_beq p q ≡ true) ↔ (p ≡ q)
protocol_beq_correct http q = ground arith
protocol_beq_correct https q = ground arith
protocol_beq_correct websocket q = ground arith
protocol_beq_correct grpc q = ground arith
protocol_beq_correct tcp q = ground arith

instance abbrev pub protocol_eq : Eq Protocol
protocol_eq = record { beq = protocol_beq; beq_correct = protocol_beq_correct }

-- `{:?}` of a protocol.
abbrev pub protocol_debug : Protocol → String
protocol_debug http = "Http"
protocol_debug https = "Https"
protocol_debug websocket = "Websocket"
protocol_debug grpc = "Grpc"
protocol_debug tcp = "Tcp"

-- `std::net::IpAddr`: four octets, or eight 16-bit segments.
pub data IpAddr : Type 0 where
  v4 : ℕ → ℕ → ℕ → ℕ → IpAddr
  v6 : List ℕ → IpAddr

abbrev pub ip_beq : IpAddr → IpAddr → Bool
ip_beq (v4 a b c d) (v4 a' b' c' d') = a == a' && b == b' && c == c' && d == d'
ip_beq (v6 s) (v6 t) = s == t
ip_beq _ _ = false

pub ip_beq_correct : (a b : IpAddr) → (ip_beq a b ≡ true) ↔ (a ≡ b)
ip_beq_correct (v4 a b c d) (v4 a' b' c' d') = ground arith
ip_beq_correct (v6 s) (v6 t) = ground (arith, list_beq_correct s t)
ip_beq_correct (v4 a b c d) (v6 t) = ground arith
ip_beq_correct (v6 s) (v4 a b c d) = ground arith

instance abbrev pub ip_eq : Eq IpAddr
ip_eq = record { beq = ip_beq; beq_correct = ip_beq_correct }

pub record SocketAddress : Type 0 where
  pub host : IpAddr
  pub port : ℕ

abbrev pub socket_beq : SocketAddress → SocketAddress → Bool
socket_beq s t = s.host == t.host && s.port == t.port

pub socket_beq_correct : (s t : SocketAddress) → (socket_beq s t ≡ true) ↔ (s ≡ t)
socket_beq_correct s t = ground (arith, ip_beq_correct s.host t.host)

instance abbrev pub socket_eq : Eq SocketAddress
socket_eq = record { beq = socket_beq; beq_correct = socket_beq_correct }

pub data GatewayExposureMode : Type 0 where
  loopback lan : GatewayExposureMode

abbrev pub is_lan : GatewayExposureMode → Bool
is_lan lan = true
is_lan loopback = false

pub record GatewayExposure : Type 0 where
  pub mode : GatewayExposureMode
  pub acknowledge_lan_exposure_risk : Bool
  pub publish_tailscale : Bool

pub record TlsIdentity : Type 0 where
  pub certificate : String
  pub private_key : String

pub record ProxyAuthentication : Type 0 where
  pub credential_file : String

pub data ListenerDestination : Type 0 where
  custom_domain : String → String → ListenerDestination
  legacy_localhost : String → String → ListenerDestination
  loopback_slot : String → ListenerDestination
  proxy_target : String → String → ℕ → ListenerDestination

abbrev pub slot_of : ListenerDestination → String
slot_of (custom_domain slot domain) = slot
slot_of (legacy_localhost slot host) = slot
slot_of (loopback_slot slot) = slot
slot_of (proxy_target slot host port) = slot

pub record Listener : Type 0 where
  pub consumer : Option String
  pub bind : SocketAddress
  pub protocol : Protocol
  pub tls : Option TlsIdentity
  pub destinations : List ListenerDestination
  pub proxy_identity : Option String
  pub proxy_authentication : Option ProxyAuthentication

pub record UpstreamEndpoint : Type 0 where
  pub protocol : Protocol
  pub host : String
  pub port : ℕ

pub data HealthCheckProtocol : Type 0 where
  http https tcp : HealthCheckProtocol

pub record HealthCheck : Type 0 where
  pub protocol : HealthCheckProtocol
  pub path : Option String
  pub interval_ms : ℕ
  pub timeout_ms : ℕ

pub record Provider : Type 0 where
  pub id : String
  pub endpoint : UpstreamEndpoint
  pub health_check : Option HealthCheck
  pub receive_identity_header : Bool

pub record TransparentMember : Type 0 where
  pub component : String
  pub host : String
  pub ports : Option (List ℕ)

pub record TransparentProxy : Type 0 where
  pub consumer : String
  pub port : ℕ
  pub members : List TransparentMember
  pub connect_timeout_ms : ℕ

pub record ServiceGroup : Type 0 where
  pub id : String
  pub providers : Map String String

pub record Binding : Type 0 where
  pub id : String
  pub consumer : String
  pub group : String
  pub required_slots : List String

pub record Route : Type 0 where
  pub consumer : String
  pub slot : String
  pub provider : String

pub data BrowserIdentity : Type 0 where
  explicit_header : String → BrowserIdentity
  origin : String → BrowserIdentity
  proxy_listener : String → BrowserIdentity

pub record BrowserRoute : Type 0 where
  pub identity : BrowserIdentity
  pub destination : String
  pub provider : String

pub data ConnectionTransitionPolicy : Type 0 where
  close : ConnectionTransitionPolicy
  drain : ℕ → ConnectionTransitionPolicy
  pin : ConnectionTransitionPolicy

pub record ConnectionTransitionPolicies : Type 0 where
  pub http : ConnectionTransitionPolicy
  pub https : ConnectionTransitionPolicy
  pub websocket : ConnectionTransitionPolicy
  pub grpc : ConnectionTransitionPolicy
  pub tcp : ConnectionTransitionPolicy

pub record RouteSnapshot : Type 0 where
  pub id : String
  pub version : ℕ
  pub transitions : ConnectionTransitionPolicies

pub record IdentityPolicy : Type 0 where
  pub explicit_header : String
  pub strip_before_forwarding : Bool

pub record RouterSpec : Type 0 where
  pub snapshot : RouteSnapshot
  pub exposure : Option GatewayExposure
  pub listeners : List Listener
  pub providers : List Provider
  pub groups : List ServiceGroup
  pub bindings : List Binding
  pub routes : List Route
  pub browser_routes : List BrowserRoute
  pub transparent_proxy : Option TransparentProxy
  pub identity : IdentityPolicy

pub record RouterConfig : Type 0 where
  pub api_version : String
  pub kind : String
  pub deployment : String
  pub spec : RouterSpec

abbrev pub api_version : String
api_version = "apmpr.dev/router/v1alpha1"

abbrev pub config_kind : String
config_kind = "RouterConfiguration"

pub data ValidationCode : Type 0 where
  unsupported_schema invalid_identifier invalid_listener duplicate_identifier : ValidationCode
  duplicate_listener missing_provider missing_group missing_route_slot : ValidationCode
  incompatible_protocol incomplete_group ambiguous_route lan_exposure_not_enabled : ValidationCode
  lan_exposure_risk_not_acknowledged tailscale_publication_requires_lan_exposure : ValidationCode
  unsafe_lan_provider : ValidationCode

pub record ValidationError : Type 0 where
  pub code : ValidationCode
  pub path : String
  pub message : String
  pub context : Map String String
