-- ===== src/RouterConfig/Validate/Listeners.antt =====
-- The loops over `spec.listeners` and over the members of `spec.transparentProxy`. The maps that
-- the loop over listeners fills are a state of their own: `record_*` updates them and `*_errors`
-- reads them as they stand before the update, as `BTreeMap::insert` returns the old value.
use apm_projectrunner.Base.{
  ℕ, ◌+◌, String, Bool, true, false, not, ◌&&◌, ◌||◌, List, [], ◌∷◌, ◌++◌, concat, Option, none,
  some, Map, get, insert, when, is_some, is_empty, contains, distinct, length, ◌==◌, ◌!=◌, nat_eq,
  string_eq, pair_eq, option_eq, if◌then◌else◌,
}
use apm_projectrunner.RouterConfig.Model
use apm_projectrunner.RouterConfig.Model.{
  RouterSpec, Listener, ListenerDestination, proxy_target, slot_of, TransparentProxy,
  TransparentMember, TlsIdentity, ProxyAuthentication, Protocol, protocol_eq, SocketAddress,
  socket_eq, ValidationError, GatewayExposure, GatewayExposureMode, is_lan,
}
use apm_projectrunner.RouterConfig.Net.{is_loopback, is_local_host}
use apm_projectrunner.RouterConfig.Validate.Report.{
  error, with_context, indexed, under, identifier_errors,
}

-- `RouterSpec::exposure_mode` and `lan_exposure_acknowledged`.
abbrev pub mode_of : Option GatewayExposure → GatewayExposureMode
mode_of none = GatewayExposureMode.loopback
mode_of (some e) = e.mode

abbrev pub acknowledged : Option GatewayExposure → Bool
acknowledged none = false
acknowledged (some e) = is_lan e.mode && e.acknowledge_lan_exposure_risk

abbrev pub exposure_mode : RouterSpec → GatewayExposureMode
exposure_mode spec = mode_of spec.exposure

abbrev pub lan_exposure_acknowledged : RouterSpec → Bool
lan_exposure_acknowledged spec = acknowledged spec.exposure

-- The key of a listener: its network namespace and its address.
abbrev pub listener_key : Listener → Option String × SocketAddress
listener_key l = (l.consumer, l.bind)

abbrev pub Slots : Type 0
Slots = Map String (Protocol × String)

abbrev pub Keys : Type 0
Keys = Map (Option String × SocketAddress) String

abbrev is_https : Protocol → Bool
is_https Protocol.https = true
is_https _ = false

abbrev is_http : Protocol → Bool
is_http Protocol.http = true
is_http _ = false

abbrev listener_error : String → String → String → ValidationError
listener_error path field message = error Model.invalid_listener (under path field) message

unfoldable pub tls_errors : String → Option TlsIdentity → List ValidationError
tls_errors path none = []
tls_errors path (some tls) =
    when (tls.certificate == "" || tls.private_key == "")
      (listener_error path ".tls" "TLS certificate and private-key paths must be nonempty")

unfoldable pub authentication_errors :
    String → Protocol → Option ProxyAuthentication → List ValidationError
authentication_errors path protocol none = []
authentication_errors path protocol (some authentication) = concat (
    when (authentication.credential_file == "") (
      listener_error path ".proxyAuthentication.credentialFile"
        "proxy credential path must be nonempty")
    ∷ when (not (is_http protocol)) (
        listener_error path ".proxyAuthentication"
          "proxy authentication requires a cleartext HTTP listener")
    ∷ [])

unfoldable pub consumer_errors : String → Option String → List ValidationError
consumer_errors path none = []
consumer_errors path (some consumer) = identifier_errors false consumer (under path ".consumer")

unfoldable pub duplicate_errors : String → Option String → List ValidationError
duplicate_errors path none = []
duplicate_errors path (some first) =
    with_context "first" first (
      error Model.duplicate_listener path
        "listener address is already in use in this network namespace")
    ∷ []

-- The tests of one listener that precede its destinations.
abbrev pub bind_parts : RouterSpec → String → Listener → Keys → List (List ValidationError)
bind_parts spec path l keys =
    when (not (is_loopback l.bind.host) && not (lan_exposure_acknowledged spec)) (
      error Model.lan_exposure_not_enabled (under path ".bind.host")
        "non-loopback listener binds require acknowledged LAN exposure")
    ∷ when (l.bind.port == 0) (listener_error path ".bind.port" "listener port must be nonzero")
    ∷ when (is_empty l.destinations)
        (listener_error path ".destinations" "listener must declare at least one destination")
    ∷ when (if is_https l.protocol then not (is_some l.tls) else is_some l.tls) (
        listener_error path ".tls"
          "HTTPS listeners require TLS and non-HTTPS listeners must not declare TLS")
    ∷ tls_errors path l.tls
    ∷ authentication_errors path l.protocol l.proxy_authentication
    ∷ when (is_some l.proxy_identity && not (is_some l.proxy_authentication)) (
        listener_error path ".proxyAuthentication"
          "managed proxy listeners require proxy authentication")
    ∷ consumer_errors path l.consumer
    ∷ duplicate_errors path (get (listener_key l) keys)
    ∷ []

unfoldable pub bind_errors : RouterSpec → String → Listener → Keys → List ValidationError
bind_errors spec path l keys = concat (bind_parts spec path l keys)

unfoldable pub conflict_errors :
    String → String → Protocol → Option (Protocol × String) → List ValidationError
conflict_errors path slot protocol none = []
conflict_errors path slot protocol (some (declared, first)) = when (declared != protocol) (
    with_context "first" first (
      with_context "slot" slot (
        error Model.duplicate_identifier path "route slot is declared with conflicting protocols")))

unfoldable pub managed_errors : String → Bool → ListenerDestination → List ValidationError
managed_errors path true (proxy_target slot host port) =
    when (port == 0 || not (is_local_host host)) (
      listener_error path ".destinations"
        "managed proxy targets require a nonzero port and local host")
managed_errors path false (proxy_target slot host port) =
    listener_error path ".destinations" "proxy targets are valid only on managed proxy listeners"
    ∷ []
managed_errors path true _ =
    listener_error path ".destinations"
      "managed proxy listeners require exact host-and-port proxy targets"
    ∷ []
managed_errors path false _ = []

abbrev pub record_destination : String → Listener → ListenerDestination → Slots → Slots
record_destination path l d slots = insert (slot_of d) (l.protocol, path) slots

abbrev pub destination_parts :
    String → Listener → ListenerDestination → Slots → List (List ValidationError)
destination_parts path l d slots =
    identifier_errors false (slot_of d) (under path ".destinations")
    ∷ conflict_errors path (slot_of d) l.protocol (get (slot_of d) slots)
    ∷ managed_errors path (is_some l.proxy_identity) d
    ∷ []

unfoldable pub destination_errors :
    String → Listener → ListenerDestination → Slots → List ValidationError
destination_errors path l d slots = concat (destination_parts path l d slots)

unfoldable pub record_destinations : String → Listener → List ListenerDestination → Slots → Slots
record_destinations path l [] slots = slots
record_destinations path l (d ∷ ds) slots =
    record_destinations path l ds (record_destination path l d slots)

unfoldable pub destinations_errors :
    String → Listener → List ListenerDestination → Slots → List ValidationError
destinations_errors path l [] slots = []
destinations_errors path l (d ∷ ds) slots =
    destination_errors path l d slots
    ++ destinations_errors path l ds (record_destination path l d slots)

abbrev pub listener_path : ℕ → String
listener_path = indexed "spec.listeners"

unfoldable pub record_slots : ℕ → List Listener → Slots → Slots
record_slots i [] slots = slots
record_slots i (l ∷ ls) slots =
    record_slots (i + 1) ls (record_destinations (listener_path i) l l.destinations slots)

-- The slots that the loop over listeners has filled when it ends.
abbrev pub recorded_slots : List Listener → Slots
recorded_slots ls = record_slots 0 ls []

unfoldable pub listener_errors :
    RouterSpec → ℕ → List Listener → Keys → Slots → List ValidationError
listener_errors spec i [] keys slots = []
listener_errors spec i (l ∷ ls) keys slots =
    let path = listener_path i in
    bind_errors spec path l keys
    ++ (destinations_errors path l l.destinations slots
        ++ listener_errors spec (i + 1) ls (insert (listener_key l) path keys)
            (record_destinations path l l.destinations slots))

abbrev pub listeners_errors : RouterSpec → List Listener → List ValidationError
listeners_errors spec ls = listener_errors spec 0 ls [] []

unfoldable pub ports_errors : String → Option (List ℕ) → List ValidationError
ports_errors path none = []
ports_errors path (some ports) = concat (
    when (is_empty ports || contains 0 ports) (
      error Model.invalid_listener (under path ".ports")
        "declared transparent member ports must be nonempty and nonzero")
    ∷ when (length (distinct ports) != length ports) (
        error Model.duplicate_identifier (under path ".ports")
          "declared transparent member ports must be unique")
    ∷ [])

abbrev pub member_parts : String → TransparentMember → List String → List (List ValidationError)
member_parts path m seen =
    identifier_errors true m.component (under path ".component")
    ∷ when (m.host == "") (
        error Model.missing_provider (under path ".host")
          "transparent group member host must be nonempty")
    ∷ ports_errors path m.ports
    ∷ when (contains m.component seen) (
        error Model.duplicate_identifier (under path ".component")
          "transparent group member is already listed")
    ∷ []

unfoldable pub member_errors : String → TransparentMember → List String → List ValidationError
member_errors path m seen = concat (member_parts path m seen)

unfoldable pub members_errors : ℕ → List TransparentMember → List String → List ValidationError
members_errors i [] seen = []
members_errors i (m ∷ ms) seen =
    member_errors (indexed "spec.transparentProxy.members" i) m seen
    ++ members_errors (i + 1) ms (m.component ∷ seen)

unfoldable pub proxy_errors : Option TransparentProxy → List ValidationError
proxy_errors none = []
proxy_errors (some proxy) = concat (
    identifier_errors false proxy.consumer "spec.transparentProxy.consumer"
    ∷ when (proxy.port == 0) (
        error Model.invalid_listener "spec.transparentProxy.port"
          "transparent interception port must be nonzero")
    ∷ when (proxy.connect_timeout_ms == 0) (
        error Model.invalid_listener "spec.transparentProxy.connectTimeoutMs"
          "transparent connection timeout must be nonzero")
    ∷ members_errors 0 proxy.members []
    ∷ [])
