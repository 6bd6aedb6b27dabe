-- ===== src/RouterConfig/Validate/References.antt =====
-- The loops over providers, groups, bindings, routes and browser routes, which resolve references.
use apm_projectrunner.Base.{
  ℕ, ◌+◌, String, Bool, true, false, not, ◌&&◌, ◌||◌, List, [], ◌∷◌, ◌++◌, concat, Option, none,
  some, Map, get, insert, collect_by, contains_key, when, is_empty, filter, format, join, ◌==◌,
  string_eq, pair_eq,
}
use apm_projectrunner.RouterConfig.Model
use apm_projectrunner.RouterConfig.Model.{
  RouterSpec, Protocol, protocol_eq, protocol_debug, Provider, ServiceGroup, Binding, Route,
  BrowserRoute, BrowserIdentity, explicit_header, origin, proxy_listener, ValidationError, is_lan,
}
use apm_projectrunner.RouterConfig.Net.{is_loopback_host}
use apm_projectrunner.RouterConfig.Validate.Report.{
  error, with_context, indexed, under, identifier_errors, header_value_errors,
}
use apm_projectrunner.RouterConfig.Validate.Listeners.{Slots, exposure_mode}

abbrev is_web : Protocol → Bool
is_web Protocol.http = true
is_web Protocol.https = true
is_web _ = false

abbrev pub protocols_compatible : Protocol → Protocol → Bool
protocols_compatible listener provider =
    listener == provider || (is_web listener && is_web provider)

abbrev pub Providers : Type 0
Providers = Map String Provider

abbrev pub Groups : Type 0
Groups = Map String ServiceGroup

unfoldable pub compatibility_errors : String → Protocol → Provider → List ValidationError
compatibility_errors path listener provider =
    when (not (protocols_compatible listener provider.endpoint.protocol)) (
      with_context "providerProtocol" (protocol_debug provider.endpoint.protocol) (
        with_context "listenerProtocol" (protocol_debug listener) (
          error Model.incompatible_protocol path
            "listener and provider protocols are incompatible")))

unfoldable pub resolved_errors :
    String → String → String → Option (Protocol × String) → Option Provider → List ValidationError
resolved_errors path slot provider none found =
    with_context "slot" slot
      (error Model.missing_route_slot path "route refers to an unknown listener destination")
    ∷ []
resolved_errors path slot provider (some (listener, first)) none =
    with_context "provider" provider
      (error Model.missing_provider path "route refers to an unknown provider")
    ∷ []
resolved_errors path slot provider (some (listener, first)) (some found) =
    compatibility_errors path listener found

-- `validate_provider_reference`.
unfoldable pub reference_errors :
    Slots → Providers → String → String → String → List ValidationError
reference_errors slots providers path slot provider =
    resolved_errors path slot provider (get slot slots) (get provider providers)

-- Providers.
abbrev pub recorded_providers : List Provider → Providers
recorded_providers = collect_by (λ p. p.id) []

abbrev pub provider_parts : RouterSpec → String → Provider → Providers → List (List ValidationError)
provider_parts spec path p seen =
    when (is_lan (exposure_mode spec) && not (is_loopback_host p.endpoint.host)) (
      error Model.unsafe_lan_provider (under path ".endpoint.host")
        "LAN exposure does not permit non-loopback provider upstreams")
    ∷ identifier_errors true p.id (under path ".id")
    ∷ when (contains_key p.id seen) (
        error Model.duplicate_identifier (under path ".id")
          "provider identifier is declared more than once")
    ∷ []

unfoldable pub provider_errors : RouterSpec → String → Provider → Providers → List ValidationError
provider_errors spec path p seen = concat (provider_parts spec path p seen)

unfoldable pub providers_errors_from :
    RouterSpec → ℕ → List Provider → Providers → List ValidationError
providers_errors_from spec i [] seen = []
providers_errors_from spec i (p ∷ ps) seen =
    provider_errors spec (indexed "spec.providers" i) p seen
    ++ providers_errors_from spec (i + 1) ps (insert p.id p seen)

abbrev pub providers_errors : RouterSpec → List Provider → List ValidationError
providers_errors spec ps = providers_errors_from spec 0 ps []

-- Groups.
abbrev pub recorded_groups : List ServiceGroup → Groups
recorded_groups = collect_by (λ g. g.id) []

module _ (slots : Slots) (providers : Providers) where
  unfoldable pub entries_errors : String → Map String String → List ValidationError
  entries_errors path [] = []
  entries_errors path ((slot, provider) ∷ entries) =
      reference_errors slots providers path slot provider ++ entries_errors path entries

  abbrev pub group_parts : String → ServiceGroup → Groups → List (List ValidationError)
  group_parts path g seen =
      identifier_errors false g.id (under path ".id")
      ∷ when (contains_key g.id seen) (
          error Model.duplicate_identifier (under path ".id")
            "group identifier is declared more than once")
      ∷ entries_errors path g.providers
      ∷ []

  unfoldable pub group_errors : String → ServiceGroup → Groups → List ValidationError
  group_errors path g seen = concat (group_parts path g seen)

  unfoldable pub groups_errors_from : ℕ → List ServiceGroup → Groups → List ValidationError
  groups_errors_from i [] seen = []
  groups_errors_from i (g ∷ gs) seen =
      group_errors (indexed "spec.groups" i) g seen
      ++ groups_errors_from (i + 1) gs (insert g.id g seen)

  abbrev pub groups_errors : List ServiceGroup → List ValidationError
  groups_errors gs = groups_errors_from 0 gs []

-- Bindings.
abbrev pub missing_slots : ServiceGroup → List String → List String
missing_slots group = filter λ slot. not (contains_key slot group.providers)

unfoldable pub selected_errors : String → Binding → Option ServiceGroup → List ValidationError
selected_errors path b none =
    with_context "group" b.group
      (error Model.missing_group (under path ".group") "binding refers to an unknown group")
    ∷ []
selected_errors path b (some group) =
    let missing = missing_slots group b.required_slots in
    when (not (is_empty missing)) (
      with_context "missingSlots" (join "," missing) (
        with_context "group" b.group (
          error Model.incomplete_group (under path ".requiredSlots")
            "selected group does not provide every required slot")))

unfoldable pub bound_errors : String → String → Option String → List ValidationError
bound_errors path consumer none = []
bound_errors path consumer (some first) =
    with_context "first" first (
      with_context "consumer" consumer
        (error Model.ambiguous_route path "consumer has more than one selected service group"))
    ∷ []

abbrev pub binding_parts :
    Groups → String → Binding → Map String String → List (List ValidationError)
binding_parts groups path b bound =
    identifier_errors false b.id (under path ".id")
    ∷ identifier_errors false b.consumer (under path ".consumer")
    ∷ bound_errors path b.consumer (get b.consumer bound)
    ∷ selected_errors path b (get b.group groups)
    ∷ []

unfoldable pub binding_errors : Groups → String → Binding → Map String String → List ValidationError
binding_errors groups path b bound = concat (binding_parts groups path b bound)

unfoldable pub bindings_errors_from :
    Groups → ℕ → List Binding → Map String String → List ValidationError
bindings_errors_from groups i [] bound = []
bindings_errors_from groups i (b ∷ bs) bound =
    let path = indexed "spec.bindings" i in
    binding_errors groups path b bound
    ++ bindings_errors_from groups (i + 1) bs (insert b.consumer path bound)

abbrev pub bindings_errors : Groups → List Binding → List ValidationError
bindings_errors groups bs = bindings_errors_from groups 0 bs []

-- Direct routes and browser routes.
unfoldable pub repeated_route_errors : String → Route → Option String → List ValidationError
repeated_route_errors path r none = []
repeated_route_errors path r (some first) =
    with_context "first" first (
      with_context "slot" r.slot (
        with_context "consumer" r.consumer
          (error Model.ambiguous_route path "consumer route is declared more than once")))
    ∷ []

-- `format!("header:{value}")` and the like.
abbrev pub identity_text : BrowserIdentity → String
identity_text (explicit_header value) = format ("header:" ∷ value ∷ [])
identity_text (origin o) = format ("origin:" ∷ o ∷ [])
identity_text (proxy_listener listener) = format ("proxy:" ∷ listener ∷ [])

unfoldable pub identity_errors : String → BrowserIdentity → List ValidationError
identity_errors path (explicit_header value) =
    header_value_errors value (under path ".identity.value")
identity_errors path _ = []

abbrev pub identity_key : BrowserRoute → String × String
identity_key r = (r.destination, identity_text r.identity)

unfoldable pub repeated_browser_errors :
    String → BrowserRoute → Option String → List ValidationError
repeated_browser_errors path r none = []
repeated_browser_errors path r (some first) =
    with_context "first" first (
      with_context "identity" (identity_text r.identity) (
        with_context "destination" r.destination
          (error Model.ambiguous_route path "browser identity route is declared more than once")))
    ∷ []

module _ (slots : Slots) (providers : Providers) where
  abbrev pub route_parts :
      String → Route → Map (String × String) String → List (List ValidationError)
  route_parts path r seen =
      repeated_route_errors path r (get (r.consumer, r.slot) seen)
      ∷ reference_errors slots providers path r.slot r.provider
      ∷ []

  unfoldable pub route_errors : String → Route → Map (String × String) String → List ValidationError
  route_errors path r seen = concat (route_parts path r seen)

  unfoldable pub routes_errors_from :
      ℕ → List Route → Map (String × String) String → List ValidationError
  routes_errors_from i [] seen = []
  routes_errors_from i (r ∷ rs) seen =
      let path = indexed "spec.routes" i in
      route_errors path r seen
      ++ routes_errors_from (i + 1) rs (insert (r.consumer, r.slot) path seen)

  abbrev pub routes_errors : List Route → List ValidationError
  routes_errors rs = routes_errors_from 0 rs []

  abbrev pub browser_route_parts :
      String → BrowserRoute → Map (String × String) String → List (List ValidationError)
  browser_route_parts path r seen =
      identity_errors path r.identity
      ∷ repeated_browser_errors path r (get (identity_key r) seen)
      ∷ reference_errors slots providers path r.destination r.provider
      ∷ []

  unfoldable pub browser_route_errors :
      String → BrowserRoute → Map (String × String) String → List ValidationError
  browser_route_errors path r seen = concat (browser_route_parts path r seen)

  unfoldable pub browser_errors_from :
      ℕ → List BrowserRoute → Map (String × String) String → List ValidationError
  browser_errors_from i [] seen = []
  browser_errors_from i (r ∷ rs) seen =
      let path = indexed "spec.browserRoutes" i in
      browser_route_errors path r seen
      ++ browser_errors_from (i + 1) rs (insert (identity_key r) path seen)

  abbrev pub browser_errors : List BrowserRoute → List ValidationError
  browser_errors rs = browser_errors_from 0 rs []
