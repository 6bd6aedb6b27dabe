-- ===== src/RouterConfig/Unique.antt =====
-- What an empty error list says of repeated declarations.
use apm_projectrunner.Base.{
  ℕ, ◌+◌, String, ◌≡◌, refl, List, [], ◌∷◌, Option, none, some, Map, insert, arith, append-eq-nil,
  concat-eq-nil, string_eq, pair_eq, option_eq, when, is_some, Fresh, Fresh-Distinct, Distinct,
}
use apm_projectrunner.RouterConfig.Model.{
  RouterConfig, RouterSpec, Listener, Provider, ServiceGroup, Binding, Route, BrowserRoute,
  socket_eq, ValidationError,
}
use apm_projectrunner.RouterConfig.Resolve.{validate-eq-valid}
use apm_projectrunner.RouterConfig.Validate.{valid, validate, validation_errors, validation_parts}
use apm_projectrunner.RouterConfig.Validate.Report.{indexed}
use apm_projectrunner.RouterConfig.Validate.Listeners.{
  Slots, Keys, listener_key, listener_path, duplicate_errors, bind_errors, bind_parts,
  destinations_errors, listener_errors, record_destinations,
}
use apm_projectrunner.RouterConfig.Validate.References.{
  Providers, Groups, provider_errors, provider_parts, providers_errors_from, group_errors,
  group_parts, groups_errors_from, bound_errors, binding_errors, binding_parts,
  bindings_errors_from, repeated_route_errors, route_errors, route_parts, routes_errors_from,
  repeated_browser_errors, browser_route_errors, browser_route_parts, browser_errors_from,
  identity_key,
}

none_of_when {ℓ} :
    {A : Type ℓ} (e : ValidationError) (o : Option A) → when (is_some o) e ≡ [] → o ≡ none
none_of_when e none h = refl
none_of_when e (some a) h = ground arith

duplicate_none : (path : String) (o : Option String) → duplicate_errors path o ≡ [] → o ≡ none
unfolding duplicate_errors
duplicate_none path none h = refl
duplicate_none path (some a) h = ground arith

bound_none :
    (path consumer : String) (o : Option String) → bound_errors path consumer o ≡ [] → o ≡ none
unfolding bound_errors
bound_none path consumer none h = refl
bound_none path consumer (some a) h = ground arith

repeated_none :
    (path : String) (r : Route) (o : Option String) → repeated_route_errors path r o ≡ [] → o ≡ none
unfolding repeated_route_errors
repeated_none path r none h = refl
repeated_none path r (some a) h = ground arith

browser_none :
    (path : String) (r : BrowserRoute) (o : Option String)
    → repeated_browser_errors path r o ≡ []
    → o ≡ none
unfolding repeated_browser_errors
browser_none path r none h = refl
browser_none path r (some a) h = ground arith

listeners-Fresh :
    (spec : RouterSpec) (i : ℕ) (ls : List Listener) (keys : Keys) (slots : Slots)
    → listener_errors spec i ls keys slots ≡ []
    → Fresh listener_key (λ i l. listener_path i) i ls keys
unfolding listener_errors bind_errors
listeners-Fresh spec i [] keys slots h = tt
listeners-Fresh spec i (l ∷ ls) keys slots h =
    let path = listener_path i in
    let (this, more) = (append-eq-nil (bind_errors spec path l keys) _).0 h in
    let (inner, rest) =
      (append-eq-nil (destinations_errors path l l.destinations slots) _).0 more in
    let parts = (concat-eq-nil (bind_parts spec path l keys)).0 this in
    (
      duplicate_none path _ parts.1.1.1.1.1.1.1.1.0,
      listeners-Fresh spec (i + 1) ls (insert (listener_key l) path keys)
          (record_destinations path l l.destinations slots) rest,
    )

providers-Fresh :
    (spec : RouterSpec) (i : ℕ) (ps : List Provider) (seen : Providers)
    → providers_errors_from spec i ps seen ≡ []
    → Fresh (λ p. p.id) (λ i p. p) i ps seen
unfolding providers_errors_from provider_errors
providers-Fresh spec i [] seen h = tt
providers-Fresh spec i (p ∷ ps) seen h =
    let (this, rest) = (append-eq-nil (provider_errors spec _ p seen) _).0 h in
    let parts = (concat-eq-nil (provider_parts spec _ p seen)).0 this in
    (none_of_when _ _ parts.1.1.0, providers-Fresh spec (i + 1) ps (insert p.id p seen) rest)

bindings-Fresh :
    (groups : Groups) (i : ℕ) (bs : List Binding) (bound : Map String String)
    → bindings_errors_from groups i bs bound ≡ []
    → Fresh (λ b. b.consumer) (λ i b. indexed "spec.bindings" i) i bs bound
unfolding bindings_errors_from binding_errors
bindings-Fresh groups i [] bound h = tt
bindings-Fresh groups i (b ∷ bs) bound h =
    let (this, rest) = (append-eq-nil (binding_errors groups _ b bound) _).0 h in
    let parts = (concat-eq-nil (binding_parts groups _ b bound)).0 this in
    (bound_none _ b.consumer _ parts.1.1.0, bindings-Fresh groups (i + 1) bs _ rest)

abbrev pub route_key : Route → String × String
route_key r = (r.consumer, r.slot)

module _ (slots : Slots) (providers : Providers) where
  groups-Fresh :
      (i : ℕ) (gs : List ServiceGroup) (seen : Groups)
      → groups_errors_from slots providers i gs seen ≡ []
      → Fresh (λ g. g.id) (λ i g. g) i gs seen
  unfolding groups_errors_from group_errors
  groups-Fresh i [] seen h = tt
  groups-Fresh i (g ∷ gs) seen h =
      let (this, rest) = (append-eq-nil (group_errors slots providers _ g seen) _).0 h in
      let parts = (concat-eq-nil (group_parts slots providers _ g seen)).0 this in
      (none_of_when _ _ parts.1.0, groups-Fresh (i + 1) gs (insert g.id g seen) rest)

  routes-Fresh :
      (i : ℕ) (rs : List Route) (seen : Map (String × String) String)
      → routes_errors_from slots providers i rs seen ≡ []
      → Fresh route_key (λ i r. indexed "spec.routes" i) i rs seen
  unfolding routes_errors_from route_errors
  routes-Fresh i [] seen h = tt
  routes-Fresh i (r ∷ rs) seen h =
      let (this, rest) = (append-eq-nil (route_errors slots providers _ r seen) _).0 h in
      let parts = (concat-eq-nil (route_parts slots providers _ r seen)).0 this in
      (repeated_none _ r _ parts.0, routes-Fresh (i + 1) rs _ rest)

  browser-Fresh :
      (i : ℕ) (rs : List BrowserRoute) (seen : Map (String × String) String)
      → browser_errors_from slots providers i rs seen ≡ []
      → Fresh identity_key (λ i r. indexed "spec.browserRoutes" i) i rs seen
  unfolding browser_errors_from browser_route_errors
  browser-Fresh i [] seen h = tt
  browser-Fresh i (r ∷ rs) seen h =
      let (this, rest) = (append-eq-nil (browser_route_errors slots providers _ r seen) _).0 h in
      let parts = (concat-eq-nil (browser_route_parts slots providers _ r seen)).0 this in
      (browser_none _ r _ parts.1.0, browser-Fresh (i + 1) rs _ rest)

-- Nothing that a map is keyed by is declared twice.
pub record IsUnique (c : RouterConfig) : Type 0 where
  pub listeners : Distinct listener_key c.spec.listeners
  pub providers : Distinct (λ (p : Provider). p.id) c.spec.providers
  pub groups : Distinct (λ (g : ServiceGroup). g.id) c.spec.groups
  pub bindings : Distinct (λ (b : Binding). b.consumer) c.spec.bindings
  pub routes : Distinct route_key c.spec.routes
  pub browser : Distinct identity_key c.spec.browser_routes

-- In an accepted configuration no two listeners have the same consumer and bind address, no two
-- providers and no two groups the same identifier, no two bindings the same consumer, no two routes
-- the same consumer and slot, and no two browser routes the same destination and identity.
pub validate-IsUnique : (c : RouterConfig) → validate c ≡ valid → IsUnique c
unfolding validation_errors
validate-IsUnique c v =
    let parts = (concat-eq-nil (validation_parts c)).0 (validate-eq-valid c v) in
    let middle = parts.1.1.1.1 in
    let late = middle.1.1.1 in
    record {
      listeners =
          (Fresh-Distinct _ _ 0 c.spec.listeners []
            (listeners-Fresh c.spec 0 c.spec.listeners [] [] middle.0)).1;
      providers =
          (Fresh-Distinct _ _ 0 c.spec.providers []
            (providers-Fresh c.spec 0 c.spec.providers [] middle.1.1.0)).1;
      groups =
          (Fresh-Distinct _ _ 0 c.spec.groups [] (groups-Fresh _ _ 0 c.spec.groups [] late.0)).1;
      bindings =
          (Fresh-Distinct _ _ 0 c.spec.bindings []
            (bindings-Fresh _ 0 c.spec.bindings [] late.1.0)).1;
      routes =
          (Fresh-Distinct _ _ 0 c.spec.routes []
            (routes-Fresh _ _ 0 c.spec.routes [] late.1.1.0)).1;
      browser =
          (Fresh-Distinct _ _ 0 c.spec.browser_routes []
            (browser-Fresh _ _ 0 c.spec.browser_routes [] late.1.1.1.0)).1;
    }
