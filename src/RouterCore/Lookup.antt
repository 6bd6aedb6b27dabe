-- ===== src/RouterCore/Lookup.antt =====
-- `lookup_consumer`, `lookup_browser` and `browser_candidates`.
use apm_projectrunner.Base.{
  String, List, map, Option, none, some, get, filter, ◌==◌, ◌!=◌, string_eq, pair_eq, if◌then◌else◌,
}
use apm_projectrunner.RouterConfig.Model.{BrowserRoute, ConnectionTransitionPolicy, Protocol}
use apm_projectrunner.RouterConfig.Validate.References.{identity_text}
use apm_projectrunner.RouterCore.Compile.{CompiledSnapshot, RouteTarget, BrowserKey, key_eq}

pub data LookupError : Type 0 where
  missing_identity unknown_identity conflicting_identity : LookupError

pub data Found : Type 0 where
  found : RouteTarget → Found
  failed : LookupError → Found

pub record BrowserLookup : Type 0 where
  pub destination : String
  pub explicit_header : Option String
  pub origin : Option String
  pub proxy_listener : Option String

unfoldable pub transition : CompiledSnapshot → Protocol → ConnectionTransitionPolicy
transition s Protocol.http = s.config.spec.snapshot.transitions.http
transition s Protocol.https = s.config.spec.snapshot.transitions.https
transition s Protocol.websocket = s.config.spec.snapshot.transitions.websocket
transition s Protocol.grpc = s.config.spec.snapshot.transitions.grpc
transition s Protocol.tcp = s.config.spec.snapshot.transitions.tcp

unfoldable pub lookup_consumer : CompiledSnapshot → String → String → Option RouteTarget
lookup_consumer s consumer slot = get (consumer, slot) s.consumer_routes

-- `.ok_or(LookupError::UnknownIdentity)`.
abbrev pub known : Option RouteTarget → Found
known none = failed unknown_identity
known (some t) = found t

abbrev pub agreed : RouteTarget → Option RouteTarget → Found
agreed t none = found t
agreed t (some other) =
    if t.provider != other.provider then failed conflicting_identity else found t

module _ (s : CompiledSnapshot) (destination : String) where
  abbrev pub by_key : BrowserKey → Option RouteTarget
  by_key key = get (destination, key) s.browser_routes

  -- The branch of an explicit header, with the Origin as a cross-check.
  unfoldable pub by_header : String → Option String → Found
  by_header value origin = elim (by_key (BrowserKey.header value)) [
    | none ↦ failed unknown_identity
    | some t ↦ elim origin [ none ↦ found t | some o ↦ agreed t (by_key (BrowserKey.origin o)) ]
  ]

  unfoldable pub select : Option String → Option String → Option String → Found
  unfolding by_header
  select (some value) origin listener = by_header value origin
  select none (some o) listener = known (by_key (BrowserKey.origin o))
  select none none (some p) = known (by_key (BrowserKey.proxy p))
  select none none none = failed missing_identity

unfoldable pub lookup_browser : CompiledSnapshot → BrowserLookup → Found
unfolding select
lookup_browser s q = select s q.destination q.explicit_header q.origin q.proxy_listener

pub record BrowserRouteCandidate : Type 0 where
  pub identity : String
  pub provider : String

abbrev candidate : BrowserRoute → BrowserRouteCandidate
candidate r = record { identity = identity_text r.identity; provider = r.provider }

pub browser_candidates : CompiledSnapshot → String → List BrowserRouteCandidate
browser_candidates s destination =
    map candidate (filter (λ r. r.destination == destination) s.config.spec.browser_routes)
