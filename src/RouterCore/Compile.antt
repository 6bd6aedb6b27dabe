-- ===== src/RouterCore/Compile.antt =====
-- `compile` and the compiled snapshot. `serde_json` and `sha2` are not of this repository: the
-- checksum of a configuration is a parameter, a total function: the `expect` on the serialisation, which
-- panics on a path that is not UTF-8, is not modelled.
use apm_projectrunner.Base.{
  String, ◌≡◌, ◌↔◌, Bool, true, false, List, [], ◌∷◌, Option, none, some, Eq, ◌==◌, string_eq,
  pair_eq, Map, get, insert, arith,
}
use text.Mathlib.TextEquality.{eq_iff}
use apm_projectrunner.RouterConfig.Model.{
  RouterConfig, UpstreamEndpoint, HealthCheck, Provider, Binding, Route, BrowserRoute,
  BrowserIdentity, explicit_header, proxy_listener, ValidationError,
}
use apm_projectrunner.RouterConfig.Validate.{valid, invalid, validate}
use apm_projectrunner.RouterConfig.Validate.References.{
  Providers, Groups, recorded_providers, recorded_groups,
}

pub record RouteTarget : Type 0 where
  pub provider : String
  pub endpoint : UpstreamEndpoint
  pub health_check : Option HealthCheck
  pub receive_identity_header : Bool

pub data BrowserKey : Type 0 where
  header : String → BrowserKey
  origin : String → BrowserKey
  proxy : String → BrowserKey

abbrev pub key_beq : BrowserKey → BrowserKey → Bool
key_beq (BrowserKey.header a) (BrowserKey.header b) = a == b
key_beq (BrowserKey.origin a) (BrowserKey.origin b) = a == b
key_beq (BrowserKey.proxy a) (BrowserKey.proxy b) = a == b
key_beq _ _ = false

pub key_beq_correct : (a b : BrowserKey) → (key_beq a b ≡ true) ↔ (a ≡ b)
key_beq_correct (BrowserKey.header a) (BrowserKey.header b) = ground (arith, eq_iff a b)
key_beq_correct (BrowserKey.origin a) (BrowserKey.origin b) = ground (arith, eq_iff a b)
key_beq_correct (BrowserKey.proxy a) (BrowserKey.proxy b) = ground (arith, eq_iff a b)
key_beq_correct _ _ = ground arith

instance abbrev pub key_eq : Eq BrowserKey
key_eq = record { beq = key_beq; beq_correct = key_beq_correct }

abbrev pub ConsumerRoutes : Type 0
ConsumerRoutes = Map (String × String) RouteTarget

abbrev pub BrowserRoutes : Type 0
BrowserRoutes = Map (String × BrowserKey) RouteTarget

pub record CompiledSnapshot : Type 0 where
  pub config : RouterConfig
  pub checksum : String
  pub consumer_routes : ConsumerRoutes
  pub browser_routes : BrowserRoutes

-- `panic` stands for an index of a `BTreeMap` by a key that it does not have.
pub data Compiled : Type 0 where
  compiled : CompiledSnapshot → Compiled
  rejected : List ValidationError → Compiled
  panic : Compiled

infixl 5 ◌>>=◌
abbrev pub ◌>>=◌ : {A B : Type 0} → Option A → (A → Option B) → Option B
none >>= f = none
some a >>= f = f a

abbrev pub target_of : Provider → RouteTarget
target_of provider = record {
  provider = provider.id;
  endpoint = provider.endpoint;
  health_check = provider.health_check;
  receive_identity_header = provider.receive_identity_header;
}

-- `none` is the panic of `providers[provider_id]`.
unfoldable pub target : String → Providers → Option RouteTarget
target provider_id providers = do provider ← get provider_id providers; some (target_of provider)

abbrev pub browser_key : BrowserIdentity → BrowserKey
browser_key (explicit_header value) = BrowserKey.header value
browser_key (BrowserIdentity.origin o) = BrowserKey.origin o
browser_key (proxy_listener listener) = BrowserKey.proxy listener

module _ (providers : Providers) where
  -- The inner loop over `group.providers`.
  unfoldable pub add_entries : String → Map String String → ConsumerRoutes → Option ConsumerRoutes
  add_entries consumer [] table = some table
  add_entries consumer ((slot, provider_id) ∷ entries) table = do
    t ← target provider_id providers
    add_entries consumer entries (insert (consumer, slot) t table)

  -- The loop over `spec.bindings`; `groups[&binding.group]` panics on a missing group.
  unfoldable pub add_bindings : Groups → List Binding → ConsumerRoutes → Option ConsumerRoutes
  add_bindings groups [] table = some table
  add_bindings groups (b ∷ bindings) table = do
    group ← get b.group groups
    table' ← add_entries b.consumer group.providers table
    add_bindings groups bindings table'

  -- The loop over `spec.routes`.
  unfoldable pub add_routes : List Route → ConsumerRoutes → Option ConsumerRoutes
  add_routes [] table = some table
  add_routes (r ∷ routes) table = do
    t ← target r.provider providers
    add_routes routes (insert (r.consumer, r.slot) t table)

  -- The loop over `spec.browser_routes`.
  unfoldable pub add_browser_routes : List BrowserRoute → BrowserRoutes → Option BrowserRoutes
  add_browser_routes [] table = some table
  add_browser_routes (r ∷ routes) table = do
    t ← target r.provider providers
    add_browser_routes routes (insert (r.destination, browser_key r.identity) t table)

module _ (checksum : RouterConfig → String) where
  -- The part of `compile` that follows the validation.
  unfoldable pub build : RouterConfig → Option CompiledSnapshot
  build c = do
    let spec = c.spec
    let providers = recorded_providers spec.providers
    group_routes ← add_bindings providers (recorded_groups spec.groups) spec.bindings []
    consumer_routes ← add_routes providers spec.routes group_routes
    browser_routes ← add_browser_routes providers spec.browser_routes []
    some (record {
      config = c;
      checksum = checksum c;
      consumer_routes = consumer_routes;
      browser_routes = browser_routes;
    })

  abbrev pub built : Option CompiledSnapshot → Compiled
  built none = panic
  built (some s) = compiled s

  unfoldable pub compile : RouterConfig → Compiled
  compile c = elim (validate c) [ invalid errors ↦ rejected errors | valid ↦ built (build c) ]
