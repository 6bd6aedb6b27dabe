-- ===== src/RouterCore/Browser.antt =====
-- Browser lookups: the strongest identity of a request decides, and a known Origin can only object.
use apm_projectrunner.Base.{
  String, ◌≡◌, refl, ◌∙◌, ap, Bool, true, false, List, [], ◌∷◌, Option, none, some, get-nil, arith,
  ◌!=◌, string_eq, pair_eq, if◌then◌else◌, Distinct, Distinct-imp, find, format,
}
use apm_projectrunner.RouterConfig.Model.{
  RouterConfig, BrowserRoute, BrowserIdentity, explicit_header, proxy_listener,
}
use apm_projectrunner.RouterConfig.Unique.{validate-IsUnique}
use apm_projectrunner.RouterConfig.Validate.References.{identity_key, identity_text}
use apm_projectrunner.RouterCore.Compile.{
  RouteTarget, CompiledSnapshot, compiled, compile, BrowserKey, key_eq, key_beq, browser_key, ◌>>=◌,
}
use apm_projectrunner.RouterCore.Lookup.{
  lookup_browser, select, by_header, by_key, BrowserLookup, Found, found, failed, unknown_identity,
  missing_identity, conflicting_identity,
}
use apm_projectrunner.RouterCore.Resolution.{provided, compiled-build, build-IsBuilt, overlay-alone}
use apm_projectrunner.RouterCore.Tables.{get-add_browser_routes, browser_route_key}

-- The route of the configuration for an identity at a destination, as a target.
abbrev pub routed : RouterConfig → String → BrowserIdentity → Option RouteTarget
routed c destination identity =
    (find browser_route_key (destination, browser_key identity) c.spec.browser_routes
      >>= λ (r : BrowserRoute). some r.provider)
    >>= provided c

-- The identity of highest precedence: header, then Origin, then proxy listener.
abbrev pub strongest : BrowserLookup → Option BrowserIdentity
strongest q = pick q.explicit_header q.origin q.proxy_listener
  where
    pick : Option String → Option String → Option String → Option BrowserIdentity
    pick (some value) o p = some (explicit_header value)
    pick none (some o) p = some (BrowserIdentity.origin o)
    pick none none (some p) = some (proxy_listener p)
    pick none none none = none

-- What a known Origin beside a header has to say against the header's target.
abbrev pub objects : Option String → Option RouteTarget → RouteTarget → Bool
objects none known t = false
objects (some value) none t = false
objects (some value) (some other) t = t.provider != other.provider

abbrev pub origin_target : RouterConfig → BrowserLookup → Option RouteTarget
origin_target c q = q.origin >>= λ o. routed c q.destination (BrowserIdentity.origin o)

-- The lookup on the configuration itself.
abbrev pub answer : Option String → Option RouteTarget → Option RouteTarget → Found
answer header known none = failed unknown_identity
answer header known (some t) =
    if objects header known t then failed conflicting_identity else found t

abbrev pub decide : RouterConfig → BrowserLookup → Option BrowserIdentity → Found
decide c q none = failed missing_identity
decide c q (some i) = answer q.explicit_header (origin_target c q) (routed c q.destination i)

same_text :
    (i j : BrowserIdentity)
    → key_beq (browser_key i) (browser_key j) ≡ true
    → identity_text i ≡ identity_text j
same_text (explicit_header a) (explicit_header b) h =
    ap (λ x. format ("header:" ∷ x ∷ [])) ((string_eq.beq_correct a b).0 h)
same_text (BrowserIdentity.origin a) (BrowserIdentity.origin b) h =
    ap (λ x. format ("origin:" ∷ x ∷ [])) ((string_eq.beq_correct a b).0 h)
same_text (proxy_listener a) (proxy_listener b) h =
    ap (λ x. format ("proxy:" ∷ x ∷ [])) ((string_eq.beq_correct a b).0 h)
same_text (explicit_header a) (BrowserIdentity.origin b) h = cc
same_text (explicit_header a) (proxy_listener b) h = cc
same_text (BrowserIdentity.origin a) (explicit_header b) h = cc
same_text (BrowserIdentity.origin a) (proxy_listener b) h = cc
same_text (proxy_listener a) (explicit_header b) h = cc
same_text (proxy_listener a) (BrowserIdentity.origin b) h = cc

-- The validation's textual keys tell apart whatever the compiled keys tell apart.
keys-Distinct : (rs : List BrowserRoute) → Distinct identity_key rs → Distinct browser_route_key rs
keys-Distinct rs d =
    Distinct-imp identity_key browser_route_key rs
      (λ x y h. ground (
        arith,
        same_text x.identity y.identity,
        string_eq.beq_correct (identity_text x.identity) (identity_text y.identity),
      ))
      d

module _ (checksum : RouterConfig → String) (c : RouterConfig) (s : CompiledSnapshot)
    (h : compile checksum c ≡ compiled s) where
  by_key-routed :
      (destination : String) (i : BrowserIdentity)
      → by_key s destination (browser_key i) ≡ routed c destination i
  by_key-routed destination i =
      let (ok, b) = compiled-build checksum c s h in
      let u = validate-IsUnique c ok in
      let t = build-IsBuilt checksum c s b in
      let r = find browser_route_key (destination, browser_key i) c.spec.browser_routes in
      get-add_browser_routes _ (destination, browser_key i) c.spec.browser_routes []
        s.browser_routes (keys-Distinct _ u.browser) t.browser_added
      ∙ rw (get-nil {K = String × BrowserKey} {V = RouteTarget} (destination, browser_key i))
          (overlay-alone c u (r >>= λ (r : BrowserRoute). some r.provider))

  by_header-decide :
      (destination value : String) (origin : Option String) (p : Option String)
      → let q : BrowserLookup = record {
        destination = destination;
        explicit_header = some value;
        origin = origin;
        proxy_listener = p;
      } in
        by_header s destination value origin ≡ decide c q (some (explicit_header value))
  unfolding by_header
  by_header-decide destination value none p =
      ground (arith, by_key-routed destination (explicit_header value))
  by_header-decide destination value (some o) p = ground (
    arith,
    by_key-routed destination (explicit_header value),
    by_key-routed destination (BrowserIdentity.origin o),
  )

  -- A browser lookup on a snapshot that `compile` returns answers by the strongest identity of the
  -- request alone: without one it reports a missing identity, when the configuration routes that
  -- identity nowhere for the destination it reports an unknown identity, whatever weaker identities
  -- say, and otherwise it returns the target of that route, unless a header came with an Origin
  -- that is routed to another provider, which is a conflict.
  pub lookup_browser-decide : (q : BrowserLookup) → lookup_browser s q ≡ decide c q (strongest q)
  unfolding lookup_browser select
  lookup_browser-decide q = go q.explicit_header q.origin q.proxy_listener
    where
      go :
          (a b p : Option String)
          → let q' : BrowserLookup = record {
            destination = q.destination;
            explicit_header = a;
            origin = b;
            proxy_listener = p;
          } in
            select s q.destination a b p ≡ decide c q' (strongest q')
      go (some value) b p = by_header-decide q.destination value b p
      go none (some o) p = ground (arith, by_key-routed q.destination (BrowserIdentity.origin o))
      go none none (some p) = ground (arith, by_key-routed q.destination (proxy_listener p))
      go none none none = refl
