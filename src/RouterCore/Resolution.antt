-- ===== src/RouterCore/Resolution.antt =====
-- Which provider a configuration selects, read off its lists, and the lookups of the compiled
-- snapshot against that.
use apm_projectrunner.Base.{
  String, ◌≡◌, refl, ◌∙◌, [], Option, none, some, get, get-nil, arith, string_eq, pair_eq, All,
  All-Member, find, IsMap, get-collect_by, collect_by-Member, inl, inr, or_else,
}
use apm_projectrunner.RouterConfig.Model.{RouterConfig, Provider, ServiceGroup, Binding, Route}
use apm_projectrunner.RouterConfig.Unique.{route_key, IsUnique, validate-IsUnique}
use apm_projectrunner.RouterConfig.Validate.{validate, valid}
use apm_projectrunner.RouterConfig.Validate.References.{recorded_groups, recorded_providers}
use apm_projectrunner.RouterCore.Compile.{
  RouteTarget, CompiledSnapshot, compiled, compile, key_eq, target, target_of, build, ◌>>=◌,
  ConsumerRoutes, add_bindings, add_routes, add_browser_routes,
}
use apm_projectrunner.RouterCore.Lookup.{lookup_consumer}
use apm_projectrunner.RouterCore.Tables.{
  >>=-eq-some, overlay, provides, get-add_bindings, get-add_routes,
}
use apm_projectrunner.RouterCore.Total.{compile_outcome}

-- The first provider with the identifier, as a target.
abbrev pub provided : RouterConfig → String → Option RouteTarget
provided c id = find (λ (p : Provider). p.id) id c.spec.providers >>= λ p. some (target_of p)

abbrev pub group_of : RouterConfig → String → Option ServiceGroup
group_of c id = find (λ (g : ServiceGroup). g.id) id c.spec.groups

-- The provider that a consumer reaches by a slot: that of its direct route, or else the one that
-- the group of its binding provides for the slot.
abbrev pub direct : RouterConfig → String → String → Option String
direct c consumer slot =
    find route_key (consumer, slot) c.spec.routes >>= λ (r : Route). some r.provider

abbrev pub by_group : RouterConfig → String → String → Option String
by_group c consumer slot =
    find (λ (b : Binding). b.consumer) consumer c.spec.bindings >>= λ (b : Binding).
    group_of c b.group >>= λ (g : ServiceGroup). get slot g.providers

abbrev pub resolve : RouterConfig → String → String → Option String
resolve c consumer slot = or_else (direct c consumer slot) (by_group c consumer slot)

-- Every group's providers are a map, with one entry for each slot.
abbrev pub GroupsAreMaps : RouterConfig → Type 0
GroupsAreMaps c = All (λ (g : ServiceGroup). IsMap g.providers) c.spec.groups

module _ (c : RouterConfig) (u : IsUnique c) where
  target-provided : (id : String) → target id (recorded_providers c.spec.providers) ≡ provided c id
  unfolding target
  target-provided id =
      let e = get-collect_by (λ (p : Provider). p.id) id [] c.spec.providers u.providers in
      ground (arith, e, get-nil {V = Provider} id)

  group-recorded : (id : String) → get id (recorded_groups c.spec.groups) ≡ group_of c id
  group-recorded id =
      let e = get-collect_by (λ (g : ServiceGroup). g.id) id [] c.spec.groups u.groups in
      ground (arith, e, get-nil {V = ServiceGroup} id)

  recorded-IsMap :
      GroupsAreMaps c
      → (id : String) (g : ServiceGroup) → get id (recorded_groups c.spec.groups) ≡ some g
      → IsMap g.providers
  recorded-IsMap m id g h =
      elim (collect_by-Member (λ (g : ServiceGroup). g.id) id g [] c.spec.groups h) [
        | inl old ↦ absurd (ground (arith, get-nil {V = ServiceGroup} id))
        | inr (named, listed) ↦ All-Member (λ (g : ServiceGroup). IsMap g.providers) listed m
      ]

  overlay-provided :
      (d p : Option String)
      → overlay
          (recorded_providers c.spec.providers)
          d
          (overlay (recorded_providers c.spec.providers) p none)
        ≡ (or_else d p >>= provided c)
  overlay-provided (some d) p = target-provided d
  overlay-provided none (some p) = target-provided p
  overlay-provided none none = refl

  pub overlay-alone :
      (d : Option String)
      → overlay (recorded_providers c.spec.providers) d none ≡ (d >>= provided c)
  overlay-alone (some d) = target-provided d
  overlay-alone none = refl

  provides-by_group :
      (slot : String) (o : Option Binding)
      → provides (recorded_groups c.spec.groups) slot o
        ≡ (o >>= λ (b : Binding). group_of c b.group >>= λ (g : ServiceGroup). get slot g.providers)
  provides-by_group slot none = refl
  provides-by_group slot (some b) = rw (group-recorded b.group)

module _ (checksum : RouterConfig → String) (c : RouterConfig) (s : CompiledSnapshot) where
  -- The loops behind the fields of a built snapshot.
  pub record IsBuilt : Type 0 where
    pub grouped : ConsumerRoutes
    pub groups_added :
        add_bindings
          (recorded_providers c.spec.providers)
          (recorded_groups c.spec.groups)
          c.spec.bindings
          []
        ≡ some grouped
    pub routes_added :
        add_routes (recorded_providers c.spec.providers) c.spec.routes grouped
        ≡ some s.consumer_routes
    pub browser_added :
        add_browser_routes (recorded_providers c.spec.providers) c.spec.browser_routes []
        ≡ some s.browser_routes
    pub config_kept : s.config ≡ c
    pub checksum_kept : s.checksum ≡ checksum c

  pub build-IsBuilt : build checksum c ≡ some s → IsBuilt
  unfolding build
  build-IsBuilt b =
      let ps = recorded_providers c.spec.providers in
      let (grouped, e, rest) =
        >>=-eq-some (add_bindings ps (recorded_groups c.spec.groups) c.spec.bindings []) _ b in
      let (consumers, f, rest') = >>=-eq-some (add_routes ps c.spec.routes grouped) _ rest in
      let (browsers, g, same) =
        >>=-eq-some (add_browser_routes ps c.spec.browser_routes []) _ rest' in
      record {
        grouped = grouped;
        groups_added = e;
        routes_added = f ∙ cc same;
        browser_added = g ∙ cc same;
        config_kept = cc same;
        checksum_kept = cc same;
      }

  pub compiled-build :
      compile checksum c ≡ compiled s → (validate c ≡ valid) × (build checksum c ≡ some s)
  compiled-build h = elim (compile_outcome checksum c) [
    | inl (errors, bad, out) ↦ absurd (cc)
    | inr (s', ok, b, out) ↦ (ok, cc)
  ]

  -- A snapshot that `compile` returns gives a consumer, for each slot, the target of the provider
  -- of its direct route if it has one, or else of the provider that the group of its binding
  -- names for the slot, and nothing otherwise. The group maps of the configuration are maps.
  pub lookup_consumer-resolve :
      (consumer slot : String)
      → GroupsAreMaps c
      → compile checksum c ≡ compiled s
      → lookup_consumer s consumer slot ≡ (resolve c consumer slot >>= provided c)
  unfolding lookup_consumer
  lookup_consumer-resolve consumer slot m h =
      let (ok, b) = compiled-build h in
      let u = validate-IsUnique c ok in
      let t = build-IsBuilt b in
      let by_routes =
        get-add_routes _ consumer slot c.spec.routes t.grouped s.consumer_routes u.routes
          t.routes_added in
      let by_groups =
        get-add_bindings _ (recorded_groups c.spec.groups) consumer slot c.spec.bindings []
          t.grouped (recorded-IsMap c u m) u.bindings t.groups_added in
      by_routes
      ∙ rw
          (
            by_groups,
            get-nil {K = String × String} {V = RouteTarget} (consumer, slot),
            provides-by_group c u,
          )
          (overlay-provided c u (direct c consumer slot) (by_group c consumer slot))
