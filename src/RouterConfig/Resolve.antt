-- ===== src/RouterConfig/Resolve.antt =====
-- What an empty error list says of the references of a configuration.
use apm_projectrunner.Base.{
  ℕ, ◌+◌, String, ◌≡◌, refl, true, List, [], ◌∷◌, Option, none, some, Map, get, arith, All,
  append-eq-nil, concat-eq-nil, string_eq, pair_eq, Option-cases, is_empty, inl, inr,
}
use apm_projectrunner.RouterConfig.Model.{
  RouterConfig, Protocol, Provider, ServiceGroup, Binding, Route, BrowserRoute,
}
use apm_projectrunner.RouterConfig.Validate.{
  valid, verdict, validate, validation_errors, validation_parts,
}
use apm_projectrunner.RouterConfig.Validate.Listeners.{Slots, recorded_slots}
use apm_projectrunner.RouterConfig.Validate.References.{
  Providers, Groups, protocols_compatible, reference_errors, resolved_errors, compatibility_errors,
  entries_errors, groups_errors_from, group_errors, group_parts, route_parts, browser_route_parts,
  binding_parts, route_errors, browser_route_errors, binding_errors, bindings_errors_from,
  selected_errors, missing_slots, routes_errors_from, browser_errors_from, recorded_providers,
  recorded_groups,
}

-- The slot is declared, the provider exists, and their protocols fit.
pub record Resolves (slots : Slots) (providers : Providers) (slot provider : String) : Type 0 where
  pub listener : Protocol
  pub first : String
  pub target : Provider
  pub declared : get slot slots ≡ some (listener, first)
  pub exists : get provider providers ≡ some target
  pub fits : protocols_compatible listener target.endpoint.protocol ≡ true

module _ (slots : Slots) (providers : Providers) where
  pub reference_errors-Resolves :
      (path slot provider : String)
      → reference_errors slots providers path slot provider ≡ []
      → Resolves slots providers slot provider
  unfolding reference_errors resolved_errors compatibility_errors
  reference_errors-Resolves path slot provider h = elim (Option-cases (get slot slots)) [
    | inl missing ↦ absurd (ground arith)
    | inr ((p, first), declared) ↦ elim (Option-cases (get provider providers)) [
      | inl unknown ↦ absurd (ground arith)
      | inr (pr, exists) ↦ record {
        listener = p;
        first = first;
        target = pr;
        declared = declared;
        exists = exists;
        fits = ground arith;
      }
    ]
  ]

  abbrev pub EntriesResolve : Map String String → Type 0
  EntriesResolve = All (λ (e : String × String). Resolves slots providers e.0 e.1)

  entries_errors-Resolve :
      (path : String) (entries : Map String String)
      → entries_errors slots providers path entries ≡ []
      → EntriesResolve entries
  unfolding entries_errors
  entries_errors-Resolve path [] h = tt
  entries_errors-Resolve path ((slot, provider) ∷ entries) h =
      let (a, b) = (append-eq-nil _ _).0 h in
      (reference_errors-Resolves path slot provider a, entries_errors-Resolve path entries b)

  groups_errors-Resolve :
      (i : ℕ) (gs : List ServiceGroup) (seen : Groups)
      → groups_errors_from slots providers i gs seen ≡ []
      → All (λ g. EntriesResolve g.providers) gs
  unfolding groups_errors_from group_errors
  groups_errors-Resolve i [] seen h = tt
  groups_errors-Resolve i (g ∷ gs) seen h =
      let (this, rest) = (append-eq-nil (group_errors slots providers _ g seen) _).0 h in
      let parts = (concat-eq-nil (group_parts slots providers _ g seen)).0 this in
      (entries_errors-Resolve _ g.providers parts.1.1.0, groups_errors-Resolve (i + 1) gs _ rest)

  routes_errors-Resolve :
      (i : ℕ) (rs : List Route) (seen : Map (String × String) String)
      → routes_errors_from slots providers i rs seen ≡ []
      → All (λ r. Resolves slots providers r.slot r.provider) rs
  unfolding routes_errors_from route_errors
  routes_errors-Resolve i [] seen h = tt
  routes_errors-Resolve i (r ∷ rs) seen h =
      let (this, rest) = (append-eq-nil (route_errors slots providers _ r seen) _).0 h in
      let parts = (concat-eq-nil (route_parts slots providers _ r seen)).0 this in
      (
        reference_errors-Resolves _ r.slot r.provider parts.1.0,
        routes_errors-Resolve (i + 1) rs _ rest,
      )

  browser_errors-Resolve :
      (i : ℕ) (rs : List BrowserRoute) (seen : Map (String × String) String)
      → browser_errors_from slots providers i rs seen ≡ []
      → All (λ r. Resolves slots providers r.destination r.provider) rs
  unfolding browser_errors_from browser_route_errors
  browser_errors-Resolve i [] seen h = tt
  browser_errors-Resolve i (r ∷ rs) seen h =
      let (this, rest) = (append-eq-nil (browser_route_errors slots providers _ r seen) _).0 h in
      let parts = (concat-eq-nil (browser_route_parts slots providers _ r seen)).0 this in
      (
        reference_errors-Resolves _ r.destination r.provider parts.1.1.0,
        browser_errors-Resolve (i + 1) rs _ rest,
      )

-- The binding's group is declared, and has a provider for each slot that the binding requires.
pub record Selects (groups : Groups) (b : Binding) : Type 0 where
  pub group : ServiceGroup
  pub declared : get b.group groups ≡ some group
  pub complete :
      All
        (λ slot. (provider : String) × (get slot group.providers ≡ some provider))
        b.required_slots

missing_slots-nil :
    (g : ServiceGroup) (slots : List String)
    → is_empty (missing_slots g slots) ≡ true
    → All (λ slot. (provider : String) × (get slot g.providers ≡ some provider)) slots
missing_slots-nil g [] h = tt
missing_slots-nil g (slot ∷ slots) h = elim (Option-cases (get slot g.providers)) [
  | inl missing ↦ absurd (ground arith)
  | inr (provider, there) ↦ ((provider, there), missing_slots-nil g slots (ground arith))
]

selected_errors-Selects :
    (groups : Groups) (path : String) (b : Binding) (o : Option ServiceGroup)
    → get b.group groups ≡ o
    → selected_errors path b o ≡ []
    → Selects groups b
unfolding selected_errors
selected_errors-Selects groups path b none e h = absurd (ground arith)
selected_errors-Selects groups path b (some g) e h = record {
  group = g;
  declared = e;
  complete = missing_slots-nil g b.required_slots (ground arith);
}

bindings_errors-Selects :
    (groups : Groups) (i : ℕ) (bs : List Binding) (bound : Map String String)
    → bindings_errors_from groups i bs bound ≡ []
    → All (Selects groups) bs
unfolding bindings_errors_from binding_errors
bindings_errors-Selects groups i [] bound h = tt
bindings_errors-Selects groups i (b ∷ bs) bound h =
    let (this, rest) = (append-eq-nil (binding_errors groups _ b bound) _).0 h in
    let parts = (concat-eq-nil (binding_parts groups _ b bound)).0 this in
    (
      selected_errors-Selects groups _ b (get b.group groups) refl parts.1.1.1.0,
      bindings_errors-Selects groups (i + 1) bs _ rest,
    )

-- The slots, providers and groups that a configuration's entries, bindings and routes name.
pub record IsResolved (c : RouterConfig) : Type 0 where
  pub in_groups :
      All
        (λ (g : ServiceGroup).
          EntriesResolve
            (recorded_slots c.spec.listeners)
            (recorded_providers c.spec.providers)
            g.providers)
        c.spec.groups
  pub selected : All (Selects (recorded_groups c.spec.groups)) c.spec.bindings
  pub direct :
      All
        (λ (r : Route).
          Resolves
            (recorded_slots c.spec.listeners)
            (recorded_providers c.spec.providers)
            r.slot
            r.provider)
        c.spec.routes
  pub browser :
      All
        (λ (r : BrowserRoute).
          Resolves
            (recorded_slots c.spec.listeners)
            (recorded_providers c.spec.providers)
            r.destination
            r.provider)
        c.spec.browser_routes

pub validate-eq-valid : (c : RouterConfig) → validate c ≡ valid → validation_errors c ≡ []
unfolding validate
validate-eq-valid c h = go (validation_errors c) h
  where
    go : (es : List _) → verdict es ≡ valid → es ≡ []
    go [] h = refl
    go (e ∷ es) h = ground arith

-- In an accepted configuration every group entry, route and browser route names a slot that a
-- listener declares and a provider whose protocol fits the slot, and every binding names a declared
-- group that has a provider for each slot that the binding requires.
pub validate-IsResolved : (c : RouterConfig) → validate c ≡ valid → IsResolved c
unfolding validation_errors
validate-IsResolved c v =
    let parts = (concat-eq-nil (validation_parts c)).0 (validate-eq-valid c v) in
    let late = parts.1.1.1.1.1.1.1 in
    record {
      in_groups = groups_errors-Resolve _ _ 0 c.spec.groups [] late.0;
      selected = bindings_errors-Selects _ 0 c.spec.bindings [] late.1.0;
      direct = routes_errors-Resolve _ _ 0 c.spec.routes [] late.1.1.0;
      browser = browser_errors-Resolve _ _ 0 c.spec.browser_routes [] late.1.1.1.0;
    }
