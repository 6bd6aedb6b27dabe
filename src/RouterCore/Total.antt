-- ===== src/RouterCore/Total.antt =====
-- `compile` has an outcome for every configuration: its indexing of maps does not panic.
use apm_projectrunner.Base.{
  String, ◌≡◌, refl, ◌⊎◌, inl, inr, List, [], ◌∷◌, Option, some, Map, get-nil, insert,
  collect_by-Member, All, All-Member, arith, string_eq, pair_eq,
}
use apm_projectrunner.RouterConfig.Model.{
  RouterConfig, ServiceGroup, Binding, Route, BrowserRoute, ValidationError,
}
use apm_projectrunner.RouterConfig.Validate.{Validated, valid, invalid, validate}
use apm_projectrunner.RouterConfig.Validate.Listeners.{Slots}
use apm_projectrunner.RouterConfig.Validate.References.{Providers, recorded_groups}
use apm_projectrunner.RouterConfig.Resolve.{
  Resolves, EntriesResolve, Selects, IsResolved, validate-IsResolved,
}
use apm_projectrunner.RouterCore.Compile.{
  ConsumerRoutes, BrowserRoutes, key_eq, target, target_of, ◌>>=◌, add_entries, add_bindings,
  add_routes, add_browser_routes, build, compile, CompiledSnapshot, compiled, rejected,
}

-- The computation returns a value.
abbrev pub Returns {ℓ} : {A : Type ℓ} → Option A → Type ℓ
Returns {A} m = (a : A) × (m ≡ some a)

bind-Returns :
    {A B : Type 0} (m : Option A) (f : A → Option B) (a : A)
    → m ≡ some a
    → Returns (f a)
    → Returns (m >>= f)
bind-Returns m f a e r = rw e r

module _ (slots : Slots) (providers : Providers) where
  pub target-Returns :
      (slot provider : String)
      → Resolves slots providers slot provider
      → Returns (target provider providers)
  unfolding target
  target-Returns slot provider r = (target_of r.target, rw (r.exists, target))

  pub add_entries-Returns :
      (consumer : String) (entries : Map String String) (table : ConsumerRoutes)
      → EntriesResolve slots providers entries
      → Returns (add_entries providers consumer entries table)
  unfolding add_entries
  add_entries-Returns consumer [] table h = (table, refl)
  add_entries-Returns consumer ((slot, provider) ∷ entries) table (r, h) =
      let (t, found) = target-Returns slot provider r in
      rw (found, add_entries)
        (add_entries-Returns consumer entries (insert (consumer, slot) t table) h)

  pub add_bindings-Returns :
      (gs : List ServiceGroup) (bs : List Binding) (table : ConsumerRoutes)
      → All (λ (g : ServiceGroup). EntriesResolve slots providers g.providers) gs
      → All (Selects (recorded_groups gs)) bs
      → Returns (add_bindings providers (recorded_groups gs) bs table)
  unfolding add_bindings
  add_bindings-Returns gs [] table ok h = (table, refl)
  add_bindings-Returns gs (b ∷ bs) table ok (s, h) =
      elim (collect_by-Member (λ g. g.id) b.group s.group [] gs s.declared) [
        | inl old ↦ absurd (ground (arith, get-nil {V = ServiceGroup} b.group))
        | inr (named, listed) ↦
            let entries =
              All-Member (λ (g : ServiceGroup). EntriesResolve slots providers g.providers) listed
                ok in
            let (table', added) = add_entries-Returns b.consumer s.group.providers table entries in
            rw (s.declared, added) (add_bindings-Returns gs bs table' ok h)
      ]

  pub add_routes-Returns :
      (rs : List Route) (table : ConsumerRoutes)
      → All (λ (r : Route). Resolves slots providers r.slot r.provider) rs
      → Returns (add_routes providers rs table)
  unfolding add_routes
  add_routes-Returns [] table h = (table, refl)
  add_routes-Returns (r ∷ rs) table (p, h) =
      let (t, found) = target-Returns r.slot r.provider p in
      rw found (add_routes-Returns rs (insert (r.consumer, r.slot) t table) h)

  pub add_browser_routes-Returns :
      (rs : List BrowserRoute) (table : BrowserRoutes)
      → All (λ (r : BrowserRoute). Resolves slots providers r.destination r.provider) rs
      → Returns (add_browser_routes providers rs table)
  unfolding add_browser_routes
  add_browser_routes-Returns [] table h = (table, refl)
  add_browser_routes-Returns (r ∷ rs) table (p, h) =
      let (t, found) = target-Returns r.destination r.provider p in
      rw found (add_browser_routes-Returns rs _ h)

module _ (checksum : RouterConfig → String) (c : RouterConfig) where
  build-Returns : IsResolved c → Returns (build checksum c)
  unfolding build
  build-Returns r =
      let (grouped, e) =
        add_bindings-Returns _ _ c.spec.groups c.spec.bindings [] r.in_groups r.selected in
      let (consumers, f) = add_routes-Returns _ _ c.spec.routes grouped r.direct in
      let (browsers, g) = add_browser_routes-Returns _ _ c.spec.browser_routes [] r.browser in
      bind-Returns _ _ grouped e
        (bind-Returns _ _ consumers f (bind-Returns _ _ browsers g (_, refl)))

  abbrev pub Rejection : Type 0
  Rejection =
      (errors : List ValidationError) × (validate c ≡ invalid errors)
      × (compile checksum c ≡ rejected errors)

  abbrev pub Acceptance : Type 0
  Acceptance =
      (s : CompiledSnapshot) × (validate c ≡ valid)
      × (build checksum c ≡ some s)
      × (compile checksum c ≡ compiled s)

  -- Compiling ends in one of two ways: validation rejects the configuration, and its errors are
  -- the outcome, or validation accepts it and the outcome is a snapshot. The indexing of the
  -- group and provider maps never panics.
  pub compile_outcome : Rejection ⊎ Acceptance
  unfolding compile
  compile_outcome = go (validate c) refl
    where
      go : (v : Validated) → validate c ≡ v → Rejection ⊎ Acceptance
      go (invalid errors) h = inl (errors, h, rw (h, compile))
      go valid h =
          let (s, b) = build-Returns (validate-IsResolved c h) in inr (s, h, b, rw (h, compile, b))
