-- ===== src/RouterCore/Tables.antt =====
-- The route tables that `compile` builds, entry by entry.
use apm_projectrunner.Base.{
  String, ◌≡◌, refl, sym, ◌∙◌, List, [], ◌∷◌, Option, none, some, Map, get, insert, get-insert,
  arith, ◌==◌, string_eq, pair_eq, if◌then◌else◌, Bool-cases, Distinct, find, find_absent, IsMap,
  get_absent, inl, inr,
}
use apm_projectrunner.RouterConfig.Model.{ServiceGroup, Binding, Route, BrowserRoute}
use apm_projectrunner.RouterConfig.Unique.{route_key}
use apm_projectrunner.RouterConfig.Validate.References.{Providers, Groups}
use apm_projectrunner.RouterCore.Compile.{
  RouteTarget, ConsumerRoutes, BrowserRoutes, BrowserKey, key_eq, browser_key, target, add_entries,
  add_bindings, add_routes, add_browser_routes, ◌>>=◌,
}

pub >>=-eq-some :
    {A B : Type 0} (m : Option A) (f : A → Option B) {b : B}
    → (m >>= f) ≡ some b
    → (a : A) × (m ≡ some a) × (f a ≡ some b)
>>=-eq-some none f h = absurd (ground arith)
>>=-eq-some (some a) f h = (a, refl, h)

-- The group that a binding selects, and what it provides for the slot.
abbrev pub provides : Groups → String → Option Binding → Option String
provides groups slot none = none
provides groups slot (some b) = get b.group groups >>= λ g. get slot g.providers

abbrev pub browser_route_key : BrowserRoute → String × BrowserKey
browser_route_key r = (r.destination, browser_key r.identity)

module _ (providers : Providers) where
  -- A new entry in place of the old one, if there is one.
  abbrev pub overlay : Option String → Option RouteTarget → Option RouteTarget
  overlay none old = old
  overlay (some provider) old = target provider providers

  pub get-add_entries :
      (owner consumer slot : String) (entries : Map String String) (table result : ConsumerRoutes)
      → IsMap entries
      → add_entries providers owner entries table ≡ some result
      → get (consumer, slot) result ≡ (
          if owner == consumer
          then overlay (get slot entries) (get (consumer, slot) table)
          else get (consumer, slot) table)
  unfolding add_entries get
  get-add_entries owner consumer slot [] table result d h = ground arith
  get-add_entries owner consumer slot ((sl, p) ∷ entries) table result (a, d) h =
      let (t, found, rest) = >>=-eq-some (target p providers) _ h in
      let table' : ConsumerRoutes = insert (owner, sl) t table in
      ground (
        arith,
        get-add_entries owner consumer slot entries table' result d rest,
        get-insert (owner, sl) (consumer, slot) t table,
        get_absent sl entries a,
        string_eq.beq_correct sl slot,
      )

  pub get-add_bindings :
      (groups : Groups) (consumer slot : String) (bs : List Binding) (table result : ConsumerRoutes)
      → ((id : String) (g : ServiceGroup) → get id groups ≡ some g → IsMap g.providers)
      → Distinct (λ (b : Binding). b.consumer) bs
      → add_bindings providers groups bs table ≡ some result
      → get (consumer, slot) result
        ≡ overlay
            (provides groups slot (find (λ (b : Binding). b.consumer) consumer bs))
            (get (consumer, slot) table)
  unfolding add_bindings
  get-add_bindings groups consumer slot [] table result m d h = ground arith
  get-add_bindings groups consumer slot (b ∷ bs) table result m (a, d) h =
      let (g, selected, added) = >>=-eq-some (get b.group groups) _ h in
      let (table', entries, rest) =
        >>=-eq-some (add_entries providers b.consumer g.providers table) _ added in
      let here =
        get-add_entries b.consumer consumer slot g.providers table table' (m b.group g selected)
          entries in
      let later = get-add_bindings groups consumer slot bs table' result m d rest in
      elim (Bool-cases (b.consumer == consumer)) [
        | inl same ↦
            let eq : b.consumer ≡ consumer = (string_eq.beq_correct _ _).0 same in
            let once : find (λ (b : Binding). b.consumer) consumer bs ≡ none =
              rw (← eq) (find_absent (λ (b : Binding). b.consumer) b.consumer bs a) in
            rw (same, selected) (later ∙ rw once (here ∙ rw same refl))
        | inr other ↦ rw other (later ∙ rw (here, other) refl)
      ]

  pub get-add_routes :
      (consumer slot : String) (rs : List Route) (table result : ConsumerRoutes)
      → Distinct route_key rs
      → add_routes providers rs table ≡ some result
      → get (consumer, slot) result
        ≡ overlay
            ((find route_key (consumer, slot) rs) >>= λ r. some r.provider)
            (get (consumer, slot) table)
  unfolding add_routes
  get-add_routes consumer slot [] table result d h = ground arith
  get-add_routes consumer slot (r ∷ rs) table result (a, d) h =
      let (t, found, rest) = >>=-eq-some (target r.provider providers) _ h in
      let table' : ConsumerRoutes = insert (route_key r) t table in
      let later = get-add_routes consumer slot rs table' result d rest in
      let put = get-insert (route_key r) (consumer, slot) t table in
      elim (Bool-cases (route_key r == (consumer, slot))) [
        | inl same ↦
            let eq : route_key r ≡ (consumer, slot) =
              ((pair_eq {A = String} {B = String}).beq_correct _ _).0 same in
            let once : find route_key (consumer, slot) rs ≡ none =
              rw (← eq) (find_absent route_key (route_key r) rs a) in
            rw same (later ∙ rw once (put ∙ rw same (sym found)))
        | inr other ↦ rw other (later ∙ rw (put, other) refl)
      ]

  pub get-add_browser_routes :
      (k : String × BrowserKey) (rs : List BrowserRoute) (table result : BrowserRoutes)
      → Distinct browser_route_key rs
      → add_browser_routes providers rs table ≡ some result
      → get k result
        ≡ overlay ((find browser_route_key k rs) >>= λ r. some r.provider) (get k table)
  unfolding add_browser_routes
  get-add_browser_routes k [] table result d h = ground arith
  get-add_browser_routes k (r ∷ rs) table result (a, d) h =
      let (t, found, rest) = >>=-eq-some (target r.provider providers) _ h in
      let table' : BrowserRoutes = insert (browser_route_key r) t table in
      let later = get-add_browser_routes k rs table' result d rest in
      let put = get-insert (browser_route_key r) k t table in
      elim (Bool-cases (browser_route_key r == k)) [
        | inl same ↦
            let eq : browser_route_key r ≡ k =
              ((pair_eq {A = String} {B = BrowserKey}).beq_correct _ _).0 same in
            let once : find browser_route_key k rs ≡ none =
              rw (← eq) (find_absent browser_route_key (browser_route_key r) rs a) in
            rw same (later ∙ rw once (put ∙ rw same (sym found)))
        | inr other ↦ rw other (later ∙ rw (put, other) refl)
      ]
