-- ===== src/Planner/Overlay/History.antt =====
-- The traces: the value that is reported for a key, and the values that it shadows.
use apm_projectrunner.Base.{
  String, Bool, true, false, Eq, Member, here, there, subst, filter, map, insert, ◌!=◌,
  Option-cases, List, [], ◌∷◌, Option, none, some, Map, get, get-insert, get-remove, ◌≡◌, refl,
  ◌==◌, string_eq, pair_eq, if◌then◌else◌, arith, Bool-cases, inl, inr, ◌∙◌,
}
use apm_projectrunner.Planner.Overlay.Steps.{resolve_keeps}
use apm_projectrunner.Planner.Overlay.{
  OverlayValue, overlay_value, Resolving, set_key, unset_key, unset_trace, reported_of,
  environment_id, traced, first_shadowed, Overlay, resolve_environment, TraceId, Traces,
  OriginTrace, set_trace, origins, ShadowedOrigin,
}

abbrev pub reported : Option OriginTrace → Option String
reported none = none
reported (some t) = some t.value

pub reported-set_trace :
    (id other : TraceId) (value layer : String) (traces : Traces)
    → reported (get other (set_trace id value layer traces))
      ≡ (if id == other then some value else reported (get other traces))
unfolding set_trace
reported-set_trace id other value layer traces = elim (Bool-cases (id == other)) [
  | inl e ↦
      rw (get-insert id other (traced id value layer (get id traces)) traces, e)
        (at_id (get id traces))
  | inr e ↦ rw (get-insert id other (traced id value layer (get id traces)) traces, e) refl
]
  where
    at_id :
        (found : Option OriginTrace) → reported (some (traced id value layer found)) ≡ some value
    at_id none = refl
    at_id (some t) = refl

-- A key that the instance's environment has is traced with its value.
unfoldable pub IsTraced : Resolving → String → Type 0
IsTraced r key =
    (value : String)
    → get key r.environment ≡ some value
    → reported (get (environment_id r key) r.traces) ≡ some value

reported_elsewhere :
    (id other : TraceId) (value layer : String) (traces : Traces)
    → (id == other) ≡ false
    → reported (get other (set_trace id value layer traces)) ≡ reported (get other traces)
reported_elsewhere id other value layer traces e =
    rw (reported-set_trace id other value layer traces, e) refl

-- Taking a key away leaves the traces of the others.
reported-unset_trace :
    (id other : TraceId) (layer : String) (previous : Option String) (traces : Traces)
    → (id == other) ≡ false
    → reported (get other (unset_trace id layer previous traces)) ≡ reported (get other traces)
reported-unset_trace id other layer none traces e = refl
reported-unset_trace id other layer (some previous) traces e =
    after (get id (set_trace id "«unset»" layer traces))
  where
    after :
        (found : Option OriginTrace)
        → reported (get other (reported_of id previous found (set_trace id "«unset»" layer traces)))
          ≡ reported (get other traces)
    after none = reported_elsewhere id other "«unset»" layer traces e
    after (some t) =
        rw
          (
            get-insert id other (first_shadowed previous t t.shadowed)
                (set_trace id "«unset»" layer traces),
            e,
          )
          (reported_elsewhere id other "«unset»" layer traces e)

same_id :
    (r : Resolving) (key k : String) → (environment_id r key == environment_id r k) ≡ (key == k)
same_id r key k = ground (arith, string_eq.beq_correct r.name r.name)

set_key-IsTraced :
    (layer key k : String) (v : OverlayValue) (r : Resolving)
    → IsTraced r k
    → IsTraced (set_key layer key v r) k
unfolding IsTraced set_key
set_key-IsTraced layer key k v r h value e =
    rw
      (
        reported-set_trace (environment_id r key) (environment_id r k) (overlay_value v) layer
            r.traces,
        same_id r key k,
      )
      (ground (arith, get-insert key k (overlay_value v) r.environment, h value))

unset_key-IsTraced :
    (layer key k : String) (r : Resolving) → IsTraced r k → IsTraced (unset_key layer key r) k
unfolding IsTraced unset_key
unset_key-IsTraced layer key k r h value e = elim (Bool-cases (key == k)) [
  | inl same ↦ absurd (ground (arith, get-remove key k r.environment))
  | inr other ↦
      reported-unset_trace (environment_id r key) (environment_id r k) layer (get key r.environment)
        r.traces (same_id r key k ∙ other)
      ∙ h value (ground (arith, get-remove key k r.environment))
]

-- The trace is that of the instance, the category and the key.
abbrev pub IsOf : TraceId → OriginTrace → Type 0
IsOf (instance_name, (category, key)) t =
    (t.instance_name ≡ instance_name) × (t.category ≡ category) × (t.key ≡ key)

-- Each trace is of what it is filed under.
unfoldable pub IsNamed : Traces → Type 0
IsNamed traces = (id : TraceId) (t : OriginTrace) → get id traces ≡ some t → IsOf id t

-- What holds of every entry, with its key, after one more.
pub fits-insert {ℓ κ μ} :
    {K : Type ℓ} {V : Type κ} ⦃e : Eq K⦄ (P : K → V → Type μ) (k : K) (v : V) (m : Map K V)
    → P k v
    → ((j : K) (w : V) → get j m ≡ some w → P j w)
    → (j : K) (w : V) → get j (insert k v m) ≡ some w
    → P j w
fits-insert ⦃e = e⦄ P k v m p h j w found = elim (Bool-cases (k == j)) [
  | inl same ↦
      let there_ : v ≡ w = ground (arith, get-insert k j v m) in
      subst (λ x. P x w) ((e.beq_correct k j).0 same) (subst (P k) there_ p)
  | inr other ↦ h j w (ground (arith, get-insert k j v m))
]

set_trace-IsNamed :
    (id : TraceId) (value layer : String) (traces : Traces)
    → IsNamed traces
    → IsNamed (set_trace id value layer traces)
unfolding IsNamed set_trace
set_trace-IsNamed id value layer traces h =
    fits-insert IsOf id _ traces (at_id (get id traces) refl) h
  where
    at_id :
        (found : Option OriginTrace) → get id traces ≡ found → IsOf id (traced id value layer found)
    at_id none e = (refl, refl, refl)
    at_id (some t) e = h id t e

unset_trace-IsNamed :
    (id : TraceId) (layer : String) (previous : Option String) (traces : Traces)
    → IsNamed traces
    → IsNamed (unset_trace id layer previous traces)
unfolding IsNamed
unset_trace-IsNamed id layer none traces h = h
unset_trace-IsNamed id layer (some previous) traces h =
    let h' = set_trace-IsNamed id "«unset»" layer traces h in
    after (set_trace id "«unset»" layer traces) h' (get id (set_trace id "«unset»" layer traces))
      refl
  where
    shadowed-IsOf :
        (t : OriginTrace) (shadowed : List ShadowedOrigin)
        → IsOf id t
        → IsOf id (first_shadowed previous t shadowed)
    shadowed-IsOf t [] h = h
    shadowed-IsOf t (s ∷ rest) h = h

    after :
        (traces : Traces)
        → IsNamed traces
        → (found : Option OriginTrace) → get id traces ≡ found
        → IsNamed (reported_of id previous found traces)
    after traces h none e = h
    after traces h (some t) e =
        fits-insert IsOf id _ traces (shadowed-IsOf t t.shadowed (h id t e)) h

set_key-IsNamed :
    (layer key : String) (v : OverlayValue) (r : Resolving)
    → IsNamed r.traces
    → IsNamed (set_key layer key v r).traces
unfolding set_key
set_key-IsNamed layer key v r h = set_trace-IsNamed _ (overlay_value v) layer r.traces h

unset_key-IsNamed :
    (layer key : String) (r : Resolving) → IsNamed r.traces → IsNamed (unset_key layer key r).traces
unfolding unset_key
unset_key-IsNamed layer key r h = unset_trace-IsNamed _ layer (get key r.environment) r.traces h

-- A key that the instance's environment has is among the origins with its value, unless the value is
-- the text that stands for a key taken away.
unfoldable pub IsShown : Resolving → String → Type 0
IsShown r key =
    (value : String)
    → get key r.environment ≡ some value
    → (value == "«unset»") ≡ false
    → (t : OriginTrace) × Member t (origins r.traces)
      × IsOf (environment_id r key) t
      × (t.value ≡ value)

get-listed {ℓ κ} :
    {K : Type ℓ} {V : Type κ} ⦃e : Eq K⦄ (k : K) (m : Map K V) (v : V)
    → get k m ≡ some v
    → Member v (map (λ (j, w). w) m)
unfolding get
get-listed k [] v h = absurd (ground arith)
get-listed k ((j, w) ∷ m) v h = elim (Bool-cases (j == k)) [
  | inl same ↦ let found : w ≡ v = ground arith in rw (← found) here
  | inr other ↦ there (get-listed k m v (ground arith))
]

filter-listed {ℓ} :
    {A : Type ℓ} (p : A → Bool) {x : A} {xs : List A}
    → Member x xs
    → p x ≡ true
    → Member x (filter p xs)
filter-listed p here h = rw h here
filter-listed p (there {x = y} {xs = ys} m) h = elim (Bool-cases (p y)) [
  | inl e ↦ rw e (there (filter-listed p m h))
  | inr e ↦ rw e (filter-listed p m h)
]

IsTraced-IsShown :
    (r : Resolving) (key : String) → IsNamed r.traces → IsTraced r key → IsShown r key
unfolding IsNamed IsTraced IsShown origins
IsTraced-IsShown r key named traced value e set_ =
    elim (Option-cases (get (environment_id r key) r.traces)) [
      | inl lost ↦ absurd (ground (arith, traced value e))
      | inr (t, found) ↦
          let same : t.value ≡ value = ground (arith, traced value e) in
          (
            t,
            filter-listed (λ u. u.value != "«unset»")
                (get-listed (environment_id r key) r.traces t found) (rw same (ground arith)),
            named (environment_id r key) t found,
            same,
          )
    ]

-- Where the traces are filed under what they are of, and the key is traced with the value that it has
-- before the layers, this is so after them, and if the key is in the environment then it is among the
-- origins: with the instance, the category `environment`, the key and the value that it has, unless
-- this value is the text `«unset»`.
pub resolve_environment-IsShown :
    (overlays : List Overlay) (authored options : Map String String) (r : Resolving) (key : String)
    → IsNamed r.traces
    → IsTraced r key
    → IsNamed (resolve_environment overlays authored options r).traces
      × IsTraced (resolve_environment overlays authored options r) key
      × IsShown (resolve_environment overlays authored options r) key
resolve_environment-IsShown overlays authored options r key named traced =
    let named' =
      resolve_keeps (λ r. IsNamed r.traces) set_key-IsNamed unset_key-IsNamed overlays authored
        options r named in
    let traced' =
      resolve_keeps (λ r. IsTraced r key) (λ layer k v r. set_key-IsTraced layer k key v r)
        (λ layer k r. unset_key-IsTraced layer k key r) overlays authored options r traced in
    (named', traced', IsTraced-IsShown _ key named' traced')
