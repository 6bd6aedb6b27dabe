-- ===== src/RouterCore/History.antt =====
-- The engine over a history of applied configurations.
use apm_projectrunner.Base.{
  ◌≤◌, ◌<◌, String, ◌≡◌, refl, sym, subst, ap, ◌∙◌, ◌⊎◌, inl, inr, true, false, List, [], ◌∷◌, none,
  some, arith, leb, All, Member, Bool-cases,
}
use apm_projectrunner.RouterConfig.Model.{RouterConfig, ValidationError}
use apm_projectrunner.RouterConfig.Validate.{validate, valid}
use apm_projectrunner.RouterConfig.Validate
use apm_projectrunner.RouterCore.Compile.{CompiledSnapshot, compiled, compile}
use apm_projectrunner.RouterCore.Engine.{
  RouteEngine, ApplyAck, invalid, lock_poisoned, Outcome, ok, err, activated, rejected_stale, ack,
  version, version_of, snapshot, previous_snapshot, swap, new, apply, run,
}
use apm_projectrunner.RouterCore.Resolution.{compiled-build, build-IsBuilt}
use apm_projectrunner.RouterCore.Total.{compile_outcome}

module _ (checksum : RouterConfig → String) where
  -- The engine after a snapshot is installed.
  abbrev pub installed : RouteEngine → CompiledSnapshot → RouteEngine
  installed e s = record e {
    snapshots = record { current = s; previous = some e.snapshots.current };
  }

  -- The ways in which `apply` can end.
  pub data Applied (e : RouteEngine) (c : RouterConfig)
      : RouteEngine × Outcome ApplyAck → Type 0 where
    refused :
        (errors : List ValidationError)
        → validate c ≡ Validate.invalid errors
        → Applied e c (e, err (invalid errors))
    blocked : validate c ≡ valid → e.poisoned ≡ true → Applied e c (e, err lock_poisoned)
    stale :
        (s : CompiledSnapshot)
        → compile checksum c ≡ compiled s
        → e.poisoned ≡ false
        → version_of c ≤ version (snapshot e)
        → Applied e c (e, ok (ack s rejected_stale))
    replaced :
        (s : CompiledSnapshot)
        → compile checksum c ≡ compiled s
        → e.poisoned ≡ false
        → version (snapshot e) < version_of c
        → Applied e c (installed e s, ok (ack s activated))

  pub compiled-config :
      (c : RouterConfig) (s : CompiledSnapshot) → compile checksum c ≡ compiled s → s.config ≡ c
  compiled-config c s h = (build-IsBuilt checksum c s (compiled-build checksum c s h).1).config_kept

  -- Applying a configuration ends in one of four ways. A rejected configuration reports the
  -- errors of its validation, and a poisoned lock is reported for an accepted one. Otherwise a
  -- version that is not above the active one is acknowledged as stale, and a higher one becomes
  -- the active snapshot, with the one that it replaces as the previous. In the first three cases
  -- the engine is unchanged. There is no panic.
  pub apply-Applied : (e : RouteEngine) (c : RouterConfig) → Applied e c (apply checksum e c)
  unfolding apply swap
  apply-Applied e c = elim (compile_outcome checksum c) [
    | inl (errors, bad, out) ↦ rw (out, apply) (refused errors bad)
    | inr (s, good, b, out) ↦ elim (Bool-cases e.poisoned) [
      | inl p ↦ subst (Applied e c) (ground arith) (blocked good p)
      | inr p ↦
          let kept = compiled-config c s out in
          elim (Bool-cases (leb (version s) (version (snapshot e)))) [
            | inl old ↦ subst (Applied e c) (ground arith) (stale s out p (ground arith))
            | inr newer ↦ subst (Applied e c) (ground arith) (replaced s out p (ground arith))
          ]
    ]
  ]

  -- Both snapshots are compilations of their configurations, and the previous one is older.
  pub record IsSound (e : RouteEngine) : Type 0 where
    pub active : compile checksum (snapshot e).config ≡ compiled (snapshot e)
    pub earlier :
        (p : CompiledSnapshot)
        → previous_snapshot e ≡ some p
        → (compile checksum p.config ≡ compiled p) × (version p < version (snapshot e))

  Applied-IsSound :
      {e : RouteEngine} {c : RouterConfig} {r : RouteEngine × Outcome ApplyAck}
      → Applied e c r
      → IsSound e
      → IsSound r.0
  Applied-IsSound (refused errors h) i = i
  Applied-IsSound (blocked h p) i = i
  Applied-IsSound (stale s h p o) i = i
  Applied-IsSound {e} {c} (replaced s h p o) i =
      let kept = compiled-config c s h in
      record {
        active = subst (λ d. compile checksum d ≡ compiled s) (sym kept) h;
        earlier = λ q same. let eq : snapshot e ≡ q = cc same in rw (← eq, kept) (i.active, o);
      }

  run-IsSound : (e : RouteEngine) (cs : List RouterConfig) → IsSound e → IsSound (run checksum e cs)
  unfolding run
  run-IsSound e [] i = i
  run-IsSound e (c ∷ cs) i =
      run-IsSound (apply checksum e c).0 cs (Applied-IsSound (apply-Applied e c) i)

  new-IsSound : (c : RouterConfig) (e : RouteEngine) → new checksum c ≡ ok e → IsSound e
  unfolding new
  new-IsSound c e h = elim (compile_outcome checksum c) [
    | inl (errors, bad, out) ↦ absurd (ground arith)
    | inr (s, good, b, out) ↦
        let kept = compiled-config c s out in
        let first : RouteEngine = record {
          snapshots = record { current = s; previous = none };
          poisoned = false;
        } in
        let eq : first ≡ e = ground arith in
        subst IsSound eq (record {
          active = subst (λ d. compile checksum d ≡ compiled s) (sym kept) out;
          earlier = λ p n. absurd (cc n);
        })
  ]

  -- An engine that `new` returns, after any history of applied configurations: its active and its
  -- previous snapshot are compilations of the configurations that they carry, so that readers
  -- never meet a partial table, and the previous version is below the active one.
  pub new-run-IsSound :
      (c : RouterConfig) (e : RouteEngine) (cs : List RouterConfig)
      → new checksum c ≡ ok e
      → IsSound (run checksum e cs)
  new-run-IsSound c e cs h = run-IsSound e cs (new-IsSound c e h)

  Applied-poisoned :
      {e : RouteEngine} {c : RouterConfig} {r : RouteEngine × Outcome ApplyAck}
      → Applied e c r
      → r.0.poisoned ≡ e.poisoned
  Applied-poisoned (refused errors h) = refl
  Applied-poisoned (blocked h p) = refl
  Applied-poisoned (stale s h p o) = refl
  Applied-poisoned (replaced s h p o) = refl

  Applied-version :
      {e : RouteEngine} {c : RouterConfig} {r : RouteEngine × Outcome ApplyAck}
      → Applied e c r
      → version (snapshot e) ≤ version (snapshot r.0)
  Applied-version (refused errors h) = omega arith
  Applied-version (blocked h p) = omega arith
  Applied-version (stale s h p o) = omega arith
  Applied-version {c} (replaced s h p o) = omega (arith, ap version_of (compiled-config c s h))

  Applied-covers :
      {e : RouteEngine} {c : RouterConfig} {r : RouteEngine × Outcome ApplyAck}
      → Applied e c r
      → e.poisoned ≡ false
      → validate c ≡ valid
      → version_of c ≤ version (snapshot r.0)
  Applied-covers (refused errors h) q v = absurd (cc)
  Applied-covers (blocked h p) q v = absurd (cc)
  Applied-covers (stale s h p o) q v = o
  Applied-covers {c} (replaced s h p o) q v = omega (arith, ap version_of (compiled-config c s h))

  -- Where the active configuration comes from.
  abbrev pub From : RouterConfig → RouteEngine → RouteEngine → Type 0
  From c e e' =
      ((snapshot e').config ≡ (snapshot e).config)
      ⊎ (((snapshot e').config ≡ c) × (validate c ≡ valid))

  Applied-From :
      {e : RouteEngine} {c : RouterConfig} {r : RouteEngine × Outcome ApplyAck}
      → Applied e c r
      → From c e r.0
  Applied-From (refused errors h) = inl refl
  Applied-From (blocked h p) = inl refl
  Applied-From (stale s h p o) = inl refl
  Applied-From {c} (replaced s h p o) =
      inr (compiled-config c s h, (compiled-build checksum c s h).0)

  run-version :
      (e : RouteEngine) (cs : List RouterConfig)
      → version (snapshot e) ≤ version (snapshot (run checksum e cs))
  unfolding run
  run-version e [] = omega arith
  run-version e (c ∷ cs) =
      omega (arith, Applied-version (apply-Applied e c), run-version (apply checksum e c).0 cs)

  -- The active configuration is among those seen, and no accepted one has a higher version.
  pub record IsNewest (e : RouteEngine) (cs : List RouterConfig) (e' : RouteEngine) : Type 0 where
    pub seen :
        ((snapshot e').config ≡ (snapshot e).config)
        ⊎ (Member (snapshot e').config cs × (validate (snapshot e').config ≡ valid))
    pub at_least : version (snapshot e) ≤ version (snapshot e')
    pub highest :
        All (λ (c : RouterConfig). validate c ≡ valid → version_of c ≤ version (snapshot e')) cs

  -- An engine whose lock is not poisoned, after any history of applied configurations, serves the
  -- configuration that it began with or an accepted one of the history, and its version is at
  -- least that of the first and of every accepted configuration of the history: rejected and
  -- stale ones never displace a newer snapshot.
  pub run-IsNewest :
      (e : RouteEngine) (cs : List RouterConfig)
      → e.poisoned ≡ false
      → IsNewest e cs (run checksum e cs)
  unfolding run
  run-IsNewest e [] p = record { seen = inl refl; at_least = omega arith; highest = tt }
  run-IsNewest e (c ∷ cs) p =
      let step = apply-Applied e c in
      let e' = (apply checksum e c).0 in
      let rest = run-IsNewest e' cs (Applied-poisoned step ∙ p) in
      record {
        seen = elim (rest.seen) [
          | inr (m, v) ↦ inr (Member.there m, v)
          | inl same ↦ elim (Applied-From step) [
            | inl old ↦ inl (same ∙ old)
            | inr (this, v) ↦ inr (
              subst (λ d. Member d (c ∷ cs)) (sym (same ∙ this)) Member.here,
              subst (λ d. validate d ≡ valid) (sym (same ∙ this)) v,
            )
          ]
        ];
        at_least = run-version e (c ∷ cs);
        highest = (λ v. omega (arith, Applied-covers step p v, run-version e' cs), rest.highest);
      }
