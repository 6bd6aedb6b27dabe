-- ===== src/RouterHost/Sync/Effect.antt =====
-- What an apply does to a process whose data plane is in step.
use apm_projectrunner.Base.{
  ℕ, String, ◌≡◌, refl, sym, subst, ap, ◌∙◌, ◌≤◌, ◌<◌, inl, inr, Bool, true, false, List, [], ◌∷◌,
  Option, none, some, map, filter, All, arith, Bool-cases, option_beq_correct, list_beq_correct,
  string_eq, nat_eq, pair_eq, option_eq, list_eq, ◌==◌, if◌then◌else◌,
}
use apm_projectrunner.RouterConfig.Model.{RouterConfig, Listener, TransparentProxy}
use apm_projectrunner.RouterConfig.Equality.{listener_eq, identity_eq}
use apm_projectrunner.RouterCore.Compile.{CompiledSnapshot, compiled, compile}
use apm_projectrunner.RouterCore.Engine.{
  RouteEngine, Outcome, version, version_of, snapshot, new, apply, ack,
}
use apm_projectrunner.RouterCore.Total.{compile_outcome}
use apm_projectrunner.RouterCore.History.{
  Applied, refused, blocked, stale, replaced, apply-Applied, compiled-config, installed,
}
use apm_projectrunner.RouterCore.Engine
use apm_projectrunner.RouterTcp.Transparent.{TransparentTarget}
use apm_projectrunner.RouterHost.Process.{
  Checked, ok, err, panic, Surroundings, tcp_target, is_tcp, transparent_targets,
  validate_runtime_config,
}
use apm_projectrunner.RouterHost.Observe.{Observability}
use apm_projectrunner.RouterHost.Control.{ControlState, Answer, frozen?, reload_transparent}
use apm_projectrunner.RouterHost.Process.{
  bind-eq-ok, engine_checked, http_checked, serves_http, http_error,
}
use apm_projectrunner.RouterHost.Execute.{
  Candidate, accepted, panicked, recompiled, once_valid, validate_candidate, changes, observe,
  Executed, execute_apply, execute_candidate, unready, applied, reloaded,
}
use apm_projectrunner.RouterHost.Execute
use apm_projectrunner.RouterHost.Report.{no_fields}
use apm_projectrunner.RouterHost.Sync.Panic.{validate_candidate_lem}
use apm_projectrunner.RouterHost.Sync.{
  Passes, targets?, listeners_of, InSync, tcp_error-All, reload_tcp-Routed, engine_checked_lem,
}

once_valid_lem :
    (v : Checked (Unit {0})) (o : Outcome RouteEngine) (e : RouteEngine)
    → once_valid v (recompiled o) ≡ accepted e
    → v ≡ ok tt
once_valid_lem (ok u) o e h = refl
once_valid_lem (err why) o e h = absurd (ground arith)
once_valid_lem panic o e h = absurd (ground arith)

frozen-eq : (a b : Option (String × (ℕ × ℕ))) → (a == b) ≡ true → a ≡ b
frozen-eq a b h = (option_beq_correct a b).0 h

listeners-eq : (a b : List Listener) → (a == b) ≡ true → a ≡ b
listeners-eq a b h = (list_beq_correct a b).0 h

repeated_lem :
    (proxy : TransparentProxy) (proxies : List (List TransparentTarget))
    → All (λ ts. targets? (some proxy) ≡ some ts) (map (λ old. transparent_targets proxy) proxies)
repeated_lem proxy [] = tt
repeated_lem proxy (ts ∷ proxies) = (refl, repeated_lem proxy proxies)

-- The transparent proxies after a reload.
reload_transparent_lem :
    (old new : Option TransparentProxy) (proxies : List (List TransparentTarget))
    → frozen? new ≡ frozen? old
    → All (λ ts. targets? old ≡ some ts) proxies
    → All (λ ts. targets? new ≡ some ts) (reload_transparent new proxies)
reload_transparent_lem none none proxies same h = h
reload_transparent_lem (some p) none proxies same h = absurd (ground arith)
reload_transparent_lem old (some p) proxies same h = repeated_lem p proxies

compiled-inj : {s t : CompiledSnapshot} → compiled s ≡ compiled t → s ≡ t
compiled-inj e = cc

module _ (checksum : RouterConfig → String) (env : Surroundings) where
  -- What a candidate that is accepted has passed.
  pub record Admitted (st : ControlState) (c : RouterConfig) (s : CompiledSnapshot) : Type 0 where
    pub kept_listeners : c.spec.listeners ≡ st.initial_listeners
    pub kept_transparent : frozen? c.spec.transparent_proxy ≡ st.initial_transparent_proxy
    pub compiles : compile checksum c ≡ compiled s
    pub targets : All (λ l. Passes (tcp_target s l)) (filter is_tcp c.spec.listeners)

  pub new-compile :
      (c : RouterConfig) (e : RouteEngine)
      → new checksum c ≡ Outcome.ok e
      → compile checksum c ≡ compiled (snapshot e)
  unfolding new
  new-compile c e h = elim (compile_outcome checksum c) [
    | inl (errors, bad, out) ↦ absurd (ground arith)
    | inr (s, good, b, out) ↦ rw out (ground arith)
  ]

  runtime_lem :
      (c : RouterConfig)
      → validate_runtime_config checksum env c ≡ ok tt
      → (s : CompiledSnapshot) × (compile checksum c ≡ compiled s)
        × All (λ l. Passes (tcp_target s l)) (filter is_tcp c.spec.listeners)
  unfolding validate_runtime_config
  runtime_lem c h =
      let (e, built, rest) = bind-eq-ok (engine_checked (new checksum c)) _ h in
      let (u, served, tcp) =
        bind-eq-ok (http_checked (http_error env (filter serves_http c.spec.listeners))) _ rest in
      (
        snapshot e,
        new-compile c e (engine_checked_lem (new checksum c) e built),
        tcp_error-All (snapshot e) (filter is_tcp c.spec.listeners) tcp,
      )

  -- A candidate that is accepted.
  pub validate_candidate-Admitted :
      (st : ControlState) (c : RouterConfig) (e : RouteEngine)
      → validate_candidate checksum env st c ≡ accepted e
      → (s : CompiledSnapshot) × Admitted st c s
  unfolding validate_candidate
  validate_candidate-Admitted st c e h = elim (Bool-cases (changes st c)) [
    | inl changed ↦ absurd (ground arith)
    | inr same ↦
        let checks : once_valid (validate_runtime_config checksum env c)
              (recompiled (new checksum c))
            ≡ accepted e =
          ground arith in
        let (s, compiles, targets) = runtime_lem c (once_valid_lem _ _ e checks) in
        (
          s,
          record {
            kept_listeners = listeners-eq _ _ (ground arith);
            kept_transparent = frozen-eq _ _ (ground arith);
            compiles = compiles;
            targets = targets;
          },
        )
  ]

  -- The ways in which an apply can end: refused or stale, with the data plane as it was, or with the
  -- compiled snapshot of the configuration as the active one and the data plane in step with it.
  pub data Effect (st : ControlState) (c : RouterConfig) : Executed → Type 0 where
    turned_down :
        (o : Observability) (a : Answer) → a.ok ≡ false → Effect st c (observe st o, some a)
    outdated :
        (o : Observability) (a : Answer)
        → a.ok ≡ true
        → version_of c ≤ version (snapshot st.engine)
        → Effect st c (observe st o, some a)
    activated :
        (st' : ControlState) (a : Answer) (s : CompiledSnapshot)
        → compile checksum c ≡ compiled s
        → version (snapshot st.engine) < version_of c
        → st'.engine ≡ installed checksum st.engine s
        → InSync st'
        → a.ok ≡ true
        → Effect st c (st', some a)

  applied-Effect :
      (now : ℕ) (st : ControlState) (c : RouterConfig) (s : CompiledSnapshot)
      (r : RouteEngine × Outcome Engine.ApplyAck)
      → InSync st
      → Admitted st c s
      → Applied checksum st.engine c r
      → Effect st c (applied now st r)
  applied-Effect now st c s r i a (refused errors h) = turned_down _ _ refl
  applied-Effect now st c s r i a (blocked h p) = turned_down _ _ refl
  applied-Effect now st c s r i a (stale t h p old) = outdated _ _ refl old
  applied-Effect now st c s r i a (replaced t h p newer) =
      let e : s ≡ t = compiled-inj (sym a.compiles ∙ h) in
      let config : t.config ≡ c = compiled-config checksum c t h in
      let listeners : listeners_of st.tcp ≡ filter is_tcp c.spec.listeners =
        i.bound ∙ ap (filter is_tcp) (sym a.kept_listeners) in
      let passes : All (λ l. Passes (tcp_target t l)) (listeners_of st.tcp) =
        rw (listeners, ← e) a.targets in
      let (bindings, same, kept, routed) = reload_tcp-Routed t st.tcp passes in
      subst
        (λ r'. Effect st c (
          reloaded now (record st { engine = installed checksum st.engine t })
            (ack t Engine.activated) r'))
        (sym same)
        (activated _ _ t h newer refl
          (record {
            same_listeners = ap (λ d. d.spec.listeners) config ∙ a.kept_listeners;
            same_transparent =
                ap (λ d. frozen? d.spec.transparent_proxy) config ∙ a.kept_transparent;
            bound = kept ∙ i.bound;
            routed = routed;
            members =
                reload_transparent_lem (snapshot st.engine).config.spec.transparent_proxy
                  t.config.spec.transparent_proxy st.transparent_tcp
                  (ap (λ d. frozen? d.spec.transparent_proxy) config
                    ∙ (a.kept_transparent ∙ sym i.same_transparent))
                  i.members;
          })
          refl)

  if-Effect :
      {st : ControlState} {c : RouterConfig} (b : Bool) {x y : Executed}
      → Effect st c x
      → Effect st c y
      → Effect st c (if b then x else y)
  if-Effect true e f = e
  if-Effect false e f = f

  candidate-Effect :
      (now : ℕ) (st : ControlState) (c : RouterConfig) (r : Candidate)
      → InSync st
      → validate_candidate checksum env st c ≡ r
      → Effect st c (execute_candidate checksum env now st c r)
  candidate-Effect now st c (accepted e) i h =
      let (s, admitted) = validate_candidate-Admitted st c e h in
      if-Effect (no_fields (unready checksum env st e))
        (applied-Effect now st c s _ i admitted (apply-Applied checksum st.engine c))
        (turned_down _ _ refl)
  candidate-Effect now st c (Execute.refused why) i h = turned_down _ _ refl
  candidate-Effect now st c panicked i h = absurd (validate_candidate_lem checksum env st c h)

  -- An apply to a process whose data plane is in step with its engine always answers, and is all or
  -- nothing: a refused or outdated configuration leaves the engine, the TCP listeners and the
  -- transparent proxies as they are, and any other becomes the active snapshot with every listener
  -- and every proxy in step with it. The reload of the TCP listeners, which follows the activation,
  -- never fails.
  pub execute_apply-Effect :
      (now : ℕ) (st : ControlState) (c : RouterConfig)
      → InSync st
      → Effect st c (execute_apply checksum env now st c)
  unfolding execute_apply
  execute_apply-Effect now st c i = candidate-Effect now st c _ i refl
