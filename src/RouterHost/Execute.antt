-- ===== src/RouterHost/Execute.antt =====
-- `validate_candidate` and `execute`: what an administration command does to the process.
use apm_projectrunner.Base.{
  ℕ, String, Bool, true, false, ◌||◌, List, [], Option, none, some, Map, ltb, ◌!=◌, nat_eq,
  string_eq, pair_eq, option_eq, list_eq, if◌then◌else◌,
}
use apm_projectrunner.Base.Json.{bool, text, object, Fields, end, field}
use apm_projectrunner.RouterConfig.Model.{RouterConfig}
use apm_projectrunner.RouterConfig.Equality.{listener_eq, identity_eq}
use apm_projectrunner.RouterCore.Engine.{
  RouteEngine, ApplyAck, ActivationStatus, activated, rejected_stale, Outcome, version, snapshot,
  new, apply,
}
use apm_projectrunner.RouterHost.Process.{
  ProcessError, Checked, ok, err, panic, Surroundings, display_process, display_apply,
  validate_runtime_config, readiness,
}
use apm_projectrunner.RouterHost.Observe.{
  Observability, emit, rejected, health, reload, routing_decision,
}
use apm_projectrunner.RouterHost.Control.{
  ControlState, TcpBinding, Answer, AdminCommand, validate, apply_config, current_version, routes,
  health_check, drain, counters, events, frozen?, reload_tcp, reload_transparent,
}
use apm_projectrunner.RouterHost.Report.{
  Reports, u64_value, failure, success, status_text, snapshot_identity, inspect_routes,
  counters_value, failed_checks, check_values, no_fields,
}

abbrev pub changes : ControlState → RouterConfig → Bool
changes st c =
    c.spec.listeners != st.initial_listeners
    || c.spec.identity != st.initial_identity
    || frozen? c.spec.transparent_proxy != st.initial_transparent_proxy

-- `Result<RouteEngine, String>`, or a panic.
pub data Candidate : Type 0 where
  accepted : RouteEngine → Candidate
  refused : String → Candidate
  panicked : Candidate

abbrev pub recompiled : Outcome RouteEngine → Candidate
recompiled (Outcome.ok e) = accepted e
recompiled (Outcome.err why) = refused (display_apply why)
recompiled Outcome.panic = panicked

abbrev pub once_valid : Checked (Unit {0}) → Candidate → Candidate
once_valid (ok u) next = next
once_valid (err why) next = refused (display_process why)
once_valid panic next = panicked

abbrev pub observe : ControlState → Observability → ControlState
observe st o = record st { observations = o }

-- What the command does and answers; `none` is a panic.
abbrev pub Executed : Type 0
Executed = ControlState × Option Answer

-- The state after `rejection`, and the refusal.
abbrev pub refuse : ℕ → ControlState → String → String → String → Executed
refuse now st code operation message =
    (observe st (rejected now code operation st.observations), some (failure code message))

abbrev unhealthy_fields : ℕ → ℕ → Fields → Fields
unhealthy_fields active candidate failed =
    field "activeVersion" (u64_value active)
      (field "candidateVersion" (u64_value candidate) (field "providers" (object failed) end))

abbrev pub refuse_unhealthy : ℕ → ControlState → ℕ → ℕ → Fields → Executed
refuse_unhealthy now st active candidate failed =
    let fields = unhealthy_fields active candidate failed in
    let seen = emit now health "candidate_unhealthy" fields st.observations in
    let undone = emit now reload "rolled_back" fields seen in
    (
      observe st (rejected now "provider_unhealthy" "apply" undone),
      some (record {
        ok = false;
        body = object (
            field "code" (text "provider_unhealthy") (
              field "message"
                (text
                  "candidate snapshot failed provider readiness; the previous snapshot remains active")
                (field "status" (text "rolled_back") fields)));
        drain = false;
      }),
    )

abbrev pub acknowledge : ℕ → ControlState → ApplyAck → Executed
acknowledge now st ack = (
  observe st (
      emit now reload (status_text ack.status) (field "version" (u64_value ack.version) end)
        st.observations),
  some (
      success (
        object (
          field "version" (u64_value ack.version) (
            field "checksum" (text ack.checksum)
              (field "status" (text (status_text ack.status)) end))))),
)

-- What follows the loop over the TCP listeners.
abbrev pub reloaded : ℕ → ControlState → ApplyAck → List TcpBinding × Option ProcessError → Executed
reloaded now st ack (bindings, some why) =
    refuse now (record st { tcp = bindings }) "tcp_reload_failed" "apply" (display_process why)
reloaded now st ack (bindings, none) =
    acknowledge now
      (record st {
        tcp = bindings;
        transparent_tcp =
            reload_transparent (snapshot st.engine).config.spec.transparent_proxy
              st.transparent_tcp;
      })
      ack

abbrev pub acknowledged : ℕ → ControlState → ApplyAck → ActivationStatus → Executed
acknowledged now st ack activated = reloaded now st ack (reload_tcp (snapshot st.engine) st.tcp)
acknowledged now st ack rejected_stale = acknowledge now st ack

abbrev pub applied : ℕ → ControlState → RouteEngine × Outcome ApplyAck → Executed
applied now st (engine, Outcome.ok ack) =
    acknowledged now (record st { engine = engine }) ack ack.status
applied now st (engine, Outcome.err why) =
    refuse now (record st { engine = engine }) "apply_failed" "apply" (display_apply why)
applied now st (engine, Outcome.panic) = (record st { engine = engine }, none)

abbrev pub execute_validate : ℕ → ControlState → Candidate → Executed
execute_validate now st (accepted engine) = (st, some (success (snapshot_identity engine)))
execute_validate now st (refused message) = refuse now st "invalid_configuration" "validate" message
execute_validate now st panicked = (st, none)

abbrev execute_health : ℕ → ControlState → Map String (Option String) → Executed
execute_health now st checks =
    let healthy = no_fields (failed_checks checks) in
    (
      observe st (emit now health (if healthy then "healthy" else "unhealthy") end st.observations),
      some (
          success (
            object (
              field "healthy" (bool healthy)
                (field "providers" (object (check_values checks)) end)))),
    )

module _ (checksum : RouterConfig → String) (env : Surroundings) where
  unfoldable pub validate_candidate : ControlState → RouterConfig → Candidate
  validate_candidate st c =
      if changes st c
      then refused
          "listener, identity, and transparent interception changes require a process restart"
      else once_valid (validate_runtime_config checksum env c) (recompiled (new checksum c))

  -- The checks of the providers of a candidate that would be activated.
  abbrev pub unready : ControlState → RouteEngine → Fields
  unready st candidate =
      if ltb (version (snapshot st.engine)) (version (snapshot candidate))
      then failed_checks (readiness env [] (snapshot candidate).config.spec.providers)
      else end

  abbrev pub execute_candidate : ℕ → ControlState → RouterConfig → Candidate → Executed
  execute_candidate now st c (accepted candidate) =
      if no_fields (unready st candidate)
      then applied now st (apply checksum st.engine c)
      else refuse_unhealthy now st (version (snapshot st.engine)) (version (snapshot candidate))
          (unready st candidate)
  execute_candidate now st c (refused message) =
      refuse now st "invalid_configuration" "apply" message
  execute_candidate now st c panicked = (st, none)

  unfoldable pub execute_apply : ℕ → ControlState → RouterConfig → Executed
  execute_apply now st c = execute_candidate now st c (validate_candidate st c)

  unfoldable pub execute : Reports → ℕ → ControlState → AdminCommand → Executed
  execute reports now st (validate c) = execute_validate now st (validate_candidate st c)
  execute reports now st (apply_config c) = execute_apply now st c
  execute reports now st current_version = (st, some (success (snapshot_identity st.engine)))
  execute reports now st routes = (
    observe st (emit now routing_decision "inspected" end st.observations),
    some (success (inspect_routes reports st.engine)),
  )
  execute reports now st health_check =
      execute_health now st (readiness env [] (snapshot st.engine).config.spec.providers)
  execute reports now st drain = (
    st,
    some (record { ok = true; body = object (field "status" (text "draining") end); drain = true }),
  )
  execute reports now st counters = (st, some (success (counters_value reports st)))
  execute reports now st events = (
    st,
    some (
        success (
          object (
            field "controlEvents" (reports.control_events st.observations)
              (field "httpEvents" reports.http_events end)))),
  )
