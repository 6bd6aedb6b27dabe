-- ===== src/RouterHost/Sync/Stopping.antt =====
-- Which command asks a process to stop: `execute` leaves the request to stop as it is, and answers
-- with it only to `drain`.
use apm_projectrunner.Base.{
  ℕ, ◌≡◌, refl, Bool, true, false, List, Option, none, some, if◌then◌else◌, arith, String,
}
use apm_projectrunner.RouterConfig.Model.{RouterConfig}
use apm_projectrunner.RouterCore.Engine.{
  RouteEngine, ApplyAck, ActivationStatus, activated, rejected_stale, Outcome, snapshot, apply,
}
use apm_projectrunner.RouterHost.Process.{ProcessError, Surroundings}
use apm_projectrunner.RouterHost.Control.{
  ControlState, TcpBinding, Answer, AdminCommand, validate, apply_config, current_version, routes,
  health_check, drain, counters, events, reload_tcp,
}
use apm_projectrunner.RouterHost.Report.{Reports, no_fields}
use apm_projectrunner.RouterHost.Execute
use apm_projectrunner.RouterHost.Execute.{
  Candidate, accepted, panicked, Executed, execute, execute_apply, execute_validate,
  execute_candidate, validate_candidate, acknowledged, applied, reloaded, unready,
}

-- An answer that stops the process only where `P` holds.
abbrev pub Stops : Type 0 → Option Answer → Type 0
Stops P none = Unit
Stops P (some a) = a.drain ≡ true → P

abbrev pub Keeps : Bool → Type 0 → Executed → Type 0
Keeps stopped P r = (r.0.shutdown ≡ stopped) × Stops P r.1

-- No answer of the kind stops the process.
pub never : {P : Type 0} → false ≡ true → P
never h = absurd (ground arith)

module _ (P : Type 0) where
  Keeps-if :
      {stopped : Bool} (b : Bool) (x y : Executed)
      → Keeps stopped P x
      → Keeps stopped P y
      → Keeps stopped P (if b then x else y)
  Keeps-if true x y h k = h
  Keeps-if false x y h k = k

  reloaded-Keeps :
      (now : ℕ) (st : ControlState) (ack : ApplyAck) (r : List TcpBinding × Option ProcessError)
      → Keeps st.shutdown P (reloaded now st ack r)
  reloaded-Keeps now st ack (bindings, none) = (refl, never)
  reloaded-Keeps now st ack (bindings, some why) = (refl, never)

  acknowledged-Keeps :
      (now : ℕ) (st : ControlState) (ack : ApplyAck) (status : ActivationStatus)
      → Keeps st.shutdown P (acknowledged now st ack status)
  acknowledged-Keeps now st ack activated =
      reloaded-Keeps now st ack (reload_tcp (snapshot st.engine) st.tcp)
  acknowledged-Keeps now st ack rejected_stale = (refl, never)

  applied-Keeps :
      (now : ℕ) (st : ControlState) (r : RouteEngine × Outcome ApplyAck)
      → Keeps st.shutdown P (applied now st r)
  applied-Keeps now st (engine, Outcome.ok ack) =
      acknowledged-Keeps now (record st { engine = engine }) ack ack.status
  applied-Keeps now st (engine, Outcome.err why) = (refl, never)
  applied-Keeps now st (engine, Outcome.panic) = (refl, tt)

  validate-Keeps :
      (now : ℕ) (st : ControlState) (r : Candidate)
      → Keeps st.shutdown P (execute_validate now st r)
  validate-Keeps now st (accepted engine) = (refl, never)
  validate-Keeps now st (Execute.refused why) = (refl, never)
  validate-Keeps now st panicked = (refl, tt)

module _ (checksum : RouterConfig → String) (env : Surroundings) where
  candidate-Keeps :
      (P : Type 0) (now : ℕ) (st : ControlState) (c : RouterConfig) (r : Candidate)
      → Keeps st.shutdown P (execute_candidate checksum env now st c r)
  candidate-Keeps P now st c (accepted candidate) =
      Keeps-if P (no_fields (unready checksum env st candidate)) _ _
        (applied-Keeps P now st (apply checksum st.engine c)) (refl, never)
  candidate-Keeps P now st c (Execute.refused why) = (refl, never)
  candidate-Keeps P now st c panicked = (refl, tt)

  pub execute-Keeps :
      (reports : Reports) (now : ℕ) (st : ControlState) (command : AdminCommand)
      → Keeps st.shutdown (command ≡ drain) (execute checksum env reports now st command)
  unfolding execute execute_apply
  execute-Keeps reports now st (validate c) = validate-Keeps _ now st _
  execute-Keeps reports now st (apply_config c) =
      candidate-Keeps _ now st c (validate_candidate checksum env st c)
  execute-Keeps reports now st current_version = (refl, never)
  execute-Keeps reports now st routes = (refl, never)
  execute-Keeps reports now st health_check = (refl, never)
  execute-Keeps reports now st drain = (refl, λ h. refl)
  execute-Keeps reports now st counters = (refl, never)
  execute-Keeps reports now st events = (refl, never)
