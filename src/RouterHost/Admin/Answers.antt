-- ===== src/RouterHost/Admin/Answers.antt =====
-- The form of what a process answers, on every path of `run_admin` and `execute`.
use apm_projectrunner.Base.{
  ℕ, String, ◌≡◌, refl, Bool, true, false, List, Option, none, some, if◌then◌else◌,
}
use apm_projectrunner.Base.Json.{text, object, Fields, field}
use apm_projectrunner.RouterConfig.Model.{RouterConfig}
use apm_projectrunner.RouterCore.Engine.{
  RouteEngine, ApplyAck, ActivationStatus, activated, rejected_stale, Outcome, snapshot, apply,
}
use apm_projectrunner.RouterHost.Process.{ProcessError, Surroundings}
use apm_projectrunner.RouterHost.Control.{
  ControlState, TcpBinding, Answer, AdminCommand, validate, apply_config, current_version, routes,
  health_check, drain, counters, events, reload_tcp,
}
use apm_projectrunner.RouterHost.Report.{Reports, no_fields}
use apm_projectrunner.RouterHost.Execute
use apm_projectrunner.RouterHost.Execute.{
  Candidate, accepted, panicked, Executed, execute, execute_apply, execute_validate,
  execute_candidate, validate_candidate, acknowledged, applied, reloaded, unready,
}
use apm_projectrunner.RouterHost.Admin.{
  Frame, frame, unfinished, too_large, read_frame, Request, request, malformed, constant_time_eq,
  command_name, noted, authenticated, received, finished, serve_connection,
}

-- A success, or a failure whose body holds a code and a message.
pub data IsAnswer (a : Answer) : Type 0 where
  success : a.ok ≡ true → IsAnswer a
  failure :
      {code message : String} {details : Fields}
      → a.ok ≡ false
      → a.body ≡ object (field "code" (text code) (field "message" (text message) details))
      → IsAnswer a

abbrev pub IsGiven : Option Answer → Type 0
IsGiven none = Unit
IsGiven (some a) = IsAnswer a

abbrev pub Answered : Executed → Type 0
Answered r = IsGiven r.1

Answered-if : (b : Bool) (x y : Executed) → Answered x → Answered y → Answered (if b then x else y)
Answered-if true x y h k = h
Answered-if false x y h k = k

reloaded-Answered :
    (now : ℕ) (st : ControlState) (ack : ApplyAck) (r : List TcpBinding × Option ProcessError)
    → Answered (reloaded now st ack r)
reloaded-Answered now st ack (bindings, none) = IsAnswer.success refl
reloaded-Answered now st ack (bindings, some why) = IsAnswer.failure refl refl

acknowledged-Answered :
    (now : ℕ) (st : ControlState) (ack : ApplyAck) (status : ActivationStatus)
    → Answered (acknowledged now st ack status)
acknowledged-Answered now st ack activated =
    reloaded-Answered now st ack (reload_tcp (snapshot st.engine) st.tcp)
acknowledged-Answered now st ack rejected_stale = IsAnswer.success refl

applied-Answered :
    (now : ℕ) (st : ControlState) (r : RouteEngine × Outcome ApplyAck) → Answered (applied now st r)
applied-Answered now st (engine, Outcome.err why) = IsAnswer.failure refl refl
applied-Answered now st (engine, Outcome.panic) = tt
applied-Answered now st (engine, Outcome.ok ack) =
    acknowledged-Answered now (record st { engine = engine }) ack ack.status

validate-Answered :
    (now : ℕ) (st : ControlState) (r : Candidate) → Answered (execute_validate now st r)
validate-Answered now st (accepted engine) = IsAnswer.success refl
validate-Answered now st (Execute.refused why) = IsAnswer.failure refl refl
validate-Answered now st panicked = tt

noted-Answered :
    (now : ℕ) (operation : String) (r : Executed) → Answered r → Answered (noted now operation r)
noted-Answered now operation (st, none) h = tt
noted-Answered now operation (st, some a) h = h

module _ (checksum : RouterConfig → String) (env : Surroundings) where
  candidate-Answered :
      (now : ℕ) (st : ControlState) (c : RouterConfig) (r : Candidate)
      → Answered (execute_candidate checksum env now st c r)
  candidate-Answered now st c (accepted candidate) =
      Answered-if (no_fields (unready checksum env st candidate)) _ _
        (applied-Answered now st (apply checksum st.engine c)) (IsAnswer.failure refl refl)
  candidate-Answered now st c (Execute.refused why) = IsAnswer.failure refl refl
  candidate-Answered now st c panicked = tt

  execute-Answered :
      (reports : Reports) (now : ℕ) (st : ControlState) (command : AdminCommand)
      → Answered (execute checksum env reports now st command)
  unfolding execute execute_apply
  execute-Answered reports now st (validate c) = validate-Answered now st _
  execute-Answered reports now st (apply_config c) =
      candidate-Answered now st c (validate_candidate checksum env st c)
  execute-Answered reports now st current_version = IsAnswer.success refl
  execute-Answered reports now st routes = IsAnswer.success refl
  execute-Answered reports now st health_check = IsAnswer.success refl
  execute-Answered reports now st drain = IsAnswer.success refl
  execute-Answered reports now st counters = IsAnswer.success refl
  execute-Answered reports now st events = IsAnswer.success refl

  module _ (from_slice : List ℕ → Request) (reports : Reports) (now : ℕ)
      (expected_token : String) where
    authenticated-Answered :
        (st : ControlState) (r : Request)
        → Answered (authenticated checksum env from_slice reports now expected_token st r)
    authenticated-Answered st (malformed why) = IsAnswer.failure refl refl
    authenticated-Answered st (request token command) =
        Answered-if (constant_time_eq _ _) _ _
          (noted-Answered now (command_name command) _ (execute-Answered reports now st command))
          (IsAnswer.failure refl refl)

    received-Answered :
        (st : ControlState) (f : Frame)
        → Answered (received checksum env from_slice reports now expected_token st f)
    received-Answered st (frame bs) = authenticated-Answered _ (from_slice bs)
    received-Answered st unfinished = IsAnswer.failure refl refl
    received-Answered st too_large = IsAnswer.failure refl refl

    finished-Answered :
        (written : Bool) (r : Executed)
        → Answered r
        → Answered (finished checksum env from_slice written r)
    finished-Answered written (st, none) h = tt
    finished-Answered false (st, some a) h = tt
    finished-Answered true (st, some a) h = Answered-if a.drain _ _ h h

    -- What a peer receives is a success, or a failure whose body holds a code and a message.
    pub serve_connection-Answered :
        (st : ControlState) (input : List ℕ) (written : Bool)
        → Answered
            (serve_connection checksum env from_slice reports now expected_token st input written)
    unfolding serve_connection
    serve_connection-Answered st input written =
        finished-Answered written _ (received-Answered _ (read_frame input))
