-- ===== src/RouterHost/Sync/Serve.antt =====
-- A process over the connections to its administration socket.
use apm_projectrunner.Base.{
  ℕ, String, ◌≡◌, refl, sym, ap, subst, ◌∙◌, ◌<◌, ◌⊎◌, inl, inr, Bool, true, false, List, Option,
  none, some, Bool-cases, bytes, arith,
}
use apm_projectrunner.RouterConfig.Model.{RouterConfig}
use apm_projectrunner.RouterCore.Compile.{CompiledSnapshot, compiled, compile}
use apm_projectrunner.RouterCore.Engine.{version, version_of, snapshot}
use apm_projectrunner.RouterCore.History.{installed}
use apm_projectrunner.RouterHost.Process.{Surroundings}
use apm_projectrunner.RouterHost.Observe.{
  Observability, count_connection, count_request, count_error,
}
use apm_projectrunner.RouterHost.Control.{
  ControlState, Answer, AdminCommand, validate, apply_config, current_version, routes, health_check,
  drain, counters, events,
}
use apm_projectrunner.RouterHost.Report.{Reports}
use apm_projectrunner.RouterHost.Execute
use apm_projectrunner.RouterHost.Execute.{
  Candidate, accepted, panicked, Executed, observe, execute, execute_apply, execute_validate,
  validate_candidate,
}
use apm_projectrunner.RouterHost.Admin.{
  Frame, frame, unfinished, too_large, read_frame, Request, request, malformed, constant_time_eq,
  noted, authenticated, received, serve_connection, finished, command_name,
}
use apm_projectrunner.RouterHost.Admin.Token.{constant_time_eq-equal}
use apm_projectrunner.RouterHost.Sync.{InSync}
use apm_projectrunner.RouterHost.Sync.Stopping.{Stops, never, execute-Keeps}
use apm_projectrunner.RouterHost.Sync.Effect.{
  Effect, turned_down, outdated, activated, execute_apply-Effect,
}

-- Nothing but the observations has changed.
abbrev pub Observed : ControlState → ControlState → Type 0
Observed st st' = (o : Observability) × (st' ≡ observe st o)

-- The process has been asked to stop, and nothing else but the observations has changed.
abbrev pub Stopped : ControlState → ControlState → Type 0
Stopped st st' = (o : Observability) × (st' ≡ record st { observations = o; shutdown = true })

observe-InSync : (st : ControlState) (o : Observability) → InSync st → InSync (observe st o)
observe-InSync st o i = record {
  same_listeners = i.same_listeners;
  same_transparent = i.same_transparent;
  bound = i.bound;
  routed = i.routed;
  members = i.members;
}

stop-InSync :
    (st : ControlState) (o : Observability)
    → InSync st
    → InSync (record st { observations = o; shutdown = true })
stop-InSync st o i = record {
  same_listeners = i.same_listeners;
  same_transparent = i.same_transparent;
  bound = i.bound;
  routed = i.routed;
  members = i.members;
}

Stops-map : {P Q : Type 0} → (P → Q) → (o : Option Answer) → Stops P o → Stops Q o
Stops-map f none h = tt
Stops-map f (some a) h = λ d. f (h d)

frame-inj : {bs cs : List ℕ} → frame bs ≡ frame cs → bs ≡ cs
frame-inj {bs} {cs} h = ground arith

module _ (checksum : RouterConfig → String) where
  -- The configuration is the active one, the data plane is in step with it, and the process has not
  -- been asked to stop.
  pub record Switched (st : ControlState) (c : RouterConfig) (st' : ControlState) : Type 0 where
    pub active : CompiledSnapshot
    pub compiles : compile checksum c ≡ compiled active
    pub newer : version (snapshot st.engine) < version_of c
    pub installs : st'.engine ≡ installed checksum st.engine active
    pub in_sync : InSync st'
    pub stays : st'.shutdown ≡ st.shutdown

  abbrev pub Moves : ControlState → AdminCommand → ControlState → Type 0
  Moves st command st' =
      Observed st st' ⊎ ((c : RouterConfig) × (command ≡ apply_config c) × Switched st c st')

  Switched-later :
      (st st' : ControlState) (c : RouterConfig) (o : Observability)
      → Switched st c st'
      → Switched st c (observe st' o)
  Switched-later st st' c o s = record {
    active = s.active;
    compiles = s.compiles;
    newer = s.newer;
    installs = s.installs;
    in_sync = observe-InSync st' o s.in_sync;
    stays = s.stays;
  }

  Switched-earlier :
      (st st' : ControlState) (c : RouterConfig) (o : Observability)
      → Switched (observe st o) c st'
      → Switched st c st'
  Switched-earlier st st' c o s = record {
    active = s.active;
    compiles = s.compiles;
    newer = s.newer;
    installs = s.installs;
    in_sync = s.in_sync;
    stays = s.stays;
  }

  Moves-later :
      (st st' : ControlState) (command : AdminCommand) (o : Observability)
      → Moves st command st'
      → Moves st command (observe st' o)
  Moves-later st st' command o (inl (o', e)) = inl (o, ap (λ x. observe x o) e)
  Moves-later st st' command o (inr (c, e, s)) = inr (c, e, Switched-later st st' c o s)

  Effect-Moves :
      {env : Surroundings} {st : ControlState} {c : RouterConfig} {r : Executed}
      → Effect checksum env st c r
      → r.0.shutdown ≡ st.shutdown
      → Moves st (apply_config c) r.0
  Effect-Moves (turned_down o a h) k = inl (o, refl)
  Effect-Moves (outdated o a h old) k = inl (o, refl)
  Effect-Moves {c} (activated st' a s h newer e i good) k = inr (
    c,
    refl,
    record { active = s; compiles = h; newer = newer; installs = e; in_sync = i; stays = k },
  )

  validate-Moves :
      (now : ℕ) (st : ControlState) (r : Candidate) → Observed st (execute_validate now st r).0
  validate-Moves now st (accepted e) = (st.observations, refl)
  validate-Moves now st (Execute.refused why) = (_, refl)
  validate-Moves now st panicked = (st.observations, refl)

  module _ (env : Surroundings) where
    execute-Moves :
        (reports : Reports) (now : ℕ) (st : ControlState) (command : AdminCommand)
        → InSync st
        → Moves st command (execute checksum env reports now st command).0
    unfolding execute
    execute-Moves reports now st (validate c) i = inl (validate-Moves now st _)
    execute-Moves reports now st (apply_config c) i =
        Effect-Moves (execute_apply-Effect checksum env now st c i)
          (execute-Keeps checksum env reports now st (apply_config c)).0
    execute-Moves reports now st current_version i = inl (st.observations, refl)
    execute-Moves reports now st routes i = inl (_, refl)
    execute-Moves reports now st health_check i = inl (_, refl)
    execute-Moves reports now st drain i = inl (st.observations, refl)
    execute-Moves reports now st counters i = inl (st.observations, refl)
    execute-Moves reports now st events i = inl (st.observations, refl)

    noted-Moves :
        (now : ℕ) (operation : String) (st : ControlState) (command : AdminCommand) (r : Executed)
        → Moves st command r.0
        → Moves st command (noted now operation r).0
    noted-Moves now operation st command (st', none) h = h
    noted-Moves now operation st command (st', some a) h = Moves-later st st' command _ h

    noted-Stops :
        (P : Type 0) (now : ℕ) (operation : String) (r : Executed)
        → Stops P r.1
        → Stops P (noted now operation r).1
    noted-Stops P now operation (st, none) h = tt
    noted-Stops P now operation (st, some a) h = h

    module _ (from_slice : List ℕ → Request) (reports : Reports) (now : ℕ)
        (expected_token : String) where
      -- The peer sent a request with the token and the command.
      pub record Asked (input : List ℕ) (command : AdminCommand) : Type 0 where
        pub bs : List ℕ
        pub token : String
        pub framed : read_frame input ≡ frame bs
        pub decodes : from_slice bs ≡ request token command
        pub trusted : bytes token ≡ bytes expected_token

      abbrev Switches : List ℕ → ControlState → ControlState → Type 0
      Switches input st st' = (c : RouterConfig) × Asked input (apply_config c) × Switched st c st'

      -- What a connection may do.
      abbrev pub Serves : List ℕ → ControlState → ControlState → Type 0
      Serves input st st' =
          Observed st st' ⊎ ((Asked input drain × Stopped st st') ⊎ Switches input st st')

      -- What is done before the answer is written, and what the answer may ask for.
      abbrev Handled : List ℕ → ControlState → Executed → Type 0
      Handled input st r = (Observed st r.0 ⊎ Switches input st r.0) × Stops (Asked input drain) r.1

      command-inj :
          (t u : String) (c : RouterConfig) → request t drain ≡ request u (apply_config c) → ⊥
      command-inj t u c h = absurd (ground arith)

      drain-or-apply :
          (input : List ℕ) (c : RouterConfig) → Asked input drain → Asked input (apply_config c) → ⊥
      drain-or-apply input c d a =
          let same : d.bs ≡ a.bs = frame-inj (sym d.framed ∙ a.framed) in
          command-inj d.token a.token c (sym d.decodes ∙ (ap from_slice same ∙ a.decodes))

      Handled-earlier :
          (input : List ℕ) (st : ControlState) (o : Observability) (r : Executed)
          → Handled input (observe st o) r
          → Handled input st r
      Handled-earlier input st o r (inl h, k) = (inl h, k)
      Handled-earlier input st o r (inr (c, asked, s), k) =
          (inr (c, asked, Switched-earlier st r.0 c o s), k)

      authenticated-Handled :
          (input bs : List ℕ) (st : ControlState) (r : Request)
          → read_frame input ≡ frame bs
          → from_slice bs ≡ r
          → InSync st
          → Handled input st (authenticated checksum env from_slice reports now expected_token st r)
      authenticated-Handled input bs st (malformed why) f d i = (inl (_, refl), never)
      authenticated-Handled input bs st (request token command) f d i =
          elim (Bool-cases (constant_time_eq (bytes token) (bytes expected_token))) [
            | inr differs ↦ rw differs (inl (_, refl), never)
            | inl same ↦
                let trusted =
                  (constant_time_eq-equal (bytes token) (bytes expected_token)).0 same in
                let asked : (c : AdminCommand) → command ≡ c → Asked input c = λ c e. record {
                  bs = bs;
                  token = token;
                  framed = f;
                  decodes = d ∙ ap (request token) e;
                  trusted = trusted;
                } in
                let r = execute checksum env reports now st command in
                let moves =
                  noted-Moves now (command_name command) st command r
                    (execute-Moves reports now st command i) in
                let stops = noted-Stops _ now (command_name command) r (
                  Stops-map (asked drain) r.1
                    (execute-Keeps checksum env reports now st command).1) in
                rw same
                  (elim moves [ inl o ↦ inl o | inr (c, e, s) ↦ inr (c, asked _ e, s) ], stops)
          ]

      received-Handled :
          (input : List ℕ) (st : ControlState) (f : Frame)
          → read_frame input ≡ f
          → InSync st
          → Handled input st (received checksum env from_slice reports now expected_token st f)
      received-Handled input st (frame bs) h i = Handled-earlier input st _ _ (
          authenticated-Handled input bs (observe st (count_request st.observations)) _ h refl
            (observe-InSync st _ i))
      received-Handled input st unfinished h i = (inl (_, refl), never)
      received-Handled input st too_large h i = (inl (_, refl), never)

      finished-Serves :
          (input : List ℕ) (st : ControlState) (written : Bool) (r : Executed)
          → Handled input st r
          → Serves input st (finished checksum env from_slice written r).0
      finished-Serves input st written (st', none) (inl o, k) = inl o
      finished-Serves input st written (st', none) (inr s, k) = inr (inr s)
      finished-Serves input st false (st', some a) (inl (o, e), k) =
          inl (_, ap (λ x. observe x (count_error st'.observations)) e)
      finished-Serves input st false (st', some a) (inr (c, asked, s), k) =
          inr (inr (c, asked, Switched-later st st' c _ s))
      finished-Serves input st true (st', some a) (h, k) = elim (Bool-cases a.drain) [
        | inl drains ↦ rw drains (stop st' h (k drains))
        | inr stays ↦ rw stays (elim h [ inl o ↦ inl o | inr s ↦ inr (inr s) ])
      ]
        where
          stop :
              (st' : ControlState)
              → Observed st st' ⊎ Switches input st st'
              → Asked input drain
              → Serves input st (record st' { shutdown = true })
          stop st' (inl (o, e)) asked =
              inr (inl (asked, (o, ap (λ (x : ControlState). record x { shutdown = true }) e)))
          stop st' (inr (c, applies, s)) asked = absurd (drain-or-apply input c asked applies)

      -- A connection to the administration socket of a process whose data plane is in step with its
      -- engine, whatever bytes the peer sends: nothing changes but what is observed; or the peer sent
      -- a frame with the bytes of the token and a drain, and the process is asked to stop, with
      -- nothing else changed but what is observed; or the peer sent a frame with the bytes of the
      -- token and an apply of a configuration, which is newer, compiles, and is now the active one,
      -- with the data plane in step with it and the request to stop as it was.
      pub serve_connection-Serves :
          (st : ControlState) (input : List ℕ) (written : Bool)
          → InSync st
          → Serves input st
              (serve_connection checksum env from_slice reports now expected_token st input
                written).0
      unfolding serve_connection
      serve_connection-Serves st input written i = finished-Serves input st written _ (
          Handled-earlier input st _ _ (
            received-Handled input (observe st (count_connection st.observations))
              (read_frame input) refl (observe-InSync st _ i)))

      pub Serves-InSync :
          (input : List ℕ) (st st' : ControlState) → InSync st → Serves input st st' → InSync st'
      Serves-InSync input st st' i (inl (o, e)) = subst InSync (sym e) (observe-InSync st o i)
      Serves-InSync input st st' i (inr (inl (asked, (o, e)))) =
          subst InSync (sym e) (stop-InSync st o i)
      Serves-InSync input st st' i (inr (inr (c, asked, s))) = s.in_sync
