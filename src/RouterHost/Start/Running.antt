-- ===== src/RouterHost/Start/Running.antt =====
-- A process from its start on.
use apm_projectrunner.Base.{
  ℕ, String, ◌≡◌, refl, sym, ap, subst, inl, inr, Bool, List, [], ◌∷◌, Option, none, some, filter,
  is_empty, codes, All, arith, Bool-cases,
}
use apm_projectrunner.RouterConfig.Model.{RouterConfig, Listener, TransparentProxy}
use apm_projectrunner.RouterCore.Compile.{CompiledSnapshot, compiled, compile}
use apm_projectrunner.RouterCore.Engine.{RouteEngine, snapshot, new}
use apm_projectrunner.RouterCore.History.{compiled-config}
use apm_projectrunner.RouterTcp.Transparent.{TransparentTarget}
use apm_projectrunner.RouterHost.Process.{
  ok, ◌>>=◌, bind-eq-ok, Surroundings, engine_checked, http_checked, http_error, serves_http,
  validate_runtime_config, tcp_target, is_tcp, transparent_targets,
}
use apm_projectrunner.RouterHost.Control.{ControlState, TcpBinding, frozen?}
use apm_projectrunner.RouterHost.Report.{Reports}
use apm_projectrunner.RouterHost.Admin.{Request, serve_connection}
use apm_projectrunner.RouterHost.Sync.{InSync, Routed, listeners_of, targets?, engine_checked_lem}
use apm_projectrunner.RouterHost.Sync.Effect.{new-compile}
use apm_projectrunner.RouterHost.Sync.Serve.{serve_connection-Serves, Serves-InSync}
use apm_projectrunner.RouterHost.Start.{
  Sockets, opened, forward_all, forwards, spawned, fresh, bind_all, bind_transparents, started,
  start, assembled,
}

bind_all_lem :
    (sockets : Sockets) (s : CompiledSnapshot) (ls : List Listener) (bs : List TcpBinding)
    → bind_all sockets s ls ≡ ok bs
    → (listeners_of bs ≡ ls) × Routed s bs
unfolding bind_all
bind_all_lem sockets s [] bs h = let e : [] ≡ bs = ground arith in rw (← e) (refl, tt)
bind_all_lem sockets s (l ∷ ls) bs h =
    let (target, t, rest) = bind-eq-ok (tcp_target s l) _ h in
    let (u, o, rest') = bind-eq-ok (opened (sockets.bind_tcp l)) _ rest in
    let (bs', b, last) = bind-eq-ok (bind_all sockets s ls) _ rest' in
    let (kept, routed) = bind_all_lem sockets s ls bs' b in
    let e : fresh l target ∷ bs' ≡ bs = ground arith in
    subst (λ x. (listeners_of x ≡ l ∷ ls) × Routed s x) e (ap (λ x. l ∷ x) kept, (t, routed))

transparents_lem :
    (sockets : Sockets) (p : Option TransparentProxy) (ts : List (List TransparentTarget))
    → bind_transparents sockets p ≡ ok ts
    → All (λ t. targets? p ≡ some t) ts
transparents_lem sockets none ts h = let e : [] ≡ ts = ground arith in rw (← e) tt
transparents_lem sockets (some proxy) ts h =
    let (u, o, last) = bind-eq-ok (opened (sockets.bind_transparent proxy)) _ h in
    let e : transparent_targets proxy ∷ transparent_targets proxy ∷ [] ≡ ts = ground arith in
    subst (λ x. All (λ t. targets? (some proxy) ≡ some t) x) e (refl, (refl, tt))

module _ (checksum : RouterConfig → String) (env : Surroundings) where
  started-InSync :
      (sockets : Sockets) (c : RouterConfig) (engine : RouteEngine) (st : ControlState)
      → compile checksum c ≡ compiled (snapshot engine)
      → started checksum env sockets c engine ≡ ok st
      → InSync st
  started-InSync sockets c engine st k h =
      let listeners = filter serves_http c.spec.listeners in
      let (u, e, h1) = bind-eq-ok (http_checked (http_error env listeners)) _ h in
      let (u, e, h2) = bind-eq-ok (spawned sockets listeners) _ h1 in
      let (u, e, h3) = bind-eq-ok (forward_all sockets (filter forwards c.spec.listeners)) _ h2 in
      let (bs, b, h4) =
        bind-eq-ok (bind_all sockets (snapshot engine) (filter is_tcp c.spec.listeners)) _ h3 in
      let (ts, t, h5) = bind-eq-ok (bind_transparents sockets c.spec.transparent_proxy) _ h4 in
      let (u, e, h6) = bind-eq-ok (opened sockets.bind_admin) _ h5 in
      let (kept, routed) = bind_all_lem sockets (snapshot engine) _ bs b in
      let config = compiled-config checksum c (snapshot engine) k in
      let e : assembled c engine bs ts ≡ st = ground arith in
      subst InSync e (record {
        same_listeners = ap (λ d. d.spec.listeners) config;
        same_transparent = ap (λ d. frozen? d.spec.transparent_proxy) config;
        bound = kept;
        routed = routed;
        members =
            subst (λ d. All (λ t. targets? d.spec.transparent_proxy ≡ some t) ts) (sym config)
              (transparents_lem sockets c.spec.transparent_proxy ts t);
      })

  pub start-InSync :
      (sockets : Sockets) (token : String) (c : RouterConfig) (st : ControlState)
      → start checksum env sockets token c ≡ ok st
      → InSync st
  unfolding start
  start-InSync sockets token c st h = elim (Bool-cases (is_empty (codes token))) [
    | inl empty ↦ absurd (ground arith)
    | inr there ↦
        let chain : (validate_runtime_config checksum env c >>= λ u.
        engine_checked (new checksum c) >>= started checksum env sockets c)
            ≡ ok st =
          ground arith in
        let (u, v, rest) = bind-eq-ok (validate_runtime_config checksum env c) _ chain in
        let (engine, built, last) = bind-eq-ok (engine_checked (new checksum c)) _ rest in
        started-InSync sockets c engine st
          (new-compile checksum env c engine (engine_checked_lem (new checksum c) engine built))
          last
  ]

module _ (checksum : RouterConfig → String) (from_slice : List ℕ → Request)
    (expected_token : String) where
  -- A connection: the credential files and the health of the providers as they are then, when it is
  -- answered, what the data planes report, what the peer sends, and whether it takes the answer.
  abbrev pub Connection : Type 0
  Connection = Surroundings × (ℕ × (Reports × (List ℕ × Bool)))

  unfoldable pub serve_all : ControlState → List Connection → ControlState
  serve_all st [] = st
  serve_all st ((env, (now, (reports, (input, written)))) ∷ later) =
      serve_all
        (serve_connection checksum env from_slice reports now expected_token st input written).0
        later

  serve_all-InSync :
      (connections : List Connection) (st : ControlState)
      → InSync st
      → InSync (serve_all st connections)
  unfolding serve_all
  serve_all-InSync [] st i = i
  serve_all-InSync ((env, (now, (reports, (input, written)))) ∷ later) st i =
      serve_all-InSync later _ (
        Serves-InSync checksum env from_slice reports now expected_token input st _ i (
          serve_connection-Serves checksum env from_slice reports now expected_token st input
            written i))

  -- From its start on, through any connections to its administration socket, each of which finds
  -- credential files and providers of its own, a process has its data plane in step with its engine:
  -- each TCP listener that the configuration declares is joined to the target that the active
  -- snapshot gives it, each transparent proxy to the members of the active configuration, and the
  -- listeners are those that it started with.
  pub start-serve_all :
      (env : Surroundings) (sockets : Sockets) (token : String) (c : RouterConfig)
      (st : ControlState) (connections : List Connection)
      → start checksum env sockets token c ≡ ok st
      → InSync (serve_all st connections)
  start-serve_all env sockets token c st connections h =
      serve_all-InSync connections st (start-InSync checksum env sockets token c st h)
