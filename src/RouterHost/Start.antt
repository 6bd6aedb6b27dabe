-- ===== src/RouterHost/Start.antt =====
-- `RouterProcess::start`.
pub mod Running
use apm_projectrunner.Base.{
  ℕ, String, ◌≡◌, refl, sym, ap, subst, ◌∙◌, ◌≢◌, Bool, true, false, List, [], ◌∷◌, Option, none,
  some, map, filter, is_empty, is_some, codes, All, arith, if◌then◌else◌, Bool-cases,
}
use apm_projectrunner.RouterConfig.Model.{RouterConfig, Listener, TransparentProxy}
use apm_projectrunner.RouterCore.Compile.{CompiledSnapshot}
use apm_projectrunner.RouterCore.Engine.{RouteEngine, Outcome, snapshot, new}
use apm_projectrunner.RouterHost.Process.{
  ProcessError, configuration, BuildError, Checked, ok, err, panic, ◌>>=◌, Surroundings,
  engine_checked, http_checked, http_error, serves_http, validate_runtime_config, tcp_target,
  TcpTarget, is_tcp, transparent_targets,
}
use apm_projectrunner.RouterTcp.Transparent.{TransparentTarget}
use apm_projectrunner.RouterHost.Observe.{unobserved}
use apm_projectrunner.RouterHost.Control.{
  ControlState, TcpBinding, TcpProxy, AdminCommand, Answer, frozen?,
}

-- What the operating system answers to the calls that open sockets.
pub record Sockets : Type 0 where
  pub spawn : Option BuildError
  pub bind_forward : Listener → Option ProcessError
  pub bind_tcp : Listener → Option ProcessError
  pub bind_transparent : TransparentProxy → Option ProcessError
  pub bind_admin : Option ProcessError

abbrev pub opened : Option ProcessError → Checked (Unit {0})
opened none = ok tt
opened (some why) = err why

abbrev pub forward_all : Sockets → List Listener → Checked (Unit {0})
forward_all sockets [] = ok tt
forward_all sockets (l ∷ ls) = opened (sockets.bind_forward l) >>= λ u. forward_all sockets ls

abbrev pub fresh : Listener → TcpTarget → TcpBinding
fresh l target = record {
  listener = l;
  proxy = record { target = target; waiting = []; told = [] };
}

unfoldable pub bind_all : Sockets → CompiledSnapshot → List Listener → Checked (List TcpBinding)
bind_all sockets s [] = ok []
bind_all sockets s (l ∷ ls) = do
  target ← tcp_target s l
  _ ← opened (sockets.bind_tcp l)
  bindings ← bind_all sockets s ls
  ok (fresh l target ∷ bindings)

-- One proxy for each address family.
abbrev pub bind_transparents :
    Sockets → Option TransparentProxy → Checked (List (List TransparentTarget))
bind_transparents sockets none = ok []
bind_transparents sockets (some proxy) = opened (sockets.bind_transparent proxy) >>= λ u.
    ok (transparent_targets proxy ∷ transparent_targets proxy ∷ [])

abbrev pub spawned : Sockets → List Listener → Checked (Unit {0})
spawned sockets [] = ok tt
spawned sockets (l ∷ ls) = http_checked sockets.spawn

abbrev pub forwards : Listener → Bool
forwards l = is_some l.proxy_identity

abbrev pub assembled :
    RouterConfig → RouteEngine → List TcpBinding → List (List TransparentTarget) → ControlState
assembled c engine tcp transparent_tcp = record {
  engine = engine;
  initial_listeners = c.spec.listeners;
  initial_identity = c.spec.identity;
  initial_transparent_proxy = frozen? c.spec.transparent_proxy;
  tcp = tcp;
  transparent_tcp = transparent_tcp;
  observations = unobserved;
  shutdown = false;
}

module _ (checksum : RouterConfig → String) (env : Surroundings) where
  abbrev pub started : Sockets → RouterConfig → RouteEngine → Checked ControlState
  started sockets c engine = do
    let listeners = filter serves_http c.spec.listeners
    _ ← http_checked (http_error env listeners)
    _ ← spawned sockets listeners
    _ ← forward_all sockets (filter forwards c.spec.listeners)
    tcp ← bind_all sockets (snapshot engine) (filter is_tcp c.spec.listeners)
    transparent_tcp ← bind_transparents sockets c.spec.transparent_proxy
    _ ← opened sockets.bind_admin
    ok (assembled c engine tcp transparent_tcp)

  unfoldable pub start : Sockets → String → RouterConfig → Checked ControlState
  start sockets token c =
      if is_empty (codes token)
      then err (configuration "administration token must not be empty")
      else validate_runtime_config checksum env c >>= λ u.
          engine_checked (new checksum c) >>= started sockets c
