-- ===== src/RouterHost/Control.antt =====
-- `ControlState` and `execute`: what an administration command does to the process.
use apm_projectrunner.Base.{
  ℕ, String, Bool, List, [], ◌∷◌, ◌++◌, Option, none, some, map, nat_eq, string_eq, pair_eq,
  option_eq, list_eq,
}
use apm_projectrunner.Base.Json.{Value}
use apm_projectrunner.RouterConfig.Model.{
  RouterConfig, Protocol, Listener, IdentityPolicy, TransparentProxy,
}
use apm_projectrunner.RouterConfig.Equality.{listener_eq, identity_eq}
use apm_projectrunner.RouterCore.Compile.{CompiledSnapshot}
use apm_projectrunner.RouterCore.Lookup.{transition}
use apm_projectrunner.RouterCore.Engine.{RouteEngine}
use apm_projectrunner.RouterTcp.Transparent.{TransparentTarget}
use apm_projectrunner.RouterHost.Process.{
  ProcessError, ok, err, panic, TcpTarget, tcp_target, TransitionPolicy, transition_policy,
  transparent_targets,
}
use apm_projectrunner.RouterHost.Observe.{Observability}

-- A proxy: its target, the open connections that wait for a transition, and the policies that
-- connections have been told. A sender whose connection has ended is not among those that wait.
pub record TcpProxy : Type 0 where
  pub target : TcpTarget
  pub waiting : List ℕ
  pub told : List (ℕ × TransitionPolicy)

pub record TcpBinding : Type 0 where
  pub listener : Listener
  pub proxy : TcpProxy

pub record ControlState : Type 0 where
  pub engine : RouteEngine
  pub initial_listeners : List Listener
  pub initial_identity : IdentityPolicy
  pub initial_transparent_proxy : Option (String × (ℕ × ℕ))
  pub tcp : List TcpBinding
  pub transparent_tcp : List (List TransparentTarget)
  pub observations : Observability
  pub shutdown : Bool

pub data AdminCommand : Type 0 where
  validate : RouterConfig → AdminCommand
  apply_config : RouterConfig → AdminCommand
  current_version routes health_check drain counters events : AdminCommand

-- The answer to a command: `ok` or not, its body, and whether the process drains.
pub record Answer : Type 0 where
  pub ok : Bool
  pub body : Value
  pub drain : Bool

abbrev pub frozen : TransparentProxy → String × (ℕ × ℕ)
frozen proxy = (proxy.consumer, (proxy.port, proxy.connect_timeout_ms))

abbrev pub frozen? : Option TransparentProxy → Option (String × (ℕ × ℕ))
frozen? none = none
frozen? (some proxy) = some (frozen proxy)

-- `TcpProxy::reload`.
abbrev pub reload_proxy : TcpTarget → TransitionPolicy → TcpProxy → TcpProxy
reload_proxy target policy p = record {
  target = target;
  waiting = [];
  told = p.told ++ map (λ c. (c, policy)) p.waiting;
}

abbrev retarget : TransitionPolicy → TcpBinding → TcpTarget → TcpBinding
retarget policy b target = record b { proxy = reload_proxy target policy b.proxy }

abbrev first_reloaded :
    TcpBinding → List TcpBinding × Option ProcessError → List TcpBinding × Option ProcessError
first_reloaded b (bs, e) = (b ∷ bs, e)

-- The loop over `state.tcp`, which ends at the first listener without a target. The lookups of
-- `tcp_target` do not panic.
unfoldable pub reload_tcp :
    CompiledSnapshot → List TcpBinding → List TcpBinding × Option ProcessError
reload_tcp s [] = ([], none)
reload_tcp s (b ∷ bs) =
    let later = reload_tcp s bs in
    elim (tcp_target s b.listener) [
      | err why ↦ (b ∷ bs, some why)
      | panic ↦ (b ∷ bs, none)
      | ok target ↦
          first_reloaded (retarget (transition_policy (transition s Protocol.tcp)) b target) later
    ]

abbrev pub reload_transparent :
    Option TransparentProxy → List (List TransparentTarget) → List (List TransparentTarget)
reload_transparent none proxies = proxies
reload_transparent (some proxy) proxies = map (λ old. transparent_targets proxy) proxies
