-- ===== src/RouterHost/Sync.antt =====
-- The data plane of a process in step with its engine, and the effect of an apply.
pub mod Effect
pub mod Serve
pub mod Stopping
mod Panic
use apm_projectrunner.Base.{
  ℕ, String, ◌≡◌, refl, sym, subst, ap, ◌≢◌, ◌∙◌, ◌≤◌, ◌<◌, ◌⊎◌, inl, inr, Bool, true, false, ◌||◌,
  not, List, [], ◌∷◌, Option, none, some, map, filter, All, arith, Bool-cases, option_beq_correct,
  list_beq_correct, string_eq, nat_eq, pair_eq, ◌==◌,
}
use apm_projectrunner.RouterConfig.Model.{RouterConfig, Listener, TransparentProxy, Protocol}
use apm_projectrunner.RouterConfig.Equality.{listener_eq, identity_eq}
use apm_projectrunner.RouterCore.Compile.{CompiledSnapshot, RouteTarget, compiled, compile}
use apm_projectrunner.RouterCore.Lookup.{transition}
use apm_projectrunner.RouterCore.Engine.{
  RouteEngine, Outcome, version, version_of, snapshot, new, apply,
}
use apm_projectrunner.RouterCore.Total.{compile_outcome}
use apm_projectrunner.RouterCore.History.{
  Applied, refused, blocked, stale, replaced, apply-Applied, compiled-config, installed,
}
use apm_projectrunner.RouterTcp.Transparent.{TransparentTarget}
use apm_projectrunner.RouterHost.Process.{
  ProcessError, Checked, ok, err, panic, Surroundings, TcpTarget, tcp_target, tcp_error, is_tcp,
  transparent_targets, transition_policy, validate_runtime_config, engine_checked,
}
use apm_projectrunner.RouterHost.Observe.{Observability}
use apm_projectrunner.RouterHost.Control.{
  ControlState, TcpBinding, Answer, frozen?, reload_tcp, reload_proxy, reload_transparent,
}

-- A checked value that is there.
abbrev pub Passes {ℓ} : {A : Type ℓ} → Checked A → Type ℓ
Passes {A} r = (a : A) × (r ≡ ok a)

abbrev pub targets? : Option TransparentProxy → Option (List TransparentTarget)
targets? none = none
targets? (some proxy) = some (transparent_targets proxy)

abbrev pub Routed : CompiledSnapshot → List TcpBinding → Type 0
Routed s bs = All (λ b. tcp_target s b.listener ≡ ok b.proxy.target) bs

abbrev pub listeners_of : List TcpBinding → List Listener
listeners_of bs = map (λ b. b.listener) bs

-- Every TCP listener is joined to the target that the active snapshot gives it, and every transparent
-- proxy to the members of the active configuration; what a restart alone may change is unchanged.
pub record InSync (st : ControlState) : Type 0 where
  pub same_listeners : (snapshot st.engine).config.spec.listeners ≡ st.initial_listeners
  pub same_transparent :
      frozen? (snapshot st.engine).config.spec.transparent_proxy ≡ st.initial_transparent_proxy
  pub bound : listeners_of st.tcp ≡ filter is_tcp st.initial_listeners
  pub routed : Routed (snapshot st.engine) st.tcp
  pub members :
      All
        (λ ts. targets? (snapshot st.engine).config.spec.transparent_proxy ≡ some ts)
        st.transparent_tcp

pub Checked-cases {ℓ} :
    {A : Type ℓ} (r : Checked A) → Passes r ⊎ (((why : ProcessError) × (r ≡ err why)) ⊎ (r ≡ panic))
Checked-cases (ok a) = inl (a, refl)
Checked-cases (err why) = inr (inl (why, refl))
Checked-cases panic = inr (inr refl)

pub tcp_error-All :
    (s : CompiledSnapshot) (ls : List Listener)
    → tcp_error s ls ≡ ok tt
    → All (λ l. Passes (tcp_target s l)) ls
unfolding tcp_error
tcp_error-All s [] h = tt
tcp_error-All s (l ∷ ls) h = elim (Checked-cases (tcp_target s l)) [
  | inl (t, e) ↦ ((t, e), tcp_error-All s ls (ground arith))
  | inr (inl (why, e)) ↦ absurd (ground arith)
  | inr (inr e) ↦ absurd (ground arith)
]

-- The loop over the listeners that all have targets.
pub reload_tcp-Routed :
    (s : CompiledSnapshot) (bs : List TcpBinding)
    → All (λ l. Passes (tcp_target s l)) (listeners_of bs)
    → (bs' : List TcpBinding) × (reload_tcp s bs ≡ (bs', none))
      × (listeners_of bs' ≡ listeners_of bs)
      × Routed s bs'
unfolding reload_tcp
reload_tcp-Routed s [] h = ([], refl, refl, tt)
reload_tcp-Routed s (b ∷ bs) ((t, e), h) =
    let (bs', same, kept, to) = reload_tcp-Routed s bs h in
    let moved : TcpBinding = record b {
      proxy = reload_proxy t (transition_policy (transition s Protocol.tcp)) b.proxy;
    } in
    (moved ∷ bs', rw (reload_tcp, e) (ground arith), ap (λ ls. b.listener ∷ ls) kept, (e, to))

pub engine_checked_lem :
    (o : Outcome RouteEngine) (e : RouteEngine) → engine_checked o ≡ ok e → o ≡ Outcome.ok e
engine_checked_lem (Outcome.ok d) e h = ground arith
engine_checked_lem (Outcome.err why) e h = absurd (ground arith)
engine_checked_lem Outcome.panic e h = absurd (ground arith)
