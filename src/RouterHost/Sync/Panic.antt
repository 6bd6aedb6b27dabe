-- ===== src/RouterHost/Sync/Panic.antt =====
-- The checks of a configuration end without a panic.
use apm_projectrunner.Base.{
  String, refl, ◌≢◌, inl, inr, List, [], ◌∷◌, Option, none, some, filter, arith, Bool-cases,
  string_eq, nat_eq, pair_eq, option_eq, list_eq,
}
use apm_projectrunner.RouterConfig.Model.{RouterConfig, Listener, ListenerDestination}
use apm_projectrunner.RouterConfig.Equality.{listener_eq, identity_eq}
use apm_projectrunner.RouterCore.Compile.{CompiledSnapshot, RouteTarget}
use apm_projectrunner.RouterCore.Engine.{RouteEngine, Outcome, snapshot, new}
use apm_projectrunner.RouterCore.Total.{compile_outcome}
use apm_projectrunner.RouterHost.Process.{
  Checked, ok, err, panic, Surroundings, tcp_target, tcp_error, routed, target_at, selected,
  engine_checked, http_checked, serves_http, http_error, BuildError, ◌>>=◌, is_tcp,
  validate_runtime_config,
}
use apm_projectrunner.RouterHost.Execute.{
  panicked, recompiled, once_valid, validate_candidate, changes,
}
use apm_projectrunner.RouterHost.Control.{ControlState}
use apm_projectrunner.RouterHost.Process.{
  engine_checked, http_checked, serves_http, http_error, ◌>>=◌,
}
use apm_projectrunner.RouterHost.Execute.{
  panicked, recompiled, once_valid, validate_candidate, changes,
}

bind_lem {ℓ κ} :
    {A : Type ℓ} {B : Type κ} (r : Checked A) (continue : A → Checked B)
    → r ≢ panic
    → ((a : A) → continue a ≢ panic)
    → (r >>= continue) ≢ panic
bind_lem (ok a) continue m n h = n a h
bind_lem (err why) continue m n h = absurd (ground arith)
bind_lem panic continue m n h = m refl

routed_lem : (slot : String) (o : Option RouteTarget) → routed slot o ≢ panic
routed_lem slot none h = absurd (ground arith)
routed_lem slot (some t) h = absurd (ground arith)

target_at_lem :
    (s : CompiledSnapshot) (l : Listener) (ds : List ListenerDestination) → target_at s l ds ≢ panic
target_at_lem s l [] h = absurd (ground arith)
target_at_lem s l (d ∷ []) h = routed_lem _ (selected s l _) h
target_at_lem s l (d ∷ e ∷ ds) h = absurd (ground arith)

tcp_error_lem : (s : CompiledSnapshot) (ls : List Listener) → tcp_error s ls ≢ panic
unfolding tcp_error tcp_target
tcp_error_lem s [] h = absurd (ground arith)
tcp_error_lem s (l ∷ ls) h =
    bind_lem (tcp_target s l) _ (target_at_lem s l l.destinations) (λ t. tcp_error_lem s ls) h

new_lem : (checksum : RouterConfig → String) (c : RouterConfig) → new checksum c ≢ Outcome.panic
unfolding new
new_lem checksum c h = elim (compile_outcome checksum c) [
  | inl (errors, bad, out) ↦ absurd (ground arith)
  | inr (s, good, b, out) ↦ absurd (ground arith)
]

engine_checked_lem : (o : Outcome RouteEngine) → o ≢ Outcome.panic → engine_checked o ≢ panic
engine_checked_lem (Outcome.ok e) n h = absurd (ground arith)
engine_checked_lem (Outcome.err why) n h = absurd (ground arith)
engine_checked_lem Outcome.panic n h = n refl

http_checked_lem : (o : Option BuildError) → http_checked o ≢ panic
http_checked_lem none h = absurd (ground arith)
http_checked_lem (some e) h = absurd (ground arith)

once_valid_lem :
    (v : Checked (Unit {0})) (o : Outcome RouteEngine)
    → v ≢ panic
    → o ≢ Outcome.panic
    → once_valid v (recompiled o) ≢ panicked
once_valid_lem (ok u) (Outcome.ok e) m n h = absurd (ground arith)
once_valid_lem (ok u) (Outcome.err why) m n h = absurd (ground arith)
once_valid_lem (ok u) Outcome.panic m n h = n refl
once_valid_lem (err why) o m n h = absurd (ground arith)
once_valid_lem panic o m n h = m refl

module _ (checksum : RouterConfig → String) (env : Surroundings) where
  runtime_lem : (c : RouterConfig) → validate_runtime_config checksum env c ≢ panic
  unfolding validate_runtime_config
  runtime_lem c h =
      bind_lem (engine_checked (new checksum c)) _ (engine_checked_lem _ (new_lem checksum c))
        (λ e.
          bind_lem (http_checked (http_error env (filter serves_http c.spec.listeners))) _
            (http_checked_lem _) (λ u. tcp_error_lem (snapshot e) (filter is_tcp c.spec.listeners)))
        h

  pub validate_candidate_lem :
      (st : ControlState) (c : RouterConfig) → validate_candidate checksum env st c ≢ panicked
  unfolding validate_candidate
  validate_candidate_lem st c h = elim (Bool-cases (changes st c)) [
    | inl changed ↦ absurd (ground arith)
    | inr same ↦ once_valid_lem _ _ (runtime_lem c) (new_lem checksum c) (ground arith)
  ]
