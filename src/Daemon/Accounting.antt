-- ===== src/Daemon/Accounting.antt =====
-- The attempts that a failed live binding reports.
pub mod Report
use apm_projectrunner.Base.{
  ℕ, ◌+◌, String, ◌≡◌, ◌≢◌, refl, sym, ap, subst, ◌∙◌, ◌⊎◌, inl, inr, Bool, true, false, List, [],
  ◌∷◌, ◌++◌, Option, none, some, map, ℤ, arith, Bool-cases, if◌then◌else◌,
}
use mathlib.Core.List.{reverse}
use apm_projectrunner.Base.Json.{Value}
use apm_projectrunner.State.Apply.{
  RouterApplyRecord, RouterApplyStatus, active, failed, rolled_back,
}
use apm_projectrunner.State.Context.{structured_context}
use apm_projectrunner.RouterAdmin.Client.{
  SnapshotIdentity, ApplyAcknowledgement, AdminError, AdminResult,
}
use apm_projectrunner.RouterAdmin.Client
use apm_projectrunner.Daemon.Live.{
  ApiError, Tried, ok, err, RouterTarget, RouterAdmin, Call, successor, versions, Attempt,
  router_attempt, rollback_attempt, or_fallback, ◌>>=◌, within, within?, context_of,
}
use apm_projectrunner.Daemon.Loop.{
  acknowledges, Progress, Step, going, breaking, leaving, candidate_at, apply_target, apply_targets,
  observed_at, advanced, answered, recorded, rollback_target, rollback_each,
  rollback_applied_targets,
}
use apm_projectrunner.Daemon.Binding.{LiveBinding, undone, begun, concluded, live_binding}

-- What a record says of whom.
abbrev pub row : RouterApplyRecord → String × RouterApplyStatus
row r = (r.router, r.status)

abbrev pub rows : List RouterApplyRecord → List (String × RouterApplyStatus)
rows rs = map row rs

abbrev pub routers : List RouterApplyRecord → List String
routers rs = map (λ r. r.router) rs

abbrev pub ids : List (RouterTarget × SnapshotIdentity) → List String
ids applied = map (λ a. a.0.id) applied

abbrev pub activations : List String → List (String × RouterApplyStatus)
activations names = map (λ name. (name, active)) names

-- What holds of a result, if there is one.
abbrev Holds {ℓ κ} : {A : Type ℓ} → (A → Type κ) → Tried A → Type κ
Holds P (ok a) = P a
Holds P (err why) = Unit

bind-Holds {ℓ κ μ} :
    {A : Type ℓ} {B : Type κ} (P : B → Type μ) (r : Tried A) (continue : A → Tried B)
    → ((a : A) → Holds P (continue a))
    → Holds P (r >>= continue)
bind-Holds P (ok a) continue h = h a
bind-Holds P (err why) continue h = tt

map-append {ℓ κ} :
    {A : Type ℓ} {B : Type κ} (f : A → B) (xs ys : List A) → map f (xs ++ ys) ≡ map f xs ++ map f ys
map-append f [] ys = refl
map-append f (x ∷ xs) ys = ap (λ zs. f x ∷ zs) (map-append f xs ys)

passive : (b : Bool) → (if b then rolled_back else failed) ≢ active
passive true e = absurd (ground arith)
passive false e = absurd (ground arith)

module _ {World : Type 0} (admin : RouterAdmin World) (call : Call) where
  router_attempt-row :
      (now : ℤ) (t : RouterTarget) (a : Attempt)
      → Holds (λ r. row r ≡ (t.id, a.status)) (router_attempt call now t a)
  unfolding router_attempt
  router_attempt-row now t a = bind-Holds _ (within t.candidate.spec.snapshot.version) _ (λ desired.
      bind-Holds _ (within a.version) _ (λ version.
        bind-Holds _ (within? (versions a.observed)) _ (λ seen.
          bind-Holds _ (context_of (structured_context call.print a.context)) _ (λ context. refl))))

  or_fallback-router :
      (now : ℤ) (t : RouterTarget) (a : Attempt) (r : Tried RouterApplyRecord)
      → Holds (λ s. row s ≡ (t.id, a.status)) r
      → (or_fallback call now t a r).router ≡ t.id
  or_fallback-router now t a (ok s) h = ap (λ x. x.0) h
  or_fallback-router now t a (err why) h = refl

  rollback_attempt-router :
      (now : ℤ) (t : RouterTarget) (a : Attempt) → (rollback_attempt call now t a).router ≡ t.id
  unfolding rollback_attempt
  rollback_attempt-router now t a =
      or_fallback-router now t a (router_attempt call now t a) (router_attempt-row now t a)

  -- How one round ends: a further active target, or a failure with at most one record of the target.
  pub data Round (t : RouterTarget) (p : Progress World) : Step World → Type 0 where
    activates :
        {q : Progress World}
        → rows q.attempts ≡ rows p.attempts ++ (t.id, active) ∷ []
        → ids q.applied ≡ ids p.applied ++ t.id ∷ []
        → Round t p (going q)
    cancels :
        {why : String} {q : Progress World}
        → q.attempts ≡ p.attempts
        → q.applied ≡ p.applied
        → Round t p (breaking why q)
    fails :
        {why : String} {q : Progress World} (status : RouterApplyStatus)
        → status ≢ active
        → rows q.attempts ≡ rows p.attempts ++ (t.id, status) ∷ []
        → q.applied ≡ p.applied
        → Round t p (breaking why q)
    leaves : {why : ApiError} {w : World} → Round t p (leaving why w)

  recorded-Round :
      (t : RouterTarget) (p : Progress World) (w : World) (s : RouterApplyStatus)
      (r : Tried RouterApplyRecord) (next : Progress World → Step World)
      → Holds (λ x. row x ≡ (t.id, s)) r
      → ((q : Progress World)
          → rows q.attempts ≡ rows p.attempts ++ (t.id, s) ∷ []
          → q.applied ≡ p.applied
          → Round t p (next q))
      → Round t p (recorded admin call w p r next)
  recorded-Round t p w s (err why) next h k = leaves
  recorded-Round t p w s (ok r) next h k =
      k _ (map-append row p.attempts (r ∷ []) ∙ ap (λ x. rows p.attempts ++ x ∷ []) h) refl

  module _ (t : RouterTarget) (p : Progress World) where
    answered-Round :
        (version : ℕ) (seen : SnapshotIdentity) (r : World × AdminResult ApplyAcknowledgement)
        → Round t p (answered admin call (candidate_at t version) version seen p r)
    answered-Round version seen (w, Client.ok ack) =
        elim (Bool-cases
          (acknowledges ack version (call.snapshot_checksum (candidate_at t version).candidate))) [
            | inl good ↦ rw good (
                recorded-Round t p w active _ _
                  (router_attempt-row (admin.now_millis w) (candidate_at t version) _)
                  (λ q rows_are same.
                    activates rows_are
                      (map-append (λ a. a.0.id) q.applied _ ∙ ap (λ x. ids x ++ t.id ∷ []) same)))
            | inr bad ↦ rw bad (
                recorded-Round t p w failed _ _
                  (router_attempt-row (admin.now_millis w) (candidate_at t version) _)
                  (λ q rows_are same. fails failed (λ e. absurd (ground arith)) rows_are same))
          ]
    answered-Round version seen (w, Client.err why) =
        recorded-Round t p w _ _ _
          (router_attempt-row (admin.now_millis w) (candidate_at t version) _)
          (λ q rows_are same. fails _ (passive _) rows_are same)

    advanced-Round :
        (seen : SnapshotIdentity) (w : World) (next : Option ℕ)
        → Round t p (advanced admin call t seen p w next)
    advanced-Round seen w none = leaves
    advanced-Round seen w (some version) = answered-Round version seen _

    observed_at-Round :
        (r : World × AdminResult SnapshotIdentity) → Round t p (observed_at admin call t p r)
    observed_at-Round (w, Client.err why) =
        recorded-Round t p w failed _ _ (router_attempt-row (admin.now_millis w) t _)
          (λ q rows_are same. fails failed (λ e. absurd (ground arith)) rows_are same)
    observed_at-Round (w, Client.ok seen) = advanced-Round seen w (successor seen.version)

    apply_target-Round : Round t p (apply_target admin call t p)
    unfolding apply_target
    apply_target-Round = elim (Bool-cases (admin.cancelled p.world)) [
      | inl stop ↦ rw stop (cancels refl refl)
      | inr on ↦ rw on (observed_at-Round (admin.current_snapshot t.endpoint p.world))
    ]
