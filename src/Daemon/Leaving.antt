-- ===== src/Daemon/Leaving.antt =====
-- What a live binding leaves behind when an attempt cannot be recorded.
use apm_projectrunner.Base.{
  ℕ, ◌+◌, ◌<◌, ◌≤◌, pos, String, ◌≡◌, refl, sym, ap, subst, ◌∙◌, false, List, [], ◌∷◌, ◌++◌, some,
  ℤ, i64_max, arith,
}
use apm_projectrunner.Base.Json.{Value}
use apm_projectrunner.State.Error
use apm_projectrunner.State.Error.{StateError, display_state}
use apm_projectrunner.State.Context.{structured_context}
use apm_projectrunner.RouterAdmin.Client.{SnapshotIdentity, AdminError, rejected}
use apm_projectrunner.RouterAdmin.Client
use apm_projectrunner.Daemon.Live.{
  ApiError, Tried, ok, err, api_error, RouterTarget, RouterAdmin, Call, successor, versions,
  Attempt, router_attempt, ◌>>=◌, within, within?, context_of,
}
use apm_projectrunner.Daemon.Loop.{
  Progress, going, breaking, leaving, candidate_at, apply_target, apply_targets, observed_at,
  advanced, answered, recorded,
}
use apm_projectrunner.Daemon.Binding.{begun, concluded, live_binding}

within-ok : (n : ℕ) → n ≤ i64_max → within n ≡ ok (pos n)
within-ok n h = ground arith

within?-ok : (n : ℕ) → n ≤ i64_max → within? (some n) ≡ ok (some (pos n))
within?-ok n h = ground arith

bind-then {ℓ κ} :
    {A : Type ℓ} {B : Type κ} {r : Tried A} {a : A} {b : Tried B} (continue : A → Tried B)
    → r ≡ ok a
    → continue a ≡ b
    → (r >>= continue) ≡ b
bind-then {b} continue e h = subst (λ r. (r >>= continue) ≡ b) (sym e) h

bind-err {ℓ κ} :
    {A : Type ℓ} {B : Type κ} {r : Tried A} {why : ApiError} (continue : A → Tried B)
    → r ≡ err why
    → (r >>= continue) ≡ err why
bind-err {why} continue e = subst (λ r. (r >>= continue) ≡ err why) (sym e) refl

module _ {World : Type 0} (admin : RouterAdmin World) (call : Call) where
  -- The targets become active one after the other.
  pub data Activates : List RouterTarget → Progress World → Progress World → Type 0 where
    nothing : {p : Progress World} → Activates [] p p
    next :
        {t : RouterTarget} {ts : List RouterTarget} {p q r : Progress World}
        → apply_target admin call t p ≡ going q
        → Activates ts q r
        → Activates (t ∷ ts) p r

  Activates-append :
      {ts : List RouterTarget} {p q : Progress World} (later : List RouterTarget)
      → Activates ts p q
      → apply_targets admin call (ts ++ later) p ≡ apply_targets admin call later q
  unfolding apply_targets
  Activates-append later nothing = refl
  Activates-append later (next {t} {ts} {p} {q} e rest) =
      rw (apply_targets, e) (Activates-append later rest)

  router_attempt-err :
      (now : ℤ) (t : RouterTarget) (a : Attempt) (seen : ℕ) (checksum : String) (why : StateError)
      → t.candidate.spec.snapshot.version ≡ seen + 1
      → a.version ≡ seen + 1
      → a.observed ≡ some (seen, checksum)
      → seen < i64_max
      → structured_context call.print a.context ≡ Error.err why
      → router_attempt call now t a ≡ err (api_error (Error.code why) (display_state why))
  unfolding router_attempt
  router_attempt-err now t a seen checksum why h k o small c =
      bind-then _ (within-ok t.candidate.spec.snapshot.version (omega (arith, h))) (
        bind-then _ (within-ok a.version (omega (arith, k))) (
          bind-then _
            (subst (λ x. within? (versions x) ≡ ok (some (pos seen))) (sym o)
              (within?-ok seen (omega arith)))
            (bind-err _ (
              subst (λ x. context_of x ≡ err (api_error (Error.code why) (display_state why)))
                (sym c) refl))))

  apply_targets-leaving :
      (t : RouterTarget) (ts : List RouterTarget) (p : Progress World) (why : ApiError) (w : World)
      → apply_target admin call t p ≡ leaving why w
      → apply_targets admin call (t ∷ ts) p ≡ leaving why w
  unfolding apply_targets
  apply_targets-leaving t ts p why w e = rw (apply_targets, e) refl

  apply_target-observed_at :
      (t : RouterTarget) (p : Progress World)
      → admin.cancelled p.world ≡ false
      → apply_target admin call t p
        ≡ observed_at admin call t p (admin.current_snapshot t.endpoint p.world)
  unfolding apply_target
  apply_target-observed_at t p goes = rw (apply_target, goes) refl

  -- A live binding ends with an error, and asks no router to go back to its old snapshot, when a router
  -- after any number of activated ones rejects its snapshot with details that hold a value in the
  -- clear under a key that reads like a secret: the routers before it keep the new snapshot, the
  -- state of the world is the one after the rejection, and no attempt is reported.
  pub live_binding-unrecorded :
      (before : List RouterTarget) (t : RouterTarget) (later : List RouterTarget) (w w' w'' : World)
      (p : Progress World) (seen : SnapshotIdentity) (code message : String) (body : Value)
      (why : StateError)
      → Activates before (begun admin call w) p
      → admin.cancelled p.world ≡ false
      → admin.current_snapshot t.endpoint p.world ≡ (w', Client.ok seen)
      → seen.version < i64_max
      → admin.apply_snapshot t.endpoint (candidate_at t (seen.version + 1)).candidate w'
        ≡ (w'', Client.err (rejected code message body))
      → structured_context call.print body ≡ Error.err why
      → live_binding admin call (before ++ t ∷ later) w
        ≡ (w'', err (api_error (Error.code why) (display_state why)))
  unfolding live_binding
  live_binding-unrecorded before t later w w' w'' p seen code message body why run goes sees small
        rejects secret =
      let version = seen.version + 1 in
      let t' = candidate_at t version in
      let next : successor seen.version ≡ some version = ground arith in
      let unrecorded =
        router_attempt-err (admin.now_millis w'') t' _ seen.version seen.checksum why refl refl refl
          small secret in
      let leaves : apply_target admin call t p
          ≡ leaving (api_error (Error.code why) (display_state why)) w'' =
        apply_target-observed_at t p goes
        ∙ (ap (observed_at admin call t p) sees
            ∙ (ap (advanced admin call t seen p w') next
                ∙ (ap (answered admin call t' version seen p) rejects
                    ∙ ap
                        (λ r.
                          recorded admin call w'' p r
                            (breaking (Client.display (rejected code message body))))
                        unrecorded))) in
      ap (concluded admin call)
        (Activates-append (t ∷ later) run ∙ apply_targets-leaving t later p _ w'' leaves)
