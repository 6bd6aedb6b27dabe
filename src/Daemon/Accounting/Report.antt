-- ===== src/Daemon/Accounting/Report.antt =====
-- The attempts that a failed live binding reports, as a whole.
use apm_projectrunner.Base.{
  ℕ, String, ◌≡◌, ◌≢◌, refl, sym, ap, subst, ◌∙◌, ◌⊎◌, inl, inr, List, [], ◌∷◌, ◌++◌, Option, none,
  some, map, arith,
}
use mathlib.Core.List.{reverse, reverse_aux}
use apm_projectrunner.State.Apply.{RouterApplyRecord, RouterApplyStatus, active}
use apm_projectrunner.RouterAdmin.Client.{
  SnapshotIdentity, ApplyAcknowledgement, AdminError, AdminResult,
}
use apm_projectrunner.RouterAdmin.Client
use apm_projectrunner.Daemon.Live.{ApiError, ok, RouterTarget, RouterAdmin, Call, successor}
use apm_projectrunner.Daemon.Loop.{
  old_at, rollback_answered, rollback_advanced, rollback_observed, Progress, Step, going, breaking,
  leaving, apply_target, apply_targets, rollback_target, rollback_each, rollback_applied_targets,
}
use apm_projectrunner.Daemon.Binding.{undone, begun, concluded, after_rollback, live_binding}
use apm_projectrunner.Daemon.Accounting.{
  rows, routers, ids, activations, map-append, rollback_attempt-router, Round, activates, cancels,
  fails, leaves, apply_target-Round,
}

-- What is recorded of the targets that did not become active: nothing, or a failure of the first.
pub data Tail : List String → List (String × RouterApplyStatus) → Type 0 where
  untried : {later : List String} → Tail later []
  tried :
      {name : String} {later : List String} {status : RouterApplyStatus}
      → status ≢ active
      → Tail (name ∷ later) ((name, status) ∷ [])

pub record Accounted (targets : List String) (attempts : List RouterApplyRecord) : Type 0 where
  pub activated : List String
  pub later : List String
  pub place : activated ++ later ≡ targets
  pub tail : List (String × RouterApplyStatus)
  pub tail_of : Tail later tail
  pub forward : List RouterApplyRecord
  pub back : List RouterApplyRecord
  pub split : attempts ≡ forward ++ back
  pub forward_rows : rows forward ≡ activations activated ++ tail
  pub back_routers : routers back ≡ reverse activated

append_assoc {ℓ} : {A : Type ℓ} (xs ys zs : List A) → (xs ++ ys) ++ zs ≡ xs ++ (ys ++ zs)
append_assoc [] ys zs = refl
append_assoc (x ∷ xs) ys zs = ap (λ l. x ∷ l) (append_assoc xs ys zs)

append-nil {ℓ} : {A : Type ℓ} (xs : List A) → xs ++ [] ≡ xs
append-nil [] = refl
append-nil (x ∷ xs) = ap (λ l. x ∷ l) (append-nil xs)

map-reverse_aux {ℓ κ} :
    {A : Type ℓ} {B : Type κ} (f : A → B) (xs ys : List A)
    → map f (reverse_aux xs ys) ≡ reverse_aux (map f xs) (map f ys)
map-reverse_aux f [] ys = refl
map-reverse_aux f (x ∷ xs) ys = map-reverse_aux f xs (x ∷ ys)

abbrev pub target_ids : List RouterTarget → List String
target_ids ts = map (λ t. t.id) ts

module _ {World : Type 0} (admin : RouterAdmin World) (call : Call) where
  abbrev Tallied : Progress World → Type 0
  Tallied p = rows p.attempts ≡ activations (ids p.applied)

  -- Where the loop breaks.
  record Broken (ts : List RouterTarget) (p q : Progress World) : Type 0 where
    done : List String
    later : List String
    place : done ++ later ≡ target_ids ts
    applied_ids : ids q.applied ≡ ids p.applied ++ done
    tail : List (String × RouterApplyStatus)
    tail_of : Tail later tail
    attempted : rows q.attempts ≡ activations (ids q.applied) ++ tail

  activated-Tallied :
      (t : RouterTarget) (p q : Progress World)
      → Tallied p
      → rows q.attempts ≡ rows p.attempts ++ (t.id, active) ∷ []
      → ids q.applied ≡ ids p.applied ++ t.id ∷ []
      → Tallied q
  activated-Tallied t p q h k e =
      k
      ∙ (ap (λ x. x ++ (t.id, active) ∷ []) h
          ∙ (sym (map-append (λ name. (name, active)) (ids p.applied) (t.id ∷ []))
              ∙ ap activations (sym e)))

  leaving_lem :
      {why : ApiError} {w : World} {s : String} {q : Progress World} → leaving why w ≢ breaking s q
  leaving_lem e = absurd (ground arith)

  round-Broken :
      (t : RouterTarget) (ts : List RouterTarget) (p : Progress World) (step : Step World)
      (why : String) (q : Progress World)
      → Round admin call t p step
      → Tallied p
      → step ≡ breaking why q
      → Broken (t ∷ ts) p q
  round-Broken t ts p step why q (activates k e) h b = absurd (ground arith)
  round-Broken t ts p step why q leaves h b = absurd (leaving_lem b)
  round-Broken t ts p step why q (cancels {q = q'} k e) h b =
      let same : q' ≡ q = ground arith in
      subst (Broken (t ∷ ts) p) same (record {
        done = [];
        later = target_ids (t ∷ ts);
        place = refl;
        applied_ids = ap ids e ∙ sym (append-nil (ids p.applied));
        tail = [];
        tail_of = untried;
        attempted = ap rows k ∙ (h ∙ (ap (λ x. activations (ids x)) (sym e) ∙ sym (append-nil _)));
      })
  round-Broken t ts p step why q (fails {q = q'} status n k e) h b =
      let same : q' ≡ q = ground arith in
      subst (Broken (t ∷ ts) p) same (record {
        done = [];
        later = target_ids (t ∷ ts);
        place = refl;
        applied_ids = ap ids e ∙ sym (append-nil (ids p.applied));
        tail = (t.id, status) ∷ [];
        tail_of = tried n;
        attempted =
            k ∙ ap (λ x. x ++ (t.id, status) ∷ []) (h ∙ ap (λ x. activations (ids x)) (sym e));
      })

  Step-cases :
      (s : Step World)
      → ((q : Progress World) × (s ≡ going q))
        ⊎ (((why : String) × (q : Progress World) × (s ≡ breaking why q))
            ⊎ ((why : ApiError) × (w : World) × (s ≡ leaving why w)))
  Step-cases (going q) = inl (q, refl)
  Step-cases (breaking why q) = inr (inl (why, q, refl))
  Step-cases (leaving why w) = inr (inr (why, w, refl))

  going_lem :
      (t : RouterTarget) (p q : Progress World) (step : Step World)
      → Round admin call t p step
      → step ≡ going q
      → (rows q.attempts ≡ rows p.attempts ++ (t.id, active) ∷ [])
        × (ids q.applied ≡ ids p.applied ++ t.id ∷ [])
  going_lem t p q step (activates {q = q'} k e) h =
      let same : q' ≡ q = ground arith in
      subst
        (λ x.
          (rows x.attempts ≡ rows p.attempts ++ (t.id, active) ∷ [])
          × (ids x.applied ≡ ids p.applied ++ t.id ∷ []))
        same (k, e)
  going_lem t p q step (cancels k e) h = absurd (ground arith)
  going_lem t p q step (fails s n k e) h = absurd (ground arith)
  going_lem t p q step leaves h = absurd (ground arith)

  apply_targets-Broken :
      (ts : List RouterTarget) (p : Progress World) (why : String) (q : Progress World)
      → Tallied p
      → apply_targets admin call ts p ≡ breaking why q
      → Broken ts p q
  unfolding apply_targets
  apply_targets-Broken [] p why q h e = absurd (ground arith)
  apply_targets-Broken (t ∷ ts) p why q h e =
      let round = apply_target-Round admin call t p in
      elim (Step-cases (apply_target admin call t p)) [
        | inl (q', s) ↦
            let (k, i) = going_lem t p q' _ round s in
            let rest =
              apply_targets-Broken ts q' why q (activated-Tallied t p q' h k i) (ground arith) in
            record {
              done = t.id ∷ rest.done;
              later = rest.later;
              place = ap (λ x. t.id ∷ x) rest.place;
              applied_ids =
                  rest.applied_ids
                  ∙ (ap (λ x. x ++ rest.done) i
                      ∙ append_assoc (ids p.applied) (t.id ∷ []) rest.done);
              tail = rest.tail;
              tail_of = rest.tail_of;
              attempted = rest.attempted;
            }
        | inr (inl (s', q', s)) ↦ round-Broken t ts p _ why q round h (ground arith)
        | inr (inr (why', w, s)) ↦ absurd (ground arith)
      ]

  answered-router :
      (t : RouterTarget) (version : ℕ) (seen : SnapshotIdentity)
      (r : World × AdminResult ApplyAcknowledgement)
      → (rollback_answered admin call t version seen r).1.router ≡ t.id
  answered-router t version seen (w, Client.ok ack) =
      rollback_attempt-router admin call (admin.now_millis w) t _
  answered-router t version seen (w, Client.err why) =
      rollback_attempt-router admin call (admin.now_millis w) t _

  advanced-router :
      (t : RouterTarget) (seen : SnapshotIdentity) (w : World) (next : Option ℕ)
      → (rollback_advanced admin call t seen w next).1.router ≡ t.id
  advanced-router t seen w none = rollback_attempt-router admin call (admin.now_millis w) t _
  advanced-router t seen w (some version) =
      answered-router (old_at call.transition t version) version seen _

  rollback_target-router :
      (a : RouterTarget × SnapshotIdentity) (w : World)
      → (rollback_target admin call a w).1.router ≡ a.0.id
  unfolding rollback_target
  rollback_target-router (t, before) w = observed-router (admin.current_snapshot t.endpoint w)
    where
      observed-router :
          (r : World × AdminResult SnapshotIdentity)
          → (rollback_observed admin call t before r).1.router ≡ t.id
      observed-router (w', Client.err why) =
          rollback_attempt-router admin call (admin.now_millis w') t _
      observed-router (w', Client.ok seen) = advanced-router t seen w' (successor seen.version)

  rollback_each-routers :
      (xs : List (RouterTarget × SnapshotIdentity)) (w : World)
      → routers (rollback_each admin call xs w).1 ≡ ids xs
  unfolding rollback_each
  rollback_each-routers [] w = refl
  rollback_each-routers (a ∷ xs) w =
      let w' = (rollback_target admin call a w).0 in
      ap (λ x. x ∷ routers (rollback_each admin call xs w').1) (rollback_target-router a w)
      ∙ ap (λ x. a.0.id ∷ x) (rollback_each-routers xs w')

  undone_lem :
      (why out : String) (r : World × List RouterApplyRecord) (w : World)
      (attempts : List RouterApplyRecord)
      → after_rollback admin call why r ≡ (w, ok (undone out attempts))
      → r.1 ≡ attempts
  undone_lem why out (w', rs) w attempts h = ground arith

  concluded_lem :
      (step : Step World) (out : String) (w : World) (attempts : List RouterApplyRecord)
      → concluded admin call step ≡ (w, ok (undone out attempts))
      → (why : String) × (q : Progress World) × (step ≡ breaking why q)
        × ((rollback_applied_targets admin call q).1 ≡ attempts)
  concluded_lem (going q) out w attempts h = absurd (ground arith)
  concluded_lem (breaking why q) out w attempts h =
      (why, q, refl, undone_lem why out (rollback_applied_targets admin call q) w attempts h)
  concluded_lem (leaving why w') out w attempts h = absurd (ground arith)

  reported :
      (ts : List RouterTarget) (w : World) (q : Progress World) (attempts : List RouterApplyRecord)
      → Broken ts (begun admin call w) q
      → (rollback_applied_targets admin call q).1 ≡ attempts
      → Accounted (target_ids ts) attempts
  unfolding rollback_applied_targets
  reported ts w q attempts b h = record {
    activated = b.done;
    later = b.later;
    place = b.place;
    tail = b.tail;
    tail_of = b.tail_of;
    forward = q.attempts;
    back = (rollback_each admin call (reverse q.applied) q.world).1;
    split = sym h;
    forward_rows = b.attempted ∙ ap (λ x. activations x ++ b.tail) b.applied_ids;
    back_routers =
        rollback_each-routers (reverse q.applied) q.world
        ∙ (map-reverse_aux (λ a. a.0.id) q.applied [] ∙ ap reverse b.applied_ids);
  }

  -- A live binding that fails with attempts reports, in order: that each router of a first part of the
  -- targets was activated; of the next router at most one failure, which is no activation, and
  -- nothing of those after it; and one rollback record for each activated router, from the last to the
  -- first.
  pub live_binding-Accounted :
      (ts : List RouterTarget) (w w' : World) (out : String) (attempts : List RouterApplyRecord)
      → live_binding admin call ts w ≡ (w', ok (undone out attempts))
      → Accounted (target_ids ts) attempts
  unfolding live_binding
  live_binding-Accounted ts w w' out attempts h =
      let (why, q, step, split) =
        concluded_lem (apply_targets admin call ts (begun admin call w)) out w' attempts h in
      reported ts w q attempts (apply_targets-Broken ts (begun admin call w) why q refl step) split
