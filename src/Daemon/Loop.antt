-- ===== src/Daemon/Loop.antt =====
-- The loop over the targets of a live binding, and `rollback_applied_targets`. An applied target stands
-- itself where the code keeps its index.
use apm_projectrunner.Base.{
  ℕ, String, Bool, true, false, ◌&&◌, List, [], ◌∷◌, ◌++◌, Option, none, some, format, decimal,
  replace, or_else, ◌==◌, nat_eq, string_eq, if◌then◌else◌,
}
use mathlib.Core.List.{reverse}
use apm_projectrunner.Base.Json.{Value, text, object, field, end}
use apm_projectrunner.RouterConfig.Model.{RouterConfig, ConnectionTransitionPolicy}
use apm_projectrunner.State.Apply.{
  RouterApplyRecord, RouterApplyStatus, active, failed, rolled_back,
}
use apm_projectrunner.RouterAdmin.Client.{
  AdminEndpoint, SnapshotIdentity, ApplyAcknowledgement, ActivationStatus, activated,
  rejected_stale, AdminError, AdminResult, display, rejection_code, details,
}
use apm_projectrunner.RouterAdmin.Client
use apm_projectrunner.Daemon.Live.{
  ApiError, Tried, ok, err, RouterTarget, RouterAdmin, Call, successor, exhausted, Attempt,
  router_attempt, rollback_attempt,
}

-- `set_transition`.
abbrev pub set_transition : Option ConnectionTransitionPolicy → RouterConfig → RouterConfig
set_transition none c = c
set_transition (some policy) c =
    let spec = c.spec in
    let snapshot = spec.snapshot in
    record c {
      spec = record spec {
        snapshot = record snapshot {
          transitions = record {
            http = policy;
            https = policy;
            websocket = policy;
            grpc = policy;
            tcp = policy;
          };
        };
      };
    }

abbrev pub renumbered : String → String → ℕ → RouterConfig → RouterConfig
renumbered router infix_text version c =
    let spec = c.spec in
    let snapshot = spec.snapshot in
    record c {
      spec = record spec {
        snapshot = record snapshot {
          id = format (replace 58 router ∷ infix_text ∷ decimal version ∷ []);
          version = version;
        };
      };
    }

abbrev pub candidate_at : RouterTarget → ℕ → RouterTarget
candidate_at t version = record t { candidate = renumbered t.id "-membership-" version t.candidate }

abbrev pub old_at : Option ConnectionTransitionPolicy → RouterTarget → ℕ → RouterTarget
old_at transition t version = record t {
  old = set_transition transition (renumbered t.id "-rollback-" version t.old);
}

abbrev is_activated : ActivationStatus → Bool
is_activated activated = true
is_activated rejected_stale = false

abbrev pub acknowledges : ApplyAcknowledgement → ℕ → String → Bool
acknowledges ack version checksum =
    ack.version == version && ack.checksum == checksum && is_activated ack.status

abbrev message_of : AdminError → Value
message_of why = object (field "message" (text (display why)) end)

abbrev value_or : Value → Option Value → Value
value_or default none = default
value_or default (some v) = v

abbrev identity : SnapshotIdentity → Option (ℕ × String)
identity seen = some (seen.version, seen.checksum)

abbrev is_unhealthy : Option String → Bool
is_unhealthy none = false
is_unhealthy (some code) = code == "provider_unhealthy"

-- Where the loop stands: the attempts so far and the targets whose snapshot is active.
pub record Progress (World : Type 0) : Type 0 where
  pub world : World
  pub attempts : List RouterApplyRecord
  pub applied : List (RouterTarget × SnapshotIdentity)
  pub acknowledgements : List (String × ApplyAcknowledgement)

-- The loop goes on, breaks with a failure, or is left by the operator `?`.
pub data Step (World : Type 0) : Type 0 where
  going : Progress World → Step World
  breaking : String → Progress World → Step World
  leaving : ApiError → World → Step World

module _ {World : Type 0} (admin : RouterAdmin World) (call : Call) where
  abbrev pub recorded :
      World → Progress World → Tried RouterApplyRecord → (Progress World → Step World) → Step World
  recorded w p (err why) next = leaving why w
  recorded w p (ok r) next = next (record p { world = w; attempts = p.attempts ++ r ∷ [] })

  abbrev unreachable : RouterTarget → AdminError → Attempt
  unreachable t why = record {
    version = t.candidate.spec.snapshot.version;
    checksum = call.snapshot_checksum t.candidate;
    status = failed;
    observed = none;
    error_code = some "router_unreachable";
    context = message_of why;
  }

  abbrev acknowledged_as :
      RouterTarget
      → ℕ
      → SnapshotIdentity
      → ApplyAcknowledgement
      → RouterApplyStatus
      → Option String
      → Attempt
  acknowledged_as t version seen ack status error_code = record {
    version = version;
    checksum = call.snapshot_checksum t.candidate;
    status = status;
    observed = identity seen;
    error_code = error_code;
    context = object (field "acknowledgement" (call.encode ack) end);
  }

  abbrev refused_with : RouterTarget → ℕ → SnapshotIdentity → AdminError → Attempt
  refused_with t version seen why = record {
    version = version;
    checksum = call.snapshot_checksum t.candidate;
    status = if is_unhealthy (rejection_code why) then rolled_back else failed;
    observed = identity seen;
    error_code = or_else (rejection_code why) (some "router_apply_failed");
    context = value_or (message_of why) (details why);
  }

  -- The `match` on the answer to the new snapshot.
  abbrev pub answered :
      RouterTarget
      → ℕ
      → SnapshotIdentity
      → Progress World
      → World × AdminResult ApplyAcknowledgement
      → Step World
  answered t version seen p (w, Client.ok ack) =
      if acknowledges ack version (call.snapshot_checksum t.candidate)
      then recorded w p
          (router_attempt call (admin.now_millis w) t
            (acknowledged_as t version seen ack active none))
          (λ q. going (record q {
            applied = q.applied ++ (t, seen) ∷ [];
            acknowledgements = q.acknowledgements ++ (t.id, ack) ∷ [];
          }))
      else recorded w p
          (router_attempt call (admin.now_millis w) t
            (acknowledged_as t version seen ack failed (some "acknowledgement_mismatch")))
          (breaking (format ("router " ∷ t.id ∷ " returned a non-activating acknowledgement" ∷ [])))
  answered t version seen p (w, Client.err why) =
      recorded w p (router_attempt call (admin.now_millis w) t (refused_with t version seen why))
        (breaking (display why))

  abbrev pub advanced :
      RouterTarget → SnapshotIdentity → Progress World → World → Option ℕ → Step World
  advanced t seen p w none = leaving (exhausted "router snapshot version is exhausted") w
  advanced t seen p w (some version) =
      answered (candidate_at t version) version seen p
        (admin.apply_snapshot t.endpoint (candidate_at t version).candidate w)

  abbrev pub observed_at :
      RouterTarget → Progress World → World × AdminResult SnapshotIdentity → Step World
  observed_at t p (w, Client.err why) =
      recorded w p (router_attempt call (admin.now_millis w) t (unreachable t why))
        (breaking (display why))
  observed_at t p (w, Client.ok seen) = advanced t seen p w (successor seen.version)

  -- One round of the loop.
  unfoldable pub apply_target : RouterTarget → Progress World → Step World
  apply_target t p =
      if admin.cancelled p.world
      then breaking "operation was cancelled" p
      else observed_at t p (admin.current_snapshot t.endpoint p.world)

  unfoldable pub apply_targets : List RouterTarget → Progress World → Step World
  apply_targets [] p = going p
  apply_targets (t ∷ ts) p = elim (apply_target t p) [
    | going q ↦ apply_targets ts q
    | breaking why q ↦ breaking why q
    | leaving why w ↦ leaving why w
  ]

  abbrev rollback_as :
      ℕ → String → RouterApplyStatus → Option (ℕ × String) → Option String → Value → Attempt
  rollback_as version checksum status observed error_code context = record {
    version = version;
    checksum = checksum;
    status = status;
    observed = observed;
    error_code = error_code;
    context = context;
  }

  abbrev pub rollback_answered :
      RouterTarget
      → ℕ
      → SnapshotIdentity
      → World × AdminResult ApplyAcknowledgement
      → World × RouterApplyRecord
  rollback_answered t version seen (w, Client.ok ack) =
      let checksum = call.snapshot_checksum t.old in
      (
        w,
        rollback_attempt call (admin.now_millis w) t (
            if acknowledges ack version checksum
            then rollback_as version checksum rolled_back (identity seen) none
                (object (field "reason" (text "peer_router_failed") end))
            else rollback_as version checksum failed (identity seen)
                (some "rollback_acknowledgement_mismatch")
                (object (field "acknowledgement" (call.encode ack) end))),
      )
  rollback_answered t version seen (w, Client.err why) = (
    w,
    rollback_attempt call (admin.now_millis w) t (
        rollback_as version (call.snapshot_checksum t.old) failed (identity seen)
          (some "rollback_failed") (message_of why)),
  )

  abbrev pub rollback_advanced :
      RouterTarget → SnapshotIdentity → World → Option ℕ → World × RouterApplyRecord
  rollback_advanced t seen w none = (
    w,
    rollback_attempt call (admin.now_millis w) t (
        rollback_as seen.version seen.checksum failed (identity seen)
          (some "rollback_version_exhausted")
          (object (field "message" (text "router snapshot version is exhausted") end))),
  )
  rollback_advanced t seen w (some version) =
      let t' = old_at call.transition t version in
      rollback_answered t' version seen (admin.apply_snapshot t.endpoint t'.old w)

  abbrev pub rollback_observed :
      RouterTarget
      → SnapshotIdentity
      → World × AdminResult SnapshotIdentity
      → World × RouterApplyRecord
  rollback_observed t before (w, Client.err why) = (
    w,
    rollback_attempt call (admin.now_millis w) t (
        rollback_as t.candidate.spec.snapshot.version (call.snapshot_checksum t.candidate) failed
          (identity before) (some "rollback_observation_failed") (message_of why)),
  )
  rollback_observed t before (w, Client.ok seen) =
      rollback_advanced t seen w (successor seen.version)

  unfoldable pub rollback_target :
      RouterTarget × SnapshotIdentity → World → World × RouterApplyRecord
  rollback_target (t, before) w = rollback_observed t before (admin.current_snapshot t.endpoint w)

  -- The loop of `rollback_applied_targets`, over the applied targets in reverse.
  unfoldable pub rollback_each :
      List (RouterTarget × SnapshotIdentity) → World → World × List RouterApplyRecord
  rollback_each [] w = (w, [])
  rollback_each (a ∷ rest) w =
      let (w', r) = rollback_target a w in let (w'', rs) = rollback_each rest w' in (w'', r ∷ rs)

  unfoldable pub rollback_applied_targets : Progress World → World × List RouterApplyRecord
  rollback_applied_targets p =
      let (w, records) = rollback_each (reverse p.applied) p.world in (w, p.attempts ++ records)
