-- ===== src/State/RouterExamples.antt =====
-- Runs of the state store on records of routers, and the reconciliation of small deployments.
use apm_projectrunner.Base.{
  ◌≡◌, ◌↔◌, ◌⊎◌, inr, refl, String, true, false, [], ◌∷◌, none, some, get, insert, pos, ℤ, is_blank,
  string_eq, pair_eq, int_eq,
}
use apm_projectrunner.State.Error.{ok, no_faults, validate_id}
use apm_projectrunner.State.Apply.{
  RouterApplyRecord, RouterApplyStatus, active, failed, Applies, key_of, activates, next_row,
  snapshot_of, record_router_apply,
}
use apm_projectrunner.State.Apply.Serving.{IsServing, run, second_activation-IsServing}
use apm_projectrunner.State.Reconcile.{
  OwnedResourceObservation, GeneratedManifest, container, reconcile_deployment,
}
use apm_projectrunner.State.Reconcile.Sync.{Absent, IsRunning, reconcile_deployment-no_drift}

abbrev attempt : ℤ → String → RouterApplyStatus → RouterApplyRecord
attempt version checksum status = record {
  deployment = "demo";
  router = "ui-1";
  binding = "api";
  operation_id = "op-1";
  desired_version = version;
  desired_checksum = checksum;
  version = version;
  checksum = checksum;
  status = status;
  observed_version = none;
  observed_checksum = none;
  transition = "{}";
  error_code = none;
  recorded_at = version;
  context = "{}";
}

abbrev nothing : Applies
nothing = record { bindings = []; snapshots = [] }

abbrev one : RouterApplyRecord
one = attempt (pos 1) "sha256:a" active

abbrev two : RouterApplyRecord
two = attempt (pos 2) "sha256:b" active

abbrev broken : RouterApplyRecord
broken = attempt (pos 2) "sha256:b" failed

abbrev tables1 : Applies
tables1 = record {
  bindings = (key_of one, next_row one none) ∷ [];
  snapshots = snapshot_of 1 one ∷ [];
}

abbrev tables2 : Applies
tables2 = record {
  bindings = (key_of one, next_row two (some (next_row broken (some (next_row one none))))) ∷ [];
  snapshots = snapshot_of 1 one ∷ snapshot_of 2 broken ∷ snapshot_of 3 two ∷ [];
}

one_recorded : record_router_apply "unique" no_faults nothing one ≡ ok (tt, tables1)
unfolding record_router_apply get insert validate_id is_blank
one_recorded = refl

two_recorded :
    record_router_apply "unique" no_faults (run "unique" tables1 ((no_faults, broken) ∷ [])) two
    ≡ ok (tt, tables2)
unfolding record_router_apply run get insert validate_id is_blank
two_recorded = refl

one_turns_on : activates one ≡ true
unfolding activates
one_turns_on = refl

two_turns_on : activates two ≡ true
unfolding activates
two_turns_on = refl

broken_idle : activates broken ≡ false
unfolding activates
broken_idle = refl

second_activation-IsServing_example :
    IsServing
      (key_of one)
      (pos 2)
      "sha256:b"
      (some (pos 1))
      (some "sha256:a")
      (run "unique" tables2 ((no_faults, broken) ∷ []))
second_activation-IsServing_example =
    second_activation-IsServing "unique" nothing no_faults one tables1 ((no_faults, broken) ∷ [])
      no_faults two tables2 ((no_faults, broken) ∷ []) one_recorded one_turns_on
      (inr broken_idle, tt) two_recorded two_turns_on refl (inr broken_idle, tt)

abbrev manifest : GeneratedManifest
manifest = record {
  deployment = "demo";
  definition_hash = "d-1";
  resource_hash = "r-1";
  remote_projects = [];
}

abbrev resource : String → OwnedResourceObservation
resource hash = record {
  kind = container;
  id = "c-1";
  name = "demo-api";
  labels =
      ("dev.apmpr.deployment", "demo")
      ∷ ("dev.apmpr.managed", "true")
      ∷ ("dev.apmpr.resource-hash", hash)
      ∷ [];
  state = none;
  device = "local";
}

reconcile_deployment-no_drift_example :
    ((reconcile_deployment "demo" (some "d-1") (some manifest) (resource "r-1" ∷ [])).diagnostics
      ≡ [])
    ↔ (Absent (some "d-1") (some manifest) (resource "r-1" ∷ [])
        ⊎ IsRunning "demo" (some "d-1") (some manifest) (resource "r-1" ∷ []))
reconcile_deployment-no_drift_example =
    reconcile_deployment-no_drift "demo" (some "d-1") (some manifest) (resource "r-1" ∷ [])
