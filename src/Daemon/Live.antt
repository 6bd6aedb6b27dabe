-- ===== src/Daemon/Live.antt =====
-- `apply_live_binding_with_admin` from the loop over its targets on: new snapshots for the routers that
-- a membership move concerns, one after the other, and their rollback when one fails. The events that
-- it emits for readers are left out.
use apm_projectrunner.Base.{
  ℕ, ◌+◌, ◌-◌, ◌^◌, String, Bool, Option, none, some, ℤ, pos, leb, i64_max, nat_eq, string_eq,
  if◌then◌else◌,
}
use apm_projectrunner.Base.Json.{Value, text, object, field, end}
use apm_projectrunner.RouterConfig.Model.{RouterConfig, ConnectionTransitionPolicy}
use apm_projectrunner.State.Error.{Result, StateError, display_state}
use apm_projectrunner.State.Error
use apm_projectrunner.State.Apply.{RouterApplyRecord, RouterApplyStatus, failed}
use apm_projectrunner.State.Context.{structured_context}
use apm_projectrunner.RouterAdmin.Client.{
  AdminEndpoint, SnapshotIdentity, ApplyAcknowledgement, AdminResult,
}

pub record ApiError : Type 0 where
  pub code : String
  pub message : String

-- A result of the daemon, or its error.
pub data Tried {ℓ} (A : Type ℓ) : Type ℓ where
  ok : A → Tried A
  err : ApiError → Tried A

abbrev pub api_error : String → String → ApiError
api_error code message = record { code = code; message = message }

pub record RouterTarget : Type 0 where
  pub id : String
  pub route_instance : Option String
  pub endpoint : AdminEndpoint
  pub old : RouterConfig
  pub candidate : RouterConfig

-- The trait `RouterAdmin` over the state of all that is outside: the routers, the clock and the
-- request to cancel. The token is part of it.
pub record RouterAdmin (World : Type 0) : Type 0 where
  pub current_snapshot : AdminEndpoint → World → World × AdminResult SnapshotIdentity
  pub apply_snapshot :
      AdminEndpoint → RouterConfig → World → World × AdminResult ApplyAcknowledgement
  pub now_millis : World → ℤ
  pub cancelled : World → Bool

-- What the records of one call share, and the functions of other crates: the hash of a
-- configuration, the printing of JSON and the encoding of an acknowledgement. `TransitionPolicyV1`
-- has the cases of `ConnectionTransitionPolicy`.
pub record Call : Type 0 where
  pub deployment : String
  pub consumer : String
  pub operation_id : String
  pub transition : Option ConnectionTransitionPolicy
  pub transition_context : String
  pub snapshot_checksum : RouterConfig → String
  pub print : Value → String
  pub encode : ApplyAcknowledgement → Value

abbrev pub u64_max : ℕ
u64_max = 2 ^ 64 - 1

-- `checked_add(1)` of a `u64`.
abbrev pub successor : ℕ → Option ℕ
successor n = if leb (n + 1) u64_max then some (n + 1) else none

-- `i64::try_from`, and with `unwrap_or(i64::MAX)`.
abbrev pub to_i64 : ℕ → Option ℤ
to_i64 n = if leb n i64_max then some (pos n) else none

abbrev capped : ℕ → ℤ
capped n = if leb n i64_max then pos n else pos i64_max

abbrev pub exhausted : String → ApiError
exhausted message = api_error "snapshot_version_exhausted" message

abbrev pub versions : Option (ℕ × String) → Option ℕ
versions none = none
versions (some (version, checksum)) = some version

abbrev pub checksums : Option (ℕ × String) → Option String
checksums none = none
checksums (some (version, checksum)) = some checksum

infixl 5 ◌>>=◌
abbrev pub ◌>>=◌ {ℓ κ} : {A : Type ℓ} {B : Type κ} → Tried A → (A → Tried B) → Tried B
ok a >>= continue = continue a
err why >>= continue = err why

abbrev pub within : ℕ → Tried ℤ
within n = elim (to_i64 n) [ none ↦ err (exhausted "version exceeds SQLite range") | some v ↦ ok v ]

abbrev pub within? : Option ℕ → Tried (Option ℤ)
within? none = ok none
within? (some n) = within n >>= λ v. ok (some v)

abbrev pub context_of : Result String → Tried String
context_of (Error.ok c) = ok c
context_of (Error.err why) = err (api_error (Error.code why) (display_state why))

-- What one attempt says.
pub record Attempt : Type 0 where
  pub version : ℕ
  pub checksum : String
  pub status : RouterApplyStatus
  pub observed : Option (ℕ × String)
  pub error_code : Option String
  pub context : Value

module _ (call : Call) (now : ℤ) where
  unfoldable pub router_attempt : RouterTarget → Attempt → Tried RouterApplyRecord
  router_attempt t a = do
    desired_version ← within t.candidate.spec.snapshot.version
    version ← within a.version
    observed_version ← within? (versions a.observed)
    context ← context_of (structured_context call.print a.context)
    ok (record {
      deployment = call.deployment;
      router = t.id;
      binding = call.consumer;
      operation_id = call.operation_id;
      desired_version = desired_version;
      desired_checksum = call.snapshot_checksum t.candidate;
      version = version;
      checksum = a.checksum;
      status = a.status;
      observed_version = observed_version;
      observed_checksum = checksums a.observed;
      transition = call.transition_context;
      error_code = a.error_code;
      recorded_at = now;
      context = context;
    })

  abbrev text_or : String → Option String → String
  text_or default none = default
  text_or default (some s) = s

  abbrev capped? : Option ℕ → Option ℤ
  capped? none = none
  capped? (some n) = some (capped n)

  -- The context of a record that could not be made, or an empty object, which is valid.
  abbrev kept_or_empty : Tried String → String
  kept_or_empty (ok c) = c
  kept_or_empty (err why) = call.print (object end)

  abbrev recording_context : ApiError → Value
  recording_context why =
      object (field "recordingErrorCode" (text why.code) (field "message" (text why.message) end))

  abbrev pub or_fallback : RouterTarget → Attempt → Tried RouterApplyRecord → RouterApplyRecord
  or_fallback t a (ok r) = r
  or_fallback t a (err why) = record {
    deployment = call.deployment;
    router = t.id;
    binding = call.consumer;
    operation_id = call.operation_id;
    desired_version = capped t.candidate.spec.snapshot.version;
    desired_checksum = call.snapshot_checksum t.candidate;
    version = capped a.version;
    checksum = a.checksum;
    status = failed;
    observed_version = capped? (versions a.observed);
    observed_checksum = checksums a.observed;
    transition = call.transition_context;
    error_code = some (text_or "rollback_attempt_record_failed" a.error_code);
    recorded_at = now;
    context = kept_or_empty (context_of (structured_context call.print (recording_context why)));
  }

  unfoldable pub rollback_attempt : RouterTarget → Attempt → RouterApplyRecord
  rollback_attempt t a = or_fallback t a (router_attempt t a)
