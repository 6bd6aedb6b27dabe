-- ===== src/State/Apply.antt =====
-- `record_router_apply` on the tables `router_bindings`, whose primary key is the deployment, the
-- router and the binding, and `route_snapshots`, which only grows. A JSON column holds its text.
pub mod Serving
use apm_projectrunner.Base.{
  ℕ, ◌+◌, length, String, Bool, true, false, ◌&&◌, ◌||◌, List, [], ◌∷◌, ◌++◌, Option, none, some,
  Map, get, insert, any, is_some, not, ◌==◌, string_eq, pair_eq, int_eq, if◌then◌else◌, ℤ, or_else,
}
use apm_projectrunner.State.Error.{
  Result, ok, err, ◌>>=◌, ◌>>◌, ensure, validate_id, sqlite, Faults, pass,
}

pub data RouterApplyStatus : Type 0 where
  pending : RouterApplyStatus
  active : RouterApplyStatus
  failed : RouterApplyStatus
  rolled_back : RouterApplyStatus

-- `RouterApplyStatus::as_str`.
abbrev pub as_str : RouterApplyStatus → String
as_str pending = "pending"
as_str active = "active"
as_str failed = "failed"
as_str rolled_back = "rolled_back"

abbrev pub history_status : RouterApplyStatus → String
history_status pending = "pending"
history_status active = "active"
history_status failed = "rejected"
history_status rolled_back = "rolled_back"

pub record RouterApplyRecord : Type 0 where
  pub deployment : String
  pub router : String
  pub binding : String
  pub operation_id : String
  pub desired_version : ℤ
  pub desired_checksum : String
  pub version : ℤ
  pub checksum : String
  pub status : RouterApplyStatus
  pub observed_version : Option ℤ
  pub observed_checksum : Option String
  pub transition : String
  pub error_code : Option String
  pub recorded_at : ℤ
  pub context : String

pub record RouterBindingState : Type 0 where
  pub deployment : String
  pub router : String
  pub binding : String
  pub desired_version : Option ℤ
  pub desired_checksum : Option String
  pub current_version : Option ℤ
  pub current_checksum : Option String
  pub previous_version : Option ℤ
  pub previous_checksum : Option String
  pub observed_version : Option ℤ
  pub observed_checksum : Option String
  pub status : String
  pub transition_json : String
  pub last_error_code : Option String
  pub updated_at : ℤ

pub record StoredRouteSnapshot : Type 0 where
  pub sequence : ℕ
  pub deployment : String
  pub version : ℤ
  pub checksum : String
  pub activation_status : String
  pub recorded_at : ℤ
  pub context_json : String
  pub router : Option String
  pub binding : Option String
  pub operation_id : Option String

abbrev pub Key : Type 0
Key = String × (String × String)

-- The two tables.
pub record Applies : Type 0 where
  pub bindings : Map Key RouterBindingState
  pub snapshots : List StoredRouteSnapshot

abbrev pub key_of : RouterApplyRecord → Key
key_of r = (r.deployment, (r.router, r.binding))

abbrev pub is_active : RouterApplyStatus → Bool
is_active active = true
is_active _ = false

abbrev pub is_rolled_back : RouterApplyStatus → Bool
is_rolled_back rolled_back = true
is_rolled_back _ = false

unfoldable pub activates : RouterApplyRecord → Bool
activates r = is_active r.status || (is_rolled_back r.status && not (is_some r.error_code))

abbrev pub current_version? : Option RouterBindingState → Option ℤ
current_version? none = none
current_version? (some row) = row.current_version

abbrev pub current_checksum? : Option RouterBindingState → Option String
current_checksum? none = none
current_checksum? (some row) = row.current_checksum

abbrev pub previous_version? : Option RouterBindingState → Option ℤ
previous_version? none = none
previous_version? (some row) = row.previous_version

abbrev pub previous_checksum? : Option RouterBindingState → Option String
previous_checksum? none = none
previous_checksum? (some row) = row.previous_checksum

-- The row that the `INSERT .. ON CONFLICT DO UPDATE` leaves.
unfoldable pub next_row : RouterApplyRecord → Option RouterBindingState → RouterBindingState
next_row r existing =
    let old_version = current_version? existing in
    let old_checksum = current_checksum? existing in
    let current_version =
      or_else (or_else (if activates r then some r.version else none) old_version)
        r.observed_version in
    let current_checksum =
      if activates r then some r.checksum else or_else old_checksum r.observed_checksum in
    record {
      deployment = r.deployment;
      router = r.router;
      binding = r.binding;
      desired_version = some r.desired_version;
      desired_checksum = some r.desired_checksum;
      current_version = current_version;
      current_checksum = current_checksum;
      previous_version =
          if activates r
          then or_else old_version r.observed_version
          else previous_version? existing;
      previous_checksum =
          if activates r
          then or_else old_checksum r.observed_checksum
          else previous_checksum? existing;
      observed_version =
          if activates r then current_version else or_else r.observed_version current_version;
      observed_checksum =
          if activates r then current_checksum else or_else r.observed_checksum current_checksum;
      status = as_str r.status;
      transition_json = r.transition;
      last_error_code = r.error_code;
      updated_at = r.recorded_at;
    }

-- No row is ever deleted, so the next number of `AUTOINCREMENT` is one more than the rows.
abbrev pub next_sequence : List StoredRouteSnapshot → ℕ
next_sequence rows = length rows + 1

abbrev pub snapshot_of : ℕ → RouterApplyRecord → StoredRouteSnapshot
snapshot_of sequence r = record {
  sequence = sequence;
  deployment = r.deployment;
  version = r.version;
  checksum = r.checksum;
  activation_status = history_status r.status;
  recorded_at = r.recorded_at;
  context_json = r.context;
  router = some r.router;
  binding = some r.binding;
  operation_id = some r.operation_id;
}

-- `UNIQUE(deployment_id, version, checksum, activation_status, recorded_at)`.
abbrev pub clashes : StoredRouteSnapshot → StoredRouteSnapshot → Bool
clashes s t =
    s.deployment == t.deployment
    && s.version == t.version
    && s.checksum == t.checksum
    && s.activation_status == t.activation_status
    && s.recorded_at == t.recorded_at

-- `violation` is what SQLite reports of a row that breaks a constraint.
unfoldable pub record_router_apply :
    String → Faults → Applies → RouterApplyRecord → Result (Unit {0} × Applies)
record_router_apply violation faults tables r = do
  validate_id "deployment" r.deployment
  validate_id "router" r.router
  validate_id "binding" r.binding
  validate_id "checksum" r.checksum
  pass faults.reading
  pass faults.writing
  ensure (not (any (clashes (snapshot_of (next_sequence tables.snapshots) r)) tables.snapshots))
      (sqlite violation)
  ok (
    tt,
    record {
      bindings = insert (key_of r) (next_row r (get (key_of r) tables.bindings)) tables.bindings;
      snapshots = tables.snapshots ++ snapshot_of (next_sequence tables.snapshots) r ∷ [];
    },
  )
