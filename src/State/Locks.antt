-- ===== src/State/Locks.antt =====
-- `acquire_lock`, `heartbeat_lock` and `release_lock` on the table `operation_locks`, whose primary
-- key is the deployment. A call returns its result with the new table; a call that fails leaves
-- the table as it was, since its transaction is rolled back or its statement changed no row.
pub mod Exclusion
pub mod Holder
use apm_projectrunner.Base.{
  ℕ, String, Bool, true, false, ◌&&◌, List, [], ◌∷◌, Option, none, some, Map, get, insert, remove,
  is_some, ◌==◌, string_eq, if◌then◌else◌, ℤ, pos, ltb_ℤ, checked_add,
}
use apm_projectrunner.State.Error.{
  StateError, invalid_input, lock_contended, lock_lost, Result, ok, err, ◌>>=◌, ◌>>◌, ensure,
  validate_id, Faults, pass,
}

pub record LockRequest : Type 0 where
  pub deployment : String
  pub owner : String
  pub pid : ℕ
  pub process_started_at : ℤ
  pub token : String
  pub now : ℤ
  pub ttl_millis : ℤ

pub record OperationLock : Type 0 where
  pub deployment : String
  pub owner : String
  pub token : String
  pub expires_at : ℤ
  pub recovered : Bool

-- A row of the table, without its key.
pub record LockRow : Type 0 where
  pub owner_instance : String
  pub owner_pid : ℕ
  pub owner_started_at : ℤ
  pub token : String
  pub heartbeat_at : ℤ
  pub expires_at : ℤ

abbrev pub Locks : Type 0
Locks = Map String LockRow

abbrev pub expiry : Option ℤ → Result ℤ
expiry none = err (invalid_input "invalid_lock_ttl" "lock expiry overflow")
expiry (some t) = ok t

-- `existing.filter(|(_, expiry)| expiry > now)` is an error.
abbrev pub unlocked : String → ℤ → Option LockRow → Result (Unit {0})
unlocked deployment now none = ok tt
unlocked deployment now (some row) =
    if ltb_ℤ now row.expires_at
    then err (lock_contended deployment row.owner_instance row.expires_at)
    else ok tt

abbrev pub row_of : LockRequest → ℤ → LockRow
row_of r expires_at = record {
  owner_instance = r.owner;
  owner_pid = r.pid;
  owner_started_at = r.process_started_at;
  token = r.token;
  heartbeat_at = r.now;
  expires_at = expires_at;
}

abbrev pub lock_of : LockRequest → ℤ → Bool → OperationLock
lock_of r expires_at recovered = record {
  deployment = r.deployment;
  owner = r.owner;
  token = r.token;
  expires_at = expires_at;
  recovered = recovered;
}

-- The checks of a request, before the transaction, with the time at which its lease would expire.
unfoldable pub check_request : LockRequest → Result ℤ
check_request r = do
  ensure (ltb_ℤ (pos 0) r.ttl_millis) (invalid_input "invalid_lock_ttl" "lock TTL must be positive")
  validate_id "deployment" r.deployment
  validate_id "owner" r.owner
  validate_id "token" r.token
  expiry (checked_add r.now r.ttl_millis)

unfoldable pub acquire_lock : Faults → Locks → LockRequest → Result (OperationLock × Locks)
acquire_lock faults locks r = do
  expires_at ← check_request r
  pass faults.reading
  unlocked r.deployment r.now (get r.deployment locks)
  pass faults.writing
  ok (
    lock_of r expires_at (is_some (get r.deployment locks)),
    insert r.deployment (row_of r expires_at) locks,
  )

-- `WHERE owner_instance=?2 AND token=?3`.
abbrev pub owned : OperationLock → LockRow → Bool
owned lock row = row.owner_instance == lock.owner && row.token == lock.token

abbrev pub renew : OperationLock → ℤ → ℤ → Locks → Option LockRow → Result (OperationLock × Locks)
renew lock now expires_at locks none = err (lock_lost lock.deployment)
renew lock now expires_at locks (some row) =
    if owned lock row && ltb_ℤ now row.expires_at
    then ok (
      record lock { expires_at = expires_at },
      insert lock.deployment (record row { heartbeat_at = now; expires_at = expires_at }) locks,
    )
    else err (lock_lost lock.deployment)

unfoldable pub heartbeat_lock :
    Faults → Locks → OperationLock → ℤ → ℤ → Result (OperationLock × Locks)
heartbeat_lock faults locks lock now ttl_millis = do
  ensure (ltb_ℤ (pos 0) ttl_millis) (invalid_input "invalid_lock_ttl" "lock TTL must be positive")
  expires_at ← expiry (checked_add now ttl_millis)
  pass faults.writing
  renew lock now expires_at locks (get lock.deployment locks)

abbrev pub drop_row : OperationLock → Locks → Option LockRow → Result (Unit {0} × Locks)
drop_row lock locks none = err (lock_lost lock.deployment)
drop_row lock locks (some row) =
    if owned lock row
    then ok (tt, remove lock.deployment locks)
    else err (lock_lost lock.deployment)

unfoldable pub release_lock : Faults → Locks → OperationLock → Result (Unit {0} × Locks)
release_lock faults locks lock = do
  pass faults.writing
  drop_row lock locks (get lock.deployment locks)
