-- ===== src/State/Locks/Holder.antt =====
-- What a lease promises while it lasts, and what is left of a lock after a takeover.
use apm_projectrunner.Base.{
  ◌≡◌, ◌≢◌, refl, subst, ap, sym, ◌⊎◌, true, false, List, some, get, insert, remove,
  get-insert_self, All, arith, string_eq, ℤ, pos, ◌<ℤ◌, checked_add, ltb_ℤ_of_lt,
}
use apm_projectrunner.State.Error.{ok, err, Faults, no_faults, lock_lost}
use apm_projectrunner.State.Locks.{
  LockRequest, OperationLock, LockRow, Locks, row_of, acquire_lock, heartbeat_lock, release_lock,
  owned,
}
use apm_projectrunner.State.Locks.Exclusion.{acquire_lock-IsGranted, run, run-keeps, Call, Foreign}

-- The holder can go on: its heartbeat is accepted and moves the expiry, and its release is accepted
-- and frees the deployment.
pub record IsHeld (lock : OperationLock) (locks : Locks) (now ttl later : ℤ) : Type 0 where
  pub renewed : OperationLock × Locks
  pub beats : heartbeat_lock no_faults locks lock now ttl ≡ ok renewed
  pub moved : renewed.0 ≡ record lock { expires_at = later }
  pub frees : release_lock no_faults locks lock ≡ ok (tt, remove lock.deployment locks)

holds :
    (lock : OperationLock) (row : LockRow) (locks : Locks) (now ttl later : ℤ)
    → get lock.deployment locks ≡ some row
    → owned lock row ≡ true
    → now <ℤ row.expires_at
    → pos 0 <ℤ ttl
    → checked_add now ttl ≡ some later
    → IsHeld lock locks now ttl later
unfolding heartbeat_lock release_lock
holds lock row locks now ttl later stood ours early positive fits = record {
  renewed = (
    record lock { expires_at = later },
    insert lock.deployment (record row { heartbeat_at = now; expires_at = later }) locks,
  );
  beats =
      rw (ltb_ℤ_of_lt (pos 0) ttl positive, fits, stood, ours, ltb_ℤ_of_lt now row.expires_at early)
        refl;
  moved = refl;
  frees = rw (stood, ours) refl;
}

-- The row of a granted lease stands after any calls by others.
pub granted-stands :
    (f : Faults) (locks : Locks) (r : LockRequest) (lock : OperationLock) (locks' : Locks)
    (cs : List Call)
    → acquire_lock f locks r ≡ ok (lock, locks')
    → All (Foreign r.deployment (row_of r lock.expires_at)) cs
    → get r.deployment (run locks' cs) ≡ some (row_of r lock.expires_at)
granted-stands f locks r lock locks' cs granted foreign =
    let g = acquire_lock-IsGranted f locks r lock locks' granted in
    let same : lock.expires_at ≡ g.expires_at =
      ap (λ (l : OperationLock). l.expires_at) g.lock_is in
    let here : get r.deployment locks' ≡ some (row_of r lock.expires_at) =
      subst (λ m. get r.deployment m ≡ some (row_of r lock.expires_at)) (sym g.locks_are)
        (subst
          (λ x.
            get r.deployment (insert r.deployment (row_of r g.expires_at) locks)
            ≡ some (row_of r x))
          (sym same) (get-insert_self r.deployment (row_of r g.expires_at) locks)) in
    run-keeps r.deployment (row_of r lock.expires_at) locks' cs here foreign

-- A granted lease is exclusive while it runs. After any sequence of calls by others, in any order
-- and whether or not the database fails in them (requests for the deployment before the lease's
-- expiry, heartbeats and releases of locks with another owner or token, and any call for another
-- deployment), the holder's heartbeat before the expiry is accepted with its new expiry, and so
-- is its release, on a database that does not fail in these two.
pub lease_exclusive :
    (f : Faults) (locks : Locks) (r : LockRequest) (lock : OperationLock) (locks' : Locks)
    (cs : List Call) (now ttl later : ℤ)
    → acquire_lock f locks r ≡ ok (lock, locks')
    → All (Foreign r.deployment (row_of r lock.expires_at)) cs
    → now <ℤ lock.expires_at
    → pos 0 <ℤ ttl
    → checked_add now ttl ≡ some later
    → IsHeld lock (run locks' cs) now ttl later
lease_exclusive f locks r lock locks' cs now ttl later granted foreign early positive fits =
    let g = acquire_lock-IsGranted f locks r lock locks' granted in
    let place : lock.deployment ≡ r.deployment =
      ap (λ (l : OperationLock). l.deployment) g.lock_is in
    holds lock (row_of r lock.expires_at) (run locks' cs) now ttl later
      (subst (λ d. get d (run locks' cs) ≡ some (row_of r lock.expires_at)) (sym place)
        (granted-stands f locks r lock locks' cs granted foreign))
      (subst (λ l. owned l (row_of r lock.expires_at) ≡ true) (sym g.lock_is)
        (ground
          (arith, string_eq.beq_correct r.owner r.owner, string_eq.beq_correct r.token r.token)))
      early positive fits

-- A lock whose deployment has been granted to a request of another owner or another token is lost:
-- after any sequence of calls by parties other than the new holder, its heartbeat (with a valid
-- TTL) and its release are refused as lost, on a database that does not fail in these two.
pub lost_after_takeover :
    (f : Faults) (locks : Locks) (r : LockRequest) (lock : OperationLock) (locks' : Locks)
    (cs : List Call) (old : OperationLock) (now ttl later : ℤ)
    → acquire_lock f locks r ≡ ok (lock, locks')
    → All (Foreign r.deployment (row_of r lock.expires_at)) cs
    → old.deployment ≡ r.deployment
    → (old.owner ≢ r.owner) ⊎ (old.token ≢ r.token)
    → pos 0 <ℤ ttl
    → checked_add now ttl ≡ some later
    → (heartbeat_lock no_faults (run locks' cs) old now ttl ≡ err (lock_lost old.deployment))
      × (release_lock no_faults (run locks' cs) old ≡ err (lock_lost old.deployment))
unfolding heartbeat_lock release_lock
lost_after_takeover f locks r lock locks' cs old now ttl later granted foreign place other positive
      fits =
    let stood : get old.deployment (run locks' cs) ≡ some (row_of r lock.expires_at) =
      subst (λ d. get d (run locks' cs) ≡ some (row_of r lock.expires_at)) (sym place)
        (granted-stands f locks r lock locks' cs granted foreign) in
    let stranger : owned old (row_of r lock.expires_at) ≡ false =
      ground
        (arith, string_eq.beq_correct r.owner old.owner, string_eq.beq_correct r.token old.token) in
    (rw (ltb_ℤ_of_lt (pos 0) ttl positive, fits, stood, stranger) refl, rw (stood, stranger) refl)
