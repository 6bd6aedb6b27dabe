-- ===== src/State/Locks/Exclusion.antt =====
-- When a lease is granted, and that the calls of others leave its row as it is.
use apm_projectrunner.Base.{
  String, ◌≡◌, ◌≢◌, subst, ◌⊎◌, ◌↔◌, inl, inr, true, false, List, [], ◌∷◌, none, some, get, insert,
  get-insert, get-remove, All, arith, is_some, string_eq, ℤ, pos, ◌<ℤ◌, ◌≤ℤ◌, ltb_ℤ, checked_add,
  ltb_ℤ_of_lt, Bool-cases, Option-cases, ◌==◌,
}
use apm_projectrunner.State.Error.{
  ensure, Result, ok, err, Faults, no_faults, pass, bind-eq-ok, Result-cases,
}
use apm_projectrunner.State.Locks.{
  LockRequest, OperationLock, LockRow, Locks, row_of, lock_of, check_request, acquire_lock,
  heartbeat_lock, release_lock, owned, unlocked, expiry,
}

-- What a granted request went through.
pub record IsGranted (locks : Locks) (r : LockRequest) (lock : OperationLock) (locks' : Locks)
    : Type 0 where
  pub expires_at : ℤ
  pub checked : check_request r ≡ ok expires_at
  pub unheld : unlocked r.deployment r.now (get r.deployment locks) ≡ ok tt
  pub lock_is : lock ≡ lock_of r expires_at (is_some (get r.deployment locks))
  pub locks_are : locks' ≡ insert r.deployment (row_of r expires_at) locks

pub acquire_lock-IsGranted :
    (f : Faults) (locks : Locks) (r : LockRequest) (lock : OperationLock) (locks' : Locks)
    → acquire_lock f locks r ≡ ok (lock, locks')
    → IsGranted locks r lock locks'
unfolding acquire_lock
acquire_lock-IsGranted f locks r lock locks' h =
    let (x, checked, h1) = bind-eq-ok (check_request r) _ h in
    let (_, read, h2) = bind-eq-ok (pass f.reading) _ h1 in
    let (_, unheld, h3) = bind-eq-ok (unlocked r.deployment r.now (get r.deployment locks)) _ h2 in
    let (_, written, h4) = bind-eq-ok (pass f.writing) _ h3 in
    record {
      expires_at = x;
      checked = checked;
      unheld = unheld;
      lock_is = cc h4;
      locks_are = cc h4;
    }

-- What a successful heartbeat went through.
pub record IsRenewed (locks : Locks) (lock : OperationLock) (now ttl : ℤ) (lock' : OperationLock)
    (locks' : Locks) : Type 0 where
  pub expires_at : ℤ
  pub row : LockRow
  pub fits : checked_add now ttl ≡ some expires_at
  pub stood : get lock.deployment locks ≡ some row
  pub ours : owned lock row ≡ true
  pub running : ltb_ℤ now row.expires_at ≡ true
  pub lock_is : lock' ≡ record lock { expires_at = expires_at }
  pub locks_are :
      locks'
      ≡ insert lock.deployment (record row { heartbeat_at = now; expires_at = expires_at }) locks

heartbeat_lock-IsRenewed :
    (f : Faults) (locks : Locks) (lock : OperationLock) (now ttl : ℤ) (lock' : OperationLock)
    (locks' : Locks)
    → heartbeat_lock f locks lock now ttl ≡ ok (lock', locks')
    → IsRenewed locks lock now ttl lock' locks'
unfolding heartbeat_lock
heartbeat_lock-IsRenewed f locks lock now ttl lock' locks' h =
    let (_, positive, h1) = bind-eq-ok (ensure (ltb_ℤ (pos 0) ttl) _) _ h in
    let (x, fits, h2) = bind-eq-ok (expiry (checked_add now ttl)) _ h1 in
    let (_, written, h3) = bind-eq-ok (pass f.writing) _ h2 in
    elim (Option-cases (get lock.deployment locks)) [
      | inl missing ↦ absurd (ground arith)
      | inr (row, stood) ↦ record {
        expires_at = x;
        row = row;
        fits = ground arith;
        stood = stood;
        ours = ground arith;
        running = ground arith;
        lock_is = ground arith;
        locks_are = ground arith;
      }
    ]

-- No lease for the deployment is running at that time.
abbrev pub Free : String → ℤ → Locks → Type 0
Free deployment now locks =
    (get deployment locks ≡ none)
    ⊎ ((row : LockRow) × (get deployment locks ≡ some row) × (row.expires_at ≤ℤ now))

-- A request that passes its checks, with `x` as its expiry, on a database that does not fail, is
-- granted exactly when no lease for its deployment is running at its time. The lease then stands
-- in the table in place of the old row, and says whether it replaced one.
pub acquire_lock-ok_iff :
    (locks : Locks) (r : LockRequest) (x : ℤ)
    → check_request r ≡ ok x
    → (acquire_lock no_faults locks r
        ≡ ok (
          lock_of r x (is_some (get r.deployment locks)),
          insert r.deployment (row_of r x) locks,
        ))
      ↔ Free r.deployment r.now locks
unfolding acquire_lock
acquire_lock-ok_iff locks r x checked = elim (Option-cases (get r.deployment locks)) [
  | inl e ↦ (λ h. inl e, λ free. ground arith)
  | inr (row, e) ↦ elim (Bool-cases (ltb_ℤ r.now row.expires_at)) [
    | inl held ↦ (λ h. absurd (ground arith), λ free. absurd (ground arith))
    | inr over ↦ (λ h. inr (row, e, ground arith), λ free. ground arith)
  ]
]

-- The calls of the processes that share the table.
pub data Call : Type 0 where
  acquires : Faults → LockRequest → Call
  heartbeats : Faults → OperationLock → ℤ → ℤ → Call
  releases : Faults → OperationLock → Call

abbrev pub after {ℓ} : {A : Type ℓ} → Locks → Result (A × Locks) → Locks
after locks (ok (a, locks')) = locks'
after locks (err why) = locks

pub step : Locks → Call → Locks
step locks (acquires f r) = after locks (acquire_lock f locks r)
step locks (heartbeats f lock now ttl) = after locks (heartbeat_lock f locks lock now ttl)
step locks (releases f lock) = after locks (release_lock f locks lock)

pub run : Locks → List Call → Locks
run locks [] = locks
run locks (c ∷ cs) = run (step locks c) cs

-- A call of another party: of another deployment, or a request before the lease expires, or a
-- heartbeat or release of a lock with another owner or token.
abbrev pub Foreign : String → LockRow → Call → Type 0
Foreign deployment row (acquires f r) = (r.deployment ≢ deployment) ⊎ (r.now <ℤ row.expires_at)
Foreign deployment row (heartbeats f lock now ttl) =
    (lock.deployment ≢ deployment) ⊎ (owned lock row ≡ false)
Foreign deployment row (releases f lock) = (lock.deployment ≢ deployment) ⊎ (owned lock row ≡ false)

module _ (deployment : String) (row : LockRow) (locks : Locks)
    (h : get deployment locks ≡ some row) where
  other_key :
      (d : String) (v : LockRow) → d ≢ deployment → get deployment (insert d v locks) ≡ some row
  other_key d v ne =
      ground (arith, get-insert d deployment v locks, string_eq.beq_correct d deployment)

  acquire-keeps :
      (f : Faults) (r : LockRequest)
      → Foreign deployment row (acquires f r)
      → get deployment (after locks (acquire_lock f locks r)) ≡ some row
  acquire-keeps f r foreign = elim (Result-cases (acquire_lock f locks r)) [
    | inr (why, e) ↦ rw e h
    | inl ((lock, locks'), e) ↦
        let g = acquire_lock-IsGranted f locks r lock locks' e in
        rw (e, g.locks_are)
          (elim foreign [
            | inl ne ↦ other_key r.deployment (row_of r g.expires_at) ne
            | inr early ↦ elim (Bool-cases (r.deployment == deployment)) [
              | inr other ↦
                  other_key r.deployment (row_of r g.expires_at)
                    (λ same. ground (arith, string_eq.beq_correct r.deployment deployment))
              | inl same ↦ absurd (
                  ground (
                    arith,
                    g.unheld,
                    h,
                    string_eq.beq_correct r.deployment deployment,
                    ltb_ℤ_of_lt r.now row.expires_at early,
                  ))
            ]
          ])
  ]

  heartbeat-keeps :
      (f : Faults) (lock : OperationLock) (now ttl : ℤ)
      → Foreign deployment row (heartbeats f lock now ttl)
      → get deployment (after locks (heartbeat_lock f locks lock now ttl)) ≡ some row
  heartbeat-keeps f lock now ttl foreign =
      elim (Result-cases (heartbeat_lock f locks lock now ttl)) [
        | inr (why, e) ↦ rw e h
        | inl ((lock', locks'), e) ↦
            let g = heartbeat_lock-IsRenewed f locks lock now ttl lock' locks' e in
            rw (e, g.locks_are)
              (elim foreign [
                | inl ne ↦ other_key lock.deployment _ ne
                | inr stranger ↦ elim (Bool-cases (lock.deployment == deployment)) [
                  | inr other ↦
                      other_key lock.deployment _
                        (λ same. ground (arith, string_eq.beq_correct lock.deployment deployment))
                  | inl same ↦
                      let here : get deployment locks ≡ some g.row =
                        subst (λ d. get d locks ≡ some g.row) ((string_eq.beq_correct _ _).0 same)
                          g.stood in
                      let one : row ≡ g.row = ground arith in
                      absurd
                        (ground (arith, g.ours, subst (λ w. owned lock w ≡ false) one stranger))
                ]
              ])
      ]

  release-keeps :
      (f : Faults) (lock : OperationLock)
      → Foreign deployment row (releases f lock)
      → get deployment (after locks (release_lock f locks lock)) ≡ some row
  unfolding release_lock
  release-keeps f lock foreign = ground (
    arith,
    get-remove lock.deployment deployment locks,
    string_eq.beq_correct lock.deployment deployment,
  )

  step-keeps : (c : Call) → Foreign deployment row c → get deployment (step locks c) ≡ some row
  unfolding step
  step-keeps (acquires f r) foreign = acquire-keeps f r foreign
  step-keeps (heartbeats f lock now ttl) foreign = heartbeat-keeps f lock now ttl foreign
  step-keeps (releases f lock) foreign = release-keeps f lock foreign

pub run-keeps :
    (deployment : String) (row : LockRow) (locks : Locks) (cs : List Call)
    → get deployment locks ≡ some row
    → All (Foreign deployment row) cs
    → get deployment (run locks cs) ≡ some row
unfolding run
run-keeps deployment row locks [] h foreign = h
run-keeps deployment row locks (c ∷ cs) h (p, foreign) =
    run-keeps deployment row (step locks c) cs (step-keeps deployment row locks h c p) foreign
