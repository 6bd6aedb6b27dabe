-- ===== src/State/Examples.antt =====
-- Runs of the state store on small tables.
use apm_projectrunner.Base.{
  string_eq, ◌≡◌, ◌↔◌, inl, inr, refl, true, false, List, [], ◌∷◌, is_some, get, insert,
  checked_add, pos, arith, is_blank, ◌+ℤ◌,
}
use apm_projectrunner.State.Error.{ok, err, no_faults, lock_lost, validate_id}
use apm_projectrunner.State.Locks.{
  LockRequest, Locks, check_request, acquire_lock, heartbeat_lock, release_lock, row_of, lock_of,
}
use apm_projectrunner.State.Locks.Exclusion.{
  Free, acquire_lock-ok_iff, Call, run, acquires, releases,
}
use apm_projectrunner.State.Locks.Holder.{IsHeld, lease_exclusive, lost_after_takeover}

abbrev first_request : LockRequest
first_request = record {
  deployment = "demo";
  owner = "cli-1";
  pid = 41;
  process_started_at = pos 5;
  token = "t-1";
  now = pos 100;
  ttl_millis = pos 50;
}

-- Another process asks again after the first lease has run out.
abbrev second_request : LockRequest
second_request = record first_request { owner = "cli-2"; token = "t-2"; now = pos 160 }

abbrev first_locks : Locks
first_locks = ("demo", row_of first_request (pos 150)) ∷ []

abbrev second_locks : Locks
second_locks = ("demo", row_of second_request (pos 210)) ∷ []

first_checked : check_request first_request ≡ ok (pos 150)
unfolding check_request validate_id is_blank checked_add ◌+ℤ◌
first_checked = refl

second_checked : check_request second_request ≡ ok (pos 210)
unfolding check_request validate_id is_blank checked_add ◌+ℤ◌
second_checked = refl

first_granted :
    acquire_lock no_faults [] first_request
    ≡ ok (lock_of first_request (pos 150) false, first_locks)
unfolding acquire_lock get insert
first_granted = rw first_checked refl

second_granted :
    acquire_lock no_faults first_locks second_request
    ≡ ok (lock_of second_request (pos 210) true, second_locks)
unfolding acquire_lock get insert
second_granted = rw second_checked refl

acquire_lock-ok_iff_example :
    (acquire_lock no_faults first_locks second_request
      ≡ ok (
        lock_of second_request (pos 210) (is_some (get "demo" first_locks)),
        insert "demo" (row_of second_request (pos 210)) first_locks,
      ))
    ↔ Free "demo" (pos 160) first_locks
acquire_lock-ok_iff_example =
    acquire_lock-ok_iff first_locks second_request (pos 210) second_checked

-- The other process asks too early, and tries to release what it does not hold.
abbrev early_calls : List Call
early_calls =
    acquires no_faults (record second_request { now = pos 120 })
    ∷ releases no_faults (lock_of second_request (pos 210) false)
    ∷ []

lease_exclusive_example :
    IsHeld
      (lock_of first_request (pos 150) false)
      (run first_locks early_calls)
      (pos 140)
      (pos 50)
      (pos 190)
unfolding checked_add ◌+ℤ◌
lease_exclusive_example =
    lease_exclusive no_faults [] first_request (lock_of first_request (pos 150) false) first_locks
      early_calls (pos 140) (pos 50) (pos 190) first_granted (inr (omega arith), (inr refl, tt))
      (omega arith) (omega arith) refl

lost_after_takeover_example :
    (heartbeat_lock no_faults
        (run second_locks [])
        (lock_of first_request (pos 150) false)
        (pos 170)
        (pos 50)
      ≡ err (lock_lost "demo"))
    × (release_lock no_faults (run second_locks []) (lock_of first_request (pos 150) false)
        ≡ err (lock_lost "demo"))
unfolding checked_add ◌+ℤ◌
lost_after_takeover_example =
    lost_after_takeover no_faults first_locks second_request (lock_of second_request (pos 210) true)
      second_locks [] (lock_of first_request (pos 150) false) (pos 170) (pos 50) (pos 220)
      second_granted tt refl (inl (ground (arith, string_eq.beq_correct "cli-1" "cli-2")))
      (omega arith) refl
