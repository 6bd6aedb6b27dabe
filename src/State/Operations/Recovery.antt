-- ===== src/State/Operations/Recovery.antt =====
-- What recovery after a restart of the daemon leaves in the table.
use apm_projectrunner.Base.{
  ℕ, ◌≡◌, refl, ap, ◌∙◌, String, true, false, [], ◌∷◌, some, map, find, filter, length, All, arith,
  ◌==◌, ◌||◌, string_eq, ℤ, Bool-cases, inl, inr,
}
use apm_projectrunner.State.Error.{ok, no_faults}
use apm_projectrunner.State.Operations.{
  StoredOperation, Table, id_of, unfinished, abandoned, recover_abandoned_operations,
}

-- The outcome of a recovery of the table at a time.
pub record IsRecovered (table : Table) (finished_at : ℤ) (n : ℕ) (table' : Table) : Type 0 where
  pub returns : recover_abandoned_operations no_faults table finished_at ≡ ok (n, table')
  pub counts : n ≡ length (filter unfinished table)
  pub settled : All (λ row. unfinished row ≡ false) table'
  pub kept :
      (id : String) (row : StoredOperation)
      → find id_of id table ≡ some row
      → unfinished row ≡ false
      → find id_of id table' ≡ some row
  pub failed :
      (id : String) (row : StoredOperation)
      → find id_of id table ≡ some row
      → unfinished row ≡ true
      → find id_of id table'
        ≡ some (record row {
          status = "failed";
          finished_at = some finished_at;
          error_code = some "daemon_restarted";
          error_context_json = some "{}";
        })
  pub again : (later : ℤ) → recover_abandoned_operations no_faults table' later ≡ ok (0, table')

abandoned-settled : (t : ℤ) (row : StoredOperation) → unfinished (abandoned t row) ≡ false
unfolding abandoned unfinished
abandoned-settled t row = elim (Bool-cases (row.status == "pending" || row.status == "running")) [
  | inl e ↦ rw e refl
  | inr e ↦ rw e e
]

map-settled : (t : ℤ) (rows : Table) → All (λ row. unfinished row ≡ false) (map (abandoned t) rows)
map-settled t [] = tt
map-settled t (row ∷ rows) = (abandoned-settled t row, map-settled t rows)

abandoned-id : (t : ℤ) (row : StoredOperation) → (abandoned t row).id ≡ row.id
unfolding abandoned
abandoned-id t row = elim (Bool-cases (unfinished row)) [ inl e ↦ rw e refl | inr e ↦ rw e refl ]

find-map :
    (t : ℤ) (id : String) (row : StoredOperation) (rows : Table)
    → find id_of id rows ≡ some row
    → find id_of id (map (abandoned t) rows) ≡ some (abandoned t row)
unfolding abandoned
find-map t id row [] h = absurd (ground arith)
find-map t id row (r ∷ rows) h = elim (Bool-cases (r.id == id)) [
  | inl e ↦
      let same : r ≡ row = ground arith in
      rw (abandoned-id t r, e) (ap (λ w. some (abandoned t w)) same)
  | inr e ↦ rw (abandoned-id t r, e) (find-map t id row rows (ground arith))
]

settled_map :
    (t : ℤ) (rows : Table)
    → All (λ row. unfinished row ≡ false) rows
    → (map (abandoned t) rows ≡ rows) × (length (filter unfinished rows) ≡ 0)
unfolding abandoned
settled_map t [] h = (refl, refl)
settled_map t (row ∷ rows) (p, h) =
    let (same, none_left) = settled_map t rows h in
    (rw p (ap (λ rest. row ∷ rest) same), rw p none_left)

idle : (t : ℤ) (row : StoredOperation) → unfinished row ≡ false → abandoned t row ≡ row
unfolding abandoned
idle t row e = rw e refl

broken :
    (t : ℤ) (row : StoredOperation)
    → unfinished row ≡ true
    → abandoned t row ≡ record row {
      status = "failed";
      finished_at = some t;
      error_code = some "daemon_restarted";
      error_context_json = some "{}";
    }
unfolding abandoned
broken t row e = rw e refl

-- Recovery succeeds when the database does not fail, and counts the rows it changes. It leaves no
-- row pending or running, keeps every finished row as it was, gives every other one the status
-- failed, the time of the recovery and the code `daemon_restarted` in its place, and changes
-- nothing when it is called again.
pub recover_lem :
    (table : Table) (finished_at : ℤ)
    → (n : ℕ) × (table' : Table) × IsRecovered table finished_at n table'
unfolding recover_abandoned_operations
recover_lem table finished_at =
    let settled = map-settled finished_at table in
    (
      length (filter unfinished table),
      map (abandoned finished_at) table,
      record {
        returns = refl;
        counts = refl;
        settled = settled;
        kept = λ id row found e.
            find-map finished_at id row table found ∙ ap some (idle finished_at row e);
        failed = λ id row found e.
            find-map finished_at id row table found ∙ ap some (broken finished_at row e);
        again = λ later.
            let (same, zero_left) = settled_map later (map (abandoned finished_at) table) settled in
            rw (same, zero_left) refl;
      },
    )
