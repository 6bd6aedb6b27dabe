-- ===== src/State/Operations/History.antt =====
-- What the calls of a process do to the table over time.
use apm_projectrunner.Base.{
  ℕ, ◌≡◌, ◌⊎◌, inl, inr, refl, sym, ap, subst, ◌∙◌, String, false, List, [], ◌∷◌, ◌++◌, Option,
  none, map, find, Distinct, All, arith, is_some, not, ◌==◌, string_eq, ℤ, Bool-cases,
}
use apm_projectrunner.State.Error.{
  Result, ok, err, ensure, validate_id, Faults, pass, bind-eq-ok, Result-cases,
}
use apm_projectrunner.State.Operations.{
  OperationRecord, OperationStatus, OperationError, StoredOperation, Table, id_of, row_of,
  start_operation, update_operation, updated, unfinished, abandoned, recover_abandoned_operations,
  validate_instance,
}

-- The calls that write to the table.
pub data Call : Type 0 where
  starts : Faults → OperationRecord → Call
  updates : Faults → String → OperationStatus → Option ℤ → Option OperationError → Call
  recovers : Faults → ℤ → Call

abbrev pub after {ℓ} : {A : Type ℓ} → Table → Result (A × Table) → Table
after table (ok (_, table')) = table'
after table (err why) = table

unfoldable pub step : String → Table → Call → Table
step violation table (starts f o) = after table (start_operation violation f table o)
step violation table (updates f id status finished_at error) =
    after table (update_operation f table id status finished_at error)
step violation table (recovers f finished_at) =
    after table (recover_abandoned_operations f table finished_at)

unfoldable pub run : String → Table → List Call → Table
run violation table [] = table
run violation table (c ∷ cs) = run violation (step violation table c) cs

-- What identifies an operation: all of a row but its status, its end and its error.
pub record Identity : Type 0 where
  pub id : String
  pub deployment : String
  pub instance_ : Option String
  pub kind : String
  pub started_at : ℤ

abbrev pub identity : StoredOperation → Identity
identity row = record {
  id = row.id;
  deployment = row.deployment;
  instance_ = row.instance_;
  kind = row.kind;
  started_at = row.started_at;
}

-- A call gives new values to some rows, without touching their identities, or adds a row.
Changes : Table → Table → Type 0
Changes table table' =
    ((g : StoredOperation → StoredOperation) × ((row : StoredOperation)
        → identity (g row) ≡ identity row)
      × (table' ≡ map g table))
    ⊎ ((row : StoredOperation) × (find id_of row.id table ≡ none) × (table' ≡ table ++ row ∷ []))

map_id : (table : Table) → table ≡ map (λ row. row) table
map_id [] = refl
map_id (row ∷ rows) = ap (λ rest. row ∷ rest) (map_id rows)

unchanged : (table : Table) → Changes table table
unfolding Changes
unchanged table = inl (λ row. row, λ row. refl, map_id table)

start-Changes :
    (violation : String) (f : Faults) (table : Table) (o : OperationRecord) (table' : Table)
    → start_operation violation f table o ≡ ok (tt, table')
    → Changes table table'
unfolding Changes start_operation
start-Changes violation f table o table' h =
    let (_, a, h1) = bind-eq-ok (validate_id "operation id" o.id) _ h in
    let (_, b, h2) = bind-eq-ok (validate_id "deployment" o.deployment) _ h1 in
    let (_, c, h3) = bind-eq-ok (validate_instance o.instance_) _ h2 in
    let (_, d, h4) = bind-eq-ok (pass f.writing) _ h3 in
    let (_, e, h5) = bind-eq-ok (ensure (not (is_some (find id_of o.id table))) _) _ h4 in
    inr (row_of o, ground arith, ground arith)

updated-identity :
    (id : String) (status : OperationStatus) (finished_at : Option ℤ)
    (error : Option OperationError) (row : StoredOperation)
    → identity (updated id status finished_at error row) ≡ identity row
updated-identity id status finished_at error row = elim (Bool-cases (row.id == id)) [
  | inl e ↦ rw e refl
  | inr e ↦ rw e refl
]

update-Changes :
    (f : Faults) (table : Table) (id : String) (status : OperationStatus) (finished_at : Option ℤ)
    (error : Option OperationError) (table' : Table)
    → update_operation f table id status finished_at error ≡ ok (tt, table')
    → Changes table table'
unfolding Changes update_operation
update-Changes f table id status finished_at error table' h =
    let (_, a, h1) = bind-eq-ok (pass f.writing) _ h in
    let (_, b, h2) = bind-eq-ok (ensure (is_some (find id_of id table)) _) _ h1 in
    inl (
      updated id status finished_at error,
      updated-identity id status finished_at error,
      ground arith,
    )

abandoned-identity :
    (finished_at : ℤ) (row : StoredOperation) → identity (abandoned finished_at row) ≡ identity row
unfolding abandoned
abandoned-identity finished_at row = elim (Bool-cases (unfinished row)) [
  | inl e ↦ rw e refl
  | inr e ↦ rw e refl
]

recover-Changes :
    (f : Faults) (table : Table) (finished_at : ℤ) (n : ℕ) (table' : Table)
    → recover_abandoned_operations f table finished_at ≡ ok (n, table')
    → Changes table table'
unfolding Changes recover_abandoned_operations
recover-Changes f table finished_at n table' h =
    let (_, a, h1) = bind-eq-ok (pass f.writing) _ h in
    inl (abandoned finished_at, abandoned-identity finished_at, ground arith)

step-Changes :
    (violation : String) (table : Table) (c : Call) → Changes table (step violation table c)
unfolding step
step-Changes violation table (starts f o) =
    elim (Result-cases (start_operation violation f table o)) [
      | inr (why, e) ↦ rw e (unchanged table)
      | inl ((_, table'), e) ↦ rw e (start-Changes violation f table o table' e)
    ]
step-Changes violation table (updates f id status finished_at error) =
    elim (Result-cases (update_operation f table id status finished_at error)) [
      | inr (why, e) ↦ rw e (unchanged table)
      | inl ((_, table'), e) ↦ rw e (update-Changes f table id status finished_at error table' e)
    ]
step-Changes violation table (recovers f finished_at) =
    elim (Result-cases (recover_abandoned_operations f table finished_at)) [
      | inr (why, e) ↦ rw e (unchanged table)
      | inl ((n, table'), e) ↦ rw e (recover-Changes f table finished_at n table' e)
    ]

identities : Table → List Identity
identities = map identity

map-identity :
    (g : StoredOperation → StoredOperation)
    (same : (row : StoredOperation) → identity (g row) ≡ identity row) (table : Table)
    → map identity (map g table) ≡ map identity table
map-identity g same [] = refl
map-identity g same (row ∷ rows) = λ i. same row i ∷ map-identity g same rows i

map-append {ℓ κ} :
    {A : Type ℓ} {B : Type κ} (f : A → B) (xs ys : List A) → map f (xs ++ ys) ≡ map f xs ++ map f ys
map-append f [] ys = refl
map-append f (x ∷ xs) ys = ap (λ zs. f x ∷ zs) (map-append f xs ys)

append_assoc {ℓ} : {A : Type ℓ} (xs ys zs : List A) → (xs ++ ys) ++ zs ≡ xs ++ (ys ++ zs)
append_assoc [] ys zs = refl
append_assoc (x ∷ xs) ys zs = ap (λ ws. x ∷ ws) (append_assoc xs ys zs)

append_nil {ℓ} : {A : Type ℓ} (xs : List A) → xs ≡ xs ++ []
append_nil [] = refl
append_nil (x ∷ xs) = ap (λ ws. x ∷ ws) (append_nil xs)

Changes-grows :
    (table table' : Table)
    → Changes table table'
    → (more : List Identity) × (map identity table' ≡ map identity table ++ more)
unfolding Changes
Changes-grows table table' (inl (g, same, e)) =
    ([], rw e (map-identity g same table) ∙ append_nil (map identity table))
Changes-grows table table' (inr (row, fresh, e)) =
    (identity row ∷ [], rw e (map-append identity table (row ∷ [])))

-- The history of operations is only added to. Whatever the calls (starts, updates and recoveries,
-- accepted or refused, with or without failures of the database), the rows of a table stay in
-- place in their order, each with its identifier, deployment, instance, kind and start time.
pub run-grows :
    (violation : String) (table : Table) (cs : List Call)
    → (more : List Identity) × (map identity (run violation table cs) ≡ map identity table ++ more)
unfolding run
run-grows violation table [] = ([], append_nil (map identity table))
run-grows violation table (c ∷ cs) =
    let (one, e) = Changes-grows table (step violation table c) (step-Changes violation table c) in
    let (rest, h) = run-grows violation (step violation table c) cs in
    (one ++ rest, h ∙ ap (λ xs. xs ++ rest) e ∙ append_assoc (map identity table) one rest)

-- Distinct identifiers.
apart-map :
    (g : StoredOperation → StoredOperation)
    (same : (row : StoredOperation) → identity (g row) ≡ identity row) (id : String) (rows : Table)
    → All (λ r. (id == id_of r) ≡ false) rows
    → All (λ r. (id == id_of r) ≡ false) (map g rows)
apart-map g same id [] h = tt
apart-map g same id (row ∷ rows) (p, h) =
    (rw (ap (λ (i : Identity). i.id) (same row)) p, apart-map g same id rows h)

Distinct-map :
    (g : StoredOperation → StoredOperation)
    (same : (row : StoredOperation) → identity (g row) ≡ identity row) (rows : Table)
    → Distinct id_of rows
    → Distinct id_of (map g rows)
Distinct-map g same [] d = tt
Distinct-map g same (row ∷ rows) (p, d) = (
  subst (λ id. All (λ r. (id == id_of r) ≡ false) (map g rows))
      (sym (ap (λ (i : Identity). i.id) (same row))) (apart-map g same row.id rows p),
  Distinct-map g same rows d,
)

apart-append :
    (id : String) (rows : Table) (new : StoredOperation)
    → All (λ r. (id == id_of r) ≡ false) rows
    → (id == new.id) ≡ false
    → All (λ r. (id == id_of r) ≡ false) (rows ++ new ∷ [])
apart-append id [] new h e = (e, tt)
apart-append id (row ∷ rows) new (p, h) e = (p, apart-append id rows new h e)

Distinct-append :
    (rows : Table) (new : StoredOperation)
    → find id_of new.id rows ≡ none
    → Distinct id_of rows
    → Distinct id_of (rows ++ new ∷ [])
Distinct-append [] new fresh d = (tt, tt)
Distinct-append (row ∷ rows) new fresh (p, d) =
    (apart-append row.id rows new p (ground arith), Distinct-append rows new (ground arith) d)

Changes-Distinct :
    (table table' : Table) → Changes table table' → Distinct id_of table → Distinct id_of table'
unfolding Changes
Changes-Distinct table table' (inl (g, same, e)) d = rw e (Distinct-map g same table d)
Changes-Distinct table table' (inr (row, fresh, e)) d = rw e (Distinct-append table row fresh d)

pub run-Distinct :
    (violation : String) (table : Table) (cs : List Call)
    → Distinct id_of table
    → Distinct id_of (run violation table cs)
unfolding run
run-Distinct violation table [] d = d
run-Distinct violation table (c ∷ cs) d =
    run-Distinct violation (step violation table c) cs
      (Changes-Distinct table (step violation table c) (step-Changes violation table c) d)
