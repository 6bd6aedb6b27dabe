-- ===== src/State/Apply/Serving.antt =====
-- Which snapshot a router serves, and which one it would be rolled back to, by the records.
use apm_projectrunner.Base.{
  ◌≡◌, refl, inl, inr, ◌⊎◌, Bool-cases, String, true, false, List, [], ◌∷◌, Option, some, get,
  get-insert, get-insert_self, or_else, ◌∙◌, All, arith, ◌==◌, ◌≢◌, ℤ, not, any, sym, subst, insert,
  pair_eq, string_eq,
}
use apm_projectrunner.State.Error.{
  Result, ok, err, ensure, validate_id, Faults, pass, bind-eq-ok, Result-cases,
}
use apm_projectrunner.State.Apply.{
  next_sequence, RouterApplyRecord, RouterBindingState, Applies, current_version?,
  current_checksum?, snapshot_of, clashes, Key, key_of, activates, next_row, record_router_apply,
}

abbrev pub after : Applies → Result (Unit {0} × Applies) → Applies
after tables (ok (_, tables')) = tables'
after tables (err why) = tables

-- The records of a process in order, each with the failure of the database in it.
unfoldable pub run : String → Applies → List (Faults × RouterApplyRecord) → Applies
run violation tables [] = tables
run violation tables ((f, r) ∷ rs) =
    run violation (after tables (record_router_apply violation f tables r)) rs

accepted :
    (violation : String) (f : Faults) (tables : Applies) (r : RouterApplyRecord) (tables' : Applies)
    → record_router_apply violation f tables r ≡ ok (tt, tables')
    → tables'.bindings
      ≡ insert (key_of r) (next_row r (get (key_of r) tables.bindings)) tables.bindings
unfolding record_router_apply
accepted violation f tables r tables' h =
    let (_, d, h1) = bind-eq-ok (validate_id "deployment" r.deployment) _ h in
    let (_, o, h2) = bind-eq-ok (validate_id "router" r.router) _ h1 in
    let (_, b, h3) = bind-eq-ok (validate_id "binding" r.binding) _ h2 in
    let (_, c, h4) = bind-eq-ok (validate_id "checksum" r.checksum) _ h3 in
    let (_, reads, h5) = bind-eq-ok (pass f.reading) _ h4 in
    let (_, writes, h6) = bind-eq-ok (pass f.writing) _ h5 in
    let (_, unique, h7) =
      bind-eq-ok
        (ensure
          (not (any (clashes (snapshot_of (next_sequence tables.snapshots) r)) tables.snapshots)) _)
        _ h6 in
    ground arith

accepted_over :
    (violation : String) (f : Faults) (tables : Applies) (r : RouterApplyRecord) (tables' : Applies)
    (k : Key) (row : RouterBindingState)
    → record_router_apply violation f tables r ≡ ok (tt, tables')
    → key_of r ≡ k
    → get k tables.bindings ≡ some row
    → tables'.bindings ≡ insert k (next_row r (some row)) tables.bindings
accepted_over violation f tables r tables' k row e one stood =
    accepted violation f tables r tables' e ∙ rw (one, stood) refl

-- The row of the key names the version and the checksum that the router serves, and those before.
pub record IsServing (k : Key) (version : ℤ) (checksum : String) (before : Option ℤ)
    (before_checksum : Option String) (tables : Applies) : Type 0 where
  pub row : RouterBindingState
  pub stands : get k tables.bindings ≡ some row
  pub version_is : row.current_version ≡ some version
  pub checksum_is : row.current_checksum ≡ some checksum
  pub before_is : row.previous_version ≡ before
  pub before_checksum_is : row.previous_checksum ≡ before_checksum

-- A record of another binding, or one that activates nothing.
abbrev pub Quiet : Key → Faults × RouterApplyRecord → Type 0
Quiet k (f, r) = (key_of r ≢ k) ⊎ (activates r ≡ false)

IsServing-insert :
    (v : ℤ) (c : String) (pv : Option ℤ) (pc : Option String) (tables tables' : Applies) (k : Key)
    (row : RouterBindingState)
    → tables'.bindings ≡ insert k row tables.bindings
    → row.current_version ≡ some v
    → row.current_checksum ≡ some c
    → row.previous_version ≡ pv
    → row.previous_checksum ≡ pc
    → IsServing k v c pv pc tables'
IsServing-insert v c pv pc tables tables' k row e a b d g = record {
  row = row;
  stands = subst (λ m. get k m ≡ some row) (sym e) (get-insert_self k row tables.bindings);
  version_is = a;
  checksum_is = b;
  before_is = d;
  before_checksum_is = g;
}

module _ (violation : String) (k : Key) (v : ℤ) (c : String) (pv : Option ℤ)
    (pc : Option String) where
  accepted-keeps :
      (tables : Applies) (f : Faults) (r : RouterApplyRecord) (tables' : Applies)
      → Quiet k (f, r)
      → IsServing k v c pv pc tables
      → record_router_apply violation f tables r ≡ ok (tt, tables')
      → IsServing k v c pv pc tables'
  unfolding next_row
  accepted-keeps tables f r tables' quiet s e = elim (Bool-cases (key_of r == k)) [
    | inr other ↦ record {
      row = s.row;
      version_is = s.version_is;
      checksum_is = s.checksum_is;
      before_is = s.before_is;
      before_checksum_is = s.before_checksum_is;
      stands =
          subst (λ m. get k m ≡ some s.row) (sym (accepted violation f tables r tables' e))
            (get-insert (key_of r) k (next_row r (get (key_of r) tables.bindings)) tables.bindings
              ∙ rw other s.stands);
    }
    | inl same ↦
        let one : key_of r ≡ k = (pair_eq.beq_correct _ _).0 same in
        let idle : activates r ≡ false = elim quiet [ inl ne ↦ absurd (ne one) | inr e ↦ e ] in
        IsServing-insert v c pv pc tables tables' k (next_row r (some s.row))
          (accepted_over violation f tables r tables' k s.row e one s.stands)
          (rw (idle, s.version_is) refl) (rw (idle, s.checksum_is) refl)
          (rw (idle, s.before_is) refl) (rw (idle, s.before_checksum_is) refl)
  ]

  record-keeps :
      (tables : Applies) (f : Faults) (r : RouterApplyRecord)
      → Quiet k (f, r)
      → IsServing k v c pv pc tables
      → IsServing k v c pv pc (after tables (record_router_apply violation f tables r))
  record-keeps tables f r quiet s = elim (Result-cases (record_router_apply violation f tables r)) [
    | inr (why, e) ↦ subst (λ m. IsServing k v c pv pc (after tables m)) (sym e) s
    | inl ((_, tables'), e) ↦
        subst (λ m. IsServing k v c pv pc (after tables m)) (sym e)
          (accepted-keeps tables f r tables' quiet s e)
  ]

  run-keeps :
      (tables : Applies) (rs : List (Faults × RouterApplyRecord))
      → All (Quiet k) rs
      → IsServing k v c pv pc tables
      → IsServing k v c pv pc (run violation tables rs)
  unfolding run
  run-keeps tables [] quiet s = s
  run-keeps tables ((f, r) ∷ rs) (p, quiet) s =
      run-keeps (after tables (record_router_apply violation f tables r)) rs quiet
        (record-keeps tables f r p s)

activation :
    (violation : String) (f : Faults) (tables : Applies) (r : RouterApplyRecord) (tables' : Applies)
    → record_router_apply violation f tables r ≡ ok (tt, tables')
    → activates r ≡ true
    → IsServing
        (key_of r)
        r.version
        r.checksum
        (or_else (current_version? (get (key_of r) tables.bindings)) r.observed_version)
        (or_else (current_checksum? (get (key_of r) tables.bindings)) r.observed_checksum)
        tables'
unfolding next_row
activation violation f tables r tables' e on =
    IsServing-insert _ _ _ _ tables tables' (key_of r) (next_row r (get (key_of r) tables.bindings))
      (accepted violation f tables r tables' e) (rw on refl) (rw on refl) (rw on refl) (rw on refl)

activation_over :
    (violation : String) (f : Faults) (tables : Applies) (r : RouterApplyRecord) (tables' : Applies)
    (k : Key) (v : ℤ) (c : String) (pv : Option ℤ) (pc : Option String)
    → record_router_apply violation f tables r ≡ ok (tt, tables')
    → activates r ≡ true
    → key_of r ≡ k
    → IsServing k v c pv pc tables
    → IsServing k r.version r.checksum (some v) (some c) tables'
unfolding next_row
activation_over violation f tables r tables' k v c pv pc e on one s =
    IsServing-insert r.version r.checksum (some v) (some c) tables tables' k
      (next_row r (some s.row)) (accepted_over violation f tables r tables' k s.row e one s.stands)
      (rw on refl) (rw on refl) (rw (on, s.version_is) refl) (rw (on, s.checksum_is) refl)

-- After two accepted activations of one binding, with any records between them and after them that
-- activate nothing for it (failed or pending attempts, rollbacks that failed, records of other
-- bindings, refused records and failures of the database), its row names the second snapshot as
-- current and the first one as previous, by version and by checksum.
pub second_activation-IsServing :
    (violation : String) (tables : Applies) (f : Faults) (a : RouterApplyRecord) (tables1 : Applies)
    (between : List (Faults × RouterApplyRecord)) (g : Faults) (b : RouterApplyRecord)
    (tables2 : Applies) (later : List (Faults × RouterApplyRecord))
    → record_router_apply violation f tables a ≡ ok (tt, tables1)
    → activates a ≡ true
    → All (Quiet (key_of a)) between
    → record_router_apply violation g (run violation tables1 between) b ≡ ok (tt, tables2)
    → activates b ≡ true
    → key_of b ≡ key_of a
    → All (Quiet (key_of a)) later
    → IsServing
        (key_of a)
        b.version
        b.checksum
        (some a.version)
        (some a.checksum)
        (run violation tables2 later)
second_activation-IsServing violation tables f a tables1 between g b tables2 later ea on_a qs eb
      on_b same ls =
    let first =
      run-keeps violation (key_of a) _ _ _ _ tables1 between qs
        (activation violation f tables a tables1 ea on_a) in
    let second =
      activation_over violation g (run violation tables1 between) b tables2 (key_of a) _ _ _ _ eb
        on_b same first in
    run-keeps violation (key_of a) _ _ _ _ tables2 later ls second
