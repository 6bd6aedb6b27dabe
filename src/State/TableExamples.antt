-- ===== src/State/TableExamples.antt =====
-- Runs of the state store on small tables of operations and router records, and of the
-- reconciliation of small deployments.
use apm_projectrunner.Base.{
  length, ◌<◌, ◌≡◌, refl, String, List, [], ◌∷◌, ◌++◌, none, some, map, pos, ℤ, arith, is_blank,
  text_lt, sort, place, take, string_eq, pair_eq, int_eq,
}
use apm_projectrunner.State.Error.{ok, no_faults, validate_id}
use apm_projectrunner.State.Operations.{
  OperationRecord, OperationQuery, Table, row_of, apply, running, start_operation, operations,
  precedes,
}
use apm_projectrunner.State.Operations.History.{
  Call, starts, recovers, step, run, Identity, identity, run-grows,
}
use apm_projectrunner.State.Operations.Paging.{listing, operations-page}
use apm_projectrunner.State.Operations.Walk.{walk, walk-listing}
use apm_projectrunner.State.Operations.Recovery.{IsRecovered, recover_lem}

abbrev op : String → ℤ → OperationRecord
op id started_at = record {
  id = id;
  deployment = "demo";
  instance_ = none;
  kind = apply;
  status = running;
  started_at = started_at;
  finished_at = none;
  error = none;
}

abbrev history : List Call
history =
    starts no_faults (op "op-1" (pos 10))
    ∷ starts no_faults (op "op-2" (pos 20))
    ∷ starts no_faults (op "op-2" (pos 25))
    ∷ starts no_faults (op "op-3" (pos 20))
    ∷ []

abbrev three : Table
three = row_of (op "op-1" (pos 10)) ∷ row_of (op "op-2" (pos 20)) ∷ row_of (op "op-3" (pos 20)) ∷ []

three_rows : run "constraint" [] history ≡ three
unfolding run step start_operation validate_id is_blank
three_rows = refl

run-grows_example :
    (more : List Identity) × (map identity
        (run "constraint" three (recovers no_faults (pos 30) ∷ []))
      ≡ map identity three ++ more)
run-grows_example = run-grows "constraint" three (recovers no_faults (pos 30) ∷ [])

recover_lem_example : (n : _) × (table' : Table) × IsRecovered three (pos 30) n table'
recover_lem_example = recover_lem three (pos 30)

abbrev page_query : OperationQuery
page_query = record {
  deployment = some "demo";
  instance_ = none;
  kind = some "apply";
  status = none;
  cursor = some "op-3";
  limit = 5;
}

newest_first :
    listing page_query (run "constraint" [] history)
    ≡ []
      ++ row_of (op "op-3" (pos 20))
        ∷ row_of (op "op-2" (pos 20))
        ∷ row_of (op "op-1" (pos 10))
        ∷ []
unfolding run step start_operation validate_id is_blank sort place precedes text_lt
newest_first = refl

operations-page_example :
    operations no_faults (run "constraint" [] history) page_query
    ≡ ok (take 5 (row_of (op "op-2" (pos 20)) ∷ row_of (op "op-1" (pos 10)) ∷ []))
operations-page_example =
    operations-page "constraint" history page_query [] (row_of (op "op-3" (pos 20)))
      (row_of (op "op-2" (pos 20)) ∷ row_of (op "op-1" (pos 10)) ∷ []) newest_first refl
      (omega arith) (omega arith)

abbrev pages_of_one : OperationQuery
pages_of_one = record page_query { cursor = none; limit = 1 }

four_calls : length (listing pages_of_one (run "constraint" [] history)) < 4
unfolding run step start_operation validate_id is_blank sort place precedes text_lt
four_calls = omega arith

walk-listing_example :
    walk 4 (run "constraint" [] history) pages_of_one
    ≡ ok (listing pages_of_one (run "constraint" [] history))
walk-listing_example =
    walk-listing "constraint" history 4 pages_of_one refl (omega arith) (omega arith) four_calls
