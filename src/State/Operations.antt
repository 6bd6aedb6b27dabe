-- ===== src/State/Operations.antt =====
-- The table `operations`, whose primary key is the identifier: its rows in the order in which they
-- were inserted. A JSON column holds its text.
pub mod History
pub mod Paging
pub mod Recovery
pub mod Walk
use apm_projectrunner.Base.{
  ℕ, suc, String, Bool, true, false, ◌&&◌, ◌||◌, List, [], ◌∷◌, ◌++◌, Option, none, some, map,
  filter, any, find, is_some, not, leb, nat_beq, ltb_ℤ, i64_max, text_lt, sort, take, ◌==◌,
  string_eq, int_eq, option_eq, if◌then◌else◌, ℤ, format, length,
}
use apm_projectrunner.State.Error.{
  Result, ok, err, ◌>>=◌, ◌>>◌, ensure, validate_id, sqlite, invalid_input, Faults, pass,
}

pub data OperationKind : Type 0 where
  build : OperationKind
  start : OperationKind
  stop : OperationKind
  membership : OperationKind
  apply : OperationKind
  cleanup : OperationKind
  other : String → OperationKind

-- `OperationKind::as_str`.
abbrev pub kind_str : OperationKind → String
kind_str build = "build"
kind_str start = "start"
kind_str stop = "stop"
kind_str membership = "membership"
kind_str apply = "apply"
kind_str cleanup = "cleanup"
kind_str (other value) = value

pub data OperationStatus : Type 0 where
  pending : OperationStatus
  running : OperationStatus
  succeeded : OperationStatus
  failed : OperationStatus
  cancelled : OperationStatus

-- `OperationStatus::as_str`.
abbrev pub status_str : OperationStatus → String
status_str pending = "pending"
status_str running = "running"
status_str succeeded = "succeeded"
status_str failed = "failed"
status_str cancelled = "cancelled"

-- The context as its JSON text.
pub record OperationError : Type 0 where
  pub code : String
  pub context : String

pub record OperationRecord : Type 0 where
  pub id : String
  pub deployment : String
  pub instance_ : Option String
  pub kind : OperationKind
  pub status : OperationStatus
  pub started_at : ℤ
  pub finished_at : Option ℤ
  pub error : Option OperationError

pub record StoredOperation : Type 0 where
  pub id : String
  pub deployment : String
  pub instance_ : Option String
  pub kind : String
  pub status : String
  pub started_at : ℤ
  pub finished_at : Option ℤ
  pub error_code : Option String
  pub error_context_json : Option String

pub record OperationQuery : Type 0 where
  pub deployment : Option String
  pub instance_ : Option String
  pub kind : Option String
  pub status : Option String
  pub cursor : Option String
  pub limit : ℕ

abbrev pub Table : Type 0
Table = List StoredOperation

abbrev pub id_of : StoredOperation → String
id_of row = row.id

abbrev pub error_code_of : Option OperationError → Option String
error_code_of none = none
error_code_of (some e) = some e.code

abbrev pub error_context_of : Option OperationError → Option String
error_context_of none = none
error_context_of (some e) = some e.context

abbrev pub row_of : OperationRecord → StoredOperation
row_of o = record {
  id = o.id;
  deployment = o.deployment;
  instance_ = o.instance_;
  kind = kind_str o.kind;
  status = status_str o.status;
  started_at = o.started_at;
  finished_at = o.finished_at;
  error_code = error_code_of o.error;
  error_context_json = error_context_of o.error;
}

abbrev validate_instance : Option String → Result (Unit {0})
validate_instance none = ok tt
validate_instance (some name) = validate_id "operation instance" name

-- `violation` is what SQLite reports of a row whose key is there.
unfoldable pub start_operation :
    String → Faults → Table → OperationRecord → Result (Unit {0} × Table)
start_operation violation faults table o = do
  validate_id "operation id" o.id
  validate_id "deployment" o.deployment
  validate_instance o.instance_
  pass faults.writing
  ensure (not (is_some (find id_of o.id table))) (sqlite violation)
  ok (tt, table ++ row_of o ∷ [])

abbrev pub updated :
    String → OperationStatus → Option ℤ → Option OperationError → StoredOperation → StoredOperation
updated id status finished_at error row =
    if row.id == id
    then record row {
      status = status_str status;
      finished_at = finished_at;
      error_code = error_code_of error;
      error_context_json = error_context_of error;
    }
    else row

unfoldable pub update_operation :
    Faults
    → Table
    → String
    → OperationStatus
    → Option ℤ
    → Option OperationError
    → Result (Unit {0} × Table)
update_operation faults table id status finished_at error = do
  pass faults.writing
  ensure (is_some (find id_of id table))
      (invalid_input "operation_not_found" (format ("operation `" ∷ id ∷ "` does not exist" ∷ [])))
  ok (tt, map (updated id status finished_at error) table)

unfoldable pub operation : Faults → Table → String → Result (Option StoredOperation)
operation faults table id = do pass faults.reading; ok (find id_of id table)

-- `status IN ('pending','running')`.
unfoldable pub unfinished : StoredOperation → Bool
unfinished row = row.status == "pending" || row.status == "running"

unfoldable pub abandoned : ℤ → StoredOperation → StoredOperation
abandoned finished_at row =
    if unfinished row
    then record row {
      status = "failed";
      finished_at = some finished_at;
      error_code = some "daemon_restarted";
      error_context_json = some "{}";
    }
    else row

unfoldable pub recover_abandoned_operations : Faults → Table → ℤ → Result (ℕ × Table)
recover_abandoned_operations faults table finished_at = do
  pass faults.writing
  ok (length (filter unfinished table), map (abandoned finished_at) table)

-- `?n IS NULL OR column=?n`.
abbrev pub matches : Option String → Option String → Bool
matches none column = true
matches (some wanted) column = column == some wanted

abbrev pub kind_matches : Option String → String → Bool
kind_matches none kind = true
kind_matches (some wanted) kind = kind == wanted || (wanted == "apply" && kind == "start")

abbrev pub selects : OperationQuery → StoredOperation → Bool
selects q row =
    matches q.deployment (some row.deployment)
    && matches q.instance_ row.instance_
    && kind_matches q.kind row.kind
    && matches q.status (some row.status)

-- `started_at DESC, id DESC`: the row that is listed first is the later one.
unfoldable pub precedes : StoredOperation → StoredOperation → Bool
precedes a b =
    ltb_ℤ b.started_at a.started_at || (b.started_at == a.started_at && text_lt b.id a.id)

abbrev found_cursor : String → Option StoredOperation → Result (Option StoredOperation)
found_cursor id (some row) = ok (some row)
found_cursor id none = err (
    invalid_input "operation_cursor_not_found"
      (format ("operation cursor `" ∷ id ∷ "` does not exist" ∷ [])))

abbrev cursor_row : Table → Option String → Result (Option StoredOperation)
cursor_row table none = ok none
cursor_row table (some id) = found_cursor id (find id_of id table)

abbrev after_cursor : Option StoredOperation → StoredOperation → Bool
after_cursor none row = true
after_cursor (some cursor) row = precedes cursor row

unfoldable pub operations : Faults → Table → OperationQuery → Result (List StoredOperation)
operations faults table q = do
  ensure (not (nat_beq q.limit 0))
      (invalid_input "invalid_operation_limit" "operation query limit must be greater than zero")
  ensure (leb q.limit i64_max)
      (invalid_input "invalid_operation_limit" "operation query limit exceeds SQLite range")
  pass faults.reading
  cursor ← cursor_row table q.cursor
  ok (take q.limit (sort precedes (filter (λ row. selects q row && after_cursor cursor row) table)))
