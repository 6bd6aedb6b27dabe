-- ===== src/State/Registry.antt =====
-- The registries of the store: sources, imported profiles and devices, each a table whose primary key is
-- the name. A call returns the new tables; one that fails leaves them, since its statement changed no row,
-- but for `record_device_check`, which reads the row back behind its statement.
-- The constraints of the tables are those of src/migrations.
pub mod Devices
pub mod Orderly
pub mod Sources
pub mod Calls
pub mod Examples
use apm_projectrunner.Base.{
  ℕ, String, Bool, true, false, ◌&&◌, ◌||◌, List, [], ◌∷◌, Option, none, some, Map, get, insert,
  remove, any, map, map, sort, text_lt, contains_key, is_some, codes, is_blank, is_whitespace,
  format, not, sort, text_lt, ◌==◌, string_eq, nat_eq, if◌then◌else◌, ℤ,
}
use apm_projectrunner.State.Error.{
  StateError, invalid_input, Result, ok, err, ◌>>=◌, ◌>>◌, ensure, validate_id, Faults, pass, json,
}

pub data RegisteredSourceKind : Type 0 where
  unmanaged : RegisteredSourceKind
  managed : RegisteredSourceKind

pub record RegisteredSource : Type 0 where
  pub name : String
  pub kind : RegisteredSourceKind
  pub path : String
  pub repository_path : Option String
  pub requested_ref : Option String
  pub created_at : ℤ
  pub managed_relative_path : Option String

pub record ImportedProfile : Type 0 where
  pub name : String
  pub source_name : String
  pub source_commit : Option String
  pub content_hash : String
  pub definition_json : String
  pub imported_at : ℤ

pub data DeviceCheckStatus : Type 0 where
  never eligible ineligible unreachable auth_failed : DeviceCheckStatus
  -- Legacy success of SSH alone.
  reached : DeviceCheckStatus

pub record RegisteredDevice : Type 0 where
  pub name : String
  pub host : String
  pub port : ℕ
  pub user : String
  pub identity_file : Option String
  pub created_at : ℤ
  pub last_checked_at : Option ℤ
  pub last_check_status : DeviceCheckStatus
  pub last_check_detail : Option String

pub record Registry : Type 0 where
  pub sources : Map String RegisteredSource
  pub profiles : Map String ImportedProfile
  pub devices : Map String RegisteredDevice

abbrev pub empty_registry : Registry
empty_registry = record { sources = []; profiles = []; devices = [] }

abbrev pub is_empty_text : String → Bool
is_empty_text s = s == ""

abbrev pub starts_with_dash : List ℕ → Bool
starts_with_dash [] = false
starts_with_dash (c ∷ cs) = c == b'-'

abbrev pub misplaced_source : RegisteredSourceKind → Option String → Bool
misplaced_source unmanaged location = is_some location
misplaced_source managed location = false

abbrev pub unplaced_source : RegisteredSourceKind → Option String → Bool
unplaced_source unmanaged location = false
unplaced_source managed location = not (is_some location)

-- The checks of `register_source`, before its statement.
unfoldable pub check_source : RegisteredSource → Result (Unit {0})
check_source s = do
  validate_id "source name" s.name
  ensure (not (is_empty_text s.path))
      (invalid_input "invalid_source_path" "source path cannot be empty")
  ensure (not (misplaced_source s.kind s.managed_relative_path)) (
      invalid_input "invalid_source_registration"
        "unmanaged sources cannot have a managed location")
  ensure (not (unplaced_source s.kind s.managed_relative_path))
      (invalid_input "invalid_source_registration" "managed sources require a managed location")

-- The primary key and the unique column.
abbrev pub source_taken : RegisteredSource → Map String RegisteredSource → Bool
source_taken s rows = contains_key s.name rows || any (λ (k, t). t.path == s.path) rows

unfoldable pub register_source : Faults → Registry → RegisteredSource → Result (Unit {0} × Registry)
register_source faults r s = do
  check_source s
  pass faults.writing
  ensure (not (source_taken s r.sources)) (
      invalid_input "source_already_registered"
        (format ("source `" ∷ s.name ∷ "` or path `" ∷ s.path ∷ "` is already registered" ∷ [])))
  ok (tt, record r { sources = insert s.name s r.sources })

unfoldable pub deregister_source : Faults → Registry → String → Result (Unit {0} × Registry)
deregister_source faults r name = do
  pass faults.writing
  ensure (contains_key name r.sources)
      (invalid_input "source_not_found" (format ("source `" ∷ name ∷ "` is not registered" ∷ [])))
  ok (tt, record r { sources = remove name r.sources })

abbrev pub parsed_json : Option String → Result (Unit {0})
parsed_json none = ok tt
parsed_json (some why) = err (json why)

-- The first argument is what `serde_json` reports of a text that is not JSON.
unfoldable pub record_imported_profile :
    (String → Option String) → Faults → Registry → ImportedProfile → Result (Unit {0} × Registry)
record_imported_profile json_error faults r p = do
  validate_id "profile name" p.name
  validate_id "profile source name" p.source_name
  validate_id "profile content hash" p.content_hash
  parsed_json (json_error p.definition_json)
  pass faults.writing
  ok (tt, record r { profiles = insert p.name p r.profiles })

unfoldable pub remove_imported_profile : Faults → Registry → String → Result (Unit {0} × Registry)
remove_imported_profile faults r name = do
  pass faults.writing
  ensure (contains_key name r.profiles) (
      invalid_input "profile_not_imported" (format ("profile `" ∷ name ∷ "` is not imported" ∷ [])))
  ok (tt, record r { profiles = remove name r.profiles })

abbrev pub bad_host : String → Bool
bad_host s = is_blank s || any is_whitespace (codes s) || starts_with_dash (codes s)

abbrev pub bad_user : String → Bool
bad_user s = bad_host s || any (λ c. c == b'@') (codes s)

abbrev pub empty_path : Option String → Bool
empty_path none = false
empty_path (some path) = is_empty_text path

unfoldable pub validate_device : RegisteredDevice → Result (Unit {0})
validate_device d = do
  validate_id "device name" d.name
  ensure (not (bad_host d.host)) (
      invalid_input "invalid_device_host"
        "device host cannot be empty, contain whitespace, or start with `-`")
  ensure (not (bad_user d.user)) (
      invalid_input "invalid_device_user"
        "device user cannot be empty, contain whitespace or `@`, or start with `-`")
  ensure (not (d.port == 0))
      (invalid_input "invalid_device_port" "device port must be between 1 and 65535")
  ensure (not (empty_path d.identity_file))
      (invalid_input "invalid_identity_file" "identity file path cannot be empty")

unfoldable pub register_device : Faults → Registry → RegisteredDevice → Result (Unit {0} × Registry)
register_device faults r d = do
  validate_device d
  pass faults.writing
  ensure (not (contains_key d.name r.devices)) (
      invalid_input "device_already_registered"
        (format ("device `" ∷ d.name ∷ "` is already registered" ∷ [])))
  ok (tt, record r { devices = insert d.name d r.devices })

abbrev pub device_not_found : String → StateError
device_not_found name =
    invalid_input "device_not_found" (format ("device `" ∷ name ∷ "` is not registered" ∷ []))

unfoldable pub deregister_device : Faults → Registry → String → Result (Unit {0} × Registry)
deregister_device faults r name = do
  pass faults.writing
  ensure (contains_key name r.devices) (device_not_found name)
  ok (tt, record r { devices = remove name r.devices })

abbrev pub is_never : DeviceCheckStatus → Bool
is_never never = true
is_never _ = false

-- The row with the outcome of a check.
abbrev pub checked_device :
    ℤ → DeviceCheckStatus → Option String → RegisteredDevice → RegisteredDevice
checked_device at status detail d = record d {
  last_checked_at = some at;
  last_check_status = status;
  last_check_detail = detail;
}

-- The row is read back after the statement, which stands even when the reading fails.
abbrev pub read_back :
    Option String → Registry → RegisteredDevice → Registry × Result RegisteredDevice
read_back failure r d = (r, ◌>>=◌ (pass failure) (λ _. ok d))

abbrev pub checked_row :
    Faults
    → String
    → ℤ
    → DeviceCheckStatus
    → Option String
    → Registry
    → Option RegisteredDevice
    → Registry × Result RegisteredDevice
checked_row faults name at status detail r none = (r, err (device_not_found name))
checked_row faults name at status detail r (some d) =
    let d' = checked_device at status detail d in
    read_back faults.reading (record r { devices = insert name d' r.devices }) d'

abbrev pub recorded :
    Faults
    → String
    → ℤ
    → DeviceCheckStatus
    → Option String
    → Registry
    → Result (Unit {0})
    → Registry × Result RegisteredDevice
recorded faults name at status detail r (err why) = (r, err why)
recorded faults name at status detail r (ok _) =
    checked_row faults name at status detail r (get name r.devices)

unfoldable pub record_device_check :
    Faults
    → Registry
    → String
    → ℤ
    → DeviceCheckStatus
    → Option String
    → Registry × Result RegisteredDevice
record_device_check faults r name at status detail = recorded faults name at status detail r (
    ◌>>◌
      (ensure (not (is_never status))
        (invalid_input "invalid_device_status" "a completed check cannot have status `never`"))
      (pass faults.writing))

-- The lookups by name.
unfoldable pub source : Registry → String → Option RegisteredSource
source r name = get name r.sources

unfoldable pub imported_profile : Registry → String → Option ImportedProfile
imported_profile r name = get name r.profiles

unfoldable pub device : Registry → String → Option RegisteredDevice
device r name = get name r.devices

-- The listings in the order of the names.
unfoldable pub sources : Registry → List RegisteredSource
sources r = sort (λ s t. text_lt s.name t.name) (map (λ (name, s). s) r.sources)

unfoldable pub imported_profiles : Registry → List ImportedProfile
imported_profiles r = sort (λ p q. text_lt p.name q.name) (map (λ (name, p). p) r.profiles)

unfoldable pub devices : Registry → List RegisteredDevice
devices r = sort (λ d e. text_lt d.name e.name) (map (λ (name, d). d) r.devices)

-- The calls that change a registry, with the tables that each leaves.
pub data Call : Type 0 where
  registering_source : RegisteredSource → Call
  deregistering_source : String → Call
  importing_profile : ImportedProfile → Call
  removing_profile : String → Call
  registering_device : RegisteredDevice → Call
  deregistering_device : String → Call
  checking_device : String → ℤ → DeviceCheckStatus → Option String → Call

abbrev pub left : Registry → Result (Unit {0} × Registry) → Registry
left r (ok (_, r')) = r'
left r (err why) = r

unfoldable pub call : (String → Option String) → Faults → Call → Registry → Registry
call json_error faults (registering_source s) r = left r (register_source faults r s)
call json_error faults (deregistering_source name) r = left r (deregister_source faults r name)
call json_error faults (importing_profile p) r =
    left r (record_imported_profile json_error faults r p)
call json_error faults (removing_profile name) r = left r (remove_imported_profile faults r name)
call json_error faults (registering_device d) r = left r (register_device faults r d)
call json_error faults (deregistering_device name) r = left r (deregister_device faults r name)
call json_error faults (checking_device name at status detail) r =
    (record_device_check faults r name at status detail).0

-- Calls one after the other, each with the failures of the database that it meets.
unfoldable pub calls : (String → Option String) → List (Faults × Call) → Registry → Registry
calls json_error [] r = r
calls json_error ((faults, c) ∷ rest) r = calls json_error rest (call json_error faults c r)
