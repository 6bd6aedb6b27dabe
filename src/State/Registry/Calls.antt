-- ===== src/State/Registry/Calls.antt =====
-- Every call leaves the tables in order.
use apm_projectrunner.Base.{
  String, not, List, [], ◌∷◌, Option, none, some, get, insert, remove, contains_key, ◌≡◌, refl,
  string_eq, ℤ,
}
use apm_projectrunner.State.Error.{Result, ok, err, ensure, bind-eq-ok, pass, Faults, validate_id}
use apm_projectrunner.State.Registry.{
  ImportedProfile, RegisteredDevice, Registry, record_imported_profile, remove_imported_profile,
  validate_device, register_device, deregister_device, record_device_check, recorded, checked_row,
  checked_device, parsed_json, DeviceCheckStatus, left, Call, registering_source,
  deregistering_source, importing_profile, removing_profile, registering_device,
  deregistering_device, checking_device, call, calls,
}
use apm_projectrunner.State.Registry.Devices.{IsReachable, validate_device-IsReachable}
use apm_projectrunner.State.Registry.Orderly.{
  Once-insert, Once-remove, All-insert, All-remove, All-get, IsDevice, IsProfile, IsOrderly,
}
use apm_projectrunner.State.Registry.Sources.{
  left-IsOrderly, same_tables, register_source-IsOrderly, deregister_source-IsOrderly,
}

record_imported_profile-IsOrderly :
    (json_error : String → Option String) (faults : Faults) (r : Registry) (p : ImportedProfile)
    → IsOrderly r
    → IsOrderly (left r (record_imported_profile json_error faults r p))
unfolding record_imported_profile
record_imported_profile-IsOrderly json_error faults r p o =
    left-IsOrderly r (record_imported_profile json_error faults r p) o (λ v r' h.
      let (_, _, h1) = bind-eq-ok (validate_id "profile name" p.name) _ h in
      let (_, _, h2) = bind-eq-ok (validate_id "profile source name" p.source_name) _ h1 in
      let (_, _, h3) = bind-eq-ok (validate_id "profile content hash" p.content_hash) _ h2 in
      let (_, _, h4) = bind-eq-ok (parsed_json (json_error p.definition_json)) _ h3 in
      let (_, _, h5) = bind-eq-ok (pass faults.writing) _ h4 in
      same_tables (record r { profiles = insert p.name p r.profiles }) r' v
        (record {
          profiles = record {
            names = Once-insert p.name p r.profiles o.profiles.names;
            each = All-insert IsProfile p.name p r.profiles refl o.profiles.each;
          };
          sources = o.sources;
          devices = o.devices;
        })
        h5)

remove_imported_profile-IsOrderly :
    (faults : Faults) (r : Registry) (name : String)
    → IsOrderly r
    → IsOrderly (left r (remove_imported_profile faults r name))
unfolding remove_imported_profile
remove_imported_profile-IsOrderly faults r name o =
    left-IsOrderly r (remove_imported_profile faults r name) o (λ v r' h.
      let (_, _, h1) = bind-eq-ok (pass faults.writing) _ h in
      let (_, _, h2) = bind-eq-ok (ensure (contains_key name r.profiles) _) _ h1 in
      same_tables (record r { profiles = remove name r.profiles }) r' v
        (record {
          profiles = record {
            names = Once-remove name r.profiles o.profiles.names;
            each = All-remove IsProfile name r.profiles o.profiles.each;
          };
          sources = o.sources;
          devices = o.devices;
        })
        h2)

register_device-IsOrderly :
    (faults : Faults) (r : Registry) (d : RegisteredDevice)
    → IsOrderly r
    → IsOrderly (left r (register_device faults r d))
unfolding register_device
register_device-IsOrderly faults r d o = left-IsOrderly r (register_device faults r d) o (λ v r' h.
    let (_, valid, h1) = bind-eq-ok (validate_device d) _ h in
    let (_, _, h2) = bind-eq-ok (pass faults.writing) _ h1 in
    let (_, _, h3) = bind-eq-ok (ensure (not (contains_key d.name r.devices)) _) _ h2 in
    same_tables (record r { devices = insert d.name d r.devices }) r' v
      (record {
        devices = record {
          names = Once-insert d.name d r.devices o.devices.names;
          each =
              All-insert IsDevice d.name d r.devices (refl, validate_device-IsReachable d valid)
                o.devices.each;
        };
        sources = o.sources;
        profiles = o.profiles;
      })
      h3)

deregister_device-IsOrderly :
    (faults : Faults) (r : Registry) (name : String)
    → IsOrderly r
    → IsOrderly (left r (deregister_device faults r name))
unfolding deregister_device
deregister_device-IsOrderly faults r name o =
    left-IsOrderly r (deregister_device faults r name) o (λ v r' h.
      let (_, _, h1) = bind-eq-ok (pass faults.writing) _ h in
      let (_, _, h2) = bind-eq-ok (ensure (contains_key name r.devices) _) _ h1 in
      same_tables (record r { devices = remove name r.devices }) r' v
        (record {
          devices = record {
            names = Once-remove name r.devices o.devices.names;
            each = All-remove IsDevice name r.devices o.devices.each;
          };
          sources = o.sources;
          profiles = o.profiles;
        })
        h2)

-- A check changes what was observed of a device, not how it is reached.
checked-IsReachable :
    (at : ℤ) (status : DeviceCheckStatus) (detail : Option String) (d : RegisteredDevice)
    → IsReachable d
    → IsReachable (checked_device at status detail d)
checked-IsReachable at status detail d h = record {
  user_plain = h.user_plain;
  read_back = h.read_back;
  no_option = h.no_option;
  host_no_option = h.host_no_option;
  port = h.port;
}

recorded-IsOrderly :
    (faults : Faults) (r : Registry) (name : String) (at : ℤ) (status : DeviceCheckStatus)
    (detail : Option String) (checks : Result (Unit {0}))
    → IsOrderly r
    → IsOrderly (recorded faults name at status detail r checks).0
recorded-IsOrderly faults r name at status detail (err why) o = o
recorded-IsOrderly faults r name at status detail (ok _) o = by_row (get name r.devices) refl
  where
    by_row :
        (row : Option RegisteredDevice)
        → get name r.devices ≡ row
        → IsOrderly (checked_row faults name at status detail r row).0
    by_row none e = o
    by_row (some d) e =
        let d' = checked_device at status detail d in
        let (same, reachable) = All-get IsDevice name d r.devices o.devices.each e in
        record {
          devices = record {
            names = Once-insert name d' r.devices o.devices.names;
            each =
                All-insert IsDevice name d' r.devices
                  (same, checked-IsReachable at status detail d reachable) o.devices.each;
          };
          sources = o.sources;
          profiles = o.profiles;
        }

call-IsOrderly :
    (json_error : String → Option String) (faults : Faults) (c : Call) (r : Registry)
    → IsOrderly r
    → IsOrderly (call json_error faults c r)
unfolding call record_device_check
call-IsOrderly json_error faults (registering_source s) r o = register_source-IsOrderly faults r s o
call-IsOrderly json_error faults (deregistering_source name) r o =
    deregister_source-IsOrderly faults r name o
call-IsOrderly json_error faults (importing_profile p) r o =
    record_imported_profile-IsOrderly json_error faults r p o
call-IsOrderly json_error faults (removing_profile name) r o =
    remove_imported_profile-IsOrderly faults r name o
call-IsOrderly json_error faults (registering_device d) r o = register_device-IsOrderly faults r d o
call-IsOrderly json_error faults (deregistering_device name) r o =
    deregister_device-IsOrderly faults r name o
call-IsOrderly json_error faults (checking_device name at status detail) r o =
    recorded-IsOrderly faults r name at status detail _ o

-- Whatever calls are made, and whichever of their statements fail, tables in order stay in order: names
-- are unique, and paths of sources; a source has a location of its own exactly when it is managed; and
-- every device is named to ssh as `user@host`, which is no option, with a user without `@`; where the
-- host has no `@` either, no other user and host are written so.
pub calls-IsOrderly :
    (json_error : String → Option String) (steps : List (Faults × Call)) (r : Registry)
    → IsOrderly r
    → IsOrderly (calls json_error steps r)
unfolding calls
calls-IsOrderly json_error [] r o = o
calls-IsOrderly json_error ((faults, c) ∷ rest) r o =
    calls-IsOrderly json_error rest (call json_error faults c r)
      (call-IsOrderly json_error faults c r o)
