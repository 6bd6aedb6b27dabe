-- ===== src/State/Registry/Examples.antt =====
-- Calls on an empty registry.
use apm_projectrunner.Base.{
  String, [], ◌∷◌, List, Option, none, pos, ◌≡◌, refl, insert, get, is_blank,
}
use apm_projectrunner.State.Error.{Faults, no_faults, validate_id, err, invalid_input}
use apm_projectrunner.State.Registry.{
  RegisteredSource, unmanaged, RegisteredDevice, never, unreachable, empty_registry, Call,
  registering_source, registering_device, checking_device, calls, validate_device, call,
  register_device, register_source, check_source, record_device_check,
}
use apm_projectrunner.State.Registry.Orderly.{IsOrderly}
use apm_projectrunner.State.Registry.Calls.{calls-IsOrderly}

abbrev host_device : String → RegisteredDevice
host_device user = record {
  name = "box";
  host = "box.local";
  port = 22;
  user = user;
  identity_file = none;
  created_at = pos 1;
  last_checked_at = none;
  last_check_status = never;
  last_check_detail = none;
}

abbrev checkout : String → RegisteredSource
checkout name = record {
  name = name;
  kind = unmanaged;
  path = "/src/shop";
  repository_path = none;
  requested_ref = none;
  created_at = pos 1;
  managed_relative_path = none;
}

abbrev valid_json : String → Option String
valid_json text = none

abbrev steps : List (Faults × Call)
steps =
    (no_faults, registering_source (checkout "a"))
    ∷ (no_faults, registering_source (checkout "b"))
    ∷ (no_faults, registering_device (host_device "me"))
    ∷ (no_faults, checking_device "box" (pos 2) unreachable none)
    ∷ []

empty-IsOrderly : IsOrderly empty_registry
empty-IsOrderly = record {
  sources = record { names = tt; paths = tt; each = tt };
  profiles = record { names = tt; each = tt };
  devices = record { names = tt; each = tt };
}

calls-IsOrderly_example : IsOrderly (calls valid_json steps empty_registry)
calls-IsOrderly_example = calls-IsOrderly valid_json steps empty_registry empty-IsOrderly

-- The second source has the path of the first.
one_source : (calls valid_json steps empty_registry).sources ≡ ("a", checkout "a") ∷ []
unfolding calls call register_source check_source validate_id is_blank get insert register_device
    validate_device record_device_check
one_source = refl

option_user :
    validate_device (host_device "-oProxyCommand=x")
    ≡ err (
        invalid_input "invalid_device_user"
          "device user cannot be empty, contain whitespace or `@`, or start with `-`")
unfolding validate_device validate_id is_blank
option_user = refl
