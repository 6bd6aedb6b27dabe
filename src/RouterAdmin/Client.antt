-- ===== src/RouterAdmin/Client.antt =====
-- The types of the client, the test of a container's labels and the decoding of a response. The
-- socket, Docker and the parser of JSON are not of this repository.
use apm_projectrunner.Base.{
  ℕ, String, Bool, true, false, List, [], ◌∷◌, Option, none, some, format, option_eq, string_eq,
  ◌==◌, if◌then◌else◌,
}
use apm_projectrunner.Base.Json.{Value, null, bool, text, object, Fields, end, field}

pub data AdminEndpoint : Type 0 where
  unix : String → AdminEndpoint
  docker_exec : String → String → String → String → String → AdminEndpoint

pub record SnapshotIdentity : Type 0 where
  pub id : String
  pub version : ℕ
  pub checksum : String

pub data ActivationStatus : Type 0 where
  activated rejected_stale : ActivationStatus

pub record ApplyAcknowledgement : Type 0 where
  pub version : ℕ
  pub checksum : String
  pub status : ActivationStatus

pub data AdminError : Type 0 where
  io : String → AdminError
  endpoint : String → String → AdminError
  invalid_response : String → AdminError
  rejected : String → String → Value → AdminError

pub data AdminResult {ℓ} (A : Type ℓ) : Type ℓ where
  ok : A → AdminResult A
  err : AdminError → AdminResult A

abbrev pub rejection_code : AdminError → Option String
rejection_code (rejected code message details) = some code
rejection_code _ = none

abbrev pub details : AdminError → Option Value
details (rejected code message value) = some value
details _ = none

-- The display of an error.
abbrev pub display : AdminError → String
display (io why) = format ("router administration failed: " ∷ why ∷ [])
display (endpoint code message) =
    format ("router administration failed (" ∷ code ∷ "): " ∷ message ∷ [])
display (invalid_response message) = format ("router returned an invalid response: " ∷ message ∷ [])
display (rejected code message value) = format ("router rejected " ∷ code ∷ ": " ∷ message ∷ [])

unfoldable pub field_of : String → Fields → Option Value
field_of key end = none
field_of key (field k value fs) =
    let later = field_of key fs in if k == key then some value else later

-- `value.get(key)`, for a value that is an object or not.
abbrev pub member : String → Value → Option Value
member key (object fs) = field_of key fs
member key _ = none

abbrev pub as_str : Option Value → Option String
as_str (some (text s)) = some s
as_str _ = none

abbrev pub label_lists : Value → String → String → Bool
label_lists labels name expected = as_str (member name labels) == some expected

abbrev pub ownership : String → String → String → List (String × String)
ownership deployment instance_name resource_hash =
    ("dev.apmpr.managed", "true")
    ∷ ("dev.apmpr.deployment", deployment)
    ∷ ("dev.apmpr.instance", instance_name)
    ∷ ("dev.apmpr.resource-hash", resource_hash)
    ∷ []

unfoldable pub first_mismatch : Value → String → List (String × String) → Option AdminError
first_mismatch labels container [] = none
first_mismatch labels container ((name, expected) ∷ rest) =
    let later = first_mismatch labels container rest in
    if label_lists labels name expected
    then later
    else some (
        endpoint "container_ownership_mismatch" (
          format (
            "container `" ∷ container ∷ "` does not have the expected `" ∷ name
            ∷ "` ownership label" ∷ [])))

-- The error, if a label is missing or other than expected.
unfoldable pub verify_container_labels :
    Value → String → String → String → String → Option AdminError
verify_container_labels labels container deployment instance_name resource_hash =
    first_mismatch labels container (ownership deployment instance_name resource_hash)

abbrev refuses : Option Value → Bool
refuses (some (bool false)) = true
refuses _ = false

abbrev value_or : Value → Option Value → Value
value_or default none = default
value_or default (some v) = v

abbrev text_or : String → Option String → String
text_or default none = default
text_or default (some s) = s

abbrev pub rejection : Value → AdminError
rejection error =
    rejected (text_or "unknown" (as_str (member "code" error)))
      (text_or "router rejected the request" (as_str (member "message" error))) error

abbrev result_of : Option Value → AdminResult Value
result_of none = err (invalid_response "missing result")
result_of (some v) = ok v

-- What `decode_response` makes of a response that is JSON.
unfoldable pub decode_value : Value → AdminResult Value
decode_value value =
    if refuses (member "ok" value)
    then err (rejection (value_or null (member "error" value)))
    else result_of (member "result" value)

-- What the parser makes of a text.
pub data Parsed : Type 0 where
  parsed : Value → Parsed
  malformed : String → Parsed

unfoldable pub decode_response : (String → Parsed) → String → AdminResult Value
decode_response from_str response = elim (from_str response) [
  | malformed why ↦ err (invalid_response why)
  | parsed value ↦ decode_value value
]
