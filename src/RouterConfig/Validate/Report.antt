-- ===== src/RouterConfig/Validate/Report.antt =====
-- `ValidationError::new` and `context`, indexed paths, and the errors of one identifier.
use apm_projectrunner.Base.{
  ℕ, String, Bool, not, List, [], ◌∷◌, insert, format, decimal, when, string_eq,
}
use apm_projectrunner.RouterConfig.Model
use apm_projectrunner.RouterConfig.Model.{ValidationError, ValidationCode}
use apm_projectrunner.RouterConfig.Identifier.{valid_identifier, valid_header_value}

unfoldable pub error : ValidationCode → String → String → ValidationError
error code path message = record { code = code; path = path; message = message; context = [] }

unfoldable pub with_context : String → String → ValidationError → ValidationError
with_context key value e = record e { context = insert key value e.context }

-- `format!("{base}[{index}]")`.
unfoldable pub indexed : String → ℕ → String
indexed base index = format (base ∷ "[" ∷ decimal index ∷ "]" ∷ [])

abbrev pub under : String → String → String
under path field = format (path ∷ field ∷ [])

-- `validate_identifier`.
unfoldable pub identifier_errors : Bool → String → String → List ValidationError
identifier_errors allow_path value path = when (not (valid_identifier allow_path value)) (
    with_context "value" value (
      error Model.invalid_identifier path
        "identifier must contain lowercase letters, digits, or interior hyphens"))

-- `validate_route_header_value`.
unfoldable pub header_value_errors : String → String → List ValidationError
header_value_errors value path = when (not (valid_header_value value)) (
    error Model.invalid_identifier path
      "route header value must be 1-128 lowercase ASCII letters, digits, `.`, `_`, `:`, or `-`, starting with a letter or digit")
