-- ===== src/State/Context.antt =====
-- `AppliedSnapshot::from_json` and `StructuredContext::new`: JSON that holds no secret but by
-- reference. The printing of `serde_json` is an argument.
pub mod Secrets
mod Examples
use apm_projectrunner.Base.{
  ℕ, suc, zero, ◌+◌, String, Bool, true, false, not, ◌&&◌, ◌||◌, List, [], ◌∷◌, any, map, filter,
  format, decimal, codes, starts_with, ends_with, contains_text, to_ascii_lowercase,
  is_ascii_uppercase, is_ascii_digit, is_empty, if◌then◌else◌, ◌==◌, nat_eq, string_eq,
}
use apm_projectrunner.Base.Json.{
  Value, null, bool, number, text, array, object, Items, nil, cons, Fields, end, field,
}
use apm_projectrunner.State.Error.{StateError, invalid_input, Result, ok, err, ◌>>=◌, ◌>>◌, ensure}

abbrev pub is_ok {ℓ} : {A : Type ℓ} → Result A → Bool
is_ok (ok a) = true
is_ok (err why) = false

pub data SecretReference : Type 0 where
  environment_variable : String → SecretReference
  file_path : String → SecretReference

abbrev name_bytes : List ℕ → Bool
name_bytes [] = true
name_bytes (b ∷ bs) = (b == b'_' || is_ascii_uppercase b || is_ascii_digit b) && name_bytes bs

abbrev valid_variable : List ℕ → Bool
valid_variable [] = false
valid_variable (b ∷ bs) = (b == b'_' || is_ascii_uppercase b) && name_bytes bs

-- `SecretReference::environment`. A name of other than ASCII characters is refused by its bytes as by
-- its code points.
unfoldable pub environment : String → Result SecretReference
environment name =
    if valid_variable (codes name)
    then ok (environment_variable name)
    else err (
        invalid_input "invalid_secret_reference"
          "environment references must be uppercase variable names")

unfoldable pub file : String → Result SecretReference
file path =
    if is_empty (codes path)
    then err (invalid_input "invalid_secret_reference" "secret file references cannot be empty")
    else ok (file_path path)

abbrev normalized : String → List ℕ
normalized key = filter (λ b. not (b == b'-' || b == b'_')) (map to_ascii_lowercase (codes key))

unfoldable pub secret_like : String → Bool
secret_like key =
    any (λ word. contains_text (normalized key) (codes word))
      ("secret" ∷ "password" ∷ "passwd" ∷ "token" ∷ "apikey" ∷ "privatekey" ∷ [])
    && not (ends_with (normalized key) (codes "reference"))
    && not (ends_with (normalized key) (codes "ref"))

abbrev refers : String → String → Bool
refers kind value =
    if kind == "environmentVariable"
    then is_ok (environment value)
    else if kind == "file"
    then is_ok (file value)
    else false

-- An object of one field.
unfoldable pub valid_secret_reference : Value → Bool
valid_secret_reference (object (field kind (text value) end)) = refers kind value
valid_secret_reference _ = false

abbrev forbidden : String → StateError
forbidden path =
    invalid_input "secret_value_forbidden"
      (format (path ∷ " must contain an environmentVariable or file reference" ∷ []))

unfoldable mutual
  pub validate_no_secret_values : Value → String → Result (Unit {0})
  validate_no_secret_values null path = ok tt
  validate_no_secret_values (bool b) path = ok tt
  validate_no_secret_values (number n) path = ok tt
  validate_no_secret_values (text s) path = ok tt
  validate_no_secret_values (array xs) path = validate_items xs path 0
  validate_no_secret_values (object fs) path = validate_fields fs path

  pub validate_items : Items → String → ℕ → Result (Unit {0})
  validate_items nil path index = ok tt
  validate_items (cons x xs) path index =
      validate_no_secret_values x (format (path ∷ "[" ∷ decimal index ∷ "]" ∷ []))
      >> validate_items xs path (suc index)

  pub validate_fields : Fields → String → Result (Unit {0})
  validate_fields end path = ok tt
  validate_fields (field key child fs) path =
      let child_path = format (path ∷ "." ∷ key ∷ []) in
      ensure (not (secret_like key && not (valid_secret_reference child))) (forbidden child_path)
      >> (validate_no_secret_values child child_path >> validate_fields fs path)

-- `StructuredContext::new`, and `AppliedSnapshot::from_json`, which does the same.
unfoldable pub structured_context : (Value → String) → Value → Result String
structured_context print value = validate_no_secret_values value "$" >> ok (print value)
