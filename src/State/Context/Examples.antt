-- ===== src/State/Context/Examples.antt =====
-- A context that refers to a token, and one that holds it.
use apm_projectrunner.Base.{String, ◌≡◌, refl, true, decimal}
use apm_projectrunner.Base.Json.{Value, text, object, field, end, Has, array, cons, nil}
use apm_projectrunner.State.Error.{ok, err, invalid_input}
use apm_projectrunner.State.Context.{
  environment, file, secret_like, valid_secret_reference, validate_no_secret_values,
  structured_context,
}
use apm_projectrunner.State.Context.Secrets.{structured_context-Safe}

abbrev reference : Value
reference = object (field "environmentVariable" (text "ROUTER_TOKEN") end)

abbrev referring : Value
referring =
    object (field "routers" (array (cons (object (field "api-token" reference end)) nil)) end)

abbrev print : Value → String
print v = "{}"

referring_taken : structured_context print referring ≡ ok "{}"
unfolding structured_context validate_no_secret_values secret_like valid_secret_reference
    environment file decimal
referring_taken = refl

holding_refused :
    structured_context print (object (field "API_TOKEN" (text "t0ken") end))
    ≡ err (
        invalid_input "secret_value_forbidden"
          "$.API_TOKEN must contain an environmentVariable or file reference")
unfolding structured_context validate_no_secret_values secret_like valid_secret_reference
holding_refused = refl

structured_context-Safe_example :
    ((key : String) (child : Value)
      → Has key child referring
      → secret_like key ≡ true
      → valid_secret_reference child ≡ true)
    × ("{}" ≡ print referring)
structured_context-Safe_example = structured_context-Safe print referring "{}" referring_taken
