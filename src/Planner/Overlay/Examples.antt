-- ===== src/Planner/Overlay/Examples.antt =====
-- An instance under two overlays, its own environment and the command line.
use apm_projectrunner.Base.{
  ℕ, String, [], ◌∷◌, List, none, some, get, get-nil, ◌≡◌, string_eq, pair_eq, refl, arith, decimal,
  split_once, is_blank, insert, remove,
}
use apm_projectrunner.Planner.Overlay.{
  OverlaySecretReference, literal, secret, Resolving, Overlay, resolve_environment, set_trace,
  Traces, OriginTrace, set_key, unset_key, set_plain, set_values, unset_all, set_options,
  apply_overlay, apply_overlays, valid_environment_name,
}
use apm_projectrunner.Planner.Overlay.Cells.{Holds, inherited, given, latest}
use apm_projectrunner.Planner.Overlay.Layered.{layers}
use apm_projectrunner.Planner.Overlay.Generated.{
  apply_overlay_environment, insert_secrets, remove_all, runtime_environment, extend, defaults,
  Inputs, inputs_environment, service_environment, seen, service_environment-latest,
}
use apm_projectrunner.Planner.Overlay.History.{
  IsOf, fits-insert, IsNamed, IsTraced, IsShown, resolve_environment-IsShown, reported,
}
use apm_projectrunner.Planner.Overlay.Dotenv.{
  ok, err, parse_dotenv, parse_lines, print, IsEnvironment, parse_dotenv-print, is_comment,
  trim_returns,
}

abbrev token : OverlaySecretReference
token = record { environment_variable = some "TOKEN"; file = none }

abbrev log_trace : OriginTrace
log_trace = record {
  instance_name = "shop";
  category = "environment";
  key = "LOG";
  value = "info";
  layer = "block default web";
  shadowed = [];
}

abbrev logging : Traces
logging = (("shop", ("environment", "LOG")), log_trace) ∷ []

abbrev shop : Resolving
shop = record {
  name = "shop";
  environment = [];
  environment_unset = [];
  secret_environment = [];
  traces = logging;
}

abbrev two_overlays : List Overlay
two_overlays =
    record {
      layer = "first";
      env_file_values = ("K", "file") ∷ [];
      unset = [];
      set = ("DB", literal "plain") ∷ [];
    }
    ∷ record {
      layer = "second";
      env_file_values = [];
      unset = "K" ∷ "LOG" ∷ [];
      set = ("DB", secret token) ∷ [];
    }
    ∷ []

shop-Holds : Holds shop "DB" inherited
unfolding get
shop-Holds = record { value = refl; taken = refl; secret_at = refl }

abbrev inputs : Inputs
inputs = record {
  block_parameters = [];
  service_environment = ("LOG", "info") ∷ [];
  instance_parameters = [];
  deployment = "demo";
}

abbrev no_digest : String → List ℕ
no_digest text = []

service_environment-latest_example :
    get "DB" (service_environment no_digest inputs (resolve_environment two_overlays [] [] shop))
    ≡ seen no_digest "shop" "DB"
        (latest "DB" inherited (layers two_overlays [] []))
        (get "DB" (inputs_environment inputs))
service_environment-latest_example =
    service_environment-latest no_digest inputs two_overlays [] [] shop "DB" shop-Holds refl refl

db_secret : latest "DB" inherited (layers two_overlays [] []) ≡ given (secret token)
unfolding latest layers
db_secret = refl

shop-IsTraced : IsTraced shop "K"
unfolding IsTraced get
shop-IsTraced value h = absurd (ground arith)

shop-IsNamed : IsNamed shop.traces
unfolding IsNamed insert
shop-IsNamed =
    fits-insert IsOf ("shop", ("environment", "LOG")) log_trace [] (refl, refl, refl)
      (λ id t h. absurd (ground (arith, get-nil {V = OriginTrace} id)))

resolve_environment-IsShown_example :
    IsNamed (resolve_environment two_overlays (("K", "own") ∷ []) [] shop).traces
    × IsTraced (resolve_environment two_overlays (("K", "own") ∷ []) [] shop) "K"
    × IsShown (resolve_environment two_overlays (("K", "own") ∷ []) [] shop) "K"
resolve_environment-IsShown_example =
    resolve_environment-IsShown two_overlays (("K", "own") ∷ []) [] shop "K" shop-IsNamed
      shop-IsTraced

-- A service default that an overlay takes away: the service does not see it, and its trace stays.
default_unset :
    get "LOG" (service_environment no_digest inputs (resolve_environment two_overlays [] [] shop))
    ≡ none
unfolding get insert remove service_environment apply_overlay_environment insert_secrets
    resolve_environment set_options set_plain apply_overlays apply_overlay set_values set_key
    unset_all unset_key remove_all runtime_environment extend inputs_environment defaults
default_unset = refl

default_still_reported :
    reported
      (get ("shop", ("environment", "LOG")) (resolve_environment two_overlays [] [] shop).traces)
    ≡ some "info"
unfolding get insert remove resolve_environment set_options set_plain apply_overlays apply_overlay
    set_values set_key set_trace unset_all unset_key
default_still_reported = refl

two_names : IsEnvironment (("A", "x=y") ∷ ("B", "#") ∷ [])
unfolding get valid_environment_name trim_returns
two_names = (refl, refl, refl, (refl, refl, refl, tt))

parse_dotenv-print_example :
    parse_dotenv (print (("A", "x=y") ∷ ("B", "#") ∷ [])) ≡ ok (("A", "x=y") ∷ ("B", "#") ∷ [])
parse_dotenv-print_example = parse_dotenv-print (("A", "x=y") ∷ ("B", "#") ∷ []) two_names

repeated_key : parse_dotenv ("A=1" ∷ "# c" ∷ "A=2" ∷ []) ≡ err "line 3 repeats environment key `A`"
unfolding parse_dotenv parse_lines is_comment is_blank trim_returns split_once
    valid_environment_name get insert decimal
repeated_key = refl
