-- ===== src/RouterConfig/Validate.antt =====
-- `RouterConfig::validate`: the errors of each part in the order in which they are pushed, and the
-- outcome. The children hold the parts.
pub mod Report
pub mod Listeners
pub mod References
use apm_projectrunner.Base.{
  String, Bool, true, false, ◌&&◌, ◌||◌, not, List, [], ◌∷◌, concat, Option, none, some, when, ◌!=◌,
  string_eq,
}
use apm_projectrunner.RouterConfig.Model
use apm_projectrunner.RouterConfig.Model.{
  RouterConfig, RouterSpec, GatewayExposure, ValidationError, is_lan, config_kind,
}
use Report.{error, identifier_errors}
use Listeners.{listeners_errors, recorded_slots, proxy_errors}
use References.{
  providers_errors, groups_errors, bindings_errors, routes_errors, browser_errors,
  recorded_providers, recorded_groups,
}

-- Outcome of `validate`.
pub data Validated : Type 0 where
  valid : Validated
  invalid : List ValidationError → Validated

unfoldable pub schema_errors : RouterConfig → List ValidationError
schema_errors c = when (c.api_version != Model.api_version || c.kind != config_kind) (
    error Model.unsupported_schema "apiVersion"
      "configuration must use the supported router schema")

unfoldable pub exposure_errors : Option GatewayExposure → List ValidationError
exposure_errors none = []
exposure_errors (some e) = concat (
    when (is_lan e.mode && not e.acknowledge_lan_exposure_risk) (
      error Model.lan_exposure_risk_not_acknowledged "spec.exposure.acknowledgeLanExposureRisk"
        "LAN exposure requires acknowledgeLanExposureRisk: true")
    ∷ when (e.publish_tailscale && (not (is_lan e.mode) || not e.acknowledge_lan_exposure_risk)) (
        error Model.tailscale_publication_requires_lan_exposure "spec.exposure.publishTailscale"
          "Tailscale publication requires mode: lan and acknowledgeLanExposureRisk: true")
    ∷ [])

-- Every error that `validate` pushes, in order.
abbrev pub validation_parts : RouterConfig → List (List ValidationError)
validation_parts c =
    let spec = c.spec in
    let slots = recorded_slots spec.listeners in
    let providers = recorded_providers spec.providers in
    let groups = recorded_groups spec.groups in
    schema_errors c
    ∷ identifier_errors false c.deployment "metadata.deployment"
    ∷ identifier_errors false spec.snapshot.id "spec.snapshot.id"
    ∷ exposure_errors spec.exposure
    ∷ listeners_errors spec spec.listeners
    ∷ proxy_errors spec.transparent_proxy
    ∷ providers_errors spec spec.providers
    ∷ groups_errors slots providers spec.groups
    ∷ bindings_errors groups spec.bindings
    ∷ routes_errors slots providers spec.routes
    ∷ browser_errors slots providers spec.browser_routes
    ∷ []

unfoldable pub validation_errors : RouterConfig → List ValidationError
validation_errors c = concat (validation_parts c)

unfoldable pub verdict : List ValidationError → Validated
verdict [] = valid
verdict (e ∷ errors) = invalid (e ∷ errors)

unfoldable pub validate : RouterConfig → Validated
unfolding verdict
validate c = verdict (validation_errors c)
