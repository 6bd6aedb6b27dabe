-- ===== src/Planner/Examples.antt =====
-- A block whose services wait for each other.
use apm_projectrunner.Base.{
  String, [], ◌∷◌, none, ◌≡◌, refl, get, insert, split_once, sort, place, text_lt,
}
use apm_projectrunner.Planner.Model.{
  Service, Block, started, diagnostic, missing_reference, dependency_cycle,
}
use apm_projectrunner.Planner.Cycle.{check_nodes, visit, visit_any}
use apm_projectrunner.Planner.Expanded.Nodes.{Outcome, validate_expanded_dependencies-Outcome}
use apm_projectrunner.Planner.Expanded.{
  Deployment, validate_expanded_dependencies, panicked, pushed, add_instances, add_services,
  follow_all, follow, expanded_edges,
}
use apm_projectrunner.Planner.Local.{IsReported, validate_local_dependencies-IsReported}

abbrev waits_for : String → Service
waits_for name = record { publish = []; depends_on = (name, started) ∷ [] }

abbrev circular : Block
circular = record {
  services = ("api", waits_for "db") ∷ ("db", waits_for "api") ∷ ("ui", waits_for "cache") ∷ [];
}

validate_local_dependencies-IsReported_example : IsReported "shop" circular
validate_local_dependencies-IsReported_example =
    validate_local_dependencies-IsReported "shop" circular

abbrev lost : Deployment
lost = record {
  instances = ("shop", record { name = "shop"; block = "web"; external = none }) ∷ [];
  blocks = ("shop", circular) ∷ [];
}

abbrev bound : Deployment
bound = record {
  instances = ("shop", record { name = "shop"; block = "web"; external = none }) ∷ [];
  blocks = ("web", circular) ∷ [];
}

validate_expanded_dependencies-Outcome_example : Outcome bound
validate_expanded_dependencies-Outcome_example =
    validate_expanded_dependencies-Outcome bound (refl, tt)

lost_panics : validate_expanded_dependencies lost ≡ panicked
unfolding validate_expanded_dependencies add_instances get
lost_panics = refl

circular_expanded :
    validate_expanded_dependencies bound
    ≡ pushed (
        diagnostic missing_reference "spec.instances.shop.services.ui.dependsOn"
          "unknown service dependency cache"
        ∷ diagnostic dependency_cycle "spec.instances.shop/api.dependsOn"
            "expanded service dependency cycle detected"
        ∷ [])
unfolding validate_expanded_dependencies add_instances get insert add_services follow_all follow
    split_once sort place text_lt check_nodes visit visit_any expanded_edges
circular_expanded = refl
