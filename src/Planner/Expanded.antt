-- ===== src/Planner/Expanded.antt =====
-- `validate_expanded_dependencies`: the dependencies between the services of all instances.
pub mod Accounts
pub mod Targets
pub mod Nodes
use Prim.Native.String
use apm_projectrunner.Base.{
  suc, ◌≡◌, refl, ◌↔◌, inl, inr, String, Bool, true, false, not, ◌&&◌, List, [], ◌∷◌, ◌++◌, Option,
  none, some, Map, get, insert, map, any, contains_key, length, format, split_once, sort, text_lt,
  Option-cases, Bool-cases, string_eq, arith, if◌then◌else◌,
}
use apm_projectrunner.Planner.Model.{
  Diagnostic, diagnostic, dependency_cycle, missing_reference, Block, Instance, is_external,
}
use apm_projectrunner.Planner.Cycle.{check_nodes}
use apm_projectrunner.Planner.Local.{keys}

abbrev pub Graph : Type 0
Graph = Map String (List String)

-- The deployment as the check reads it: instances by name, and blocks.
pub record Deployment : Type 0 where
  pub instances : Map String Instance
  pub blocks : Map String Block

abbrev pub slashed : String → String → String
slashed owner name = String.◌++◌ owner (String.◌++◌ "/" name)

abbrev pub target_name : String → String → Option (String × String) → String
target_name owner reference none = slashed owner reference
target_name owner reference (some (other, name)) = slashed other name

abbrev pub in_block : String → Option Block → Bool
in_block name none = false
in_block name (some block) = contains_key name block.services

abbrev pub in_instance : Deployment → String → Option Instance → Bool
in_instance d name none = false
in_instance d name (some i) = not (is_external i) && in_block name (get i.block d.blocks)

-- The edges and errors of one service so far.
pub record Found : Type 0 where
  pub edges : List String
  pub errors : List Diagnostic

abbrev pub unknown_reference : Instance → String → String → Diagnostic
unknown_reference i service_name reference =
    diagnostic missing_reference
      (format ("spec.instances." ∷ i.name ∷ ".services." ∷ service_name ∷ ".dependsOn" ∷ []))
      (format ("unknown service dependency " ∷ reference ∷ []))

abbrev pub followed :
    Deployment → Instance → String → String → String → Option (String × String) → Found → Found
followed d i service_name reference target none f = f
followed d i service_name reference target (some (other, name)) f =
    if in_instance d name (get other d.instances)
    then record f { edges = f.edges ++ target ∷ [] }
    else record f { errors = f.errors ++ unknown_reference i service_name reference ∷ [] }

-- One round of the loop over `depends_on`.
unfoldable pub follow : Deployment → Instance → String → String → Found → Found
follow d i service_name reference f =
    let target = target_name i.name reference (split_once b'/' reference) in
    followed d i service_name reference target (split_once b'/' target) f

unfoldable pub follow_all : Deployment → Instance → String → List String → Found → Found
follow_all d i service_name [] f = f
follow_all d i service_name (reference ∷ rest) f =
    follow_all d i service_name rest (follow d i service_name reference f)

abbrev pub edges_or : Option (List String) → List String
edges_or none = []
edges_or (some es) = es

-- The graph and the errors so far.
pub record Gathered : Type 0 where
  pub graph : Graph
  pub errors : List Diagnostic

-- The loop over the services of a block.
unfoldable pub add_services : Deployment → Instance → Map String (List String) → Gathered → Gathered
add_services d i [] x = x
add_services d i ((service_name, references) ∷ rest) x =
    let node = slashed i.name service_name in
    let f =
      follow_all d i service_name references
        (record { edges = edges_or (get node x.graph); errors = x.errors }) in
    add_services d i rest (record { graph = insert node f.edges x.graph; errors = f.errors })

-- The names that each service of a block depends on.
abbrev pub references_of : Block → Map String (List String)
references_of block = map (λ (name, service). (name, keys service.depends_on)) block.services

-- `none` where the index `blocks[..]` panics.
abbrev pub add_block : Deployment → Instance → Gathered → Option Block → Option Gathered
add_block d i x none = none
add_block d i x (some block) = some (add_services d i (references_of block) x)

abbrev pub then_add : Option Gathered → (Gathered → Option Gathered) → Option Gathered
then_add none next = none
then_add (some x) next = next x

unfoldable pub add_instances : Deployment → List Instance → Gathered → Option Gathered
add_instances d [] x = some x
add_instances d (i ∷ rest) x =
    if is_external i
    then add_instances d rest x
    else then_add (add_block d i x (get i.block d.blocks)) (λ y. add_instances d rest y)

-- What `cyclic` follows from a node.
unfoldable pub expanded_edges : Graph → String → List String
expanded_edges graph node = edges_or (get node graph)

abbrev pub expanded_cycle : String → Diagnostic
expanded_cycle node =
    diagnostic dependency_cycle (format ("spec.instances." ∷ node ∷ ".dependsOn" ∷ []))
      "expanded service dependency cycle detected"

-- A panic, or the errors that are pushed if the search has fuel enough.
pub data Checked : Type 0 where
  panicked : Checked
  unfinished : Checked
  pushed : List Diagnostic → Checked

abbrev pub with_cycle : List Diagnostic → Option (List Diagnostic) → Checked
with_cycle errors none = unfinished
with_cycle errors (some cycle) = pushed (errors ++ cycle)

-- The loop over the nodes in ascending order.
abbrev pub searched : Option Gathered → Checked
searched none = panicked
searched (some x) =
    let nodes = sort text_lt (keys x.graph) in
    with_cycle x.errors (
      check_nodes (expanded_edges x.graph) (λ node. []) expanded_cycle (suc (length nodes)) nodes
        [])

unfoldable pub validate_expanded_dependencies : Deployment → Checked
validate_expanded_dependencies d =
    searched
      (add_instances d (map (λ (name, i). i) d.instances) (record { graph = []; errors = [] }))

-- An instance that is not external and names a block that is not there.
abbrev pub lacks_block : Deployment → Instance → Bool
lacks_block d i = not (is_external i) && not (contains_key i.block d.blocks)

pub add_instances-none :
    (d : Deployment) (rows : List Instance) (x : Gathered)
    → (add_instances d rows x ≡ none) ↔ (any (lacks_block d) rows ≡ true)
unfolding add_instances
add_instances-none d [] x = ground arith
add_instances-none d (i ∷ rest) x = elim (Bool-cases (is_external i)) [
  | inl e ↦ rw (add_instances, e) (add_instances-none d rest x)
  | inr e ↦ elim (Option-cases (get i.block d.blocks)) [
    | inl missing ↦ rw (add_instances, e, missing) (λ h. refl, λ h. refl)
    | inr (block, there_) ↦
        rw (add_instances, e, there_)
          (add_instances-none d rest (add_services d i (references_of block) x))
  ]
]

with_cycle-panicked :
    (errors : List Diagnostic) (cycle : Option (List Diagnostic))
    → ¬ (with_cycle errors cycle ≡ panicked)
with_cycle-panicked errors none h = ground arith
with_cycle-panicked errors (some cycle) h = ground arith

searched-panicked : (x : Option Gathered) → (searched x ≡ panicked) ↔ (x ≡ none)
searched-panicked none = (λ h. refl, λ h. refl)
searched-panicked (some x) =
    let never = with_cycle-panicked x.errors (
      check_nodes (expanded_edges x.graph) (λ node. []) expanded_cycle
        (suc (length (sort text_lt (keys x.graph)))) (sort text_lt (keys x.graph)) []) in
    (λ h. absurd (never h), λ h. absurd (ground arith))

-- The check panics exactly when an instance that is not external names a block that is not there,
-- whatever else the deployment holds.
pub validate_expanded_dependencies-panicked :
    (d : Deployment)
    → (validate_expanded_dependencies d ≡ panicked)
      ↔ (any (lacks_block d) (map (λ (name, i). i) d.instances) ≡ true)
unfolding validate_expanded_dependencies
validate_expanded_dependencies-panicked d =
    let (to, from) = searched-panicked (add_instances d (map (λ (name, i). i) d.instances) _) in
    let (found, back) = add_instances-none d (map (λ (name, i). i) d.instances) _ in
    (λ h. found (to h), λ h. from (back h))
