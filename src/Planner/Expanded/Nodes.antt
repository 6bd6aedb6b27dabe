-- ===== src/Planner/Expanded/Nodes.antt =====
-- Every service of an instance that is not external is a node, and what the search decides.
use apm_projectrunner.Base.{
  String, true, false, ◌||◌, List, [], ◌∷◌, ◌++◌, some, Map, get, get-insert, get-insert_self,
  insert, is_some, All, All-map, Member, contains, contains_key, ◌≡◌, ◌↔◌, refl, subst, ap, ◌∙◌,
  ◌==◌, string_eq, sort, place, text_lt, any, map, Option-cases, Bool-cases, inl, inr, arith,
}
use apm_projectrunner.Planner.Model.{Block, Instance, Service, Diagnostic, is_external, is_cycle}
use apm_projectrunner.Planner.Local.{keys, keys-contains, not_in_empty}
use apm_projectrunner.Planner.Cycle.Walks.{Cyclic}
use apm_projectrunner.Planner.Cycle.Check.{check_nodes-Decides}
use apm_projectrunner.Planner.Expanded.{
  Deployment, Graph, slashed, edges_or, follow_all, Gathered, add_services, references_of,
  add_instances, add_instances-none, expanded_edges, expanded_cycle, panicked,
  validate_expanded_dependencies-panicked, pushed, lacks_block, validate_expanded_dependencies,
}
use apm_projectrunner.Planner.Expanded.Accounts.{
  of_instances, unknown_of, targets_of, add_instances_lem,
}
use apm_projectrunner.Planner.Expanded.Targets.{
  IsService, TargetsFit, edges-fit, add_instances-cons, add_instances-fit,
}

add_services-keeps :
    (d : Deployment) (i : Instance) (services : Map String (List String)) (x : Gathered)
    (node : String)
    → contains_key node x.graph ≡ true
    → contains_key node (add_services d i services x).graph ≡ true
unfolding add_services
add_services-keeps d i [] x node h = h
add_services-keeps d i ((name, references) ∷ rest) x node h = add_services-keeps d i rest _ node (
    ground (
      arith,
      get-insert (slashed i.name name) node
          (follow_all d i name references (record {
            edges = edges_or (get (slashed i.name name) x.graph);
            errors = x.errors;
          })).edges
          x.graph,
    ))

add_services-has :
    (d : Deployment) (i : Instance) (services : Map String (List String)) (x : Gathered)
    (name : String)
    → contains_key name services ≡ true
    → contains_key (slashed i.name name) (add_services d i services x).graph ≡ true
unfolding add_services get
add_services-has d i [] x name h = absurd (ground arith)
add_services-has d i ((n, references) ∷ rest) x name h = elim (Bool-cases (n == name)) [
  | inl e ↦
      let same = (string_eq.beq_correct n name).0 e in
      add_services-keeps d i rest _ (slashed i.name name) (
        subst
          (λ m.
            contains_key (slashed i.name m) (
              insert (slashed i.name n)
                (follow_all d i n references (record {
                  edges = edges_or (get (slashed i.name n) x.graph);
                  errors = x.errors;
                })).edges
                x.graph)
            ≡ true)
          same (ap is_some (get-insert_self (slashed i.name n) _ x.graph)))
  | inr e ↦ add_services-has d i rest _ name (ground arith)
]

references_of-has :
    (name : String) (services : Map String Service)
    → contains_key name services ≡ true
    → contains_key name (map (λ (n, s). (n, keys s.depends_on)) services) ≡ true
unfolding get
references_of-has name [] h = absurd (ground arith)
references_of-has name ((n, s) ∷ rest) h = ground (arith, references_of-has name rest)

add_instances-keeps :
    (d : Deployment) (rows : List Instance) (x y : Gathered) (node : String)
    → add_instances d rows x ≡ some y
    → contains_key node x.graph ≡ true
    → contains_key node y.graph ≡ true
add_instances-keeps d [] x y node e h =
    let same : x ≡ y = unfold add_instances in ground arith in
    subst (λ (g : Gathered). contains_key node g.graph ≡ true) same h
add_instances-keeps d (i ∷ rest) x y node e h = elim (add_instances-cons d i rest x y e) [
  | inl (out, e') ↦ add_instances-keeps d rest x y node e' h
  | inr (block, there_, local, e') ↦
      add_instances-keeps d rest _ y node e' (add_services-keeps d i (references_of block) x node h)
]

add_instances-has :
    (d : Deployment) (i : Instance) (name : String) (block : Block) {rows : List Instance}
    → Member i rows
    → (x y : Gathered) → is_external i ≡ false
    → get i.block d.blocks ≡ some block
    → contains_key name block.services ≡ true
    → add_instances d rows x ≡ some y
    → contains_key (slashed i.name name) y.graph ≡ true
add_instances-has d i name block (Member.here {xs = rest}) x y local there_ has e =
    elim (add_instances-cons d i rest x y e) [
      | inl (out, e') ↦ absurd (ground arith)
      | inr (b, found, _, e') ↦
          let same : b ≡ block = ground arith in
          add_instances-keeps d rest _ y (slashed i.name name) e' (
            add_services-has d i (references_of b) x name
              (references_of-has name b.services (rw same has)))
    ]
add_instances-has d i name block (Member.there {x = j} {xs = rest} m) x y local there_ has e =
    elim (add_instances-cons d j rest x y e) [
      | inl (out, e') ↦ add_instances-has d i name block m x y local there_ has e'
      | inr (b, found, _, e') ↦ add_instances-has d i name block m _ y local there_ has e'
    ]

-- The instances stand under their names.
abbrev pub Keyed : Map String Instance → Type 0
Keyed rows = All (λ (name, i). i.name ≡ name) rows

get-Member :
    (name : String) (rows : Map String Instance) (i : Instance)
    → Keyed rows
    → get name rows ≡ some i
    → (i.name ≡ name) × Member i (map (λ (n, j). j) rows)
unfolding get
get-Member name [] i h e = absurd (ground arith)
get-Member name ((n, j) ∷ rest) i (named, h) e = elim (Bool-cases (n == name)) [
  | inl same ↦
      let found : j ≡ i = ground arith in
      (rw (← found) (named ∙ (string_eq.beq_correct n name).0 same), rw (← found) Member.here)
  | inr other ↦
      let (is_name, m) = get-Member name rest i h (ground arith) in (is_name, Member.there m)
]

-- A target of the graph is a node of it.
IsService-node :
    (d : Deployment) (x y : Gathered) (target : String)
    → Keyed d.instances
    → add_instances d (map (λ (n, i). i) d.instances) x ≡ some y
    → IsService d target
    → contains_key target y.graph ≡ true
IsService-node d x y target keyed e (other, name, spelled, there_) =
    elim (Option-cases (get other d.instances)) [
      | inl lost ↦ absurd (ground arith)
      | inr (i, found) ↦ elim (Option-cases (get i.block d.blocks)) [
        | inl lost ↦ absurd (ground arith)
        | inr (block, block_there) ↦
            let (named, m) = get-Member other d.instances i keyed found in
            subst (λ t. contains_key t y.graph ≡ true) (rw named spelled)
              (add_instances-has d i name block m x y (ground arith) block_there (ground arith) e)
      ]
    ]

contains-place :
    (y x : String) (xs : List String)
    → contains y (place text_lt x xs) ≡ ((x == y) || contains y xs)
unfolding place
contains-place y x [] = ground arith
contains-place y x (z ∷ zs) = ground (arith, contains-place y x zs)

contains-sort : (y : String) (xs : List String) → contains y (sort text_lt xs) ≡ contains y xs
unfolding sort
contains-sort y [] = refl
contains-sort y (x ∷ xs) = ground (arith, contains-place y x (sort text_lt xs), contains-sort y xs)

nodes_have :
    (graph : Graph) (node : String)
    → contains_key node graph ≡ true
    → contains node (sort text_lt (keys graph)) ≡ true
nodes_have graph node h = contains-sort node (keys graph) ∙ keys-contains node graph h

expanded_sources :
    (graph : Graph) (a b : String)
    → Member b (expanded_edges graph a)
    → contains a (sort text_lt (keys graph)) ≡ true
unfolding expanded_edges
expanded_sources graph a b m = elim (Option-cases (get a graph)) [
  | inl e ↦ absurd (not_in_empty (edges_or (get a graph)) (ground arith) m)
  | inr (es, e) ↦ nodes_have graph a (ground arith)
]

nothing_reported : (nodes : List String) → All (λ n. ◌≡◌ {A = List Diagnostic} [] []) nodes
nothing_reported [] = tt
nothing_reported (n ∷ nodes) = (refl, nothing_reported nodes)

module _ (d : Deployment) (x y : Gathered) (keyed : Keyed d.instances)
    (e : add_instances d (map (λ (n, i). i) d.instances) x ≡ some y) where
  edges_within :
      TargetsFit d y.graph
      → (node : String)
      → All (λ t. contains t (sort text_lt (keys y.graph)) ≡ true) (expanded_edges y.graph node)
  unfolding expanded_edges
  edges_within fit node =
      All-map (λ t s. nodes_have y.graph t (IsService-node d x y t keyed e s))
        (edges_or (get node y.graph)) (edges-fit d node y.graph fit)

  graph_targets :
      (graph : Graph)
      → TargetsFit d graph
      → All (λ (node, es). All (λ t. contains_key t y.graph ≡ true) es) graph
  graph_targets [] h = tt
  graph_targets ((node, es) ∷ rest) (fit, h) =
      (All-map (λ t s. IsService-node d x y t keyed e s) es fit, graph_targets rest h)

-- How the check of a deployment ends.
pub record Ends (d : Deployment) : Type 0 where
  pub gathered : Gathered
  pub graph :
      add_instances d (map (λ (name, i). i) d.instances) (record { graph = []; errors = [] })
      ≡ some gathered
  -- The errors are those of the references that lead to no service.
  pub reports : gathered.errors ≡ of_instances d (unknown_of d) (map (λ (name, i). i) d.instances)
  -- The edges of a node are the targets of its references that lead to a service.
  pub depends :
      (node : String)
      → expanded_edges gathered.graph node
        ≡ of_instances d (targets_of d node) (map (λ (name, i). i) d.instances)
  pub cycle : List Diagnostic
  pub returns : validate_expanded_dependencies d ≡ pushed (gathered.errors ++ cycle)
  pub clear : (cycle ≡ []) ↔ (¬ Cyclic (expanded_edges gathered.graph))
  pub targets :
      All (λ (node, es). All (λ t. contains_key t gathered.graph ≡ true) es) gathered.graph

gathered_edges :
    (d : Deployment) (y : Gathered)
    → add_instances d (map (λ (name, i). i) d.instances) (record { graph = []; errors = [] })
      ≡ some y
    → (node : String)
    → expanded_edges y.graph node
      ≡ of_instances d (targets_of d node) (map (λ (name, i). i) d.instances)
unfolding expanded_edges get
gathered_edges d y e node = (add_instances_lem d (map (λ (n, i). i) d.instances) _ y e).0 node

validate_expanded_dependencies-Ends :
    (d : Deployment)
    → Keyed d.instances
    → any (lacks_block d) (map (λ (name, i). i) d.instances) ≡ false
    → Ends d
unfolding validate_expanded_dependencies
validate_expanded_dependencies-Ends d keyed blocks_there =
    elim (Option-cases
      (add_instances d (map (λ (name, i). i) d.instances) (record { graph = []; errors = [] }))) [
        | inl lost ↦ absurd (
            ground (
              arith,
              (add_instances-none d (map (λ (name, i). i) d.instances)
                    (record { graph = []; errors = [] })).0
                  lost,
            ))
        | inr (y, e) ↦
            let start : Gathered = record { graph = []; errors = [] } in
            let fit = add_instances-fit d (map (λ (name, i). i) d.instances) start y tt e in
            let nodes = sort text_lt (keys y.graph) in
            let decided =
              check_nodes-Decides (expanded_edges y.graph) (λ n. []) expanded_cycle is_cycle nodes
                (edges_within d start y keyed e fit) (expanded_sources y.graph) (λ n. refl)
                (λ n. refl) in
            record {
              gathered = y;
              graph = e;
              reports = (add_instances_lem d (map (λ (n, i). i) d.instances) start y e).1;
              depends = gathered_edges d y e;
              cycle = decided.errors;
              returns = rw (e, decided.returns) refl;
              clear =
                  (λ h. (decided.clean.0 h).0, λ h. decided.clean.1 (h, nothing_reported nodes));
              targets = graph_targets d start y keyed e y.graph fit;
            }
      ]

-- The two ways in which the check comes to an end.
pub data Outcome (d : Deployment) : Type 0 where
  crashed :
      any (lacks_block d) (map (λ (name, i). i) d.instances) ≡ true
      → validate_expanded_dependencies d ≡ panicked
      → Outcome d
  ended : any (lacks_block d) (map (λ (name, i). i) d.instances) ≡ false → Ends d → Outcome d

-- With instances under their names, the check panics if an instance that is not external names a block
-- that is not there. Otherwise it ends, and pushes an error for each reference of a service that leads to
-- no service of an instance that is not external, in their order, and no other before the cycle. The
-- edges of its graph are, for each service, the targets of its references that do lead to one, every
-- edge leads to a node, and a cycle is reported exactly when the graph has one.
pub validate_expanded_dependencies-Outcome : (d : Deployment) → Keyed d.instances → Outcome d
validate_expanded_dependencies-Outcome d keyed =
    elim (Bool-cases (any (lacks_block d) (map (λ (name, i). i) d.instances))) [
      | inl e ↦ crashed e ((validate_expanded_dependencies-panicked d).1 e)
      | inr e ↦ ended e (validate_expanded_dependencies-Ends d keyed e)
    ]
