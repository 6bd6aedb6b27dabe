-- ===== src/Planner/Expanded/Accounts.antt =====
-- An independent account of what the check gathers: the references of all services, in order, of which
-- those that lead to a service give the edges, and the others the errors.
use Prim.Native.Char.{Char, code}
use Prim.Native.String
use Prim.Native.String.append
use mathlib.Core.List.{append-nil, append_assoc}
use apm_projectrunner.Base.{
  String, Bool, true, false, not, List, [], ◌∷◌, ◌++◌, Option, none, some, Map, get, get-insert,
  insert, map, filter, ◌≡◌, refl, sym, ap, ◌∙◌, ◌==◌, nat_eq, string_eq, split_once, cons_left,
  is_some, Bool-cases, Option-cases, inl, inr, arith, if◌then◌else◌,
}
use apm_projectrunner.Planner.Model.{Block, Instance, Diagnostic, is_external}
use apm_projectrunner.Planner.Expanded.{
  Deployment, slashed, target_name, in_instance, Found, unknown_reference, follow, follow_all,
  edges_or, Gathered, add_services, references_of, add_instances,
}
use apm_projectrunner.Planner.Expanded.Targets.{add_instances-cons}

-- `instance/service` of a reference, which names an instance or stands for one of its own instance.
abbrev pub reference_target : Instance → String → String
reference_target i reference = target_name i.name reference (split_once b'/' reference)

abbrev parts_lead : Deployment → Option (String × String) → Bool
parts_lead d none = false
parts_lead d (some (other, name)) = in_instance d name (get other d.instances)

-- The reference leads to a service of an instance that is not external.
abbrev pub leads : Deployment → Instance → String → Bool
leads d i reference = parts_lead d (split_once b'/' (reference_target i reference))

module _ {ℓ} {A : Type ℓ} (d : Deployment) (f : Instance → String → List String → List A) where
  abbrev of_services : Instance → Map String (List String) → List A
  of_services i [] = []
  of_services i ((name, references) ∷ rest) = f i name references ++ of_services i rest

  abbrev of_block : Instance → Option Block → List A
  of_block i none = []
  of_block i (some block) = of_services i (references_of block)

  -- What the services of the instances that are not external have.
  abbrev pub of_instances : List Instance → List A
  of_instances [] = []
  of_instances (i ∷ rest) =
      (if is_external i then [] else of_block i (get i.block d.blocks)) ++ of_instances rest

-- The references of a service that lead nowhere.
abbrev pub unknown_of : Deployment → Instance → String → List String → List Diagnostic
unknown_of d i name references =
    map (unknown_reference i name) (filter (λ reference. not (leads d i reference)) references)

-- The targets of a service, which is the node.
abbrev pub targets_of : Deployment → String → Instance → String → List String → List String
targets_of d node i name references =
    if slashed i.name name == node
    then map (reference_target i) (filter (leads d i) references)
    else []

cons_left-some? :
    (c : Char) (o : Option (String × String)) → is_some o ≡ true → is_some (cons_left c o) ≡ true
cons_left-some? c none h = ground arith
cons_left-some? c (some (first, last)) h = refl

slashed-parts : (a b : String) → is_some (split_once b'/' (slashed a b)) ≡ true
unfolding split_once
slashed-parts String.[] b = rw (append.nil (String.◌++◌ "/" b), append.cons "/" String.[] b) refl
slashed-parts (String.◌∷◌ c s) b = elim (Bool-cases (code c == b'/')) [
  | inl e ↦ rw (append.cons c s (String.◌++◌ "/" b), e) refl
  | inr e ↦
      rw (append.cons c s (String.◌++◌ "/" b), e)
        (cons_left-some? c (split_once b'/' (slashed s b)) (slashed-parts s b))
]

reference_target-parts :
    (i : Instance) (reference : String)
    → is_some (split_once b'/' (reference_target i reference)) ≡ true
reference_target-parts i reference = elim (Option-cases (split_once b'/' reference)) [
  | inl own ↦ rw own (slashed-parts i.name reference)
  | inr ((other, name), e) ↦ rw e (slashed-parts other name)
]

follow_lem :
    (d : Deployment) (i : Instance) (name reference : String) (f : Found)
    → follow d i name reference f ≡ (
        if leads d i reference
        then record f { edges = f.edges ++ reference_target i reference ∷ [] }
        else record f { errors = f.errors ++ unknown_reference i name reference ∷ [] })
unfolding follow
follow_lem d i name reference f =
    elim (Option-cases (split_once b'/' (reference_target i reference))) [
      | inl lost ↦ absurd (ground (arith, reference_target-parts i reference))
      | inr ((first, last), e) ↦ rw e refl
    ]

follow_all_lem :
    (d : Deployment) (i : Instance) (name : String) (references : List String) (f : Found)
    → ((follow_all d i name references f).edges
        ≡ f.edges ++ map (reference_target i) (filter (leads d i) references))
      × ((follow_all d i name references f).errors ≡ f.errors ++ unknown_of d i name references)
unfolding follow_all
follow_all_lem d i name [] f = (sym (append-nil f.edges), sym (append-nil f.errors))
follow_all_lem d i name (reference ∷ rest) f = elim (Bool-cases (leads d i reference)) [
  | inl e ↦
      let after : Found = record f { edges = f.edges ++ reference_target i reference ∷ [] } in
      let (edges, errors) = follow_all_lem d i name rest after in
      let step : follow d i name reference f ≡ after =
        follow_lem d i name reference f ∙ rw e refl in
      rw (follow_all, step, e)
        (edges ∙ append_assoc f.edges ((reference_target i reference) ∷ []) _, errors)
  | inr e ↦
      let after : Found = record f {
        errors = f.errors ++ unknown_reference i name reference ∷ [];
      } in
      let (edges, errors) = follow_all_lem d i name rest after in
      let step : follow d i name reference f ≡ after =
        follow_lem d i name reference f ∙ rw e refl in
      rw (follow_all, step, e)
        (edges, errors ∙ append_assoc f.errors ((unknown_reference i name reference) ∷ []) _)
]

add_services_lem :
    (d : Deployment) (i : Instance) (services : Map String (List String)) (x : Gathered)
    → ((node : String)
        → edges_or (get node (add_services d i services x).graph)
          ≡ edges_or (get node x.graph) ++ of_services d (targets_of d node) i services)
      × ((add_services d i services x).errors ≡ x.errors ++ of_services d (unknown_of d) i services)
unfolding add_services
add_services_lem d i [] x =
    (λ node. sym (append-nil (edges_or (get node x.graph))), sym (append-nil x.errors))
add_services_lem d i ((name, references) ∷ rest) x =
    let here = slashed i.name name in
    let found : Found = record { edges = edges_or (get here x.graph); errors = x.errors } in
    let f = follow_all d i name references found in
    let (edges, errors) = follow_all_lem d i name references found in
    let (later, failed) =
      add_services_lem d i rest
        (record { graph = insert here f.edges x.graph; errors = f.errors }) in
    (
      λ node.
          later node
          ∙ (ap (λ es. es ++ of_services d (targets_of d node) i rest)
                (at_node node here references f.edges x edges)
              ∙ append_assoc (edges_or (get node x.graph)) _ _),
      failed
          ∙ (ap (λ es. es ++ of_services d (unknown_of d) i rest) errors
              ∙ append_assoc x.errors _ _),
    )
  where
    at_node :
        (node here : String) (references es : List String) (x : Gathered)
        → es
          ≡ edges_or (get here x.graph) ++ map (reference_target i) (filter (leads d i) references)
        → edges_or (get node (insert here es x.graph))
          ≡ edges_or (get node x.graph)
            ++ (if here == node
                then map (reference_target i) (filter (leads d i) references)
                else [])
    at_node node here references es x h = elim (Bool-cases (here == node)) [
      | inl same ↦
          let e : here ≡ node = (string_eq.beq_correct here node).0 same in
          rw (get-insert here node es x.graph, same) (h ∙ rw e refl)
      | inr other ↦
          rw (get-insert here node es x.graph, other)
            (sym (append-nil (edges_or (get node x.graph))))
    ]

pub add_instances_lem :
    (d : Deployment) (rows : List Instance) (x y : Gathered)
    → add_instances d rows x ≡ some y
    → ((node : String)
        → edges_or (get node y.graph)
          ≡ edges_or (get node x.graph) ++ of_instances d (targets_of d node) rows)
      × (y.errors ≡ x.errors ++ of_instances d (unknown_of d) rows)
add_instances_lem d [] x y e =
    let same : x ≡ y = unfold add_instances in ground arith in
    rw (← same) (λ node. sym (append-nil (edges_or (get node x.graph))), sym (append-nil x.errors))
add_instances_lem d (i ∷ rest) x y e = elim (add_instances-cons d i rest x y e) [
  | inl (out, e') ↦ rw out (add_instances_lem d rest x y e')
  | inr (block, there_, local, e') ↦
      let (edges, errors) = add_services_lem d i (references_of block) x in
      let (later, failed) =
        add_instances_lem d rest (add_services d i (references_of block) x) y e' in
      rw (local, there_)
        (
          λ node.
              later node
              ∙ (ap (λ es. es ++ of_instances d (targets_of d node) rest) (edges node)
                  ∙ append_assoc (edges_or (get node x.graph)) _ _),
          failed
              ∙ (ap (λ es. es ++ of_instances d (unknown_of d) rest) errors
                  ∙ append_assoc x.errors _ _),
        )
]
