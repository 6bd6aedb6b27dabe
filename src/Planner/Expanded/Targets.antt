-- ===== src/Planner/Expanded/Targets.antt =====
-- The edges of the graph lead to services of instances.
use Prim.Native.Char.{Char, code}
use Prim.Native.String
use Prim.Native.String.append
use text.Mathlib.TextEquality.{Char-path}
use apm_projectrunner.Base.{
  String, Bool, true, false, List, [], ◌∷◌, ◌++◌, Option, none, some, Map, get, insert, All, ◌≡◌,
  refl, ◌⊎◌, subst, ap, ◌==◌, nat_eq, string_eq, split_once, cons_left, Bool-cases, inl, inr, arith,
  if◌then◌else◌,
}
use apm_projectrunner.Planner.Model.{Block, Instance, is_external}
use apm_projectrunner.Planner.Expanded.{
  Deployment, Graph, slashed, target_name, in_instance, Found, followed, follow, follow_all,
  edges_or, Gathered, add_services, references_of, add_block, then_add, add_instances,
}

cons_left-some :
    (c : Char) (o : Option (String × String)) (a b : String)
    → cons_left c o ≡ some (a, b)
    → (a' : String) × (o ≡ some (a', b)) × (a ≡ String.◌∷◌ c a')
cons_left-some c none a b h = absurd (ground arith)
cons_left-some c (some (a', b')) a b h = (a', ground arith, ground arith)

-- The parts of a text that is split at a slash spell it.
pub split_once-slashed : (s a b : String) → split_once b'/' s ≡ some (a, b) → slashed a b ≡ s
unfolding split_once
split_once-slashed String.[] a b h = absurd (ground arith)
split_once-slashed (String.◌∷◌ c s) a b h = elim (Bool-cases (code c == b'/')) [
  | inl e ↦
      let empty : String.[] ≡ a = ground arith in
      let same : s ≡ b = ground arith in
      let slash : c ≡ "/" = Char-path c "/" (ground arith) in
      rw
        (
          ← empty,
          ← same,
          slash,
          append.nil (String.◌++◌ "/" s),
          append.cons "/" String.[] s,
          append.nil s,
        )
        refl
  | inr e ↦
      let (a', found, first) = cons_left-some c (split_once b'/' s) a b (ground arith) in
      rw (first, append.cons c a' (String.◌++◌ "/" b))
        (ap (λ t. String.◌∷◌ c t) (split_once-slashed s a' b found))
]

-- The target names a service of an instance that is not external.
abbrev pub IsService : Deployment → String → Type 0
IsService d target =
    (other : String) × (name : String) × (slashed other name ≡ target)
    × (in_instance d name (get other d.instances) ≡ true)

abbrev pub TargetsFit : Deployment → Graph → Type 0
TargetsFit d graph = All (λ (node, es). All (IsService d) es) graph

All-push :
    (P : String → Type 0) (xs : List String) (x : String) → All P xs → P x → All P (xs ++ x ∷ [])
All-push P [] x h p = (p, tt)
All-push P (y ∷ ys) x (q, h) p = (q, All-push P ys x h p)

followed-fit :
    (d : Deployment) (i : Instance) (service_name reference target : String)
    (parts : Option (String × String)) (f : Found)
    → split_once b'/' target ≡ parts
    → All (IsService d) f.edges
    → All (IsService d) (followed d i service_name reference target parts f).edges
followed-fit d i service_name reference target none f e h = h
followed-fit d i service_name reference target (some (other, name)) f e h =
    elim (Bool-cases (in_instance d name (get other d.instances))) [
      | inl there_ ↦ rw there_ (
          All-push (IsService d) f.edges target h
            (other, name, split_once-slashed target other name e, there_))
      | inr missing ↦ rw missing h
    ]

follow_all-fit :
    (d : Deployment) (i : Instance) (service_name : String) (references : List String) (f : Found)
    → All (IsService d) f.edges
    → All (IsService d) (follow_all d i service_name references f).edges
unfolding follow_all follow
follow_all-fit d i service_name [] f h = h
follow_all-fit d i service_name (reference ∷ rest) f h =
    let target = target_name i.name reference (split_once b'/' reference) in
    follow_all-fit d i service_name rest _
      (followed-fit d i service_name reference target (split_once b'/' target) f refl h)

pub edges-fit :
    (d : Deployment) (node : String) (graph : Graph)
    → TargetsFit d graph
    → All (IsService d) (edges_or (get node graph))
unfolding get
edges-fit d node [] h = tt
edges-fit d node ((n, es) ∷ rest) (fit, h) = elim (Bool-cases (n == node)) [
  | inl e ↦ rw e fit
  | inr e ↦ rw e (edges-fit d node rest h)
]

insert-fit :
    (d : Deployment) (node : String) (es : List String) (graph : Graph)
    → TargetsFit d graph
    → All (IsService d) es
    → TargetsFit d (insert node es graph)
unfolding insert
insert-fit d node es [] h fit = (fit, tt)
insert-fit d node es ((n, old) ∷ rest) (q, h) fit = elim (Bool-cases (n == node)) [
  | inl e ↦ rw e (fit, h)
  | inr e ↦ rw e (q, insert-fit d node es rest h fit)
]

add_services-fit :
    (d : Deployment) (i : Instance) (services : Map String (List String)) (x : Gathered)
    → TargetsFit d x.graph
    → TargetsFit d (add_services d i services x).graph
unfolding add_services
add_services-fit d i [] x h = h
add_services-fit d i ((name, references) ∷ rest) x h = add_services-fit d i rest _ (
    insert-fit d (slashed i.name name) _ x.graph h
      (follow_all-fit d i name references _ (edges-fit d (slashed i.name name) x.graph h)))

-- One round of the loop over the instances, when no index panics.
pub add_instances-cons :
    (d : Deployment) (i : Instance) (rest : List Instance) (x y : Gathered)
    → add_instances d (i ∷ rest) x ≡ some y
    → ((is_external i ≡ true) × (add_instances d rest x ≡ some y))
      ⊎ ((block : Block) × (get i.block d.blocks ≡ some block)
          × (is_external i ≡ false)
          × (add_instances d rest (add_services d i (references_of block) x) ≡ some y))
unfolding add_instances
add_instances-cons d i rest x y e = by_case (is_external i) (get i.block d.blocks) refl refl e
  where
    by_case :
        (out : Bool) (found : Option Block)
        → is_external i ≡ out
        → get i.block d.blocks ≡ found
        → (if out
            then add_instances d rest x
            else then_add (add_block d i x found) (λ z. add_instances d rest z))
          ≡ some y
        → ((is_external i ≡ true) × (add_instances d rest x ≡ some y))
          ⊎ ((block : Block) × (get i.block d.blocks ≡ some block)
              × (is_external i ≡ false)
              × (add_instances d rest (add_services d i (references_of block) x) ≡ some y))
    by_case true found e1 e2 e3 = inl (e1, e3)
    by_case false none e1 e2 e3 = absurd (ground arith)
    by_case false (some block) e1 e2 e3 = inr (block, e2, e1, e3)

pub add_instances-fit :
    (d : Deployment) (rows : List Instance) (x y : Gathered)
    → TargetsFit d x.graph
    → add_instances d rows x ≡ some y
    → TargetsFit d y.graph
add_instances-fit d [] x y h e =
    let same : x ≡ y = unfold add_instances in ground arith in
    subst (λ g. TargetsFit d g.graph) same h
add_instances-fit d (i ∷ rest) x y h e = elim (add_instances-cons d i rest x y e) [
  | inl (out, e') ↦ add_instances-fit d rest x y h e'
  | inr (block, there_, local, e') ↦
      add_instances-fit d rest (add_services d i (references_of block) x) y
        (add_services-fit d i (references_of block) x h) e'
]
