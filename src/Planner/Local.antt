-- ===== src/Planner/Local.antt =====
-- `validate_local_dependencies`: the dependencies between the services of one block.
use apm_projectrunner.Base.{
  suc, ◌≡◌, refl, ◌↔◌, inl, inr, String, Bool, true, false, not, List, [], ◌∷◌, Option, none, some,
  Map, get, map, contains, contains_key, filter, concat, when, any, length, All, All-map, Member,
  format, is_some, split_once, string_eq, arith, Option-cases, Bool-cases, ◌||◌,
}
use apm_projectrunner.Planner.Model.{
  Diagnostic, diagnostic, dependency_cycle, missing_reference, is_cycle, Block,
}
use apm_projectrunner.Planner.Cycle.{check_nodes}
use apm_projectrunner.Planner.Cycle.Walks.{Cyclic}
use apm_projectrunner.Planner.Cycle.Check.{check_nodes-Decides}

abbrev pub keys {ℓ κ} : {K : Type ℓ} {V : Type κ} → Map K V → List K
keys m = map (λ entry. entry.0) m

-- `dependency.contains('/')`.
abbrev pub has_slash : String → Bool
has_slash name = is_some (split_once b'/' name)

-- The names in `depends_on` of a service; none for a name without a service, which is never visited.
abbrev pub dependencies : Block → String → List String
dependencies block name = elim (get name block.services) [ none ↦ [] | some s ↦ keys s.depends_on ]

-- What `visit` follows from a service.
unfoldable pub local_edges : Block → String → List String
local_edges block name =
    filter (λ d. contains_key d block.services)
      (filter (λ d. not (has_slash d)) (dependencies block name))

abbrev pub depends_path : String → String → String
depends_path block_name name =
    format ("spec.blocks." ∷ block_name ∷ ".services." ∷ name ∷ ".dependsOn" ∷ [])

unfoldable pub unknown_local : String → Block → String → List Diagnostic
unknown_local block_name block name = concat (
    map
      (λ d. when (not (contains_key d block.services)) (
        diagnostic missing_reference (depends_path block_name name)
          (format ("unknown local service " ∷ d ∷ []))))
      (filter (λ d. not (has_slash d)) (dependencies block name)))

abbrev pub local_cycle : String → String → Diagnostic
local_cycle block_name name =
    diagnostic dependency_cycle (depends_path block_name name) "service dependency cycle detected"

-- The errors that are pushed; the search has one more unit of fuel than there are services.
unfoldable pub validate_local_dependencies : String → Block → Option (List Diagnostic)
validate_local_dependencies block_name block =
    check_nodes (local_edges block) (unknown_local block_name block) (local_cycle block_name)
      (suc (length (keys block.services))) (keys block.services) []

-- Every local name that the service depends on is a service.
abbrev pub KnowsLocal : Block → String → Type 0
KnowsLocal block name =
    All (λ d. (has_slash d || contains_key d block.services) ≡ true) (dependencies block name)

pub record IsReported (block_name : String) (block : Block) : Type 0 where
  pub errors : List Diagnostic
  pub returns : validate_local_dependencies block_name block ≡ some errors
  pub clean :
      (errors ≡ [])
      ↔ ((¬ Cyclic (local_edges block)) × All (KnowsLocal block) (keys block.services))
  pub found : (any is_cycle errors ≡ true) ↔ Cyclic (local_edges block)

pub keys-contains {ℓ} :
    {V : Type ℓ} (k : String) (m : Map String V)
    → contains_key k m ≡ true
    → contains k (keys m) ≡ true
unfolding get
keys-contains k [] h = absurd (ground arith)
keys-contains k ((j, v) ∷ m) h = ground (arith, keys-contains k m)

All-kept {ℓ} : {A : Type ℓ} (p : A → Bool) (xs : List A) → All (λ x. p x ≡ true) (filter p xs)
All-kept p [] = tt
All-kept p (x ∷ xs) = elim (Bool-cases (p x)) [
  | inl e ↦ rw e (e, All-kept p xs)
  | inr e ↦ rw e (All-kept p xs)
]

pub not_in_empty {ℓ} : {A : Type ℓ} {y : A} (xs : List A) → xs ≡ [] → ¬ Member y xs
not_in_empty [] e m = elim m [ ]
not_in_empty (x ∷ xs) e m = ground arith

local_within :
    (block : Block) (x : String)
    → All (λ y. contains y (keys block.services) ≡ true) (local_edges block x)
unfolding local_edges
local_within block x =
    All-map (λ y h. keys-contains y block.services h) _
      (All-kept (λ d. contains_key d block.services)
        (filter (λ d. not (has_slash d)) (dependencies block x)))

local_sources :
    (block : Block) (x y : String)
    → Member y (local_edges block x)
    → contains x (keys block.services) ≡ true
unfolding local_edges
local_sources block x y m = elim (Option-cases (get x block.services)) [
  | inl e ↦ absurd (not_in_empty (local_edges block x) (ground arith) m)
  | inr (s, e) ↦ keys-contains x block.services (ground arith)
]

-- The errors for one list of names.
module _ (block_name name : String) (block : Block) where
  abbrev unknown_of : List String → List Diagnostic
  unknown_of ds = concat (
      map
        (λ d. when (not (contains_key d block.services)) (
          diagnostic missing_reference (depends_path block_name name)
            (format ("unknown local service " ∷ d ∷ []))))
        (filter (λ d. not (has_slash d)) ds))

  unknown_of-plain : (ds : List String) → any is_cycle (unknown_of ds) ≡ false
  unknown_of-plain [] = refl
  unknown_of-plain (d ∷ ds) = ground (arith, unknown_of-plain ds)

  unknown_of-eq-nil :
      (ds : List String)
      → (unknown_of ds ≡ []) ↔ All (λ d. (has_slash d || contains_key d block.services) ≡ true) ds
  unknown_of-eq-nil [] = (λ h. tt, λ h. refl)
  unknown_of-eq-nil (d ∷ ds) = ground (arith, unknown_of-eq-nil ds)

unknown_local-eq-nil :
    (block_name : String) (block : Block) (names : List String)
    → All (λ n. unknown_local block_name block n ≡ []) names ↔ All (KnowsLocal block) names
unfolding unknown_local
unknown_local-eq-nil block_name block [] = (λ h. tt, λ h. tt)
unknown_local-eq-nil block_name block (n ∷ names) =
    let (to, from) = unknown_of-eq-nil block_name n block (dependencies block n) in
    let (split, join) = unknown_local-eq-nil block_name block names in
    (λ h. (to h.0, split h.1), λ h. (from h.0, join h.1))

unknown_plain :
    (block_name : String) (block : Block) (n : String)
    → any is_cycle (unknown_local block_name block n) ≡ false
unfolding unknown_local
unknown_plain block_name block n = unknown_of-plain block_name n block (dependencies block n)

-- The check of a block's local dependencies ends and returns its errors. There are none exactly when
-- no service depends on itself through services of the block and every name without a slash that
-- a service depends on is a service; one of them is a dependency cycle exactly when there is one.
pub validate_local_dependencies-IsReported :
    (block_name : String) (block : Block) → IsReported block_name block
unfolding validate_local_dependencies
validate_local_dependencies-IsReported block_name block =
    let d =
      check_nodes-Decides (local_edges block) (unknown_local block_name block)
        (local_cycle block_name) is_cycle (keys block.services) (local_within block)
        (local_sources block) (unknown_plain block_name block) (λ n. refl) in
    let (to, from) = unknown_local-eq-nil block_name block (keys block.services) in
    record {
      errors = d.errors;
      returns = d.returns;
      clean = (
        λ h. let (none_, known) = d.clean.0 h in (none_, to known),
        λ h. d.clean.1 (h.0, from h.1),
      );
      found = d.found;
    }
