-- ===== src/Planner/Cycle.antt =====
-- The depth-first search of `validate_local_dependencies` and `validate_expanded_dependencies`, which
-- share the functions `visit` and `cyclic` up to their names. The recursion takes fuel.
pub mod Walks
pub mod Sound
pub mod Clear
pub mod Ends
pub mod Check
use apm_projectrunner.Base.{
  ℕ, zero, suc, Bool, true, false, not, List, [], ◌∷◌, ◌++◌, Option, none, some, filter, contains,
  Eq, ◌==◌, if◌then◌else◌,
}

-- `visiting` and `visited`, or `active` and `done`.
pub record Marks {ℓ} (A : Type ℓ) : Type ℓ where
  pub active : List A
  pub done : List A

module _ {ℓ} {A : Type ℓ} ⦃e : Eq A⦄ where
  -- `BTreeSet::remove`.
  abbrev pub discard : A → List A → List A
  discard x xs = filter (λ y. not (y == x)) xs

  -- `any(|next| visit(next))`: the search stops at the first cycle.
  unfoldable pub visit_any :
      (A → Marks A → Option (Bool × Marks A)) → List A → Marks A → Option (Bool × Marks A)
  visit_any go [] m = some (false, m)
  visit_any go (d ∷ ds) m = elim (go d m) [
    | none ↦ none
    | some (true, m') ↦ some (true, m')
    | some (false, m') ↦ visit_any go ds m'
  ]

  abbrev pub leave : A → Option (Bool × Marks A) → Option (Bool × Marks A)
  leave node none = none
  leave node (some (found, m)) = some (found, record m { active = discard node m.active })

  abbrev pub enter : A → Marks A → Marks A
  enter node m = record { active = node ∷ m.active; done = node ∷ m.done }

  module _ (edges : A → List A) where
    -- `none` means that the fuel ran out.
    unfoldable pub visit : ℕ → A → Marks A → Option (Bool × Marks A)
    visit zero node m = none
    visit (suc fuel) node m =
        let below = leave node (visit_any (visit fuel) (edges node) (enter node m)) in
        if contains node m.active
        then some (true, m)
        else if contains node m.done
        then some (false, m)
        else below

    -- The loop over the nodes, each with a fresh `visiting`: what `report` says of a node, until the
    -- first cycle.
    module _ {κ} {E : Type κ} (report : A → List E) (cycle : A → E) where
      unfoldable pub check_nodes : ℕ → List A → List A → Option (List E)
      check_nodes fuel [] done = some []
      check_nodes fuel (node ∷ nodes) done =
          elim (visit fuel node (record { active = []; done = done })) [
            | none ↦ none
            | some (true, m) ↦ some (cycle node ∷ [])
            | some (false, m) ↦ elim (check_nodes fuel nodes m.done) [
              | none ↦ none
              | some rest ↦ some (report node ++ rest)
            ]
          ]
