-- ===== src/Planner/Cycle/Ends.antt =====
-- More fuel than there are nodes is enough for the search.
use apm_projectrunner.Base.{
  ℕ, zero, suc, ◌<◌, ◌≤◌, ◌≡◌, refl, sym, subst, inl, inr, Bool, true, false, not, List, [], ◌∷◌,
  Option, some, contains, filter, length, Eq, ◌==◌, All, Bool-cases, Option-cases, arith,
}
use apm_projectrunner.Planner.Cycle.{Marks, discard, visit_any, enter, visit}
use apm_projectrunner.Planner.Cycle.Sound.{again, before, first, visit-Visited}

module _ {ℓ} {A : Type ℓ} ⦃e : Eq A⦄ where
  -- The nodes that are not done.
  abbrev pub open_nodes : List A → List A → ℕ
  open_nodes nodes done = length (filter (λ x. not (contains x done)) nodes)

  -- The marks grow.
  abbrev pub Grows : List A → List A → Type ℓ
  Grows done done' = (x : A) → contains x done ≡ true → contains x done' ≡ true

  pub open_nodes_mono :
      (nodes done done' : List A)
      → Grows done done'
      → open_nodes nodes done' ≤ open_nodes nodes done
  open_nodes_mono [] done done' h = omega arith
  open_nodes_mono (x ∷ nodes) done done' h = ground (arith, open_nodes_mono nodes done done' h, h x)

  enter-Grows : (node : A) (done : List A) → Grows done (node ∷ done)
  enter-Grows node done x h = ground arith

  open_nodes-enter :
      (node : A) (nodes done : List A)
      → contains node nodes ≡ true
      → contains node done ≡ false
      → open_nodes nodes (node ∷ done) < open_nodes nodes done
  open_nodes-enter node [] done h new = absurd (ground arith)
  open_nodes-enter node (x ∷ nodes) done h new = elim (Bool-cases (x == node)) [
    | inl same ↦
        let one : x ≡ node = (e.beq_correct x node).0 same in
        let fresh : contains x done ≡ false = subst (λ y. contains y done ≡ false) (sym one) new in
        ground (
          arith,
          open_nodes_mono nodes done (node ∷ done) (enter-Grows node done),
          e.beq_correct node x,
        )
    | inr other ↦ ground (
      arith,
      open_nodes-enter node nodes done (ground arith) new,
      e.beq_correct node x,
      e.beq_correct x node,
    )
  ]

  module _ (edges : A → List A) where
    abbrev pub KeepsDone : (A → Marks A → Option (Bool × Marks A)) → Type ℓ
    KeepsDone go =
        (node : A) (m : Marks A) (found : Bool) (m' : Marks A)
        → go node m ≡ some (found, m')
        → Grows m.done m'.done

    visit_any-KeepsDone :
        (go : A → Marks A → Option (Bool × Marks A)) (keeps : KeepsDone go) (ds : List A)
        (m : Marks A) (found : Bool) (m' : Marks A)
        → visit_any go ds m ≡ some (found, m')
        → Grows m.done m'.done
    unfolding visit_any
    visit_any-KeepsDone go keeps [] m found m' h x w = ground arith
    visit_any-KeepsDone go keeps (d ∷ ds) m found m' h x w = elim (Option-cases (go d m)) [
      | inl out ↦ absurd (ground arith)
      | inr ((true, m1), e1) ↦ ground (arith, keeps d m true m1 e1 x w)
      | inr ((false, m1), e1) ↦
          visit_any-KeepsDone go keeps ds m1 found m' (ground arith) x (keeps d m false m1 e1 x w)
    ]

    pub visit-KeepsDone : (fuel : ℕ) → KeepsDone (visit edges fuel)
    unfolding visit
    visit-KeepsDone zero node m found m' h x w = absurd (ground arith)
    visit-KeepsDone (suc fuel) node m found m' h x w =
        elim (visit-Visited edges fuel node m found m' h) [
          | again on b same ↦ subst (λ (k : Marks A). contains x k.done ≡ true) (sym same) w
          | before off old b same ↦ subst (λ (k : Marks A). contains x k.done ≡ true) (sym same) w
          | first off new m1 e1 same ↦
              subst (λ (k : Marks A). contains x k.done ≡ true) (sym same)
                (visit_any-KeepsDone (visit edges fuel) (visit-KeepsDone fuel) (edges node)
                  (enter node m) found m1 e1 x (enter-Grows node m.done x w))
        ]

    module _ (nodes : List A)
        (within : (x : A) → All (λ y. contains y nodes ≡ true) (edges x)) where
      abbrev Returns : ℕ → (A → Marks A → Option (Bool × Marks A)) → Type ℓ
      Returns fuel go =
          (node : A) (m : Marks A)
          → contains node nodes ≡ true
          → open_nodes nodes m.done < fuel
          → (r : Bool × Marks A) × (go node m ≡ some r)

      visit_any-Returns :
          (fuel : ℕ) (go : A → Marks A → Option (Bool × Marks A)) (keeps : KeepsDone go)
          (returns : Returns fuel go) (ds : List A) (m : Marks A)
          → All (λ d. contains d nodes ≡ true) ds
          → open_nodes nodes m.done < fuel
          → (r : Bool × Marks A) × (visit_any go ds m ≡ some r)
      unfolding visit_any
      visit_any-Returns fuel go keeps returns [] m ks enough = ((false, m), refl)
      visit_any-Returns fuel go keeps returns (d ∷ ds) m (k, ks) enough =
          let ((found, m1), e1) = returns d m k enough in
          elim (Bool-cases found) [
            | inl hit ↦ ((true, m1), ground arith)
            | inr miss ↦
                let e2 : go d m ≡ some (false, m1) = ground arith in
                let less = open_nodes_mono nodes m.done m1.done (keeps d m false m1 e2) in
                let (r, e3) = visit_any-Returns fuel go keeps returns ds m1 ks (omega arith) in
                (r, ground arith)
          ]

      pub visit-Returns : (fuel : ℕ) → Returns fuel (visit edges fuel)
      unfolding visit
      visit-Returns zero node m k enough = absurd (omega arith)
      visit-Returns (suc fuel) node m k enough = elim (Bool-cases (contains node m.active)) [
        | inl on ↦ ((true, m), rw on refl)
        | inr off ↦ elim (Bool-cases (contains node m.done)) [
          | inl old ↦ ((false, m), rw (off, old) refl)
          | inr new ↦
              let less = open_nodes-enter node nodes m.done k new in
              let ((found, m1), e1) =
                visit_any-Returns fuel (visit edges fuel) (visit-KeepsDone fuel)
                  (visit-Returns fuel) (edges node) (enter node m) (within node) (omega arith) in
              ((found, record m1 { active = discard node m1.active }), rw (off, new, e1) refl)
        ]
      ]
