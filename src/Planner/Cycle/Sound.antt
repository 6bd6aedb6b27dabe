-- ===== src/Planner/Cycle/Sound.antt =====
-- A cycle that the search reports is one.
use apm_projectrunner.Base.{
  ℕ, zero, suc, ◌≡◌, refl, sym, ap, subst, ◌∙◌, inl, inr, Bool, true, false, List, [], ◌∷◌, Option,
  some, contains, Eq, ◌==◌, All, All-map, All-self, Member, All-Member, Bool-cases, Option-cases,
  arith,
}
use apm_projectrunner.Planner.Cycle.{Marks, discard, visit_any, enter, visit}
use apm_projectrunner.Planner.Cycle.Walks.{Edge, Walk, one, Cyclic, Walk-extend}

module _ {ℓ} {A : Type ℓ} ⦃e : Eq A⦄ where
  discard-absent : (x : A) (xs : List A) → contains x xs ≡ false → discard x xs ≡ xs
  discard-absent x [] h = refl
  discard-absent x (y ∷ ys) h = ground (arith, discard-absent x ys)

  pub discard-cons : (x : A) (xs : List A) → contains x xs ≡ false → discard x (x ∷ xs) ≡ xs
  discard-cons x xs h = ground (arith, discard-absent x xs h, e.beq_correct x x)

  pub contains-Member : (x : A) (xs : List A) → contains x xs ≡ true → Member x xs
  contains-Member x [] h = absurd (ground arith)
  contains-Member x (y ∷ ys) h = elim (Bool-cases (y == x)) [
    | inl same ↦ subst (λ z. Member x (z ∷ ys)) (sym ((e.beq_correct y x).0 same)) Member.here
    | inr other ↦ Member.there (contains-Member x ys (ground arith))
  ]

  pub Member-contains : (x : A) (xs : List A) → Member x xs → contains x xs ≡ true
  Member-contains x [] m = elim m [ ]
  Member-contains x (y ∷ xs) Member.here = ground (arith, e.beq_correct y y)
  Member-contains x (y ∷ xs) (Member.there m) = ground (arith, Member-contains x xs m)

  module _ (edges : A → List A) where
    -- A visit leaves `active` as it found it.
    abbrev pub Restores : (A → Marks A → Option (Bool × Marks A)) → Type ℓ
    Restores go =
        (node : A) (m : Marks A) (found : Bool) (m' : Marks A)
        → go node m ≡ some (found, m')
        → m'.active ≡ m.active

    pub visit_any-active :
        (go : A → Marks A → Option (Bool × Marks A)) (keeps : Restores go) (ds : List A)
        (m : Marks A) (found : Bool) (m' : Marks A)
        → visit_any go ds m ≡ some (found, m')
        → m'.active ≡ m.active
    unfolding visit_any
    visit_any-active go keeps [] m found m' h = ground arith
    visit_any-active go keeps (d ∷ ds) m found m' h = elim (Option-cases (go d m)) [
      | inl out ↦ absurd (ground arith)
      | inr ((true, m1), e) ↦ ground (arith, keeps d m true m1 e)
      | inr ((false, m1), e) ↦
          ground (arith, keeps d m false m1 e, visit_any-active go keeps ds m1 found m')
    ]

    -- How a visit that returns went.
    pub data Visited (fuel : ℕ) (node : A) (m : Marks A) (found : Bool) (m' : Marks A)
        : Type ℓ where
      again : contains node m.active ≡ true → found ≡ true → m' ≡ m → Visited fuel node m found m'
      before :
          contains node m.active ≡ false
          → contains node m.done ≡ true
          → found ≡ false
          → m' ≡ m
          → Visited fuel node m found m'
      first :
          contains node m.active ≡ false
          → contains node m.done ≡ false
          → (m1 : Marks A)
          → visit_any (visit edges fuel) (edges node) (enter node m) ≡ some (found, m1)
          → m' ≡ record m1 { active = discard node m1.active }
          → Visited fuel node m found m'

    pub visit-Visited :
        (fuel : ℕ) (node : A) (m : Marks A) (found : Bool) (m' : Marks A)
        → visit edges (suc fuel) node m ≡ some (found, m')
        → Visited fuel node m found m'
    unfolding visit
    visit-Visited fuel node m found m' h = elim (Bool-cases (contains node m.active)) [
      | inl on ↦ again on (ground arith) (ground arith)
      | inr off ↦ elim (Bool-cases (contains node m.done)) [
        | inl old ↦ before off old (ground arith) (ground arith)
        | inr new ↦ elim (Option-cases (visit_any (visit edges fuel) (edges node) (enter node m))) [
          | inl out ↦ absurd (ground arith)
          | inr ((b, m1), e) ↦
              let same : b ≡ found = ground arith in
              first off new m1
                (subst
                  (λ c. visit_any (visit edges fuel) (edges node) (enter node m) ≡ some (c, m1))
                  same e)
                (ground arith)
        ]
      ]
    ]

    pub visit-Restores : (fuel : ℕ) → Restores (visit edges fuel)
    unfolding visit
    visit-Restores zero node m found m' h = absurd (ground arith)
    visit-Restores (suc fuel) node m found m' h = elim (visit-Visited fuel node m found m' h) [
      | again on b same ↦ ap (λ (k : Marks A). k.active) same
      | before off old b same ↦ ap (λ (k : Marks A). k.active) same
      | first off new m1 e same ↦
          let kept =
            visit_any-active (visit edges fuel) (visit-Restores fuel) (edges node) (enter node m)
              found m1 e in
          ap (λ (k : Marks A). k.active) same
          ∙ ap (discard node) kept
          ∙ discard-cons node m.active off
    ]

    -- A search that reports a cycle at a node to which walks lead from every active node is right.
    abbrev Exposes : (A → Marks A → Option (Bool × Marks A)) → Type ℓ
    Exposes go =
        (node : A) (m m' : Marks A)
        → All (λ a. Walk edges a node) m.active
        → go node m ≡ some (true, m')
        → Cyclic edges

    visit_any-Cyclic :
        (go : A → Marks A → Option (Bool × Marks A)) (keeps : Restores go) (exposes : Exposes go)
        (ds : List A) (m m' : Marks A)
        → All (λ d. All (λ a. Walk edges a d) m.active) ds
        → visit_any go ds m ≡ some (true, m')
        → Cyclic edges
    unfolding visit_any
    visit_any-Cyclic go keeps exposes [] m m' walks h = absurd (ground arith)
    visit_any-Cyclic go keeps exposes (d ∷ ds) m m' (here, walks) h = elim (Option-cases (go d m)) [
      | inl out ↦ absurd (ground arith)
      | inr ((true, m1), e) ↦ exposes d m m1 here e
      | inr ((false, m1), e) ↦
          visit_any-Cyclic go keeps exposes ds m1 m'
            (subst (λ open_. All (λ d'. All (λ a. Walk edges a d') open_) ds)
              (sym (keeps d m false m1 e)) walks)
            (ground arith)
    ]

    below :
        (node : A) (active : List A)
        → All (λ a. Walk edges a node) active
        → (ds : List A) → All (λ d. Edge edges node d) ds
        → All (λ d. All (λ a. Walk edges a d) (node ∷ active)) ds
    below node active walks [] es = tt
    below node active walks (d ∷ ds) (e, es) = (
      (one e, All-map (λ a w. Walk-extend edges w e) active walks),
      below node active walks ds es,
    )

    visit-Exposes : (fuel : ℕ) → Exposes (visit edges fuel)
    unfolding visit
    visit-Exposes zero node m m' walks h = absurd (ground arith)
    visit-Exposes (suc fuel) node m m' walks h = elim (visit-Visited fuel node m true m' h) [
      | again on b same ↦
          (node, All-Member (λ a. Walk edges a node) (contains-Member node m.active on) walks)
      | before off old b same ↦ absurd (ground arith)
      | first off new m1 e same ↦
          visit_any-Cyclic (visit edges fuel) (visit-Restores fuel) (visit-Exposes fuel)
            (edges node) (enter node m) m1
            (below node m.active walks (edges node) (All-self (edges node))) e
    ]

    pub visit-Cyclic :
        (fuel : ℕ) (node : A) (done : List A) (m' : Marks A)
        → visit edges fuel node (record { active = []; done = done }) ≡ some (true, m')
        → Cyclic edges
    visit-Cyclic fuel node done m' h =
        visit-Exposes fuel node (record { active = []; done = done }) m' tt h
