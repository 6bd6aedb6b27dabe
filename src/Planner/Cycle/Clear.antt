-- ===== src/Planner/Cycle/Clear.antt =====
-- Where the search reports no cycle there is none among the nodes that it has left.
use apm_projectrunner.Base.{
  ℕ, zero, suc, ◌≡◌, sym, ap, subst, ◌∙◌, ◌⊎◌, inl, inr, Bool, true, false, List, [], ◌∷◌, Option,
  some, contains, Eq, ◌==◌, All, Member, Bool-cases, Option-cases, arith,
}
use apm_projectrunner.Planner.Cycle.{Marks, discard, visit_any, enter, visit}
use apm_projectrunner.Planner.Cycle.Walks.{Ordered}
use apm_projectrunner.Planner.Cycle.Sound.{
  visit-Restores, visit_any-active, again, before, first, visit-Visited, discard-cons,
}

module _ {ℓ} {A : Type ℓ} ⦃e : Eq A⦄ (edges : A → List A) where
  -- The nodes that were left, the last one first: `done` holds these and the active ones.
  pub record IsLeft (m : Marks A) (left : List A) : Type ℓ where
    pub ordered : Ordered edges left
    pub covers : (x : A) → contains x m.done ≡ true → (contains x m.active ≡ true) ⊎ Member x left

  pub record Grown (left : List A) (m' : Marks A) (node : A) : Type ℓ where
    pub left' : List A
    pub is_left : IsLeft m' left'
    pub has : Member node left'
    pub keeps : (x : A) → Member x left → Member x left'

  abbrev pub Clears : (A → Marks A → Option (Bool × Marks A)) → Type ℓ
  Clears go =
      (node : A) (m m' : Marks A) (left : List A)
      → go node m ≡ some (false, m')
      → IsLeft m left
      → Grown left m' node

  record AllGrown (left : List A) (m' : Marks A) (ds : List A) : Type ℓ where
    left' : List A
    is_left : IsLeft m' left'
    has : All (λ d. Member d left') ds
    keeps : (x : A) → Member x left → Member x left'

  visit_any-AllGrown :
      (go : A → Marks A → Option (Bool × Marks A)) (clears : Clears go) (ds : List A)
      (m m' : Marks A) (left : List A)
      → visit_any go ds m ≡ some (false, m')
      → IsLeft m left
      → AllGrown left m' ds
  unfolding visit_any
  visit_any-AllGrown go clears [] m m' left h l = record {
    left' = left;
    is_left = subst (λ k. IsLeft k left) (ground arith) l;
    has = tt;
    keeps = λ x w. w;
  }
  visit_any-AllGrown go clears (d ∷ ds) m m' left h l = elim (Option-cases (go d m)) [
    | inl out ↦ absurd (ground arith)
    | inr ((true, m1), e) ↦ absurd (ground arith)
    | inr ((false, m1), e) ↦
        let g = clears d m m1 left e l in
        let rest = visit_any-AllGrown go clears ds m1 m' g.left' (ground arith) g.is_left in
        record {
          left' = rest.left';
          is_left = rest.is_left;
          has = (rest.keeps d g.has, rest.has);
          keeps = λ x w. rest.keeps x (g.keeps x w);
        }
  ]

  enter-IsLeft :
      (node : A) (m : Marks A) (left : List A) → IsLeft m left → IsLeft (enter node m) left
  enter-IsLeft node m left l = record {
    ordered = l.ordered;
    covers = λ x h. elim (Bool-cases (node == x)) [
      | inl same ↦ inl (ground arith)
      | inr other ↦ elim (l.covers x (ground arith)) [ inl on ↦ inl (ground arith) | inr w ↦ inr w ]
    ];
  }

  leave-IsLeft :
      (node : A) (m1 : Marks A) (active left : List A)
      → m1.active ≡ node ∷ active
      → contains node active ≡ false
      → All (λ d. Member d left) (edges node)
      → IsLeft m1 left
      → IsLeft (record m1 { active = discard node m1.active }) (node ∷ left)
  leave-IsLeft node m1 active left opened off targets l =
      let closed : discard node m1.active ≡ active =
        ap (discard node) opened ∙ discard-cons node active off in
      record {
        ordered = (targets, l.ordered);
        covers = λ x h. elim (l.covers x h) [
          | inr w ↦ inr (Member.there w)
          | inl on ↦ elim (Bool-cases (node == x)) [
            | inl same ↦
                inr
                  (subst (λ y. Member y (node ∷ left)) ((e.beq_correct node x).0 same) Member.here)
            | inr other ↦
                let on' : contains x (node ∷ active) ≡ true =
                  subst (λ k. contains x k ≡ true) opened on in
                inl (subst (λ k. contains x k ≡ true) (sym closed) (ground arith))
          ]
        ];
      }

  pub visit-Clears : (fuel : ℕ) → Clears (visit edges fuel)
  unfolding visit
  visit-Clears zero node m m' left h l = absurd (ground arith)
  visit-Clears (suc fuel) node m m' left h l = elim (visit-Visited edges fuel node m false m' h) [
    | again on b same ↦ absurd (ground arith)
    | before off old b same ↦ record {
      left' = left;
      is_left = subst (λ k. IsLeft k left) (sym same) l;
      has = elim (l.covers node old) [ inl on ↦ absurd (ground arith) | inr w ↦ w ];
      keeps = λ x w. w;
    }
    | first off new m1 e same ↦
        let g =
          visit_any-AllGrown (visit edges fuel) (visit-Clears fuel) (edges node) (enter node m) m1
            left e (enter-IsLeft node m left l) in
        let opened =
          visit_any-active edges (visit edges fuel) (visit-Restores edges fuel) (edges node)
            (enter node m) false m1 e in
        record {
          left' = node ∷ g.left';
          is_left =
              subst (λ k. IsLeft k (node ∷ g.left')) (sym same)
                (leave-IsLeft node m1 m.active g.left' opened off g.has g.is_left);
          has = Member.here;
          keeps = λ x w. Member.there (g.keeps x w);
        }
  ]
