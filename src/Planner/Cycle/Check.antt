-- ===== src/Planner/Cycle/Check.antt =====
-- What the loop over the nodes reports.
use apm_projectrunner.Base.{
  ℕ, suc, ◌<◌, ◌≤◌, ◌≡◌, refl, sym, ap, subst, ◌∙◌, ◌↔◌, inl, inr, Bool, true, false, List, [], ◌∷◌,
  ◌++◌, some, contains, length, Eq, All, All-map, All-self, Member, All-Member, Bool-cases, arith,
  append-eq-nil, concat, map, any, ◌||◌,
}
use apm_projectrunner.Planner.Cycle.{Marks, visit, check_nodes}
use apm_projectrunner.Planner.Cycle.Walks.{Walk, one, more, Cyclic, Ordered, Ordered-acyclic}
use apm_projectrunner.Planner.Cycle.Sound.{
  visit-Cyclic, visit-Restores, contains-Member, Member-contains,
}
use apm_projectrunner.Planner.Cycle.Clear.{IsLeft, visit-Clears}
use apm_projectrunner.Planner.Cycle.Ends.{
  open_nodes, open_nodes_mono, visit-KeepsDone, visit-Returns,
}

module _ {ℓ κ} {A : Type ℓ} {E : Type κ} ⦃e : Eq A⦄ (edges : A → List A) (report : A → List E)
    (cycle : A → E) where
  -- Either a cycle was met, and is reported last, or there is none and every node's report stands.
  pub data Checked (nodes left : List A) (es : List E) : Type (ℓ ⊔ κ) where
    cyclic :
        (earlier : List E) (node : A)
        → Cyclic edges
        → es ≡ earlier ++ cycle node ∷ []
        → Checked nodes left es
    acyclic :
        (left' : List A)
        → Ordered edges left'
        → All (λ x. Member x left') nodes
        → ((x : A) → Member x left → Member x left')
        → es ≡ concat (map report nodes)
        → Checked nodes left es

  append_assoc : (xs ys zs : List E) → xs ++ (ys ++ zs) ≡ (xs ++ ys) ++ zs
  append_assoc [] ys zs = refl
  append_assoc (x ∷ xs) ys zs = ap (λ ws. x ∷ ws) (append_assoc xs ys zs)

  Checked-cons :
      (node : A) (nodes left left1 : List A) (es : List E)
      → Member node left1
      → ((x : A) → Member x left → Member x left1)
      → Checked nodes left1 es
      → Checked (node ∷ nodes) left (report node ++ es)
  Checked-cons node nodes left left1 es has keeps (cyclic earlier n c same) =
      cyclic (report node ++ earlier) n c
        (ap (λ ws. report node ++ ws) same ∙ append_assoc (report node) earlier (cycle n ∷ []))
  Checked-cons node nodes left left1 es has keeps (acyclic left' o ms keeps' same) =
      acyclic left' o (keeps' node has, ms) (λ x w. keeps' x (keeps x w))
        (ap (λ ws. report node ++ ws) same)

  closed-IsLeft :
      (fuel : ℕ) (node : A) (done : List A) (m : Marks A) (left : List A)
      → visit edges fuel node (record { active = []; done = done }) ≡ some (false, m)
      → IsLeft edges m left
      → IsLeft edges (record { active = []; done = m.done }) left
  closed-IsLeft fuel node done m left ran l =
      let none_open =
        visit-Restores edges fuel node (record { active = []; done = done }) false m ran in
      record {
        ordered = l.ordered;
        covers = λ x h. elim (l.covers x h) [
          | inl on ↦ absurd (ground (arith, subst (λ k. contains x k ≡ true) none_open on))
          | inr w ↦ inr w
        ];
      }

  check_from :
      (fuel : ℕ) (all_nodes nodes done left : List A)
      → ((x : A) → All (λ y. contains y all_nodes ≡ true) (edges x))
      → All (λ x. contains x all_nodes ≡ true) nodes
      → open_nodes all_nodes done < fuel
      → IsLeft edges (record { active = []; done = done }) left
      → (es : List E) × (check_nodes edges report cycle fuel nodes done ≡ some es)
        × Checked nodes left es
  unfolding check_nodes
  check_from fuel all_nodes [] done left within known enough l =
      ([], refl, acyclic left l.ordered tt (λ x w. w) refl)
  check_from fuel all_nodes (node ∷ nodes) done left within (k, known) enough l =
      let start : Marks A = record { active = []; done = done } in
      let ((found, m), ran) = visit-Returns edges all_nodes within fuel node start k enough in
      elim (Bool-cases found) [
        | inl hit ↦
            let e1 : visit edges fuel node start ≡ some (true, m) = ground arith in
            (
              cycle node ∷ [],
              ground arith,
              cyclic [] node (visit-Cyclic edges fuel node done m e1) refl,
            )
        | inr miss ↦
            let e1 : visit edges fuel node start ≡ some (false, m) = ground arith in
            let g = visit-Clears edges fuel node start m left e1 l in
            let less =
              open_nodes_mono all_nodes done m.done
                (visit-KeepsDone edges fuel node start false m e1) in
            let (es, e2, c) =
              check_from fuel all_nodes nodes m.done g.left' within known (omega arith)
                (closed-IsLeft fuel node done m g.left' e1 g.is_left) in
            (
              report node ++ es,
              ground arith,
              Checked-cons node nodes left g.left' es g.has g.keeps c,
            )
      ]

  nothing-IsLeft : IsLeft edges (record { active = []; done = [] }) []
  nothing-IsLeft = record { ordered = tt; covers = λ x h. absurd (ground arith) }

  self_known :
      (all_nodes nodes : List A)
      → All (λ x. Member x all_nodes) nodes
      → All (λ x. contains x all_nodes ≡ true) nodes
  self_known all_nodes nodes h = All-map (λ x m. Member-contains x all_nodes m) nodes h

  open_le : (nodes : List A) → open_nodes nodes [] ≤ length nodes
  open_le [] = omega arith
  open_le (x ∷ nodes) = omega (arith, open_le nodes)

  module _ (nodes : List A) (within : (x : A) → All (λ y. contains y nodes ≡ true) (edges x))
      (sources : (x y : A) → Member y (edges x) → contains x nodes ≡ true) where
    pub check_nodes-Checked :
        (es : List E) × (check_nodes edges report cycle (suc (length nodes)) nodes [] ≡ some es)
        × Checked nodes [] es
    check_nodes-Checked =
        let less = open_le nodes in
        check_from (suc (length nodes)) nodes nodes [] [] within
          (self_known nodes nodes (All-self nodes)) (omega arith) nothing-IsLeft

    -- A node on a cycle has an edge, so it is one of the nodes.
    pub acyclic_left :
        (left : List A) → Ordered edges left → All (λ x. Member x left) nodes → ¬ Cyclic edges
    acyclic_left left o ms (x, w) =
        Ordered-acyclic edges left o
          (All-Member (λ y. Member y left) (contains-Member x nodes (walk_source x x w)) ms) w
      where
        walk_source : (a z : A) → Walk edges a z → contains a nodes ≡ true
        walk_source a z (one d) = sources a z d
        walk_source a z (more {y = y} d v) = sources a y d

-- What the list of errors says, with the mark of a cycle's error.
module _ {ℓ κ} {A : Type ℓ} {E : Type κ} ⦃e : Eq A⦄ (edges : A → List A) (report : A → List E)
    (cycle : A → E) (is_cycle : E → Bool) (nodes : List A) where
  pub record Decides : Type (ℓ ⊔ κ) where
    pub errors : List E
    pub returns : check_nodes edges report cycle (suc (length nodes)) nodes [] ≡ some errors
    pub clean : (errors ≡ []) ↔ ((¬ Cyclic edges) × All (λ x. report x ≡ []) nodes)
    pub found : (any is_cycle errors ≡ true) ↔ Cyclic edges

  any-append : (xs ys : List E) → any is_cycle (xs ++ ys) ≡ any is_cycle xs || any is_cycle ys
  any-append [] ys = refl
  any-append (x ∷ xs) ys = ground (arith, any-append xs ys)

  any-reports :
      ((x : A) → any is_cycle (report x) ≡ false)
      → (xs : List A) → any is_cycle (concat (map report xs)) ≡ false
  any-reports plain [] = refl
  any-reports plain (x ∷ xs) =
      ground (arith, plain x, any-reports plain xs, any-append (report x) (concat (map report xs)))

  reports-eq-nil : (xs : List A) → (concat (map report xs) ≡ []) ↔ All (λ x. report x ≡ []) xs
  reports-eq-nil [] = (λ h. tt, λ h. refl)
  reports-eq-nil (x ∷ xs) =
      let (to, from) = reports-eq-nil xs in
      let (split, join) = append-eq-nil (report x) (concat (map report xs)) in
      (λ h. ((split h).0, to (split h).1), λ h. join (h.0, from h.1))

  pub check_nodes-Decides :
      ((x : A) → All (λ y. contains y nodes ≡ true) (edges x))
      → ((x y : A) → Member y (edges x) → contains x nodes ≡ true)
      → ((x : A) → any is_cycle (report x) ≡ false)
      → ((x : A) → is_cycle (cycle x) ≡ true)
      → Decides
  check_nodes-Decides within sources plain marked =
      let (es, ran, c) = check_nodes-Checked edges report cycle nodes within sources in
      elim c [
        | cyclic earlier n loop same ↦ record {
          errors = es;
          returns = ran;
          clean = (
            λ h. absurd (ground (arith, append-eq-nil earlier (cycle n ∷ []))),
            λ h. absurd (h.0 loop),
          );
          found = (λ h. loop, λ h. ground (arith, any-append earlier (cycle n ∷ []), marked n));
        }
        | acyclic left o ms keeps same ↦
            let none_ = acyclic_left edges report cycle nodes within sources left o ms in
            record {
              errors = es;
              returns = ran;
              clean = (
                λ h. (none_, (reports-eq-nil nodes).0 (sym same ∙ h)),
                λ h. same ∙ (reports-eq-nil nodes).1 h.1,
              );
              found =
                  (λ h. absurd (ground (arith, any-reports plain nodes)), λ h. absurd (none_ h));
            }
      ]
