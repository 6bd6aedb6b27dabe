-- ===== src/Planner/Cycle/Walks.antt =====
-- Walks, cycles and orders without them.
use apm_projectrunner.Base.{List, [], ◌∷◌, All, Member, All-Member}

module _ {ℓ} {A : Type ℓ} (edges : A → List A) where
  abbrev pub Edge : A → A → Type ℓ
  Edge x y = Member y (edges x)

  -- A walk of one edge or more.
  pub data Walk : A → A → Type ℓ where
    one : {x z : A} → Edge x z → Walk x z
    more : {x y z : A} → Edge x y → Walk y z → Walk x z

  abbrev pub Cyclic : Type ℓ
  Cyclic = (x : A) × Walk x x

  pub Walk-extend : {x y z : A} → Walk x y → Edge y z → Walk x z
  Walk-extend (one e) f = more e (one f)
  Walk-extend (more e w) f = more e (Walk-extend w f)

  -- The targets of each element stand behind it.
  abbrev pub Ordered : List A → Type ℓ
  Ordered [] = Unit
  Ordered (x ∷ xs) = All (λ y. Member y xs) (edges x) × Ordered xs

  edge-stays : {x y : A} (xs : List A) → Ordered xs → Member x xs → Edge x y → Member y xs
  edge-stays [] o m e = elim m [ ]
  edge-stays (x ∷ xs) (targets, o) Member.here e =
      Member.there (All-Member (λ y. Member y xs) e targets)
  edge-stays (x ∷ xs) (targets, o) (Member.there m) e = Member.there (edge-stays xs o m e)

  walk-stays : {x z : A} (xs : List A) → Ordered xs → Member x xs → Walk x z → Member z xs
  walk-stays xs o m (one e) = edge-stays xs o m e
  walk-stays xs o m (more e w) = walk-stays xs o (edge-stays xs o m e) w

  walk-leaves :
      {z : A} (x : A) (xs : List A)
      → All (λ y. Member y xs) (edges x)
      → Ordered xs
      → Walk x z
      → Member z xs
  walk-leaves x xs targets o (one e) = All-Member (λ y. Member y xs) e targets
  walk-leaves x xs targets o (more e w) =
      walk-stays xs o (All-Member (λ y. Member y xs) e targets) w

  pub Ordered-acyclic : {x : A} (xs : List A) → Ordered xs → Member x xs → ¬ Walk x x
  Ordered-acyclic [] o m w = elim m [ ]
  Ordered-acyclic (x ∷ xs) (targets, o) Member.here w =
      Ordered-acyclic xs o (walk-leaves x xs targets o w) w
  Ordered-acyclic (y ∷ xs) (targets, o) (Member.there m) w = Ordered-acyclic xs o m w
