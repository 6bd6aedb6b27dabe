-- ===== src/State/Reconcile/Sync.antt =====
-- When a deployment has no drift.
use apm_projectrunner.Base.{
  ◌≡◌, ◌≢◌, ◌⊎◌, ◌↔◌, inl, inr, refl, subst, String, false, List, [], ◌∷◌, Option, none, some, get,
  All, arith, Eq, ◌!=◌, ◌||◌, ◌++◌, string_eq, option_eq, append-eq-nil,
}
use apm_projectrunner.State.Reconcile.{
  OwnedResourceObservation, GeneratedManifest, reconcile_deployment, hash_sources, hashes_of,
  collect_set, badly_owned, managed_label, deployment_label, applied_diagnostics,
  ownership_diagnostics, missing_diagnostics, several_diagnostics, mismatch_diagnostics,
  observed_diagnostics,
}
use apm_projectrunner.State.Reconcile.Hashes.{
  Carries, filter_none, hash_sources-nonempty, sources_to, sources_from,
}

-- What is desired is what was applied, and its resources have the hash.
abbrev pub Desired : String → Option GeneratedManifest → Option String → Type 0
Desired h none none = Unit
Desired h (some m) (some applied) = (m.definition_hash ≡ applied) × (m.resource_hash ≡ h)
Desired h _ _ = ⊥

-- The labels say that the program manages the resource, for this deployment.
abbrev pub Owned : String → OwnedResourceObservation → Type 0
Owned deployment r =
    (get managed_label r.labels ≡ some "true") × (get deployment_label r.labels ≡ some deployment)

All-iff {ℓ κ μ} :
    {A : Type ℓ} {P : A → Type κ} {Q : A → Type μ} (f : (x : A) → P x ↔ Q x) (xs : List A)
    → All P xs ↔ All Q xs
All-iff f [] = (λ h. tt, λ h. tt)
All-iff f (x ∷ xs) =
    (λ h. ((f x).0 h.0, (All-iff f xs).0 h.1), λ h. ((f x).1 h.0, (All-iff f xs).1 h.1))

neither_differs {ℓ} :
    {A : Type ℓ} ⦃e : Eq A⦄ (a b c d : A) → (((a != b) || (c != d)) ≡ false) ↔ ((a ≡ b) × (c ≡ d))
neither_differs ⦃e = e⦄ a b c d = ground (arith, e.beq_correct a b, e.beq_correct c d)

badly_owned_lem :
    (deployment : String) (r : OwnedResourceObservation)
    → (badly_owned deployment r ≡ false) ↔ Owned deployment r
badly_owned_lem deployment r =
    neither_differs (get managed_label r.labels) (some "true") (get deployment_label r.labels)
      (some deployment)

ownership_lem :
    (deployment : String) (rs : List OwnedResourceObservation)
    → (ownership_diagnostics deployment rs ≡ []) ↔ All (Owned deployment) rs
unfolding ownership_diagnostics
ownership_lem deployment rs =
    let (split, join) = All-iff (badly_owned_lem deployment) rs in
    let (to, from) = filter_none (badly_owned deployment) rs in
    (λ e. split (to (ground arith)), λ owned. let e = from (join owned) in ground arith)

desired_lem :
    (h : String) (manifest : Option GeneratedManifest) (applied_hash : Option String)
    → ((applied_diagnostics manifest applied_hash ≡ [])
        × (mismatch_diagnostics manifest (h ∷ []) ≡ []))
      ↔ Desired h manifest applied_hash
unfolding applied_diagnostics mismatch_diagnostics
desired_lem h none none = ground arith
desired_lem h none (some a) = ground arith
desired_lem h (some m) none = ground arith
desired_lem h (some m) (some a) =
    ground
      (arith, string_eq.beq_correct m.definition_hash a, string_eq.beq_correct h m.resource_hash)

pub record IsRunning (deployment : String) (applied_hash : Option String)
    (manifest : Option GeneratedManifest) (resources : List OwnedResourceObservation) : Type 0 where
  pub hash : String
  pub present : resources ≢ []
  pub owned : All (Owned deployment) resources
  pub carried : All (Carries hash) (hash_sources resources)
  pub desired : Desired hash manifest applied_hash

abbrev pub Absent :
    Option String → Option GeneratedManifest → List OwnedResourceObservation → Type 0
Absent applied_hash manifest resources =
    (applied_hash ≡ none) × (manifest ≡ none) × (resources ≡ [])

four-eq-nil {ℓ} :
    {A : Type ℓ} (a b c d : List A)
    → a ++ b ++ c ++ d ≡ []
    → (a ≡ []) × (b ≡ []) × (c ≡ []) × (d ≡ [])
four-eq-nil a b c d e =
    ground (arith, append-eq-nil (a ++ b ++ c) d, append-eq-nil (a ++ b) c, append-eq-nil a b)

several-one : (h : String) → several_diagnostics (h ∷ []) ≡ []
unfolding several_diagnostics
several-one h = refl

no_drift-empty :
    (deployment : String) (applied_hash : Option String) (manifest : Option GeneratedManifest)
    → ((reconcile_deployment deployment applied_hash manifest []).diagnostics ≡ [])
      ↔ (Absent applied_hash manifest [] ⊎ IsRunning deployment applied_hash manifest [])
unfolding reconcile_deployment observed_diagnostics applied_diagnostics
no_drift-empty deployment none none = (λ e. inl (refl, refl, refl), λ h. refl)
no_drift-empty deployment none (some m) = (
  λ e. absurd (ground arith),
  λ h. elim h [ inl a ↦ absurd (ground arith) | inr g ↦ absurd (g.present refl) ],
)
no_drift-empty deployment (some a) none = (
  λ e. absurd (ground arith),
  λ h. elim h [ inl a ↦ absurd (ground arith) | inr g ↦ absurd (g.present refl) ],
)
no_drift-empty deployment (some a) (some m) = (
  λ e. absurd (ground (arith, append-eq-nil (applied_diagnostics (some m) (some a)))),
  λ h. elim h [ inl a ↦ absurd (ground arith) | inr g ↦ absurd (g.present refl) ],
)

-- A deployment is reported without drift exactly when nothing is desired, applied or observed of it,
-- or when it has resources, all of them labelled as its own, those whose hash counts carry one and
-- the same hash, and either there is neither a manifest nor an applied hash, or the manifest's
-- definition hash is the applied one and its resource hash is the one that is observed. The hash counts
-- of the resources that are no volumes, or of the volumes where there is nothing else.
pub reconcile_deployment-no_drift :
    (deployment : String) (applied_hash : Option String) (manifest : Option GeneratedManifest)
    (resources : List OwnedResourceObservation)
    → ((reconcile_deployment deployment applied_hash manifest resources).diagnostics ≡ []) ↔ (
        Absent applied_hash manifest resources
        ⊎ IsRunning deployment applied_hash manifest resources)
unfolding reconcile_deployment observed_diagnostics
reconcile_deployment-no_drift deployment applied_hash manifest [] =
    no_drift-empty deployment applied_hash manifest
reconcile_deployment-no_drift deployment applied_hash manifest (r ∷ rs) =
    let sources = hash_sources (r ∷ rs) in
    let ne = hash_sources-nonempty r rs in
    (
      λ e.
          let (agreed, e1) = (append-eq-nil (applied_diagnostics manifest applied_hash) _).0 e in
          let (owned, missing, several, matched) =
            four-eq-nil (ownership_diagnostics deployment (r ∷ rs)) (missing_diagnostics sources)
              (several_diagnostics (collect_set (hashes_of sources)))
              (mismatch_diagnostics manifest (collect_set (hashes_of sources))) e1 in
          let (h, one, carried) = sources_to sources ne missing several in
          inr (record {
            hash = h;
            present = ground arith;
            owned = (ownership_lem deployment (r ∷ rs)).0 owned;
            carried = carried;
            desired =
                (desired_lem h manifest applied_hash).0
                  (agreed, subst (λ s. mismatch_diagnostics manifest s ≡ []) one matched);
          }),
      λ h. elim h [
        | inl a ↦ absurd (ground arith)
        | inr g ↦
            let (missing, one) = sources_from g.hash sources ne g.carried in
            let (agreed, matched) = (desired_lem g.hash manifest applied_hash).1 g.desired in
            rw
              (
                agreed,
                (ownership_lem deployment (r ∷ rs)).1 g.owned,
                missing,
                one,
                matched,
                several-one g.hash,
              )
              refl
      ],
    )
