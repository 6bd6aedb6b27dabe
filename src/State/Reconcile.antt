-- ===== src/State/Reconcile.antt =====
-- `reconcile_deployment`: what is desired, applied and observed of one deployment, and where they
-- differ. A `BTreeSet` of texts is their ascending list.
pub mod Hashes
pub mod Sync
use Prim.Native.Nat.{Ordering}
use Prim.Native.String.{compare}
use apm_projectrunner.Base.{
  ℕ, String, Bool, true, false, ◌&&◌, ◌||◌, List, [], ◌∷◌, ◌++◌, Option, none, some, Map, get,
  is_some, contains_key, not, map, filter, contains, concat, when, length, is_empty, leb, format,
  join, ◌==◌, ◌!=◌, string_eq, option_eq, if◌then◌else◌,
}

pub data ResourceKind : Type 0 where
  container : ResourceKind
  image : ResourceKind
  network : ResourceKind
  volume : ResourceKind

pub record OwnedResourceObservation : Type 0 where
  pub kind : ResourceKind
  pub id : String
  pub name : String
  pub labels : Map String String
  pub state : Option String
  pub device : String

-- A path is a text.
pub record GeneratedDevice : Type 0 where
  pub user : String
  pub host : String
  pub port : ℕ
  pub identity_file : Option String

pub record GeneratedRemoteProject : Type 0 where
  pub device : GeneratedDevice
  pub compose_project : String
  pub compose_file : String
  pub services : List String

pub record GeneratedManifest : Type 0 where
  pub deployment : String
  pub definition_hash : String
  pub resource_hash : String
  pub remote_projects : Map String GeneratedRemoteProject

pub data DriftCode : Type 0 where
  applied_state_missing : DriftCode
  generated_manifest_missing : DriftCode
  desired_applied_hash_mismatch : DriftCode
  observed_resources_missing : DriftCode
  ownership_invalid : DriftCode
  observed_resource_hash_missing : DriftCode
  observed_resource_hash_mismatch : DriftCode
  multiple_observed_resource_hashes : DriftCode
  device_unreachable : DriftCode

pub record DriftDiagnostic : Type 0 where
  pub code : DriftCode
  pub path : String
  pub message : String

pub record DeploymentReconciliation : Type 0 where
  pub deployment : String
  pub diagnostics : List DriftDiagnostic

abbrev pub managed_label : String
managed_label = "dev.apmpr.managed"

abbrev pub deployment_label : String
deployment_label = "dev.apmpr.deployment"

abbrev pub resource_hash_label : String
resource_hash_label = "dev.apmpr.resource-hash"

abbrev pub is_volume : ResourceKind → Bool
is_volume volume = true
is_volume _ = false

abbrev diagnostic : DriftCode → String → String → DriftDiagnostic
diagnostic code path message = record { code = code; path = path; message = message }

abbrev before : String → String → Bool
before s t = elim (compare s t) [ Ordering.lt ↦ true | _ ↦ false ]

unfoldable pub set_insert : String → List String → List String
set_insert x [] = x ∷ []
set_insert x (y ∷ ys) =
    let rest = set_insert x ys in
    if x == y then y ∷ ys else if before x y then x ∷ y ∷ ys else y ∷ rest

unfoldable pub collect_set : List String → List String
collect_set [] = []
collect_set (x ∷ xs) = set_insert x (collect_set xs)

abbrev pub resource_hash : OwnedResourceObservation → Option String
resource_hash r = get resource_hash_label r.labels

-- The hashes of the resources that have one.
abbrev pub hashes_of : List OwnedResourceObservation → List String
hashes_of [] = []
hashes_of (r ∷ rs) = elim (resource_hash r) [ none ↦ hashes_of rs | some h ↦ h ∷ hashes_of rs ]

abbrev pub badly_owned : String → OwnedResourceObservation → Bool
badly_owned deployment r =
    (get managed_label r.labels != some "true")
    || (get deployment_label r.labels != some deployment)

abbrev pub lacks_hash : OwnedResourceObservation → Bool
lacks_hash r = not (contains_key resource_hash_label r.labels)

abbrev names : List OwnedResourceObservation → List String
names = map (λ (r : OwnedResourceObservation). r.name)

-- Volumes outlive a change of the topology: their hashes count only where there is nothing else.
unfoldable pub hash_sources : List OwnedResourceObservation → List OwnedResourceObservation
hash_sources resources =
    let topology = filter (λ r. not (is_volume r.kind)) resources in
    if is_empty topology then resources else topology

-- `match (manifest, applied_hash)`.
unfoldable pub applied_diagnostics : Option GeneratedManifest → Option String → List DriftDiagnostic
applied_diagnostics (some m) none =
    diagnostic applied_state_missing "applied"
      "generated state exists but no successful apply is recorded; desired state was not invented"
    ∷ []
applied_diagnostics none (some applied) =
    diagnostic generated_manifest_missing "desired.manifest"
      "applied state exists but the generated manifest is missing"
    ∷ []
applied_diagnostics (some m) (some applied) = when (m.definition_hash != applied) (
    diagnostic desired_applied_hash_mismatch "desired.definitionHash" (
      format (
        "generated definition hash " ∷ m.definition_hash ∷ " differs from applied hash " ∷ applied
        ∷ [])))
applied_diagnostics none none = []

unfoldable pub ownership_diagnostics : String → List OwnedResourceObservation → List DriftDiagnostic
ownership_diagnostics deployment resources =
    let invalid = filter (badly_owned deployment) resources in
    when (not (is_empty invalid)) (
      diagnostic ownership_invalid "observed.resources"
        (format ("resources have invalid ownership labels: " ∷ join ", " (names invalid) ∷ [])))

unfoldable pub missing_diagnostics : List OwnedResourceObservation → List DriftDiagnostic
missing_diagnostics sources =
    let missing = filter lacks_hash sources in
    when (not (is_empty missing)) (
      diagnostic observed_resource_hash_missing "observed.resources"
        (format ("resources lack resource-hash labels: " ∷ join ", " (names missing) ∷ [])))

unfoldable pub several_diagnostics : List String → List DriftDiagnostic
several_diagnostics hashes = when (not (leb (length hashes) 1)) (
    diagnostic multiple_observed_resource_hashes "observed.resourceHash"
      (format ("runtime has multiple resource hashes: " ∷ join ", " hashes ∷ [])))

unfoldable pub mismatch_diagnostics : Option GeneratedManifest → List String → List DriftDiagnostic
mismatch_diagnostics none hashes = []
mismatch_diagnostics (some m) hashes =
    when (not (is_empty hashes) && not (contains m.resource_hash hashes)) (
      diagnostic observed_resource_hash_mismatch "observed.resourceHash" (
        format (
          "generated resource hash "
          ∷ m.resource_hash
          ∷ " differs from observed hash(es): "
          ∷ join ", " hashes
          ∷ [])))

unfoldable pub observed_diagnostics :
    String
    → Option String
    → Option GeneratedManifest
    → List OwnedResourceObservation
    → List DriftDiagnostic
observed_diagnostics deployment applied_hash manifest [] =
    when (is_some manifest || is_some applied_hash) (
      diagnostic observed_resources_missing "observed.resources"
        "no labeled Docker resources were observed")
observed_diagnostics deployment applied_hash manifest (r ∷ rs) =
    let sources = hash_sources (r ∷ rs) in
    let hashes = collect_set (hashes_of sources) in
    ownership_diagnostics deployment (r ∷ rs)
    ++ missing_diagnostics sources
    ++ several_diagnostics hashes
    ++ mismatch_diagnostics manifest hashes

unfoldable pub reconcile_deployment :
    String
    → Option String
    → Option GeneratedManifest
    → List OwnedResourceObservation
    → DeploymentReconciliation
reconcile_deployment deployment applied_hash manifest resources = record {
  deployment = deployment;
  diagnostics =
      applied_diagnostics manifest applied_hash
      ++ observed_diagnostics deployment applied_hash manifest resources;
}
