-- ===== src/State/Registry/Orderly.antt =====
-- The tables stay in order under every sequence of calls.
use apm_projectrunner.Base.{
  String, Bool, true, false, [], ◌∷◌, ◌++◌, some, Map, get, insert, remove, get-insert, get-remove,
  any, All, contains_key, is_some, ◌≡◌, refl, ◌==◌, string_eq, arith, Bool-cases, inl, inr,
}
use apm_projectrunner.State.Registry.{
  RegisteredSource, RegisteredSourceKind, managed, ImportedProfile, RegisteredDevice, Registry,
  is_empty_text,
}
use apm_projectrunner.State.Registry.Devices.{IsReachable}

module _ {V : Type 0} where
  -- One entry for each key.
  abbrev pub Once : Map String V → Type 0
  Once [] = Unit
  Once ((key, v) ∷ rest) = (contains_key key rest ≡ false) × Once rest

  pub Once-insert : (key : String) (v : V) (m : Map String V) → Once m → Once (insert key v m)
  unfolding insert get
  Once-insert key v [] h = (refl, tt)
  Once-insert key v ((k, w) ∷ rest) (free, h) = elim (Bool-cases (k == key)) [
    | inl e ↦ rw e (free, h)
    | inr e ↦ rw e (
      ground (
        arith,
        get-insert key k v rest,
        string_eq.beq_correct k key,
        string_eq.beq_correct key k,
      ),
      Once-insert key v rest h,
    )
  ]

  pub Once-remove : (key : String) (m : Map String V) → Once m → Once (remove key m)
  unfolding remove get
  Once-remove key [] h = tt
  Once-remove key ((k, w) ∷ rest) (free, h) = elim (Bool-cases (k == key)) [
    | inl e ↦ rw e (Once-remove key rest h)
    | inr e ↦ rw e (ground (arith, get-remove key k rest), Once-remove key rest h)
  ]

  module _ (P : String × V → Type 0) where
    pub All-insert :
        (key : String) (v : V) (m : Map String V) → P (key, v) → All P m → All P (insert key v m)
    unfolding insert
    All-insert key v [] p h = (p, tt)
    All-insert key v ((k, w) ∷ rest) p (q, h) = elim (Bool-cases (k == key)) [
      | inl e ↦ let same = (string_eq.beq_correct k key).0 e in rw e (rw same p, h)
      | inr e ↦ rw e (q, All-insert key v rest p h)
    ]

    pub All-remove : (key : String) (m : Map String V) → All P m → All P (remove key m)
    unfolding remove
    All-remove key [] h = tt
    All-remove key ((k, w) ∷ rest) (q, h) = elim (Bool-cases (k == key)) [
      | inl e ↦ rw e (All-remove key rest h)
      | inr e ↦ rw e (q, All-remove key rest h)
    ]

    pub All-get :
        (key : String) (v : V) (m : Map String V) → All P m → get key m ≡ some v → P (key, v)
    unfolding get
    All-get key v [] h e = absurd (ground arith)
    All-get key v ((k, w) ∷ rest) (q, h) e = elim (Bool-cases (k == key)) [
      | inl same ↦
          let k_is = (string_eq.beq_correct k key).0 same in
          let w_is : w ≡ v = ground arith in rw (← k_is, ← w_is) q
      | inr other ↦ All-get key v rest h (ground arith)
    ]

-- No two sources have one path.
abbrev pub PathsOnce : Map String RegisteredSource → Type 0
PathsOnce [] = Unit
PathsOnce ((key, s) ∷ rest) = (any (λ (k, t). t.path == s.path) rest ≡ false) × PathsOnce rest

-- A source under its name: it has a path, and a managed location exactly when it is managed.
abbrev pub is_managed : RegisteredSourceKind → Bool
is_managed managed = true
is_managed RegisteredSourceKind.unmanaged = false

abbrev pub IsSource : String × RegisteredSource → Type 0
IsSource (key, s) =
    (s.name ≡ key)
    × (is_empty_text s.path ≡ false)
    × (is_some s.managed_relative_path ≡ is_managed s.kind)

abbrev pub IsDevice : String × RegisteredDevice → Type 0
IsDevice (key, d) = (d.name ≡ key) × IsReachable d

abbrev pub IsProfile : String × ImportedProfile → Type 0
IsProfile (key, p) = p.name ≡ key

pub record SourcesFit (rows : Map String RegisteredSource) : Type 0 where
  pub names : Once rows
  pub paths : PathsOnce rows
  pub each : All IsSource rows

pub record ProfilesFit (rows : Map String ImportedProfile) : Type 0 where
  pub names : Once rows
  pub each : All IsProfile rows

pub record DevicesFit (rows : Map String RegisteredDevice) : Type 0 where
  pub names : Once rows
  pub each : All IsDevice rows

pub record IsOrderly (r : Registry) : Type 0 where
  pub sources : SourcesFit r.sources
  pub profiles : ProfilesFit r.profiles
  pub devices : DevicesFit r.devices

paths-append :
    (key : String) (s : RegisteredSource) (path : String) (m : Map String RegisteredSource)
    → any (λ (k, t). t.path == path) m ≡ false
    → (s.path == path) ≡ false
    → any (λ (k, t). t.path == path) (m ++ (key, s) ∷ []) ≡ false
paths-append key s path [] h e = ground arith
paths-append key s path ((k, t) ∷ rest) h e = ground (arith, paths-append key s path rest)

pub PathsOnce-append :
    (key : String) (s : RegisteredSource) (m : Map String RegisteredSource)
    → PathsOnce m
    → any (λ (k, t). t.path == s.path) m ≡ false
    → PathsOnce (m ++ (key, s) ∷ [])
PathsOnce-append key s [] h e = (refl, tt)
PathsOnce-append key s ((k, t) ∷ rest) (free, h) e = (
  paths-append key s t.path rest free
      (ground (arith, string_eq.beq_correct s.path t.path, string_eq.beq_correct t.path s.path)),
  PathsOnce-append key s rest h (ground arith),
)

paths-remove :
    (key path : String) (m : Map String RegisteredSource)
    → any (λ (k, t). t.path == path) m ≡ false
    → any (λ (k, t). t.path == path) (remove key m) ≡ false
unfolding remove
paths-remove key path [] h = refl
paths-remove key path ((k, t) ∷ rest) h = ground (arith, paths-remove key path rest)

pub PathsOnce-remove :
    (key : String) (m : Map String RegisteredSource) → PathsOnce m → PathsOnce (remove key m)
unfolding remove
PathsOnce-remove key [] h = tt
PathsOnce-remove key ((k, t) ∷ rest) (free, h) = elim (Bool-cases (k == key)) [
  | inl e ↦ rw e (PathsOnce-remove key rest h)
  | inr e ↦ rw e (paths-remove key t.path rest free, PathsOnce-remove key rest h)
]
