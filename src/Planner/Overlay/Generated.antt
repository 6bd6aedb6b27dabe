-- ===== src/Planner/Overlay/Generated.antt =====
-- The environment of a generated service: `add_runtime_fields` and `apply_overlay_environment` of
-- crates/apmpr-planner/src/lib.rs, on a resolved instance. SHA-256 is not of this repository.
use apm_projectrunner.Base.{
  ℕ, zero, suc, ◌/◌, ◌%◌, String, false, List, [], ◌∷◌, Option, none, some, Map, get, insert,
  remove, get-insert, get-remove, contains, format, or_else, is_some, ◌≡◌, refl, subst, ◌==◌,
  string_eq, nat_eq, pair_eq, if◌then◌else◌, arith, ltb, decimal,
}
use apm_projectrunner.Planner.Overlay.{
  OverlaySecretReference, literal, secret, overlay_value, Resolving, Overlay, resolve_environment,
}
use apm_projectrunner.Planner.Overlay.Cells.{
  Cell, inherited, unset, given, Holds, latest, value_of, is_unset, secret_of,
}
use apm_projectrunner.Planner.Overlay.Layered.{
  layers, resolve_environment-Holds, name-resolve_environment,
}

-- `extend`; the keys of a map are distinct, so the order of the insertions makes no difference.
unfoldable pub extend : Map String String → Map String String → Map String String
extend m [] = m
extend m ((key, value) ∷ rest) = insert key value (extend m rest)

get-extend :
    (key : String) (m n : Map String String)
    → get key (extend m n) ≡ or_else (get key n) (get key m)
unfolding extend get
get-extend key m [] = refl
get-extend key m ((k, v) ∷ rest) =
    ground (arith, get-insert k key v (extend m rest), get-extend key m rest)

-- The parameters of a block that have a default.
unfoldable pub defaults : Map String (Option String) → Map String String
defaults [] = []
defaults ((key, none) ∷ rest) = defaults rest
defaults ((key, some value) ∷ rest) = (key, value) ∷ defaults rest

-- What a service has from its block and the parameters of the instance.
pub record Inputs : Type 0 where
  pub block_parameters : Map String (Option String)
  pub service_environment : Map String String
  pub instance_parameters : Map String String
  pub deployment : String

unfoldable pub inputs_environment : Inputs → Map String String
inputs_environment i =
    extend (extend (defaults i.block_parameters) i.service_environment) i.instance_parameters

-- The variables of `add_runtime_fields`.
unfoldable pub runtime_environment : Inputs → Resolving → Map String String
runtime_environment i r =
    insert "APMPR_INSTANCE" r.name
      (insert "APMPR_DEPLOYMENT" i.deployment (extend (inputs_environment i) r.environment))

abbrev hex_letter : ℕ → String
hex_letter d =
    if d == 10
    then "A"
    else if d == 11
    then "B"
    else if d == 12
    then "C"
    else if d == 13
    then "D"
    else if d == 14
    then "E"
    else "F"

abbrev hex_digit : ℕ → String
hex_digit d = if ltb d 10 then decimal d else hex_letter d

-- The upper-case hexadecimal digits of the first bytes.
unfoldable pub hex_upper : ℕ → List ℕ → String
hex_upper zero bs = ""
hex_upper (suc n) [] = ""
hex_upper (suc n) (b ∷ bs) = format (hex_digit (b / 16) ∷ hex_digit (b % 16) ∷ hex_upper n bs ∷ [])

unfoldable pub remove_all : List String → Map String String → Map String String
remove_all [] m = m
remove_all (key ∷ rest) m = remove_all rest (remove key m)

module _ (sha256 : String → List ℕ) where
  -- Sixteen digits are eight bytes.
  unfoldable pub overlay_secret_variable : String → String → String
  overlay_secret_variable instance_name key = format (
      "APMPR_OVERLAY_SECRET_"
      ∷ hex_upper 8 (sha256 (format (instance_name ∷ "\0" ∷ key ∷ [])))
      ∷ [])

  unfoldable pub placeholder : String → String → String
  placeholder instance_name key =
      format
        ("${" ∷ overlay_secret_variable instance_name key ∷ ":?overlay secret is required}" ∷ [])

  -- The loop over the secrets of all instances.
  unfoldable pub insert_secrets :
      String → Map (String × String) OverlaySecretReference → Map String String → Map String String
  insert_secrets name [] m = m
  insert_secrets name (((target, key), s) ∷ rest) m =
      insert_secrets name rest (if target == name then insert key (placeholder target key) m else m)

  unfoldable pub apply_overlay_environment : Resolving → Map String String → Map String String
  apply_overlay_environment r m =
      insert_secrets r.name r.secret_environment (remove_all r.environment_unset m)

  -- The environment of a service whose plan has overlays.
  unfoldable pub service_environment : Inputs → Resolving → Map String String
  service_environment i r = apply_overlay_environment r (runtime_environment i r)

get-remove_all :
    (key : String) (keys : List String) (m : Map String String)
    → get key (remove_all keys m) ≡ (if contains key keys then none else get key m)
unfolding remove_all
get-remove_all key [] m = refl
get-remove_all key (k ∷ rest) m =
    ground (arith, get-remove k key m, get-remove_all key rest (remove k m))

module _ (sha256 : String → List ℕ) where
  placeholder_same :
      (target name k key : String)
      → target ≡ name
      → k ≡ key
      → placeholder sha256 target k ≡ placeholder sha256 name key
  placeholder_same target name k key e f = rw (e, f) refl

  get-insert_secrets :
      (name key : String) (secrets : Map (String × String) OverlaySecretReference)
      (m : Map String String)
      → get key (insert_secrets sha256 name secrets m) ≡ (
          if is_some (get (name, key) secrets)
          then some (placeholder sha256 name key)
          else get key m)
  unfolding insert_secrets get
  get-insert_secrets name key [] m = refl
  get-insert_secrets name key (((target, k), s) ∷ rest) m = ground (
    arith,
    get-insert_secrets name key rest
        (if target == name then insert k (placeholder sha256 target k) m else m),
    get-insert k key (placeholder sha256 target k) m,
    string_eq.beq_correct target name,
    string_eq.beq_correct k key,
    placeholder_same target name k key,
  )

  -- What a service sees of a key, from its cell and from what it inherits.
  abbrev pub seen : String → String → Cell → Option String → Option String
  seen name key inherited other = other
  seen name key unset other = none
  seen name key (given (literal value)) other = some value
  seen name key (given (secret s)) other = some (placeholder sha256 name key)

  get-runtime_environment :
      (i : Inputs) (r : Resolving) (key : String)
      → ("APMPR_INSTANCE" == key) ≡ false
      → ("APMPR_DEPLOYMENT" == key) ≡ false
      → get key (runtime_environment i r)
        ≡ or_else (get key r.environment) (get key (inputs_environment i))
  unfolding runtime_environment
  get-runtime_environment i r key e1 e2 = ground (
    arith,
    get-insert "APMPR_INSTANCE" key r.name
        (insert "APMPR_DEPLOYMENT" i.deployment (extend (inputs_environment i) r.environment)),
    get-insert "APMPR_DEPLOYMENT" key i.deployment (extend (inputs_environment i) r.environment),
    get-extend key (inputs_environment i) r.environment,
  )

  service_environment-seen :
      (i : Inputs) (r : Resolving) (key : String) (cell : Cell)
      → Holds r key cell
      → ("APMPR_INSTANCE" == key) ≡ false
      → ("APMPR_DEPLOYMENT" == key) ≡ false
      → get key (service_environment sha256 i r)
        ≡ seen r.name key cell (get key (inputs_environment i))
  unfolding service_environment apply_overlay_environment overlay_value
  service_environment-seen i r key cell h e1 e2 =
      rw
        (
          get-insert_secrets r.name key r.secret_environment
              (remove_all r.environment_unset (runtime_environment i r)),
          get-remove_all key r.environment_unset (runtime_environment i r),
          get-runtime_environment i r key e1 e2,
          h.value,
          h.taken,
          h.secret_at,
        )
        (by_cell cell)
    where
      by_cell :
          (c : Cell)
          → (if is_some (secret_of c)
              then some (placeholder sha256 r.name key)
              else if is_unset c
              then none
              else or_else (value_of c) (get key (inputs_environment i)))
            ≡ seen r.name key c (get key (inputs_environment i))
      by_cell inherited = refl
      by_cell unset = refl
      by_cell (given (literal v)) = refl
      by_cell (given (secret s)) = refl

  -- For every key but the two that name the deployment and the instance, a service whose instance had
  -- no environment before its layers sees what the last layer that names the key says: its value,
  -- nothing, or the variable of its secret and never the text of the reference; and what its block and
  -- parameters say where no layer names the key.
  pub service_environment-latest :
      (i : Inputs) (overlays : List Overlay) (authored options : Map String String) (r : Resolving)
      (key : String)
      → Holds r key inherited
      → ("APMPR_INSTANCE" == key) ≡ false
      → ("APMPR_DEPLOYMENT" == key) ≡ false
      → get key (service_environment sha256 i (resolve_environment overlays authored options r))
        ≡ seen r.name key
            (latest key inherited (layers overlays authored options))
            (get key (inputs_environment i))
  service_environment-latest i overlays authored options r key h e1 e2 =
      subst
        (λ name.
          get key (service_environment sha256 i (resolve_environment overlays authored options r))
          ≡ seen name key (latest key inherited (layers overlays authored options))
              (get key (inputs_environment i)))
        (name-resolve_environment overlays authored options r)
        (service_environment-seen i (resolve_environment overlays authored options r) key _
          (resolve_environment-Holds overlays authored options r key h) e1 e2)
