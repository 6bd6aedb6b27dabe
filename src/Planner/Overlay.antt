-- ===== src/Planner/Overlay.antt =====
-- crates/apmpr-planner/src/overlay.rs: what the layers of a plan do to the environment of one instance.
-- A layer is an overlay that matches the instance, the deployment's own entries for it, or the entries of
-- the command line; `resolve` runs them in that order.
pub mod Cells
pub mod Layered
pub mod Generated
pub mod Steps
pub mod History
pub mod Dotenv
pub mod Examples
use apm_projectrunner.Base.{
  String, Bool, true, false, not, List, [], ◌∷◌, ◌++◌, Option, none, some, Map, get, insert, remove,
  contains, filter, map, format, ◌==◌, ◌!=◌, string_eq, nat_eq, pair_eq, if◌then◌else◌, ◌&&◌, ◌||◌,
  ℕ, bytes, all, is_ascii_lowercase, is_ascii_uppercase, is_ascii_digit,
}
use apm_projectrunner.Planner.Model.{Diagnostic, diagnostic, invalid_overlay}

abbrev pub name_start : ℕ → Bool
name_start b = b == b'_' || is_ascii_lowercase b || is_ascii_uppercase b

abbrev pub name_bytes : List ℕ → Bool
name_bytes [] = false
name_bytes (b ∷ bs) = name_start b && all (λ c. name_start c || is_ascii_digit c) bs

unfoldable pub valid_environment_name : String → Bool
valid_environment_name name = name_bytes (bytes name)

pub record OverlaySecretReference : Type 0 where
  pub environment_variable : Option String
  pub file : Option String

pub data OverlayValue : Type 0 where
  literal : String → OverlayValue
  secret : OverlaySecretReference → OverlayValue

pub record ShadowedOrigin : Type 0 where
  pub value : String
  pub layer : String

pub record OriginTrace : Type 0 where
  pub instance_name : String
  pub category : String
  pub key : String
  pub value : String
  pub layer : String
  pub shadowed : List ShadowedOrigin

-- The key of a trace: the instance, the category and the key.
abbrev pub TraceId : Type 0
TraceId = String × (String × String)

abbrev pub Traces : Type 0
Traces = Map TraceId OriginTrace

abbrev secret_text : Option String → Option String → String
secret_text (some name) none = format ("«secret: " ∷ name ∷ "»" ∷ [])
secret_text none (some path) = format ("«secret: " ∷ path ∷ "»" ∷ [])
secret_text (some name) (some path) = "«secret: invalid reference»"
secret_text none none = "«secret: invalid reference»"

unfoldable pub overlay_value : OverlayValue → String
overlay_value (literal value) = value
overlay_value (secret s) = secret_text s.environment_variable s.file

abbrev pub first_trace : TraceId → String → String → OriginTrace
first_trace (instance_name, (category, key)) value layer = record {
  instance_name = instance_name;
  category = category;
  key = key;
  value = value;
  layer = layer;
  shadowed = [];
}

-- The trace with its value moved to the shadowed ones.
abbrev pub shadow : String → String → OriginTrace → OriginTrace
shadow value layer t = record t {
  value = value;
  layer = layer;
  shadowed = t.shadowed ++ record { value = t.value; layer = t.layer } ∷ [];
}

abbrev pub traced : TraceId → String → String → Option OriginTrace → OriginTrace
traced id value layer none = first_trace id value layer
traced id value layer (some t) = shadow value layer t

unfoldable pub set_trace : TraceId → String → String → Traces → Traces
set_trace id value layer traces = insert id (traced id value layer (get id traces)) traces

-- One instance under resolution, with the maps that the instances share.
pub record Resolving : Type 0 where
  pub name : String
  pub environment : Map String String
  pub environment_unset : List String
  pub secret_environment : Map (String × String) OverlaySecretReference
  pub traces : Traces

abbrev pub environment_id : Resolving → String → TraceId
environment_id r key = (r.name, ("environment", key))

-- What happens to the secret of a key when the key is set.
abbrev with_secret :
    (String × String)
    → OverlayValue
    → Map (String × String) OverlaySecretReference
    → Map (String × String) OverlaySecretReference
with_secret at (literal value) secrets = remove at secrets
with_secret at (secret s) secrets = insert at s secrets

-- A key is set: by an environment file, by `set` of an overlay, by the deployment or by the command line.
unfoldable pub set_key : String → String → OverlayValue → Resolving → Resolving
set_key layer key value r = record r {
  environment = insert key (overlay_value value) r.environment;
  environment_unset = filter (λ candidate. not (candidate == key)) r.environment_unset;
  secret_environment = with_secret (r.name, key) value r.secret_environment;
  traces = set_trace (environment_id r key) (overlay_value value) layer r.traces;
}

abbrev pub first_shadowed : String → OriginTrace → List ShadowedOrigin → OriginTrace
first_shadowed previous t [] = record t {
  shadowed = record { value = previous; layer = "earlier overlay" } ∷ [];
}
first_shadowed previous t (s ∷ rest) = t

abbrev pub reported_of : TraceId → String → Option OriginTrace → Traces → Traces
reported_of id previous none traces = traces
reported_of id previous (some t) traces = insert id (first_shadowed previous t t.shadowed) traces

-- The trace of a key whose value an overlay takes away.
abbrev pub unset_trace : TraceId → String → Option String → Traces → Traces
unset_trace id layer none traces = traces
unset_trace id layer (some previous) traces =
    let traces' = set_trace id "«unset»" layer traces in
    reported_of id previous (get id traces') traces'

-- One round of the loop over `unset`.
unfoldable pub unset_key : String → String → Resolving → Resolving
unset_key layer key r = record r {
  environment = remove key r.environment;
  environment_unset =
      if contains key r.environment_unset
      then r.environment_unset
      else r.environment_unset ++ key ∷ [];
  secret_environment = remove (r.name, key) r.secret_environment;
  traces = unset_trace (environment_id r key) layer (get key r.environment) r.traces;
}

unfoldable pub set_plain : String → Map String String → Resolving → Resolving
set_plain layer [] r = r
set_plain layer ((key, value) ∷ rest) r = set_plain layer rest (set_key layer key (literal value) r)

unfoldable pub set_values : String → Map String OverlayValue → Resolving → Resolving
set_values layer [] r = r
set_values layer ((key, value) ∷ rest) r = set_values layer rest (set_key layer key value r)

unfoldable pub unset_all : String → List String → Resolving → Resolving
unset_all layer [] r = r
unset_all layer (key ∷ rest) r = unset_all layer rest (unset_key layer key r)

-- An overlay that matches the instance: its layer, the values of its environment files, and its
-- `environment`.
pub record Overlay : Type 0 where
  pub layer : String
  pub env_file_values : Map String String
  pub unset : List String
  pub set : Map String OverlayValue

unfoldable pub apply_overlay : Overlay → Resolving → Resolving
apply_overlay o r =
    set_values o.layer o.set (unset_all o.layer o.unset (set_plain o.layer o.env_file_values r))

unfoldable pub apply_overlays : List Overlay → Resolving → Resolving
apply_overlays [] r = r
apply_overlays (o ∷ rest) r = apply_overlays rest (apply_overlay o r)

-- The loop over `options.set`; an entry with an invalid key is skipped.
unfoldable pub set_options : Map String String → Resolving → Resolving
set_options [] r = r
set_options ((key, value) ∷ rest) r =
    set_options rest (
      if valid_environment_name key then set_key "ephemeral CLI --set" key (literal value) r else r)

-- The errors of that loop.
unfoldable pub option_errors : Map String String → List Diagnostic
option_errors [] = []
option_errors ((key, value) ∷ rest) =
    if valid_environment_name key
    then option_errors rest
    else diagnostic invalid_overlay "--set" (format ("invalid environment key `" ∷ key ∷ "`" ∷ []))
      ∷ option_errors rest

-- The layers of one instance: the overlays, its own environment and the entries of the command line.
unfoldable pub resolve_environment :
    List Overlay → Map String String → Map String String → Resolving → Resolving
resolve_environment overlays authored options r =
    set_options options (
      set_plain (format ("deployment instance " ∷ r.name ∷ [])) authored
        (apply_overlays overlays r))

-- The origins of a resolution without errors: the traces whose value is not that of a key taken away.
unfoldable pub origins : Traces → List OriginTrace
origins traces = filter (λ t. t.value != "«unset»") (map (λ (id, t). t) traces)
