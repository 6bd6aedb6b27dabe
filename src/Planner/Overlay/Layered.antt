-- ===== src/Planner/Overlay/Layered.antt =====
-- The environment of an instance is what the last layer that names each key says.
use apm_projectrunner.Base.{
  String, List, [], ◌∷◌, ◌++◌, Map, map, concat, filter, Bool-cases, inl, inr, ◌≡◌, refl, ◌∙◌, ◌==◌,
  string_eq, if◌then◌else◌,
}
use apm_projectrunner.Planner.Overlay.{
  OverlayValue, literal, Resolving, set_key, unset_key, set_plain, set_values, unset_all,
  set_options, Overlay, apply_overlay, apply_overlays, resolve_environment, valid_environment_name,
}
use apm_projectrunner.Planner.Overlay.Cells.{
  Cell, inherited, unset, given, Holds, latest, set_key-Holds, unset_key-Holds,
}

abbrev pub plain_entries : Map String String → Map String Cell
plain_entries values = map (λ (k, v). (k, given (literal v))) values

abbrev pub set_entries : Map String OverlayValue → Map String Cell
set_entries values = map (λ (k, v). (k, given v)) values

abbrev pub unset_entries : List String → Map String Cell
unset_entries keys = map (λ k. (k, unset)) keys

-- An overlay speaks of its files first, then of what it takes away, then of what it sets.
abbrev pub overlay_entries : Overlay → Map String Cell
overlay_entries o = plain_entries o.env_file_values ++ (unset_entries o.unset ++ set_entries o.set)

-- All layers: the overlays, the deployment, and the valid entries of the command line.
unfoldable pub layers : List Overlay → Map String String → Map String String → Map String Cell
layers overlays authored options =
    concat (map overlay_entries overlays)
    ++ (plain_entries authored
        ++ plain_entries (filter (λ (k, v). valid_environment_name k) options))

latest-append :
    (key : String) (cell : Cell) (xs ys : Map String Cell)
    → latest key cell (xs ++ ys) ≡ latest key (latest key cell xs) ys
unfolding latest
latest-append key cell [] ys = refl
latest-append key cell ((k, next) ∷ xs) ys =
    latest-append key (if k == key then next else cell) xs ys

set_plain-Holds :
    (layer key : String) (values : Map String String) (r : Resolving) (cell : Cell)
    → Holds r key cell
    → Holds (set_plain layer values r) key (latest key cell (plain_entries values))
unfolding set_plain latest
set_plain-Holds layer key [] r cell h = h
set_plain-Holds layer key ((k, v) ∷ rest) r cell h =
    set_plain-Holds layer key rest (set_key layer k (literal v) r)
      (if k == key then given (literal v) else cell)
      (set_key-Holds layer k key (literal v) r cell h)

set_values-Holds :
    (layer key : String) (values : Map String OverlayValue) (r : Resolving) (cell : Cell)
    → Holds r key cell
    → Holds (set_values layer values r) key (latest key cell (set_entries values))
unfolding set_values latest
set_values-Holds layer key [] r cell h = h
set_values-Holds layer key ((k, v) ∷ rest) r cell h =
    set_values-Holds layer key rest (set_key layer k v r) (if k == key then given v else cell)
      (set_key-Holds layer k key v r cell h)

unset_all-Holds :
    (layer key : String) (keys : List String) (r : Resolving) (cell : Cell)
    → Holds r key cell
    → Holds (unset_all layer keys r) key (latest key cell (unset_entries keys))
unfolding unset_all latest
unset_all-Holds layer key [] r cell h = h
unset_all-Holds layer key (k ∷ rest) r cell h =
    unset_all-Holds layer key rest (unset_key layer k r) (if k == key then unset else cell)
      (unset_key-Holds layer k key r cell h)

set_options-Holds :
    (key : String) (values : Map String String) (r : Resolving) (cell : Cell)
    → Holds r key cell
    → Holds
        (set_options values r)
        key
        (latest key cell (plain_entries (filter (λ (k, v). valid_environment_name k) values)))
unfolding set_options latest
set_options-Holds key [] r cell h = h
set_options-Holds key ((k, v) ∷ rest) r cell h = elim (Bool-cases (valid_environment_name k)) [
  | inl e ↦ rw e (
      set_options-Holds key rest (set_key "ephemeral CLI --set" k (literal v) r)
        (if k == key then given (literal v) else cell)
        (set_key-Holds "ephemeral CLI --set" k key (literal v) r cell h))
  | inr e ↦ rw e (set_options-Holds key rest r cell h)
]

apply_overlay-Holds :
    (key : String) (o : Overlay) (r : Resolving) (cell : Cell)
    → Holds r key cell
    → Holds (apply_overlay o r) key (latest key cell (overlay_entries o))
unfolding apply_overlay
apply_overlay-Holds key o r cell h =
    rw
      (
        latest-append key cell (plain_entries o.env_file_values),
        latest-append key (latest key cell (plain_entries o.env_file_values))
            (unset_entries o.unset) (set_entries o.set),
      )
      (set_values-Holds o.layer key o.set _ _ (
        unset_all-Holds o.layer key o.unset _ _
          (set_plain-Holds o.layer key o.env_file_values r cell h)))

apply_overlays-Holds :
    (key : String) (overlays : List Overlay) (r : Resolving) (cell : Cell)
    → Holds r key cell
    → Holds
        (apply_overlays overlays r)
        key
        (latest key cell (concat (map overlay_entries overlays)))
unfolding apply_overlays
apply_overlays-Holds key [] r cell h = unfold latest in h
apply_overlays-Holds key (o ∷ rest) r cell h =
    rw (latest-append key cell (overlay_entries o) (concat (map overlay_entries rest))) (
      apply_overlays-Holds key rest (apply_overlay o r) (latest key cell (overlay_entries o))
        (apply_overlay-Holds key o r cell h))

-- An instance that starts with no environment ends, at every key, with what the last of the layers that
-- name the key says: its value, that it is taken away, or its secret; and only a key whose last entry is
-- a secret has one.
pub resolve_environment-Holds :
    (overlays : List Overlay) (authored options : Map String String) (r : Resolving) (key : String)
    → Holds r key inherited
    → Holds
        (resolve_environment overlays authored options r)
        key
        (latest key inherited (layers overlays authored options))
unfolding resolve_environment layers
resolve_environment-Holds overlays authored options r key h =
    let first = concat (map overlay_entries overlays) in
    rw
      (
        latest-append key inherited first,
        latest-append key (latest key inherited first) (plain_entries authored),
      )
      (set_options-Holds key options _ _
        (set_plain-Holds _ key authored _ _ (apply_overlays-Holds key overlays r inherited h)))

name-set_plain :
    (layer : String) (values : Map String String) (r : Resolving)
    → (set_plain layer values r).name ≡ r.name
unfolding set_plain set_key
name-set_plain layer [] r = refl
name-set_plain layer ((k, v) ∷ rest) r = name-set_plain layer rest (set_key layer k (literal v) r)

name-set_values :
    (layer : String) (values : Map String OverlayValue) (r : Resolving)
    → (set_values layer values r).name ≡ r.name
unfolding set_values set_key
name-set_values layer [] r = refl
name-set_values layer ((k, v) ∷ rest) r = name-set_values layer rest (set_key layer k v r)

name-unset_all :
    (layer : String) (keys : List String) (r : Resolving) → (unset_all layer keys r).name ≡ r.name
unfolding unset_all unset_key
name-unset_all layer [] r = refl
name-unset_all layer (k ∷ rest) r = name-unset_all layer rest (unset_key layer k r)

name-apply_overlays :
    (overlays : List Overlay) (r : Resolving) → (apply_overlays overlays r).name ≡ r.name
unfolding apply_overlays apply_overlay
name-apply_overlays [] r = refl
name-apply_overlays (o ∷ rest) r =
    name-apply_overlays rest (apply_overlay o r)
    ∙ name-set_values o.layer o.set _
    ∙ name-unset_all o.layer o.unset _
    ∙ name-set_plain o.layer o.env_file_values r

name-set_options :
    (values : Map String String) (r : Resolving) → (set_options values r).name ≡ r.name
unfolding set_options set_key
name-set_options [] r = refl
name-set_options ((k, v) ∷ rest) r = elim (Bool-cases (valid_environment_name k)) [
  | inl e ↦
      rw (set_options, e) (name-set_options rest (set_key "ephemeral CLI --set" k (literal v) r))
  | inr e ↦ rw (set_options, e) (name-set_options rest r)
]

pub name-resolve_environment :
    (overlays : List Overlay) (authored options : Map String String) (r : Resolving)
    → (resolve_environment overlays authored options r).name ≡ r.name
unfolding resolve_environment
name-resolve_environment overlays authored options r =
    name-set_options options _ ∙ name-set_plain _ authored _ ∙ name-apply_overlays overlays r
