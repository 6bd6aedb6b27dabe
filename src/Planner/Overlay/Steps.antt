-- ===== src/Planner/Overlay/Steps.antt =====
-- The layers of an instance as a sequence of keys that are set and taken away.
use apm_projectrunner.Base.{String, List, [], ◌∷◌, Map, Bool-cases, inl, inr}
use apm_projectrunner.Planner.Overlay.{
  OverlayValue, literal, Resolving, set_key, unset_key, set_plain, set_values, unset_all,
  set_options, Overlay, apply_overlay, apply_overlays, resolve_environment, valid_environment_name,
}

-- What holds of the instance and stays so when a key is set or taken away.
module _ (P : Resolving → Type 0)
    (sets : (layer key : String) (v : OverlayValue) (r : Resolving)
      → P r
      → P (set_key layer key v r))
    (unsets : (layer key : String) (r : Resolving) → P r → P (unset_key layer key r)) where
  plain_keeps :
      (layer : String) (values : Map String String) (r : Resolving)
      → P r
      → P (set_plain layer values r)
  unfolding set_plain
  plain_keeps layer [] r h = h
  plain_keeps layer ((key, v) ∷ rest) r h =
      plain_keeps layer rest (set_key layer key (literal v) r) (sets layer key (literal v) r h)

  values_keep :
      (layer : String) (values : Map String OverlayValue) (r : Resolving)
      → P r
      → P (set_values layer values r)
  unfolding set_values
  values_keep layer [] r h = h
  values_keep layer ((key, v) ∷ rest) r h =
      values_keep layer rest (set_key layer key v r) (sets layer key v r h)

  unsets_keep :
      (layer : String) (keys : List String) (r : Resolving) → P r → P (unset_all layer keys r)
  unfolding unset_all
  unsets_keep layer [] r h = h
  unsets_keep layer (key ∷ rest) r h =
      unsets_keep layer rest (unset_key layer key r) (unsets layer key r h)

  overlays_keep : (overlays : List Overlay) (r : Resolving) → P r → P (apply_overlays overlays r)
  unfolding apply_overlays apply_overlay
  overlays_keep [] r h = h
  overlays_keep (o ∷ rest) r h = overlays_keep rest (apply_overlay o r) (
      values_keep o.layer o.set _
        (unsets_keep o.layer o.unset _ (plain_keeps o.layer o.env_file_values r h)))

  options_keep : (values : Map String String) (r : Resolving) → P r → P (set_options values r)
  unfolding set_options
  options_keep [] r h = h
  options_keep ((key, v) ∷ rest) r h = elim (Bool-cases (valid_environment_name key)) [
    | inl e ↦
        rw (set_options, e)
          (options_keep rest (set_key "ephemeral CLI --set" key (literal v) r)
            (sets "ephemeral CLI --set" key (literal v) r h))
    | inr e ↦ rw (set_options, e) (options_keep rest r h)
  ]

  pub resolve_keeps :
      (overlays : List Overlay) (authored options : Map String String) (r : Resolving)
      → P r
      → P (resolve_environment overlays authored options r)
  unfolding resolve_environment
  resolve_keeps overlays authored options r h =
      options_keep options _ (plain_keeps _ authored _ (overlays_keep overlays r h))
