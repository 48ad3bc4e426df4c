-- ===== src/PluginSettings/Tests.antt =====
-- A plugin with a file of settings.
use cat_forked.Prelude.{ℕ, ◌≡◌, refl, true, none, some, [], ◌∷◌, lookup, http_error}
use cat_forked.Form.{text, Model, merge}
use cat_forked.PluginSettings.{
  missing, Settings, valid, invalid, load_settings, save_settings, upsert_plugin_settings,
}
use cat_forked.PluginSettings.Saved.{or_else, save_settings-load_settings}

abbrev plugin : Settings ℕ
plugin = record {
  own_load = none;
  own_save = none;
  own_schema = none;
  model_schema = none;
  defaults = some (some (("topic", text "cats") ∷ ("tone", text "kind") ∷ []));
  validate = λ m. valid;
  can_write = true;
}

abbrev changed : Model
changed = ("topic", text "dogs") ∷ []

save_settings-load_settings_example :
    let (saved, file') = save_settings plugin changed missing in
    let now = merge (("topic", text "cats") ∷ ("tone", text "kind") ∷ []) changed in
    (saved ≡ some now)
    × ((load_settings plugin file').0 ≡ some now)
    × (lookup "tone" now
        ≡ or_else
            (lookup "tone" changed)
            (lookup "tone" (("topic", text "cats") ∷ ("tone", text "kind") ∷ [])))
unfolding load_settings
save_settings-load_settings_example =
    save_settings-load_settings plugin changed (("topic", text "cats") ∷ ("tone", text "kind") ∷ [])
      missing "tone" (record { no_load = refl; no_save = refl; writable = refl }) (refl, tt) refl

refused :
    let p = record plugin { validate = λ m. invalid } in
    upsert_plugin_settings "p" changed (("p", (p, missing)) ∷ [])
    ≡ (http_error 400, ("p", (p, missing)) ∷ [])
unfolding upsert_plugin_settings
refused = refl
