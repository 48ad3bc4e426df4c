-- ===== src/PluginSettings.antt =====
-- core/cat/mad_hatter/plugin.py: the settings of a plugin, in a file of its folder or by functions of its
-- own; and the requests on them in core/cat/routes/plugins.py. `none` is an exception.
pub mod Saved
mod Tests
use cat_forked.Prelude.{
  ℕ, String, Bool, true, false, not, Option, none, some, List, [], ◌∷◌, Dict, lookup, contains,
  insert, ◌==◌, if◌then◌else◌, Response, ok, http_error,
}
use cat_forked.Form.{Json, Model, merge}

-- settings.json
pub data File : Type 0 where
  missing : File
  unreadable : File
  json : Model → File

-- What the plugin's settings model makes of a payload: `invalid` is a `ValidationError`, `broken` any other
-- exception.
pub data Verdict : Type 0 where
  valid invalid broken : Verdict

-- A schema by its properties.
pub record Schema (P : Type 0) : Type 0 where
  pub title : String
  pub properties : Dict P

-- The plugin's own functions, if it has any, and its model of the settings: `defaults` is its instance
-- without arguments, `some none` where a field has no default, and `none` where it raises anything else than a
-- `ValidationError`.
pub record Settings (P : Type 0) : Type 0 where
  pub own_load : Option (File → Option Model × File)
  pub own_save : Option (Model → File → Option Model × File)
  pub own_schema : Option (Option (Schema P))
  pub model_schema : Option (Option (Schema P))
  pub defaults : Option (Option Model)
  pub validate : Model → Verdict
  pub can_write : Bool

-- `PluginSettingsModel.model_json_schema()`
abbrev pub empty_schema : {P : Type 0} → Schema P
empty_schema = record { title = "PluginSettingsModel"; properties = [] }

-- `_create_settings_from_model`: whether it wrote the file.
unfoldable pub create_settings_from_model : Option (Option Model) → Bool → File → Option Bool × File
create_settings_from_model none can_write file = (none, file)
create_settings_from_model (some none) can_write file = (some false, file)
create_settings_from_model (some (some settings)) true file = (some true, json settings)
create_settings_from_model (some (some settings)) false file = (none, file)

-- `json.load`
read : File → Option Model × File
read missing = (none, missing)
read unreadable = (none, unreadable)
read (json settings) = (some settings, json settings)

read_created : Option Bool × File → Option Model × File
unfolding read
read_created (none, file) = (none, file)
read_created (some false, file) = (some [], file)
read_created (some true, file) = read file

-- A file that cannot be written is logged, and `{}` is returned.
write_over : Model → Bool → Option Model × File → Option Model × File
write_over settings can_write (none, file) = (none, file)
write_over settings true (some old_settings, file) =
    let updated_settings = merge old_settings settings in
    (some updated_settings, json updated_settings)
write_over settings false (some old_settings, file) = (some [], file)

-- The plugins with their files.
abbrev pub Plugins : Type 0 → Type 0
Plugins P = Dict (Settings P × File)

abbrev pub Shown : Type 0 → Type 0
Shown P = String × Model × Option (Schema P)

abbrev or_500 : {A : Type 0} → Option A → Response A
or_500 none = http_error 500
or_500 (some a) = ok a

module _ {P : Type 0} where
  -- The plugin's own schema, that of its own model, or the empty one.
  schema_from : Option (Option (Schema P)) → Option (Option (Schema P)) → Option (Schema P)
  schema_from (some own) model = own
  schema_from none (some own) = own
  schema_from none none = some empty_schema

  unfoldable pub settings_schema : Settings P → Option (Schema P)
  unfolding schema_from
  settings_schema plugin = schema_from plugin.own_schema plugin.model_schema

  read_or_create : Settings P → File → Option Model × File
  unfolding read_created create_settings_from_model
  read_or_create plugin missing =
      read_created (create_settings_from_model plugin.defaults plugin.can_write missing)
  read_or_create plugin unreadable = read unreadable
  read_or_create plugin (json settings) = read (json settings)

  load_from : Option (File → Option Model × File) → Settings P → File → Option Model × File
  unfolding read_or_create
  load_from none plugin file = read_or_create plugin file
  load_from (some own) plugin file = own file

  unfoldable pub load_settings : Settings P → File → Option Model × File
  unfolding load_from
  load_settings plugin file = load_from plugin.own_load plugin file

  save_from :
      Option (Model → File → Option Model × File) → Settings P → Model → File → Option Model × File
  unfolding write_over load_settings
  save_from none plugin settings file =
      write_over settings plugin.can_write (load_settings plugin file)
  save_from (some own) plugin settings file = own settings file

  unfoldable pub save_settings : Settings P → Model → File → Option Model × File
  unfolding save_from
  save_settings plugin settings file = save_from plugin.own_save plugin settings file

  -- `if plugin_schema["properties"] == {}`: an empty schema is shown as `{}`.
  abbrev pub shown : Schema P → Option (Schema P)
  shown schema = elim schema.properties [ [] ↦ none | p ∷ ps ↦ some schema ]

  abbrev pub both : String → Option Model → Option (Schema P) → Option (Shown P)
  both id (some settings) (some schema) = some (id, settings, shown schema)
  both id (some settings) none = none
  both id none schema = none

  -- One plugin: its settings, and its file afterwards.
  abbrev pub shown_of : String → Settings P × File → Option (Shown P) × File
  unfolding load_settings settings_schema
  shown_of id (plugin, file) =
      let (settings, file') = load_settings plugin file in
      (both id settings (settings_schema plugin), file')

  -- A plugin that raises is left out.
  unfoldable pub get_plugins_settings : Plugins P → List (Shown P) × Plugins P
  unfolding shown_of
  get_plugins_settings [] = ([], [])
  get_plugins_settings ((id, (plugin, file)) ∷ plugins) =
      let (settings, plugins') = get_plugins_settings plugins in
      let (one, file') = shown_of id (plugin, file) in
      (elim one [ none ↦ settings | some s ↦ s ∷ settings ], (id, (plugin, file')) ∷ plugins')

  get_found : String → Option (Settings P × File) → Plugins P → Response (Shown P) × Plugins P
  unfolding shown_of
  get_found plugin_id none plugins = (http_error 404, plugins)
  get_found plugin_id (some (plugin, file)) plugins =
      let (one, file') = shown_of plugin_id (plugin, file) in
      (or_500 one, insert plugin_id (plugin, file') plugins)

  unfoldable pub get_plugin_settings : String → Plugins P → Response (Shown P) × Plugins P
  unfolding get_found
  get_plugin_settings plugin_id plugins = get_found plugin_id (lookup plugin_id plugins) plugins

  save_valid :
      String
      → Model
      → Settings P
      → File
      → Verdict
      → Plugins P
      → Response (String × Model) × Plugins P
  unfolding save_settings
  save_valid plugin_id payload plugin file invalid plugins = (http_error 400, plugins)
  save_valid plugin_id payload plugin file broken plugins = (http_error 500, plugins)
  save_valid plugin_id payload plugin file valid plugins =
      let (saved, file') = save_settings plugin payload file in
      (
        (elim saved [
          | none ↦ http_error 500
          | some final_settings ↦ ok (plugin_id, final_settings)
        ]),
        insert plugin_id (plugin, file') plugins,
      )

  upsert_found :
      String
      → Model
      → Option (Settings P × File)
      → Plugins P
      → Response (String × Model) × Plugins P
  unfolding save_valid
  upsert_found plugin_id payload none plugins = (http_error 404, plugins)
  upsert_found plugin_id payload (some (plugin, file)) plugins =
      save_valid plugin_id payload plugin file (plugin.validate payload) plugins

  unfoldable pub upsert_plugin_settings :
      String → Model → Plugins P → Response (String × Model) × Plugins P
  unfolding upsert_found
  upsert_plugin_settings plugin_id payload plugins =
      upsert_found plugin_id payload (lookup plugin_id plugins) plugins
