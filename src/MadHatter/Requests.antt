-- ===== src/MadHatter/Requests.antt =====
-- core/cat/routes/plugins.py: the requests that list, install, toggle and delete plugins. The manifest of a
-- plugin, the registry, the archive of an upload and the search of a text are parameters.
pub mod Listed
use cat_forked.Prelude.{
  String, Bool, true, false, not, ◌&&◌, Option, none, some, List, [], ◌∷◌, map, Dict, lookup,
  contains, insert, erase, values, mem_of, is_some, ℤ, ◌==◌, if◌then◌else◌, Response, ok,
  http_error,
}
use cat_forked.MadHatter.Hook.{CatHook}
use cat_forked.MadHatter.Plugin.{Plugin, Disk}
use cat_forked.MadHatter.Manager.{
  MadHatter, plugin_exists, load_active_plugins_from_db, toggle_plugin as toggle,
  install_plugin as install, uninstall_plugin,
}

-- plugin.json, with its other fields.
pub record Manifest : Type 0 where
  pub plugin_url : String
  pub version : String
  pub fields : Dict String

pub record RegistryPlugin : Type 0 where
  pub url : String
  pub plugin_url : String
  pub version : String

-- A manifest with what the request adds.
pub record PluginInfo : Type 0 where
  pub manifest : Manifest
  pub active : Bool
  pub upgrade : Option String
  pub hooks : List (String × ℤ)
  pub tools : List String
  pub endpoints : List String
  pub forms : List String

-- `registry_plugins_index[plugin_url] = p`
unfoldable pub index : List RegistryPlugin → Dict RegistryPlugin → Dict RegistryPlugin
index [] d = d
index (p ∷ ps) d = index ps (insert p.url p d)

-- The last entry of the registry for this plugin with another version.
unfoldable pub upgrade_of : Manifest → List RegistryPlugin → Option String → Option String
upgrade_of manifest [] upgrade = upgrade
upgrade_of manifest (r ∷ rs) upgrade = upgrade_of manifest rs (
    if (r.plugin_url == manifest.plugin_url) && not (r.version == manifest.version)
    then some r.version
    else upgrade)

module _ {T W : Type 0} (manifest_of : Plugin T W → Manifest) where
  abbrev pub info : List String → String → Plugin T W → PluginInfo
  info active_plugins id p = record {
    manifest = manifest_of p;
    active = mem_of id active_plugins;
    upgrade = none;
    hooks = map (λ h. (h.name, h.priority)) p.hooks;
    tools = p.tools;
    endpoints = p.endpoints;
    forms = p.forms;
  }

  -- `query.lower() in plugin_text`
  module _ (mentions : String → PluginInfo → Bool) where
    abbrev pub is_asked : Option String → PluginInfo → Bool
    is_asked none manifest = true
    is_asked (some query) manifest = mentions query manifest

    -- The loop over the plugins.
    unfoldable pub list_plugins :
        Option String
        → List String
        → List RegistryPlugin
        → List (Plugin T W)
        → Dict RegistryPlugin
        → List PluginInfo × Dict RegistryPlugin
    unfolding upgrade_of
    list_plugins query active_plugins registry [] left = ([], left)
    list_plugins query active_plugins registry (p ∷ ps) left =
        let manifest = info active_plugins p.id p in
        let upgrade = upgrade_of manifest.manifest registry none in
        let (installed, left') =
          list_plugins query active_plugins registry ps (erase manifest.manifest.plugin_url left) in
        (
          (if is_asked query manifest
              then record manifest { upgrade = upgrade } ∷ installed
              else installed),
          left',
        )

    unfoldable pub get_available_plugins :
        Option String → List RegistryPlugin → MadHatter T W → List PluginInfo × List RegistryPlugin
    unfolding list_plugins index load_active_plugins_from_db
    get_available_plugins query registry m =
        let (installed, left) =
          list_plugins query (load_active_plugins_from_db m) registry (values m.plugins)
            (index registry []) in
        (installed, values left)

  details_found : String → Option (Plugin T W) → MadHatter T W → Response PluginInfo
  unfolding load_active_plugins_from_db
  details_found plugin_id none m = http_error 404
  details_found plugin_id (some p) m = ok (info (load_active_plugins_from_db m) plugin_id p)

  unfoldable pub get_plugin_details : String → MadHatter T W → Response PluginInfo
  unfolding details_found
  get_plugin_details plugin_id m = details_found plugin_id (lookup plugin_id m.plugins) m

module _ {T W : Type 0} (disk : Disk T W) (distinct : List String → List String) where
  abbrev or_500 : {A : Type 0} → A → Bool × MadHatter T W → Response A × MadHatter T W
  or_500 a (returned, m) = (if returned then ok a else http_error 500, m)

  unfoldable pub toggle_plugin : String → MadHatter T W → Response String × MadHatter T W
  unfolding toggle
  toggle_plugin plugin_id m =
      if not (plugin_exists plugin_id m)
      then (http_error 404, m)
      else or_500 plugin_id (toggle disk distinct plugin_id m)

  unfoldable pub delete_plugin : String → MadHatter T W → Response String × MadHatter T W
  unfolding uninstall_plugin
  delete_plugin plugin_id m =
      if not (plugin_exists plugin_id m)
      then (http_error 404, m)
      else or_500 plugin_id (uninstall_plugin disk distinct plugin_id m)

  abbrev admitted : Option String → Bool
  admitted none = false
  admitted (some t) = mem_of t ("application/zip" ∷ "application/x-tar" ∷ [])

  -- What the archive is extracted to: the id of its folder, and what `Plugin(folder)` gives.
  abbrev pub Extracted : Type 0
  Extracted = String × Option (Plugin T W)

  unfoldable pub install_plugin :
      Option String → String → Extracted → MadHatter T W → Response String × MadHatter T W
  unfolding install
  install_plugin content_type filename (id, loaded) m =
      if not (admitted content_type)
      then (http_error 400, m)
      else or_500 filename (install disk distinct id loaded m)

  -- `none` where the download raises.
  unfoldable pub install_plugin_from_registry :
      String → Option Extracted → MadHatter T W → Response String × MadHatter T W
  unfolding install
  install_plugin_from_registry url none m = (http_error 500, m)
  install_plugin_from_registry url (some (id, loaded)) m =
      or_500 url (install disk distinct id loaded m)
