-- ===== src/MadHatter/Manager.antt =====
-- core/cat/mad_hatter/mad_hatter.py: the class `MadHatter`.
use cat_forked.Prelude.{
  ℕ, suc, String, Bool, true, false, not, ◌&&◌, Option, none, some, List, [], ◌∷◌, ◌++◌, map, Dict,
  lookup, contains, insert, erase, mem_of, sort_by, ◌==◌, if◌then◌else◌,
}
use cat_forked.MadHatter.Hook.{CatHook, not_lower}
use cat_forked.MadHatter.Plugin.{Plugin, Disk, activate, deactivate}

-- `saved` is the setting `active_plugins` of the database; `synced` counts the calls of
-- `on_finish_plugins_sync_callback`, which is taken to return.
pub record MadHatter (T W : Type 0) : Type 0 where
  pub plugins : Dict (Plugin T W)
  pub hooks : Dict (List (CatHook T W))
  pub tools : List String
  pub forms : List String
  pub endpoints : List String
  pub active_plugins : List String
  pub saved : Option (List String)
  pub synced : ℕ

-- `self.active_plugins.remove(plugin_id)`: the first occurrence.
abbrev pub remove_first : String → List String → List String
remove_first k [] = []
remove_first k (j ∷ ks) = if j == k then ks else j ∷ remove_first k ks

-- core_plugin is always active
abbrev pub with_core : List String → List String
with_core ids = if mem_of "core_plugin" ids then ids else ids ++ "core_plugin" ∷ []

module _ {T W : Type 0} where
  -- `if h.name not in self.hooks.keys(): self.hooks[h.name] = []`, then `append`
  unfoldable pub append_hook : CatHook T W → Dict (List (CatHook T W)) → Dict (List (CatHook T W))
  append_hook h d =
      insert h.name (elim (lookup h.name d) [ none ↦ h ∷ [] | some hs ↦ hs ++ h ∷ [] ]) d

  unfoldable pub append_hooks :
      List (CatHook T W) → Dict (List (CatHook T W)) → Dict (List (CatHook T W))
  unfolding append_hook
  append_hooks [] d = d
  append_hooks (h ∷ hs) d = append_hooks hs (append_hook h d)

  -- The loop over `self.plugins.items()`, for the hooks.
  unfoldable pub gather_hooks :
      List String
      → List (String × Plugin T W)
      → Dict (List (CatHook T W))
      → Dict (List (CatHook T W))
  unfolding append_hooks
  gather_hooks active [] d = d
  gather_hooks active ((k, p) ∷ ps) d =
      gather_hooks active ps (if mem_of p.id active then append_hooks p.hooks d else d)

  -- The same loop, for `self.tools += plugin.tools` and its like.
  unfoldable pub gather :
      (Plugin T W → List String) → List String → List (String × Plugin T W) → List String
  gather field active [] = []
  gather field active ((k, p) ∷ ps) =
      let rest = gather field active ps in if mem_of p.id active then field p ++ rest else rest

  abbrev pub sort_all : Dict (List (CatHook T W)) → Dict (List (CatHook T W))
  sort_all = map (λ p. (p.0, sort_by not_lower p.1))

  unfoldable pub sync_hooks_tools_and_forms : MadHatter T W → MadHatter T W
  unfolding gather_hooks gather
  sync_hooks_tools_and_forms m = record m {
    hooks = sort_all (gather_hooks m.active_plugins m.plugins []);
    tools = gather (λ p. p.tools) m.active_plugins m.plugins;
    forms = gather (λ p. p.forms) m.active_plugins m.plugins;
    endpoints = gather (λ p. p.endpoints) m.active_plugins m.plugins;
    synced = suc m.synced;
  }

  -- `plugin_exists`
  abbrev pub plugin_exists : String → MadHatter T W → Bool
  plugin_exists id m = contains id m.plugins

  unfoldable pub load_active_plugins_from_db : MadHatter T W → List String
  load_active_plugins_from_db m = with_core (elim m.saved [ none ↦ [] | some ids ↦ ids ])

  -- `distinct` is `list(set(…))`, whose order Python does not fix.
  module _ (disk : Disk T W) (distinct : List String → List String) where
    -- `save_active_plugins_to_db` and the sync, at the end of `toggle_plugin`
    finish_toggle : MadHatter T W → MadHatter T W
    unfolding sync_hooks_tools_and_forms
    finish_toggle m =
        sync_hooks_tools_and_forms (record m { saved = some (distinct m.active_plugins) })

    toggled_off : String → Bool × Plugin T W → MadHatter T W → Bool × MadHatter T W
    unfolding finish_toggle
    toggled_off id (ok, p) m =
        let m' : MadHatter T W = record m { plugins = insert id p m.plugins } in
        if ok
        then (true, finish_toggle (record m' { active_plugins = remove_first id m.active_plugins }))
        else (false, m')

    toggled_on : String → Bool × Plugin T W → MadHatter T W → Bool × MadHatter T W
    unfolding finish_toggle
    toggled_on id (ok, p) m =
        let m' : MadHatter T W = record m { plugins = insert id p m.plugins } in
        if ok
        then (true, finish_toggle (record m' { active_plugins = m.active_plugins ++ id ∷ [] }))
        else (false, m')

    toggle_found : String → Option (Plugin T W) → MadHatter T W → Bool × MadHatter T W
    unfolding toggled_off toggled_on activate deactivate
    toggle_found id none m = (false, m)
    toggle_found id (some p) m =
        if mem_of id m.active_plugins
        then toggled_off id (deactivate disk p) m
        else toggled_on id (activate disk p) m

    -- Whether the call returns, and the state that it leaves.
    unfoldable pub toggle_plugin : String → MadHatter T W → Bool × MadHatter T W
    unfolding toggle_found
    toggle_plugin id m = toggle_found id (lookup id m.plugins) m

    -- `self.load_plugin(path)` with what `Plugin(path)` gives: `none` where it raises.
    unfoldable pub load_plugin : Option (Plugin T W) → MadHatter T W → MadHatter T W
    load_plugin none m = m
    load_plugin (some p) m = record m { plugins = insert p.id p m.plugins }

    -- `install_plugin` after the extraction into the folder that gives the id.
    unfoldable pub install_plugin :
        String → Option (Plugin T W) → MadHatter T W → Bool × MadHatter T W
    unfolding load_plugin toggle_plugin
    install_plugin id loaded m = toggle_plugin id (load_plugin loaded m)

    -- `del self.plugins[plugin_id]`; then the folder goes.
    unfoldable pub removed : String → Bool × MadHatter T W → Bool × MadHatter T W
    removed id (ok, m) =
        if ok then (true, record m { plugins = erase id m.plugins }) else (false, m)

    unfoldable pub uninstall_plugin : String → MadHatter T W → Bool × MadHatter T W
    unfolding removed toggle_plugin
    uninstall_plugin id m =
        if plugin_exists id m && not (id == "core_plugin")
        then removed id (if mem_of id m.active_plugins then toggle_plugin id m else (true, m))
        else (true, m)

    -- The handler of a failed activation: toggle, then raise again. A failed toggle raises too.
    activated_found : String → Option (Plugin T W) → MadHatter T W → Bool × MadHatter T W
    unfolding toggle_plugin activate
    activated_found id none m = (false, (toggle_plugin id m).1)
    activated_found id (some p) m =
        let (ok, p') = activate disk p in
        let m' : MadHatter T W = record m { plugins = insert id p' m.plugins } in
        if ok then (true, m') else (false, (toggle_plugin id m').1)

    -- The loop over the folders: each with its id and what `Plugin(folder)` gives.
    discover : List (String × Option (Plugin T W)) → MadHatter T W → Bool × MadHatter T W
    unfolding load_plugin activated_found
    discover [] m = (true, m)
    discover ((id, loaded) ∷ folders) m =
        let m' = load_plugin loaded m in
        let (ok, m'') =
          if mem_of id m'.active_plugins
          then activated_found id (lookup id m'.plugins) m'
          else (true, m') in
        let rest = discover folders m'' in if ok then rest else (false, m'')

    synced_if : Bool × MadHatter T W → Bool × MadHatter T W
    unfolding sync_hooks_tools_and_forms
    synced_if (ok, m) = if ok then (true, sync_hooks_tools_and_forms m) else (false, m)

    unfoldable pub find_plugins :
        List (String × Option (Plugin T W)) → MadHatter T W → Bool × MadHatter T W
    unfolding discover synced_if
    find_plugins folders m = synced_if (
        discover folders
          (record m { plugins = []; active_plugins = load_active_plugins_from_db m }))
