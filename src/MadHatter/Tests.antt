-- ===== src/MadHatter/Tests.antt =====
-- Two plugins, one of them active.
use cat_forked.Prelude.{
  ℕ, suc, ◌+◌, String, ◌≡◌, refl, not, Bool, true, false, none, some, List, [], ◌∷◌, lookup, mem_of,
  pos, filter_by, sort_by, Perm, IsSorted, ◌==◌, if◌then◌else◌,
}
use cat_forked.MadHatter.Hook.{raised, nothing, value, CatHook, returned, execute_hook, not_lower}
use cat_forked.MadHatter.Pipe.{Brews, execute_hook-Brews}
use cat_forked.MadHatter.Plugin.{Plugin, Disk, new}
use cat_forked.MadHatter.Manager.{
  MadHatter, sync_hooks_tools_and_forms, load_active_plugins_from_db, toggle_plugin, install_plugin,
  uninstall_plugin, find_plugins, plugin_exists,
}
use cat_forked.MadHatter.Sync.{
  active_hooks, entry, sorted_entry, is_named, has_priority, lookup-sync_hooks_tools_and_forms,
  sort_by-not_lower,
}
use cat_forked.MadHatter.Lifecycle.{
  HasNoRepeats, load_active_plugins_from_db-core, toggle_plugin-flips, toggle_plugin-fails,
  uninstall_plugin-gone, install_plugin-over_active, find_plugins-raises,
}
use cat_forked.MadHatter.Requests.{delete_plugin}
use cat_forked.MadHatter.Requests.Listed.{delete_plugin-gone}

-- A hook on numbers that counts its calls in the cat.
abbrev adds : String → ℕ → CatHook ℕ ℕ
adds plugin n = record {
  name = "number";
  priority = pos n;
  plugin_id = plugin;
  function = λ args cat. (elim args [ [] ↦ nothing | m ∷ ms ↦ value (m + n) ], suc cat);
}

abbrev raises : CatHook ℕ ℕ
raises = record (adds "core_plugin" 9) { function = λ args cat. (raised, suc cat) }

abbrev core_plugin : Plugin ℕ ℕ
core_plugin = record (new "core_plugin" "core") {
  active = true;
  hooks = adds "core_plugin" 1 ∷ raises ∷ [];
}

abbrev extra : Plugin ℕ ℕ
extra = new "extra" "plugins/extra"

abbrev disk : Disk ℕ ℕ
disk = record {
  decorated =
      λ id. record { hooks = adds "" 5 ∷ []; tools = "a tool" ∷ []; forms = []; endpoints = [] };
  requirements = λ id. true;
  settings = λ id. true;
  activated = λ id. true;
  deactivated = λ id. true;
}

abbrev broken : Disk ℕ ℕ
broken = record disk { requirements = λ id. false }

abbrev same : List String → List String
same ids = ids

abbrev hatter : MadHatter ℕ ℕ
hatter = record {
  plugins = ("core_plugin", core_plugin) ∷ ("extra", extra) ∷ [];
  hooks = ("number", raises ∷ adds "core_plugin" 1 ∷ []) ∷ [];
  tools = [];
  forms = [];
  endpoints = [];
  active_plugins = "core_plugin" ∷ [];
  saved = some ("core_plugin" ∷ []);
  synced = 1;
}

abbrev both : MadHatter ℕ ℕ
both = record hatter { active_plugins = "core_plugin" ∷ "extra" ∷ [] }

abbrev is_known : String → Bool
is_known id = plugin_exists id hatter

-- The hook that raises is passed over.
number_brews :
    execute_hook (λ t. true) is_known hatter.hooks "number" (40 ∷ []) 0 ≡ (returned (some 41), 2)
unfolding execute_hook
number_brews = refl

execute_hook-Brews_example :
    Brews
      (λ t. true)
      []
      (raises ∷ adds "core_plugin" 1 ∷ [])
      40
      0
      (execute_hook (λ t. true) is_known hatter.hooks "number" (40 ∷ []) 0)
execute_hook-Brews_example =
    execute_hook-Brews (λ t. true) [] is_known hatter.hooks "number"
      (raises ∷ adds "core_plugin" 1 ∷ []) 40 0 refl refl (refl, (refl, tt))

lookup-sync_hooks_tools_and_forms_example :
    lookup "number" (sync_hooks_tools_and_forms hatter).hooks
    ≡ sorted_entry (entry (filter_by (is_named "number") (active_hooks hatter)))
lookup-sync_hooks_tools_and_forms_example = lookup-sync_hooks_tools_and_forms "number" hatter

sort_by-not_lower_runs :
    Perm (sort_by not_lower core_plugin.hooks) core_plugin.hooks
    × IsSorted not_lower (sort_by not_lower core_plugin.hooks)
    × (filter_by (has_priority (pos 1)) (sort_by not_lower core_plugin.hooks)
        ≡ filter_by (has_priority (pos 1)) core_plugin.hooks)
sort_by-not_lower_runs = sort_by-not_lower core_plugin.hooks (pos 1)

load_active_plugins_from_db-core_example :
    mem_of "core_plugin" (load_active_plugins_from_db (record hatter { saved = none })) ≡ true
load_active_plugins_from_db-core_example =
    load_active_plugins_from_db-core (record hatter { saved = none })

toggle_plugin-flips_example :
    let m' = (toggle_plugin disk same "extra" hatter).1 in
    HasNoRepeats m'.active_plugins
    × (m'.saved ≡ some m'.active_plugins)
    × ((k : String)
        → mem_of k m'.active_plugins ≡ (
            if "extra" == k
            then not (mem_of "extra" hatter.active_plugins)
            else mem_of k hatter.active_plugins))
unfolding toggle_plugin
toggle_plugin-flips_example = toggle_plugin-flips disk same "extra" hatter (refl, tt) refl

toggle_plugin-fails_runs :
    let m' = (toggle_plugin broken same "extra" hatter).1 in
    (m'.active_plugins ≡ hatter.active_plugins)
    × (m'.saved ≡ hatter.saved)
    × (m'.hooks ≡ hatter.hooks)
unfolding toggle_plugin
toggle_plugin-fails_runs = toggle_plugin-fails broken same "extra" hatter refl

uninstall_plugin-gone_runs :
    let m' = (uninstall_plugin disk same "extra" both).1 in
    (plugin_exists "extra" m' ≡ false) × (mem_of "extra" m'.active_plugins ≡ false)
unfolding uninstall_plugin
uninstall_plugin-gone_runs =
    uninstall_plugin-gone disk same "extra" both (refl, (refl, tt)) refl refl refl

install_plugin-over_active_runs :
    mem_of "extra" (install_plugin disk same "extra" (some extra) both).1.active_plugins ≡ false
unfolding install_plugin
install_plugin-over_active_runs =
    install_plugin-over_active disk same "extra" extra both (refl, (refl, tt)) refl refl

find_plugins-raises_runs :
    (find_plugins disk same (("core_plugin", none) ∷ ("extra", some extra) ∷ []) hatter).0 ≡ false
unfolding load_active_plugins_from_db
find_plugins-raises_runs =
    find_plugins-raises disk same "core_plugin" (("extra", some extra) ∷ []) hatter refl

delete_plugin-gone_example :
    let m' = (delete_plugin disk same "extra" both).1 in
    (plugin_exists "extra" m' ≡ false) × (mem_of "extra" m'.active_plugins ≡ false)
unfolding delete_plugin uninstall_plugin
delete_plugin-gone_example =
    delete_plugin-gone disk same "extra" both "extra" (refl, (refl, tt)) refl refl
