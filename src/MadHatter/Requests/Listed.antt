-- ===== src/MadHatter/Requests/Listed.antt =====
-- core/cat/routes/plugins.py: which plugins are listed where, and what a deletion leaves.
use cat_forked.Prelude.{
  ◌≡◌, refl, sym, ap, inl, inr, String, Bool, true, false, not, Option, none, some, List, [], ◌∷◌,
  map, In, Dict, contains, erase, lookup-erase, mem_of, arith, ==_refl, ◌==◌, if◌then◌else◌,
  Bool-cases, Response, ok, http_error,
}
use mathlib.Core.Path.{subst}
use cat_forked.MadHatter.Plugin.{Plugin, Disk}
use cat_forked.MadHatter.Manager.{MadHatter, plugin_exists, uninstall_plugin}
use cat_forked.MadHatter.Lifecycle.{HasNoRepeats, uninstall_plugin-gone}
use cat_forked.MadHatter.Requests.{
  Manifest, RegistryPlugin, PluginInfo, list_plugins, delete_plugin,
}

module _ {T W : Type 0} (manifest_of : Plugin T W → Manifest)
    (mentions : String → PluginInfo → Bool) where
  contains-erase :
      (k u : String) (d : Dict RegistryPlugin)
      → contains k d ≡ false
      → contains k (erase u d) ≡ false
  contains-erase k u d h = ground (arith, lookup-erase u k d)

  list_plugins-stays :
      (query : Option String) (active : List String) (registry : List RegistryPlugin)
      (ps : List (Plugin T W)) (left : Dict RegistryPlugin) (k : String)
      → contains k left ≡ false
      → contains k (list_plugins manifest_of mentions query active registry ps left).1 ≡ false
  unfolding list_plugins
  list_plugins-stays query active registry [] left k h = h
  list_plugins-stays query active registry (p ∷ ps) left k h =
      let u = (manifest_of p).plugin_url in
      list_plugins-stays query active registry ps (erase u left) k (contains-erase k u left h)

  -- No entry of the registry's index is left under the url of an installed plugin, whether it is asked for
  -- or not.
  list_plugins-left :
      (query : Option String) (active : List String) (registry : List RegistryPlugin)
      (ps : List (Plugin T W)) (left : Dict RegistryPlugin) (p : Plugin T W)
      → In p ps
      → contains
          (manifest_of p).plugin_url
          (list_plugins manifest_of mentions query active registry ps left).1
        ≡ false
  unfolding list_plugins
  list_plugins-left query active registry [] left p m = absurd m
  list_plugins-left query active registry (q ∷ ps) left p (inr m) =
      list_plugins-left query active registry ps (erase (manifest_of q).plugin_url left) p m
  list_plugins-left query active registry (q ∷ ps) left p (inl same) =
      let u = (manifest_of q).plugin_url in
      list_plugins-stays query active registry ps (erase u left) (manifest_of p).plugin_url
        (rw same (rw (lookup-erase u u left) (rw (==_refl u) refl)))

  -- Without a query the manifests listed as installed are those of the plugins, in their order.
  list_plugins-installed :
      (query : Option String) (active : List String) (registry : List RegistryPlugin)
      (ps : List (Plugin T W)) (left : Dict RegistryPlugin)
      → query ≡ none
      → map
          (λ (i : PluginInfo). i.manifest)
          (list_plugins manifest_of mentions query active registry ps left).0
        ≡ map manifest_of ps
  unfolding list_plugins
  list_plugins-installed none active registry [] left h = refl
  list_plugins-installed none active registry (p ∷ ps) left h =
      ap (λ (ms : List Manifest). manifest_of p ∷ ms)
        (list_plugins-installed none active registry ps (erase (manifest_of p).plugin_url left) h)
  list_plugins-installed (some q) active registry ps left h = absurd (ground arith)

module _ {T W : Type 0} (disk : Disk T W) (distinct : List String → List String) where
  -- Where no id stands twice among the active plugins, a plugin other than the core plugin whose deletion is
  -- answered with an id is gone, and no longer active.
  pub delete_plugin-gone :
      (id : String) (m : MadHatter T W) (reply : String)
      → HasNoRepeats m.active_plugins
      → (id == "core_plugin") ≡ false
      → let (r, m') = delete_plugin disk distinct id m in
        r ≡ ok reply → (plugin_exists id m' ≡ false) × (mem_of id m'.active_plugins ≡ false)
  unfolding delete_plugin
  delete_plugin-gone id m reply unique other answered = elim (Bool-cases (plugin_exists id m)) [
    | inr unknown ↦ absurd (ground arith)
    | inl known ↦
        let out = uninstall_plugin disk distinct id m in
        let after : Bool → Response String × MadHatter T W = λ b.
          if not b then (http_error 404, m) else (if out.0 then ok id else http_error 500, out.1) in
        subst
          (λ (x : MadHatter T W).
            (plugin_exists id x ≡ false) × (mem_of id x.active_plugins ≡ false))
          (sym (ap (λ (b : Bool). (after b).1) known))
          (uninstall_plugin-gone disk distinct id m unique known other (ground arith))
  ]

  -- The deletion of the core plugin changes nothing, and is answered as if it had been done.
  pub delete_plugin-core :
      (m : MadHatter T W)
      → plugin_exists "core_plugin" m ≡ true
      → delete_plugin disk distinct "core_plugin" m ≡ (ok "core_plugin", m)
  unfolding delete_plugin uninstall_plugin
  delete_plugin-core m known = rw known refl
