-- ===== src/MadHatter/Lifecycle.antt =====
-- core/cat/mad_hatter/mad_hatter.py: toggling, installing, uninstalling and finding plugins.
use cat_forked.Prelude.{
  String, ◌≡◌, refl, ◌∙◌, inl, inr, Bool, true, false, not, ◌||◌, Option, none, some, List, [], ◌∷◌,
  ◌++◌, lookup-erase, mem_of, arith, ◌==◌, eq_iff, ==_refl, if◌then◌else◌, Bool-cases,
}
use cat_forked.MadHatter.Plugin.{Plugin, Disk}
use cat_forked.MadHatter.Manager.{
  MadHatter, remove_first, with_core, load_active_plugins_from_db, toggle_plugin, install_plugin,
  uninstall_plugin, removed, find_plugins, plugin_exists, load_plugin,
}

-- No id stands twice in a list of ids.
abbrev pub HasNoRepeats : List String → Type 0
HasNoRepeats [] = Unit
HasNoRepeats (k ∷ ks) = (mem_of k ks ≡ false) × HasNoRepeats ks

pub mem_of-append :
    (k : String) (ks js : List String) → mem_of k (ks ++ js) ≡ (mem_of k ks || mem_of k js)
mem_of-append k [] js = refl
mem_of-append k (i ∷ ks) js = ground (arith, mem_of-append k ks js)

mem_of-remove_first :
    (k j : String) (ks : List String)
    → HasNoRepeats ks
    → mem_of j (remove_first k ks) ≡ (if k == j then false else mem_of j ks)
mem_of-remove_first k j [] u = ground arith
mem_of-remove_first k j (i ∷ ks) u =
    ground (arith, mem_of-remove_first k j ks u.1, eq_iff i k, eq_iff k j, eq_iff i j)

remove_first-HasNoRepeats :
    (k : String) (ks : List String) → HasNoRepeats ks → HasNoRepeats (remove_first k ks)
remove_first-HasNoRepeats k [] u = tt
remove_first-HasNoRepeats k (i ∷ ks) u =
    ground (arith, remove_first-HasNoRepeats k ks u.1, mem_of-remove_first k i ks u.1)

append-HasNoRepeats :
    (k : String) (ks : List String)
    → mem_of k ks ≡ false
    → HasNoRepeats ks
    → HasNoRepeats (ks ++ k ∷ [])
append-HasNoRepeats k [] h u = (refl, tt)
append-HasNoRepeats k (i ∷ ks) h u =
    ground (arith, append-HasNoRepeats k ks, mem_of-append i ks (k ∷ []), eq_iff i k, eq_iff k i)

with_core-core : (ids : List String) → mem_of "core_plugin" (with_core ids) ≡ true
with_core-core ids = elim (Bool-cases (mem_of "core_plugin" ids)) [
  | inl there ↦ rw there there
  | inr missing ↦
      rw missing (mem_of-append "core_plugin" ids ("core_plugin" ∷ []) ∙ rw missing refl)
]

-- core_plugin is among the ids that are read from the database, whatever was saved.
pub load_active_plugins_from_db-core :
    {T W : Type 0} (m : MadHatter T W) → mem_of "core_plugin" (load_active_plugins_from_db m) ≡ true
unfolding load_active_plugins_from_db
load_active_plugins_from_db-core m = with_core-core (elim m.saved [ none ↦ [] | some ids ↦ ids ])

module _ {T W : Type 0} (disk : Disk T W) (distinct : List String → List String) where
  toggle_plugin-active :
      (id : String) (m : MadHatter T W)
      → (toggle_plugin disk distinct id m).0 ≡ true
      → let m' = (toggle_plugin disk distinct id m).1 in
        (m'.active_plugins ≡ (
          if mem_of id m.active_plugins
          then remove_first id m.active_plugins
          else m.active_plugins ++ id ∷ []))
        × (m'.saved ≡ some (distinct m'.active_plugins))
  unfolding toggle_plugin
  toggle_plugin-active id m ok = ground arith

  flipped :
      (id : String) (ids : List String)
      → HasNoRepeats ids
      → let ids' = if mem_of id ids then remove_first id ids else ids ++ id ∷ [] in
        HasNoRepeats ids'
        × ((k : String) → mem_of k ids' ≡ (if id == k then not (mem_of id ids) else mem_of k ids))
  flipped id ids u = elim (Bool-cases (mem_of id ids)) [
    | inl on ↦ rw on (remove_first-HasNoRepeats id ids u, λ k. mem_of-remove_first id k ids u)
    | inr off ↦ rw off (
      append-HasNoRepeats id ids off u,
      λ k. ground (arith, mem_of-append k ids (id ∷ []), eq_iff id k),
    )
  ]

  -- Where no id stands twice among the active plugins, a toggle that returns has flipped the
  -- plugin and no other, has left no id twice, and has written the list to the database.
  pub toggle_plugin-flips :
      (id : String) (m : MadHatter T W)
      → HasNoRepeats m.active_plugins
      → (toggle_plugin disk distinct id m).0 ≡ true
      → let m' = (toggle_plugin disk distinct id m).1 in
        HasNoRepeats m'.active_plugins
        × (m'.saved ≡ some (distinct m'.active_plugins))
        × ((k : String)
            → mem_of k m'.active_plugins
              ≡ (if id == k then not (mem_of id m.active_plugins) else mem_of k m.active_plugins))
  toggle_plugin-flips id m u ok =
      let (now, saved) = toggle_plugin-active id m ok in
      let (unique, flip) = flipped id m.active_plugins u in (rw now unique, saved, rw now flip)

  -- A toggle that raises has changed neither the active plugins nor the database, and no hook is
  -- added or lost.
  pub toggle_plugin-fails :
      (id : String) (m : MadHatter T W)
      → (toggle_plugin disk distinct id m).0 ≡ false
      → let m' = (toggle_plugin disk distinct id m).1 in
        (m'.active_plugins ≡ m.active_plugins) × (m'.saved ≡ m.saved) × (m'.hooks ≡ m.hooks)
  unfolding toggle_plugin
  toggle_plugin-fails id m h = ground arith

  removed-gone :
      (id : String) (t : Bool × MadHatter T W)
      → (removed disk distinct id t).0 ≡ true
      → (t.0 ≡ true)
        × (plugin_exists id (removed disk distinct id t).1 ≡ false)
        × ((removed disk distinct id t).1.active_plugins ≡ t.1.active_plugins)
  unfolding removed
  removed-gone id t ok = ground (arith, lookup-erase id id t.1.plugins, ==_refl id)

  uninstall_plugin-eq :
      (id : String) (m : MadHatter T W)
      → plugin_exists id m ≡ true
      → (id == "core_plugin") ≡ false
      → uninstall_plugin disk distinct id m
        ≡ removed disk distinct id
            (if mem_of id m.active_plugins then toggle_plugin disk distinct id m else (true, m))
  unfolding uninstall_plugin
  uninstall_plugin-eq id m known other = rw (known, other)

  toggled-gone :
      (id : String) (m : MadHatter T W)
      → HasNoRepeats m.active_plugins
      → let t =
          if mem_of id m.active_plugins then toggle_plugin disk distinct id m else (true, m) in
        t.0 ≡ true → mem_of id t.1.active_plugins ≡ false
  toggled-gone id m u = elim (Bool-cases (mem_of id m.active_plugins)) [
    | inl on ↦ rw on (λ ok.
        let (_, _, flip) = toggle_plugin-flips id m u ok in flip id ∙ rw (==_refl id, on) refl)
    | inr off ↦ rw off (λ ok. off)
  ]

  -- Where no id stands twice among the active plugins, a known plugin other than core_plugin is
  -- neither known nor active after an uninstall that returns.
  pub uninstall_plugin-gone :
      (id : String) (m : MadHatter T W)
      → HasNoRepeats m.active_plugins
      → plugin_exists id m ≡ true
      → (id == "core_plugin") ≡ false
      → (uninstall_plugin disk distinct id m).0 ≡ true
      → let m' = (uninstall_plugin disk distinct id m).1 in
        (plugin_exists id m' ≡ false) × (mem_of id m'.active_plugins ≡ false)
  uninstall_plugin-gone id m u known other ok =
      let e = uninstall_plugin-eq id m known other in
      let t : Bool × MadHatter T W =
        if mem_of id m.active_plugins then toggle_plugin disk distinct id m else (true, m) in
      let (done, gone, same) = removed-gone id t (rw e at ok) in
      rw (e, same) (gone, toggled-gone id m u done)

  -- Uninstalling core_plugin does nothing.
  pub uninstall_plugin-core :
      (m : MadHatter T W) → uninstall_plugin disk distinct "core_plugin" m ≡ (true, m)
  unfolding uninstall_plugin
  uninstall_plugin-core m = ground arith

  -- Where no id stands twice among the active plugins, an install that returns, of a plugin over
  -- one that is active, leaves it inactive: the install toggles.
  pub install_plugin-over_active :
      (id : String) (p : Plugin T W) (m : MadHatter T W)
      → HasNoRepeats m.active_plugins
      → mem_of id m.active_plugins ≡ true
      → (install_plugin disk distinct id (some p) m).0 ≡ true
      → mem_of id (install_plugin disk distinct id (some p) m).1.active_plugins ≡ false
  unfolding install_plugin
  install_plugin-over_active id p m u on ok =
      let (_, _, flip) = toggle_plugin-flips id (load_plugin disk distinct (some p) m) u ok in
      flip id ∙ rw (==_refl id, on) refl

  -- Where the first folder gives no plugin and its id is among the active plugins of the
  -- database, the search for plugins raises.
  pub find_plugins-raises :
      (id : String) (folders : List (String × Option (Plugin T W))) (m : MadHatter T W)
      → mem_of id (load_active_plugins_from_db m) ≡ true
      → (find_plugins disk distinct ((id, none) ∷ folders) m).0 ≡ false
  unfolding find_plugins
  find_plugins-raises id folders m on = ground arith
