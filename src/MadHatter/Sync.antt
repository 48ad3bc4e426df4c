-- ===== src/MadHatter/Sync.antt =====
-- core/cat/mad_hatter/mad_hatter.py: what `sync_hooks_tools_and_forms` leaves for each name of a hook.
use cat_forked.Prelude.{
  String, ◌≡◌, refl, ap, ◌∙◌, Bool, Option, none, some, List, [], ◌∷◌, ◌++◌, Dict, lookup,
  lookup-insert, mem_of, arith, ◌==◌, eq_iff, if◌then◌else◌, filter_by, sort_by, Bool-cases, inl,
  inr, ℤ, leb_ℤ, ◌&&◌, IsSorted, sort_by-IsSorted, filter_by-sort_by, Perm, sort_by-perm,
  leb_ℤ_total, leb_ℤ_trans,
}
use mathlib.Core.List.{append-nil, append_assoc}
use cat_forked.MadHatter.Hook.{CatHook, not_lower}
use cat_forked.MadHatter.Plugin.{Plugin}
use cat_forked.MadHatter.Manager.{
  MadHatter, append_hook, append_hooks, gather_hooks, sort_all, sync_hooks_tools_and_forms,
}

module _ {T W : Type 0} where
  -- The hooks of the active plugins, in the order of the plugins.
  pub hooks_in : List String → List (String × Plugin T W) → List (CatHook T W)
  hooks_in active [] = []
  hooks_in active ((k, p) ∷ ps) =
      let rest = hooks_in active ps in if mem_of p.id active then p.hooks ++ rest else rest

  abbrev pub active_hooks : MadHatter T W → List (CatHook T W)
  active_hooks m = hooks_in m.active_plugins m.plugins

  -- A name with no hooks has no entry.
  abbrev pub entry : List (CatHook T W) → Option (List (CatHook T W))
  entry [] = none
  entry (h ∷ hs) = some (h ∷ hs)

  abbrev pub is_named : String → CatHook T W → Bool
  is_named name h = h.name == name

  entry-append :
      (hs : List (CatHook T W)) (h : CatHook T W) → entry (hs ++ h ∷ []) ≡ some (hs ++ h ∷ [])
  entry-append [] h = refl
  entry-append (g ∷ hs) h = refl

  lookup-append_hook :
      (name : String) (h : CatHook T W) (d : Dict (List (CatHook T W))) (hs : List (CatHook T W))
      → lookup name d ≡ entry hs
      → lookup name (append_hook h d) ≡ entry (if is_named name h then hs ++ h ∷ [] else hs)
  unfolding append_hook
  lookup-append_hook name h d [] e = rw lookup-insert (ground (arith, eq_iff h.name name))
  lookup-append_hook name h d (g ∷ hs) e = rw lookup-insert (ground (arith, eq_iff h.name name))

  lookup-append_hooks :
      (name : String) (new : List (CatHook T W)) (d : Dict (List (CatHook T W)))
      (hs : List (CatHook T W))
      → lookup name d ≡ entry hs
      → lookup name (append_hooks new d) ≡ entry (hs ++ filter_by (is_named name) new)
  unfolding append_hooks
  lookup-append_hooks name [] d hs e = rw append-nil e
  lookup-append_hooks name (h ∷ new) d hs e = elim (Bool-cases (h.name == name)) [
    | inl same ↦ rw same (
        lookup-append_hooks name new (append_hook h d) (hs ++ h ∷ [])
          (rw same at (lookup-append_hook name h d hs e))
        ∙ ap entry (append_assoc hs (h ∷ []) (filter_by (is_named name) new)))
    | inr other ↦ rw other (
        lookup-append_hooks name new (append_hook h d) hs
          (rw other at (lookup-append_hook name h d hs e)))
  ]

  filter_by-append :
      (name : String) (gs hs : List (CatHook T W))
      → filter_by (is_named name) (gs ++ hs)
        ≡ filter_by (is_named name) gs ++ filter_by (is_named name) hs
  filter_by-append name [] hs = refl
  filter_by-append name (g ∷ gs) hs = ground (arith, filter_by-append name gs hs)

  lookup-gather_hooks :
      (name : String) (active : List String) (ps : List (String × Plugin T W))
      (d : Dict (List (CatHook T W))) (hs : List (CatHook T W))
      → lookup name d ≡ entry hs
      → lookup name (gather_hooks active ps d)
        ≡ entry (hs ++ filter_by (is_named name) (hooks_in active ps))
  unfolding gather_hooks hooks_in
  lookup-gather_hooks name active [] d hs e = rw append-nil e
  lookup-gather_hooks name active ((k, p) ∷ ps) d hs e = elim (Bool-cases (mem_of p.id active)) [
    | inl on ↦
        rw (on, filter_by-append)
          (lookup-gather_hooks name active ps (append_hooks p.hooks d)
              (hs ++ filter_by (is_named name) p.hooks) (lookup-append_hooks name p.hooks d hs e)
            ∙ ap entry (
                append_assoc hs (filter_by (is_named name) p.hooks)
                  (filter_by (is_named name) (hooks_in active ps))))
    | inr off ↦ rw off (lookup-gather_hooks name active ps d hs e)
  ]

  -- The list of one name, sorted.
  abbrev pub sorted_entry : Option (List (CatHook T W)) → Option (List (CatHook T W))
  sorted_entry none = none
  sorted_entry (some hs) = some (sort_by not_lower hs)

  lookup-sort_all :
      (name : String) (d : Dict (List (CatHook T W)))
      → lookup name (sort_all d) ≡ sorted_entry (lookup name d)
  lookup-sort_all name [] = refl
  lookup-sort_all name ((k, hs) ∷ d) = ground (arith, lookup-sort_all name d)

  -- After the sync a name has exactly the hooks of that name of the active plugins, sorted, and no
  -- entry where there are none.
  pub lookup-sync_hooks_tools_and_forms :
      (name : String) (m : MadHatter T W)
      → lookup name (sync_hooks_tools_and_forms m).hooks
        ≡ sorted_entry (entry (filter_by (is_named name) (active_hooks m)))
  unfolding sync_hooks_tools_and_forms
  lookup-sync_hooks_tools_and_forms name m =
      lookup-sort_all name (gather_hooks m.active_plugins m.plugins [])
      ∙ ap sorted_entry (lookup-gather_hooks name m.active_plugins m.plugins [] [] refl)

  abbrev pub has_priority : ℤ → CatHook T W → Bool
  has_priority n h = leb_ℤ n h.priority && leb_ℤ h.priority n

  -- Sorting the hooks loses and adds none, puts a hook of a higher priority before one of a lower, and
  -- keeps the order of the hooks of each priority.
  pub sort_by-not_lower :
      (hs : List (CatHook T W)) (n : ℤ)
      → Perm (sort_by not_lower hs) hs
        × IsSorted not_lower (sort_by not_lower hs)
        × (filter_by (has_priority n) (sort_by not_lower hs) ≡ filter_by (has_priority n) hs)
  sort_by-not_lower hs n = (
    sort_by-perm not_lower hs,
    sort_by-IsSorted not_lower (λ g h e. leb_ℤ_total h.priority g.priority e)
        (λ f g h p q. leb_ℤ_trans h.priority g.priority f.priority q p) hs,
    filter_by-sort_by not_lower (has_priority n) (λ g h p q. ground arith) hs,
  )
