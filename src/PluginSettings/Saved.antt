-- ===== src/PluginSettings/Saved.antt =====
-- core/cat/mad_hatter/plugin.py and core/cat/routes/plugins.py: what is loaded after a change of the settings.
use cat_forked.Prelude.{
  ◌≡◌, refl, ap, ◌∙◌, inl, inr, String, Bool, true, false, Option, none, some, [], ◌∷◌, lookup,
  contains, insert, lookup-insert, HasUniqueKeys, ==→≡, arith, ◌==◌, Bool-cases, Option-cases,
}
use mathlib.Core.Path.{subst}
use cat_forked.Form.{Json, Model, merge}
use cat_forked.PluginSettings.{
  File, json, Settings, load_settings, save_settings, save_from, load_from, read_or_create,
  write_over,
}

-- The first value that is there.
abbrev pub or_else : Option Json → Option Json → Option Json
or_else none v = v
or_else (some u) v = some u

gone_at :
    (j k : String) (v : Json) (new : Model)
    → (j == k) ≡ true
    → HasUniqueKeys ((j, v) ∷ new)
    → lookup k new ≡ none
gone_at j k v new same unique =
    let e : j ≡ k = ==→≡ same in
    let f = subst (λ (x : String). contains x new ≡ false) e unique.0 in
    elim (Option-cases (lookup k new)) [
      | inl absent ↦ absent
      | inr (w, there) ↦ absurd (ground arith)
    ]

lookup-merge :
    (k : String) (old new : Model)
    → HasUniqueKeys new
    → lookup k (merge old new) ≡ or_else (lookup k new) (lookup k old)
unfolding merge
lookup-merge k old [] unique = refl
lookup-merge k old ((j, v) ∷ new) unique = elim (Bool-cases (j == k)) [
  | inr other ↦
      lookup-merge k (insert j v old) new unique.1 ∙ rw (lookup-insert j k v old) (rw other refl)
  | inl same ↦
      lookup-merge k (insert j v old) new unique.1
      ∙ rw (lookup-insert j k v old) (rw same (rw (gone_at j k v new same unique) refl))
]

write_over-some :
    (settings old : Model) (out : Option Model × File)
    → out.0 ≡ some old
    → write_over settings true out ≡ (some (merge old settings), json (merge old settings))
unfolding write_over
write_over-some settings old (none, file) h = absurd (ground arith)
write_over-some settings old (some found, file) h = let e : found ≡ old = ground arith in rw e refl

module _ {P : Type 0} where
  -- The plugin keeps its settings in the file, which can be written.
  pub record IsPlain (plugin : Settings P) : Type 0 where
    pub no_load : plugin.own_load ≡ none
    pub no_save : plugin.own_save ≡ none
    pub writable : plugin.can_write ≡ true

  -- After the settings of a plugin are saved, they are what is loaded; a key has the new value, or where
  -- none was sent the value that it had. The plugin has no functions of its own for this.
  pub save_settings-load_settings :
      (plugin : Settings P) (settings old : Model) (file : File) (k : String)
      → IsPlain plugin
      → HasUniqueKeys settings
      → (load_settings plugin file).0 ≡ some old
      → let (saved, file') = save_settings plugin settings file in
        let now = merge old settings in
        (saved ≡ some now)
        × ((load_settings plugin file').0 ≡ some now)
        × (lookup k now ≡ or_else (lookup k settings) (lookup k old))
  unfolding save_settings load_settings save_from load_from read_or_create
  save_settings-load_settings plugin settings old file k plain unique loaded =
      let now = merge old settings in
      let saved : save_settings plugin settings file ≡ (some now, json now) =
        ap
          (λ (own : Option (Model → File → Option Model × File)).
            save_from own plugin settings file)
          plain.no_save
        ∙ ap (λ (b : Bool). write_over settings b (load_settings plugin file)) plain.writable
        ∙ write_over-some settings old (load_settings plugin file) loaded in
      (
        ap (λ (r : Option Model × File). r.0) saved,
        ap (λ (r : Option Model × File). (load_settings plugin r.1).0) saved
            ∙ ap
                (λ (own : Option (File → Option Model × File)). (load_from own plugin (json now)).0)
                plain.no_load,
        lookup-merge k old settings unique,
      )
