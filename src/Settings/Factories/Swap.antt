-- ===== src/Settings/Factories/Swap.antt =====
-- core/cat/routes/llm.py and core/cat/routes/embedder.py: what a change of a model leaves in the
-- settings, and what the cat loads by them.
use cat_forked.Prelude.{
  String, ◌≡◌, refl, sym, ◌∙◌, Bool, true, false, Option, none, some, [], Dict, contains, ◌==◌,
  ==_refl, eq_iff, arith, ok, http_error,
}
use cat_forked.Form.{Model}
use cat_forked.Settings.{
  Setting, Table, get_setting_by_name, upsert_setting_by_name, delete_settings_by_category,
  get_settings_by_category,
}
use cat_forked.Settings.Laws.{
  get_setting_by_name-upsert, get_setting_by_name-delete_category, get_setting_by_name-delete_none,
  get_settings_by_category-delete, get_settings_by_category-delete_none,
}
use cat_forked.Settings.Factories.{
  Stamp, setting, choice, chosen, save, upsert_llm_setting, upsert_embedder_setting,
}
use cat_forked.Settings.Choices.{Vendor, or_default, load_language_model, load_language_embedder}

==_sym : (s t : String) → (s == t) ≡ false → (t == s) ≡ false
==_sym s t h = ground (arith, eq_iff s t, eq_iff t s)

module _ (table : Table) where
  get_setting_by_name-save :
      (stamp stamp' : Stamp) (category selected_name selected_category : String) (value : Model)
      (name : String) (db : table.Store)
      → (name == selected_name) ≡ false
      → let db' = save table stamp stamp' category selected_name selected_category value name db in
        (get_setting_by_name table selected_name db'
          ≡ some (setting stamp' selected_name selected_category (choice name)))
        × (get_setting_by_name table name db' ≡ some (setting stamp name category value))
  unfolding save
  get_setting_by_name-save stamp stamp' category selected_name selected_category value name db
        differ =
      let config = setting stamp name category value in
      let selection = setting stamp' selected_name selected_category (choice name) in
      let db₁ = (upsert_setting_by_name table config db).1 in
      (
        (get_setting_by_name-upsert table selection selected_name db₁).1
            ∙ rw (==_refl selected_name) refl,
        (get_setting_by_name-upsert table selection name db₁).1
            ∙ rw (==_sym name selected_name differ)
                ((get_setting_by_name-upsert table config name db).1 ∙ rw (==_refl name) refl),
      )

  module _ {A : Type 0} (build : String → Model → Option A) (default : A) where
    load_language_model-save :
        (stamp stamp' : Stamp) (payload : Model) (name : String) (db : table.Store)
        → (name == "llm_selected") ≡ false
        → load_language_model table build default
            (save table stamp stamp' "llm_factory" "llm_selected" "llm" payload name db)
          ≡ some (or_default default (build name payload))
    unfolding load_language_model
    load_language_model-save stamp stamp' payload name db differ =
        let (selected, saved) =
          get_setting_by_name-save stamp stamp' "llm_factory" "llm_selected" "llm" payload name db
            differ in
        rw selected (rw saved refl)

    load_language_embedder-save :
        (of_vendor : Vendor → Option A) (vendor : Vendor) (stamp stamp' : Stamp) (payload : Model)
        (name : String) (db : table.Store)
        → (name == "embedder_selected") ≡ false
        → load_language_embedder table build default of_vendor vendor (
            save table stamp stamp' "embedder_factory" "embedder_selected" "embedder" payload name
              db)
          ≡ some (or_default default (build name payload))
    unfolding load_language_embedder
    load_language_embedder-save of_vendor vendor stamp stamp' payload name db differ =
        let (selected, saved) =
          get_setting_by_name-save stamp stamp' "embedder_factory" "embedder_selected" "embedder"
            payload name db differ in
        rw selected (rw saved refl)

    load_language_embedder-selected :
        (of_vendor : Vendor → Option A) (vendor : Vendor) (selected current : Setting)
        (old : String) (db : table.Store)
        → get_setting_by_name table "embedder_selected" db ≡ some selected
        → chosen selected ≡ some old
        → get_setting_by_name table old db ≡ some current
        → load_language_embedder table build default of_vendor vendor db
          ≡ some (or_default default (build old current.value))
    unfolding load_language_embedder
    load_language_embedder-selected of_vendor vendor selected current old db is_selected is_old
          there =
        rw is_selected (rw is_old (rw there refl))

    load_language_model-none :
        (db : table.Store)
        → get_setting_by_name table "llm_selected" db ≡ none
        → load_language_model table build default db ≡ some default
    unfolding load_language_model
    load_language_model-none db h = rw h refl

    module _ {S W : Type 0} (schemas : Dict S) (load_natural_language : table.Store → W → Bool × W)
        (load_memory find_plugins : W → Bool × W) where
      -- A change of the language model that is answered with the new configuration has written it and
      -- the selection: from now on the cat loads the model that the factory builds from the
      -- configuration, or the default one where it builds none.
      pub load_language_model-upsert :
          (stamp stamp' : Stamp) (name : String) (payload : Model) (db : table.Store) (w : W)
          → (name == "llm_selected") ≡ false
          → let (reply, db', w') =
              upsert_llm_setting table schemas load_natural_language load_memory find_plugins stamp
                stamp' name payload db w in
            reply ≡ ok (name, payload)
            → load_language_model table build default db'
              ≡ some (or_default default (build name payload))
      unfolding upsert_llm_setting
      load_language_model-upsert stamp stamp' name payload db w differ answered =
          let db₁ = save table stamp stamp' "llm_factory" "llm_selected" "llm" payload name db in
          ground (arith, load_language_model-save stamp stamp' payload name db differ)

      -- Where a language model of the factory loads and the cat's memory cannot be loaded with it,
      -- the change is answered with 400, and neither a selection nor a configuration of any
      -- language model is left in the settings: from now on the cat loads the default one.
      pub load_language_model-upsert_fails :
          (stamp stamp' : Stamp) (name : String) (payload : Model) (db : table.Store) (w : W)
          → contains name schemas ≡ true
          → let db₁ = save table stamp stamp' "llm_factory" "llm_selected" "llm" payload name db in
            (load_natural_language db₁ w).0 ≡ true
            → (load_memory (load_natural_language db₁ w).1).0 ≡ false
            → let (reply, db', w') =
                upsert_llm_setting table schemas load_natural_language load_memory find_plugins
                  stamp stamp' name payload db w in
              (reply ≡ http_error 400)
              × (get_settings_by_category table "llm_factory" db' ≡ [])
              × (get_settings_by_category table "llm" db' ≡ [])
              × (load_language_model table build default db' ≡ some default)
      unfolding upsert_llm_setting
      load_language_model-upsert_fails stamp stamp' name payload db w known loads fails =
          let selection = setting stamp' "llm_selected" "llm" (choice name) in
          let db₁ =
            (upsert_setting_by_name table (setting stamp name "llm_factory" payload) db).1 in
          let db₂ =
            delete_settings_by_category table "llm"
              (upsert_setting_by_name table selection db₁).1 in
          let gone =
            get_setting_by_name-delete_none table "llm_selected" "llm_factory" db₂
              (get_setting_by_name-delete_category table selection "llm" db₁ refl) in
          rw known (
            rw loads (
              rw fails (
                refl,
                get_settings_by_category-delete table "llm_factory" db₂,
                get_settings_by_category-delete_none table "llm" "llm_factory" db₂ (
                    get_settings_by_category-delete table "llm"
                      (upsert_setting_by_name table selection db₁).1),
                load_language_model-none (delete_settings_by_category table "llm_factory" db₂) gone,
              )))

      -- Where a selected embedder has a configuration and the cat's memory cannot be loaded with a new
      -- one, the change is answered with 400, and from now on the cat loads the embedder that it loaded
      -- before, as long as its models can be loaded by the settings.
      pub load_language_embedder-restored :
          (of_vendor : Vendor → Option A) (vendor : Vendor) (stamp stamp' stamp₂ stamp₃ : Stamp)
          (name : String) (payload : Model) (db : table.Store) (w : W) (selected current : Setting)
          (old : String)
          → contains name schemas ≡ true
          → get_setting_by_name table "embedder_selected" db ≡ some selected
          → chosen selected ≡ some old
          → get_setting_by_name table old db ≡ some current
          → (old == "embedder_selected") ≡ false
          → ((db' : table.Store) (w' : W) → (load_natural_language db' w').0 ≡ true)
          → ((w' : W) → (load_memory w').0 ≡ false)
          → let (reply, db', w') =
              upsert_embedder_setting table schemas load_natural_language load_memory find_plugins
                stamp stamp' stamp₂ stamp₃ name payload db w in
            (reply ≡ http_error 400)
            × (load_language_embedder table build default of_vendor vendor db'
                ≡ load_language_embedder table build default of_vendor vendor db)
      unfolding upsert_embedder_setting
      load_language_embedder-restored of_vendor vendor stamp stamp' stamp₂ stamp₃ name payload db w
            selected current old known is_selected is_old there differ loads fails =
          let db₁ =
            save table stamp stamp' "embedder_factory" "embedder_selected" "embedder" payload name
              db in
          let w₁ = (load_natural_language db₁ w).1 in
          let w₂ = (load_memory w₁).1 in
          let db₂ =
            delete_settings_by_category table "embedder_factory"
              (delete_settings_by_category table "embedder" db₁) in
          let db₃ =
            save table stamp₂ stamp₃ "embedder_factory" "embedder_selected" "embedder" current.value
              old db₂ in
          rw known (
            rw is_selected (
              rw is_old (
                rw there (
                  rw (loads db₁ w) (
                    rw (fails w₁) (
                      rw (loads db₃ w₂) (
                        refl,
                        load_language_embedder-save of_vendor vendor stamp₂ stamp₃ current.value old
                              db₂ differ
                            ∙ sym (
                                load_language_embedder-selected of_vendor vendor selected current
                                  old db is_selected is_old there),
                      )))))))
