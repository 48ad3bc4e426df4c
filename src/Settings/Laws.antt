-- ===== src/Settings/Laws.antt =====
-- core/cat/db/crud.py: what is found after a write.
use cat_forked.Prelude.{
  String, ◌≡◌, refl, sym, ap, ◌∙◌, Bool, true, not, Option, none, some, List, [], ◌∷◌, ◌++◌, map,
  filter_by, all_of, ◌||◌, arith, ◌==◌, eq_iff, ==_refl, if◌then◌else◌, Bool-cases, inl, inr,
}
use cat_forked.Settings.{
  Setting, Table, is_named, is_in, first, get_setting_by_name, create_setting,
  delete_settings_by_category, upsert_setting_by_name, upserted, get_settings_by_category,
}

-- `get_setting_by_name` on the rows.
abbrev pub find : String → List Setting → Option Setting
find name rs = first (filter_by (is_named name) rs)

find-insert :
    (d : Setting) (name : String) (rs : List Setting)
    → find d.name rs ≡ none
    → find name (rs ++ d ∷ []) ≡ (if d.name == name then some d else find name rs)
find-insert d name [] h = ground arith
find-insert d name (r ∷ rs) h =
    ground
      (arith, find-insert d name rs, eq_iff d.name name, eq_iff r.name d.name, eq_iff r.name name)

-- Replacing the rows of one name.
abbrev replaced : Setting → List Setting → List Setting
replaced d rs = map (λ r. if is_named d.name r then d else r) rs

find-replaced :
    (d : Setting) (name : String) (rs : List Setting)
    → find name (replaced d rs) ≡ (
        if d.name == name
        then (elim (find d.name rs) [ none ↦ none | some r ↦ some d ])
        else find name rs)
find-replaced d name [] = ground arith
find-replaced d name (r ∷ rs) =
    ground
      (arith, find-replaced d name rs, eq_iff d.name name, eq_iff r.name d.name, eq_iff r.name name)

module _ (table : Table) where
  pub get_setting_by_name-eq :
      (name : String) (db : table.Store)
      → get_setting_by_name table name db ≡ find name (table.rows db)
  unfolding get_setting_by_name
  get_setting_by_name-eq name db = ap first (table.search_lem (is_named name) db)

  find-upserted :
      (payload : Setting) (name : String) (old : Option Setting) (db : table.Store)
      → find payload.name (table.rows db) ≡ old
      → find name (table.rows (upserted table payload old db))
        ≡ (if payload.name == name then some payload else find name (table.rows db))
  unfolding upserted create_setting
  find-upserted payload name none db h =
      ap (find name) (table.rows-insert payload db) ∙ find-insert payload name (table.rows db) h
  find-upserted payload name (some old) db h =
      ap (find name) (table.rows-update payload (is_named payload.name) db)
      ∙ find-replaced payload name (table.rows db)
      ∙ rw h refl

  -- After an upsert the name of the setting has exactly this setting, and every other name what it
  -- had; the setting is what the call returns.
  pub get_setting_by_name-upsert :
      (payload : Setting) (name : String) (db : table.Store)
      → let (reply, db') = upsert_setting_by_name table payload db in
        (reply ≡ some payload)
        × (get_setting_by_name table name db'
            ≡ (if payload.name == name then some payload else get_setting_by_name table name db))
  unfolding upsert_setting_by_name
  get_setting_by_name-upsert payload name db =
      let old = get_setting_by_name table payload.name db in
      let e = sym (get_setting_by_name-eq payload.name db) in
      let db' = upserted table payload old db in
      (
        get_setting_by_name-eq payload.name db'
            ∙ find-upserted payload payload.name old db e
            ∙ rw (==_refl payload.name) refl,
        get_setting_by_name-eq name db'
            ∙ find-upserted payload name old db e
            ∙ rw (get_setting_by_name-eq name db) refl,
      )

-- The rows of one name are all in one category.
abbrev confined : String → String → List Setting → Bool
confined name category rs = all_of (λ r. not (is_named name r) || is_in category r) rs

confined-insert :
    (d : Setting) (category : String) (rs : List Setting)
    → is_in category d ≡ true
    → find d.name rs ≡ none
    → confined d.name category (rs ++ d ∷ []) ≡ true
confined-insert d category [] h e = ground arith
confined-insert d category (r ∷ rs) h e = ground (arith, confined-insert d category rs)

confined-replaced :
    (d : Setting) (category : String) (rs : List Setting)
    → is_in category d ≡ true
    → confined d.name category (replaced d rs) ≡ true
confined-replaced d category [] h = refl
confined-replaced d category (r ∷ rs) h = ground (arith, confined-replaced d category rs)

find-removed :
    (name category : String) (rs : List Setting)
    → confined name category rs ≡ true
    → find name (filter_by (λ r. not (is_in category r)) rs) ≡ none
find-removed name category [] h = refl
find-removed name category (r ∷ rs) h = ground (arith, find-removed name category rs)

find-filter :
    (name category : String) (rs : List Setting)
    → find name rs ≡ none
    → find name (filter_by (λ r. not (is_in category r)) rs) ≡ none
find-filter name category [] h = refl
find-filter name category (r ∷ rs) h = ground (arith, find-filter name category rs)

module _ (table : Table) where
  confined-upserted :
      (d : Setting) (category : String) (old : Option Setting) (db : table.Store)
      → is_in category d ≡ true
      → find d.name (table.rows db) ≡ old
      → confined d.name category (table.rows (upserted table d old db)) ≡ true
  unfolding upserted create_setting
  confined-upserted d category none db h e =
      rw (table.rows-insert d db) (confined-insert d category (table.rows db) h e)
  confined-upserted d category (some old) db h e =
      rw (table.rows-update d (is_named d.name) db) (confined-replaced d category (table.rows db) h)

  -- A name that was written last in a category has no setting after the category is deleted.
  pub get_setting_by_name-delete_category :
      (d : Setting) (category : String) (db : table.Store)
      → is_in category d ≡ true
      → get_setting_by_name table d.name
          (delete_settings_by_category table category (upsert_setting_by_name table d db).1)
        ≡ none
  unfolding upsert_setting_by_name delete_settings_by_category
  get_setting_by_name-delete_category d category db h =
      let old = get_setting_by_name table d.name db in
      let db' = upserted table d old db in
      get_setting_by_name-eq table d.name (table.remove (is_in category) db')
      ∙ ap (find d.name) (table.rows-remove (is_in category) db')
      ∙ find-removed d.name category (table.rows db')
          (confined-upserted d category old db h (sym (get_setting_by_name-eq table d.name db)))

  -- A deletion brings no setting back.
  pub get_setting_by_name-delete_none :
      (name category : String) (db : table.Store)
      → get_setting_by_name table name db ≡ none
      → get_setting_by_name table name (delete_settings_by_category table category db) ≡ none
  unfolding delete_settings_by_category
  get_setting_by_name-delete_none name category db h =
      get_setting_by_name-eq table name (table.remove (is_in category) db)
      ∙ ap (find name) (table.rows-remove (is_in category) db)
      ∙ find-filter name category (table.rows db) (sym (get_setting_by_name-eq table name db) ∙ h)

module _ {A : Type 0} (p : A → Bool) where
  filter_by-not : (rs : List A) → filter_by p (filter_by (λ r. not (p r)) rs) ≡ []
  filter_by-not [] = refl
  filter_by-not (r ∷ rs) = elim (Bool-cases (p r)) [
    | inl t ↦ rw t (filter_by-not rs)
    | inr f ↦ rw f (rw f (filter_by-not rs))
  ]

  filter_by-none :
      (q : A → Bool) (rs : List A) → filter_by p rs ≡ [] → filter_by p (filter_by q rs) ≡ []
  filter_by-none q [] h = refl
  filter_by-none q (r ∷ rs) h = elim (Bool-cases (p r)) [
    | inl t ↦ absurd (ground arith)
    | inr f ↦
        let rest = filter_by-none q rs (rw f at h) in
        elim (Bool-cases (q r)) [ inl t ↦ rw t (rw f rest) | inr g ↦ rw g rest ]
  ]

module _ (table : Table) where
  -- A category that was deleted has no setting, also after another one is deleted.
  pub get_settings_by_category-delete :
      (category : String) (db : table.Store)
      → get_settings_by_category table category (delete_settings_by_category table category db) ≡ []
  unfolding get_settings_by_category delete_settings_by_category
  get_settings_by_category-delete category db =
      table.search_lem (is_in category) (table.remove (is_in category) db)
      ∙ ap (filter_by (is_in category)) (table.rows-remove (is_in category) db)
      ∙ filter_by-not (is_in category) (table.rows db)

  pub get_settings_by_category-delete_none :
      (category other : String) (db : table.Store)
      → get_settings_by_category table category db ≡ []
      → get_settings_by_category table category (delete_settings_by_category table other db) ≡ []
  unfolding get_settings_by_category delete_settings_by_category
  get_settings_by_category-delete_none category other db h =
      table.search_lem (is_in category) (table.remove (is_in other) db)
      ∙ ap (filter_by (is_in category)) (table.rows-remove (is_in other) db)
      ∙ filter_by-none (is_in category) (λ r. not (is_in other r)) (table.rows db)
          (sym (table.search_lem (is_in category) db) ∙ h)
