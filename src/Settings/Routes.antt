-- ===== src/Settings/Routes.antt =====
-- core/cat/routes/settings.py. The id and the time that pydantic fills in are arguments.
use cat_forked.Prelude.{
  ℕ, String, ◌≡◌, refl, ap, ◌∙◌, inl, inr, not, Option, none, some, List, [], ◌∷◌, map, filter_by,
  arith, ◌==◌, eq_iff, ==_refl, if◌then◌else◌, Option-cases, Response, ok, http_error,
}
use cat_forked.Form.{Model}
use cat_forked.Settings.{
  Setting, Table, has_id, first, get_setting_by_id, create_setting as insert_setting,
  delete_setting_by_id, update_setting_by_id,
}

-- `models.SettingBody`
pub record SettingBody : Type 0 where
  pub name : String
  pub value : Model
  pub category : Option String

abbrev pub completed : SettingBody → String → ℕ → Setting
completed body setting_id updated_at = record {
  name = body.name;
  value = body.value;
  category = body.category;
  setting_id = setting_id;
  updated_at = updated_at;
}

module _ (table : Table) where
  unfoldable pub create_setting :
      String → ℕ → SettingBody → table.Store → Option Setting × table.Store
  create_setting new_id now body db = insert_setting table (completed body new_id now) db

  found : Option Setting → Response Setting
  found none = http_error 404
  found (some setting) = ok setting

  unfoldable pub get_setting : String → table.Store → Response Setting
  unfolding found
  get_setting id db = found (get_setting_by_id table id db)

  update_found : Option Setting → Setting → table.Store → Response (Option Setting) × table.Store
  update_found none payload db = (http_error 404, db)
  update_found (some old) payload db =
      let (new, db') = update_setting_by_id table payload db in (ok new, db')

  unfoldable pub update_setting :
      String → ℕ → SettingBody → table.Store → Response (Option Setting) × table.Store
  unfolding update_found
  update_setting id now body db =
      update_found (get_setting_by_id table id db) (completed body id now) db

  delete_found : Option Setting → String → table.Store → Response String × table.Store
  delete_found none id db = (http_error 404, db)
  delete_found (some old) id db = (ok id, delete_setting_by_id table id db)

  unfoldable pub delete_setting : String → table.Store → Response String × table.Store
  unfolding delete_found
  delete_setting id db = delete_found (get_setting_by_id table id db) id db

-- `get_setting_by_id` on the rows.
abbrev find_id : String → List Setting → Option Setting
find_id id rs = first (filter_by (has_id id) rs)

-- What is there becomes `d`.
abbrev pub if_there : Option Setting → Setting → Option Setting
if_there none d = none
if_there (some old) d = some d

find_id-replaced :
    (d : Setting) (id : String) (rs : List Setting)
    → find_id id (map (λ r. if has_id d.setting_id r then d else r) rs)
      ≡ (if d.setting_id == id then if_there (find_id id rs) d else find_id id rs)
find_id-replaced d id [] = ground arith
find_id-replaced d id (r ∷ rs) = ground (
  arith,
  find_id-replaced d id rs,
  eq_iff d.setting_id id,
  eq_iff r.setting_id d.setting_id,
  eq_iff r.setting_id id,
)

find_id-removed :
    (gone id : String) (rs : List Setting)
    → find_id id (filter_by (λ r. not (has_id gone r)) rs)
      ≡ (if gone == id then none else find_id id rs)
find_id-removed gone id [] = ground arith
find_id-removed gone id (r ∷ rs) = ground (
  arith,
  find_id-removed gone id rs,
  eq_iff gone id,
  eq_iff r.setting_id gone,
  eq_iff r.setting_id id,
)

module _ (table : Table) where
  get_setting_by_id-eq :
      (id : String) (db : table.Store) → get_setting_by_id table id db ≡ find_id id (table.rows db)
  unfolding get_setting_by_id
  get_setting_by_id-eq id db = ap first (table.search_lem (has_id id) db)

  -- 404 where there is no setting.
  abbrev pub if_known : {A : Type 0} → Option Setting → A → Response A
  if_known none a = http_error 404
  if_known (some old) a = ok a

  find_id-update :
      (d : Setting) (id : String) (db : table.Store)
      → get_setting_by_id table id (table.update d (has_id d.setting_id) db) ≡ (
          if d.setting_id == id
          then if_there (get_setting_by_id table id db) d
          else get_setting_by_id table id db)
  find_id-update d id db =
      get_setting_by_id-eq id (table.update d (has_id d.setting_id) db)
      ∙ ap (find_id id) (table.rows-update d (has_id d.setting_id) db)
      ∙ find_id-replaced d id (table.rows db)
      ∙ rw (get_setting_by_id-eq id db) refl

  -- `PUT` answers 404 without a setting of this id, and else the body under the id; afterwards the id
  -- has the body if it had a setting, and every other id what it had.
  pub get_setting_by_id-update_setting :
      (id other : String) (now : ℕ) (body : SettingBody) (db : table.Store)
      → let new = completed body id now in
        let old = get_setting_by_id table id db in
        let (reply, db') = update_setting table id now body db in
        (reply ≡ if_known old (some new))
        × (get_setting_by_id table other db'
            ≡ (if id == other then if_there old new else get_setting_by_id table other db))
  unfolding update_setting update_setting_by_id
  get_setting_by_id-update_setting id other now body db =
      elim (Option-cases (get_setting_by_id table id db)) [
        | inl missing ↦ rw missing (
          refl,
          ground (arith, eq_iff id other, ap (λ (i : String). get_setting_by_id table i db)),
        )
        | inr (old, there) ↦
            let new = completed body id now in
            rw there (
              ap (λ (o : Option Setting). ok o)
                  (find_id-update new id db ∙ rw (==_refl id) (rw there refl)),
              find_id-update new other db
                  ∙ ground (
                    arith,
                    eq_iff id other,
                    there,
                    ap (λ (i : String). get_setting_by_id table i db),
                  ),
            )
      ]

  -- `DELETE` answers 404 without a setting of this id, and else the id; afterwards the id has no
  -- setting, and every other id what it had.
  pub get_setting_by_id-delete_setting :
      (id other : String) (db : table.Store)
      → let (reply, db') = delete_setting table id db in
        (reply ≡ if_known (get_setting_by_id table id db) id)
        × (get_setting_by_id table other db'
            ≡ (if id == other then none else get_setting_by_id table other db))
  unfolding delete_setting delete_setting_by_id
  get_setting_by_id-delete_setting id other db =
      elim (Option-cases (get_setting_by_id table id db)) [
        | inl missing ↦ rw missing (
          refl,
          ground (arith, eq_iff id other, ap (λ (i : String). get_setting_by_id table i db)),
        )
        | inr (old, there) ↦ rw there (
          refl,
          get_setting_by_id-eq other (table.remove (has_id id) db)
              ∙ ap (find_id other) (table.rows-remove (has_id id) db)
              ∙ find_id-removed id other (table.rows db)
              ∙ rw (get_setting_by_id-eq other db) refl,
        )
      ]
