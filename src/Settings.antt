-- ===== src/Settings.antt =====
-- core/cat/db: the settings of the cat. TinyDB is a parameter, with its documented laws; a value is a
-- dictionary (lists are left out).
pub mod Laws
pub mod Routes
pub mod Factories
pub mod Choices
mod Tests
use cat_forked.Prelude.{
  ℕ, String, ◌≡◌, Bool, true, false, not, Option, none, some, List, [], ◌∷◌, ◌++◌, map, filter_by,
  ◌==◌, if◌then◌else◌,
}
use cat_forked.Form.{Model}

-- core/cat/db/models.py
pub record Setting : Type 0 where
  pub name : String
  pub value : Model
  pub category : Option String
  pub setting_id : String
  pub updated_at : ℕ

-- A table of TinyDB: `rows` are its documents in the order of their insertion.
pub record Table : Type 1 where
  pub Store : Type 0
  pub rows : Store → List Setting
  pub insert : Setting → Store → Store
  pub search : (Setting → Bool) → Store → List Setting
  pub update : Setting → (Setting → Bool) → Store → Store
  pub remove : (Setting → Bool) → Store → Store
  pub rows-insert : (d : Setting) (s : Store) → rows (insert d s) ≡ rows s ++ d ∷ []
  pub search_lem : (p : Setting → Bool) (s : Store) → search p s ≡ filter_by p (rows s)
  pub rows-update :
      (d : Setting) (p : Setting → Bool) (s : Store)
      → rows (update d p s) ≡ map (λ r. if p r then d else r) (rows s)
  pub rows-remove :
      (p : Setting → Bool) (s : Store) → rows (remove p s) ≡ filter_by (λ r. not (p r)) (rows s)

abbrev pub is_named : String → Setting → Bool
is_named name s = s.name == name

abbrev pub has_id : String → Setting → Bool
has_id setting_id s = s.setting_id == setting_id

abbrev pub same_category : String → Option String → Bool
same_category category none = false
same_category category (some c) = c == category

abbrev pub is_in : String → Setting → Bool
is_in category s = same_category category s.category

-- `if len(result) > 0: return result[0]`
abbrev pub first : List Setting → Option Setting
first [] = none
first (s ∷ ss) = some s

module _ (table : Table) where
  -- `matches` is the test of a regular expression.
  unfoldable pub get_settings : (String → String → Bool) → String → table.Store → List Setting
  get_settings matches search db =
      filter_by (λ s. not (s.name == "users")) (table.search (λ s. matches search s.name) db)

  unfoldable pub get_settings_by_category : String → table.Store → List Setting
  get_settings_by_category category db = table.search (is_in category) db

  unfoldable pub get_setting_by_name : String → table.Store → Option Setting
  get_setting_by_name name db = first (table.search (is_named name) db)

  unfoldable pub get_setting_by_id : String → table.Store → Option Setting
  get_setting_by_id setting_id db = first (table.search (has_id setting_id) db)

  unfoldable pub create_setting : Setting → table.Store → Option Setting × table.Store
  unfolding get_setting_by_id
  create_setting payload db =
      let db' = table.insert payload db in (get_setting_by_id payload.setting_id db', db')

  unfoldable pub delete_setting_by_id : String → table.Store → table.Store
  delete_setting_by_id setting_id db = table.remove (has_id setting_id) db

  unfoldable pub delete_settings_by_category : String → table.Store → table.Store
  delete_settings_by_category category db = table.remove (is_in category) db

  -- `update` writes every field of the payload.
  unfoldable pub update_setting_by_id : Setting → table.Store → Option Setting × table.Store
  unfolding get_setting_by_id
  update_setting_by_id payload db =
      let db' = table.update payload (has_id payload.setting_id) db in
      (get_setting_by_id payload.setting_id db', db')

  upserted : Setting → Option Setting → table.Store → table.Store
  unfolding create_setting
  upserted payload none db = (create_setting payload db).1
  upserted payload (some old) db = table.update payload (is_named payload.name) db

  unfoldable pub upsert_setting_by_name : Setting → table.Store → Option Setting × table.Store
  unfolding upserted get_setting_by_name
  upsert_setting_by_name payload db =
      let db' = upserted payload (get_setting_by_name payload.name db) db in
      (get_setting_by_name payload.name db', db')
