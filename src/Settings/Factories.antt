-- ===== src/Settings/Factories.antt =====
-- core/cat/routes/llm.py, core/cat/routes/embedder.py and core/cat/routes/auth_handler.py: the settings
-- of the language models, the embedders and the auth handlers. The schemas come from the factories.
-- `W` is the rest of the cat; the id and the time of a new setting are arguments.
pub mod Swap
use cat_forked.Prelude.{
  ℕ, String, Bool, true, false, not, Option, none, some, List, [], ◌∷◌, map, Dict, lookup, contains,
  ◌==◌, if◌then◌else◌, Response, ok, http_error,
}
use cat_forked.Form.{Json, text, null, other, Model}
use cat_forked.Settings.{
  Setting, Table, get_setting_by_name, get_settings_by_category, upsert_setting_by_name,
  delete_settings_by_category,
}

-- What pydantic fills in.
pub record Stamp : Type 0 where
  pub setting_id : String
  pub updated_at : ℕ

abbrev pub setting : Stamp → String → String → Model → Setting
setting stamp name category value = record {
  name = name;
  value = value;
  category = some category;
  setting_id = stamp.setting_id;
  updated_at = stamp.updated_at;
}

-- `{"name": class_name}`
abbrev pub choice : String → Model
choice class_name = ("name", text class_name) ∷ []

abbrev pub text_of : Option Json → Option String
text_of (some (text s)) = some s
text_of _ = none

-- `selected["value"]["name"]`, where this is a text
abbrev pub chosen : Setting → Option String
chosen s = text_of (lookup "name" s.value)

-- One entry of the list of the settings.
pub record Entry (S : Type 0) : Type 0 where
  pub name : String
  pub value : Model
  pub schema : S

abbrev pub value_or_empty : Option Setting → Model
value_or_empty none = []
value_or_empty (some s) = s.value

-- `{s["name"]: s for s in saved_settings}` keeps the last setting of a name.
abbrev pub last_named : String → List Setting → Option Setting
last_named name [] = none
last_named name (s ∷ ss) = elim (last_named name ss) [
  | some later ↦ some later
  | none ↦ if s.name == name then some s else none
]

abbrev pub chosen_in : Option Setting → Option String
chosen_in none = none
chosen_in (some s) = chosen s

module _ (table : Table) where
  -- The configuration, and then the selection.
  unfoldable pub save :
      Stamp → Stamp → String → String → String → Model → String → table.Store → table.Store
  save stamp stamp' category selected_name selected_category value name db =
      let db' = (upsert_setting_by_name table (setting stamp name category value) db).1 in
      (upsert_setting_by_name table (setting stamp' selected_name selected_category (choice name))
        db').1

module _ (table : Table) {S : Type 0} (schemas : Dict S) where
  -- The loop over the schemas.
  unfoldable pub entries : List Setting → Dict S → List (Entry S)
  entries saved [] = []
  entries saved ((class_name, schema) ∷ later) =
      record {
        name = class_name;
        value = value_or_empty (last_named class_name saved);
        schema = schema;
      }
      ∷ entries saved later

  unfoldable pub get_llms_settings : table.Store → Option String × List (Entry S)
  unfolding entries
  get_llms_settings db = (
    chosen_in (get_setting_by_name table "llm_selected" db),
    entries (get_settings_by_category table "llm_factory" db) schemas,
  )

  -- `fits` says whether the embedder in use is of a configuration's class: the loop goes through the
  -- classes from the last to the first, and leaves the last that fits on its way.
  abbrev pub deduced : (String → Bool) → Dict S → Option String
  deduced fits [] = none
  deduced fits ((class_name, schema) ∷ later) =
      if fits class_name then some class_name else deduced fits later

  unfoldable pub get_embedders_settings :
      (String → Bool) → table.Store → Option String × List (Entry S)
  unfolding entries
  get_embedders_settings fits db = (
    (elim (get_setting_by_name table "embedder_selected" db) [
      | some selected ↦ chosen selected
      | none ↦ deduced fits schemas
    ]),
    entries (get_settings_by_category table "embedder_factory" db) schemas,
  )

  unfoldable pub get_auth_handler_settings : table.Store → Option String × List (Entry S)
  unfolding entries
  get_auth_handler_settings db = (
    chosen_in (get_setting_by_name table "auth_handler_selected" db),
    entries (get_settings_by_category table "auth_handler_factory" db) schemas,
  )

  known : String → Option S → table.Store → Response (Entry S)
  known name none db = http_error 400
  known name (some schema) db = ok (record {
    name = name;
    value = value_or_empty (get_setting_by_name table name db);
    schema = schema;
  })

  -- `get_llm_settings`; the other two routes have the same body.
  unfoldable pub get_one_setting : String → table.Store → Response (Entry S)
  unfolding known
  get_one_setting name db = known name (lookup name schemas) db

  -- The cat's part: whether `load_natural_language`, which reads the settings, `load_memory` and
  -- `find_plugins` return.
  module _ {W : Type 0} (load_natural_language : table.Store → W → Bool × W)
      (load_memory find_plugins : W → Bool × W) where
    abbrev pub Changed : Type 0
    Changed = Response (String × Model) × table.Store × W

    -- `find_plugins`, and the answer
    plugins_found : String → Model → Bool × W → table.Store → Changed
    plugins_found name payload (true, w) db = (ok (name, payload), db, w)
    plugins_found name payload (false, w) db = (http_error 500, db, w)

    llm_memory_loaded : String → Model → Bool × W → table.Store → Changed
    unfolding plugins_found
    llm_memory_loaded name payload (true, w) db = plugins_found name payload (find_plugins w) db
    llm_memory_loaded name payload (false, w) db = (
      http_error 400,
      delete_settings_by_category table "llm_factory" (delete_settings_by_category table "llm" db),
      w,
    )

    llm_loaded : String → Model → Bool × W → table.Store → Changed
    unfolding llm_memory_loaded
    llm_loaded name payload (true, w) db = llm_memory_loaded name payload (load_memory w) db
    llm_loaded name payload (false, w) db = (http_error 500, db, w)

    unfoldable pub upsert_llm_setting : Stamp → Stamp → String → Model → table.Store → W → Changed
    unfolding llm_loaded save
    upsert_llm_setting stamp stamp' name payload db w =
        let db' = save table stamp stamp' "llm_factory" "llm_selected" "llm" payload name db in
        if contains name schemas
        then llm_loaded name payload (load_natural_language db' w) db'
        else (http_error 400, db, w)

    -- The selected configuration is restored; a selection without one raises.
    restored :
        Stamp → Stamp → Option String → Option Setting → table.Store → W → Bool × table.Store × W
    unfolding save
    restored stamp stamp' none current db w = (true, db, w)
    restored stamp stamp' (some old) none db w = (false, db, w)
    restored stamp stamp' (some old) (some current) db w =
        let db' =
          save table stamp stamp' "embedder_factory" "embedder_selected" "embedder" current.value
            old db in
        let (done, w') = load_natural_language db' w in (done, db', w')

    embedder_memory_loaded :
        Stamp
        → Stamp
        → Option String
        → Option Setting
        → String
        → Model
        → Bool × W
        → table.Store
        → Changed
    unfolding plugins_found restored
    embedder_memory_loaded stamp stamp' old current name payload (true, w) db =
        plugins_found name payload (find_plugins w) db
    embedder_memory_loaded stamp stamp' old current name payload (false, w) db =
        let cleared =
          delete_settings_by_category table "embedder_factory"
            (delete_settings_by_category table "embedder" db) in
        let (done, db', w') = restored stamp stamp' old current cleared w in
        (http_error (if done then 400 else 500), db', w')

    embedder_loaded :
        Stamp
        → Stamp
        → Option String
        → Option Setting
        → String
        → Model
        → Bool × W
        → table.Store
        → Changed
    unfolding embedder_memory_loaded
    embedder_loaded stamp stamp' old current name payload (true, w) db =
        embedder_memory_loaded stamp stamp' old current name payload (load_memory w) db
    embedder_loaded stamp stamp' old current name payload (false, w) db = (http_error 500, db, w)

    -- The configuration of what is selected.
    current_settings : Option String → table.Store → Option Setting
    current_settings none db = none
    current_settings (some old) db = get_setting_by_name table old db

    -- The second pair of stamps is for what is restored.
    unfoldable pub upsert_embedder_setting :
        Stamp → Stamp → Stamp → Stamp → String → Model → table.Store → W → Changed
    unfolding embedder_loaded current_settings save
    upsert_embedder_setting stamp stamp' stamp₂ stamp₃ name payload db w =
        let old = chosen_in (get_setting_by_name table "embedder_selected" db) in
        let db' =
          save table stamp stamp' "embedder_factory" "embedder_selected" "embedder" payload name
            db in
        if contains name schemas
        then embedder_loaded stamp₂ stamp₃ old (current_settings old db) name payload
            (load_natural_language db' w) db'
        else (http_error 400, db, w)
