-- ===== src/Settings/Tests.antt =====
-- Runs of core/cat/db/crud.py, and of the routes of the settings and the models, on a table that is a
-- list.
use cat_forked.Prelude.{
  ℕ, ◌+◌, String, ◌≡◌, refl, Bool, true, false, not, Option, none, some, List, [], ◌∷◌, ◌++◌, map,
  filter_by, if◌then◌else◌, Dict, http_error, ◌==◌,
}
use cat_forked.Form.{text, Model}
use cat_forked.Settings.{
  Setting, Table, get_setting_by_name, get_setting_by_id, upsert_setting_by_name, get_settings,
  delete_setting_by_id, get_settings_by_category,
}
use cat_forked.Settings.Laws.{get_setting_by_name-upsert}
use cat_forked.Settings.Routes.{
  SettingBody, completed, if_known, if_there, update_setting, get_setting_by_id-update_setting,
}
use cat_forked.Settings.Factories.{
  Stamp, setting, choice, upsert_llm_setting, upsert_embedder_setting,
}
use cat_forked.Settings.Choices.{openai, load_language_model, load_language_embedder}
use cat_forked.Settings.Factories.Swap.{
  load_language_model-upsert, load_language_model-upsert_fails, load_language_embedder-restored,
}

abbrev listed : Table
listed = record {
  Store = List Setting;
  rows = λ s. s;
  insert = λ d s. s ++ d ∷ [];
  search = filter_by;
  update = λ d p s. map (λ r. if p r then d else r) s;
  remove = λ p s. filter_by (λ r. not (p r)) s;
  rows-insert = λ d s. refl;
  search_lem = λ p s. refl;
  rows-update = λ d p s. refl;
  rows-remove = λ p s. refl;
}

abbrev stamp : String → Stamp
stamp id = record { setting_id = id; updated_at = 7 }

abbrev key : String → Model
key k = ("api_key", text k) ∷ []

abbrev config : Setting
config = setting (stamp "a") "EmbedderOpenAI" "embedder_factory" (key "old")

abbrev selection : Setting
selection = setting (stamp "b") "embedder_selected" "embedder" (choice "EmbedderOpenAI")

abbrev db : List Setting
db = config ∷ selection ∷ []

abbrev body : SettingBody
body = record { name = "EmbedderOpenAI"; value = key "new"; category = none }

abbrev build : String → Model → Option Model
build class_name value = if class_name == "EmbedderUnknown" then none else some value

abbrev schemas : Dict ℕ
schemas = ("LLMOpenAI", 1) ∷ ("EmbedderCohere", 2) ∷ []

abbrev loaded : ℕ → Bool × ℕ
loaded w = (true, w + 1)

abbrev failed : ℕ → Bool × ℕ
failed w = (false, w + 1)

-- The second configuration of a name replaces the first.
replaced :
    get_setting_by_name listed "EmbedderOpenAI"
      (upsert_setting_by_name listed (completed body "c" 9) db).1
    ≡ some (completed body "c" 9)
unfolding upsert_setting_by_name get_setting_by_name
replaced = refl

not_users : get_settings listed (λ s t. true) "" (setting (stamp "u") "users" "users" [] ∷ db) ≡ db
unfolding get_settings
not_users = refl

deleted : delete_setting_by_id listed "a" db ≡ selection ∷ []
unfolding delete_setting_by_id
deleted = refl

one_category : get_settings_by_category listed "embedder" db ≡ selection ∷ []
unfolding get_settings_by_category
one_category = refl

get_setting_by_name-upsert_example :
    let (reply, db') = upsert_setting_by_name listed (completed body "c" 9) db in
    (reply ≡ some (completed body "c" 9))
    × (get_setting_by_name listed "embedder_selected" db' ≡ (
        if "EmbedderOpenAI" == "embedder_selected"
        then some (completed body "c" 9)
        else get_setting_by_name listed "embedder_selected" db))
get_setting_by_name-upsert_example =
    get_setting_by_name-upsert listed (completed body "c" 9) "embedder_selected" db

get_setting_by_id-update_setting_runs :
    let new = completed body "a" 9 in
    let old = get_setting_by_id listed "a" db in
    let (reply, db') = update_setting listed "a" 9 body db in
    (reply ≡ if_known listed old (some new))
    × (get_setting_by_id listed "b" db'
        ≡ (if "a" == "b" then if_there old new else get_setting_by_id listed "b" db))
get_setting_by_id-update_setting_runs = get_setting_by_id-update_setting listed "a" "b" 9 body db

new_model_loaded :
    load_language_model listed build []
      (upsert_llm_setting listed schemas
        (λ d. loaded)
        loaded
        loaded
        (stamp "c")
        (stamp "d")
        "LLMOpenAI"
        (key "new")
        db
        0).1
    ≡ some (key "new")
unfolding upsert_llm_setting
new_model_loaded =
    load_language_model-upsert listed build [] schemas (λ d. loaded) loaded loaded (stamp "c")
      (stamp "d") "LLMOpenAI" (key "new") db 0 refl refl

load_language_model-upsert_fails_example :
    let (reply, db', w') =
      upsert_llm_setting listed schemas
        (λ d. loaded)
        failed
        loaded
        (stamp "c")
        (stamp "d")
        "LLMOpenAI"
        (key "new")
        db
        0 in
    (reply ≡ http_error 400)
    × (get_settings_by_category listed "llm_factory" db' ≡ [])
    × (get_settings_by_category listed "llm" db' ≡ [])
    × (load_language_model listed build [] db' ≡ some [])
load_language_model-upsert_fails_example =
    load_language_model-upsert_fails listed build [] schemas (λ d. loaded) failed loaded (stamp "c")
      (stamp "d") "LLMOpenAI" (key "new") db 0 refl refl refl

load_language_embedder-restored_example :
    let (reply, db', w') =
      upsert_embedder_setting listed schemas
        (λ d. loaded)
        failed
        loaded
        (stamp "c")
        (stamp "d")
        (stamp "e")
        (stamp "f")
        "EmbedderCohere"
        (key "new")
        db
        0 in
    (reply ≡ http_error 400)
    × (load_language_embedder listed build [] (λ v. none) openai db'
        ≡ load_language_embedder listed build [] (λ v. none) openai db)
unfolding get_setting_by_name
load_language_embedder-restored_example =
    load_language_embedder-restored listed build [] schemas (λ d. loaded) failed loaded (λ v. none)
      openai (stamp "c") (stamp "d") (stamp "e") (stamp "f") "EmbedderCohere" (key "new") db 0
      selection config "EmbedderOpenAI" refl refl refl refl refl (λ d w. refl) (λ w. refl)
