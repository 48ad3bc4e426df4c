-- ===== src/Settings/Choices.antt =====
-- core/cat/looking_glass/cheshire_cat.py: `load_language_model`, `load_language_embedder` and
-- `load_auth`, which choose by the settings; and the route of the auth handlers. `build` is the
-- factory's class of a name applied to a configuration, `none` where there is no such class or it
-- raises.
use cat_forked.Prelude.{
  String, Option, none, some, [], Dict, contains, if◌then◌else◌, Response, ok, http_error,
}
use cat_forked.Form.{Model}
use cat_forked.Settings.{Setting, Table, get_setting_by_name}
use cat_forked.Settings.Factories.{Stamp, chosen, save}

-- The `except` of the loaders.
abbrev pub or_default {ℓ} : {A : Type ℓ} → A → Option A → A
or_default default none = default
or_default default (some a) = a

-- `type(self._llm)`
pub data Vendor : Type 0 where
  openai cohere google unlisted : Vendor

module _ (table : Table) {A : Type 0} (build : String → Model → Option A) (default : A) where
  -- Inside the `try`: a missing configuration raises too.
  abbrev pub configured : String → Option Setting → A
  configured class_name none = default
  configured class_name (some config) = or_default default (build class_name config.value)

  -- A selection without a name raises before the `try`.
  abbrev pub configured_by : Option String → table.Store → Option A
  configured_by none db = none
  configured_by (some class_name) db =
      some (configured class_name (get_setting_by_name table class_name db))

  model_of : Option Setting → table.Store → Option A
  model_of none db = some default
  model_of (some selected) db = configured_by (chosen selected) db

  unfoldable pub load_language_model : table.Store → Option A
  unfolding model_of
  load_language_model db = model_of (get_setting_by_name table "llm_selected" db) db

  -- Without a selection the embedder goes by the language model's vendor; `of_vendor` builds it, and
  -- may raise.
  by_vendor : (Vendor → Option A) → Vendor → Option A
  by_vendor of_vendor openai = of_vendor openai
  by_vendor of_vendor cohere = of_vendor cohere
  by_vendor of_vendor google = of_vendor google
  by_vendor of_vendor unlisted = some default

  embedder_of : (Vendor → Option A) → Vendor → Option Setting → table.Store → Option A
  unfolding by_vendor
  embedder_of of_vendor vendor none db = by_vendor of_vendor vendor
  embedder_of of_vendor vendor (some selected) db = configured_by (chosen selected) db

  unfoldable pub load_language_embedder : (Vendor → Option A) → Vendor → table.Store → Option A
  unfolding embedder_of
  load_language_embedder of_vendor vendor db =
      embedder_of of_vendor vendor (get_setting_by_name table "embedder_selected" db) db

  -- Without a selection the default one is written first.
  abbrev core_only : Stamp → Stamp → table.Store → table.Store
  core_only stamp stamp' db =
      save table stamp stamp' "auth_handler_factory" "auth_handler_selected" "auth_handler_factory"
        [] "CoreOnlyAuthConfig" db

  handler_of : Option Setting → table.Store → Option A
  handler_of none db = none
  handler_of (some selected) db = configured_by (chosen selected) db

  auth_of : Stamp → Stamp → Option Setting → table.Store → Option A × table.Store
  unfolding handler_of save
  auth_of stamp stamp' none db =
      let db' = core_only stamp stamp' db in
      (handler_of (get_setting_by_name table "auth_handler_selected" db') db', db')
  auth_of stamp stamp' (some selected) db = (handler_of (some selected) db, db)

  unfoldable pub load_auth : Stamp → Stamp → table.Store → Option A × table.Store
  unfolding auth_of
  load_auth stamp stamp' db =
      auth_of stamp stamp' (get_setting_by_name table "auth_handler_selected" db) db

  -- `upsert_authenticator_setting`, up to `load_auth`
  unfoldable pub upsert_authenticator_setting :
      {S : Type 0}
      → Dict S
      → Stamp
      → Stamp
      → String
      → Model
      → table.Store
      → Response (String × Model) × table.Store
  unfolding save
  upsert_authenticator_setting schemas stamp stamp' name payload db =
      if contains name schemas
      then (
        ok (name, payload),
        save table stamp stamp' "auth_handler_factory" "auth_handler_selected"
            "auth_handler_factory" payload name db,
      )
      else (http_error 400, db)
