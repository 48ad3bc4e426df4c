-- ===== src/MadHatter/Plugin.antt =====
-- core/cat/mad_hatter/plugin.py: activation and deactivation of one plugin.
use cat_forked.Prelude.{String, Bool, true, false, List, [], map, if◌then◌else◌, not}
use cat_forked.MadHatter.Hook.{CatHook}

-- What the decorators left in a plugin's modules.
pub record Decorated (T W : Type 0) : Type 0 where
  pub hooks : List (CatHook T W)
  pub tools : List String
  pub forms : List String
  pub endpoints : List String

pub record Plugin (T W : Type 0) : Type 0 where
  pub id : String
  pub path : String
  pub active : Bool
  pub hooks : List (CatHook T W)
  pub tools : List String
  pub forms : List String
  pub endpoints : List String

-- What the folder of a plugin and pip make of a call, by the plugin's id. `requirements` says
-- whether `_install_requirements` returns, `settings` whether the creation of settings.json does,
-- `activated` and `deactivated` whether the plugin's own functions of these names do, where it has
-- them.
pub record Disk (T W : Type 0) : Type 0 where
  pub decorated : String → Decorated T W
  pub requirements : String → Bool
  pub settings : String → Bool
  pub activated : String → Bool
  pub deactivated : String → Bool

module _ {T W : Type 0} where
  -- `Plugin.__init__`: a plugin starts deactivated.
  abbrev pub new : String → String → Plugin T W
  new id path = record {
    id = id;
    path = path;
    active = false;
    hooks = [];
    tools = [];
    forms = [];
    endpoints = [];
  }

  -- `_clean_hook`
  unfoldable pub clean_hook : String → CatHook T W → CatHook T W
  clean_hook id h = record h { plugin_id = id }

  unfoldable pub load_decorated_functions : Decorated T W → Plugin T W → Plugin T W
  unfolding clean_hook
  load_decorated_functions d p = record p {
    hooks = map (clean_hook p.id) d.hooks;
    tools = d.tools;
    forms = d.forms;
    endpoints = d.endpoints;
  }

  -- Whether the call returns, and the plugin as it is left, also when the call raises.
  unfoldable pub activate : Disk T W → Plugin T W → Bool × Plugin T W
  unfolding load_decorated_functions
  activate disk p =
      let loaded = load_decorated_functions (disk.decorated p.id) p in
      if not (disk.requirements p.id)
      then (false, p)
      else if not (disk.settings p.id)
      then (false, loaded)
      else (disk.activated p.id, record loaded { active = true })

  unfoldable pub deactivate : Disk T W → Plugin T W → Bool × Plugin T W
  deactivate disk p =
      if not (disk.deactivated p.id)
      then (false, p)
      else (true, record p { active = false; hooks = []; tools = []; forms = []; endpoints = [] })
