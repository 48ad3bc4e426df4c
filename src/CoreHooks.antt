-- ===== src/CoreHooks.antt =====
-- core/cat/mad_hatter/core_plugin/hooks: the hooks that the core plugin has, each of priority 0. `T` is the
-- type of the values that are piped, `W` the state of the cat.
pub mod Neutral
mod Tests
use cat_forked.Prelude.{String, List, [], ◌∷◌, Dict, pos}
use cat_forked.MadHatter.Hook.{CatHook, Reply, raised, nothing, value}

module _ {T W : Type 0} where
  -- flow.py
  abbrev pub before_cat_bootstrap : W → Reply T × W
  before_cat_bootstrap cat = (nothing, cat)

  abbrev pub after_cat_bootstrap : W → Reply T × W
  after_cat_bootstrap cat = (nothing, cat)

  abbrev pub before_cat_recalls_memories : W → Reply T × W
  before_cat_recalls_memories cat = (nothing, cat)

  abbrev pub after_cat_recalls_memories : W → Reply T × W
  after_cat_recalls_memories cat = (nothing, cat)

  abbrev pub before_cat_reads_message : T → W → Reply T × W
  before_cat_reads_message user_message_json cat = (value user_message_json, cat)

  abbrev pub cat_recall_query : T → W → Reply T × W
  cat_recall_query user_message cat = (value user_message, cat)

  abbrev pub before_cat_recalls_episodic_memories : T → W → Reply T × W
  before_cat_recalls_episodic_memories episodic_recall_config cat =
      (value episodic_recall_config, cat)

  abbrev pub before_cat_recalls_declarative_memories : T → W → Reply T × W
  before_cat_recalls_declarative_memories declarative_recall_config cat =
      (value declarative_recall_config, cat)

  abbrev pub before_cat_recalls_procedural_memories : T → W → Reply T × W
  before_cat_recalls_procedural_memories procedural_recall_config cat =
      (value procedural_recall_config, cat)

  abbrev pub before_cat_sends_message : T → W → Reply T × W
  before_cat_sends_message message cat = (value message, cat)

  abbrev pub before_cat_stores_episodic_memory : T → W → Reply T × W
  before_cat_stores_episodic_memory doc cat = (value doc, cat)

  abbrev pub fast_reply : T → W → Reply T × W
  fast_reply reply cat = (value reply, cat)

  -- rabbithole.py
  abbrev pub rabbithole_instantiates_parsers : T → W → Reply T × W
  rabbithole_instantiates_parsers file_handlers cat = (value file_handlers, cat)

  abbrev pub rabbithole_instantiates_splitter : T → W → Reply T × W
  rabbithole_instantiates_splitter text_splitter cat = (value text_splitter, cat)

  abbrev pub before_rabbithole_insert_memory : T → W → Reply T × W
  before_rabbithole_insert_memory doc cat = (value doc, cat)

  abbrev pub before_rabbithole_splits_text : T → W → Reply T × W
  before_rabbithole_splits_text docs cat = (value docs, cat)

  abbrev pub after_rabbithole_splitted_text : T → W → Reply T × W
  after_rabbithole_splitted_text chunks cat = (value chunks, cat)

  abbrev pub before_rabbithole_stores_documents : T → W → Reply T × W
  before_rabbithole_stores_documents docs cat = (value docs, cat)

  -- The points are a value of the pipe too.
  abbrev pub after_rabbithole_stored_documents : T → List T → W → Reply T × W
  after_rabbithole_stored_documents source stored_points cat = (nothing, cat)

  -- prompt.py
  abbrev pub agent_prompt_prefix : T → W → Reply T × W
  agent_prompt_prefix prefix cat = (value prefix, cat)

  abbrev pub agent_prompt_instructions : T → W → Reply T × W
  agent_prompt_instructions instructions cat = (value instructions, cat)

  abbrev pub agent_prompt_suffix : T → W → Reply T × W
  agent_prompt_suffix prompt_suffix cat = (value prompt_suffix, cat)

  -- agent.py
  abbrev pub before_agent_starts : T → W → Reply T × W
  before_agent_starts agent_input cat = (value agent_input, cat)

  abbrev pub agent_fast_reply : T → W → Reply T × W
  agent_fast_reply reply cat = (value reply, cat)

  abbrev pub agent_allowed_tools : T → W → Reply T × W
  agent_allowed_tools allowed_tools cat = (value allowed_tools, cat)

  -- A call with other arguments than the function has raises.
  abbrev pub on_cat : (W → Reply T × W) → List T → W → Reply T × W
  on_cat f [] cat = f cat
  on_cat f (tea ∷ args) cat = (raised, cat)

  abbrev pub on_value : (T → W → Reply T × W) → List T → W → Reply T × W
  on_value f (tea ∷ []) cat = f tea cat
  on_value f _ cat = (raised, cat)

  abbrev pub on_values : (T → List T → W → Reply T × W) → List T → W → Reply T × W
  on_values f (tea ∷ arg ∷ []) cat = f tea (arg ∷ []) cat
  on_values f _ cat = (raised, cat)

  -- `@hook(priority=0)`
  abbrev pub hook : String → (List T → W → Reply T × W) → CatHook T W
  hook name function = record {
    name = name;
    priority = pos 0;
    plugin_id = "core_plugin";
    function = function;
  }

  -- The hooks that are called with a value.
  abbrev pub value_hooks : List (CatHook T W)
  value_hooks =
      hook "before_cat_reads_message" (on_value before_cat_reads_message)
      ∷ hook "cat_recall_query" (on_value cat_recall_query)
      ∷ hook "before_cat_recalls_episodic_memories" (on_value before_cat_recalls_episodic_memories)
      ∷ hook "before_cat_recalls_declarative_memories"
          (on_value before_cat_recalls_declarative_memories)
      ∷ hook "before_cat_recalls_procedural_memories"
          (on_value before_cat_recalls_procedural_memories)
      ∷ hook "before_cat_sends_message" (on_value before_cat_sends_message)
      ∷ hook "before_cat_stores_episodic_memory" (on_value before_cat_stores_episodic_memory)
      ∷ hook "fast_reply" (on_value fast_reply)
      ∷ hook "rabbithole_instantiates_parsers" (on_value rabbithole_instantiates_parsers)
      ∷ hook "rabbithole_instantiates_splitter" (on_value rabbithole_instantiates_splitter)
      ∷ hook "before_rabbithole_insert_memory" (on_value before_rabbithole_insert_memory)
      ∷ hook "before_rabbithole_splits_text" (on_value before_rabbithole_splits_text)
      ∷ hook "after_rabbithole_splitted_text" (on_value after_rabbithole_splitted_text)
      ∷ hook "before_rabbithole_stores_documents" (on_value before_rabbithole_stores_documents)
      ∷ hook "agent_prompt_prefix" (on_value agent_prompt_prefix)
      ∷ hook "agent_prompt_instructions" (on_value agent_prompt_instructions)
      ∷ hook "agent_prompt_suffix" (on_value agent_prompt_suffix)
      ∷ hook "before_agent_starts" (on_value before_agent_starts)
      ∷ hook "agent_fast_reply" (on_value agent_fast_reply)
      ∷ hook "agent_allowed_tools" (on_value agent_allowed_tools)
      ∷ []

  -- The hooks that are called with the cat alone.
  abbrev pub cat_hooks : List (CatHook T W)
  cat_hooks =
      hook "before_cat_bootstrap" (on_cat before_cat_bootstrap)
      ∷ hook "after_cat_bootstrap" (on_cat after_cat_bootstrap)
      ∷ hook "before_cat_recalls_memories" (on_cat before_cat_recalls_memories)
      ∷ hook "after_cat_recalls_memories" (on_cat after_cat_recalls_memories)
      ∷ []

  abbrev pub stored_hook : CatHook T W
  stored_hook =
      hook "after_rabbithole_stored_documents" (on_values after_rabbithole_stored_documents)
