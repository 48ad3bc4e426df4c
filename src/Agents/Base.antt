-- ===== src/Agents/Base.antt =====
-- core/cat/agents/base_agent.py, and the part of the working memory that the agents write.
use cat_forked.Prelude.{String, Bool, false, Option, none, List, []}
use cat_forked.Form.{CatForm, FormClass, Output}
use cat_forked.Form.Action.{Act}

-- The text of an output: a tool's or the model's, or what a form answers.
pub data Text : Type 0 where
  plain : String → Text
  of_form : Output → Text

-- `((tool, tool_input), output)`
abbrev pub Step : Type 0
Step = String × Option String × Text

pub record AgentOutput : Type 0 where
  pub output : Option Text
  pub intermediate_steps : List Step
  pub return_direct : Bool

-- `AgentOutput()`
abbrev pub no_output : AgentOutput
no_output = record { output = none; intermediate_steps = []; return_direct = false }

-- A form in use, with its class.
pub record ActiveForm (W : Type 0) : Type 0 where
  pub cls : FormClass W
  pub form : CatForm

-- The metadata of a recalled procedure.
pub record ProceduralMemory : Type 0 where
  pub kind : String
  pub trigger_type : String
  pub source : String

-- `W` is all else that belongs to the cat.
pub record AgentMemory (W : Type 0) : Type 0 where
  pub active_form : Option (ActiveForm W)
  pub procedural_memories : List ProceduralMemory
  pub tools_output : List (String × Text)

abbrev pub AgentAct : Type 0 → Type 0 → Type 0
AgentAct W A = Act (AgentMemory W) W A
