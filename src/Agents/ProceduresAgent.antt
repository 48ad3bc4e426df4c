-- ===== src/Agents/ProceduresAgent.antt =====
-- core/cat/agents/procedures_agent.py. The hooks and the language model are parameters; `none` is an
-- exception.
use cat_forked.Prelude.{
  String, Bool, false, ◌&&◌, Option, none, some, List, [], ◌∷◌, map, Dict, lookup, insert, mem_of,
  filter_by, ◌==◌, if◌then◌else◌,
}
use cat_forked.Form.{FormClass, new}
use cat_forked.Form.Action.{Turn, pure, gets, world, ◌>>=◌}
use cat_forked.Agents.Base.{
  Text, plain, AgentOutput, no_output, AgentMemory, AgentAct, ProceduralMemory, Step,
}
use cat_forked.Agents.FormAgent

-- `CatTool` and the subclasses of `CatForm`
pub record CatTool (W : Type 0) : Type 0 where
  pub name : String
  pub return_direct : Bool
  pub run : Option String → W → Option String × W

pub data Procedure (W : Type 0) : Type 0 where
  tool : CatTool W → Procedure W
  form : FormClass W → Procedure W

pub record LlmAction : Type 0 where
  pub action : Option String
  pub action_input : Option String

-- `allowed_tools` is the hook `agent_allowed_tools`, with `agent_prompt_instructions` before it;
-- `choose` is `execute_chain`; `procedures` is `mad_hatter.procedures`.
pub record Chain (W : Type 0) : Type 0 where
  pub procedures : List (Procedure W)
  pub allowed_tools : List String → W → Option (List String) × W
  pub choose : Dict (Procedure W) → W → Option LlmAction × W

abbrev pub is_recalled : ProceduralMemory → Bool
is_recalled p =
    mem_of p.kind ("tool" ∷ "form" ∷ [])
    && mem_of p.trigger_type ("description" ∷ "start_example" ∷ [])

-- The set of the sources, as a list.
unfoldable pub get_recalled_procedures_names : List ProceduralMemory → List String
get_recalled_procedures_names ps = map (λ p. p.source) (filter_by is_recalled ps)

-- `AgentOutput(output="")`
abbrev pub empty_output : AgentOutput
empty_output = record { output = some (plain ""); intermediate_steps = []; return_direct = false }

-- `tools_output`, one line for each step
abbrev pub tool_lines : List Step → List (String × Text)
tool_lines = map (λ s. (s.0, s.2))

module _ {W : Type 0} where
  abbrev pub name_of : Procedure W → String
  name_of (tool t) = t.name
  name_of (form f) = f.name

  unfoldable pub prepare_from :
      List (Procedure W) → List String → Dict (Procedure W) → Dict (Procedure W)
  prepare_from [] names allowed = allowed
  prepare_from (p ∷ ps) names allowed =
      prepare_from ps names
        (if mem_of (name_of p) names then insert (name_of p) p allowed else allowed)

  unfoldable pub prepare_allowed_procedures : List (Procedure W) → List String → Dict (Procedure W)
  unfolding prepare_from
  prepare_allowed_procedures ps names = prepare_from ps names []

  tool_output : CatTool W → String → Option String → Option String → AgentOutput
  tool_output t action input none = empty_output
  tool_output t action input (some out) = record {
    output = some (plain out);
    intermediate_steps = (action, input, plain out) ∷ [];
    return_direct = t.return_direct;
  }

  -- A tool that raises gives the empty output.
  unfoldable pub run_chosen : String → Option String → Option (Procedure W) → AgentAct W AgentOutput
  unfolding tool_output FormAgent.execute
  run_chosen action input none t = (some empty_output, t)
  run_chosen action input (some (tool c)) t =
      let (reply, w) = c.run input t.cat in
      (some (tool_output c action input reply), record t { cat = w })
  run_chosen action input (some (form c)) t =
      FormAgent.execute
        (record t { self = record t.self { active_form = some (record { cls = c; form = new }) } })

  unfoldable pub run_action :
      Dict (Procedure W) → Option String → Option String → AgentAct W AgentOutput
  unfolding run_chosen
  run_action allowed none input = pure empty_output
  run_action allowed (some action) input =
      if action == "" then pure empty_output else run_chosen action input (lookup action allowed)

  unfoldable pub execute_subagents : LlmAction → Dict (Procedure W) → AgentAct W AgentOutput
  unfolding run_action
  execute_subagents act allowed = run_action allowed act.action act.action_input

  unfoldable pub execute_procedures : Chain W → AgentAct W AgentOutput
  unfolding get_recalled_procedures_names prepare_allowed_procedures execute_subagents
  execute_procedures chain = do
    memories ← gets (λ m. m.procedural_memories)
    names ← world (chain.allowed_tools (get_recalled_procedures_names memories))
    let allowed = prepare_allowed_procedures chain.procedures names
    act ← world (chain.choose allowed)
    execute_subagents act allowed

  abbrev pub with_tools : List Step → AgentMemory W → AgentMemory W
  with_tools [] m = m
  with_tools (s ∷ ss) m = record m { tools_output = tool_lines (s ∷ ss) }

  -- The `try`: an exception gives `AgentOutput()`.
  unfoldable pub after_procedures :
      Option AgentOutput × Turn (AgentMemory W) W → Option AgentOutput × Turn (AgentMemory W) W
  after_procedures (none, t) = (some no_output, t)
  after_procedures (some out, t) =
      if out.return_direct
      then (some out, t)
      else (some out, record t { self = with_tools out.intermediate_steps t.self })

  unfoldable pub run_procedures : Chain W → List ProceduralMemory → AgentAct W AgentOutput
  unfolding execute_procedures after_procedures
  run_procedures chain [] t = (some no_output, t)
  run_procedures chain (p ∷ ps) t = after_procedures (execute_procedures chain t)

  unfoldable pub execute : Chain W → AgentAct W AgentOutput
  unfolding FormAgent.execute run_procedures
  execute chain = do
    form_output ← FormAgent.execute
    memories ← gets (λ m. m.procedural_memories)
    if form_output.return_direct then pure form_output else run_procedures chain memories
