-- ===== src/Agents/Tests.antt =====
-- A turn with one tool and one form.
use cat_forked.Prelude.{ℕ, suc, ◌≡◌, refl, true, none, some, [], ◌∷◌, mem_of, In}
use cat_forked.Form.{FormClass, new, next, object, wait_confirm, submitted}
use cat_forked.Form.Action.{Turn}
use cat_forked.Agents.Base.{AgentOutput, AgentMemory, no_output, plain, of_form}
use cat_forked.Agents.FormAgent
use cat_forked.Agents.ProceduresAgent
use cat_forked.Agents.ProceduresAgent.{
  CatTool, Procedure, tool, form, Chain, name_of, prepare_allowed_procedures,
}
use cat_forked.Agents.MainAgent
use cat_forked.Agents.MainAgent.{MainHooks}
use cat_forked.Agents.Keeps.{IsInOrder, MainAgent-IsInOrder}
use cat_forked.Agents.Routes.{
  prepare_allowed_procedures_sound, ProceduresAgent-Returns, ProceduresAgent-form_first,
}

abbrev pizza : FormClass ℕ
pizza = record {
  name = "pizza";
  ask_confirm = true;
  stop_examples = [];
  llm = λ prompt calls. (some "true", suc calls);
  parse_json = λ json_str. object [];
  validation = λ model. some [];
  submit = λ model calls. (some "done", suc calls);
}

abbrev clock : CatTool ℕ
clock = record {
  name = "clock";
  return_direct = true;
  run = λ input calls. (some "noon", suc calls);
}

abbrev chain : Chain ℕ
chain = record {
  procedures = tool clock ∷ form pizza ∷ [];
  allowed_tools = λ names calls. (some names, calls);
  choose =
      λ allowed calls. (some (record { action = some "clock"; action_input = none }), suc calls);
}

abbrev hooks : MainHooks ℕ
hooks = record {
  before_agent_starts = λ calls. (some tt, calls);
  agent_fast_reply = λ calls. (some none, calls);
  prompt_parts = λ calls. (some ("", ""), calls);
  memory_agent =
      λ memory parts calls. (some (record no_output { output = some (plain "hello") }), suc calls);
}

abbrev idle : Turn (AgentMemory ℕ) ℕ
idle = record {
  self = record {
    active_form = none;
    procedural_memories =
        record { kind = "tool"; trigger_type = "description"; source = "clock" } ∷ [];
    tools_output = [];
  };
  cat = 0;
}

abbrev waiting : Turn (AgentMemory ℕ) ℕ
waiting = record idle {
  self = record idle.self {
    active_form = some (record { cls = pizza; form = record new { state = wait_confirm } });
  };
}

-- The tool's answer goes to the user.
clock_answers :
    (ProceduresAgent.execute chain idle).0
    ≡ some (record {
      output = some (plain "noon");
      intermediate_steps = ("clock", none, plain "noon") ∷ [];
      return_direct = true;
    })
unfolding ProceduresAgent.execute
clock_answers = refl

MainAgent-IsInOrder_example : IsInOrder (MainAgent.execute hooks chain waiting).1.self
MainAgent-IsInOrder_example = MainAgent-IsInOrder hooks chain waiting refl

prepare_allowed_procedures_sound_runs :
    In (tool clock) chain.procedures
    × (name_of (tool clock) ≡ "clock")
    × (mem_of "clock" ("clock" ∷ []) ≡ true)
unfolding prepare_allowed_procedures
prepare_allowed_procedures_sound_runs =
    prepare_allowed_procedures_sound chain.procedures ("clock" ∷ []) "clock" (tool clock) refl

ProceduresAgent-Returns_example :
    (out : AgentOutput) × ((ProceduresAgent.execute chain idle).0 ≡ some out)
ProceduresAgent-Returns_example = ProceduresAgent-Returns chain idle

abbrev submits : AgentOutput
submits = record {
  output = some (of_form (submitted [] "done"));
  intermediate_steps = ("pizza", some "", of_form (submitted [] "done")) ∷ [];
  return_direct = true;
}

ProceduresAgent-form_first_runs : ProceduresAgent.execute chain waiting ≡ FormAgent.execute waiting
unfolding FormAgent.execute next
ProceduresAgent-form_first_runs = ProceduresAgent-form_first chain waiting submits refl refl
