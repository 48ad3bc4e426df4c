-- ===== src/Agents/MainAgent.antt =====
-- core/cat/agents/main_agent.py: `MainAgent.execute`. The hooks and the memory agent are parameters.
use cat_forked.Prelude.{String, Option, none, some, ◌++◌, if◌then◌else◌}
use cat_forked.Form.Action.{pure, gets, world, ◌>>=◌, ◌>>◌}
use cat_forked.Agents.Base.{AgentOutput, AgentMemory, AgentAct}
use cat_forked.Agents.ProceduresAgent
use cat_forked.Agents.ProceduresAgent.{Chain}

-- `before_agent_starts` also stores the agent input; `agent_fast_reply` gives an output where a
-- plugin answers itself; `prompt_parts` are the hooks for the prefix and the suffix; `memory_agent`
-- is `MemoryAgent().execute`, which reads what the tools have put out.
pub record MainHooks (W : Type 0) : Type 0 where
  pub before_agent_starts : W → Option (Unit {0}) × W
  pub agent_fast_reply : W → Option (Option AgentOutput) × W
  pub prompt_parts : W → Option (String × String) × W
  pub memory_agent : AgentMemory W → String × String → W → Option AgentOutput × W

module _ {W : Type 0} (hooks : MainHooks W) (chain : Chain W) where
  unfoldable pub run_memory_agent : String × String → AgentOutput → AgentAct W AgentOutput
  run_memory_agent parts procedures_out = do
    memory ← gets (λ m. m)
    memory_out ← world (hooks.memory_agent memory parts)
    pure (record memory_out {
      intermediate_steps = memory_out.intermediate_steps ++ procedures_out.intermediate_steps;
    })

  unfoldable pub run_agents : Option AgentOutput → AgentAct W AgentOutput
  unfolding run_memory_agent ProceduresAgent.execute
  run_agents (some fast) = pure fast
  run_agents none = do
    parts ← world hooks.prompt_parts
    procedures_out ← ProceduresAgent.execute chain
    if procedures_out.return_direct
        then pure procedures_out
        else run_memory_agent parts procedures_out

  unfoldable pub execute : AgentAct W AgentOutput
  unfolding run_agents
  execute = do world hooks.before_agent_starts; fast ← world hooks.agent_fast_reply; run_agents fast
