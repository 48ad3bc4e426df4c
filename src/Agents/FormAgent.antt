-- ===== src/Agents/FormAgent.antt =====
-- core/cat/agents/form_agent.py
use cat_forked.Prelude.{String, true, Option, none, some, [], ◌∷◌}
use cat_forked.Form.{CatFormState, incomplete, complete, wait_confirm, closed, Output, next}
use cat_forked.Agents.Base.{AgentOutput, no_output, ActiveForm, AgentAct, of_form}

answered : String → Option Output → AgentOutput
answered name none = no_output
answered name (some out) = record {
  output = some (of_form out);
  intermediate_steps = (name, some "", of_form out) ∷ [];
  return_direct = true;
}

module _ {W : Type 0} where
  continue_form : ActiveForm W → AgentAct W AgentOutput
  unfolding answered
  continue_form active t =
      let (reply, t') = next active.cls (record { self = active.form; cat = t.cat }) in
      (
        some (answered active.cls.name reply),
        record {
          self = record t.self { active_form = some (record active { form = t'.self }) };
          cat = t'.cat;
        },
      )

  unfoldable pub by_state : ActiveForm W → CatFormState → AgentAct W AgentOutput
  unfolding continue_form
  by_state active closed t =
      (some no_output, record t { self = record t.self { active_form = none } })
  by_state active incomplete t = continue_form active t
  by_state active complete t = continue_form active t
  by_state active wait_confirm t = continue_form active t

  unfoldable pub execute_on : Option (ActiveForm W) → AgentAct W AgentOutput
  unfolding by_state
  execute_on none t = (some no_output, t)
  execute_on (some active) t = by_state active active.form.state t

  unfoldable pub execute : AgentAct W AgentOutput
  unfolding execute_on
  execute t = execute_on t.self.active_form t
