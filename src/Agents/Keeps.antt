-- ===== src/Agents/Keeps.antt =====
-- core/cat/agents: what the agents do to the form in use.
use cat_forked.Prelude.{
  String, Option, none, some, List, [], ◌∷◌, ◌++◌, Dict, lookup, if◌then◌else◌, Bool-cases, inl,
  inr, ◌==◌,
}
use cat_forked.Form.{CatFormState, incomplete, complete, wait_confirm, closed, new}
use cat_forked.Form.Action.{Turn, pure, gets, world, ◌>>=◌, bind_rule}
use cat_forked.Form.States.{Settled, next-Good}
use cat_forked.Agents.Base.{AgentOutput, ActiveForm, AgentMemory, Step, ProceduralMemory}
use cat_forked.Agents.FormAgent
use cat_forked.Agents.ProceduresAgent
use cat_forked.Agents.ProceduresAgent.{Chain, Procedure, tool, form}
use cat_forked.Agents.MainAgent
use cat_forked.Agents.MainAgent.{MainHooks}

module _ {W : Type 0} where
  abbrev pub FormSettled : Option (ActiveForm W) → Type 0
  FormSettled none = Unit
  FormSettled (some active) = Settled active.cls active.form

  abbrev pub IsInOrder : AgentMemory W → Type 0
  IsInOrder m = FormSettled m.active_form

  abbrev Kept : Option AgentOutput × Turn (AgentMemory W) W → Type 0
  Kept (r, t) = IsInOrder t.self

  by_state-Kept :
      (active : ActiveForm W) (st : CatFormState) (t : Turn (AgentMemory W) W)
      → Settled active.cls active.form
      → Kept (FormAgent.by_state active st t)
  unfolding FormAgent.by_state
  by_state-Kept active closed t h = tt
  by_state-Kept active incomplete t h =
      (next-Good active.cls (record { self = active.form; cat = t.cat }) h).0
  by_state-Kept active complete t h =
      (next-Good active.cls (record { self = active.form; cat = t.cat }) h).0
  by_state-Kept active wait_confirm t h =
      (next-Good active.cls (record { self = active.form; cat = t.cat }) h).0

  execute_on-Kept :
      (active : Option (ActiveForm W)) (t : Turn (AgentMemory W) W)
      → IsInOrder t.self
      → FormSettled active
      → Kept (FormAgent.execute_on active t)
  unfolding FormAgent.execute_on
  execute_on-Kept none t h k = h
  execute_on-Kept (some active) t h k = by_state-Kept active active.form.state t k

  pub FormAgent-Kept : (t : Turn (AgentMemory W) W) → IsInOrder t.self → Kept (FormAgent.execute t)
  unfolding FormAgent.execute
  FormAgent-Kept t h = execute_on-Kept t.self.active_form t h h

  run_chosen-Kept :
      (action : String) (input : Option String) (p : Option (Procedure W))
      (t : Turn (AgentMemory W) W)
      → IsInOrder t.self
      → Kept (ProceduresAgent.run_chosen action input p t)
  unfolding ProceduresAgent.run_chosen
  run_chosen-Kept action input none t h = h
  run_chosen-Kept action input (some (tool c)) t h = h
  run_chosen-Kept action input (some (form c)) t h =
      FormAgent-Kept
        (record t { self = record t.self { active_form = some (record { cls = c; form = new }) } })
        (tt {0})

  run_action-Kept :
      (allowed : Dict (Procedure W)) (action input : Option String) (t : Turn (AgentMemory W) W)
      → IsInOrder t.self
      → Kept (ProceduresAgent.run_action allowed action input t)
  unfolding ProceduresAgent.run_action
  run_action-Kept allowed none input t h = h
  run_action-Kept allowed (some action) input t h = elim (Bool-cases (action == "")) [
    | inl blank ↦ rw blank h
    | inr named ↦ rw named (run_chosen-Kept action input (lookup action allowed) t h)
  ]

  execute_procedures-Kept :
      (chain : Chain W) (t : Turn (AgentMemory W) W)
      → IsInOrder t.self
      → Kept (ProceduresAgent.execute_procedures chain t)
  unfolding ProceduresAgent.execute_procedures
  execute_procedures-Kept chain t h =
      bind_rule
        (world (
          chain.allowed_tools
            (ProceduresAgent.get_recalled_procedures_names t.self.procedural_memories)))
        (λ names.
          world (chain.choose (ProceduresAgent.prepare_allowed_procedures chain.procedures names))
          >>= λ act.
              ProceduresAgent.execute_subagents act
                (ProceduresAgent.prepare_allowed_procedures chain.procedures names))
        t Kept (λ _. h)
        (λ names _.
          let allowed = ProceduresAgent.prepare_allowed_procedures chain.procedures names in
          let asked =
            (chain.allowed_tools
              (ProceduresAgent.get_recalled_procedures_names t.self.procedural_memories) t.cat).1 in
          bind_rule (world (chain.choose allowed))
            (λ act. ProceduresAgent.execute_subagents act allowed) (record t { cat = asked }) Kept
            (λ _. h)
            (λ act _.
              run_action-Kept allowed act.action act.action_input
                (record t { cat = (chain.choose allowed asked).1 }) h))

  with_tools-IsInOrder :
      (steps : List Step) (m : AgentMemory W)
      → IsInOrder m
      → IsInOrder (ProceduresAgent.with_tools steps m)
  with_tools-IsInOrder [] m h = h
  with_tools-IsInOrder (s ∷ ss) m h = h

  after_procedures-Kept :
      (r : Option AgentOutput) (t : Turn (AgentMemory W) W)
      → IsInOrder t.self
      → Kept (ProceduresAgent.after_procedures (r, t))
  unfolding ProceduresAgent.after_procedures
  after_procedures-Kept none t h = h
  after_procedures-Kept (some out) t h = elim (Bool-cases out.return_direct) [
    | inl direct ↦ rw direct h
    | inr more ↦ rw more (with_tools-IsInOrder out.intermediate_steps t.self h)
  ]

  run_procedures-Kept :
      (chain : Chain W) (ps : List ProceduralMemory) (t : Turn (AgentMemory W) W)
      → IsInOrder t.self
      → Kept (ProceduresAgent.run_procedures chain ps t)
  unfolding ProceduresAgent.run_procedures
  run_procedures-Kept chain [] t h = h
  run_procedures-Kept chain (p ∷ ps) t h =
      let (r, t') = ProceduresAgent.execute_procedures chain t in
      after_procedures-Kept r t' (execute_procedures-Kept chain t h)

  ProceduresAgent-Kept :
      (chain : Chain W) (t : Turn (AgentMemory W) W)
      → IsInOrder t.self
      → Kept (ProceduresAgent.execute chain t)
  unfolding ProceduresAgent.execute
  ProceduresAgent-Kept chain t h =
      bind_rule FormAgent.execute
        (λ form_output. gets (λ m. m.procedural_memories) >>= λ memories.
          if form_output.return_direct
          then pure form_output
          else ProceduresAgent.run_procedures chain memories)
        t Kept (λ _. FormAgent-Kept t h)
        (λ form_output _.
          let t' = (FormAgent.execute t).1 in
          elim (Bool-cases form_output.return_direct) [
            | inl direct ↦ rw direct (FormAgent-Kept t h)
            | inr more ↦
                rw more
                  (run_procedures-Kept chain t'.self.procedural_memories t' (FormAgent-Kept t h))
          ])

  run_agents-Kept :
      (hooks : MainHooks W) (chain : Chain W) (fast : Option AgentOutput)
      (t : Turn (AgentMemory W) W)
      → IsInOrder t.self
      → Kept (MainAgent.run_agents hooks chain fast t)
  unfolding MainAgent.run_agents MainAgent.run_memory_agent
  run_agents-Kept hooks chain (some out) t h = h
  run_agents-Kept hooks chain none t h =
      bind_rule (world hooks.prompt_parts)
        (λ parts. ProceduresAgent.execute chain >>= λ out.
          if out.return_direct then pure out else MainAgent.run_memory_agent hooks chain parts out)
        t Kept (λ _. h)
        (λ parts _.
          let t₁ : Turn (AgentMemory W) W = record t { cat = (hooks.prompt_parts t.cat).1 } in
          let t₂ = (ProceduresAgent.execute chain t₁).1 in
          let kept = ProceduresAgent-Kept chain t₁ h in
          bind_rule (ProceduresAgent.execute chain)
            (λ out.
              if out.return_direct
              then pure out
              else MainAgent.run_memory_agent hooks chain parts out)
            t₁ Kept (λ _. kept)
            (λ out _. elim (Bool-cases out.return_direct) [
              | inl direct ↦ rw direct kept
              | inr more ↦ rw more (
                  bind_rule (world (hooks.memory_agent t₂.self parts))
                    (λ memory_out. pure (record memory_out {
                      intermediate_steps = memory_out.intermediate_steps ++ out.intermediate_steps;
                    }))
                    t₂ Kept (λ _. kept) (λ _ _. kept))
            ]))

  -- Where the form in use is not `complete`, and holds valid data if it waits for a confirmation,
  -- the same is true after a turn of the main agent, whatever the model, the tools and the
  -- plugins answer or raise.
  pub MainAgent-IsInOrder :
      (hooks : MainHooks W) (chain : Chain W) (t : Turn (AgentMemory W) W)
      → IsInOrder t.self
      → IsInOrder (MainAgent.execute hooks chain t).1.self
  unfolding MainAgent.execute
  MainAgent-IsInOrder hooks chain t h =
      bind_rule (world hooks.before_agent_starts)
        (λ _. world hooks.agent_fast_reply >>= MainAgent.run_agents hooks chain) t Kept (λ _. h)
        (λ _ _.
          let t₁ : Turn (AgentMemory W) W = record t {
            cat = (hooks.before_agent_starts t.cat).1;
          } in
          bind_rule (world hooks.agent_fast_reply) (MainAgent.run_agents hooks chain) t₁ Kept
            (λ _. h)
            (λ fast _.
              run_agents-Kept hooks chain fast
                (record t { cat = (hooks.agent_fast_reply t₁.cat).1 }) h))
