-- ===== src/Agents/Routes.antt =====
-- core/cat/agents: which agent answers, and which procedures can be run.
use cat_forked.Prelude.{
  String, ◌≡◌, refl, sym, ◌⊎◌, inl, inr, true, Option, none, some, List, [], ◌∷◌, Dict, lookup,
  lookup-insert, insert, mem_of, In, arith, eq_iff, if◌then◌else◌, Bool-cases,
}
use cat_forked.Form.{CatFormState, incomplete, complete, wait_confirm, closed}
use cat_forked.Form.Action.{Turn, pure, gets, ◌>>=◌, bind_rule}
use cat_forked.Agents.Base.{AgentOutput, AgentMemory, no_output, ActiveForm, ProceduralMemory}
use cat_forked.Agents.FormAgent
use cat_forked.Agents.ProceduresAgent
use cat_forked.Agents.ProceduresAgent.{
  Chain, Procedure, name_of, prepare_from, prepare_allowed_procedures,
}

module _ {W : Type 0} where
  prepare_from_sound :
      (ps : List (Procedure W)) (names : List String) (allowed : Dict (Procedure W)) (k : String)
      (p : Procedure W)
      → lookup k (prepare_from ps names allowed) ≡ some p
      → (In p ps × (name_of p ≡ k) × (mem_of k names ≡ true)) ⊎ (lookup k allowed ≡ some p)
  unfolding prepare_from
  prepare_from_sound [] names allowed k p h = inr h
  prepare_from_sound (q ∷ ps) names allowed k p h = ground (
    arith,
    prepare_from_sound ps names
        (if mem_of (name_of q) names then insert (name_of q) q allowed else allowed) k p h,
    lookup-insert (name_of q) k q allowed,
    eq_iff (name_of q) k,
  )

  -- A procedure that is allowed under a name is one of the manager's, has this name, and the name is
  -- one of those that the plugins have left of the recalled ones.
  pub prepare_allowed_procedures_sound :
      (ps : List (Procedure W)) (names : List String) (k : String) (p : Procedure W)
      → lookup k (prepare_allowed_procedures ps names) ≡ some p
      → In p ps × (name_of p ≡ k) × (mem_of k names ≡ true)
  unfolding prepare_allowed_procedures
  prepare_allowed_procedures_sound ps names k p h =
      ground (arith, prepare_from_sound ps names [] k p h)

  abbrev pub Returns : Option AgentOutput × Turn (AgentMemory W) W → Type 0
  Returns (r, t) = (out : AgentOutput) × (r ≡ some out)

  FormAgent-Returns : (t : Turn (AgentMemory W) W) → Returns (FormAgent.execute t)
  unfolding FormAgent.execute
  FormAgent-Returns t = on t.self.active_form
    where
      by : (active : ActiveForm W) (st : CatFormState) → Returns (FormAgent.by_state active st t)
      by active incomplete = (_, refl)
      by active complete = (_, refl)
      by active wait_confirm = (_, refl)
      by active closed = (_, refl)

      on : (active : Option (ActiveForm W)) → Returns (FormAgent.execute_on active t)
      on none = (_, refl)
      on (some active) = by active active.form.state

  after_procedures-Returns :
      (r : Option AgentOutput) (t : Turn (AgentMemory W) W)
      → Returns (ProceduresAgent.after_procedures (r, t))
  unfolding ProceduresAgent.after_procedures
  after_procedures-Returns none t = (no_output, refl)
  after_procedures-Returns (some out) t = (out, ground arith)

  run_procedures-Returns :
      (chain : Chain W) (ps : List ProceduralMemory) (t : Turn (AgentMemory W) W)
      → Returns (ProceduresAgent.run_procedures chain ps t)
  unfolding ProceduresAgent.run_procedures
  run_procedures-Returns chain [] t = (no_output, refl)
  run_procedures-Returns chain (p ∷ ps) t =
      let (r, t') = ProceduresAgent.execute_procedures chain t in after_procedures-Returns r t'

  -- The agent for procedures always returns: neither a form, nor a tool, nor the model, nor a
  -- plugin that raises stops the turn there.
  pub ProceduresAgent-Returns :
      (chain : Chain W) (t : Turn (AgentMemory W) W)
      → (out : AgentOutput) × ((ProceduresAgent.execute chain t).0 ≡ some out)
  unfolding ProceduresAgent.execute
  ProceduresAgent-Returns chain t =
      bind_rule FormAgent.execute
        (λ form_output. gets (λ m. m.procedural_memories) >>= λ memories.
          if form_output.return_direct
          then pure form_output
          else ProceduresAgent.run_procedures chain memories)
        t Returns (λ stop. absurd (let (out, e) = FormAgent-Returns t in ground arith))
        (λ form_output _. elim (Bool-cases form_output.return_direct) [
          | inl direct ↦ simp direct (form_output, refl)
          | inr more ↦ simp more (
              run_procedures-Returns chain (FormAgent.execute t).1.self.procedural_memories
                (FormAgent.execute t).1)
        ])

  -- A form in use whose output is to be returned directly has the turn: no procedure is chosen or
  -- run, and its output goes to the user as it is.
  pub ProceduresAgent-form_first :
      (chain : Chain W) (t : Turn (AgentMemory W) W) (out : AgentOutput)
      → (FormAgent.execute t).0 ≡ some out
      → out.return_direct ≡ true
      → ProceduresAgent.execute chain t ≡ FormAgent.execute t
  unfolding ProceduresAgent.execute
  ProceduresAgent-form_first chain t out h direct =
      bind_rule FormAgent.execute
        (λ form_output. gets (λ m. m.procedural_memories) >>= λ memories.
          if form_output.return_direct
          then pure form_output
          else ProceduresAgent.run_procedures chain memories)
        t (λ result. result ≡ FormAgent.execute t) (λ stop. absurd (ground arith))
        (λ form_output e. elim (Bool-cases form_output.return_direct) [
          | inl d ↦ simp d (λ i. (sym e i, (FormAgent.execute t).1))
          | inr more ↦ absurd (ground arith)
        ])
