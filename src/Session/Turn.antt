-- ===== src/Session/Turn.antt =====
-- core/cat/looking_glass/stray_cat.py: what one turn of a conversation leaves in the history.
use cat_forked.Prelude.{
  ◌≡◌, refl, sym, ap, ◌∙◌, Option, none, some, List, [], within, ◌⊎◌, inl, inr, Bool-cases,
}
use mathlib.Core.Path.{subst}
use cat_forked.Form.Action.{Turn, ◌>>=◌, bind_rule, after_outcome}
use cat_forked.Session.WorkingMemory.{ConversationMessage, update_history}
use cat_forked.Session.StrayCat.{
  WorkingMemory, Incoming, FastReply, no_reply, AgentResult, answered, failed, CatReply, chat,
  vector_memory_error, Cat, CatAct, cat_message, finish, store_and_send, heard, begin_turn,
  unparsable, validated, output_of, reply, recalled, converse, by_fast_reply, call,
}

-- The history after a turn that no fast reply cut short, by what the turn returned: an answer
-- leaves the message that was read, of which `IsRead` holds, and the answer, in this order, at the end.
abbrev pub TurnHistory :
    (ConversationMessage → Type 0)
    → List ConversationMessage
    → Option CatReply
    → List ConversationMessage
    → Type 0
TurnHistory IsRead h (some (chat final)) h' =
    (read : ConversationMessage) × IsRead read × (h' ≡ update_history final (update_history read h))
TurnHistory IsRead h (some vector_memory_error) h' =
    (read : ConversationMessage) × IsRead read × (h' ≡ update_history read h)
TurnHistory IsRead h none h' =
    (h' ≡ h) ⊎ ((read : ConversationMessage) × IsRead read × (h' ≡ update_history read h))

-- The history after the agent's part of a turn.
abbrev ReplyHistory : List ConversationMessage → Option CatReply → List ConversationMessage → Type 0
ReplyHistory h (some (chat final)) h' = h' ≡ update_history final h
ReplyHistory h (some vector_memory_error) h' = h' ≡ h
ReplyHistory h none h' = h' ≡ h

reply-turn :
    (IsRead : ConversationMessage → Type 0) (h h' : List ConversationMessage)
    (read : ConversationMessage) (r : Option CatReply)
    → IsRead read
    → ReplyHistory (update_history read h) r h'
    → TurnHistory IsRead h r h'
reply-turn IsRead h h' read none is_read e = inr (read, is_read, e)
reply-turn IsRead h h' read (some (chat m)) is_read e = (read, is_read, e)
reply-turn IsRead h h' read (some vector_memory_error) is_read e = (read, is_read, e)

module _ {W : Type 0} where
  -- A step that leaves the history alone.
  abbrev pub KeepsHistory : {A : Type 0} → CatAct W A → Type 0
  KeepsHistory act = (t : Turn WorkingMemory W) → (act t).1.self.history ≡ t.self.history

  -- The plugins, the recall and the agent do not write the history themselves.
  pub record IsQuiet (cat : Cat W) : Type 0 where
    pub fast_reply_keeps : KeepsHistory cat.fast_reply
    pub reading_keeps : (m : ConversationMessage) → KeepsHistory (cat.before_cat_reads_message m)
    pub recall_keeps : KeepsHistory cat.recall
    pub agent_keeps : KeepsHistory cat.main_agent
    pub storing_keeps : KeepsHistory cat.store_user_message
    pub sending_keeps : (m : ConversationMessage) → KeepsHistory (cat.before_cat_sends_message m)

  module _ (cat : Cat W) (quiet : IsQuiet cat) where
    -- The plugins' reading of `m` gives `read`.
    abbrev ReadFrom : ConversationMessage → Turn WorkingMemory W → ConversationMessage → Type 0
    ReadFrom m t read = (cat.before_cat_reads_message m t).0 ≡ some read

    abbrev AfterReply : List ConversationMessage → Option CatReply × Turn WorkingMemory W → Type 0
    AfterReply h out = ReplyHistory h out.0 out.1.self.history

    output_of-state : (a : AgentResult) (t : Turn WorkingMemory W) → (output_of cat a t).1 ≡ t
    unfolding output_of
    output_of-state (answered text) t = refl
    output_of-state (failed d) t = elim (Bool-cases (within unparsable d)) [
      | inl parsed ↦ rw parsed refl
      | inr other ↦ rw other refl
    ]

    reply-AfterReply : (t : Turn WorkingMemory W) → AfterReply t.self.history (reply cat t)
    unfolding reply
    reply-AfterReply t =
        let h = t.self.history in
        let t₁ = (cat.main_agent t).1 in
        let P : Option CatReply × Turn WorkingMemory W → Type 0 = λ out. AfterReply h out in
        bind_rule cat.main_agent (λ a. output_of cat a >>= store_and_send cat) t P
          (λ _. quiet.agent_keeps t)
          (λ result _.
            let t₂ = (output_of cat result t₁).1 in
            let e₂ : t₂.self.history ≡ h =
              ap (λ (x : Turn WorkingMemory W). x.self.history) (output_of-state result t₁)
              ∙ quiet.agent_keeps t in
            bind_rule (output_of cat result) (store_and_send cat) t₁ P (λ _. e₂)
              (λ text _.
                let send =
                  cat.before_cat_sends_message (cat_message cat.user_id text) >>= finish cat in
                let t₃ = (cat.store_user_message t₂).1 in
                let e₃ : t₃.self.history ≡ h = quiet.storing_keeps t₂ ∙ e₂ in
                bind_rule cat.store_user_message (λ _. send) t₂ P (λ _. e₃)
                  (λ _ _.
                    let e₄ = quiet.sending_keeps (cat_message cat.user_id text) t₃ ∙ e₃ in
                    bind_rule (cat.before_cat_sends_message (cat_message cat.user_id text))
                      (finish cat) t₃ P (λ _. e₄) (λ final _. ap (update_history final) e₄))))

    recalled-AfterReply :
        (out : Option (Unit {0}) × Turn WorkingMemory W)
        → AfterReply out.1.self.history (recalled cat out)
    unfolding recalled
    recalled-AfterReply (none, t) = refl
    recalled-AfterReply (some _, t) = reply-AfterReply t

    converse-After :
        (m : ConversationMessage) (t : Turn WorkingMemory W)
        → let out = converse cat m t in
          TurnHistory (ReadFrom m t) t.self.history out.0 out.1.self.history
    unfolding converse
    converse-After m t =
        bind_rule (cat.before_cat_reads_message m) (heard cat) t
          (λ out. TurnHistory (ReadFrom m t) t.self.history out.0 out.1.self.history)
          (λ _. inl (quiet.reading_keeps m t))
          (λ read is_read.
            let t₁ = (cat.before_cat_reads_message m t).1 in
            let read_in : WorkingMemory = record t₁.self {
              user_message_json = some read;
              history = update_history read t₁.self.history;
            } in
            let t₂ : Turn WorkingMemory W = record t₁ { self = read_in } in
            let out = recalled cat (cat.recall t₂) in
            reply-turn (ReadFrom m t) t.self.history out.1.self.history read out.0 is_read (
              subst (λ (g : List ConversationMessage). AfterReply g out)
                (quiet.recall_keeps t₂ ∙ ap (update_history read) (quiet.reading_keeps m t))
                (recalled-AfterReply (cat.recall t₂))))

  -- The plugins give no fast reply.
  abbrev pub GivesNoFastReply : Cat W → Type 0
  GivesNoFastReply cat = (t : Turn WorkingMemory W) → (cat.fast_reply t).0 ≡ some no_reply

  -- The turn at the start of a reading: the request is validated, the last interactions are forgotten, and
  -- the plugins were asked for a fast reply.
  abbrev pub reading_from :
      Cat W → ConversationMessage → Turn WorkingMemory W → Turn WorkingMemory W
  reading_from cat m t =
      (cat.fast_reply (record t {
        self = record t.self { model_interactions = []; user_message_json = some m };
      })).1

  -- `read` is what the plugins make of the validated message.
  abbrev pub IsReadFrom : Cat W → Incoming → Turn WorkingMemory W → ConversationMessage → Type 0
  IsReadFrom cat incoming t read =
      (m : ConversationMessage) × (cat.model_validate (record incoming { user_id = cat.user_id })
        ≡ some m)
      × ((cat.before_cat_reads_message m (reading_from cat m t)).0 ≡ some read)

  IsReadFrom-TurnHistory :
      (cat : Cat W) (incoming : Incoming) (t : Turn WorkingMemory W) (m : ConversationMessage)
      (h h' : List ConversationMessage) (r : Option CatReply)
      → cat.model_validate (record incoming { user_id = cat.user_id }) ≡ some m
      → TurnHistory
          (λ read. (cat.before_cat_reads_message m (reading_from cat m t)).0 ≡ some read)
          h
          r
          h'
      → TurnHistory (IsReadFrom cat incoming t) h r h'
  IsReadFrom-TurnHistory cat incoming t m h h' none valid (inl e) = inl e
  IsReadFrom-TurnHistory cat incoming t m h h' none valid (inr (read, is_read, e)) =
      inr (read, (m, valid, is_read), e)
  IsReadFrom-TurnHistory cat incoming t m h h' (some (chat final)) valid (read, is_read, e) =
      (read, (m, valid, is_read), e)
  IsReadFrom-TurnHistory cat incoming t m h h' (some vector_memory_error) valid (read, is_read, e) =
      (read, (m, valid, is_read), e)

  -- Where no plugin replies fast and none writes the history, a turn of `__call__` that returns a
  -- chat message has put the message that was read and then this answer at the end of the history,
  -- one that returns the recall error only the message that was read, and one that raises at most
  -- this message. The message that was read is what the plugins' reading hooks make of the validated
  -- request.
  pub call-TurnHistory :
      (cat : Cat W) (incoming : Incoming) (t : Turn WorkingMemory W)
      → IsQuiet cat
      → GivesNoFastReply cat
      → TurnHistory
          (IsReadFrom cat incoming t)
          t.self.history
          (call cat incoming t).0
          (call cat incoming t).1.self.history
  unfolding call by_fast_reply
  call-TurnHistory cat incoming t quiet slow =
      bind_rule (validated cat incoming) (begin_turn cat) t
        (λ out. TurnHistory (IsReadFrom cat incoming t) t.self.history out.0 out.1.self.history)
        (λ _. inl refl)
        (λ m valid.
          let t₁ : Turn WorkingMemory W = record t {
            self = record t.self { model_interactions = []; user_message_json = some m };
          } in
          let t₂ = (cat.fast_reply t₁).1 in
          let out = converse cat m t₂ in
          let P : Option CatReply × Turn WorkingMemory W → Type 0 =
            λ o. TurnHistory (IsReadFrom cat incoming t) t.self.history o.0 o.1.self.history in
          subst (λ (o : Option FastReply). P (after_outcome (o, t₂) (by_fast_reply cat m)))
            (sym (slow t₁))
            (IsReadFrom-TurnHistory cat incoming t m t.self.history out.1.self.history out.0 valid (
              subst
                (λ (g : List ConversationMessage).
                  TurnHistory (λ read. (cat.before_cat_reads_message m t₂).0 ≡ some read) g out.0
                    out.1.self.history)
                (quiet.fast_reply_keeps t₁) (converse-After cat quiet m t₂))))
