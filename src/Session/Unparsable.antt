-- ===== src/Session/Unparsable.antt =====
-- core/cat/looking_glass/stray_cat.py: a turn whose answer the agent cannot parse.
use Prim.Native.String.{◌++◌ as text_append}
use cat_forked.Prelude.{
  String, ◌≡◌, refl, sym, ap, ◌∙◌, Bool, true, false, Option, none, some, [], within, remove_text,
  remove_text-append, remove_text-absent, within-append,
}
use cat_forked.Form.Action.{Turn, pure, ◌>>=◌, ◌>>◌, bind-cong, bind_assoc}
use cat_forked.Session.WorkingMemory.{ConversationMessage, update_history}
use cat_forked.Session.StrayCat.{
  WorkingMemory, Incoming, FastReply, no_reply, message, output, AgentResult, answered, failed,
  CatReply, Cat, CatAct, store_and_send, heard, begin_turn, unparsable, validated, output_of, reply,
  recalled, converse, by_fast_reply, call, Session, conclude, run,
}

module _ {W : Type 0} where
  -- The user's id in the message does not matter: the turn runs for the user of the session.
  pub run-user_id :
      (cat : Cat W) (return_message : Bool) (incoming : Incoming) (id : String) (s : Session W)
      → run cat return_message (record incoming { user_id = id }) s
        ≡ run cat return_message incoming s
  unfolding run call
  run-user_id cat return_message incoming id s = refl

  abbrev pub with_agent : Cat W → CatAct W AgentResult → Cat W
  with_agent cat agent = record cat { main_agent = agent }

  -- An agent that does its work and then gives this result.
  abbrev pub ending : CatAct W (Unit {0}) → AgentResult → CatAct W AgentResult
  ending work result = work >> pure result

  output_of-unparsable :
      (cat : Cat W) (text : String)
      → within unparsable text ≡ false
      → output_of cat (failed (text_append unparsable text)) ≡ pure (remove_text "`" text)
  unfolding output_of
  output_of-unparsable cat text h =
      let found : within unparsable (text_append unparsable text) ≡ true =
        within-append "C" "ould not parse LLM output: `" text in
      let rest : remove_text unparsable (text_append unparsable text) ≡ text =
        remove_text-append "C" "ould not parse LLM output: `" text
        ∙ remove_text-absent unparsable text h in
      rw found (rw rest refl)

  -- Turns that agree from the agent on agree.
  module _ (cat : Cat W) (f g : CatAct W AgentResult)
      (same : (t : Turn WorkingMemory W)
        → reply (with_agent cat f) t ≡ reply (with_agent cat g) t) where
    recalled-same :
        (out : Option (Unit {0}) × Turn WorkingMemory W)
        → recalled (with_agent cat f) out ≡ recalled (with_agent cat g) out
    unfolding recalled
    recalled-same (none, t) = refl
    recalled-same (some _, t) = same t

    by_fast_reply-same :
        (m : ConversationMessage) (fast : FastReply) (t : Turn WorkingMemory W)
        → by_fast_reply (with_agent cat f) m fast t ≡ by_fast_reply (with_agent cat g) m fast t
    unfolding by_fast_reply converse
    by_fast_reply-same m no_reply t =
        bind-cong (cat.before_cat_reads_message m) (heard (with_agent cat f))
          (heard (with_agent cat g))
          (λ read t₁.
            let read_in : WorkingMemory = record t₁.self {
              user_message_json = some read;
              history = update_history read t₁.self.history;
            } in
            recalled-same (cat.recall (record t₁ { self = read_in })))
          t
    by_fast_reply-same m (message a) t = refl
    by_fast_reply-same m (output a) t = refl

    call-same :
        (incoming : Incoming) (t : Turn WorkingMemory W)
        → call (with_agent cat f) incoming t ≡ call (with_agent cat g) incoming t
    unfolding call
    call-same incoming t =
        bind-cong (validated cat incoming) (begin_turn (with_agent cat f))
          (begin_turn (with_agent cat g))
          (λ m t₁.
            bind-cong cat.fast_reply (by_fast_reply (with_agent cat f) m)
              (by_fast_reply (with_agent cat g) m) (by_fast_reply-same m)
              (record t₁ {
                self = record t₁.self { model_interactions = []; user_message_json = some m };
              }))
          t

  reply-unparsable :
      (cat : Cat W) (work : CatAct W (Unit {0})) (text : String)
      → within unparsable text ≡ false
      → (t : Turn WorkingMemory W)
      → reply (with_agent cat (ending work (failed (text_append unparsable text)))) t
        ≡ reply (with_agent cat (ending work (answered (remove_text "`" text)))) t
  unfolding reply
  reply-unparsable cat work text h t =
      let answer : AgentResult → CatAct W CatReply = λ a. output_of cat a >>= store_and_send cat in
      let give : AgentResult → Unit {0} → CatAct W AgentResult = λ a _. pure a in
      let fails = failed (text_append unparsable text) in
      let answers = answered (remove_text "`" text) in
      bind_assoc work (give fails) answer t
      ∙ bind-cong work (λ _. answer fails) (λ _. answer answers)
          (λ _ t₁.
            ap (λ (act : CatAct W String). (act >>= store_and_send cat) t₁)
              (output_of-unparsable cat text h))
          t
      ∙ sym (bind_assoc work (give answers) answer t)

  -- A turn in which the agent fails since it cannot parse the model's text, where this text does
  -- not hold the error's own words, goes as the turn in which the agent answers that text without
  -- its backticks.
  pub run-unparsable :
      (cat : Cat W) (work : CatAct W (Unit {0})) (text : String) (return_message : Bool)
      (incoming : Incoming) (s : Session W)
      → within unparsable text ≡ false
      → run
          (with_agent cat (ending work (failed (text_append unparsable text))))
          return_message
          incoming
          s
        ≡ run
            (with_agent cat (ending work (answered (remove_text "`" text))))
            return_message
            incoming
            s
  unfolding run
  run-unparsable cat work text return_message incoming s h = ap (conclude return_message s) (
      call-same cat (ending work (failed (text_append unparsable text)))
        (ending work (answered (remove_text "`" text))) (reply-unparsable cat work text h) incoming
        s.turn)
