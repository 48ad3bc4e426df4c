-- ===== src/Session/StrayCat.antt =====
-- core/cat/looking_glass/stray_cat.py: `__call__` and `run`, one turn of a conversation.
use cat_forked.Prelude.{
  String, Bool, true, false, Option, none, some, List, [], ◌∷◌, within, remove_text, is_some, ◌&&◌,
  if◌then◌else◌,
}
use cat_forked.Form.Action.{Turn, Act, pure, raise, modify, ◌>>=◌, ◌>>◌}
use cat_forked.Session.WorkingMemory.{ConversationMessage, ai, update_history}

pub record WorkingMemory : Type 0 where
  pub history : List ConversationMessage
  pub user_message_json : Option ConversationMessage
  pub model_interactions : List String

-- The websocket's or the request's message.
pub record Incoming : Type 0 where
  pub user_id : String
  pub text : Option String

-- What the hook `fast_reply` gives: nothing, a message, or a text under "output".
pub data FastReply : Type 0 where
  no_reply : FastReply
  message : ConversationMessage → FastReply
  output : String → FastReply

-- What the main agent does: it answers, or raises an exception with a description.
pub data AgentResult : Type 0 where
  answered : String → AgentResult
  failed : String → AgentResult

-- What `__call__` returns.
pub data CatReply : Type 0 where
  chat : ConversationMessage → CatReply
  vector_memory_error : CatReply

abbrev pub CatAct : Type 0 → Type 0 → Type 0
CatAct W A = Act WorkingMemory W A

-- The hooks, the recall, the agent and the long term memory; `none` is an exception. They may
-- change the working memory and the rest of the cat, `W`.
pub record Cat (W : Type 0) : Type 0 where
  pub user_id : String
  pub model_validate : Incoming → Option ConversationMessage
  pub fast_reply : CatAct W FastReply
  pub before_cat_reads_message : ConversationMessage → CatAct W ConversationMessage
  pub recall : CatAct W (Unit {0})
  pub main_agent : CatAct W AgentResult
  pub store_user_message : CatAct W (Unit {0})
  pub before_cat_sends_message : ConversationMessage → CatAct W ConversationMessage

-- "Could not parse LLM output: `"
abbrev pub unparsable : String
unparsable = "Could not parse LLM output: `"

abbrev pub cat_message : String → String → ConversationMessage
cat_message user_id text = record { role = ai; user_id = user_id; who = "AI"; text = some text }

module _ {W : Type 0} (cat : Cat W) where
  abbrev pub validated : Incoming → CatAct W ConversationMessage
  validated m t = (cat.model_validate (record m { user_id = cat.user_id }), t)

  -- An unparsable answer of the model is still an answer; any other exception goes on.
  unfoldable pub output_of : AgentResult → CatAct W String
  output_of (answered text) = pure text
  output_of (failed description) =
      if within unparsable description
      then pure (remove_text "`" (remove_text unparsable description))
      else raise

  abbrev pub finish : ConversationMessage → CatAct W CatReply
  finish final =
      modify (λ m. record m { history = update_history final m.history }) >> pure (chat final)

  abbrev pub store_and_send : String → CatAct W CatReply
  store_and_send text = do
    cat.store_user_message
    final ← cat.before_cat_sends_message (cat_message cat.user_id text)
    finish final

  -- From the agent on.
  unfoldable pub reply : CatAct W CatReply
  unfolding output_of update_history
  reply = do result ← cat.main_agent; text ← output_of result; store_and_send text

  -- The `try` around the recall.
  unfoldable pub recalled :
      Option (Unit {0}) × Turn WorkingMemory W → Option CatReply × Turn WorkingMemory W
  unfolding reply
  recalled (none, t) = (some vector_memory_error, t)
  recalled (some _, t) = reply t

  abbrev pub heard : ConversationMessage → CatAct W CatReply
  heard read t =
      let m = t.self in
      recalled (
        cat.recall (record t {
          self = record m {
            user_message_json = some read;
            history = update_history read m.history;
          };
        }))

  unfoldable pub converse : ConversationMessage → CatAct W CatReply
  unfolding recalled update_history
  converse user_message = do read ← cat.before_cat_reads_message user_message; heard read

  unfoldable pub by_fast_reply : ConversationMessage → FastReply → CatAct W CatReply
  unfolding converse
  by_fast_reply user_message no_reply = converse user_message
  by_fast_reply user_message (message m) = pure (chat m)
  by_fast_reply user_message (output text) = pure (chat (cat_message cat.user_id text))

  abbrev pub begin_turn : ConversationMessage → CatAct W CatReply
  begin_turn user_message =
      modify (λ m. record m { model_interactions = []; user_message_json = some user_message })
      >> (cat.fast_reply >>= by_fast_reply user_message)

  -- `__call__`
  unfoldable pub call : Incoming → CatAct W CatReply
  unfolding by_fast_reply
  call incoming = do user_message ← validated incoming; begin_turn user_message

-- What reaches the client: over http a reply or an error, over the websocket a chat message or an
-- error with the name of an exception.
pub data Delivered : Type 0 where
  returned : CatReply → Delivered
  returned_error : Delivered
  sent_chat : ConversationMessage → Delivered
  sent_attribute_error : Delivered
  sent_error : Delivered

-- The session with what the cache holds for its user. A cache in memory holds the object itself, so
-- what changes the working memory in use changes the cached one; a cache on disk holds a copy.
pub record Session (W : Type 0) : Type 0 where
  pub turn : Turn WorkingMemory W
  pub cached : Option WorkingMemory
  pub holds_object : Bool

-- `WorkingMemory()`
abbrev pub new : WorkingMemory
new = record { history = []; user_message_json = none; model_interactions = [] }

-- `send_chat_message`: a message is dumped and sent; the dictionary of the failed recall has no
-- `model_dump`, which raises.
abbrev pub delivered : Bool → CatReply → Delivered
delivered true reply = returned reply
delivered false (chat m) = sent_chat m
delivered false vector_memory_error = sent_attribute_error

abbrev pub memory_or_new : Option WorkingMemory → WorkingMemory
memory_or_new none = new
memory_or_new (some memory) = memory

module _ {W : Type 0} where
  -- `self.cache.get_value(...) or WorkingMemory()`
  unfoldable pub load_working_memory_from_cache : Session W → Session W
  load_working_memory_from_cache s = record s {
    turn = record s.turn { self = memory_or_new s.cached };
  }

  -- After `__call__`: the cache is written only if it did not raise.
  unfoldable pub conclude :
      Bool → Session W → Option CatReply × Turn WorkingMemory W → Delivered × Session W
  conclude return_message s (none, t) =
      let cached = if s.holds_object && is_some s.cached then some t.self else s.cached in
      (
        if return_message then returned_error else sent_error,
        record s { turn = t; cached = cached },
      )
  conclude return_message s (some reply, t) =
      (delivered return_message reply, record s { turn = t; cached = some t.self })

  -- `run`, after `load_working_memory_from_cache`
  unfoldable pub run : Cat W → Bool → Incoming → Session W → Delivered × Session W
  unfolding call conclude
  run cat return_message incoming s = conclude return_message s (call cat incoming s.turn)

  -- core/cat/routes/websocket/websocket.py: `handle_messages`
  unfoldable pub handle_messages : Cat W → List Incoming → Session W → List Delivered × Session W
  unfolding run load_working_memory_from_cache
  handle_messages cat [] s = ([], s)
  handle_messages cat (user_message ∷ later) s =
      let (sent, s₁) = run cat false user_message (load_working_memory_from_cache s) in
      let (sent_later, s₂) = handle_messages cat later s₁ in (sent ∷ sent_later, s₂)
