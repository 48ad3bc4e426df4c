-- ===== src/Session/WorkingMemory.antt =====
-- core/cat/memory/working_memory.py: the history of a conversation.
pub mod Laws
use Prim.Native.String.{◌++◌ as text_append}
use cat_forked.Prelude.{
  ℕ, zero, suc, String, Bool, true, false, Option, none, some, List, [], ◌∷◌, ◌++◌, map, length,
  take_last, ◌==◌, if◌then◌else◌,
}

pub data Role : Type 0 where
  ai human : Role

-- core/cat/convo/messages.py: a `CatMessage` or a `UserMessage`, by its role.
pub record ConversationMessage : Type 0 where
  pub role : Role
  pub user_id : String
  pub who : String
  pub text : Option String

-- `MAX_WORKING_HISTORY_LENGTH`
abbrev pub max_working_history_length : ℕ
max_working_history_length = 20

module _ {M : Type 0} where
  -- `self.history.append(message); self.history = self.history[-MAX:]`
  unfoldable pub update_history : M → List M → List M
  update_history message history = take_last max_working_history_length (history ++ message ∷ [])

-- One message of a conversation that is given by its text and its author.
unfoldable pub message_from : String → String → String → ConversationMessage
message_from user_id message who = record {
  role = if who == "AI" then ai else human;
  user_id = user_id;
  who = who;
  text = some message;
}

-- The deprecated `update_conversation_history`, which does not cut the history.
unfoldable pub update_conversation_history :
    String → String → String → List ConversationMessage → List ConversationMessage
unfolding message_from
update_conversation_history user_id message who history =
    history ++ message_from user_id message who ∷ []

-- `history[-latest_n:]`, where `-0` is 0 and gives the whole history.
abbrev pub latest : {M : Type 0} → ℕ → List M → List M
latest zero history = history
latest (suc n) history = take_last (suc n) history

-- An f-string writes an absent text as `None`.
abbrev pub shown : Option String → String
shown none = "None"
shown (some text) = text

unfoldable pub stringify_turns : List ConversationMessage → String
stringify_turns [] = ""
stringify_turns (turn ∷ turns) = text_append "\n - " (
    text_append turn.who (text_append ": " (text_append (shown turn.text) (stringify_turns turns))))

unfoldable pub stringify_chat_history : ℕ → List ConversationMessage → String
unfolding stringify_turns
stringify_chat_history latest_n history = stringify_turns (latest latest_n history)

-- `langchainfy` is the method of each message.
unfoldable pub langchainfy_chat_history : {M L : Type 0} → (M → L) → ℕ → List M → List L
langchainfy_chat_history langchainfy latest_n history = map langchainfy (latest latest_n history)
