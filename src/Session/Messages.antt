-- ===== src/Session/Messages.antt =====
-- core/cat/looking_glass/stray_cat.py: the messages that a cat sends over the websocket of its user. What is
-- sent is kept as data, with the socket that gets it.
use cat_forked.Prelude.{
  ◌≡◌, sym, ◌∙◌, ap, String, Bool, not, Option, none, some, List, [], ◌∷◌, In, inl, inr, Dict,
  mem_of, ◌==◌, if◌then◌else◌, Option-cases,
}
use mathlib.Core.Path.{subst}
use cat_forked.Session.WorkingMemory.{ConversationMessage, update_history}
use cat_forked.Session.StrayCat.{WorkingMemory, cat_message}
use cat_forked.Session.Websockets.{get_connection}

-- The dictionaries that are sent: an error with its name and its description, a content with its type, and a
-- message.
pub data WsMessage : Type 0 where
  error : String → String → WsMessage
  content_of : String → String → WsMessage
  cat_message_of : ConversationMessage → WsMessage

-- `Literal["notification", "chat", "error", "chat_token"]`
abbrev pub msg_types : List String
msg_types = "notification" ∷ "chat" ∷ "error" ∷ "chat_token" ∷ []

-- An error is a text, or an exception with the name of its class.
pub data Error : Type 0 where
  text : String → Error
  exception : String → String → Error

pub data ChatMessage : Type 0 where
  of_text : String → ChatMessage
  ready : ConversationMessage → ChatMessage

abbrev pub to_message : String → ChatMessage → ConversationMessage
to_message user_id (of_text t) = cat_message user_id t
to_message user_id (ready m) = m

module _ {S : Type 0} (connections : Dict S) (user_id : String) where
  to_socket : Option S → WsMessage → List (S × WsMessage)
  to_socket none data_sent = []
  to_socket (some ws_connection) data_sent = (ws_connection, data_sent) ∷ []

  unfoldable pub send_ws_json : WsMessage → List (S × WsMessage)
  unfolding to_socket get_connection
  send_ws_json data_sent = to_socket (get_connection user_id connections) data_sent

  -- `none` is the `ValueError` of an unknown type.
  unfoldable pub send_ws_message : String → String → Option (List (S × WsMessage))
  unfolding send_ws_json
  send_ws_message content msg_type =
      if not (mem_of msg_type msg_types)
      then none
      else some (
          send_ws_json (
            if msg_type == "error"
            then error "GenericError" content
            else content_of msg_type content))

  unfoldable pub send_notification : String → Option (List (S × WsMessage))
  unfolding send_ws_message
  send_notification content = send_ws_message content "notification"

  unfoldable pub send_error : Error → List (S × WsMessage)
  unfolding send_ws_json
  send_error (text t) = send_ws_json (error "GenericError" t)
  send_error (exception name description) = send_ws_json (error name description)

  -- The memories of the answer's `why` are left out.
  unfoldable pub send_chat_message :
      ChatMessage → Bool → WorkingMemory → List (S × WsMessage) × WorkingMemory
  unfolding send_ws_json update_history
  send_chat_message message save memory =
      let m = to_message user_id message in
      (
        send_ws_json (cat_message_of m),
        if save then record memory { history = update_history m memory.history } else memory,
      )

  -- What is sent only reaches the socket that the manager has for the user.
  pub send_ws_json-connection :
      (data_sent : WsMessage) (socket : S) (received : WsMessage)
      → In (socket, received) (send_ws_json data_sent)
      → (get_connection user_id connections ≡ some socket) × (received ≡ data_sent)
  unfolding send_ws_json to_socket
  send_ws_json-connection data_sent socket received m =
      elim (Option-cases (get_connection user_id connections)) [
        | inl closed ↦
            absurd
              (subst (λ (o : Option S). In (socket, received) (to_socket o data_sent)) closed m)
        | inr (s, open_one) ↦
            elim (subst (λ (o : Option S). In (socket, received) (to_socket o data_sent)) open_one
              m) [
                | inr nothing ↦ absurd nothing
                | inl e ↦ (
                  open_one ∙ ap (λ (p : S × WsMessage). some p.0) (sym e),
                  ap (λ (p : S × WsMessage). p.1) e,
                )
              ]
      ]
