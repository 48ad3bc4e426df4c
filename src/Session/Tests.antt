-- ===== src/Session/Tests.antt =====
-- A turn that is answered, and one whose recall fails.
use cat_forked.Prelude.{
  ℕ, String, ◌≡◌, ◌≤◌, refl, true, false, none, some, List, [], ◌∷◌, length, take_last, remove_text,
}
use cat_forked.Form.Action.{pure, raise}
use cat_forked.Session.WorkingMemory.{ConversationMessage, human, max_working_history_length}
use cat_forked.Session.WorkingMemory.Laws.{update_all, update_all-eq-take_last}
use cat_forked.Session.StrayCat.{
  Incoming, no_reply, answered, failed, Cat, cat_message, call, Session, new, sent_chat,
  sent_attribute_error, run, handle_messages,
}
use cat_forked.Session.Turn.{IsQuiet, TurnHistory, IsReadFrom, call-TurnHistory}
use cat_forked.Session.Unparsable.{with_agent, ending, run-unparsable}
use cat_forked.Session.Window.{IsWindowed, run-recall_error, handle_messages-IsWindowed}
use cat_forked.Session.Websockets.{
  Event, opened, closed, get_connection, after_all, last_opened, get_connection-after_all,
  remove_connection-newer,
}
use cat_forked.Session.Classify.{Prompt, classify, names, classify-closest, score_of, labels_names}
use cat_forked.Session.Messages.{content_of, send_notification}
use cat_forked.Prelude.{In, inl, ◌<◌, ◌==◌, if◌then◌else◌}

abbrev said : String → ConversationMessage
said text = record { role = human; user_id = "anna"; who = "Human"; text = some text }

abbrev cat : Cat ℕ
cat = record {
  user_id = "anna";
  model_validate =
      λ m. some (record { role = human; user_id = m.user_id; who = "Human"; text = m.text });
  fast_reply = pure no_reply;
  before_cat_reads_message = pure;
  recall = pure tt;
  main_agent = pure (answered "hello");
  store_user_message = pure tt;
  before_cat_sends_message = pure;
}

abbrev forgetful : Cat ℕ
forgetful = record cat { recall = raise }

abbrev hi : Incoming
hi = record { user_id = "somebody else"; text = some "hi" }

abbrev session : Session ℕ
session = record { turn = record { self = new; cat = 0 }; cached = none; holds_object = true }

cat-IsQuiet : IsQuiet cat
cat-IsQuiet = record {
  fast_reply_keeps = λ t. refl;
  reading_keeps = λ m t. refl;
  recall_keeps = λ t. refl;
  agent_keeps = λ t. refl;
  storing_keeps = λ t. refl;
  sending_keeps = λ m t. refl;
}

hi_is_answered : (run cat false hi session).0 ≡ sent_chat (cat_message "anna" "hello")
unfolding run
hi_is_answered = refl

both_are_kept :
    (call cat hi session.turn).1.self.history ≡ said "hi" ∷ cat_message "anna" "hello" ∷ []
unfolding call
both_are_kept = refl

call-TurnHistory_example :
    TurnHistory
      (IsReadFrom cat hi session.turn)
      []
      (call cat hi session.turn).0
      (call cat hi session.turn).1.self.history
call-TurnHistory_example = call-TurnHistory cat hi session.turn cat-IsQuiet (λ t. refl)

handle_messages-IsWindowed_example :
    IsWindowed (handle_messages cat (hi ∷ hi ∷ []) session).1.cached
handle_messages-IsWindowed_example =
    handle_messages-IsWindowed cat (hi ∷ hi ∷ []) session cat-IsQuiet (λ t. refl) tt

run-unparsable_runs :
    run
      (with_agent cat (ending (pure tt) (failed "Could not parse LLM output: `I do not know`")))
      false
      hi
      session
    ≡ run
        (with_agent cat (ending (pure tt) (answered (remove_text "`" "I do not know`"))))
        false
        hi
        session
run-unparsable_runs = run-unparsable cat (pure tt) "I do not know`" false hi session refl

run-recall_error_runs : (run forgetful false hi session).0 ≡ sent_attribute_error
run-recall_error_runs =
    run-recall_error forgetful false hi session (said "hi") refl (λ t. refl) (λ m t. (m, refl))
      (λ t. refl)

update_all-eq-take_last_runs :
    (update_all [] (said "hi" ∷ said "hello" ∷ [])
      ≡ take_last max_working_history_length (said "hi" ∷ said "hello" ∷ []))
    × (length (update_all [] (said "hi" ∷ said "hello" ∷ [])) ≤ 20)
update_all-eq-take_last_runs = update_all-eq-take_last (said "hi" ∷ said "hello" ∷ [])

abbrev events : List (Event ℕ)
events = opened "anna" 1 ∷ opened "bruno" 2 ∷ closed "bruno" 2 ∷ []

get_connection-after_all_runs :
    get_connection "anna" (after_all events [])
    ≡ last_opened "anna" (get_connection "anna" []) events
get_connection-after_all_runs = get_connection-after_all "anna" events []

remove_connection-newer_runs :
    get_connection {S = ℕ} "anna"
      (after_all (opened "anna" 1 ∷ opened "anna" 2 ∷ closed "anna" 1 ∷ []) [])
    ≡ none
remove_connection-newer_runs = remove_connection-newer {S = ℕ} "anna" 1 2 []

abbrev model : Prompt → String
model p = "positive"

abbrev distance : String → String → ℕ
distance s t = if s == t then 0 else 800

classify-closest_example :
    let labels = names ("negative" ∷ "positive" ∷ []) in
    let score = score_of model distance "I feel good" labels in
    In "positive" (labels_names labels)
    × (score "positive" < 500)
    × (score "positive" ≤ score "negative")
unfolding classify
classify-closest_example =
    classify-closest model distance "I feel good" (names ("negative" ∷ "positive" ∷ [])) "positive"
      "negative" refl (inl refl)

notified :
    send_notification {S = ℕ} (("anna", 7) ∷ ("bob", 8) ∷ []) "bob" "late"
    ≡ some ((8, content_of "notification" "late") ∷ [])
unfolding send_notification
notified = refl
