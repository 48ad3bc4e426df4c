-- ===== src/Session/Window.antt =====
-- core/cat/looking_glass/stray_cat.py: what a client gets when the recall fails, and how long a
-- history grows over a whole connection.
use cat_forked.Prelude.{
  ◌≤◌, ◌≡◌, refl, sym, Bool, true, false, Option, none, some, List, [], ◌∷◌, ◌++◌, length, arith,
  inl, inr, ◌&&◌, is_some, Bool-cases, if◌then◌else◌,
}
use mathlib.Core.Path.{subst}
use cat_forked.Form.Action.{Turn, after_outcome}
use cat_forked.Session.WorkingMemory.{ConversationMessage, update_history}
use cat_forked.Session.WorkingMemory.Laws.{length-take_last}
use cat_forked.Session.StrayCat.{
  WorkingMemory, Incoming, CatReply, chat, vector_memory_error, Cat, memory_or_new, call, returned,
  sent_attribute_error, Session, load_working_memory_from_cache, conclude, run, handle_messages,
  FastReply, no_reply, begin_turn, by_fast_reply, heard, converse, recalled, reply,
}
use cat_forked.Session.Turn.{IsQuiet, GivesNoFastReply, TurnHistory, IsReadFrom, call-TurnHistory}

-- The cached working memory, if there is one, has at most twenty messages.
abbrev pub IsWindowed : Option WorkingMemory → Type 0
IsWindowed none = Unit
IsWindowed (some m) = length m.history ≤ 20

update_history-short :
    (m : ConversationMessage) (h : List ConversationMessage) → length (update_history m h) ≤ 20
unfolding update_history
update_history-short m h = length-take_last 20 (h ++ m ∷ [])

TurnHistory-short :
    (IsRead : ConversationMessage → Type 0) (h h' : List ConversationMessage) (r : Option CatReply)
    → length h ≤ 20
    → TurnHistory IsRead h r h'
    → length h' ≤ 20
TurnHistory-short IsRead h h' (some (chat final)) short (read, is_read, e) =
    rw e (update_history-short final (update_history read h))
TurnHistory-short IsRead h h' (some vector_memory_error) short (read, is_read, e) =
    rw e (update_history-short read h)
TurnHistory-short IsRead h h' none short (inl e) = rw e short
TurnHistory-short IsRead h h' none short (inr (read, is_read, e)) =
    rw e (update_history-short read h)

memory_or_new-short :
    (cached : Option WorkingMemory) → IsWindowed cached → length (memory_or_new cached).history ≤ 20
memory_or_new-short none w = omega arith
memory_or_new-short (some m) w = w

module _ {W : Type 0} where
  -- A plugin that reads the message always gives one back.
  abbrev pub Reads : Cat W → Type 0
  Reads cat =
      (m : ConversationMessage) (t : Turn WorkingMemory W)
      → (read : ConversationMessage) × ((cat.before_cat_reads_message m t).0 ≡ some read)

  abbrev pub CannotRecall : Cat W → Type 0
  CannotRecall cat = (t : Turn WorkingMemory W) → (cat.recall t).0 ≡ none

  -- Where the message is valid, no plugin replies fast, the plugins read the message and the recall
  -- always raises, `__call__` returns the error of the vector memory.
  pub call-recall_error :
      (cat : Cat W) (incoming : Incoming) (t : Turn WorkingMemory W) (m : ConversationMessage)
      → cat.model_validate (record incoming { user_id = cat.user_id }) ≡ some m
      → GivesNoFastReply cat
      → Reads cat
      → CannotRecall cat
      → (call cat incoming t).0 ≡ some vector_memory_error
  unfolding call by_fast_reply converse recalled
  call-recall_error cat incoming t m valid slow reads fails =
      let t₁ : Turn WorkingMemory W = record t {
        self = record t.self { model_interactions = []; user_message_json = some m };
      } in
      let t₂ = (cat.fast_reply t₁).1 in
      let t₃ = (cat.before_cat_reads_message m t₂).1 in
      let (read, e) = reads m t₂ in
      let t₄ : Turn WorkingMemory W = record t₃ {
        self = record t₃.self {
          user_message_json = some read;
          history = update_history read t₃.self.history;
        };
      } in
      let t₅ = (cat.recall t₄).1 in
      let valid_at = λ (o : Option ConversationMessage).
        (after_outcome (o, t) (begin_turn cat)).0 ≡ some vector_memory_error in
      let fast_at = λ (o : Option FastReply).
        (after_outcome (o, t₂) (by_fast_reply cat m)).0 ≡ some vector_memory_error in
      let read_at = λ (o : Option ConversationMessage).
        (after_outcome (o, t₃) (heard cat)).0 ≡ some vector_memory_error in
      let recall_at =
        λ (o : Option (Unit {0})). (recalled cat (o, t₅)).0 ≡ some vector_memory_error in
      let rec_none : recall_at none = refl in
      let at_read : read_at (some read) = subst recall_at (sym (fails t₄)) rec_none in
      let at_fast : fast_at (some no_reply) = subst read_at (sym e) at_read in
      subst valid_at (sym valid) (subst fast_at (sym (slow t₁)) at_fast)

  delivery :
      (return_message : Bool) (s : Session W) (r : Option CatReply) (t : Turn WorkingMemory W)
      → r ≡ some vector_memory_error
      → (conclude return_message s (r, t)).0
        ≡ (if return_message then returned vector_memory_error else sent_attribute_error)
  unfolding conclude
  delivery true s r t e = rw e refl
  delivery false s r t e = rw e refl

  -- Where the message is valid, no plugin replies fast, the plugins read the message and the recall
  -- always raises, the http client gets the error of the vector memory, but over the websocket the
  -- client gets an `AttributeError`.
  pub run-recall_error :
      (cat : Cat W) (return_message : Bool) (incoming : Incoming) (s : Session W)
      (m : ConversationMessage)
      → cat.model_validate (record incoming { user_id = cat.user_id }) ≡ some m
      → GivesNoFastReply cat
      → Reads cat
      → CannotRecall cat
      → (run cat return_message incoming s).0
        ≡ (if return_message then returned vector_memory_error else sent_attribute_error)
  unfolding run
  run-recall_error cat return_message incoming s m valid slow reads fails =
      let (r, t) = call cat incoming s.turn in
      delivery return_message s r t (call-recall_error cat incoming s.turn m valid slow reads fails)

  conclude-IsWindowed :
      (return_message : Bool) (s : Session W) (r : Option CatReply) (t : Turn WorkingMemory W)
      → IsWindowed s.cached
      → length t.self.history ≤ 20
      → IsWindowed (conclude return_message s (r, t)).1.cached
  unfolding conclude
  conclude-IsWindowed return_message s (some reply) t w short = short
  conclude-IsWindowed return_message s none t w short =
      elim (Bool-cases (s.holds_object && is_some s.cached)) [
        | inl shared ↦ rw shared short
        | inr copied ↦ rw copied w
      ]

  load-short :
      (s : Session W)
      → IsWindowed s.cached
      → length (load_working_memory_from_cache s).turn.self.history ≤ 20
  unfolding load_working_memory_from_cache
  load-short s w = memory_or_new-short s.cached w

  -- Where no plugin replies fast and none writes the history, the working memory in the cache has at
  -- most twenty messages after any messages over a websocket, whether their turns raised or not, if
  -- it had at most twenty before.
  pub handle_messages-IsWindowed :
      (cat : Cat W) (incomings : List Incoming) (s : Session W)
      → IsQuiet cat
      → GivesNoFastReply cat
      → IsWindowed s.cached
      → IsWindowed (handle_messages cat incomings s).1.cached
  unfolding handle_messages run load_working_memory_from_cache
  handle_messages-IsWindowed cat [] s quiet slow w = w
  handle_messages-IsWindowed cat (user_message ∷ later) s quiet slow w =
      let s₀ = load_working_memory_from_cache s in
      let (r, t) = call cat user_message s₀.turn in
      let short : length t.self.history ≤ 20 =
        TurnHistory-short (IsReadFrom cat user_message s₀.turn) s₀.turn.self.history t.self.history
          r (load-short s w) (call-TurnHistory cat user_message s₀.turn quiet slow) in
      handle_messages-IsWindowed cat later (run cat false user_message s₀).1 quiet slow
        (conclude-IsWindowed false s₀ r t w short)
