-- ===== src/Form.antt =====
-- core/cat/experimental/form/cat_form.py: the conversational form. The language model, pydantic's
-- validation, the JSON parser and the plugin's `submit` are parameters. Prompts and messages are
-- kept as data in place of their texts.
pub mod Action
pub mod States
pub mod Submit
mod Tests
use cat_forked.Prelude.{
  ℕ, zero, suc, ◌+◌, String, Bool, true, false, not, ◌&&◌, ◌||◌, Option, none, some, List, [], ◌∷◌,
  ◌++◌, Dict, lookup, contains, insert, erase, mem_of, leb, filter_by, if◌then◌else◌, within_lower,
}
use Action.{Turn, Act, pure, raise, modify, gets, world, ◌>>=◌, ◌>>◌}

pub data CatFormState : Type 0 where
  incomplete complete wait_confirm closed : CatFormState

-- A value of parsed JSON: `other` stands for numbers, Booleans, lists and objects.
pub data Json : Type 0 where
  null : Json
  text : String → Json
  other : ℕ → Json

abbrev pub Model : Type 0
Model = Dict Json

pub record CatForm : Type 0 where
  pub state : CatFormState
  pub model : Model
  pub errors : List String
  pub missing_fields : List String

-- One entry of `e.errors()`: `loc[0]`, if there is one, whether the type is "missing", and the message.
pub record FieldError : Type 0 where
  pub field : Option String
  pub is_missing : Bool
  pub msg : String

pub data Parsed : Type 0 where
  invalid : Parsed
  not_object : Parsed
  object : Model → Parsed

pub data Prompt : Type 0 where
  confirm_prompt : Prompt
  check_exit_prompt : List String → Prompt
  extraction_prompt : Model → Prompt

pub data Output : Type 0 where
  message_closed : Output
  message_wait_confirm : Model → List String → List String → Output
  message_incomplete : Model → List String → List String → Output
  invalid_state : Output
  submitted : Model → String → Output

-- The class of the form and what it calls; `none` where a call raises, and where the validation raises anything
-- else than a `ValidationError`. `W` is the state of the cat,
-- the user's message and the history among it.
pub record FormClass (W : Type 0) : Type 0 where
  pub name : String
  pub ask_confirm : Bool
  pub stop_examples : List String
  pub llm : Prompt → W → Option String × W
  pub parse_json : String → Parsed
  pub validation : Model → Option (List FieldError)
  pub submit : Model → W → Option String × W

-- `__init__`
abbrev pub new : CatForm
new = record { state = incomplete; model = []; errors = []; missing_fields = [] }

-- `[None, "", "None", "null", "lower-case", "unknown", "missing"]`
unfoldable pub is_null_field : Json → Bool
is_null_field null = true
is_null_field (text s) = mem_of s ("" ∷ "None" ∷ "null" ∷ "lower-case" ∷ "unknown" ∷ "missing" ∷ [])
is_null_field (other n) = false

unfoldable pub sanitize : Model → Model
unfolding is_null_field
sanitize model = filter_by (λ p. not (is_null_field p.1)) model

-- `old | new`
unfoldable pub merge : Model → Model → Model
merge old [] = old
merge old ((k, v) ∷ details) = merge (insert k v old) details

module _ {W : Type 0} (cls : FormClass W) where
  unfoldable pub set_state : CatFormState → Act CatForm W (Unit {0})
  set_state st = modify (λ f. record f { state = st })

  unfoldable pub ask : Prompt → Act CatForm W String
  ask prompt = world (cls.llm prompt)

  -- `"true" in response.lower()`
  unfoldable pub confirm : Act CatForm W Bool
  unfolding ask
  confirm = do response ← ask confirm_prompt; pure (within_lower "true" response)

  unfoldable pub check_exit_intent : Act CatForm W Bool
  unfolding ask
  check_exit_intent = do
    response ← ask (check_exit_prompt cls.stop_examples)
    pure (within_lower "true" response)

  unfoldable pub details_of : Parsed → Act CatForm W Model
  details_of invalid = pure []
  details_of not_object = raise
  details_of (object model) = pure model

  -- `extract`, then `sanitize`, which fails on what is no object
  unfoldable pub extract : Act CatForm W Model
  unfolding ask details_of
  extract = do
    model ← gets (λ f. f.model)
    json_str ← ask (extraction_prompt model)
    details_of (cls.parse_json json_str)

  -- The loop over `e.errors()`: an error without a place raises, and so does `del self._model[field_name]` on
  -- a field that is not there.
  unfoldable pub collect : List FieldError → Act CatForm W (Unit {0})
  collect [] = pure tt
  collect (e ∷ es) =
      let rest = collect es in
      elim e.field [
        | none ↦ raise
        | some field ↦
            if e.is_missing
            then modify (λ f. record f { missing_fields = f.missing_fields ++ field ∷ [] }) >> rest
            else do
              modify (λ f. record f { errors = f.errors ++ e.msg ∷ [] })
              known ← gets (λ f. contains field f.model)
              if known
                  then modify (λ f. record f { model = erase field f.model }) >> rest
                  else raise
      ]

  unfoldable pub after_validation : Option (List FieldError) → Act CatForm W (Unit {0})
  unfolding set_state collect
  after_validation none = raise
  after_validation (some []) = set_state complete
  after_validation (some (e ∷ es)) = collect (e ∷ es) >> set_state incomplete

  unfoldable pub validate : Act CatForm W (Unit {0})
  unfolding after_validation
  validate = do
    modify (λ f. record f { missing_fields = []; errors = [] })
    model ← gets (λ f. f.model)
    after_validation (cls.validation model)

  unfoldable pub update : Act CatForm W (Unit {0})
  unfolding extract sanitize merge validate
  update = do
    details ← extract
    modify (λ f. record f { model = merge f.model (sanitize details) })
    validate

  unfoldable pub message_of : CatForm → CatFormState → Output
  message_of f closed = message_closed
  message_of f wait_confirm = message_wait_confirm f.model f.missing_fields f.errors
  message_of f incomplete = message_incomplete f.model f.missing_fields f.errors
  message_of f complete = invalid_state

  unfoldable pub message : Act CatForm W Output
  unfolding message_of
  message = gets (λ f. message_of f f.state)

  unfoldable pub close_and_submit : Act CatForm W Output
  unfolding set_state
  close_and_submit = do
    set_state closed
    model ← gets (λ f. f.model)
    reply ← world (cls.submit model)
    pure (submitted model reply)

  -- `if self._state == COMPLETE: …`, then the message
  unfoldable pub if_complete : CatFormState → Act CatForm W Output
  unfolding set_state message close_and_submit
  if_complete complete =
      if cls.ask_confirm then set_state wait_confirm >> message else close_and_submit
  if_complete incomplete = message
  if_complete wait_confirm = message
  if_complete closed = message

  -- `if self._state == INCOMPLETE: self.update()`
  unfoldable pub if_incomplete : CatFormState → Act CatForm W (Unit {0})
  unfolding update
  if_incomplete incomplete = update
  if_incomplete complete = pure tt
  if_incomplete wait_confirm = pure tt
  if_incomplete closed = pure tt

  -- From the second check of the exit intent on.
  unfoldable pub proceed : Act CatForm W Output
  unfolding check_exit_intent set_state if_incomplete if_complete
  proceed = do
    exit ← check_exit_intent
    if exit then set_state closed else pure tt
    before ← gets (λ f. f.state)
    if_incomplete before
    after ← gets (λ f. f.state)
    if_complete after

  unfoldable pub confirmed : Bool → Act CatForm W Output
  unfolding proceed close_and_submit
  confirmed true = close_and_submit
  confirmed false = do
    exit ← check_exit_intent
    set_state (if exit then closed else incomplete)
    proceed

  unfoldable pub next_from : CatFormState → Act CatForm W Output
  unfolding confirmed confirm
  next_from wait_confirm = do agreed ← confirm; confirmed agreed
  next_from incomplete = proceed
  next_from complete = proceed
  next_from closed = proceed

  unfoldable pub next : Act CatForm W Output
  unfolding next_from
  next = do st ← gets (λ f. f.state); next_from st
