-- ===== src/Form/Tests.antt =====
-- A form for one field, which must be there.
use cat_forked.Prelude.{ℕ, suc, String, ◌≡◌, refl, true, some, [], ◌∷◌, contains, if◌then◌else◌}
use cat_forked.Form.Action.{Turn}
use cat_forked.Form.{
  CatForm, wait_confirm, text, object, Prompt, confirm_prompt, check_exit_prompt, extraction_prompt,
  FormClass, submitted, new, next, confirm, is_null_field,
}
use cat_forked.Form.States.{Good, next-Good}
use cat_forked.Form.Submit.{next-submits_confirmed}

-- The model finds a name, and agrees to the confirmation.
abbrev answer : Prompt → String
answer confirm_prompt = "True"
answer (check_exit_prompt examples) = "false"
answer (extraction_prompt model) = "a name"

abbrev cls : FormClass ℕ
cls = record {
  name = "pizza";
  ask_confirm = true;
  stop_examples = [];
  llm = λ prompt calls. (some (answer prompt), suc calls);
  parse_json = λ json_str. object (("name", text json_str) ∷ []);
  validation = λ model.
      if contains "name" model
      then some []
      else some (record { field = some "name"; is_missing = true; msg = "" } ∷ []);
  submit = λ model calls. (some "done", suc calls);
}

abbrev start : Turn CatForm ℕ
start = record { self = new; cat = 0 }

abbrev asked : Turn CatForm ℕ
asked = record {
  self = record {
    state = wait_confirm;
    model = ("name", text "a name") ∷ [];
    errors = [];
    missing_fields = [];
  };
  cat = 2;
}

-- The first turn asks for the confirmation, the second submits.
next_asks : (next cls start).1 ≡ asked
unfolding next is_null_field
next_asks = refl

next_submits : (next cls asked).0 ≡ some (submitted asked.self.model "done")
unfolding next
next_submits = refl

next-Good_example : Good cls (next cls asked)
next-Good_example = next-Good cls asked refl

next-submits_confirmed_example : (wait_confirm ≡ wait_confirm) × ((confirm cls asked).0 ≡ some true)
next-submits_confirmed_example = next-submits_confirmed cls asked refl (rw next_submits refl)
