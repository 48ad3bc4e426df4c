-- ===== src/MadHatter/Hook.antt =====
-- core/cat/mad_hatter/decorators/hook.py: a hook, and `execute_hook` of mad_hatter.py over the
-- hooks of one name. `T` is the type of the values that are piped, `W` the state of the cat.
use cat_forked.Prelude.{
  String, Bool, true, false, Option, none, some, List, [], ◌∷◌, Dict, lookup, ℤ, leb_ℤ, all_of,
  ◌&&◌, if◌then◌else◌,
}

-- What a call of a plugin's function does: it raises, returns `None`, or returns a value.
pub data Reply (T : Type 0) : Type 0 where
  raised : Reply T
  nothing : Reply T
  value : T → Reply T

-- The function gets the piped value, if there is one, and the other arguments; whatever it does to
-- the cat stays done, also when it raises.
pub record CatHook (T W : Type 0) : Type 0 where
  pub name : String
  pub priority : ℤ
  pub plugin_id : String
  pub function : List T → W → Reply T × W

-- What `execute_hook` does: it raises, or returns a value, or `None` for a hook with no arguments.
pub data Brewed (T : Type 0) : Type 0 where
  hook_missing : Brewed T
  plugin_missing : Brewed T
  not_copied : Brewed T
  returned : Option T → Brewed T

module _ {T : Type 0} where
  -- `tea_cup` after one hook
  abbrev pub poured : T → Reply T → T
  poured tea_cup raised = tea_cup
  poured tea_cup nothing = tea_cup
  poured tea_cup (value tea_spoon) = tea_spoon

  abbrev pub is_raised : Reply T → Bool
  is_raised raised = true
  is_raised nothing = false
  is_raised (value t) = false

module _ {T W : Type 0} where
  -- `for hook in self.hooks[hook_name]` without arguments. `known` says whether
  -- `self.plugins[hook.plugin_id]` is there, which the handler of an exception reads.
  unfoldable pub run_hooks : (String → Bool) → List (CatHook T W) → W → Brewed T × W
  run_hooks known [] cat = (returned none, cat)
  run_hooks known (h ∷ hooks) cat =
      let (reply, cat') = h.function [] cat in
      let rest = run_hooks known hooks cat' in
      elim reply [
        | raised ↦ if known h.plugin_id then rest else (plugin_missing, cat')
        | nothing ↦ rest
        | value t ↦ rest
      ]

  -- One call in the `try`: the value and the arguments are copied first, which may raise. A copy is equal to
  -- what it is of.
  unfoldable pub called : (T → Bool) → List T → CatHook T W → T → W → Reply T × W
  called copyable args h tea_cup cat =
      if copyable tea_cup && all_of copyable args
      then h.function (tea_cup ∷ args) cat
      else (raised, cat)

  -- The same with arguments: each hook gets the value that the last one left.
  unfoldable pub pipe_hooks :
      (T → Bool) → (String → Bool) → List T → List (CatHook T W) → T → W → Brewed T × W
  unfolding called
  pipe_hooks copyable known args [] tea_cup cat = (returned (some tea_cup), cat)
  pipe_hooks copyable known args (h ∷ hooks) tea_cup cat =
      let (reply, cat') = called copyable args h tea_cup cat in
      let rest = pipe_hooks copyable known args hooks (poured tea_cup reply) cat' in
      if is_raised reply then (if known h.plugin_id then rest else (plugin_missing, cat')) else rest

  execute_on :
      (T → Bool) → (String → Bool) → Option (List (CatHook T W)) → List T → W → Brewed T × W
  unfolding run_hooks pipe_hooks
  execute_on copyable known none args cat = (hook_missing, cat)
  execute_on copyable known (some hooks) [] cat = run_hooks known hooks cat
  execute_on copyable known (some hooks) (tea_cup ∷ args) cat =
      if copyable tea_cup
      then pipe_hooks copyable known args hooks tea_cup cat
      else (not_copied, cat)

  -- `copyable` says whether `deepcopy` returns.
  unfoldable pub execute_hook :
      (T → Bool) → (String → Bool) → Dict (List (CatHook T W)) → String → List T → W → Brewed T × W
  unfolding execute_on
  execute_hook copyable known hooks hook_name args cat =
      execute_on copyable known (lookup hook_name hooks) args cat

  -- `sort(key=lambda x: x.priority, reverse=True)`
  abbrev pub not_lower : CatHook T W → CatHook T W → Bool
  not_lower g h = leb_ℤ h.priority g.priority
