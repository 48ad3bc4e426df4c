-- ===== src/MadHatter/Pipe.antt =====
-- core/cat/mad_hatter/mad_hatter.py: `execute_hook` against a relation that says what each hook does.
use cat_forked.Prelude.{
  String, ◌≡◌, refl, inl, inr, Bool, true, false, some, List, [], ◌∷◌, Dict, lookup, all_of, ◌&&◌,
  Bool-cases, if◌then◌else◌,
}
use cat_forked.MadHatter.Hook.{
  Reply, raised, nothing, value, CatHook, Brewed, returned, plugin_missing, poured, is_raised,
  called, execute_hook, pipe_hooks,
}

module _ {T W : Type 0} (copyable : T → Bool) (args : List T) where
  -- From a value and a state of the cat to those that the hooks leave: each gets the value that the one
  -- before it left. What cannot be copied, is raised, or is `None`, leaves the value; a value takes its
  -- place. The cat is as the hook left it, also where it raised.
  pub data Pipes : List (CatHook T W) → T → W → T → W → Type 0 where
    done : (t : T) (c : W) → Pipes [] t c t c
    not_called :
        {h : CatHook T W} {hs : List (CatHook T W)} {t u : T} {c e : W}
        → (copyable t && all_of copyable args) ≡ false
        → Pipes hs t c u e
        → Pipes (h ∷ hs) t c u e
    has_raised :
        {h : CatHook T W} {hs : List (CatHook T W)} {t u : T} {c d e : W}
        → (copyable t && all_of copyable args) ≡ true
        → h.function (t ∷ args) c ≡ (raised, d)
        → Pipes hs t d u e
        → Pipes (h ∷ hs) t c u e
    gave_nothing :
        {h : CatHook T W} {hs : List (CatHook T W)} {t u : T} {c d e : W}
        → (copyable t && all_of copyable args) ≡ true
        → h.function (t ∷ args) c ≡ (nothing, d)
        → Pipes hs t d u e
        → Pipes (h ∷ hs) t c u e
    gave :
        {h : CatHook T W} {hs : List (CatHook T W)} {t u : T} {c d e : W} (spoon : T)
        → (copyable t && all_of copyable args) ≡ true
        → h.function (t ∷ args) c ≡ (value spoon, d)
        → Pipes hs spoon d u e
        → Pipes (h ∷ hs) t c u e

  -- The plugin of each hook is at hand.
  abbrev pub AllKnown : (String → Bool) → List (CatHook T W) → Type 0
  AllKnown known [] = Unit
  AllKnown known (h ∷ hooks) = (known h.plugin_id ≡ true) × AllKnown known hooks

  -- What comes out is what the relation gives.
  abbrev pub Brews : List (CatHook T W) → T → W → Brewed T × W → Type 0
  Brews hooks tea_cup cat out =
      (t : T) × (cat' : W) × Pipes hooks tea_cup cat t cat' × (out ≡ (returned (some t), cat'))

  piped :
      (known : String → Bool) (h : CatHook T W) (hooks : List (CatHook T W)) (tea_cup : T) (cat : W)
      (out : Reply T × W)
      → h.function (tea_cup ∷ args) cat ≡ out
      → (copyable tea_cup && all_of copyable args) ≡ true
      → known h.plugin_id ≡ true
      → let rest = pipe_hooks copyable known args hooks (poured tea_cup out.0) out.1 in
        Brews hooks (poured tea_cup out.0) out.1 rest
        → Brews (h ∷ hooks) tea_cup cat (
            if is_raised out.0
            then (if known h.plugin_id then rest else (plugin_missing, out.1))
            else rest)
  piped known h hooks tea_cup cat (raised, d) e copies k (t, c, pipes, same) =
      rw k (t, c, has_raised copies e pipes, same)
  piped known h hooks tea_cup cat (nothing, d) e copies k (t, c, pipes, same) =
      (t, c, gave_nothing copies e pipes, same)
  piped known h hooks tea_cup cat (value spoon, d) e copies k (t, c, pipes, same) =
      (t, c, gave spoon copies e pipes, same)

  pipe_hooks-Brews :
      (known : String → Bool) (hooks : List (CatHook T W)) (tea_cup : T) (cat : W)
      → AllKnown known hooks
      → Brews hooks tea_cup cat (pipe_hooks copyable known args hooks tea_cup cat)
  unfolding pipe_hooks called
  pipe_hooks-Brews known [] tea_cup cat k = (tea_cup, cat, done tea_cup cat, refl)
  pipe_hooks-Brews known (h ∷ hooks) tea_cup cat k =
      elim (Bool-cases (copyable tea_cup && all_of copyable args)) [
        | inl copies ↦
            let out = h.function (tea_cup ∷ args) cat in
            rw copies (
              piped known h hooks tea_cup cat out refl copies k.0
                (pipe_hooks-Brews known hooks (poured tea_cup out.0) out.1 k.1))
        | inr fails ↦
            let (t, c, pipes, same) = pipe_hooks-Brews known hooks tea_cup cat k.1 in
            rw fails (rw k.0 (t, c, not_called fails pipes, same))
      ]

  -- A call with at least one argument of a hook that some plugin has, where the first argument can be copied
  -- and the plugins of the functions are all known, always returns. Each function gets the value that the
  -- one before it left, with the other arguments: a function that raises, that returns `None`, or for which
  -- the arguments cannot be copied, leaves the value to the next one; a value that it returns goes on to
  -- the next one; and what it did to the cat stays done.
  pub execute_hook-Brews :
      (known : String → Bool) (all : Dict (List (CatHook T W))) (name : String)
      (hooks : List (CatHook T W)) (tea_cup : T) (cat : W)
      → copyable tea_cup ≡ true
      → lookup name all ≡ some hooks
      → AllKnown known hooks
      → Brews hooks tea_cup cat (execute_hook copyable known all name (tea_cup ∷ args) cat)
  unfolding execute_hook
  execute_hook-Brews known all name hooks tea_cup cat copies h k =
      rw h (rw copies (pipe_hooks-Brews known hooks tea_cup cat k))
