-- ===== src/CoreHooks/Neutral.antt =====
-- core/cat/mad_hatter/core_plugin/hooks: the hooks of the core plugin among those of other plugins.
use cat_forked.Prelude.{
  ◌≡◌, refl, sym, ap, ◌∙◌, String, Bool, Option, none, some, List, [], ◌∷◌, ◌++◌, In, inl, inr,
  Dict, lookup, if◌then◌else◌, true, Bool-cases,
}
use mathlib.Core.Path.{subst}
use cat_forked.MadHatter.Hook.{
  CatHook, Reply, raised, nothing, value, Brewed, plugin_missing, returned, poured, called,
  pipe_hooks, run_hooks, execute_hook,
}
use cat_forked.CoreHooks.{value_hooks, cat_hooks, hook, on_value}

Each : {A : Type 0} → (A → Type 0) → List A → Type 0
Each P [] = Unit {0}
Each P (x ∷ xs) = P x × Each P xs

each-In : {A : Type 0} (P : A → Type 0) (a : A) (xs : List A) → Each P xs → In a xs → P a
unfolding Each
each-In P a [] e m = absurd m
each-In P a (x ∷ xs) e (inl same) = subst P (sym same) e.0
each-In P a (x ∷ xs) e (inr m) = each-In P a xs e.1 m

module _ {T W : Type 0} where
  abbrev GivesBack : CatHook T W → Type 0
  GivesBack h = (tea : T) (cat : W) → h.function (tea ∷ []) cat ≡ (value tea, cat)

  gives_back :
      (name : String) (f : T → W → Reply T × W)
      → ((tea : T) (cat : W) → f tea cat ≡ (value tea, cat))
      → GivesBack (hook name (on_value f))
  gives_back name f e = e

  value_hooks-GivesBack : (h : CatHook T W) → In h value_hooks → GivesBack h
  unfolding Each
  value_hooks-GivesBack h =
      let r : (tea : T) (cat : W) → (value tea, cat) ≡ (value tea, cat) = λ tea cat. refl in
      each-In GivesBack h value_hooks (
        r,
        (
          r,
          (
            r,
            (r, (r, (r, (r, (r, (r, (r, (r, (r, (r, (r, (r, (r, (r, (r, (r, (r, tt))))))))))))))))),
          ),
        ),
      )

  abbrev DoesNothing : CatHook T W → Type 0
  DoesNothing h = (cat : W) → h.function [] cat ≡ (nothing, cat)

  cat_hooks-DoesNothing : (h : CatHook T W) → In h cat_hooks → DoesNothing h
  unfolding Each
  cat_hooks-DoesNothing h =
      each-In DoesNothing h cat_hooks
        ((λ cat. refl), ((λ cat. refl), ((λ cat. refl), ((λ cat. refl), tt))))

  pipe_hooks-skip :
      (copyable : T → Bool) (known : String → Bool) (h : CatHook T W) (xs ys : List (CatHook T W))
      (tea : T) (cat : W)
      → GivesBack h
      → known h.plugin_id ≡ true
      → pipe_hooks copyable known [] (xs ++ h ∷ ys) tea cat
        ≡ pipe_hooks copyable known [] (xs ++ ys) tea cat
  unfolding pipe_hooks called
  pipe_hooks-skip copyable known h [] ys tea cat gives at_hand = elim (Bool-cases (copyable tea)) [
    | inl copies ↦ rw copies (rw (gives tea cat) refl)
    | inr fails ↦ rw fails (rw at_hand refl)
  ]
  pipe_hooks-skip copyable known h (x ∷ xs) ys tea cat gives at_hand =
      let (reply, cat') = called copyable [] x tea cat in
      rw (pipe_hooks-skip copyable known h xs ys (poured tea reply) cat' gives at_hand) refl

  run_hooks-skip :
      (known : String → Bool) (h : CatHook T W) (xs ys : List (CatHook T W)) (cat : W)
      → DoesNothing h
      → run_hooks known (xs ++ h ∷ ys) cat ≡ run_hooks known (xs ++ ys) cat
  unfolding run_hooks
  run_hooks-skip known h [] ys cat quiet =
      rw (ap (λ (r : Reply T × W). r.0) (quiet cat))
        (ap (run_hooks known ys) (ap (λ (r : Reply T × W). r.1) (quiet cat)))
  run_hooks-skip known h (x ∷ xs) ys cat quiet =
      let (reply, cat') = x.function [] cat in
      ap
        (λ (rest : Brewed T × W). elim reply [
          | raised ↦ if known x.plugin_id then rest else (plugin_missing, cat')
          | nothing ↦ rest
          | value t ↦ rest
        ])
        (run_hooks-skip known h xs ys cat' quiet)

  -- The entry of a name in the hooks of the mad hatter: there is none where no plugin has a hook of it.
  abbrev pub entry : List (CatHook T W) → Option (List (CatHook T W))
  entry [] = none
  entry (h ∷ hs) = some (h ∷ hs)

  -- What a call does where no plugin has a hook of the name is an exception; `alone` stands in its place.
  abbrev pub instead : List (CatHook T W) → Brewed T × W → Brewed T × W → Brewed T × W
  instead [] alone out = alone
  instead (h ∷ hs) alone out = out

  execute_others :
      (copyable : T → Bool) (known : String → Bool) (hooks : Dict (List (CatHook T W)))
      (name : String) (others : List (CatHook T W)) (tea : T) (cat : W)
      → copyable tea ≡ true
      → lookup name hooks ≡ entry others
      → pipe_hooks copyable known [] others tea cat
        ≡ instead others
            (returned (some tea), cat)
            (execute_hook copyable known hooks name (tea ∷ []) cat)
  unfolding execute_hook pipe_hooks
  execute_others copyable known hooks name [] tea cat copies there = refl
  execute_others copyable known hooks name (h ∷ hs) tea cat copies there = rw there (rw copies refl)

  -- Wherever a hook of the core plugin that is called with a value stands among the hooks of its name, a
  -- call with a value that can be copied does what it would do with the other hooks of this name alone, to
  -- the value and to the cat; where there are no others, it gives the value back, and leaves the cat as it
  -- was. The core plugin is taken to be at hand.
  pub execute_hook-value_hooks :
      (copyable : T → Bool) (known : String → Bool) (hooks without : Dict (List (CatHook T W)))
      (h : CatHook T W) (xs ys : List (CatHook T W)) (tea : T) (cat : W)
      → In h value_hooks
      → known h.plugin_id ≡ true
      → copyable tea ≡ true
      → lookup h.name hooks ≡ some (xs ++ h ∷ ys)
      → lookup h.name without ≡ entry (xs ++ ys)
      → execute_hook copyable known hooks h.name (tea ∷ []) cat
        ≡ instead
            (xs ++ ys)
            (returned (some tea), cat)
            (execute_hook copyable known without h.name (tea ∷ []) cat)
  unfolding execute_hook
  execute_hook-value_hooks copyable known hooks without h xs ys tea cat m at_hand copies there
        others =
      rw there (
        rw copies (
          pipe_hooks-skip copyable known h xs ys tea cat (value_hooks-GivesBack h m) at_hand
          ∙ execute_others copyable known without h.name (xs ++ ys) tea cat copies others))

  -- The same for the hooks that are called with the cat alone.
  pub execute_hook-cat_hooks :
      (copyable : T → Bool) (known : String → Bool) (hooks : Dict (List (CatHook T W)))
      (h : CatHook T W) (xs ys : List (CatHook T W)) (cat : W)
      → In h cat_hooks
      → lookup h.name hooks ≡ some (xs ++ h ∷ ys)
      → execute_hook copyable known hooks h.name [] cat ≡ run_hooks known (xs ++ ys) cat
  unfolding execute_hook
  execute_hook-cat_hooks copyable known hooks h xs ys cat m there =
      rw there (run_hooks-skip known h xs ys cat (cat_hooks-DoesNothing h m))
