-- ===== src/CoreHooks/Tests.antt =====
-- A hook of the core plugin after one of another plugin.
use cat_forked.Prelude.{ℕ, ◌+◌, ◌≡◌, refl, true, some, [], ◌∷◌, inl, inr, pos}
use cat_forked.MadHatter.Hook.{CatHook, raised, value, returned, pipe_hooks, execute_hook}
use cat_forked.CoreHooks.{hook, on_value, cat_recall_query}
use cat_forked.CoreHooks.Neutral.{execute_hook-value_hooks}

abbrev core : CatHook ℕ ℕ
core = hook "cat_recall_query" (on_value cat_recall_query)

abbrev twice : CatHook ℕ ℕ
twice = record {
  name = "cat_recall_query";
  priority = pos 1;
  plugin_id = "loud";
  function =
      λ args cat. elim args [ [] ↦ (raised, cat) | tea ∷ rest ↦ (value (tea + tea), cat + 1) ];
}

execute_hook-value_hooks_example :
    execute_hook
      (λ t. true)
      (λ id. true)
      (("cat_recall_query", twice ∷ core ∷ []) ∷ [])
      "cat_recall_query"
      (7 ∷ [])
      0
    ≡ execute_hook
        (λ t. true)
        (λ id. true)
        (("cat_recall_query", twice ∷ []) ∷ [])
        "cat_recall_query"
        (7 ∷ [])
        0
execute_hook-value_hooks_example =
    execute_hook-value_hooks (λ t. true) (λ id. true) (("cat_recall_query", twice ∷ core ∷ []) ∷ [])
      (("cat_recall_query", twice ∷ []) ∷ []) core (twice ∷ []) [] 7 0 (inr (inl refl)) refl refl
      refl refl

doubled : pipe_hooks (λ t. true) (λ id. true) [] (twice ∷ core ∷ []) 7 0 ≡ (returned (some 14), 1)
unfolding pipe_hooks
doubled = refl
