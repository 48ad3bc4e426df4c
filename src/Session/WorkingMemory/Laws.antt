-- ===== src/Session/WorkingMemory/Laws.antt =====
-- The history of core/cat/memory/working_memory.py over a run of messages.
use cat_forked.Prelude.{
  ℕ, ◌+◌, ◌-◌, ◌≤◌, ◌≡◌, sym, ap, ◌∙◌, List, [], ◌∷◌, ◌++◌, length, drop, take_last, length-drop,
  length-append, drop-append, drop-drop, arith,
}
use mathlib.Core.List.{append-nil, append_assoc}
use cat_forked.Session.WorkingMemory.{update_history, max_working_history_length}

module _ {M : Type 0} where
  -- A window on a window and one more message is a window on all.
  take_last-append :
      (n : ℕ) (xs : List M) (y : M)
      → take_last n (take_last n xs ++ y ∷ []) ≡ take_last n (xs ++ y ∷ [])
  take_last-append n xs y =
      let k : ℕ = length xs - n in
      let window : take_last n xs ++ y ∷ [] ≡ drop k (xs ++ y ∷ []) =
        sym (drop-append k xs (y ∷ []) (omega arith)) in
      let count : length (drop k (xs ++ y ∷ [])) - n + k ≡ length (xs ++ y ∷ []) - n =
        omega (arith, length-drop k (xs ++ y ∷ []), length-append xs (y ∷ [])) in
      ap (take_last n) window
      ∙ drop-drop (length (drop k (xs ++ y ∷ [])) - n) k (xs ++ y ∷ [])
      ∙ ap (λ (m : ℕ). drop m (xs ++ y ∷ []))
          (let swap : k + (length (drop k (xs ++ y ∷ [])) - n) ≡ length (xs ++ y ∷ []) - n =
              omega (arith, count) in
            swap)

  pub length-take_last : (n : ℕ) (xs : List M) → length (take_last n xs) ≤ n
  length-take_last n xs = omega (arith, length-drop (length xs - n) xs)

  -- The history after a run of messages.
  pub update_all : List M → List M → List M
  update_all history [] = history
  update_all history (m ∷ ms) = update_all (update_history m history) ms

  update_all-window :
      (seen ms : List M)
      → update_all (take_last max_working_history_length seen) ms
        ≡ take_last max_working_history_length (seen ++ ms)
  unfolding update_all update_history
  update_all-window seen [] = rw append-nil
  update_all-window seen (m ∷ ms) =
      ap (λ (h : List M). update_all h ms) (take_last-append max_working_history_length seen m)
      ∙ update_all-window (seen ++ m ∷ []) ms
      ∙ ap (take_last max_working_history_length) (append_assoc seen (m ∷ []) ms)

  -- However many messages are added to an empty history, it is the last twenty of them, in order,
  -- and has at most twenty.
  pub update_all-eq-take_last :
      (ms : List M)
      → (update_all [] ms ≡ take_last max_working_history_length ms)
        × (length (update_all [] ms) ≤ 20)
  update_all-eq-take_last ms =
      let e : update_all [] ms ≡ take_last max_working_history_length ms =
        update_all-window [] ms in
      (e, rw e (length-take_last 20 ms))
