-- ===== src/Form/Submit.antt =====
-- core/cat/experimental/form/cat_form.py: when a form that asks for a confirmation submits, and what
-- `sanitize` keeps.
use cat_forked.Prelude.{
  String, ◌≡◌, refl, sym, ap, ◌∙◌, inl, inr, Bool, true, false, Option, none, some, [], ◌∷◌, arith,
  if◌then◌else◌, Bool-cases, In,
}
use mathlib.Core.Bool.{false≢true}
use cat_forked.Form.Action.{Turn, pure, gets, ◌>>=◌, ◌>>◌, bind_rule}
use cat_forked.Form.{
  CatForm, CatFormState, incomplete, complete, wait_confirm, closed, Json, Model, Output, submitted,
  message_closed, message_wait_confirm, message_incomplete, invalid_state, FormClass, is_null_field,
  sanitize, message_of, proceed, confirm, confirmed, next, check_exit_intent, if_complete,
  if_incomplete, set_state, next_from,
}

abbrev pub is_submitted : Option Output → Bool
is_submitted none = false
is_submitted (some message_closed) = false
is_submitted (some (message_wait_confirm m fs es)) = false
is_submitted (some (message_incomplete m fs es)) = false
is_submitted (some invalid_state) = false
is_submitted (some (submitted m reply)) = true

module _ {W : Type 0} (cls : FormClass W) where
  abbrev NotSubmitted : Option Output × Turn CatForm W → Type 0
  NotSubmitted out = is_submitted out.0 ≡ false

  message_of-NotSubmitted :
      (f : CatForm) (st : CatFormState) → is_submitted (some (message_of cls f st)) ≡ false
  unfolding message_of
  message_of-NotSubmitted f incomplete = refl
  message_of-NotSubmitted f _ = refl

  if_complete-NotSubmitted :
      (st : CatFormState) (t : Turn CatForm W)
      → cls.ask_confirm ≡ true
      → NotSubmitted (if_complete cls st t)
  unfolding if_complete
  if_complete-NotSubmitted complete t asks =
      rw asks (message_of-NotSubmitted (record t.self { state = wait_confirm }) wait_confirm)
  if_complete-NotSubmitted incomplete t asks = message_of-NotSubmitted t.self t.self.state
  if_complete-NotSubmitted wait_confirm t asks = message_of-NotSubmitted t.self t.self.state
  if_complete-NotSubmitted closed t asks = message_of-NotSubmitted t.self t.self.state

  after_exit-NotSubmitted :
      (t : Turn CatForm W)
      → cls.ask_confirm ≡ true
      → NotSubmitted
          ((if_incomplete cls t.self.state >> (gets (λ f. f.state) >>= if_complete cls)) t)
  after_exit-NotSubmitted t asks =
      bind_rule (if_incomplete cls t.self.state) (λ _. gets (λ f. f.state) >>= if_complete cls) t
        NotSubmitted (λ _. refl)
        (λ _ _.
          let t' = (if_incomplete cls t.self.state t).1 in
          if_complete-NotSubmitted t'.self.state t' asks)

  proceed-NotSubmitted :
      (t : Turn CatForm W) → cls.ask_confirm ≡ true → NotSubmitted (proceed cls t)
  unfolding proceed
  proceed-NotSubmitted t asks =
      bind_rule (check_exit_intent cls)
        (λ exit.
          (if exit then set_state cls closed else pure tt)
          >> (gets (λ f. f.state) >>= λ before.
              if_incomplete cls before >> (gets (λ f. f.state) >>= if_complete cls)))
        t NotSubmitted (λ _. refl)
        (λ exit _. elim (Bool-cases exit) [
          | inl leaves ↦ rw leaves (
              after_exit-NotSubmitted
                (let t' = (check_exit_intent cls t).1 in
                  record t' { self = record t'.self { state = closed } })
                asks)
          | inr stays ↦ rw stays (after_exit-NotSubmitted (check_exit_intent cls t).1 asks)
        ])

  confirmed-agreed :
      (agreed : Bool) (t : Turn CatForm W)
      → cls.ask_confirm ≡ true
      → is_submitted (confirmed cls agreed t).0 ≡ true
      → agreed ≡ true
  unfolding confirmed
  confirmed-agreed true t asks s = refl
  confirmed-agreed false t asks s = absurd (
      false≢true (
        sym (
          bind_rule (check_exit_intent cls)
            (λ exit. set_state cls (if exit then closed else incomplete) >> proceed cls) t
            NotSubmitted (λ _. refl)
            (λ exit _.
              proceed-NotSubmitted
                (let t' = (check_exit_intent cls t).1 in
                  record t' {
                    self = record t'.self { state = if exit then closed else incomplete };
                  })
                asks))
        ∙ s))

  -- It is submitted only where the user has just agreed.
  abbrev OnlyAgreed : Turn CatForm W → Option Output × Turn CatForm W → Type 0
  OnlyAgreed t out =
      is_submitted out.0 ≡ true → (t.self.state ≡ wait_confirm) × ((confirm cls t).0 ≡ some true)

  next_from-OnlyAgreed :
      (st : CatFormState) (t : Turn CatForm W)
      → cls.ask_confirm ≡ true
      → t.self.state ≡ st
      → OnlyAgreed t (next_from cls st t)
  unfolding next_from
  next_from-OnlyAgreed incomplete t asks e s = absurd (ground (arith, proceed-NotSubmitted t asks))
  next_from-OnlyAgreed complete t asks e s = absurd (ground (arith, proceed-NotSubmitted t asks))
  next_from-OnlyAgreed closed t asks e s = absurd (ground (arith, proceed-NotSubmitted t asks))
  next_from-OnlyAgreed wait_confirm t asks e s =
      bind_rule (confirm cls) (confirmed cls) t (OnlyAgreed t) (λ _ never. absurd (ground arith))
        (λ agreed said s'.
          (e, said ∙ ap (λ (b : Bool). some b) (confirmed-agreed agreed (confirm cls t).1 asks s')))
        s

  -- A form whose class asks for a confirmation submits only from the state `wait_confirm`, and only
  -- if the model's answer confirms.
  pub next-submits_confirmed :
      (t : Turn CatForm W)
      → cls.ask_confirm ≡ true
      → is_submitted (next cls t).0 ≡ true
      → (t.self.state ≡ wait_confirm) × ((confirm cls t).0 ≡ some true)
  unfolding next
  next-submits_confirmed t asks s = next_from-OnlyAgreed t.self.state t asks refl s

-- What is left after `sanitize` is what was there and is no null value, in its order.
pub sanitize-In :
    (p : String × Json) (model : Model)
    → In p (sanitize model)
    → In p model × (is_null_field p.1 ≡ false)
unfolding sanitize
sanitize-In p [] m = absurd m
sanitize-In p (q ∷ model) m =
    ground (arith, sanitize-In p model, ap (λ (r : String × Json). is_null_field r.1))
