-- ===== src/Form/States.antt =====
-- core/cat/experimental/form/cat_form.py: the states of a form between two calls of `next`, and when its data is submitted.
use cat_forked.Prelude.{
  ◌≡◌, refl, ◌⊎◌, inl, inr, Bool, true, false, Option, none, some, List, [], ◌∷◌, ◌++◌, erase,
  arith, if◌then◌else◌, Bool-cases, Option-cases, ap, ◌∙◌,
}
use cat_forked.Form.Action.{Turn, pure, gets, modify, world, ◌>>=◌, ◌>>◌, bind_rule}
use cat_forked.Form.{
  CatForm, CatFormState, incomplete, complete, wait_confirm, closed, Model, FieldError, Output,
  submitted, message_closed, message_wait_confirm, message_incomplete, invalid_state, FormClass,
  sanitize, merge, collect, after_validation, validate, extract, update, proceed, confirm,
  confirmed, close_and_submit, next, check_exit_intent, if_complete, if_incomplete, set_state,
  next_from,
}

module _ {W : Type 0} (cls : FormClass W) where
  -- Between two calls a form is not `complete`, and one that waits for a confirmation holds data
  -- that validates.
  abbrev pub IsSettled : CatFormState → Model → Type 0
  IsSettled incomplete model = Unit
  IsSettled complete model = ⊥
  IsSettled wait_confirm model = cls.validation model ≡ some []
  IsSettled closed model = Unit

  abbrev pub Settled : CatForm → Type 0
  Settled f = IsSettled f.state f.model

  -- What is submitted validates.
  abbrev pub SubmitsValid : Option Output → Type 0
  SubmitsValid none = Unit
  SubmitsValid (some message_closed) = Unit
  SubmitsValid (some (message_wait_confirm m fs es)) = Unit
  SubmitsValid (some (message_incomplete m fs es)) = Unit
  SubmitsValid (some invalid_state) = Unit
  SubmitsValid (some (submitted m reply)) = cls.validation m ≡ some []

  abbrev pub Good : Option Output × Turn CatForm W → Type 0
  Good (r, t) = Settled t.self × SubmitsValid r

  state-collect :
      (es : List FieldError) (t : Turn CatForm W) → (collect cls es t).1.self.state ≡ t.self.state
  unfolding collect
  state-collect [] t = refl
  state-collect (e ∷ es) t = elim (Option-cases e.field) [
    | inl nowhere ↦ rw (nowhere, collect) refl
    | inr (field, named) ↦
        let missing : CatForm = record t.self {
          missing_fields = t.self.missing_fields ++ field ∷ [];
        } in
        let wrong : CatForm = record t.self {
          errors = t.self.errors ++ e.msg ∷ [];
          model = erase field t.self.model;
        } in
        rw (named, collect)
          (ground (
            arith,
            state-collect es (record t { self = missing }),
            state-collect es (record t { self = wrong }),
          ))
  ]

  -- After an update: complete with valid data, or incomplete.
  abbrev Updated : Option (Unit {0}) × Turn CatForm W → Type 0
  Updated (r, t) =
      (r ≡ some tt) × (t.self.state ≡ complete) × (cls.validation t.self.model ≡ some [])
      ⊎ (t.self.state ≡ incomplete)

  after_validation-Updated :
      (es : Option (List FieldError)) (t : Turn CatForm W)
      → t.self.state ≡ incomplete
      → cls.validation t.self.model ≡ es
      → Updated (after_validation cls es t)
  unfolding after_validation
  after_validation-Updated none t h e = inr h
  after_validation-Updated (some []) t h e = inl (refl, refl, e)
  after_validation-Updated (some (x ∷ es)) t h e = ground (arith, state-collect (x ∷ es) t)

  validate-Updated : (t : Turn CatForm W) → t.self.state ≡ incomplete → Updated (validate cls t)
  unfolding validate
  validate-Updated t h =
      after_validation-Updated (cls.validation t.self.model)
        (record t { self = record t.self { missing_fields = []; errors = [] } }) h refl

  self-extract : (t : Turn CatForm W) → (extract cls t).1.self ≡ t.self
  unfolding extract
  self-extract t = ground arith

  update-Updated : (t : Turn CatForm W) → t.self.state ≡ incomplete → Updated (update cls t)
  unfolding update
  update-Updated t h =
      bind_rule (extract cls)
        (λ details.
          modify (λ f. record f { model = merge f.model (sanitize details) }) >> validate cls)
        t Updated (λ e. inr (ap (λ (f : CatForm). f.state) (self-extract t) ∙ h))
        (λ details e.
          validate-Updated
            (record (extract cls t).1 {
              self = record (extract cls t).1.self {
                model = merge (extract cls t).1.self.model (sanitize details);
              };
            })
            (ap (λ (f : CatForm). f.state) (self-extract t) ∙ h))

  close_and_submit-Good :
      (t : Turn CatForm W) → cls.validation t.self.model ≡ some [] → Good (close_and_submit cls t)
  unfolding close_and_submit
  close_and_submit-Good t v =
      bind_rule (world (cls.submit t.self.model)) (λ reply. pure (submitted t.self.model reply))
        (record t { self = record t.self { state = closed } }) Good (λ e. (tt, tt))
        (λ reply e. (tt, v))

  -- The two ways on from an update: complete data is submitted or put up for confirmation.
  if_complete-Good :
      (t : Turn CatForm W) (st : CatFormState)
      → t.self.state ≡ st
      → (st ≡ complete) × (cls.validation t.self.model ≡ some []) ⊎ IsSettled st t.self.model
      → Good (if_complete cls st t)
  unfolding if_complete
  if_complete-Good t complete e (inr h) = absurd h
  if_complete-Good t complete e (inl h) = elim (Bool-cases cls.ask_confirm) [
    | inl asks ↦ rw asks (h.1, tt)
    | inr direct ↦ rw direct (close_and_submit-Good t h.1)
  ]
  if_complete-Good t incomplete e h = rw e (tt, tt)
  if_complete-Good t wait_confirm e (inl h) = absurd (cc (h.0))
  if_complete-Good t wait_confirm e (inr h) = rw e (h, tt)
  if_complete-Good t closed e h = rw e (tt, tt)

  if_incomplete-Updated :
      (t : Turn CatForm W) (st : CatFormState)
      → t.self.state ≡ st
      → (st ≡ incomplete) ⊎ (st ≡ closed)
      → let (r, t') = if_incomplete cls st t in Updated (r, t') ⊎ (t'.self.state ≡ closed)
  unfolding if_incomplete
  if_incomplete-Updated t incomplete e h = inl (update-Updated t e)
  if_incomplete-Updated t closed e h = inr e
  if_incomplete-Updated t complete e h = ground arith
  if_incomplete-Updated t wait_confirm e h = ground arith

  self-check_exit_intent : (t : Turn CatForm W) → (check_exit_intent cls t).1.self ≡ t.self
  unfolding check_exit_intent
  self-check_exit_intent t = ground arith

  self-confirm : (t : Turn CatForm W) → (confirm cls t).1.self ≡ t.self
  unfolding confirm
  self-confirm t = ground arith

  -- The form goes on, or is closed.
  abbrev IsGoing : CatForm → Type 0
  IsGoing f = (f.state ≡ incomplete) ⊎ (f.state ≡ closed)

  IsGoing-Settled : (f : CatForm) → IsGoing f → Settled f
  IsGoing-Settled f (inl e) = rw e tt
  IsGoing-Settled f (inr e) = rw e tt

  after_update-stop :
      (t : Turn CatForm W) (r : Option (Unit {0}))
      → Updated (r, t) ⊎ (t.self.state ≡ closed)
      → r ≡ none
      → Settled t.self
  after_update-stop t r (inr e) stop = IsGoing-Settled t.self (inr e)
  after_update-stop t r (inl (inr e)) stop = IsGoing-Settled t.self (inl e)
  after_update-stop t r (inl (inl done)) stop = absurd (ground arith)

  after_update-Good :
      (t : Turn CatForm W) (r : Option (Unit {0}))
      → Updated (r, t) ⊎ (t.self.state ≡ closed)
      → Good (if_complete cls t.self.state t)
  after_update-Good t r (inr e) =
      if_complete-Good t t.self.state refl (inr (IsGoing-Settled t.self (inr e)))
  after_update-Good t r (inl (inr e)) =
      if_complete-Good t t.self.state refl (inr (IsGoing-Settled t.self (inl e)))
  after_update-Good t r (inl (inl done)) =
      if_complete-Good t t.self.state refl (inl (done.1, done.2))

  after_exit-Good :
      (t : Turn CatForm W)
      → IsGoing t.self
      → Good ((if_incomplete cls t.self.state >> (gets (λ f. f.state) >>= if_complete cls)) t)
  after_exit-Good t h =
      let (r, t') = if_incomplete cls t.self.state t in
      let updated = if_incomplete-Updated t t.self.state refl h in
      bind_rule (if_incomplete cls t.self.state) (λ _. gets (λ f. f.state) >>= if_complete cls) t
        Good (λ e. (after_update-stop t' r updated e, tt)) (λ u e. after_update-Good t' r updated)

  proceed-Good : (t : Turn CatForm W) → IsGoing t.self → Good (proceed cls t)
  unfolding proceed
  proceed-Good t h =
      bind_rule (check_exit_intent cls)
        (λ exit.
          (if exit then set_state cls closed else pure tt)
          >> (gets (λ f. f.state) >>= λ before.
              if_incomplete cls before >> (gets (λ f. f.state) >>= if_complete cls)))
        t Good (λ e. (rw self-check_exit_intent (IsGoing-Settled t.self h), tt))
        (λ exit e. elim (Bool-cases exit) [
          | inl leaves ↦ rw leaves (
              after_exit-Good
                (let t' = (check_exit_intent cls t).1 in
                  record t' { self = record t'.self { state = closed } })
                (inr refl))
          | inr stays ↦
              rw stays (after_exit-Good (check_exit_intent cls t).1 (rw self-check_exit_intent h))
        ])

  confirmed-Good :
      (agreed : Bool) (t : Turn CatForm W)
      → Settled t.self
      → cls.validation t.self.model ≡ some []
      → Good (confirmed cls agreed t)
  unfolding confirmed
  confirmed-Good true t h v = close_and_submit-Good t v
  confirmed-Good false t h v =
      bind_rule (check_exit_intent cls)
        (λ exit. set_state cls (if exit then closed else incomplete) >> proceed cls) t Good
        (λ e. (rw self-check_exit_intent h, tt))
        (λ exit e.
          proceed-Good
            (let t' = (check_exit_intent cls t).1 in
              record t' { self = record t'.self { state = if exit then closed else incomplete } })
            (ground arith))

  next_from-Good :
      (st : CatFormState) (t : Turn CatForm W)
      → t.self.state ≡ st
      → Settled t.self
      → Good (next_from cls st t)
  unfolding next_from
  next_from-Good incomplete t e h = proceed-Good t (inl e)
  next_from-Good closed t e h = proceed-Good t (inr e)
  next_from-Good complete t e h = absurd (rw e at h)
  next_from-Good wait_confirm t e h =
      bind_rule (confirm cls) (confirmed cls) t Good (λ _. (rw self-confirm h, tt))
        (λ agreed _.
          confirmed-Good agreed (confirm cls t).1 (rw self-confirm h) (rw self-confirm (rw e at h)))

  -- Where a form is not `complete`, and holds valid data if it waits for a confirmation, a call
  -- of `next`, also one that raises, leaves such a form, and only data that validates is
  -- submitted.
  pub next-Good : (t : Turn CatForm W) → Settled t.self → Good (next cls t)
  unfolding next
  next-Good t h = next_from-Good t.self.state t refl h
