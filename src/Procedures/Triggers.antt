-- ===== src/Procedures/Triggers.antt =====
-- core/cat/looking_glass/cheshire_cat.py: the hashes of the active procedures are those of the triggers in the
-- procedures' own `triggers_map`.
use cat_forked.Prelude.{
  ◌≡◌, refl, sym, ◌⊎◌, inl, inr, String, true, List, [], ◌∷◌, In, Dict, contains, insert,
  lookup-insert, arith, ◌==◌, ==_refl, ==→≡, Bool-cases,
}
use mathlib.Core.Path.{subst}
use cat_forked.Procedures.{
  Procedure, Trigger, p_hash, hash_of_trigger, with_contents, with_triggers, with_procedures,
  build_active_procedures_hashes,
}

-- The trigger stands in the map of the procedure, in the list of its type.
abbrev pub HasTrigger : Dict (List String) → String → String → Type 0
HasTrigger triggers trigger_type content =
    (contents : List String) × In (trigger_type, contents) triggers × In content contents

-- The hash of a trigger of one of the procedures.
abbrev pub IsHashOf : List Procedure → String → Type 0
IsHashOf ps h =
    (p : Procedure) × In p ps
    × (trigger_type : String) × (content : String) × HasTrigger p.triggers_map trigger_type content
    × (h ≡ p_hash p.name trigger_type content)

contains-insert_same :
    {A : Type 0} (k : String) (a : A) (d : Dict A) → contains k (insert k a d) ≡ true
contains-insert_same k a d = rw (lookup-insert k k a d) (rw (==_refl k) refl)

contains-insert_other :
    {A : Type 0} (k h : String) (a : A) (d : Dict A)
    → contains h d ≡ true
    → contains h (insert k a d) ≡ true
contains-insert_other k h a d there = ground (arith, lookup-insert k h a d)

contains-insert_cases :
    {A : Type 0} (k h : String) (a : A) (d : Dict A)
    → contains h (insert k a d) ≡ true
    → (h ≡ k) ⊎ (contains h d ≡ true)
contains-insert_cases k h a d there = elim (Bool-cases (k == h)) [
  | inl same ↦ inl (sym (==→≡ same))
  | inr other ↦ inr (ground (arith, lookup-insert k h a d))
]

abbrev trigger_of : Procedure → String → String → Trigger
trigger_of p trigger_type content = record {
  source = p.name;
  type = p.procedure_type;
  trigger_type = trigger_type;
  content = content;
}

module _ (p : Procedure) where
  with_contents-keeps :
      (trigger_type : String) (contents : List String) (hashes : Dict Trigger) (h : String)
      → contains h hashes ≡ true
      → contains h (with_contents p trigger_type contents hashes) ≡ true
  unfolding with_contents
  with_contents-keeps trigger_type [] hashes h there = there
  with_contents-keeps trigger_type (content ∷ later) hashes h there =
      let t = trigger_of p trigger_type content in
      with_contents-keeps trigger_type later (insert (hash_of_trigger t) t hashes) h
        (contains-insert_other (hash_of_trigger t) h t hashes there)

  with_contents-contains :
      (trigger_type content : String) (contents : List String) (hashes : Dict Trigger)
      → In content contents
      → contains (p_hash p.name trigger_type content) (with_contents p trigger_type contents hashes)
        ≡ true
  unfolding with_contents
  with_contents-contains trigger_type content [] hashes m = absurd m
  with_contents-contains trigger_type content (c ∷ later) hashes (inr m) =
      let t = trigger_of p trigger_type c in
      with_contents-contains trigger_type content later (insert (hash_of_trigger t) t hashes) m
  with_contents-contains trigger_type content (c ∷ later) hashes (inl e) =
      let t = trigger_of p trigger_type c in
      let h = hash_of_trigger t in
      subst
        (λ (x : String).
          contains (p_hash p.name trigger_type x) (with_contents p trigger_type (c ∷ later) hashes)
          ≡ true)
        (sym e)
        (with_contents-keeps trigger_type later (insert h t hashes) h
          (contains-insert_same h t hashes))

  with_contents-cases :
      (trigger_type : String) (contents : List String) (hashes : Dict Trigger) (h : String)
      → contains h (with_contents p trigger_type contents hashes) ≡ true
      → (contains h hashes ≡ true)
        ⊎ ((content : String) × In content contents × (h ≡ p_hash p.name trigger_type content))
  unfolding with_contents
  with_contents-cases trigger_type [] hashes h there = inl there
  with_contents-cases trigger_type (c ∷ later) hashes h there =
      let t = trigger_of p trigger_type c in
      let k = hash_of_trigger t in
      elim (with_contents-cases trigger_type later (insert k t hashes) h there) [
        | inr (content, m, e) ↦ inr (content, inr m, e)
        | inl before ↦ elim (contains-insert_cases k h t hashes before) [
          | inl same ↦ inr (c, inl refl, same)
          | inr old ↦ inl old
        ]
      ]

  with_triggers-keeps :
      (triggers : Dict (List String)) (hashes : Dict Trigger) (h : String)
      → contains h hashes ≡ true
      → contains h (with_triggers p triggers hashes) ≡ true
  unfolding with_triggers
  with_triggers-keeps [] hashes h there = there
  with_triggers-keeps ((trigger_type, contents) ∷ later) hashes h there =
      with_triggers-keeps later (with_contents p trigger_type contents hashes) h
        (with_contents-keeps trigger_type contents hashes h there)

  with_triggers-contains :
      (trigger_type content : String) (triggers : Dict (List String)) (hashes : Dict Trigger)
      → HasTrigger triggers trigger_type content
      → contains (p_hash p.name trigger_type content) (with_triggers p triggers hashes) ≡ true
  unfolding with_triggers
  with_triggers-contains trigger_type content [] hashes (contents, m, n) = absurd m
  with_triggers-contains trigger_type content ((ty, cs) ∷ later) hashes (contents, inr m, n) =
      with_triggers-contains trigger_type content later (with_contents p ty cs hashes)
        (contents, m, n)
  with_triggers-contains trigger_type content ((ty, cs) ∷ later) hashes (contents, inl e, n) =
      subst
        (λ (x : String × List String).
          In content x.1
          → contains (p_hash p.name x.0 content)
              (with_triggers p later (with_contents p ty cs hashes))
            ≡ true)
        (sym e)
        (λ m.
          with_triggers-keeps later (with_contents p ty cs hashes) (p_hash p.name ty content)
            (with_contents-contains ty content cs hashes m))
        n

  with_triggers-cases :
      (triggers : Dict (List String)) (hashes : Dict Trigger) (h : String)
      → contains h (with_triggers p triggers hashes) ≡ true
      → (contains h hashes ≡ true)
        ⊎ ((trigger_type : String) × (content : String) × HasTrigger triggers trigger_type content
            × (h ≡ p_hash p.name trigger_type content))
  unfolding with_triggers
  with_triggers-cases [] hashes h there = inl there
  with_triggers-cases ((ty, cs) ∷ later) hashes h there =
      elim (with_triggers-cases later (with_contents p ty cs hashes) h there) [
        | inr (trigger_type, content, (contents, m, n), e) ↦
            inr (trigger_type, content, (contents, inr m, n), e)
        | inl before ↦ elim (with_contents-cases ty cs hashes h before) [
          | inl old ↦ inl old
          | inr (content, n, e) ↦ inr (ty, content, (cs, inl refl, n), e)
        ]
      ]

with_procedures-keeps :
    (ps : List Procedure) (hashes : Dict Trigger) (h : String)
    → contains h hashes ≡ true
    → contains h (with_procedures ps hashes) ≡ true
unfolding with_procedures
with_procedures-keeps [] hashes h there = there
with_procedures-keeps (p ∷ later) hashes h there =
    with_procedures-keeps later (with_triggers p p.triggers_map hashes) h
      (with_triggers-keeps p p.triggers_map hashes h there)

with_procedures-contains :
    (ps : List Procedure) (hashes : Dict Trigger) (h : String)
    → IsHashOf ps h
    → contains h (with_procedures ps hashes) ≡ true
unfolding with_procedures
with_procedures-contains [] hashes h (p, m, ty, content, has, is_hash) = absurd m
with_procedures-contains (q ∷ later) hashes h (p, inr m, ty, content, has, is_hash) =
    with_procedures-contains later (with_triggers q q.triggers_map hashes) h
      (p, m, ty, content, has, is_hash)
with_procedures-contains (q ∷ later) hashes h (p, inl e, ty, content, has, is_hash) =
    let hashes' = with_triggers q q.triggers_map hashes in
    let has' = subst (λ (x : Procedure). HasTrigger x.triggers_map ty content) e has in
    let is_hash' = subst (λ (x : Procedure). h ≡ p_hash x.name ty content) e is_hash in
    with_procedures-keeps later hashes' h (
      subst (λ (x : String). contains x hashes' ≡ true) (sym is_hash')
        (with_triggers-contains q ty content q.triggers_map hashes has'))

with_procedures-cases :
    (ps : List Procedure) (hashes : Dict Trigger) (h : String)
    → contains h (with_procedures ps hashes) ≡ true
    → (contains h hashes ≡ true) ⊎ IsHashOf ps h
unfolding with_procedures
with_procedures-cases [] hashes h there = inl there
with_procedures-cases (q ∷ later) hashes h there =
    elim (with_procedures-cases later (with_triggers q q.triggers_map hashes) h there) [
      | inr (p, m, ty, content, has, is_hash) ↦ inr (p, inr m, ty, content, has, is_hash)
      | inl before ↦ elim (with_triggers-cases q q.triggers_map hashes h before) [
        | inl old ↦ inl old
        | inr (ty, content, has, is_hash) ↦ inr (q, inl refl, ty, content, has, is_hash)
      ]
    ]

-- The keys of the dictionary of the active procedures are the hashes of their triggers, no more and no less.
pub build_active_procedures_hashes-contains :
    (ps : List Procedure) (h : String)
    → IsHashOf ps h
    → contains h (build_active_procedures_hashes ps) ≡ true
unfolding build_active_procedures_hashes
build_active_procedures_hashes-contains ps h is_hash = with_procedures-contains ps [] h is_hash

pub build_active_procedures_hashes-IsHashOf :
    (ps : List Procedure) (h : String)
    → contains h (build_active_procedures_hashes ps) ≡ true
    → IsHashOf ps h
unfolding build_active_procedures_hashes
build_active_procedures_hashes-IsHashOf ps h there = elim (with_procedures-cases ps [] h there) [
  | inl nothing ↦ absurd (ground arith)
  | inr is_hash ↦ is_hash
]
