-- ===== src/Procedures/Hashes.antt =====
-- core/cat/looking_glass/cheshire_cat.py: the dictionaries of the hashes.
use cat_forked.Prelude.{
  ◌≡◌, refl, sym, ap, ◌∙◌, ◌⊎◌, inl, inr, String, Bool, true, false, not, Option, none, some, List,
  [], ◌∷◌, In, Dict, lookup, contains, insert, keys, lookup-insert, filter_by, mem_of, arith, ◌==◌,
  ==_refl, ==→≡, if◌then◌else◌, Bool-cases, Option-cases,
}
use mathlib.Core.Path.{subst}
use cat_forked.Vectors.{Value, Point}
use cat_forked.Procedures.{
  Procedure, Trigger, hash_of_trigger, with_contents, with_triggers, with_procedures,
  build_active_procedures_hashes, hash_of_point, embedded_from, build_embedded_procedures_hashes,
  missing_in, values_at,
}

-- Each trigger stands under its hash.
abbrev pub IsHashed : Dict Trigger → Type 0
IsHashed hashes = (h : String) (t : Trigger) → lookup h hashes ≡ some t → hash_of_trigger t ≡ h

insert-IsHashed :
    (t : Trigger) (hashes : Dict Trigger)
    → IsHashed hashes
    → IsHashed (insert (hash_of_trigger t) t hashes)
insert-IsHashed t hashes sound h u e =
    let e' = sym (lookup-insert (hash_of_trigger t) h t hashes) ∙ e in
    elim (Bool-cases (hash_of_trigger t == h)) [
      | inl same ↦
          let f : some t ≡ some u =
            subst (λ (b : Bool). (if b then some t else lookup h hashes) ≡ some u) same e' in
          let g : t ≡ u = ground arith in
          ap (λ (x : Trigger). hash_of_trigger x) (sym g) ∙ ==→≡ same
      | inr other ↦
          sound h u
            (subst (λ (b : Bool). (if b then some t else lookup h hashes) ≡ some u) other e')
    ]

with_contents-IsHashed :
    (ap : Procedure) (trigger_type : String) (contents : List String) (hashes : Dict Trigger)
    → IsHashed hashes
    → IsHashed (with_contents ap trigger_type contents hashes)
unfolding with_contents
with_contents-IsHashed ap trigger_type [] hashes sound = sound
with_contents-IsHashed ap trigger_type (content ∷ later) hashes sound =
    let t : Trigger = record {
      source = ap.name;
      type = ap.procedure_type;
      trigger_type = trigger_type;
      content = content;
    } in
    with_contents-IsHashed ap trigger_type later (insert (hash_of_trigger t) t hashes)
      (insert-IsHashed t hashes sound)

with_triggers-IsHashed :
    (ap : Procedure) (triggers : Dict (List String)) (hashes : Dict Trigger)
    → IsHashed hashes
    → IsHashed (with_triggers ap triggers hashes)
unfolding with_triggers
with_triggers-IsHashed ap [] hashes sound = sound
with_triggers-IsHashed ap ((trigger_type, contents) ∷ later) hashes sound =
    with_triggers-IsHashed ap later (with_contents ap trigger_type contents hashes)
      (with_contents-IsHashed ap trigger_type contents hashes sound)

with_procedures-IsHashed :
    (ps : List Procedure) (hashes : Dict Trigger)
    → IsHashed hashes
    → IsHashed (with_procedures ps hashes)
unfolding with_procedures
with_procedures-IsHashed [] hashes sound = sound
with_procedures-IsHashed (ap ∷ later) hashes sound =
    with_procedures-IsHashed later (with_triggers ap ap.triggers_map hashes)
      (with_triggers-IsHashed ap ap.triggers_map hashes sound)

pub build_active_procedures_hashes-IsHashed :
    (ps : List Procedure) → IsHashed (build_active_procedures_hashes ps)
unfolding build_active_procedures_hashes
build_active_procedures_hashes-IsHashed ps =
    with_procedures-IsHashed ps [] (λ h t e. absurd (ground arith))

module _ (show : Value → String) {V : Type 0} where
  -- A point of the list with this hash and this id.
  abbrev pub Named : List (Point V) → String → String → Type 0
  Named ps h id = (p : Point V) × In p ps × (hash_of_point show p ≡ some h) × (p.id ≡ id)

  embedded_from-Named :
      (hashes : Dict String) (ps : List (Point V)) (out : Dict String) (h id : String)
      → embedded_from show hashes ps ≡ some out
      → lookup h out ≡ some id
      → (lookup h hashes ≡ some id) ⊎ Named ps h id
  unfolding embedded_from
  embedded_from-Named hashes [] out h id e there = inl (ground arith)
  embedded_from-Named hashes (p ∷ ps) out h id e there =
      elim (Option-cases (hash_of_point show p)) [
        | inl missing ↦ absurd (ground arith)
        | inr (k, hashed) ↦
            elim (embedded_from-Named (insert k p.id hashes) ps out h id (ground arith) there) [
              | inr (q, m, hq, same) ↦ inr (q, inr m, hq, same)
              | inl before ↦ elim (Bool-cases (k == h)) [
                | inr other ↦ inl (ground (arith, lookup-insert k h p.id hashes))
                | inl same ↦ inr (
                  p,
                  inl refl,
                  hashed ∙ ap (λ (x : String). some x) (==→≡ same),
                  ground (arith, lookup-insert k h p.id hashes),
                )
              ]
            ]
      ]

  embedded_from-contains :
      (hashes : Dict String) (ps : List (Point V)) (out : Dict String) (h : String)
      → embedded_from show hashes ps ≡ some out
      → contains h hashes ≡ true
      → contains h out ≡ true
  unfolding embedded_from
  embedded_from-contains hashes [] out h e there = ground arith
  embedded_from-contains hashes (p ∷ ps) out h e there =
      elim (Option-cases (hash_of_point show p)) [
        | inl missing ↦ absurd (ground arith)
        | inr (k, hashed) ↦
            embedded_from-contains (insert k p.id hashes) ps out h (ground arith)
              (ground (arith, lookup-insert k h p.id hashes))
      ]

  embedded_from-hashed :
      (hashes : Dict String) (ps : List (Point V)) (out : Dict String) (p : Point V)
      → embedded_from show hashes ps ≡ some out
      → In p ps
      → (h : String) × (hash_of_point show p ≡ some h) × (contains h out ≡ true)
  unfolding embedded_from
  embedded_from-hashed hashes [] out p e m = absurd m
  embedded_from-hashed hashes (q ∷ ps) out p e m = elim (Option-cases (hash_of_point show q)) [
    | inl missing ↦ absurd (ground arith)
    | inr (k, hashed) ↦ elim m [
      | inl same ↦ (
        k,
        ap (hash_of_point show) same ∙ hashed,
        embedded_from-contains (insert k q.id hashes) ps out k (ground arith)
            (rw (lookup-insert k k q.id hashes) (rw (==_refl k) refl)),
      )
      | inr later ↦ embedded_from-hashed (insert k q.id hashes) ps out p (ground arith) later
    ]
  ]

  -- What stands in the dictionary of the embedded procedures is the id of a point with this hash, and each
  -- point's hash is there.
  pub build_embedded_procedures_hashes-Named :
      (ps : List (Point V)) (out : Dict String) (h id : String)
      → build_embedded_procedures_hashes show ps ≡ some out
      → lookup h out ≡ some id
      → Named ps h id
  unfolding build_embedded_procedures_hashes
  build_embedded_procedures_hashes-Named ps out h id e there =
      elim (embedded_from-Named [] ps out h id e there) [
        | inl nothing ↦ absurd (ground arith)
        | inr named ↦ named
      ]

  pub build_embedded_procedures_hashes-hashed :
      (ps : List (Point V)) (out : Dict String) (p : Point V)
      → build_embedded_procedures_hashes show ps ≡ some out
      → In p ps
      → (h : String) × (hash_of_point show p ≡ some h) × (contains h out ≡ true)
  unfolding build_embedded_procedures_hashes
  build_embedded_procedures_hashes-hashed ps out p e m = embedded_from-hashed [] ps out p e m

In-keys : {A : Type 0} (h : String) (d : Dict A) → contains h d ≡ true → In h (keys d)
In-keys h [] e = absurd (ground arith)
In-keys h ((k, a) ∷ d) e = elim (Bool-cases (k == h)) [
  | inl same ↦ inl (sym (==→≡ same))
  | inr other ↦ inr (In-keys h d (ground arith))
]

filter_by-In :
    {A : Type 0} (p : A → Bool) (a : A) (xs : List A) → In a xs → p a ≡ true → In a (filter_by p xs)
filter_by-In p a [] m h = m
filter_by-In p a (x ∷ xs) (inl e) h = rw (ap p (sym e) ∙ h) (inl e)
filter_by-In p a (x ∷ xs) (inr m) h = elim (Bool-cases (p x)) [
  | inl t ↦ rw t (inr (filter_by-In p a xs m h))
  | inr f ↦ rw f (filter_by-In p a xs m h)
]

pub missing_in-In :
    {A B : Type 0} (h : String) (d : Dict A) (e : Dict B)
    → contains h d ≡ true
    → contains h e ≡ false
    → In h (missing_in d e)
missing_in-In h d e there missing =
    filter_by-In (λ k. not (contains k e)) h (keys d) (In-keys h d there) (rw missing refl)

pub values_at-In :
    {A : Type 0} (d : Dict A) (h : String) (a : A) (hs : List String)
    → In h hs
    → lookup h d ≡ some a
    → In a (values_at d hs)
values_at-In d h a [] m e = absurd m
values_at-In d h a (k ∷ hs) (inl same) e =
    rw (ap (λ (x : String). lookup x d) (sym same) ∙ e, In) (inl refl)
values_at-In d h a (k ∷ hs) (inr m) e = elim (Option-cases (lookup k d)) [
  | inl missing ↦ rw (missing, In) (values_at-In d h a hs m e)
  | inr (b, there) ↦ rw (there, In) (inr (values_at-In d h a hs m e))
]

-- What the list has under its keys.
pub values_at-lookup :
    {A : Type 0} (d : Dict A) (a : A) (hs : List String)
    → In a (values_at d hs)
    → (h : String) × In h hs × (lookup h d ≡ some a)
values_at-lookup d a [] m = absurd m
values_at-lookup d a (k ∷ hs) m = elim (Option-cases (lookup k d)) [
  | inl missing ↦
      let (h, there, e) = values_at-lookup d a hs (
        subst
          (λ (o : Option _). In a (elim o [ some b ↦ b ∷ values_at d hs | none ↦ values_at d hs ]))
          missing m) in
      (h, inr there, e)
  | inr (b, named) ↦
      elim (subst
        (λ (o : Option _). In a (elim o [ some c ↦ c ∷ values_at d hs | none ↦ values_at d hs ]))
        named m) [
          | inl same ↦ (k, inl refl, named ∙ ap (λ (x : _). some x) (sym same))
          | inr later ↦ let (h, there, e) = values_at-lookup d a hs later in (h, inr there, e)
        ]
]

In-filter_by :
    {A : Type 0} (p : A → Bool) (a : A) (xs : List A) → In a (filter_by p xs) → p a ≡ true
In-filter_by p a [] m = absurd m
In-filter_by p a (x ∷ xs) m = elim (Bool-cases (p x)) [
  | inr f ↦
      In-filter_by p a xs
        (subst (λ (b : Bool). In a (if b then x ∷ filter_by p xs else filter_by p xs)) f m)
  | inl t ↦
      elim (subst (λ (b : Bool). In a (if b then x ∷ filter_by p xs else filter_by p xs)) t m) [
        | inl same ↦ ap p same ∙ t
        | inr later ↦ In-filter_by p a xs later
      ]
]

pub In-missing_in :
    {A B : Type 0} (h : String) (d : Dict A) (e : Dict B)
    → In h (missing_in d e)
    → contains h e ≡ false
In-missing_in h d e m = let f = In-filter_by (λ k. not (contains k e)) h (keys d) m in ground arith

pub In-mem_of : (k : String) (ks : List String) → mem_of k ks ≡ true → In k ks
In-mem_of k [] h = absurd (ground arith)
In-mem_of k (j ∷ ks) h = elim (Bool-cases (j == k)) [
  | inl same ↦ inl (sym (==→≡ same))
  | inr other ↦ inr (In-mem_of k ks (ground arith))
]

pub mem_of-In : (k : String) (ks : List String) → In k ks → mem_of k ks ≡ true
mem_of-In k [] m = absurd m
mem_of-In k (j ∷ ks) (inl same) = rw (sym same) (rw (==_refl k) refl)
mem_of-In k (j ∷ ks) (inr m) = ground (arith, mem_of-In k ks m)
