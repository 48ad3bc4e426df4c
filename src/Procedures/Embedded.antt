-- ===== src/Procedures/Embedded.antt =====
-- core/cat/looking_glass/cheshire_cat.py: `embed_procedures` leaves every trigger of the active procedures in
-- the procedural memory.
use cat_forked.Prelude.{
  ℕ, ◌+◌, ◌≤◌, ◌≡◌, refl, sym, ap, ◌∙◌, ◌↔◌, inl, inr, String, true, false, Option, none, some,
  List, [], ◌∷◌, In, Dict, lookup, contains, mem_of, arith, ◌==◌, ==_refl, ==→≡, if◌then◌else◌,
  Bool-cases, Option-cases,
}
use mathlib.Core.Path.{subst}
use cat_forked.Vectors.{Value, Point, Qdrant, add_point}
use cat_forked.Procedures.{
  Procedure, Trigger, hash_of_trigger, build_active_procedures_hashes, hash_of_point,
  build_embedded_procedures_hashes, missing_in, values_at, metadata_of, embed_all, deleted, synced,
  embed_procedures,
}
use cat_forked.Procedures.Triggers.{IsHashOf, build_active_procedures_hashes-contains}
use cat_forked.Procedures.Hashes.{
  build_active_procedures_hashes-IsHashed, build_embedded_procedures_hashes-Named, missing_in-In,
  values_at-In, values_at-lookup, In-missing_in, In-mem_of,
}
use cat_forked.Procedures.Stale.{listing, deleted-point_of}

differ :
    {new_id : ℕ → String} (k n : ℕ)
    → ((k m : ℕ) → new_id k ≡ new_id m → k ≡ m)
    → n + 1 ≤ k
    → (new_id k == new_id n) ≡ false
differ {new_id} k n distinct h = elim (Bool-cases (new_id k == new_id n)) [
  | inr other ↦ other
  | inl same ↦ let e = distinct k n (==→≡ same) in absurd (omega arith)
]

module _ {V R : Type 0} (qdrant : Qdrant V R) (show : Value → String) where
  -- The database completes every upsert.
  abbrev pub Completes : Type 0
  Completes = (p : Point V) (db : qdrant.Store) → (qdrant.upsert "procedural" p db).0 ≡ true

  -- What the listing gives is there.
  abbrev pub IsThere : qdrant.Store → Type 0
  IsThere db =
      (p : Point V) → In p (listing qdrant show db) → qdrant.point_of "procedural" p.id db ≡ some p

  -- The new ids are different, and none of them is in use.
  abbrev pub AreFresh : (ℕ → String) → qdrant.Store → Type 0
  AreFresh new_id db =
      ((m n : ℕ) → new_id m ≡ new_id n → m ≡ n)
      × ((n : ℕ) → qdrant.point_of "procedural" (new_id n) db ≡ none)

  abbrev pub HasHash : String → qdrant.Store → Type 0
  HasHash h db =
      (id : String) × (p : Point V) × (qdrant.point_of "procedural" id db ≡ some p)
      × (hash_of_point show p ≡ some h)

  module _ (in_order : List String → List String) (embed_documents : String → Option (List V))
      (now : ℕ) (new_id : ℕ → String) where
    abbrev added : ℕ → Trigger → List V → qdrant.Store → qdrant.Store
    added n t v db =
        (add_point qdrant "procedural" t.content v
          (metadata_of qdrant show in_order embed_documents now new_id t) (new_id n) db).1

    abbrev new_point : ℕ → Trigger → List V → Point V
    new_point n t v = record {
      id = new_id n;
      page_content = t.content;
      metadata = metadata_of qdrant show in_order embed_documents now new_id t;
      vector = qdrant.normalized v;
    }

    unused :
        {db : qdrant.Store} (k : ℕ) (p : Point V)
        → In p (listing qdrant show db)
        → IsThere db
        → AreFresh new_id db
        → (new_id k == p.id) ≡ false
    unused {db} k p m there fresh = elim (Bool-cases (new_id k == p.id)) [
      | inr other ↦ other
      | inl same ↦
          let e =
            sym (fresh.1 k)
            ∙ ap (λ (i : String). qdrant.point_of "procedural" i db) (==→≡ same)
            ∙ there p m in
          absurd (ground arith)
    ]

    module _ (completes : Completes) where
      added-point_of :
          (n : ℕ) (t : Trigger) (v : List V) (id : String) (db : qdrant.Store)
          → qdrant.point_of "procedural" id (added n t v db) ≡ (
              if new_id n == id then some (new_point n t v) else qdrant.point_of "procedural" id db)
      unfolding add_point
      added-point_of n t v id db =
          let p : Point V = record (new_point n t v) { vector = v } in
          qdrant.point_of-upsert "procedural" "procedural" id p db (completes p db)

      embed_all-point_of :
          (n : ℕ) (ts : List Trigger) (id : String) (db : qdrant.Store)
          → ((k : ℕ) → n ≤ k → (new_id k == id) ≡ false)
          → qdrant.point_of "procedural" id
              (embed_all qdrant show in_order embed_documents now new_id n ts db).1
            ≡ qdrant.point_of "procedural" id db
      unfolding embed_all
      embed_all-point_of n [] id db other = refl
      embed_all-point_of n (t ∷ ts) id db other = elim (Option-cases (embed_documents t.content)) [
        | inl failed ↦ rw (failed, embed_all) refl
        | inr (v, embedded) ↦
            rw (embedded, embed_all)
              (embed_all-point_of (n + 1) ts id (added n t v db) (λ k h. other k (omega arith))
                ∙ added-point_of n t v id db
                ∙ rw (other n (omega arith)) refl)
      ]

      embed_all-HasHash :
          (n : ℕ) (ts : List Trigger) (db : qdrant.Store) (t : Trigger)
          → ((k m : ℕ) → new_id k ≡ new_id m → k ≡ m)
          → (embed_all qdrant show in_order embed_documents now new_id n ts db).0 ≡ true
          → In t ts
          → HasHash
              (hash_of_trigger t)
              (embed_all qdrant show in_order embed_documents now new_id n ts db).1
      unfolding embed_all
      embed_all-HasHash n [] db t distinct returned m = absurd m
      embed_all-HasHash n (u ∷ ts) db t distinct returned m =
          elim (Option-cases (embed_documents u.content)) [
            | inl failed ↦ absurd (ground arith)
            | inr (v, embedded) ↦
                let db' = added n u v db in
                rw (embedded, embed_all)
                  (elim m [
                    | inr later ↦ embed_all-HasHash (n + 1) ts db' t distinct (ground arith) later
                    | inl same ↦
                        let other : (k : ℕ) → n + 1 ≤ k → (new_id k == new_id n) ≡ false =
                          λ k h. differ k n distinct h in
                        (
                          new_id n,
                          new_point n u v,
                          embed_all-point_of (n + 1) ts (new_id n) db' other
                              ∙ added-point_of n u v (new_id n) db
                              ∙ rw (==_refl (new_id n)) refl,
                          ap (λ (x : Trigger). some (hash_of_trigger x)) (sym same),
                        )
                  ])
          ]

      -- A point whose hash is active is not deleted.
      kept :
          (active : Dict Trigger) (embedded : Dict String) (db : qdrant.Store) (h : String)
          (p : Point V)
          → ((k : String) (hs : List String) → In k (in_order hs) → In k hs)
          → IsThere db
          → build_embedded_procedures_hashes show (listing qdrant show db) ≡ some embedded
          → contains h active ≡ true
          → In p (listing qdrant show db)
          → hash_of_point show p ≡ some h
          → mem_of p.id (values_at embedded (in_order (missing_in embedded active))) ≡ false
      kept active embedded db h p lists there built is_active m hashed =
          let hs = in_order (missing_in embedded active) in
          elim (Bool-cases (mem_of p.id (values_at embedded hs))) [
            | inr stays ↦ stays
            | inl gone ↦
                let (k, mk, named) =
                  values_at-lookup embedded p.id hs (In-mem_of p.id (values_at embedded hs) gone) in
                let stale =
                  In-missing_in k embedded active (lists k (missing_in embedded active) mk) in
                let (q, mq, hq, same) =
                  build_embedded_procedures_hashes-Named show (listing qdrant show db) embedded k
                    p.id built named in
                let e : some q ≡ some p =
                  sym (there q mq)
                  ∙ ap (λ (i : String). qdrant.point_of "procedural" i db) same
                  ∙ there p m in
                let e' : q ≡ p = ground arith in
                let f : some k ≡ some h = sym hq ∙ ap (hash_of_point show) e' ∙ hashed in
                let f' : k ≡ h = ground arith in
                absurd (ground (arith, ap (λ (x : String). contains x active) f'))
          ]

      -- Once it has returned, every trigger in the `triggers_map` of an active procedure is in the procedural
      -- memory, under its hash. The database is taken to complete the upserts, the listing to be right, the
      -- ids of the new points to be fresh, and the list of a set to have what the set has.
      pub embed_procedures-HasHash :
          (procedures : List Procedure) (db : qdrant.Store) (h : String)
          → ((k : String) (hs : List String) → In k (in_order hs) ↔ In k hs)
          → IsThere db
          → AreFresh new_id db
          → let (returned, db') =
              embed_procedures qdrant show in_order embed_documents now new_id procedures db in
            returned ≡ true → IsHashOf procedures h → HasHash h db'
      unfolding embed_procedures synced
      embed_procedures-HasHash procedures db h lists there fresh returned is_hash =
          let is_active = build_active_procedures_hashes-contains procedures h is_hash in
          let active = build_active_procedures_hashes procedures in
          elim (Option-cases (build_embedded_procedures_hashes show (listing qdrant show db))) [
            | inl missing ↦ absurd (ground arith)
            | inr (embedded, built) ↦
                let ids = values_at embedded (in_order (missing_in embedded active)) in
                let ts = values_at active (in_order (missing_in active embedded)) in
                let db₁ = deleted qdrant show in_order embed_documents now new_id ids db in
                rw built (elim (Option-cases (lookup h embedded)) [
                  | inr (id, named) ↦
                      let (p, m, hashed, same) =
                        build_embedded_procedures_hashes-Named show (listing qdrant show db)
                          embedded h id built named in
                      (
                        p.id,
                        p,
                        embed_all-point_of 0 ts p.id db₁ (λ k _. unused k p m there fresh)
                            ∙ deleted-point_of qdrant show in_order embed_documents now new_id ids
                                p.id db
                            ∙ rw
                                (kept active embedded db h p (λ k hs. (lists k hs).0) there built
                                  is_active m hashed)
                                (there p m),
                        hashed,
                      )
                  | inl missing ↦ elim (Option-cases (lookup h active)) [
                    | inl gone ↦ absurd (ground arith)
                    | inr (t, active_t) ↦
                        let wanted = missing_in-In h active embedded is_active (ground arith) in
                        let m =
                          values_at-In active h t (in_order (missing_in active embedded))
                            ((lists h (missing_in active embedded)).1 wanted) active_t in
                        let same =
                          build_active_procedures_hashes-IsHashed procedures h t active_t in
                        subst
                          (λ (x : String).
                            HasHash x
                              (embed_all qdrant show in_order embed_documents now new_id 0 ts
                                db₁).1)
                          same (embed_all-HasHash 0 ts db₁ t fresh.0 (ground arith) m)
                  ]
                ])
          ]
