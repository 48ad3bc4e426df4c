-- ===== src/Procedures/Stale.antt =====
-- core/cat/looking_glass/cheshire_cat.py: `embed_procedures` leaves no trigger of a plugin that is gone, and
-- does nothing where nothing has changed.
use cat_forked.Prelude.{
  ℕ, ◌+◌, ◌≡◌, refl, sym, ap, ◌∙◌, inl, inr, String, true, false, Option, none, some, List, [], ◌∷◌,
  In, Dict, lookup, contains, mem_of, arith, ◌==◌, if◌then◌else◌, Bool-cases, Option-cases,
}
use mathlib.Core.Path.{subst}
use cat_forked.Vectors.{Value, Point, Qdrant, add_point, delete_points, get_all_points}
use cat_forked.Procedures.{
  Procedure, Trigger, hash_of_trigger, build_active_procedures_hashes, hash_of_point,
  build_embedded_procedures_hashes, missing_in, values_at, metadata_of, embed_all, deleted, synced,
  embed_procedures,
}
use cat_forked.Procedures.Triggers.{IsHashOf, build_active_procedures_hashes-IsHashOf}
use cat_forked.Procedures.Hashes.{
  build_active_procedures_hashes-IsHashed, build_embedded_procedures_hashes-Named,
  build_embedded_procedures_hashes-hashed, missing_in-In, values_at-In, values_at-lookup, mem_of-In,
}

module _ {V R : Type 0} (qdrant : Qdrant V R) (show : Value → String) where
  abbrev pub listing : qdrant.Store → List (Point V)
  listing db = (get_all_points qdrant "procedural" 10000 none db).0

  -- The listing has all points of the procedural memory, each under its id, and no two with one hash.
  pub record IsListed (db : qdrant.Store) : Type 0 where
    pub complete :
        (id : String) (p : Point V)
        → qdrant.point_of "procedural" id db ≡ some p
        → In p (listing db) × (p.id ≡ id)
    pub unique :
        (p q : Point V) (h : String)
        → In p (listing db)
        → In q (listing db)
        → hash_of_point show p ≡ some h
        → hash_of_point show q ≡ some h
        → p.id ≡ q.id

  -- The hash of the point is that of a trigger of one of the procedures.
  abbrev pub IsActive : List Procedure → Point V → Type 0
  IsActive procedures p = (h : String) × (hash_of_point show p ≡ some h) × IsHashOf procedures h

  -- The dictionary has the hash of the point.
  abbrev IsKnown : Dict Trigger → Point V → Type 0
  IsKnown active p = (h : String) × (hash_of_point show p ≡ some h) × (contains h active ≡ true)

  abbrev AllKnown : Dict Trigger → qdrant.Store → Type 0
  AllKnown active db =
      (id : String) (p : Point V) → qdrant.point_of "procedural" id db ≡ some p → IsKnown active p

  module _ (in_order : List String → List String) (embed_documents : String → Option (List V))
      (now : ℕ) (new_id : ℕ → String) where
    add_point-AllKnown :
        (active : Dict Trigger) (t : Trigger) (v : List V) (id : String) (db : qdrant.Store)
        → contains (hash_of_trigger t) active ≡ true
        → AllKnown active db
        → AllKnown active
            (add_point qdrant "procedural" t.content v
              (metadata_of qdrant show in_order embed_documents now new_id t)
              id
              db).1
    unfolding add_point
    add_point-AllKnown active t v id db is_active all other p there =
        let q : Point V = record {
          id = id;
          page_content = t.content;
          metadata = metadata_of qdrant show in_order embed_documents now new_id t;
          vector = v;
        } in
        let db' = (qdrant.upsert "procedural" q db).1 in
        elim (Bool-cases (qdrant.upsert "procedural" q db).0) [
          | inr failed ↦ all other p (
              sym (
                ap (qdrant.point_of "procedural" other)
                  (qdrant.upsert_fails "procedural" q db failed))
              ∙ there)
          | inl done ↦
              let e =
                sym (qdrant.point_of-upsert "procedural" "procedural" other q db done) ∙ there in
              elim (Bool-cases (id == other)) [
                | inl same ↦
                    let is_new : record q { vector = qdrant.normalized v } ≡ p = ground arith in
                    subst (IsKnown active) is_new (hash_of_trigger t, refl, is_active)
                | inr differ ↦ all other p (ground arith)
              ]
        ]

    embed_all-AllKnown :
        (active : Dict Trigger) (n : ℕ) (ts : List Trigger) (db : qdrant.Store)
        → ((t : Trigger) → In t ts → contains (hash_of_trigger t) active ≡ true)
        → AllKnown active db
        → AllKnown active (embed_all qdrant show in_order embed_documents now new_id n ts db).1
    unfolding embed_all
    embed_all-AllKnown active n [] db known all = all
    embed_all-AllKnown active n (t ∷ ts) db known all =
        elim (Option-cases (embed_documents t.content)) [
          | inl failed ↦ rw (failed, embed_all) all
          | inr (v, embedded) ↦
              let db' =
                (add_point qdrant "procedural" t.content v
                  (metadata_of qdrant show in_order embed_documents now new_id t) (new_id n)
                  db).1 in
              rw (embedded, embed_all)
                (embed_all-AllKnown active (n + 1) ts db' (λ u m. known u (inr m))
                  (add_point-AllKnown active t v (new_id n) db (known t (inl refl)) all))
        ]

    pub deleted-point_of :
        (ids : List String) (id : String) (db : qdrant.Store)
        → qdrant.point_of "procedural" id
            (deleted qdrant show in_order embed_documents now new_id ids db)
          ≡ (if mem_of id ids then none else qdrant.point_of "procedural" id db)
    unfolding delete_points
    deleted-point_of [] id db = refl
    deleted-point_of (gone ∷ ids) id db =
        qdrant.point_of-delete "procedural" "procedural" (gone ∷ ids) id db

    module _ (lists_all : (h : String) (hs : List String) → In h hs → In h (in_order hs)) where
      deleted-AllKnown :
          (active : Dict Trigger) (embedded : Dict String) (db : qdrant.Store)
          → IsListed db
          → build_embedded_procedures_hashes show (listing db) ≡ some embedded
          → AllKnown active (
              deleted qdrant show in_order embed_documents now new_id
                (values_at embedded (in_order (missing_in embedded active)))
                db)
      deleted-AllKnown active embedded db listed built id p there =
          let ids = values_at embedded (in_order (missing_in embedded active)) in
          let e = sym (deleted-point_of ids id db) ∙ there in
          let kept : mem_of id ids ≡ false = ground arith in
          let was : qdrant.point_of "procedural" id db ≡ some p = ground arith in
          let (m, has_id) = listed.complete id p was in
          let (h, hashed, known) =
            build_embedded_procedures_hashes-hashed show (listing db) embedded p built m in
          elim (Bool-cases (contains h active)) [
            | inl is_active ↦ (h, hashed, is_active)
            | inr stale ↦ elim (Option-cases (lookup h embedded)) [
              | inl missing ↦ absurd (ground arith)
              | inr (other, named) ↦
                  let (q, mq, hq, same) =
                    build_embedded_procedures_hashes-Named show (listing db) embedded h other built
                      named in
                  let e' : other ≡ id = sym same ∙ listed.unique q p h mq m hq hashed ∙ has_id in
                  let gone = mem_of-In other ids (
                    values_at-In embedded h other (in_order (missing_in embedded active))
                      (lists_all h (missing_in embedded active)
                        (missing_in-In h embedded active known stale))
                      named) in
                  absurd (ground arith)
            ]
          ]

      embed_procedures-IsKnown :
          (procedures : List Procedure) (db : qdrant.Store) (id : String) (p : Point V)
          → IsListed db
          → let (returned, db') =
              embed_procedures qdrant show in_order embed_documents now new_id procedures db in
            returned ≡ true
            → qdrant.point_of "procedural" id db' ≡ some p
            → IsKnown (build_active_procedures_hashes procedures) p
      unfolding embed_procedures synced
      embed_procedures-IsKnown procedures db id p listed returned there =
          let active = build_active_procedures_hashes procedures in
          elim (Option-cases (build_embedded_procedures_hashes show (listing db))) [
            | inl missing ↦ absurd (ground arith)
            | inr (embedded, built) ↦
                let ts = values_at active (in_order (missing_in active embedded)) in
                embed_all-AllKnown active 0 ts
                  (deleted qdrant show in_order embed_documents now new_id
                    (values_at embedded (in_order (missing_in embedded active))) db)
                  (λ t m.
                    let (h, m', there) =
                      values_at-lookup active t (in_order (missing_in active embedded)) m in
                    let same = build_active_procedures_hashes-IsHashed procedures h t there in
                    rw same (rw there refl))
                  (deleted-AllKnown active embedded db listed built) id p (ground (arith, built))
          ]

      -- Once it has returned, every point of the procedural memory belongs to an active procedure: its hash
      -- is that of a trigger in the `triggers_map` of one of them. The listing is taken to have all points, no
      -- two with one hash, and the list of a set to have all that the set has.
      pub embed_procedures-IsActive :
          (procedures : List Procedure) (db : qdrant.Store) (id : String) (p : Point V)
          → IsListed db
          → let (returned, db') =
              embed_procedures qdrant show in_order embed_documents now new_id procedures db in
            returned ≡ true → qdrant.point_of "procedural" id db' ≡ some p → IsActive procedures p
      embed_procedures-IsActive procedures db id p listed returned there =
          let (h, hashed, known) =
            embed_procedures-IsKnown procedures db id p listed returned there in
          (h, hashed, build_active_procedures_hashes-IsHashOf procedures h known)
