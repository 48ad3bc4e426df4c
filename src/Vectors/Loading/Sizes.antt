-- ===== src/Vectors/Loading/Sizes.antt =====
-- core/cat/memory/vector_memory.py: the three collections after the initialization of the memory.
use cat_forked.Prelude.{
  ℕ, ◌≡◌, refl, ap, ◌∙◌, inl, inr, String, Bool, true, false, not, ◌&&◌, Option, none, some, mem_of,
  arith, ◌==◌, Bool-cases,
}
use cat_forked.Vectors.{Qdrant, collections}
use cat_forked.Vectors.Keys.{alias_of}
use cat_forked.Vectors.Loading.{
  Collections, same, create_collection, create_db_collection_if_not_exists, check_embedding_size,
  checked, replaced, collection_init, init_all, vector_memory_init,
}
use cat_forked.Vectors.Loading.Aligned.{collection_init-IsAligned}

module _ {V R : Type 0} (qdrant : Qdrant V R) (db_of : Collections qdrant) where
  -- Two stores with the same collection `d`.
  pub record Agree (d : String) (db db' : qdrant.Store) : Type 0 where
    pub same_exists : mem_of d (db_of.names db') ≡ mem_of d (db_of.names db)
    pub same_size : db_of.size d db' ≡ db_of.size d db
    pub same_points : (id : String) → qdrant.point_of d id db' ≡ qdrant.point_of d id db

  Agree-refl : (d : String) (db : qdrant.Store) → Agree d db db
  Agree-refl d db = record { same_exists = refl; same_size = refl; same_points = λ id. refl }

  Agree-trans : {d : String} {a b c : qdrant.Store} → Agree d a b → Agree d b c → Agree d a c
  Agree-trans f g = record {
    same_exists = g.same_exists ∙ f.same_exists;
    same_size = g.same_size ∙ f.same_size;
    same_points = λ id. g.same_points id ∙ f.same_points id;
  }

  module _ (snapshots : Bool) (dump : String → qdrant.Store → Bool) (embedder_name : String)
      (embedder_size : ℕ) where
    created-Agree :
        (c d : String) (db : qdrant.Store)
        → (c == d) ≡ false
        → Agree d db
            (create_collection qdrant db_of snapshots dump embedder_name embedder_size c db)
    unfolding create_collection
    created-Agree c d db differ =
        let a = alias_of embedder_name c in
        let db' = db_of.recreate_collection c embedder_size db in
        record {
          same_exists =
              ap (mem_of d) (db_of.names-alias c a db')
              ∙ db_of.names-recreate c d embedder_size db
              ∙ rw differ refl;
          same_size =
              db_of.size-alias c d a db'
              ∙ db_of.size-recreate c d embedder_size db
              ∙ rw differ refl;
          same_points = λ id.
              db_of.point_of-alias c d a id db'
              ∙ db_of.point_of-recreate c d id embedder_size db
              ∙ rw differ refl;
        }

    deleted-Agree :
        (c d : String) (db : qdrant.Store)
        → (c == d) ≡ false
        → Agree d db (db_of.delete_collection c db).1
    deleted-Agree c d db differ = record {
      same_exists = db_of.names-delete c d db ∙ rw differ refl;
      same_size = db_of.size-delete c d db differ;
      same_points = λ id. db_of.point_of-delete_collection c d id db ∙ rw differ refl;
    }

    checked-Agree :
        (alias : Option String) (c d : String) (db : qdrant.Store)
        → (c == d) ≡ false
        → Agree d db (checked qdrant db_of snapshots dump embedder_name embedder_size alias c db).1
    unfolding checked replaced
    checked-Agree none c d db differ = Agree-refl d db
    checked-Agree (some alias) c d db differ =
        let fresh = (db_of.delete_collection c db).1 in
        elim (Bool-cases
          ((alias_of embedder_name c == alias) && same (db_of.size c db) embedder_size)) [
            | inl aligned ↦ rw aligned (Agree-refl d db)
            | inr other ↦ rw other (elim (Bool-cases (snapshots && not (dump c db))) [
              | inl failed ↦ rw failed (Agree-refl d db)
              | inr dumped ↦
                  rw dumped
                    (Agree-trans (deleted-Agree c d db differ) (created-Agree c d fresh differ))
            ])
          ]

    -- The initialization of one collection leaves the others alone.
    pub collection_init-Agree :
        (c d : String) (db : qdrant.Store)
        → (c == d) ≡ false
        → Agree d db
            (collection_init qdrant db_of snapshots dump embedder_name embedder_size c db).1
    unfolding collection_init create_db_collection_if_not_exists check_embedding_size
    collection_init-Agree c d db differ = elim (Bool-cases (mem_of c (db_of.names db))) [
      | inl there ↦ rw there (checked-Agree (db_of.alias c db) c d db differ)
      | inr missing ↦
          let db' =
            create_collection qdrant db_of snapshots dump embedder_name embedder_size c db in
          rw missing (
            Agree-trans (created-Agree c d db differ)
              (checked-Agree (db_of.alias c db') c d db' differ))
    ]

    abbrev pub HasSize : String → qdrant.Store → Type 0
    HasSize c db = (mem_of c (db_of.names db) ≡ true) × (db_of.size c db ≡ embedder_size)

    Agree-HasSize :
        {d : String} {db db' : qdrant.Store} → Agree d db db' → HasSize d db → HasSize d db'
    Agree-HasSize f h = (f.same_exists ∙ h.0, f.same_size ∙ h.1)

    -- Once the memory is initialized, the three collections exist and take vectors of the embedder's size,
    -- whatever was there before, and a collection that is none of them has what it had.
    pub vector_memory_init-HasSize :
        (db : qdrant.Store) (other : String)
        → let out = vector_memory_init qdrant db_of snapshots dump embedder_name embedder_size db in
          out.0 ≡ true
          → mem_of other collections ≡ false
          → HasSize "episodic" out.1
            × HasSize "declarative" out.1
            × HasSize "procedural" out.1
            × Agree other db out.1
    unfolding vector_memory_init init_all
    vector_memory_init-HasSize db other returned differ =
        let init = collection_init qdrant db_of snapshots dump embedder_name embedder_size in
        let db₁ = (init "episodic" db).1 in
        let db₂ = (init "declarative" db₁).1 in
        let ok₁ : (init "episodic" db).0 ≡ true = ground arith in
        let ok₂ : (init "declarative" db₁).0 ≡ true = ground arith in
        let ok₃ : (init "procedural" db₂).0 ≡ true = ground arith in
        let at =
          collection_init-IsAligned qdrant db_of snapshots dump embedder_name embedder_size in
        let e = at "episodic" db ok₁ in
        let d = at "declarative" db₁ ok₂ in
        let p = at "procedural" db₂ ok₃ in
        rw ok₁ (
          rw ok₂ (
            rw ok₃ (
              Agree-HasSize
                  (Agree-trans (collection_init-Agree "declarative" "episodic" db₁ refl)
                    (collection_init-Agree "procedural" "episodic" db₂ refl))
                  (e.exists, e.has_size),
              Agree-HasSize (collection_init-Agree "procedural" "declarative" db₂ refl)
                  (d.exists, d.has_size),
              (p.exists, p.has_size),
              Agree-trans (collection_init-Agree "episodic" other db (ground arith)) (
                  Agree-trans (collection_init-Agree "declarative" other db₁ (ground arith))
                    (collection_init-Agree "procedural" other db₂ (ground arith))),
            )))
