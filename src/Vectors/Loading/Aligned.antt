-- ===== src/Vectors/Loading/Aligned.antt =====
-- core/cat/memory/vector_memory_collection.py: the collections agree with the embedder once they are
-- initialized, and then stay as they are.
use cat_forked.Prelude.{
  ℕ, ◌≡◌, refl, sym, ap, ◌∙◌, inl, inr, String, Bool, true, not, ◌&&◌, Option, none, some, mem_of,
  arith, ◌==◌, eq_iff, ==_refl, Bool-cases,
}
use cat_forked.Vectors.{Qdrant}
use cat_forked.Vectors.Keys.{alias_of}
use cat_forked.Vectors.Loading.{
  Collections, same, create_collection, create_db_collection_if_not_exists, check_embedding_size,
  checked, replaced, collection_init, init_all, vector_memory_init,
}

same_sound : (m n : ℕ) → same m n ≡ true → m ≡ n
same_sound m n h = ground arith

same_refl : (n : ℕ) → same n n ≡ true
same_refl n = ground arith

module _ {V R : Type 0} (qdrant : Qdrant V R) (db_of : Collections qdrant) where
  module _ (snapshots : Bool) (dump : String → qdrant.Store → Bool) (embedder_name : String)
      (embedder_size : ℕ) where
    -- The collection exists, with vectors of the embedder's size and the embedder's name first.
    pub record IsAligned (c : String) (db : qdrant.Store) : Type 0 where
      pub exists : mem_of c (db_of.names db) ≡ true
      pub has_size : db_of.size c db ≡ embedder_size
      pub has_alias : db_of.alias c db ≡ some (alias_of embedder_name c)

    create_collection-IsAligned :
        (c : String) (db : qdrant.Store)
        → IsAligned c
            (create_collection qdrant db_of snapshots dump embedder_name embedder_size c db)
    unfolding create_collection
    create_collection-IsAligned c db =
        let a = alias_of embedder_name c in
        let db' = db_of.recreate_collection c embedder_size db in
        record {
          exists =
              ap (mem_of c) (db_of.names-alias c a db')
              ∙ db_of.names-recreate c c embedder_size db
              ∙ rw (==_refl c) refl;
          has_size =
              db_of.size-alias c c a db'
              ∙ db_of.size-recreate c c embedder_size db
              ∙ rw (==_refl c) refl;
          has_alias = db_of.alias-alias c a db' ∙ rw (db_of.alias-recreate c embedder_size db) refl;
        }

    created-exists :
        (c : String) (db : qdrant.Store)
        → mem_of c (
            db_of.names (
              create_db_collection_if_not_exists qdrant db_of snapshots dump embedder_name
                embedder_size c db))
          ≡ true
    unfolding create_db_collection_if_not_exists
    created-exists c db = elim (Bool-cases (mem_of c (db_of.names db))) [
      | inl there ↦ rw there there
      | inr missing ↦ rw missing (create_collection-IsAligned c db).exists
    ]

    checked-IsAligned :
        (alias : Option String) (c : String) (db : qdrant.Store)
        → mem_of c (db_of.names db) ≡ true
        → db_of.alias c db ≡ alias
        → (checked qdrant db_of snapshots dump embedder_name embedder_size alias c db).0 ≡ true
        → IsAligned c (checked qdrant db_of snapshots dump embedder_name embedder_size alias c db).1
    unfolding checked replaced
    checked-IsAligned none c db there e returned = absurd (ground arith)
    checked-IsAligned (some alias) c db there e returned =
        let size = db_of.size c db in
        let fits = (alias_of embedder_name c == alias) && same size embedder_size in
        let fresh = (db_of.delete_collection c db).1 in
        elim (Bool-cases fits) [
          | inl aligned ↦ rw aligned (record {
            exists = there;
            has_size = same_sound size embedder_size (ground arith);
            has_alias =
                e
                ∙ ap (λ (a : String). some a)
                    (sym ((eq_iff (alias_of embedder_name c) alias).0 (ground arith)));
          })
          | inr other ↦ rw other (elim (Bool-cases (snapshots && not (dump c db))) [
            | inl failed ↦ absurd (ground arith)
            | inr dumped ↦ rw dumped (create_collection-IsAligned c fresh)
          ])
        ]

    -- A collection whose initialization returns exists, with the size of the embedder's vectors, and
    -- under the embedder's name.
    pub collection_init-IsAligned :
        (c : String) (db : qdrant.Store)
        → (collection_init qdrant db_of snapshots dump embedder_name embedder_size c db).0 ≡ true
        → IsAligned c
            (collection_init qdrant db_of snapshots dump embedder_name embedder_size c db).1
    unfolding collection_init check_embedding_size
    collection_init-IsAligned c db returned =
        let db' =
          create_db_collection_if_not_exists qdrant db_of snapshots dump embedder_name embedder_size
            c db in
        checked-IsAligned (db_of.alias c db') c db' (created-exists c db) refl returned

    collection_init-keeps :
        (c : String) (db : qdrant.Store)
        → IsAligned c db
        → collection_init qdrant db_of snapshots dump embedder_name embedder_size c db ≡ (true, db)
    unfolding collection_init create_db_collection_if_not_exists check_embedding_size checked
    collection_init-keeps c db aligned = rw aligned.exists (
        rw aligned.has_alias (
          rw (==_refl (alias_of embedder_name c))
            (rw aligned.has_size (rw (same_refl embedder_size) refl))))

    -- Where every collection agrees with the embedder, the initialization of the memory returns and
    -- changes nothing: no memory is lost by a restart.
    pub vector_memory_init-keeps :
        (db : qdrant.Store)
        → IsAligned "episodic" db
        → IsAligned "declarative" db
        → IsAligned "procedural" db
        → vector_memory_init qdrant db_of snapshots dump embedder_name embedder_size db ≡ (true, db)
    unfolding vector_memory_init init_all
    vector_memory_init-keeps db e d p = rw (collection_init-keeps "episodic" db e) (
        rw (collection_init-keeps "declarative" db d)
          (rw (collection_init-keeps "procedural" db p) refl))
