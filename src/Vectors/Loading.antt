-- ===== src/Vectors/Loading.antt =====
-- core/cat/memory/vector_memory_collection.py and core/cat/memory/vector_memory.py: the collections at
-- the start, and the requests of core/cat/routes/memory/collections.py. The first component of a result
-- says whether the call returned.
pub mod Aligned
pub mod Sizes
use cat_forked.Prelude.{
  ℕ, ◌≡◌, String, Bool, true, false, not, ◌&&◌, ◌||◌, Option, none, some, List, [], ◌∷◌, length,
  mem_of, leb, ◌==◌, if◌then◌else◌, Response, ok, http_error,
}
use cat_forked.Vectors.{Qdrant, Point, collections}
use cat_forked.Vectors.Keys.{alias_of}

abbrev pub same : ℕ → ℕ → Bool
same m n = leb m n && leb n m

abbrev pub or_this : Option String → String → String
or_this none a = a
or_this (some first) a = first

-- What the client does with whole collections: `alias` is the first alias of a collection.
pub record Collections {V R : Type 0} (qdrant : Qdrant V R) : Type 0 where
  pub names : qdrant.Store → List String
  pub size : String → qdrant.Store → ℕ
  pub alias : String → qdrant.Store → Option String
  pub points_count : String → qdrant.Store → ℕ
  pub delete_collection : String → qdrant.Store → Bool × qdrant.Store
  pub recreate_collection : String → ℕ → qdrant.Store → qdrant.Store
  pub create_alias : String → String → qdrant.Store → qdrant.Store
  pub names-delete :
      (c d : String) (s : qdrant.Store)
      → mem_of d (names (delete_collection c s).1) ≡ (not (c == d) && mem_of d (names s))
  pub names-recreate :
      (c d : String) (n : ℕ) (s : qdrant.Store)
      → mem_of d (names (recreate_collection c n s)) ≡ ((c == d) || mem_of d (names s))
  pub names-alias : (c a : String) (s : qdrant.Store) → names (create_alias c a s) ≡ names s
  pub size-delete :
      (c d : String) (s : qdrant.Store)
      → (c == d) ≡ false
      → size d (delete_collection c s).1 ≡ size d s
  pub size-recreate :
      (c d : String) (n : ℕ) (s : qdrant.Store)
      → size d (recreate_collection c n s) ≡ (if c == d then n else size d s)
  pub size-alias : (c d a : String) (s : qdrant.Store) → size d (create_alias c a s) ≡ size d s
  -- The aliases of a collection go with it.
  pub alias-recreate :
      (c : String) (n : ℕ) (s : qdrant.Store) → alias c (recreate_collection c n s) ≡ none
  pub alias-alias :
      (c a : String) (s : qdrant.Store)
      → alias c (create_alias c a s) ≡ some (or_this (alias c s) a)
  pub point_of-delete_collection :
      (c d id : String) (s : qdrant.Store)
      → qdrant.point_of d id (delete_collection c s).1
        ≡ (if c == d then none else qdrant.point_of d id s)
  pub point_of-recreate :
      (c d id : String) (n : ℕ) (s : qdrant.Store)
      → qdrant.point_of d id (recreate_collection c n s)
        ≡ (if c == d then none else qdrant.point_of d id s)
  pub point_of-alias :
      (c d a id : String) (s : qdrant.Store)
      → qdrant.point_of d id (create_alias c a s) ≡ qdrant.point_of d id s

-- `dump` says whether `save_dump` returns; it only reads the collection.
module _ {V R : Type 0} (qdrant : Qdrant V R) (db_of : Collections qdrant) where
  module _ (save_memory_snapshots : Bool) (dump : String → qdrant.Store → Bool)
      (embedder_name : String) (embedder_size : ℕ) where
    unfoldable pub create_collection : String → qdrant.Store → qdrant.Store
    create_collection collection_name db =
        db_of.create_alias collection_name (alias_of embedder_name collection_name)
          (db_of.recreate_collection collection_name embedder_size db)

    unfoldable pub create_db_collection_if_not_exists : String → qdrant.Store → qdrant.Store
    unfolding create_collection
    create_db_collection_if_not_exists collection_name db =
        if mem_of collection_name (db_of.names db) then db else create_collection collection_name db

    -- The collection is of another embedder.
    replaced : String → qdrant.Store → Bool × qdrant.Store
    unfolding create_collection
    replaced collection_name db =
        if save_memory_snapshots && not (dump collection_name db) then (false, db) else (
          true,
          create_collection collection_name (db_of.delete_collection collection_name db).1,
        )

    -- `aliases[0]` raises where there is no alias.
    checked : Option String → String → qdrant.Store → Bool × qdrant.Store
    unfolding replaced
    checked none collection_name db = (false, db)
    checked (some alias) collection_name db =
        if (alias_of embedder_name collection_name == alias)
          && same (db_of.size collection_name db) embedder_size
        then (true, db)
        else replaced collection_name db

    unfoldable pub check_embedding_size : String → qdrant.Store → Bool × qdrant.Store
    unfolding checked
    check_embedding_size collection_name db =
        checked (db_of.alias collection_name db) collection_name db

    -- `VectorMemoryCollection.__init__`
    unfoldable pub collection_init : String → qdrant.Store → Bool × qdrant.Store
    unfolding create_db_collection_if_not_exists check_embedding_size
    collection_init collection_name db =
        check_embedding_size collection_name (create_db_collection_if_not_exists collection_name db)

    -- The loop of `VectorMemory.__init__`
    unfoldable pub init_all : List String → qdrant.Store → Bool × qdrant.Store
    unfolding collection_init
    init_all [] db = (true, db)
    init_all (collection_name ∷ later) db =
        let (returned, db') = collection_init collection_name db in
        let rest = init_all later db' in if returned then rest else (false, db')

    unfoldable pub vector_memory_init : qdrant.Store → Bool × qdrant.Store
    unfolding init_all
    vector_memory_init db = init_all collections db

  -- `embed_query("hello world")` gives the size of the embedder.
  unfoldable pub load_memory :
      Bool
      → (String → qdrant.Store → Bool)
      → String
      → Option (List V)
      → qdrant.Store
      → Bool × qdrant.Store
  unfolding vector_memory_init
  load_memory snapshots dump embedder_name none db = (false, db)
  load_memory snapshots dump embedder_name (some vector) db =
      vector_memory_init snapshots dump embedder_name (length vector) db

  -- `load_memory` and `find_plugins`, which embeds the procedures again.
  module _ (load find_plugins : qdrant.Store → Bool × qdrant.Store) where
    abbrev and_then :
        {A : Type 0}
        → A
        → (qdrant.Store → Bool × qdrant.Store)
        → Bool × qdrant.Store
        → Response A × qdrant.Store
    and_then a next (true, db) =
        let (done, db') = next db in (if done then ok a else http_error 500, db')
    and_then a next (false, db) = (http_error 500, db)

    -- What each deletion returned, and the collections without the deleted ones.
    unfoldable pub wiped : List String → qdrant.Store → List (String × Bool) × qdrant.Store
    wiped [] db = ([], db)
    wiped (c ∷ later) db =
        let (deleted, db') = db_of.delete_collection c db in
        let (to_return, db'') = wiped later db' in ((c, deleted) ∷ to_return, db'')

    unfoldable pub wipe_collections : qdrant.Store → Response (List (String × Bool)) × qdrant.Store
    unfolding wiped
    wipe_collections db =
        let (to_return, db') = wiped collections db in and_then to_return find_plugins (load db')

    unfoldable pub wipe_single_collection :
        String → qdrant.Store → Response (List (String × Bool)) × qdrant.Store
    wipe_single_collection collection_id db =
        let (deleted, db') = db_of.delete_collection collection_id db in
        if not (mem_of collection_id collections)
        then (http_error 400, db)
        else and_then ((collection_id, deleted) ∷ []) find_plugins (load db')

  unfoldable pub counted : List String → qdrant.Store → List (String × ℕ)
  counted [] db = []
  counted (c ∷ later) db = (c, db_of.points_count c db) ∷ counted later db

  unfoldable pub get_collections : qdrant.Store → List (String × ℕ)
  unfolding counted
  get_collections db = counted collections db
