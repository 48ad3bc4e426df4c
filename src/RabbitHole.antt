-- ===== src/RabbitHole.antt =====
-- core/cat/rabbit_hole.py: documents on their way to the declarative memory. The hooks, the splitter,
-- the embedder and the vector database are parameters; `none` is an exception. The notifications to
-- the client are left out.
pub mod Stored
mod Tests
use cat_forked.Prelude.{
  ℕ, String, Bool, true, false, not, ◌&&◌, Option, none, some, List, [], ◌∷◌, ◌++◌, Dict, insert,
  length, any_of, filter_by, leb, ltb, count, ◌==◌, if◌then◌else◌,
}
use cat_forked.Form.Action.{Turn, Act, pure, raise, gets, world, ◌>>=◌, ◌>>◌}

-- A value of the metadata: a text, a time, or any other.
pub data Value : Type 0 where
  text : String → Value
  time : ℕ → Value
  other : ℕ → Value

pub record Document : Type 0 where
  pub page_content : String
  pub metadata : Dict Value

-- `V` is the type of the numbers of a vector.
pub record Point (V : Type 0) : Type 0 where
  pub id : String
  pub page_content : String
  pub metadata : Dict Value
  pub vector : List V

-- The object keeps no state of its own; `W` is the state of the cat with the database.
abbrev pub Io : Type 0 → Type 0 → Type 0
Io W A = Act (Unit {0}) W A

-- `add_point` gives `None` where the database did not complete the upsert.
pub record Services (V W : Type 0) : Type 0 where
  pub clock : W → ℕ
  pub before_rabbithole_splits_text : List Document → W → Option (List Document) × W
  pub split_documents : List Document → W → Option (List Document) × W
  pub after_rabbithole_splitted_text : List Document → W → Option (List Document) × W
  pub before_rabbithole_stores_documents : List Document → W → Option (List Document) × W
  pub before_rabbithole_insert_memory : Document → W → Option Document × W
  pub embed_document : String → W → Option (List V) × W
  pub add_point : String → List V → Dict Value → W → Option (Option (Point V)) × W
  pub after_rabbithole_stored_documents :
      String → List (Option (Point V)) → W → Option (Unit {0}) × W
  pub upsert : List (Point V) → W → Option (Unit {0}) × W

-- What `ingest_memory` reads of the file.
pub record MemoryFile (V : Type 0) : Type 0 where
  pub embedder : String
  pub declarative : List (Point V)

-- `for k, v in metadata.items(): doc.metadata[k] = v`
unfoldable pub set_all : Dict Value → Dict Value → Dict Value
set_all [] d = d
set_all ((k, v) ∷ metadata) d = set_all metadata (insert k v d)

unfoldable pub add_metadata : String → ℕ → Dict Value → Document → Document
unfolding set_all
add_metadata source now metadata doc = record doc {
  metadata =
      set_all metadata (insert "when" (time now) (insert "source" (text source) doc.metadata));
}

-- `len(d.page_content) > 10`
abbrev pub is_long : Document → Bool
is_long d = ltb 10 (count d.page_content)

module _ {V W : Type 0} (services : Services V W) where
  -- `__split_text`
  unfoldable pub split_text : List Document → Io W (List Document)
  split_text super_docs = do
    before ← world (services.before_rabbithole_splits_text super_docs)
    docs ← world (services.split_documents before)
    world (services.after_rabbithole_splitted_text (filter_by is_long docs))

  -- `time.time()`
  abbrev pub time_now : Io W ℕ
  time_now t = (some (services.clock t.cat), t)

  -- `if doc.page_content != ""`
  unfoldable pub store_document : Document → Io W (List (Option (Point V)))
  store_document doc = if doc.page_content == "" then pure [] else do
    doc_embedding ← world (services.embed_document doc.page_content)
    stored_point ← world (services.add_point doc.page_content doc_embedding doc.metadata)
    pure (stored_point ∷ [])

  -- The loop over the documents.
  unfoldable pub store_all : String → Dict Value → List Document → Io W (List (Option (Point V)))
  unfolding add_metadata store_document
  store_all source metadata [] = pure []
  store_all source metadata (doc ∷ docs) =
      let rest = store_all source metadata docs in
      do
        now ← time_now
        read_in ←
            world (services.before_rabbithole_insert_memory (add_metadata source now metadata doc))
        stored ← store_document read_in
        later ← rest
        pure (stored ++ later)

  unfoldable pub store_documents : List Document → String → Dict Value → Io W (Unit {0})
  unfolding store_all
  store_documents docs source metadata = do
    docs' ← world (services.before_rabbithole_stores_documents docs)
    stored_points ← store_all source metadata docs'
    world (services.after_rabbithole_stored_documents source stored_points)

  abbrev pub has_size : ℕ → Point V → Bool
  has_size embedder_size p =
      leb (length p.vector) embedder_size && leb embedder_size (length p.vector)

  -- `cat_embedder` is the class name of the embedder in use.
  unfoldable pub ingest_memory : String → ℕ → MemoryFile V → Io W (Unit {0})
  ingest_memory cat_embedder embedder_size memories =
      if not (memories.embedder == cat_embedder)
      then raise
      else if not (any_of (has_size embedder_size) memories.declarative)
      then raise
      else world (services.upsert memories.declarative)
