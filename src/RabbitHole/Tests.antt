-- ===== src/RabbitHole/Tests.antt =====
-- Three documents, one of them empty, and a database that keeps its points.
use cat_forked.Prelude.{
  ℕ, String, ◌≡◌, refl, inl, Option, none, some, List, [], ◌∷◌, ◌++◌, map, lookup, length, ◌==◌,
  if◌then◌else◌,
}
use cat_forked.Form.Action.{Turn, world}
use cat_forked.RabbitHole.{
  text, time, Document, Point, Services, add_metadata, store_all, split_text, ingest_memory,
}
use cat_forked.RabbitHole.Stored.{
  first_some, content_of, contents, lookup-add_metadata, ingest_memory-mixed, store_all-contents,
}

abbrev Db : Type 0
Db = List (Point ℕ)

abbrev point : String → List ℕ → Point ℕ
point s v = record { id = s; page_content = s; metadata = []; vector = v }

abbrev services : Services ℕ Db
services = record {
  clock = λ db. length db;
  before_rabbithole_splits_text = λ docs db. (some docs, db);
  split_documents = λ docs db. (some docs, db);
  after_rabbithole_splitted_text = λ docs db. (some docs, db);
  before_rabbithole_stores_documents = λ docs db. (some docs, db);
  before_rabbithole_insert_memory = λ doc db. (some doc, db);
  embed_document = λ s db. (some (1 ∷ 2 ∷ []), db);
  add_point = λ s v d db.
      let p : Point ℕ = record { id = s; page_content = s; metadata = d; vector = v } in
      (some (some p), db ++ p ∷ []);
  after_rabbithole_stored_documents = λ source points db. (some tt, db);
  upsert = λ points db. (some tt, db ++ points);
}

abbrev doc : String → Document
doc s = record { page_content = s; metadata = ("source", text "old") ∷ [] }

abbrev docs : List Document
docs = doc "Alice was beginning" ∷ doc "" ∷ doc "12" ∷ []

abbrev start : Turn (Unit {0}) Db
start = record { self = tt; cat = [] }

short_texts_go : (split_text services docs start).0 ≡ some (doc "Alice was beginning" ∷ [])
unfolding split_text
short_texts_go = refl

lookup-add_metadata_runs :
    lookup "source"
      (add_metadata "alice.txt" 7 (("author", text "Carroll") ∷ []) (doc "Alice")).metadata
    ≡ first_some (lookup "source" (("author", text "Carroll") ∷ [])) (
        if "source" == "when"
        then some (time 7)
        else if "source" == "source"
        then some (text "alice.txt")
        else lookup "source" (doc "Alice").metadata)
lookup-add_metadata_runs =
    lookup-add_metadata "source" "alice.txt" 7 (("author", text "Carroll") ∷ []) (doc "Alice")
      (refl, tt)

abbrev mixed : List (Point ℕ)
mixed = point "a" (1 ∷ 2 ∷ []) ∷ point "b" (1 ∷ []) ∷ []

ingest_memory-mixed_runs :
    (ingest_memory services "Embedder" 2
        (record { embedder = "Embedder"; declarative = mixed })
        start
      ≡ world (services.upsert mixed) start)
    × (ingest_memory services "Embedder" 2
          (record { embedder = "Embedder"; declarative = [] })
          start
        ≡ (none, start))
ingest_memory-mixed_runs =
    ingest_memory-mixed services "Embedder" 2 (point "a" (1 ∷ 2 ∷ [])) mixed start (inl refl) refl

store_all-contents_example :
    (stored : List (Option (Point ℕ))) × ((store_all services "alice.txt" [] docs start).0
      ≡ some stored)
    × (map (content_of services) stored ≡ contents services docs)
store_all-contents_example =
    store_all-contents services "alice.txt" [] docs start (λ d w. (d, refl, refl))
      (λ s w. (1 ∷ 2 ∷ [], refl)) (λ s v d w. (_, refl, refl))
