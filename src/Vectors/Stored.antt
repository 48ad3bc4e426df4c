-- ===== src/Vectors/Stored.antt =====
-- core/cat/looking_glass/stray_cat.py: `_store_user_message_in_episodic_memory`.
use cat_forked.Prelude.{
  ℕ, ◌≡◌, refl, ap, ◌∙◌, inl, inr, String, Bool, true, false, Option, none, some, List, [], ◌∷◌,
  lookup, arith, Option-cases, ==_refl,
}
use cat_forked.Vectors.{text, number, scalar, Metadata, Point, Qdrant, add_point}

pub record Document : Type 0 where
  pub page_content : String
  pub metadata : Metadata

module _ {V R : Type 0} (qdrant : Qdrant V R) where
  abbrev stored_with : String → Document → Option (List V) → qdrant.Store → Bool × qdrant.Store
  stored_with id doc none db = (false, db)
  stored_with id doc (some embedding) db =
      (true, (add_point qdrant "episodic" doc.page_content embedding doc.metadata id db).1)

  -- The hook may change the document; what is embedded is the text of the message.
  unfoldable pub store_user_message_in_episodic_memory :
      (Document → Document)
      → (String → Option (List V))
      → String
      → ℕ
      → String
      → String
      → qdrant.Store
      → Bool × qdrant.Store
  unfolding add_point
  store_user_message_in_episodic_memory hook embed_documents user_id now new_id user_message_text
        db =
      let doc : Document = record {
        page_content = user_message_text;
        metadata = ("source", scalar (text user_id)) ∷ ("when", scalar (number now)) ∷ [];
      } in
      stored_with new_id (hook doc) (embed_documents user_message_text) db

  -- Where the hook leaves the metadata alone and the database completes the upsert, a message that is
  -- stored is in the episodic memory with the user as its source.
  pub store_user_message_in_episodic_memory-point_of :
      (hook : Document → Document) (embed_documents : String → Option (List V)) (user_id : String)
      (now : ℕ) (id message : String) (db : qdrant.Store)
      → ((d : Document) → (hook d).metadata ≡ d.metadata)
      → ((p : Point V) → (qdrant.upsert "episodic" p db).0 ≡ true)
      → let (returned, db') =
          store_user_message_in_episodic_memory hook embed_documents user_id now id message db in
        returned ≡ true
        → (p : Point V) × (qdrant.point_of "episodic" id db' ≡ some p)
          × (lookup "source" p.metadata ≡ some (scalar (text user_id)))
  unfolding store_user_message_in_episodic_memory add_point
  store_user_message_in_episodic_memory-point_of hook embed_documents user_id now id message db
        keeps completes returned =
      elim (Option-cases (embed_documents message)) [
        | inl failed ↦ absurd (ground arith)
        | inr (v, embedded) ↦
            let doc : Document = record {
              page_content = message;
              metadata = ("source", scalar (text user_id)) ∷ ("when", scalar (number now)) ∷ [];
            } in
            let p : Point V = record {
              id = id;
              page_content = (hook doc).page_content;
              metadata = (hook doc).metadata;
              vector = v;
            } in
            rw embedded (
              record p { vector = qdrant.normalized v },
              qdrant.point_of-upsert "episodic" "episodic" id p db (completes p)
                  ∙ rw (==_refl id) refl,
              ap (lookup "source") (keeps doc),
            )
      ]
