-- ===== src/RabbitHole/Stored.antt =====
-- core/cat/rabbit_hole.py: what reaches the declarative memory.
use mathlib.Core.Path.{ap₂}
use cat_forked.Prelude.{
  ℕ, String, ◌≡◌, refl, ap, ◌∙◌, inl, inr, true, not, Option, none, some, List, [], ◌∷◌, ◌++◌, map,
  Dict, lookup, insert, lookup-insert, HasUniqueKeys, length, any_of, filter_by, In, arith, ◌==◌,
  eq_iff, ==_refl, if◌then◌else◌, Bool-cases,
}
use cat_forked.Form.Action.{Turn, pure, world, ◌>>=◌, bind_known}
use cat_forked.RabbitHole.{
  Value, text, time, Document, Point, Io, Services, set_all, add_metadata, store_document,
  store_all, has_size, ingest_memory,
}

abbrev pub first_some {ℓ} : {A : Type ℓ} → Option A → Option A → Option A
first_some none later = later
first_some (some a) later = some a

lookup-set_all :
    (k : String) (metadata d : Dict Value)
    → HasUniqueKeys metadata
    → lookup k (set_all metadata d) ≡ first_some (lookup k metadata) (lookup k d)
unfolding set_all
lookup-set_all k [] d h = refl
lookup-set_all k ((j, v) ∷ metadata) d h =
    lookup-set_all k metadata (insert j v d) h.1 ∙ ground (arith, lookup-insert j k v d, eq_iff j k)

-- Where no key stands twice in the metadata of the request, a document gets this metadata, which
-- goes before the time and the source, and these before what the document had.
pub lookup-add_metadata :
    (k source : String) (now : ℕ) (metadata : Dict Value) (doc : Document)
    → HasUniqueKeys metadata
    → lookup k (add_metadata source now metadata doc).metadata
      ≡ first_some (lookup k metadata) (
          if k == "when"
          then some (time now)
          else if k == "source"
          then some (text source)
          else lookup k doc.metadata)
unfolding add_metadata
lookup-add_metadata k source now metadata doc h =
    lookup-set_all k metadata
      (insert "when" (time now) (insert "source" (text source) doc.metadata)) h
    ∙ ap (first_some (lookup k metadata)) (
        ground (
          arith,
          lookup-insert "when" k (time now) (insert "source" (text source) doc.metadata),
          lookup-insert "source" k (text source) doc.metadata,
          eq_iff "when" k,
          eq_iff k "when",
          eq_iff "source" k,
          eq_iff k "source",
        ))

module _ {V W : Type 0} (services : Services V W) where
  any_of-In :
      (size : ℕ) (p : Point V) (points : List (Point V))
      → In p points
      → length p.vector ≡ size
      → any_of (has_size services size) points ≡ true
  any_of-In size p [] m e = absurd m
  any_of-In size p (q ∷ points) (inl same) e =
      ground (arith, ap (λ (x : Point V). length x.vector) same)
  any_of-In size p (q ∷ points) (inr m) e = ground (arith, any_of-In size p points m e)

  -- A file from the embedder in use is handed whole to the database if one of its vectors has the size of the
  -- embedder, whatever sizes the others have; a file without memories is refused.
  pub ingest_memory-mixed :
      (cat_embedder : String) (embedder_size : ℕ) (p : Point V) (points : List (Point V))
      (t : Turn (Unit {0}) W)
      → In p points
      → length p.vector ≡ embedder_size
      → (ingest_memory services cat_embedder embedder_size
            (record { embedder = cat_embedder; declarative = points })
            t
          ≡ world (services.upsert points) t)
        × (ingest_memory services cat_embedder embedder_size
              (record { embedder = cat_embedder; declarative = [] })
              t
            ≡ (none, t))
  unfolding ingest_memory
  ingest_memory-mixed cat_embedder embedder_size p points t m e =
      rw (==_refl cat_embedder, any_of-In embedder_size p points m e) (refl, refl)

  -- The hook that sees each document leaves its text.
  abbrev pub KeepsText : Type 0
  KeepsText =
      (doc : Document) (w : W)
      → (doc' : Document) × ((services.before_rabbithole_insert_memory doc w).0 ≡ some doc')
        × (doc'.page_content ≡ doc.page_content)

  -- The embedder always gives a vector.
  abbrev pub Embeds : Type 0
  Embeds = (s : String) (w : W) → (v : List V) × ((services.embed_document s w).0 ≡ some v)

  -- The database always stores a point with the text that it gets.
  abbrev pub Completes : Type 0
  Completes =
      (s : String) (v : List V) (d : Dict Value) (w : W)
      → (p : Point V) × ((services.add_point s v d w).0 ≡ some (some p)) × (p.page_content ≡ s)

  abbrev pub content_of : Option (Point V) → Option String
  content_of none = none
  content_of (some p) = some p.page_content

  abbrev pub contents : List Document → List (Option String)
  contents docs = map (λ d. some d.page_content) (filter_by (λ d. not (d.page_content == "")) docs)

  abbrev Stores :
      List (Option String) → Option (List (Option (Point V))) × Turn (Unit {0}) W → Type 0
  Stores texts out =
      (stored : List (Option (Point V))) × (out.0 ≡ some stored) × (map content_of stored ≡ texts)

  store_document-Stores :
      (doc : Document) (t : Turn (Unit {0}) W)
      → Embeds
      → Completes
      → Stores (contents (doc ∷ [])) (store_document services doc t)
  unfolding store_document
  store_document-Stores doc t embeds completes = elim (Bool-cases (doc.page_content == "")) [
    | inl empty ↦ rw empty ([], refl, refl)
    | inr full ↦
        let text = doc.page_content in
        let (v, embedded) = embeds text t.cat in
        let t₁ : Turn (Unit {0}) W = record t { cat = (services.embed_document text t.cat).1 } in
        let (p, stored, same) = completes text v doc.metadata t₁.cat in
        let Q : Option (List (Option (Point V))) × Turn (Unit {0}) W → Type 0 =
          λ out. Stores (some text ∷ []) out in
        let put : List V → Io W (List (Option (Point V))) = λ vector.
          world (services.add_point text vector doc.metadata) >>= λ stored_point.
          pure (stored_point ∷ []) in
        rw full (
          bind_known (world (services.embed_document text)) put t v Q embedded (
            bind_known (world (services.add_point text v doc.metadata))
              (λ stored_point. pure (stored_point ∷ [])) t₁ (some p) Q stored
              (some p ∷ [], refl, ap (λ (s : String). some s ∷ []) same)))
  ]

  map-append :
      (xs ys : List (Option (Point V)))
      → map content_of (xs ++ ys) ≡ map content_of xs ++ map content_of ys
  map-append [] ys = refl
  map-append (x ∷ xs) ys = ap (λ (l : List (Option String)). content_of x ∷ l) (map-append xs ys)

  contents-cons :
      (doc doc' : Document) (docs : List Document)
      → doc'.page_content ≡ doc.page_content
      → contents (doc' ∷ []) ++ contents docs ≡ contents (doc ∷ docs)
  contents-cons doc doc' docs same = elim (Bool-cases (doc.page_content == "")) [
    | inl empty ↦ rw (same, empty) refl
    | inr full ↦ rw (same, full) refl
  ]

  -- Where the hook that sees each document leaves its text, the embedder always gives a vector and the
  -- database always stores what it gets, one point is stored for each document with a text, with this
  -- text, in the order of the documents.
  pub store_all-contents :
      (source : String) (metadata : Dict Value) (docs : List Document) (t : Turn (Unit {0}) W)
      → KeepsText
      → Embeds
      → Completes
      → (stored : List (Option (Point V))) × ((store_all services source metadata docs t).0
          ≡ some stored)
        × (map content_of stored ≡ contents docs)
  unfolding store_all
  store_all-contents source metadata [] t keeps embeds completes = ([], refl, refl)
  store_all-contents source metadata (doc ∷ docs) t keeps embeds completes =
      let now = services.clock t.cat in
      let annotated = add_metadata source now metadata doc in
      let (doc', hooked, same) = keeps annotated t.cat in
      let t₁ : Turn (Unit {0}) W = record t {
        cat = (services.before_rabbithole_insert_memory annotated t.cat).1;
      } in
      let (stored, first, texts) = store_document-Stores doc' t₁ embeds completes in
      let t₂ = (store_document services doc' t₁).1 in
      let (later, second, more) =
        store_all-contents source metadata docs t₂ keeps embeds completes in
      let Q : Option (List (Option (Point V))) × Turn (Unit {0}) W → Type 0 =
        λ out. Stores (contents (doc ∷ docs)) out in
      let join : List (Option (Point V)) → Io W (List (Option (Point V))) =
        λ xs. store_all services source metadata docs >>= λ ys. pure (xs ++ ys) in
      bind_known (world (services.before_rabbithole_insert_memory annotated))
        (λ read_in. store_document services read_in >>= join) t doc' Q hooked
        (bind_known (store_document services doc') join t₁ stored Q first (
          bind_known (store_all services source metadata docs) (λ ys. pure (stored ++ ys)) t₂ later
            Q second
            (
              stored ++ later,
              refl,
              map-append stored later
                  ∙ ap₂ (λ (a b : List (Option String)). a ++ b) texts more
                  ∙ contents-cons doc doc' docs same,
            )))
