-- ===== src/Vectors.antt =====
-- core/cat/memory/vector_memory_collection.py and core/cat/memory/vector_memory.py. Qdrant is a
-- parameter, with its documented laws; vectors have numbers of type `V`, and scores are of type `R`.
pub mod Keys
pub mod Conditions
pub mod Points
pub mod Sample
pub mod Stored
mod Tests
pub mod Recall
pub mod Loading
use cat_forked.Prelude.{
  ℕ, ◌≡◌, ◌≤◌, String, Bool, true, false, not, ◌&&◌, Option, none, some, List, [], ◌∷◌, ◌++◌, map,
  Dict, In, length, filter_by, all_of, mem_of, ◌==◌, if◌then◌else◌,
}
use Keys.{under, elements, in_metadata}

-- `null` stands for floats too, but for the times.
pub data Scalar : Type 0 where
  text : String → Scalar
  number : ℕ → Scalar
  boolean : Bool → Scalar
  null : Scalar

mutual
  pub data Value : Type 0 where
    scalar : Scalar → Value
    dict : Fields → Value
    list : Values → Value

  pub data Values : Type 0 where
    nil : Values
    cons : Value → Values → Values

  pub data Fields : Type 0 where
    end : Fields
    field : String → Value → Fields → Fields

abbrev pub Metadata : Type 0
Metadata = Dict Value

-- `FieldCondition(key=..., match=MatchValue(value=...))`
pub record Condition : Type 0 where
  pub key : String
  pub value : Scalar

abbrev pub condition : String → Scalar → Condition
condition key value = record { key = in_metadata key; value = value }

-- `MatchValue` takes texts, integers and Booleans, and raises a `ValidationError` on anything else.
abbrev pub matched : String → Scalar → Option (List Condition)
matched key null = none
matched key (text s) = some (condition key (text s) ∷ [])
matched key (number n) = some (condition key (number n) ∷ [])
matched key (boolean b) = some (condition key (boolean b) ∷ [])

-- `out.extend(...)`; whatever raises on the way raises.
abbrev pub extended : {A : Type 0} → Option (List A) → Option (List A) → Option (List A)
extended none later = none
extended (some out) none = none
extended (some out) (some later) = some (out ++ later)

-- The key under which an element of a list is built.
abbrev pub element_key : String → Value → String
element_key key (dict fields) = elements key
element_key key _ = key

-- `none` is an exception.
unfoldable mutual
  pub build_condition : String → Value → Option (List Condition)
  build_condition key (scalar value) = matched key value
  build_condition key (dict fields) = build_fields key fields
  build_condition key (list values) = build_values key values

  pub build_fields : String → Fields → Option (List Condition)
  build_fields key end = some []
  build_fields key (field k value later) =
      extended (build_condition (under key k) value) (build_fields key later)

  pub build_values : String → Values → Option (List Condition)
  build_values key nil = some []
  build_values key (cons value later) =
      extended (build_condition (element_key key value) value) (build_values key later)

unfoldable pub build_all : Metadata → Option (List Condition)
unfolding build_condition
build_all [] = some []
build_all ((key, value) ∷ later) = extended (build_condition key value) (build_all later)

abbrev as_filter : Option (List Condition) → Option (Option (List Condition))
as_filter none = none
as_filter (some must) = some (some must)

-- All conditions must hold; `some none` is no filter, and `none` an exception.
unfoldable pub qdrant_filter_from_dict : Option Metadata → Option (Option (List Condition))
unfolding build_all
qdrant_filter_from_dict none = some none
qdrant_filter_from_dict (some []) = some none
qdrant_filter_from_dict (some (entry ∷ later)) = as_filter (build_all (entry ∷ later))

-- `PointStruct` with its payload
pub record Point (V : Type 0) : Type 0 where
  pub id : String
  pub page_content : String
  pub metadata : Metadata
  pub vector : List V

-- `(document, score, vector, id)`
pub record Memory (V R : Type 0) : Type 0 where
  pub point : Point V
  pub score : R

abbrev pub to_list : {A : Type 0} → Option A → List A
to_list none = []
to_list (some a) = a ∷ []

-- The client. `point_of` is what a collection has under an id, in the form in which the database gives ids
-- back. The collections compare by cosine, so a vector is normalized when it is uploaded.
pub record Qdrant (V R : Type 0) : Type 1 where
  pub Store : Type 0
  pub point_of : String → String → Store → Option (Point V)
  pub normalized : List V → List V
  pub holds : Condition → Metadata → Bool
  pub upsert : String → Point V → Store → Bool × Store
  pub retrieve : String → List String → Store → List (Point V)
  pub delete : String → List String → Store → Store
  pub delete_where : String → Option (List Condition) → Store → Bool × Store
  pub search : String → List V → Option (List Condition) → ℕ → Option R → Store → List (Memory V R)
  pub scroll : String → Option String → ℕ → Store → List (Point V) × Option String
  pub retrieve_lem :
      (c id : String) (s : Store) → retrieve c (id ∷ []) s ≡ to_list (point_of c id s)
  pub point_of-upsert :
      (c d id : String) (p : Point V) (s : Store)
      → (upsert c p s).0 ≡ true
      → point_of d id (upsert c p s).1 ≡ (
          if (c == d) && (p.id == id)
          then some (record p { vector = normalized p.vector })
          else point_of d id s)
  pub upsert_fails :
      (c : String) (p : Point V) (s : Store) → (upsert c p s).0 ≡ false → (upsert c p s).1 ≡ s
  pub point_of-delete :
      (c d : String) (ids : List String) (id : String) (s : Store)
      → point_of d id (delete c ids s)
        ≡ (if (c == d) && mem_of id ids then none else point_of d id s)
  pub search-stored :
      (c : String) (v : List V) (f : Option (List Condition)) (k : ℕ) (t : Option R) (s : Store)
      (m : Memory V R)
      → In m (search c v f k t s)
      → point_of c m.point.id s ≡ some m.point
  pub search-holds :
      (c : String) (v : List V) (f : List Condition) (k : ℕ) (t : Option R) (s : Store)
      (m : Memory V R)
      → In m (search c v (some f) k t s)
      → all_of (λ q. holds q m.point.metadata) f ≡ true
  pub search-limit :
      (c : String) (v : List V) (f : Option (List Condition)) (k : ℕ) (t : Option R) (s : Store)
      → length (search c v f k t s) ≤ k

module _ {V R : Type 0} (qdrant : Qdrant V R) where
  -- `none` where the upsert is not completed.
  unfoldable pub add_point :
      String → String → List V → Metadata → String → qdrant.Store → Option (Point V) × qdrant.Store
  add_point collection_name content vector metadata id db =
      let point : Point V = record {
        id = id;
        page_content = content;
        metadata = metadata;
        vector = vector;
      } in
      let (completed, db') = qdrant.upsert collection_name point db in
      (if completed then some point else none, db')

  deleted_where : String → Option (Option (List Condition)) → qdrant.Store → Bool × qdrant.Store
  deleted_where collection_name none db = (false, db)
  deleted_where collection_name (some f) db = qdrant.delete_where collection_name f db

  -- `false` where it raises.
  unfoldable pub delete_points_by_metadata_filter :
      String → Option Metadata → qdrant.Store → Bool × qdrant.Store
  unfolding qdrant_filter_from_dict deleted_where
  delete_points_by_metadata_filter collection_name metadata db =
      deleted_where collection_name (qdrant_filter_from_dict metadata) db

  unfoldable pub delete_points : String → List String → qdrant.Store → qdrant.Store
  delete_points collection_name points_ids db = qdrant.delete collection_name points_ids db

  searched :
      String
      → List V
      → Option (Option (List Condition))
      → ℕ
      → Option R
      → qdrant.Store
      → Option (List (Memory V R))
  searched collection_name embedding none k threshold db = none
  searched collection_name embedding (some f) k threshold db =
      some (qdrant.search collection_name embedding f k threshold db)

  -- `none` where the filter raises.
  unfoldable pub recall_memories_from_embedding :
      String → List V → Option Metadata → ℕ → Option R → qdrant.Store → Option (List (Memory V R))
  unfolding qdrant_filter_from_dict searched
  recall_memories_from_embedding collection_name embedding metadata k threshold db =
      searched collection_name embedding (qdrant_filter_from_dict metadata) k threshold db

  unfoldable pub get_points : String → List String → qdrant.Store → List (Point V)
  get_points collection_name ids db = qdrant.retrieve collection_name ids db

  unfoldable pub get_all_points :
      String → ℕ → Option String → qdrant.Store → List (Point V) × Option String
  get_all_points collection_name limit offset db = qdrant.scroll collection_name offset limit db

-- `self.collections`
abbrev pub collections : List String
collections = "episodic" ∷ "declarative" ∷ "procedural" ∷ []
