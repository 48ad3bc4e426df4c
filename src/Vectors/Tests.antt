-- ===== src/Vectors/Tests.antt =====
-- Runs of the requests on the points, of the recall and of the initialization.
use cat_forked.Prelude.{
  ℕ, ◌≡◌, refl, String, true, false, ◌&&◌, Option, none, some, List, [], ◌∷◌, inl, mem_of, is_some,
  arith, ◌==◌, if◌then◌else◌, ok, http_error,
}
use cat_forked.Vectors.{
  text, number, null, Value, scalar, dict, list, nil, cons, end, field, condition, Point, Memory,
  collections, build_condition, recall_memories_from_embedding,
}
use cat_forked.Vectors.Keys.{alias_of}
use cat_forked.Vectors.Sample.{Db, qdrant, db_of}
use cat_forked.Vectors.Conditions.{IsBuilt, build_condition-IsBuilt}
use cat_forked.Vectors.Points.{
  PointBase, create_memory_point, edit_memory_point, delete_memory_point,
}
use cat_forked.Vectors.Points.Written.{
  edit_memory_point-point_of, point_of-procedural, after_write, delete_memory_point-point_of,
}
use cat_forked.Vectors.Loading.{vector_memory_init}
use cat_forked.Vectors.Loading.Aligned.{IsAligned, vector_memory_init-keeps}
use cat_forked.Vectors.Loading.Sizes.{Agree, HasSize, vector_memory_init-HasSize}
use cat_forked.Vectors.Recall.{
  source_of, recall_memory_points, Working, Recalling, recall_relevant_memories_to_working_memory,
}
use cat_forked.Vectors.Recall.Private.{
  IsOf, KeepsFilter, recall_memory_points-IsOf, recall_relevant_memories_to_working_memory-IsOf,
}

abbrev point : String → String → Point ℕ
point id user = record {
  id = id;
  page_content = "miao";
  metadata = source_of user;
  vector = 1 ∷ [];
}

-- A point of each of two users in the episodic memory.
abbrev db : Db
db = record {
  points = λ c id.
      if c == "episodic"
      then (if id == "1"
          then some (point "1" "anna")
          else if id == "2"
          then some (point "2" "bob")
          else none)
      else none;
  names = collections;
  sizes = λ c. 1;
  aliases = λ c. some (alias_of "dumb" c);
}

abbrev embed : String → Option (List ℕ)
embed s = some (1 ∷ [])

abbrev body : PointBase
body = record { content = "miao"; metadata = ("topic", scalar (text "cats")) ∷ [] }

abbrev nested : Value
nested = list (cons (dict (field "b" (scalar (number 3)) end)) (cons (scalar (text "x")) nil))

nested_conditions :
    build_condition "a" nested ≡ some (condition "a[].b" (number 3) ∷ condition "a" (text "x") ∷ [])
unfolding build_condition
nested_conditions = refl

a_null_raises : build_condition "a" (list (cons nested (cons (scalar null) nil))) ≡ none
unfolding build_condition
a_null_raises = refl

build_condition-IsBuilt_example :
    IsBuilt "a" nested (condition "a[].b" (number 3)) (build_condition "a" nested)
build_condition-IsBuilt_example = build_condition-IsBuilt "a" nested (condition "a[].b" (number 3))

abbrev new_point : Point ℕ
new_point = record {
  id = "3";
  page_content = "miao";
  metadata =
      ("topic", scalar (text "cats"))
      ∷ ("source", scalar (text "anna"))
      ∷ ("when", scalar (number 5))
      ∷ [];
  vector = 1 ∷ [];
}

edit_memory_point-point_of_runs :
    let (reply, db') = edit_memory_point qdrant embed "episodic" "2" body "anna" 5 db in
    (is_some (qdrant.point_of "episodic" "2" db') ≡ is_some (qdrant.point_of "episodic" "2" db))
    × (qdrant.point_of "episodic" "2" db'
        ≡ after_write qdrant embed reply "episodic" "2" "episodic" "2" db)
edit_memory_point-point_of_runs =
    edit_memory_point-point_of qdrant embed "episodic" "2" body "anna" 5 db "episodic" "2"

point_of-procedural_example :
    let created = create_memory_point qdrant embed "procedural" body "anna" 5 "1" db in
    let edited = edit_memory_point qdrant embed "procedural" "1" body "anna" 5 db in
    (qdrant.point_of "procedural" "1" created.1 ≡ qdrant.point_of "procedural" "1" db)
    × (qdrant.point_of "procedural" "1" edited.1 ≡ qdrant.point_of "procedural" "1" db)
point_of-procedural_example = point_of-procedural qdrant embed "procedural" "1" body "anna" 5 db "1"

deletion :
    let (reply, db') = delete_memory_point qdrant "episodic" "2" db in
    let there = mem_of "episodic" collections && is_some (qdrant.point_of "episodic" "2" db) in
    (reply ≡ (if there then ok "2" else http_error 400))
    × (qdrant.point_of "episodic" "1" db' ≡ (
        if there && (("episodic" == "episodic") && ("2" == "1"))
        then none
        else qdrant.point_of "episodic" "1" db))
deletion = delete_memory_point-point_of qdrant "episodic" "2" db "episodic" "1"

abbrev aligned :
    (c : String)
    → mem_of c collections ≡ true
    → IsAligned qdrant db_of false (λ d b. true) "dumb" 1 c db
aligned c h = record { exists = h; has_size = refl; has_alias = refl }

vector_memory_init-keeps_runs :
    vector_memory_init qdrant db_of false (λ d b. true) "dumb" 1 db ≡ (true, db)
vector_memory_init-keeps_runs =
    vector_memory_init-keeps qdrant db_of false (λ d b. true) "dumb" 1 db (aligned "episodic" refl)
      (aligned "declarative" refl) (aligned "procedural" refl)

vector_memory_init-HasSize_example :
    let db' = (vector_memory_init qdrant db_of false (λ d b. true) "openai" 3 db).1 in
    HasSize qdrant db_of false (λ d b. true) "openai" 3 "episodic" db'
    × HasSize qdrant db_of false (λ d b. true) "openai" 3 "declarative" db'
    × HasSize qdrant db_of false (λ d b. true) "openai" 3 "procedural" db'
    × Agree qdrant db_of "recipes" db db'
unfolding vector_memory_init
vector_memory_init-HasSize_example =
    vector_memory_init-HasSize qdrant db_of false (λ d b. true) "openai" 3 db "recipes" refl refl

abbrev own : Memory ℕ ℕ
own = record { point = point "1" "anna"; score = 1 }

-- Asking for another user's memories gives one's own.
recall_memory_points-IsOf_example : IsOf qdrant "anna" own
unfolding recall_memory_points
recall_memory_points-IsOf_example =
    recall_memory_points-IsOf qdrant embed "anna" "miao" 10 (source_of "bob") db
      (("episodic", own ∷ []) ∷ ("declarative", []) ∷ ("procedural", []) ∷ []) (own ∷ []) own refl
      (inl refl) (inl refl)

abbrev memory : Working ℕ ℕ
memory = record {
  user_text = "hi";
  recall_query = "";
  model_interactions = [];
  episodic_memories = [];
  declarative_memories = [];
  procedural_memories = [];
}

abbrev cat : Recalling qdrant Db
cat = record {
  user_id = "anna";
  default_threshold = 0;
  cat_recall_query = λ q t. (some q, t);
  embed_query = λ q w. (some (1 ∷ []), w);
  before_cat_recalls_memories = λ t. (some tt, t);
  before_cat_recalls_episodic_memories = λ config t. (some (record config { k = 5 }), t);
  before_cat_recalls_declarative_memories = λ config t. (some config, t);
  before_cat_recalls_procedural_memories = λ config t. (some config, t);
  after_cat_recalls_memories = λ t. (some tt, t);
  vectors = λ w. w;
}

hooks_keep : KeepsFilter qdrant cat
hooks_keep = record { hook_keeps = λ c c' t h. ground arith; last_keeps = λ t. refl }

recall_relevant_memories_to_working_memory-IsOf_example : IsOf qdrant "anna" own
unfolding recall_relevant_memories_to_working_memory recall_memories_from_embedding
recall_relevant_memories_to_working_memory-IsOf_example =
    recall_relevant_memories_to_working_memory-IsOf qdrant cat none
      (record { self = memory; cat = db }) own hooks_keep refl (inl refl)
