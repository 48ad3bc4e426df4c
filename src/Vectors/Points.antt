-- ===== src/Vectors/Points.antt =====
-- core/cat/routes/memory/points.py: the requests that write, delete and list points. `embed_query` is the
-- embedder, `none` where it raises; the user's id, the time and the id of a new point are arguments.
pub mod Written
use cat_forked.Prelude.{
  ℕ, zero, suc, String, Bool, true, false, not, Option, none, some, List, [], ◌∷◌, lookup, insert,
  mem_of, ◌==◌, if◌then◌else◌, Response, ok, http_error,
}
use cat_forked.Vectors.{
  Scalar, text, number, boolean, null, Value, scalar, dict, list, nil, cons, end, field, Metadata,
  Point, Qdrant, collections, add_point, get_points, delete_points,
  delete_points_by_metadata_filter, get_all_points,
}

-- `MemoryPointBase`
pub record PointBase : Type 0 where
  pub content : String
  pub metadata : Metadata

abbrev pub is_truthy : Value → Bool
is_truthy (scalar (text s)) = not (s == "")
is_truthy (scalar (number zero)) = false
is_truthy (scalar (number (suc n))) = true
is_truthy (scalar (boolean b)) = b
is_truthy (scalar null) = false
is_truthy (dict end) = false
is_truthy (dict (field k v later)) = true
is_truthy (list nil) = false
is_truthy (list (cons v later)) = true

-- `not point.metadata.get(key)` is answered by a value of the cat.
abbrev pub or_value : Option Value → Scalar → Value
or_value none s = scalar s
or_value (some v) s = if is_truthy v then v else scalar s

abbrev has : Option Value → Bool
has none = false
has (some v) = is_truthy v

unfoldable pub ensured : String → Scalar → Metadata → Metadata
ensured key s metadata =
    if has (lookup key metadata) then metadata else insert key (scalar s) metadata

-- The source and the time.
unfoldable pub completed : String → ℕ → Metadata → Metadata
unfolding ensured
completed user_id now metadata =
    ensured "when" (number now) (ensured "source" (text user_id) metadata)

-- `if offset == ""`
abbrev pub offset_or_none : Option String → Option String
offset_or_none none = none
offset_or_none (some offset) = if offset == "" then none else some offset

module _ {V R : Type 0} (qdrant : Qdrant V R) (embed_query : String → Option (List V)) where
  -- The answer reads the stored point, which `None` does not have.
  stored : Option (Point V) × qdrant.Store → Response (Point V) × qdrant.Store
  stored (none, db) = (http_error 500, db)
  stored (some point, db) = (ok point, db)

  write_embedded :
      String
      → String
      → PointBase
      → String
      → ℕ
      → Option (List V)
      → qdrant.Store
      → Response (Point V) × qdrant.Store
  unfolding stored completed add_point
  write_embedded collection_id id point user_id now none db = (http_error 500, db)
  write_embedded collection_id id point user_id now (some embedding) db = stored (
      add_point qdrant collection_id point.content embedding (completed user_id now point.metadata)
        id db)

  unfoldable pub create_memory_point :
      String → PointBase → String → ℕ → String → qdrant.Store → Response (Point V) × qdrant.Store
  unfolding write_embedded
  create_memory_point collection_id point user_id now new_id db =
      if collection_id == "procedural"
      then (http_error 400, db)
      else if not (mem_of collection_id collections)
      then (http_error 400, db)
      else write_embedded collection_id new_id point user_id now (embed_query point.content) db

  edit_found :
      List (Point V)
      → String
      → String
      → PointBase
      → String
      → ℕ
      → qdrant.Store
      → Response (Point V) × qdrant.Store
  unfolding write_embedded
  edit_found [] collection_id point_id point user_id now db = (http_error 400, db)
  edit_found (old ∷ olds) collection_id point_id point user_id now db =
      write_embedded collection_id point_id point user_id now (embed_query point.content) db

  unfoldable pub edit_memory_point :
      String → String → PointBase → String → ℕ → qdrant.Store → Response (Point V) × qdrant.Store
  unfolding edit_found get_points
  edit_memory_point collection_id point_id point user_id now db =
      if collection_id == "procedural"
      then (http_error 400, db)
      else if not (mem_of collection_id collections)
      then (http_error 400, db)
      else edit_found (get_points qdrant collection_id (point_id ∷ []) db) collection_id point_id
          point user_id now db

module _ {V R : Type 0} (qdrant : Qdrant V R) where
  delete_found : List (Point V) → String → String → qdrant.Store → Response String × qdrant.Store
  unfolding delete_points
  delete_found [] collection_id point_id db = (http_error 400, db)
  delete_found (old ∷ olds) collection_id point_id db =
      (ok point_id, delete_points qdrant collection_id (point_id ∷ []) db)

  unfoldable pub delete_memory_point :
      String → String → qdrant.Store → Response String × qdrant.Store
  unfolding delete_found get_points
  delete_memory_point collection_id point_id db =
      if not (mem_of collection_id collections)
      then (http_error 400, db)
      else delete_found (get_points qdrant collection_id (point_id ∷ []) db) collection_id point_id
          db

  -- A collection that is not in the dictionary is a `KeyError`.
  unfoldable pub delete_memory_points_by_metadata :
      String → Metadata → qdrant.Store → Response (List String) × qdrant.Store
  unfolding delete_points_by_metadata_filter
  delete_memory_points_by_metadata collection_id metadata db =
      let (done, db') = delete_points_by_metadata_filter qdrant collection_id (some metadata) db in
      if not (mem_of collection_id collections)
      then (http_error 500, db)
      else (if done then ok [] else http_error 500, db')

  unfoldable pub get_points_in_collection :
      String → ℕ → Option String → qdrant.Store → Response (List (Point V) × Option String)
  unfolding get_all_points
  get_points_in_collection collection_id limit offset db =
      if collection_id == "procedural"
      then http_error 400
      else if not (mem_of collection_id collections)
      then http_error 400
      else ok (get_all_points qdrant collection_id limit (offset_or_none offset) db)
