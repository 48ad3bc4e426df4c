-- ===== src/Vectors/Points/Written.antt =====
-- core/cat/routes/memory/points.py: what the requests leave in the collections.
use cat_forked.Prelude.{
  ℕ, String, ◌≡◌, refl, ap, ◌∙◌, inl, inr, true, false, ◌&&◌, Option, none, some, List, [], ◌∷◌,
  mem_of, arith, ◌==◌, eq_iff, if◌then◌else◌, Bool-cases, Option-cases, is_some, Response, ok,
  http_error,
}
use cat_forked.Vectors.{Point, Qdrant, collections, get_points, delete_points}
use cat_forked.Vectors.Points.{
  PointBase, completed, create_memory_point, edit_memory_point, delete_memory_point, write_embedded,
}

module _ {V R : Type 0} (qdrant : Qdrant V R) (embed_query : String → Option (List V)) where
  -- What a collection has under an id after a write that is answered with `reply`.
  abbrev pub after_write :
      Response (Point V) → String → String → String → String → qdrant.Store → Option (Point V)
  after_write (ok p) c id d other db =
      if (c == d) && (id == other)
      then some (record p { vector = qdrant.normalized p.vector })
      else qdrant.point_of d other db
  after_write (http_error n) c id d other db = qdrant.point_of d other db

  write_embedded-after :
      (c id : String) (point : PointBase) (user_id : String) (now : ℕ) (v : Option (List V))
      (db : qdrant.Store) (d other : String)
      → let (reply, db') = write_embedded qdrant embed_query c id point user_id now v db in
        qdrant.point_of d other db' ≡ after_write reply c id d other db
  unfolding write_embedded
  write_embedded-after c id point user_id now none db d other = refl
  write_embedded-after c id point user_id now (some v) db d other =
      let p : Point V = record {
        id = id;
        page_content = point.content;
        metadata = completed user_id now point.metadata;
        vector = v;
      } in
      elim (Bool-cases (qdrant.upsert c p db).0) [
        | inl done ↦ rw done (qdrant.point_of-upsert c d other p db done)
        | inr failed ↦ rw failed (ap (qdrant.point_of d other) (qdrant.upsert_fails c p db failed))
      ]

  create_memory_point-after :
      (c : String) (point : PointBase) (user_id : String) (now : ℕ) (id : String)
      (db : qdrant.Store) (d other : String)
      → let (reply, db') = create_memory_point qdrant embed_query c point user_id now id db in
        qdrant.point_of d other db' ≡ after_write reply c id d other db
  unfolding create_memory_point
  create_memory_point-after c point user_id now id db d other =
      let written =
        write_embedded-after c id point user_id now (embed_query point.content) db d other in
      elim (Bool-cases (c == "procedural")) [
        | inl p ↦ rw p refl
        | inr np ↦ rw np (elim (Bool-cases (mem_of c collections)) [
          | inl m ↦ rw m written
          | inr nm ↦ rw nm refl
        ])
      ]

  edit_memory_point-after :
      (c id : String) (point : PointBase) (user_id : String) (now : ℕ) (db : qdrant.Store)
      (d other : String)
      → let (reply, db') = edit_memory_point qdrant embed_query c id point user_id now db in
        qdrant.point_of d other db' ≡ after_write reply c id d other db
  unfolding edit_memory_point get_points
  edit_memory_point-after c id point user_id now db d other =
      let written =
        write_embedded-after c id point user_id now (embed_query point.content) db d other in
      elim (Bool-cases (c == "procedural")) [
        | inl p ↦ rw p refl
        | inr np ↦ rw np (elim (Bool-cases (mem_of c collections)) [
          | inr nm ↦ rw nm refl
          | inl m ↦ rw m (
              rw (qdrant.retrieve_lem c id db) (elim (Option-cases (qdrant.point_of c id db)) [
                | inl missing ↦ rw missing refl
                | inr (old, there) ↦ rw there written
              ]))
        ])
      ]

  after_write-is_some :
      (c id d other : String) (db : qdrant.Store) (reply : Response (Point V))
      → ((p : Point V)
          → reply ≡ ok p
          → ((c == "procedural") ≡ false) × is_some (qdrant.point_of c id db) ≡ true)
      → is_some (after_write reply c id d other db) ≡ is_some (qdrant.point_of d other db)
  after_write-is_some c id d other db (ok p) h = ground (
    arith,
    h p refl,
    eq_iff c d,
    eq_iff id other,
    ap (λ (i : String). qdrant.point_of i id db),
    ap (λ (i : String). qdrant.point_of d i db),
  )
  after_write-is_some c id d other db (http_error n) h = refl

  after_write-elsewhere :
      (c id d other : String) (db : qdrant.Store) (reply : Response (Point V))
      → ((p : Point V) → reply ≡ ok p → (c == d) ≡ false)
      → after_write reply c id d other db ≡ qdrant.point_of d other db
  after_write-elsewhere c id d other db (ok p) h = rw (h p refl) refl
  after_write-elsewhere c id d other db (http_error n) h = refl

  -- A point is only written to the episodic and the declarative memory.
  create_memory_point-writable :
      (c : String) (point : PointBase) (user_id : String) (now : ℕ) (id : String)
      (db : qdrant.Store) (p : Point V)
      → (create_memory_point qdrant embed_query c point user_id now id db).0 ≡ ok p
      → (c == "procedural") ≡ false
  unfolding create_memory_point
  create_memory_point-writable c point user_id now id db p answered = ground arith

  edit_memory_point-writable :
      (c id : String) (point : PointBase) (user_id : String) (now : ℕ) (db : qdrant.Store)
      (p : Point V)
      → (edit_memory_point qdrant embed_query c id point user_id now db).0 ≡ ok p
      → ((c == "procedural") ≡ false) × is_some (qdrant.point_of c id db) ≡ true
  unfolding edit_memory_point get_points
  edit_memory_point-writable c id point user_id now db p answered =
      ground (arith, qdrant.retrieve_lem c id db)

  -- An edit adds no point and removes none: where it is answered with a point, this point is there under
  -- the id with its vector normalized, and all else is as before; where it is refused, nothing has changed.
  pub edit_memory_point-point_of :
      (c id : String) (point : PointBase) (user_id : String) (now : ℕ) (db : qdrant.Store)
      (d other : String)
      → let (reply, db') = edit_memory_point qdrant embed_query c id point user_id now db in
        (is_some (qdrant.point_of d other db') ≡ is_some (qdrant.point_of d other db))
        × (qdrant.point_of d other db' ≡ after_write reply c id d other db)
  edit_memory_point-point_of c id point user_id now db d other =
      let reply = (edit_memory_point qdrant embed_query c id point user_id now db).0 in
      let after = edit_memory_point-after c id point user_id now db d other in
      (
        ap is_some after
            ∙ after_write-is_some c id d other db reply
                (edit_memory_point-writable c id point user_id now db),
        after,
      )

  -- Whatever is sent, creating a point or editing one changes nothing in the procedural memory.
  pub point_of-procedural :
      (c id : String) (point : PointBase) (user_id : String) (now : ℕ) (db : qdrant.Store)
      (other : String)
      → let created = create_memory_point qdrant embed_query c point user_id now id db in
        let edited = edit_memory_point qdrant embed_query c id point user_id now db in
        (qdrant.point_of "procedural" other created.1 ≡ qdrant.point_of "procedural" other db)
        × (qdrant.point_of "procedural" other edited.1 ≡ qdrant.point_of "procedural" other db)
  point_of-procedural c id point user_id now db other =
      let created = create_memory_point qdrant embed_query c point user_id now id db in
      let edited = edit_memory_point qdrant embed_query c id point user_id now db in
      (
        create_memory_point-after c point user_id now id db "procedural" other
            ∙ after_write-elsewhere c id "procedural" other db created.0
                (create_memory_point-writable c point user_id now id db),
        edit_memory_point-after c id point user_id now db "procedural" other
            ∙ after_write-elsewhere c id "procedural" other db edited.0
                (λ p h. (edit_memory_point-writable c id point user_id now db p h).0),
      )

module _ {V R : Type 0} (qdrant : Qdrant V R) where
  -- A deletion is answered with the id where the collection has such a point, and with 400 otherwise;
  -- the point is gone, and every other one is as before.
  pub delete_memory_point-point_of :
      (c id : String) (db : qdrant.Store) (d other : String)
      → let (reply, db') = delete_memory_point qdrant c id db in
        let there = mem_of c collections && is_some (qdrant.point_of c id db) in
        (reply ≡ (if there then ok id else http_error 400))
        × (qdrant.point_of d other db'
            ≡ (if there && ((c == d) && (id == other)) then none else qdrant.point_of d other db))
  unfolding delete_memory_point get_points delete_points
  delete_memory_point-point_of c id db d other = elim (Bool-cases (mem_of c collections)) [
    | inr nm ↦ rw nm (refl, refl)
    | inl m ↦ rw m (
        rw (qdrant.retrieve_lem c id db) (elim (Option-cases (qdrant.point_of c id db)) [
          | inl missing ↦ rw missing (refl, refl)
          | inr (old, there) ↦
              rw there (refl, qdrant.point_of-delete c d (id ∷ []) other db ∙ ground arith)
        ]))
  ]
