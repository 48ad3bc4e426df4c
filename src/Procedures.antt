-- ===== src/Procedures.antt =====
-- core/cat/looking_glass/cheshire_cat.py: the triggers of the tools and forms in the procedural memory.
-- A procedure is embedded once for each of its triggers; the hashes tell which ones are there.

pub mod Hashes
mod Tests
pub mod Embedded
pub mod Stale
pub mod Triggers
use cat_forked.Prelude.{
  ℕ, ◌+◌, ◌≡◌, String, Bool, true, false, not, Option, none, some, List, [], ◌∷◌, Dict, lookup,
  contains, insert, keys, filter_by, if◌then◌else◌,
}
use cat_forked.Vectors.{
  Scalar, text, number, Value, scalar, Metadata, Point, Qdrant, add_point, delete_points,
  get_all_points,
}
use cat_forked.Vectors.Keys.{under}

-- A tool or the class of a form.
pub record Procedure : Type 0 where
  pub name : String
  pub procedure_type : String
  pub triggers_map : Dict (List String)

pub record Trigger : Type 0 where
  pub source : String
  pub type : String
  pub trigger_type : String
  pub content : String

-- `f"{source}.{trigger_type}.{content}"`
abbrev pub p_hash : String → String → String → String
p_hash source trigger_type content = under (under source trigger_type) content

abbrev pub hash_of_trigger : Trigger → String
hash_of_trigger t = p_hash t.source t.trigger_type t.content

-- The three loops of `build_active_procedures_hashes`
unfoldable pub with_contents : Procedure → String → List String → Dict Trigger → Dict Trigger
with_contents ap trigger_type [] hashes = hashes
with_contents ap trigger_type (trigger_content ∷ later) hashes =
    let t : Trigger = record {
      source = ap.name;
      type = ap.procedure_type;
      trigger_type = trigger_type;
      content = trigger_content;
    } in
    with_contents ap trigger_type later (insert (hash_of_trigger t) t hashes)

unfoldable pub with_triggers : Procedure → Dict (List String) → Dict Trigger → Dict Trigger
unfolding with_contents
with_triggers ap [] hashes = hashes
with_triggers ap ((trigger_type, trigger_list) ∷ later) hashes =
    with_triggers ap later (with_contents ap trigger_type trigger_list hashes)

unfoldable pub with_procedures : List Procedure → Dict Trigger → Dict Trigger
unfolding with_triggers
with_procedures [] hashes = hashes
with_procedures (ap ∷ later) hashes =
    with_procedures later (with_triggers ap ap.triggers_map hashes)

unfoldable pub build_active_procedures_hashes : List Procedure → Dict Trigger
unfolding with_procedures
build_active_procedures_hashes active_procedures = with_procedures active_procedures []

-- `show` formats a value that is not a text.
module _ (show : Value → String) where
  abbrev pub shown : Value → String
  shown (scalar (text s)) = s
  shown v = show v

  abbrev pub or_unsupported : Option Value → String
  or_unsupported none = "unsupported"
  or_unsupported (some v) = shown v

  -- A point without a source raises.
  abbrev hash_from : Option Value → Option Value → String → Option String
  hash_from none trigger_type content = none
  hash_from (some source) trigger_type content =
      some (p_hash (shown source) (or_unsupported trigger_type) content)

  module _ {V : Type 0} where
    abbrev pub hash_of_point : Point V → Option String
    hash_of_point ep =
        hash_from (lookup "source" ep.metadata) (lookup "trigger_type" ep.metadata) ep.page_content

    -- The loop of `build_embedded_procedures_hashes`: the last point of a hash stays.
    unfoldable pub embedded_from : Dict String → List (Point V) → Option (Dict String)
    embedded_from hashes [] = some hashes
    embedded_from hashes (ep ∷ later) = elim (hash_of_point ep) [
      | none ↦ none
      | some h ↦ embedded_from (insert h ep.id hashes) later
    ]

    unfoldable pub build_embedded_procedures_hashes : List (Point V) → Option (Dict String)
    unfolding embedded_from
    build_embedded_procedures_hashes embedded_procedures = embedded_from [] embedded_procedures

-- `set(d.keys()) - set(e.keys())`
abbrev pub missing_in : {A B : Type 0} → Dict A → Dict B → List String
missing_in d e = filter_by (λ h. not (contains h e)) (keys d)

-- `[d[h] for h in hs]`; the keys are there.
abbrev pub values_at : {A : Type 0} → Dict A → List String → List A
values_at d [] = []
values_at d (h ∷ hs) =
    let rest = values_at d hs in elim (lookup h d) [ some a ↦ a ∷ rest | none ↦ rest ]

-- `in_order` lists a set; `new_id` gives the id of each new point, and `embed_documents` the vector of a
-- text, `none` where it raises.
module _ {V R : Type 0} (qdrant : Qdrant V R) (show : Value → String)
    (in_order : List String → List String) (embed_documents : String → Option (List V)) (now : ℕ)
    (new_id : ℕ → String) where
  abbrev pub metadata_of : Trigger → Metadata
  metadata_of t =
      ("source", scalar (text t.source))
      ∷ ("type", scalar (text t.type))
      ∷ ("trigger_type", scalar (text t.trigger_type))
      ∷ ("when", scalar (number now))
      ∷ []

  -- The loop over the triggers; the answer of the database is not looked at.
  unfoldable pub embed_all : ℕ → List Trigger → qdrant.Store → Bool × qdrant.Store
  unfolding add_point
  embed_all n [] db = (true, db)
  embed_all n (t ∷ later) db = elim (embed_documents t.content) [
    | none ↦ (false, db)
    | some trigger_embedding ↦
        embed_all (n + 1) later
          (add_point qdrant "procedural" t.content trigger_embedding (metadata_of t) (new_id n)
            db).1
  ]

  -- `if points_to_be_deleted_ids`
  abbrev pub deleted : List String → qdrant.Store → qdrant.Store
  deleted [] db = db
  deleted (id ∷ ids) db = delete_points qdrant "procedural" (id ∷ ids) db

  synced : Dict Trigger → Option (Dict String) → qdrant.Store → Bool × qdrant.Store
  unfolding embed_all
  synced active none db = (false, db)
  synced active (some embedded) db =
      let points_to_be_deleted = in_order (missing_in embedded active) in
      let points_to_be_embedded = in_order (missing_in active embedded) in
      embed_all 0 (values_at active points_to_be_embedded)
        (deleted (values_at embedded points_to_be_deleted) db)

  -- The first component says whether it returned.
  unfoldable pub embed_procedures : List Procedure → qdrant.Store → Bool × qdrant.Store
  unfolding synced
  embed_procedures procedures db =
      let embedded_procedures = (get_all_points qdrant "procedural" 10000 none db).0 in
      synced (build_active_procedures_hashes procedures)
        (build_embedded_procedures_hashes show embedded_procedures) db
