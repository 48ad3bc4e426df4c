-- ===== src/Vectors/Recall.antt =====
-- core/cat/routes/memory/points.py and core/cat/looking_glass/stray_cat.py: the recall of memories, by
-- the two requests and for a turn of the conversation.

pub mod Private
use cat_forked.Prelude.{
  ℕ, String, Bool, true, false, not, Option, none, some, List, [], ◌∷◌, ◌++◌, insert, erase, ◌==◌,
  if◌then◌else◌, Response, ok, http_error,
}
use cat_forked.Form.Action.{Turn, Act, pure, raise, modify, gets, world, ◌>>=◌, ◌>>◌}
use cat_forked.Vectors.{
  text, Value, scalar, Metadata, Memory, Qdrant, collections, recall_memories_from_embedding,
}

-- `{"source": user_id}`
abbrev pub source_of : String → Metadata
source_of user_id = ("source", scalar (text user_id)) ∷ []

abbrev pub user_filter : String → String → Option Metadata
user_filter user_id c = if c == "episodic" then some (source_of user_id) else none

-- `metadata` after the test of one collection: the dictionary is the same one for all of them.
abbrev pub narrowed : String → String → Metadata → Metadata
narrowed user_id c metadata =
    if c == "episodic"
    then insert "source" (scalar (text user_id)) metadata
    else erase "source" metadata

module _ {V R : Type 0} (qdrant : Qdrant V R) where
  abbrev pub Recalled : Type 0
  Recalled = List (String × List (Memory V R))

  -- One more collection; whatever raises on the way raises.
  abbrev pub and_then : String → Option (List (Memory V R)) → Option Recalled → Option Recalled
  and_then c none later = none
  and_then c (some ms) none = none
  and_then c (some ms) (some later) = some ((c, ms) ∷ later)

  recall_own : String → ℕ → List V → List String → qdrant.Store → Option Recalled
  unfolding recall_memories_from_embedding
  recall_own user_id k embedding [] db = some []
  recall_own user_id k embedding (c ∷ later) db =
      and_then c
        (recall_memories_from_embedding qdrant c embedding (user_filter user_id c) k none db)
        (recall_own user_id k embedding later db)

  abbrev pub or_500 : Option Recalled → Response Recalled
  or_500 none = http_error 500
  or_500 (some recalled) = ok recalled

  with_query : Option (List V) → (List V → Option Recalled) → Response Recalled
  with_query none recall = http_error 500
  with_query (some embedding) recall = or_500 (recall embedding)

  unfoldable pub recall_each :
      String → ℕ → List V → List String → Metadata → qdrant.Store → Option Recalled
  unfolding recall_memories_from_embedding
  recall_each user_id k embedding [] metadata db = some []
  recall_each user_id k embedding (c ∷ later) metadata db =
      let metadata' = narrowed user_id c metadata in
      and_then c (recall_memories_from_embedding qdrant c embedding (some metadata') k none db)
        (recall_each user_id k embedding later metadata' db)

module _ {V R : Type 0} (qdrant : Qdrant V R) (embed_query : String → Option (List V)) where
  -- GET
  unfoldable pub recall_memory_points_from_text :
      String → String → ℕ → qdrant.Store → Response (Recalled qdrant)
  unfolding recall_own with_query
  recall_memory_points_from_text user_id query k db =
      with_query qdrant (embed_query query) (λ e. recall_own qdrant user_id k e collections db)

  -- POST
  unfoldable pub recall_memory_points :
      String → String → ℕ → Metadata → qdrant.Store → Response (Recalled qdrant)
  unfolding recall_each with_query
  recall_memory_points user_id query k metadata db =
      with_query qdrant (embed_query query)
        (λ e. recall_each qdrant user_id k e collections metadata db)

-- `before_cat_recalls_..._memories` gets such a dictionary.
pub record RecallConfig (V R : Type 0) : Type 0 where
  pub embedding : List V
  pub k : ℕ
  pub threshold : Option R
  pub metadata : Metadata

-- What the recall writes in the working memory.
pub record Working (V R : Type 0) : Type 0 where
  pub user_text : String
  pub recall_query : String
  pub model_interactions : List String
  pub episodic_memories : List (Memory V R)
  pub declarative_memories : List (Memory V R)
  pub procedural_memories : List (Memory V R)

-- `setattr(self.working_memory, f"{memory_type}_memories", memories)`; the types are the keys of the
-- collections.
abbrev pub set_memories : {V R : Type 0} → String → List (Memory V R) → Working V R → Working V R
set_memories memory_type memories w =
    if memory_type == "episodic"
    then record w { episodic_memories = memories }
    else if memory_type == "declarative"
    then record w { declarative_memories = memories }
    else record w { procedural_memories = memories }

-- The hooks, the embedder and the database that the cat reads.
pub record Recalling {V R : Type 0} (qdrant : Qdrant V R) (W : Type 0) : Type 0 where
  pub user_id : String
  pub default_threshold : R
  pub cat_recall_query : String → Act (Working V R) W String
  pub embed_query : String → W → Option (List V) × W
  pub before_cat_recalls_memories : Act (Working V R) W (Unit {0})
  pub before_cat_recalls_episodic_memories :
      RecallConfig V R → Act (Working V R) W (RecallConfig V R)
  pub before_cat_recalls_declarative_memories :
      RecallConfig V R → Act (Working V R) W (RecallConfig V R)
  pub before_cat_recalls_procedural_memories :
      RecallConfig V R → Act (Working V R) W (RecallConfig V R)
  pub after_cat_recalls_memories : Act (Working V R) W (Unit {0})
  pub vectors : W → qdrant.Store

module _ {V R W : Type 0} (qdrant : Qdrant V R) (cat : Recalling qdrant W) where
  abbrev CatAct : Type 0 → Type 0
  CatAct A = Act (Working V R) W A

  abbrev pub default_config : List V → Metadata → RecallConfig V R
  default_config embedding metadata = record {
    embedding = embedding;
    k = 3;
    threshold = some cat.default_threshold;
    metadata = metadata;
  }

  abbrev pub recalled_by : RecallConfig V R → String → W → Option (List (Memory V R))
  recalled_by config memory_type w =
      recall_memories_from_embedding qdrant memory_type config.embedding (some config.metadata)
        config.k config.threshold (cat.vectors w)

  -- The loop over `zip(recall_configs, memory_types)`
  unfoldable pub recall_zip : List (RecallConfig V R) → List String → CatAct (Unit {0})
  recall_zip [] memory_types t = (some tt, t)
  recall_zip (config ∷ configs) [] t = (some tt, t)
  recall_zip (config ∷ configs) (memory_type ∷ later) t =
      elim (recalled_by config memory_type t.cat) [
        | none ↦ (none, t)
        | some memories ↦
            recall_zip configs later (record t { self = set_memories memory_type memories t.self })
      ]

  -- The hooks on the three configurations, one after the other.
  with_declarative : List V → RecallConfig V R → RecallConfig V R → CatAct (List (RecallConfig V R))
  with_declarative embedding episodic declarative = do
    procedural ← cat.before_cat_recalls_procedural_memories (default_config embedding [])
    pure (episodic ∷ declarative ∷ procedural ∷ [])

  with_episodic : List V → RecallConfig V R → CatAct (List (RecallConfig V R))
  unfolding with_declarative
  with_episodic embedding episodic =
      cat.before_cat_recalls_declarative_memories (default_config embedding [])
      >>= with_declarative embedding episodic

  recall_configs : List V → CatAct (List (RecallConfig V R))
  unfolding with_episodic
  recall_configs embedding =
      cat.before_cat_recalls_episodic_memories (default_config embedding (source_of cat.user_id))
      >>= with_episodic embedding

  abbrev query_or_text : Option String → CatAct String
  query_or_text none t = (some t.self.user_text, t)
  query_or_text (some query) t = (some query, t)

  -- The memories, by the three configurations, and the last hook.
  recall_all : List (RecallConfig V R) → CatAct (Unit {0})
  unfolding recall_zip
  recall_all configs = recall_zip configs collections >> cat.after_cat_recalls_memories

  recall_near : List V → CatAct (Unit {0})
  unfolding recall_configs recall_all
  recall_near embedding = recall_configs embedding >>= recall_all

  recall_for : String → List V → CatAct (Unit {0})
  unfolding recall_near
  recall_for recall_query embedding = do
    modify (λ w. record w {
      recall_query = recall_query;
      model_interactions = w.model_interactions ++ recall_query ∷ [];
    })
    cat.before_cat_recalls_memories
    recall_near embedding

  recall_asked : String → CatAct (Unit {0})
  unfolding recall_for
  recall_asked recall_query = world (cat.embed_query recall_query) >>= recall_for recall_query

  recall_query : String → CatAct (Unit {0})
  unfolding recall_asked
  recall_query asked = cat.cat_recall_query asked >>= recall_asked

  unfoldable pub recall_relevant_memories_to_working_memory : Option String → CatAct (Unit {0})
  unfolding recall_query
  recall_relevant_memories_to_working_memory query = query_or_text query >>= recall_query
