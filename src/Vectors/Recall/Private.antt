-- ===== src/Vectors/Recall/Private.antt =====
-- core/cat/routes/memory/points.py and core/cat/looking_glass/stray_cat.py: whose episodic memories a
-- user gets.
use cat_forked.Prelude.{
  ℕ, ◌≡◌, refl, sym, ap, ◌∙◌, inl, inr, String, Bool, true, Option, none, some, List, [], ◌∷◌, ◌++◌,
  In, all_of, lookup, lookup-insert, arith, ◌==◌, Option-cases, ok,
}
use mathlib.Core.Path.{subst}
use cat_forked.Form.Action.{Turn, Act, pure, ◌>>=◌, world, bind_rule}
use cat_forked.Vectors.{
  Scalar, text, scalar, Metadata, condition, Memory, Qdrant, collections, build_all,
  qdrant_filter_from_dict, searched, recall_memories_from_embedding,
}
use cat_forked.Vectors.Conditions.{build_all-lookup}
use cat_forked.Vectors.Recall.{
  source_of, narrowed, and_then, Recalled, recalled_by, recall_each, recall_memory_points,
  with_query, RecallConfig, Working, Recalling, default_config, recall_zip, recall_configs,
  with_episodic, with_declarative, recall_all, recall_near, recall_for, recall_asked, recall_query,
  query_or_text, recall_relevant_memories_to_working_memory,
}

all_of-In :
    {A : Type 0} (p : A → Bool) (a : A) (xs : List A) → all_of p xs ≡ true → In a xs → p a ≡ true
all_of-In p a [] h m = absurd m
all_of-In p a (x ∷ xs) h (inl e) = rw e (ground arith)
all_of-In p a (x ∷ xs) h (inr m) = all_of-In p a xs (ground arith) m

module _ {V R : Type 0} (qdrant : Qdrant V R) where
  -- A memory that fulfils the condition `source = user_id`.
  abbrev pub IsOf : String → Memory V R → Type 0
  IsOf user_id m = qdrant.holds (condition "source" (text user_id)) m.point.metadata ≡ true

  -- A recalled memory fulfils the filter.
  recalled-holds :
      (c : String) (v : List V) (metadata : Metadata) (k : ℕ) (t : Option R) (db : qdrant.Store)
      (ms : List (Memory V R)) (m : Memory V R) (key : String) (s : Scalar)
      → recall_memories_from_embedding qdrant c v (some metadata) k t db ≡ some ms
      → In m ms
      → lookup key metadata ≡ some (scalar s)
      → qdrant.holds (condition key s) m.point.metadata ≡ true
  unfolding recall_memories_from_embedding qdrant_filter_from_dict searched
  recalled-holds c v [] k t db ms m key s found there h = absurd (ground arith)
  recalled-holds c v (entry ∷ later) k t db ms m key s found there h =
      elim (Option-cases (build_all (entry ∷ later))) [
        | inl raises ↦ absurd (ground arith)
        | inr (cs, made) ↦
            let e : qdrant.search c v (some cs) k t db ≡ ms = ground arith in
            all_of-In (λ q. qdrant.holds q m.point.metadata) (condition key s) cs
              (qdrant.search-holds c v cs k t db m
                (subst (λ (l : List (Memory V R)). In m l) (sym e) there))
              (build_all-lookup key s (entry ∷ later) cs made h)
      ]

  and_then-some :
      (c : String) (first : Option (List (Memory V R))) (rest : Option (Recalled qdrant))
      (out : Recalled qdrant)
      → and_then qdrant c first rest ≡ some out
      → (ms : List (Memory V R)) × (later : Recalled qdrant) × (first ≡ some ms)
        × (rest ≡ some later)
        × (out ≡ (c, ms) ∷ later)
  and_then-some c none rest out h = absurd (ground arith)
  and_then-some c (some ms) none out h = absurd (ground arith)
  and_then-some c (some ms) (some later) out h = (ms, later, refl, refl, ground arith)

  recall_each-holds :
      (user_id : String) (k : ℕ) (v : List V) (cs : List String) (metadata : Metadata)
      (db : qdrant.Store) (r : Recalled qdrant) (c : String) (ms : List (Memory V R))
      (m : Memory V R)
      → recall_each qdrant user_id k v cs metadata db ≡ some r
      → In (c, ms) r
      → In m ms
      → (c == "episodic") ≡ true
      → IsOf user_id m
  unfolding recall_each
  recall_each-holds user_id k v [] metadata db r c ms m returned there own e =
      let same : [] ≡ r = ground arith in
      absurd (subst (λ (l : Recalled qdrant). In (c, ms) l) (sym same) there)
  recall_each-holds user_id k v (c' ∷ cs) metadata db r c ms m returned there own e =
      let metadata' = narrowed user_id c' metadata in
      let (ms', later, first, rest, all) =
        and_then-some c' (recall_memories_from_embedding qdrant c' v (some metadata') k none db)
          (recall_each qdrant user_id k v cs metadata' db) r returned in
      elim (subst (λ (l : Recalled qdrant). In (c, ms) l) all there) [
        | inr m' ↦ recall_each-holds user_id k v cs metadata' db later c ms m rest m' own e
        | inl same ↦
            let same_name : c ≡ c' = ap (λ (q : String × List (Memory V R)). q.0) same in
            let same_list = ap (λ (q : String × List (Memory V R)). q.1) same in
            recalled-holds c' v metadata' k none db ms' m "source" (text user_id) first
              (subst (λ (l : List (Memory V R)). In m l) same_list own)
              (rw (sym same_name)
                (rw e (lookup-insert "source" "source" (scalar (text user_id)) metadata)))
      ]

  -- Whatever filter a user sends to `/recall`, each memory that is answered for the episodic collection
  -- has the user as its source.
  pub recall_memory_points-IsOf :
      (embed_query : String → Option (List V)) (user_id query : String) (k : ℕ)
      (metadata : Metadata) (db : qdrant.Store) (r : List (String × List (Memory V R)))
      (ms : List (Memory V R)) (m : Memory V R)
      → recall_memory_points qdrant embed_query user_id query k metadata db ≡ ok r
      → In ("episodic", ms) r
      → In m ms
      → IsOf user_id m
  unfolding recall_memory_points with_query
  recall_memory_points-IsOf embed_query user_id query k metadata db r ms m answered there own =
      elim (Option-cases (embed_query query)) [
        | inl failed ↦ absurd (ground arith)
        | inr (v, embedded) ↦
            elim (Option-cases (recall_each qdrant user_id k v collections metadata db)) [
              | inl raises ↦ absurd (ground arith)
              | inr (r', returned) ↦
                  let e : r' ≡ r = ground arith in
                  recall_each-holds user_id k v collections metadata db r' "episodic" ms m returned
                    (subst (λ (l : Recalled qdrant). In ("episodic", ms) l) (sym e) there) own refl
            ]
      ]

module _ {V R W : Type 0} (qdrant : Qdrant V R) (cat : Recalling qdrant W) where
  -- The hook on the episodic recall leaves the filter alone, and the last hook the episodic memories.
  pub record KeepsFilter : Type 0 where
    pub hook_keeps :
        (config config' : RecallConfig V R) (t : Turn (Working V R) W)
        → (cat.before_cat_recalls_episodic_memories config t).0 ≡ some config'
        → config'.metadata ≡ config.metadata
    pub last_keeps :
        (t : Turn (Working V R) W)
        → (cat.after_cat_recalls_memories t).1.self.episodic_memories ≡ t.self.episodic_memories

  -- Three configurations, the first of them for the user's memories.
  abbrev IsOwn : List (RecallConfig V R) → Type 0
  IsOwn (e ∷ d ∷ p ∷ []) = e.metadata ≡ source_of cat.user_id
  IsOwn _ = ⊥

  module _ (keeps : KeepsFilter) (m : Memory V R) where
    abbrev Private : {A : Type 0} → Option A × Turn (Working V R) W → Type 0
    Private {A} out =
        (a : A) → out.0 ≡ some a → In m out.1.self.episodic_memories → IsOf qdrant cat.user_id m

    abbrev IsPrivate : {A : Type 0} → Act (Working V R) W A → Type 0
    IsPrivate act = (t : Turn (Working V R) W) → Private (act t)

    -- It is enough that the last step is private.
    bind-IsPrivate :
        {A B : Type 0} (first : Act (Working V R) W A) (next : A → Act (Working V R) W B)
        → ((a : A) → IsPrivate (next a))
        → IsPrivate (first >>= next)
    bind-IsPrivate first next h t =
        bind_rule first next t Private (λ _ a e. absurd (ground arith)) (λ a _. h a (first t).1)

    abbrev Owned : Option (List (RecallConfig V R)) × Turn (Working V R) W → Type 0
    Owned out = (cs : List (RecallConfig V R)) → out.0 ≡ some cs → IsOwn cs

    with_declarative-Owned :
        (v : List V) (e d : RecallConfig V R) (t : Turn (Working V R) W)
        → e.metadata ≡ source_of cat.user_id
        → Owned (with_declarative qdrant cat v e d t)
    unfolding with_declarative
    with_declarative-Owned v e d t own =
        bind_rule (cat.before_cat_recalls_procedural_memories (default_config qdrant cat v []))
          (λ p. pure (e ∷ d ∷ p ∷ [])) t Owned (λ _ cs h. absurd (ground arith))
          (λ p _ cs h. let same : e ∷ d ∷ p ∷ [] ≡ cs = ground arith in subst IsOwn same own)

    with_episodic-Owned :
        (v : List V) (e : RecallConfig V R) (t : Turn (Working V R) W)
        → e.metadata ≡ source_of cat.user_id
        → Owned (with_episodic qdrant cat v e t)
    unfolding with_episodic
    with_episodic-Owned v e t own =
        let hook = cat.before_cat_recalls_declarative_memories (default_config qdrant cat v []) in
        bind_rule hook (with_declarative qdrant cat v e) t Owned (λ _ cs h. absurd (ground arith))
          (λ d _. with_declarative-Owned v e d (hook t).1 own)

    recall_configs-Owned :
        (v : List V) (t : Turn (Working V R) W) → Owned (recall_configs qdrant cat v t)
    unfolding recall_configs
    recall_configs-Owned v t =
        let config = default_config qdrant cat v (source_of cat.user_id) in
        let hook = cat.before_cat_recalls_episodic_memories config in
        bind_rule hook (with_episodic qdrant cat v) t Owned (λ _ cs h. absurd (ground arith))
          (λ e h. with_episodic-Owned v e (hook t).1 (keeps.hook_keeps config e t h))

    -- What the recall of three configurations writes for the first of them.
    zip_episodic :
        (e d p : RecallConfig V R) (t : Turn (Working V R) W)
        → (recall_zip qdrant cat (e ∷ d ∷ p ∷ []) collections t).0 ≡ some tt
        → (ms : List (Memory V R)) × (recalled_by qdrant cat e "episodic" t.cat ≡ some ms)
          × ((recall_zip qdrant cat (e ∷ d ∷ p ∷ []) collections t).1.self.episodic_memories ≡ ms)
    unfolding recall_zip
    zip_episodic e d p t returned =
        elim (Option-cases (recalled_by qdrant cat e "episodic" t.cat)) [
          | inl raises ↦ absurd (ground arith)
          | inr (ms, found) ↦ elim (Option-cases (recalled_by qdrant cat d "declarative" t.cat)) [
            | inl raises ↦ absurd (ground arith)
            | inr (ms₂, found₂) ↦
                elim (Option-cases (recalled_by qdrant cat p "procedural" t.cat)) [
                  | inl raises ↦ absurd (ground arith)
                  | inr (ms₃, found₃) ↦ (ms, found, rw (found, found₂, found₃, recall_zip) refl)
                ]
          ]
        ]

    recall_all-Private :
        (cs : List (RecallConfig V R)) → IsOwn cs → IsPrivate (recall_all qdrant cat cs)
    unfolding recall_all
    recall_all-Private [] own t = absurd own
    recall_all-Private (e ∷ []) own t = absurd own
    recall_all-Private (e ∷ d ∷ []) own t = absurd own
    recall_all-Private (e ∷ d ∷ p ∷ q ∷ later) own t = absurd own
    recall_all-Private (e ∷ d ∷ p ∷ []) own t =
        bind_rule (recall_zip qdrant cat (e ∷ d ∷ p ∷ []) collections)
          (λ _. cat.after_cat_recalls_memories) t Private (λ _ a h. absurd (ground arith))
          (λ u zipped a h there.
            let t' = (recall_zip qdrant cat (e ∷ d ∷ p ∷ []) collections t).1 in
            let (ms, found, written) = zip_episodic e d p t zipped in
            recalled-holds qdrant "episodic" e.embedding e.metadata e.k e.threshold
              (cat.vectors t.cat) ms m "source" (text cat.user_id) found
              (subst (λ (l : List (Memory V R)). In m l) (keeps.last_keeps t' ∙ written) there)
              (rw own refl))

    recall_near-IsPrivate : (v : List V) → IsPrivate (recall_near qdrant cat v)
    unfolding recall_near
    recall_near-IsPrivate v t =
        bind_rule (recall_configs qdrant cat v) (recall_all qdrant cat) t Private
          (λ _ a e. absurd (ground arith))
          (λ cs h.
            recall_all-Private cs (recall_configs-Owned v t cs h) (recall_configs qdrant cat v t).1)

    recall_for-IsPrivate : (q : String) (v : List V) → IsPrivate (recall_for qdrant cat q v)
    unfolding recall_for
    recall_for-IsPrivate q v t =
        bind-IsPrivate cat.before_cat_recalls_memories (λ _. recall_near qdrant cat v)
          (λ _. recall_near-IsPrivate v)
          (record t {
            self = record t.self {
              recall_query = q;
              model_interactions = t.self.model_interactions ++ q ∷ [];
            };
          })

  -- However the hooks change the query and the number of memories, as long as they leave the filter of
  -- the episodic recall and its result alone, a turn of the conversation only recalls episodic memories
  -- that have the user as their source.
  pub recall_relevant_memories_to_working_memory-IsOf :
      (query : Option String) (t : Turn (Working V R) W) (m : Memory V R)
      → KeepsFilter
      → let out = recall_relevant_memories_to_working_memory qdrant cat query t in
        out.0 ≡ some tt → In m out.1.self.episodic_memories → IsOf qdrant cat.user_id m
  unfolding recall_relevant_memories_to_working_memory recall_query recall_asked
  recall_relevant_memories_to_working_memory-IsOf query t m keeps returned there =
      let near = recall_for-IsPrivate keeps m in
      bind-IsPrivate keeps m (query_or_text qdrant cat query) (recall_query qdrant cat)
        (λ asked.
          bind-IsPrivate keeps m (cat.cat_recall_query asked) (recall_asked qdrant cat) (λ q.
            bind-IsPrivate keeps m (world (cat.embed_query q)) (recall_for qdrant cat q) (near q)))
        t tt returned there
