-- ===== src/Cache/History.antt =====
-- The calls of a cache, and what a read may return after them.
use cat_forked.Prelude.{
  ℕ, String, ◌≡◌, ◌⊎◌, inl, Option, none, some, List, [], ◌∷◌, arith, ◌==◌, eq_iff, if◌then◌else◌,
}
use cat_forked.Cache.Item.{CacheItem, live}
use cat_forked.Cache.Spec.{BaseCache}

pub data Call (V : Type 0) : Type 0 where
  insert : CacheItem V → Call V
  get_item : ℕ → String → Call V
  delete : String → Call V

module _ {V : Type 0} where
  -- The calls name only keys that the store tells apart.
  abbrev pub KeysAre : (String → Type 0) → List (Call V) → Type 0
  KeysAre P [] = Unit
  KeysAre P (Call.insert c ∷ calls) = P c.key × KeysAre P calls
  KeysAre P (Call.get_item now k ∷ calls) = P k × KeysAre P calls
  KeysAre P (Call.delete k ∷ calls) = P k × KeysAre P calls

  -- The item that was stored last under `k` and not deleted since, beginning with `last`.
  pub last_stored : String → Option (CacheItem V) → List (Call V) → Option (CacheItem V)
  last_stored k last [] = last
  last_stored k last (Call.insert c ∷ calls) =
      last_stored k (if c.key == k then some c else last) calls
  last_stored k last (Call.get_item now j ∷ calls) = last_stored k last calls
  last_stored k last (Call.delete j ∷ calls) = last_stored k (if j == k then none else last) calls

  module _ (cache : BaseCache V) where
    pub call : Call V → cache.Store → cache.Store
    call (Call.insert c) s = cache.insert c s
    call (Call.get_item now k) s = (cache.get_item now k s).1
    call (Call.delete k) s = cache.delete k s

    pub run : List (Call V) → cache.Store → cache.Store
    run [] s = s
    run (c ∷ calls) s = run calls (call c s)

    -- Nothing is stored under `k`, or what was stored last.
    abbrev Serves : String → Option (CacheItem V) → cache.Store → Type 0
    Serves k last s = (cache.view k s ≡ none) ⊎ (cache.view k s ≡ last)

    run-Serves :
        (calls : List (Call V)) (k : String) (last : Option (CacheItem V)) (s : cache.Store)
        → KeysAre cache.IsKey calls
        → cache.IsKey k
        → Serves k last s
        → Serves k (last_stored k last calls) (run calls s)
    unfolding run call last_stored
    run-Serves [] k last s ok hk h = h
    run-Serves (Call.insert c ∷ calls) k last s ok hk h =
        run-Serves calls k (if c.key == k then some c else last) (cache.insert c s) ok.1 hk
          (ground (arith, cache.view-insert c k s ok.0 hk))
    run-Serves (Call.get_item now j ∷ calls) k last s ok hk h =
        run-Serves calls k last (cache.get_item now j s).1 ok.1 hk
          (ground (arith, cache.view-get_item now j k s ok.0 hk, eq_iff j k))
    run-Serves (Call.delete j ∷ calls) k last s ok hk h =
        run-Serves calls k (if j == k then none else last) (cache.delete j s) ok.1 hk
          (ground (arith, cache.view-delete j k s ok.0 hk))

    -- Whatever calls were made on a store that held nothing under `k`, a read of `k` returns
    -- nothing, or the item stored last under `k` and not deleted since, which has not expired.
    pub get_item-run :
        (calls : List (Call V)) (k : String) (now : ℕ) (s : cache.Store)
        → KeysAre cache.IsKey calls
        → cache.IsKey k
        → cache.view k s ≡ none
        → let read = (cache.get_item now k (run calls s)).0 in
          (read ≡ none) ⊎ (read ≡ live now (last_stored k none calls))
    get_item-run calls k now s ok hk h =
        ground
          (arith, run-Serves calls k none s ok hk (inl h), cache.get_item_lem now k (run calls s))
