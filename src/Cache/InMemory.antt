-- ===== src/Cache/InMemory.antt =====
-- core/cat/cache/in_memory_cache.py
pub mod Laws
pub mod Eviction
use cat_forked.Prelude.{
  ℕ, ◌/◌, String, Option, none, some, List, [], ◌∷◌, Dict, lookup, contains, insert as dict_insert,
  erase, length, take, sort_by, leb, if◌then◌else◌, Bool,
}
use cat_forked.Cache.Item.{CacheItem, is_expired}
use cat_forked.Cache.Spec.{value_of}

pub record InMemoryCache (V : Type 0) : Type 0 where
  pub items : Dict (CacheItem V)
  pub max_items : ℕ

module _ {V : Type 0} where
  -- `__init__`
  abbrev pub init : InMemoryCache V
  init = record { items = []; max_items = 100 }

  -- `key=lambda x: x[1].created_at`
  abbrev pub older : String × CacheItem V → String × CacheItem V → Bool
  older p q = leb p.1.created_at q.1.created_at

  unfoldable pub delete : String → InMemoryCache V → InMemoryCache V
  delete k c = if contains k c.items then record c { items = erase k c.items } else c

  -- `for k, v in …: self.delete(k)`
  unfoldable pub delete_all : List (String × CacheItem V) → InMemoryCache V → InMemoryCache V
  unfolding delete
  delete_all [] c = c
  delete_all ((k, v) ∷ victims) c = delete_all victims (delete k c)

  -- `sorted_items[:self.max_items//10]`
  unfoldable pub oldest : InMemoryCache V → List (String × CacheItem V)
  oldest c = take (c.max_items / 10) (sort_by older c.items)

  unfoldable pub clean_up : InMemoryCache V → InMemoryCache V
  unfolding oldest delete_all
  clean_up c = if leb c.max_items (length c.items) then delete_all (oldest c) c else c

  unfoldable pub insert : CacheItem V → InMemoryCache V → InMemoryCache V
  unfolding clean_up
  insert item c = clean_up (record c { items = dict_insert item.key item c.items })

  found :
      ℕ → String → Option (CacheItem V) → InMemoryCache V → Option (CacheItem V) × InMemoryCache V
  found now k none c = (none, c)
  found now k (some item) c =
      if is_expired now item then (none, record c { items = erase k c.items }) else (some item, c)

  unfoldable pub get_item : ℕ → String → InMemoryCache V → Option (CacheItem V) × InMemoryCache V
  unfolding found
  get_item now k c = found now k (lookup k c.items) c

  unfoldable pub get_value : ℕ → String → InMemoryCache V → Option V × InMemoryCache V
  unfolding get_item
  get_value now k c = let (item, c') = get_item now k c in (value_of item, c')
