-- ===== src/Cache/Spec.antt =====
-- core/cat/cache/base_cache.py: the abstract class, with what a caller may rely on. Both stores
-- of the package are instances.
use cat_forked.Prelude.{ℕ, String, ◌≡◌, ◌⊎◌, Option, none, some, ◌==◌, if◌then◌else◌}
use cat_forked.Cache.Item.{CacheItem, live}

-- `view k s` is the item that is stored under `k`, expired or not; `IsKey` says which keys the
-- store tells apart. A store may forget an item when it inserts another: it is a lossy map.
pub record BaseCache (V : Type 0) : Type 1 where
  pub Store : Type 0
  pub IsKey : String → Type 0
  pub insert : CacheItem V → Store → Store
  pub get_item : ℕ → String → Store → Option (CacheItem V) × Store
  pub delete : String → Store → Store
  pub view : String → Store → Option (CacheItem V)
  pub view-insert :
      (c : CacheItem V) (j : String) (s : Store)
      → IsKey c.key
      → IsKey j
      → (view j (insert c s) ≡ none)
        ⊎ (view j (insert c s) ≡ (if c.key == j then some c else view j s))
  pub view-delete :
      (k j : String) (s : Store)
      → IsKey k
      → IsKey j
      → view j (delete k s) ≡ (if k == j then none else view j s)
  pub get_item_lem : (now : ℕ) (k : String) (s : Store) → (get_item now k s).0 ≡ live now (view k s)
  pub view-get_item :
      (now : ℕ) (k j : String) (s : Store)
      → IsKey k
      → IsKey j
      → view j (get_item now k s).1 ≡ (if k == j then live now (view k s) else view j s)

module _ {V : Type 0} where
  -- `if item: return item.value`, in both stores
  abbrev pub value_of : Option (CacheItem V) → Option V
  value_of none = none
  value_of (some c) = some c.value
