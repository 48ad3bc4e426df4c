-- ===== src/Cache/FileSystem/Laws.antt =====
-- core/cat/cache/file_system_cache.py as an instance of the interface, on the keys that have no
-- slash.
use cat_forked.Prelude.{
  ℕ, String, ◌≡◌, inr, false, Option, none, some, lookup, lookup-insert, lookup-erase, arith, ◌==◌,
  eq_iff, if◌then◌else◌,
}
use cat_forked.Cache.Item.{CacheItem, live}
use cat_forked.Cache.Spec.{BaseCache}
use cat_forked.Cache.FileSystem.{FileSystemCache, insert, delete, get_item}
use cat_forked.Cache.FileSystem.Paths.{get_file_path, get_file_path-eq, has_slash}

abbrev pub IsFileName : String → Type 0
IsFileName k = has_slash k ≡ false

module _ {V : Type 0} where
  abbrev pub view : String → FileSystemCache V → Option (CacheItem V)
  view k c = lookup (get_file_path c.cache_dir k) c.files

  -- No insertion forgets another item.
  pub view-insert :
      (item : CacheItem V) (j : String) (c : FileSystemCache V)
      → IsFileName item.key
      → IsFileName j
      → view j (insert item c) ≡ (if item.key == j then some item else view j c)
  unfolding insert
  view-insert item j c hk hj = rw (lookup-insert, get_file_path-eq c.cache_dir item.key j hk hj)

  pub view-delete :
      (k j : String) (c : FileSystemCache V)
      → IsFileName k
      → IsFileName j
      → view j (delete k c) ≡ (if k == j then none else view j c)
  unfolding delete
  view-delete k j c hk hj = rw (← get_file_path-eq c.cache_dir k j hk hj) (
      ground (
        arith,
        eq_iff (get_file_path c.cache_dir k) (get_file_path c.cache_dir j),
        lookup-erase (get_file_path c.cache_dir k) (get_file_path c.cache_dir j) c.files,
      ))

  pub get_item_lem :
      (now : ℕ) (k : String) (c : FileSystemCache V) → (get_item now k c).0 ≡ live now (view k c)
  unfolding get_item
  get_item_lem now k c = ground arith

  pub view-get_item :
      (now : ℕ) (k j : String) (c : FileSystemCache V)
      → IsFileName k
      → IsFileName j
      → view j (get_item now k c).1 ≡ (if k == j then live now (view k c) else view j c)
  unfolding get_item
  view-get_item now k j c hk hj = rw (← get_file_path-eq c.cache_dir k j hk hj) (
      ground (
        arith,
        eq_iff (get_file_path c.cache_dir k) (get_file_path c.cache_dir j),
        lookup-erase (get_file_path c.cache_dir k) (get_file_path c.cache_dir j) c.files,
      ))

  -- `FileSystemCache(BaseCache)`
  abbrev pub file_system_cache : BaseCache V
  file_system_cache = record {
    Store = FileSystemCache V;
    IsKey = IsFileName;
    insert = insert;
    get_item = get_item;
    delete = delete;
    view = view;
    view-insert = λ c j s p q. inr (view-insert c j s p q);
    view-delete = view-delete;
    get_item_lem = get_item_lem;
    view-get_item = view-get_item;
  }
