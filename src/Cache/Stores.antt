-- ===== src/Cache/Stores.antt =====
-- The two stores of the package, as instances of the interface.
use cat_forked.Prelude.{ℕ, String, ◌≡◌, ◌⊎◌, none, List, [], ◌∷◌, lookup}
use cat_forked.Cache.Item.{live}
use cat_forked.Cache.InMemory.{InMemoryCache}
use cat_forked.Cache.InMemory
use cat_forked.Cache.InMemory.Laws.{in_memory_cache}
use cat_forked.Cache.FileSystem.{FileSystemCache}
use cat_forked.Cache.FileSystem
use cat_forked.Cache.FileSystem.Paths.{get_file_path}
use cat_forked.Cache.FileSystem.Laws.{IsFileName, file_system_cache}
use cat_forked.Cache.History.{Call, KeysAre, last_stored, run, get_item-run}

module _ {V : Type 0} where
  every_key : (calls : List (Call V)) → KeysAre (λ k. Unit) calls
  every_key [] = tt
  every_key (Call.insert c ∷ calls) = (tt, every_key calls)
  every_key (Call.get_item now k ∷ calls) = (tt, every_key calls)
  every_key (Call.delete k ∷ calls) = (tt, every_key calls)

  -- Whatever calls of `insert`, `get_item` and `delete` were made on an in-memory cache that held
  -- nothing under `k`, a read of `k` returns nothing, or the item stored last under `k` and not
  -- deleted since, if this has not expired.
  pub in_memory_read :
      (calls : List (Call V)) (k : String) (now : ℕ) (c : InMemoryCache V)
      → lookup k c.items ≡ none
      → let read = (InMemory.get_item now k (run in_memory_cache calls c)).0 in
        (read ≡ none) ⊎ (read ≡ live now (last_stored k none calls))
  in_memory_read calls k now c h = get_item-run in_memory_cache calls k now c (every_key calls) tt h

  -- Whatever calls of `insert`, `get_item` and `delete` were made on a cache on disk that held
  -- nothing at the path of `k`, where neither `k` nor a key in the calls has a slash, a read of `k`
  -- returns nothing, or the item stored last under `k` and not deleted since, if this
  -- has not expired.
  pub file_system_read :
      (calls : List (Call V)) (k : String) (now : ℕ) (c : FileSystemCache V)
      → KeysAre IsFileName calls
      → IsFileName k
      → lookup (get_file_path c.cache_dir k) c.files ≡ none
      → let read = (FileSystem.get_item now k (run file_system_cache calls c)).0 in
        (read ≡ none) ⊎ (read ≡ live now (last_stored k none calls))
  file_system_read calls k now c ok hk h = get_item-run file_system_cache calls k now c ok hk h
