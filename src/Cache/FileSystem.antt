-- ===== src/Cache/FileSystem.antt =====
-- core/cat/cache/file_system_cache.py: one pickled file for each key, in `cache_dir`. The files are
-- a map from paths to the items that unpickling gives back: two texts are taken for two files, which the
-- theorems use where no key has a slash, so that a key is one name in `cache_dir`, which the constructor
-- makes. Names that the file system refuses, and failures of the disk, are left out.
pub mod Paths
pub mod Laws
use cat_forked.Prelude.{
  ℕ, String, Option, none, some, Bool, Dict, lookup, contains, insert as dict_insert, erase,
  if◌then◌else◌,
}
use cat_forked.Cache.Item.{CacheItem, is_expired}
use cat_forked.Cache.Spec.{value_of}
use Paths.{get_file_path}

pub record FileSystemCache (V : Type 0) : Type 0 where
  pub cache_dir : String
  pub files : Dict (CacheItem V)

module _ {V : Type 0} where
  unfoldable pub insert : CacheItem V → FileSystemCache V → FileSystemCache V
  insert item c = record c { files = dict_insert (get_file_path c.cache_dir item.key) item c.files }

  -- `if os.path.exists(file_path): os.remove(file_path)`
  unfoldable pub delete : String → FileSystemCache V → FileSystemCache V
  delete k c =
      if contains (get_file_path c.cache_dir k) c.files
      then record c { files = erase (get_file_path c.cache_dir k) c.files }
      else c

  loaded :
      ℕ
      → String
      → Option (CacheItem V)
      → FileSystemCache V
      → Option (CacheItem V) × FileSystemCache V
  loaded now path none c = (none, c)
  loaded now path (some item) c =
      if is_expired now item
      then (none, record c { files = erase path c.files })
      else (some item, c)

  unfoldable pub get_item :
      ℕ → String → FileSystemCache V → Option (CacheItem V) × FileSystemCache V
  unfolding loaded
  get_item now k c =
      let path = get_file_path c.cache_dir k in loaded now path (lookup path c.files) c

  unfoldable pub get_value : ℕ → String → FileSystemCache V → Option V × FileSystemCache V
  unfolding get_item
  get_value now k c = let (item, c') = get_item now k c in (value_of item, c')
