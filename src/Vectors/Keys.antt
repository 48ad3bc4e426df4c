-- ===== src/Vectors/Keys.antt =====
-- core/cat/memory/vector_memory_collection.py: the keys of the conditions.
use Prim.Native.String.{String, ◌++◌}

-- `f"{key}.{_key}"`
abbrev pub under : String → String → String
under key k = key ++ "." ++ k

-- `f"{key}[]"`
abbrev pub elements : String → String
elements key = key ++ "[]"

-- `f"metadata.{key}"`
abbrev pub in_metadata : String → String
in_metadata key = "metadata." ++ key

-- `self.embedder_name + "_" + self.collection_name`
abbrev pub alias_of : String → String → String
alias_of embedder_name collection_name = embedder_name ++ "_" ++ collection_name
