-- ===== src/Cache/InMemory/Laws.antt =====
-- core/cat/cache/in_memory_cache.py as an instance of the interface.
use cat_forked.Prelude.{
  ℕ, String, ◌≡◌, refl, ◌⊎◌, inl, inr, Option, none, some, List, [], ◌∷◌, lookup,
  insert as dict_insert, lookup-insert, lookup-erase, Bool-cases, length, leb, arith, ◌==◌, eq_iff,
  if◌then◌else◌,
}
use cat_forked.Cache.Item.{CacheItem, live}
use cat_forked.Cache.Spec.{BaseCache}
use cat_forked.Cache.InMemory.{
  InMemoryCache, delete, delete_all, oldest, clean_up, insert, get_item,
}

module _ {V : Type 0} where
  abbrev pub view : String → InMemoryCache V → Option (CacheItem V)
  view k c = lookup k c.items

  pub view-delete :
      (k j : String) (c : InMemoryCache V)
      → view j (delete k c) ≡ (if k == j then none else view j c)
  unfolding delete
  view-delete k j c = ground (arith, eq_iff k j, lookup-erase k j c.items)

  -- Deleting never brings an item in.
  pub view-delete_all :
      (victims : List (String × CacheItem V)) (j : String) (c : InMemoryCache V)
      → (view j (delete_all victims c) ≡ none) ⊎ (view j (delete_all victims c) ≡ view j c)
  unfolding delete_all
  view-delete_all [] j c = inr refl
  view-delete_all ((k, v) ∷ victims) j c =
      ground (arith, view-delete k j c, view-delete_all victims j (delete k c))

  pub view-clean_up :
      (j : String) (c : InMemoryCache V)
      → (view j (clean_up c) ≡ none) ⊎ (view j (clean_up c) ≡ view j c)
  unfolding clean_up
  view-clean_up j c = elim (Bool-cases (leb c.max_items (length c.items))) [
    | inl full ↦ rw full (view-delete_all (oldest c) j c)
    | inr room ↦ rw room (inr refl)
  ]

  pub view-insert :
      (item : CacheItem V) (j : String) (c : InMemoryCache V)
      → (view j (insert item c) ≡ none)
        ⊎ (view j (insert item c) ≡ (if item.key == j then some item else view j c))
  unfolding insert
  view-insert item j c =
      let stored : InMemoryCache V = record c { items = dict_insert item.key item c.items } in
      rw (lookup-insert item.key j item c.items) at (view-clean_up j stored)

  pub get_item_lem :
      (now : ℕ) (k : String) (c : InMemoryCache V) → (get_item now k c).0 ≡ live now (view k c)
  unfolding get_item
  get_item_lem now k c = ground arith

  pub view-get_item :
      (now : ℕ) (k j : String) (c : InMemoryCache V)
      → view j (get_item now k c).1 ≡ (if k == j then live now (view k c) else view j c)
  unfolding get_item
  view-get_item now k j c = ground (arith, eq_iff k j, lookup-erase k j c.items)

  -- `InMemoryCache(BaseCache)`: it tells all keys apart.
  abbrev pub in_memory_cache : BaseCache V
  in_memory_cache = record {
    Store = InMemoryCache V;
    IsKey = λ k. Unit;
    insert = insert;
    get_item = get_item;
    delete = delete;
    view = view;
    view-insert = λ c j s p q. view-insert c j s;
    view-delete = λ k j s p q. view-delete k j s;
    get_item_lem = get_item_lem;
    view-get_item = λ now k j s p q. view-get_item now k j s;
  }
