-- ===== src/Cache/InMemory/Eviction.antt =====
-- core/cat/cache/in_memory_cache.py: the size of the store, and which items the clean-up deletes.
use cat_forked.Prelude.{
  ℕ, zero, suc, ◌+◌, ◌/◌, ◌≤◌, ◌<◌, String, ◌≡◌, refl, inl, inr, true, false, List, [], ◌∷◌,
  contains, lookup, lookup-insert, some, ◌==◌, leb→le, length-insert, length-erase,
  length-erase_mem, length, leb, arith, In, In-contains, In-sort_by, sort_by-In, In-erase,
  In-take-drop, IsSorted-take-drop, sort_by-IsSorted, Bool-cases, take, sort_by,
  insert as dict_insert, if◌then◌else◌, length-sort_by, ==_refl,
}
use cat_forked.Cache.Item.{CacheItem}
use cat_forked.Cache.InMemory.{
  InMemoryCache, older, delete, delete_all, oldest, clean_up, insert, get_item,
}

module _ {V : Type 0} where
  abbrev pub size : InMemoryCache V → ℕ
  size c = length c.items

  -- There is room for one more item below the limit, and the clean-up deletes something.
  pub record IsBounded (c : InMemoryCache V) : Type 0 where
    pub below : size c < c.max_items
    pub tenth : 10 ≤ c.max_items

  size-delete : (k : String) (c : InMemoryCache V) → size (delete k c) ≤ size c
  unfolding delete
  size-delete k c = ground (arith, length-erase k c.items)

  size-delete_mem :
      (k : String) (c : InMemoryCache V) → contains k c.items ≡ true → size (delete k c) < size c
  unfolding delete
  size-delete_mem k c h = ground (arith, length-erase_mem k c.items)

  size-delete_all :
      (victims : List (String × CacheItem V)) (c : InMemoryCache V)
      → size (delete_all victims c) ≤ size c
  unfolding delete_all
  size-delete_all [] c = omega arith
  size-delete_all ((k, v) ∷ victims) c =
      omega (arith, size-delete k c, size-delete_all victims (delete k c))

  -- A slice of at least one stored item makes the store smaller.
  size-delete_slice :
      (n : ℕ) (l : List (String × CacheItem V)) (c : InMemoryCache V)
      → 1 ≤ n
      → 1 ≤ length l
      → ((p : String × CacheItem V) → In p l → contains p.0 c.items ≡ true)
      → size (delete_all (take n l) c) < size c
  unfolding delete_all
  size-delete_slice zero l c h k m = absurd (omega arith)
  size-delete_slice (suc n) [] c h k m = absurd (omega arith)
  size-delete_slice (suc n) ((k, v) ∷ l) c h g m =
      omega
        (arith, size-delete_mem k c (m (k, v) (inl refl)), size-delete_all (take n l) (delete k c))

  max_items-delete_all :
      (victims : List (String × CacheItem V)) (c : InMemoryCache V)
      → (delete_all victims c).max_items ≡ c.max_items
  unfolding delete_all delete
  max_items-delete_all [] c = refl
  max_items-delete_all ((k, v) ∷ victims) c =
      ground (arith, max_items-delete_all victims (delete k c))

  pub max_items-clean_up : (c : InMemoryCache V) → (clean_up c).max_items ≡ c.max_items
  unfolding clean_up
  max_items-clean_up c = ground (arith, max_items-delete_all (oldest c) c)

  size-clean_up :
      (c : InMemoryCache V)
      → 10 ≤ c.max_items
      → size c ≤ c.max_items
      → size (clean_up c) < c.max_items
  unfolding clean_up
  size-clean_up c tenth fits = elim (Bool-cases (leb c.max_items (length c.items))) [
    | inl full ↦ rw full (
        omega (
          arith,
          size-delete_slice (c.max_items / 10) (sort_by older c.items) c (omega arith)
              (rw (length-sort_by older c.items) (ground arith))
              (λ p m. In-contains p c.items (In-sort_by older p c.items m)),
        ))
    | inr room ↦ rw room (ground arith)
  ]

  -- An insertion into an in-memory cache that has fewer items than `max_items`, which is at least
  -- ten, leaves it so.
  pub insert-IsBounded :
      (item : CacheItem V) (c : InMemoryCache V) → IsBounded c → IsBounded (insert item c)
  unfolding insert
  insert-IsBounded item c h =
      let stored : InMemoryCache V = record c { items = dict_insert item.key item c.items } in
      let bound : size (clean_up stored) < c.max_items =
        size-clean_up stored h.tenth
          (omega (arith, h.below, length-insert item.key item c.items)) in
      record {
        below = rw (max_items-clean_up stored) bound;
        tenth = rw (max_items-clean_up stored) h.tenth;
      }

  pub delete-IsBounded : (k : String) (c : InMemoryCache V) → IsBounded c → IsBounded (delete k c)
  unfolding delete
  delete-IsBounded k c h = ground (arith, length-erase k c.items)

  pub get_item-IsBounded :
      (now : ℕ) (k : String) (c : InMemoryCache V) → IsBounded c → IsBounded (get_item now k c).1
  unfolding get_item
  get_item-IsBounded now k c h = ground (arith, length-erase k c.items)

  In-delete :
      (k : String) (p : String × CacheItem V) (c : InMemoryCache V)
      → In p (delete k c).items
      → In p c.items
  unfolding delete
  In-delete k p c m = ground (arith, In-erase k p c.items)

  In-delete_all :
      (victims : List (String × CacheItem V)) (p : String × CacheItem V) (c : InMemoryCache V)
      → In p (delete_all victims c).items
      → In p c.items
  unfolding delete_all
  In-delete_all [] p c m = m
  In-delete_all ((k, v) ∷ victims) p c m = In-delete k p c (In-delete_all victims p (delete k c) m)

  not-In-delete : (p : String × CacheItem V) (c : InMemoryCache V) → ¬ In p (delete p.0 c).items
  unfolding delete
  not-In-delete p c m = ground (arith, In-erase p.0 p c.items, In-contains p c.items, ==_refl p.0)

  -- An item that the clean-up chose is gone after it.
  not-In-delete_all :
      (victims : List (String × CacheItem V)) (p : String × CacheItem V) (c : InMemoryCache V)
      → In p victims
      → ¬ In p (delete_all victims c).items
  unfolding delete_all
  not-In-delete_all [] p c v m = v
  not-In-delete_all ((k, w) ∷ victims) p c (inl e) m =
      not-In-delete p c (rw e (In-delete_all victims (k, w) (delete k c) (rw e at m)))
  not-In-delete_all ((k, w) ∷ victims) p c (inr v) m = not-In-delete_all victims p (delete k c) v m

  older_total : (p q : String × CacheItem V) → older p q ≡ false → older q p ≡ true
  older_total p q h = ground arith

  older_trans :
      (p q r : String × CacheItem V) → older p q ≡ true → older q r ≡ true → older p r ≡ true
  older_trans p q r h k = ground arith

  -- What a clean-up of a full store deletes is no newer than what it keeps.
  pub clean_up_deletes_oldest :
      (c : InMemoryCache V) (p q : String × CacheItem V)
      → c.max_items ≤ size c
      → In p (oldest c)
      → In q (clean_up c).items
      → p.1.created_at ≤ q.1.created_at
  unfolding clean_up
  clean_up_deletes_oldest c p q full gone kept =
      let test : leb c.max_items (length c.items) ≡ true = ground arith in
      let left : In q (delete_all (oldest c) c).items = rw test at kept in
      let sorted : List (String × CacheItem V) = sort_by older c.items in
      let there : In q sorted = sort_by-In older q c.items (In-delete_all (oldest c) q c left) in
      elim (In-take-drop q (c.max_items / 10) sorted there) [
        | inl early ↦ absurd (not-In-delete_all (oldest c) q c early left)
        | inr late ↦ leb→le p.1.created_at q.1.created_at (
            IsSorted-take-drop older (c.max_items / 10) sorted p q
              (sort_by-IsSorted older older_total older_trans c.items) gone late)
      ]

  -- Below the limit nothing is deleted: the store is then a plain map.
  pub view-insert_room :
      (item : CacheItem V) (j : String) (c : InMemoryCache V)
      → size c + 1 < c.max_items
      → lookup j (insert item c).items ≡ (if item.key == j then some item else lookup j c.items)
  unfolding insert
  view-insert_room item j c room =
      ground (arith, length-insert item.key item c.items, lookup-insert item.key j item c.items)
