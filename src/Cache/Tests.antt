-- ===== src/Cache/Tests.antt =====
-- Runs of the caches.
use cat_forked.Prelude.{
  ℕ, ◌≤◌, String, ◌≡◌, refl, ◌⊎◌, inl, inr, none, some, List, [], ◌∷◌, lookup, pos, arith,
  if◌then◌else◌, ◌==◌,
}
use cat_forked.Cache.Item.{CacheItem, is_expired, live}
use cat_forked.Cache.InMemory.{InMemoryCache, insert, oldest, clean_up, get_item}
use cat_forked.Cache.InMemory.Laws.{in_memory_cache}
use cat_forked.Cache.InMemory.Eviction.{
  IsBounded, insert-IsBounded, clean_up_deletes_oldest, view-insert_room,
}
use cat_forked.Cache.FileSystem.{FileSystemCache}
use cat_forked.Cache.FileSystem
use cat_forked.Cache.FileSystem.Laws.{file_system_cache}
use cat_forked.Cache.History.{Call, last_stored, run}
use cat_forked.Cache.Stores.{in_memory_read, file_system_read}

abbrev item : String → ℕ → ℕ → CacheItem ℕ
item k v at_time = record { key = k; value = v; ttl = some (pos 60); created_at = at_time }

abbrev empty : InMemoryCache ℕ
empty = record { items = []; max_items = 10 }

abbrev on_disk : FileSystemCache ℕ
on_disk = record { cache_dir = "/tmp/cache"; files = [] }

abbrev nine : InMemoryCache ℕ
nine = record {
  items =
      ("c", item "c" 3 30)
      ∷ ("a", item "a" 1 10)
      ∷ ("b", item "b" 2 20)
      ∷ ("d", item "d" 4 40)
      ∷ ("e", item "e" 5 50)
      ∷ ("f", item "f" 6 60)
      ∷ ("g", item "g" 7 70)
      ∷ ("h", item "h" 8 80)
      ∷ ("i", item "i" 9 90)
      ∷ [];
  max_items = 10;
}

abbrev ten : InMemoryCache ℕ
ten = record nine { items = ("j", item "j" 10 100) ∷ nine.items }

-- The tenth item makes the oldest go.
oldest_goes : lookup "a" (insert (item "j" 10 100) nine).items ≡ none
unfolding insert
oldest_goes = refl

newest_stays : lookup "j" (insert (item "j" 10 100) nine).items ≡ some (item "j" 10 100)
unfolding insert
newest_stays = refl

expired_goes : (get_item 71 "a" nine).0 ≡ none
unfolding get_item is_expired
expired_goes = refl

abbrev calls : List (Call ℕ)
calls =
    Call.insert (item "a" 1 10)
    ∷ Call.insert (item "b" 2 20)
    ∷ Call.get_item 30 "a"
    ∷ Call.insert (item "a" 3 40)
    ∷ Call.delete "b"
    ∷ []

in_memory_read_example :
    let read = (get_item 50 "a" (run in_memory_cache calls empty)).0 in
    (read ≡ none) ⊎ (read ≡ live 50 (last_stored "a" none calls))
in_memory_read_example = in_memory_read calls "a" 50 empty refl

file_system_read_example :
    let read = (FileSystem.get_item 50 "a" (run file_system_cache calls on_disk)).0 in
    (read ≡ none) ⊎ (read ≡ live 50 (last_stored "a" none calls))
file_system_read_example =
    file_system_read calls "a" 50 on_disk (refl, (refl, (refl, (refl, (refl, tt))))) refl refl

nine-IsBounded : IsBounded nine
nine-IsBounded = record { below = omega arith; tenth = omega arith }

insert-IsBounded_example : IsBounded (insert (item "j" 10 100) nine)
insert-IsBounded_example = insert-IsBounded (item "j" 10 100) nine nine-IsBounded

clean_up_deletes_oldest_example : 10 ≤ 30
unfolding oldest clean_up
clean_up_deletes_oldest_example =
    clean_up_deletes_oldest ten ("a", item "a" 1 10) ("c", item "c" 3 30) (omega arith) (inl refl)
      (inr (inl refl))

view-insert_room_example :
    lookup "j" (insert (item "j" 10 100) empty).items
    ≡ (if "j" == "j" then some (item "j" 10 100) else lookup "j" empty.items)
view-insert_room_example = view-insert_room (item "j" 10 100) "j" empty (omega arith)
