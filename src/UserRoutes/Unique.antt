-- ===== src/UserRoutes/Unique.antt =====
-- core/cat/routes/users.py: which requests keep the names of the users apart.
use cat_forked.Prelude.{
  String, ◌≡◌, refl, sym, ap, ◌∙◌, inl, inr, Bool, true, false, Option, none, some, [], ◌∷◌, lookup,
  contains, insert, erase, lookup-insert, lookup-erase, HasUniqueKeys, arith, ◌==◌, eq_iff, ==_refl,
  ◌||◌, if◌then◌else◌, Bool-cases, Option-cases,
}
use cat_forked.Auth.Handler.{User, Users}
use cat_forked.UserRoutes.{
  UserCreate, UserUpdate, ok, is_taken, or_stored, hashed, create_user, updated, update_user,
  delete_user,
}

-- No two users have one name.
abbrev pub HasUniqueNames : Users → Type 0
HasUniqueNames [] = Unit
HasUniqueNames ((id, u) ∷ users) = (is_taken u.username users ≡ false) × HasUniqueNames users

-- The users have ids and names of their own.
abbrev pub IsConsistent : Users → Type 0
IsConsistent users = HasUniqueKeys users × HasUniqueNames users

contains-insert :
    (id k : String) (u : User) (users : Users)
    → contains k (insert id u users) ≡ (id == k || contains k users)
contains-insert id k u users = ground (arith, lookup-insert id k u users)

contains-erase :
    (id k : String) (users : Users)
    → contains k (erase id users) ≡ (if id == k then false else contains k users)
contains-erase id k users = ground (arith, lookup-erase id k users)

insert-HasUniqueKeys :
    (id : String) (u : User) (users : Users)
    → HasUniqueKeys users
    → HasUniqueKeys (insert id u users)
insert-HasUniqueKeys id u [] h = (refl, tt)
insert-HasUniqueKeys id u ((j, v) ∷ users) h = ground (
  arith,
  insert-HasUniqueKeys id u users h.1,
  contains-insert id j u users,
  eq_iff j id,
  eq_iff id j,
)

erase-HasUniqueKeys :
    (id : String) (users : Users) → HasUniqueKeys users → HasUniqueKeys (erase id users)
erase-HasUniqueKeys id [] h = tt
erase-HasUniqueKeys id ((j, v) ∷ users) h =
    ground (arith, erase-HasUniqueKeys id users h.1, contains-erase id j users)

is_taken-erase :
    (name id : String) (users : Users)
    → is_taken name users ≡ false
    → is_taken name (erase id users) ≡ false
unfolding is_taken
is_taken-erase name id [] h = refl
is_taken-erase name id ((j, v) ∷ users) h = ground (arith, is_taken-erase name id users)

erase-HasUniqueNames :
    (id : String) (users : Users) → HasUniqueNames users → HasUniqueNames (erase id users)
erase-HasUniqueNames id [] h = tt
erase-HasUniqueNames id ((j, v) ∷ users) h =
    ground (arith, erase-HasUniqueNames id users h.1, is_taken-erase v.username id users h.0)

-- A name that only `id` may have.
abbrev pub is_free : String → String → Users → Bool
is_free name id users = is_taken name (erase id users)

is_taken-insert :
    (name id : String) (u : User) (users : Users)
    → is_taken name users ≡ false
    → (u.username == name) ≡ false
    → is_taken name (insert id u users) ≡ false
unfolding is_taken
is_taken-insert name id u [] h k = ground arith
is_taken-insert name id u ((j, v) ∷ users) h k = ground (arith, is_taken-insert name id u users)

pub erase-absent :
    (id : String) (users : Users) → contains id users ≡ false → erase id users ≡ users
erase-absent id [] h = refl
erase-absent id ((j, v) ∷ users) h = ground (arith, erase-absent id users)

insert-HasUniqueNames :
    (id : String) (u : User) (users : Users)
    → IsConsistent users
    → is_free u.username id users ≡ false
    → HasUniqueNames (insert id u users)
unfolding is_taken
insert-HasUniqueNames id u [] h k = (refl, tt)
insert-HasUniqueNames id u ((j, v) ∷ users) ((fresh, keys), (free, names)) k =
    elim (Bool-cases (j == id)) [
      | inl same ↦ rw same (ground (arith, erase-absent j users fresh, eq_iff j id), names)
      | inr other ↦ rw other (
        ground (
          arith,
          is_taken-insert v.username id u users free,
          eq_iff u.username v.username,
          eq_iff v.username u.username,
        ),
        ground (arith, insert-HasUniqueNames id u users (keys, names)),
      )
    ]

-- A request that changes the users.
pub data Request : Type 0 where
  create : String → UserCreate → Request
  update : String → UserUpdate → Request
  delete : String → Request

-- An update leaves the name, or sets one that no other user has.
abbrev pub KeepsNames : Request → Users → Type 0
KeepsNames (create new_id new_user) users = Unit
KeepsNames (update id u) users =
    (name : String) → u.username ≡ some name → is_taken name (erase id users) ≡ false
KeepsNames (delete id) users = Unit

is_taken-lookup :
    (id : String) (u : User) (users : Users)
    → lookup id users ≡ some u
    → is_taken u.username users ≡ true
unfolding is_taken
is_taken-lookup id u [] e = absurd (ground arith)
is_taken-lookup id u ((j, v) ∷ users) e = elim (Bool-cases (j == id)) [
  | inl same ↦
      let found : some v ≡ some u = rw same at e in
      ground (arith, ==_refl u.username, ap (λ (o : Option User). or_stored u o) found)
  | inr other ↦ ground (arith, is_taken-lookup id u users (rw other at e))
]

-- A user's own name is free for the user.
pub is_free-lookup :
    (id : String) (u : User) (users : Users)
    → IsConsistent users
    → lookup id users ≡ some u
    → is_free u.username id users ≡ false
unfolding is_taken
is_free-lookup id u [] h e = refl
is_free-lookup id u ((j, v) ∷ users) ((fresh, keys), (free, names)) e =
    elim (Bool-cases (j == id)) [
      | inl same ↦
          let found : v ≡ u = ap (or_stored u) (rw same at e) in
          let gone : erase id users ≡ users = erase-absent id users (ground (arith, eq_iff j id)) in
          rw (same, gone, sym found) free
      | inr other ↦
          let there = rw other at e in
          rw other (
            ground (
              arith,
              is_taken-lookup id u users there,
              is_free-lookup id u users (keys, names) there,
              eq_iff v.username u.username,
            ))
    ]

module _ (hash_password : String → String) where
  -- The users after a request.
  pub handle : Request → Users → Users
  handle (create new_id new_user) users = (create_user hash_password new_id new_user users).1
  handle (update id u) users = (update_user hash_password id u users).1
  handle (delete id) users = (delete_user id users).1

  updated-is_free :
      (id : String) (u : UserUpdate) (stored : User) (users : Users)
      → IsConsistent users
      → KeepsNames (update id u) users
      → lookup id users ≡ some stored
      → is_free (updated hash_password u stored).username id users ≡ false
  unfolding updated
  updated-is_free id u stored users h keeps e = elim (Option-cases u.username) [
    | inl same ↦ rw same (is_free-lookup id stored users h e)
    | inr (name, set) ↦ rw set (keeps name set)
  ]

  create_user-IsConsistent :
      (id : String) (u : UserCreate) (users : Users)
      → IsConsistent users
      → IsConsistent (create_user hash_password id u users).1
  unfolding create_user
  create_user-IsConsistent id u users h = elim (Bool-cases (is_taken u.username users)) [
    | inl taken ↦ rw taken h
    | inr new ↦ rw new (
      insert-HasUniqueKeys id (hashed hash_password u) users h.0,
      insert-HasUniqueNames id (hashed hash_password u) users h
          (is_taken-erase u.username id users new),
    )
  ]

  update_user-IsConsistent :
      (id : String) (u : UserUpdate) (users : Users)
      → IsConsistent users
      → KeepsNames (update id u) users
      → IsConsistent (update_user hash_password id u users).1
  unfolding update_user
  update_user-IsConsistent id u users h keeps = elim (Option-cases (lookup id users)) [
    | inl unknown ↦ rw unknown h
    | inr (stored, e) ↦ rw e (
      insert-HasUniqueKeys id (updated hash_password u stored) users h.0,
      insert-HasUniqueNames id (updated hash_password u stored) users h
          (updated-is_free id u stored users h keeps e),
    )
  ]

  delete_user-IsConsistent :
      (id : String) (users : Users) → IsConsistent users → IsConsistent (delete_user id users).1
  unfolding delete_user
  delete_user-IsConsistent id users h = elim (Bool-cases (contains id users)) [
    | inl known ↦ rw known (erase-HasUniqueKeys id users h.0, erase-HasUniqueNames id users h.1)
    | inr unknown ↦ rw unknown h
  ]

  -- Where the users have ids and names of their own, they still have after creating a user,
  -- deleting one, and an update that leaves the name or sets one that no other user has.
  pub handle-IsConsistent :
      (r : Request) (users : Users)
      → IsConsistent users
      → KeepsNames r users
      → IsConsistent (handle r users)
  unfolding handle
  handle-IsConsistent (create new_id new_user) users h keeps =
      create_user-IsConsistent new_id new_user users h
  handle-IsConsistent (update id u) users h keeps = update_user-IsConsistent id u users h keeps
  handle-IsConsistent (delete id) users h keeps = delete_user-IsConsistent id users h

  -- An update of a known user that sets the name of another known user succeeds, and both then
  -- have this name.
  pub update_user-duplicates :
      (id other : String) (stored theirs : User) (users : Users)
      → lookup id users ≡ some stored
      → lookup other users ≡ some theirs
      → (id == other) ≡ false
      → let rename : UserUpdate = record {
        username = some theirs.username;
        permissions = none;
        password = none;
      } in
        let renamed : User = record stored { username = theirs.username } in
        let (answer, users') = update_user hash_password id rename users in
        (answer ≡ ok renamed)
        × (lookup id users' ≡ some renamed)
        × (lookup other users' ≡ some theirs)
  unfolding update_user updated
  update_user-duplicates id other stored theirs users e e' differ =
      let renamed : User = record stored { username = theirs.username } in
      rw e (
        refl,
        lookup-insert id id renamed users ∙ rw (==_refl id) refl,
        lookup-insert id other renamed users ∙ rw differ e',
      )
