-- ===== src/UserRoutes.antt =====
-- core/cat/routes/users.py over `get_users` and `update_users` of core/cat/db/crud.py: the users in the
-- setting `users` of the database. The hash of a password and the new ids are parameters; the check of
-- the caller's permissions comes before these functions.
pub mod Unique
pub mod Login
mod Tests
use cat_forked.Prelude.{
  ℕ, String, Bool, true, false, Option, none, some, List, [], ◌∷◌, Dict, lookup, contains, insert,
  erase, values, take, drop, ◌==◌, ◌||◌, if◌then◌else◌,
}
pub use cat_forked.Prelude.{Response, ok, http_error}
use cat_forked.Auth.Permissions.{Permissions, get_full_permissions, get_base_permissions}
use cat_forked.Auth.Handler.{User, Users}

pub record UserCreate : Type 0 where
  pub username : String
  pub permissions : Permissions
  pub password : String

-- The fields that the request sets.
pub record UserUpdate : Type 0 where
  pub username : Option String
  pub permissions : Option Permissions
  pub password : Option String

-- `for id, u in users_db.items(): if u["username"] == …`
unfoldable pub is_taken : String → Users → Bool
is_taken name [] = false
is_taken name ((id, u) ∷ users) = let rest = is_taken name users in u.username == name || rest

abbrev pub or_stored {ℓ} : {A : Type ℓ} → A → Option A → A
or_stored stored none = stored
or_stored stored (some new) = new

module _ (hash_password : String → String) where
  -- `get_users`: the first call writes two users.
  unfoldable pub get_users : String → String → Option Users → Users
  get_users admin_id user_id none =
      insert user_id
        (record {
          username = "user";
          password = hash_password "user";
          permissions = get_base_permissions;
        })
        (insert admin_id
          (record {
            username = "admin";
            password = hash_password "admin";
            permissions = get_full_permissions;
          })
          [])
  get_users admin_id user_id (some users) = users

  abbrev pub hashed : UserCreate → User
  hashed u = record {
    username = u.username;
    password = hash_password u.password;
    permissions = u.permissions;
  }

  unfoldable pub create_user : String → UserCreate → Users → Response User × Users
  unfolding is_taken
  create_user new_id new_user users_db =
      if is_taken new_user.username users_db
      then (http_error 403, users_db)
      else (ok (hashed new_user), insert new_id (hashed new_user) users_db)

  hash_set : Option String → Option String
  hash_set none = none
  hash_set (some password) = if password == "" then some password else some (hash_password password)

  -- `stored_user | user.model_dump(exclude_unset=True)`
  unfoldable pub updated : UserUpdate → User → User
  unfolding hash_set
  updated u stored = record {
    username = or_stored stored.username u.username;
    password = or_stored stored.password (hash_set u.password);
    permissions = or_stored stored.permissions u.permissions;
  }

  update_found : String → UserUpdate → Option User → Users → Response User × Users
  unfolding updated
  update_found id u none users_db = (http_error 404, users_db)
  update_found id u (some stored) users_db =
      (ok (updated u stored), insert id (updated u stored) users_db)

  unfoldable pub update_user : String → UserUpdate → Users → Response User × Users
  unfolding update_found
  update_user user_id user users_db = update_found user_id user (lookup user_id users_db) users_db

found : Option User → Response User
found none = http_error 404
found (some user) = ok user

unfoldable pub read_user : String → Users → Response User
unfolding found
read_user user_id users_db = found (lookup user_id users_db)

-- `list(users_db.values())[skip: skip + limit]`, for a `skip` and a `limit` that are not negative
unfoldable pub read_users : ℕ → ℕ → Users → List User
read_users skip limit users_db = take limit (drop skip (values users_db))

-- `users_db.pop(user_id)`
unfoldable pub delete_user : String → Users → Response User × Users
unfolding found
delete_user user_id users_db =
    if contains user_id users_db
    then (found (lookup user_id users_db), erase user_id users_db)
    else (http_error 404, users_db)
