-- ===== src/UserRoutes/Tests.antt =====
-- Requests on two users.
use cat_forked.Prelude.{String, ◌≡◌, refl, sym, ap, true, Option, none, some, [], ◌∷◌, lookup, ◌==◌}
use Prim.Native.String.{◌++◌}
use cat_forked.Auth.Permissions.{get_base_permissions, memory, read}
use cat_forked.Auth.Handler.{
  User, Users, Env, Claims, AuthPackages, issue_jwt, authorize_user_from_jwt,
}
use cat_forked.Auth.Handler.Tokens.{claims_of}
use cat_forked.UserRoutes.{
  UserCreate, UserUpdate, ok, http_error, or_stored, is_taken, hashed, create_user, update_user,
  delete_user, read_users,
}
use cat_forked.UserRoutes.Unique.{
  IsConsistent, update, KeepsNames, handle, handle-IsConsistent, update_user-duplicates,
}
use cat_forked.UserRoutes.Login.{create_user-issue_jwt, delete_user-revokes}

abbrev hash : String → String
hash password = "#" ++ password

abbrev two : Users
two =
    ("1", record { username = "admin"; password = "#admin"; permissions = [] })
    ∷ ("2", record { username = "user"; password = "#user"; permissions = [] })
    ∷ []

abbrev anna : UserCreate
anna = record { username = "anna"; permissions = get_base_permissions; password = "secret" }

abbrev env : Env
env = record {
  api_key = none;
  api_key_ws = none;
  jwt_secret = "secret";
  jwt_algorithm = "HS256";
  jwt_expire_minutes = 60;
}

abbrev admin_claims : Claims
admin_claims = record { sub = some "1"; username = some "admin"; permissions = []; exp = 3600 }

abbrev packages : AuthPackages
packages = record {
  decodes = λ token. true;
  verify = λ now token secret algorithm. some admin_claims;
  encode = λ claims secret algorithm. "token";
  check_password = λ given stored. hash given == stored;
}

two-IsConsistent : IsConsistent two
unfolding is_taken
two-IsConsistent = ((refl, (refl, tt)), (refl, (refl, tt)))

no_second_admin : (create_user hash "3" (record anna { username = "admin" }) two).0 ≡ http_error 403
unfolding create_user
no_second_admin = refl

the_second_user :
    read_users 1 5 two ≡ record { username = "user"; password = "#user"; permissions = [] } ∷ []
unfolding read_users
the_second_user = refl

abbrev renames : UserUpdate
renames = record { username = some "root"; permissions = none; password = some "toor" }

renames_free : KeepsNames (update "1" renames) two
unfolding is_taken
renames_free name set = rw (sym (ap (λ (o : Option String). or_stored "" o) set)) refl

handle-IsConsistent_example : IsConsistent (handle hash (update "1" renames) two)
handle-IsConsistent_example =
    handle-IsConsistent hash (update "1" renames) two two-IsConsistent renames_free

update_user-duplicates_runs :
    let (answer, users') =
      update_user hash "2"
        (record { username = some "admin"; permissions = none; password = none })
        two in
    let renamed : User = record { username = "admin"; password = "#user"; permissions = [] } in
    (answer ≡ ok renamed)
    × (lookup "2" users' ≡ some renamed)
    × (lookup "1" users'
        ≡ some (record { username = "admin"; password = "#admin"; permissions = [] }))
update_user-duplicates_runs =
    update_user-duplicates hash "2" "1"
      (record { username = "user"; password = "#user"; permissions = [] })
      (record { username = "admin"; password = "#admin"; permissions = [] }) two refl refl refl

create_user-issue_jwt_example :
    issue_jwt packages env (create_user hash "3" anna two).1 0 "anna" "secret"
    ≡ some (
        packages.encode
          (claims_of packages env 0 "anna" "3" (hashed hash anna))
          env.jwt_secret
          env.jwt_algorithm)
unfolding is_taken
create_user-issue_jwt_example =
    create_user-issue_jwt packages env hash "3" anna two 0 refl refl refl

delete_user-revokes_example :
    let users' = (delete_user "1" two).1 in
    (issue_jwt packages env users' 0 "admin" "admin" ≡ none)
    × (authorize_user_from_jwt packages env users' 0 (some "token") memory read ≡ none)
delete_user-revokes_example =
    delete_user-revokes packages env two "1"
      (record { username = "admin"; password = "#admin"; permissions = [] }) 0 "admin"
      (some "token") memory read admin_claims two-IsConsistent refl refl refl
