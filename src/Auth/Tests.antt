-- ===== src/Auth/Tests.antt =====
-- Requests to an instance with two users.
use cat_forked.Prelude.{
  ◌&&◌, ap, In, inr, arith, ℕ, ◌+◌, String, ◌≡◌, refl, ◌⊎◌, inl, ◌↔◌, Bool, true, false, Option,
  none, some, [], ◌∷◌, remove_text, ◌==◌, if◌then◌else◌,
}
use cat_forked.Auth.Permissions.{
  memory, plugins, read, delete, resource_name, permission_name, allows, is_valid, is_base,
  get_full_permissions, get_base_permissions, allows-get_full_permissions,
  allows-get_base_permissions,
}
use cat_forked.Auth.Handler.{
  User, Users, AuthUserInfo, Env, Claims, AuthPackages, http, websocket, AuthHandler, key_user,
  authorize_user_from_key, authorize_user_from_jwt, core_auth_handler, issue_jwt,
  core_only_auth_handler,
}
use cat_forked.Auth.Handler.Keys.{
  permissions_of, authorize_user_from_key_iff, authorize_user_from_key-none, anonymous_gets_in,
}
use cat_forked.Auth.Handler.Tokens.{
  Entitled, Issued, authorize_user_from_jwt_iff, issue_jwt-Issued, Decodes, claims_of,
  issue_jwt-core_auth_handler,
}
use cat_forked.Auth.Connection.{
  HttpConnection, ok, denied, forbidden, http_auth, not_allowed, extract_credentials, http_token,
  authorize,
}
use cat_forked.Auth.Connection.Laws.{
  authorize-core_only, authorize_sound, http_token-ne-empty, http_token-bearer,
}

abbrev env : Env
env = record {
  api_key = some "key";
  api_key_ws = some "ws";
  jwt_secret = "secret";
  jwt_algorithm = "HS256";
  jwt_expire_minutes = 60;
}

abbrev ws_only : Env
ws_only = record env { api_key = none }

abbrev anna : User
anna = record { username = "anna"; password = "x"; permissions = get_base_permissions }

abbrev users : Users
users = ("1", anna) ∷ ("2", record anna { username = "bruno"; permissions = [] }) ∷ []

abbrev anna_claims : ℕ → Claims
anna_claims now = record {
  sub = some "1";
  username = some "anna";
  permissions = anna.permissions;
  exp = now + 3600;
}

-- One token, which says that it is anna's.
abbrev verify_token : Option String → Option Claims
verify_token none = none
verify_token (some t) = if t == "token" then some (anna_claims 5) else none

abbrev is_token : Option String → Bool
is_token none = false
is_token (some t) = t == "token"

abbrev packages : AuthPackages
packages = record {
  decodes = is_token;
  verify = λ now token secret algorithm. verify_token token;
  encode = λ claims secret algorithm. "token";
  check_password = λ given stored. given == stored;
}

abbrev core : AuthHandler
core = core_auth_handler packages env users 7

abbrev with_token : HttpConnection
with_token = record {
  headers = ("Authorization", "Bearer token") ∷ [];
  path_params = [];
  query_params = [];
  cookies = [];
}

abbrev anna_info : AuthUserInfo
anna_info = record { id = "1"; name = "anna"; permissions = anna.permissions; extra = some anna }

-- anna may read memories, and may not delete them.
anna_reads : authorize http_auth core core_only_auth_handler memory read with_token ≡ ok anna_info
unfolding authorize core_auth_handler remove_text allows get_base_permissions resource_name
    permission_name is_valid
anna_reads = refl

anna_deletes_not :
    authorize http_auth core core_only_auth_handler memory delete with_token ≡ denied forbidden
unfolding authorize core_auth_handler remove_text allows get_base_permissions core_only_auth_handler
    resource_name permission_name
anna_deletes_not = refl

full_permissions_allow_all : allows get_full_permissions plugins delete ≡ true
full_permissions_allow_all = allows-get_full_permissions plugins delete

base_permissions_deny : allows get_base_permissions plugins delete ≡ is_base plugins delete
base_permissions_deny = allows-get_base_permissions plugins delete

abbrev wrong : Option String
wrong = some "key"

authorize_user_from_key_iff_example :
    (authorize_user_from_key env websocket "user" wrong
      ≡ some (key_user "user" get_full_permissions))
    ↔ ((wrong ≡ some "ws")
        × (key_user "user" get_full_permissions ≡ key_user "user" (permissions_of websocket)))
authorize_user_from_key_iff_example =
    authorize_user_from_key_iff env websocket "user" "ws" wrong
      (key_user "user" get_full_permissions) refl refl

authorize_user_from_key-none_runs : authorize_user_from_key env http "user" none ≡ none
authorize_user_from_key-none_runs = authorize_user_from_key-none env http "user" refl refl

anonymous_gets_in_runs :
    authorize_user_from_key ws_only http "user" none ≡ some (key_user "user" (permissions_of http))
anonymous_gets_in_runs = anonymous_gets_in ws_only http "user" refl refl

authorize_user_from_jwt_iff_example :
    (authorize_user_from_jwt packages env users 7 (some "token") memory read ≡ some anna_info)
    ↔ Entitled packages env users 7 (some "token") memory read anna_info
authorize_user_from_jwt_iff_example =
    authorize_user_from_jwt_iff packages env users 7 (some "token") memory read anna_info

issue_jwt-Issued_runs : Issued packages env users 5 "anna" "x" "token"
unfolding issue_jwt
issue_jwt-Issued_runs = issue_jwt-Issued packages env users 5 "anna" "x" "token" refl

-- A token is the user id that it says.
abbrev id_of : Option String → String
id_of none = ""
id_of (some sub) = sub

abbrev bruno : User
bruno = record anna { username = "bruno"; permissions = [] }

abbrev claims_said : Option String → Option Claims
claims_said none = none
claims_said (some t) =
    if t == "1" then some (anna_claims 5) else some (claims_of packages env 5 "anna" "2" bruno)

abbrev by_id : AuthPackages
by_id = record {
  decodes = λ t. true;
  verify = λ now t secret algorithm. claims_said t;
  encode = λ claims secret algorithm. id_of claims.sub;
  check_password = λ given stored. given == stored;
}

by_id-Decodes : Decodes by_id env users 5 7 "anna"
by_id-Decodes user_id user (inl e) fresh =
    rw (ap (λ (x : String × User). x.0) e) (rw (ap (λ (x : String × User). x.1) e) (refl, refl))
by_id-Decodes user_id user (inr (inl e)) fresh =
    rw (ap (λ (x : String × User). x.0) e) (rw (ap (λ (x : String × User). x.1) e) (refl, refl))
by_id-Decodes user_id user (inr (inr e)) fresh = absurd e

issue_jwt-core_auth_handler_example :
    (id : String) × (user : User) × In (id, user) users
    × (user.username ≡ "anna")
    × (by_id.check_password "x" user.password ≡ true)
    × (core_auth_handler by_id env users 7 http (some "1") memory read "other" ≡ (
        if allows user.permissions memory read && is_valid user.permissions
        then some
            (record { id = id; name = "anna"; permissions = user.permissions; extra = some user })
        else none))
unfolding issue_jwt
issue_jwt-core_auth_handler_example =
    issue_jwt-core_auth_handler by_id env users 5 7 "anna" "x" "1" http memory read "other"
      (refl, (refl, tt)) by_id-Decodes (omega arith) refl

core_decides :
    authorize http_auth core core_only_auth_handler memory read with_token
    ≡ (elim (core http (some "token") memory read "user") [
      | some user ↦ ok user
      | none ↦ denied (not_allowed http_auth)
    ])
unfolding extract_credentials remove_text
core_decides = authorize-core_only http_auth core memory read with_token "user" (some "token") refl

authorize_sound_example :
    (user_id : String) × (credential : Option String) × (extract_credentials http_auth with_token
      ≡ ok (user_id, credential))
    × ((core http credential memory read user_id ≡ some anna_info)
        ⊎ (core_only_auth_handler http credential memory read user_id ≡ some anna_info))
authorize_sound_example =
    authorize_sound http_auth core core_only_auth_handler memory read with_token anna_info
      anna_reads

token_is_not_empty : ¬ (http_token with_token.headers ≡ some "")
token_is_not_empty = http_token-ne-empty with_token

http_token-bearer_runs : http_token with_token.headers ≡ some "token"
http_token-bearer_runs = http_token-bearer with_token.headers "token" refl refl refl
