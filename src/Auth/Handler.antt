-- ===== src/Auth/Handler.antt =====
-- core/cat/factory/custom_auth_handler.py: the handler that decides on the local users, and the
-- default custom handler, which denies. The JWT and bcrypt packages are parameters.
pub mod Keys
pub mod Tokens
use cat_forked.Prelude.{
  ℕ, ◌+◌, ◌*◌, String, Bool, true, false, ◌&&◌, not, Option, none, some, List, [], ◌∷◌, Dict,
  lookup, contains, ◌==◌, if◌then◌else◌,
}
use cat_forked.Auth.Permissions.{
  AuthResource, AuthPermission, Permissions, allows, is_valid, get_full_permissions,
  get_base_permissions,
}

-- A record of the user database.
pub record User : Type 0 where
  pub username : String
  pub password : String
  pub permissions : Permissions

abbrev pub Users : Type 0
Users = Dict User

pub record AuthUserInfo : Type 0 where
  pub id : String
  pub name : String
  pub permissions : Permissions
  pub extra : Option User

-- The environment variables that the handler reads.
pub record Env : Type 0 where
  pub api_key : Option String
  pub api_key_ws : Option String
  pub jwt_secret : String
  pub jwt_algorithm : String
  pub jwt_expire_minutes : ℕ

-- What a token says: `sub` and `username` may be missing.
pub record Claims : Type 0 where
  pub sub : Option String
  pub username : Option String
  pub permissions : Permissions
  pub exp : ℕ

-- The packages jwt and bcrypt. `decodes` is `jwt.decode` without verification, which raises on
-- what is no token; `verify` is `jwt.decode` at a time, `none` where it raises.
pub record AuthPackages : Type 0 where
  pub decodes : Option String → Bool
  pub verify : ℕ → Option String → String → String → Option Claims
  pub encode : Claims → String → String → String
  pub check_password : String → String → Bool

pub data Protocol : Type 0 where
  http websocket : Protocol

-- `==` where a side may be `None`
abbrev pub same_text : Option String → Option String → Bool
same_text none none = true
same_text none (some t) = false
same_text (some s) none = false
same_text (some s) (some t) = s == t

-- `not key`: unset, or empty
abbrev pub is_unset : Option String → Bool
is_unset none = true
is_unset (some s) = s == ""

-- A handler: the protocol, the credential, the resource, the permission, and the user id that came
-- with the request.
abbrev pub AuthHandler : Type 0
AuthHandler =
    Protocol → Option String → AuthResource → AuthPermission → String → Option AuthUserInfo

abbrev pub key_user : String → Permissions → AuthUserInfo
key_user user_id perms = record { id = user_id; name = user_id; permissions = perms; extra = none }

unfoldable pub authorize_http_key : String → Option String → Option String → Option AuthUserInfo
authorize_http_key user_id api_key http_key =
    if same_text api_key http_key then some (key_user user_id get_full_permissions) else none

unfoldable pub authorize_websocket_key :
    String → Option String → Option String → Option AuthUserInfo
authorize_websocket_key user_id api_key ws_key =
    if same_text api_key ws_key then some (key_user user_id get_base_permissions) else none

by_protocol : Env → Protocol → String → Option String → Option AuthUserInfo
unfolding authorize_http_key authorize_websocket_key
by_protocol env websocket user_id api_key = authorize_websocket_key user_id api_key env.api_key_ws
by_protocol env http user_id api_key = authorize_http_key user_id api_key env.api_key

unfoldable pub authorize_user_from_key :
    Env → Protocol → String → Option String → Option AuthUserInfo
unfolding by_protocol
authorize_user_from_key env protocol user_id api_key =
    if is_unset env.api_key && is_unset env.api_key_ws
    then some (key_user user_id get_full_permissions)
    else by_protocol env protocol user_id api_key

module _ (packages : AuthPackages) where
  -- `payload["sub"]`, then `users[…]`, then `payload["username"]`: a missing claim and
  -- permissions that `AuthUserInfo` does not take raise, and whatever raises here denies.
  from_user :
      AuthResource → AuthPermission → String → Option User → Option String → Option AuthUserInfo
  from_user r p sub none username = none
  from_user r p sub (some user) none = none
  from_user r p sub (some user) (some username) =
      if allows user.permissions r p && is_valid user.permissions
      then some
          (record { id = sub; name = username; permissions = user.permissions; extra = some user })
      else none

  from_sub :
      Users → AuthResource → AuthPermission → Option String → Option String → Option AuthUserInfo
  unfolding from_user
  from_sub users r p none username = none
  from_sub users r p (some sub) username = from_user r p sub (lookup sub users) username

  from_claims : Users → AuthResource → AuthPermission → Option Claims → Option AuthUserInfo
  unfolding from_sub
  from_claims users r p none = none
  from_claims users r p (some claims) = from_sub users r p claims.sub claims.username

  unfoldable pub authorize_user_from_jwt :
      Env → Users → ℕ → Option String → AuthResource → AuthPermission → Option AuthUserInfo
  unfolding from_claims
  authorize_user_from_jwt env users now token r p =
      from_claims users r p (packages.verify now token env.jwt_secret env.jwt_algorithm)

  -- `CoreAuthHandler` behind `authorize_user_from_credential`
  unfoldable pub core_auth_handler : Env → Users → ℕ → AuthHandler
  unfolding authorize_user_from_jwt authorize_user_from_key
  core_auth_handler env users now protocol credential r p user_id =
      if packages.decodes credential
      then authorize_user_from_jwt env users now credential r p
      else authorize_user_from_key env protocol user_id credential

  -- `issue_jwt`: the first user whose name and password fit.
  unfoldable pub issue_jwt : Env → Users → ℕ → String → String → Option String
  issue_jwt env [] now username password = none
  issue_jwt env ((user_id, user) ∷ users) now username password =
      let rest = issue_jwt env users now username password in
      if user.username == username && packages.check_password password user.password
      then some (
          packages.encode
            (record {
              sub = some user_id;
              username = some username;
              permissions = user.permissions;
              exp = now + env.jwt_expire_minutes * 60;
            })
            env.jwt_secret env.jwt_algorithm)
      else rest

-- `CoreOnlyAuthHandler`: only the core decides.
unfoldable pub core_only_auth_handler : AuthHandler
core_only_auth_handler protocol credential r p user_id = none
