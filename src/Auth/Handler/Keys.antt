-- ===== src/Auth/Handler/Keys.antt =====
-- core/cat/factory/custom_auth_handler.py: who gets in by an API key.
use cat_forked.Prelude.{
  String, ◌≡◌, refl, Bool, true, false, ◌&&◌, Option, none, some, arith, eq_iff, ◌↔◌,
}
use cat_forked.Auth.Permissions.{Permissions, get_full_permissions, get_base_permissions}
use cat_forked.Auth.Handler.{
  AuthUserInfo, Env, Protocol, http, websocket, same_text, is_unset, key_user,
  authorize_user_from_key,
}

-- The key and the permissions that go with each protocol.
abbrev pub key_of : Env → Protocol → Option String
key_of env http = env.api_key
key_of env websocket = env.api_key_ws

abbrev pub permissions_of : Protocol → Permissions
permissions_of http = get_full_permissions
permissions_of websocket = get_base_permissions

-- No key is set: the instance is open to everybody.
abbrev pub is_open : Env → Bool
is_open env = is_unset env.api_key && is_unset env.api_key_ws

pub same_text→≡ : (s t : Option String) → same_text s t ≡ true → s ≡ t
same_text→≡ none none h = refl
same_text→≡ none (some t) h = ground arith
same_text→≡ (some s) none h = ground arith
same_text→≡ (some s) (some t) h = ground (arith, eq_iff s t)

-- Where the key of the protocol is set and not empty, a credential lets in exactly when it is this
-- key, and then the user is the one that the request names, with the permissions of the protocol:
-- the full ones over http, and no more than the base permissions over the websocket.
pub authorize_user_from_key_iff :
    (env : Env) (protocol : Protocol) (user_id key : String) (credential : Option String)
    (user : AuthUserInfo)
    → key_of env protocol ≡ some key
    → is_unset (some key) ≡ false
    → (authorize_user_from_key env protocol user_id credential ≡ some user)
      ↔ ((credential ≡ some key) × (user ≡ key_user user_id (permissions_of protocol)))
unfolding authorize_user_from_key
authorize_user_from_key_iff env http user_id key credential user has_key set = (
  λ h. ground (arith, same_text→≡ credential env.api_key),
  λ e. rw e.0 (rw has_key (ground (arith, eq_iff key key))),
)
authorize_user_from_key_iff env websocket user_id key credential user has_key set = (
  λ h. ground (arith, same_text→≡ credential env.api_key_ws),
  λ e. rw e.0 (rw has_key (ground (arith, eq_iff key key))),
)

-- With both keys set, a request with no credential is refused under every protocol.
pub authorize_user_from_key-none :
    (env : Env) (protocol : Protocol) (user_id : String)
    → is_unset env.api_key ≡ false
    → is_unset env.api_key_ws ≡ false
    → authorize_user_from_key env protocol user_id none ≡ none
unfolding authorize_user_from_key
authorize_user_from_key-none env http user_id h k = ground arith
authorize_user_from_key-none env websocket user_id h k = ground arith

-- Where the key of one protocol is missing and the other is set, a request that shows no
-- credential gets in over the first: a missing credential equals a missing key.
pub anonymous_gets_in :
    (env : Env) (protocol : Protocol) (user_id : String)
    → is_open env ≡ false
    → key_of env protocol ≡ none
    → authorize_user_from_key env protocol user_id none
      ≡ some (key_user user_id (permissions_of protocol))
unfolding authorize_user_from_key
anonymous_gets_in env http user_id closed h = ground arith
anonymous_gets_in env websocket user_id closed h = ground arith
