-- ===== src/Auth/Connection.antt =====
-- core/cat/auth/connection.py: the credential of a connection, and the handlers in turn.
pub mod Laws
use cat_forked.Prelude.{
  ℕ, String, Bool, true, false, ◌&&◌, not, Option, none, some, List, [], ◌∷◌, Dict, lookup, within,
  remove_text, ◌==◌, if◌then◌else◌,
}
use cat_forked.Auth.Permissions.{AuthResource, AuthPermission}
use cat_forked.Auth.Handler.{AuthUserInfo, AuthHandler, Protocol, http, websocket, is_unset}

-- What the framework hands over of a request or a websocket; the names of the headers are in the case
-- in which the code asks for them.
pub record HttpConnection : Type 0 where
  pub headers : Dict String
  pub path_params : Dict String
  pub query_params : Dict String
  pub cookies : Dict String

-- `raise HTTPException(…)` and `raise WebSocketException(…)`, by their codes
pub data Denied : Type 0 where
  forbidden : Denied
  ws_invalid : Denied
  to_login : Denied

pub data Outcome (A : Type 0) : Type 0 where
  ok : A → Outcome A
  denied : Denied → Outcome A

-- The three classes of connections.
pub data ConnectionAuth : Type 0 where
  http_auth websocket_auth core_frontend_auth : ConnectionAuth

abbrev pub not_allowed : ConnectionAuth → Denied
not_allowed http_auth = forbidden
not_allowed websocket_auth = ws_invalid
not_allowed core_frontend_auth = to_login

-- `connection.scope["type"]`
abbrev pub protocol_of : ConnectionAuth → Protocol
protocol_of http_auth = http
protocol_of websocket_auth = websocket
protocol_of core_frontend_auth = http

-- `headers.get(key, default)`
abbrev pub get_or : String → Dict String → String → String
get_or key d default = elim (lookup key d) [ none ↦ default | some v ↦ v ]

-- `if token and ("Bearer " in token): token.replace("Bearer ", "")`
abbrev pub strip_bearer : Option String → Option String
strip_bearer none = none
strip_bearer (some token) =
    if within "Bearer " token then some (remove_text "Bearer " token) else some token

-- an empty text counts as no token
abbrev pub none_if_empty : Option String → Option String
none_if_empty none = none
none_if_empty (some token) = if token == "" then none else some token

unfoldable pub http_token : Dict String → Option String
http_token headers =
    let token = strip_bearer (lookup "Authorization" headers) in
    none_if_empty (if is_unset token then lookup "access_token" headers else token)

cookie_credentials : Option String → Outcome (String × Option String)
cookie_credentials none = denied to_login
cookie_credentials (some token) = if token == "" then denied to_login else ok ("user", some token)

unfoldable pub extract_credentials :
    ConnectionAuth → HttpConnection → Outcome (String × Option String)
unfolding http_token cookie_credentials
extract_credentials http_auth c = ok (get_or "user_id" c.headers "user", http_token c.headers)
extract_credentials websocket_auth c =
    ok (get_or "user_id" c.path_params "user", lookup "token" c.query_params)
extract_credentials core_frontend_auth c = cookie_credentials (lookup "ccat_user_token" c.cookies)

-- `for ah in auth_handlers`: the first handler that knows the user decides.
unfoldable pub first_user : List AuthHandler → AuthHandler
first_user [] protocol credential r p user_id = none
first_user (ah ∷ handlers) protocol credential r p user_id =
    let rest = first_user handlers protocol credential r p user_id in
    elim (ah protocol credential r p user_id) [ some user ↦ some user | none ↦ rest ]

or_denied : ConnectionAuth → Option AuthUserInfo → Outcome AuthUserInfo
or_denied kind none = denied (not_allowed kind)
or_denied kind (some user) = ok user

authorize_from :
    ConnectionAuth
    → List AuthHandler
    → AuthResource
    → AuthPermission
    → Outcome (String × Option String)
    → Outcome AuthUserInfo
unfolding or_denied first_user
authorize_from kind handlers r p (denied d) = denied d
authorize_from kind handlers r p (ok (user_id, credential)) =
    or_denied kind (first_user handlers (protocol_of kind) credential r p user_id)

-- `__call__`, up to the `StrayCat` that it builds for the user: the user whose session is
-- yielded, or the exception.
unfoldable pub authorize :
    ConnectionAuth
    → AuthHandler
    → AuthHandler
    → AuthResource
    → AuthPermission
    → HttpConnection
    → Outcome AuthUserInfo
unfolding authorize_from extract_credentials
authorize kind core custom r p c =
    authorize_from kind (core ∷ custom ∷ []) r p (extract_credentials kind c)
