-- ===== src/Auth/Connection/Laws.antt =====
-- core/cat/auth/connection.py: which connections get a session.
use cat_forked.Prelude.{
  String, ◌≡◌, refl, ◌⊎◌, inl, inr, false, Option, none, some, [], ◌∷◌, Dict, lookup, within,
  within-append, remove_text-append, remove_text-absent, arith, ◌==◌, eq_iff, if◌then◌else◌,
}
use Prim.Native.String.{◌++◌ as text_append}
use cat_forked.Auth.Permissions.{AuthResource, AuthPermission}
use cat_forked.Auth.Handler.{AuthUserInfo, AuthHandler, is_unset, core_only_auth_handler}
use cat_forked.Auth.Connection.{
  HttpConnection, Outcome, ok, denied, Denied, ConnectionAuth, not_allowed, protocol_of,
  extract_credentials, authorize, http_token, strip_bearer, none_if_empty, authorize_from,
}

Outcome-cases :
    {A : Type 0} (o : Outcome A) → ((a : A) × (o ≡ ok a)) ⊎ ((d : Denied) × (o ≡ denied d))
Outcome-cases (ok a) = inl (a, refl)
Outcome-cases (denied d) = inr (d, refl)

-- The default custom handler changes no decision: the core alone decides.
pub authorize-core_only :
    (kind : ConnectionAuth) (core : AuthHandler) (r : AuthResource) (p : AuthPermission)
    (c : HttpConnection) (user_id : String) (credential : Option String)
    → extract_credentials kind c ≡ ok (user_id, credential)
    → authorize kind core core_only_auth_handler r p c
      ≡ (elim (core (protocol_of kind) credential r p user_id) [
        | some user ↦ ok user
        | none ↦ denied (not_allowed kind)
      ])
unfolding authorize core_only_auth_handler
authorize-core_only kind core r p c user_id credential h = rw h (ground arith)

by_handlers :
    (kind : ConnectionAuth) (core custom : AuthHandler) (r : AuthResource) (p : AuthPermission)
    (user_id : String) (credential : Option String) (user : AuthUserInfo)
    → authorize_from kind (core ∷ custom ∷ []) r p (ok (user_id, credential)) ≡ ok user
    → (core (protocol_of kind) credential r p user_id ≡ some user)
      ⊎ (custom (protocol_of kind) credential r p user_id ≡ some user)
unfolding authorize_from
by_handlers kind core custom r p user_id credential user h = ground arith

-- A session is given only to a user whom one of the two handlers has let in for the resource and
-- the permission that the endpoint asks for, with the credential of the connection.
pub authorize_sound :
    (kind : ConnectionAuth) (core custom : AuthHandler) (r : AuthResource) (p : AuthPermission)
    (c : HttpConnection) (user : AuthUserInfo)
    → authorize kind core custom r p c ≡ ok user
    → (user_id : String) × (credential : Option String) × (extract_credentials kind c
        ≡ ok (user_id, credential))
      × ((core (protocol_of kind) credential r p user_id ≡ some user)
          ⊎ (custom (protocol_of kind) credential r p user_id ≡ some user))
unfolding authorize
authorize_sound kind core custom r p c user h = elim (Outcome-cases (extract_credentials kind c)) [
  | inl ((user_id, credential), e) ↦
      (user_id, credential, e, by_handlers kind core custom r p user_id credential user (rw e at h))
  | inr (d, e) ↦ absurd (cc (rw e at h))
]

none_if_empty-ne-empty : (token : Option String) → ¬ (none_if_empty token ≡ some "")
none_if_empty-ne-empty none h = cc
none_if_empty-ne-empty (some t) h = ground (arith, eq_iff t "")

-- An empty token never reaches a handler over http.
pub http_token-ne-empty : (c : HttpConnection) → ¬ (http_token c.headers ≡ some "")
unfolding http_token
http_token-ne-empty c h =
    none_if_empty-ne-empty
      (let token = strip_bearer (lookup "Authorization" c.headers) in
        if is_unset token then lookup "access_token" c.headers else token)
      h

-- `Authorization: Bearer <token>` gives the token, for a token that is not empty and does not hold
-- the word itself.
pub http_token-bearer :
    (headers : Dict String) (token : String)
    → lookup "Authorization" headers ≡ some (text_append "Bearer " token)
    → within "Bearer " token ≡ false
    → (token == "") ≡ false
    → http_token headers ≡ some token
unfolding http_token
http_token-bearer headers token h plain full =
    rw (h, within-append "B" "earer " token, remove_text-append "B" "earer " token)
      (rw (remove_text-absent "Bearer " token plain, full) (rw full))
