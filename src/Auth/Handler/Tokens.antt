-- ===== src/Auth/Handler/Tokens.antt =====
-- core/cat/factory/custom_auth_handler.py: who gets in by a token, and who is given one.
use cat_forked.Prelude.{
  ℕ, ◌<◌, ◌+◌, ◌*◌, String, ◌≡◌, refl, inl, inr, true, ◌&&◌, Option, none, some, [], ◌∷◌, arith,
  ◌==◌, eq_iff, lookup, In, In-lookup, HasUniqueKeys, ◌↔◌, if◌then◌else◌, Bool-cases, Option-cases,
}
use cat_forked.Auth.Permissions.{AuthResource, AuthPermission, allows, is_valid}
use cat_forked.Auth.Handler.{
  User, Users, AuthUserInfo, Env, Claims, AuthPackages, Protocol, core_auth_handler, issue_jwt,
  authorize_user_from_jwt, from_claims,
}

module _ (packages : AuthPackages) (env : Env) where
  -- What a verified token says, and that its user is in the database and may do `p` on `r`.
  pub record Entitled (users : Users) (now : ℕ) (token : Option String) (r : AuthResource)
      (p : AuthPermission) (info : AuthUserInfo) : Type 0 where
    pub claims : Claims
    pub user : User
    pub verified : packages.verify now token env.jwt_secret env.jwt_algorithm ≡ some claims
    pub is_sub : claims.sub ≡ some info.id
    pub is_name : claims.username ≡ some info.name
    pub known : lookup info.id users ≡ some user
    pub allowed : allows user.permissions r p ≡ true
    pub valid : is_valid user.permissions ≡ true
    pub theirs : info.permissions ≡ user.permissions
    pub whole : info.extra ≡ some user

  claims-Entitled :
      (users : Users) (now : ℕ) (token : Option String) (r : AuthResource) (p : AuthPermission)
      (info : AuthUserInfo) (claims : Claims)
      → packages.verify now token env.jwt_secret env.jwt_algorithm ≡ some claims
      → from_claims packages users r p (some claims) ≡ some info
      → Entitled users now token r p info
  unfolding from_claims
  claims-Entitled users now token r p info claims e h = elim (Option-cases claims.sub) [
    | inl no_sub ↦ absurd (ground arith)
    | inr (sub, is_sub) ↦ elim (Option-cases claims.username) [
      | inl no_name ↦ absurd (ground (arith, lookup sub users))
      | inr (name, is_name) ↦ elim (Option-cases (lookup sub users)) [
        | inl unknown ↦ absurd (ground arith)
        | inr (user, known) ↦ record {
          claims = claims;
          user = user;
          verified = e;
          is_sub = ground arith;
          is_name = ground arith;
          known = ground arith;
          allowed = ground arith;
          valid = ground arith;
          theirs = ground arith;
          whole = ground arith;
        }
      ]
    ]
  ]

  -- A token lets a request in only if it verifies, names a user of the database, and the
  -- permissions in the database, not those in the token, are well-formed and allow the request.
  pub authorize_user_from_jwt_sound :
      (users : Users) (now : ℕ) (token : Option String) (r : AuthResource) (p : AuthPermission)
      (info : AuthUserInfo)
      → authorize_user_from_jwt packages env users now token r p ≡ some info
      → Entitled users now token r p info
  unfolding authorize_user_from_jwt
  authorize_user_from_jwt_sound users now token r p info h =
      elim (Option-cases (packages.verify now token env.jwt_secret env.jwt_algorithm)) [
        | inl refused ↦ absurd (ground arith)
        | inr (claims, e) ↦ claims-Entitled users now token r p info claims e (rw e at h)
      ]

  -- A token that verifies and names a user of the database who may do `p` on `r`, by permissions that are
  -- well-formed, lets in.
  pub authorize_user_from_jwt_complete :
      (users : Users) (now : ℕ) (token : Option String) (r : AuthResource) (p : AuthPermission)
      (info : AuthUserInfo)
      → Entitled users now token r p info
      → authorize_user_from_jwt packages env users now token r p ≡ some info
  unfolding authorize_user_from_jwt
  authorize_user_from_jwt_complete users now token r p info e = ground arith

  -- A token lets a request in exactly when it verifies, names a user of the database, and the
  -- permissions in the database, not those in the token, are well-formed and allow the request.
  pub authorize_user_from_jwt_iff :
      (users : Users) (now : ℕ) (token : Option String) (r : AuthResource) (p : AuthPermission)
      (info : AuthUserInfo)
      → (authorize_user_from_jwt packages env users now token r p ≡ some info)
        ↔ Entitled users now token r p info
  authorize_user_from_jwt_iff users now token r p info = (
    authorize_user_from_jwt_sound users now token r p info,
    authorize_user_from_jwt_complete users now token r p info,
  )

  -- The claims that `issue_jwt` writes.
  abbrev pub claims_of : ℕ → String → String → User → Claims
  claims_of now username user_id user = record {
    sub = some user_id;
    username = some username;
    permissions = user.permissions;
    exp = now + env.jwt_expire_minutes * 60;
  }

  -- The user to whom a token was issued.
  pub record Issued (users : Users) (now : ℕ) (username password token : String) : Type 0 where
    pub user_id : String
    pub user : User
    pub member : In (user_id, user) users
    pub named : user.username ≡ username
    pub checked : packages.check_password password user.password ≡ true
    pub is_token :
        token
        ≡ packages.encode (claims_of now username user_id user) env.jwt_secret env.jwt_algorithm

  -- A token is issued only to a user of the database, for that user's name and a password that
  -- fits, and it says that user's id.
  pub issue_jwt-Issued :
      (users : Users) (now : ℕ) (username password token : String)
      → issue_jwt packages env users now username password ≡ some token
      → Issued users now username password token
  unfolding issue_jwt
  issue_jwt-Issued [] now username password token h = absurd (ground arith)
  issue_jwt-Issued ((user_id, user) ∷ users) now username password token h =
      elim (Bool-cases
        (user.username == username && packages.check_password password user.password)) [
          | inl fits ↦ record {
            user_id = user_id;
            user = user;
            member = inl refl;
            named = ground (arith, eq_iff user.username username);
            checked = ground arith;
            is_token = ground arith;
          }
          | inr other ↦
              let found : Issued users now username password token =
                issue_jwt-Issued users now username password token (rw other at h) in
              record {
                user_id = found.user_id;
                user = found.user;
                member = inr found.member;
                named = found.named;
                checked = found.checked;
                is_token = found.is_token;
              }
        ]

  -- A token with the claims of a user of the database is decoded as it was encoded until it expires.
  abbrev pub Decodes : Users → ℕ → ℕ → String → Type 0
  Decodes users now later username =
      (user_id : String) (user : User)
      → In (user_id, user) users
      → let claims = claims_of now username user_id user in
        let token = some (packages.encode claims env.jwt_secret env.jwt_algorithm) in
        later < claims.exp
        → (packages.decodes token ≡ true)
          × (packages.verify later token env.jwt_secret env.jwt_algorithm ≡ some claims)

  -- Where no user id stands twice in the database and jwt decodes what it encoded, a token of `issue_jwt`
  -- that has not expired gives, whatever user id the request names, exactly the access that the
  -- permissions of one user of the database allow, if these are well-formed: a user with the name that was given, and whose
  -- password fits the one that was given.
  pub issue_jwt-core_auth_handler :
      (users : Users) (now later : ℕ) (username password token : String) (protocol : Protocol)
      (r : AuthResource) (p : AuthPermission) (user_id : String)
      → HasUniqueKeys users
      → Decodes users now later username
      → later < now + env.jwt_expire_minutes * 60
      → issue_jwt packages env users now username password ≡ some token
      → (id : String) × (user : User) × In (id, user) users
        × (user.username ≡ username)
        × (packages.check_password password user.password ≡ true)
        × (core_auth_handler packages env users later protocol (some token) r p user_id ≡ (
            if allows user.permissions r p && is_valid user.permissions
            then some (record {
              id = id;
              name = username;
              permissions = user.permissions;
              extra = some user;
            })
            else none))
  unfolding core_auth_handler authorize_user_from_jwt
  issue_jwt-core_auth_handler users now later username password token protocol r p user_id unique
        decodes fresh returned =
      let issued = issue_jwt-Issued users now username password token returned in
      let (is_token, verified) = decodes issued.user_id issued.user issued.member fresh in
      (
        issued.user_id,
        issued.user,
        issued.member,
        issued.named,
        issued.checked,
        rw issued.is_token (
            rw (is_token, verified, In-lookup issued.user_id issued.user users unique issued.member)
              refl),
      )
