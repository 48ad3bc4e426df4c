-- ===== src/UserRoutes/Login.antt =====
-- Users who were created or deleted, against the tokens of core/cat/factory/custom_auth_handler.py.
use cat_forked.Prelude.{
  ℕ, String, ◌≡◌, refl, sym, ap, ◌∙◌, inl, inr, true, false, Option, none, some, [], ◌∷◌, lookup,
  contains, insert, erase, lookup-erase, arith, eq_iff, ==_refl, Option-cases,
}
use cat_forked.Auth.Permissions.{AuthResource, AuthPermission}
use cat_forked.Auth.Handler.{
  User, Users, Env, Claims, AuthPackages, issue_jwt, authorize_user_from_jwt,
}
use cat_forked.Auth.Handler.Tokens.{claims_of, authorize_user_from_jwt_sound}
use cat_forked.UserRoutes.{UserCreate, or_stored, is_taken, hashed, create_user, delete_user}
use cat_forked.UserRoutes.Unique.{IsConsistent, is_free-lookup}

abbrev sub_of : Option Claims → Option String
sub_of none = none
sub_of (some claims) = claims.sub

module _ (packages : AuthPackages) (env : Env) where
  issue_jwt-insert :
      (users : Users) (id : String) (user : User) (now : ℕ) (password : String)
      → is_taken user.username users ≡ false
      → contains id users ≡ false
      → packages.check_password password user.password ≡ true
      → issue_jwt packages env (insert id user users) now user.username password
        ≡ some (
            packages.encode
              (claims_of packages env now user.username id user)
              env.jwt_secret
              env.jwt_algorithm)
  unfolding issue_jwt is_taken
  issue_jwt-insert [] id user now password new fresh checks =
      rw (==_refl user.username, checks) refl
  issue_jwt-insert ((j, v) ∷ users) id user now password new fresh checks =
      ground (arith, issue_jwt-insert users id user now password, eq_iff j id)

  -- A user who was created, with a name that no user had and a new id, gets a token with this id
  -- for the name and the password of the request, if the password fits its own hash.
  pub create_user-issue_jwt :
      (hash_password : String → String) (new_id : String) (new_user : UserCreate) (users : Users)
      (now : ℕ)
      → is_taken new_user.username users ≡ false
      → contains new_id users ≡ false
      → packages.check_password new_user.password (hash_password new_user.password) ≡ true
      → issue_jwt packages env
          (create_user hash_password new_id new_user users).1
          now
          new_user.username
          new_user.password
        ≡ some (
            packages.encode
              (claims_of packages env now new_user.username new_id (hashed hash_password new_user))
              env.jwt_secret
              env.jwt_algorithm)
  unfolding create_user
  create_user-issue_jwt hash_password new_id new_user users now new fresh checks = rw new (
      issue_jwt-insert users new_id (hashed hash_password new_user) now new_user.password new fresh
        checks)

  issue_jwt-not_taken :
      (users : Users) (now : ℕ) (name password : String)
      → is_taken name users ≡ false
      → issue_jwt packages env users now name password ≡ none
  unfolding issue_jwt is_taken
  issue_jwt-not_taken [] now name password h = refl
  issue_jwt-not_taken ((j, v) ∷ users) now name password h =
      ground (arith, issue_jwt-not_taken users now name password)

  refused :
      (users : Users) (now : ℕ) (token : Option String) (r : AuthResource) (p : AuthPermission)
      (claims : Claims) (id : String)
      → packages.verify now token env.jwt_secret env.jwt_algorithm ≡ some claims
      → claims.sub ≡ some id
      → lookup id users ≡ none
      → authorize_user_from_jwt packages env users now token r p ≡ none
  refused users now token r p claims id verified is_sub gone =
      elim (Option-cases (authorize_user_from_jwt packages env users now token r p)) [
        | inl denied ↦ denied
        | inr (info, entered) ↦
            let e = authorize_user_from_jwt_sound packages env users now token r p info entered in
            let same : some e.claims ≡ some claims = sym e.verified ∙ verified in
            let sub : e.claims.sub ≡ claims.sub = ap (λ (o : Option Claims). sub_of o) same in
            let id_is : some info.id ≡ some id = sym e.is_sub ∙ sub ∙ is_sub in
            let known : lookup info.id users ≡ some e.user = e.known in
            absurd (ground (arith, id_is, known, gone, ap (or_stored id) id_is))
      ]

  -- Where the users have ids and names of their own, a user of the database who is deleted gets
  -- no token for any password afterwards, and a token that verifies and says the user's id lets
  -- nobody in.
  pub delete_user-revokes :
      (users : Users) (id : String) (user : User) (now : ℕ) (password : String)
      (token : Option String) (r : AuthResource) (p : AuthPermission) (claims : Claims)
      → IsConsistent users
      → lookup id users ≡ some user
      → packages.verify now token env.jwt_secret env.jwt_algorithm ≡ some claims
      → claims.sub ≡ some id
      → let users' = (delete_user id users).1 in
        (issue_jwt packages env users' now user.username password ≡ none)
        × (authorize_user_from_jwt packages env users' now token r p ≡ none)
  unfolding delete_user
  delete_user-revokes users id user now password token r p claims h there verified is_sub =
      rw there (
        issue_jwt-not_taken (erase id users) now user.username password
            (is_free-lookup id user users h there),
        refused (erase id users) now token r p claims id verified is_sub
            (lookup-erase id id users ∙ rw (==_refl id) refl),
      )
