-- ===== src/Controller/Users/Login.antt =====
-- From a registration to a request that is let through (internal/controller/api.go,
-- internal/controller/auth.go).
use zerogo.Base.{
  ℕ, ◌+◌, ◌<◌, ◌≡◌, ◌⊎◌, inl, inr, refl, sym, ap, ◌∙◌, Bool, true, ◌&&◌, Option, none, some, ◌++◌,
  Bytes, ltb, arith, Bool-cases, Option-cases,
}
use zerogo.Controller.Users.{
  User, Credentials, Claims, Accounts, jwt_expiry, admin, new_user, claims_of, key_for, bearer,
  is_empty_text, generate_token, validate_token, validate_token_of_header, authenticate,
  handle_login, create_hashed, handle_register,
}

-- What the database and the libraries promise: a user that was created is found by its name, a
-- password passes the check against its hash, and a token is parsed with its key before it expires.
pub record AccountLaws {W : Type 0} (a : Accounts W) : Type 0 where
  pub found :
      (user : User) (w w' : W)
      → a.create_user user w ≡ some w'
      → (id : ℕ) × (a.first_user user.username w' ≡ some (record user { id = id }))
  pub checked :
      (password hash : Bytes)
      → a.hash_password password ≡ some hash
      → a.check_password password hash ≡ true
  pub parsed :
      (claims : Claims) (secret token : Bytes) (key : Bool → Option Bytes) (now : ℕ)
      → a.sign claims secret ≡ some token
      → key true ≡ some secret
      → now < claims.expires_at
      → a.parse key now token ≡ some claims

module _ {W : Type 0} (a : Accounts W) where
  created_user :
      (username : Bytes) (o : Option Bytes) (w : W)
      → (create_hashed a username o w).1 ≡ 201
      → (hash : Bytes) × (o ≡ some hash)
        × (a.create_user (new_user username hash) w ≡ some (create_hashed a username o w).0)
  created_user username none w done = absurd (omega arith)
  created_user username (some hash) w done =
      elim (Option-cases (a.create_user (new_user username hash) w)) [
        | inl refused ↦ absurd (ground arith)
        | inr (w', made) ↦ (hash, refl, ground arith)
      ]

  registered_user :
      (header : Bytes) (req : Credentials) (w : W)
      → (handle_register a header (some req) w).1 ≡ 201
      → (hash : Bytes) × (a.hash_password req.password ≡ some hash)
        × (a.create_user (new_user req.username hash) w
            ≡ some (handle_register a header (some req) w).0)
  unfolding handle_register
  registered_user header req w done =
      elim (Bool-cases (ltb 0 (a.count w) && is_empty_text header)) [
        | inl forbidden ↦ absurd (ground arith)
        | inr allowed ↦
            let code : handle_register a header (some req) w
                ≡ create_hashed a req.username (a.hash_password req.password) w =
              rw (allowed, handle_register) refl in
            rw code (
              created_user req.username (a.hash_password req.password) w
                (sym (ap (λ r. r.1) code) ∙ done))
      ]

module _ {W : Type 0} (a : Accounts W) (laws : AccountLaws a) where
  -- Whoever was registered can log in with the same name and password: unless the token cannot be
  -- signed, the answer is 200 with a token; and a request with that token behind "Bearer " is let
  -- through within a day, as that user and with the role of an admin.
  pub registered_logs_in :
      (header secret : Bytes) (req : Credentials) (w : W) (now later : ℕ)
      → (handle_register a header (some req) w).1 ≡ 201
      → later < now + jwt_expiry
      → let login =
          handle_login a now secret (some req) (handle_register a header (some req) w).0 in
        (login ≡ (none, 500))
        ⊎ ((token : Bytes) × (claims : Claims) × (login ≡ (some token, 200))
            × (authenticate a later secret (bearer ++ token) ≡ some claims)
            × (claims.username ≡ req.username)
            × (claims.role ≡ admin))
  unfolding handle_login generate_token validate_token
  registered_logs_in header secret req w now later done soon =
      let (hash, hashed, made) = registered_user a header req w done in
      let (id, found) = laws.found (new_user req.username hash) w _ made in
      let user = record (new_user req.username hash) { id = id } in
      let good = laws.checked req.password hash hashed in
      elim (Option-cases (a.sign (claims_of now user) secret)) [
        | inl unsigned ↦ inl (rw (found, good, unsigned) refl)
        | inr (token, signed) ↦ inr (
          token,
          claims_of now user,
          rw (found, good, signed) refl,
          validate_token_of_header a later secret token
              ∙ laws.parsed (claims_of now user) secret token (key_for secret) later signed refl
                  soon,
          refl,
          refl,
        )
      ]
