-- ===== src/Controller/Users.antt =====
-- internal/controller/api.go, lines 50 to 116, and internal/controller/auth.go: logins, new users,
-- tokens, and the check of a request's token. Passwords are hashed by bcrypt and tokens signed by a
-- JWT library, whose code is not in the repository.
pub mod Login
mod Tests
use zerogo.Base.{
  ℕ, ◌+◌, ◌≡◌, ◌↔◌, inl, inr, refl, ap, sym, ◌∙◌, Bool, true, false, ◌&&◌, Option, none, some, [],
  ◌∷◌, ◌++◌, Bytes, ltb, ◌==◌, bytes_eq, bytes_eq_iff, bytes_eq_refl, length, if◌then◌else◌, arith,
  Bool-cases, Option-cases,
}

pub record User : Type 0 where
  pub id : ℕ
  pub username : Bytes
  pub password : Bytes
  pub role : Bytes

pub record Credentials : Type 0 where
  pub username : Bytes
  pub password : Bytes

-- Times of tokens are in seconds.
pub record Claims : Type 0 where
  pub user_id : ℕ
  pub username : Bytes
  pub role : Bytes
  pub expires_at : ℕ
  pub issued_at : ℕ
  pub issuer : Bytes

-- A day.
abbrev pub jwt_expiry : ℕ
jwt_expiry = 86400

-- "zerogo-controller".
abbrev pub token_issuer : Bytes
token_issuer =
    122 ∷ 101 ∷ 114 ∷ 111 ∷ 103 ∷ 111 ∷ 45 ∷ 99 ∷ 111 ∷ 110 ∷ 116 ∷ 114 ∷ 111 ∷ 108 ∷ 108 ∷ 101
    ∷ 114 ∷ []

-- "admin".
abbrev pub admin : Bytes
admin = 97 ∷ 100 ∷ 109 ∷ 105 ∷ 110 ∷ []

-- `W` is the state of the table of users. `create_user` gives the user an id. `sign` stands for
-- `SignedString` with HS256, and `parse` for `ParseWithClaims` at a time: its first argument gives
-- the key for a token whose method is, or is not, one of HMAC.
pub record Accounts (W : Type 0) : Type 0 where
  pub count : W → ℕ
  pub first_user : Bytes → W → Option User
  pub create_user : User → W → Option W
  pub hash_password : Bytes → Option Bytes
  pub check_password : Bytes → Bytes → Bool
  pub sign : Claims → Bytes → Option Bytes
  pub parse : (Bool → Option Bytes) → ℕ → Bytes → Option Claims

-- `GenerateToken`: the claims.
abbrev pub claims_of : ℕ → User → Claims
claims_of now user = record {
  user_id = user.id;
  username = user.username;
  role = user.role;
  expires_at = now + jwt_expiry;
  issued_at = now;
  issuer = token_issuer;
}

-- The function that `ValidateToken` gives the library: no key but for HMAC.
abbrev pub key_for : Bytes → Bool → Option Bytes
key_for secret true = some secret
key_for secret false = none

abbrev pub new_user : Bytes → Bytes → User
new_user username hash = record { id = 0; username = username; password = hash; role = admin }

-- `strings.TrimPrefix`.
abbrev pub or_text : Bytes → Option Bytes → Bytes
or_text s none = s
or_text s (some rest) = rest

unfoldable pub strip_prefix : Bytes → Bytes → Option Bytes
strip_prefix [] s = some s
strip_prefix (p ∷ ps) [] = none
strip_prefix (p ∷ ps) (c ∷ s) = let rest = strip_prefix ps s in if p == c then rest else none

unfoldable pub trim_prefix : Bytes → Bytes → Bytes
trim_prefix s prefix = or_text s (strip_prefix prefix s)

-- "Bearer ".
abbrev pub bearer : Bytes
bearer = 66 ∷ 101 ∷ 97 ∷ 114 ∷ 101 ∷ 114 ∷ 32 ∷ []

abbrev pub is_empty_text : Bytes → Bool
is_empty_text [] = true
is_empty_text (c ∷ s) = false

abbrev pub created : {W : Type 0} → Option W → W → W × ℕ
created none w = (w, 409)
created (some w') w = (w', 201)

module _ {W : Type 0} (a : Accounts W) where
  -- `GenerateToken`.
  unfoldable pub generate_token : ℕ → Bytes → User → Option Bytes
  generate_token now secret user = a.sign (claims_of now user) secret

  -- `ValidateToken`.
  unfoldable pub validate_token : ℕ → Bytes → Bytes → Option Claims
  validate_token now secret token = a.parse (key_for secret) now token

  -- `AuthMiddleware`: the claims of the token, none for 401.
  unfoldable pub authenticate : ℕ → Bytes → Bytes → Option Claims
  authenticate now secret header =
      if is_empty_text header
      then none
      else if bytes_eq (trim_prefix header bearer) header
      then none
      else validate_token now secret (trim_prefix header bearer)

  abbrev pub token_or : Option Bytes → Option Bytes × ℕ
  token_or none = (none, 500)
  token_or (some token) = (some token, 200)

  abbrev pub login_user : ℕ → Bytes → Bytes → Option User → Option Bytes × ℕ
  login_user now secret password none = (none, 401)
  login_user now secret password (some user) =
      if a.check_password password user.password
      then token_or (generate_token now secret user)
      else (none, 401)

  -- `handleLogin`: the token and the status.
  unfoldable pub handle_login : ℕ → Bytes → Option Credentials → W → Option Bytes × ℕ
  handle_login now secret none w = (none, 400)
  handle_login now secret (some req) w =
      login_user now secret req.password (a.first_user req.username w)

  abbrev pub create_hashed : Bytes → Option Bytes → W → W × ℕ
  create_hashed username none w = (w, 500)
  create_hashed username (some hash) w = created (a.create_user (new_user username hash) w) w

  -- `handleRegister`, given the request's authorization header.
  unfoldable pub handle_register : Bytes → Option Credentials → W → W × ℕ
  handle_register header none w = (w, 400)
  handle_register header (some req) w =
      if ltb 0 (a.count w) && is_empty_text header
      then (w, 403)
      else create_hashed req.username (a.hash_password req.password) w

strip_prefix_iff : (ps s rest : Bytes) → (strip_prefix ps s ≡ some rest) ↔ (s ≡ ps ++ rest)
unfolding strip_prefix
strip_prefix_iff [] s rest = ground arith
strip_prefix_iff (p ∷ ps) [] rest = ground arith
strip_prefix_iff (p ∷ ps) (c ∷ s) rest = ground (arith, strip_prefix_iff ps s rest)

module _ {W : Type 0} (a : Accounts W) (now : ℕ) (secret : Bytes) where
  refuse_without_bearer :
      (header : Bytes) → strip_prefix bearer header ≡ none → authenticate a now secret header ≡ none
  unfolding authenticate trim_prefix
  refuse_without_bearer [] none_there = refl
  refuse_without_bearer (x ∷ header) none_there = rw (none_there, bytes_eq_refl (x ∷ header)) refl

  pub validate_token_of_header :
      (token : Bytes)
      → authenticate a now secret (bearer ++ token) ≡ validate_token a now secret token
  unfolding authenticate trim_prefix
  validate_token_of_header token =
      let header = bearer ++ token in
      let stripped : strip_prefix bearer header ≡ some token =
        (strip_prefix_iff bearer header token).1 refl in
      let shorter : bytes_eq token header ≡ false = elim (Bool-cases (bytes_eq token header)) [
        | inl same ↦
            absurd
              (omega (arith, ap (λ (s : Bytes). length s) ((bytes_eq_iff token header).0 same)))
        | inr differs ↦ differs
      ] in
      rw (stripped, shorter) refl

  -- A request is let through exactly if its header is "Bearer " before a token that is valid, and
  -- then with what that token says.
  pub authenticate_iff :
      (header : Bytes) (claims : Claims)
      → (authenticate a now secret header ≡ some claims) ↔ (
          (token : Bytes) × (header ≡ bearer ++ token)
          × (validate_token a now secret token ≡ some claims))
  authenticate_iff header claims = (
    (λ passed. elim (Option-cases (strip_prefix bearer header)) [
      | inl none_there ↦ absurd (cc (passed, refuse_without_bearer header none_there))
      | inr (token, stripped) ↦
          let is_header = (strip_prefix_iff bearer header token).0 stripped in
          (
            token,
            is_header,
            sym (validate_token_of_header token)
                ∙ ap (authenticate a now secret) (sym is_header)
                ∙ passed,
          )
    ]),
    (λ (token, is_header, valid).
        ap (authenticate a now secret) is_header ∙ validate_token_of_header token ∙ valid),
  )

module _ {W : Type 0} (a : Accounts W) where
  create_hashed-count :
      (username : Bytes) (o : Option Bytes) (w : W)
      → create_hashed a username o w ≡ create_hashed (record a { count = λ _. 0 }) username o w
  create_hashed-count username none w = refl
  create_hashed-count username (some hash) w = refl

  -- Once there are users, a registration with any authorization header that is not empty, be it no
  -- valid token, does what the first registration of all does without one.
  pub handle_register_unchecked :
      (header : Bytes) (x : ℕ) (req : Option Credentials) (w : W)
      → handle_register a (x ∷ header) req w
        ≡ handle_register (record a { count = λ _. 0 }) [] req w
  unfolding handle_register
  handle_register_unchecked header x none w = refl
  handle_register_unchecked header x (some req) w = elim (Bool-cases (ltb 0 (a.count w))) [
    | inl users ↦ rw users (create_hashed-count req.username (a.hash_password req.password) w)
    | inr no_users ↦ rw no_users (create_hashed-count req.username (a.hash_password req.password) w)
  ]
