-- ===== src/Controller/Users/Tests.antt =====
-- Inputs on which the theorems about accounts are used.
use zerogo.Base.{
  ℕ, ◌≡◌, ◌⊎◌, ◌↔◌, refl, Option, none, some, List, [], ◌∷◌, ◌++◌, Bytes, bytes_eq, bytes_eq_refl,
  length, take, drop, take-append, drop-append, ltb, if◌then◌else◌, arith,
}
use zerogo.Controller.Users.{
  User, Credentials, Claims, Accounts, admin, bearer, authenticate, handle_login, handle_register,
  validate_token, authenticate_iff, handle_register_unchecked,
}
use zerogo.Controller.Users.Login.{AccountLaws, registered_logs_in}

abbrev named : Bytes → User → List User → Option User → Option User
named name user rest later = if bytes_eq user.username name then some user else later

find : Bytes → List User → Option User
find name [] = none
find name (user ∷ users) = named name user users (find name users)

-- A token is the claims in the clear.
abbrev token_of : Claims → Bytes
token_of claims =
    claims.user_id
    ∷ claims.expires_at
    ∷ claims.issued_at
    ∷ length claims.username
    ∷ length claims.role
    ∷ (claims.username ++ (claims.role ++ claims.issuer))

abbrev claims_in : Bytes → Option Claims
claims_in (id ∷ expires ∷ issued ∷ n ∷ m ∷ text) = some (record {
  user_id = id;
  username = take n text;
  role = take m (drop n text);
  expires_at = expires;
  issued_at = issued;
  issuer = drop m (drop n text);
})
claims_in _ = none

abbrev unless_late : ℕ → Option Claims → Option Claims
unless_late now none = none
unless_late now (some claims) = if ltb now claims.expires_at then some claims else none

abbrev plain : Accounts (List User)
plain = record {
  count = λ users. length users;
  first_user = find;
  create_user = λ user users. some (user ∷ users);
  hash_password = some;
  check_password = bytes_eq;
  sign = λ claims secret. some (token_of claims);
  parse = λ key now token. unless_late now (claims_in token);
}

claims_in-token_of : (claims : Claims) → claims_in (token_of claims) ≡ some claims
claims_in-token_of claims =
    rw
      (
        take-append claims.username (claims.role ++ claims.issuer),
        drop-append claims.username (claims.role ++ claims.issuer),
        take-append claims.role claims.issuer,
        drop-append claims.role claims.issuer,
      )
      refl

plain-AccountLaws : AccountLaws plain
unfolding find
plain-AccountLaws = record {
  found = λ user w w' made.
      (let same : user ∷ w ≡ w' = ground arith in
        (user.id, rw⁻¹ same (rw (bytes_eq_refl user.username) refl)));
  checked = λ password hash hashed.
      (let same : password ≡ hash = ground arith in rw⁻¹ same (bytes_eq_refl password));
  parsed = λ claims secret token key now signed keyed soon.
      (let same : token_of claims ≡ token = ground arith in
        rw⁻¹ same (rw (claims_in-token_of claims) (ground arith)));
}

abbrev secret : Bytes
secret = 9 ∷ []

abbrev credentials : Credentials
credentials = record { username = 3 ∷ []; password = 4 ∷ [] }

abbrev users : List User
users = []

is_registered : (handle_register plain [] (some credentials) users).1 ≡ 201
unfolding handle_register
is_registered = refl

registered_logs_in_example :
    let login =
      handle_login plain 5 secret
        (some credentials)
        (handle_register plain [] (some credentials) users).0 in
    (login ≡ (none, 500))
    ⊎ ((token : Bytes) × (claims : Claims) × (login ≡ (some token, 200))
        × (authenticate plain 6 secret (bearer ++ token) ≡ some claims)
        × (claims.username ≡ 3 ∷ [])
        × (claims.role ≡ admin))
registered_logs_in_example =
    registered_logs_in plain plain-AccountLaws [] secret credentials users 5 6 is_registered
      (omega arith)

abbrev some_claims : Claims
some_claims = record {
  user_id = 1;
  username = [];
  role = [];
  expires_at = 7;
  issued_at = 3;
  issuer = [];
}

authenticate_iff_example : (authenticate plain 5 secret (bearer ++ 7 ∷ []) ≡ some some_claims) ↔ (
    (token : Bytes) × (bearer ++ 7 ∷ [] ≡ bearer ++ token)
    × (validate_token plain 5 secret token ≡ some some_claims))
authenticate_iff_example = authenticate_iff plain 5 secret (bearer ++ 7 ∷ []) some_claims

abbrev one_user : List User
one_user = record { id = 1; username = 5 ∷ []; password = 6 ∷ []; role = admin } ∷ []

handle_register_unchecked_example :
    handle_register plain (1 ∷ []) (some credentials) one_user
    ≡ handle_register (record plain { count = λ _. 0 }) [] (some credentials) one_user
handle_register_unchecked_example = handle_register_unchecked plain [] 1 (some credentials) one_user
