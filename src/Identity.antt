-- ===== src/Identity.antt =====
-- internal/identity/address.go and internal/identity/identity.go: node addresses and key pairs.
-- Hexadecimal text is the list of its character codes; `encoding/hex` is written out.
pub mod Addresses
pub mod Keys
mod Tests
use Prim.Native.Nat.{bit_and, bit_or}
use zerogo.Base.{
  ℕ, suc, ◌+◌, ◌-◌, ◌*◌, ◌/◌, ◌%◌, ◌≡◌, Bool, true, false, ◌&&◌, Option, none, some, List, [], ◌∷◌,
  ◌++◌, Bytes, length, get_or, take, drop, set, replicate, copy, bytes_eq, ltb, leb, ◌==◌,
  if◌then◌else◌, Result, ok, err, ◌>>=◌,
}
use zerogo.Crypto.{Crypto}

abbrev pub address_size : ℕ
address_size = 5

abbrev pub private_key_size : ℕ
private_key_size = 32

pub data AddressError : Type 0 where
  invalid_hex : AddressError
  wrong_length : ℕ → AddressError

-- A digit of `hex.EncodeToString`: lower case.
unfoldable pub hex_digit : ℕ → ℕ
hex_digit d = if ltb d 10 then 48 + d else 87 + d

unfoldable pub encode_to_string : Bytes → Bytes
unfolding hex_digit
encode_to_string [] = []
encode_to_string (b ∷ bs) = hex_digit (b / 16) ∷ hex_digit (b % 16) ∷ encode_to_string bs

-- A digit that `hex.DecodeString` reads: either case.
unfoldable pub from_hex_digit : ℕ → Option ℕ
from_hex_digit c =
    if leb 48 c && leb c 57
    then some (c - 48)
    else if leb 97 c && leb c 102
    then some (c - 87)
    else if leb 65 c && leb c 70
    then some (c - 55)
    else none

abbrev pub hex_byte : Option ℕ → Option ℕ → Option Bytes → Option Bytes
hex_byte (some h) (some l) (some bs) = some ((h * 16 + l) ∷ bs)
hex_byte _ _ _ = none

-- `none` for an odd length or a character that is no digit.
unfoldable pub decode_string : Bytes → Option Bytes
unfolding from_hex_digit
decode_string [] = some []
decode_string (c ∷ []) = none
decode_string (c ∷ d ∷ s) = hex_byte (from_hex_digit c) (from_hex_digit d) (decode_string s)

-- `AddressFromHex`.
unfoldable pub address_from_hex : Bytes → Result AddressError Bytes
address_from_hex s = elim (decode_string s) [
  | none ↦ err invalid_hex
  | some b ↦
      if length b == address_size
      then ok (copy b (replicate address_size 0))
      else err (wrong_length (length b))
]

-- `Address.String`.
unfoldable pub address_to_string : Bytes → Bytes
address_to_string a = encode_to_string a

-- `Address.IsZero`.
unfoldable pub is_zero : Bytes → Bool
unfolding bytes_eq
is_zero a = bytes_eq a (replicate address_size 0)

-- `binary.BigEndian.Uint64`.
unfoldable pub be64 : Bytes → ℕ
be64 b =
    ((((((get_or b 0 0 * 256 + get_or b 1 0) * 256 + get_or b 2 0) * 256 + get_or b 3 0) * 256
                + get_or b 4 0)
              * 256
            + get_or b 5 0)
          * 256
        + get_or b 6 0)
      * 256
    + get_or b 7 0

-- `Address.Uint64`: the address behind three zero bytes.
unfoldable pub to_uint64 : Bytes → ℕ
unfolding be64 copy
to_uint64 a = be64 (take 3 (replicate 8 0) ++ copy a (drop 3 (replicate 8 0)))

pub record Identity : Type 0 where
  pub private_key : Bytes
  pub public_key : Bytes
  pub address : Bytes

pub data IdentityError : Type 0 where
  no_randomness bad_key mkdir_failed write_failed : IdentityError

-- The clamping of a private key.
unfoldable pub clamp : Bytes → Bytes
clamp k =
    let k1 = set k 0 (bit_and (get_or k 0 0) 248) in
    let k2 = set k1 31 (bit_and (get_or k1 31 0) 127) in set k2 31 (bit_or (get_or k2 31 0) 64)

-- The body of `AddressFromPublicKey`, given the hash: its first five bytes, the first of them made
-- non-zero.
unfoldable pub address_of_hash : Bytes → Bytes
unfolding copy
address_of_hash h =
    let addr = copy (take address_size h) (replicate address_size 0) in
    if get_or addr 0 0 == 0 then set addr 0 1 else addr

-- The end of `LoadOrGenerate`: the identity that was generated is written to the file.
abbrev pub save :
    Bool → Bool → Option Bytes → Identity → Result IdentityError Identity × Option Bytes
save false writes file id = (err mkdir_failed, file)
save true false file id = (err write_failed, file)
save true true file id = (ok id, some id.private_key)

abbrev pub generate_and_save :
    Bool
    → Bool
    → Option Bytes
    → Result IdentityError Identity
    → Result IdentityError Identity × Option Bytes
generate_and_save mkdirs writes file (err e) = (err e, file)
generate_and_save mkdirs writes file (ok id) = save mkdirs writes file id

module _ (crypto : Crypto) where
  -- `AddressFromPublicKey`.
  unfoldable pub address_from_public_key : Bytes → Bytes
  address_from_public_key pub_key = address_of_hash (crypto.hash pub_key)

  -- `FromPrivateKey`.
  unfoldable pub from_private_key : Bytes → Result IdentityError Identity
  from_private_key key = elim (crypto.x25519 key crypto.basepoint) [
    | none ↦ err bad_key
    | some point ↦
        let public_key = copy point (replicate 32 0) in
        ok (record {
          private_key = key;
          public_key = public_key;
          address = address_from_public_key public_key;
        })
  ]

  -- `Generate`; `random` is what `rand.Read` put into the key, `none` if it failed.
  unfoldable pub generate : Option Bytes → Result IdentityError Identity
  generate none = err no_randomness
  generate (some random) = elim (crypto.x25519 (clamp random) crypto.basepoint) [
    | none ↦ err bad_key
    | some point ↦
        let public_key = copy point (replicate 32 0) in
        ok (record {
          private_key = clamp random;
          public_key = public_key;
          address = address_from_public_key public_key;
        })
  ]

  -- `LoadOrGenerate`: the result, and the file's content afterwards. `mkdirs` and `writes` say
  -- whether the directory and the file can be written; a failed write is taken to leave the file.
  unfoldable pub load_or_generate :
      Option Bytes → Bool → Bool → Option Bytes → Result IdentityError Identity × Option Bytes
  load_or_generate random mkdirs writes none =
      generate_and_save mkdirs writes none (generate random)
  load_or_generate random mkdirs writes (some content) =
      if length content == private_key_size
      then (from_private_key (copy content (replicate 32 0)), some content)
      else generate_and_save mkdirs writes (some content) (generate random)
