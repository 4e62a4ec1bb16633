-- ===== src/Identity/Addresses.antt =====
-- Addresses and their text (internal/identity/address.go).
use zerogo.Base.{
  ℕ, ◌/◌, ◌%◌, ◌<◌, ◌≡◌, ◌↔◌, ◌^◌, refl, ap, false, some, [], ◌∷◌, Bytes, AreBytes, length, get_or,
  take, drop, replicate, copy_full, arith, ok, err, ◌==◌, if◌then◌else◌, inl, inr, Bool-cases,
}
use zerogo.Crypto.{Crypto, Laws}
use zerogo.Identity.{
  address_of_hash, hex_digit, from_hex_digit, encode_to_string, decode_string, address_from_hex,
  address_to_string, address_size, is_zero, to_uint64, address_from_public_key, wrong_length,
}

from_hex_digit-hex_digit : (d : ℕ) → d < 16 → from_hex_digit (hex_digit d) ≡ some d
unfolding from_hex_digit hex_digit
from_hex_digit-hex_digit d h = ground arith

pub decode_string-encode_to_string :
    (bs : Bytes) → AreBytes bs → decode_string (encode_to_string bs) ≡ some bs
unfolding decode_string encode_to_string
decode_string-encode_to_string [] h = refl
decode_string-encode_to_string (b ∷ bs) h = ground (
  arith,
  from_hex_digit-hex_digit (b / 16) (omega arith),
  from_hex_digit-hex_digit (b % 16) (omega arith),
  decode_string-encode_to_string bs h.1,
)

-- The text of an address parses back to the address. The text of any other number of bytes is
-- refused, with the number.
pub address_from_hex-address_to_string :
    (bs : Bytes)
    → AreBytes bs
    → address_from_hex (address_to_string bs)
      ≡ (if length bs == address_size then ok bs else err (wrong_length (length bs)))
unfolding address_from_hex address_to_string
address_from_hex-address_to_string bs h =
    rw (decode_string-encode_to_string bs h, address_from_hex)
      (ground (arith, copy_full bs (replicate address_size 0)))

-- Two addresses of five bytes are numbers below 2 ^ 40, and equal numbers exactly when they are the
-- same address.
pub to_uint64_injective :
    (a b : Bytes)
    → length a ≡ address_size
    → length b ≡ address_size
    → AreBytes a
    → AreBytes b
    → (to_uint64 a < 2 ^ 40) × ((to_uint64 a ≡ to_uint64 b) ↔ (a ≡ b))
unfolding to_uint64
to_uint64_injective (a0 ∷ a1 ∷ a2 ∷ a3 ∷ a4 ∷ []) (b0 ∷ b1 ∷ b2 ∷ b3 ∷ b4 ∷ []) h k ha hb =
    (omega arith, (λ e. ground arith, λ e. ap to_uint64 e))
to_uint64_injective (a0 ∷ a1 ∷ a2 ∷ a3 ∷ a4 ∷ a5 ∷ a) (b0 ∷ b1 ∷ b2 ∷ b3 ∷ b4 ∷ []) h k ha hb =
    absurd (omega arith)
to_uint64_injective _ _ h k ha hb = absurd (omega arith)

address_of_hash_lem :
    (h : Bytes)
    → length h ≡ 32
    → (length (address_of_hash h) ≡ address_size)
      × (get_or (address_of_hash h) 0 0 ≡ (if get_or h 0 0 == 0 then 1 else get_or h 0 0))
      × (drop 1 (address_of_hash h) ≡ take 4 (drop 1 h))
      × (is_zero (address_of_hash h) ≡ false)
unfolding address_of_hash is_zero
address_of_hash_lem (a ∷ b ∷ c ∷ d ∷ e ∷ r) l = elim (Bool-cases (a == 0)) [
  | inl zero_first ↦ rw zero_first (refl, refl, refl, refl)
  | inr other ↦ rw other (refl, refl, refl, rw other)
]
address_of_hash_lem _ l = absurd (omega arith)

-- The address of a public key has five bytes, agrees with the hash of the key except that a leading
-- zero becomes a one, and so is never the zero address, which stands for no peer.
pub address_from_public_key_lem :
    (c : Crypto) (key : Bytes)
    → Laws c
    → (length (address_from_public_key c key) ≡ address_size)
      × (get_or (address_from_public_key c key) 0 0
          ≡ (if get_or (c.hash key) 0 0 == 0 then 1 else get_or (c.hash key) 0 0))
      × (drop 1 (address_from_public_key c key) ≡ take 4 (drop 1 (c.hash key)))
      × (is_zero (address_from_public_key c key) ≡ false)
unfolding address_from_public_key
address_from_public_key_lem c key laws = address_of_hash_lem (c.hash key) (laws.length-hash key)
