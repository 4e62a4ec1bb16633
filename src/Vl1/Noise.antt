-- ===== src/Vl1/Noise.antt =====
-- internal/vl1/noise.go, lines 17 to 378 and 487 to 561: the handshake, and the keys of a network
-- with a pre-shared key. A method of `NoiseHandshake` takes the handshake's state and returns it
-- beside its result, on its error returns too, where the state is the one reached so far.
pub mod Initiation
pub mod Response
pub mod Keys
pub mod Compare
mod Tests
use Prim.Native.Nat.{bit_or, bit_xor}
use zerogo.Base.{
  ℕ, ◌+◌, ◌≡◌, Bool, true, false, not, Option, none, some, List, [], ◌∷◌, ◌++◌, Bytes, length,
  get_or, take, drop, replicate, copy, ltb, leb, ◌==◌, if◌then◌else◌, Result, ok, err,
}
use zerogo.Crypto.{Crypto}
use zerogo.Identity.{clamp}

abbrev pub handshake_msg_init : ℕ
handshake_msg_init = 1

abbrev pub handshake_msg_response : ℕ
handshake_msg_response = 2

abbrev pub handshake_initiation_size : ℕ
handshake_initiation_size = 1 + 32 + 48 + 28 + 16

abbrev pub handshake_response_size : ℕ
handshake_response_size = 1 + 32 + 48 + 16

-- "Noise_IKpsk2_25519_ChaChaPoly_BLAKE2s".
abbrev noise_protocol_name : Bytes
noise_protocol_name =
    78 ∷ 111 ∷ 105 ∷ 115 ∷ 101 ∷ 95 ∷ 73 ∷ 75 ∷ 112 ∷ 115 ∷ 107 ∷ 50 ∷ 95 ∷ 50 ∷ 53 ∷ 53 ∷ 49 ∷ 57
    ∷ 95 ∷ 67 ∷ 104 ∷ 97 ∷ 67 ∷ 104 ∷ 97 ∷ 80 ∷ 111 ∷ 108 ∷ 121 ∷ 95 ∷ 66 ∷ 76 ∷ 65 ∷ 75 ∷ 69 ∷ 50
    ∷ 115 ∷ []

-- "zerogo-vl1-v1".
abbrev noise_prologue : Bytes
noise_prologue = 122 ∷ 101 ∷ 114 ∷ 111 ∷ 103 ∷ 111 ∷ 45 ∷ 118 ∷ 108 ∷ 49 ∷ 45 ∷ 118 ∷ 49 ∷ []

pub data NoiseError : Type 0 where
  invalid_handshake decrypt_failed dh_failed no_randomness : NoiseError

pub record NoiseHandshake : Type 0 where
  pub local_static : Bytes
  pub local_static_pub : Bytes
  pub remote_static_pub : Bytes
  pub local_ephemeral : Bytes
  pub local_ephemeral_pub : Bytes
  pub psk : Bytes
  pub chaining_key : Bytes
  pub hash : Bytes
  pub send_key : Bytes
  pub recv_key : Bytes

-- A method: the state afterwards, and the result or the error.
abbrev pub Method {ℓ} : Type ℓ → Type ℓ
Method A = NoiseHandshake → NoiseHandshake × Result NoiseError A

abbrev pub continue {ℓ κ} :
    {A : Type ℓ} {B : Type κ}
    → Result NoiseError A
    → NoiseHandshake
    → (A → Method B)
    → NoiseHandshake × Result NoiseError B
continue (ok a) hs f = f a hs
continue (err e) hs f = (hs, err e)

infixl 5 ◌>>=◌ ◌>>◌
abbrev pub ◌>>=◌ {ℓ κ} : {A : Type ℓ} {B : Type κ} → Method A → (A → Method B) → Method B
◌>>=◌ m f hs = continue (m hs).1 (m hs).0 f

abbrev pub ◌>>◌ {ℓ κ} : {A : Type ℓ} {B : Type κ} → Method A → Method B → Method B
m >> k = m >>= λ _. k

abbrev pub return {ℓ} : {A : Type ℓ} → A → Method A
return a hs = (hs, ok a)

abbrev pub fail {ℓ} : {A : Type ℓ} → NoiseError → Method A
fail e hs = (hs, err e)

abbrev pub modify : (NoiseHandshake → NoiseHandshake) → Method (Unit {0})
modify f hs = (f hs, ok tt)

abbrev pub reads {ℓ} : {A : Type ℓ} → (NoiseHandshake → A) → Method A
reads f hs = (hs, ok (f hs))

-- A value, or the early return with an error.
abbrev pub or_fail {ℓ} : {A : Type ℓ} → Option A → NoiseError → Method A
or_fail (some a) e hs = (hs, ok a)
or_fail none e hs = (hs, err e)

abbrev pub require : Bool → NoiseError → Method (Unit {0})
require true e hs = (hs, ok tt)
require false e hs = (hs, err e)

-- The twelve zero bytes of a nonce.
abbrev pub zero_nonce : Bytes
zero_nonce = replicate 12 0

-- `constantTimeEqual`: the loop gathers the differences.
unfoldable pub differences : ℕ → Bytes → Bytes → ℕ
differences v [] ys = v
differences v (x ∷ xs) [] = v
differences v (x ∷ xs) (y ∷ ys) = differences (bit_or v (bit_xor x y)) xs ys

unfoldable pub constant_time_equal : Bytes → Bytes → Bool
unfolding differences
constant_time_equal a b = if not (length a == length b) then false else differences 0 a b == 0

module _ (c : Crypto) where
  -- The branches of `hmacBlake2s` for a key of at most 32 bytes.
  abbrev keyed_or_prefixed : Bytes → Bytes → Option Bytes → Bytes
  keyed_or_prefixed key input none = c.hash (key ++ input)
  keyed_or_prefixed key input (some digest) = digest

  -- `hmacBlake2s`; the call on the hash of a long key takes the first branch, since a hash has 32
  -- bytes.
  unfoldable pub hmac_blake2s : Bytes → Bytes → Bytes
  hmac_blake2s key input =
      if leb (length key) 32
      then keyed_or_prefixed key input (c.keyed_hash key input)
      else keyed_or_prefixed (c.hash key) input (c.keyed_hash (c.hash key) input)

  abbrev pub mixed_hash : Bytes → NoiseHandshake → NoiseHandshake
  mixed_hash input hs = record hs { hash = c.hash (hs.hash ++ input) }

  -- `mixHash`.
  abbrev pub mix_hash : Bytes → Method (Unit {0})
  mix_hash input = modify (mixed_hash input)

  -- `mixKey`.
  abbrev pub mix_key : Bytes → Method (Unit {0})
  mix_key input = modify λ hs. record hs {
    chaining_key = hmac_blake2s (hmac_blake2s hs.chaining_key input) (0x01 ∷ []);
  }

  -- `mixKeyAndHash`.
  abbrev pub mix_key_and_hash : Bytes → Method (Unit {0})
  mix_key_and_hash input = modify λ hs.
      let temp = hmac_blake2s hs.chaining_key input in
      let ck = hmac_blake2s temp (0x01 ∷ []) in
      mixed_hash (hmac_blake2s temp (ck ++ 0x02 ∷ [])) (record hs { chaining_key = ck })

  -- `encryptAndHash`.
  abbrev pub encrypt_and_hash : Bytes → Method Bytes
  encrypt_and_hash plaintext hs =
      let key = hmac_blake2s hs.chaining_key (0x03 ∷ []) in
      let ciphertext = c.seal key zero_nonce plaintext hs.hash in
      (mixed_hash ciphertext hs, ok ciphertext)

  -- `decryptAndHash`.
  unfoldable pub decrypt_and_hash : Bytes → Method Bytes
  decrypt_and_hash ciphertext hs =
      let key = hmac_blake2s hs.chaining_key (0x03 ∷ []) in
      elim (c.unseal key zero_nonce ciphertext hs.hash) [
        | none ↦ (hs, err decrypt_failed)
        | some plaintext ↦ (mixed_hash ciphertext hs, ok plaintext)
      ]

  -- `computeMAC`.
  abbrev pub compute_mac : Bytes → Method Bytes
  compute_mac input = reads λ hs. take 16 (hmac_blake2s hs.hash input)

  -- `generateEphemeral`; `random` is what `rand.Read` gave.
  unfoldable pub generate_ephemeral : Option Bytes → Method (Unit {0})
  generate_ephemeral random = do
    bytes ← or_fail random no_randomness
    modify (λ hs. record hs { local_ephemeral = clamp bytes })
    point ← or_fail (c.x25519 (clamp bytes) c.basepoint) dh_failed
    modify (λ hs. record hs { local_ephemeral_pub = copy point hs.local_ephemeral_pub })

  unfoldable pub diffie_hellman : (NoiseHandshake → Bytes) → (NoiseHandshake → Bytes) → Method Bytes
  diffie_hellman private_key public_key = do
    private ← reads private_key
    public ← reads public_key
    or_fail (c.x25519 private public) dh_failed

  -- `deriveTransportKeys`.
  unfoldable pub derive_transport_keys : Bool → NoiseHandshake → NoiseHandshake
  derive_transport_keys is_initiator hs =
      let temp = hmac_blake2s hs.chaining_key [] in
      let k1 = hmac_blake2s temp (0x01 ∷ []) in
      let k2 = hmac_blake2s temp (k1 ++ 0x02 ∷ []) in
      if is_initiator
      then record hs { send_key = k1; recv_key = k2 }
      else record hs { send_key = k2; recv_key = k1 }

  -- `NewNoiseHandshake`, with `initialize`.
  unfoldable pub new_noise_handshake : Bytes → Bytes → Bytes → Bytes → NoiseHandshake
  new_noise_handshake local_priv local_pub remote_static_pub psk =
      let start = c.hash noise_protocol_name in
      mixed_hash noise_prologue (record {
        local_static = local_priv;
        local_static_pub = local_pub;
        remote_static_pub = remote_static_pub;
        local_ephemeral = replicate 32 0;
        local_ephemeral_pub = replicate 32 0;
        psk = psk;
        chaining_key = start;
        hash = start;
        send_key = replicate 32 0;
        recv_key = replicate 32 0;
      })

  -- `CreateInitiation`; `timestamp` is what the second `rand.Read` gave.
  unfoldable pub create_initiation : Option Bytes → Option Bytes → Method Bytes
  create_initiation random timestamp = do
    remote ← reads (λ hs. hs.remote_static_pub)
    mix_hash remote
    generate_ephemeral random
    ephemeral ← reads (λ hs. hs.local_ephemeral_pub)
    mix_hash ephemeral
    es ← diffie_hellman (λ hs. hs.local_ephemeral) (λ hs. hs.remote_static_pub)
    mix_key es
    static ← reads (λ hs. hs.local_static_pub)
    sealed_static ← encrypt_and_hash static
    ss ← diffie_hellman (λ hs. hs.local_static) (λ hs. hs.remote_static_pub)
    mix_key ss
    psk ← reads (λ hs. hs.psk)
    mix_key_and_hash psk
    stamp ← or_fail timestamp no_randomness
    sealed_stamp ← encrypt_and_hash stamp
    let msg = handshake_msg_init ∷ (ephemeral ++ (sealed_static ++ sealed_stamp))
    mac ← compute_mac msg
    return (msg ++ mac)

  -- `ConsumeInitiation`.
  unfoldable pub consume_initiation : Bytes → Method (Unit {0})
  unfolding constant_time_equal
  consume_initiation msg = do
    require (not (ltb (length msg) handshake_initiation_size)) invalid_handshake
    require (get_or msg 0 0 == handshake_msg_init) invalid_handshake
    local ← reads (λ hs. hs.local_static_pub)
    mix_hash local
    let remote_ephemeral = copy (take 32 (drop 1 msg)) (replicate 32 0)
    mix_hash remote_ephemeral
    es ← diffie_hellman (λ hs. hs.local_static) (λ hs. remote_ephemeral)
    mix_key es
    static ← decrypt_and_hash (take 48 (drop 33 msg))
    modify (λ hs. record hs { remote_static_pub = copy static hs.remote_static_pub })
    ss ← diffie_hellman (λ hs. hs.local_static) (λ hs. hs.remote_static_pub)
    mix_key ss
    psk ← reads (λ hs. hs.psk)
    mix_key_and_hash psk
    stamp ← decrypt_and_hash (take 28 (drop 81 msg))
    expected ← compute_mac (take 109 msg)
    require (constant_time_equal expected (take 16 (drop 109 msg))) invalid_handshake

  -- `CreateResponse`.
  unfoldable pub create_response : Option Bytes → Method Bytes
  create_response random = do
    generate_ephemeral random
    ephemeral ← reads (λ hs. hs.local_ephemeral_pub)
    mix_hash ephemeral
    sealed ← encrypt_and_hash []
    let msg = handshake_msg_response ∷ (ephemeral ++ sealed)
    mac ← compute_mac msg
    modify (derive_transport_keys false)
    return (msg ++ mac)

  -- `ConsumeResponse`.
  unfoldable pub consume_response : Bytes → Method (Unit {0})
  unfolding constant_time_equal
  consume_response msg = do
    require (not (ltb (length msg) handshake_response_size)) invalid_handshake
    require (get_or msg 0 0 == handshake_msg_response) invalid_handshake
    let remote_ephemeral = copy (take 32 (drop 1 msg)) (replicate 32 0)
    mix_hash remote_ephemeral
    empty ← decrypt_and_hash (take 16 (drop 33 msg))
    expected ← compute_mac (take 49 msg)
    require (constant_time_equal expected (take 16 (drop 49 msg))) invalid_handshake
    modify (derive_transport_keys true)

  -- `TransportKeys`.
  abbrev pub transport_keys : NoiseHandshake → Bytes × Bytes
  transport_keys hs = (hs.send_key, hs.recv_key)

-- The comparison loop of `DeriveKeysFromPSK`.
unfoldable pub is_smaller : Bytes → Bytes → Bool
is_smaller [] ys = false
is_smaller (x ∷ xs) [] = false
is_smaller (x ∷ xs) (y ∷ ys) = if ltb x y then true else if ltb y x then false else is_smaller xs ys

-- "zerogo-psk-key-1" and "zerogo-psk-key-2".
abbrev psk_label : ℕ → Bytes
psk_label digit =
    122 ∷ 101 ∷ 114 ∷ 111 ∷ 103 ∷ 111 ∷ 45 ∷ 112 ∷ 115 ∷ 107 ∷ 45 ∷ 107 ∷ 101 ∷ 121 ∷ 45 ∷ digit
    ∷ []

module _ (c : Crypto) where
  -- `DeriveKeysFromPSK`: the send key and the receive key.
  unfoldable pub derive_keys_from_psk : Bytes → Bytes → Bytes → Bytes × Bytes
  derive_keys_from_psk psk local_pub remote_pub =
      let smaller = is_smaller local_pub remote_pub in
      let master =
        c.hash (psk ++ (if smaller then local_pub ++ remote_pub else remote_pub ++ local_pub)) in
      let k1 = hmac_blake2s c master (psk_label 49) in
      let k2 = hmac_blake2s c master (psk_label 50) in if smaller then (k1, k2) else (k2, k1)
