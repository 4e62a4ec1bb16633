-- ===== src/Vl1/Cipher.antt =====
-- internal/vl1/noise.go, lines 380 to 485: the cipher of a connection. A method takes the cipher's
-- counters and returns them beside its result. Go's atomic `Add` and the receive lock make each
-- method one step.
pub mod Traffic
mod Tests
use zerogo.Base.{
  ℕ, zero, suc, ◌+◌, ◌*◌, ◌-◌, ◌/◌, ◌%◌, ◌^◌, ◌≤◌, Bool, Option, none, some, List, [], ◌∷◌, ◌++◌,
  Bytes, length, take, drop, replicate, copy, ltb, leb, if◌then◌else◌, Result, ok, err,
}
use zerogo.Crypto.{Crypto}

abbrev pub noise_tag_size : ℕ
noise_tag_size = 16

pub data CipherError : Type 0 where
  ciphertext_too_short decrypt_failed : CipherError

-- The keys and the ciphers that are made of them are one.
pub record NoiseCipher : Type 0 where
  pub send_key : Bytes
  pub recv_key : Bytes
  pub send_nonce : ℕ
  pub recv_nonce : ℕ

abbrev pub new_noise_cipher : Bytes → Bytes → NoiseCipher
new_noise_cipher send_key recv_key = record {
  send_key = send_key;
  recv_key = recv_key;
  send_nonce = 0;
  recv_nonce = 0;
}

-- `binary.LittleEndian.PutUint64` and `Uint64`, by the number of bytes.
unfoldable pub put_le : ℕ → ℕ → Bytes
put_le zero v = []
put_le (suc n) v = v % 256 ∷ put_le n (v / 256)

unfoldable pub get_le : Bytes → ℕ
get_le [] = 0
get_le (x ∷ xs) = x + 256 * get_le xs

-- The nonce of a counter: the counter after four zero bytes.
abbrev pub nonce_of : ℕ → Bytes
nonce_of counter = replicate 4 0 ++ put_le 8 counter

module _ (c : Crypto) where
  -- `Encrypt`; the sum of the counter wraps.
  unfoldable pub encrypt : Bytes → NoiseCipher → NoiseCipher × Bytes
  encrypt plaintext nc =
      let counter = nc.send_nonce in
      (
        record nc { send_nonce = (counter + 1) % 2 ^ 64 },
        put_le 8 counter ++ c.seal nc.send_key (nonce_of counter) plaintext [],
      )

  -- The update of the receive counter; its sum wraps.
  abbrev pub noted : ℕ → NoiseCipher → NoiseCipher
  noted counter nc =
      if leb nc.recv_nonce counter then record nc { recv_nonce = (counter + 1) % 2 ^ 64 } else nc

  -- `Decrypt`.
  unfoldable pub decrypt : Bytes → NoiseCipher → NoiseCipher × Result CipherError Bytes
  decrypt input nc =
      if ltb (length input) (8 + noise_tag_size)
      then (nc, err ciphertext_too_short)
      else let counter = get_le (take 8 input) in
        elim (c.unseal nc.recv_key (nonce_of counter) (drop 8 input) []) [
          | none ↦ (nc, err decrypt_failed)
          | some plaintext ↦ (noted counter nc, ok plaintext)
        ]

  -- `EncryptTo`, for a `dst` with no capacity behind its length: `dst` afterwards and the number of
  -- bytes, or none where `dst[:8]` is out of range. A `Seal` that finds no room writes elsewhere.
  unfoldable pub encrypt_to : Bytes → Bytes → NoiseCipher → NoiseCipher × Option (Bytes × ℕ)
  encrypt_to dst plaintext nc =
      let counter = nc.send_nonce in
      let nc' = record nc { send_nonce = (counter + 1) % 2 ^ 64 } in
      let sealed = c.seal nc.send_key (nonce_of counter) plaintext [] in
      let headed = copy (put_le 8 counter) dst in
      if ltb (length dst) 8
      then (nc', none)
      else if ltb (length dst) (8 + length sealed)
      then (nc', some (headed, 8 + length sealed))
      else (nc', some (take 8 headed ++ copy sealed (drop 8 headed), 8 + length sealed))

  -- `DecryptTo`: the plaintext, and `dst` afterwards, which has it where it fits.
  unfoldable pub decrypt_to :
      Bytes → Bytes → NoiseCipher → NoiseCipher × Result CipherError (Bytes × Bytes)
  decrypt_to dst input nc =
      if ltb (length input) (8 + noise_tag_size)
      then (nc, err ciphertext_too_short)
      else let counter = get_le (take 8 input) in
        elim (c.unseal nc.recv_key (nonce_of counter) (drop 8 input) []) [
          | none ↦ (nc, err decrypt_failed)
          | some plaintext ↦ (
            noted counter nc,
            ok (plaintext, if leb (length plaintext) (length dst) then copy plaintext dst else dst),
          )
        ]
