-- ===== src/Vl1/Cipher/Traffic.antt =====
-- Messages between two ciphers (internal/vl1/noise.go, lines 411 to 485).
use zerogo.Base.{
  ℕ, zero, suc, ◌+◌, ◌/◌, ◌%◌, ◌^◌, ◌≤◌, ◌<◌, ◌≡◌, ◌⊎◌, refl, sym, ap, ◌∙◌, Bool-cases, false, none,
  some, Option-cases, inl, inr, List, [], ◌∷◌, ◌++◌, Bytes, length, take, drop, length-append,
  length-drop, drop-drop, take-append, drop-append, ltb, leb, ok, arith, copy, copy-append, map,
}
use mathlib.Core.List.{append_assoc}
use zerogo.Crypto.{Crypto, Laws}
use zerogo.Vl1.Cipher.{NoiseCipher, put_le, get_le, nonce_of, encrypt, decrypt, encrypt_to, noted}

length-put_le : (n v : ℕ) → length (put_le n v) ≡ n
unfolding put_le
length-put_le zero v = refl
length-put_le (suc n) v = ap suc (length-put_le n (v / 256))

get_le-put_le : (n v : ℕ) → v < 256 ^ n → get_le (put_le n v) ≡ v
unfolding get_le put_le
get_le-put_le zero v h = omega arith
get_le-put_le (suc n) v h = let rest = get_le-put_le n (v / 256) (omega arith) in omega arith

-- The counters from one on.
abbrev pub range : ℕ → ℕ → List ℕ
range start zero = []
range start (suc n) = start ∷ range (start + 1) n

-- A message is the counter's eight bytes and the sealed text.
header_cut :
    (v : ℕ) (sealed : Bytes)
    → (take 8 (put_le 8 v ++ sealed) ≡ put_le 8 v) × (drop 8 (put_le 8 v ++ sealed) ≡ sealed)
header_cut v sealed = (
  ap (λ k. take k (put_le 8 v ++ sealed)) (sym (length-put_le 8 v))
      ∙ take-append (put_le 8 v) sealed,
  ap (λ k. drop k (put_le 8 v ++ sealed)) (sym (length-put_le 8 v))
      ∙ drop-append (put_le 8 v) sealed,
)

module _ (c : Crypto) (laws : Laws c) where
  pub length-encrypt :
      (plaintext : Bytes) (nc : NoiseCipher)
      → length (encrypt c plaintext nc).1 ≡ 8 + length plaintext + 16
  unfolding encrypt
  length-encrypt plaintext nc =
      let sealed = c.seal nc.send_key (nonce_of nc.send_nonce) plaintext [] in
      omega (
        arith,
        length-append (put_le 8 nc.send_nonce) sealed,
        length-put_le 8 nc.send_nonce,
        laws.length-seal nc.send_key (nonce_of nc.send_nonce) plaintext [],
      )

  pub decrypt-encrypt :
      (plaintext : Bytes) (sender receiver : NoiseCipher)
      → sender.send_key ≡ receiver.recv_key
      → sender.send_nonce < 2 ^ 64
      → let msg = (encrypt c plaintext sender).1 in
        (length msg ≡ 8 + length plaintext + 16)
        × ((decrypt c msg receiver).1 ≡ ok plaintext)
        × ((decrypt c msg receiver).0 ≡ noted c sender.send_nonce receiver)
  unfolding encrypt decrypt
  decrypt-encrypt plaintext sender receiver hk hn =
      let counter = sender.send_nonce in
      let sealed = c.seal sender.send_key (nonce_of counter) plaintext [] in
      let size : length (put_le 8 counter ++ sealed) ≡ 8 + length plaintext + 16 = omega (
        arith,
        length-append (put_le 8 counter) sealed,
        length-put_le 8 counter,
        laws.length-seal sender.send_key (nonce_of counter) plaintext [],
      ) in
      let long : ltb (length (put_le 8 counter ++ sealed)) 24 ≡ false = ground arith in
      let (head, tail) = header_cut counter sealed in
      let opened : c.unseal receiver.recv_key (nonce_of counter) sealed [] ≡ some plaintext =
        rw (sym hk) (laws.unseal-seal sender.send_key (nonce_of counter) plaintext []) in
      let msg = put_le 8 counter ++ sealed in
      let opened_msg : c.unseal receiver.recv_key (nonce_of (get_le (take 8 msg))) (drop 8 msg) []
          ≡ some plaintext =
        rw (head, tail, get_le-put_le 8 counter hn) opened in
      (
        size,
        rw (long, opened_msg) refl,
        rw (long, opened_msg, head, get_le-put_le 8 counter hn) refl,
      )

  recv_key-decrypt : (msg : Bytes) (nc : NoiseCipher) → (decrypt c msg nc).0.recv_key ≡ nc.recv_key
  unfolding decrypt
  recv_key-decrypt msg nc = elim (Bool-cases (ltb (length msg) 24)) [
    | inl short ↦ rw short refl
    | inr long ↦
        elim (Option-cases
          (c.unseal nc.recv_key (nonce_of (get_le (take 8 msg))) (drop 8 msg) [])) [
            | inl refused ↦ rw (long, refused) refl
            | inr (m, opened) ↦ elim (Bool-cases (leb nc.recv_nonce (get_le (take 8 msg)))) [
              | inl ahead ↦ rw (long, opened, ahead) refl
              | inr behind ↦ rw (long, opened, behind) refl
            ]
          ]
  ]

  decrypt_by_key :
      (msg : Bytes) (nc nc' : NoiseCipher)
      → nc.recv_key ≡ nc'.recv_key
      → (decrypt c msg nc).1 ≡ (decrypt c msg nc').1
  unfolding decrypt
  decrypt_by_key msg nc nc' e = elim (Bool-cases (ltb (length msg) 24)) [
    | inl short ↦ rw short refl
    | inr long ↦
        elim (Option-cases
          (c.unseal nc'.recv_key (nonce_of (get_le (take 8 msg))) (drop 8 msg) [])) [
            | inl refused ↦ rw (e, long, refused) refl
            | inr (m, opened) ↦ rw (e, long, opened) refl
          ]
  ]

  -- Decrypting does not look at the receive counter: a message that was accepted once is accepted
  -- again, with the same plaintext, and so is any other message at any setting of the counter.
  pub decrypt_again :
      (msg : Bytes) (receiver : NoiseCipher) (n : ℕ)
      → ((decrypt c msg (record receiver { recv_nonce = n })).1 ≡ (decrypt c msg receiver).1)
        × ((decrypt c msg (decrypt c msg receiver).0).1 ≡ (decrypt c msg receiver).1)
  unfolding decrypt
  decrypt_again msg receiver n = (
    decrypt_by_key msg (record receiver { recv_nonce = n }) receiver refl,
    decrypt_by_key msg (decrypt c msg receiver).0 receiver (recv_key-decrypt msg receiver),
  )

  -- `EncryptTo` by the room in `dst`. With enough, it puts there what `Encrypt` returns, leaves the
  -- rest of `dst` and gives the message's length; with less, the length is the same but of the
  -- message only the counter is in `dst`; with less than eight bytes it panics, after the counter
  -- has gone on.
  pub encrypt_to-encrypt :
      (dst plaintext : Bytes) (nc : NoiseCipher)
      → let (nc', msg) = encrypt c plaintext nc in
        ((length msg ≤ length dst)
          × (encrypt_to c dst plaintext nc
              ≡ (nc', some (msg ++ drop (length msg) dst, length msg))))
        ⊎ ((8 ≤ length dst)
            × (length dst < length msg)
            × (encrypt_to c dst plaintext nc
                ≡ (nc', some (put_le 8 nc.send_nonce ++ drop 8 dst, length msg))))
        ⊎ ((length dst < 8) × (encrypt_to c dst plaintext nc ≡ (nc', none)))
  unfolding encrypt encrypt_to
  encrypt_to-encrypt dst plaintext nc =
      let head = put_le 8 nc.send_nonce in
      let sealed = c.seal nc.send_key (nonce_of nc.send_nonce) plaintext [] in
      let size : length (head ++ sealed) ≡ 8 + length sealed =
        omega (arith, length-append head sealed, length-put_le 8 nc.send_nonce) in
      let headed : 8 ≤ length dst → copy head dst ≡ head ++ drop 8 dst = λ h.
        copy-append head dst (omega (arith, length-put_le 8 nc.send_nonce))
        ∙ ap (λ k. head ++ drop k dst) (length-put_le 8 nc.send_nonce) in
      elim (Bool-cases (ltb (length dst) 8)) [
        | inl none_fits ↦ inr (inr (ground arith, rw none_fits refl))
        | inr a ↦ elim (Bool-cases (ltb (length dst) (8 + length sealed))) [
          | inl b ↦
              inr (inl (ground arith, ground arith, rw (a, b, headed (ground arith), size) refl))
          | inr b ↦
              let (first, rest) = header_cut nc.send_nonce (drop 8 dst) in
              inl (
                ground arith,
                rw
                    (
                      a,
                      b,
                      headed (ground arith),
                      first,
                      rest,
                      copy-append sealed (drop 8 dst) (ground (arith, length-drop 8 dst)),
                      drop-drop 8 (length sealed) dst,
                      size,
                      append_assoc head sealed (drop (8 + length sealed) dst),
                    )
                    refl,
              )
        ]
      ]

  -- The messages of a run of `Encrypt` on one cipher.
  abbrev pub encrypt_each : List Bytes → NoiseCipher → List Bytes
  encrypt_each [] nc = []
  encrypt_each (m ∷ ms) nc = let (nc', msg) = encrypt c m nc in msg ∷ encrypt_each ms nc'

  -- Until the counter wraps, a run of messages carries consecutive counters.
  pub encrypt-counters :
      (ms : List Bytes) (nc : NoiseCipher)
      → nc.send_nonce + length ms ≤ 2 ^ 64
      → map (λ msg. get_le (take 8 msg)) (encrypt_each ms nc) ≡ range nc.send_nonce (length ms)
  unfolding encrypt
  encrypt-counters [] nc h = refl
  encrypt-counters (m ∷ []) nc h =
      let (head, _) = header_cut nc.send_nonce (c.seal nc.send_key (nonce_of nc.send_nonce) m []) in
      rw (head, get_le-put_le 8 nc.send_nonce (omega arith)) refl
  encrypt-counters (m ∷ m' ∷ ms) nc h =
      let (head, _) = header_cut nc.send_nonce (c.seal nc.send_key (nonce_of nc.send_nonce) m []) in
      let next : (nc.send_nonce + 1) % 2 ^ 64 ≡ nc.send_nonce + 1 = omega arith in
      rw (head, get_le-put_le 8 nc.send_nonce (omega arith), next)
        (ap (◌∷◌ (nc.send_nonce))
          (encrypt-counters (m' ∷ ms) (record nc { send_nonce = nc.send_nonce + 1 }) (omega arith)))
