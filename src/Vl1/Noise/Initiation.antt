-- ===== src/Vl1/Noise/Initiation.antt =====
-- The first message of the handshake (internal/vl1/noise.go, lines 97 to 217).
use zerogo.Base.{
  ℕ, ◌+◌, ◌≡◌, some, refl, sym, ◌∙◌, ap, true, false, [], ◌∷◌, ◌++◌, Bytes, length, length-append,
  length-take, copy_full, replicate, take, drop, take-append, drop-append, drop-drop, drop-drop, ok,
  arith, ltb, copy,
}
use mathlib.Core.List.{append_assoc}
use zerogo.Crypto.{Crypto, Laws}
use zerogo.Identity.{clamp}
use zerogo.Vl1.Noise.{
  NoiseHandshake, mix_key, mix_key_and_hash, diffie_hellman, decrypt_and_hash, mixed_hash,
  new_noise_handshake, create_initiation, consume_initiation, hmac_blake2s, zero_nonce,
  handshake_initiation_size, constant_time_equal,
}
use zerogo.Vl1.Noise.Compare.{constant_time_equal_iff}
use zerogo.Vl1.Noise.Response.{generate_ephemeral_lem, length-hmac_blake2s}

take-length : (m : Bytes) → take (length m) m ≡ m
take-length [] = refl
take-length (x ∷ xs) = ap (◌∷◌ x) (take-length xs)

-- The cuts of a concatenation, at the lengths of its parts.
take-append_at : (n : ℕ) (xs ys : Bytes) → length xs ≡ n → take n (xs ++ ys) ≡ xs
take-append_at n xs ys e = ap (λ k. take k (xs ++ ys)) (sym e) ∙ take-append xs ys

drop-append_at : (n : ℕ) (xs ys : Bytes) → length xs ≡ n → drop n (xs ++ ys) ≡ ys
drop-append_at n xs ys e = ap (λ k. drop k (xs ++ ys)) (sym e) ∙ drop-append xs ys

take_all : {n : ℕ} (m : Bytes) → length m ≡ n → take n m ≡ m
take_all {n} m e = ap (λ k. take k m) (sym e) ∙ take-length m

-- The message: a key, a sealed key, a sealed timestamp and the code over them, and what the code
-- cuts from it.
message_cuts :
    (e a b m : Bytes)
    → length e ≡ 32
    → length a ≡ 48
    → length b ≡ 28
    → length m ≡ 16
    → let body = 1 ∷ (e ++ (a ++ b)) in
      let msg = body ++ m in
      (take 32 (drop 1 msg) ≡ e)
      × (take 48 (drop 33 msg) ≡ a)
      × (take 28 (drop 81 msg) ≡ b)
      × (take 109 msg ≡ body)
      × (take 16 (drop 109 msg) ≡ m)
      × (length msg ≡ 125)
message_cuts e a b m le la lb lm =
    let rest = (e ++ (a ++ b)) ++ m in
    let flat : rest ≡ e ++ (a ++ (b ++ m)) =
      append_assoc e (a ++ b) m ∙ ap (◌++◌ e) (append_assoc a b m) in
    let after_e : drop 32 rest ≡ a ++ (b ++ m) =
      ap (drop 32) flat ∙ drop-append_at 32 e (a ++ (b ++ m)) le in
    let after_a : drop 80 rest ≡ b ++ m =
      sym (drop-drop 32 48 rest) ∙ ap (drop 48) after_e ∙ drop-append_at 48 a (b ++ m) la in
    let size : length (e ++ (a ++ b)) ≡ 108 =
      omega (arith, length-append e (a ++ b), length-append a b) in
    let last : drop 108 rest ≡ m = drop-append_at 108 (e ++ (a ++ b)) m size in
    (
      ap (take 32) flat ∙ take-append_at 32 e (a ++ (b ++ m)) le,
      ap (take 48) after_e ∙ take-append_at 48 a (b ++ m) la,
      ap (take 28) after_a ∙ take-append_at 28 b m lb,
      ap (◌∷◌ 1) (take-append_at 108 (e ++ (a ++ b)) m size),
      ap (take 16) last ∙ take_all m lm,
      omega (arith, length-append (e ++ (a ++ b)) m),
    )

module _ (c : Crypto) (laws : Laws c) where
  diffie_hellman_lem :
      (private_key public_key : NoiseHandshake → Bytes) (hs : NoiseHandshake) (secret : Bytes)
      → c.x25519 (private_key hs) (public_key hs) ≡ some secret
      → diffie_hellman c private_key public_key hs ≡ (hs, ok secret)
  unfolding diffie_hellman
  diffie_hellman_lem private_key public_key hs secret e = rw e refl

  -- What was sealed under the same keys and hash is read back, and both hashes go on alike.
  decrypt_and_hash_lem :
      (plaintext : Bytes) (hs : NoiseHandshake)
      → let sealed =
          c.seal (hmac_blake2s c hs.chaining_key (3 ∷ [])) zero_nonce plaintext hs.hash in
        decrypt_and_hash c sealed hs ≡ (mixed_hash c sealed hs, ok plaintext)
  unfolding decrypt_and_hash
  decrypt_and_hash_lem plaintext hs =
      rw
        (
          laws.unseal-seal (hmac_blake2s c hs.chaining_key (3 ∷ [])) zero_nonce plaintext hs.hash,
          decrypt_and_hash,
        )
        refl

  -- The stages of the hashes, which both ends go through.
  abbrev sealed_with : Bytes → NoiseHandshake → Bytes
  sealed_with plaintext hs =
      c.seal (hmac_blake2s c hs.chaining_key (3 ∷ [])) zero_nonce plaintext hs.hash

  abbrev keyed : Bytes → Bytes → NoiseHandshake → NoiseHandshake
  keyed eph es hs = (mix_key c es (mixed_hash c eph hs)).0

  abbrev with_psk : Bytes → NoiseHandshake → NoiseHandshake
  with_psk ss hs = (mix_key_and_hash c hs.psk (mix_key c ss hs).0).0

  abbrev initiation : Bytes → NoiseHandshake → Bytes → Bytes → Bytes
  initiation eph hs a b =
      let body = 1 ∷ (eph ++ (a ++ b)) in
      body ++ take 16 (hmac_blake2s c (c.hash (hs.hash ++ b)) body)

  create_initiation_lem :
      (random eph es ss stamp : Bytes) (hs : NoiseHandshake)
      → length hs.local_ephemeral_pub ≡ length eph
      → c.x25519 (clamp random) c.basepoint ≡ some eph
      → c.x25519 (clamp random) hs.remote_static_pub ≡ some es
      → c.x25519 hs.local_static hs.remote_static_pub ≡ some ss
      → let own = record (mixed_hash c hs.remote_static_pub hs) {
        local_ephemeral = clamp random;
        local_ephemeral_pub = eph;
      } in
        let one = keyed eph es own in
        let a = sealed_with hs.local_static_pub one in
        let two = with_psk ss (mixed_hash c a one) in
        let b = sealed_with stamp two in
        create_initiation c (some random) (some stamp) hs
        ≡ (mixed_hash c b two, ok (initiation eph two a b))
  unfolding create_initiation
  create_initiation_lem random eph es ss stamp hs le he hes hss =
      let own = record (mixed_hash c hs.remote_static_pub hs) {
        local_ephemeral = clamp random;
        local_ephemeral_pub = eph;
      } in
      let one = keyed eph es own in
      rw
        (
          generate_ephemeral_lem c laws random eph (mixed_hash c hs.remote_static_pub hs) he,
          copy_full eph hs.local_ephemeral_pub le,
          diffie_hellman_lem (λ h. h.local_ephemeral) (λ h. h.remote_static_pub)
              (mixed_hash c eph own) es hes,
          diffie_hellman_lem (λ h. h.local_static) (λ h. h.remote_static_pub)
              (mixed_hash c (sealed_with hs.local_static_pub one) one) ss hss,
        )
        refl

  length-sealed_with :
      (plaintext : Bytes) (hs : NoiseHandshake) (n : ℕ)
      → length plaintext ≡ n
      → length (sealed_with plaintext hs) ≡ n + 16
  length-sealed_with plaintext hs n e =
      laws.length-seal (hmac_blake2s c hs.chaining_key (3 ∷ [])) zero_nonce plaintext hs.hash
      ∙ ap (λ k. k + 16) e

  consume_initiation_lem :
      (eph es ss static stamp : Bytes) (hs : NoiseHandshake)
      → length eph ≡ 32
      → length static ≡ 32
      → length stamp ≡ 12
      → length hs.remote_static_pub ≡ 32
      → c.x25519 hs.local_static eph ≡ some es
      → c.x25519 hs.local_static static ≡ some ss
      → let one = keyed eph es (mixed_hash c hs.local_static_pub hs) in
        let a = sealed_with static one in
        let two = with_psk ss (record (mixed_hash c a one) { remote_static_pub = static }) in
        let b = sealed_with stamp two in
        (length (initiation eph two a b) ≡ handshake_initiation_size)
        × (consume_initiation c (initiation eph two a b) hs ≡ (mixed_hash c b two, ok tt))
  unfolding consume_initiation
  consume_initiation_lem eph es ss static stamp hs le ls lt lr hes hss =
      let one = keyed eph es (mixed_hash c hs.local_static_pub hs) in
      let a = sealed_with static one in
      let two = with_psk ss (record (mixed_hash c a one) { remote_static_pub = static }) in
      let b = sealed_with stamp two in
      let end = mixed_hash c b two in
      let body = 1 ∷ (eph ++ (a ++ b)) in
      let mac = take 16 (hmac_blake2s c end.hash body) in
      let (cut_e, cut_a, cut_b, cut_body, cut_mac, size) =
        message_cuts eph a b mac le (length-sealed_with static one 32 ls)
          (length-sealed_with stamp two 12 lt)
          (omega (
            arith,
            length-take 16 (hmac_blake2s c end.hash body),
            length-hmac_blake2s c laws end.hash body,
          )) in
      let long : ltb (length (body ++ mac)) handshake_initiation_size ≡ false = ground arith in
      let same : constant_time_equal mac mac ≡ true = (constant_time_equal_iff mac mac).1 refl in
      let static_read : copy static hs.remote_static_pub ≡ static =
        copy_full static hs.remote_static_pub (omega arith) in
      let eph_read : copy eph (replicate 32 0) ≡ eph =
        copy_full eph (replicate 32 0) (omega arith) in
      (
        size,
        rw
            (
              long,
              cut_e,
              eph_read,
              diffie_hellman_lem (λ h. h.local_static) (λ h. eph)
                  (mixed_hash c eph (mixed_hash c hs.local_static_pub hs)) es hes,
              cut_a,
              decrypt_and_hash_lem static one,
              static_read,
              diffie_hellman_lem (λ h. h.local_static) (λ h. h.remote_static_pub)
                  (record (mixed_hash c a one) { remote_static_pub = static }) ss hss,
              cut_b,
              decrypt_and_hash_lem stamp two,
              cut_body,
              cut_mac,
              same,
            )
            refl,
      )

  -- An initiation that is sent with the responder's public key is accepted by that responder, who
  -- then knows the initiator's static key, and both ends hold the same chaining key and hash. The
  -- exchanges of keys succeed, and both ends have the same pre-shared key.
  pub create_initiation-consume_initiation :
      (i ipub s spub random eph es ss stamp psk unknown : Bytes)
      → c.x25519 i c.basepoint ≡ some ipub
      → c.x25519 s c.basepoint ≡ some spub
      → c.x25519 (clamp random) c.basepoint ≡ some eph
      → c.x25519 (clamp random) spub ≡ some es
      → c.x25519 i spub ≡ some ss
      → length stamp ≡ 12
      → length unknown ≡ 32
      → let sent =
          create_initiation c (some random) (some stamp) (new_noise_handshake c i ipub spub psk) in
        (msg : Bytes) × (sent.1 ≡ ok msg)
        × (length msg ≡ handshake_initiation_size)
        × let received = consume_initiation c msg (new_noise_handshake c s spub unknown psk) in
          (received.1 ≡ ok tt)
          × (received.0.remote_static_pub ≡ ipub)
          × (received.0.chaining_key ≡ sent.0.chaining_key)
          × (received.0.hash ≡ sent.0.hash)
  unfolding new_noise_handshake
  create_initiation-consume_initiation i ipub s spub random eph es ss stamp psk unknown hi hs he hes
        hss lt lu =
      let initiator = new_noise_handshake c i ipub spub psk in
      let responder = new_noise_handshake c s spub unknown psk in
      let le = laws.length-x25519 (clamp random) c.basepoint eph he in
      let sent = create_initiation_lem random eph es ss stamp initiator (sym le) he hes hss in
      let (size, received) =
        consume_initiation_lem eph es ss ipub stamp responder le
          (laws.length-x25519 i c.basepoint ipub hi) lt lu
          (sym (laws.x25519_comm (clamp random) s eph spub he hs) ∙ hes)
          (sym (laws.x25519_comm i s ipub spub hi hs) ∙ hss) in
      (
        _,
        ap (λ r. r.1) sent,
        size,
        (
          ap (λ r. r.1) received,
          ap (λ r. r.0.remote_static_pub) received,
          ap (λ r. r.0.chaining_key) received ∙ sym (ap (λ r. r.0.chaining_key) sent),
          ap (λ r. r.0.hash) received ∙ sym (ap (λ r. r.0.hash) sent),
        ),
      )
