-- ===== src/Vl1/Noise/Response.antt =====
-- The second message of the handshake (internal/vl1/noise.go, lines 34 and 218 to 284).
use zerogo.Base.{
  ◌≤◌, ◌<◌, ◌≡◌, some, refl, true, [], ◌∷◌, ◌++◌, Bytes, length, length-append, length-take,
  length-copy, ok, err, arith, Bool-cases, leb, ltb, inl, inr, copy, take,
}
use zerogo.Crypto.{Crypto, Laws}
use zerogo.Identity.{clamp}
use zerogo.Vl1.Noise.{
  NoiseHandshake, generate_ephemeral, create_response, consume_response, handshake_response_size,
  zero_nonce, invalid_handshake, hmac_blake2s,
}

module _ (c : Crypto) (laws : Laws c) where
  pub length-hmac_blake2s : (key input : Bytes) → length (hmac_blake2s c key input) ≡ 32
  unfolding hmac_blake2s
  length-hmac_blake2s key input = elim (Bool-cases (leb (length key) 32)) [
    | inl short ↦ let (d, e, l) = laws.length-keyed_hash key input (ground arith) in rw (short, e) l
    | inr long ↦
        let short : length (c.hash key) ≤ 32 = omega (arith, laws.length-hash key) in
        let (d, e, l) = laws.length-keyed_hash (c.hash key) input short in rw (long, e) l
  ]

  pub generate_ephemeral_lem :
      (random point : Bytes) (hs : NoiseHandshake)
      → c.x25519 (clamp random) c.basepoint ≡ some point
      → generate_ephemeral c (some random) hs ≡ (
        record hs {
          local_ephemeral = clamp random;
          local_ephemeral_pub = copy point hs.local_ephemeral_pub;
        },
        ok tt,
      )
  unfolding generate_ephemeral
  generate_ephemeral_lem random point hs e = rw e refl

  consume_response_short :
      (msg : Bytes) (peer : NoiseHandshake)
      → length msg < handshake_response_size
      → consume_response c msg peer ≡ (peer, err invalid_handshake)
  unfolding consume_response
  consume_response_short msg peer h =
      let short : ltb (length msg) handshake_response_size ≡ true = ground arith in rw short refl

  -- A responder whose key generation succeeds sends a message of 65 bytes, and the initiator, which
  -- asks for 97, refuses every one of them, whatever its state.
  pub create_response_refused :
      (random point : Bytes) (hs peer : NoiseHandshake)
      → length hs.local_ephemeral_pub ≡ 32
      → c.x25519 (clamp random) c.basepoint ≡ some point
      → (msg : Bytes) × ((create_response c (some random) hs).1 ≡ ok msg)
        × (length msg ≡ 65)
        × (consume_response c msg peer ≡ (peer, err invalid_handshake))
  unfolding create_response
  create_response_refused random point hs peer l e =
      let eph = copy point hs.local_ephemeral_pub in
      let h = c.hash (hs.hash ++ eph) in
      let sealed = c.seal (hmac_blake2s c hs.chaining_key (3 ∷ [])) zero_nonce [] h in
      let body = 2 ∷ (eph ++ sealed) in
      let mac = take 16 (hmac_blake2s c (c.hash (h ++ sealed)) body) in
      let size : length (body ++ mac) ≡ 65 = ground (
        arith,
        length-append body mac,
        length-append eph sealed,
        length-copy point hs.local_ephemeral_pub,
        laws.length-seal (hmac_blake2s c hs.chaining_key (3 ∷ [])) zero_nonce [] h,
        length-take 16 (hmac_blake2s c (c.hash (h ++ sealed)) body),
        length-hmac_blake2s (c.hash (h ++ sealed)) body,
      ) in
      (
        body ++ mac,
        rw (generate_ephemeral_lem random point hs e) refl,
        size,
        consume_response_short (body ++ mac) peer (omega arith),
      )
