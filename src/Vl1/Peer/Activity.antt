-- ===== src/Vl1/Peer/Activity.antt =====
-- When a peer is connected, alive, reachable by ICE and due for a keepalive (internal/vl1/peer.go).
use zerogo.Base.{
  ℕ, ◌+◌, ◌^◌, length, ◌<◌, ◌≡◌, ◌≢◌, ◌↔◌, ◌⊎◌, refl, ap, true, false, none, some, Bytes, ok, err,
  arith,
}
use zerogo.Crypto.{Crypto, Laws}
use zerogo.Vl1.Cipher.{NoiseCipher, encrypt, new_noise_cipher}
use zerogo.Vl1.Cipher.Traffic.{decrypt-encrypt}
use zerogo.Vl1.Noise.{derive_keys_from_psk}
use zerogo.Vl1.Noise.Keys.{derive_keys_from_psk_mirror}
use zerogo.Vl1.Peer.{
  Peer, as_peer_error, no_cipher, set_cipher, is_connected, is_alive, encrypt_for, decrypt_from,
  encrypt_to_for, decrypt_to_from, needs_keepalive, set_ice_conn, set_ice_state, close_ice, has_ice,
  IceState, state_connected, peer_timeout, default_keepalive_interval,
}

-- After the cipher is set the peer is connected, it is alive for less than the timeout, and what is
-- encrypted for it is what the cipher makes of it.
pub set_cipher_lem :
    (c : Crypto) (now later : ℕ) (nc : NoiseCipher) (p : Peer) (plaintext : Bytes)
    → (is_connected (set_cipher now nc p) ≡ true)
      × ((is_alive later (set_cipher now nc p) ≡ true) ↔ (later < now + peer_timeout))
      × (encrypt_for c plaintext (set_cipher now nc p)
          ≡ (set_cipher now (encrypt c plaintext nc).0 p, ok (encrypt c plaintext nc).1))
unfolding set_cipher is_connected is_alive encrypt_for
set_cipher_lem c now later nc p plaintext = (refl, ground arith, refl)

-- Without a cipher a peer is not connected, and all four methods fail and change nothing.
pub no_cipher_lem :
    (c : Crypto) (p : Peer) (input dst : Bytes)
    → p.cipher ≡ none
    → (is_connected p ≡ false)
      × (encrypt_for c input p ≡ (p, err no_cipher))
      × (decrypt_from c input p ≡ (p, err no_cipher))
      × (encrypt_to_for c dst input p ≡ (p, err no_cipher))
      × (decrypt_to_from c dst input p ≡ (p, err no_cipher))
unfolding is_connected encrypt_for decrypt_from encrypt_to_for decrypt_to_from
no_cipher_lem c p input dst e = (ground arith, rw e refl, rw e refl, rw e refl, rw e refl)

-- Two nodes with one pre-shared key and different public keys, each of which gives the other the
-- cipher of the keys that it derives: whatever the one encrypts, at any setting of its 64-bit send
-- counter, the other decrypts.
pub psk_peers_talk :
    (c : Crypto) (laws : Laws c) (psk a b plaintext : Bytes) (now n : ℕ) (at_a at_b : Peer)
    → length a ≡ 32
    → length b ≡ 32
    → a ≢ b
    → n < 2 ^ 64
    → let (send_a, recv_a) = derive_keys_from_psk c psk a b in
      let (send_b, recv_b) = derive_keys_from_psk c psk b a in
      let one = set_cipher now (record (new_noise_cipher send_a recv_a) { send_nonce = n }) at_a in
      let two = set_cipher now (new_noise_cipher send_b recv_b) at_b in
      (one' two' : Peer) × (msg : Bytes) × (encrypt_for c plaintext one ≡ (one', ok msg))
      × (decrypt_from c msg two ≡ (two', ok plaintext))
unfolding set_cipher encrypt_for decrypt_from
psk_peers_talk c laws psk a b plaintext now n at_a at_b la lb ne hn =
    let (send_a, recv_a) = derive_keys_from_psk c psk a b in
    let (send_b, recv_b) = derive_keys_from_psk c psk b a in
    let sender = record (new_noise_cipher send_a recv_a) { send_nonce = n } in
    let two = set_cipher now (new_noise_cipher send_b recv_b) at_b in
    let msg = (encrypt c plaintext sender).1 in
    let mirror = derive_keys_from_psk_mirror c psk a b la lb ne in
    let opened =
      decrypt-encrypt c laws plaintext sender (new_noise_cipher send_b recv_b) mirror.0 hn in
    (_, _, _, refl, ap (λ r. ((decrypt_from c msg two).0, as_peer_error r)) opened.1)

-- A keepalive is due exactly when the peer is connected and nothing was sent for longer than its
-- own interval, or the default one where its own is 0.
pub needs_keepalive_iff :
    (now : ℕ) (p : Peer)
    → (needs_keepalive now p ≡ true) ↔ (
        (p.state ≡ state_connected)
        × (((p.keepalive_interval ≡ 0) × (p.last_send + default_keepalive_interval < now))
            ⊎ ((p.keepalive_interval ≢ 0) × (p.last_send + p.keepalive_interval < now))))
unfolding needs_keepalive
needs_keepalive_iff now p = ground arith

-- A connection makes a peer reachable by ICE; closing it hands the connection out once, and after
-- that no setting of the state alone makes the peer reachable again.
pub close_ice_lem :
    (conn : ℕ) (state : IceState) (p : Peer)
    → (has_ice (set_ice_conn conn p) ≡ true)
      × ((close_ice (set_ice_conn conn p)).1 ≡ some conn)
      × ((close_ice (close_ice p).0).1 ≡ none)
      × (has_ice (set_ice_state state (close_ice p).0) ≡ false)
unfolding set_ice_conn close_ice has_ice set_ice_state
close_ice_lem conn state p = (refl, refl, refl, refl)
