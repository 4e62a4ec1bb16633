-- ===== src/Vl1/Peer/Tests.antt =====
-- Inputs on which the theorems about a peer are used.
use zerogo.Base.{◌≡◌, ◌≢◌, refl, ap, none, [], ◌∷◌, Bytes, get_or, replicate, arith, ok}
use zerogo.Crypto.Toy.{toy, toy-Laws}
use zerogo.Vl1.Cipher.{new_noise_cipher}
use zerogo.Vl1.Noise.{derive_keys_from_psk}
use zerogo.Vl1.Peer.{Peer, new_peer, set_cipher, encrypt_for, decrypt_from}
use zerogo.Vl1.Peer.Activity.{psk_peers_talk}

abbrev key_a : Bytes
key_a = replicate 32 1

abbrev key_b : Bytes
key_b = replicate 32 2

abbrev psk : Bytes
psk = replicate 32 3

abbrev at_a : Peer
at_a = new_peer (1 ∷ 2 ∷ 3 ∷ 4 ∷ 5 ∷ []) key_b none

abbrev at_b : Peer
at_b = new_peer (6 ∷ 7 ∷ 8 ∷ 9 ∷ 9 ∷ []) key_a none

different_keys : key_a ≢ key_b
different_keys e = absurd (let f : 1 ≡ 2 = ap (λ m. get_or m 0 0) e in omega arith)

psk_peers_talk_example :
    let (send_a, recv_a) = derive_keys_from_psk toy psk key_a key_b in
    let (send_b, recv_b) = derive_keys_from_psk toy psk key_b key_a in
    let one = set_cipher 5 (record (new_noise_cipher send_a recv_a) { send_nonce = 3 }) at_a in
    let two = set_cipher 5 (new_noise_cipher send_b recv_b) at_b in
    (one' two' : Peer) × (msg : Bytes) × (encrypt_for toy (7 ∷ []) one ≡ (one', ok msg))
    × (decrypt_from toy msg two ≡ (two', ok (7 ∷ [])))
psk_peers_talk_example =
    psk_peers_talk toy toy-Laws psk key_a key_b (7 ∷ []) 5 3 at_a at_b refl refl different_keys
      (omega arith)
