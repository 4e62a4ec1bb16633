-- ===== src/Agent/Tests.antt =====
-- Inputs on which the theorems about the agent are used.
use zerogo.Base.{
  ◌≡◌, refl, Bool, true, false, some, none, List, [], ◌∷◌, Bytes, get, bytes_eq, replicate, copy,
  arith,
}
use zerogo.Crypto.Toy.{toy, toy-Laws}
use zerogo.Identity.{address_from_public_key}
use zerogo.Vl1.Noise.{derive_keys_from_psk}
use zerogo.Vl1.Cipher.{NoiseCipher, new_noise_cipher, noted}
use zerogo.Vl1.Peer.{Peer, new_peer, set_cipher, touch, is_connected}
use zerogo.Vl1.Manager.{PeerManager, new_peer_manager, get_peer, get_peer_by_endpoint}
use zerogo.Vl1.Manager.Soundness.{new_peer_manager-IsSound}
use zerogo.Vl2.Arp.{new_arp_proxy}
use zerogo.Vl2.Switch.{new_switch}
use zerogo.Agent.{Datagram, udp, Node, peer_at, change_peer, send_to_peer, initiate_handshake}
use zerogo.Agent.Receive.{
  Agent, at_node, deliver_frame, learn_kernel_arp, handle_udp_packet, handle_handshake,
}
use zerogo.Agent.Delivery.{frame_delivered}
use zerogo.Agent.Hello.{IsUp, handle_handshake-IsUp, initiate_handshake_restarts}

abbrev never : List Datagram → Datagram → Bool
never log d = false

abbrev pool : Bytes
pool = replicate 64 0

abbrev addr_a : Bytes
addr_a = 1 ∷ 2 ∷ 3 ∷ 4 ∷ 5 ∷ []

abbrev addr_b : Bytes
addr_b = 1 ∷ 2 ∷ 3 ∷ 4 ∷ 6 ∷ []

abbrev key : Bytes
key = replicate 32 7

-- "a" and "b".
abbrev endpoint_a : Bytes
endpoint_a = 97 ∷ []

abbrev endpoint_b : Bytes
endpoint_b = 98 ∷ []

abbrev cipher_a : NoiseCipher
cipher_a = new_noise_cipher (replicate 32 1) (replicate 32 2)

abbrev cipher_b : NoiseCipher
cipher_b = new_noise_cipher (replicate 32 2) (replicate 32 1)

-- The node of `a`, which knows `b`, and the other way round.
abbrev b_at_a : Peer
b_at_a = set_cipher 3 cipher_a (new_peer addr_b key (some endpoint_b))

abbrev a_at_b : Peer
a_at_b = set_cipher 3 cipher_b (new_peer addr_a key (some endpoint_a))

abbrev knows : Peer → Bytes → Bytes → PeerManager
knows p addr endpoint = record {
  heap = p ∷ [];
  peers = (addr, 0) ∷ [];
  endpoint_idx = (endpoint, 0) ∷ [];
}

abbrev node_of : PeerManager → Node
node_of peers = record {
  public_key = key;
  psk = replicate 32 3;
  gaming = true;
  peers = peers;
  sent = [];
}

abbrev agent_of : PeerManager → Agent
agent_of peers = record {
  node = node_of peers;
  network = some (record { switch = new_switch 77; arp = new_arp_proxy });
  device = record { is_tun = false; written = []; kernel_arp = [] };
}

abbrev node_a : Node
node_a = node_of (knows b_at_a addr_b endpoint_b)

abbrev agent_b : Agent
agent_b = agent_of (knows a_at_b addr_a endpoint_a)

abbrev frame : Bytes
frame = 9 ∷ 8 ∷ []

a_knows_b : get_peer addr_b node_a.peers ≡ some 0
unfolding get_peer get bytes_eq
a_knows_b = refl

b_knows_a : get_peer_by_endpoint endpoint_a agent_b.node.peers ≡ some 0
unfolding get_peer_by_endpoint get bytes_eq
b_knows_a = refl

b_is_connected : is_connected b_at_a ≡ true
unfolding is_connected set_cipher
b_is_connected = refl

b_has_cipher : b_at_a.cipher ≡ some cipher_a
unfolding set_cipher
b_has_cipher = refl

b_has_no_ice : b_at_a.ice_conn ≡ none
unfolding set_cipher
b_has_no_ice = refl

b_has_endpoint : b_at_a.endpoint ≡ some endpoint_b
unfolding set_cipher
b_has_endpoint = refl

a_has_cipher : a_at_b.cipher ≡ some cipher_b
unfolding set_cipher
a_has_cipher = refl

frame_delivered_example :
    let result = send_to_peer toy never pool 4 addr_b 77 frame node_a in
    (packet : Bytes) × (result.0.sent ≡ udp endpoint_b packet ∷ [])
    × (result.1 ≡ none)
    × (handle_udp_packet toy never pool 5 packet endpoint_a agent_b
        ≡ deliver_frame toy never pool 5 a_at_b.address frame
            (learn_kernel_arp toy never pool frame)
            (at_node
              (change_peer 0
                (λ _. record (touch 5 a_at_b) { cipher = some (noted toy 0 cipher_b) }))
              (at_node (change_peer 0 (touch 5)) agent_b)))
frame_delivered_example =
    frame_delivered toy toy-Laws never pool 4 5 addr_b 77 frame node_a 0 b_at_a cipher_a endpoint_b
      endpoint_a agent_b 0 a_at_b cipher_b a_knows_b refl b_is_connected b_has_cipher b_has_no_ice
      b_has_endpoint (omega arith) (omega arith) (omega arith) b_knows_a refl a_has_cipher refl

handle_handshake-IsUp_example :
    IsUp 5
      (address_from_public_key toy key)
      endpoint_a
      (handle_handshake toy never pool 5 key endpoint_a (node_of new_peer_manager))
unfolding copy
handle_handshake-IsUp_example =
    handle_handshake-IsUp toy never pool 5 key endpoint_a (node_of new_peer_manager)
      new_peer_manager-IsSound (omega arith)

initiate_handshake_restarts_example :
    let (send_key, recv_key) = derive_keys_from_psk toy (replicate 32 3) key b_at_a.public_key in
    (q : Peer) × (peer_at 0 (initiate_handshake toy never pool 5 0 node_a) ≡ some q)
    × (q.cipher ≡ some (new_noise_cipher send_key recv_key))
initiate_handshake_restarts_example =
    initiate_handshake_restarts toy never pool 5 0 node_a b_at_a refl
