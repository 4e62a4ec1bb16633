-- ===== src/Agent.antt =====
-- internal/agent/agent.go, lines 583 to 622 and 794 to 871: the agent as the sender of its switch,
-- and its hello messages. What it writes to a socket or to an ICE connection is kept in a log, the
-- latest first; `fails` says whether a write fails, given what was written before. `pool` is the
-- buffer that the packet pool gives, with what an earlier user left in it.
pub mod Receive
pub mod Tap
pub mod Maintenance
pub mod Delivery
pub mod Broadcast
pub mod Hello
pub mod Client
pub mod Start
pub mod Wellformed
mod Tests
use zerogo.Base.{
  ℕ, ◌+◌, Bool, true, false, not, Option, none, some, List, [], ◌∷◌, ◌++◌, Bytes, length, take,
  drop, get_elem?, modify, bytes_eq, ltb, if◌then◌else◌, Result, ok, err,
}
use zerogo.Crypto.{Crypto}
use zerogo.Vl1.Packet.{
  Header, header_size, protocol_version, packet_type_data, encode_header, encode_packet,
  new_handshake_packet,
}
use zerogo.Vl1.Noise.{derive_keys_from_psk}
use zerogo.Vl1.Cipher.{new_noise_cipher}
use zerogo.Vl1.Peer.{Peer, set_cipher, is_connected, encrypt_to_for}
use zerogo.Vl1.Manager.{Ref, PeerManager, get_peer, connected_peers}
use zerogo.Vl2.Sender.{
  SendError, PeerSender, unknown_peer, peer_not_connected, no_cipher, no_path, write_failed,
  out_of_range,
}

-- What is written: to an endpoint by UDP, or to a connection.
pub data Datagram : Type 0 where
  udp : Bytes → Bytes → Datagram
  ice : ℕ → Bytes → Datagram

-- The part of an `Agent` that sends: its key pair's public key, its settings, its peers.
pub record Node : Type 0 where
  pub public_key : Bytes
  pub psk : Bytes
  pub gaming : Bool
  pub peers : PeerManager
  pub sent : List Datagram

abbrev pub peer_at : Ref → Node → Option Peer
peer_at r node = get_elem? node.peers.heap r

-- A change of one peer through its pointer.
abbrev pub change_peer : Ref → (Peer → Peer) → Node → Node
change_peer r f node = record node {
  peers = record node.peers { heap = modify r f node.peers.heap };
}

-- `iceConn` if there is one, else the endpoint.
abbrev pub path_to : Peer → Bytes → Option Datagram
path_to p packet = elim (p.ice_conn) [
  | some conn ↦ some (ice conn packet)
  | none ↦ elim (p.endpoint) [ none ↦ none | some e ↦ some (udp e packet) ]
]

abbrev pub sent_at : ℕ → Peer → Peer
sent_at now p = record p { last_send = now }

abbrev pub write : Datagram → Node → Node
write d node = record node { sent = d ∷ node.sent }

abbrev pub data_header : ℕ → Header
data_header network_id = record {
  version = protocol_version;
  packet_type = packet_type_data;
  network_id = network_id;
  reserved = 0;
}

module _ (c : Crypto) (pool : Bytes) where
  -- The header and the encrypted frame in the pool's buffer: the peer, whose counter has gone on,
  -- and the part of the buffer that is sent.
  unfoldable pub data_packet : ℕ → Bytes → Peer → Peer × Result SendError Bytes
  data_packet network_id frame p =
      elim (encode_header (data_header network_id) (take header_size pool)) [
        | none ↦ (p, err out_of_range)
        | some header ↦
            let (p', r) = encrypt_to_for c (drop header_size pool) frame p in
            (
              p',
              elim r [
                | err _ ↦ err no_cipher
                | ok none ↦ err out_of_range
                | ok (some (dst, n)) ↦
                    if ltb (length pool) (header_size + n)
                    then err out_of_range
                    else ok (take (header_size + n) (header ++ dst))
              ],
            )
      ]

module _ (c : Crypto) (fails : List Datagram → Datagram → Bool) (pool : Bytes) where
  -- The end of `SendToPeer`; a write that fails is an attempt all the same.
  abbrev pub deliver : ℕ → Ref → Option Datagram → Node → Node × Option SendError
  deliver now r none node = (node, some no_path)
  deliver now r (some d) node = (
    change_peer r (sent_at now) (write d node),
    if fails node.sent d then some write_failed else none,
  )

  unfoldable pub send_packet :
      ℕ → Ref → Peer × Result SendError Bytes → Node → Node × Option SendError
  send_packet now r (p, err e) node = (change_peer r (λ _. p) node, some e)
  send_packet now r (p, ok packet) node =
      deliver now r (path_to p packet) (change_peer r (λ _. p) node)

  -- `SendToPeer`.
  unfoldable pub send_to_peer : ℕ → Bytes → ℕ → Bytes → Node → Node × Option SendError
  send_to_peer now addr network_id frame node = elim (get_peer addr node.peers) [
    | none ↦ (node, some unknown_peer)
    | some r ↦ elim (peer_at r node) [
      | none ↦ (node, some unknown_peer)
      | some p ↦
          if is_connected p
          then send_packet now r (data_packet c pool network_id frame p) node
          else (node, some peer_not_connected)
    ]
  ]

  abbrev pub post : Option Datagram → Node → Node
  post none node = node
  post (some d) node = write d node

  -- One peer of `BroadcastToPeers`; errors are logged only, and `LastSend` stays.
  abbrev pub offer : Ref → Peer × Result SendError Bytes → Node → Node
  offer r (p, err e) node = change_peer r (λ _. p) node
  offer r (p, ok packet) node = post (path_to p packet) (change_peer r (λ _. p) node)

  abbrev pub offer_unless : ℕ → Bytes → Bytes → Ref → Option Peer → Node → Node
  offer_unless network_id frame exclude r none node = node
  offer_unless network_id frame exclude r (some p) node =
      if bytes_eq p.address exclude
      then node
      else offer r (data_packet c pool network_id frame p) node

  unfoldable pub broadcast_each : ℕ → Bytes → Bytes → List Ref → Node → Node
  broadcast_each network_id frame exclude [] node = node
  broadcast_each network_id frame exclude (r ∷ rs) node =
      broadcast_each network_id frame exclude rs
        (offer_unless network_id frame exclude r (peer_at r node) node)

  -- `BroadcastToPeers`.
  unfoldable pub broadcast_to_peers : ℕ → Bytes → Bytes → Node → Node × Option SendError
  broadcast_to_peers network_id frame exclude node =
      (broadcast_each network_id frame exclude (connected_peers node.peers) node, none)

  -- The agent as the sender of its switch.
  abbrev pub agent_sender : ℕ → PeerSender Node
  agent_sender now = record {
    send_to_peer = send_to_peer now;
    broadcast_to_peers = broadcast_to_peers;
  }

  -- The hello and where it goes.
  abbrev pub hello_datagram : Bytes → Option Peer → Option Datagram
  hello_datagram public_key none = none
  hello_datagram public_key (some p) = elim (encode_packet (new_handshake_packet public_key)) [
    | none ↦ none
    | some packet ↦ path_to p packet
  ]

  abbrev pub post_hello : ℕ → Ref → Option Datagram → Node → Node
  post_hello now r none node = node
  post_hello now r (some d) node =
      if fails node.sent d then write d node else change_peer r (sent_at now) (write d node)

  -- `sendHello`: `LastSend` is set only after a write that succeeds.
  unfoldable pub send_hello : ℕ → Ref → Node → Node
  send_hello now r node = post_hello now r (hello_datagram node.public_key (peer_at r node)) node

  -- The keys from the pre-shared key, and a new cipher of them for the peer.
  abbrev pub connect : ℕ → Ref → Bytes → Node → Node
  connect now r remote_key node =
      let (send_key, recv_key) = derive_keys_from_psk c node.psk node.public_key remote_key in
      change_peer r (set_cipher now (new_noise_cipher send_key recv_key)) node

  abbrev pub initiate_with : ℕ → Ref → Option Peer → Node → Node
  initiate_with now r none node = node
  initiate_with now r (some p) node = send_hello now r (connect now r p.public_key node)

  -- `initiateHandshake`.
  unfoldable pub initiate_handshake : ℕ → Ref → Node → Node
  initiate_handshake now r node = initiate_with now r (peer_at r node) node
