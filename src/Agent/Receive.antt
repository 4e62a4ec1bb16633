-- ===== src/Agent/Receive.antt =====
-- internal/agent/agent.go, lines 303 to 328, 459 to 581 and 737 to 792: what the agent does with a
-- packet from the network. The device is there, and is a log of what was written to it.
use zerogo.Base.{
  ℕ, Bool, true, false, not, ◌&&◌, Option, none, some, List, [], ◌∷◌, Bytes, length, take, drop,
  replicate, copy, ltb, ◌==◌, if◌then◌else◌, Result, ok, err,
}
use zerogo.Crypto.{Crypto}
use zerogo.Identity.{address_from_public_key}
use zerogo.Vl1.Packet.{
  Packet, PacketError, decode_packet_into, packet_type_handshake, packet_type_data,
  packet_type_keepalive,
}
use zerogo.Vl1.Peer.{
  Peer, PeerError, touch, is_connected, decrypt_to_from, gaming_keepalive_interval,
}
use zerogo.Vl1.Manager.{Ref, get_peer, get_peer_by_endpoint, update_peer_endpoint, add_peer}
use zerogo.Vl2.Frame.{EthernetFrame, FrameError, parse_ethernet_frame, is_arp}
use zerogo.Vl2.Switch.{Switch, SwitchError, handle_remote_frame, handle_local_frame}
use zerogo.Vl2.Arp.{ArpCache, handle_arp}
use zerogo.Agent.{Datagram, Node, peer_at, change_peer, send_hello, connect, agent_sender}

-- `vl2.Network`: the switch and the ARP proxy.
pub record Network : Type 0 where
  pub switch : Switch
  pub arp : ArpCache

-- The TAP or TUN device: what was written, and the entries put into the kernel's ARP table.
pub record Device : Type 0 where
  pub is_tun : Bool
  pub written : List Bytes
  pub kernel_arp : List (Bytes × Bytes)

pub record Agent : Type 0 where
  pub node : Node
  pub network : Option Network
  pub device : Device

abbrev pub at_node : (Node → Node) → Agent → Agent
at_node f a = record a { node = f a.node }

abbrev pub write_device : Bytes → Agent → Agent
write_device frame a = record a { device = record a.device { written = frame ∷ a.device.written } }

-- `SetPeerARP`.
abbrev pub set_peer_arp : Bytes → Bytes → Agent → Agent
set_peer_arp ip mac a = record a {
  device = record a.device { kernel_arp = (ip, mac) ∷ a.device.kernel_arp };
}

-- `var pkt vl1.Packet`.
abbrev pub zero_packet : Packet
zero_packet = record {
  header = record { version = 0; packet_type = 0; network_id = 0; reserved = 0 };
  payload = [];
}

abbrev pub set_keepalive : Bool → Peer → Peer
set_keepalive true p = record p { keepalive_interval = gaming_keepalive_interval }
set_keepalive false p = p

module _ (c : Crypto) (fails : List Datagram → Datagram → Bool) (pool : Bytes) where
  abbrev pub connect_if_down : ℕ → Bytes → Ref → Option Peer → Node → Node
  connect_if_down now key r none node = node
  connect_if_down now key r (some p) node =
      if is_connected p then node else connect c fails pool now r key node

  -- The hello of a known peer: its endpoint and time are new, and it gets a cipher if it is not
  -- connected.
  unfoldable pub known_hello : ℕ → Bytes → Bytes → Bytes → Ref → Node → Node
  known_hello now key addr from r node =
      let moved =
        change_peer r (touch now)
          (record node { peers = update_peer_endpoint addr (some from) node.peers }) in
      connect_if_down now key r (peer_at r moved) moved

  -- The hello of an unknown peer: it is added, connected, and answered with a hello.
  unfoldable pub new_hello : ℕ → Bytes → Bytes → Bytes → Node → Node
  new_hello now key addr from node =
      let (peers, r) = add_peer addr key (some from) node.peers in
      let added = change_peer r (set_keepalive node.gaming) (record node { peers = peers }) in
      send_hello c fails pool now r (connect c fails pool now r key added)

  abbrev pub hello_of : ℕ → Bytes → Bytes → Bytes → Option Ref → Node → Node
  hello_of now key addr from none node = new_hello now key addr from node
  hello_of now key addr from (some r) node = known_hello now key addr from r node

  -- `handleHandshake`.
  unfoldable pub handle_handshake : ℕ → Bytes → Bytes → Node → Node
  handle_handshake now payload from node =
      if ltb (length payload) 32
      then node
      else let key = copy (take 32 payload) (replicate 32 0) in
        let addr = address_from_public_key c key in
        hello_of now key addr from (get_peer addr node.peers) node

  -- The reply to an ARP frame that was not put into a TUN device goes through the switch.
  abbrev pub answer_arp : ℕ → Option Bytes → Network → Agent → Agent
  answer_arp now none net a = record a { network = some net }
  answer_arp now (some reply) net a =
      let (sw, node, e) =
        handle_local_frame (agent_sender c fails pool now) now reply net.switch a.node in
      record a { node = node; network = some (record net { switch = sw }) }

  abbrev pub inject_tun : ℕ → Bytes → Result FrameError EthernetFrame → Network → Agent → Agent
  inject_tun now frame (err _) net a = write_device frame a
  inject_tun now frame (ok parsed) net a =
      if is_arp parsed
      then (let (arp, reply) = handle_arp now parsed net.arp in
          answer_arp now reply (record net { arp = arp }) a)
      else write_device frame a

  abbrev pub inject_into : ℕ → Bytes → Option Network → Agent → Agent
  inject_into now frame none a = a
  inject_into now frame (some net) a =
      if a.device.is_tun
      then inject_tun now frame (parse_ethernet_frame frame) net a
      else write_device frame a

  -- `injectFrame`. A TUN device takes no ARP frames: they are answered through the switch.
  unfoldable pub inject_frame : ℕ → Bytes → Agent → Agent
  inject_frame now frame a = inject_into now frame a.network a

  -- What the switch says to do with a frame: nothing on an error, else `before` and the injection.
  abbrev pub follow : ℕ → (Agent → Agent) → Option SwitchError → Option Bytes → Agent → Agent
  follow now before (some e) inject a = a
  follow now before none none a = before a
  follow now before none (some frame) a = inject_frame now frame (before a)

  abbrev pub deliver_into : ℕ → Bytes → Bytes → (Agent → Agent) → Option Network → Agent → Agent
  deliver_into now addr plaintext before none a = a
  deliver_into now addr plaintext before (some net) a =
      let (sw, node, inject, e) =
        handle_remote_frame (agent_sender c fails pool now) now addr plaintext net.switch a.node in
      follow now before e inject
        (record a { node = node; network = some (record net { switch = sw }) })

  -- A frame that was decrypted, given the peer's address, goes through the switch.
  unfoldable pub deliver_frame : ℕ → Bytes → Bytes → (Agent → Agent) → Agent → Agent
  deliver_frame now addr plaintext before a = deliver_into now addr plaintext before a.network a

  -- The entry of the kernel's ARP table that a data packet gives: the addresses at their places in
  -- an IPv4 frame, whatever the frame's type is.
  abbrev pub learn_kernel_arp : Bytes → Agent → Agent
  learn_kernel_arp plaintext a =
      if ltb (length plaintext) 34
      then a
      else set_peer_arp (take 4 (drop 26 plaintext)) (take 6 (drop 6 plaintext)) a

  abbrev pub deliver_decrypted :
      ℕ → Bytes → (Bytes → Agent → Agent) → Result PeerError (Bytes × Bytes) → Agent → Agent
  deliver_decrypted now addr before (err _) a = a
  deliver_decrypted now addr before (ok (plaintext, _)) a =
      deliver_frame now addr plaintext (before plaintext) a

  abbrev pub receive_from : ℕ → Ref → Bytes → (Bytes → Agent → Agent) → Option Peer → Agent → Agent
  receive_from now r payload before none a = a
  receive_from now r payload before (some p) a =
      let (p', result) = decrypt_to_from c pool payload p in
      deliver_decrypted now p'.address before result (at_node (change_peer r (λ _. p')) a)

  -- `DecryptTo` into the pool's buffer, and what follows.
  unfoldable pub receive_data : ℕ → Ref → Bytes → (Bytes → Agent → Agent) → Agent → Agent
  receive_data now r payload before a = receive_from now r payload before (peer_at r a.node) a

  abbrev pub data_from : ℕ → Packet → Option Ref → Agent → Agent
  data_from now pkt none a = a
  data_from now pkt (some r) a =
      receive_data now r pkt.payload learn_kernel_arp (at_node (change_peer r (touch now)) a)

  -- `handleDataPacket`.
  unfoldable pub handle_data_packet : ℕ → Packet → Bytes → Agent → Agent
  handle_data_packet now pkt from a = data_from now pkt (get_peer_by_endpoint from a.node.peers) a

  abbrev pub keepalive_from : ℕ → Option Ref → Node → Node
  keepalive_from now none node = node
  keepalive_from now (some r) node = change_peer r (touch now) node

  abbrev pub udp_packet : ℕ → Packet → Bytes → Option PacketError → Agent → Agent
  udp_packet now pkt from (some _) a = a
  udp_packet now pkt from none a =
      if pkt.header.packet_type == packet_type_handshake
      then at_node (handle_handshake now pkt.payload from) a
      else if pkt.header.packet_type == packet_type_data
      then handle_data_packet now pkt from a
      else if pkt.header.packet_type == packet_type_keepalive
      then at_node (keepalive_from now (get_peer_by_endpoint from a.node.peers)) a
      else a

  -- `handleUDPPacket`.
  unfoldable pub handle_udp_packet : ℕ → Bytes → Bytes → Agent → Agent
  handle_udp_packet now input from a =
      let (pkt, e) = decode_packet_into zero_packet input in udp_packet now pkt from e a

  abbrev pub ice_hello : ℕ → Bytes → Ref → Option Peer → Node → Node
  ice_hello now payload r none node = node
  ice_hello now payload r (some p) node =
      if not (ltb (length payload) 32) && not (is_connected p)
      then connect c fails pool now r (copy (take 32 payload) (replicate 32 0)) node
      else node

  abbrev pub ice_packet : ℕ → Packet → Ref → Option PacketError → Agent → Agent
  ice_packet now pkt r (some _) a = a
  ice_packet now pkt r none a =
      let touched = at_node (change_peer r (touch now)) a in
      if pkt.header.packet_type == packet_type_handshake
      then at_node (ice_hello now pkt.payload r (peer_at r touched.node)) touched
      else if pkt.header.packet_type == packet_type_data
      then receive_data now r pkt.payload (λ _ a'. a') touched
      else touched

  -- `handleICEPacket`.
  unfoldable pub handle_ice_packet : ℕ → Bytes → Ref → Agent → Agent
  handle_ice_packet now input r a =
      let (pkt, e) = decode_packet_into zero_packet input in ice_packet now pkt r e a
