-- ===== src/Agent/Client.antt =====
-- internal/agent/controller.go: what the agent does with the controller's messages, and how long it
-- waits between its attempts to connect. `resolve` stands for `net.ResolveUDPAddr`, none where it
-- fails or gives no address; `tap` says whether the device can be created. What the device is told,
-- whose errors are only logged, is kept in fields.
pub mod Backoff
pub mod Peers
pub mod Configuration
pub mod Runs
use zerogo.Base.{
  ℕ, ◌*◌, ltb, Bool, true, false, Option, none, some, List, [], ◌∷◌, Bytes, length, replicate, copy,
  get_elem?, sscanf_uint, format_uint, ◌==◌, if◌then◌else◌, Result, ok, err,
}
use zerogo.Crypto.{Crypto}
use zerogo.Identity.{
  decode_string, address_from_hex, address_from_public_key, AddressError, Identity,
  address_to_string, encode_to_string,
}
use zerogo.Protocol.{
  PeerInfo, NetworkConfig, PeerAction, add_action, remove_action, other_action, ControllerMessage,
  network_config, peer_update, error, PeerStatus, JoinMessage, JoinMessage,
}
use zerogo.Protocol.Cidr.{parse_cidr}
use zerogo.Vl1.Noise.{derive_keys_from_psk}
use zerogo.Vl1.Cipher.{new_noise_cipher}
use zerogo.Vl1.Peer.{Peer, set_cipher, is_connected}
use zerogo.Vl1.Manager.{Ref, PeerManager, get_peer, add_peer, remove_peer, peer_is, connected_peers}
use zerogo.Vl2.Mac.{generate_mac}
use zerogo.Vl2.Switch.{new_switch}
use zerogo.Vl2.Arp.{new_arp_proxy}
use zerogo.Agent.{Datagram, Node, peer_at, change_peer, send_hello}
use zerogo.Agent.Receive.{Agent, Network, at_node}

-- The agent with the settings and the device that a configuration changes.
pub record Client : Type 0 where
  pub agent : Agent
  pub address : Bytes
  pub network_id : ℕ
  pub tap_mtu : ℕ
  pub has_device : Bool
  pub mac : Option Bytes
  pub ip : Option (Bytes × ℕ)

-- Seconds.
abbrev pub reconnect_delay : ℕ
reconnect_delay = 5

abbrev pub max_reconnect_delay : ℕ
max_reconnect_delay = 60

pub data Attempt : Type 0 where
  failed connected : Attempt

-- The wait after an attempt, in `Run`: after a failure it is doubled up to its bound, and a
-- connection sets it back.
unfoldable pub next_delay : Attempt → ℕ → ℕ
next_delay failed delay =
    if ltb max_reconnect_delay (delay * 2) then max_reconnect_delay else delay * 2
next_delay connected delay = reconnect_delay

unfoldable pub delay_after : List Attempt → ℕ → ℕ
delay_after [] delay = delay
delay_after (a ∷ rest) delay = delay_after rest (next_delay a delay)

-- The networks that are asked for: the configured ones, or else the one of the configured id.
abbrev pub networks_to_join : List Bytes → ℕ → List Bytes
networks_to_join [] id = if ltb 0 id then format_uint id ∷ [] else []
networks_to_join (n ∷ ns) id = n ∷ ns

-- The message of `connect`: `port` is the transport's. "linux" and "0.1.0" are constants there.
unfoldable pub join_message : Identity → List Bytes → ℕ → ℕ → JoinMessage
join_message identity networks id port = record {
  node_addr = address_to_string identity.address;
  public_key = encode_to_string identity.public_key;
  networks = networks_to_join networks id;
  endpoints = (58 ∷ format_uint port) ∷ [];
  platform = 108 ∷ 105 ∷ 110 ∷ 117 ∷ 120 ∷ [];
  version = 48 ∷ 46 ∷ 49 ∷ 46 ∷ 48 ∷ [];
}

-- "direct".
abbrev pub direct_path : Bytes
direct_path = 100 ∷ 105 ∷ 114 ∷ 101 ∷ 99 ∷ 116 ∷ []

abbrev pub status_of : Option Peer → List PeerStatus → List PeerStatus
status_of none rest = rest
status_of (some p) rest =
    record { address = address_to_string p.address; latency_ms = p.latency_ms; path = direct_path }
    ∷ rest

unfoldable pub peer_statuses : Node → List Ref → List PeerStatus
peer_statuses node [] = []
peer_statuses node (r ∷ rs) = status_of (peer_at r node) (peer_statuses node rs)

-- `SendStatus`: the message, none without a connection.
unfoldable pub send_status : Bool → Node → Option (List PeerStatus)
send_status false node = none
send_status true node = some (peer_statuses node (connected_peers node.peers))

-- A key of 32 bytes from its text.
abbrev pub key_of_decoded : Option Bytes → Option Bytes
key_of_decoded none = none
key_of_decoded (some b) = if length b == 32 then some (copy b (replicate 32 0)) else none

unfoldable pub key_of_text : Bytes → Option Bytes
key_of_text s = key_of_decoded (decode_string s)

-- The first endpoint that can be resolved.
unfoldable pub first_resolved : (Bytes → Option Bytes) → List Bytes → Option Bytes
first_resolved resolve [] = none
first_resolved resolve (e ∷ es) = elim (resolve e) [
  | some addr ↦ some addr
  | none ↦ first_resolved resolve es
]

abbrev pub is_up : Option Ref → PeerManager → Bool
is_up none peers = false
is_up (some r) peers = peer_is is_connected r peers

abbrev pub remove_parsed : Result AddressError Bytes → Node → Node
remove_parsed (err e) node = node
remove_parsed (ok addr) node = record node { peers = remove_peer addr node.peers }

abbrev pub set_psk : Bytes → Client → Client
set_psk psk cl = record cl { agent = at_node (λ node. record node { psk = psk }) cl.agent }

abbrev pub or_default : ℕ → ℕ
or_default mtu = if mtu == 0 then 2800 else mtu

-- The network and the device that a first configuration sets up.
abbrev pub set_up : ℕ → NetworkConfig → Client → Client
set_up id msg cl = record cl {
  agent = record cl.agent {
    network = some (record { switch = new_switch id; arp = new_arp_proxy });
  };
  has_device = true;
  mac = some (generate_mac id cl.address);
  ip = parse_cidr msg.assigned_ip;
}

module _ (c : Crypto) (fails : List Datagram → Datagram → Bool) (pool : Bytes)
    (resolve : Bytes → Option Bytes) where
  -- The keys from `psk`, and a cipher of them for a new peer, which is then greeted.
  abbrev pub greet : ℕ → Bytes → Bytes → PeerManager × Ref → Node → Node
  greet now psk key (peers, r) node =
      let (send_key, recv_key) = derive_keys_from_psk c psk node.public_key key in
      send_hello c fails pool now r (
        change_peer r (set_cipher now (new_noise_cipher send_key recv_key))
          (record node { peers = peers }))

  abbrev pub add_resolved : ℕ → Bytes → Bytes → Option Bytes → Node → Node
  add_resolved now psk key none node = node
  add_resolved now psk key (some endpoint) node =
      greet now psk key (add_peer (address_from_public_key c key) key (some endpoint) node.peers)
        node

  abbrev pub add_known_key : ℕ → Bytes → List Bytes → Option Bytes → Node → Node
  add_known_key now psk endpoints none node = node
  add_known_key now psk endpoints (some key) node =
      if is_up (get_peer (address_from_public_key c key) node.peers) node.peers
      then node
      else add_resolved now psk key (first_resolved resolve endpoints) node

  -- `addPeerFromInfo`.
  unfoldable pub add_peer_from_info : ℕ → Bytes → PeerInfo → Node → Node
  add_peer_from_info now psk info node =
      add_known_key now psk info.endpoints (key_of_text info.public_key) node

  unfoldable pub add_peers : ℕ → Bytes → List PeerInfo → Node → Node
  add_peers now psk [] node = node
  add_peers now psk (info ∷ infos) node =
      add_peers now psk infos (add_peer_from_info now psk info node)

  -- `handlePeerUpdate`.
  unfoldable pub handle_peer_update : ℕ → PeerAction → PeerInfo → Node → Node
  handle_peer_update now add_action info node = add_peer_from_info now node.psk info node
  handle_peer_update now remove_action info node =
      remove_parsed (address_from_hex info.address) node
  handle_peer_update now other_action info node = node

  abbrev pub connect_all : ℕ → Bytes → List PeerInfo → Client → Client
  connect_all now psk infos cl = record cl { agent = at_node (add_peers now psk infos) cl.agent }

  -- The configuration once its key is parsed: the peers get the key `psk` of the message.
  abbrev pub configure : ℕ → Bool → Bytes → NetworkConfig → Client → Client
  configure now tap psk msg cl =
      let id = sscanf_uint msg.network_id in
      let named = record cl { network_id = id } in
      let sized = record named { tap_mtu = or_default msg.mtu } in
      if cl.has_device
      then connect_all now psk msg.peers named
      else if tap
      then connect_all now psk msg.peers (set_up id msg sized)
      else sized

  abbrev pub configure_keyed : ℕ → Bool → NetworkConfig → Option Bytes → Client → Client
  configure_keyed now tap msg none cl = cl
  configure_keyed now tap msg (some psk) cl = configure now tap psk msg (set_psk psk cl)

  -- Without a key in the message the agent keeps its own, and the peers get one of zeros.
  abbrev pub configure_text : ℕ → Bool → NetworkConfig → Bytes → Client → Client
  configure_text now tap msg [] cl = configure now tap (replicate 32 0) msg cl
  configure_text now tap msg (x ∷ xs) cl = configure_keyed now tap msg (key_of_text (x ∷ xs)) cl

  -- `handleNetworkConfig`.
  unfoldable pub handle_network_config : ℕ → Bool → NetworkConfig → Client → Client
  handle_network_config now tap msg cl = configure_text now tap msg msg.psk cl

  -- A message of `readLoop`, none where it cannot be parsed.
  unfoldable pub handle_controller_message : ℕ → Bool → Option ControllerMessage → Client → Client
  handle_controller_message now tap none cl = cl
  handle_controller_message now tap (some (network_config msg)) cl =
      handle_network_config now tap msg cl
  handle_controller_message now tap (some (peer_update action info)) cl = record cl {
    agent = at_node (handle_peer_update now action info) cl.agent;
  }
  handle_controller_message now tap (some (error code)) cl = cl
