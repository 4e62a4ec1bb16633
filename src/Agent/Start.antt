-- ===== src/Agent/Start.antt =====
-- internal/agent/agent.go, lines 38 to 249: how an agent is made, started and stopped. `bound` says
-- whether the transport could be opened, `device` is none where the device could not be created and
-- else says whether it is a TUN device. What the device and the transport are told, whose errors
-- are only logged, is left out, but for the addresses of the device. `resolve` stands for
-- `net.ResolveUDPAddr`.
pub mod Connections
pub mod Connected
pub mod Started
pub mod Stopped
mod Tests
use zerogo.Base.{
  ℕ, Bool, true, false, Option, none, some, List, [], ◌∷◌, Bytes, replicate, copy, if◌then◌else◌,
  Result, ok, err,
}
use zerogo.Crypto.{Crypto}
use zerogo.Identity.{Identity, decode_string, address_from_public_key}
use zerogo.Protocol.Cidr.{parse_cidr}
use zerogo.Vl1.Peer.{Peer, has_ice, close_ice}
use zerogo.Vl1.Manager.{Ref, PeerManager, new_peer_manager, add_peer, all_peers, peer_is}
use zerogo.Vl2.Mac.{generate_mac}
use zerogo.Vl2.Switch.{new_switch}
use zerogo.Vl2.Arp.{ArpCache, new_arp_proxy, seed}
use zerogo.Agent.{Datagram, Node, change_peer, initiate_handshake}
use zerogo.Agent.Receive.{Agent, Network, at_node, set_keepalive}
use zerogo.Agent.Client.{Client}

-- A static peer of the configuration.
pub record PeerEndpoint : Type 0 where
  pub public_key : Bytes
  pub address : Bytes

-- What `Start` reads of `Config` and `Client` does not have. `controlled` says whether there is a
-- controller's URL.
pub record Config : Type 0 where
  pub controlled : Bool
  pub tap_ipv4 : Bytes
  pub static_peers : List PeerEndpoint

pub data StartError : Type 0 where
  no_transport no_device : StartError

-- `New`, once the identity is loaded: the device comes later.
unfoldable pub new_agent : Identity → Bytes → Bool → ℕ → ℕ → Client
new_agent identity psk gaming network_id mtu = record {
  agent = record {
    node = record {
      public_key = identity.public_key;
      psk = psk;
      gaming = gaming;
      peers = new_peer_manager;
      sent = [];
    };
    network = none;
    device = record { is_tun = false; written = []; kernel_arp = [] };
  };
  address = identity.address;
  network_id = network_id;
  tap_mtu = mtu;
  has_device = false;
  mac = none;
  ip = none;
}

-- A TUN device's own address is put into the cache.
abbrev pub seed_own : ℕ → Bool → Bytes → Option (Bytes × ℕ) → ArpCache → ArpCache
seed_own now true mac (some (ip, ones)) cache = seed now ip mac cache
seed_own now is_tun mac _ cache = cache

-- The network and the device of an agent without a controller.
abbrev pub start_network : ℕ → Bool → Bytes → Client → Client
start_network now is_tun tap_ipv4 cl =
    let mac = generate_mac cl.network_id cl.address in
    let ip = parse_cidr tap_ipv4 in
    record cl {
      agent = record cl.agent {
        network = some (record {
          switch = new_switch cl.network_id;
          arp = seed_own now is_tun mac ip new_arp_proxy;
        });
        device = record { is_tun = is_tun; written = []; kernel_arp = [] };
      };
      has_device = true;
      mac = some mac;
      ip = ip;
    }

-- `for _, peer := range a.peers.AllPeers() { if peer.HasICE() { peer.CloseICE() } }`.
unfoldable pub close_each : List Ref → Node → Node
close_each [] node = node
close_each (r ∷ rs) node =
    close_each rs
      (if peer_is has_ice r node.peers then change_peer r (λ p. (close_ice p).0) node else node)

-- `Stop`, as far as it changes the peers.
unfoldable pub stop : Node → Node
stop node = close_each (all_peers node.peers) node

module _ (c : Crypto) (fails : List Datagram → Datagram → Bool) (pool : Bytes)
    (resolve : Bytes → Option Bytes) where
  abbrev pub add_static : ℕ → PeerManager × Ref → Node → Node
  add_static now (peers, r) node =
      initiate_handshake c fails pool now r
        (change_peer r (set_keepalive node.gaming) (record node { peers = peers }))

  -- A key of another length than 32 bytes is cut or filled up with zeros.
  abbrev pub add_parsed : ℕ → Option Bytes → Option Bytes → Node → Node
  add_parsed now none key node = node
  add_parsed now (some endpoint) none node = node
  add_parsed now (some endpoint) (some bytes) node =
      let key = copy bytes (replicate 32 0) in
      add_static now (add_peer (address_from_public_key c key) key (some endpoint) node.peers) node

  unfoldable pub add_static_peers : ℕ → List PeerEndpoint → Node → Node
  add_static_peers now [] node = node
  add_static_peers now (sp ∷ rest) node =
      add_static_peers now rest
        (add_parsed now (resolve sp.address) (decode_string sp.public_key) node)

  abbrev pub start_static : ℕ → Option Bool → Config → Client → Result StartError Client
  start_static now none config cl = err no_device
  start_static now (some is_tun) config cl =
      let ready = start_network now is_tun config.tap_ipv4 cl in
      ok (record ready { agent = at_node (add_static_peers now config.static_peers) ready.agent })

  -- `Start`. With a controller, the device waits for the controller's configuration.
  unfoldable pub start : ℕ → Bool → Option Bool → Config → Client → Result StartError Client
  start now false device config cl = err no_transport
  start now true device config cl =
      if config.controlled then ok cl else start_static now device config cl
