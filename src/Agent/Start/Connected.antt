-- ===== src/Agent/Start/Connected.antt =====
-- Which peers a started agent has (internal/agent/agent.go, lines 59 to 249).
use zerogo.Base.{
  ℕ, ◌≡◌, refl, Bool, true, false, Option, none, some, List, [], ◌∷◌, ◌++◌, Bytes, replicate, copy,
  get_elem?, ok,
}
use zerogo.Crypto.{Crypto}
use zerogo.Identity.{decode_string, address_from_public_key}
use zerogo.Vl1.Peer.{Peer}
use zerogo.Vl1.Manager.{Ref, PeerManager, get_peer, add_peer}
use zerogo.Vl1.Manager.Soundness.{IsSound, add_peer-IsSound}
use zerogo.Agent.{Datagram, Node, initiate_handshake}
use zerogo.Agent.Receive.{set_keepalive}
use zerogo.Agent.Wellformed.{change_peer-IsSound, initiate_with-IsSound}
use zerogo.Agent.Hello.{change_peer-get}
use zerogo.Agent.Client.{Client}
use zerogo.Agent.Start.{PeerEndpoint, Config, start, add_static, add_static_peers, add_parsed}
use zerogo.Agent.Start.Connections.{
  IsConnectedTo, change_peer-IsConnectedTo, add_peer-IsConnectedTo, add_peer_there,
  initiate_with-IsConnectedTo, initiate_with_known, set_keepalive-connected,
  set_keepalive-SamePlace,
}

module _ (c : Crypto) (fails : List Datagram → Datagram → Bool) (pool : Bytes)
    (resolve : Bytes → Option Bytes) where
  add_static-IsSound :
      (now : ℕ) (peers : PeerManager) (r : Ref) (node : Node)
      → IsSound peers
      → IsSound (add_static c fails pool resolve now (peers, r) node).peers
  unfolding initiate_handshake
  add_static-IsSound now peers r node s =
      let before = record node { peers = peers } in
      initiate_with-IsSound c fails pool now r _ _ (
        change_peer-IsSound r (set_keepalive node.gaming) before
          (λ p at. set_keepalive-SamePlace node.gaming p) s)

  add_static-IsConnectedTo :
      (now : ℕ) (addr : Bytes) (peers : PeerManager) (r : Ref) (node : Node)
      → IsConnectedTo addr (record node { peers = peers })
      → IsConnectedTo addr (add_static c fails pool resolve now (peers, r) node)
  unfolding initiate_handshake
  add_static-IsConnectedTo now addr peers r node h =
      initiate_with-IsConnectedTo c fails pool now addr r _ _ (
        change_peer-IsConnectedTo addr r (set_keepalive node.gaming) _
          (set_keepalive-connected node.gaming) h)

  add_static_known :
      (now : ℕ) (addr : Bytes) (peers : PeerManager) (r : Ref) (node : Node) (p : Peer)
      → get_peer addr peers ≡ some r
      → get_elem? peers.heap r ≡ some p
      → IsConnectedTo addr (add_static c fails pool resolve now (peers, r) node)
  unfolding initiate_handshake get_peer
  add_static_known now addr peers r node p known at =
      let before = record node { peers = peers } in
      let there = change_peer-get r (set_keepalive node.gaming) before p at in
      initiate_with_known c fails pool now addr r _ _ (set_keepalive node.gaming p) known there
        there

  add_parsed-IsSound :
      (now : ℕ) (e key : Option Bytes) (node : Node)
      → IsSound node.peers
      → IsSound (add_parsed c fails pool resolve now e key node).peers
  add_parsed-IsSound now none key node s = s
  add_parsed-IsSound now (some endpoint) none node s = s
  add_parsed-IsSound now (some endpoint) (some bytes) node s =
      let key = copy bytes (replicate 32 0) in
      let addr = address_from_public_key c key in
      let (peers, r) = add_peer addr key (some endpoint) node.peers in
      add_static-IsSound now peers r node (add_peer-IsSound addr key (some endpoint) node.peers s)

  add_parsed-IsConnectedTo :
      (now : ℕ) (addr : Bytes) (e key : Option Bytes) (node : Node)
      → IsConnectedTo addr node
      → IsConnectedTo addr (add_parsed c fails pool resolve now e key node)
  add_parsed-IsConnectedTo now addr none key node h = h
  add_parsed-IsConnectedTo now addr (some endpoint) none node h = h
  add_parsed-IsConnectedTo now addr (some endpoint) (some bytes) node h =
      let key = copy bytes (replicate 32 0) in
      let other = address_from_public_key c key in
      let (peers, r) = add_peer other key (some endpoint) node.peers in
      add_static-IsConnectedTo now addr peers r node
        (add_peer-IsConnectedTo other key endpoint node addr h)

  pub add_static_peers-IsSound :
      (now : ℕ) (sps : List PeerEndpoint) (node : Node)
      → IsSound node.peers
      → IsSound (add_static_peers c fails pool resolve now sps node).peers
  unfolding add_static_peers
  add_static_peers-IsSound now [] node s = s
  add_static_peers-IsSound now (sp ∷ sps) node s =
      add_static_peers-IsSound now sps _
        (add_parsed-IsSound now (resolve sp.address) (decode_string sp.public_key) node s)

  add_static_peers-IsConnectedTo :
      (now : ℕ) (addr : Bytes) (sps : List PeerEndpoint) (node : Node)
      → IsConnectedTo addr node
      → IsConnectedTo addr (add_static_peers c fails pool resolve now sps node)
  unfolding add_static_peers
  add_static_peers-IsConnectedTo now addr [] node h = h
  add_static_peers-IsConnectedTo now addr (sp ∷ sps) node h =
      add_static_peers-IsConnectedTo now addr sps _ (
        add_parsed-IsConnectedTo now addr (resolve sp.address) (decode_string sp.public_key) node h)

  add_static_peers_lem :
      (now : ℕ) (pre : List PeerEndpoint) (sp : PeerEndpoint) (post : List PeerEndpoint)
      (endpoint bytes : Bytes) (node : Node)
      → IsSound node.peers
      → resolve sp.address ≡ some endpoint
      → decode_string sp.public_key ≡ some bytes
      → IsConnectedTo
          (address_from_public_key c (copy bytes (replicate 32 0)))
          (add_static_peers c fails pool resolve now (pre ++ sp ∷ post) node)
  unfolding add_static_peers
  add_static_peers_lem now [] sp post endpoint bytes node s resolved decoded =
      let key = copy bytes (replicate 32 0) in
      let addr = address_from_public_key c key in
      let (peers, r) = add_peer addr key (some endpoint) node.peers in
      let (p, known, at) = add_peer_there addr key endpoint node s in
      add_static_peers-IsConnectedTo now addr post _
        (rw (resolved, decoded) (add_static_known now addr peers r node p known at))
  add_static_peers_lem now (q ∷ pre) sp post endpoint bytes node s resolved decoded =
      add_static_peers_lem now pre sp post endpoint bytes _
        (add_parsed-IsSound now (resolve q.address) (decode_string q.public_key) node s) resolved
        decoded

  -- An agent without a controller, whose transport and device can be opened, starts; and then each
  -- of its static peers whose endpoint can be resolved and whose key is hexadecimal is known by the
  -- address of that key, and connected, whatever other static peers there are before and behind it.
  -- The index of endpoints is right before.
  pub start_connects :
      (now : ℕ) (is_tun : Bool) (config : Config) (cl : Client) (pre : List PeerEndpoint)
      (sp : PeerEndpoint) (post : List PeerEndpoint) (endpoint bytes : Bytes)
      → IsSound cl.agent.node.peers
      → config.controlled ≡ false
      → config.static_peers ≡ pre ++ sp ∷ post
      → resolve sp.address ≡ some endpoint
      → decode_string sp.public_key ≡ some bytes
      → (after : Client) × (start c fails pool resolve now true (some is_tun) config cl ≡ ok after)
        × IsConnectedTo (address_from_public_key c (copy bytes (replicate 32 0))) after.agent.node
  unfolding start
  start_connects now is_tun config cl pre sp post endpoint bytes s alone listed resolved decoded =
      rw (alone, listed)
        (
          _,
          refl,
          add_static_peers_lem now pre sp post endpoint bytes cl.agent.node s resolved decoded,
        )
