-- ===== src/Agent/Wellformed.antt =====
-- The invariant of the agent's state (internal/agent/agent.go): the index of endpoints, and the
-- switch's table.
pub mod Hellos
pub mod Packets
pub mod Rounds
pub mod Runs
use zerogo.Base.{
  ℕ, ◌≡◌, ◌≢◌, ◌⊎◌, inl, inr, refl, sym, ap, Bool, true, false, Option, none, some, List, [], ◌∷◌,
  Bytes, take, get, length, get_elem?, modify, get_elem?-modify, ◌==◌, if◌then◌else◌, arith,
  Option-cases, Bool-cases, Result-cases, Result, ok, err, bytes_eq,
}
use zerogo.Crypto.{Crypto}
use zerogo.Vl1.Packet.{header_size, encode_header}
use zerogo.Vl1.Peer.{Peer, encrypt_to_for, is_connected, set_cipher}
use zerogo.Vl2.Sender.{SendError, unknown_peer, peer_not_connected}
use zerogo.Vl1.Manager.{Ref, PeerManager, get_peer, connected_peers}
use zerogo.Vl1.Manager.Soundness.{IsSound, add_peer-IsSound, update_peer_endpoint-IsSound}
use zerogo.Vl2.Switch.Senders.{Keeps}
use zerogo.Agent.{
  offer, offer_unless, post, post_hello, hello_datagram, agent_sender, data_header, path_to,
  sent_at, write, Datagram, Node, peer_at, change_peer, data_packet, send_packet, send_to_peer,
  broadcast_each, broadcast_to_peers, send_hello, connect, initiate_with,
}

-- A peer in the place of another: the same address, the same endpoint.
abbrev pub SamePlace : Peer → Peer → Type 0
SamePlace p q = (p.address ≡ q.address) × (p.endpoint ≡ q.endpoint)

pub change_peer-IsSound :
    (r : Ref) (f : Peer → Peer) (node : Node)
    → ((p : Peer) → peer_at r node ≡ some p → SamePlace (f p) p)
    → IsSound node.peers
    → IsSound (change_peer r f node).peers
change_peer-IsSound r f node keeps s = record {
  distinct = s.distinct;
  registered = λ a q h.
      let (p, at, named) = s.registered a q h in
      let same : (if r == q then f p else p).address ≡ p.address = ground (arith, keeps p) in
      (
        (if r == q then f p else p),
        ground (arith, get_elem?-modify r f node.peers.heap q),
        ground arith,
      );
  indexed = λ e q h.
      let (p, at, has, reg) = s.indexed e q h in
      let same : SamePlace (if r == q then f p else p) p = ground (arith, keeps p) in
      (
        (if r == q then f p else p),
        ground (arith, get_elem?-modify r f node.peers.heap q),
        ground arith,
        ground arith,
      );
}

module _ (c : Crypto) (fails : List Datagram → Datagram → Bool) (pool : Bytes) where
  data_packet-SamePlace :
      (id : ℕ) (frame : Bytes) (p : Peer) → SamePlace (data_packet c pool id frame p).0 p
  unfolding data_packet encrypt_to_for
  data_packet-SamePlace id frame p =
      elim (Option-cases (encode_header (data_header id) (take header_size pool))) [
        | inl short ↦ rw (short, data_packet) (refl, refl)
        | inr (header, e) ↦ elim (Option-cases (p.cipher)) [
          | inl without ↦ rw (e, data_packet, without) (refl, refl)
          | inr (nc, has) ↦ rw (e, data_packet, has) (refl, refl)
        ]
      ]

  store-IsSound :
      (r : Ref) (p q : Peer) (node : Node)
      → peer_at r node ≡ some q
      → SamePlace p q
      → IsSound node.peers
      → IsSound (change_peer r (λ _. p) node).peers
  store-IsSound r p q node at same s =
      change_peer-IsSound r (λ _. p) node (λ p' at'. ground arith) s

  send_packet-IsSound :
      (now : ℕ) (r : Ref) (p q : Peer) (m : Result SendError Bytes) (node : Node)
      → peer_at r node ≡ some q
      → SamePlace p q
      → IsSound node.peers
      → IsSound (send_packet c fails pool now r (p, m) node).0.peers
  unfolding send_packet
  send_packet-IsSound now r p q (err e) node at same s = store-IsSound r p q node at same s
  send_packet-IsSound now r p q (ok packet) node at same s =
      elim (Option-cases (path_to p packet)) [
        | inl nowhere ↦ rw nowhere (store-IsSound r p q node at same s)
        | inr (d, e) ↦ rw e (
            change_peer-IsSound r (sent_at now) (write d (change_peer r (λ _. p) node))
              (λ _ _. (refl, refl)) (store-IsSound r p q node at same s))
      ]

  send_unknown :
      (now : ℕ) (addr : Bytes) (id : ℕ) (frame : Bytes) (node : Node)
      → get_peer addr node.peers ≡ none
      → send_to_peer c fails pool now addr id frame node ≡ (node, some unknown_peer)
  unfolding send_to_peer
  send_unknown now addr id frame node e = rw (e, send_to_peer) refl

  send_dangling :
      (now : ℕ) (addr : Bytes) (id : ℕ) (frame : Bytes) (node : Node) (r : Ref)
      → get_peer addr node.peers ≡ some r
      → peer_at r node ≡ none
      → send_to_peer c fails pool now addr id frame node ≡ (node, some unknown_peer)
  unfolding send_to_peer
  send_dangling now addr id frame node r e at = rw (e, send_to_peer, at) refl

  pub send_connected :
      (now : ℕ) (addr : Bytes) (id : ℕ) (frame : Bytes) (node : Node) (r : Ref) (p : Peer)
      → get_peer addr node.peers ≡ some r
      → peer_at r node ≡ some p
      → is_connected p ≡ true
      → send_to_peer c fails pool now addr id frame node
        ≡ send_packet c fails pool now r (data_packet c pool id frame p) node
  unfolding send_to_peer
  send_connected now addr id frame node r p e at up = rw (e, send_to_peer, at, up) refl

  send_disconnected :
      (now : ℕ) (addr : Bytes) (id : ℕ) (frame : Bytes) (node : Node) (r : Ref) (p : Peer)
      → get_peer addr node.peers ≡ some r
      → peer_at r node ≡ some p
      → is_connected p ≡ false
      → send_to_peer c fails pool now addr id frame node ≡ (node, some peer_not_connected)
  unfolding send_to_peer
  send_disconnected now addr id frame node r p e at down = rw (e, send_to_peer, at, down) refl

  pub send_to_peer-IsSound :
      (now : ℕ) (addr : Bytes) (id : ℕ) (frame : Bytes) (node : Node)
      → IsSound node.peers
      → IsSound (send_to_peer c fails pool now addr id frame node).0.peers
  send_to_peer-IsSound now addr id frame node s = elim (Option-cases (get_peer addr node.peers)) [
    | inl unknown ↦ rw (send_unknown now addr id frame node unknown) s
    | inr (r, known) ↦ elim (Option-cases (peer_at r node)) [
      | inl nothing ↦ rw (send_dangling now addr id frame node r known nothing) s
      | inr (p, at) ↦ elim (Bool-cases (is_connected p)) [
        | inl up ↦ rw (send_connected now addr id frame node r p known at up) (
            send_packet-IsSound now r (data_packet c pool id frame p).0 p
              (data_packet c pool id frame p).1 node at (data_packet-SamePlace id frame p) s)
        | inr down ↦ rw (send_disconnected now addr id frame node r p known at down) s
      ]
    ]
  ]

  offer-IsSound :
      (r : Ref) (p q : Peer) (m : Result SendError Bytes) (node : Node)
      → peer_at r node ≡ some q
      → SamePlace p q
      → IsSound node.peers
      → IsSound (offer c fails pool r (p, m) node).peers
  offer-IsSound r p q (err e) node at same s = store-IsSound r p q node at same s
  offer-IsSound r p q (ok packet) node at same s =
      posted (path_to p packet) (store-IsSound r p q node at same s)
    where
      posted :
          (o : Option Datagram)
          → IsSound (change_peer r (λ _. p) node).peers
          → IsSound (post c fails pool o (change_peer r (λ _. p) node)).peers
      posted none t = t
      posted (some d) t = t

  offer_unless-IsSound :
      (id : ℕ) (frame exclude : Bytes) (r : Ref) (o : Option Peer) (node : Node)
      → peer_at r node ≡ o
      → IsSound node.peers
      → IsSound (offer_unless c fails pool id frame exclude r o node).peers
  offer_unless-IsSound id frame exclude r none node at s = s
  offer_unless-IsSound id frame exclude r (some p) node at s =
      elim (Bool-cases (bytes_eq p.address exclude)) [
        | inl skipped ↦ rw skipped s
        | inr offered ↦ rw offered (
            offer-IsSound r (data_packet c pool id frame p).0 p (data_packet c pool id frame p).1
              node at (data_packet-SamePlace id frame p) s)
      ]

  broadcast_each-IsSound :
      (id : ℕ) (frame exclude : Bytes) (rs : List Ref) (node : Node)
      → IsSound node.peers
      → IsSound (broadcast_each c fails pool id frame exclude rs node).peers
  unfolding broadcast_each
  broadcast_each-IsSound id frame exclude [] node s = s
  broadcast_each-IsSound id frame exclude (r ∷ rs) node s =
      broadcast_each-IsSound id frame exclude rs
        (offer_unless c fails pool id frame exclude r (peer_at r node) node)
        (offer_unless-IsSound id frame exclude r (peer_at r node) node refl s)

  broadcast_to_peers-IsSound :
      (id : ℕ) (frame exclude : Bytes) (node : Node)
      → IsSound node.peers
      → IsSound (broadcast_to_peers c fails pool id frame exclude node).0.peers
  unfolding broadcast_to_peers
  broadcast_to_peers-IsSound id frame exclude node s =
      broadcast_each-IsSound id frame exclude (connected_peers node.peers) node s

  abbrev pub HasSoundPeers : Node → Type 0
  HasSoundPeers node = IsSound node.peers

  pub agent_sender-Keeps : (now : ℕ) → Keeps HasSoundPeers (agent_sender c fails pool now)
  agent_sender-Keeps now = record {
    on_send = send_to_peer-IsSound now;
    on_broadcast = broadcast_to_peers-IsSound;
  }

  pub connect-IsSound :
      (now : ℕ) (r : Ref) (key : Bytes) (node : Node)
      → IsSound node.peers
      → IsSound (connect c fails pool now r key node).peers
  unfolding set_cipher
  connect-IsSound now r key node s = change_peer-IsSound r _ node (λ p at. (refl, refl)) s

  post_hello-IsSound :
      (now : ℕ) (r : Ref) (o : Option Datagram) (node : Node)
      → IsSound node.peers
      → IsSound (post_hello c fails pool now r o node).peers
  post_hello-IsSound now r none node s = s
  post_hello-IsSound now r (some d) node s = elim (Bool-cases (fails node.sent d)) [
    | inl failed ↦ rw failed s
    | inr written ↦
        rw written (change_peer-IsSound r (sent_at now) (write d node) (λ _ _. (refl, refl)) s)
  ]

  pub send_hello-IsSound :
      (now : ℕ) (r : Ref) (node : Node)
      → IsSound node.peers
      → IsSound (send_hello c fails pool now r node).peers
  unfolding send_hello
  send_hello-IsSound now r node s =
      post_hello-IsSound now r (hello_datagram c fails pool node.public_key (peer_at r node)) node s

  pub initiate_with-IsSound :
      (now : ℕ) (r : Ref) (o : Option Peer) (node : Node)
      → IsSound node.peers
      → IsSound (initiate_with c fails pool now r o node).peers
  initiate_with-IsSound now r none node s = s
  initiate_with-IsSound now r (some p) node s =
      send_hello-IsSound now r (connect c fails pool now r p.public_key node)
        (connect-IsSound now r p.public_key node s)
