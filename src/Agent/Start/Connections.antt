-- ===== src/Agent/Start/Connections.antt =====
-- Which operations on peers leave a peer connected (internal/agent/agent.go, internal/vl1/peer.go).
use zerogo.Base.{
  ℕ, ◌≡◌, inl, inr, refl, Bool, true, false, Option, none, some, List, Bytes, length, get, insert,
  get-insert, get-insert_self, get_elem?-modify, get_elem?-push, get_elem?-length, bytes_eq,
  bytes_eq_iff, Table, if◌then◌else◌, ◌==◌, arith, Bool-cases, Option-cases,
}
use zerogo.Crypto.{Crypto}
use zerogo.Vl1.Noise.{derive_keys_from_psk}
use zerogo.Vl1.Cipher.{new_noise_cipher}
use zerogo.Vl1.Peer.{Peer, new_peer, set_cipher, is_connected}
use zerogo.Vl1.Manager.{Ref, get_peer, add_peer, move, with_endpoint}
use zerogo.Vl1.Manager.Soundness.{IsSound, add_peer_unknown, add_peer_moved, get_elem?-moved}
use zerogo.Agent.{
  Datagram, Node, peer_at, change_peer, connect, initiate_with, post_hello, send_hello, sent_at,
  write,
}
use zerogo.Agent.Receive.{set_keepalive}
use zerogo.Agent.Wellformed.{SamePlace}
use zerogo.Agent.Hello.{change_peer-get}

-- The peer of an address is known and connected.
pub record IsConnectedTo (addr : Bytes) (node : Node) : Type 0 where
  pub ref : Ref
  pub peer : Peer
  pub by_address : get_peer addr node.peers ≡ some ref
  pub there : peer_at ref node ≡ some peer
  pub connected : is_connected peer ≡ true

-- A change of one peer that does not disconnect it.
pub change_peer-IsConnectedTo :
    (addr : Bytes) (r : Ref) (f : Peer → Peer) (node : Node)
    → ((p : Peer) → is_connected p ≡ true → is_connected (f p) ≡ true)
    → IsConnectedTo addr node
    → IsConnectedTo addr (change_peer r f node)
unfolding get_peer
change_peer-IsConnectedTo addr r f node keeps h = record {
  ref = h.ref;
  peer = if r == h.ref then f h.peer else h.peer;
  by_address = h.by_address;
  there = ground (arith, get_elem?-modify r f node.peers.heap h.ref, h.there);
  connected = ground (arith, keeps h.peer h.connected, h.connected);
}

get-insert_other :
    (addr other : Bytes) (r : Ref) (m : Table Ref) (q : Ref)
    → get addr m ≡ none
    → get other m ≡ some q
    → get other (insert addr r m) ≡ some q
get-insert_other addr other r m q unknown found = elim (Bool-cases (bytes_eq addr other)) [
  | inl eq ↦
      let same : addr ≡ other = (bytes_eq_iff addr other).0 eq in absurd (cc (same, unknown, found))
  | inr ne ↦ ground (arith, get-insert addr other r m)
]

module _ (addr key endpoint : Bytes) (node : Node) where
  abbrev added : Node
  added = record node { peers = (add_peer addr key (some endpoint) node.peers).0 }

  -- A connected peer stays so when another one, or itself, is added.
  pub add_peer-IsConnectedTo :
      (other : Bytes) → IsConnectedTo other node → IsConnectedTo other added
  unfolding get_peer move is_connected
  add_peer-IsConnectedTo other h = elim (Option-cases (get addr node.peers.peers)) [
    | inl unknown ↦ rw (add_peer_unknown addr key node.peers (some endpoint) unknown) (record {
      ref = h.ref;
      peer = h.peer;
      by_address =
          get-insert_other addr other (length node.peers.heap) node.peers.peers h.ref unknown
            h.by_address;
      there =
          (get_elem?-push node.peers.heap (new_peer addr key (some endpoint)) h.ref h.peer
            h.there).0;
      connected = h.connected;
    })
    | inr (r, known) ↦ rw (add_peer_moved addr key node.peers endpoint r known) (record {
      ref = h.ref;
      peer = if r == h.ref then with_endpoint (some endpoint) h.peer else h.peer;
      by_address = h.by_address;
      there = get_elem?-moved r (some endpoint) node.peers.heap h.ref h.peer h.there;
      connected = ground (arith, h.connected);
    })
  ]

  -- The pointer that `AddPeer` returns is that of the address.
  pub add_peer_there :
      IsSound node.peers
      → (p : Peer) × (get_peer addr added.peers
          ≡ some (add_peer addr key (some endpoint) node.peers).1)
        × (peer_at (add_peer addr key (some endpoint) node.peers).1 added ≡ some p)
  unfolding get_peer move
  add_peer_there s = elim (Option-cases (get addr node.peers.peers)) [
    | inl unknown ↦ rw (add_peer_unknown addr key node.peers (some endpoint) unknown) (
      new_peer addr key (some endpoint),
      get-insert_self addr (length node.peers.heap) node.peers.peers,
      get_elem?-length node.peers.heap (new_peer addr key (some endpoint)),
    )
    | inr (r, known) ↦
        let (p, at, named) = s.registered addr r known in
        rw (add_peer_moved addr key node.peers endpoint r known) (
          with_endpoint (some endpoint) p,
          known,
          ground (arith, get_elem?-moved r (some endpoint) node.peers.heap r p at),
        )
  ]

module _ (c : Crypto) (fails : List Datagram → Datagram → Bool) (pool : Bytes) where
  post_hello-IsConnectedTo :
      (now : ℕ) (addr : Bytes) (r : Ref) (o : Option Datagram) (node : Node)
      → IsConnectedTo addr node
      → IsConnectedTo addr (post_hello c fails pool now r o node)
  unfolding is_connected
  post_hello-IsConnectedTo now addr r none node h = h
  post_hello-IsConnectedTo now addr r (some d) node h =
      let written : IsConnectedTo addr (write d node) = record {
        ref = h.ref;
        peer = h.peer;
        by_address = h.by_address;
        there = h.there;
        connected = h.connected;
      } in
      elim (Bool-cases (fails node.sent d)) [
        | inl failed ↦ rw failed written
        | inr sent ↦
            rw sent
              (change_peer-IsConnectedTo addr r (sent_at now) (write d node) (λ p up. up) written)
      ]

  connect-IsConnectedTo :
      (now : ℕ) (addr : Bytes) (r : Ref) (key : Bytes) (node : Node)
      → IsConnectedTo addr node
      → IsConnectedTo addr (connect c fails pool now r key node)
  unfolding set_cipher is_connected
  connect-IsConnectedTo now addr r key node h =
      let (send_key, recv_key) = derive_keys_from_psk c node.psk node.public_key key in
      change_peer-IsConnectedTo addr r (set_cipher now (new_noise_cipher send_key recv_key)) node
        (λ p up. refl) h

  -- A handshake disconnects nobody.
  pub initiate_with-IsConnectedTo :
      (now : ℕ) (addr : Bytes) (r : Ref) (o : Option Peer) (node : Node)
      → IsConnectedTo addr node
      → IsConnectedTo addr (initiate_with c fails pool now r o node)
  unfolding send_hello
  initiate_with-IsConnectedTo now addr r none node h = h
  initiate_with-IsConnectedTo now addr r (some p) node h =
      post_hello-IsConnectedTo now addr r _ _ (connect-IsConnectedTo now addr r p.public_key node h)

  -- It connects the peer that it is for.
  pub initiate_with_known :
      (now : ℕ) (addr : Bytes) (r : Ref) (o : Option Peer) (node : Node) (p : Peer)
      → get_peer addr node.peers ≡ some r
      → peer_at r node ≡ some p
      → o ≡ some p
      → IsConnectedTo addr (initiate_with c fails pool now r o node)
  unfolding send_hello set_cipher is_connected get_peer
  initiate_with_known now addr r none node p known at e = absurd cc
  initiate_with_known now addr r (some q) node p known at e =
      let (send_key, recv_key) = derive_keys_from_psk c node.psk node.public_key q.public_key in
      let set = set_cipher now (new_noise_cipher send_key recv_key) in
      post_hello-IsConnectedTo now addr r _ (change_peer r set node) (record {
        ref = r;
        peer = set p;
        by_address = known;
        there = change_peer-get r set node p at;
        connected = refl;
      })

pub set_keepalive-connected :
    (gaming : Bool) (p : Peer)
    → is_connected p ≡ true
    → is_connected (set_keepalive gaming p) ≡ true
unfolding is_connected
set_keepalive-connected true p up = up
set_keepalive-connected false p up = up

pub set_keepalive-SamePlace : (gaming : Bool) (p : Peer) → SamePlace (set_keepalive gaming p) p
set_keepalive-SamePlace true p = (refl, refl)
set_keepalive-SamePlace false p = (refl, refl)
