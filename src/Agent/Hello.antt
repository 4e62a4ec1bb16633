-- ===== src/Agent/Hello.antt =====
-- Hellos (internal/agent/agent.go, lines 485 to 527 and 583 to 622).
use zerogo.Base.{
  ℕ, ◌≤◌, ◌≡◌, inl, inr, refl, Bool, true, false, Option, none, some, List, Bytes, length, take,
  replicate, copy, ltb, if◌then◌else◌, ◌==◌, get_elem?-modify, get_elem?-length, get-insert_self,
  arith, Bool-cases,
}
use zerogo.Crypto.{Crypto}
use zerogo.Identity.{address_from_public_key}
use zerogo.Vl1.Noise.{derive_keys_from_psk}
use zerogo.Vl1.Cipher.{new_noise_cipher}
use zerogo.Vl1.Peer.{Peer, new_peer, touch, set_cipher, is_connected}
use zerogo.Vl1.Manager.{Ref, get_peer, get_peer_by_endpoint, move, with_endpoint}
use zerogo.Vl1.Manager.Soundness.{IsSound, fresh, update_known, add_peer_unknown, get_elem?-moved}
use zerogo.Agent.{
  Datagram, Node, peer_at, change_peer, connect, initiate_with, initiate_handshake, post_hello,
  send_hello, sent_at, write,
}
use zerogo.Agent.Receive.{
  connect_if_down, known_hello, new_hello, hello_of, handle_handshake, set_keepalive,
}

pub change_peer-get :
    (r : Ref) (f : Peer → Peer) (node : Node) (p : Peer)
    → peer_at r node ≡ some p
    → peer_at r (change_peer r f node) ≡ some (f p)
change_peer-get r f node p at = ground (arith, get_elem?-modify r f node.peers.heap r)

-- The peer is found by its address and by its endpoint, is connected, and was seen now.
pub record IsUp (now : ℕ) (addr from : Bytes) (node : Node) : Type 0 where
  pub ref : Ref
  pub peer : Peer
  pub by_address : get_peer addr node.peers ≡ some ref
  pub by_endpoint : get_peer_by_endpoint from node.peers ≡ some ref
  pub there : peer_at ref node ≡ some peer
  pub connected : is_connected peer ≡ true
  pub seen : peer.last_seen ≡ now

module _ (c : Crypto) (fails : List Datagram → Datagram → Bool) (pool : Bytes) where
  connect-IsUp :
      (now : ℕ) (key addr from : Bytes) (r : Ref) (node : Node) (p : Peer)
      → get_peer addr node.peers ≡ some r
      → get_peer_by_endpoint from node.peers ≡ some r
      → peer_at r node ≡ some p
      → IsUp now addr from (connect c fails pool now r key node)
  unfolding get_peer get_peer_by_endpoint set_cipher is_connected
  connect-IsUp now key addr from r node p a e at =
      let (send_key, recv_key) = derive_keys_from_psk c node.psk node.public_key key in
      record {
        ref = r;
        peer = set_cipher now (new_noise_cipher send_key recv_key) p;
        by_address = a;
        by_endpoint = e;
        there = change_peer-get r _ node p at;
        connected = refl;
        seen = refl;
      }

  pub post_hello-IsUp :
      (now : ℕ) (addr from : Bytes) (r : Ref) (o : Option Datagram) (node : Node)
      → IsUp now addr from node
      → IsUp now addr from (post_hello c fails pool now r o node)
  unfolding get_peer get_peer_by_endpoint is_connected
  post_hello-IsUp now addr from r none node u = u
  post_hello-IsUp now addr from r (some d) node u = elim (Bool-cases (fails node.sent d)) [
    | inl failed ↦ rw failed (record {
      ref = u.ref;
      peer = u.peer;
      by_address = u.by_address;
      by_endpoint = u.by_endpoint;
      there = u.there;
      connected = u.connected;
      seen = u.seen;
    })
    | inr written ↦ rw written (record {
      ref = u.ref;
      peer = if r == u.ref then sent_at now u.peer else u.peer;
      by_address = u.by_address;
      by_endpoint = u.by_endpoint;
      there = ground (arith, get_elem?-modify r (sent_at now) node.peers.heap u.ref, u.there);
      connected = ground (arith, u.connected);
      seen = ground (arith, u.seen);
    })
  ]

  connect_if_down-IsUp :
      (now : ℕ) (key addr from : Bytes) (r : Ref) (o : Option Peer) (node : Node) (p : Peer)
      → get_peer addr node.peers ≡ some r
      → get_peer_by_endpoint from node.peers ≡ some r
      → peer_at r node ≡ some p
      → p.last_seen ≡ now
      → o ≡ some p
      → IsUp now addr from (connect_if_down c fails pool now key r o node)
  connect_if_down-IsUp now key addr from r none node p a e at seen eq = absurd (cc)
  connect_if_down-IsUp now key addr from r (some q) node p a e at seen eq =
      elim (Bool-cases (is_connected q)) [
        | inl up ↦ rw up (record {
          ref = r;
          peer = p;
          by_address = a;
          by_endpoint = e;
          there = at;
          connected = ground arith;
          seen = seen;
        })
        | inr down ↦ rw down (connect-IsUp now key addr from r node p a e at)
      ]

  known_hello-IsUp :
      (now : ℕ) (key addr from : Bytes) (r : Ref) (node : Node)
      → IsSound node.peers
      → get_peer addr node.peers ≡ some r
      → IsUp now addr from (known_hello c fails pool now key addr from r node)
  unfolding known_hello get_peer get_peer_by_endpoint move touch
  known_hello-IsUp now key addr from r node s known =
      let (p, at, named) = s.registered addr r known in
      let before = record node { peers = move r (some from) node.peers } in
      let moved = change_peer r (touch now) before in
      let there =
        change_peer-get r (touch now) before (with_endpoint (some from) p)
          (ground (arith, get_elem?-moved r (some from) node.peers.heap r p at)) in
      rw (update_known addr (some from) r node.peers known) (
        connect_if_down-IsUp now key addr from r (peer_at r moved) moved
          (touch now (with_endpoint (some from) p)) known (get-insert_self from r _) there refl
          there)

  new_hello-IsUp :
      (now : ℕ) (key addr from : Bytes) (node : Node)
      → get_peer addr node.peers ≡ none
      → IsUp now addr from (new_hello c fails pool now key addr from node)
  unfolding new_hello get_peer get_peer_by_endpoint send_hello
  new_hello-IsUp now key addr from node unknown =
      let r = length node.peers.heap in
      let p = new_peer addr key (some from) in
      let fresh_peers = fresh addr key node.peers (some from) in
      let added = record node { peers = fresh_peers } in
      let kept = change_peer r (set_keepalive node.gaming) added in
      let there =
        change_peer-get r (set_keepalive node.gaming) added p
          (get_elem?-length node.peers.heap p) in
      rw (add_peer_unknown addr key node.peers (some from) unknown) (
        post_hello-IsUp now addr from r _ (connect c fails pool now r key kept) (
          connect-IsUp now key addr from r kept (set_keepalive node.gaming p)
            (get-insert_self addr r node.peers.peers)
            (get-insert_self from r node.peers.endpoint_idx) there))

  hello_of-IsUp :
      (now : ℕ) (key addr from : Bytes) (o : Option Ref) (node : Node)
      → IsSound node.peers
      → get_peer addr node.peers ≡ o
      → IsUp now addr from (hello_of c fails pool now key addr from o node)
  hello_of-IsUp now key addr from none node s e = new_hello-IsUp now key addr from node e
  hello_of-IsUp now key addr from (some r) node s e = known_hello-IsUp now key addr from r node s e

  -- A hello of at least 32 bytes connects its sender, known or not: afterwards the peer whose
  -- address is that of the first 32 bytes is found by that address and by the packet's source, is
  -- connected, and was seen now. The index of endpoints is right before.
  pub handle_handshake-IsUp :
      (now : ℕ) (payload from : Bytes) (node : Node)
      → IsSound node.peers
      → 32 ≤ length payload
      → IsUp now
          (address_from_public_key c (copy (take 32 payload) (replicate 32 0)))
          from
          (handle_handshake c fails pool now payload from node)
  unfolding handle_handshake get_peer
  handle_handshake-IsUp now payload from node s long =
      let key = copy (take 32 payload) (replicate 32 0) in
      let addr = address_from_public_key c key in
      let enough : ltb (length payload) 32 ≡ false = ground arith in
      rw enough (hello_of-IsUp now key addr from (get_peer addr node.peers) node s refl)

  post_hello-cipher :
      (now : ℕ) (r : Ref) (o : Option Datagram) (node : Node) (p : Peer)
      → peer_at r node ≡ some p
      → (q : Peer) × (peer_at r (post_hello c fails pool now r o node) ≡ some q)
        × (q.cipher ≡ p.cipher)
  post_hello-cipher now r none node p at = (p, at, refl)
  post_hello-cipher now r (some d) node p at = elim (Bool-cases (fails node.sent d)) [
    | inl failed ↦ rw failed (p, at, refl)
    | inr written ↦
        rw written (sent_at now p, change_peer-get r (sent_at now) (write d node) p at, refl)
  ]

  initiate_with_lem :
      (now : ℕ) (r : Ref) (o : Option Peer) (node : Node) (p : Peer)
      → peer_at r node ≡ some p
      → o ≡ some p
      → let (send_key, recv_key) = derive_keys_from_psk c node.psk node.public_key p.public_key in
        (q : Peer) × (peer_at r (initiate_with c fails pool now r o node) ≡ some q)
        × (q.cipher ≡ some (new_noise_cipher send_key recv_key))
  unfolding send_hello set_cipher
  initiate_with_lem now r none node p at e = absurd (cc)
  initiate_with_lem now r (some p') node p at e =
      let (send_key, recv_key) = derive_keys_from_psk c node.psk node.public_key p.public_key in
      let same : p' ≡ p = ground arith in
      let (q, there, kept) =
        post_hello-cipher now r _ (connect c fails pool now r p.public_key node)
          (set_cipher now (new_noise_cipher send_key recv_key) p) (change_peer-get r _ node p at) in
      rw same (q, there, kept)

  -- Whatever cipher a peer had and however much was encrypted with it, after `initiateHandshake` it
  -- has one and the same: that of the keys that the pre-shared key and the two public keys give,
  -- with both counters at 0.
  pub initiate_handshake_restarts :
      (now : ℕ) (r : Ref) (node : Node) (p : Peer)
      → peer_at r node ≡ some p
      → let (send_key, recv_key) = derive_keys_from_psk c node.psk node.public_key p.public_key in
        (q : Peer) × (peer_at r (initiate_handshake c fails pool now r node) ≡ some q)
        × (q.cipher ≡ some (new_noise_cipher send_key recv_key))
  unfolding initiate_handshake send_hello set_cipher
  initiate_handshake_restarts now r node p at =
      initiate_with_lem now r (peer_at r node) node p at at
